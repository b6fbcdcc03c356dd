-- ===== src/Base/Strings.antt =====
-- Go strings are sequences of bytes: a text is a list of numbers. The functions are those of the
-- packages strings, bytes and sort that the program calls.
use Prim.Native.Nat.{ℕ, zero, suc, ◌+◌, ◌-◌, ◌/◌, ◌%◌}
use Prim.Native.Char.{code}
use Prim.Native.String.{String}
use mathlib.Core.Path.{◌≡◌, refl}
use mathlib.Core.Logic.{◌↔◌, ◌≢◌}
use mathlib.Core.Bool.{Bool, true, false, ◌&&◌, ◌||◌}
use mathlib.Core.List.{List, [], ◌∷◌, ◌++◌, append_assoc}
use native.Mathlib.Omega.{arith}
use go_moa.Base.Tests.{ltb, leb, ◌==◌, if◌then◌else◌, All, length}

abbrev pub Text : Type 0
Text = List ℕ

-- The bytes of a literal of ASCII characters.
abbrev pub codes : String → Text
codes String.[] = []
codes (String.◌∷◌ c s) = code c ∷ codes s

unfoldable pub text_eq : Text → Text → Bool
text_eq [] [] = true
text_eq [] (_ ∷ _) = false
text_eq (_ ∷ _) [] = false
text_eq (a ∷ s) (b ∷ t) = a == b && text_eq s t

pub text_eq_iff : (s t : Text) → (text_eq s t ≡ true) ↔ (s ≡ t)
unfolding text_eq
text_eq_iff [] [] = ground arith
text_eq_iff [] (_ ∷ _) = ground arith
text_eq_iff (_ ∷ _) [] = ground arith
text_eq_iff (a ∷ s) (b ∷ t) = ground (arith, text_eq_iff s t)

pub text_eq_refl : (s : Text) → text_eq s s ≡ true
text_eq_refl s = (text_eq_iff s s).1 refl

-- bytes.Buffer: every argument is written behind the ones before it.
write_all : Text → List Text → Text
write_all buffer [] = buffer
write_all buffer (arg ∷ args) = write_all (buffer ++ arg) args

unfoldable pub concat : List Text → Text
unfolding write_all
concat args = write_all [] args

pub concat_two : (a b : Text) → concat (a ∷ b ∷ []) ≡ a ++ b
unfolding concat
concat_two a b = refl

pub concat_three : (a b c : Text) → concat (a ∷ b ∷ c ∷ []) ≡ a ++ (b ++ c)
unfolding concat
concat_three a b c = append_assoc a b c

-- strings.HasPrefix
unfoldable pub has_prefix : Text → Text → Bool
has_prefix s [] = true
has_prefix [] (_ ∷ _) = false
has_prefix (a ∷ s) (b ∷ p) = a == b && has_prefix s p

-- The text behind the first bytes, as many as the second text has.
abbrev drop_len : Text → Text → Text
drop_len s [] = s
drop_len [] (_ ∷ _) = []
drop_len (a ∷ s) (_ ∷ p) = drop_len s p

-- strings.TrimPrefix
unfoldable pub trim_prefix : Text → Text → Text
unfolding has_prefix
trim_prefix s p = if has_prefix s p then drop_len s p else s

-- strings.HasSuffix
unfoldable pub has_suffix : Text → Text → Bool
has_suffix [] p = text_eq [] p
has_suffix (a ∷ s) p = text_eq (a ∷ s) p || has_suffix s p

-- strings.Index(s, p) >= 0
unfoldable pub has_infix : Text → Text → Bool
has_infix [] p = has_prefix [] p
has_infix (a ∷ s) p = has_prefix (a ∷ s) p || has_infix s p

pub has_prefix-append : (p s : Text) → has_prefix (p ++ s) p ≡ true
unfolding has_prefix
has_prefix-append [] s = refl
has_prefix-append (a ∷ p) s = ground (arith, has_prefix-append p s)

drop_len-append : (p s : Text) → drop_len (p ++ s) p ≡ s
drop_len-append [] s = refl
drop_len-append (a ∷ p) s = drop_len-append p s

pub trim_prefix-append : (p s : Text) → trim_prefix (p ++ s) p ≡ s
unfolding trim_prefix
trim_prefix-append p s = rw (has_prefix-append p s) (drop_len-append p s)

-- strings.IndexAny(s, c) >= 0 for a text of one byte
unfoldable pub contains : ℕ → Text → Bool
contains sep [] = false
contains sep (c ∷ s) = c == sep || contains sep s

-- strings.SplitN(s, sep, 2): the part before the first separator, and the part behind it. Without a
-- separator the second part does not exist in Go; it is read nowhere then.
unfoldable pub split_first : ℕ → Text → Text × Text
split_first sep [] = ([], [])
split_first sep (c ∷ s) =
    let rest = split_first sep s in if c == sep then ([], s) else (c ∷ rest.0, rest.1)

abbrev pub Lacks : ℕ → Text → Type 0
Lacks b = All (λ c. c ≢ b)

pub contains_of_Lacks : (b : ℕ) (s : Text) → Lacks b s → contains b s ≡ false
unfolding contains
contains_of_Lacks b [] h = refl
contains_of_Lacks b (c ∷ s) h = ground (arith, contains_of_Lacks b s h.1)

pub Lacks-of_contains : (b : ℕ) (s : Text) → contains b s ≡ false → Lacks b s
unfolding contains
Lacks-of_contains b [] h = tt
Lacks-of_contains b (c ∷ s) h = ground (arith, Lacks-of_contains b s)

pub contains_middle : (b : ℕ) (s t : Text) → contains b (s ++ (b ∷ t)) ≡ true
unfolding contains
contains_middle b [] t = ground arith
contains_middle b (c ∷ s) t = ground (arith, contains_middle b s t)

pub split_first_middle : (b : ℕ) (s t : Text) → Lacks b s → split_first b (s ++ (b ∷ t)) ≡ (s, t)
unfolding split_first
split_first_middle b [] t h = ground arith
split_first_middle b (c ∷ s) t h = ground (arith, split_first_middle b s t h.1)

pub split_first_rejoin :
    (b : ℕ) (s : Text)
    → contains b s ≡ true
    → ((split_first b s).0 ++ (b ∷ (split_first b s).1) ≡ s) × Lacks b (split_first b s).0
unfolding split_first contains
split_first_rejoin b [] h = cc
split_first_rejoin b (c ∷ s) h = ground (arith, split_first_rejoin b s)

-- strings.ToLower on ASCII letters; every other byte stays.
abbrev lower_byte : ℕ → ℕ
lower_byte c = if leb b'A' c && leb c b'Z' then c + 32 else c

unfoldable pub to_lower : Text → Text
to_lower [] = []
to_lower (c ∷ s) = lower_byte c ∷ to_lower s

-- fmt's %d for a natural number; the fuel is above the number of digits.
digits : ℕ → ℕ → Text → Text
digits zero n out = out
digits (suc fuel) n out =
    let next = (b'0' + n % 10) ∷ out in
    let more = digits fuel (n / 10) next in if ltb n 10 then next else more

unfoldable pub format_nat : ℕ → Text
unfolding digits
format_nat n = digits (suc n) n []

-- sort.Strings: the byte order of texts, and insertion in that order.
unfoldable pub text_leb : Text → Text → Bool
text_leb [] t = true
text_leb (_ ∷ _) [] = false
text_leb (a ∷ s) (b ∷ t) = if a == b then text_leb s t else ltb a b

unfoldable pub insert_text : Text → List Text → List Text
insert_text s [] = s ∷ []
insert_text s (t ∷ ts) = if text_leb s t then s ∷ t ∷ ts else t ∷ insert_text s ts

unfoldable pub sort_strings : List Text → List Text
unfolding insert_text text_leb
sort_strings [] = []
sort_strings (s ∷ ss) = insert_text s (sort_strings ss)

length-insert_text : (s : Text) (ts : List Text) → length (insert_text s ts) ≡ suc (length ts)
unfolding insert_text
length-insert_text s [] = refl
length-insert_text s (t ∷ ts) = ground (arith, length-insert_text s ts)

pub length-sort_strings : (ss : List Text) → length (sort_strings ss) ≡ length ss
unfolding sort_strings
length-sort_strings [] = refl
length-sort_strings (s ∷ ss) =
    ground (arith, length-sort_strings ss, length-insert_text s (sort_strings ss))

pub sort_strings_one : (s : Text) → sort_strings (s ∷ []) ≡ s ∷ []
unfolding sort_strings insert_text
sort_strings_one s = refl

-- strings.ToUpper on ASCII letters.
abbrev upper_byte : ℕ → ℕ
upper_byte c = if leb b'a' c && leb c b'z' then c - 32 else c

unfoldable pub to_upper : Text → Text
to_upper [] = []
to_upper (c ∷ s) = upper_byte c ∷ to_upper s

grow : ℕ → List Text → List Text
grow c [] = (c ∷ []) ∷ []
grow c (part ∷ parts) = (c ∷ part) ∷ parts

-- strings.Split(s, sep) for a separator of one byte.
unfoldable pub split : ℕ → Text → List Text
unfolding grow
split sep [] = [] ∷ []
split sep (c ∷ s) = let rest = split sep s in if c == sep then [] ∷ rest else grow c rest

pub split_of_Lacks : (b : ℕ) (s : Text) → Lacks b s → split b s ≡ s ∷ []
unfolding split
split_of_Lacks b [] h = refl
split_of_Lacks b (c ∷ s) h = ground (arith, split_of_Lacks b s h.1)

pub split_middle : (b : ℕ) (s t : Text) → Lacks b s → split b (s ++ (b ∷ t)) ≡ s ∷ split b t
unfolding split
split_middle b [] t h = ground arith
split_middle b (c ∷ s) t h = ground (arith, split_middle b s t h.1)
