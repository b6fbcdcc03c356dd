-- ===== src/Base/Sorting.antt =====
-- sort.Strings of Go: the order of texts, and the sorted slice.
use Prim.Native.Nat.{ℕ, zero, suc, ◌≤◌, ◌<◌}
use mathlib.Core.Path.{◌≡◌, refl}
use mathlib.Core.Logic.{inl, inr}
use mathlib.Core.Bool.{Bool, true, false, ◌||◌}
use mathlib.Core.Option.{Option, none, some}
use mathlib.Core.List.{List, [], ◌∷◌}
use native.Mathlib.Omega.{arith}
use go_moa.Base.Tests.{length, any, All, Bool-cases}
use go_moa.Base.Strings.{Text, text_eq, text_eq_iff, text_leb, insert_text, sort_strings}

pub text_leb_refl : (s : Text) → text_leb s s ≡ true
unfolding text_leb
text_leb_refl [] = refl
text_leb_refl (a ∷ s) = ground (arith, text_leb_refl s)

pub text_leb_trans :
    (s t u : Text) → text_leb s t ≡ true → text_leb t u ≡ true → text_leb s u ≡ true
unfolding text_leb
text_leb_trans [] t u h k = refl
text_leb_trans (a ∷ s) [] u h k = cc
text_leb_trans (a ∷ s) (b ∷ t) [] h k = cc
text_leb_trans (a ∷ s) (b ∷ t) (c ∷ u) h k = ground (arith, text_leb_trans s t u)

pub text_leb_antisym : (s t : Text) → text_leb s t ≡ true → text_leb t s ≡ true → s ≡ t
unfolding text_leb
text_leb_antisym [] [] h k = refl
text_leb_antisym [] (b ∷ t) h k = cc
text_leb_antisym (a ∷ s) [] h k = cc
text_leb_antisym (a ∷ s) (b ∷ t) h k = ground (arith, text_leb_antisym s t)

text_leb_total : (s t : Text) → text_leb s t ≡ false → text_leb t s ≡ true
unfolding text_leb
text_leb_total [] t h = cc
text_leb_total (a ∷ s) [] h = refl
text_leb_total (a ∷ s) (b ∷ t) h = ground (arith, text_leb_total s t)

-- Each text is at most those behind it.
abbrev pub IsSorted : List Text → Type 0
IsSorted [] = Unit
IsSorted (s ∷ ss) = All (λ t. text_leb s t ≡ true) ss × IsSorted ss

All-insert_text :
    (u s : Text) (ss : List Text)
    → text_leb u s ≡ true
    → All (λ t. text_leb u t ≡ true) ss
    → All (λ t. text_leb u t ≡ true) (insert_text s ss)
unfolding insert_text
All-insert_text u s [] h k = (h, tt)
All-insert_text u s (t ∷ ss) h k = elim (Bool-cases (text_leb s t)) [
  | inl e ↦ rw e (h, k)
  | inr e ↦ rw e (k.0, All-insert_text u s ss h k.1)
]

All-le :
    (u s : Text) (ss : List Text)
    → text_leb u s ≡ true
    → All (λ t. text_leb s t ≡ true) ss
    → All (λ t. text_leb u t ≡ true) ss
All-le u s [] h k = tt
All-le u s (t ∷ ss) h k = (text_leb_trans u s t h k.0, All-le u s ss h k.1)

insert_text-IsSorted : (s : Text) (ss : List Text) → IsSorted ss → IsSorted (insert_text s ss)
unfolding insert_text
insert_text-IsSorted s [] h = (tt, tt)
insert_text-IsSorted s (t ∷ ss) h = elim (Bool-cases (text_leb s t)) [
  | inl e ↦ rw e ((e, All-le s t ss e h.0), h)
  | inr e ↦ rw e (All-insert_text t s ss (text_leb_total s t e) h.0, insert_text-IsSorted s ss h.1)
]

pub sort_strings-IsSorted : (ss : List Text) → IsSorted (sort_strings ss)
unfolding sort_strings
sort_strings-IsSorted [] = tt
sort_strings-IsSorted (s ∷ ss) = insert_text-IsSorted s (sort_strings ss) (sort_strings-IsSorted ss)

any-insert_text :
    (p : Text → Bool) (s : Text) (ss : List Text) → any p (insert_text s ss) ≡ (p s || any p ss)
unfolding insert_text
any-insert_text p s [] = refl
any-insert_text p s (t ∷ ss) = ground (arith, any-insert_text p s ss)

-- The sorted slice has the same texts.
pub any-sort_strings : (p : Text → Bool) (ss : List Text) → any p (sort_strings ss) ≡ any p ss
unfolding sort_strings
any-sort_strings p [] = refl
any-sort_strings p (s ∷ ss) =
    ground (arith, any-insert_text p s (sort_strings ss), any-sort_strings p ss)

abbrev pub get_elem? : List Text → ℕ → Option Text
get_elem? [] i = none
get_elem? (s ∷ ss) zero = some s
get_elem? (s ∷ ss) (suc i) = get_elem? ss i

All-get_elem? :
    (P : Text → Type 0) (ss : List Text) (i : ℕ) {t : Text}
    → All P ss
    → get_elem? ss i ≡ some t
    → P t
All-get_elem? P [] i h e = absurd (cc)
All-get_elem? P (s ∷ ss) zero {t} h e = let same : s ≡ t = cc in rw (← same) h.0
All-get_elem? P (s ∷ ss) (suc i) h e = All-get_elem? P ss i h.1 e

pub get_elem?-le :
    (ss : List Text) (i j : ℕ) {s t : Text}
    → IsSorted ss
    → i ≤ j
    → get_elem? ss i ≡ some s
    → get_elem? ss j ≡ some t
    → text_leb s t ≡ true
get_elem?-le [] i j h l e k = absurd (cc)
get_elem?-le (u ∷ ss) zero zero {s} {t} h l e k = let same : s ≡ t = cc in rw same (text_leb_refl t)
get_elem?-le (u ∷ ss) zero (suc j) {s} {t} h l e k =
    let same : u ≡ s = cc in rw (← same) (All-get_elem? (λ t. text_leb u t ≡ true) ss j h.0 k)
get_elem?-le (u ∷ ss) (suc i) zero h l e k = absurd (omega arith)
get_elem?-le (u ∷ ss) (suc i) (suc j) h l e k = get_elem?-le ss i j h.1 (omega arith) e k

pub get_elem?_below :
    (ss : List Text) (i : ℕ) → i < length ss → (s : Text) × (get_elem? ss i ≡ some s)
get_elem?_below [] i h = absurd (omega arith)
get_elem?_below (s ∷ ss) zero h = (s, refl)
get_elem?_below (s ∷ ss) (suc i) h = get_elem?_below ss i (omega arith)

pub get_elem?-any :
    (x : Text) (ss : List Text) (i : ℕ) → get_elem? ss i ≡ some x → any (text_eq x) ss ≡ true
get_elem?-any x [] i h = cc
get_elem?-any x (s ∷ ss) zero h = ground (arith, text_eq_iff x s)
get_elem?-any x (s ∷ ss) (suc i) h = ground (arith, get_elem?-any x ss i h)

pub any-get_elem? :
    (x : Text) (ss : List Text)
    → any (text_eq x) ss ≡ true
    → (i : ℕ) × (get_elem? ss i ≡ some x) × (i < length ss)
any-get_elem? x [] h = absurd (cc)
any-get_elem? x (s ∷ ss) h = elim (Bool-cases (text_eq x s)) [
  | inl e ↦ (0, ground (arith, text_eq_iff x s), omega arith)
  | inr e ↦ let (i, k, l) = any-get_elem? x ss (ground arith) in (suc i, k, omega arith)
]
