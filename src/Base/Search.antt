-- ===== src/Base/Search.antt =====
-- sort.Search and sort.SearchStrings of Go, and what they find in a sorted slice.
use Prim.Native.Nat.{ℕ, zero, suc, ◌+◌, ◌-◌, ◌/◌, ◌≤◌, ◌<◌}
use mathlib.Core.Path.{◌≡◌, refl, sym, ap, ◌∙◌}
use mathlib.Core.Logic.{inl, inr}
use mathlib.Core.Bool.{Bool, true, false}
use mathlib.Core.Option.{none, some}
use mathlib.Core.List.{List}
use native.Mathlib.Omega.{arith}
use go_moa.Base.Tests.{ltb, length, any, Bool-cases, Option-cases}
use go_moa.Base.Strings.{Text, text_eq, text_eq_iff, text_leb}
use go_moa.Base.Sorting.{
  IsSorted, get_elem?, get_elem?-le, get_elem?_below, get_elem?-any, any-get_elem?, text_leb_refl,
  text_leb_trans, text_leb_antisym,
}

-- The binary search between two bounds. Fuel as large as their distance is enough.
search_in : ℕ → (ℕ → Bool) → ℕ → ℕ → ℕ
search_in zero f i j = i
search_in (suc fuel) f i j = elim (ltb i j) [
  | false ↦ i
  | true ↦ elim (f ((i + j) / 2)) [
    | false ↦ search_in fuel f ((i + j) / 2 + 1) j
    | true ↦ search_in fuel f i ((i + j) / 2)
  ]
]

-- sort.Search(n, f)
unfoldable pub search_index : ℕ → (ℕ → Bool) → ℕ
unfolding search_in
search_index n f = search_in n f 0 n

-- A test that stays true once it is, below a bound.
abbrev pub Rises : (ℕ → Bool) → ℕ → Type 0
Rises f n = (i j : ℕ) → i ≤ j → j < n → f i ≡ true → f j ≡ true

-- The first index at which the test holds.
abbrev pub IsFirst : (ℕ → Bool) → ℕ → ℕ → Type 0
IsFirst f n r = (r ≤ n) × ((m : ℕ) → m < r → f m ≡ false) × ((m : ℕ) → r ≤ m → m < n → f m ≡ true)

falls : (f : ℕ → Bool) (i j : ℕ) → (f i ≡ true → f j ≡ true) → f j ≡ false → f i ≡ false
falls f i j up e = elim (Bool-cases (f i)) [ inl t ↦ cc (up t) | inr t ↦ t ]

module _ (f : ℕ → Bool) (n : ℕ) (up : Rises f n) where
  search_in-IsFirst :
      (fuel i j : ℕ)
      → i ≤ j
      → j ≤ n
      → j - i ≤ fuel
      → ((m : ℕ) → m < i → f m ≡ false)
      → ((m : ℕ) → j ≤ m → m < n → f m ≡ true)
      → IsFirst f n (search_in fuel f i j)
  unfolding search_in
  search_in-IsFirst zero i j a b k lo hi = (omega arith, lo, λ m h h'. hi m (omega arith) h')
  search_in-IsFirst (suc fuel) i j a b k lo hi = elim (Bool-cases (ltb i j)) [
    | inl e ↦
        let lt : i < j = ground arith in
        elim (Bool-cases (f ((i + j) / 2))) [
          | inl t ↦
              rw (e, search_in)
                (rw t (
                  search_in-IsFirst fuel i ((i + j) / 2) (omega arith) (omega arith) (omega arith)
                    lo (λ m h h'. up ((i + j) / 2) m h h' t)))
          | inr t ↦
              rw (e, search_in)
                (rw t (
                  search_in-IsFirst fuel ((i + j) / 2 + 1) j (omega arith) b (omega arith)
                    (λ m h.
                      falls f m ((i + j) / 2) (up m ((i + j) / 2) (omega arith) (omega arith)) t)
                    hi))
        ]
    | inr e ↦
        let ge : j ≤ i = ground arith in
        rw (e, search_in) (omega arith, lo, λ m h h'. hi m (omega arith) h')
  ]

  pub search_index-IsFirst : IsFirst f n (search_index n f)
  unfolding search_index
  search_index-IsFirst =
      search_in-IsFirst n 0 n (omega arith) (omega arith) (omega arith)
        (λ m h. absurd (omega arith)) (λ m h h'. absurd (omega arith))

-- The element at an index passes a test; no element does not.
abbrev pub at : (Text → Bool) → List Text → ℕ → Bool
at p ss i = elim (get_elem? ss i) [ none ↦ false | some t ↦ p t ]

-- sort.SearchStrings(ss, x): the search for an element that is not below x.
unfoldable pub search_strings : List Text → Text → ℕ
search_strings ss x = search_index (length ss) (at (text_leb x) ss)

at-some :
    (p : Text → Bool) (ss : List Text) (i : ℕ) {t : Text}
    → get_elem? ss i ≡ some t
    → at p ss i ≡ p t
at-some p ss i e = rw (e, at) refl

at-none : (p : Text → Bool) (ss : List Text) (i : ℕ) → get_elem? ss i ≡ none → at p ss i ≡ false
at-none p ss i e = rw (e, at) refl

at-Rises : (x : Text) (ss : List Text) → IsSorted ss → Rises (at (text_leb x) ss) (length ss)
at-Rises x ss h i j l b k =
    let (s, e) = get_elem?_below ss i (omega arith) in
    let (t, e') = get_elem?_below ss j b in
    at-some (text_leb x) ss j e'
    ∙ text_leb_trans x s t (sym (at-some (text_leb x) ss i e) ∙ k) (get_elem?-le ss i j h l e e')

module _ (ss : List Text) (x : Text) (h : IsSorted ss) where
  -- The first text that is not below one that is there is that one.
  at_first :
      (r i : ℕ)
      → IsFirst (at (text_leb x) ss) (length ss) r
      → get_elem? ss i ≡ some x
      → i < length ss
      → at (text_eq x) ss r ≡ true
  at_first r i first e l = elim (Bool-cases (ltb i r)) [
    | inl k ↦ cc (first.1 i (ground arith), at-some (text_leb x) ss i e, text_leb_refl x)
    | inr k ↦
        let le : r ≤ i = ground arith in
        let (t, e') = get_elem?_below ss r (omega arith) in
        let up = sym (at-some (text_leb x) ss r e') ∙ first.2 r (omega arith) (omega arith) in
        let same = text_leb_antisym x t up (get_elem?-le ss r i h le e' e) in
        at-some (text_eq x) ss r e' ∙ (text_eq_iff x t).1 same
  ]

  -- The search stops at the text where it is there, and nowhere at it where it is not.
  pub search_strings-any : at (text_eq x) ss (search_strings ss x) ≡ any (text_eq x) ss
  unfolding search_strings
  search_strings-any = elim (Bool-cases (any (text_eq x) ss)) [
    | inl k ↦
        let (i, e, l) = any-get_elem? x ss k in
        at_first (search_strings ss x) i
          (search_index-IsFirst (at (text_leb x) ss) (length ss) (at-Rises x ss h)) e l
        ∙ sym k
    | inr k ↦ elim (Option-cases (get_elem? ss (search_strings ss x))) [
      | inl e ↦ at-none (text_eq x) ss (search_strings ss x) e ∙ sym k
      | inr (t, e) ↦
          at-some (text_eq x) ss (search_strings ss x) e ∙ elim (Bool-cases (text_eq x t)) [
            | inl same ↦ cc (
                get_elem?-any x ss (search_strings ss x)
                  (e ∙ ap some (sym ((text_eq_iff x t).0 same))))
            | inr other ↦ other ∙ sym k
          ]
    ]
  ]
