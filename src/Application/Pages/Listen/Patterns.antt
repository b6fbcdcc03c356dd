-- ===== src/Application/Pages/Listen/Patterns.antt =====
-- What the loop over the profiles in application.go leaves in the mux.
use go_moa.Base.{
  ◌≡◌, refl, false, Bool, Text, codes, none, some, List, [], ◌∷◌, any, All, Assoc, lookup, insert,
  lookup-insert, text_eq, text_eq_iff, has_suffix, if◌then◌else◌, arith, inl, inr, ◌⊎◌, Bool-cases,
  Option-cases,
}
use go_moa.Application.Pages.{MoaProfile}
use go_moa.Application.Pages.Listen.{Outcome, twice, longest, mux_handler, handle_all}

-- A pattern of one of the profiles.
abbrev pub has_href : Text → List MoaProfile → Bool
has_href path ps = any (λ p. text_eq p.href path) ps

-- The patterns differ, and stand for one path each.
abbrev pub AreApart : List MoaProfile → Type 0
AreApart [] = Unit
AreApart (p ∷ ps) =
    (has_href p.href ps ≡ false) × (has_suffix p.href (codes "/") ≡ false) × AreApart ps

module _ {H : Type 0} where
  abbrev pub AreFree : List MoaProfile → Assoc H → Type 0
  AreFree ps mux = All (λ p. lookup p.href mux ≡ none) ps

  longest-insert :
      (path href : Text) (h : H) (mux : Assoc H)
      → has_suffix href (codes "/") ≡ false
      → longest path (insert href h mux) ≡ longest path mux
  unfolding longest insert
  longest-insert path href h [] e = rw e refl
  longest-insert path href h ((p, g) ∷ mux) e = elim (Bool-cases (text_eq p href)) [
    | inl q ↦ let same : p ≡ href = (text_eq_iff p href).0 q in rw (q, same, e) refl
    | inr q ↦ rw (q, longest-insert path href h mux e) refl
  ]

  mux_handler-insert :
      (path href : Text) (h : H) (mux : Assoc H)
      → has_suffix href (codes "/") ≡ false
      → mux_handler path (insert href h mux)
        ≡ (if text_eq href path then some h else mux_handler path mux)
  unfolding mux_handler
  mux_handler-insert path href h mux e = elim (Bool-cases (text_eq href path)) [
    | inl q ↦ rw (lookup-insert href path h mux, q) refl
    | inr q ↦ rw (longest-insert path href h mux e, lookup-insert href path h mux, q) refl
  ]

  AreFree-insert :
      (href : Text) (h : H) (ps : List MoaProfile) (mux : Assoc H)
      → has_href href ps ≡ false
      → AreFree ps mux
      → AreFree ps (insert href h mux)
  AreFree-insert href h [] mux e f = tt
  AreFree-insert href h (p ∷ ps) mux e (k, f) = (
    ground (
      arith,
      e,
      k,
      lookup-insert href p.href h mux,
      text_eq_iff href p.href,
      text_eq_iff p.href href,
    ),
    AreFree-insert href h ps mux (ground (arith, e)) f,
  )

  -- A mux to which the patterns of the profiles are added with a handler.
  pub record Gets (h : H) (ps : List MoaProfile) (mux mux' : Assoc H) : Type 0 where
    pub finds :
        (path : Text) → lookup path mux' ≡ (if has_href path ps then some h else lookup path mux)
    pub handles :
        (path : Text)
        → mux_handler path mux' ≡ (if has_href path ps then some h else mux_handler path mux)

  pub handle_all-Gets :
      (h : H) (next : Assoc H → Outcome H) (ps : List MoaProfile) (mux : Assoc H)
      → AreApart ps
      → AreFree ps mux
      → (mux' : Assoc H) × (handle_all h next ps mux ≡ next mux') × Gets h ps mux mux'
  unfolding handle_all
  handle_all-Gets h next [] mux a f =
      (mux, refl, record { finds = λ path. refl; handles = λ path. refl })
  handle_all-Gets h next (p ∷ ps) mux (other, no_slash, a) (k, f) =
      let (mux', e, g) =
        handle_all-Gets h next ps (insert p.href h mux) a
          (AreFree-insert p.href h ps mux other f) in
      (
        mux',
        rw (handle_all, k) e,
        record {
          finds = λ path. ground (arith, g.finds path, lookup-insert p.href path h mux);
          handles =
              λ path. ground (arith, g.handles path, mux_handler-insert path p.href h mux no_slash);
        },
      )

  -- Where no pattern is registered twice, all of them are there afterwards.
  pub handle_all-cases :
      (h : H) (next : Assoc H → Outcome H) (ps : List MoaProfile) (mux : Assoc H)
      → ((pattern : Text) × (handle_all h next ps mux ≡ twice pattern))
        ⊎ ((mux' : Assoc H) × (handle_all h next ps mux ≡ next mux')
            × ((path : Text)
                → lookup path mux' ≡ (if has_href path ps then some h else lookup path mux)))
  unfolding handle_all
  handle_all-cases h next [] mux = inr (mux, refl, λ path. refl)
  handle_all-cases h next (p ∷ ps) mux = elim (Option-cases (lookup p.href mux)) [
    | inr (g, k) ↦ inl (p.href, rw (handle_all, k) refl)
    | inl k ↦ elim (handle_all-cases h next ps (insert p.href h mux)) [
      | inl (pattern, e) ↦ inl (pattern, rw (handle_all, k) e)
      | inr (mux', e, finds) ↦ inr (
        mux',
        rw (handle_all, k) e,
        λ path. ground (arith, finds path, lookup-insert p.href path h mux),
      )
    ]
  ]
