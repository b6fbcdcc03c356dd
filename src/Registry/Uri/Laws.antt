-- ===== src/Registry/Uri/Laws.antt =====
-- Keys and (service, group) pairs: the two functions of registry.go against each other.
use go_moa.Base.{
  Text, true, ◌++◌, [], ◌∷◌, ◌≡◌, ◌≢◌, refl, sym, ap, ◌∙◌, ◌↔◌, ◌⊎◌, inl, inr, arith, if◌then◌else◌,
  is_empty, text_eq, text_eq_iff, text_eq_refl, concat_three, contains, contains_of_Lacks,
  contains_middle, split_first, split_first_middle, split_first_rejoin, Lacks, Bool-cases, codes,
}
use go_moa.Registry.{all_group, group_mark}
use go_moa.Registry.Uri.{build_service_uri, unwrap_service_uri}

-- No group and the group "*" are one.
abbrev pub group_of : Text → Text
group_of group_id = if is_empty group_id then all_group else group_id

pub build_of_group :
    (u g : Text) → g ≢ [] → g ≢ all_group → build_service_uri u g ≡ u ++ (group_mark ∷ g)
unfolding build_service_uri
build_of_group u [] h k = absurd (h refl)
build_of_group u (c ∷ g) h k =
    ground (arith, text_eq_iff all_group (c ∷ g), concat_three u (codes "#") (c ∷ g))

pub build_of_all_group : (u g : Text) → group_of g ≡ all_group → build_service_uri u g ≡ u
unfolding build_service_uri
build_of_all_group u [] h = refl
build_of_all_group u (c ∷ g) h = ground (arith, text_eq_iff all_group (c ∷ g))

pub group-cases : (g : Text) → (group_of g ≡ all_group) ⊎ ((g ≢ []) × (g ≢ all_group))
group-cases [] = inl refl
group-cases (c ∷ g) = ground (arith, text_eq_iff (c ∷ g) all_group)

group_of_other : (g : Text) → g ≢ [] → group_of g ≡ g
group_of_other [] h = absurd (h refl)
group_of_other (c ∷ g) h = refl

build_by_group :
    (u g : Text)
    → build_service_uri u g
      ≡ (if text_eq all_group (group_of g) then u else u ++ (group_mark ∷ group_of g))
build_by_group u g = elim (group-cases g) [
  | inl e ↦ rw (build_of_all_group u g e, e, text_eq_refl all_group)
  | inr (p, q) ↦ rw (build_of_group u g p q, group_of_other g p) (other q)
]
  where
    other :
        g ≢ all_group
        → u ++ (group_mark ∷ g) ≡ (if text_eq all_group g then u else u ++ (group_mark ∷ g))
    other q = ground (arith, text_eq_iff all_group g)

unwrap_plain : (u : Text) → Lacks group_mark u → unwrap_service_uri u ≡ (u, all_group)
unfolding unwrap_service_uri
unwrap_plain u h = rw (contains_of_Lacks group_mark u h)

pub unwrap_grouped :
    (u g : Text) → Lacks group_mark u → unwrap_service_uri (u ++ (group_mark ∷ g)) ≡ (u, g)
unfolding unwrap_service_uri
unwrap_grouped u g h = rw (contains_middle group_mark u g) (split_first_middle group_mark u g h)

-- A key built from a service name without '#' and any group is taken apart into the name and the
-- group, where the empty group reads back as "*".
pub unwrap-build :
    (u g : Text) → Lacks group_mark u → unwrap_service_uri (build_service_uri u g) ≡ (u, group_of g)
unwrap-build u g h = elim (group-cases g) [
  | inl e ↦ rw (build_of_all_group u g e, unwrap_plain u h, e)
  | inr (p, q) ↦ rw (build_of_group u g p q, unwrap_grouped u g h, group_of_other g p)
]

-- Two (service, group) pairs with names without '#' have one key exactly when the names are equal
-- and the groups are, the empty group counting as "*".
pub build-injective :
    (u u' g g' : Text)
    → Lacks group_mark u
    → Lacks group_mark u'
    → (build_service_uri u g ≡ build_service_uri u' g') ↔ ((u ≡ u') × (group_of g ≡ group_of g'))
build-injective u u' g g' h h' = (apart, together)
  where
    apart : build_service_uri u g ≡ build_service_uri u' g' → (u ≡ u') × (group_of g ≡ group_of g')
    apart e =
        let both = sym (unwrap-build u g h) ∙ ap unwrap_service_uri e ∙ unwrap-build u' g' h' in
        (ap (λ p. p.0) both, ap (λ p. p.1) both)

    together :
        (u ≡ u') × (group_of g ≡ group_of g') → build_service_uri u g ≡ build_service_uri u' g'
    together (e, k) = cc (build_by_group u g, build_by_group u' g')

-- A key is built again from its parts, unless it ends in an empty group or the group "*" behind
-- a '#'.
pub build-unwrap :
    (key : Text)
    → (contains group_mark key ≡ true
        → ((unwrap_service_uri key).1 ≢ []) × ((unwrap_service_uri key).1 ≢ all_group))
    → build_service_uri (unwrap_service_uri key).0 (unwrap_service_uri key).1 ≡ key
unfolding unwrap_service_uri
build-unwrap key h = elim (Bool-cases (contains group_mark key)) [
  | inl found ↦ rw found (grouped found)
  | inr missing ↦ rw missing (build_of_all_group key all_group refl)
]
  where
    grouped :
        contains group_mark key ≡ true
        → build_service_uri (split_first group_mark key).0 (split_first group_mark key).1 ≡ key
    grouped found =
        let (p, q) = rw found at (h found) in
        rw (build_of_group _ _ p q) (split_first_rejoin group_mark key found).0
