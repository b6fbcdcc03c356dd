-- ===== src/Registry/Uri/Keys.antt =====
-- The keys of registry.go as a set: services in groups, where no group and the group "*" are one.

use native.Mathlib.Nat.{ℕ_set}
use mathlib.Core.Bool.{Bool-set}
use mathlib.Core.HLevel.{Σ_prop_path}
use mathlib.Core.Quot
use mathlib.Core.Quot.{Quot, Quot-set}
use go_moa.Base.{
  Text, Bool, true, false, not, ◌&&◌, [], ◌∷◌, ◌≡◌, ◌≢◌, refl, ap, ◌∙◌, inl, inr, arith,
  if◌then◌else◌, is_empty, text_eq, text_eq_iff, contains, contains_middle, contains_of_Lacks,
  Lacks-of_contains, split_first, split_first_rejoin, Bool-cases,
}
use go_moa.Registry.{all_group, group_mark}
use go_moa.Registry.Uri.{build_service_uri, unwrap_service_uri}
use go_moa.Registry.Uri.Laws.{
  group_of, group-cases, build_of_all_group, build_of_group, unwrap_grouped, unwrap-build,
  build-unwrap, build-injective,
}

-- The name of a service, which has no '#', and a group.
abbrev pub Named : Type 0
Named = (p : Text × Text) × (contains group_mark p.0 ≡ false)

abbrev pub SameGroup : Named → Named → Type 0
SameGroup ((u, g), _) ((u', g'), _) = (u ≡ u') × (group_of g ≡ group_of g')

abbrev pub InGroup : Type 0
InGroup = Quot SameGroup

-- A key whose group, if it has one, is neither empty nor "*".
abbrev pub is_key : Text → Bool
is_key key =
    if contains group_mark key
    then not (is_empty (unwrap_service_uri key).1)
      && not (text_eq (unwrap_service_uri key).1 all_group)
    else true

abbrev pub Key : Type 0
Key = (key : Text) × (is_key key ≡ true)

Text-set : IsSet Text
Text-set = hlevel ℕ_set

Key-set : IsSet Key
Key-set = hlevel (Text-set, Bool-set)

other_group :
    (g : Text) → g ≢ [] → g ≢ all_group → (not (is_empty g) && not (text_eq g all_group)) ≡ true
other_group [] p q = absurd (p refl)
other_group (c ∷ g) p q = ground (arith, q, text_eq_iff (c ∷ g) all_group)

of_other_group :
    (g : Text) → (not (is_empty g) && not (text_eq g all_group)) ≡ true → (g ≢ []) × (g ≢ all_group)
of_other_group [] e = cc
of_other_group (c ∷ g) e = ((λ k. cc), λ k. ground (arith, e, (text_eq_iff (c ∷ g) all_group).1 k))

is_key-build : (u g : Text) → contains group_mark u ≡ false → is_key (build_service_uri u g) ≡ true
is_key-build u g h = elim (group-cases g) [
  | inl e ↦ rw (build_of_all_group u g e, h) refl
  | inr (p, q) ↦
      rw
        (
          build_of_group u g p q,
          contains_middle group_mark u g,
          unwrap_grouped u g (Lacks-of_contains group_mark u h),
        )
        (other_group g p q)
]

contains-unwrap : (key : Text) → contains group_mark (unwrap_service_uri key).0 ≡ false
unfolding unwrap_service_uri
contains-unwrap key = elim (Bool-cases (contains group_mark key)) [
  | inl e ↦ rw e (
      contains_of_Lacks group_mark (split_first group_mark key).0
        (split_first_rejoin group_mark key e).1)
  | inr e ↦ rw e e
]

group_of_twice : (g : Text) → group_of (group_of g) ≡ group_of g
group_of_twice [] = refl
group_of_twice (c ∷ g) = refl

build_same :
    (a b : Named) → SameGroup a b → build_service_uri a.0.0 a.0.1 ≡ build_service_uri b.0.0 b.0.1
build_same ((u, g), h) ((u', g'), h') e =
    (build-injective u u' g g' (Lacks-of_contains group_mark u h)
        (Lacks-of_contains group_mark u' h')).1
      e

key_of : InGroup → Key
key_of =
    Quot.lift Key-set (λ n. (build_service_uri n.0.0 n.0.1, is_key-build n.0.0 n.0.1 n.1))
      (λ a b h. Σ_prop_path (λ k. Bool-set _ _) (build_same a b h))

service_of : Key → InGroup
service_of (key, v) = Quot.mk (unwrap_service_uri key, contains-unwrap key)

unwrap_same :
    (n : Named)
    → SameGroup
        (
          unwrap_service_uri (build_service_uri n.0.0 n.0.1),
          contains-unwrap (build_service_uri n.0.0 n.0.1),
        )
        n
unwrap_same ((u, g), h) =
    let back = unwrap-build u g (Lacks-of_contains group_mark u h) in
    (ap (λ p. p.0) back, ap (λ p. group_of p.1) back ∙ group_of_twice g)

service_of-key_of : (s : InGroup) → service_of (key_of s) ≡ s
unfolding service_of key_of
service_of-key_of = Quot.ind (λ s. Quot-set _ _) (λ n. Quot.sound (unwrap_same n))

key_of-service_of : (k : Key) → key_of (service_of k) ≡ k
unfolding service_of key_of
key_of-service_of (key, v) =
    Σ_prop_path (λ k. Bool-set _ _)
      (build-unwrap key (λ e. of_other_group (unwrap_service_uri key).1 (rw e at v)))

-- The services in groups, where no group and the group "*" are one and a name has no '#', are in
-- one-to-one correspondence with the keys in which what follows the first '#', if there is one, is
-- neither empty nor "*": BuildServiceUri gives the key, and UnwrapServiceUri the service and the
-- group back.
key_of_bijective :
    ((s : InGroup) → service_of (key_of s) ≡ s) × ((k : Key) → key_of (service_of k) ≡ k)
key_of_bijective = (service_of-key_of, key_of-service_of)
