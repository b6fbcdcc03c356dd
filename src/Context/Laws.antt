-- ===== src/Context/Laws.antt =====
-- Attaching, detaching and reading properties, also through contexts that share one map.
use go_moa.Base.{
  ℕ, zero, suc, ◌<◌, Text, Bool, false, ◌≡◌, ◌≢◌, refl, ◌↔◌, none, some, [], ◌∷◌, ◌++◌, ◌&&◌,
  length, Assoc, lookup, insert, delete, lookup-insert, lookup-delete, arith, if◌then◌else◌,
  text_eq, ◌==◌,
}
use go_moa.Context.{
  Store, Props, absent, foreign, nil_map, at_ref, map_at, set_map, wrote, nil_map_panic,
  attach_moa_property, detach_moa_property, get_moa_property,
}

-- A reference points into the store.
abbrev pub IsValid : Store → Props → Type 0
IsValid h (at_ref r) = r < length h
IsValid h _ = Unit

abbrev pub same_map : Props → Props → Bool
same_map (at_ref r) (at_ref q) = r == q
same_map _ _ = false

map_at-set_map :
    (h : Store) (r q : ℕ) (m : Assoc Text)
    → r < length h
    → map_at (set_map h r m) q ≡ (if r == q then m else map_at h q)
unfolding map_at set_map
map_at-set_map [] r q m v = absurd (omega arith)
map_at-set_map (x ∷ h) zero zero m v = ground arith
map_at-set_map (x ∷ h) zero (suc q) m v = ground arith
map_at-set_map (x ∷ h) (suc r) zero m v = ground arith
map_at-set_map (x ∷ h) (suc r) (suc q) m v = ground (arith, map_at-set_map h r q m)

map_at-append :
    (h : Store) (q : ℕ) (m : Assoc Text) → q < length h → map_at (h ++ m ∷ []) q ≡ map_at h q
unfolding map_at
map_at-append [] q m v = absurd (omega arith)
map_at-append (x ∷ h) zero m v = refl
map_at-append (x ∷ h) (suc q) m v = map_at-append h q m (omega arith)

map_at-new : (h : Store) (m : Assoc Text) → map_at (h ++ m ∷ []) (length h) ≡ m
unfolding map_at
map_at-new [] m = refl
map_at-new (x ∷ h) m = map_at-new h m

lookup_one : (k j v : Text) → lookup j ((k, v) ∷ []) ≡ (if text_eq k j then some v else none)
unfolding lookup
lookup_one k j v = refl

-- Unless the context holds a nil map, attaching a property succeeds; through the context that comes
-- back it reads as the new value and every other property as before.
pub get-attach :
    (h : Store) (c : Props) (k v : Text)
    → IsValid h c
    → c ≢ nil_map
    → (h' : Store) × (c' : Props) × (attach_moa_property h c k v ≡ wrote h' c')
      × ((j : Text)
          → get_moa_property h' c' j ≡ (if text_eq k j then some v else get_moa_property h c j))
unfolding attach_moa_property get_moa_property
get-attach h absent k v w n = (_, _, refl, λ j. rw (map_at-new h, lookup_one))
get-attach h foreign k v w n = (_, _, refl, λ j. rw (map_at-new h, lookup_one))
get-attach h nil_map k v w n = absurd (n refl)
get-attach h (at_ref r) k v w n = (
  _,
  _,
  refl,
  λ j.
      ground
        (arith, map_at-set_map h r r (insert k v (map_at h r)) w, lookup-insert k j v (map_at h r)),
)

-- What any other context sees of an attachment: those that share the map see the property at once,
-- all others read as before.
get-attach_shared :
    (h h' : Store) (c c' d : Props) (k v j : Text)
    → IsValid h c
    → IsValid h d
    → attach_moa_property h c k v ≡ wrote h' c'
    → get_moa_property h' d j
      ≡ (if same_map c d && text_eq k j then some v else get_moa_property h d j)
unfolding attach_moa_property get_moa_property
get-attach_shared h h' absent c' (at_ref q) k v j x y e =
    ground (arith, map_at-append h q ((k, v) ∷ []) y)
get-attach_shared h h' foreign c' (at_ref q) k v j x y e =
    ground (arith, map_at-append h q ((k, v) ∷ []) y)
get-attach_shared h h' (at_ref r) c' (at_ref q) k v j x y e =
    ground
      (arith, map_at-set_map h r q (insert k v (map_at h r)) x, lookup-insert k j v (map_at h r))
get-attach_shared h h' nil_map c' (at_ref q) k v j x y e = cc
get-attach_shared h h' absent c' _ k v j x y e = refl
get-attach_shared h h' foreign c' _ k v j x y e = refl
get-attach_shared h h' nil_map c' _ k v j x y e = refl
get-attach_shared h h' (at_ref r) c' _ k v j x y e = refl

-- A detached property is gone for every context that shares the map, and nothing else changes.
pub get-detach :
    (h : Store) (c d : Props) (k j : Text)
    → IsValid h c
    → get_moa_property (detach_moa_property h c k) d j
      ≡ (if same_map c d && text_eq k j then none else get_moa_property h d j)
unfolding detach_moa_property get_moa_property
get-detach h (at_ref r) (at_ref q) k j x =
    ground (arith, map_at-set_map h r q (delete k (map_at h r)) x, lookup-delete k j (map_at h r))
get-detach h (at_ref r) _ k j x = refl
get-detach h _ (at_ref q) k j x = refl
get-detach h _ _ k j x = refl

-- In a context whose request carried no properties, attaching one is a panic, and in no other.
attach_panic :
    (h : Store) (c : Props) (k v : Text)
    → (attach_moa_property h c k v ≡ nil_map_panic) ↔ (c ≡ nil_map)
unfolding attach_moa_property
attach_panic h absent k v = ground arith
attach_panic h foreign k v = ground arith
attach_panic h nil_map k v = ground arith
attach_panic h (at_ref r) k v = ground arith
