-- ===== src/Tests/Context.antt =====
-- Properties of contexts at a store with one map.
use go_moa.Base.{codes, ◌≡◌, refl, [], ◌∷◌, text_eq, insert}
use go_moa.Context.{Store, at_ref, wrote, attach_moa_property, map_at, set_map}

abbrev store : Store
store = ((codes "hashid", codes "7") ∷ []) ∷ []

abbrev store' : Store
store' = ((codes "hashid", codes "7") ∷ (codes "env", codes "pre") ∷ []) ∷ []

attached :
    attach_moa_property store (at_ref 0) (codes "env") (codes "pre") ≡ wrote store' (at_ref 0)
unfolding attach_moa_property set_map map_at insert text_eq
attached = refl
