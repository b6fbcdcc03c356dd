-- ===== src/Registry/Zk/Index/Keys.antt =====
-- The keys of the paths of registry_zk.go that a client watches.
use go_moa.Base.{
  true, ◌≡◌, ◌≢◌, refl, inl, inr, Text, some, List, [], ◌∷◌, All, any, has_infix, has_prefix, arith,
  Bool-cases, concat, trim_prefix,
}
use go_moa.Registry.Zk.Index.{watch_root, uri_of, until_space, service_path_of}

abbrev pub UnderRoot : Text → Type 0
UnderRoot k = has_prefix k watch_root ≡ true

pub service_path_of-UnderRoot : (uri : Text) → UnderRoot (service_path_of uri)
unfolding concat has_prefix
service_path_of-UnderRoot uri = refl

has_prefix_trans :
    (s k p : Text) → has_prefix s k ≡ true → has_prefix k p ≡ true → has_prefix s p ≡ true
unfolding has_prefix
has_prefix_trans s k [] h g = refl
has_prefix_trans s [] (c ∷ p) h g = cc
has_prefix_trans [] (b ∷ k) (c ∷ p) h g = cc
has_prefix_trans (a ∷ s) (b ∷ k) (c ∷ p) h g = ground (arith, h, g, has_prefix_trans s k p)

nothing_under : has_prefix [] watch_root ≢ true
unfolding has_prefix
nothing_under e = cc

-- A path that contains a watched one has a key.
uri_of-infix :
    (path k : Text)
    → has_infix path k ≡ true
    → UnderRoot k
    → (uri : Text) × (uri_of path ≡ some uri)
unfolding uri_of has_infix
uri_of-infix [] k h u = absurd (nothing_under (has_prefix_trans [] k watch_root h u))
uri_of-infix (c ∷ path) k h u = elim (Bool-cases (has_prefix (c ∷ path) watch_root)) [
  | inl e ↦ (until_space (trim_prefix (c ∷ path) watch_root), rw e refl)
  | inr e ↦ elim (Bool-cases (has_prefix (c ∷ path) k)) [
    | inl x ↦ absurd (cc (has_prefix_trans (c ∷ path) k watch_root x u, e))
    | inr x ↦ let (uri, y) = uri_of-infix path k (ground (arith, h, x)) u in (uri, rw e y)
  ]
]

pub has_key :
    (ks : List Text) (path : Text)
    → All UnderRoot ks
    → any (λ k. has_infix path k) ks ≡ true
    → (uri : Text) × (uri_of path ≡ some uri)
has_key [] path h e = cc
has_key (k ∷ ks) path (h, hs) e = elim (Bool-cases (has_infix path k)) [
  | inl x ↦ uri_of-infix path k x h
  | inr x ↦ has_key ks path hs (ground (arith, e, x))
]
