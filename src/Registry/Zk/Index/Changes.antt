-- ===== src/Registry/Zk/Index/Changes.antt =====
-- What NodeChange of registry_zk.go makes of the index.
use go_moa.Base.{
  ap, sym, ℕ, suc, ◌+◌, ◌-◌, false, not, ◌≡◌, ◌≢◌, refl, ◌∙◌, Text, Option, none, some, List, [],
  ◌∷◌, ◌++◌, ◌⊎◌, inl, inr, length, length-append, is_empty, sort_strings, text_eq, text_eq_iff,
  text_eq_refl, lookup, insert, lookup-insert, lookup-insert_self, arith, Bool-cases,
}
use go_moa.Registry.{ServiceMeta}
use go_moa.Zookeeper.{Conn, done}
use go_moa.Registry.Zk.{Json, ZkRegistry, pull_children_data}
use go_moa.Registry.Zk.Index.{compare_hosts, need_change, node_change, uri_of}

-- The loop compares the last pair only.
compare_hosts_last :
    (last j : ℕ) (os : List ServiceMeta) (hs : List Text) (o : ServiceMeta) (h : Text)
    → length os ≡ length hs
    → last ≡ j + length hs
    → compare_hosts last j (os ++ o ∷ []) (hs ++ h ∷ []) ≡ not (text_eq o.host_port h)
unfolding compare_hosts
compare_hosts_last last j [] [] o h e l = ground arith
compare_hosts_last last j [] (_ ∷ _) o h e l = absurd (omega (arith, e))
compare_hosts_last last j (_ ∷ _) [] o h e l = absurd (omega (arith, e))
compare_hosts_last last j (x ∷ os) (y ∷ hs) o h e l =
    ground (arith, compare_hosts_last last (suc j) os hs o h)

not_empty : (os : List ServiceMeta) (o : ServiceMeta) → is_empty (os ++ o ∷ []) ≡ false
not_empty [] o = refl
not_empty (x ∷ os) o = refl

need_change_last :
    (os : List ServiceMeta) (hs : List Text) (o : ServiceMeta) (h : Text)
    → length os ≡ length hs
    → need_change (some (os ++ o ∷ [])) (hs ++ h ∷ []) ≡ not (text_eq o.host_port h)
unfolding need_change
need_change_last os hs o h e = ground (
  arith,
  not_empty os o,
  length-append os (o ∷ []),
  length-append hs (h ∷ []),
  compare_hosts_last (length (hs ++ h ∷ []) - 1) 0 os hs o h e,
)

last_view :
    {A : Type 0} (x : A) (xs : List A) → (init : List A) × (last : A) × (x ∷ xs ≡ init ++ last ∷ [])
last_view x [] = ([], x, refl)
last_view x (y ∷ ys) = let (init, last, e) = last_view y ys in (x ∷ init, last, ap (λ t. x ∷ t) e)

-- As many hosts as metas, one at least, and the last host is that of the last meta.
abbrev pub SameEnd : Option (List ServiceMeta) → List Text → Type 0
SameEnd old hosts =
    (os : List ServiceMeta) × (o : ServiceMeta) × (hs : List Text) × (old ≡ some (os ++ o ∷ []))
    × (hosts ≡ hs ++ o.host_port ∷ [])
    × (length os ≡ length hs)

need_change_counts :
    (old : List ServiceMeta) (hs : List Text)
    → need_change (some old) hs ≡ false
    → (old ≢ []) × (length old ≡ length hs)
unfolding need_change
need_change_counts [] hs e = cc
need_change_counts (o ∷ os) hs e = ((λ k. cc), ground arith)

same_end :
    (os : List ServiceMeta) (o : ServiceMeta) (hs : List Text) (h : Text)
    → need_change (some (os ++ o ∷ [])) (hs ++ h ∷ []) ≡ false
    → (length os ≡ length hs) × (o.host_port ≡ h)
same_end os o hs h e =
    let l : length os ≡ length hs = omega (
      arith,
      (need_change_counts (os ++ o ∷ []) (hs ++ h ∷ []) e).1,
      length-append os (o ∷ []),
      length-append hs (h ∷ []),
    ) in
    (l, ground (arith, need_change_last os hs o h l, e, text_eq_iff o.host_port h))

need_change-SameEnd :
    (old : Option (List ServiceMeta)) (hs : List Text) → need_change old hs ≡ false → SameEnd old hs
need_change-SameEnd none hs e = unfold need_change in cc
need_change-SameEnd (some []) hs e = absurd ((need_change_counts [] hs e).0 refl)
need_change-SameEnd (some (x ∷ xs)) [] e =
    absurd (omega (arith, (need_change_counts (x ∷ xs) [] e).1))
need_change-SameEnd (some (x ∷ xs)) (y ∷ ys) e =
    let (os, o, k) = last_view x xs in
    let (hs, h, k') = last_view y ys in
    let before : need_change (some (os ++ o ∷ [])) (hs ++ h ∷ []) ≡ false =
      ap (λ t. need_change (some t) (hs ++ h ∷ [])) (sym k)
      ∙ (ap (λ t. need_change (some (x ∷ xs)) t) (sym k') ∙ e) in
    let (l, p) = same_end os o hs h before in
    (os, o, hs, ap some k, k' ∙ ap (λ t. hs ++ t ∷ []) (sym p), l)

module _ (conn : Conn) (json : Json) (r : ZkRegistry) (path uri : Text) (addrs : List Text)
    (s : conn.State) where
  abbrev pull : List ServiceMeta × conn.State
  pull = pull_children_data conn json path uri (sort_strings addrs) s

  -- The index of the registry has what a pull of the children gives under the key of the path, and
  -- what it had under every other key.
  pub record Follows (r' : ZkRegistry) : Type 0 where
    pub pulled :
        lookup uri r'.uri2_services
        ≡ some (pull_children_data conn json path uri (sort_strings addrs) s).0
    pub others : (key : Text) → key ≢ uri → lookup key r'.uri2_services ≡ lookup key r.uri2_services

  -- A change of the children of a service's path does not panic, and the index follows it, unless
  -- there are as many children as in the index, and the last one in their order is the last one of
  -- the index, when it stays as it is.
  pub node_change-Follows :
      uri_of path ≡ some uri
      → (r' : ZkRegistry) × (s' : conn.State) × (node_change conn json r path addrs s ≡ done r' s')
        × (Follows r' ⊎ ((r' ≡ r) × SameEnd (lookup uri r.uri2_services) (sort_strings addrs)))
  unfolding node_change
  node_change-Follows e =
      elim (Bool-cases (need_change (lookup uri r.uri2_services) (sort_strings addrs))) [
        | inl c ↦ (
          record r { uri2_services = insert uri pull.0 r.uri2_services },
          pull.1,
          rw (e, c, node_change) refl,
          inl (record {
            pulled = lookup-insert_self uri pull.0 r.uri2_services;
            others = λ key n.
                ground
                  (arith, n, lookup-insert uri key pull.0 r.uri2_services, text_eq_iff uri key);
          }),
        )
        | inr c ↦ (
          r,
          s,
          rw (e, c, node_change) refl,
          inr (refl, need_change-SameEnd (lookup uri r.uri2_services) (sort_strings addrs) c),
        )
      ]

  -- The defect: where the children are as many as in the index and the last one in their order is the
  -- last one of the index, nothing is read and the index stays as it is, whatever the others are.
  pub node_change_stale :
      (os : List ServiceMeta) (hs : List Text) (o : ServiceMeta)
      → uri_of path ≡ some uri
      → lookup uri r.uri2_services ≡ some (os ++ o ∷ [])
      → sort_strings addrs ≡ hs ++ o.host_port ∷ []
      → length os ≡ length hs
      → node_change conn json r path addrs s ≡ done r s
  unfolding node_change
  node_change_stale os hs o e l k n =
      rw (e, l, k, need_change_last os hs o o.host_port n, text_eq_refl o.host_port, node_change)
        refl
