-- ===== src/Registry/Zk/Register.antt =====
-- What RegisteService and UnRegisteService of registry_zk.go do to the nodes.
pub mod Anew
use go_moa.Base.{
  true, false, ◌≡◌, ◌≢◌, refl, sym, ap, ◌∙◌, Text, Option, none, some, [], ◌∷◌, ◌++◌, if◌then◌else◌,
  length, length-append, concat_three, text_eq, text_eq_iff, text_eq_refl, Lacks, arith, Bool-cases,
  Option-cases, inl, inr, sort_strings_one,
}
use go_moa.Registry.{ServiceMeta}
use go_moa.Registry.Uri.{build_service_uri}
use go_moa.Zookeeper.{Conn, done, zk_path_delimiter}
use go_moa.Registry.Zk.{
  Json, path_of, addr_path, meta_of_node, register_addr, pull_hosts, pull_children_data,
  registe_service, un_registe_service,
}
use go_moa.Registry.Zk.Session.{Node, Session}

below : (dir name : Text) → text_eq (addr_path dir name) dir ≡ false
unfolding addr_path
below dir name = elim (Bool-cases (text_eq (addr_path dir name) dir)) [
  | inl e ↦ absurd (
      omega (
        arith,
        ap length (sym (concat_three dir zk_path_delimiter name) ∙ (text_eq_iff _ _).0 e),
        length-append dir (zk_path_delimiter ++ name),
      ))
  | inr e ↦ e
]

meta_of_node_read :
    (json : Json) (uri host raw_node : Text) (meta : ServiceMeta)
    → raw_node ≢ []
    → json.unmarshal raw_node ≡ some meta
    → meta_of_node json uri host (some raw_node) ≡ meta
unfolding meta_of_node
meta_of_node_read json uri host [] meta n e = absurd (n refl)
meta_of_node_read json uri host (c ∷ raw) meta n e = rw (e, meta_of_node) refl

module _ (conn : Conn) (json : Json) (N : Session conn) where
  open conn use {State}
  open N use {node}

  -- The nodes of `s'` are those of `s` with this one set or removed.
  abbrev pub Sets : Text → Option Node → State → State → Type 0
  Sets p n s s' = (q : Text) → node q s' ≡ (if text_eq p q then n else node q s)

  delete-Sets :
      (p : Text) (s : State)
      → ((a : Node) → node p s ≡ some a → a.ephemeral ≡ true)
      → Sets p none s (conn.delete p s).1
  delete-Sets p s h q = elim (Option-cases (node p s)) [
    | inl e ↦ ground (arith, e, N.delete_none p q s e, text_eq_iff p q)
    | inr (a, e) ↦ N.delete-node p q s (N.delete_ok p s a e (h a e))
  ]

  register_addr-Sets :
      (dir name : Text) (meta : ServiceMeta) (s : State) (n : Node)
      → node dir s ≡ some n
      → n.ephemeral ≡ false
      → Lacks b'/' name
      → ((a : Node) → node (addr_path dir name) s ≡ some a → a.ephemeral ≡ true)
      → (s' : State) × (register_addr conn json (addr_path dir name) meta s ≡ done true s')
        × Sets
            (addr_path dir name)
            (some (record { content = json.marshal meta; ephemeral = true }))
            s
            s'
  unfolding register_addr
  register_addr-Sets dir name meta s n e p l h =
      let addr = addr_path dir name in
      let s1 = (conn.delete addr s).1 in
      let cleared : Sets addr none s s1 = delete-Sets addr s h in
      let ok =
        N.create_ok dir name (json.marshal meta) true s1 n (cleared dir ∙ rw (below dir name) e) p l
          (cleared addr ∙ rw (text_eq_refl addr) refl) in
      (
        (conn.create addr (json.marshal meta) true s1).1,
        rw (ok, register_addr) refl,
        λ q. N.create-node addr q (json.marshal meta) true s1 ok ∙ ground (arith, cleared q),
      )

  module _ (service_uri hostport proto_type group_id : Text) (s : State) where
    abbrev service_path : Text
    service_path = path_of proto_type (build_service_uri service_uri group_id)

    abbrev pub address : Text
    address = addr_path service_path hostport

    -- A node that was registered is gone after UnRegisteService, which succeeds, and no other node
    -- changes.
    un_registe_service-Sets :
        (a : Node)
        → node address s ≡ some a
        → a.ephemeral ≡ true
        → (s' : State) × (un_registe_service conn json service_uri hostport proto_type group_id s
            ≡ (true, s'))
          × Sets address none s s'
    unfolding un_registe_service
    un_registe_service-Sets a e h =
        let s1 = (conn.exists address s).1 in
        let same : (q : Text) → node q s1 ≡ node q s = λ q. N.exists_keeps address q s in
        let ok = N.delete_ok address s1 a (same address ∙ e) h in
        (
          (conn.delete address s1).1,
          rw (N.exists-node address s, e, un_registe_service)
              (ap (λ b. (b, (conn.delete address s1).1)) ok),
          λ q. N.delete-node address q s1 ok ∙ ground (arith, same q),
        )

    -- As above, and also where the address is free: it is free after UnRegisteService, which does not
    -- fail.
    pub un_registe_service_open :
        ((a : Node) → node address s ≡ some a → a.ephemeral ≡ true)
        → (s' : State) × (un_registe_service conn json service_uri hostport proto_type group_id s
            ≡ (true, s'))
          × Sets address none s s'
    unfolding un_registe_service
    un_registe_service_open h = elim (Option-cases (node address s)) [
      | inr (a, e) ↦ un_registe_service-Sets a e (h a e)
      | inl e ↦ (
        (conn.exists address s).1,
        rw (N.exists-node address s, e, un_registe_service) refl,
        λ q. N.exists_keeps address q s ∙ ground (arith, e, text_eq_iff address q),
      )
    ]
