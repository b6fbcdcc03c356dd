-- ===== src/Registry/Zk/Register/Anew.antt =====
-- RegisteService of registry_zk.go where the path of the service may not be there yet.
use go_moa.Base.{
  sort_strings_one, Bool, ◌+◌, ◌≤◌, true, false, ◌≡◌, ◌≢◌, refl, sym, ap, ◌∙◌, subst, ◌⊎◌, inl, inr,
  Text, Option, none, some, List, [], ◌∷◌, ◌++◌, append-nil, All, Lacks, length, length-append,
  concat_three, text_eq_iff, text_eq_refl, if◌then◌else◌, arith,
}
use go_moa.Registry.{ServiceMeta}
use go_moa.Registry.Uri.{build_service_uri}
use go_moa.Zookeeper.{Conn, Ran, done, panicked, zk_path_delimiter, create_node}
use go_moa.Registry.Zk.{
  Json, path_of, addr_path, register_addr, created_then, registe_service, pull_hosts,
  pull_children_data,
}
use go_moa.Registry.Zk.Session.{Node, is_some, Session}
use go_moa.Registry.Zk.Paths.{IsPart, join, append-join}
use go_moa.Registry.Zk.Create.{
  Grows, Grows-trans, Along, NoEphemeral, NoEphemeral-Grows, Grows-exists, create_node-Grows,
}
use go_moa.Registry.Zk.Register.{meta_of_node_read, Sets, register_addr-Sets}

pub length-addr_path :
    (dir name : Text) → length (addr_path dir name) ≡ length dir + (1 + length name)
unfolding addr_path
length-addr_path dir name = omega (
  arith,
  ap length (concat_three dir zk_path_delimiter name),
  length-append dir (zk_path_delimiter ++ name),
)

module _ (conn : Conn) (json : Json) (N : Session conn) where
  open conn use {State}
  open N use {node}

  pub length-Along :
      (dir : Text) (ps : List Text) (q : Text)
      → Along conn N dir ps q
      → length q ≤ length (dir ++ join ps)
  length-Along dir [] q h = absurd h
  length-Along dir (p ∷ ps) q (inl e) = omega (
    arith,
    ap length e,
    ap length (append-join dir p ps),
    length-append (addr_path dir p) (join ps),
  )
  length-Along dir (p ∷ ps) q (inr h) =
      omega (arith, length-Along (addr_path dir p) ps q h, ap length (append-join dir p ps))

  -- The address below a path is not on the way to it.
  not_Along : (ps : List Text) (name : Text) → ¬ Along conn N [] ps (addr_path (join ps) name)
  not_Along ps name h =
      omega
        (arith, length-Along [] ps (addr_path (join ps) name) h, length-addr_path (join ps) name)

  NoEphemeral-join :
      (dir : Text) (ps : List Text) (s : State) (n : Node)
      → ps ≢ []
      → NoEphemeral conn N dir ps s
      → node (dir ++ join ps) s ≡ some n
      → n.ephemeral ≡ false
  NoEphemeral-join dir [] s n e h k = absurd (e refl)
  NoEphemeral-join dir (p ∷ []) s n e (h, _) k =
      h n (ap (λ q. node q s) (sym (append-nil (addr_path dir p)) ∙ append-join dir p []) ∙ k)
  NoEphemeral-join dir (p ∷ q ∷ ps) s n e (_, h) k =
      NoEphemeral-join (addr_path dir p) (q ∷ ps) s n (λ x. cc) h
        (ap (λ r. node r s) (append-join dir p (q ∷ ps)) ∙ k)

  -- A registration at an address below a path, whose parts these are: the address has the meta, the
  -- path is there and not ephemeral, other nodes stay as they are, and what is new besides the address
  -- are nodes on the way to the path, which are not ephemeral.
  pub record Registered (ps : List Text) (addr : Text) (meta : ServiceMeta) (s s' : State)
      : Type 0 where
    pub registered : node addr s' ≡ some (record { content = json.marshal meta; ephemeral = true })
    pub path_there : (n : Node) × (node (join ps) s' ≡ some n) × (n.ephemeral ≡ false)
    pub others_stay : (q : Text) (n : Node) → q ≢ addr → node q s ≡ some n → node q s' ≡ some n
    pub new_on_way :
        (q : Text) (n : Node)
        → q ≢ addr
        → node q s' ≡ some n
        → (node q s ≡ some n) ⊎ (Along conn N [] ps q × (n.ephemeral ≡ false))

  -- Setting the address behind the making of the path.
  Registered-Sets :
      (ps : List Text) (name : Text) (meta : ServiceMeta) (s t s' : State)
      → Grows conn N (Along conn N [] ps) s t
      → ((n : Node) × (node (join ps) t ≡ some n) × (n.ephemeral ≡ false))
      → Sets conn json N
          (addr_path (join ps) name)
          (some (record { content = json.marshal meta; ephemeral = true }))
          t
          s'
      → Registered ps (addr_path (join ps) name) meta s s'
  Registered-Sets ps name meta s t s' g (n, k, p) sets = record {
    registered = sets addr ∙ rw (text_eq_refl addr) refl;
    path_there = (n, same (join ps) below_it ∙ k, p);
    others_stay = λ q m ne e. same q ne ∙ g.stays q m e;
    new_on_way = λ q m ne e. g.new q m (sym (same q ne) ∙ e);
  }
    where
      addr : Text
      addr = addr_path (join ps) name

      below_it : join ps ≢ addr
      below_it e = omega (arith, ap length e, length-addr_path (join ps) name)

      same : (q : Text) → q ≢ addr → node q s' ≡ node q t
      same q ne = sets q ∙ ground (arith, ne, text_eq_iff addr q)

  -- A registered meta is what a pull of its address gives.
  pull_registered :
      (dir uri name : Text) (meta : ServiceMeta) (s : State)
      → json.marshal meta ≢ []
      → json.unmarshal (json.marshal meta) ≡ some meta
      → node (addr_path dir name) s
        ≡ some (record { content = json.marshal meta; ephemeral = true })
      → (pull_children_data conn json dir uri (name ∷ []) s).0 ≡ meta ∷ []
  unfolding pull_children_data pull_hosts
  pull_registered dir uri name meta s n k e =
      let read = N.get-node (addr_path dir name) s _ e in
      rw (sort_strings_one name, read)
        (ap (λ m. m ∷ []) (meta_of_node_read json uri name (json.marshal meta) meta n k))

  module _ (ps : List Text) (name : Text) (s : State) where
    -- What RegisteService needs of a path of these parts and an address below it.
    pub record CanRegister : Type 0 where
      pub has_part : ps ≢ []
      pub parts : All IsPart ps
      pub persistent : NoEphemeral conn N [] ps s
      pub one_part : Lacks b'/' name
      pub address_free :
          (a : Node) → node (addr_path (join ps) name) s ≡ some a → a.ephemeral ≡ true

    -- The address is as it was after what is made on the way to the path.
    free_after :
        CanRegister
        → (t : State) → Grows conn N (Along conn N [] ps) s t
        → (a : Node) → node (addr_path (join ps) name) t ≡ some a
        → a.ephemeral ≡ true
    free_after c t g a e = elim (g.new (addr_path (join ps) name) a e) [
      | inl k ↦ c.address_free a k
      | inr (along, k) ↦ absurd (not_Along ps name along)
    ]

    module _ (meta : ServiceMeta) where
      -- RegisteService from its look at the path on.
      abbrev Succeeds : Ran State Bool → Type 0
      Succeeds ran =
          (s' : State) × (ran ≡ done true s') × Registered ps (addr_path (join ps) name) meta s s'

      -- The address is set on a state where the path is there.
      set_address :
          CanRegister
          → (t : State) → Grows conn N (Along conn N [] ps) s t
          → ((n : Node) × (node (join ps) t ≡ some n) × (n.ephemeral ≡ false))
          → Succeeds (register_addr conn json (addr_path (join ps) name) meta t)
      set_address c t g (n, k, p) =
          let (s', r, sets) =
            register_addr-Sets conn json N (join ps) name meta t n k p c.one_part
              (free_after c t g) in
          (s', r, Registered-Sets ps name meta s t s' g (n, k, p) sets)

      made_anew :
          CanRegister
          → Succeeds (
              created_then conn json
                (create_node conn (join ps) (conn.exists (join ps) s).1)
                (register_addr conn json (addr_path (join ps) name) meta))
      unfolding created_then
      made_anew c =
          let s1 = (conn.exists (join ps) s).1 in
          let g1 = Grows-exists conn N (Along conn N [] ps) (join ps) s in
          let (t, e, g, there) =
            create_node-Grows conn N ps s1 c.has_part c.parts
              (NoEphemeral-Grows conn N (Along conn N [] ps) [] ps s s1 g1 c.persistent) in
          subst Succeeds (sym (rw e refl))
            (set_address c t (Grows-trans conn N (Along conn N [] ps) s s1 t g1 g) there)

      from_path : Text → Ran State Bool
      unfolding created_then
      from_path q = elim (conn.exists q s).0 [
        | none ↦ panicked (conn.close (conn.exists q s).1)
        | some there ↦
            if there
            then register_addr conn json (addr_path q name) meta (conn.exists q s).1
            else created_then conn json (create_node conn q (conn.exists q s).1)
                (register_addr conn json (addr_path q name) meta)
      ]

      -- Both branches of the look at the path.
      set_or_made :
          CanRegister
          → (o : Option Node) → node (join ps) s ≡ o
          → Succeeds (
              if is_some o
              then register_addr conn json
                  (addr_path (join ps) name)
                  meta
                  (conn.exists (join ps) s).1
              else created_then conn json
                  (create_node conn (join ps) (conn.exists (join ps) s).1)
                  (register_addr conn json (addr_path (join ps) name) meta))
      set_or_made c none e = made_anew c
      set_or_made c (some n) e =
          let s1 = (conn.exists (join ps) s).1 in
          set_address c s1 (Grows-exists conn N (Along conn N [] ps) (join ps) s) (
            n,
            N.exists_keeps (join ps) (join ps) s ∙ e,
            NoEphemeral-join [] ps s n c.has_part c.persistent e,
          )

      -- On a connected session, for a service whose path has at least one part, none of whose prefixes is
      -- an ephemeral node, where the address is free or taken by an earlier registration: RegisteService
      -- succeeds, whether the path is there or not. After it the address is an ephemeral node that holds
      -- the meta, the path is a node that is not ephemeral, every other node that was there is as it was,
      -- and what is new besides the address are prefixes of the path, which are not ephemeral.
      pub registe_service-Registered :
          (service_uri proto_type group_id : Text)
          → path_of proto_type (build_service_uri service_uri group_id) ≡ join ps
          → CanRegister
          → (s' : State) × (registe_service conn json service_uri name proto_type group_id meta s
              ≡ done true s')
            × Registered ps (addr_path (join ps) name) meta s s'
      unfolding registe_service from_path
      registe_service-Registered service_uri proto_type group_id e c =
          subst (λ q. Succeeds (from_path q)) (sym e)
            (rw (N.exists-node (join ps) s, from_path) (set_or_made c (node (join ps) s) refl))

      -- What a client reads. As above, where the JSON of the meta is not empty and reads back as the
      -- meta: RegisteService succeeds, and pulling the address below the service's path gives exactly
      -- the meta that was registered.
      pub registe_service-pull :
          (service_uri proto_type group_id uri : Text)
          → path_of proto_type (build_service_uri service_uri group_id) ≡ join ps
          → CanRegister
          → json.marshal meta ≢ []
          → json.unmarshal (json.marshal meta) ≡ some meta
          → (s' : State) × (registe_service conn json service_uri name proto_type group_id meta s
              ≡ done true s')
            × ((pull_children_data conn json
                  (path_of proto_type (build_service_uri service_uri group_id))
                  uri
                  (name ∷ [])
                  s').0
                ≡ meta ∷ [])
      registe_service-pull service_uri proto_type group_id uri e c n k =
          let (s', ran, r) = registe_service-Registered service_uri proto_type group_id e c in
          (
            s',
            ran,
            subst (λ q. (pull_children_data conn json q uri (name ∷ []) s').0 ≡ meta ∷ []) (sym e)
                (pull_registered (join ps) uri name meta s' n k r.registered),
          )
