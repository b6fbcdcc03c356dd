-- ===== src/Registry/Center/Fresh.antt =====
-- NewConfigCenter of registry.go for a server in ZooKeeper.
use go_moa.Base.{
  true, ◌≡◌, refl, sym, ap, subst, inl, inr, Text, codes, Option, some, List, [], ◌∷◌, All, arith,
  concat, concat_two, length, length-append, has_prefix, trim_prefix, is_empty, split,
  if◌then◌else◌,
}
use go_moa.Registry.{protocol, scheme_zk}
use go_moa.Registry.Uri.{build_service_uri}
use go_moa.Zookeeper.{Conn, done, new_zk_manager}
use go_moa.Registry.Zk.{Json, ZkRegistry, path_of, addr_path}
use go_moa.Registry.Zk.Index.Opened.{opened_server}
use go_moa.Registry.Zk.Session.{Session}
use go_moa.Registry.Zk.Paths.{IsPart, join}
use go_moa.Registry.Zk.Create.{Grows, Along, NoEphemeral, NoEphemeral-Grows, create_node-Grows}
use go_moa.Registry.Zk.Register.Anew.{length-Along, length-addr_path}
use go_moa.Stat.{Meters}
use go_moa.Proxy.{Service}
use go_moa.Registry.Center.{
  Backing, zk_registry, ConfigCenter, calls, published_meta, registe_all_services, open_backing,
  zk_opened, uris_of, made_of, new_config_center,
}
use go_moa.Registry.Center.Open.{node_path, IsOpenAt}
use go_moa.Registry.Center.Publish.{
  CanPublish, IsDistinct, still_open, registe_all_services-published,
}
use go_moa.Registry.Center.OnZk.{published_in, zk_publishes}

abbrev pub root_parts : List Text
root_parts = codes "moa" ∷ codes "service" ∷ codes "v1" ∷ []

root_parts-IsPart : All IsPart root_parts
root_parts-IsPart =
    (((λ e. cc), omega arith), (((λ e. cc), omega arith), (((λ e. cc), omega arith), tt)))

-- zk.go's default where no hosts are given.
abbrev pub hosts_of : Text → List Text
hosts_of zkhosts = split b',' (if is_empty zkhosts then codes "localhost:2181" else zkhosts)

module _ (conn : Conn) (json : Json) (N : Session conn) where
  open N use {node}

  abbrev OnWay : Text → Type 0
  OnWay = Along conn N [] root_parts

  new_zk_manager-Grows :
      (connect : List Text → Option conn.State) (zkhosts : Text) (s : conn.State)
      → connect (hosts_of zkhosts) ≡ some s
      → NoEphemeral conn N [] root_parts s
      → (t : conn.State) × (new_zk_manager conn connect zkhosts ≡ some (done true t))
        × Grows conn N OnWay s t
  unfolding new_zk_manager concat
  new_zk_manager-Grows connect zkhosts s e f =
      let (t, k, g, _) = create_node-Grows conn N root_parts s (λ x. cc) root_parts-IsPart f in
      (t, rw (e, new_zk_manager) (ap some k), g)

  longer : (host key : Text) → ¬ OnWay (node_path host key)
  unfolding path_of concat
  longer host key h = omega (
    arith,
    length-Along conn json N [] root_parts (node_path host key) h,
    length-addr_path (path_of protocol key) host,
    ap length (concat_two (codes "/moa/service/v1") key),
    length-append (codes "/moa/service/v1") key,
  )

  -- What is made on the way to the root leaves open keys open.
  IsOpenAt-Grows :
      (host key : Text) (s t : conn.State)
      → Grows conn N OnWay s t
      → IsOpenAt conn json N host key s
      → IsOpenAt conn json N host key t
  IsOpenAt-Grows host key s t g o = record {
    path_parts = o.path_parts;
    is_path = o.is_path;
    no_host = o.no_host;
    can_register = record {
      has_part = o.can_register.has_part;
      parts = o.can_register.parts;
      persistent = NoEphemeral-Grows conn N OnWay [] o.path_parts s t g o.can_register.persistent;
      one_part = o.can_register.one_part;
      address_free = λ a e. elim (g.new (addr_path (join o.path_parts) host) a e) [
        | inl k ↦ o.can_register.address_free a k
        | inr k ↦
            absurd (longer host key (subst OnWay (ap (λ p. addr_path p host) (sym o.is_path)) k.0))
      ];
    };
  }

  module _ (connect : List Text → Option conn.State) (registry_addr host : Text) {M : Meters}
      {V : Type 0} (services : List (Service M V)) where
    abbrev pub center : ConfigCenter (Backing conn.State) M V
    center = record { registry = calls conn json; services = services; hostport = host }

    abbrev pub Publishable : Backing conn.State → Service M V → Type 0
    Publishable = CanPublish center (zk_publishes conn json N host)

    -- The address is that of a ZooKeeper that is connected to, where the root can be made and the
    -- services, which have different keys, can be published.
    pub record CanOpen : Type 0 where
      pub is_zk : has_prefix registry_addr scheme_zk ≡ true
      pub first : conn.State
      pub connects : connect (hosts_of (trim_prefix registry_addr scheme_zk)) ≡ some first
      pub root_persistent : NoEphemeral conn N [] root_parts first
      pub all_open :
          All
            (λ (x : Service M V).
              IsOpenAt conn json N host (build_service_uri x.service_uri x.group_id) first
              × (json.unmarshal (json.marshal (published_meta center x))
                  ≡ some (published_meta center x)))
            services
      pub distinct : IsDistinct center (zk_publishes conn json N host) services

    -- Every service is published.
    abbrev pub AllPublished : Backing conn.State → Type 0
    AllPublished w =
        All
          (λ (x : Service M V).
            published_in conn json N host (build_service_uri x.service_uri x.group_id) w
            ≡ some (published_meta center x))
          services

    publishable_after :
        (ss : List (Service M V)) (r : ZkRegistry) (s t : conn.State)
        → Grows conn N OnWay s t
        → All
            (λ (x : Service M V).
              IsOpenAt conn json N host (build_service_uri x.service_uri x.group_id) s
              × (json.unmarshal (json.marshal (published_meta center x))
                  ≡ some (published_meta center x)))
            ss
        → All (Publishable (zk_registry r t)) ss
    unfolding zk_publishes
    publishable_after [] r s t g h = tt
    publishable_after (x ∷ ss) r s t g ((o, e), h) = (
      (IsOpenAt-Grows host (build_service_uri x.service_uri x.group_id) s t g o, e),
      publishable_after ss r s t g h,
    )

    -- The services are published, and can be again.
    abbrev pub Stands : Backing conn.State → Type 0
    Stands w = AllPublished w × All (Publishable w) services

    pub registe_all_services-Stands :
        (w : Backing conn.State)
        → IsDistinct center (zk_publishes conn json N host) services
        → All (Publishable w) services
        → (w' : Backing conn.State) × (registe_all_services center w ≡ done true w') × Stands w'
    unfolding zk_publishes
    registe_all_services-Stands w d h =
        let (w', k, all, _, keeps) =
          registe_all_services-published center (zk_publishes conn json N host) w h d in
        (w', k, (all, still_open center (zk_publishes conn json N host) w w' services keeps h))

    opened :
        CanOpen
        → (w : Backing conn.State) × (open_backing conn json connect registry_addr services
            ≡ some w)
          × All (Publishable w) services
    unfolding open_backing zk_opened
    opened c =
        let hosts = trim_prefix registry_addr scheme_zk in
        let (t, e, g) = new_zk_manager-Grows connect hosts c.first c.connects c.root_persistent in
        let (r, k) =
          opened_server conn json connect hosts (uris_of conn json connect services) t e in
        (
          zk_registry r t,
          rw (c.is_zk, k, open_backing) refl,
          publishable_after services r c.first t g c.all_open,
        )

    -- Under these conditions NewConfigCenter makes the center, and every service is published then.
    pub new_config_center-Stands :
        CanOpen
        → (w : Backing conn.State) × (new_config_center conn json connect registry_addr host
              services
            ≡ some (center, w))
          × Stands w
    unfolding new_config_center made_of
    new_config_center-Stands c =
        let (w, k, h) = opened c in
        let (w', k', stands) = registe_all_services-Stands w c.distinct h in
        (w', rw (k, new_config_center) (ap (made_of conn json connect center) k'), stands)
