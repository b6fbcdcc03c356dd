-- ===== src/Application/Start/Success.antt =====
-- A start of initApplication of application.go that succeeds, with a registry in ZooKeeper.
use go_moa.Base.{Bool, ◌≡◌, refl, ap, none, some, List, [], ◌∷◌, map, All, true, false}
use go_moa.Config.{MoaOption}
use go_moa.Config.Load.{load_configuration}
use go_moa.Config.Address.{init_server_option}
use go_moa.Zookeeper.{Conn, done}
use go_moa.Registry.Zk.Session.{Session}
use go_moa.Registry.Center.{Backing, ConfigCenter, registe_all_services}
use go_moa.Registry.Center.Fresh.{
  CanOpen, center, AllPublished, registe_all_services-Stands, new_config_center-Stands,
}
use go_moa.Stat.{Meters, MoaStat, fresh_moa_stat, new_moa_stat}
use go_moa.Proxy.{Service, InvocationHandler}
use go_moa.Proxy.Build.Checked.{IsAcceptable, new_invocation_handler-built}
use go_moa.Application.Start.{
  World, Application, Start, started, prepare, cluster_of, loaded, or_panic, listened, first,
  accepted, registered_again, registe_again, with_statistics, make_handler, listen_and_serve,
  start_server, init_application,
}

IsAcceptable-prepare :
    {M : Meters} {V : Type 0} (is_pre : Bool) (bundle : List (Service M V))
    → All IsAcceptable bundle
    → All IsAcceptable (map (prepare is_pre) bundle)
unfolding prepare
IsAcceptable-prepare is_pre [] h = tt
IsAcceptable-prepare is_pre (s ∷ bundle) (h, hs) = (h, IsAcceptable-prepare is_pre bundle hs)

module _ (conn : Conn) (world : World conn.State) (N : Session conn) {M : Meters} {V : Type 0} where
  module _ (options server_op : MoaOption) (services : List (Service M V)) where
    -- It starts, and every service is published in ZooKeeper then.
    abbrev pub StartsPublished : Start (Application M V conn.State) → Type 0
    StartsPublished start =
        (app : Application M V conn.State) × (start ≡ started app)
        × AllPublished conn world.json N world.connect (cluster_of server_op).registry
            server_op.server.bind_address services app.registry_state

    abbrev the_center : ConfigCenter (Backing conn.State) M V
    the_center =
        center conn world.json N world.connect (cluster_of server_op).registry
          server_op.server.bind_address services

    module _ (w w' : Backing conn.State) (again : registe_all_services the_center w ≡ done true w')
        (all : AllPublished conn world.json N world.connect
          (cluster_of server_op).registry
          server_op.server.bind_address
          services
          w') where
      registe_again-StartsPublished :
          (st : MoaStat M) (handler : InvocationHandler M V)
          → StartsPublished (registe_again conn world options server_op the_center w st handler)
      unfolding registe_again registered_again
      registe_again-StartsPublished st handler = rw (again, registe_again) (_, refl, all)

      make_handler-StartsPublished :
          (s : Service M V)
          → world.metrics_registered ≡ false
          → All IsAcceptable services
          → StartsPublished (make_handler conn world options server_op services the_center w s)
      unfolding make_handler new_moa_stat or_panic with_statistics accepted
      make_handler-StartsPublished s f h =
          let st = fresh_moa_stat M server_op.server.bind_address s.service_uri in
          let (handler, made) = (new_invocation_handler-built services st).1 h in
          rw (f, made, make_handler) (registe_again-StartsPublished st handler)

    -- The address can be listened at, and there is a service.
    listen_and_serve-StartsPublished :
        (w w' : Backing conn.State)
        → registe_all_services the_center w ≡ done true w'
        → AllPublished conn world.json N world.connect
            (cluster_of server_op).registry
            server_op.server.bind_address
            services
            w'
        → world.listen server_op.server.bind_address ≡ none
        → world.metrics_registered ≡ false
        → (s : Service M V) → first services ≡ some s
        → All IsAcceptable services
        → StartsPublished (listen_and_serve conn world options server_op services (the_center, w))
    unfolding listen_and_serve listened or_panic
    listen_and_serve-StartsPublished w w' again all l u s f h =
        rw (l, f, listen_and_serve) (make_handler-StartsPublished w w' again all s u h)

    start_server-StartsPublished :
        CanOpen conn world.json N world.connect
          (cluster_of server_op).registry
          server_op.server.bind_address
          services
        → world.listen server_op.server.bind_address ≡ none
        → world.metrics_registered ≡ false
        → (s : Service M V) → first services ≡ some s
        → All IsAcceptable services
        → StartsPublished (start_server conn world options server_op services)
    unfolding start_server or_panic
    start_server-StartsPublished c l u s f h =
        let registry = (cluster_of server_op).registry in
        let host = server_op.server.bind_address in
        let (w, k, (_, open_again)) =
          new_config_center-Stands conn world.json N world.connect registry host services c in
        let (w', k', (all, _)) =
          registe_all_services-Stands conn world.json N world.connect registry host services w
            c.distinct open_again in
        rw (k, start_server) (listen_and_serve-StartsPublished w w' k' all l u s f h)

  -- What a start with a registry in ZooKeeper needs: the configuration can be loaded and the options
  -- of the server made, there is a service, each is given as an implementation of its interface, whose methods have an
  -- error as their last result, the server can listen, the process has no application's collectors of
  -- statistics, and the services can be published.
  pub record CanStart (options server_op : MoaOption) (bundle : List (Service M V)) : Type 0 where
    pub loads : load_configuration world.file world.parser ≡ (options, none)
    pub has_options : init_server_option world.match_string world.inters options ≡ some server_op
    pub first_service : Service M V
    pub other_services : List (Service M V)
    pub has_service : bundle ≡ first_service ∷ other_services
    pub acceptable : All IsAcceptable bundle
    pub listens : world.listen server_op.server.bind_address ≡ none
    pub first_in_process : world.metrics_registered ≡ false
    pub can_open :
        CanOpen conn world.json N world.connect
          (cluster_of server_op).registry
          server_op.server.bind_address
          (map (prepare server_op.server.is_pre) bundle)

  -- On a connected session of ZooKeeper, where the configuration can be loaded and the options of the
  -- server made, the server can listen, the collectors of the statistics are not registered in the
  -- process, there is a service, each is acceptable to NewInvocationHandler,
  -- and their center can be opened (CanOpen: they have different keys, and nothing is in the way of
  -- the root, of their paths and of their addresses): initApplication returns an application, and
  -- every service of the bundle, as it is prepared, is published at the address of the server.
  pub init_application-StartsPublished :
      (options server_op : MoaOption) (bundle : List (Service M V))
      → CanStart options server_op bundle
      → StartsPublished options server_op
          (map (prepare server_op.server.is_pre) bundle)
          (init_application conn world bundle)
  unfolding init_application loaded or_panic first
  init_application-StartsPublished options server_op bundle c =
      rw (c.loads, c.has_options, init_application)
        (start_server-StartsPublished options server_op
          (map (prepare server_op.server.is_pre) bundle) c.can_open c.listens c.first_in_process
          (prepare server_op.server.is_pre c.first_service)
          (ap (λ b. first (map (prepare server_op.server.is_pre) b)) c.has_service)
          (IsAcceptable-prepare server_op.server.is_pre bundle c.acceptable))
