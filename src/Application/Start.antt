-- ===== src/Application/Start.antt =====
-- initApplication of application.go.
pub mod Setup
pub mod Prepared
pub mod Serving
pub mod Success
pub mod Window
use go_moa.Base.{
  ℕ, ◌*◌, Bool, true, false, Text, codes, Option, none, some, List, [], ◌∷◌, map, is_empty,
  if◌then◌else◌, lookup, text_eq, to_lower,
}
use go_moa.Base.Int.{ℤ, pos}
use go_moa.Config.{Cluster, MoaOption}
use go_moa.Config.Load.{File, Parsed, load_configuration}
use go_moa.Config.Address.{Addr, init_server_option}
use go_moa.Application.Start.Setup.{TConfig, t_config, is_snappy, TracerConfig, new_tracer}
use go_moa.Zookeeper.{Conn, Ran, done, panicked}
use go_moa.Registry.Zk.{Json}
use go_moa.Registry.Center.{Backing, ConfigCenter, new_config_center, registe_all_services}
use go_moa.Stat.{Meters, MoaStat, new_moa_stat, start_log}
use go_moa.Proxy.{Service, InvocationHandler}
use go_moa.Proxy.Build.{Refusal, Built, built, refused, new_invocation_handler}

module _ {M : Meters} {V : Type 0} where
  -- Without a group a service is in all of them; whether it is a preview is the server's option.
  unfoldable pub prepare : Bool → Service M V → Service M V
  prepare is_pre s = record s {
    group_id = if is_empty s.group_id then codes "*" else s.group_id;
    is_pre = is_pre;
  }

-- Where a start ends by a panic; a failed LoadConfiguration, ListenAndServer and
-- NewInvocationHandler with their reasons.
pub data Stage : Type 0 where
  configuration : Text → Stage
  server_option : Stage
  config_center : Stage
  listening : Text → Stage
  no_service : Stage
  metrics_twice : Stage
  bad_service : Refusal → Stage
  second_registration : Stage

-- The application, with the state of its registry, the global tracer that it made, the limit of its
-- pool and whether its codec is set to compress.
pub record Application (M : Meters) (V State : Type 0) : Type 0 where
  pub options : MoaOption
  pub config : TConfig
  pub tracer : Option TracerConfig
  pub pool_size : ℤ
  pub snappy_compress : Bool
  pub config_center : ConfigCenter (Backing State) M V
  pub registry_state : Backing State
  pub invoke_handler : InvocationHandler M V
  pub moa_stat : MoaStat M

-- What a start comes to: a value, or the panic that ends it.
pub data Start {ℓ} (A : Type ℓ) : Type ℓ where
  started : A → Start A
  panic : Stage → Start A

infixl 5 ◌>>=◌ ◌>>◌
abbrev pub ◌>>=◌ {ℓ κ} : {A : Type ℓ} {B : Type κ} → Start A → (A → Start B) → Start B
started a >>= f = f a
panic s >>= f = panic s

abbrev pub ◌>>◌ {ℓ} : {A : Type ℓ} → Start (Unit {0}) → Start A → Start A
m >> k = m >>= λ _. k

-- What the world gives a start: the file with its parser, the interfaces with the matching of
-- expressions, ZooKeeper, JSON, the error of listening at an address, if there is one, and whether the
-- process has a global tracer and, from another application, the collectors of the statistics.
pub record World (State : Type 0) : Type 0 where
  pub file : File
  pub parser : Text → Parsed
  pub match_string : Text → Text → Bool
  pub inters : Option (List (List Addr))
  pub connect : List Text → Option State
  pub json : Json
  pub listen : Text → Option Text
  pub tracer_registered : Bool
  pub metrics_registered : Bool

abbrev zero_cluster : Cluster
zero_cluster = record {
  registry = [];
  process_timeout = pos 0;
  idle_timeout = pos 0;
  max_dispatcher_size = pos 0;
  worker_pool_size = pos 0;
  read_buffer_size = pos 0;
  write_buffer_size = pos 0;
  write_channel_size = pos 0;
  read_channel_size = pos 0;
  future_size = pos 0;
}

unfoldable pub cluster_of : MoaOption → Cluster
cluster_of o = elim (lookup o.server.run_mode o.clusters) [ none ↦ zero_cluster | some c ↦ c ]

loaded : MoaOption × Option Text → Start MoaOption
loaded (o, none) = started o
loaded (o, some e) = panic (configuration e)

or_panic {ℓ} : {A : Type ℓ} → Stage → Option A → Start A
or_panic stage none = panic stage
or_panic stage (some a) = started a

listened : Option Text → Start (Unit {0})
listened none = started tt
listened (some e) = panic (listening e)

-- services[0]
first {ℓ} : {A : Type ℓ} → List A → Option A
first [] = none
first (x ∷ xs) = some x

accepted {ℓ} : {A : Type ℓ} → Built A → Start A
accepted (built a) = started a
accepted (refused r) = panic (bad_service r)

registered_again : {S A : Type 0} → Ran S A → Start S
registered_again (done a s) = started s
registered_again (panicked s) = panic second_registration

module _ (conn : Conn) (world : World conn.State) {M : Meters} {V : Type 0} where
  -- The last registration, behind which only the timers are set.
  registe_again :
      MoaOption
      → MoaOption
      → ConfigCenter (Backing conn.State) M V
      → Backing conn.State
      → MoaStat M
      → InvocationHandler M V
      → Start (Application M V conn.State)
  unfolding is_snappy t_config new_tracer start_log registered_again cluster_of
  registe_again options server_op center w moa_stat handler =
      registered_again (registe_all_services center w) >>= λ w'. started (record {
        options = options;
        config = t_config server_op.server.bind_address (cluster_of server_op);
        tracer = new_tracer world.tracer_registered;
        pool_size = (cluster_of server_op).max_dispatcher_size;
        snappy_compress = is_snappy server_op.server.compress;
        config_center = center;
        registry_state = w';
        invoke_handler = handler;
        moa_stat = (start_log [] moa_stat).0;
      })

  with_statistics :
      MoaOption
      → MoaOption
      → List (Service M V)
      → ConfigCenter (Backing conn.State) M V
      → Backing conn.State
      → MoaStat M
      → Start (Application M V conn.State)
  unfolding accepted registe_again
  with_statistics options server_op services center w moa_stat =
      accepted (new_invocation_handler services moa_stat)
      >>= registe_again options server_op center w moa_stat

  make_handler :
      MoaOption
      → MoaOption
      → List (Service M V)
      → ConfigCenter (Backing conn.State) M V
      → Backing conn.State
      → Service M V
      → Start (Application M V conn.State)
  unfolding new_moa_stat or_panic with_statistics
  make_handler options server_op services center w s =
      or_panic metrics_twice
        (new_moa_stat M world.metrics_registered server_op.server.bind_address s.service_uri)
      >>= with_statistics options server_op services center w

  listen_and_serve :
      MoaOption
      → MoaOption
      → List (Service M V)
      → ConfigCenter (Backing conn.State) M V × Backing conn.State
      → Start (Application M V conn.State)
  unfolding listened or_panic first make_handler
  listen_and_serve options server_op services (center, w) = do
    listened (world.listen server_op.server.bind_address)
    s ← or_panic no_service (first services)
    make_handler options server_op services center w s

  -- From the options of the server on: the center publishes the services when it is made, the server
  -- listens, the statistics and the handler are made, and the services are published again.
  start_server : MoaOption → MoaOption → List (Service M V) → Start (Application M V conn.State)
  unfolding cluster_of or_panic listen_and_serve
  start_server options server_op services =
      or_panic config_center (
        new_config_center conn world.json world.connect (cluster_of server_op).registry
          server_op.server.bind_address services)
      >>= listen_and_serve options server_op services

  -- The bundle gives the services; its own slice holds the prepared ones behind the call.
  unfoldable pub init_application : List (Service M V) → Start (Application M V conn.State)
  unfolding start_server loaded or_panic prepare
  init_application bundle = do
    options ← loaded (load_configuration world.file world.parser)
    server_op ← or_panic server_option (init_server_option world.match_string world.inters options)
    start_server options server_op (map (prepare server_op.server.is_pre) bundle)
