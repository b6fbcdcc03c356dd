-- ===== src/Tests/Lifecycle.antt =====
-- The start of an application with a file registry, and the shutdown of one in ZooKeeper.
use go_moa.Base.{
  false, ℕ, codes, true, ◌≡◌, refl, none, some, [], ◌∷◌, map, Assoc, ◌-◌, lookup, insert, text_eq,
  has_prefix, split, to_lower,
}
use go_moa.Registry.Uri.{build_service_uri}
use go_moa.Config.{MoaOption}
use go_moa.Config.Load.{contents, load_configuration, with_defaults, default_clusters}
use go_moa.Config.Address.{init_server_option}
use go_moa.Stat.{fresh_moa_stat, start_log, MoaInfo}
use go_moa.Proxy.{Service}
use go_moa.Proxy.Build.{
  new_invocation_handler, init_service, check_implements, add_methods, add_method,
}
use go_moa.Zookeeper.{and_then}
use go_moa.Registry.File.{new_file_registry, registe_service}
use go_moa.Registry.Zk.Session.{Node}
use go_moa.Registry.Center.{file_registry, calls, new_config_center}
use go_moa.Registry.Center.Contract.{Publishes}
use go_moa.Registry.Center.OnZk.{zk_publishes}
use go_moa.Application.Start.{Application, World, started, prepare, init_application}
use go_moa.Application.Start.Setup.{t_config}
use go_moa.Application.Start.Serving.{Serving, init_application-Serving}
use go_moa.Tests.Stat.{counting}
use go_moa.Tests.Proxy.{demo, stat, handler}
use go_moa.Tests.Config.{dev, toml, matches, inters}
use go_moa.Tests.Zk.{ensemble, connected}
use go_moa.Tests.Center.{center, registry, here, reads_demo}

-- The service of the handler without a group.
abbrev pub grouped_later : Service counting ℕ
grouped_later = record demo { group_id = [] }

abbrev pub world : World (Assoc Node)
world = record {
  file = contents [];
  parser = toml;
  match_string = matches;
  inters = some inters;
  connect = λ hosts. some [];
  json = reads_demo;
  listen = λ address. none;
  tracer_registered = true;
  metrics_registered = false;
}

abbrev pub loaded_option : MoaOption
loaded_option = (load_configuration (contents []) toml).0

abbrev pub app : Application counting ℕ (Assoc Node)
app = record {
  options = loaded_option;
  config = t_config (codes "10.0.0.5:13000") (with_defaults dev);
  tracer = none;
  pool_size = (with_defaults dev).max_dispatcher_size;
  snappy_compress = true;
  config_center = record {
    registry = calls ensemble reads_demo;
    services = demo ∷ [];
    hostport = codes "10.0.0.5:13000";
  };
  registry_state =
      file_registry
        (record { service = codes "/demo" ∷ []; uri2_services = []; server_model = true });
  invoke_handler = record handler {
    moa_stat = fresh_moa_stat counting (codes "10.0.0.5:13000") (codes "/demo");
  };
  moa_stat = (start_log [] (fresh_moa_stat counting (codes "10.0.0.5:13000") (codes "/demo"))).0;
}

pub app-started : init_application ensemble world (grouped_later ∷ []) ≡ started app
unfolding init_application load_configuration init_server_option split lookup default_clusters
    insert text_eq new_config_center has_prefix with_defaults new_file_registry and_then
    registe_service new_invocation_handler init_service check_implements add_methods add_method
    to_lower build_service_uri
app-started = refl

init_application-Serving_example :
    (options server_op : MoaOption) × (load_configuration world.file world.parser ≡ (options, none))
    × (init_server_option world.match_string world.inters options ≡ some server_op)
    × Serving ensemble world options server_op
        (map (prepare server_op.server.is_pre) (grouped_later ∷ []))
        app
init_application-Serving_example =
    init_application-Serving ensemble world (grouped_later ∷ []) app app-started

-- Two seconds with a connection, then none.
abbrev infos : ℕ → MoaInfo
infos n = record stat.pre_moa_info { connections = 2 - n }

abbrev contract : Publishes center.registry here
contract = zk_publishes ensemble reads_demo connected here
