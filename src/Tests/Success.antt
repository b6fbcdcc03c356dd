-- ===== src/Tests/Success.antt =====
-- The start of an application that publishes in an empty ZooKeeper.
use go_moa.Base.{
  List, Text, false, none, some, codes, ◌≡◌, refl, [], ◌∷◌, map, Assoc, arith, lookup, insert,
  text_eq, split, has_prefix, trim_prefix, concat,
}
use go_moa.Registry.Uri.{build_service_uri}
use go_moa.Config.{MoaOption}
use go_moa.Config.Load.{
  Parsed, parsed, contents, load_configuration, with_defaults, default_clusters,
}
use go_moa.Config.Address.{init_server_option}
use go_moa.Registry.Zk.{Json, path_of, addr_path}
use go_moa.Registry.Zk.Session.{Node}
use go_moa.Registry.Center.Open.{IsOpenAt}
use go_moa.Registry.Center.OnZk.{zk_publishes}
use go_moa.Application.Start.{World, cluster_of, prepare, init_application}
use go_moa.Application.Start.Success.{CanStart, StartsPublished, init_application-StartsPublished}
use go_moa.Tests.Config.{option, dev, matches, inters}
use go_moa.Tests.Zk.{ensemble, connected}
use go_moa.Tests.Lifecycle.{grouped_later}

abbrev address : Text
address = codes "10.0.0.5:13000"

abbrev toml_zk : Text → Parsed
toml_zk raw =
    parsed (record option {
      clusters = (codes "dev", record dev { registry = codes "zk://h:2181" }) ∷ [];
    })

-- Every node's text reads as the meta of the service at the address.
abbrev reads_address : Json
reads_address = record {
  marshal = λ m. codes "{}";
  unmarshal = λ t. some (record {
    service_uri = codes "/demo";
    group_id = codes "*";
    host_port = address;
    proto_version = codes "v1";
    is_pre = false;
  });
}

abbrev world_zk : World (Assoc Node)
world_zk = record {
  file = contents [];
  parser = toml_zk;
  match_string = matches;
  inters = some inters;
  connect = λ hosts. some [];
  json = reads_address;
  listen = λ a. none;
  tracer_registered = false;
  metrics_registered = false;
}

abbrev options_zk : MoaOption
options_zk = (load_configuration (contents []) toml_zk).0

abbrev server_op_zk : MoaOption
server_op_zk = record options_zk {
  server = record options_zk.server { bind_address = address; compress = codes "snappy" };
}

has_options_zk : init_server_option matches (some inters) options_zk ≡ some server_op_zk
unfolding init_server_option load_configuration split lookup default_clusters insert text_eq
    with_defaults has_prefix
has_options_zk = refl

abbrev parts : List Text
parts = codes "moa" ∷ codes "service" ∷ codes "v1" ∷ codes "demo" ∷ []

fresh_address : IsOpenAt ensemble reads_address connected address (codes "/demo") []
unfolding path_of addr_path concat lookup text_eq
fresh_address = record {
  path_parts = parts;
  is_path = refl;
  no_host = ((λ e. cc), ((λ e. cc), ((λ e. cc), ((λ e. cc), tt))));
  can_register = record {
    has_part = λ e. cc;
    parts = (
      ((λ e. cc), omega arith),
      (((λ e. cc), omega arith), (((λ e. cc), omega arith), (((λ e. cc), omega arith), tt))),
    );
    persistent = ((λ n e. cc), ((λ n e. cc), ((λ n e. cc), ((λ n e. cc), tt))));
    one_part = omega arith;
    address_free = λ a e. cc;
  };
}

can_start : CanStart ensemble world_zk connected options_zk server_op_zk (grouped_later ∷ [])
unfolding load_configuration default_clusters insert text_eq with_defaults cluster_of lookup
    has_prefix trim_prefix prepare build_service_uri zk_publishes
can_start = record {
  loads = refl;
  has_options = has_options_zk;
  first_service = grouped_later;
  other_services = [];
  has_service = refl;
  acceptable = ((refl, ((omega arith, omega arith, refl), tt)), tt);
  listens = refl;
  first_in_process = refl;
  can_open = record {
    is_zk = refl;
    first = [];
    connects = refl;
    root_persistent = ((λ n e. cc), ((λ n e. cc), ((λ n e. cc), tt)));
    all_open = ((fresh_address, refl), tt);
    distinct = (tt, tt);
  };
}

init_application-StartsPublished_example :
    StartsPublished ensemble world_zk connected options_zk server_op_zk
      (map (prepare server_op_zk.server.is_pre) (grouped_later ∷ []))
      (init_application ensemble world_zk (grouped_later ∷ []))
init_application-StartsPublished_example =
    init_application-StartsPublished ensemble world_zk connected options_zk server_op_zk
      (grouped_later ∷ []) can_start
