-- ===== src/Tests/Center.antt =====
-- A center with the service of the handler, published in the session of the nodes.
use go_moa.Base.{
  ℕ, List, ◌≢◌, Text, codes, true, false, ◌≡◌, refl, none, some, [], ◌∷◌, All, Assoc, lookup,
  text_eq, concat, arith,
}
use go_moa.Registry.Uri.{build_service_uri}
use go_moa.Zookeeper.{done}
use go_moa.Registry.Zk.{ZkRegistry, path_of, addr_path}
use go_moa.Registry.Zk.Session.{Node}
use go_moa.Registry.Center.{
  Backing, zk_registry, calls, ConfigCenter, registe_all_services, published_meta, destroy,
}
use go_moa.Registry.Center.Publish.{AllOpen, Misses, destroy-withdrawn}
use go_moa.Registry.Zk.Paths.{IsPart}
use go_moa.Registry.Center.Open.{IsOpenAt}
use go_moa.Registry.Center.OnZk.{published_in, zk_publishes, zk_center-published}
use go_moa.Tests.Stat.{counting}
use go_moa.Tests.Proxy.{demo}
use go_moa.Tests.Zk.{ensemble, connected}
use go_moa.Registry.Zk.{Json}

abbrev pub here : Text
here = codes "host:13000"

-- Every node's text reads as the meta of the service.
abbrev pub reads_demo : Json
reads_demo = record {
  marshal = λ m. codes "{}";
  unmarshal = λ t. some (record {
    service_uri = codes "/demo";
    group_id = codes "*";
    host_port = here;
    proto_version = codes "v1";
    is_pre = false;
  });
}

abbrev pub center : ConfigCenter (Backing (Assoc Node)) counting ℕ
center = record { registry = calls ensemble reads_demo; services = demo ∷ []; hostport = here }

abbrev pub registry : ZkRegistry
registry = record {
  service = codes "/demo" ∷ [];
  uri2_services = [];
  server_model = true;
  watched = codes "/moa/service" ∷ [];
  is_close = false;
}

abbrev pub nodes : Assoc Node
nodes = (codes "/moa/service/v1/demo", record { content = []; ephemeral = false }) ∷ []

abbrev parts : List Text
parts = codes "moa" ∷ codes "service" ∷ codes "v1" ∷ codes "demo" ∷ []

parts_are : All IsPart parts
parts_are = (
  ((λ e. cc), omega arith),
  (((λ e. cc), omega arith), (((λ e. cc), omega arith), (((λ e. cc), omega arith), tt))),
)

others : All (λ p. p ≢ here) parts
others = ((λ e. cc), ((λ e. cc), ((λ e. cc), ((λ e. cc), tt))))

pub open_at : IsOpenAt ensemble reads_demo connected here (codes "/demo") nodes
unfolding path_of addr_path concat lookup text_eq
open_at = record {
  path_parts = parts;
  is_path = refl;
  no_host = others;
  can_register = record {
    has_part = λ e. cc;
    parts = parts_are;
    persistent = ((λ n e. cc), ((λ n e. cc), ((λ n e. cc), ((λ n e. cc), tt))));
    one_part = omega arith;
    address_free = λ a e. cc;
  };
}

-- ZooKeeper is empty.
fresh_zookeeper : IsOpenAt ensemble reads_demo connected here (codes "/demo") []
unfolding path_of addr_path concat lookup text_eq
fresh_zookeeper = record {
  path_parts = parts;
  is_path = refl;
  no_host = others;
  can_register = record {
    has_part = λ e. cc;
    parts = parts_are;
    persistent = ((λ n e. cc), ((λ n e. cc), ((λ n e. cc), ((λ n e. cc), tt))));
    one_part = omega arith;
    address_free = λ a e. cc;
  };
}

zk_center-published_example :
    (w' : Backing (Assoc Node)) × (registe_all_services center (zk_registry registry [])
      ≡ done true w')
    × All
        (λ s.
          published_in ensemble reads_demo connected here
            (build_service_uri s.service_uri s.group_id)
            w'
          ≡ some (published_meta center s))
        (demo ∷ [])
unfolding build_service_uri text_eq zk_publishes
zk_center-published_example =
    zk_center-published ensemble reads_demo connected here (demo ∷ []) registry []
      ((fresh_zookeeper, refl), tt) (tt, tt)

destroy-withdrawn_example :
    (w' : Backing (Assoc Node)) × (destroy center (zk_registry registry nodes)
      ≡ center.registry.destroy w')
    × All
        (λ s.
          published_in ensemble reads_demo connected here
            (build_service_uri s.service_uri s.group_id)
            w'
          ≡ none)
        (demo ∷ [])
    × ((key : Text)
        → Misses center (zk_publishes ensemble reads_demo connected here) key (demo ∷ [])
        → published_in ensemble reads_demo connected here key w'
          ≡ published_in ensemble reads_demo connected here key (zk_registry registry nodes))
    × AllOpen center (zk_publishes ensemble reads_demo connected here) w' (demo ∷ [])
unfolding build_service_uri text_eq zk_publishes
destroy-withdrawn_example =
    destroy-withdrawn center (zk_publishes ensemble reads_demo connected here)
      (zk_registry registry nodes) (open_at, tt)
