-- ===== src/Tests/Zk.antt =====
-- A session whose state is the nodes, and a registry there.
use go_moa.Base.{
  Bool, List, true, false, ◌≡◌, refl, Text, codes, Option, none, some, [], ◌∷◌, ◌⊎◌, if◌then◌else◌,
  Assoc, lookup, insert, delete, lookup-insert, lookup-delete, text_eq, text_eq_iff, arith, concat,
  has_prefix, trim_prefix, sort_strings, split, has_suffix,
}
use go_moa.Registry.{ServiceMeta, protocol}
use go_moa.Registry.Uri.{build_service_uri}
use go_moa.Zookeeper.{
  Conn, done, create_node, create_parts, extend, new_zk_manager, registe_watcher,
}
use go_moa.Registry.Zk.{Json, ZkRegistry, addr_path, path_of, pull_children_data, registe_service}
use go_moa.Registry.Zk.Index.{node_change, uri_of, new_zk_registry}
use go_moa.Registry.Zk.Index.Changes.{Follows, SameEnd, node_change-Follows, node_change_stale}
use go_moa.Registry.Zk.Index.Opened.{Opens}
use go_moa.Registry.Zk.Events.{
  Event, session, node_deleted, node_children_changed, expired, other_state, listen_event,
  listen_events,
}
use go_moa.Registry.Zk.Events.Heard.{Listened}
use go_moa.Registry.Zk.Events.Client.{Concerns, listen_events-Listened}
use go_moa.Registry.Zk.Events.Lost.{empty_path_ignored}
use go_moa.Registry.Zk.Session.{Node, is_some, Session}
use go_moa.Registry.Zk.Paths.{join}
use go_moa.Registry.Zk.Register.Anew.{
  Registered, CanRegister, registe_service-Registered, registe_service-pull,
}

abbrev created : Text → Node → Assoc Node → Option Node → Bool × Assoc Node
created p n s none = (true, insert p n s)
created p n s (some _) = (false, s)

abbrev content_of : Option Node → Option Text
content_of none = none
content_of (some n) = some n.content

abbrev pub ensemble : Conn
ensemble = record {
  State = Assoc Node;
  exists = λ p s. (some (is_some (lookup p s)), s);
  create = λ p d e s. created p (record { content = d; ephemeral = e }) s (lookup p s);
  delete = λ p s. (is_some (lookup p s), delete p s);
  children_w = λ p s. (some [], s);
  get_w = λ p s. (content_of (lookup p s), s);
  exists_w = λ p s. (some (is_some (lookup p s)), s);
  close = λ s. s;
}

pub created-lookup :
    (p q : Text) (n : Node) (s : Assoc Node) (o : Option Node)
    → (created p n s o).0 ≡ true
    → lookup q (created p n s o).1 ≡ (if text_eq p q then some n else lookup q s)
created-lookup p q n s none e = lookup-insert p q n s
created-lookup p q n s (some _) e = cc

abbrev pub connected : Session ensemble
connected = record {
  node = λ p s. lookup p s;
  exists-node = λ p s. refl;
  exists_keeps = λ p q s. refl;
  get-node = λ p s n e. rw e refl;
  create_ok = λ dir name d e s n h k l f. rw f refl;
  create_ok_root = λ name d e s k f. rw f refl;
  create-node = λ p q d e s h. created-lookup p q _ s (lookup p s) h;
  delete_ok = λ p s n e h. rw e refl;
  delete-node = λ p q s h. lookup-delete p q s;
  delete_none = λ p q s e. ground (arith, e, lookup-delete p q s, text_eq_iff p q);
}

abbrev meta : ServiceMeta
meta = record {
  service_uri = codes "/s";
  group_id = codes "g";
  host_port = codes "h:1";
  proto_version = codes "v1";
  is_pre = true;
}

-- Every node's text reads as this meta.
abbrev pub json : Json
json = record { marshal = λ m. codes "{}"; unmarshal = λ t. some meta }

abbrev pub nodes : Assoc Node
nodes = (codes "/moa/service/v1/s#g", record { content = []; ephemeral = false }) ∷ []

abbrev client : ZkRegistry
client = record {
  service = codes "/s#g" ∷ [];
  uri2_services = (codes "/s#g", record meta { host_port = codes "a:1" } ∷ meta ∷ []) ∷ [];
  server_model = false;
  watched = codes "/moa/service/v1/s#g" ∷ [];
  is_close = false;
}

node_change-Follows_example :
    (r' : ZkRegistry) × (s' : Assoc Node) × (node_change ensemble json client
        (codes "/moa/service/v1/s#g")
        (codes "h:1" ∷ [])
        nodes
      ≡ done r' s')
    × (Follows ensemble json client
          (codes "/moa/service/v1/s#g")
          (codes "/s#g")
          (codes "h:1" ∷ [])
          nodes
          r'
        ⊎ ((r' ≡ client)
            × SameEnd
                (lookup (codes "/s#g") client.uri2_services)
                (sort_strings (codes "h:1" ∷ []))))
unfolding uri_of has_prefix trim_prefix
node_change-Follows_example =
    node_change-Follows ensemble json client (codes "/moa/service/v1/s#g") (codes "/s#g")
      (codes "h:1" ∷ []) nodes refl

-- The node a:1 went and b:1 came: the index keeps a:1.
node_change_stale_example :
    node_change ensemble json client
      (codes "/moa/service/v1/s#g")
      (codes "h:1" ∷ codes "b:1" ∷ [])
      nodes
    ≡ done client nodes
unfolding uri_of has_prefix trim_prefix lookup text_eq sort_strings
node_change_stale_example =
    node_change_stale ensemble json client (codes "/moa/service/v1/s#g") (codes "/s#g")
      (codes "h:1" ∷ codes "b:1" ∷ []) nodes (record meta { host_port = codes "a:1" } ∷ [])
      (codes "b:1" ∷ []) meta refl refl refl refl

abbrev server : ZkRegistry
server = record {
  service = codes "/s#g" ∷ [];
  uri2_services = [];
  server_model = true;
  watched = codes "/moa/service" ∷ [];
  is_close = false;
}

abbrev pub started_nodes : Assoc Node
started_nodes =
    (codes "/moa", record { content = []; ephemeral = false })
    ∷ (codes "/moa/service", record { content = []; ephemeral = false })
    ∷ (codes "/moa/service/v1", record { content = []; ephemeral = false })
    ∷ []

opens :
    Opens ensemble json
      (λ hosts. some [])
      (codes "zk:2181")
      (codes "/s#g" ∷ [])
      true
      server
      started_nodes
unfolding new_zk_registry new_zk_manager create_node create_parts extend split concat has_suffix
    lookup insert text_eq registe_watcher
opens = refl

abbrev expiry : Event
expiry = record { event_type = session; state = expired; path = [] }

empty_path_ignored_example : listen_event ensemble json expiry server nodes ≡ done server nodes
empty_path_ignored_example =
    empty_path_ignored ensemble json (λ hosts. some []) (codes "zk:2181") (codes "/s#g" ∷ []) true
      server started_nodes nodes expiry opens refl

abbrev service_parts : List Text
service_parts = codes "moa" ∷ codes "service" ∷ codes "v1" ∷ codes "s#g" ∷ []

-- ZooKeeper is empty: the path of the service is made.
can_register : CanRegister ensemble json connected service_parts (codes "h:1") []
unfolding lookup
can_register = record {
  has_part = λ e. cc;
  parts = (
    ((λ e. cc), omega arith),
    (((λ e. cc), omega arith), (((λ e. cc), omega arith), (((λ e. cc), omega arith), tt))),
  );
  persistent = ((λ n e. cc), ((λ n e. cc), ((λ n e. cc), ((λ n e. cc), tt))));
  one_part = omega arith;
  address_free = λ a e. cc;
}

-- A client of the service, and its registry behind NewZkRegistry.
abbrev pub listening : ZkRegistry
listening = record {
  service = codes "/s#g" ∷ [];
  uri2_services = (codes "/s#g", []) ∷ [];
  server_model = false;
  watched = codes "/moa/service/v1/s#g" ∷ [];
  is_close = false;
}

client_opens :
    Opens ensemble json
      (λ hosts. some [])
      (codes "zk:2181")
      (codes "/s#g" ∷ [])
      false
      listening
      started_nodes
unfolding new_zk_registry new_zk_manager create_node create_parts extend split concat has_suffix
    lookup insert text_eq registe_watcher pull_children_data sort_strings
client_opens = refl

-- The service goes, another one that the client does not watch comes, and the session is lost.
abbrev pub events : List Event
events =
    record { event_type = node_deleted; state = other_state; path = codes "/moa/service/v1/s#g" }
    ∷ record {
      event_type = node_children_changed;
      state = other_state;
      path = codes "/moa/service/v1/t";
    }
    ∷ expiry
    ∷ []

listen_events-Listened_example :
    (r' : ZkRegistry) × (s' : Assoc Node) × (listen_events ensemble json events listening nodes
      ≡ done r' s')
    × Listened ensemble json (Concerns ensemble json events) listening r'
listen_events-Listened_example =
    listen_events-Listened ensemble json (λ hosts. some []) (codes "zk:2181") (codes "/s#g" ∷ [])
      listening started_nodes nodes events client_opens

registe_service-Registered_example :
    (s' : Assoc Node) × (registe_service ensemble json
        (codes "/s")
        (codes "h:1")
        protocol
        (codes "g")
        meta
        []
      ≡ done true s')
    × Registered ensemble json connected service_parts
        (addr_path (join service_parts) (codes "h:1"))
        meta
        []
        s'
unfolding path_of build_service_uri concat text_eq
registe_service-Registered_example =
    registe_service-Registered ensemble json connected service_parts (codes "h:1") [] meta
      (codes "/s") protocol (codes "g") refl can_register

registe_service-pull_example :
    (s' : Assoc Node) × (registe_service ensemble json
        (codes "/s")
        (codes "h:1")
        protocol
        (codes "g")
        meta
        []
      ≡ done true s')
    × ((pull_children_data ensemble json
          (path_of protocol (build_service_uri (codes "/s") (codes "g")))
          (codes "/s#g")
          (codes "h:1" ∷ [])
          s').0
        ≡ meta ∷ [])
unfolding path_of build_service_uri concat text_eq
registe_service-pull_example =
    registe_service-pull ensemble json connected service_parts (codes "h:1") [] meta (codes "/s")
      protocol (codes "g") (codes "/s#g") refl can_register (λ e. cc) refl
