-- ===== src/Registry/Zk.antt =====
-- registry_zk.go: the registry in ZooKeeper. The JSON of a node is a parameter. The lock of the index
-- is left out: each use of the index is one step.
pub mod Index
pub mod Session
pub mod Paths
pub mod Create
pub mod Register
pub mod Events
use go_moa.Base.{
  ℕ, ◌+◌, ◌-◌, Bool, true, false, not, Text, codes, Option, none, some, List, [], ◌∷◌, ◌++◌, ◌&&◌,
  ◌||◌, ◌==◌, if◌then◌else◌, length, is_empty, concat, has_prefix, trim_prefix, sort_strings,
  text_eq, Assoc, lookup, insert,
}
use go_moa.Registry.{ServiceMeta, protocol}
use go_moa.Registry.Uri.{build_service_uri, unwrap_service_uri}
use go_moa.Registry.File.{Found, metas, no_hosts}
use go_moa.Zookeeper.{Conn, Ran, done, panicked, zk_moa_root_path, zk_path_delimiter, create_node}

-- json.Marshal and json.Unmarshal at ServiceMeta.
pub record Json : Type 0 where
  pub marshal : ServiceMeta → Text
  pub unmarshal : Text → Option ServiceMeta

-- The registry and its manager, whose session is a state of its own. `watched` are the manager's
-- paths; their watcher is this registry.
pub record ZkRegistry : Type 0 where
  pub service : List Text
  pub uri2_services : Assoc (List ServiceMeta)
  pub server_model : Bool
  pub watched : List Text
  pub is_close : Bool

-- The path of a service's key.
unfoldable pub path_of : Text → Text → Text
path_of proto_type uri =
    concat (concat (zk_moa_root_path ∷ zk_path_delimiter ∷ proto_type ∷ []) ∷ uri ∷ [])

unfoldable pub addr_path : Text → Text → Text
addr_path service_path hostport = concat (service_path ∷ zk_path_delimiter ∷ hostport ∷ [])

-- The meta of a node without usable data.
unfoldable pub old_meta : Text → Text → ServiceMeta
old_meta uri host = record {
  service_uri = (unwrap_service_uri uri).0;
  group_id = (unwrap_service_uri uri).1;
  host_port = host;
  proto_version = protocol;
  is_pre = false;
}

unfoldable pub meta_of_node : Json → Text → Text → Option Text → ServiceMeta
meta_of_node json uri host none = old_meta uri host
meta_of_node json uri host (some []) = old_meta uri host
meta_of_node json uri host (some raw_node) = elim (json.unmarshal raw_node) [
  | none ↦ old_meta uri host
  | some meta ↦ meta
]

module _ (conn : Conn) (json : Json) where
  open conn use {State, exists, create, delete, children_w, get_w, close}

  pull_hosts : Text → Text → List Text → List ServiceMeta → State → List ServiceMeta × State
  unfolding addr_path meta_of_node
  pull_hosts path_prefix uri [] services s = (services, s)
  pull_hosts path_prefix uri (host ∷ hosts) services s =
      let (raw_node, s1) = get_w (addr_path path_prefix host) s in
      pull_hosts path_prefix uri hosts (services ++ meta_of_node json uri host raw_node ∷ []) s1

  unfoldable pub pull_children_data : Text → Text → List Text → State → List ServiceMeta × State
  unfolding pull_hosts
  pull_children_data path_prefix uri hosts s = pull_hosts path_prefix uri (sort_strings hosts) [] s

  register_addr : Text → ServiceMeta → State → Ran State Bool
  register_addr sv_addr_path meta s =
      let (ok, s1) = create sv_addr_path (json.marshal meta) true (delete sv_addr_path s).1 in
      if ok then done true s1 else panicked s1

  created_then : Ran State Bool → (State → Ran State Bool) → Ran State Bool
  created_then (done true s) next = next s
  created_then (done false s) next = panicked s
  created_then (panicked s) next = panicked s

  unfoldable pub registe_service : Text → Text → Text → Text → ServiceMeta → State → Ran State Bool
  unfolding path_of addr_path register_addr created_then
  registe_service service_uri hostport proto_type group_id meta s =
      let service_path = path_of proto_type (build_service_uri service_uri group_id) in
      let sv_addr_path = addr_path service_path hostport in
      let (exist, s1) = exists service_path s in
      elim exist [
        | none ↦ panicked (close s1)
        | some there ↦
            if there
            then register_addr sv_addr_path meta s1
            else created_then (create_node conn service_path s1) (register_addr sv_addr_path meta)
      ]

  unfoldable pub un_registe_service : Text → Text → Text → Text → State → Bool × State
  unfolding path_of addr_path
  un_registe_service service_uri hostport proto_type group_id s =
      let path = addr_path (path_of proto_type (build_service_uri service_uri group_id)) hostport in
      let (flag, s1) = exists path s in
      elim flag [ none ↦ (false, s1) | some there ↦ if there then delete path s1 else (true, s1) ]
