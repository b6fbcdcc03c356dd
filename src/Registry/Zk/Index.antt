-- ===== src/Registry/Zk/Index.antt =====
-- The index of registry_zk.go: NewZkRegistry, GetService, NodeChange and OnSessionExpired.
pub mod Changes
pub mod Keys
pub mod Opened
use go_moa.Base.{
  ℕ, suc, ◌+◌, ◌-◌, Bool, true, false, not, Text, codes, Option, none, some, List, [], ◌∷◌, ◌++◌,
  ◌&&◌, ◌||◌, ◌==◌, if◌then◌else◌, length, is_empty, concat, has_prefix, trim_prefix, sort_strings,
  text_eq, Assoc, lookup, insert,
}
use go_moa.Registry.{ServiceMeta, protocol}
use go_moa.Registry.Uri.{build_service_uri}
use go_moa.Registry.File.{Found, metas, no_hosts}
use go_moa.Zookeeper.{
  Conn, Ran, done, panicked, zk_moa_root_path, zk_path_delimiter, registe_watcher, new_zk_manager,
}
use go_moa.Registry.Zk.{Json, ZkRegistry, addr_path, pull_children_data}

unfoldable pub get_service : ZkRegistry → Text → Text → Text → Found
get_service r service_uri proto_type group_id =
    elim (lookup (build_service_uri service_uri group_id) r.uri2_services) [
      | none ↦ no_hosts proto_type service_uri
      | some hosts ↦ metas hosts
    ]

-- The regular expression /moa/service/v1([^\s]*): its group at the first match.
abbrev is_space : ℕ → Bool
is_space c = c == b' ' || c == 9 || c == 10 || c == 12 || c == 13

until_space : Text → Text
until_space [] = []
until_space (c ∷ s) = let rest = until_space s in if is_space c then [] else c ∷ rest

abbrev pub watch_root : Text
watch_root = codes "/moa/service/v1"

unfoldable pub uri_of : Text → Option Text
unfolding until_space
uri_of [] = none
uri_of (c ∷ path) =
    let rest = uri_of path in
    if has_prefix (c ∷ path) watch_root
    then some (until_space (trim_prefix (c ∷ path) watch_root))
    else rest

-- The loop over the addresses, left at the one that ends the comparison.
compare_hosts : ℕ → ℕ → List ServiceMeta → List Text → Bool
compare_hosts last j (old ∷ olds) (v ∷ addrs) =
    let rest = compare_hosts last (suc j) olds addrs in
    if text_eq old.host_port v && j == last then false else rest
compare_hosts last j _ _ = true

unfoldable pub need_change : Option (List ServiceMeta) → List Text → Bool
unfolding compare_hosts
need_change none addrs = true
need_change (some old_addrs) addrs =
    if not (is_empty old_addrs) && length old_addrs == length addrs
    then compare_hosts (length addrs - 1) 0 old_addrs addrs
    else true

abbrev service_path_of : Text → Text
service_path_of uri = concat (zk_moa_root_path ∷ zk_path_delimiter ∷ protocol ∷ uri ∷ [])

module _ (conn : Conn) (json : Json) where
  open conn use {State, create, delete, children_w}

  -- The event's type is only logged.
  unfoldable pub node_change : ZkRegistry → Text → List Text → State → Ran State ZkRegistry
  node_change r path addrs s = elim (uri_of path) [
    | none ↦ panicked s
    | some uri ↦
        let sorted = sort_strings addrs in
        if need_change (lookup uri r.uri2_services) sorted
        then (let (service_meta, s1) = pull_children_data conn json path uri sorted s in
            done (record r { uri2_services = insert uri service_meta r.uri2_services }) s1)
        else done r s
  ]

  push_addrs : Text → List ServiceMeta → State → Ran State Bool
  push_addrs service_path [] s = done true s
  push_addrs service_path (m ∷ ms) s =
      let path = addr_path service_path m.host_port in
      let (ok, s1) = create path [] true (delete path s).1 in
      let rest = push_addrs service_path ms s1 in if ok then rest else panicked s1

  push_then : Ran State Bool → (State → Ran State Bool) → Ran State Bool
  push_then (done b s) next = next s
  push_then (panicked s) next = panicked s

  push_all : Assoc (List ServiceMeta) → State → Ran State Bool
  unfolding push_addrs push_then
  push_all [] s = done true s
  push_all ((uri, service_meta) ∷ rest) s =
      push_then (push_addrs (service_path_of uri) service_meta s) (push_all rest)

  watch_all : List Text → State → State
  watch_all [] s = s
  watch_all (uri ∷ uris) s = watch_all uris (children_w (service_path_of uri) s).1

  -- A server pushes the addresses of its index again, a client asks for its watches again.
  unfoldable pub on_session_expired : ZkRegistry → State → Ran State Bool
  unfolding push_all watch_all
  on_session_expired r s =
      if r.server_model then push_all r.uri2_services s else done true (watch_all r.service s)

  -- The loop of NewZkRegistry over the services of a client.
  subscribe : List Text → ZkRegistry → State → ZkRegistry × State
  unfolding registe_watcher
  subscribe [] r s = (r, s)
  subscribe (uri ∷ uris) r s =
      let path = service_path_of uri in
      let r1 : ZkRegistry = record r { watched = (registe_watcher path r.watched).1 } in
      let (hosts, s1) = children_w path s in
      elim hosts [
        | none ↦ subscribe uris r1 s1
        | some names ↦
            let (services, s2) = pull_children_data conn json path uri names s1 in
            subscribe uris (record r1 { uri2_services = insert uri services r1.uri2_services }) s2
      ]

  open_registry : List Text → Bool → State → ZkRegistry × State
  unfolding subscribe
  open_registry service server_model s =
      let r : ZkRegistry = record {
        service = service;
        uri2_services = [];
        server_model = server_model;
        watched = [];
        is_close = false;
      } in
      if server_model
      then (record r { watched = (registe_watcher zk_moa_root_path []).1 }, s)
      else subscribe service r s

  started : Ran State Bool → List Text → Bool → Ran State ZkRegistry
  unfolding open_registry
  started (done b s) service server_model =
      done (open_registry service server_model s).0 (open_registry service server_model s).1
  started (panicked s) service server_model = panicked s

  -- `none` is the panic for a connection that fails.
  unfoldable pub new_zk_registry :
      (List Text → Option State) → Text → List Text → Bool → Option (Ran State ZkRegistry)
  unfolding started new_zk_manager
  new_zk_registry connect reg_addr service server_model =
      elim (new_zk_manager conn connect reg_addr) [
        | none ↦ none
        | some manager ↦ some (started manager service server_model)
      ]

  unfoldable pub destroy : ZkRegistry → State → ZkRegistry × State
  destroy r s = (record r { is_close = true }, conn.close s)
