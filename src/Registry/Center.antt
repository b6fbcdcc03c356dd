-- ===== src/Registry/Center.antt =====
-- ConfigCenter of registry.go, which publishes the services of a server through an IRegistry.
pub mod Open
pub mod Contract
pub mod Publish
pub mod OnZk
pub mod Fresh
use go_moa.Base.{
  Bool, true, false, Text, Option, none, some, List, [], ◌∷◌, map, if◌then◌else◌, has_prefix,
  trim_prefix,
}
use go_moa.Registry.{ServiceMeta, protocol, scheme_zk, scheme_file}
use go_moa.Registry.Uri.{build_service_uri}
use go_moa.Registry.File.{
  FileRegistry, Opened, opened, read_panic, yaml_panic, Found, new_file_registry,
}
use go_moa.Registry.File
use go_moa.Registry.Zk.{Json, ZkRegistry}
use go_moa.Registry.Zk
use go_moa.Registry.Zk.Index.{new_zk_registry}
use go_moa.Registry.Zk.Index
use go_moa.Zookeeper.{Conn, Ran, done, panicked, and_then}
use go_moa.Stat.{Meters}
use go_moa.Proxy.{Service}

-- The calls of a registry, which change what it keeps and where it publishes, a `W`.
pub record IRegistry (W : Type 0) : Type 0 where
  pub registe_service : Text → Text → Text → Text → ServiceMeta → W → Ran W Bool
  pub un_registe_service : Text → Text → Text → Text → W → Ran W Bool
  pub get_service : Text → Text → Text → W → Ran W Found
  pub destroy : W → Ran W Bool

-- The registry that a center was made with; a nil one where the scheme is another.
pub data Backing (State : Type 0) : Type 0 where
  zk_registry : ZkRegistry → State → Backing State
  file_registry : FileRegistry → Backing State
  no_registry : Backing State

module _ {State : Type 0} where
  abbrev with_registry : {A : Type 0} → ZkRegistry → Ran State A → Ran (Backing State) A
  with_registry r (done a s) = done a (zk_registry r s)
  with_registry r (panicked s) = panicked (zk_registry r s)

  abbrev with_answer : {A : Type 0} → ZkRegistry → A × State → Ran (Backing State) A
  with_answer r (a, s) = done a (zk_registry r s)

  zk_opened : Option (Ran State ZkRegistry) → Option (Backing State)
  zk_opened none = none
  zk_opened (some (panicked s)) = none
  zk_opened (some (done r s)) = some (zk_registry r s)

  file_opened : Opened → Option (Backing State)
  file_opened (opened r) = some (file_registry r)
  file_opened _ = none

module _ (conn : Conn) (json : Json) where
  open conn use {State}

  abbrev registe :
      Text → Text → Text → Text → ServiceMeta → Backing State → Ran (Backing State) Bool
  registe uri host proto group meta (zk_registry r s) =
      with_registry r (go_moa.Registry.Zk.registe_service conn json uri host proto group meta s)
  registe uri host proto group meta (file_registry r) =
      done (go_moa.Registry.File.registe_service r uri host proto group meta) (file_registry r)
  registe uri host proto group meta no_registry = panicked no_registry

  abbrev un_registe : Text → Text → Text → Text → Backing State → Ran (Backing State) Bool
  un_registe uri host proto group (zk_registry r s) =
      with_answer r (go_moa.Registry.Zk.un_registe_service conn json uri host proto group s)
  un_registe uri host proto group (file_registry r) =
      done (go_moa.Registry.File.un_registe_service r uri host proto group) (file_registry r)
  un_registe uri host proto group no_registry = panicked no_registry

  abbrev get : Text → Text → Text → Backing State → Ran (Backing State) Found
  get uri proto group (zk_registry r s) =
      done (go_moa.Registry.Zk.Index.get_service r uri proto group) (zk_registry r s)
  get uri proto group (file_registry r) =
      done (go_moa.Registry.File.get_service r uri proto group) (file_registry r)
  get uri proto group no_registry = panicked no_registry

  abbrev close_registry : Backing State → Ran (Backing State) Bool
  close_registry (zk_registry r s) =
      let (r', s') = go_moa.Registry.Zk.Index.destroy conn json r s in done true (zk_registry r' s')
  close_registry (file_registry r) = done true (file_registry r)
  close_registry no_registry = panicked no_registry

  -- The method table of the interface value.
  abbrev pub calls : IRegistry (Backing State)
  calls = record {
    registe_service = registe;
    un_registe_service = un_registe;
    get_service = get;
    destroy = close_registry;
  }

pub record ConfigCenter (W : Type 0) (M : Meters) (V : Type 0) : Type 0 where
  pub registry : IRegistry W
  pub services : List (Service M V)
  pub hostport : Text

module _ {W : Type 0} {M : Meters} {V : Type 0} (c : ConfigCenter W M V) where
  unfoldable pub registe_service : Text → Text → Text → Text → ServiceMeta → W → Ran W Bool
  registe_service service_uri hostport proto_type groupid s =
      c.registry.registe_service service_uri hostport proto_type groupid (record s {
        service_uri = service_uri;
        host_port = hostport;
        proto_version = proto_type;
        group_id = groupid;
      })

  unfoldable pub un_registe_service : Text → Text → Text → Text → W → Ran W Bool
  un_registe_service = c.registry.un_registe_service

  pub get_service : Text → Text → Text → W → Ran W Found
  get_service service_uri proto_type groupid = c.registry.get_service service_uri proto_type groupid

  abbrev pub published_meta : Service M V → ServiceMeta
  published_meta s = record {
    service_uri = s.service_uri;
    group_id = s.group_id;
    host_port = c.hostport;
    proto_version = protocol;
    is_pre = s.is_pre;
  }

  registe_each : List (Service M V) → W → Ran W Bool
  unfolding registe_service
  registe_each [] w = done true w
  registe_each (s ∷ ss) w =
      and_then (registe_service s.service_uri c.hostport protocol s.group_id (published_meta s) w)
        (λ succ w'. elim succ [ true ↦ registe_each ss w' | false ↦ panicked w' ])

  unfoldable pub registe_all_services : W → Ran W Bool
  unfolding registe_each
  registe_all_services = registe_each c.services

  -- Whether a service was taken off is only logged.
  un_registe_each : List (Service M V) → W → Ran W Bool
  unfolding un_registe_service
  un_registe_each [] w = done true w
  un_registe_each (s ∷ ss) w =
      and_then (un_registe_service s.service_uri c.hostport protocol s.group_id w)
        (λ succ w'. un_registe_each ss w')

  unfoldable pub destroy : W → Ran W Bool
  unfolding un_registe_each
  destroy w = and_then (un_registe_each c.services w) (λ done_all w'. c.registry.destroy w')

module _ (conn : Conn) (json : Json) (connect : List Text → Option conn.State) {M : Meters}
    {V : Type 0} where
  abbrev uris_of : List (Service M V) → List Text
  uris_of = map (λ s. build_service_uri s.service_uri s.group_id)

  -- The registry of the address; `none` is a panic. A server's file registry reads no file.
  unfoldable pub open_backing : Text → List (Service M V) → Option (Backing conn.State)
  unfolding zk_opened file_opened
  open_backing registry_addr services =
      if has_prefix registry_addr scheme_zk
      then zk_opened (
          new_zk_registry conn json connect (trim_prefix registry_addr scheme_zk) (uris_of services)
            true)
      else if has_prefix registry_addr scheme_file
      then file_opened (new_file_registry none (λ raw. none) (uris_of services) true)
      else some no_registry

  -- The center behind its first registration; a panic of that is one of the call.
  unfoldable pub made_of :
      ConfigCenter (Backing conn.State) M V
      → Ran (Backing conn.State) Bool
      → Option (ConfigCenter (Backing conn.State) M V × Backing conn.State)
  made_of center (done ok w) = some (center, w)
  made_of center (panicked w) = none

  -- `none` is a panic.
  unfoldable pub new_config_center :
      Text
      → Text
      → List (Service M V)
      → Option (ConfigCenter (Backing conn.State) M V × Backing conn.State)
  unfolding open_backing registe_all_services made_of
  new_config_center registry_addr hostport services = elim (open_backing registry_addr services) [
    | none ↦ none
    | some w ↦
        let center : ConfigCenter (Backing conn.State) M V = record {
          registry = calls conn json;
          services = services;
          hostport = hostport;
        } in
        made_of center (registe_all_services center w)
  ]
