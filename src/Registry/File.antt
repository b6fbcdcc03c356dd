-- ===== src/Registry/File.antt =====
-- registry_file.go: the registry of a local file. The file's text and the YAML parser are arguments.
pub mod Index
pub mod Lookup
use go_moa.Base.{
  Text, codes, Bool, true, false, ◌≡◌, Option, none, some, List, [], ◌∷◌, ◌++◌, ◌||◌, if◌then◌else◌,
  text_eq, is_empty, has_prefix, sort_strings, Assoc, lookup, insert,
}
use go_moa.Registry.{ServiceMeta, protocol}
use go_moa.Registry.Uri.{build_service_uri}

-- One entry under `clusters` of the file.
pub record LocalService : Type 0 where
  pub service_uri : Text
  pub group_id : Text
  pub proto_version : Text
  pub is_pre : Bool
  pub host_ports : List Text

pub record FileRegistry : Type 0 where
  pub service : List Text
  pub uri2_services : Assoc (List ServiceMeta)
  pub server_model : Bool

-- What stands under a key, `[]ServiceMeta{}` or nil where nothing does.
unfoldable pub metas_at : Text → Assoc (List ServiceMeta) → List ServiceMeta
metas_at uri m = elim (lookup uri m) [ none ↦ [] | some ss ↦ ss ]

pub with_protocol : LocalService → LocalService
with_protocol s = if is_empty s.proto_version then record s { proto_version = protocol } else s

abbrev pub meta_of : LocalService → Text → ServiceMeta
meta_of s host_port = record {
  service_uri = s.service_uri;
  group_id = s.group_id;
  host_port = host_port;
  proto_version = s.proto_version;
  is_pre = s.is_pre;
}

-- One round of the loop over HostPorts. It writes the default protocol into its copy `s`, which the
-- later rounds read.
add_host : LocalService → Text → Assoc (List ServiceMeta) → LocalService × Assoc (List ServiceMeta)
unfolding with_protocol metas_at
add_host s hp m =
    let uri = build_service_uri s.service_uri s.group_id in
    let ss = metas_at uri m in
    let s' = with_protocol s in (s', insert uri (ss ++ meta_of s' hp ∷ []) m)

add_hosts : LocalService → List Text → Assoc (List ServiceMeta) → Assoc (List ServiceMeta)
add_hosts s [] m = m
add_hosts s (hp ∷ hps) m = let (s', m') = add_host s hp m in add_hosts s' hps m'

unfoldable pub add_clusters :
    List LocalService → Assoc (List ServiceMeta) → Assoc (List ServiceMeta)
unfolding add_hosts add_host
add_clusters [] m = m
add_clusters (s ∷ clusters) m = add_clusters clusters (add_hosts s s.host_ports m)

-- A constructor that panics does not return a registry.
pub data Opened : Type 0 where
  opened : FileRegistry → Opened
  read_panic yaml_panic : Opened

-- `raw` is the outcome of reading the file, `unmarshal` the YAML parser.
unfoldable pub new_file_registry :
    Option Text → (Text → Option (List LocalService)) → List Text → Bool → Opened
new_file_registry raw unmarshal service true =
    opened (record { service = service; uri2_services = []; server_model = true })
new_file_registry none unmarshal service false = read_panic
new_file_registry (some raw) unmarshal service false = elim (unmarshal raw) [
  | none ↦ yaml_panic
  | some clusters ↦
      opened (record {
        service = service;
        uri2_services = add_clusters clusters [];
        server_model = false;
      })
]

-- The two loops of PullChildrenData.
match_hosts : ServiceMeta → List Text → List ServiceMeta → List ServiceMeta
match_hosts s [] services = services
match_hosts s (host ∷ hosts) services =
    match_hosts s hosts (if has_prefix s.host_port host then services ++ s ∷ [] else services)

match_services : List ServiceMeta → List Text → List ServiceMeta → List ServiceMeta
match_services [] hosts services = services
match_services (s ∷ ss) hosts services = match_services ss hosts (match_hosts s hosts services)

-- The returned error is always nil.
unfoldable pub pull_children_data : FileRegistry → Text → List Text → List ServiceMeta
unfolding match_services match_hosts
pull_children_data r uri hosts =
    match_services (metas_at uri r.uri2_services) (sort_strings hosts) []

unfoldable pub registe_service : FileRegistry → Text → Text → Text → Text → ServiceMeta → Bool
registe_service r service_uri host_port proto_type group_id s = true

unfoldable pub un_registe_service : FileRegistry → Text → Text → Text → Text → Bool
un_registe_service r service_uri host_port proto_type group_id = true

pub data Found : Type 0 where
  metas : List ServiceMeta → Found
  no_hosts : Text → Text → Found

abbrev has_proto : Text → ServiceMeta → Bool
has_proto proto_type h = text_eq h.proto_version proto_type

collect : Text → List ServiceMeta → List ServiceMeta → List ServiceMeta
collect proto_type [] valid_metas = valid_metas
collect proto_type (h ∷ hosts) valid_metas =
    collect proto_type hosts (if has_proto proto_type h then valid_metas ++ h ∷ [] else valid_metas)

-- An empty result is the error "No Hosts!".
abbrev pub or_no_hosts : Text → Text → List ServiceMeta → Found
or_no_hosts proto_type service_uri [] = no_hosts proto_type service_uri
or_no_hosts proto_type service_uri (h ∷ hs) = metas (h ∷ hs)

unfoldable pub get_service : FileRegistry → Text → Text → Text → Found
unfolding collect
get_service r service_uri proto_type group_id =
    elim (lookup (build_service_uri service_uri group_id) r.uri2_services) [
      | none ↦ no_hosts proto_type service_uri
      | some hosts ↦ or_no_hosts proto_type service_uri (collect proto_type hosts [])
    ]
