-- ===== src/Tests/Registry.antt =====
-- Keys and the file registry at the addresses of conf/cluster.yaml.
use go_moa.Base.{
  Text, codes, false, ◌≡◌, refl, Option, some, List, [], ◌∷◌, keep, gather, text_eq, concat, lookup,
  insert, has_prefix, sort_strings,
}
use go_moa.Registry.{ServiceMeta}
use go_moa.Registry.Uri.{build_service_uri}
use go_moa.Registry.File.{
  LocalService, FileRegistry, new_file_registry, opened, get_service, metas, no_hosts, or_no_hosts,
  pull_children_data, add_clusters, metas_at,
}
use go_moa.Registry.File.Index.{nodes}
use go_moa.Registry.File.Lookup.{get_service-new_file_registry, wanted}

abbrev lookup_uri : Text
lookup_uri = codes "/service/lookup"

abbrev canary : Text
canary = codes "canary"

abbrev clusters : List LocalService
clusters =
    record {
      service_uri = lookup_uri;
      group_id = [];
      proto_version = [];
      is_pre = false;
      host_ports = codes "localhost:8080" ∷ codes "localhost:8081" ∷ [];
    }
    ∷ record {
      service_uri = lookup_uri;
      group_id = canary;
      proto_version = codes "v1";
      is_pre = false;
      host_ports = codes "localhost:9090" ∷ [];
    }
    ∷ []

abbrev yaml : Text → Option (List LocalService)
yaml raw = some clusters

abbrev registry : FileRegistry
registry = record {
  service = lookup_uri ∷ [];
  uri2_services = add_clusters clusters [];
  server_model = false;
}

registry_opened : new_file_registry (some []) yaml (lookup_uri ∷ []) false ≡ opened registry
unfolding new_file_registry
registry_opened = refl

abbrev canary_node : ServiceMeta
canary_node = record {
  service_uri = lookup_uri;
  group_id = canary;
  host_port = codes "localhost:9090";
  proto_version = codes "v1";
  is_pre = false;
}

canary_found : get_service registry lookup_uri (codes "v1") canary ≡ metas (canary_node ∷ [])
unfolding get_service add_clusters metas_at build_service_uri lookup insert text_eq concat
canary_found = refl

unknown_group :
    get_service registry lookup_uri (codes "v1") (codes "x") ≡ no_hosts (codes "v1") lookup_uri
unfolding get_service add_clusters metas_at build_service_uri lookup insert text_eq concat
unknown_group = refl

pulled :
    pull_children_data registry (codes "/service/lookup#canary") (codes "local" ∷ [])
    ≡ canary_node ∷ []
unfolding pull_children_data add_clusters metas_at build_service_uri lookup insert text_eq concat
    sort_strings has_prefix
pulled = refl

get_service-new_file_registry_example :
    (r : FileRegistry) × (new_file_registry (some []) yaml (lookup_uri ∷ []) false ≡ opened r)
    × (get_service r lookup_uri (codes "v1") canary
        ≡ or_no_hosts
            (codes "v1")
            lookup_uri
            (keep (wanted lookup_uri (codes "v1") canary) (gather nodes clusters)))
get_service-new_file_registry_example =
    get_service-new_file_registry [] yaml (lookup_uri ∷ []) clusters lookup_uri (codes "v1") canary
      refl
