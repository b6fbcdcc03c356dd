-- ===== src/Registry/Uri.antt =====
-- BuildServiceUri and UnwrapServiceUri of registry.go: the key of a service and its group.
pub mod Laws
pub mod Keys
use go_moa.Base.{
  Text, codes, Bool, not, ◌&&◌, [], ◌∷◌, if◌then◌else◌, text_eq, is_empty, concat, contains,
  split_first,
}
use go_moa.Registry.{all_group, group_mark}

unfoldable pub build_service_uri : Text → Text → Text
build_service_uri service_uri group_id =
    if not (is_empty group_id) && not (text_eq all_group group_id)
    then concat (service_uri ∷ codes "#" ∷ group_id ∷ [])
    else service_uri

unfoldable pub unwrap_service_uri : Text → Text × Text
unwrap_service_uri service_uri =
    if contains group_mark service_uri
    then split_first group_mark service_uri
    else (service_uri, all_group)
