-- ===== src/Registry.antt =====
-- registry.go, and the type ServiceMeta of proxy.go: what a registry holds, and the constants.
pub mod Uri
pub mod File
pub mod Zk
pub mod Center
use go_moa.Base.{ℕ, Bool, Text, codes}

-- ServiceMeta: the address of one node of a service.
pub record ServiceMeta : Type 0 where
  pub service_uri : Text
  pub group_id : Text
  pub host_port : Text
  pub proto_version : Text
  pub is_pre : Bool

abbrev pub protocol : Text
protocol = codes "v1"

abbrev pub all_group : Text
all_group = codes "*"

-- The byte between a service's name and its group in a key.
abbrev pub group_mark : ℕ
group_mark = b'#'

abbrev pub scheme_zk : Text
scheme_zk = codes "zk://"

abbrev pub scheme_file : Text
scheme_file = codes "file://"
