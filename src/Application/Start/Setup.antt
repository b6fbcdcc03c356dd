-- ===== src/Application/Start/Setup.antt =====
-- What initApplication of application.go sets up from its options before it serves.
use go_moa.Base.{ℕ, ◌*◌, Bool, Text, codes, Option, none, some, text_eq, to_lower, if◌then◌else◌}
use go_moa.Base.Int.{ℤ}
use go_moa.Config.{Cluster}

-- The arguments of turbo.NewTConfig.
pub record TConfig : Type 0 where
  pub name : Text
  pub max_dispatcher : ℤ
  pub read_buffer : ℤ
  pub write_buffer : ℤ
  pub write_channel : ℤ
  pub read_channel : ℤ
  pub idle_timeout : ℤ
  pub max_opaque : ℕ

-- The buffer for writes has the size of the one for reads, as in the source.
unfoldable pub t_config : Text → Cluster → TConfig
t_config name cluster = record {
  name = name;
  max_dispatcher = cluster.max_dispatcher_size;
  read_buffer = cluster.read_buffer_size;
  write_buffer = cluster.read_buffer_size;
  write_channel = cluster.write_channel_size;
  read_channel = cluster.read_channel_size;
  idle_timeout = cluster.idle_timeout;
  max_opaque = 50 * 10_000;
}

unfoldable pub is_snappy : Text → Bool
is_snappy compress = text_eq (to_lower compress) (codes "snappy")

-- jaegercfg.Configuration with the sampler that takes every span; the reporter has its defaults.
pub data Sampler : Type 0 where
  const_sampler : ℕ → Sampler

pub record TracerConfig : Type 0 where
  pub service_name : Text
  pub sampler : Sampler

-- A global tracer that is registered stays; otherwise one is made and set, whatever error comes with it.
unfoldable pub new_tracer : Bool → Option TracerConfig
new_tracer is_registered =
    if is_registered
    then none
    else some (record { service_name = codes "moa-server"; sampler = const_sampler 1 })
