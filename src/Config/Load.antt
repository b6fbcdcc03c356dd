-- ===== src/Config/Load.antt =====
-- LoadConfiguration and InitClientOption of option.go. The file and the TOML parser are arguments.
pub mod Defaults
use go_moa.Base.{
  ℕ, Bool, true, false, ◌≡◌, Text, codes, Option, none, some, List, [], ◌∷◌, is_empty,
  if◌then◌else◌, ◌*◌, Assoc, lookup, insert, to_upper, text_eq,
}
use go_moa.Base.Int.{ℤ, pos, negsuc, leb_ℤ, mul_i64}
use go_moa.Config.{ServerOption, ClientOption, Cluster, MoaOption}

abbrev pub second : ℕ
second = 1_000_000_000

-- A value that is not positive is replaced by the default.
abbrev pub or_default : ℤ → ℤ → ℤ
or_default value x = if leb_ℤ value (pos 0) then x else value

-- The body of the loop over the clusters.
unfoldable pub with_defaults : Cluster → Cluster
with_defaults c =
    let dispatchers = or_default c.max_dispatcher_size (pos 8000) in
    record {
      registry = c.registry;
      process_timeout = mul_i64 (or_default c.process_timeout (pos 5)) second;
      idle_timeout = mul_i64 (or_default c.idle_timeout (pos 300)) second;
      max_dispatcher_size = dispatchers;
      worker_pool_size = or_default c.worker_pool_size dispatchers;
      read_buffer_size = or_default c.read_buffer_size (pos 16384);
      write_buffer_size = or_default c.write_buffer_size (pos 16384);
      write_channel_size = or_default c.write_channel_size (pos 1000);
      read_channel_size = or_default c.read_channel_size (pos 1000);
      future_size = if leb_ℤ c.future_size (pos 1_000_000) then pos 1_000_000 else c.future_size;
    }

unfoldable pub default_clusters : Assoc Cluster → Assoc Cluster → Assoc Cluster
default_clusters [] clusters = clusters
default_clusters ((name, c) ∷ rest) clusters =
    default_clusters rest (insert name (with_defaults c) clusters)

abbrev pub slow_log_on : Option Bool → Bool
slow_log_on none = true
slow_log_on (some b) = b

-- Option{}
abbrev pub no_option : MoaOption
no_option = record {
  server = record { run_mode = []; bind_address = []; compress = []; is_pre = false };
  client = record { run_mode = []; compress = []; selector_strategy = []; slow_log = none };
  clusters = [];
}

-- What the file system and the parser answer.
pub data File : Type 0 where
  open_error read_error : Text → File
  contents : Text → File

pub data Parsed : Type 0 where
  toml_error : Text → Parsed
  parsed : MoaOption → Parsed

unfoldable pub defaulted : Parsed → MoaOption × Option Text
defaulted (toml_error e) = (no_option, some e)
defaulted (parsed o) = (
  record o {
    client = record o.client { slow_log = some (slow_log_on o.client.slow_log) };
    clusters = default_clusters o.clusters [];
  },
  none,
)

-- The option and the error, nil or not. A failed read returns the error of the open before it.
unfoldable pub load_configuration : File → (Text → Parsed) → MoaOption × Option Text
unfolding defaulted
load_configuration (open_error e) unmarshal = (no_option, some e)
load_configuration (read_error e) unmarshal = (no_option, none)
load_configuration (contents buff) unmarshal = defaulted (unmarshal buff)

abbrev pub strategy_random : Text
strategy_random = codes "random"

abbrev pub strategy_ketama : Text
strategy_ketama = codes "ketama"

abbrev pub strategy_priority_random : Text
strategy_priority_random = codes "priority_random"

unfoldable pub strategy_of : Text → Text
strategy_of s =
    if text_eq s (codes "KETAMA")
    then strategy_ketama
    else if text_eq s (codes "PRIORITY_RANDOM")
    then strategy_priority_random
    else strategy_random

abbrev pub or_snappy : Text → Text
or_snappy compress = if is_empty compress then codes "snappy" else compress

-- `none` is the panic for a run mode without a cluster.
unfoldable pub init_client_option : MoaOption → Option MoaOption
init_client_option o = elim (lookup o.client.run_mode o.clusters) [
  | none ↦ none
  | some cluster ↦ some (record o {
    client = record o.client {
      compress = or_snappy o.client.compress;
      selector_strategy = strategy_of (to_upper o.client.selector_strategy);
    };
    clusters = insert o.client.run_mode cluster o.clusters;
  })
]
