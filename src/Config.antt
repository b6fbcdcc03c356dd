-- ===== src/Config.antt =====
-- option.go: the options of a server or client, and their defaults.
pub mod Load
pub mod Address
use go_moa.Base.{ℕ, Bool, Text, Option, Assoc}
use go_moa.Base.Int.{ℤ}

pub record ServerOption : Type 0 where
  pub run_mode : Text
  pub bind_address : Text
  pub compress : Text
  pub is_pre : Bool

pub record ClientOption : Type 0 where
  pub run_mode : Text
  pub compress : Text
  pub selector_strategy : Text
  pub slow_log : Option Bool

-- Times and sizes are Go's int64 and int.
pub record Cluster : Type 0 where
  pub registry : Text
  pub process_timeout : ℤ
  pub idle_timeout : ℤ
  pub max_dispatcher_size : ℤ
  pub worker_pool_size : ℤ
  pub read_buffer_size : ℤ
  pub write_buffer_size : ℤ
  pub write_channel_size : ℤ
  pub read_channel_size : ℤ
  pub future_size : ℤ

pub record MoaOption : Type 0 where
  pub server : ServerOption
  pub client : ClientOption
  pub clusters : Assoc Cluster
