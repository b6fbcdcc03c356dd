-- ===== src/Config/Load/Defaults.antt =====
-- What LoadConfiguration of option.go makes of the clusters of a file.
use go_moa.Base.{
  ℕ, ◌*◌, ◌≤◌, ◌<◌, ◌≡◌, refl, Text, none, some, [], ◌∷◌, Assoc, lookup, insert, lookup-insert,
  text_eq_iff, arith,
}
use go_moa.Base.Int.{ℤ, pos, ◌≤ℤ◌, mul_i64, mul_i64_fits}
use go_moa.Config.{Cluster, MoaOption}
use go_moa.Config.Load.{
  second, or_default, with_defaults, default_clusters, contents, Parsed, parsed, load_configuration,
  defaulted,
}

-- A map has one entry for each key.
abbrev pub IsMap : Assoc Cluster → Type 0
IsMap [] = Unit
IsMap ((k, c) ∷ m) = (lookup k m ≡ none) × IsMap m

default_clusters_lem :
    (m acc : Assoc Cluster) (name : Text)
    → IsMap m
    → lookup name (default_clusters m acc)
      ≡ elim (lookup name m) [ none ↦ lookup name acc | some c ↦ some (with_defaults c) ]
unfolding default_clusters lookup
default_clusters_lem [] acc name h = refl
default_clusters_lem ((k, c) ∷ m) acc name h = ground (
  arith,
  default_clusters_lem m (insert k (with_defaults c) acc) name,
  lookup-insert k name (with_defaults c) acc,
  text_eq_iff k name,
)

-- The seconds that a time of the file stands for, where its nanoseconds fit an int64.
abbrev pub IsSeconds : ℤ → ℕ → ℤ → Type 0
IsSeconds x n d =
    ((x ≤ℤ pos 0) → d ≡ pos (n * second))
    × ((s : ℕ) → x ≡ pos s → 0 < s → s ≤ 9_223_372_036 → d ≡ pos (s * second))

-- A size is the file's if that is positive, and otherwise the default.
abbrev pub IsSized : ℤ → ℤ → ℤ → Type 0
IsSized x n d = ((x ≤ℤ pos 0) → d ≡ n) × ((pos 1 ≤ℤ x) → d ≡ x)

pub record IsDefaulted (c d : Cluster) : Type 0 where
  pub registry : d.registry ≡ c.registry
  pub process : IsSeconds c.process_timeout 5 d.process_timeout
  pub idle : IsSeconds c.idle_timeout 300 d.idle_timeout
  pub dispatchers : IsSized c.max_dispatcher_size (pos 8000) d.max_dispatcher_size
  pub workers : IsSized c.worker_pool_size d.max_dispatcher_size d.worker_pool_size
  pub read_buffer : IsSized c.read_buffer_size (pos 16384) d.read_buffer_size
  pub write_buffer : IsSized c.write_buffer_size (pos 16384) d.write_buffer_size
  pub write_channel : IsSized c.write_channel_size (pos 1000) d.write_channel_size
  pub read_channel : IsSized c.read_channel_size (pos 1000) d.read_channel_size
  pub futures :
      (pos 1_000_000 ≤ℤ d.future_size)
      × ((pos 1_000_000 ≤ℤ c.future_size) → d.future_size ≡ c.future_size)

or_default-IsSized : (x n : ℤ) → IsSized x n (or_default x n)
or_default-IsSized x n = ((λ h. ground arith), (λ h. ground arith))

or_default-IsSeconds :
    (x : ℤ) (n : ℕ) → n ≤ 9_223_372_036 → IsSeconds x n (mul_i64 (or_default x (pos n)) second)
or_default-IsSeconds x n h = (
  (λ k. ground (arith, mul_i64_fits n second)),
  (λ s e k l. ground (arith, mul_i64_fits s second)),
)

with_defaults-IsDefaulted : (c : Cluster) → IsDefaulted c (with_defaults c)
unfolding with_defaults
with_defaults-IsDefaulted c = record {
  registry = refl;
  process = or_default-IsSeconds c.process_timeout 5 (omega arith);
  idle = or_default-IsSeconds c.idle_timeout 300 (omega arith);
  dispatchers = or_default-IsSized c.max_dispatcher_size (pos 8000);
  workers = or_default-IsSized c.worker_pool_size _;
  read_buffer = or_default-IsSized c.read_buffer_size (pos 16384);
  write_buffer = or_default-IsSized c.write_buffer_size (pos 16384);
  write_channel = or_default-IsSized c.write_channel_size (pos 1000);
  read_channel = or_default-IsSized c.read_channel_size (pos 1000);
  futures = (ground arith, λ h. ground arith);
}

-- A file that parses loads without an error, and every cluster of it, read back under its name, has
-- its times in nanoseconds and each value that is not positive replaced by its default: 5 and 300
-- seconds, 8000 dispatchers, as many workers, buffers of 16384, channels of 1000; the futures are
-- a million at least. Times of more than 9223372036 seconds are not claimed.
pub load_configuration-IsDefaulted :
    (buff : Text) (unmarshal : Text → Parsed) (o : MoaOption) (name : Text) (c : Cluster)
    → unmarshal buff ≡ parsed o
    → IsMap o.clusters
    → lookup name o.clusters ≡ some c
    → (loaded : MoaOption) × (d : Cluster) × (load_configuration (contents buff) unmarshal
        ≡ (loaded, none))
      × (lookup name loaded.clusters ≡ some d)
      × IsDefaulted c d
unfolding load_configuration
load_configuration-IsDefaulted buff unmarshal o name c e h k =
    ((defaulted (parsed o)).0, with_defaults c, rw e, found, with_defaults-IsDefaulted c)
  where
    found : lookup name (default_clusters o.clusters []) ≡ some (with_defaults c)
    found = rw (default_clusters_lem o.clusters [] name h, k)
