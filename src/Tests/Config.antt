-- ===== src/Tests/Config.antt =====
-- Options of conf/moa.toml, and two network interfaces.
use go_moa.Base.{
  Text, Bool, codes, ◌≡◌, refl, none, some, List, [], ◌∷◌, true, false, has_prefix, lookup, text_eq,
}
use go_moa.Base.Int.{pos, negsuc}
use go_moa.Config.{Cluster, MoaOption}
use go_moa.Config.Load.{Parsed, parsed, contents, load_configuration}
use go_moa.Config.Load.Defaults.{IsDefaulted, load_configuration-IsDefaulted}
use go_moa.Config.Address.{Addr, has_loopback}
use go_moa.Config.Address.Choice.{host_of}

abbrev pub dev : Cluster
dev = record {
  registry = codes "file:///cluster.yaml";
  process_timeout = pos 0;
  idle_timeout = pos 60;
  max_dispatcher_size = pos 50;
  worker_pool_size = negsuc 0;
  read_buffer_size = pos 0;
  write_buffer_size = pos 0;
  write_channel_size = pos 0;
  read_channel_size = pos 0;
  future_size = pos 100;
}

abbrev pub option : MoaOption
option = record {
  server = record {
    run_mode = codes "dev";
    bind_address = codes "10:13000";
    compress = [];
    is_pre = false;
  };
  client = record {
    run_mode = codes "dev";
    compress = [];
    selector_strategy = [];
    slow_log = none;
  };
  clusters = (codes "dev", dev) ∷ [];
}

abbrev pub toml : Text → Parsed
toml raw = parsed option

load_configuration-IsDefaulted_example :
    (loaded : MoaOption) × (d : Cluster) × (load_configuration (contents []) toml ≡ (loaded, none))
    × (lookup (codes "dev") loaded.clusters ≡ some d)
    × IsDefaulted dev d
unfolding lookup text_eq
load_configuration-IsDefaulted_example =
    load_configuration-IsDefaulted [] toml option (codes "dev") dev refl (refl, tt) refl

abbrev ip_net : Text → Addr
ip_net ip = record { is_ip_net = true; is_loopback = false; to4 = some ip }

abbrev lo : List Addr
lo = record { is_ip_net = true; is_loopback = true; to4 = some (codes "127.0.0.1") } ∷ []

-- The expression stands for a prefix here.
abbrev pub matches : Text → Text → Bool
matches regx ip = has_prefix ip regx

abbrev pub inters : List (List Addr)
inters = lo ∷ (ip_net (codes "192.168.0.2") ∷ ip_net (codes "10.0.0.5") ∷ []) ∷ []

host_matched : host_of matches inters (codes "10") ≡ codes "10.0.0.5"
unfolding has_prefix
host_matched = refl

host_any : host_of matches inters (codes "11") ≡ codes "192.168.0.2"
unfolding has_prefix has_loopback
host_any = refl
