-- ===== src/Config/Address/Server.antt =====
-- The whole of InitServerOption of option.go, also behind a failed LoadConfiguration.
use go_moa.Base.{
  Bool, ◌≡◌, refl, ◌∙◌, ap, Text, codes, none, some, List, [], ◌∷◌, ◌++◌, text_eq_iff, lookup,
  insert, lookup-insert, split, split_middle, split_of_Lacks, Lacks, arith,
}
use go_moa.Config.{Cluster, MoaOption}
use go_moa.Config.Load.{read_error, Parsed, load_configuration, no_option, or_snappy}
use go_moa.Config.Address.{Addr, choose, init_server_option}
use go_moa.Config.Address.Choice.{host_of, choose-host_of}

-- A server whose address is an expression, ':' and a port, and whose run mode has a cluster, gets
-- the chosen host at that port and snappy where no compression is set; its clusters read as before.
init_server_option-host_of :
    (match_string : Text → Text → Bool) (inters : List (List Addr)) (o : MoaOption)
    (regx port : Text) (c : Cluster)
    → Lacks b':' regx
    → Lacks b':' port
    → o.server.bind_address ≡ regx ++ (b':' ∷ port)
    → lookup o.server.run_mode o.clusters ≡ some c
    → (o' : MoaOption) × (init_server_option match_string (some inters) o ≡ some o')
      × (o'.server.bind_address ≡ host_of match_string inters regx ++ (codes ":" ++ port))
      × (o'.server.compress ≡ or_snappy o.server.compress)
      × ((name : Text) → lookup name o'.clusters ≡ lookup name o.clusters)
unfolding init_server_option
init_server_option-host_of match_string inters o regx port c h k e l = (
  record o {
    server = record o.server {
      bind_address = choose match_string inters o.server.bind_address regx port;
      compress = or_snappy o.server.compress;
    };
    clusters = insert o.server.run_mode c o.clusters;
  },
  rw (parts, init_server_option, l),
  choose-host_of match_string inters o.server.bind_address regx port,
  refl,
  λ name. ground (
    arith,
    lookup-insert o.server.run_mode name c o.clusters,
    text_eq_iff o.server.run_mode name,
  ),
)
  where
    parts : split b':' o.server.bind_address ≡ regx ∷ port ∷ []
    parts =
        ap (split b':') e
        ∙ split_middle b':' regx port h
        ∙ ap (λ rest. regx ∷ rest) (split_of_Lacks b':' port k)

-- When the file opens and cannot be read, LoadConfiguration returns the empty option and no error,
-- and InitServerOption then panics on it.
read_error_lost :
    (e : Text) (unmarshal : Text → Parsed) (match_string : Text → Text → Bool)
    (inters : List (List Addr))
    → (load_configuration (read_error e) unmarshal ≡ (no_option, none))
      × (init_server_option match_string (some inters) no_option ≡ none)
unfolding load_configuration init_server_option split
read_error_lost e unmarshal match_string inters = (refl, refl)
