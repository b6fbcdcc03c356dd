-- ===== src/Config/Address.antt =====
-- InitServerOption of option.go: the choice of the address to bind. The network interfaces and the
-- matching of regular expressions are arguments.
pub mod Choice
pub mod Server
use go_moa.Base.{
  ℕ, Bool, true, false, not, ◌≡◌, Text, codes, Option, none, some, List, [], ◌∷◌, ◌++◌, ◌&&◌,
  is_empty, if◌then◌else◌, Assoc, lookup, insert, split,
}
use go_moa.Config.{MoaOption}
use go_moa.Config.Load.{or_snappy}

-- An address of an interface: whether it is a *net.IPNet, whether its IP is a loopback, and To4.
pub record Addr : Type 0 where
  pub is_ip_net : Bool
  pub is_loopback : Bool
  pub to4 : Option Text

abbrev pub any_host : Text
any_host = codes "0.0.0.0"

-- BindAddress and hasMatched.
pub record Bound : Type 0 where
  pub bind_address : Text
  pub has_matched : Bool

abbrev pub bind : Text → Text → Bound
bind host port = record { bind_address = host ++ (codes ":" ++ port); has_matched = true }

-- An address other than a loopback, in version 4.
abbrev pub usable : Addr → Option Text
usable a = if a.is_ip_net && not a.is_loopback then a.to4 else none

-- The loops over an interface's addresses, left by `break` at the first that fits.
pub match_addrs : (Text → Bool) → Text → List Addr → Bound → Bound
match_addrs matches port [] b = b
match_addrs matches port (a ∷ addrs) b = elim (usable a) [
  | none ↦ match_addrs matches port addrs b
  | some ip ↦
      let next = match_addrs matches port addrs b in if matches ip then bind ip port else next
]

pub match_inters : (Text → Bool) → Text → List (List Addr) → Bound → Bound
match_inters matches port [] b = b
match_inters matches port (inter ∷ inters) b =
    match_inters matches port inters (match_addrs matches port inter b)

unfoldable pub has_loopback : List Addr → Bool
has_loopback [] = false
has_loopback (a ∷ addrs) = if a.is_ip_net && a.is_loopback then true else has_loopback addrs

-- The second search: interfaces without a loopback, any address.
pub any_inters : Text → List (List Addr) → Bound → Bound
any_inters port [] b = b
any_inters port (inter ∷ inters) b = any_inters port inters (
    if not (has_loopback inter) && not (is_empty inter)
    then match_addrs (λ ip. true) port inter b
    else b)

pub or_any_inters : Text → List (List Addr) → Bound → Bound
or_any_inters port inters b =
    if b.has_matched
    then b
    else (let b' = any_inters port inters b in if b'.has_matched then b' else bind any_host port)

unfoldable pub choose : (Text → Text → Bool) → List (List Addr) → Text → Text → Text → Text
unfolding match_inters match_addrs any_inters has_loopback or_any_inters
choose match_string inters address regx port =
    (or_any_inters port inters (
      if is_empty regx
      then bind any_host port
      else match_inters (match_string regx) port inters
          (record { bind_address = address; has_matched = false }))).bind_address

-- split[0] and split[1]; every way through the search reads split[1].
abbrev pub bind_address_of :
    (Text → Text → Bool) → List (List Addr) → Text → List Text → Option Text
bind_address_of match_string inters address (regx ∷ port ∷ _) =
    some (choose match_string inters address regx port)
bind_address_of match_string inters address _ = none

-- `none` is a panic: the interfaces cannot be listed (`none` for them), the address has no ':', or
-- the run mode has no cluster.
unfoldable pub init_server_option :
    (Text → Text → Bool) → Option (List (List Addr)) → MoaOption → Option MoaOption
unfolding choose
init_server_option match_string none o = none
init_server_option match_string (some inters) o =
    elim (bind_address_of match_string inters o.server.bind_address
      (split b':' o.server.bind_address)) [
        | none ↦ none
        | some address ↦ elim (lookup o.server.run_mode o.clusters) [
          | none ↦ none
          | some cluster ↦ some (record o {
            server = record o.server {
              bind_address = address;
              compress = or_snappy o.server.compress;
            };
            clusters = insert o.server.run_mode cluster o.clusters;
          })
        ]
      ]
