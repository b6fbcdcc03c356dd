-- ===== src/Config/Address/Choice.antt =====
-- Which address InitServerOption of option.go binds.
use go_moa.Base.{
  Bool, true, false, not, ◌≡◌, refl, Text, codes, Option, none, some, List, [], ◌∷◌, ◌++◌, ◌&&◌,
  is_empty, if◌then◌else◌, keep, arith,
}
use go_moa.Config.Address.{
  Addr, any_host, Bound, bind, usable, match_addrs, match_inters, has_loopback, any_inters,
  or_any_inters, choose,
}

-- The first usable address of an interface that fits, and the one of the last interface that has one.
abbrev pub first_ip : (Text → Bool) → List Addr → Option Text
first_ip p [] = none
first_ip p (a ∷ addrs) = elim (usable a) [
  | none ↦ first_ip p addrs
  | some ip ↦ if p ip then some ip else first_ip p addrs
]

abbrev pub or_else : Option Text → Option Text → Option Text
or_else none x = x
or_else (some ip) x = some ip

abbrev pub last_ip : (Text → Bool) → List (List Addr) → Option Text
last_ip p [] = none
last_ip p (inter ∷ inters) = or_else (last_ip p inters) (first_ip p inter)

abbrev pub plain_inters : List (List Addr) → List (List Addr)
plain_inters = keep (λ i. not (has_loopback i) && not (is_empty i))

abbrev bound_to : Text → Bound → Option Text → Bound
bound_to port b none = b
bound_to port b (some ip) = bind ip port

match_addrs_lem :
    (p : Text → Bool) (port : Text) (addrs : List Addr) (b : Bound)
    → match_addrs p port addrs b ≡ bound_to port b (first_ip p addrs)
unfolding match_addrs
match_addrs_lem p port [] b = refl
match_addrs_lem p port (a ∷ addrs) b = ground (arith, match_addrs_lem p port addrs b)

match_inters_lem :
    (p : Text → Bool) (port : Text) (inters : List (List Addr)) (b : Bound)
    → match_inters p port inters b ≡ bound_to port b (last_ip p inters)
unfolding match_inters
match_inters_lem p port [] b = refl
match_inters_lem p port (i ∷ inters) b =
    ground
      (arith, match_inters_lem p port inters (match_addrs p port i b), match_addrs_lem p port i b)

any_inters_lem :
    (port : Text) (inters : List (List Addr)) (b : Bound)
    → any_inters port inters b ≡ bound_to port b (last_ip (λ ip. true) (plain_inters inters))
unfolding any_inters
any_inters_lem port [] b = refl
any_inters_lem port (i ∷ inters) b = ground (
  arith,
  any_inters_lem port inters (match_addrs (λ ip. true) port i b),
  any_inters_lem port inters b,
  match_addrs_lem (λ ip. true) port i b,
)

-- The host that is bound: 0.0.0.0 without an expression; otherwise the first usable address that
-- matches it of the last interface that has one, or the first usable address of the last interface
-- that has one and no loopback, or 0.0.0.0.
abbrev pub host_of : (Text → Text → Bool) → List (List Addr) → Text → Text
host_of match_string inters regx =
    if is_empty regx
    then any_host
    else elim (or_else (last_ip (match_string regx) inters)
        (last_ip (λ ip. true) (plain_inters inters))) [ none ↦ any_host | some ip ↦ ip ]

-- The two searches with their flags bind exactly that host, at the port of the option.
pub choose-host_of :
    (match_string : Text → Text → Bool) (inters : List (List Addr)) (address regx port : Text)
    → choose match_string inters address regx port
      ≡ host_of match_string inters regx ++ (codes ":" ++ port)
unfolding choose or_any_inters
choose-host_of match_string inters address [] port = refl
choose-host_of match_string inters address (c ∷ regx) port =
    let b : Bound = record { bind_address = address; has_matched = false } in
    ground (
      arith,
      match_inters_lem (match_string (c ∷ regx)) port inters b,
      any_inters_lem port inters b,
    )
