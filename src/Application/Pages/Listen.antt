-- ===== src/Application/Pages/Listen.antt =====
-- The goroutine of initApplication in application.go that serves the pages, and the mux of net/http
-- that it registers them with.
pub mod Patterns
pub mod Served
use go_moa.Base.{
  ℕ, ◌+◌, Text, codes, Option, none, some, List, [], ◌∷◌, ◌++◌, ◌&&◌, if◌then◌else◌, ltb, length,
  Assoc, lookup, insert, has_prefix, has_suffix, format_nat,
}
use go_moa.Application.Pages.{MoaProfile, profiles}

-- net.TCPAddr: the text of its IP, and its port.
pub record TcpAddr : Type 0 where
  pub ip : Text
  pub port : ℕ

-- What the goroutine gets from outside: net.ResolveTCPAddr for IPv4, the error with which serving at
-- an address ends, if it does, and the one of the agent of gops, if it has one.
pub record Network : Type 0 where
  pub resolve : Text → Option TcpAddr
  pub serve : Text → Option Text
  pub agent : Option Text

-- What becomes of the goroutine: a nil address, or a pattern that is registered twice, makes it panic;
-- otherwise it serves with a mux, or serving fails and it goes on to the agent.
pub data Outcome (H : Type 0) : Type 0 where
  nil_address : Outcome H
  twice : Text → Outcome H
  serving : Text → Assoc H → Outcome H
  failed : Text → Option Text → Outcome H

unfoldable pub pprof_listen : TcpAddr → Text
pprof_listen hp = hp.ip ++ (b':' ∷ format_nat (hp.port + 1_000))

module _ {H : Type 0} where
  -- The longest of the patterns that end in a slash and that a path begins with.
  abbrev longer : Text → H → Option (Text × H) → Option (Text × H)
  longer p h none = some (p, h)
  longer p h (some (q, g)) = if ltb (length p) (length q) then some (q, g) else some (p, h)

  unfoldable pub longest : Text → Assoc H → Option (Text × H)
  longest path [] = none
  longest path ((p, h) ∷ mux) =
      let rest = longest path mux in
      if has_suffix p (codes "/") && has_prefix path p then longer p h rest else rest

  abbrev handler_of : Option (Text × H) → Option H
  handler_of none = none
  handler_of (some (p, h)) = some h

  abbrev exact_or : Option (Text × H) → Option H → Option H
  exact_or rest none = handler_of rest
  exact_or rest (some h) = some h

  -- The handler that the mux has for a path: the one of the path itself, or of the longest prefix.
  unfoldable pub mux_handler : Text → Assoc H → Option H
  unfolding longest
  mux_handler path mux = exact_or (longest path mux) (lookup path mux)

  -- http.HandleFunc for each profile, which panics on a pattern that is there.

  unfoldable pub handle_all : H → (Assoc H → Outcome H) → List MoaProfile → Assoc H → Outcome H
  handle_all h next [] mux = next mux
  handle_all h next (p ∷ ps) mux =
      let rest = handle_all h next ps (insert p.href h mux) in
      elim (lookup p.href mux) [ none ↦ rest | some g ↦ twice p.href ]

  abbrev served : Network → Text → Assoc H → Option Text → Outcome H
  served net at mux none = serving at mux
  served net at mux (some e) = failed e net.agent

  abbrev serve_at : Network → H → Assoc H → Option TcpAddr → Outcome H
  serve_at net h mux none = nil_address
  serve_at net h mux (some hp) =
      handle_all h (λ m. served net (pprof_listen hp) m (net.serve (pprof_listen hp))) profiles mux

  -- The goroutine, with ServeHTTP of the application and the mux that it finds.
  unfoldable pub serve_pages : Network → Text → H → Assoc H → Outcome H
  unfolding handle_all pprof_listen
  serve_pages net bind_address h mux = serve_at net h mux (net.resolve bind_address)
