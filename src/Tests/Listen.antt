-- ===== src/Tests/Listen.antt =====
-- The pages of an application, served at a second port.
use go_moa.Base.{
  Text, codes, false, ◌≡◌, refl, none, some, [], ◌∷◌, ◌++◌, All, Assoc, lookup, insert, text_eq,
  if◌then◌else◌, format_nat,
}
use go_moa.Application.Pages.{Request, Writer, pprof, missing, moa_path, profiles, serve_http}
use go_moa.Application.Pages.Routes.{named}
use go_moa.Application.Pages.Listen.{
  TcpAddr, Network, serving, twice, pprof_listen, mux_handler, handle_all, serve_pages,
}
use go_moa.Application.Pages.Listen.Patterns.{has_href, AreFree}
use go_moa.Application.Pages.Listen.Served.{
  Handler, Answers, serve_pages-profiles, serve_pages_twice,
}
use go_moa.Tests.Application.{views, site}

abbrev bind_address : Text
bind_address = codes "10.0.0.1:13000"

abbrev hp : TcpAddr
hp = record { ip = codes "10.0.0.1"; port = 13_000 }

abbrev net : Network
net = record { resolve = λ a. some hp; serve = λ a. none; agent = none }

-- What the import of net/http/pprof leaves in the mux.
abbrev mux : Assoc Handler
mux = (codes "/debug/pprof/", λ r w. pprof) ∷ []

free : AreFree profiles mux
unfolding lookup text_eq
free = (refl, (refl, (refl, (refl, (refl, (refl, tt))))))

serve_pages-profiles_example :
    (mux' : Assoc Handler) × (serve_pages net bind_address (serve_http views site) mux
      ≡ serving (pprof_listen hp) mux')
    × ((r : Request) (w : Writer)
        → All (λ p. Answers views site mux' r w p.href p.href (named p.name)) profiles
          × ((query : Text)
              → All
                  (λ p.
                    Answers views site mux' r w p.href
                      (p.href ++ (b'?' ∷ query))
                      (if text_eq p.name (codes "index") then missing else named p.name))
                  profiles))
    × ((path : Text)
        → has_href path profiles ≡ false
        → mux_handler path mux' ≡ mux_handler path mux)
serve_pages-profiles_example =
    serve_pages-profiles views site net bind_address hp mux refl refl free

listen_at : pprof_listen hp ≡ codes "10.0.0.1:14000"
unfolding format_nat pprof_listen
listen_at = refl

abbrev filled : Assoc Handler
filled =
    (codes "/debug/pprof/", λ r w. pprof)
    ∷ (codes "/debug/moa", serve_http views site)
    ∷ (codes "/debug/moa/stat", serve_http views site)
    ∷ (codes "/debug/moa/list/clients", serve_http views site)
    ∷ (codes "/debug/moa/list/services", serve_http views site)
    ∷ (codes "/debug/moa/list/methods", serve_http views site)
    ∷ (codes "/metrics", serve_http views site)
    ∷ []

first_start :
    serve_pages net bind_address (serve_http views site) mux ≡ serving (pprof_listen hp) filled
unfolding serve_pages handle_all lookup insert text_eq
first_start = refl

serve_pages_twice_example :
    serve_pages net bind_address (serve_http views site) filled ≡ twice moa_path
serve_pages_twice_example =
    serve_pages_twice net net bind_address bind_address (pprof_listen hp) (serve_http views site)
      (serve_http views site) mux filled hp first_start refl
