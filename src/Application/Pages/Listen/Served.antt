-- ===== src/Application/Pages/Listen/Served.antt =====
-- What the goroutine of application.go that serves the pages comes to.
use go_moa.Base.{
  ◌≡◌, refl, subst, ap, ◌∙◌, sym, false, inl, inr, Text, codes, Option, none, some, List, [], ◌∷◌,
  ◌++◌, All, Assoc, lookup, text_eq, has_suffix, if◌then◌else◌,
}
use go_moa.Stat.{Meters}
use go_moa.Application.Pages.{
  profiles, moa_path, stat_path, clients_path, services_path, methods_path, metrics_path, missing,
  Route, Writer, Request, Views, Site, Served, respond, serve_http,
}
use go_moa.Application.Pages.Routes.{named, Serves, serve_http-profiles}
use go_moa.Application.Pages.Listen.{
  Network, TcpAddr, serving, twice, pprof_listen, mux_handler, served, handle_all, serve_at,
  serve_pages,
}
use go_moa.Application.Pages.Listen.Patterns.{
  has_href, AreApart, AreFree, Gets, handle_all-Gets, handle_all-cases,
}

abbrev pub Handler : Type 0
Handler = Request → Writer → Served

abbrev run_handler : Request → Writer → Option Handler → Option Served
run_handler r w none = none
run_handler r w (some h) = some (h r w)

-- What the mux makes of a request for a path.
abbrev pub answered : Assoc Handler → Text → Request → Writer → Option Served
answered mux path r w = run_handler r w (mux_handler path mux)

profiles-AreApart : AreApart profiles
unfolding text_eq has_suffix
profiles-AreApart =
    (refl, refl, (refl, refl, (refl, refl, (refl, refl, (refl, refl, (refl, refl, tt))))))

module _ {H : Type 0} (h : H) (mux mux' : Assoc H) (g : Gets h profiles mux mux') where
  found_profiles : All (λ p. mux_handler p.href mux' ≡ some h) profiles
  unfolding text_eq
  found_profiles = (
    g.handles moa_path,
    (
      g.handles stat_path,
      (
        g.handles clients_path,
        (g.handles services_path, (g.handles methods_path, (g.handles metrics_path, tt))),
      ),
    ),
  )

module _ {H : Type 0} (net : Network) (bind_address : Text) (hp : TcpAddr) (h : H)
    (mux : Assoc H) where
  serving_of_free :
      net.resolve bind_address ≡ some hp
      → net.serve (pprof_listen hp) ≡ none
      → AreFree profiles mux
      → (mux' : Assoc H) × (serve_pages net bind_address h mux ≡ serving (pprof_listen hp) mux')
        × Gets h profiles mux mux'
  unfolding serve_pages
  serving_of_free e k f =
      let (mux', s, g) =
        handle_all-Gets h (λ m. served net (pprof_listen hp) m (net.serve (pprof_listen hp)))
          profiles mux profiles-AreApart f in
      (mux', ap (serve_at net h mux) e ∙ (s ∙ ap (served net (pprof_listen hp) mux') k), g)

All-both {ℓ} :
    {A : Type ℓ} (P Q R : A → Type 0) (xs : List A)
    → ((x : A) → P x → Q x → R x)
    → All P xs
    → All Q xs
    → All R xs
All-both P Q R [] f ps qs = tt
All-both P Q R (x ∷ xs) f (p, ps) (q, qs) = (f x p q, All-both P Q R xs f ps qs)

module _ {M : Meters} {V : Type 0} (views : Views) (site : Site M V) where
  abbrev pub Answers : Assoc Handler → Request → Writer → Text → Text → Route → Type 0
  Answers mux' r w path uri to =
      answered mux' path (record r { request_uri = uri }) w ≡ some (respond views site to r w)

  answered_found :
      (mux' : Assoc Handler) (r : Request) (w : Writer) (path uri : Text) (to : Route)
      → mux_handler path mux' ≡ some (serve_http views site)
      → Serves views site r w uri to
      → Answers mux' r w path uri to
  answered_found mux' r w path uri to f s =
      ap (run_handler (record r { request_uri = uri }) w) f ∙ ap some s

  -- Where the default mux has no pattern of a profile yet, the address that the server is bound to
  -- resolves, and serving at the port a thousand above does not fail, the goroutine serves there: a
  -- request for the address of a profile gets the page that its name stands for, with or without a
  -- query behind it, but for the index, which is not found behind a query; and the mux handles every
  -- other path as before.
  pub serve_pages-profiles :
      (net : Network) (bind_address : Text) (hp : TcpAddr) (mux : Assoc Handler)
      → net.resolve bind_address ≡ some hp
      → net.serve (pprof_listen hp) ≡ none
      → AreFree profiles mux
      → (mux' : Assoc Handler) × (serve_pages net bind_address (serve_http views site) mux
          ≡ serving (pprof_listen hp) mux')
        × ((r : Request) (w : Writer)
            → All (λ p. Answers mux' r w p.href p.href (named p.name)) profiles
              × ((query : Text)
                  → All
                      (λ p.
                        Answers mux' r w p.href
                          (p.href ++ (b'?' ∷ query))
                          (if text_eq p.name (codes "index") then missing else named p.name))
                      profiles))
        × ((path : Text)
            → has_href path profiles ≡ false
            → mux_handler path mux' ≡ mux_handler path mux)
  serve_pages-profiles net bind_address hp mux e k f =
      let (mux', s, g) = serving_of_free net bind_address hp (serve_http views site) mux e k f in
      let found = found_profiles (serve_http views site) mux mux' g in
      (
        mux',
        s,
        λ r w. (
          All-both _ _ _ profiles (λ p. answered_found mux' r w p.href p.href (named p.name)) found
              (serve_http-profiles views site r w).0,
          λ query.
              All-both _ _ _ profiles
                (λ p.
                  answered_found mux' r w p.href (p.href ++ (b'?' ∷ query))
                    (if text_eq p.name (codes "index") then missing else named p.name))
                found ((serve_http-profiles views site r w).1 query),
        ),
        λ path n. rw (g.handles path, n) refl,
      )

module _ {H : Type 0} where
  mux_of_served :
      (net : Network) (to at : Text) (m mux' : Assoc H) (o : Option Text)
      → served net to m o ≡ serving at mux'
      → m ≡ mux'
  mux_of_served net to at m mux' none e = cc
  mux_of_served net to at m mux' (some x) e = cc

  -- A goroutine that serves has registered the index.
  index_of_serving :
      (net : Network) (h : H) (mux mux' : Assoc H) (at : Text) (found : Option TcpAddr)
      → serve_at net h mux found ≡ serving at mux'
      → lookup moa_path mux' ≡ some h
  unfolding text_eq
  index_of_serving net h mux mux' at none s = cc
  index_of_serving net h mux mux' at (some hp) s =
      elim (handle_all-cases h (λ m. served net (pprof_listen hp) m (net.serve (pprof_listen hp)))
        profiles mux) [
          | inl (pattern, e) ↦ let k : twice pattern ≡ serving at mux' = sym e ∙ s in cc
          | inr (m, e, finds) ↦
              subst (λ x. lookup moa_path x ≡ some h)
                (mux_of_served net (pprof_listen hp) at m mux' (net.serve (pprof_listen hp))
                  (sym e ∙ s))
                (finds moa_path)
        ]

  -- The mux is the process's: where the pages of one application are served, the goroutine of any
  -- other one panics on the first pattern, if its address resolves.
  pub serve_pages_twice :
      (net net' : Network) (bind_address bind_address' at : Text) (h h' : H) (mux mux' : Assoc H)
      (hp : TcpAddr)
      → serve_pages net bind_address h mux ≡ serving at mux'
      → net'.resolve bind_address' ≡ some hp
      → serve_pages net' bind_address' h' mux' ≡ twice moa_path
  unfolding serve_pages handle_all
  serve_pages_twice net net' bind_address bind_address' at h h' mux mux' hp s e =
      ap (serve_at net' h' mux') e
      ∙ rw (handle_all, index_of_serving net h mux mux' at (net.resolve bind_address) s) refl
