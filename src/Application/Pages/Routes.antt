-- ===== src/Application/Pages/Routes.antt =====
-- Which page of ServeHTTP in application.go a request gets.
use go_moa.Base.{
  ℕ, ap, ◌∙◌, none, some, lookup, Text, codes, List, ◌∷◌, ◌++◌, ◌≡◌, ◌≢◌, refl, All, if◌then◌else◌,
  text_eq, has_prefix, trim_prefix,
}
use go_moa.Stat.{Meters}
use go_moa.Proxy.{Service}
use go_moa.Proxy.Invoke.Counting.{calls}
use go_moa.Proxy.Listing.{InvokePerClient, listed, list_invokes, list_invokes-calls}
use go_moa.Application.Pages.Headers.{respond_json-fresh}
use go_moa.Application.Pages.{
  form_value, methods_path, respond_json, respond_methods, invokes_page, profiles, Writer, Request,
  Views, Site, Served, page, Route, index, stat, clients, services, methods, missing, to_metrics,
  respond, serve_http,
}

-- The page that the name of a profile stands for.
unfoldable pub named : Text → Route
unfolding text_eq
named name =
    if text_eq name (codes "index")
    then index
    else if text_eq name (codes "stat")
    then stat
    else if text_eq name (codes "list.clients")
    then clients
    else if text_eq name (codes "list.services")
    then services
    else if text_eq name (codes "list.methods")
    then methods
    else to_metrics

module _ {M : Meters} {V : Type 0} (views : Views) (site : Site M V) (r : Request)
    (w : Writer) where
  abbrev pub Serves : Text → Route → Type 0
  Serves uri to =
      serve_http views site (record r { request_uri = uri }) w ≡ respond views site to r w

  -- The address of each profile is served by the page that its name stands for, with or without a
  -- query behind it, but for the index, which is not found where a query stands behind it.
  pub serve_http-profiles :
      All (λ p. Serves p.href (named p.name)) profiles
      × ((query : Text)
          → All
              (λ p.
                Serves
                  (p.href ++ (b'?' ∷ query))
                  (if text_eq p.name (codes "index") then missing else named p.name))
              profiles)
  unfolding serve_http named text_eq has_prefix trim_prefix
  serve_http-profiles = (
    (refl, (refl, (refl, (refl, (refl, (refl, tt)))))),
    λ query. (refl, (refl, (refl, (refl, (refl, (refl, tt)))))),
  )

  methods_page :
      (query uri : Text) (c : ℕ) {served : Served}
      → form_value r (codes "service") ≡ c ∷ uri
      → invokes_page views site (list_invokes site.invoke_handler (c ∷ uri)) w ≡ served
      → serve_http views site (record r { request_uri = methods_path ++ query }) w ≡ served
  unfolding serve_http has_prefix trim_prefix respond_methods
  methods_page query uri c form e = ap (λ s. respond_methods views site s w) form ∙ e

  -- With a handler whose service is set up, the page of a service's methods is written with status
  -- 200 and is made of a list that says, for every client and method, the number of calls that were
  -- counted.
  pub methods_page-calls :
      (query uri : Text) (c : ℕ)
      → w.sent ≡ none
      → form_value r (codes "service") ≡ c ∷ uri
      → ((s : Service M V)
          → lookup (c ∷ uri) site.invoke_handler.instances ≡ some s
          → s.invokes_per_client ≢ none)
      → (l : List InvokePerClient) × (w' : Writer) × (serve_http views site
            (record r { request_uri = methods_path ++ query })
            w
          ≡ page w')
        × (w'.body ≡ w.body ++ views.invokes l)
        × (w'.sent ≡ some (200, w.headers))
        × ((client name : Text)
            → listed l client name ≡ calls M site.invoke_handler.instances (c ∷ uri) client name)
  unfolding serve_http
  methods_page-calls query uri c fresh form set_up =
      let (l, e, k) = list_invokes-calls site.invoke_handler (c ∷ uri) set_up in
      (
        l,
        respond_json (views.invokes l) w,
        methods_page query uri c form (ap (λ o. invokes_page views site o w) e),
        ap (λ (v : Writer). v.body) (respond_json-fresh w fresh (views.invokes l)),
        ap (λ (v : Writer). v.sent) (respond_json-fresh w fresh (views.invokes l)),
        k,
      )
