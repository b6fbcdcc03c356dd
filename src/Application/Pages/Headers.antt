-- ===== src/Application/Pages/Headers.antt =====
-- The headers of the pages of ServeHTTP in application.go.
use go_moa.Base.{
  ℕ, Bool, true, false, Text, codes, Option, none, some, List, [], ◌∷◌, ◌≡◌, subst, insert, ◌++◌,
  refl, ap, ◌∙◌, ◌⊎◌, inl, inr, map, Assoc, lookup, is_empty, if◌then◌else◌,
}
use go_moa.Stat.{Meters, get_moa_info}
use go_moa.Proxy.Listing.{InvokePerClient, list_invokes}
use go_moa.Application.Pages.{
  Writer, write_header, set_header, write, Request, Views, Site, Served, page, Route, index, stat,
  clients, services, methods, missing, to_metrics, to_pprof, form_value, with_status,
  write_rendered, route, profiles, respond_index, respond_json, respond_methods, invokes_page,
  respond, serve_http, fixed_headers, content_type,
}

-- A status is fixed, with these headers, or nothing yet and the headers are these.
abbrev pub Sends : Assoc Text → Writer → Type 0
Sends headers w =
    ((w.sent ≡ none) × (w.headers ≡ headers)) ⊎ ((code : ℕ) × (w.sent ≡ some (code, headers)))

module _ (w : Writer) (fresh : w.sent ≡ none) where
  write_header-fresh : (code : ℕ) → write_header code w ≡ record w { sent = some (code, w.headers) }
  unfolding write_header
  write_header-fresh code = ap (with_status code w) fresh

  -- A response in JSON: what is sent has the headers from before the content type.
  pub respond_json-fresh :
      (raw : Text)
      → respond_json raw w ≡ record {
        headers = insert (codes "Content-Type") (codes "text/json") w.headers;
        sent = some (200, w.headers);
        body = w.body ++ raw;
      }
  unfolding respond_json write set_header
  respond_json-fresh raw =
      ap (λ v. write raw (set_header (codes "Content-Type") (codes "text/json") v))
        (write_header-fresh 200)

  respond_json-Sends : (raw : Text) → Sends w.headers (respond_json raw w)
  respond_json-Sends raw = inr (200, ap (λ (v : Writer). v.sent) (respond_json-fresh raw))

  write_rendered-Sends : (text : Text) → Sends w.headers (write_rendered text w)
  unfolding write_rendered write
  write_rendered-Sends [] = inl (fresh, refl)
  write_rendered-Sends (c ∷ text) = inr (200, ap (λ (v : Writer). v.sent) (write_header-fresh 200))

  write_header-Sends :
      (code : ℕ) (v : Writer)
      → v.headers ≡ w.headers
      → Sends w.headers v
      → Sends w.headers (write_header code v)
  unfolding write_header with_status
  write_header-Sends code v same (inl (e, _)) = inr (
    code,
    ap (λ (u : Writer). u.sent) (ap (with_status code v) e) ∙ ap (λ h. some (code, h)) same,
  )
  write_header-Sends code v same (inr (n, e)) = inr (n, ap (λ o. (with_status code v o).sent) e ∙ e)

  write_rendered-headers : (text : Text) → (write_rendered text w).headers ≡ w.headers
  unfolding write_rendered write
  write_rendered-headers [] = refl
  write_rendered-headers (c ∷ text) = ap (λ (v : Writer). v.headers) (write_header-fresh 200)

  respond_index-Sends : (rendered : Text × Bool) → Sends w.headers (respond_index rendered w)
  unfolding respond_index
  respond_index-Sends (text, true) =
      write_header-Sends 500 (write_rendered text w) (write_rendered-headers text)
        (write_rendered-Sends text)
  respond_index-Sends (text, false) = write_rendered-Sends text

  abbrev PageSends : Served → Type 0
  PageSends (page v) = Sends w.headers v
  PageSends _ = Unit

  invokes_page-Sends :
      {M : Meters} {V : Type 0} (views : Views) (site : Site M V)
      (o : Option (List InvokePerClient))
      → PageSends (invokes_page views site o w)
  unfolding invokes_page
  invokes_page-Sends views site none = tt
  invokes_page-Sends views site (some l) = respond_json-Sends (views.invokes l)

  respond_methods-Sends :
      {M : Meters} {V : Type 0} (views : Views) (site : Site M V) (service : Text)
      → PageSends (respond_methods views site service w)
  unfolding respond_methods
  respond_methods-Sends views site [] = respond_json-Sends (codes "{}")
  respond_methods-Sends views site (c ∷ service) =
      invokes_page-Sends views site (list_invokes site.invoke_handler (c ∷ service))

  respond-Sends :
      {M : Meters} {V : Type 0} (views : Views) (site : Site M V) (to : Route) (r : Request)
      → PageSends (respond views site to r w)
  unfolding respond
  respond-Sends views site index r = respond_index-Sends (views.index profiles)
  respond-Sends views site stat r = respond_json-Sends (views.info (get_moa_info site.moa_stat))
  respond-Sends views site clients r = respond_json-Sends (views.names site.clients)
  respond-Sends views site services r =
      respond_json-Sends (views.names (map (λ e. e.0) site.invoke_handler.instances))
  respond-Sends views site methods r =
      respond_methods-Sends views site (form_value r (codes "service"))
  respond-Sends views site missing r =
      inr (404, ap (λ (v : Writer). v.sent) (write_header-fresh 404))
  respond-Sends views site to_metrics r = tt
  respond-Sends views site to_pprof r = tt

  fixed_headers-Sends :
      (headers : Assoc Text) (v : Writer) → Sends headers v → fixed_headers v ≡ headers
  unfolding fixed_headers
  fixed_headers-Sends headers v (inl (e, h)) = rw (e, fixed_headers) h
  fixed_headers-Sends headers v (inr (code, e)) = rw (e, fixed_headers) refl

  -- Whatever page of its own ServeHTTP writes to a new writer, without headers, the content type that
  -- the client is told is the one that is detected in the body, if there is a body: the type that the
  -- pages of JSON set plays no part.
  pub content_type-serve_http :
      {M : Meters} {V : Type 0} (views : Views) (site : Site M V) (r : Request) (w' : Writer)
      (detect : Text → Text)
      → w.headers ≡ []
      → serve_http views site r w ≡ page w'
      → content_type detect w' ≡ (if is_empty w'.body then none else some (detect w'.body))
  unfolding serve_http content_type lookup
  content_type-serve_http views site r w' detect new e =
      let sends : Sends w.headers w' =
        subst PageSends e (respond-Sends views site (route r.request_uri) r) in
      let fixed : fixed_headers w' ≡ [] = fixed_headers-Sends w.headers w' sends ∙ new in
      rw (fixed, content_type) refl
