-- ===== src/Tests/Application.antt =====
-- The timer of an application and its pages.
use go_moa.Base.{
  ℕ, Text, codes, false, ◌≡◌, ◌≢◌, ◌↔◌, refl, none, some, List, [], ◌∷◌, ◌++◌, any, All, Assoc,
  lookup, insert, text_eq, if◌then◌else◌, arith, has_prefix, trim_prefix, concat,
}
use go_moa.Proxy.{Service, InvocationHandler}
use go_moa.Proxy.Build.{built, new_invocation_handler, init_service, check_implements, add_methods}
use go_moa.Proxy.Invoke.Counting.{calls}
use go_moa.Proxy.Listing.{InvokePerClient, listed}
use go_moa.Application.Purge.{purge}
use go_moa.Application.Purge.Laws.{purge-calls}
use go_moa.Application.Purge.AfterBuild.{purge-new_invocation_handler}
use go_moa.Application.Pages.{
  form_value, Views, Site, Writer, Request, page, serve_http, methods_path, respond_json,
  content_type, write, write_header,
}
use go_moa.Application.Pages.Routes.{methods_page-calls}
use go_moa.Application.Pages.Headers.{content_type-serve_http}
use go_moa.Tests.Stat.{counting}
use go_moa.Tests.Proxy.{demo, stat, handler, set_up}

-- The flows of two clients.
abbrev pub called : InvocationHandler counting ℕ
called = record handler {
  instances =
      (
        codes "/demo",
        record set_up {
          invokes_per_client = some (
              (codes "10.0.0.1:9", (codes "GetName", counting.incr 1 counting.new_flow) ∷ [])
              ∷ (codes "10.0.0.2:9", (codes "GetName", counting.incr 1 counting.new_flow) ∷ [])
              ∷ []);
        },
      )
      ∷ [];
}

purge-calls_example :
    (out : Assoc (Service counting ℕ)) × (purge
        (codes "10.0.0.3:1" ∷ codes "10.0.0.2:9" ∷ [])
        called.instances
      ≡ some out)
    × ((uri source name : Text)
        → calls counting out uri source name ≡ (
            if any (text_eq source) (codes "10.0.0.3:1" ∷ codes "10.0.0.2:9" ∷ [])
            then calls counting called.instances uri source name
            else 0))
purge-calls_example =
    purge-calls (codes "10.0.0.3:1" ∷ codes "10.0.0.2:9" ∷ []) called.instances ((λ e. cc), tt)

-- A service whose interface has no method.
abbrev bare : Service counting ℕ
bare = record demo { interface_methods = [] }

abbrev bare_handler : InvocationHandler counting ℕ
bare_handler = record { instances = (codes "/demo", bare) ∷ []; moa_stat = stat }

bare_built : new_invocation_handler (bare ∷ []) stat ≡ built bare_handler
unfolding new_invocation_handler insert init_service check_implements add_methods
bare_built = refl

purge-new_invocation_handler_example :
    (purge [] bare_handler.instances ≡ none)
    ↔ (¬ All (λ e. e.1.interface_methods ≢ []) bare_handler.instances)
purge-new_invocation_handler_example =
    purge-new_invocation_handler (bare ∷ []) stat bare_handler [] bare_built (refl, tt)

abbrev pub views : Views
views = record {
  info = λ i. codes "{}";
  names = concat;
  invokes = λ l. codes "[]";
  index = λ p. (codes "<html>", false);
}

abbrev pub site : Site counting ℕ
site = record { moa_stat = stat; clients = codes "10.0.0.2:9" ∷ []; invoke_handler = called }

abbrev pub writer : Writer
writer = record { headers = []; sent = none; body = [] }

abbrev pub get_methods : Request
get_methods = record { request_uri = methods_path; form = (codes "service", codes "/demo") ∷ [] }

methods_page-calls_example :
    (l : List InvokePerClient) × (w' : Writer) × (serve_http views site
        (record get_methods { request_uri = methods_path ++ codes "?service=/demo" })
        writer
      ≡ page w')
    × (w'.body ≡ [] ++ views.invokes l)
    × (w'.sent ≡ some (200, []))
    × ((client name : Text)
        → listed l client name ≡ calls counting called.instances (codes "/demo") client name)
unfolding lookup text_eq form_value
methods_page-calls_example =
    methods_page-calls views site get_methods writer (codes "?service=/demo") (codes "demo") b'/'
      refl refl (λ s e. ground arith)

clients_page :
    serve_http views site
      (record get_methods { request_uri = codes "/debug/moa/list/clients" })
      writer
    ≡ page (respond_json (codes "10.0.0.2:9") writer)
unfolding serve_http has_prefix trim_prefix concat
clients_page = refl

-- What http.DetectContentType finds in a text.
abbrev detect : Text → Text
detect text = codes "text/plain; charset=utf-8"

content_type-serve_http_example :
    content_type detect (respond_json (codes "10.0.0.2:9") writer)
    ≡ some (codes "text/plain; charset=utf-8")
unfolding respond_json write write_header
content_type-serve_http_example =
    content_type-serve_http writer refl views site
      (record get_methods { request_uri = codes "/debug/moa/list/clients" })
      (respond_json (codes "10.0.0.2:9") writer) detect refl clients_page
