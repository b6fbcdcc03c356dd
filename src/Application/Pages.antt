-- ===== src/Application/Pages.antt =====
-- ServeHTTP of application.go, and the response writer of net/http that it writes to.
pub mod Routes
pub mod Headers
pub mod Listen
pub mod Template
use go_moa.Base.{
  ℕ, Bool, Text, codes, Option, none, some, List, [], ◌∷◌, ◌++◌, map, is_empty, if◌then◌else◌,
  Assoc, lookup, insert, has_prefix, trim_prefix,
}
use go_moa.Base.Utf8.{utf8}
use go_moa.Stat.{Meters, MoaInfo, MoaStat, get_moa_info}
use go_moa.Proxy.{InvocationHandler}
use go_moa.Proxy.Listing.{InvokePerClient, list_invokes}

pub record MoaProfile : Type 0 where
  pub href : Text
  pub name : Text
  pub desc : Text

abbrev pub moa_path : Text
moa_path = codes "/debug/moa"

abbrev pub stat_path : Text
stat_path = codes "/debug/moa/stat"

abbrev pub clients_path : Text
clients_path = codes "/debug/moa/list/clients"

abbrev pub services_path : Text
services_path = codes "/debug/moa/list/services"

abbrev pub methods_path : Text
methods_path = codes "/debug/moa/list/methods"

abbrev pub metrics_path : Text
metrics_path = codes "/metrics"

abbrev pub profiles : List MoaProfile
profiles =
    record { name = codes "index"; href = moa_path; desc = utf8 (codes "MOA首页") }
    ∷ record { name = codes "stat"; href = stat_path; desc = utf8 (codes "MOA系统状态指标") }
    ∷ record { name = codes "list.clients"; href = clients_path; desc = utf8 (codes "MOA当前所有连接") }
    ∷ record {
      name = codes "list.services";
      href = services_path;
      desc = utf8 (codes "MOA发布的服务列表");
    }
    ∷ record { name = codes "list.methods"; href = methods_path; desc = utf8 (codes "MOA来源调用统计信息") }
    ∷ record {
      name = codes "metrics";
      href = metrics_path;
      desc = utf8 (codes "prometheus metrics");
    }
    ∷ []

-- http.ResponseWriter: the headers as they are set, and the status and the headers that are fixed
-- to be sent.
pub record Writer : Type 0 where
  pub headers : Assoc Text
  pub sent : Option (ℕ × Assoc Text)
  pub body : Text

with_status : ℕ → Writer → Option (ℕ × Assoc Text) → Writer
with_status code w none = record w { sent = some (code, w.headers) }
with_status code w (some s) = w

-- WriteHeader fixes the headers as they are then; a second call does nothing.
unfoldable pub write_header : ℕ → Writer → Writer
unfolding with_status
write_header code w = with_status code w w.sent

unfoldable pub set_header : Text → Text → Writer → Writer
set_header key value w = record w { headers = insert key value w.headers }

-- Write sends a status of 200 first where none is sent.
unfoldable pub write : Text → Writer → Writer
unfolding write_header
write text w = record (write_header 200 w) { body = w.body ++ text }

-- Behind a handler that fixed none, the headers are sent as they are.
unfoldable pub fixed_headers : Writer → Assoc Text
fixed_headers w = elim w.sent [ none ↦ w.headers | some s ↦ s.1 ]

-- The type that the client is told: the one among the headers, which are here without a content
-- encoding, and where they have none, the one that http.DetectContentType, a parameter, finds in
-- the body, if there is one.
unfoldable pub content_type : (Text → Text) → Writer → Option Text
unfolding fixed_headers
content_type detect w = elim (lookup (codes "Content-Type") (fixed_headers w)) [
  | some t ↦ some t
  | none ↦ if is_empty w.body then none else some (detect w.body)
]

-- http.Request: its URI with the query, and the first value of each key of its form.
pub record Request : Type 0 where
  pub request_uri : Text
  pub form : Assoc Text

unfoldable pub form_value : Request → Text → Text
form_value r key = elim (lookup key r.form) [ none ↦ [] | some v ↦ v ]

-- What is shown: json.Marshal, whose errors are ignored, and the execution of the template of the
-- index (Template), with the text that it writes and whether it fails behind it.
pub record Views : Type 0 where
  pub info : MoaInfo → Text
  pub names : List Text → Text
  pub invokes : List InvokePerClient → Text
  pub index : List MoaProfile → Text × Bool

-- The application as ServeHTTP reads it; `clients` is remoting.ListClients().
pub record Site (M : Meters) (V : Type 0) : Type 0 where
  pub moa_stat : MoaStat M
  pub clients : List Text
  pub invoke_handler : InvocationHandler M V

-- The page, the handler that takes over, or a panic.
pub data Served : Type 0 where
  page : Writer → Served
  metrics : Served
  pprof : Served
  panicked : Served

pub data Route : Type 0 where
  index : Route
  stat : Route
  clients : Route
  services : Route
  methods : Route
  missing : Route
  to_metrics : Route
  to_pprof : Route

-- The branch that a URI takes.
unfoldable pub route : Text → Route
route uri =
    if has_prefix uri moa_path
    then (if is_empty (trim_prefix uri moa_path)
        then index
        else if has_prefix uri stat_path
        then stat
        else if has_prefix uri clients_path
        then clients
        else if has_prefix uri services_path
        then services
        else if has_prefix uri methods_path
        then methods
        else missing)
    else if has_prefix uri metrics_path
    then to_metrics
    else to_pprof

-- The header is set behind the status, as the source has it.
unfoldable pub respond_json : Text → Writer → Writer
unfolding write_header set_header write
respond_json raw w =
    write raw (set_header (codes "Content-Type") (codes "text/json") (write_header 200 w))

-- An empty text is not written.
write_rendered : Text → Writer → Writer
unfolding write
write_rendered [] w = w
write_rendered (c ∷ text) w = write (c ∷ text) w

unfoldable pub respond_index : Text × Bool → Writer → Writer
unfolding write_rendered write_header
respond_index (text, failed) w =
    if failed then write_header 500 (write_rendered text w) else write_rendered text w

module _ {M : Meters} {V : Type 0} (views : Views) (site : Site M V) where
  invokes_page : Option (List InvokePerClient) → Writer → Served
  unfolding respond_json
  invokes_page none w = panicked
  invokes_page (some l) w = page (respond_json (views.invokes l) w)

  unfoldable pub respond_methods : Text → Writer → Served
  unfolding respond_json invokes_page list_invokes
  respond_methods service w =
      if is_empty service
      then page (respond_json (codes "{}") w)
      else invokes_page (list_invokes site.invoke_handler service) w

  -- The body of each branch; the names of the services are in the order of the map's entries.
  unfoldable pub respond : Route → Request → Writer → Served
  unfolding respond_index respond_json respond_methods form_value write_header get_moa_info
  respond index r w = page (respond_index (views.index profiles) w)
  respond stat r w = page (respond_json (views.info (get_moa_info site.moa_stat)) w)
  respond clients r w = page (respond_json (views.names site.clients) w)
  respond services r w =
      page (respond_json (views.names (map (λ e. e.0) site.invoke_handler.instances)) w)
  respond methods r w = respond_methods (form_value r (codes "service")) w
  respond missing r w = page (write_header 404 w)
  respond to_metrics r w = metrics
  respond to_pprof r w = pprof

  unfoldable pub serve_http : Request → Writer → Served
  unfolding route respond
  serve_http r w = respond (route r.request_uri) r w
