-- ===== src/Tests/Proxy.antt =====
-- A handler with one service, and calls of it.
use go_moa.Base.{
  ℕ, Text, ◌+◌, true, false, ◌≡◌, refl, ◌↔◌, ◌⊎◌, codes, none, some, List, [], ◌∷◌, ◌&&◌, length,
  is_empty, if◌then◌else◌, All, lookup, insert, text_eq, to_lower, format_nat, arith, ◌==◌,
}
use go_moa.Base.Int.{pos}
use go_moa.Context.{Store, absent, nil_map, Tracer}
use go_moa.Protocol.{MoaRawReqPacket, MoaRespPacket}
use go_moa.Stat.{MoaStat, fresh_moa_stat}
use go_moa.Proxy.{
  decoded, failed, ParamType, returned, Reflect, is_nil, not_nil, implementing, MethodDecl, Service,
  InvocationHandler,
}
use go_moa.Proxy.Build.{
  built, new_invocation_handler, init_services, init_service, check_implements, add_methods,
  add_method,
}
use go_moa.Proxy.Build.Checked.{new_invocation_handler-built, IsAcceptable}
use go_moa.Proxy.Build.SetUp.{new_invocation_handler-IsReady, AllSetUp}
use go_moa.Proxy.Invoke.{Done, finished, escaped, invoke, handle, on_time}
use go_moa.Proxy.Invoke.Accounting.{Answered, invoke-Answered}
use go_moa.Proxy.Invoke.Verdict.{Verdict, IsReady, handle-Verdict}
use go_moa.Proxy.Invoke.Counting.{calls, is_call_of, one_if, reached, handle-calls, HasMaps}
use go_moa.Proxy.Listing.{InvokePerClient, list_invokes, listed, list_invokes-calls}
use go_moa.Tests.Stat.{counting, counts_all}

-- Values are numbers; 0 is nil.
abbrev pub reflect : Reflect ℕ
reflect = record {
  of_context = λ c. 0;
  test_nil = λ v. if v == 0 then is_nil else not_nil;
  show = format_nat;
  marshal = λ v. none;
  marshal_raw = λ t. none;
}

abbrev pub tracer : Tracer
tracer = record {
  SpanContext = ℕ;
  extract = λ m. if is_empty m then none else some 1;
  inject_fields = λ c. (codes "span", codes "1") ∷ [];
  start_span = λ method c. c;
}

-- An argument decodes to its length, unless it is empty.
abbrev text_param : ParamType ℕ
text_param = record {
  implements_context = false;
  unmarshal = λ t. if is_empty t then failed (codes "empty") else decoded (length t);
}

abbrev get_name : MethodDecl ℕ
get_name = record {
  name = codes "GetName";
  ins = text_param ∷ [];
  outs =
      record { type_name = codes "string"; implements_error = false }
      ∷ record { type_name = codes "error"; implements_error = true }
      ∷ [];
}

abbrev pub demo : Service counting ℕ
demo = record {
  service_uri = codes "/demo";
  group_id = codes "*";
  is_pre = false;
  interface_methods = get_name ∷ [];
  conformance = implementing;
  method_by_name = λ name args. returned (5 ∷ 0 ∷ []);
  methods = [];
  invokes_per_client = none;
}

abbrev pub stat : MoaStat counting
stat = fresh_moa_stat counting (codes "host:13000") (codes "/demo")

abbrev pub set_up : Service counting ℕ
set_up = record demo {
  methods =
      (
        codes "getname",
        record {
          name = codes "GetName";
          method = λ args. returned (5 ∷ 0 ∷ []);
          return_type = get_name.outs;
          param_types = text_param ∷ [];
        },
      )
      ∷ [];
  invokes_per_client = some [];
}

abbrev pub handler : InvocationHandler counting ℕ
handler = record { instances = (codes "/demo", set_up) ∷ []; moa_stat = stat }

pub handler_built : new_invocation_handler (demo ∷ []) stat ≡ built handler
unfolding new_invocation_handler init_services init_service check_implements add_methods add_method
    insert to_lower
handler_built = refl

abbrev pub request : MoaRawReqPacket
request = record {
  service_uri = codes "/demo";
  method = codes "getName";
  args = codes "abc" ∷ [];
  properties = none;
  create_time = pos 0;
  timeout = pos 20;
  source = codes "10.0.0.1:999";
}

new_invocation_handler-built_example :
    ((h : InvocationHandler counting ℕ) × (new_invocation_handler (demo ∷ []) stat ≡ built h))
    ↔ All IsAcceptable (demo ∷ [])
new_invocation_handler-built_example = new_invocation_handler-built (demo ∷ []) stat

pub two_results : (args vs : List ℕ) → returned (5 ∷ 0 ∷ []) ≡ returned vs → length vs ≡ 2
two_results args vs e = ground arith

new_invocation_handler-IsReady_example :
    AllSetUp handler.instances × IsReady reflect handler absent request
new_invocation_handler-IsReady_example =
    new_invocation_handler-IsReady reflect (demo ∷ []) stat handler absent request handler_built
      ((two_results, tt), tt)

ready : IsReady reflect handler absent request
ready =
    (new_invocation_handler-IsReady reflect (demo ∷ []) stat handler absent request handler_built
      ((two_results, tt), tt)).1

has_maps : HasMaps reflect handler request
unfolding lookup text_eq
has_maps s e = ground arith

invoke-Answered_example :
    ((absent ≡ nil_map) × (invoke reflect tracer [] handler absent request 7 ≡ escaped))
    ⊎ ((store' : Store) × (d : Done counting ℕ) × (invoke reflect tracer [] handler absent request 7
          ≡ finished store' d)
        × Answered reflect handler request 7 d)
invoke-Answered_example = invoke-Answered reflect tracer [] handler absent request 7

handle-Verdict_example :
    (resp : MoaRespPacket ℕ) × Verdict reflect handler absent request resp
    × ((handle reflect handler absent request 7 none).sent
        ≡ (if on_time request 7 then some resp else none))
handle-Verdict_example = handle-Verdict reflect handler absent request 7 none ready

handle-calls_example :
    calls counting
      (handle reflect handler absent request 7 none).handler.instances
      (codes "/demo")
      (codes "10.0.0.1:999")
      (codes "GetName")
    ≡ calls counting handler.instances (codes "/demo") (codes "10.0.0.1:999") (codes "GetName")
      + one_if (
          text_eq request.service_uri (codes "/demo")
          && (text_eq request.source (codes "10.0.0.1:999")
              && is_call_of (codes "GetName") (reached reflect handler request)))
handle-calls_example =
    handle-calls reflect counts_all handler absent request 7 none (codes "/demo")
      (codes "10.0.0.1:999") (codes "GetName") has_maps

list_invokes-calls_example :
    (l : List InvokePerClient) × (list_invokes handler (codes "/demo") ≡ some l)
    × ((client name : Text)
        → listed l client name ≡ calls counting handler.instances (codes "/demo") client name)
list_invokes-calls_example = list_invokes-calls handler (codes "/demo") has_maps
