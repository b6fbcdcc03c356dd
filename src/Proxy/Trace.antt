-- ===== src/Proxy/Trace.antt =====
-- The tracing that Invoke of proxy.go does before and after a call. A span is the list of what is
-- written to it.
pub mod Laws
use go_moa.Base.{
  ℕ, suc, ◌+◌, Bool, true, false, not, ◌≡◌, Text, codes, Option, none, some, List, [], ◌∷◌, ◌++◌,
  ◌==◌, if◌then◌else◌, map, Assoc, format_nat,
}
use go_moa.Context.{
  Store, Props, at_ref, map_at, Tracer, Wrote, wrote, nil_map_panic, get_span_ctx, with_span_ctx,
}
use go_moa.Protocol.{MoaRawReqPacket, MoaRespPacket, code_server_succ}
use go_moa.Proxy.{Reflect}

pub data SpanEvent : Type 0 where
  log_kv : Text → Text → SpanEvent
  tag_text : Text → Text → SpanEvent
  tag_code : Text → ℕ → SpanEvent
  tag_error finish : SpanEvent

abbrev pub Span : Type 0
Span = List SpanEvent

-- The store and context that the call goes on with, and the child span where there is a parent.
pub data Begun : Type 0 where
  begun : Store → Props → Option Span → Begun
  begin_panic : Begun

abbrev log_if_marshalled : Text → Option Text → Span
log_if_marshalled key none = []
log_if_marshalled key (some raw) = log_kv key raw ∷ []

log_args : (Text → Option Text) → ℕ → List Text → Span
log_args marshal_raw i [] = []
log_args marshal_raw i (arg ∷ args) =
    log_if_marshalled (codes "param." ++ format_nat i) (marshal_raw arg)
    ++ log_args marshal_raw (suc i) args

tag_props : Store → Props → Span
tag_props h (at_ref r) = map (λ kv. tag_text (codes "moa." ++ kv.0) kv.1) (map_at h r)
tag_props h _ = []

child_span : (Text → Option Text) → MoaRawReqPacket → Wrote → Begun
child_span marshal_raw req (wrote h c) =
    begun h c (some (log_args marshal_raw 0 req.args ++ tag_props h c))
child_span marshal_raw req nil_map_panic = begin_panic

unfoldable pub begin_trace :
    {V : Type 0} → Reflect V → Tracer → Store → Props → MoaRawReqPacket → Begun
unfolding log_args tag_props child_span
begin_trace R T h c req = elim (get_span_ctx T h c) [
  | none ↦ begun h c none
  | some parent ↦
      child_span R.marshal_raw req (with_span_ctx T h c (T.start_span req.method parent))
]

-- What is written of the response before it is sent.
unfoldable pub trace_resp : {V : Type 0} → Reflect V → MoaRespPacket V → Span → Span
trace_resp R resp span =
    span
    ++ (tag_code (codes "resp.ec") resp.err_code
        ∷ tag_text (codes "resp.em") resp.message
        ∷ log_if_marshalled (codes "resp.result") (R.marshal resp.result))
    ++ (if resp.err_code == code_server_succ then [] else tag_error ∷ [])
