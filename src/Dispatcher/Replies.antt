-- ===== src/Dispatcher/Replies.antt =====
-- What a client gets back for a request that dis of application.go hands to the pool.
use go_moa.Base.{
  ℕ, Bool, true, false, ◌≡◌, refl, Option, none, some, [], ◌∷◌, ◌++◌, if◌then◌else◌, Assoc, Text,
}
use go_moa.Base.Int.{ℤ}
use go_moa.Context.{Store, at_ref, Tracer}
use go_moa.Protocol.{MoaRawReqPacket, MoaRespPacket, resp_cmd}
use go_moa.Stat.{Meters}
use go_moa.Proxy.{Reflect, InvocationHandler}
use go_moa.Proxy.Trace.{Span}
use go_moa.Proxy.Trace.Laws.{begin_trace-at_ref}
use go_moa.Proxy.Invoke.{finished, invoke, handle, on_time}
use go_moa.Proxy.Invoke.Verdict.{Verdict, IsReady, handle-Verdict}
use go_moa.Dispatcher.Carried.{Carries, dis-queue}
use go_moa.Dispatcher.{
  response, TContext, App, is_expired, with_source, dis, resp_packet, send, after_invoke, run_job,
  written, invoke_store, invoke_ctx,
}

module _ {V : Type 0} {M : Meters} (R : Reflect V) (T : Tracer) (h : InvocationHandler M V)
    (req : MoaRawReqPacket) (cost : ℕ) where
  -- With a map in the context the tracing goes through and keeps the map.
  invoke-at_ref :
      (store : Store) (r : ℕ)
      → (store' : Store) × (span : Option Span) × (invoke R T store h (at_ref r) req cost
          ≡ finished store' (handle R h (at_ref r) req cost span))
  unfolding invoke
  invoke-at_ref store r =
      let (st, span, e) = begin_trace-at_ref R T store req r in (st, span, rw (e, invoke) refl)

  -- The response that the verdict determines, when the job is on time.
  abbrev pub Replied : Option (MoaRespPacket V) → Type 0
  Replied sent =
      (resp : MoaRespPacket V) × Verdict R h (at_ref 0) req resp
      × (sent ≡ (if on_time req cost then some resp else none))

  invoke-Replied :
      (props : Assoc Text) (ps : Option (Assoc Text))
      → ps ≡ some props
      → IsReady R h (at_ref 0) req
      → Replied (after_invoke h (invoke R T (invoke_store ps) h (invoke_ctx ps) req cost)).1
  unfolding after_invoke
  invoke-Replied props ps e ready =
      let (st, span, k) = invoke-at_ref (props ∷ []) 0 in
      rw (e, k) (handle-Verdict R h (at_ref 0) req cost span ready)

  run_job-Replied :
      (opaque : ℕ) (props : Assoc Text)
      → req.properties ≡ some props
      → IsReady R h (at_ref 0) req
      → Replied (run_job R T cost h (record { opaque = opaque; req = req })).1
  unfolding run_job
  run_job-Replied opaque props e ready = invoke-Replied props req.properties e ready

sent_if :
    {N V : Type 0} (opaque : ℕ) (resp : MoaRespPacket V) (b : Bool)
    → send opaque (if b then some resp else none) ++ []
      ≡ (if b then resp_packet {N = N} opaque resp_cmd (response resp) ∷ [] else [])
unfolding send
sent_if opaque resp true = refl
sent_if opaque resp false = refl

module _ {N V : Type 0} {M : Meters} (R : Reflect V) (T : Tracer) (h : InvocationHandler M V)
    (app : App M) (now : ℤ) (network : N) (ctx : TContext N V) (raw : MoaRawReqPacket)
    (cost : ℕ) where
  abbrev req : MoaRawReqPacket
  req = with_source app ctx raw

  -- For a request that is not expired and carries properties, on services that are set up: what
  -- the server writes is the one response packet under the request's opaque, with the response
  -- that the verdict determines, if the call is on time, and nothing if it is not.
  pub dis-Verdict :
      (props : Assoc Text)
      → Carries ctx raw
      → is_expired now req ≡ false
      → raw.properties ≡ some props
      → IsReady R h (at_ref 0) req
      → (resp : MoaRespPacket V) × Verdict R h (at_ref 0) req resp
        × (written R T cost h (dis app now network ctx) ≡ (
            if on_time req cost
            then resp_packet ctx.message.opaque resp_cmd (response resp) ∷ []
            else []))
  unfolding written
  dis-Verdict props c e p ready =
      let (resp, v, s) = run_job-Replied R T h req cost ctx.message.opaque props p ready in
      (
        resp,
        v,
        rw (dis-queue app now network ctx raw c e, s)
            (sent_if ctx.message.opaque resp (on_time req cost)),
      )
