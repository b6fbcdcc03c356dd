-- ===== src/Application/Wire.antt =====
-- A call of a started application as its client sees it: the frame of the request through moa_codec.go,
-- application.go and proxy.go, and the body of the answer back.
use go_moa.Base.{
  ℕ, true, false, ◌-◌, ◌*◌, ◌/◌, ◌^◌, ◌≤◌, ◌<◌, ◌≡◌, ◌≢◌, sym, ap, subst, ◌∙◌, inl, inr, Text, some,
  List, [], ◌∷◌, All, Assoc, arith, if◌then◌else◌, Bool-cases,
}
use go_moa.Base.Int.{pos, ◌≤ℤ◌}
use go_moa.Context.{Tracer, at_ref}
use go_moa.Protocol.{
  MoaRawReqPacket, MoaRespPacket, MoaRawRespPacket, req_cmd, resp_cmd, code_service_not_found,
}
use go_moa.Stat.{Meters}
use go_moa.Proxy.{Reflect, Service}
use go_moa.Proxy.Build.SetUp.{IsTyped}
use go_moa.Proxy.Invoke.{on_time}
use go_moa.Proxy.Invoke.Verdict.{Verdict}
use go_moa.Dispatcher.{
  App, TContext, raw_req, raw_resp, response, resp_packet, dis, written, with_source, is_expired,
  millisecond, process_timeout,
}
use go_moa.Dispatcher.Carried.{Carries, dis-expired}
use go_moa.Codec.{Snappy, Json, Frame, value, marshal_response, marshal_payload, unmarshal_payload}
use go_moa.Codec.Laws.{IsJson, IsPlain}
use go_moa.Codec.Arrival.{unmarshal-dis}
use go_moa.Codec.Responses.{ReadsCode, sent_response-ReadsCode, code-marshal_response}
use go_moa.Zookeeper.{Conn}
use go_moa.Application.Start.{World, Application, started, init_application}
use go_moa.Application.Answers.{app_of, Offers, init_application-dis}

not_missing :
    {N V : Type 0} (J : Json N V) (resp : MoaRespPacket V) (code : ℕ)
    → ReadsCode J resp code
    → resp.err_code ≢ code_service_not_found
    → code ≢ code_service_not_found
not_missing J resp code (inl (t, k, e)) n = λ x. n (sym e ∙ x)
not_missing J resp code (inr (t, k, e)) n = λ x. omega (arith, e, x)

module _ {N V : Type 0} {M : Meters} (J : Json N V) (j : IsJson J) (S : Snappy) where
  -- A request is not expired before its timeout has passed since the millisecond of its arrival.
  fresh_of_arrival :
      (at now : ℕ) (f : Frame N V) (app : App M) (network : N) (ctx : TContext N V)
      (raw : MoaRawReqPacket)
      → f.cmd_type ≡ req_cmd
      → unmarshal_payload J S at f ≡ value (raw_req raw)
      → Carries ctx raw
      → at ≤ now
      → now < 2 ^ 63
      → ¬ (process_timeout app.options ≤ℤ pos (now - at / millisecond * millisecond))
      → is_expired (pos now) (with_source app ctx raw) ≡ false
  fresh_of_arrival at now f app network ctx raw c e h l b early =
      elim (Bool-cases (is_expired (pos now) (with_source app ctx raw))) [
        | inr k ↦ k
        | inl k ↦ elim (unmarshal-dis J S at now f app network ctx raw j c e h l b) [
          | inl x ↦ absurd (early x.1)
          | inr x ↦
              let gone : dis app (pos now) network ctx ≡ [] =
                dis-expired app (pos now) network ctx raw h k in
              absurd (cc (gone, x.1))
        ]
      ]

module _ (conn : Conn) (world : World conn.State) {N V : Type 0} {M : Meters} (R : Reflect V)
    (T : Tracer) (J : Json N V) (S : Snappy) where
  -- A client sends a started application a request for a service of its bundle, whose methods return
  -- as many values as the interfaces declare. The request carries properties, it is dispatched before
  -- the timeout of the cluster has passed since the start of the millisecond in which it was read,
  -- and its call is on time. Then the client gets one
  -- packet, under the opaque of its request, and reads in its body the code of the response that the
  -- verdict determines, or 3021 where that response has no JSON text; it is never the code of a missing
  -- service.
  pub init_application-wire :
      (bundle : List (Service M V)) (app : Application M V conn.State) (at now later cost : ℕ)
      (network : N) (f g : Frame N V) (ctx : TContext N V) (raw : MoaRawReqPacket)
      (props : Assoc Text)
      → init_application conn world bundle ≡ started app
      → All IsTyped bundle
      → Offers raw.service_uri bundle
      → IsJson J
      → f.cmd_type ≡ req_cmd
      → unmarshal_payload J S at f ≡ value (raw_req raw)
      → Carries ctx raw
      → at ≤ now
      → now < 2 ^ 63
      → ¬ (process_timeout app.options ≤ℤ pos (now - at / millisecond * millisecond))
      → raw.properties ≡ some props
      → on_time (with_source (app_of app) ctx raw) cost ≡ true
      → g.cmd_type ≡ resp_cmd
      → IsPlain g
      → (resp : MoaRespPacket V) × (t : Text) × (answer : MoaRawRespPacket) × Verdict R
          app.invoke_handler
          (at_ref 0)
          (with_source (app_of app) ctx raw)
          resp
        × (written R T cost app.invoke_handler (dis (app_of app) (pos now) network ctx)
            ≡ resp_packet ctx.message.opaque resp_cmd (response resp) ∷ [])
        × (marshal_payload J resp_cmd (response resp) ≡ value t)
        × (unmarshal_payload J S later (record g { body = t }) ≡ value (raw_resp answer))
        × ReadsCode J resp answer.err_code
        × (answer.err_code ≢ code_service_not_found)
  init_application-wire bundle app at now later cost network f g ctx raw props start typed offers j
        c e h l b early p timely gc plain =
      let fresh = fresh_of_arrival J j S at now f (app_of app) network ctx raw c e h l b early in
      let (resp, v, n, w) =
        init_application-dis conn world R T bundle app (pos now) network ctx raw cost props start
          typed offers h fresh p in
      let (sent, read, code) = code-marshal_response J j S later g (response resp) gc plain in
      let reads = subst (ReadsCode J resp) (sym code) (sent_response-ReadsCode J resp) in
      (
        resp,
        marshal_response J (response resp),
        (J.read_resp (marshal_response J (response resp))).0,
        v,
        w
            ∙ ap
                (λ k.
                  if k then resp_packet ctx.message.opaque resp_cmd (response resp) ∷ [] else [])
                timely,
        sent,
        read,
        reads,
        not_missing J resp _ reads n,
      )
