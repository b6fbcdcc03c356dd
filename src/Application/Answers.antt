-- ===== src/Application/Answers.antt =====
-- What a client of a started application gets back: initApplication and dis of application.go.
use go_moa.Base.{
  ℕ, Bool, false, ◌≡◌, ◌≢◌, ap, subst, inl, inr, ◌⊎◌, Text, none, some, List, [], ◌∷◌, map, All,
  Assoc, lookup, if◌then◌else◌, arith,
}
use go_moa.Base.Int.{ℤ}
use go_moa.Context.{Tracer, at_ref}
use go_moa.Protocol.{MoaRawReqPacket, MoaRespPacket, resp_cmd, code_service_not_found}
use go_moa.Stat.{Meters}
use go_moa.Proxy.{Reflect, Service, InvocationHandler}
use go_moa.Proxy.Build.SetUp.{IsTyped, new_invocation_handler-IsReady}
use go_moa.Proxy.Invoke.{on_time}
use go_moa.Proxy.Invoke.Verdict.{
  Verdict, service_not_found, method_not_found, params_not_matched, bad_argument, called,
}
use go_moa.Proxy.Invoke.Replies.{
  method_panic, method_error, error_without_nil, method_result, second_without_nil,
}
use go_moa.Dispatcher.{TContext, App, is_expired, with_source, dis, written, resp_packet, response}
use go_moa.Dispatcher.Carried.{Carries}
use go_moa.Dispatcher.Replies.{dis-Verdict}
use go_moa.Zookeeper.{Conn}
use go_moa.Application.Start.{World, Application, started, prepare, init_application}
use go_moa.Application.Start.Serving.{init_application-Serving}

module _ {M : Meters} {V : Type 0} where
  -- One of the services has this URI.
  abbrev pub Offers : Text → List (Service M V) → Type 0
  Offers uri [] = ⊥
  Offers uri (s ∷ services) = (s.service_uri ≡ uri) ⊎ Offers uri services

  Offers-prepare :
      (is_pre : Bool) (uri : Text) (bundle : List (Service M V))
      → Offers uri bundle
      → Offers uri (map (prepare is_pre) bundle)
  unfolding prepare
  Offers-prepare is_pre uri [] h = h
  Offers-prepare is_pre uri (s ∷ bundle) (inl e) = inl e
  Offers-prepare is_pre uri (s ∷ bundle) (inr h) = inr (Offers-prepare is_pre uri bundle h)

  IsTyped-prepare :
      (is_pre : Bool) (bundle : List (Service M V))
      → All IsTyped bundle
      → All IsTyped (map (prepare is_pre) bundle)
  unfolding prepare
  IsTyped-prepare is_pre [] h = tt
  IsTyped-prepare is_pre (s ∷ bundle) (h, hs) = (h, IsTyped-prepare is_pre bundle hs)

  found_of_offered :
      (uri : Text) (services : List (Service M V)) (instances : Assoc (Service M V))
      → All (λ s. lookup s.service_uri instances ≢ none) services
      → Offers uri services
      → lookup uri instances ≢ none
  found_of_offered uri [] instances h o = absurd o
  found_of_offered uri (s ∷ services) instances (h, hs) (inl e) =
      subst (λ u. lookup u instances ≢ none) e h
  found_of_offered uri (s ∷ services) instances (h, hs) (inr o) =
      found_of_offered uri services instances hs o

  module _ (R : Reflect V) (h : InvocationHandler M V) (req : MoaRawReqPacket) where
    code_of : {resp r : MoaRespPacket V} → resp ≡ r → resp.err_code ≡ r.err_code
    code_of e = ap (λ (x : MoaRespPacket V). x.err_code) e

    found-Verdict :
        (resp : MoaRespPacket V)
        → lookup req.service_uri h.instances ≢ none
        → Verdict R h (at_ref 0) req resp
        → resp.err_code ≢ code_service_not_found
    found-Verdict resp f (service_not_found e k) = absurd (f e)
    found-Verdict resp f (method_not_found s e n k) = λ x. omega (arith, code_of k, x)
    found-Verdict resp f (params_not_matched s m front rest n b l k) =
        λ x. omega (arith, code_of k, x)
    found-Verdict resp f (bad_argument s m front rest e n b l w k) =
        λ x. omega (arith, code_of k, x)
    found-Verdict resp f (called s m front rest vs n b d (method_panic e p k)) =
        λ x. omega (arith, code_of k, x)
    found-Verdict resp f (called s m front rest vs n b d (method_error v ws p l i k)) =
        λ x. omega (arith, code_of k, x)
    found-Verdict resp f (called s m front rest vs n b d (error_without_nil v ws e p l i k)) =
        λ x. omega (arith, code_of k, x)
    found-Verdict resp f (called s m front rest vs n b d (method_result v ws t p l i k)) =
        λ x. omega (arith, code_of k, x)
    found-Verdict resp f (called s m front rest vs n b d (second_without_nil v w ws e p l i k)) =
        λ x. omega (arith, code_of k, x)

-- The application as dis reads it.
abbrev pub app_of : {M : Meters} {V State : Type 0} → Application M V State → App M
app_of app = record { options = app.options; moa_stat = some app.moa_stat }

module _ (conn : Conn) (world : World conn.State) {N V : Type 0} {M : Meters} (R : Reflect V)
    (T : Tracer) where
  -- A started application whose services' methods return as many values as the interfaces declare: a
  -- request for a service of the bundle that carries properties and is not expired is answered with
  -- one packet under its opaque if the call is on time, and with none if it is not. The response is
  -- the one that the verdict determines for the handler of the application, and its code is not that
  -- of a missing service.
  pub init_application-dis :
      (bundle : List (Service M V)) (app : Application M V conn.State) (now : ℤ) (network : N)
      (ctx : TContext N V) (raw : MoaRawReqPacket) (cost : ℕ) (props : Assoc Text)
      → init_application conn world bundle ≡ started app
      → All IsTyped bundle
      → Offers raw.service_uri bundle
      → Carries ctx raw
      → is_expired now (with_source (app_of app) ctx raw) ≡ false
      → raw.properties ≡ some props
      → (resp : MoaRespPacket V) × Verdict R app.invoke_handler
          (at_ref 0)
          (with_source (app_of app) ctx raw)
          resp
        × (resp.err_code ≢ code_service_not_found)
        × (written R T cost app.invoke_handler (dis (app_of app) now network ctx) ≡ (
            if on_time (with_source (app_of app) ctx raw) cost
            then resp_packet ctx.message.opaque resp_cmd (response resp) ∷ []
            else []))
  init_application-dis bundle app now network ctx raw cost props start typed offers carries fresh
        p =
      let (options, server_op, _, _, (_, _, _, _, _, _, (st, made), found)) =
        init_application-Serving conn world bundle app start in
      let is_pre = server_op.server.is_pre in
      let h = app.invoke_handler in
      let req = with_source (app_of app) ctx raw in
      let ready =
        new_invocation_handler-IsReady R (map (prepare is_pre) bundle) st h (at_ref 0) req made
          (IsTyped-prepare is_pre bundle typed) in
      let there =
        found_of_offered raw.service_uri (map (prepare is_pre) bundle) h.instances found
          (Offers-prepare is_pre raw.service_uri bundle offers) in
      let (resp, v, sent) =
        dis-Verdict R T h (app_of app) now network ctx raw cost props carries fresh p ready.1 in
      (resp, v, found-Verdict R h req resp there v, sent)
