-- ===== src/Proxy/Invoke/Accounting.antt =====
-- How Invoke of proxy.go counts a call and when it answers it.
use go_moa.Base.{
  ℕ, ◌≡◌, ◌≢◌, refl, Text, Option, none, some, List, [], ◌∷◌, ◌⊎◌, inl, inr, ◌==◌, length,
  if◌then◌else◌, Assoc, lookup, to_lower, leb, arith, Option-cases, Bool-cases,
}
use go_moa.Context.{Store, Props, nil_map, Tracer}
use go_moa.Protocol.{
  MoaRawReqPacket, MoaRespPacket, code_server_succ, code_serialization, code_service_not_found,
  code_method_not_found, code_invocation_target, code_serialization_server, msg_serialization,
}
use go_moa.Stat.{Meters, MoaStat, incr_recv, incr_proc, incr_error, observe_cost}
use go_moa.Proxy.Trace.{Span}
use go_moa.Proxy.Trace.Laws.{begin_trace-cases}
use go_moa.Proxy.{
  Called, returned, panicked, Reflect, nil_panic, MethodMeta, Service, InvocationHandler,
}
use go_moa.Proxy.Invoke.Replies.{NilTest-cases}
use go_moa.Proxy.Invoke.{
  Turn, Invoked, invoked, crashed, Decoding, params, bad_arg, Done, finished, escaped, on_time,
  fail, answer, call_decoded, run_decoded, run_method, counted, call_method, dispatch, recovered,
  deferred, handle, invoke, invoke_method, bind_context, no_response, second_error, message_of,
  processed, invoke_result, only_result, result_of,
}

module _ {V : Type 0} (R : Reflect V) where
  -- The method returned a second result whose type has no nil.
  pub record ReturnsWithoutNil (m : MethodMeta V) : Type 0 where
    pub args : List V
    pub result : V
    pub second : V
    pub others : List V
    pub message : Text
    pub returns : m.method args ≡ returned (result ∷ second ∷ others)
    pub without_nil : R.test_nil second ≡ nil_panic message

  -- Where the test of the second result panics, there is an X.
  abbrev Explains : Type 0 → Invoked V → Type 0
  Explains X (invoked none (v ∷ w ∷ vs)) = (e : Text) → R.test_nil w ≡ nil_panic e → X
  Explains X _ = Unit

  invoke_result-Explains :
      (X : Type 0) (m : MethodMeta V) (args : List V) (c : Called V)
      → (ReturnsWithoutNil m → X)
      → m.method args ≡ c
      → Explains X (invoke_result R m c)
  unfolding invoke_result only_result result_of
  invoke_result-Explains X m args (panicked e) x k = tt
  invoke_result-Explains X m args (returned []) x k =
      elim (Bool-cases (leb (length m.return_type) 1)) [ inl b ↦ rw b tt | inr b ↦ rw b tt ]
  invoke_result-Explains X m args (returned (v ∷ [])) x k =
      elim (Bool-cases (leb (length m.return_type) 1)) [
        | inr b ↦ rw b tt
        | inl b ↦ elim (NilTest-cases R (R.test_nil v)) [
          | inl n ↦ rw (b, n) tt
          | inr (inl n) ↦ rw (b, n) tt
          | inr (inr (e, n)) ↦ rw (b, n) tt
        ]
      ]
  invoke_result-Explains X m args (returned (v ∷ w ∷ vs)) x k =
      elim (Bool-cases (leb (length m.return_type) 1)) [
        | inr b ↦ rw b found
        | inl b ↦ elim (NilTest-cases R (R.test_nil v)) [
          | inl n ↦ rw (b, n) found
          | inr (inl n) ↦ rw (b, n) tt
          | inr (inr (e, n)) ↦ rw (b, n) tt
        ]
      ]
    where
      found : (e : Text) → R.test_nil w ≡ nil_panic e → X
      found e n = x (record {
        args = args;
        result = v;
        second = w;
        others = vs;
        message = e;
        returns = k;
        without_nil = n;
      })

module _ {V : Type 0} (R : Reflect V) {M : Meters} where
  -- One count of a response: as processed with the code of success, or as an error with another code
  -- and no result.
  abbrev pub CountedOnce : MoaStat M → MoaRespPacket V → MoaStat M → Type 0
  CountedOnce s resp s' =
      ((resp.err_code ≡ code_server_succ) × (s' ≡ incr_proc s))
      ⊎ ((resp.err_code ≢ code_server_succ) × (resp.result ≡ none) × (s' ≡ incr_error s))

  -- A response with a result and the code of a panic: counted as processed, and then as an error by
  -- the recovery.
  abbrev pub CountedTwice : MoaStat M → MoaRespPacket V → MoaStat M → Type 0
  CountedTwice s resp s' =
      (resp.err_code ≡ code_invocation_target)
      × ((v : V) × (resp.result ≡ some v))
      × (s' ≡ incr_error (incr_proc s))

  -- The request is for such a method.
  pub record AsksWithoutNil (instances : Assoc (Service M V)) (req : MoaRawReqPacket) : Type 0 where
    pub instance_of : Service M V
    pub meta : MethodMeta V
    pub offered : lookup req.service_uri instances ≡ some instance_of
    pub named : lookup (to_lower req.method) instance_of.methods ≡ some meta
    pub witness_of : ReturnsWithoutNil R meta

  module _ (X : Type 0) where
    abbrev pub CountedBy : MoaStat M → MoaRespPacket V → MoaStat M → Type 0
    CountedBy s resp s' = CountedOnce s resp s' ⊎ (X × CountedTwice s resp s')

    abbrev Counts : MoaStat M → Turn M V → Type 0
    Counts s t = CountedBy s (recovered R t).resp (recovered R t).handler.moa_stat

    fail-Counts :
        (h : InvocationHandler M V) (resp : MoaRespPacket V) (code : ℕ) (message : Text)
        → code ≢ code_server_succ
        → resp.result ≡ none
        → Counts h.moa_stat (fail R h resp code message)
    unfolding fail recovered
    fail-Counts h resp code message n o = inl (inr (n, o, refl))

    answer-Counts :
        (h : InvocationHandler M V) (resp : MoaRespPacket V) (i : Invoked V)
        → resp.result ≡ none
        → Explains R X i
        → Counts h.moa_stat (answer R h resp i)
    unfolding answer recovered second_error message_of processed fail
    answer-Counts h resp (crashed e) o x = inl (inr (omega arith, o, refl))
    answer-Counts h resp (invoked (some e) values) o x = inl (inr (omega arith, o, refl))
    answer-Counts h resp (invoked none (r ∷ [])) o x = inl (inl (refl, refl))
    answer-Counts h resp (invoked none (r ∷ w ∷ vs)) o x = elim (NilTest-cases R (R.test_nil w)) [
      | inl n ↦ rw n (inl (inl (refl, refl)))
      | inr (inl n) ↦ rw n (inl (inl (refl, refl)))
      | inr (inr (e, n)) ↦ rw n (inr (x e n, (refl, (r, refl), refl)))
    ]
    answer-Counts h resp (invoked none []) o x = inl (inr (omega arith, o, refl))

    call_decoded-Counts :
        (h : InvocationHandler M V) (resp : MoaRespPacket V) (m : MethodMeta V) (args : List V)
        → resp.result ≡ none
        → Explains R X (invoke_method R m args)
        → Counts h.moa_stat (call_decoded R h resp m args)
    unfolding call_decoded
    call_decoded-Counts h resp m args o x = elim (Bool-cases (resp.err_code == 0)) [
      | inl e ↦ rw e (answer-Counts h resp (invoke_method R m args) o x)
      | inr e ↦ elim (Bool-cases (resp.err_code == code_server_succ)) [
        | inl k ↦ rw (e, k) (answer-Counts h resp (invoke_method R m args) o x)
        | inr k ↦ rw (e, k) (unfold recovered in inl (inr (ground arith, o, refl)))
      ]
    ]

    run_decoded-Counts :
        (h : InvocationHandler M V) (m : MethodMeta V) (d : Decoding V)
        → (ReturnsWithoutNil R m → X)
        → Counts h.moa_stat (run_decoded R h no_response m d)
    unfolding run_decoded invoke_method
    run_decoded-Counts h m (params args) x =
        call_decoded-Counts h no_response m args refl (invoke_result-Explains R X m args _ x refl)
    run_decoded-Counts h m (bad_arg e) x =
        call_decoded-Counts h
          (record no_response {
            err_code = code_serialization_server;
            message = msg_serialization e;
          })
          m [] refl (invoke_result-Explains R X m [] _ x refl)

    run_method-Counts :
        (h : InvocationHandler M V) (m : MethodMeta V) (ctx : Props) (req : MoaRawReqPacket)
        → (ReturnsWithoutNil R m → X)
        → Counts h.moa_stat (run_method R h m ctx req)
    unfolding run_method
    run_method-Counts h m ctx req x =
        elim (Bool-cases (length req.args == length (bind_context R m.param_types ctx).1)) [
          | inl e ↦ rw e (run_decoded-Counts h m _ x)
          | inr e ↦ rw e (fail-Counts h no_response code_serialization _ (omega arith) refl)
        ]

    call_method-Counts :
        (h : InvocationHandler M V) (s : Service M V) (m : MethodMeta V) (ctx : Props)
        (req : MoaRawReqPacket)
        → (ReturnsWithoutNil R m → X)
        → Counts h.moa_stat (call_method R h s m ctx req)
    unfolding call_method
    call_method-Counts h s m ctx req x = elim (Option-cases s.invokes_per_client) [
      | inl e ↦ rw (e, call_method) (unfold recovered in inl (inr (omega arith, refl, refl)))
      | inr (i, e) ↦
          rw (e, call_method)
            (unfold counted in run_method-Counts (counted R h s i m req) m ctx req x)
    ]

  dispatch-Counts :
      (h : InvocationHandler M V) (ctx : Props) (req : MoaRawReqPacket)
      → Counts (AsksWithoutNil h.instances req) h.moa_stat (dispatch R h ctx req)
  unfolding dispatch
  dispatch-Counts h ctx req = elim (Option-cases (lookup req.service_uri h.instances)) [
    | inl e ↦
        rw (e, dispatch) (fail-Counts _ h no_response code_service_not_found _ (omega arith) refl)
    | inr (s, e) ↦ elim (Option-cases (lookup (to_lower req.method) s.methods)) [
      | inl k ↦
          rw (e, k, dispatch)
            (fail-Counts _ h no_response code_method_not_found _ (omega arith) refl)
      | inr (m, k) ↦
          rw (e, k, dispatch)
            (call_method-Counts _ h s m ctx req
              (λ w. record { instance_of = s; meta = m; offered = e; named = k; witness_of = w }))
    ]
  ]

  -- The call that `d` ended: counted once as received, and once as processed or as an error, or as
  -- both where its method returns a second result without nil; its time is observed, and its
  -- response sent if and only if it was on time.
  abbrev pub Answered : InvocationHandler M V → MoaRawReqPacket → ℕ → Done M V → Type 0
  Answered h req cost d =
      (resp : MoaRespPacket V) × (s' : MoaStat M) × CountedBy (AsksWithoutNil h.instances req)
        (incr_recv h.moa_stat) resp s'
      × (d.handler.moa_stat ≡ observe_cost req.method cost s')
      × (d.sent ≡ (if on_time req cost then some resp else none))

  handle-Answered :
      (h : InvocationHandler M V) (ctx : Props) (req : MoaRawReqPacket) (cost : ℕ)
      (span : Option Span)
      → Answered h req cost (handle R h ctx req cost span)
  unfolding handle deferred
  handle-Answered h ctx req cost span =
      let h' : InvocationHandler M V = record h { moa_stat = incr_recv h.moa_stat } in
      let t = recovered R (dispatch R h' ctx req) in
      (t.resp, t.handler.moa_stat, dispatch-Counts h' ctx req, refl, refl)

  -- Whatever the request, the services and the outcome of the method, panics included: a call
  -- either ends, or the tracing panics before it, which takes a context with a nil map. A call that
  -- ends counts as received once, and then exactly once, as processed if its response has the code
  -- 200 and as an error if it has another code and no result; or, if its response has a result and
  -- the code 503, it counts as processed and as an error, and then the request is for a method that
  -- returns as its second result a value of a type without nil, whose test for nil panics. The client
  -- gets the response exactly when the call took less time than the request's timeout.
  pub invoke-Answered :
      (T : Tracer) (store : Store) (h : InvocationHandler M V) (ctx : Props) (req : MoaRawReqPacket)
      (cost : ℕ)
      → ((ctx ≡ nil_map) × (invoke R T store h ctx req cost ≡ escaped))
        ⊎ ((store' : Store) × (d : Done M V) × (invoke R T store h ctx req cost ≡ finished store' d)
            × Answered h req cost d)
  unfolding invoke
  invoke-Answered T store h ctx req cost = elim (begin_trace-cases R T store req ctx) [
    | inl (n, e) ↦ inl (n, rw (e, invoke))
    | inr (st, c, span, e) ↦
        inr (st, handle R h c req cost span, rw (e, invoke), handle-Answered h c req cost span)
  ]
