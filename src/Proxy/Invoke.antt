-- ===== src/Proxy/Invoke.antt =====
-- Invoke and invoke of proxy.go.
pub mod Accounting
pub mod Replies
pub mod Verdict
pub mod Counting
use go_moa.Base.{
  ℕ, zero, suc, ◌+◌, Bool, true, false, not, ◌≡◌, Text, codes, Option, none, some, List, [], ◌∷◌,
  ◌++◌, ◌&&◌, ◌||◌, ◌==◌, length, leb, is_empty, if◌then◌else◌, Assoc, lookup, insert, to_lower,
  format_nat,
}
use go_moa.Base.Int.{ℤ, pos, leb_ℤ}
use go_moa.Context.{
  Store, Props, absent, map_at, Tracer, Wrote, wrote, nil_map_panic, get_span_ctx, with_span_ctx,
  at_ref,
}
use go_moa.Protocol.{
  MoaRawReqPacket, MoaRespPacket, code_server_succ, code_serialization, code_service_not_found,
  code_method_not_found, code_invocation_target, code_serialization_server, msg_no_uri_found,
  msg_method_not_found, msg_params_not_matched, msg_serialization, msg_invocation_target,
}
use go_moa.Stat.{Meters, MoaStat, incr_recv, incr_proc, incr_error, observe_cost}
use go_moa.Proxy.Trace.{Span, finish, Begun, begun, begin_panic, begin_trace, trace_resp}
use mathlib.Core.Option
use go_moa.Proxy.{
  Decoded, decoded, failed, ParamType, Called, returned, panicked, Reflect, NilTest, is_nil,
  not_nil, nil_panic, MethodMeta, Invokes, Service, InvocationHandler,
}

-- The handler's state and the response so far, and the panic that ended the call, if one did.
pub record Turn (M : Meters) (V : Type 0) : Type 0 where
  pub handler : InvocationHandler M V
  pub resp : MoaRespPacket V
  pub crash : Option Text

-- invokeResult, or the panic of the call.
pub data Invoked (V : Type 0) : Type 0 where
  invoked : Option V → List V → Invoked V
  crashed : Text → Invoked V

abbrev pub no_response : {V : Type 0} → MoaRespPacket V
no_response = record { err_code = 0; message = []; create_time = pos 0; result = none }

-- The message of a successful response, or the panic of the test of its error.
pub data Message : Type 0 where
  says : Text → Message
  panics : Text → Message

-- The parameters decoded from the arguments, or the error at the first that does not decode.
pub data Decoding (V : Type 0) : Type 0 where
  params : List V → Decoding V
  bad_arg : Text → Decoding V

-- `sent` is the response that the callback gets, if it gets one.
pub record Done (M : Meters) (V : Type 0) : Type 0 where
  pub handler : InvocationHandler M V
  pub sent : Option (MoaRespPacket V)
  pub span : Option Span

-- A panic of the tracing escapes, since the recovery is not yet deferred.
pub data Result (M : Meters) (V : Type 0) : Type 0 where
  finished : Store → Done M V → Result M V
  escaped : Result M V

-- The call took less time than the request allows.
abbrev pub on_time : MoaRawReqPacket → ℕ → Bool
on_time req cost = not (leb_ℤ req.timeout (pos cost))

abbrev pub no_result : Text
no_result = codes "NO Result ..."

abbrev pub nil_pointer : Text
nil_pointer = codes "runtime error: invalid memory address or nil pointer dereference"

abbrev pub index_out_of_range : Text
index_out_of_range = codes "runtime error: index out of range"

module _ (M : Meters) where
  -- The load-or-store of the client's map and of the method's flow, and the increment.
  unfoldable pub count_invoke : Text → Text → Invokes M → Invokes M
  count_invoke source name invokes =
      insert source (insert name (M.incr 1 (counter_in flow)) flow) invokes
    where
      flow : Assoc M.Flow
      flow = elim (lookup source invokes) [ none ↦ [] | some exist ↦ exist ]

      counter_in : Assoc M.Flow → M.Flow
      counter_in f = elim (lookup name f) [ none ↦ M.new_flow | some exist ↦ exist ]

module _ {V : Type 0} (R : Reflect V) where
  result_of : V → List V → NilTest → Invoked V
  result_of v values is_nil = invoked none values
  result_of v values not_nil = invoked (some v) values
  result_of v values (nil_panic e) = crashed e

  -- The first of the values, where it can be an error.
  only_result : List V → Invoked V
  unfolding result_of
  only_result [] = crashed index_out_of_range
  only_result (v ∷ vs) = result_of v (v ∷ vs) (R.test_nil v)

  -- A method with one result at most returns its error as that result.
  unfoldable pub invoke_result : MethodMeta V → Called V → Invoked V
  unfolding only_result
  invoke_result m (panicked e) = crashed e
  invoke_result m (returned values) =
      if leb (length m.return_type) 1 then only_result values else invoked none values

  unfoldable pub invoke_method : MethodMeta V → List V → Invoked V
  unfolding invoke_result
  invoke_method m args = invoke_result m (m.method args)

  -- The context goes in front where the first parameter is one; the other parameters are left.
  unfoldable pub bind_context : List (ParamType V) → Props → List V × List (ParamType V)
  bind_context [] ctx = ([], [])
  bind_context (p ∷ ps) ctx =
      if p.implements_context then (R.of_context ctx ∷ [], ps) else ([], p ∷ ps)

  unfoldable pub decode_args : List (ParamType V) → List Text → List V → Decoding V
  decode_args (p ∷ ps) (arg ∷ args) out = elim (p.unmarshal arg) [
    | decoded v ↦ decode_args ps args (out ++ v ∷ [])
    | failed e ↦ bad_arg e
  ]
  decode_args _ _ out = params out

  message_of : V → Text → NilTest → Message
  message_of e message is_nil = says message
  message_of e message not_nil = says (codes "Method Invoke Error " ++ R.show e)
  message_of e message (nil_panic text) = panics text

  -- The message where a second result, the error, is not nil.
  unfoldable pub second_error : List V → Text → Message
  unfolding message_of
  second_error [] message = says message
  second_error (e ∷ _) message = message_of e message (R.test_nil e)

  module _ {M : Meters} where
    unfoldable pub fail : InvocationHandler M V → MoaRespPacket V → ℕ → Text → Turn M V
    fail h resp code message = record {
      handler = record h { moa_stat = incr_error h.moa_stat };
      resp = record resp { err_code = code; message = message };
      crash = none;
    }

    -- A result is processed and has the code of success before its error is tested.
    processed : InvocationHandler M V → MoaRespPacket V → V → Message → Turn M V
    processed h resp r (says message) = record {
      handler = record h { moa_stat = incr_proc h.moa_stat };
      resp = record resp { err_code = code_server_succ; message = message; result = some r };
      crash = none;
    }
    processed h resp r (panics e) = record {
      handler = record h { moa_stat = incr_proc h.moa_stat };
      resp = record resp { err_code = code_server_succ; result = some r };
      crash = some e;
    }

    unfoldable pub answer : InvocationHandler M V → MoaRespPacket V → Invoked V → Turn M V
    unfolding fail second_error processed
    answer h resp (crashed e) = record { handler = h; resp = resp; crash = some e }
    answer h resp (invoked (some e) values) =
        fail h resp code_invocation_target (msg_invocation_target (R.show e))
    answer h resp (invoked none (r ∷ rest)) = processed h resp r (second_error rest resp.message)
    answer h resp (invoked none []) = fail h resp code_invocation_target no_result

    -- The test of the response's code after the loop over the arguments.
    unfoldable pub call_decoded :
        InvocationHandler M V → MoaRespPacket V → MethodMeta V → List V → Turn M V
    unfolding answer
    call_decoded h resp m args =
        if not (resp.err_code == 0) && not (resp.err_code == code_server_succ)
        then record {
          handler = record h { moa_stat = incr_error h.moa_stat };
          resp = resp;
          crash = none;
        }
        else answer h resp (invoke_method m args)

    unfoldable pub run_decoded :
        InvocationHandler M V → MoaRespPacket V → MethodMeta V → Decoding V → Turn M V
    unfolding call_decoded
    run_decoded h resp m (params args) = call_decoded h resp m args
    run_decoded h resp m (bad_arg e) =
        call_decoded h
          (record resp { err_code = code_serialization_server; message = msg_serialization e }) m []

    unfoldable pub run_method :
        InvocationHandler M V → MethodMeta V → Props → MoaRawReqPacket → Turn M V
    unfolding run_decoded fail
    run_method h m ctx req =
        let (first, rest) = bind_context m.param_types ctx in
        if length req.args == length rest
        then run_decoded h no_response m (decode_args rest req.args first)
        else fail h no_response code_serialization
            (msg_params_not_matched (length req.args) (length m.param_types))

    unfoldable pub counted :
        InvocationHandler M V
        → Service M V
        → Invokes M
        → MethodMeta V
        → MoaRawReqPacket
        → InvocationHandler M V
    counted h instance invokes m req = record h {
      instances =
          insert req.service_uri
            (record instance {
              invokes_per_client = some (count_invoke M req.source m.name invokes);
            })
            h.instances;
    }

    -- A nil map of the clients' calls is dereferenced.
    unfoldable pub call_method :
        InvocationHandler M V → Service M V → MethodMeta V → Props → MoaRawReqPacket → Turn M V
    unfolding run_method
    call_method h instance m ctx req = elim instance.invokes_per_client [
      | none ↦ record { handler = h; resp = no_response; crash = some nil_pointer }
      | some invokes ↦ run_method (counted h instance invokes m req) m ctx req
    ]

    -- The body of Invoke behind its deferred function.
    unfoldable pub dispatch : InvocationHandler M V → Props → MoaRawReqPacket → Turn M V
    unfolding fail
    dispatch h ctx req = elim (lookup req.service_uri h.instances) [
      | none ↦ fail h no_response code_service_not_found (msg_no_uri_found req.service_uri)
      | some instance ↦ elim (lookup (to_lower req.method) instance.methods) [
        | none ↦ fail h no_response code_method_not_found (msg_method_not_found req.method)
        | some m ↦ call_method h instance m ctx req
      ]
    ]

    -- The deferred function's recovery of a panic.
    unfoldable pub recovered : Turn M V → Turn M V
    unfolding fail
    recovered t = elim t.crash [
      | none ↦ t
      | some e ↦ fail t.handler t.resp code_invocation_target (msg_invocation_target e)
    ]

    -- The deferred function; `cost` is the time that the call took.
    unfoldable pub deferred : MoaRawReqPacket → ℕ → Option Span → Turn M V → Done M V
    deferred req cost span t =
        let t' = recovered t in
        record {
          handler = record t'.handler {
            moa_stat = observe_cost req.method cost t'.handler.moa_stat;
          };
          sent = if on_time req cost then some t'.resp else none;
          span =
              Option.map
                (λ s. (if on_time req cost then trace_resp R t'.resp s else s) ++ finish ∷ []) span;
        }

    unfoldable pub handle :
        InvocationHandler M V → Props → MoaRawReqPacket → ℕ → Option Span → Done M V
    unfolding deferred
    handle h ctx req cost span =
        deferred req cost span (dispatch (record h { moa_stat = incr_recv h.moa_stat }) ctx req)

    unfoldable pub invoke :
        Tracer → Store → InvocationHandler M V → Props → MoaRawReqPacket → ℕ → Result M V
    unfolding handle
    invoke T store h ctx req cost = elim (begin_trace R T store ctx req) [
      | begin_panic ↦ escaped
      | begun store' ctx' span ↦ finished store' (handle h ctx' req cost span)
    ]
