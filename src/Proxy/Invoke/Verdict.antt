-- ===== src/Proxy/Invoke/Verdict.antt =====
-- Which response Invoke of proxy.go gives to which call.
use go_moa.Base.{
  ℕ, true, ◌≡◌, ◌≢◌, refl, sym, ◌∙◌, ap, Text, Option, none, some, List, [], ◌∷◌, ◌++◌, ◌⊎◌, inl,
  inr, ◌==◌, length, if◌then◌else◌, lookup, to_lower, arith, Option-cases, Bool-cases, ==_iff,
  append_assoc, append-nil,
}
use go_moa.Context.{Props}
use go_moa.Protocol.{
  MoaRawReqPacket, MoaRespPacket, code_serialization, code_service_not_found, code_method_not_found,
  code_serialization_server, msg_no_uri_found, msg_method_not_found, msg_params_not_matched,
  msg_serialization,
}
use go_moa.Stat.{Meters, MoaStat, incr_recv}
use go_moa.Proxy.Trace.{Span}
use go_moa.Proxy.{
  Decoded, decoded, failed, ParamType, Reflect, MethodMeta, Service, InvocationHandler,
}
use go_moa.Proxy.Invoke.Replies.{reply, IsHonest, Replies, invoke_result-Replies}
use go_moa.Proxy.Invoke.{
  Turn, Decoding, params, bad_arg, on_time, fail, call_decoded, run_decoded, run_method, counted,
  call_method, dispatch, recovered, deferred, handle, invoke_method, bind_context, decode_args,
  no_response,
}

module _ {V : Type 0} where
  -- Every argument decodes at its parameter's type.
  abbrev pub Decodes : List (ParamType V) → List Text → List V → Type 0
  Decodes [] [] [] = Unit
  Decodes (p ∷ ps) (arg ∷ args) (v ∷ vs) = (p.unmarshal arg ≡ decoded v) × Decodes ps args vs
  Decodes _ _ _ = ⊥

  -- `e` is the error of the first argument that does not decode.
  abbrev pub FirstFailure : List (ParamType V) → List Text → Text → Type 0
  FirstFailure (p ∷ ps) (arg ∷ args) e =
      (p.unmarshal arg ≡ failed e)
      ⊎ ((v : V) × (p.unmarshal arg ≡ decoded v) × FirstFailure ps args e)
  FirstFailure _ _ e = ⊥

module _ {V : Type 0} (R : Reflect V) where
  abbrev TakesContext : List (ParamType V) → Type 0
  TakesContext [] = ⊥
  TakesContext (p ∷ ps) = p.implements_context ≡ true

  -- The parameters that stand in front of the decoded ones, and the types of those.
  pub data Binds (ctx : Props) (ps : List (ParamType V)) (front : List V)
      (rest : List (ParamType V)) : Type 0 where
    with_context :
        (p : ParamType V)
        → ps ≡ p ∷ rest
        → p.implements_context ≡ true
        → front ≡ R.of_context ctx ∷ []
        → Binds ctx ps front rest
    without_context : ¬ TakesContext ps → front ≡ [] → rest ≡ ps → Binds ctx ps front rest

  bind_context-Binds :
      (ctx : Props) (ps : List (ParamType V))
      → Binds ctx ps (bind_context R ps ctx).0 (bind_context R ps ctx).1
  unfolding bind_context
  bind_context-Binds ctx [] = without_context (λ x. x) refl refl
  bind_context-Binds ctx (p ∷ ps) = elim (Bool-cases p.implements_context) [
    | inl e ↦ simp e (with_context p refl e refl)
    | inr e ↦ simp e (without_context (λ x. cc) refl refl)
  ]

  Decoded-cases : (d : Decoded V) → ((v : V) × (d ≡ decoded v)) ⊎ ((e : Text) × (d ≡ failed e))
  Decoded-cases (decoded v) = inl (v, refl)
  Decoded-cases (failed e) = inr (e, refl)

  -- What the loop over the arguments makes of them, behind the parameters that are there already.
  abbrev Loops : List (ParamType V) → List Text → List V → Decoding V → Type 0
  Loops ps args out d =
      ((vs : List V) × Decodes ps args vs × (d ≡ params (out ++ vs)))
      ⊎ ((e : Text) × FirstFailure ps args e × (d ≡ bad_arg e))

  decode_args-Loops :
      (ps : List (ParamType V)) (args : List Text) (out : List V)
      → length args ≡ length ps
      → Loops ps args out (decode_args R ps args out)
  unfolding decode_args
  decode_args-Loops [] [] out n = inl ([], tt, ap params (sym (append-nil out)))
  decode_args-Loops [] (arg ∷ args) out n = absurd (omega arith)
  decode_args-Loops (p ∷ ps) [] out n = absurd (omega arith)
  decode_args-Loops (p ∷ ps) (arg ∷ args) out n = elim (Decoded-cases (p.unmarshal arg)) [
    | inr (e, k) ↦ inr (e, inl k, rw (k, decode_args))
    | inl (v, k) ↦ longer v k (decode_args-Loops ps args (out ++ v ∷ []) (omega arith))
  ]
    where
      read :
          (v : V)
          → p.unmarshal arg ≡ decoded v
          → decode_args R (p ∷ ps) (arg ∷ args) out ≡ decode_args R ps args (out ++ v ∷ [])
      read v k = rw (k, decode_args)

      longer :
          (v : V)
          → p.unmarshal arg ≡ decoded v
          → Loops ps args (out ++ v ∷ []) (decode_args R ps args (out ++ v ∷ []))
          → Loops (p ∷ ps) (arg ∷ args) out (decode_args R (p ∷ ps) (arg ∷ args) out)
      longer v k (inl (vs, ds, e)) =
          inl (v ∷ vs, (k, ds), read v k ∙ e ∙ ap params (append_assoc out (v ∷ []) vs))
      longer v k (inr (e, f, e')) = inr (e, inr (v, k, f), read v k ∙ e')

  module _ {M : Meters} (h : InvocationHandler M V) (ctx : Props) (req : MoaRawReqPacket) where
    abbrev rest_types : MethodMeta V → List (ParamType V)
    rest_types m = (bind_context R m.param_types ctx).1

    abbrev first_params : MethodMeta V → List V
    first_params m = (bind_context R m.param_types ctx).0

    -- The request names this service and, in any case of letters, this method of it.
    abbrev pub Names : Service M V → MethodMeta V → Type 0
    Names s m =
        (lookup req.service_uri h.instances ≡ some s)
        × (lookup (to_lower req.method) s.methods ≡ some m)

    pub data Verdict (resp : MoaRespPacket V) : Type 0 where
      service_not_found :
          lookup req.service_uri h.instances ≡ none
          → resp ≡ reply code_service_not_found (msg_no_uri_found req.service_uri)
          → Verdict resp
      method_not_found :
          (s : Service M V)
          → lookup req.service_uri h.instances ≡ some s
          → lookup (to_lower req.method) s.methods ≡ none
          → resp ≡ reply code_method_not_found (msg_method_not_found req.method)
          → Verdict resp
      params_not_matched :
          (s : Service M V) (m : MethodMeta V) (front : List V) (rest : List (ParamType V))
          → Names s m
          → Binds ctx m.param_types front rest
          → length req.args ≢ length rest
          → resp
            ≡ reply code_serialization
                (msg_params_not_matched (length req.args) (length m.param_types))
          → Verdict resp
      bad_argument :
          (s : Service M V) (m : MethodMeta V) (front : List V) (rest : List (ParamType V))
          (e : Text)
          → Names s m
          → Binds ctx m.param_types front rest
          → length req.args ≡ length rest
          → FirstFailure rest req.args e
          → resp ≡ reply code_serialization_server (msg_serialization e)
          → Verdict resp
      called :
          (s : Service M V) (m : MethodMeta V) (front : List V) (rest : List (ParamType V))
          (vs : List V)
          → Names s m
          → Binds ctx m.param_types front rest
          → Decodes rest req.args vs
          → Replies R m (front ++ vs) resp
          → Verdict resp

    -- The services are set up, and their methods honest.
    abbrev pub IsReady : Type 0
    IsReady =
        (s : Service M V) (m : MethodMeta V)
        → Names s m
        → (s.invokes_per_client ≢ none) × IsHonest m

    abbrev response : Turn M V → MoaRespPacket V
    response t = (recovered R t).resp

    run_decoded-Verdict :
        (k : InvocationHandler M V) (s : Service M V) (m : MethodMeta V)
        → Names s m
        → IsHonest m
        → length req.args ≡ length (rest_types m)
        → (d : Decoding V) → Loops (rest_types m) req.args (first_params m) d
        → Verdict (response (run_decoded R k no_response m d))
    run_decoded-Verdict k s m n w l d (inl (vs, ds, e)) =
        called s m (first_params m) (rest_types m) vs n (bind_context-Binds ctx m.param_types) ds (
          rw e (
            unfold run_decoded call_decoded invoke_method in
            invoke_result-Replies R k m (first_params m ++ vs) _ w refl))
    run_decoded-Verdict k s m n w l d (inr (e, f, k')) =
        bad_argument s m (first_params m) (rest_types m) e n (bind_context-Binds ctx m.param_types)
          l f (rw k' (unfold run_decoded call_decoded recovered in refl))

    run_method-Verdict :
        (k : InvocationHandler M V) (s : Service M V) (m : MethodMeta V)
        → Names s m
        → IsHonest m
        → Verdict (response (run_method R k m ctx req))
    unfolding run_method
    run_method-Verdict k s m n w = elim (Bool-cases (length req.args == length (rest_types m))) [
      | inl e ↦
          let l : length req.args ≡ length (rest_types m) = (==_iff _ _).0 e in
          rw e (
            run_decoded-Verdict k s m n w l (decode_args R (rest_types m) req.args (first_params m))
              (decode_args-Loops (rest_types m) req.args (first_params m) l))
      | inr e ↦ rw e (
          params_not_matched s m (first_params m) (rest_types m) n
            (bind_context-Binds ctx m.param_types) (ground arith) (unfold fail recovered in refl))
    ]

    dispatch-Verdict :
        (stat : MoaStat M)
        → IsReady
        → Verdict (response (dispatch R (record h { moa_stat = stat }) ctx req))
    unfolding dispatch call_method
    dispatch-Verdict stat ready = elim (Option-cases (lookup req.service_uri h.instances)) [
      | inl e ↦ service_not_found e (rw (e, dispatch) (unfold fail recovered in refl))
      | inr (s, e) ↦ elim (Option-cases (lookup (to_lower req.method) s.methods)) [
        | inl k ↦ method_not_found s e k (rw (e, k, dispatch) (unfold fail recovered in refl))
        | inr (m, k) ↦ rw (e, k, dispatch) (method s m (e, k))
      ]
    ]
      where
        method :
            (s : Service M V) (m : MethodMeta V)
            → Names s m
            → Verdict (response (call_method R (record h { moa_stat = stat }) s m ctx req))
        method s m n = elim (Option-cases s.invokes_per_client) [
          | inl e ↦ absurd ((ready s m n).0 e)
          | inr (i, e) ↦
              rw (e, call_method)
                (run_method-Verdict (counted R (record h { moa_stat = stat }) s i m req) s m n
                  (ready s m n).1)
        ]

    -- Where the services are set up and their methods return as many values as their types say, the
    -- response that Invoke sends, if the call is on time, is the one that the verdict determines:
    -- 501 without the service, 502 without the method, 302 for a wrong number of arguments, 3021
    -- with the error of the first argument that does not decode, and otherwise what the method
    -- called with the decoded arguments (behind the context, if its first parameter is one)
    -- replies: 503 for a panic, for the error that is its only result, and for an error of a type
    -- without nil, whose test panics; 200 with its first result else, and the text of its second
    -- result, if that is an error that is not nil.
    pub handle-Verdict :
        (cost : ℕ) (span : Option Span)
        → IsReady
        → (resp : MoaRespPacket V) × Verdict resp
          × ((handle R h ctx req cost span).sent ≡ (if on_time req cost then some resp else none))
    unfolding handle deferred
    handle-Verdict cost span ready = (_, dispatch-Verdict (incr_recv h.moa_stat) ready, refl)
