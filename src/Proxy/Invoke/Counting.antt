-- ===== src/Proxy/Invoke/Counting.antt =====
-- The counts of calls for each client in proxy.go.
use go_moa.Base.{
  ℕ, ◌+◌, Bool, false, not, ◌≡◌, ◌≢◌, refl, Text, Option, none, some, List, [], ◌∷◌, inl, inr, ◌&&◌,
  ◌==◌, length, if◌then◌else◌, Assoc, lookup, insert, lookup-insert, text_eq, text_eq_iff, to_lower,
  arith, Option-cases, Bool-cases,
}
use go_moa.Context.{Props}
use go_moa.Protocol.{
  code_server_succ, code_serialization_server, msg_serialization, MoaRawReqPacket, MoaRespPacket,
}
use mathlib.Core.Option
use go_moa.Stat.{Meters, incr_recv}
use go_moa.Proxy.Trace.{Span}
use go_moa.Proxy.{Reflect, MethodMeta, Invokes, Service, InvocationHandler}
use go_moa.Proxy.Invoke.{
  Turn, Decoding, params, bad_arg, Invoked, invoked, crashed, Message, says, panics, second_error,
  processed, fail, answer, call_decoded, run_decoded, run_method, counted, call_method,
  count_invoke, dispatch, recovered, deferred, handle, invoke_method, bind_context, no_response,
}

-- turbo.Flow as documented: `Count` is the sum of what was added.
pub record CountsAll (M : Meters) : Type 0 where
  pub count-new : M.count M.new_flow ≡ 0
  pub count-incr : (n : ℕ) (f : M.Flow) → M.count (M.incr n f) ≡ M.count f + n

module _ (M : Meters) where
  count_at : Option M.Flow → ℕ
  count_at none = 0
  count_at (some f) = M.count f

  -- What ListInvokes shows for a client and a method; nothing there is no call.
  unfoldable pub calls_of : Option (Assoc M.Flow) → Text → ℕ
  unfolding count_at
  calls_of none name = 0
  calls_of (some flow) name = count_at (lookup name flow)

  unfoldable pub calls_in : Invokes M → Text → Text → ℕ
  unfolding calls_of
  calls_in invokes source name = calls_of (lookup source invokes) name

  module _ (c : CountsAll M) where
    open c use {count-new, count-incr}

    -- One more call of a method in the flows of a client, or in none.
    calls_of-insert :
        (name name' : Text) (flow : Assoc M.Flow) (f : M.Flow)
        → M.count f ≡ calls_of (some flow) name
        → calls_of (some (insert name (M.incr 1 f) flow)) name'
          ≡ calls_of (some flow) name' + (if text_eq name name' then 1 else 0)
    unfolding calls_of
    calls_of-insert name name' flow f e =
        ground (
          arith,
          lookup-insert name name' (M.incr 1 f) flow,
          text_eq_iff name name',
          count-incr 1 f,
        )

    count-exist :
        (o : Option M.Flow)
        → M.count (elim o [ none ↦ M.new_flow | some exist ↦ exist ]) ≡ count_at o
    unfolding count_at
    count-exist none = count-new
    count-exist (some f) = refl

    pub calls_in-count_invoke :
        (source name source' name' : Text) (invokes : Invokes M)
        → calls_in (count_invoke M source name invokes) source' name'
          ≡ calls_in invokes source' name'
            + (if text_eq source source' && text_eq name name' then 1 else 0)
    unfolding calls_in count_invoke
    calls_in-count_invoke source name source' name' invokes =
        elim (Bool-cases (text_eq source source')) [
          | inr k ↦ rw (lookup-insert source source' _ invokes, k) (omega arith)
          | inl k ↦
              let same : source ≡ source' = (text_eq_iff source source').0 k in
              rw (lookup-insert source source' _ invokes, k, ← same) (known (lookup source invokes))
        ]
      where
        flow_of : Option (Assoc M.Flow) → Assoc M.Flow
        flow_of f = elim f [ none ↦ [] | some exist ↦ exist ]

        known :
            (f : Option (Assoc M.Flow))
            → calls_of
                (some (
                  insert name
                    (M.incr 1
                      (elim (lookup name (flow_of f)) [ none ↦ M.new_flow | some exist ↦ exist ]))
                    (flow_of f)))
                name'
              ≡ calls_of f name' + (if text_eq name name' then 1 else 0)
        known none = unfold lookup in calls_of-insert name name' [] M.new_flow count-new
        known (some f) = calls_of-insert name name' f _ (count-exist (lookup name f))

  -- The calls of a service that a handler has counted.
  unfoldable pub calls_for : {V : Type 0} → Option (Service M V) → Text → Text → ℕ
  calls_for none source name = 0
  calls_for (some s) source name = elim s.invokes_per_client [
    | none ↦ 0
    | some invokes ↦ calls_in invokes source name
  ]

  unfoldable pub calls : {V : Type 0} → Assoc (Service M V) → Text → Text → Text → ℕ
  calls instances uri source name = calls_for (lookup uri instances) source name

abbrev pub one_if : Bool → ℕ
one_if b = if b then 1 else 0

abbrev pub is_call_of : Text → Option Text → Bool
is_call_of name none = false
is_call_of name (some method) = text_eq method name

module _ {V : Type 0} (R : Reflect V) {M : Meters} where
  recovered-instances : (t : Turn M V) → (recovered R t).handler.instances ≡ t.handler.instances
  unfolding recovered fail
  recovered-instances t = elim (Option-cases t.crash) [
    | inl e ↦ rw (e, recovered)
    | inr (x, e) ↦ rw (e, recovered)
  ]

  processed-instances :
      (h : InvocationHandler M V) (resp : MoaRespPacket V) (r : V) (m : Message)
      → (processed R h resp r m).handler.instances ≡ h.instances
  unfolding processed
  processed-instances h resp r (says message) = refl
  processed-instances h resp r (panics e) = refl

  answer-instances :
      (h : InvocationHandler M V) (resp : MoaRespPacket V) (i : Invoked V)
      → (answer R h resp i).handler.instances ≡ h.instances
  unfolding answer fail
  answer-instances h resp (crashed e) = refl
  answer-instances h resp (invoked (some e) values) = refl
  answer-instances h resp (invoked none (r ∷ rest)) =
      processed-instances h resp r (second_error R rest resp.message)
  answer-instances h resp (invoked none []) = refl

  call_decoded-instances :
      (h : InvocationHandler M V) (resp : MoaRespPacket V) (m : MethodMeta V) (args : List V)
      → (call_decoded R h resp m args).handler.instances ≡ h.instances
  unfolding call_decoded
  call_decoded-instances h resp m args =
      elim (Bool-cases (not (resp.err_code == 0) && not (resp.err_code == code_server_succ))) [
        | inl e ↦ rw e
        | inr e ↦ rw e (answer-instances h resp (invoke_method R m args))
      ]

  run_method-instances :
      (h : InvocationHandler M V) (m : MethodMeta V) (ctx : Props) (req : MoaRawReqPacket)
      → (run_method R h m ctx req).handler.instances ≡ h.instances
  unfolding run_method
  run_method-instances h m ctx req =
      elim (Bool-cases (length req.args == length (bind_context R m.param_types ctx).1)) [
        | inl e ↦ rw e (decoded _)
        | inr e ↦ rw e (unfold fail in refl)
      ]
    where
      decoded : (d : Decoding V) → (run_decoded R h no_response m d).handler.instances ≡ h.instances
      decoded (params args) = unfold run_decoded in call_decoded-instances h no_response m args
      decoded (bad_arg e) =
          unfold run_decoded in
          call_decoded-instances h
            (record no_response {
              err_code = code_serialization_server;
              message = msg_serialization e;
            })
            m []

  -- The name of the method that a request reaches, in any case of letters.
  unfoldable pub reached : InvocationHandler M V → MoaRawReqPacket → Option Text
  reached h req = elim (lookup req.service_uri h.instances) [
    | none ↦ none
    | some s ↦ Option.map (λ m. m.name) (lookup (to_lower req.method) s.methods)
  ]

  reached-cases :
      (h : InvocationHandler M V) (req : MoaRawReqPacket) {method : Text}
      → reached h req ≡ some method
      → (s : Service M V) × (m : MethodMeta V) × (lookup req.service_uri h.instances ≡ some s)
        × (lookup (to_lower req.method) s.methods ≡ some m)
        × (m.name ≡ method)
  unfolding reached
  reached-cases h req n = elim (Option-cases (lookup req.service_uri h.instances)) [
    | inl e ↦ absurd (ground arith)
    | inr (s, e) ↦ elim (Option-cases (lookup (to_lower req.method) s.methods)) [
      | inl k ↦ absurd (ground arith)
      | inr (m, k) ↦ (s, m, e, k, ground arith)
    ]
  ]

  dispatch_missed :
      (h : InvocationHandler M V) (ctx : Props) (req : MoaRawReqPacket)
      → reached h req ≡ none
      → (dispatch R h ctx req).handler.instances ≡ h.instances
  unfolding dispatch reached
  dispatch_missed h ctx req n = ground arith

  dispatch_reached :
      (h : InvocationHandler M V) (ctx : Props) (req : MoaRawReqPacket) (s : Service M V)
      (m : MethodMeta V) (i : Invokes M)
      → lookup req.service_uri h.instances ≡ some s
      → lookup (to_lower req.method) s.methods ≡ some m
      → s.invokes_per_client ≡ some i
      → (dispatch R h ctx req).handler.instances ≡ (counted R h s i m req).instances
  unfolding dispatch call_method counted
  dispatch_reached h ctx req s m i e k j =
      rw (e, k, j, dispatch, call_method) (run_method-instances (counted R h s i m req) m ctx req)

  -- The services whose methods can be reached have their map of calls.
  abbrev pub HasMaps : InvocationHandler M V → MoaRawReqPacket → Type 0
  HasMaps h req =
      (s : Service M V) → lookup req.service_uri h.instances ≡ some s → s.invokes_per_client ≢ none

  module _ (c : CountsAll M) where
    counted-calls :
        (h : InvocationHandler M V) (s : Service M V) (i : Invokes M) (m : MethodMeta V)
        (req : MoaRawReqPacket) (uri source name : Text)
        → lookup req.service_uri h.instances ≡ some s
        → s.invokes_per_client ≡ some i
        → calls M (counted R h s i m req).instances uri source name
          ≡ calls M h.instances uri source name
            + one_if
                (text_eq req.service_uri uri && (text_eq req.source source && text_eq m.name name))
    unfolding calls calls_for counted
    counted-calls h s i m req uri source name e k =
        elim (Bool-cases (text_eq req.service_uri uri)) [
          | inr q ↦ rw (lookup-insert req.service_uri uri _ h.instances, q) (omega arith)
          | inl q ↦
              let same : req.service_uri ≡ uri = (text_eq_iff req.service_uri uri).0 q in
              rw (lookup-insert req.service_uri uri _ h.instances, q, ← same, e, calls_for, k)
                (calls_in-count_invoke M c req.source m.name source name i)
        ]

    dispatch-calls :
        (h : InvocationHandler M V) (ctx : Props) (req : MoaRawReqPacket) (uri source name : Text)
        → HasMaps h req
        → calls M (dispatch R h ctx req).handler.instances uri source name
          ≡ calls M h.instances uri source name
            + one_if (
                text_eq req.service_uri uri
                && (text_eq req.source source && is_call_of name (reached h req)))
    dispatch-calls h ctx req uri source name ready = elim (Option-cases (reached h req)) [
      | inl n ↦ rw (dispatch_missed h ctx req n, n) (ground arith)
      | inr (method, n) ↦ hit method n (reached-cases h req n)
    ]
      where
        hit :
            (method : Text)
            → reached h req ≡ some method
            → ((s : Service M V) × (m : MethodMeta V) × (lookup req.service_uri h.instances
                  ≡ some s)
                × (lookup (to_lower req.method) s.methods ≡ some m)
                × (m.name ≡ method))
            → calls M (dispatch R h ctx req).handler.instances uri source name
              ≡ calls M h.instances uri source name
                + one_if (
                    text_eq req.service_uri uri
                    && (text_eq req.source source && is_call_of name (reached h req)))
        hit method n (s, m, e, k, l) = elim (Option-cases s.invokes_per_client) [
          | inl j ↦ absurd (ready s e j)
          | inr (i, j) ↦
              rw (dispatch_reached h ctx req s m i e k j, n, ← l)
                (counted-calls h s i m req uri source name e j)
        ]

    -- With flows that count, a call of Invoke adds one to the count of the service, the client and
    -- the method that it reaches, whether or not the method is then called and whatever it answers,
    -- and changes no other count; a call that reaches no method changes none.
    pub handle-calls :
        (h : InvocationHandler M V) (ctx : Props) (req : MoaRawReqPacket) (cost : ℕ)
        (span : Option Span) (uri source name : Text)
        → HasMaps h req
        → calls M (handle R h ctx req cost span).handler.instances uri source name
          ≡ calls M h.instances uri source name
            + one_if (
                text_eq req.service_uri uri
                && (text_eq req.source source && is_call_of name (reached h req)))
    unfolding handle deferred reached
    handle-calls h ctx req cost span uri source name ready = rw recovered-instances (
        unfold reached in
        dispatch-calls (record h { moa_stat = incr_recv h.moa_stat }) ctx req uri source name ready)
