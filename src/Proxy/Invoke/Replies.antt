-- ===== src/Proxy/Invoke/Replies.antt =====
-- What a method of a service answers through invoke and Invoke of proxy.go.
use go_moa.Base.{
  codes, ℕ, ◌≤◌, ◌≡◌, refl, Text, none, some, List, [], ◌∷◌, ◌++◌, ◌⊎◌, inl, inr, length, leb,
  arith, Bool-cases,
}
use go_moa.Protocol.{MoaRespPacket, code_server_succ, code_invocation_target, msg_invocation_target}
use go_moa.Stat.{Meters}
use go_moa.Proxy.{
  Called, returned, panicked, Reflect, NilTest, is_nil, not_nil, nil_panic, MethodMeta,
  InvocationHandler,
}
use go_moa.Proxy.Invoke.{
  fail, answer, recovered, invoke_result, no_response, second_error, invoked, processed, message_of,
  only_result, result_of,
}

module _ {V : Type 0} where
  abbrev pub reply : ℕ → Text → MoaRespPacket V
  reply code message = record no_response { err_code = code; message = message }

  -- The method returns as many values as its type says, and that is one at least.
  pub record IsHonest (m : MethodMeta V) : Type 0 where
    pub has_result : 1 ≤ length m.return_type
    pub as_typed :
        (args vs : List V) → m.method args ≡ returned vs → length vs ≡ length m.return_type

module _ {V : Type 0} (R : Reflect V) where
  -- The message of a successful response, from the results behind the first.
  abbrev pub Says : List V → Text → Type 0
  Says [] message = message ≡ []
  Says (e ∷ vs) message =
      ((R.test_nil e ≡ is_nil) × (message ≡ []))
      ⊎ ((R.test_nil e ≡ not_nil) × (message ≡ codes "Method Invoke Error " ++ R.show e))

  -- The first result is not taken for the error.
  abbrev pub IsResult : MethodMeta V → V → Type 0
  IsResult m v = (2 ≤ length m.return_type) ⊎ (R.test_nil v ≡ is_nil)

  -- What a method whose parameters were decoded answers.
  pub data Replies (m : MethodMeta V) (args : List V) (resp : MoaRespPacket V) : Type 0 where
    method_panic :
        (e : Text)
        → m.method args ≡ panicked e
        → resp ≡ reply code_invocation_target (msg_invocation_target e)
        → Replies m args resp
    method_error :
        (v : V) (vs : List V)
        → m.method args ≡ returned (v ∷ vs)
        → length m.return_type ≡ 1
        → R.test_nil v ≡ not_nil
        → resp ≡ reply code_invocation_target (msg_invocation_target (R.show v))
        → Replies m args resp
    -- The only result is of a type of errors that has no nil.
    error_without_nil :
        (v : V) (vs : List V) (e : Text)
        → m.method args ≡ returned (v ∷ vs)
        → length m.return_type ≡ 1
        → R.test_nil v ≡ nil_panic e
        → resp ≡ reply code_invocation_target (msg_invocation_target e)
        → Replies m args resp
    method_result :
        (v : V) (vs : List V) (message : Text)
        → m.method args ≡ returned (v ∷ vs)
        → IsResult m v
        → Says vs message
        → resp ≡ record (reply code_server_succ message) { result = some v }
        → Replies m args resp
    -- The second result is of a type of errors that has no nil.
    second_without_nil :
        (v w : V) (vs : List V) (e : Text)
        → m.method args ≡ returned (v ∷ w ∷ vs)
        → IsResult m v
        → R.test_nil w ≡ nil_panic e
        → resp ≡ record (reply code_invocation_target (msg_invocation_target e)) { result = some v }
        → Replies m args resp

  pub NilTest-cases :
      (n : NilTest) → (n ≡ is_nil) ⊎ ((n ≡ not_nil) ⊎ ((e : Text) × (n ≡ nil_panic e)))
  NilTest-cases is_nil = inl refl
  NilTest-cases not_nil = inr (inl refl)
  NilTest-cases (nil_panic e) = inr (inr (e, refl))

  result-Replies :
      {M : Meters} (h : InvocationHandler M V) (m : MethodMeta V) (args : List V) (v : V)
      (vs : List V)
      → m.method args ≡ returned (v ∷ vs)
      → IsResult m v
      → Replies m args (recovered R (answer R h no_response (invoked none (v ∷ vs)))).resp
  unfolding answer processed second_error recovered fail message_of
  result-Replies h m args v [] k r = method_result v [] [] k r refl refl
  result-Replies h m args v (w ∷ vs) k r = elim (NilTest-cases (R.test_nil w)) [
    | inl n ↦ rw n (method_result v (w ∷ vs) [] k r (inl (n, refl)) refl)
    | inr (inl n) ↦ rw n (method_result v (w ∷ vs) _ k r (inr (n, refl)) refl)
    | inr (inr (e, n)) ↦ rw n (second_without_nil v w vs e k r n refl)
  ]

  pub invoke_result-Replies :
      {M : Meters} (h : InvocationHandler M V) (m : MethodMeta V) (args : List V) (c : Called V)
      → IsHonest m
      → m.method args ≡ c
      → Replies m args (recovered R (answer R h no_response (invoke_result R m c))).resp
  unfolding invoke_result only_result result_of
  invoke_result-Replies h m args (panicked e) w k =
      method_panic e k (unfold answer fail recovered in refl)
  invoke_result-Replies h m args (returned []) w k =
      absurd (omega (arith, w.as_typed args [] k, w.has_result))
  invoke_result-Replies h m args (returned (v ∷ vs)) w k =
      elim (Bool-cases (leb (length m.return_type) 1)) [
        | inr two ↦ rw two (result-Replies h m args v vs k (inl (ground (arith, two))))
        | inl one ↦
            let single : length m.return_type ≡ 1 = ground (arith, one, w.has_result) in
            rw one (elim (NilTest-cases (R.test_nil v)) [
              | inl n ↦ rw n (result-Replies h m args v vs k (inr n))
              | inr (inl n) ↦
                  rw n (method_error v vs k single n (unfold answer fail recovered in refl))
              | inr (inr (e, n)) ↦
                  rw n (error_without_nil v vs e k single n (unfold answer fail recovered in refl))
            ])
      ]
