-- ===== src/Proxy/Build/SetUp.antt =====
-- What NewInvocationHandler of proxy.go guarantees of the services that it sets up.
use go_moa.Base.{
  ◌≡◌, ◌≢◌, refl, sym, ◌∙◌, subst, inl, inr, Text, none, some, List, [], ◌∷◌, length, All, Assoc,
  lookup, insert, lookup-insert, to_lower, text_eq, text_eq_iff, arith, Bool-cases,
}
use go_moa.Context.{Props}
use go_moa.Protocol.{MoaRawReqPacket}
use go_moa.Stat.{Meters, MoaStat}
use go_moa.Proxy.{MethodDecl, MethodMeta, Called, returned, Reflect, Service, InvocationHandler}
use go_moa.Proxy.Build.{
  Built, built, refused, ◌>>=◌, method_meta, add_method, add_methods, check_implements,
  init_service, init_services, new_invocation_handler,
}
use go_moa.Proxy.Build.Checked.{HasErrorLast}
use go_moa.Proxy.Invoke.Replies.{IsHonest}
use go_moa.Proxy.Invoke.Verdict.{IsReady}

pub bind_inv :
    {A B : Type 0} (m : Built A) (f : A → Built B) {b : B}
    → (m >>= f) ≡ built b
    → (a : A) × (m ≡ built a) × (f a ≡ built b)
bind_inv (built a) f h = (a, refl, h)
bind_inv (refused r) f h = cc

-- The instance's method returns as many values as the interface declares.
abbrev pub ReturnsAll : {V : Type 0} → (Text → List V → Called V) → MethodDecl V → Type 0
ReturnsAll {V} method_by_name m =
    (args vs : List V) → method_by_name m.name args ≡ returned vs → length vs ≡ length m.outs

module _ {M : Meters} {V : Type 0} where
  abbrev pub IsTyped : Service M V → Type 0
  IsTyped s = All (ReturnsAll s.method_by_name) s.interface_methods

  -- Every method of the service stands under its lower-case name and is honest, and where there is
  -- one, there is a map for the clients' calls.
  abbrev pub IsSetUp : Service M V → Type 0
  IsSetUp s =
      (name : Text) (m : MethodMeta V)
      → lookup name s.methods ≡ some m
      → (to_lower m.name ≡ name) × IsHonest m × (s.invokes_per_client ≢ none)

  pub add_method_inv :
      (m : MethodDecl V) (s s' : Service M V)
      → add_method m s ≡ built s'
      → HasErrorLast m
        × (s' ≡ record s {
          methods = insert (to_lower m.name) (method_meta m s) s.methods;
          invokes_per_client = some [];
        })
  unfolding add_method
  add_method_inv m s s' e = ground arith

  added-IsSetUp :
      (m : MethodDecl V) (s : Service M V)
      → HasErrorLast m
      → ReturnsAll s.method_by_name m
      → IsSetUp s
      → IsSetUp (record s {
        methods = insert (to_lower m.name) (method_meta m s) s.methods;
        invokes_per_client = some [];
      })
  added-IsSetUp m s ok typed inv name m' e = elim (Bool-cases (text_eq (to_lower m.name) name)) [
    | inl k ↦
        let this : m' ≡ method_meta m s =
          cc (e, lookup-insert (to_lower m.name) name (method_meta m s) s.methods, k) in
        (
          cc (this, (text_eq_iff (to_lower m.name) name).0 k),
          subst IsHonest (sym this) (record { has_result = ok.0; as_typed = typed }),
          λ n. cc,
        )
    | inr k ↦
        let old =
          inv name m'
            (sym (lookup-insert (to_lower m.name) name (method_meta m s) s.methods ∙ rw k) ∙ e) in
        (old.0, old.1, λ n. cc)
  ]

  add_methods-IsSetUp :
      (ms : List (MethodDecl V)) (s s' : Service M V)
      → add_methods ms s ≡ built s'
      → All (ReturnsAll s.method_by_name) ms
      → IsSetUp s
      → IsSetUp s'
  unfolding add_methods
  add_methods-IsSetUp [] s s' e typed inv = let same : s ≡ s' = cc in subst IsSetUp same inv
  add_methods-IsSetUp (m ∷ ms) s s' e typed inv =
      let (s₁, e₁, e₂) = bind_inv (add_method m s) (add_methods ms) e in
      let (ok, same) = add_method_inv m s s₁ e₁ in
      add_methods-IsSetUp ms s₁ s' e₂
        (subst (λ x. All (ReturnsAll x.method_by_name) ms) (sym same) typed.1)
        (subst IsSetUp (sym same) (added-IsSetUp m s ok typed.0 inv))

  init_service-IsSetUp : (s s' : Service M V) → init_service s ≡ built s' → IsTyped s → IsSetUp s'
  unfolding init_service lookup
  init_service-IsSetUp s s' e typed =
      let (_, _, e₁) = bind_inv (check_implements s) _ e in
      add_methods-IsSetUp s.interface_methods (record s { methods = [] }) s' e₁ typed
        (λ name m h. cc)

  -- Every service of a map of instances is set up.
  abbrev pub AllSetUp : Assoc (Service M V) → Type 0
  AllSetUp instances = (uri : Text) (s : Service M V) → lookup uri instances ≡ some s → IsSetUp s

  init_services-AllSetUp :
      (services : List (Service M V)) (instances instances' : Assoc (Service M V))
      → init_services services instances ≡ built instances'
      → All IsTyped services
      → AllSetUp instances
      → AllSetUp instances'
  unfolding init_services
  init_services-AllSetUp [] instances instances' e typed inv =
      let same : instances ≡ instances' = cc in subst AllSetUp same inv
  init_services-AllSetUp (s ∷ services) instances instances' e typed inv =
      let (s', e₁, e₂) = bind_inv (init_service s) _ e in
      init_services-AllSetUp services (insert s'.service_uri s' instances) instances' e₂ typed.1
        (added s' (init_service-IsSetUp s s' e₁ typed.0))
    where
      added : (s' : Service M V) → IsSetUp s' → AllSetUp (insert s'.service_uri s' instances)
      added s' new uri t h = elim (Bool-cases (text_eq s'.service_uri uri)) [
        | inl k ↦
            let same : s' ≡ t = cc (h, lookup-insert s'.service_uri uri s' instances, k) in
            subst IsSetUp same new
        | inr k ↦ inv uri t (cc (h, lookup-insert s'.service_uri uri s' instances, k))
      ]

  -- Whatever services a handler is built of, if their instances' methods return as many values as
  -- the interfaces declare, then every method of every service that it holds stands under its
  -- lower-case name, has at least one result and returns as many as its type says, and its service
  -- has the map for the clients' calls: every call meets the conditions of the verdict.
  pub new_invocation_handler-IsReady :
      (R : Reflect V) (services : List (Service M V)) (moa_stat : MoaStat M)
      (h : InvocationHandler M V) (ctx : Props) (req : MoaRawReqPacket)
      → new_invocation_handler services moa_stat ≡ built h
      → All IsTyped services
      → AllSetUp h.instances × IsReady R h ctx req
  unfolding new_invocation_handler lookup
  new_invocation_handler-IsReady R services moa_stat h ctx req e typed =
      let (instances, e₁, e₂) = bind_inv (init_services services []) _ e in
      let ready : AllSetUp h.instances =
        subst AllSetUp (cc e₂)
          (init_services-AllSetUp services [] instances e₁ typed (λ uri s k. cc)) in
      (ready, λ s m n. let (_, honest, maps) = ready _ s n.0 _ m n.1 in (maps, honest))
