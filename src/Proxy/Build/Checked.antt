-- ===== src/Proxy/Build/Checked.antt =====
-- Which services NewInvocationHandler of proxy.go accepts, and what it builds of them.
use go_moa.Base.{
  ◌≤◌, true, Text, ◌≡◌, refl, sym, subst, ◌↔◌, List, [], ◌∷◌, length, All, Assoc, insert, arith,
}
use go_moa.Stat.{Meters, MoaStat}
use go_moa.Proxy.{
  Conformance, nil_interface, no_elements, nil_instance, not_interface, not_implementing,
  implementing, MethodDecl, Service, InvocationHandler,
}
use go_moa.Proxy.Build.{
  Built, built, refused, ◌>>=◌, last_is_error, add_method, add_methods, check_conformance,
  check_implements, init_service, init_services, new_invocation_handler,
}

abbrev IsBuilt {ℓ} : {A : Type ℓ} → Built A → Type 0
IsBuilt (built a) = Unit
IsBuilt (refused r) = ⊥

bind-IsBuilt :
    {A B P Q : Type 0} (m : Built A) (f : A → Built B)
    → IsBuilt m ↔ P
    → ((a : A) → IsBuilt (f a) ↔ Q)
    → IsBuilt (m >>= f) ↔ (P × Q)
bind-IsBuilt (built a) f p q = (λ h. (p.0 tt, (q a).0 h), λ k. (q a).1 k.1)
bind-IsBuilt (refused r) f p q = (λ h. absurd h, λ k. p.1 k.0)

built_value : {A : Type 0} (m : Built A) → IsBuilt m → (a : A) × (m ≡ built a)
built_value (built a) h = (a, refl)
built_value (refused r) h = absurd h

check_conformance-IsBuilt :
    (uri : Text) (c : Conformance) → IsBuilt (check_conformance uri c) ↔ (c ≡ implementing)
unfolding check_conformance
check_conformance-IsBuilt uri nil_interface = (λ h. absurd h, λ k. cc)
check_conformance-IsBuilt uri no_elements = (λ h. absurd h, λ k. cc)
check_conformance-IsBuilt uri nil_instance = (λ h. absurd h, λ k. cc)
check_conformance-IsBuilt uri not_interface = (λ h. absurd h, λ k. cc)
check_conformance-IsBuilt uri not_implementing = (λ h. absurd h, λ k. cc)
check_conformance-IsBuilt uri implementing = (λ h. refl, λ k. tt)

module _ {V : Type 0} where
  -- One or two results, the last an error.
  abbrev pub HasErrorLast : MethodDecl V → Type 0
  HasErrorLast m = (1 ≤ length m.outs) × (length m.outs ≤ 2) × (last_is_error m.outs ≡ true)

module _ {M : Meters} {V : Type 0} where
  abbrev pub IsAcceptable : Service M V → Type 0
  IsAcceptable s = (s.conformance ≡ implementing) × All HasErrorLast s.interface_methods

  add_method-IsBuilt :
      (m : MethodDecl V) (s : Service M V) → IsBuilt (add_method m s) ↔ HasErrorLast m
  unfolding add_method
  add_method-IsBuilt m s = ground arith

  add_methods-IsBuilt :
      (ms : List (MethodDecl V)) (s : Service M V)
      → IsBuilt (add_methods ms s) ↔ All HasErrorLast ms
  unfolding add_methods
  add_methods-IsBuilt [] s = (λ _. tt, λ _. tt)
  add_methods-IsBuilt (m ∷ ms) s =
      bind-IsBuilt (add_method m s) (add_methods ms) (add_method-IsBuilt m s)
        (add_methods-IsBuilt ms)

  check_implements-IsBuilt :
      (s : Service M V) → IsBuilt (check_implements s) ↔ (s.conformance ≡ implementing)
  unfolding check_implements
  check_implements-IsBuilt s = check_conformance-IsBuilt s.service_uri s.conformance

  init_service-IsBuilt : (s : Service M V) → IsBuilt (init_service s) ↔ IsAcceptable s
  unfolding init_service
  init_service-IsBuilt s =
      bind-IsBuilt (check_implements s) _ (check_implements-IsBuilt s)
        (λ _. add_methods-IsBuilt s.interface_methods (record s { methods = [] }))

  init_services-IsBuilt :
      (services : List (Service M V)) (instances : Assoc (Service M V))
      → IsBuilt (init_services services instances) ↔ All IsAcceptable services
  unfolding init_services
  init_services-IsBuilt [] instances = (λ _. tt, λ _. tt)
  init_services-IsBuilt (s ∷ services) instances =
      bind-IsBuilt (init_service s) _ (init_service-IsBuilt s)
        (λ s'. init_services-IsBuilt services (insert s'.service_uri s' instances))

  -- The handler is built, with no panic, exactly when every service has a pointer to an interface as
  -- its interface and an instance, not nil, that implements it, and every method of the interface has
  -- one or two results of which the last is an error.
  pub new_invocation_handler-built :
      (services : List (Service M V)) (moa_stat : MoaStat M)
      → ((h : InvocationHandler M V) × (new_invocation_handler services moa_stat ≡ built h))
        ↔ All IsAcceptable services
  unfolding new_invocation_handler
  new_invocation_handler-built services moa_stat =
      (λ (h, e). (whole.0 (subst IsBuilt (sym e) tt)).0, λ a. built_value _ (whole.1 (a, tt)))
    where
      whole :
          IsBuilt (new_invocation_handler services moa_stat)
          ↔ (All IsAcceptable services × Unit {0})
      whole =
          bind-IsBuilt (init_services services []) _ (init_services-IsBuilt services [])
            (λ _. ((λ _. tt), (λ _. tt)))
