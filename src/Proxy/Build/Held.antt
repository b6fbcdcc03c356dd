-- ===== src/Proxy/Build/Held.antt =====
-- What the handler that NewInvocationHandler of proxy.go builds holds for each of its services.
use go_moa.Base.{
  ◌≡◌, ◌≢◌, ◌↔◌, refl, sym, ap, ◌∙◌, subst, Text, Option, none, some, List, [], ◌∷◌, All, Assoc,
  lookup, insert, lookup-insert, lookup-insert_self, text_eq, inl, inr, Bool-cases,
}
use go_moa.Stat.{Meters, MoaStat}
use go_moa.Proxy.{MethodDecl, Service, InvocationHandler}
use go_moa.Proxy.Build.{
  built, add_method, add_methods, check_implements, init_service, init_services,
  new_invocation_handler,
}
use go_moa.Proxy.Build.SetUp.{bind_inv, add_method_inv}

-- The map of calls of a service with these methods.
abbrev pub map_for : {A B : Type 0} → List A → Option (List B) → Option (List B)
map_for [] old = old
map_for (m ∷ ms) old = some []

map_for_again : {A B : Type 0} (ms : List A) → map_for {B = B} ms (some []) ≡ some []
map_for_again [] = refl
map_for_again (m ∷ ms) = refl

All-insert :
    {A : Type 0} (P : Text × A → Type 0) (k : Text) (v : A) (m : Assoc A)
    → All P m
    → P (k, v)
    → All P (insert k v m)
unfolding insert
All-insert P k v [] h n = (n, tt)
All-insert P k v ((j, w) ∷ m) h n = elim (Bool-cases (text_eq j k)) [
  | inl e ↦ rw e (n, h.1)
  | inr e ↦ rw e (h.0, All-insert P k v m h.1 n)
]

module _ {M : Meters} {V : Type 0} where
  abbrev pub Keeps : List (MethodDecl V) → Service M V → Service M V → Type 0
  Keeps ms s s' =
      (s'.service_uri ≡ s.service_uri)
      × (s'.interface_methods ≡ s.interface_methods)
      × (s'.invokes_per_client ≡ map_for ms s.invokes_per_client)

  add_methods-Keeps :
      (ms : List (MethodDecl V)) (s s' : Service M V) → add_methods ms s ≡ built s' → Keeps ms s s'
  unfolding add_methods
  add_methods-Keeps [] s s' e = let same : s ≡ s' = cc in subst (Keeps [] s) same (refl, refl, refl)
  add_methods-Keeps (m ∷ ms) s s' e =
      let (s₁, e₁, e₂) = bind_inv (add_method m s) (add_methods ms) e in
      let (_, same) = add_method_inv m s s₁ e₁ in
      let (u, i, p) = add_methods-Keeps ms s₁ s' e₂ in
      (
        u ∙ ap (λ (x : Service M V). x.service_uri) same,
        i ∙ ap (λ (x : Service M V). x.interface_methods) same,
        p ∙ ap (λ (x : Service M V). map_for ms x.invokes_per_client) same ∙ map_for_again ms,
      )

  init_service-Keeps :
      (s s' : Service M V) → init_service s ≡ built s' → Keeps s.interface_methods s s'
  unfolding init_service
  init_service-Keeps s s' e =
      let (_, _, e₁) = bind_inv (check_implements s) _ e in
      add_methods-Keeps s.interface_methods (record s { methods = [] }) s' e₁

  still_there :
      (key uri : Text) (s : Service M V) (m : Assoc (Service M V))
      → lookup uri m ≢ none
      → lookup uri (insert key s m) ≢ none
  still_there key uri s m h n = elim (Bool-cases (text_eq key uri)) [
    | inl e ↦ cc (n, lookup-insert key uri s m, e)
    | inr e ↦ h (sym (lookup-insert key uri s m ∙ rw e refl) ∙ n)
  ]

  init_services-found :
      (services : List (Service M V)) (instances out : Assoc (Service M V))
      → init_services services instances ≡ built out
      → All (λ s. lookup s.service_uri out ≢ none) services
        × ((uri : Text) → lookup uri instances ≢ none → lookup uri out ≢ none)
  unfolding init_services
  init_services-found [] instances out e =
      (tt, λ uri h. let same : instances ≡ out = cc in subst (λ m. lookup uri m ≢ none) same h)
  init_services-found (s ∷ services) instances out e =
      let (s', e₁, e₂) = bind_inv (init_service s) _ e in
      let (all, keeps) = init_services-found services (insert s'.service_uri s' instances) out e₂ in
      let (uri, _, _) = init_service-Keeps s s' e₁ in
      let there : lookup s'.service_uri (insert s'.service_uri s' instances) ≢ none =
        λ n. cc (n, lookup-insert_self s'.service_uri s' instances) in
      (
        (subst (λ u. lookup u out ≢ none) uri (keeps s'.service_uri there), all),
        λ u h. keeps u (still_there s'.service_uri u s' instances h),
      )

  -- A service has its map of calls exactly when its interface has a method.
  abbrev pub Follows : Service M V → Type 0
  Follows s = s.invokes_per_client ≡ map_for s.interface_methods none

  init_services-Follows :
      (services : List (Service M V)) (instances out : Assoc (Service M V))
      → init_services services instances ≡ built out
      → All (λ s. s.invokes_per_client ≡ none) services
      → All (λ e. Follows e.1) instances
      → All (λ e. Follows e.1) out
  unfolding init_services
  init_services-Follows [] instances out e new h =
      let same : instances ≡ out = cc in subst (All (λ e. Follows e.1)) same h
  init_services-Follows (s ∷ services) instances out e (n, new) h =
      let (s', e₁, e₂) = bind_inv (init_service s) _ e in
      let (_, i, p) = init_service-Keeps s s' e₁ in
      init_services-Follows services (insert s'.service_uri s' instances) out e₂ new (
        All-insert (λ e. Follows e.1) s'.service_uri s' instances h
          (p ∙ ap (map_for s.interface_methods) n ∙ ap (λ ms. map_for ms none) (sym i)))

  has_map_iff :
      (s : Service M V) → Follows s → (s.invokes_per_client ≢ none) ↔ (s.interface_methods ≢ [])
  has_map_iff s f = (
    λ h e. h (f ∙ ap (λ ms. map_for ms none) e),
    λ h e. h (no_methods s.interface_methods (sym f ∙ e)),
  )
    where
      no_methods :
          (ms : List (MethodDecl V)) → map_for {B = Text × Assoc M.Flow} ms none ≡ none → ms ≡ []
      no_methods [] e = refl
      no_methods (m ∷ ms) e = absurd (cc e)

  have_maps_iff :
      (instances : Assoc (Service M V))
      → All (λ e. Follows e.1) instances
      → All (λ e. e.1.invokes_per_client ≢ none) instances
        ↔ All (λ e. e.1.interface_methods ≢ []) instances
  have_maps_iff [] f = (λ _. tt, λ _. tt)
  have_maps_iff ((uri, s) ∷ instances) (f, fs) =
      let one = has_map_iff s f in
      let rest = have_maps_iff instances fs in
      (λ h. (one.0 h.0, rest.0 h.1), λ h. (one.1 h.0, rest.1 h.1))

  module _ (services : List (Service M V)) (moa_stat : MoaStat M) (h : InvocationHandler M V)
      (made : new_invocation_handler services moa_stat ≡ built h) where
    -- Every service of the bundle is found under its URI.
    pub new_invocation_handler-found : All (λ s. lookup s.service_uri h.instances ≢ none) services
    unfolding new_invocation_handler
    new_invocation_handler-found =
        let (instances, e₁, e₂) = bind_inv (init_services services []) _ made in
        let same : instances ≡ h.instances = cc e₂ in
        subst (λ m. All (λ s. lookup s.service_uri m ≢ none) services) same
          (init_services-found services [] instances e₁).0

    -- Of services without a map, those whose interface has a method get one, and only those.
    pub new_invocation_handler-maps :
        All (λ s. s.invokes_per_client ≡ none) services
        → All (λ e. e.1.invokes_per_client ≢ none) h.instances
          ↔ All (λ e. e.1.interface_methods ≢ []) h.instances
    unfolding new_invocation_handler
    new_invocation_handler-maps new =
        let (instances, e₁, e₂) = bind_inv (init_services services []) _ made in
        let same : instances ≡ h.instances = cc e₂ in
        have_maps_iff h.instances (
          subst (All (λ e. Follows e.1)) same
            (init_services-Follows services [] instances e₁ new tt))
