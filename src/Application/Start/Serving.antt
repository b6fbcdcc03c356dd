-- ===== src/Application/Start/Serving.antt =====
-- What initApplication of application.go has done when it returns.
use go_moa.Base.{
  false, true, Bool, ◌≡◌, ◌≢◌, refl, sym, ap, ◌∙◌, subst, inl, inr, Text, Option, none, some, List,
  [], ◌∷◌, map, All, lookup, Option-cases,
}
use go_moa.Config.{MoaOption}
use go_moa.Config.Load.{load_configuration}
use go_moa.Config.Address.{init_server_option}
use go_moa.Zookeeper.{Conn, Ran, done, panicked}
use go_moa.Registry.Center.{
  Backing, ConfigCenter, made_of, open_backing, new_config_center, registe_all_services,
}
use go_moa.Stat.{Meters, MoaStat, new_moa_stat}
use go_moa.Proxy.{Service, InvocationHandler}
use go_moa.Proxy.Build.{Built, built, refused, new_invocation_handler}
use go_moa.Proxy.Build.Held.{new_invocation_handler-found}
use go_moa.Application.Start.{
  Stage, config_center, no_service, server_option, World, Application, Start, started, panic, ◌>>=◌,
  prepare, loaded, or_panic, listened, first, accepted, registered_again, registe_again,
  with_statistics, make_handler, metrics_twice, listen_and_serve, start_server, init_application,
}

-- A start that returns meets a condition.
abbrev Ends {ℓ} : {A : Type ℓ} → (A → Type 0) → Start A → Type 0
Ends P (started a) = P a
Ends P (panic s) = Unit

Ends-bind {ℓ κ} :
    {A : Type ℓ} {B : Type κ} (P : B → Type 0) (m : Start A) (f : A → Start B)
    → ((a : A) → m ≡ started a → Ends P (f a))
    → Ends P (m >>= f)
Ends-bind P (started a) f h = h a refl
Ends-bind P (panic s) f h = tt

Ends-imp {ℓ} :
    {A : Type ℓ} (P Q : A → Type 0) (m : Start A) → ((a : A) → P a → Q a) → Ends P m → Ends Q m
Ends-imp P Q (started a) f h = f a h
Ends-imp P Q (panic s) f h = tt

or_panic-started {ℓ} :
    {A : Type ℓ} (stage : Stage) (o : Option A) {a : A} → or_panic stage o ≡ started a → o ≡ some a
unfolding or_panic
or_panic-started stage none h = cc
or_panic-started stage (some b) h = cc

accepted-started {ℓ} : {A : Type ℓ} (b : Built A) {a : A} → accepted b ≡ started a → b ≡ built a
unfolding accepted
accepted-started (built x) h = cc
accepted-started (refused r) h = cc

listened-started : (e : Option Text) → listened e ≡ started tt → e ≡ none
unfolding listened
listened-started none h = refl
listened-started (some x) h = cc

loaded-started :
    (l : MoaOption × Option Text) {o : MoaOption} → loaded l ≡ started o → l ≡ (o, none)
unfolding loaded
loaded-started (o, none) h = cc
loaded-started (o, some e) h = cc

first-started {ℓ} : {A : Type ℓ} (xs : List A) (x : A) → first xs ≡ some x → xs ≢ []
unfolding first
first-started [] x h = λ _. cc
first-started (y ∷ xs) x h = λ e. cc

module _ (conn : Conn) (world : World conn.State) {M : Meters} {V : Type 0} where
  module _ (options server_op : MoaOption) (services : List (Service M V)) where
    module _ (center : ConfigCenter (Backing conn.State) M V) (w : Backing conn.State) where
      Registered : InvocationHandler M V → Application M V conn.State → Type 0
      Registered handler app =
          (app.config_center ≡ center) × (app.options ≡ options) × (app.invoke_handler ≡ handler)

      registe_again-Ends :
          (s : MoaStat M) (handler : InvocationHandler M V)
          → Ends
              (Registered handler)
              (registe_again conn world options server_op center w s handler)
      unfolding registe_again Registered
      registe_again-Ends s handler =
          Ends-bind (Registered handler) (registered_again (registe_all_services center w)) _
            (λ w' e. (refl, refl, refl))

      Handled : Application M V conn.State → Type 0
      Handled app =
          (app.config_center ≡ center)
          × (app.options ≡ options)
          × ((st : MoaStat M) × (new_invocation_handler services st ≡ built app.invoke_handler))

      with_statistics-Ends :
          (st : MoaStat M)
          → Ends Handled (with_statistics conn world options server_op services center w st)
      unfolding with_statistics Registered Handled
      with_statistics-Ends st =
          Ends-bind Handled (accepted (new_invocation_handler services st))
            (registe_again conn world options server_op center w st)
            λ handler e.
              Ends-imp (Registered handler) Handled
                (registe_again conn world options server_op center w st handler)
                (λ app h. (h.0, h.1, (st, accepted-started _ e ∙ ap built (sym h.2))))
                (registe_again-Ends st handler)

      -- The collectors of the statistics were not registered before.
      Measured : Application M V conn.State → Type 0
      Measured app = (world.metrics_registered ≡ false) × Handled app

      new_moa_stat-some :
          (registered : Bool) (host uri : Text) {st : MoaStat M}
          → new_moa_stat M registered host uri ≡ some st
          → registered ≡ false
      unfolding new_moa_stat
      new_moa_stat-some true host uri e = cc
      new_moa_stat-some false host uri e = refl

      make_handler-Ends :
          (s : Service M V)
          → Ends Measured (make_handler conn world options server_op services center w s)
      unfolding make_handler Measured
      make_handler-Ends s =
          Ends-bind Measured
            (or_panic metrics_twice
              (new_moa_stat M world.metrics_registered server_op.server.bind_address s.service_uri))
            (with_statistics conn world options server_op services center w)
            λ st e.
              Ends-imp Handled Measured
                (with_statistics conn world options server_op services center w st)
                (λ app h. (new_moa_stat-some _ _ _ (or_panic-started metrics_twice _ e), h))
                (with_statistics-Ends st)

      Listening : Application M V conn.State → Type 0
      Listening app =
          (world.listen server_op.server.bind_address ≡ none) × (services ≢ []) × Measured app

      listen_and_serve-Ends :
          Ends Listening (listen_and_serve conn world options server_op services (center, w))
      unfolding listen_and_serve Listening
      listen_and_serve-Ends =
          Ends-bind Listening (listened (world.listen server_op.server.bind_address))
            (λ _.
              or_panic no_service (first services)
              >>= make_handler conn world options server_op services center w)
            λ u e.
              Ends-bind Listening (or_panic no_service (first services))
                (make_handler conn world options server_op services center w)
                λ s e'.
                  Ends-imp Measured Listening
                    (make_handler conn world options server_op services center w s)
                    (λ app h. (
                      listened-started _ e,
                      first-started services s (or_panic-started no_service _ e'),
                      h,
                    ))
                    (make_handler-Ends s)

    -- What holds of the application behind its options.
    abbrev pub Serving : Application M V conn.State → Type 0
    Serving app =
        (app.options ≡ options)
        × (app.config_center.services ≡ services)
        × (app.config_center.hostport ≡ server_op.server.bind_address)
        × (world.listen server_op.server.bind_address ≡ none)
        × (services ≢ [])
        × (world.metrics_registered ≡ false)
        × ((st : MoaStat M) × (new_invocation_handler services st ≡ built app.invoke_handler))
        × All (λ s. lookup s.service_uri app.invoke_handler.instances ≢ none) services

    made_of-some :
        (c center : ConfigCenter (Backing conn.State) M V) (r : Ran (Backing conn.State) Bool)
        (w : Backing conn.State)
        → made_of conn world.json world.connect c r ≡ some (center, w)
        → c ≡ center
    unfolding made_of
    made_of-some c center (done ok w') w h = cc
    made_of-some c center (panicked w') w h = cc

    new_config_center-some :
        (address : Text) (center : ConfigCenter (Backing conn.State) M V) (w : Backing conn.State)
        → new_config_center conn world.json world.connect address server_op.server.bind_address
            services
          ≡ some (center, w)
        → (center.services ≡ services) × (center.hostport ≡ server_op.server.bind_address)
    unfolding new_config_center
    new_config_center-some address center w h =
        elim (Option-cases (open_backing conn world.json world.connect address services)) [
          | inl e ↦ absurd (let k = rw (e, new_config_center) at h in cc k)
          | inr (b, e) ↦
              let same = made_of-some _ center _ w (rw (e, new_config_center) at h) in
              (
                ap (λ (x : ConfigCenter (Backing conn.State) M V). x.services) (sym same),
                ap (λ (x : ConfigCenter (Backing conn.State) M V). x.hostport) (sym same),
              )
        ]

    start_server-Serving : Ends Serving (start_server conn world options server_op services)
    unfolding start_server Listening Measured Handled
    start_server-Serving =
        Ends-bind Serving (or_panic config_center _)
          (listen_and_serve conn world options server_op services)
          λ (center, w) e.
            Ends-imp (Listening center w) Serving
              (listen_and_serve conn world options server_op services (center, w))
              (λ app (l, ne, (fresh, (c, o, (st, made)))).
                let (ss, host) =
                  new_config_center-some _ center w (or_panic-started config_center _ e) in
                (
                  o,
                  ap (λ (x : ConfigCenter (Backing conn.State) M V). x.services) c ∙ ss,
                  ap (λ (x : ConfigCenter (Backing conn.State) M V). x.hostport) c ∙ host,
                  l,
                  ne,
                  fresh,
                  (st, made),
                  new_invocation_handler-found services st app.invoke_handler made,
                ))
              (listen_and_serve-Ends center w)

  -- Where initApplication returns, the configuration could be loaded and the options of the server
  -- made, the server listens at its address, and no application of the process had its statistics
  -- registered. The bundle has a service; the center has the prepared services of the bundle and that
  -- address, the dispatcher's options are the loaded ones, and the handler is the one that
  -- NewInvocationHandler builds of the services of the center, and finds every one of them under its
  -- URI.
  pub init_application-Serving :
      (bundle : List (Service M V)) (app : Application M V conn.State)
      → init_application conn world bundle ≡ started app
      → (options server_op : MoaOption) × (load_configuration world.file world.parser
          ≡ (options, none))
        × (init_server_option world.match_string world.inters options ≡ some server_op)
        × Serving options server_op (map (prepare server_op.server.is_pre) bundle) app
  unfolding init_application
  init_application-Serving bundle app h = subst (Ends Served) h served
    where
      Served : Application M V conn.State → Type 0
      Served app =
          (options server_op : MoaOption) × (load_configuration world.file world.parser
            ≡ (options, none))
          × (init_server_option world.match_string world.inters options ≡ some server_op)
          × Serving options server_op (map (prepare server_op.server.is_pre) bundle) app

      served : Ends Served (init_application conn world bundle)
      served = Ends-bind Served (loaded (load_configuration world.file world.parser)) _ λ options e.
          Ends-bind Served
            (or_panic server_option (init_server_option world.match_string world.inters options)) _
            λ server_op e'.
              let services : List (Service M V) = map (prepare server_op.server.is_pre) bundle in
              Ends-imp (Serving options server_op services) Served
                (start_server conn world options server_op services)
                (λ app s.
                  (options, server_op, loaded-started _ e, or_panic-started server_option _ e', s))
                (start_server-Serving options server_op services)
