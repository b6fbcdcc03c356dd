-- ===== src/Application/Purge/AfterBuild.antt =====
-- The first round of the timer of application.go on a handler as NewInvocationHandler builds it.
use go_moa.Base.{◌≡◌, ◌≢◌, ◌↔◌, Text, none, List, [], All}
use go_moa.Stat.{Meters, MoaStat}
use go_moa.Proxy.{Service, InvocationHandler}
use go_moa.Proxy.Build.{built, new_invocation_handler}
use go_moa.Proxy.Build.Held.{new_invocation_handler-maps}
use go_moa.Application.Purge.{purge}
use go_moa.Application.Purge.Laws.{purge_panic}

-- For a handler built of services that come without a map of calls, the round panics exactly when the
-- interface of a service that the handler holds has no method, whoever is connected.
pub purge-new_invocation_handler :
    {M : Meters} {V : Type 0} (services : List (Service M V)) (moa_stat : MoaStat M)
    (h : InvocationHandler M V) (cs : List Text)
    → new_invocation_handler services moa_stat ≡ built h
    → All (λ s. s.invokes_per_client ≡ none) services
    → (purge cs h.instances ≡ none) ↔ (¬ All (λ e. e.1.interface_methods ≢ []) h.instances)
purge-new_invocation_handler services moa_stat h cs made new =
    let maps = new_invocation_handler-maps services moa_stat h made new in
    let panics = purge_panic cs h.instances in
    (λ e all. panics.0 e (maps.1 all), λ n. panics.1 (λ all. n (maps.0 all)))
