-- ===== src/Tests/Answers.antt =====
-- A request to the application that was started with a file registry.
use go_moa.Base.{
  ℕ, false, ◌≡◌, ◌≢◌, refl, inl, [], ◌∷◌, if◌then◌else◌, lookup, text_eq, insert, split,
}
use go_moa.Base.Int.{pos, sub_i64, mul_i64}
use go_moa.Context.{at_ref}
use go_moa.Protocol.{MoaRespPacket, resp_cmd, code_service_not_found}
use go_moa.Config.Load.{load_configuration, with_defaults, default_clusters}
use go_moa.Proxy.Invoke.{on_time}
use go_moa.Proxy.Invoke.Verdict.{Verdict}
use go_moa.Dispatcher.{
  response, dis, written, is_expired, with_source, process_timeout, resp_packet,
}
use go_moa.Application.Answers.{app_of, init_application-dis}
use go_moa.Tests.Proxy.{reflect, tracer, two_results}
use go_moa.Tests.Zk.{ensemble}
use go_moa.Tests.Dispatcher.{raw, ctx, carries}
use go_moa.Tests.Lifecycle.{grouped_later, world, app, app-started}

fresh_at_app : is_expired (pos 1_500_000_000) (with_source (app_of app) ctx raw) ≡ false
unfolding is_expired process_timeout lookup text_eq sub_i64 mul_i64 load_configuration split
    default_clusters insert with_defaults
fresh_at_app = refl

init_application-dis_example :
    (resp : MoaRespPacket ℕ) × Verdict reflect app.invoke_handler
      (at_ref 0)
      (with_source (app_of app) ctx raw)
      resp
    × (resp.err_code ≢ code_service_not_found)
    × (written reflect tracer 3 app.invoke_handler (dis (app_of app) (pos 1_500_000_000) 0 ctx) ≡ (
        if on_time (with_source (app_of app) ctx raw) 3
        then resp_packet 7 resp_cmd (response resp) ∷ []
        else []))
init_application-dis_example =
    init_application-dis ensemble world reflect tracer (grouped_later ∷ []) app (pos 1_500_000_000)
      0 ctx raw 3 [] app-started ((two_results, tt), tt) (inl refl) carries fresh_at_app refl
