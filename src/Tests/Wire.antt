-- ===== src/Tests/Wire.antt =====
-- A call of the application that was started with a file registry, from frame to frame.
use go_moa.Base.{
  ℕ, true, ◌-◌, ◌*◌, ◌/◌, ◌≡◌, ◌≢◌, refl, inl, Text, [], ◌∷◌, lookup, text_eq, insert, split, arith,
}
use go_moa.Base.Int.{pos, ◌≤ℤ◌, mul_i64}
use go_moa.Context.{at_ref}
use go_moa.Protocol.{MoaRespPacket, MoaRawRespPacket, req_cmd, resp_cmd, code_service_not_found}
use go_moa.Config.Load.{load_configuration, with_defaults, default_clusters}
use go_moa.Proxy.Invoke.{on_time}
use go_moa.Proxy.Invoke.Verdict.{Verdict}
use go_moa.Dispatcher.{
  raw_req, raw_resp, response, dis, written, with_source, process_timeout, resp_packet, millisecond,
}
use go_moa.Codec.{
  Frame, value, marshal_payload, unmarshal_payload, unmarshal_body, arrived, wrap2_moa_raw_request,
}
use go_moa.Codec.Responses.{ReadsCode}
use go_moa.Application.Answers.{app_of}
use go_moa.Application.Wire.{init_application-wire}
use go_moa.Tests.Codec.{json, json-IsJson, snappy, frame}
use go_moa.Tests.Proxy.{reflect, tracer, two_results}
use go_moa.Tests.Zk.{ensemble}
use go_moa.Tests.Dispatcher.{raw, ctx, carries}
use go_moa.Tests.Lifecycle.{grouped_later, world, app, app-started}

abbrev request_frame : Frame ℕ ℕ
request_frame = record frame { cmd_type = req_cmd }

read_request : unmarshal_payload json snappy 1_000_000_000 request_frame ≡ value (raw_req raw)
unfolding unmarshal_payload unmarshal_body arrived wrap2_moa_raw_request
read_request = refl

five_seconds : process_timeout (app_of app).options ≡ pos 5_000_000_000
unfolding process_timeout lookup text_eq load_configuration split default_clusters insert
    with_defaults mul_i64
five_seconds = refl

early : ¬ (
    process_timeout (app_of app).options
    ≤ℤ pos (1_500_000_000 - 1_000_000_000 / millisecond * millisecond))
early h = absurd (omega (arith, rw five_seconds at h))

timely : on_time (with_source (app_of app) ctx raw) 3 ≡ true
timely = rw five_seconds refl

init_application-wire_example :
    (resp : MoaRespPacket ℕ) × (t : Text) × (answer : MoaRawRespPacket) × Verdict reflect
      app.invoke_handler
      (at_ref 0)
      (with_source (app_of app) ctx raw)
      resp
    × (written reflect tracer 3 app.invoke_handler (dis (app_of app) (pos 1_500_000_000) 0 ctx)
        ≡ resp_packet 7 resp_cmd (response resp) ∷ [])
    × (marshal_payload json resp_cmd (response resp) ≡ value t)
    × (unmarshal_payload json snappy 1_600_000_000 (record frame { body = t })
        ≡ value (raw_resp answer))
    × ReadsCode json resp answer.err_code
    × (answer.err_code ≢ code_service_not_found)
init_application-wire_example =
    init_application-wire ensemble world reflect tracer json snappy (grouped_later ∷ []) app
      1_000_000_000 1_500_000_000 1_600_000_000 3 0 request_frame frame ctx raw [] app-started
      ((two_results, tt), tt) (inl refl) json-IsJson refl read_request carries (omega arith)
      (omega arith) early refl timely refl (λ e. absurd (omega (arith, e)))
