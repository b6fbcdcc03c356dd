-- ===== src/Tests/Dispatcher.antt =====
-- A server with the handler of the calls, and packets for it.
use go_moa.Base.{
  ℕ, ◌-◌, ◌*◌, ◌<◌, codes, false, ◌≡◌, refl, none, some, [], ◌∷◌, ◌⊎◌, if◌then◌else◌, arith,
  text_eq, lookup,
}
use go_moa.Base.Int.{pos, ◌≤ℤ◌, sub_i64, mul_i64}
use go_moa.Context.{at_ref}
use go_moa.Protocol.{MoaRawReqPacket, MoaRespPacket, req_cmd, resp_cmd}
use go_moa.Proxy.Invoke.{on_time}
use go_moa.Proxy.Invoke.Verdict.{Verdict}
use go_moa.Proxy.Build.SetUp.{new_invocation_handler-IsReady}
use go_moa.Dispatcher.{
  App, TContext, raw_req, response, queue, dis, written, is_expired, with_source, millisecond,
  process_timeout, resp_packet,
}
use go_moa.Dispatcher.Carried.{Carries}
use go_moa.Dispatcher.Replies.{dis-Verdict}
use go_moa.Dispatcher.Deadline.{dis_deadline}
use go_moa.Tests.Stat.{counting}
use go_moa.Tests.Config.{option, dev}
use go_moa.Tests.Proxy.{reflect, tracer, handler, handler_built, two_results, request, demo, stat}

abbrev pub app : App counting
app = record {
  options = record option {
    clusters = (codes "dev", record dev { process_timeout = pos 5_000_000_000 }) ∷ [];
  };
  moa_stat = some stat;
}

abbrev pub raw : MoaRawReqPacket
raw = record request { properties = some []; create_time = pos 1_000 }

abbrev pub ctx : TContext ℕ ℕ
ctx = record {
  message = record { opaque = 7; cmd_type = req_cmd; pay_load = raw_req raw };
  err = none;
  remote_addr = codes "10.0.0.9:4000";
}

pub carries : Carries ctx raw
carries = record { no_err = refl; is_req = refl; carried = refl }

fresh : is_expired (pos 1_500_000_000) (with_source app ctx raw) ≡ false
unfolding is_expired process_timeout lookup text_eq sub_i64 mul_i64
fresh = refl

dis-Verdict_example :
    (resp : MoaRespPacket ℕ) × Verdict reflect handler (at_ref 0) (with_source app ctx raw) resp
    × (written reflect tracer 3 handler (dis app (pos 1_500_000_000) 0 ctx) ≡ (
        if on_time (with_source app ctx raw) 3
        then resp_packet 7 resp_cmd (response resp) ∷ []
        else []))
dis-Verdict_example =
    dis-Verdict reflect tracer handler app (pos 1_500_000_000) 0 ctx raw 3 [] carries fresh refl
      (new_invocation_handler-IsReady reflect (demo ∷ []) stat handler (at_ref 0)
        (with_source app ctx raw) handler_built ((two_results, tt), tt)).1

dis_deadline_example :
    (((0 < 1_000) × (process_timeout app.options ≤ℤ pos (1_500_000_000 - 1_000 * millisecond)))
      × (dis app (pos 1_500_000_000) 0 ctx ≡ []))
    ⊎ (¬ ((0 < 1_000) × (process_timeout app.options ≤ℤ pos (1_500_000_000 - 1_000 * millisecond)))
        × (dis app (pos 1_500_000_000) 0 ctx
            ≡ queue (record { opaque = 7; req = with_source app ctx raw }) ∷ []))
dis_deadline_example =
    dis_deadline app 1_500_000_000 1_000 0 ctx raw carries refl (omega arith) (omega arith)
