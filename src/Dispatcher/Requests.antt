-- ===== src/Dispatcher/Requests.antt =====
-- What a client gets back for a packet that dis of application.go handles.
use go_moa.Base.{
  ℕ, ◌≤◌, ◌≡◌, refl, Option, none, some, List, [], ◌++◌, inl, inr, ◌==◌, length, All, arith,
  Bool-cases, Option-cases,
}
use go_moa.Base.Int.{ℤ}
use go_moa.Context.{Tracer}
use go_moa.Protocol.{MoaRespPacket, req_cmd, ping_cmd, info_cmd}
use go_moa.Stat.{Meters}
use go_moa.Proxy.{Reflect, InvocationHandler}
use go_moa.Dispatcher.{
  PayLoad, raw_req, pipo, Packet, TContext, Action, App, is_expired, with_source, on_req, on_ping,
  on_info, on_message, dis, send, written,
}

module _ {N V : Type 0} where
  -- One packet at most, under this opaque.
  abbrev pub IsAnswer : ℕ → List (Packet N V) → Type 0
  IsAnswer opaque ps = (length ps ≤ 1) × All (λ p. p.opaque ≡ opaque) ps

send-IsAnswer :
    (N : Type 0) {V : Type 0} (opaque : ℕ) (r : Option (MoaRespPacket V))
    → IsAnswer opaque (send {N = N} opaque r ++ [])
unfolding send
send-IsAnswer N opaque none = (omega arith, tt)
send-IsAnswer N opaque (some resp) = (omega arith, (refl, tt))

module _ {N V : Type 0} {M : Meters} (R : Reflect V) (T : Tracer) (cost : ℕ)
    (h : InvocationHandler M V) where
  module _ (app : App M) (now : ℤ) (network : N) (ctx : TContext N V) where
    abbrev Answers : List (Action N V) → Type 0
    Answers actions = IsAnswer ctx.message.opaque (written R T cost h actions)

    no_actions : Answers []
    unfolding written
    no_actions = (omega arith, tt)

    on_req-Answers : (p : PayLoad N V) → Answers (on_req app now ctx p)
    unfolding on_req written
    on_req-Answers (raw_req req) = elim (Bool-cases (is_expired now (with_source app ctx req))) [
      | inl e ↦ rw e no_actions
      | inr e ↦ rw e (send-IsAnswer N ctx.message.opaque _)
    ]
    on_req-Answers _ = no_actions

    on_ping-Answers : (p : PayLoad N V) → Answers (on_ping ctx.message.opaque p)
    unfolding on_ping written
    on_ping-Answers (pipo p) = (omega arith, (refl, tt))
    on_ping-Answers _ = (omega arith, (refl, tt))

    on_info-Answers : Answers (on_info app network ctx.message.opaque)
    unfolding on_info written
    on_info-Answers = elim (Option-cases app.moa_stat) [
      | inl e ↦ rw e no_actions
      | inr (s, e) ↦ rw e (omega arith, (refl, tt))
    ]

    on_message-Answers : Answers (on_message app now network ctx)
    unfolding on_message
    on_message-Answers = elim (Bool-cases (ctx.message.cmd_type == req_cmd)) [
      | inl e ↦ rw e (on_req-Answers ctx.message.pay_load)
      | inr e ↦ elim (Bool-cases (ctx.message.cmd_type == ping_cmd)) [
        | inl e' ↦ rw (e, e') (on_ping-Answers ctx.message.pay_load)
        | inr e' ↦ elim (Bool-cases (ctx.message.cmd_type == info_cmd)) [
          | inl e'' ↦ rw (e, e', e'') on_info-Answers
          | inr e'' ↦ rw (e, e', e'') no_actions
        ]
      ]
    ]

    -- Whatever a packet is, dis makes the server write one packet at most, and under the opaque of
    -- that packet: an error, a pong, the statistics, or what the callback of its call writes.
    dis-IsAnswer : Answers (dis app now network ctx)
    unfolding dis written
    dis-IsAnswer = elim (Option-cases ctx.err) [
      | inl e ↦ rw e on_message-Answers
      | inr (x, e) ↦ rw e (omega arith, (refl, tt))
    ]
