-- ===== src/Dispatcher/Due.antt =====
-- How many packets under one opaque the actions of dis in application.go come to.
use go_moa.Base.{
  ℕ, ◌+◌, ◌≤◌, Option, none, some, List, [], ◌∷◌, inl, inr, ◌==◌, if◌then◌else◌, arith, Bool-cases,
  Option-cases,
}
use go_moa.Base.Int.{ℤ}
use go_moa.Protocol.{MoaRespPacket, req_cmd, ping_cmd, info_cmd}
use go_moa.Stat.{Meters}
use go_moa.Dispatcher.{
  PayLoad, raw_req, pipo, Packet, TContext, Job, Action, write, pong, queue, App, is_expired,
  with_source, on_req, on_ping, on_info, on_message, dis, send,
}

abbrev pub one_under : ℕ → ℕ → ℕ
one_under o opaque = if opaque == o then 1 else 0

abbrev pub sent_under : {N V : Type 0} → ℕ → List (Packet N V) → ℕ
sent_under o [] = 0
sent_under o (p ∷ ps) = one_under o p.opaque + sent_under o ps

abbrev pub jobs_under : ℕ → List Job → ℕ
jobs_under o [] = 0
jobs_under o (j ∷ jobs) = one_under o j.opaque + jobs_under o jobs

-- A call that is queued is an answer to come.
abbrev pub due : {N V : Type 0} → ℕ → List (Action N V) → ℕ
due o [] = 0
due o (write p ∷ actions) = one_under o p.opaque + due o actions
due o (pong opaque time ∷ actions) = due o actions
due o (queue job ∷ actions) = one_under o job.opaque + due o actions

pub sent_under-send :
    (N : Type 0) {V : Type 0} (o opaque : ℕ) (r : Option (MoaRespPacket V))
    → sent_under o (send {N = N} opaque r) ≤ one_under o opaque
unfolding send
sent_under-send N o opaque none = omega arith
sent_under-send N o opaque (some resp) = omega arith

module _ {N V : Type 0} {M : Meters} (o : ℕ) (app : App M) (now : ℤ) (network : N)
    (ctx : TContext N V) where
  due-on_req : (p : PayLoad N V) → due o (on_req app now ctx p) ≤ one_under o ctx.message.opaque
  unfolding on_req
  due-on_req (raw_req req) = elim (Bool-cases (is_expired now (with_source app ctx req))) [
    | inl e ↦ rw e (omega arith)
    | inr e ↦ rw e (omega arith)
  ]
  due-on_req _ = omega arith

  due-on_ping :
      (p : PayLoad N V) → due o (on_ping ctx.message.opaque p) ≤ one_under o ctx.message.opaque
  unfolding on_ping
  due-on_ping (pipo p) = omega arith
  due-on_ping _ = omega arith

  due-on_info :
      due {V = V} o (on_info app network ctx.message.opaque) ≤ one_under o ctx.message.opaque
  unfolding on_info
  due-on_info = elim (Option-cases app.moa_stat) [
    | inl e ↦ rw e (omega arith)
    | inr (s, e) ↦ rw e (omega arith)
  ]

  due-on_message : due o (on_message app now network ctx) ≤ one_under o ctx.message.opaque
  unfolding on_message
  due-on_message = elim (Bool-cases (ctx.message.cmd_type == req_cmd)) [
    | inl e ↦ rw e (due-on_req ctx.message.pay_load)
    | inr e ↦ elim (Bool-cases (ctx.message.cmd_type == ping_cmd)) [
      | inl f ↦ rw (e, f) (due-on_ping ctx.message.pay_load)
      | inr f ↦ elim (Bool-cases (ctx.message.cmd_type == info_cmd)) [
        | inl g ↦ rw (e, f, g) due-on_info
        | inr g ↦ rw (e, f, g) (omega arith)
      ]
    ]
  ]

  pub due-dis : due o (dis app now network ctx) ≤ one_under o ctx.message.opaque
  unfolding dis
  due-dis = elim (Option-cases ctx.err) [
    | inl e ↦ rw e due-on_message
    | inr (x, e) ↦ rw e (omega arith)
  ]
