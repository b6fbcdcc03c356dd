-- ===== src/Dispatcher/Carried.antt =====
-- What dis of application.go does with a request packet, and what depends on the statistics.
use go_moa.Base.{
  ◌∙◌, true, false, ◌≡◌, refl, Option, none, [], ◌∷◌, ◌==◌, inl, inr, Bool-cases, Option-cases,
}
use go_moa.Base.Int.{ℤ}
use go_moa.Protocol.{MoaRawReqPacket, req_cmd, info_cmd}
use go_moa.Stat.{Meters, MoaStat}
use go_moa.Config.{MoaOption}
use go_moa.Dispatcher.{
  PayLoad, raw_req, TContext, App, is_expired, with_source, on_req, on_message, dis, queue,
}

-- A packet without an error that is a request with this payload.
pub record Carries {N V : Type 0} (ctx : TContext N V) (raw : MoaRawReqPacket) : Type 0 where
  pub no_err : ctx.err ≡ none
  pub is_req : ctx.message.cmd_type ≡ req_cmd
  pub carried : ctx.message.pay_load ≡ raw_req raw

module _ {N V : Type 0} {M : Meters} (app : App M) (now : ℤ) (network : N) (ctx : TContext N V)
    (raw : MoaRawReqPacket) where
  dis-on_req : Carries ctx raw → dis app now network ctx ≡ on_req app now ctx (raw_req raw)
  unfolding dis on_message
  dis-on_req c = simp (c.no_err, c.is_req, c.carried, dis, on_message)

  pub dis-expired :
      Carries ctx raw
      → is_expired now (with_source app ctx raw) ≡ true
      → dis app now network ctx ≡ []
  unfolding on_req
  dis-expired c e = dis-on_req c ∙ rw e refl

  pub dis-queue :
      Carries ctx raw
      → is_expired now (with_source app ctx raw) ≡ false
      → dis app now network ctx
        ≡ queue (record { opaque = ctx.message.opaque; req = with_source app ctx raw }) ∷ []
  unfolding on_req
  dis-queue c e = dis-on_req c ∙ rw e refl

module _ {N V : Type 0} {M : Meters} (options : MoaOption) (m m' : Option (MoaStat M)) (now : ℤ)
    (network : N) (ctx : TContext N V) where
  abbrev pub with_stat : Option (MoaStat M) → App M
  with_stat o = record { options = options; moa_stat = o }

  on_req_any_stat :
      (p : PayLoad N V) → on_req (with_stat m) now ctx p ≡ on_req (with_stat m') now ctx p
  unfolding on_req
  on_req_any_stat (raw_req req) = refl
  on_req_any_stat _ = refl

  -- Only an INFO packet depends on the statistics of the application.
  pub dis_any_stat :
      (ctx.message.cmd_type == info_cmd) ≡ false
      → dis (with_stat m) now network ctx ≡ dis (with_stat m') now network ctx
  unfolding dis on_message
  dis_any_stat e = elim (Option-cases ctx.err) [
    | inr (x, f) ↦ rw f refl
    | inl f ↦ elim (Bool-cases (ctx.message.cmd_type == req_cmd)) [
      | inl k ↦ rw (f, k) (on_req_any_stat ctx.message.pay_load)
      | inr k ↦ rw (f, k, e) refl
    ]
  ]
