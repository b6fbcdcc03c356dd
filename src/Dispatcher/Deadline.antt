-- ===== src/Dispatcher/Deadline.antt =====
-- When dis of application.go hands a request to the pool.
use go_moa.Base.{ℕ, ◌-◌, ◌*◌, ◌^◌, ◌≤◌, ◌<◌, ◌≡◌, [], ◌∷◌, ◌⊎◌, inl, inr, Bool-cases}
use go_moa.Base.Int.{pos, ◌≤ℤ◌}
use go_moa.Protocol.{MoaRawReqPacket}
use go_moa.Stat.{Meters}
use go_moa.Dispatcher.{
  TContext, App, with_source, queue, dis, is_expired, millisecond, process_timeout,
}
use go_moa.Dispatcher.Expiry.{is_expired_iff}
use go_moa.Dispatcher.Carried.{Carries, dis-expired, dis-queue}

-- For a request created before now, with times that fit an int64: where it has a creation time and
-- its age in nanoseconds has reached the timeout of the server's cluster, nothing is done; otherwise
-- its call is queued, under the packet's opaque and with its source and that timeout.
pub dis_deadline :
    {N V : Type 0} {M : Meters} (app : App M) (now created : ℕ) (network : N) (ctx : TContext N V)
    (raw : MoaRawReqPacket)
    → Carries ctx raw
    → raw.create_time ≡ pos created
    → created * millisecond ≤ now
    → now < 2 ^ 63
    → ((((0 < created) × (process_timeout app.options ≤ℤ pos (now - created * millisecond)))
          × (dis app (pos now) network ctx ≡ []))
        ⊎ (¬ ((0 < created) × (process_timeout app.options ≤ℤ pos (now - created * millisecond)))
            × (dis app (pos now) network ctx
                ≡ queue (record { opaque = ctx.message.opaque; req = with_source app ctx raw })
                  ∷ [])))
dis_deadline app now created network ctx raw c e h l =
    let k = is_expired_iff now created (with_source app ctx raw) e h l in
    elim (Bool-cases (is_expired (pos now) (with_source app ctx raw))) [
      | inl x ↦ inl (k.0 x, dis-expired app (pos now) network ctx raw c x)
      | inr x ↦ inr ((λ y. cc (k.1 y, x)), dis-queue app (pos now) network ctx raw c x)
    ]
