-- ===== src/Dispatcher/Expiry.antt =====
-- When dis of application.go drops a request as expired.
use go_moa.Base.{leb, not, ◌&&◌, ℕ, ◌+◌, ◌-◌, ◌*◌, ◌^◌, ◌≤◌, ◌<◌, true, ◌≡◌, ◌↔◌, arith}
use go_moa.Base.Int.{pos, ◌≤ℤ◌, sub_i64, mul_i64_fits}
use go_moa.Protocol.{MoaRawReqPacket}
use go_moa.Dispatcher.{is_expired, millisecond}

pub sub_i64_fits : (n k : ℕ) → k ≤ n → n < 2 ^ 63 → sub_i64 (pos n) (pos k) ≡ pos (n - k)
unfolding sub_i64
sub_i64_fits n k h l = ground arith

both_iff : (c a b : ℕ) → (not (leb (c + 0) 0) && leb a b ≡ true) ↔ ((0 < c) × (a ≤ b))
both_iff c a b = ground arith

-- Where the clock and the creation time fit an int64 and the request was created before now, it is
-- expired exactly when it has a creation time and its age in nanoseconds is its timeout at least.
pub is_expired_iff :
    (now created : ℕ) (req : MoaRawReqPacket)
    → req.create_time ≡ pos created
    → created * millisecond ≤ now
    → now < 2 ^ 63
    → (is_expired (pos now) req ≡ true)
      ↔ ((0 < created) × (req.timeout ≤ℤ pos (now - created * millisecond)))
unfolding is_expired
is_expired_iff now created req e h l =
    rw
      (
        e,
        mul_i64_fits created millisecond (omega (arith, h, l)),
        sub_i64_fits now (created * millisecond) h l,
      )
      (both_iff created _ _)
