-- ===== src/Codec/Arrival.antt =====
-- A request from its frame to the pool: UnmarshalPayload of moa_codec.go, then dis of application.go.
use Prim.Native.Nat.{bit_and}
use go_moa.Base.{
  ℕ, ◌-◌, ◌*◌, ◌/◌, ◌^◌, ◌≤◌, ◌<◌, ◌≡◌, Text, [], ◌∷◌, ◌⊎◌, inl, inr, arith, none, some, Option,
  Bool-cases, ◌==◌,
}
use go_moa.Base.Int.{pos, ◌≤ℤ◌}
use go_moa.Protocol.{MoaRawReqPacket, req_cmd}
use go_moa.Stat.{Meters}
use go_moa.Dispatcher.{
  raw_req, TContext, App, with_source, queue, dis, millisecond, process_timeout,
}
use go_moa.Dispatcher.Carried.{Carries}
use go_moa.Dispatcher.Deadline.{dis_deadline}
use go_moa.Codec.{
  Fallible, value, error, Snappy, Json, Frame, arrived, req_pay_load, wrap2_moa_raw_request,
  compress_snappy, unmarshal_body, unmarshal_decoded, unmarshal_payload, decompress,
}
use go_moa.Codec.Laws.{IsJson}

module _ {N V : Type 0} (J : Json N V) (j : IsJson J) (S : Snappy) (at : ℕ) (f : Frame N V)
    {raw : MoaRawReqPacket} where
  req_pay_load-create_time :
      (r : MoaRawReqPacket × Option Text)
      → r.0.create_time ≡ pos 0
      → req_pay_load J at (elim r.1 [ none ↦ value r.0 | some e ↦ error e ]) ≡ value (raw_req raw)
      → raw.create_time ≡ pos (at / millisecond)
  unfolding req_pay_load arrived
  req_pay_load-create_time (req, none) z e = ground arith
  req_pay_load-create_time (req, some x) z e = cc

  body-create_time :
      (body : Text)
      → f.cmd_type ≡ req_cmd
      → unmarshal_body J at f body ≡ value (raw_req raw)
      → raw.create_time ≡ pos (at / millisecond)
  unfolding unmarshal_body wrap2_moa_raw_request
  body-create_time body c e =
      req_pay_load-create_time (J.read_req body) (j.create_time-read_req body) (rw c at e)

  decoded-create_time :
      (d : Fallible Text)
      → f.cmd_type ≡ req_cmd
      → unmarshal_decoded J at f d ≡ value (raw_req raw)
      → raw.create_time ≡ pos (at / millisecond)
  unfolding unmarshal_decoded
  decoded-create_time (error x) c e = cc
  decoded-create_time (value body) c e = body-create_time body c e

  -- A request, compressed or not, carries the time of its arrival in milliseconds.
  create_time-unmarshal :
      f.cmd_type ≡ req_cmd
      → unmarshal_payload J S at f ≡ value (raw_req raw)
      → raw.create_time ≡ pos (at / millisecond)
  unfolding unmarshal_payload
  create_time-unmarshal c e =
      elim (Bool-cases (bit_and f.extension compress_snappy == compress_snappy)) [
        | inl k ↦ decoded-create_time (decompress S f.body) c (rw k at e)
        | inr k ↦ body-create_time f.body c (rw k at e)
      ]

-- A request is due from when it was read off its frame, whatever its client's clock says: read at one
-- time and dispatched at a later one, both of which fit an int64, it is dropped where it arrived after
-- the first millisecond and the nanoseconds since that millisecond have reached the timeout of the
-- server's cluster; otherwise it is queued, with its source and that timeout.
pub unmarshal-dis :
    {N V : Type 0} {M : Meters} (J : Json N V) (S : Snappy) (at now : ℕ) (f : Frame N V)
    (app : App M) (network : N) (ctx : TContext N V) (raw : MoaRawReqPacket)
    → IsJson J
    → f.cmd_type ≡ req_cmd
    → unmarshal_payload J S at f ≡ value (raw_req raw)
    → Carries ctx raw
    → at ≤ now
    → now < 2 ^ 63
    → (((millisecond ≤ at)
          × (process_timeout app.options ≤ℤ pos (now - at / millisecond * millisecond))
          × (dis app (pos now) network ctx ≡ []))
        ⊎ (¬ (
              (millisecond ≤ at)
              × (process_timeout app.options ≤ℤ pos (now - at / millisecond * millisecond)))
            × (dis app (pos now) network ctx
                ≡ queue (record { opaque = ctx.message.opaque; req = with_source app ctx raw })
                  ∷ [])))
unmarshal-dis J S at now f app network ctx raw j c e h l b =
    elim (dis_deadline app now (at / millisecond) network ctx raw h
      (create_time-unmarshal J j S at f c e) (omega arith) b) [
        | inl x ↦ inl (omega arith, x.0.1, x.1)
        | inr x ↦ inr ((λ y. x.0 (omega arith, y.1)), x.1)
      ]
