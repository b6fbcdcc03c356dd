-- ===== src/Codec/Laws.antt =====
-- What the codec of moa_codec.go relies on in encoding/json, as documented, and what comes of pings.
use Prim.Native.Nat.{bit_and}
use go_moa.Base.{ℕ, ◌≡◌, ◌≢◌, ◌⊎◌, ◌<◌, Text, none, All, arith, ==_iff}
use go_moa.Base.Int.{pos}
use go_moa.Protocol.{MoaRespPacket, PiPo, ping_cmd, pong_cmd}
use go_moa.Dispatcher.{pipo, response}
use go_moa.Codec.{
  value, Snappy, Json, Frame, compress_snappy, unmarshal_payload, marshal_payload, unmarshal_body,
}

abbrev pub IsAscii : Text → Type 0
IsAscii = All (λ c. c < 128)

-- A field tagged "-" is not read; the text of a response is read without an error, its numbers and
-- ASCII strings as they were; what has no value of the users in it can be marshalled.
pub record IsJson {N V : Type 0} (J : Json N V) : Type 0 where
  pub create_time-read_req : (t : Text) → (J.read_req t).0.create_time ≡ pos 0
  pub read-pipo :
      (p : PiPo) → (t : Text) × (J.marshal (pipo p) ≡ value t) × (J.read_pipo t ≡ (p, none))
  pub marshal-response :
      (r : MoaRespPacket V) → r.result ≡ none → (t : Text) × (J.marshal (response r) ≡ value t)
  pub read-response :
      (r : MoaRespPacket V) (t : Text)
      → J.marshal (response r) ≡ value t
      → ((J.read_resp t).1 ≡ none) × ((J.read_resp t).0.err_code ≡ r.err_code)
  pub read-message :
      (r : MoaRespPacket V) (t : Text)
      → J.marshal (response r) ≡ value t
      → IsAscii r.message
      → (J.read_resp t).0.message ≡ r.message

-- The snappy bit is not set.
abbrev pub IsPlain : {N V : Type 0} → Frame N V → Type 0
IsPlain p = bit_and p.extension compress_snappy ≢ compress_snappy

module _ {N V : Type 0} (J : Json N V) (S : Snappy) (now : ℕ) (f : Frame N V) where
  pub unmarshal_plain : IsPlain f → unmarshal_payload J S now f ≡ unmarshal_body J now f f.body
  unfolding unmarshal_payload
  unmarshal_plain h = ground (arith, ==_iff (bit_and f.extension compress_snappy) compress_snappy)

  -- A PING or a PONG can always be marshalled, and is read back.
  pub unmarshal-marshal_pipo :
      (p : PiPo)
      → IsJson J
      → IsPlain f
      → (f.cmd_type ≡ ping_cmd) ⊎ (f.cmd_type ≡ pong_cmd)
      → (t : Text) × (marshal_payload J f.cmd_type (pipo p) ≡ value t)
        × (unmarshal_payload J S now (record f { body = t }) ≡ value (pipo p))
  unfolding marshal_payload unmarshal_payload unmarshal_body
  unmarshal-marshal_pipo p j h c =
      let (t, m, r) = j.read-pipo p in
      (
        t,
        ground (arith, m),
        ground (arith, r, ==_iff (bit_and f.extension compress_snappy) compress_snappy),
      )
