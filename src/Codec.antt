-- ===== src/Codec.antt =====
-- BinaryCodec of moa_codec.go: the bodies of packets as JSON, compressed by snappy or not. The JSON
-- encoder and snappy are parameters.
pub mod Buffers
pub mod Laws
pub mod Responses
pub mod Arrival
use Prim.Native.Nat.{bit_and}
use go_moa.Base.{
  ℕ, ◌+◌, ◌*◌, ◌/◌, ◌%◌, Bool, ◌||◌, ◌==◌, if◌then◌else◌, Text, codes, Option, none, some, length,
  [],
}
use go_moa.Base.Int.{ℤ, pos, leb_ℤ}
use go_moa.Protocol.{
  MoaRawReqPacket, MoaRespPacket, MoaRawRespPacket, PiPo, req_cmd, resp_cmd, ping_cmd, pong_cmd,
  code_serialization_server,
}
use go_moa.Proxy.Invoke.{no_response}
use go_moa.Dispatcher.{PayLoad, raw_req, pipo, response, raw_resp, millisecond}

-- A result, or the error in its place.
pub data Fallible (A : Type 0) : Type 0 where
  value : A → Fallible A
  error : Text → Fallible A

-- encoding/json. Unmarshal writes to a zero value, and gives what it has written with its error.
pub record Json (N : Type 0) (V : Type 0) : Type 0 where
  pub marshal : PayLoad N V → Fallible Text
  pub read_req : Text → MoaRawReqPacket × Option Text
  pub read_pipo : Text → PiPo × Option Text
  pub read_resp : Text → MoaRawRespPacket × Option Text

-- snappy. Decode and Encode take the length of the buffer that they are given. MaxEncodedLen gives
-- none for -1, where the text is too large and Encode panics.
pub record Snappy : Type 0 where
  pub decoded_len : Text → Fallible ℕ
  pub decode : ℕ → Text → Fallible Text
  pub max_encoded_len : ℕ → Option ℕ
  pub encode : ℕ → Text → Option Text

-- The header and the body of a turbo.Packet, and the payload that it holds already.
pub record Frame (N : Type 0) (V : Type 0) : Type 0 where
  pub cmd_type : ℕ
  pub extension : ℕ
  pub body : Text
  pub pay_load : PayLoad N V

abbrev pub compress_snappy : ℕ
compress_snappy = 0x01

unfoldable pub round_up : ℕ → ℕ
round_up l = if (l % 256) == 0 then l else (l / 256 + 1) * 256

-- -1 is rounded to 256 as well.
abbrev pub dest_len : Option ℕ → ℕ
unfolding round_up
dest_len none = 256
dest_len (some l) = round_up l

module _ (S : Snappy) where
  decode_into : Text → Fallible ℕ → Fallible Text
  unfolding round_up
  decode_into src (error e) = error e
  decode_into src (value l) = S.decode (round_up l) src

  unfoldable pub decompress : Text → Fallible Text
  unfolding decode_into
  decompress src = decode_into src (S.decoded_len src)

  -- None is the panic of Encode.
  unfoldable pub compress : Text → Option Text
  unfolding round_up
  compress src = S.encode (dest_len (S.max_encoded_len (length src))) src

abbrev pub not_a_response : {V : Type 0} → MoaRespPacket V
not_a_response = record no_response {
  err_code = code_serialization_server;
  message = codes "Invalid PayLoad Type Not MoaRespPacket";
}

-- What Marshal gives where its error is ignored: nothing beside an error.
abbrev pub or_empty : Fallible Text → Text
or_empty (value text) = text
or_empty (error e) = []

-- The payload as a response, if it is one.
unfoldable pub as_response : {N V : Type 0} → PayLoad N V → MoaRespPacket V
as_response (response r) = r
as_response _ = not_a_response

module _ {N V : Type 0} (J : Json N V) where
  unfoldable pub wrap2_moa_raw_request : Text → Fallible MoaRawReqPacket
  wrap2_moa_raw_request text = elim (J.read_req text).1 [
    | none ↦ value (J.read_req text).0
    | some e ↦ error e
  ]

  unfoldable pub wrap2_moa_raw_response : Text → Fallible MoaRawRespPacket
  wrap2_moa_raw_response text = elim (J.read_resp text).1 [
    | none ↦ value (J.read_resp text).0
    | some e ↦ error e
  ]

  -- The request takes the time of its arrival, in milliseconds, where it has none.
  unfoldable pub arrived : ℕ → MoaRawReqPacket → MoaRawReqPacket
  arrived now req =
      if leb_ℤ req.create_time (pos 0)
      then record req { create_time = pos (now / millisecond) }
      else req

  req_pay_load : ℕ → Fallible MoaRawReqPacket → Fallible (PayLoad N V)
  unfolding arrived
  req_pay_load now (error e) = error e
  req_pay_load now (value req) = value (raw_req (arrived now req))

  resp_pay_load : Fallible MoaRawRespPacket → Fallible (PayLoad N V)
  resp_pay_load (error e) = error e
  resp_pay_load (value resp) = value (raw_resp resp)

  -- UnmarshalPayload behind the decompression.
  unfoldable pub unmarshal_body : ℕ → Frame N V → Text → Fallible (PayLoad N V)
  unfolding req_pay_load resp_pay_load wrap2_moa_raw_request wrap2_moa_raw_response
  unmarshal_body now p body =
      if p.cmd_type == req_cmd
      then req_pay_load now (wrap2_moa_raw_request body)
      else if (p.cmd_type == ping_cmd) || (p.cmd_type == pong_cmd)
      then value (pipo (J.read_pipo body).0)
      else if p.cmd_type == resp_cmd
      then resp_pay_load (wrap2_moa_raw_response body)
      else value p.pay_load

  unmarshal_decoded : ℕ → Frame N V → Fallible Text → Fallible (PayLoad N V)
  unfolding unmarshal_body
  unmarshal_decoded now p (error e) = error e
  unmarshal_decoded now p (value body) = unmarshal_body now p body

  -- `now` is time.Now().UnixNano(), not negative. What is returned beside an error is left out.
  unfoldable pub unmarshal_payload : Snappy → ℕ → Frame N V → Fallible (PayLoad N V)
  unfolding unmarshal_decoded decompress
  unmarshal_payload S now p =
      if bit_and p.extension compress_snappy == compress_snappy
      then unmarshal_decoded now p (decompress S p.body)
      else unmarshal_body now p p.body

  marshal_again : Fallible Text → Text
  marshal_again (value text) = text
  marshal_again (error e) = or_empty (J.marshal (response not_a_response))

  unfoldable pub marshal_response : PayLoad N V → Text
  unfolding marshal_again as_response
  marshal_response p = marshal_again (J.marshal (response (as_response p)))

  -- An unknown command has no body.
  unfoldable pub marshal_payload : ℕ → PayLoad N V → Fallible Text
  unfolding marshal_response
  marshal_payload cmd_type p =
      if cmd_type == req_cmd
      then J.marshal p
      else if (cmd_type == ping_cmd) || (cmd_type == pong_cmd)
      then value (or_empty (J.marshal p))
      else if cmd_type == resp_cmd
      then value (marshal_response p)
      else value []
