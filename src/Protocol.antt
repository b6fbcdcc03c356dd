-- ===== src/Protocol.antt =====
-- code_enum.go, and the packets and command types of moa_codec.go.
use go_moa.Base.{ℕ, Text, codes, Option, List, ◌++◌, Assoc, format_nat}
use go_moa.Base.Int.{ℤ}

abbrev pub req_cmd : ℕ
req_cmd = 0x01

abbrev pub resp_cmd : ℕ
resp_cmd = 0x02

abbrev pub ping_cmd : ℕ
ping_cmd = 0x03

abbrev pub pong_cmd : ℕ
pong_cmd = 0x04

abbrev pub info_cmd : ℕ
info_cmd = 0x05

abbrev pub code_server_succ : ℕ
code_server_succ = 200

abbrev pub code_throwable : ℕ
code_throwable = 300

abbrev pub code_serialization : ℕ
code_serialization = 302

abbrev pub code_service_not_found : ℕ
code_service_not_found = 501

abbrev pub code_method_not_found : ℕ
code_method_not_found = 502

abbrev pub code_invocation_target : ℕ
code_invocation_target = 503

abbrev pub code_serialization_server : ℕ
code_serialization_server = 3021

-- The messages, with their arguments put in.
unfoldable pub msg_no_uri_found : Text → Text
msg_no_uri_found uri = codes "No uri found: " ++ uri

unfoldable pub msg_method_not_found : Text → Text
msg_method_not_found method = codes "Method not found: " ++ (method ++ codes ".")

unfoldable pub msg_params_not_matched : ℕ → ℕ → Text
msg_params_not_matched given wanted =
    codes "params number is not matched! " ++ (format_nat given ++ (codes "/" ++ format_nat wanted))

unfoldable pub msg_serialization : Text → Text
msg_serialization e = codes "Serialization exception: " ++ e

unfoldable pub msg_invocation_target : Text → Text
msg_invocation_target e = codes "Invocation target exception: (" ++ (e ++ codes ")")

-- MoaReqPacket, the request of a client, whose arguments are values.
pub record MoaReqPacket (V : Type 0) : Type 0 where
  pub service_uri : Text
  pub method : Text
  pub args : List V
  pub properties : Option (Assoc Text)
  pub create_time : ℤ
  pub timeout : ℤ

-- MoaRawReqPacket; `properties` is nil where the request carries no `props`.
pub record MoaRawReqPacket : Type 0 where
  pub service_uri : Text
  pub method : Text
  pub args : List Text
  pub properties : Option (Assoc Text)
  pub create_time : ℤ
  pub timeout : ℤ
  pub source : Text

-- MoaRespPacket; `result` is nil or a value.
pub record MoaRespPacket (V : Type 0) : Type 0 where
  pub err_code : ℕ
  pub message : Text
  pub create_time : ℤ
  pub result : Option V

-- MoaRawRespPacket; the result is its JSON text.
pub record MoaRawRespPacket : Type 0 where
  pub err_code : ℕ
  pub message : Text
  pub create_time : ℤ
  pub result : Text

pub record PiPo : Type 0 where
  pub timestamp : ℤ
