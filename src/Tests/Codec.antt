-- ===== src/Tests/Codec.antt =====
-- A codec with a small JSON and a compression of one more byte, and frames for it.
use go_moa.Base.{
  zero, suc, ◌==◌, if◌then◌else◌, ℕ, ◌+◌, ◌-◌, ◌*◌, ◌/◌, ◌≤◌, Text, codes, ◌≡◌, refl, subst, Option,
  none, some, [], ◌∷◌, ◌⊎◌, inl, arith, length,
}
use go_moa.Base.Int.{ℤ, pos, negsuc, ◌≤ℤ◌}
use go_moa.Protocol.{
  MoaRawReqPacket, MoaRespPacket, MoaRawRespPacket, PiPo, req_cmd, resp_cmd, ping_cmd,
}
use go_moa.Dispatcher.{
  PayLoad, raw_req, pipo, response, other, raw_resp, queue, dis, with_source, millisecond,
  process_timeout,
}
use go_moa.Codec.{
  Fallible, value, error, Json, Snappy, Frame, compress, decompress, marshal_payload,
  unmarshal_payload, unmarshal_body,
}
use go_moa.Codec.Buffers.{IsSnappy, compress_total}
use go_moa.Codec.Laws.{IsAscii, IsJson, unmarshal-marshal_pipo}
use go_moa.Codec.Responses.{IsSent, unmarshal-marshal_response}
use go_moa.Codec.Arrival.{unmarshal-dis}
use go_moa.Tests.Dispatcher.{app, raw, ctx, carries}

abbrev decode_one : Text → Fallible Text
decode_one [] = error (codes "snappy: corrupt input")
decode_one (c ∷ s) = value s

abbrev decoded_len_one : Text → Fallible ℕ
decoded_len_one [] = error (codes "snappy: corrupt input")
decoded_len_one (c ∷ s) = value (length s)

abbrev pub snappy : Snappy
snappy = record {
  decoded_len = decoded_len_one;
  decode = λ n e. decode_one e;
  max_encoded_len = λ n. some (n + 1);
  encode = λ n s. some (255 ∷ s);
}

decoded_len-some :
    (src e : Text) → some (255 ∷ src) ≡ some e → decoded_len_one e ≡ value (length src)
decoded_len-some src e h = rw (← e_eq) refl
  where
    e_eq : 255 ∷ src ≡ e
    e_eq = cc

decode-some : (src e : Text) → some (255 ∷ src) ≡ some e → decode_one e ≡ value src
decode-some src e h = rw (← e_eq) refl
  where
    e_eq : 255 ∷ src ≡ e
    e_eq = cc

max-some : (n l : ℕ) → some (n + 1) ≡ some l → suc n ≤ l
max-some n l h = ground arith

snappy-IsSnappy : IsSnappy snappy
snappy-IsSnappy = record {
  decoded_len-encode = λ n src e h. decoded_len-some src e h;
  decode-encode = λ n m src e h l. decode-some src e h;
  encode_total = λ n l src h b. (255 ∷ src, refl, max-some (length src) l h);
}

abbrev time_code : ℤ → Text
time_code (pos n) = 0 ∷ n ∷ []
time_code (negsuc n) = 1 ∷ n ∷ []

abbrev result_code : MoaRespPacket ℕ → Fallible Text
result_code r = elim r.result [
  | none ↦ value (r.err_code ∷ r.message)
  | some v ↦
      if v == 0 then error (codes "json: unsupported value") else value (r.err_code ∷ r.message)
]

abbrev marshal_one : PayLoad ℕ ℕ → Fallible Text
marshal_one (pipo p) = value (time_code p.timestamp)
marshal_one (response r) = result_code r
marshal_one _ = value (codes "{}")

abbrev read_time : Text → PiPo × Option Text
read_time (zero ∷ n ∷ []) = (record { timestamp = pos n }, none)
read_time (suc c ∷ n ∷ []) = (record { timestamp = negsuc n }, none)
read_time _ = (record { timestamp = pos 0 }, some (codes "unexpected end of JSON input"))

abbrev raw_response : ℕ → Text → MoaRawRespPacket
raw_response c m = record { err_code = c; message = m; create_time = pos 0; result = [] }

abbrev read_response_one : Text → MoaRawRespPacket × Option Text
read_response_one [] = (raw_response 0 [], some (codes "unexpected end of JSON input"))
read_response_one (c ∷ m) = (raw_response c m, none)

abbrev read_request_one : Text → MoaRawReqPacket × Option Text
read_request_one t = (record raw { create_time = pos 0 }, none)

abbrev pub json : Json ℕ ℕ
json = record {
  marshal = marshal_one;
  read_req = read_request_one;
  read_pipo = read_time;
  read_resp = read_response_one;
}

read-time_code : (z : ℤ) → read_time (time_code z) ≡ (record { timestamp = z }, none)
read-time_code (pos n) = refl
read-time_code (negsuc n) = refl

result_code-none :
    (r : MoaRespPacket ℕ) → r.result ≡ none → result_code r ≡ value (r.err_code ∷ r.message)
result_code-none r h = ground arith

read-result_code :
    (r : MoaRespPacket ℕ) (t : Text)
    → result_code r ≡ value t
    → (((read_response_one t).1 ≡ none) × ((read_response_one t).0.err_code ≡ r.err_code))
      × ((read_response_one t).0.message ≡ r.message)
read-result_code r [] h = absurd (ground arith)
read-result_code r (c ∷ m) h = ground arith

pub json-IsJson : IsJson json
json-IsJson = record {
  create_time-read_req = λ t. refl;
  read-pipo = λ p. (time_code p.timestamp, refl, read-time_code p.timestamp);
  marshal-response = λ r h. (r.err_code ∷ r.message, result_code-none r h);
  read-response = λ r t h. (read-result_code r t h).0;
  read-message = λ r t h a. (read-result_code r t h).1;
}

abbrev pub frame : Frame ℕ ℕ
frame = record { cmd_type = resp_cmd; extension = 0; body = codes "{}"; pay_load = other }

-- The result has no JSON text.
abbrev no_text : MoaRespPacket ℕ
no_text = record { err_code = 200; message = codes "ok"; create_time = pos 0; result = some 0 }

abbrev plain : MoaRespPacket ℕ → PayLoad ℕ ℕ
plain = response

no_text-IsAscii : (r : MoaRespPacket ℕ) → plain no_text ≡ response r → IsAscii r.message
no_text-IsAscii r e =
    let same : no_text ≡ r = cc in
    subst (λ (x : MoaRespPacket ℕ). IsAscii x.message) same (omega arith)

unmarshal-marshal_response_example :
    (r : MoaRespPacket ℕ) × (t : Text) × (raw : MoaRawRespPacket) × IsSent json (response no_text) r
    × (marshal_payload json resp_cmd (response no_text) ≡ value t)
    × (unmarshal_payload json snappy 0 (record frame { body = t }) ≡ value (raw_resp raw))
    × (raw.err_code ≡ r.err_code)
    × (raw.message ≡ r.message)
unmarshal-marshal_response_example =
    unmarshal-marshal_response json json-IsJson snappy 0 frame (response no_text) refl (λ e. cc)
      no_text-IsAscii

unmarshal-marshal_pipo_example :
    (t : Text) × (marshal_payload json ping_cmd (pipo (record { timestamp = negsuc 4 })) ≡ value t)
    × (unmarshal_payload json snappy 0 (record frame { cmd_type = ping_cmd; body = t })
        ≡ value (pipo (record { timestamp = negsuc 4 })))
unmarshal-marshal_pipo_example =
    unmarshal-marshal_pipo json snappy 0 (record frame { cmd_type = ping_cmd })
      (record { timestamp = negsuc 4 }) json-IsJson (λ e. cc) (inl refl)

compressed : compress snappy (codes "{}") ≡ some (255 ∷ codes "{}")
unfolding compress
compressed = refl

-- The frame of a request whose body is compressed.

compress_total_example :
    (e : Text) × (compress snappy (codes "{}") ≡ some e)
    × (length e ≤ 3)
    × (decompress snappy e ≡ value (codes "{}"))
compress_total_example = compress_total snappy-IsSnappy (codes "{}") 3 refl

unmarshalled :
    unmarshal_payload json snappy 1_000_000_000 (record frame { cmd_type = req_cmd })
    ≡ value (raw_req raw)
unfolding unmarshal_payload unmarshal_body
unmarshalled = refl

unmarshal-dis_example :
    ((millisecond ≤ 1_000_000_000)
      × (process_timeout app.options
          ≤ℤ pos (1_500_000_000 - 1_000_000_000 / millisecond * millisecond))
      × (dis app (pos 1_500_000_000) 0 ctx ≡ []))
    ⊎ (¬ (
          (millisecond ≤ 1_000_000_000)
          × (process_timeout app.options
              ≤ℤ pos (1_500_000_000 - 1_000_000_000 / millisecond * millisecond)))
        × (dis app (pos 1_500_000_000) 0 ctx
            ≡ queue (record { opaque = 7; req = with_source app ctx raw }) ∷ []))
unmarshal-dis_example =
    unmarshal-dis json snappy 1_000_000_000 1_500_000_000 (record frame { cmd_type = req_cmd }) app
      0 ctx raw json-IsJson refl unmarshalled carries (omega arith) (omega arith)
