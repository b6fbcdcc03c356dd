-- ===== src/Codec/Responses.antt =====
-- What a client reads of a response that BinaryCodec of moa_codec.go has marshalled.
use go_moa.Base.{ℕ, ◌≡◌, refl, sym, ap, subst, ◌∙◌, ◌⊎◌, inl, inr, Text, arith, none}
use go_moa.Protocol.{MoaRespPacket, MoaRawRespPacket, resp_cmd, code_serialization_server}
use go_moa.Dispatcher.{PayLoad, raw_req, raw_resp, response, pipo, client_req, stat, other}
use go_moa.Codec.{
  Fallible, value, error, Snappy, Json, Frame, as_response, not_a_response, marshal_again,
  marshal_response, marshal_payload, unmarshal_body, unmarshal_payload, wrap2_moa_raw_response,
  resp_pay_load,
}
use go_moa.Codec.Laws.{IsAscii, IsJson, IsPlain, unmarshal_plain}

sent_for : {V : Type 0} → MoaRespPacket V → Fallible Text → MoaRespPacket V
sent_for r (value t) = r
sent_for r (error e) = not_a_response

module _ {N V : Type 0} (J : Json N V) where
  -- The response that goes out for a payload: the payload where it is a response that has a JSON
  -- text, and otherwise the one that says that it is not.
  unfoldable pub sent_response : PayLoad N V → MoaRespPacket V
  unfolding sent_for as_response
  sent_response p = sent_for (as_response p) (J.marshal (response (as_response p)))

  -- What goes out: the payload, a response that has a JSON text, or else the response of code 3021
  -- that says that the payload is none.
  abbrev pub IsSent : PayLoad N V → MoaRespPacket V → Type 0
  IsSent p r =
      ((p ≡ response r) × ((t : Text) × (J.marshal (response r) ≡ value t)))
      ⊎ ((r ≡ not_a_response)
          × ((r' : MoaRespPacket V)
              → p ≡ response r'
              → (e : Text) × (J.marshal (response r') ≡ error e)))

  sent_for-IsSent :
      (r : MoaRespPacket V) (m : Fallible Text)
      → J.marshal (response r) ≡ m
      → IsSent (response r) (sent_for r m)
  unfolding sent_for
  sent_for-IsSent r (value t) k = inl (refl, (t, k))
  sent_for-IsSent r (error e) k = inr (refl, (λ r' same. (e, ap J.marshal (sym same) ∙ k)))

  sent_for-same :
      (r : MoaRespPacket V)
      → r ≡ not_a_response
      → (m : Fallible Text) → sent_for r m ≡ not_a_response
  unfolding sent_for
  sent_for-same r e (value t) = e
  sent_for-same r e (error x) = refl

  sent_response-IsSent : (p : PayLoad N V) → IsSent p (sent_response p)
  unfolding sent_response as_response
  sent_response-IsSent (response r) = sent_for-IsSent r _ refl
  sent_response-IsSent (raw_req r) = inr (sent_for-same not_a_response refl _, (λ r' e. cc))
  sent_response-IsSent (raw_resp r) = inr (sent_for-same not_a_response refl _, (λ r' e. cc))
  sent_response-IsSent (pipo r) = inr (sent_for-same not_a_response refl _, (λ r' e. cc))
  sent_response-IsSent (client_req r) = inr (sent_for-same not_a_response refl _, (λ r' e. cc))
  sent_response-IsSent (stat n i) = inr (sent_for-same not_a_response refl _, (λ r' e. cc))
  sent_response-IsSent other = inr (sent_for-same not_a_response refl _, (λ r' e. cc))

  message-IsAscii :
      (p : PayLoad N V) (r : MoaRespPacket V)
      → IsSent p r
      → ((r' : MoaRespPacket V) → p ≡ response r' → IsAscii r'.message)
      → IsAscii r.message
  message-IsAscii p r (inl (e, _)) a = a r e
  message-IsAscii p r (inr (e, _)) a =
      subst (λ (x : MoaRespPacket V). IsAscii x.message) (sym e) (omega arith)

  -- The code that is read where the response went out, and where it has no JSON text.
  abbrev pub ReadsCode : MoaRespPacket V → ℕ → Type 0
  ReadsCode r code =
      ((t : Text) × (J.marshal (response r) ≡ value t) × (code ≡ r.err_code))
      ⊎ ((e : Text) × (J.marshal (response r) ≡ error e) × (code ≡ code_serialization_server))

  sent_for-ReadsCode :
      (r : MoaRespPacket V) (m : Fallible Text)
      → J.marshal (response r) ≡ m
      → ReadsCode r (sent_for r m).err_code
  unfolding sent_for
  sent_for-ReadsCode r (value t) k = inl (t, k, refl)
  sent_for-ReadsCode r (error e) k = inr (e, k, refl)

  pub sent_response-ReadsCode :
      (r : MoaRespPacket V) → ReadsCode r (sent_response (response r)).err_code
  unfolding sent_response as_response
  sent_response-ReadsCode r = sent_for-ReadsCode r _ refl

  module _ (j : IsJson J) where
    marshal_sent :
        (r : MoaRespPacket V) (m : Fallible Text)
        → J.marshal (response r) ≡ m
        → J.marshal (response (sent_for r m)) ≡ value (marshal_again J m)
    unfolding sent_for marshal_again
    marshal_sent r (value t) e = e
    marshal_sent r (error e) k = let (t, m) = j.marshal-response not_a_response refl in rw m refl

    marshal_response-sent :
        (p : PayLoad N V) → J.marshal (response (sent_response p)) ≡ value (marshal_response J p)
    unfolding sent_response marshal_response
    marshal_response-sent p =
        marshal_sent (as_response p) (J.marshal (response (as_response p))) refl

    read_resp_body :
        (now : ℕ) (f : Frame N V) (t : Text)
        → f.cmd_type ≡ resp_cmd
        → (J.read_resp t).1 ≡ none
        → unmarshal_body J now f t ≡ value (raw_resp (J.read_resp t).0)
    unfolding unmarshal_body wrap2_moa_raw_response resp_pay_load
    read_resp_body now f t c e = ground arith

    -- The code of the response that is sent is read in any plain RESP frame.
    pub code-marshal_response :
        (S : Snappy) (now : ℕ) (f : Frame N V) (p : PayLoad N V)
        → f.cmd_type ≡ resp_cmd
        → IsPlain f
        → (marshal_payload J resp_cmd p ≡ value (marshal_response J p))
          × (unmarshal_payload J S now (record f { body = marshal_response J p })
              ≡ value (raw_resp (J.read_resp (marshal_response J p)).0))
          × ((J.read_resp (marshal_response J p)).0.err_code ≡ (sent_response p).err_code)
    unfolding marshal_payload
    code-marshal_response S now f p c h =
        let t = marshal_response J p in
        let (read, code) = j.read-response (sent_response p) t (marshal_response-sent p) in
        (
          refl,
          unmarshal_plain J S now (record f { body = t }) h
              ∙ read_resp_body now (record f { body = t }) t c read,
          code,
        )

    -- MarshalPayload of a RESP never fails: it sends the payload if that is a response that has a
    -- JSON text, and otherwise, and only then, the response of code 3021. A client that gets the text
    -- in a plain RESP frame reads the code and the message of the one that was sent, where the
    -- message of the payload is ASCII if it is a response.
    pub unmarshal-marshal_response :
        (S : Snappy) (now : ℕ) (f : Frame N V) (p : PayLoad N V)
        → f.cmd_type ≡ resp_cmd
        → IsPlain f
        → ((r : MoaRespPacket V) → p ≡ response r → IsAscii r.message)
        → (r : MoaRespPacket V) × (t : Text) × (raw : MoaRawRespPacket) × IsSent p r
          × (marshal_payload J resp_cmd p ≡ value t)
          × (unmarshal_payload J S now (record f { body = t }) ≡ value (raw_resp raw))
          × (raw.err_code ≡ r.err_code)
          × (raw.message ≡ r.message)
    unmarshal-marshal_response S now f p c h a =
        let t = marshal_response J p in
        let (sent, read, code) = code-marshal_response S now f p c h in
        let is_sent = sent_response-IsSent p in
        (
          sent_response p,
          t,
          (J.read_resp t).0,
          is_sent,
          sent,
          read,
          code,
          j.read-message (sent_response p) t (marshal_response-sent p)
              (message-IsAscii p (sent_response p) is_sent a),
        )
