-- ===== src/Codec/Buffers.antt =====
-- The buffers of Decompress and Compress in moa_codec.go, and what comes of a compressed body.
use Prim.Native.Nat.{bit_and}
use go_moa.Base.{ℕ, ◌+◌, ◌%◌, ◌≤◌, ◌<◌, ◌≡◌, ◌≢◌, Text, some, length, arith, ap, ◌∙◌, ==_iff}
use go_moa.Codec.{
  value, Snappy, Json, Frame, compress_snappy, round_up, decode_into, decompress, compress,
  dest_len, unmarshal_decoded, unmarshal_payload, unmarshal_body,
}

-- A buffer holds the length asked for, is a multiple of 256, and wastes less than 256 bytes.
pub round_up_bounds : (l : ℕ) → (l ≤ round_up l) × (round_up l < l + 256) × (round_up l % 256 ≡ 0)
unfolding round_up
round_up_bounds l = ground arith

-- snappy as documented: Decode takes back what Encode made, in a buffer of DecodedLen or more, and
-- DecodedLen is the length of the text. Encode panics only where MaxEncodedLen is -1, and fits into
-- MaxEncodedLen.
pub record IsSnappy (S : Snappy) : Type 0 where
  pub decoded_len-encode :
      (n : ℕ) (src e : Text) → S.encode n src ≡ some e → S.decoded_len e ≡ value (length src)
  pub decode-encode :
      (n m : ℕ) (src e : Text) → S.encode n src ≡ some e → length src ≤ m → S.decode m e ≡ value src
  pub encode_total :
      (n l : ℕ) (src : Text)
      → S.max_encoded_len (length src) ≡ some l
      → l ≤ n
      → (e : Text) × (S.encode n src ≡ some e) × (length e ≤ l)

module _ {S : Snappy} (s : IsSnappy S) where
  open s use {decoded_len-encode, decode-encode, encode_total}

  pub decompress-compress : (src e : Text) → compress S src ≡ some e → decompress S e ≡ value src
  unfolding compress decompress decode_into
  decompress-compress src e h =
      rw (decoded_len-encode _ src e h)
        (decode-encode _ (round_up (length src)) src e h (round_up_bounds (length src)).0)

  -- Whatever snappy can encode, Compress compresses, and Decompress gives it back.
  pub compress_total :
      (src : Text) (l : ℕ)
      → S.max_encoded_len (length src) ≡ some l
      → (e : Text) × (compress S src ≡ some e) × (length e ≤ l) × (decompress S e ≡ value src)
  unfolding compress
  compress_total src l h =
      let (e, k, b) = encode_total (round_up l) l src h (round_up_bounds l).0 in
      let k' : compress S src ≡ some e = ap (λ o. S.encode (dest_len o) src) h ∙ k in
      (e, k', b, decompress-compress src e k')

  -- A frame with the snappy bit whose body is compressed is read as the frame with the plain body
  -- and without the bit, whatever its command, payload and time are.
  unmarshal_payload-compress :
      {N V : Type 0} (J : Json N V) (now : ℕ) (p : Frame N V) (plain_extension : ℕ) (e : Text)
      → bit_and p.extension compress_snappy ≡ compress_snappy
      → bit_and plain_extension compress_snappy ≢ compress_snappy
      → compress S p.body ≡ some e
      → unmarshal_payload J S now (record p { body = e })
        ≡ unmarshal_payload J S now (record p { extension = plain_extension })
  unfolding unmarshal_payload unmarshal_decoded unmarshal_body
  unmarshal_payload-compress J now p plain_extension e h h' c = ground (
    arith,
    decompress-compress p.body e c,
    ==_iff (bit_and p.extension compress_snappy) compress_snappy,
    ==_iff (bit_and plain_extension compress_snappy) compress_snappy,
  )
