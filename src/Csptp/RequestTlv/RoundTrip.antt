-- ===== src/Csptp/RequestTlv/RoundTrip.antt =====
-- EncodeRequestTLV and DecodeRequestTLV of net/csptp/csptp.go.
use scion_time.Base.{
  Bool-cases, List, arith, drop, inl, inr, length, le→ltb_false, some, ℕ, ◌≡◌, ◌≤◌, length-drop,
  lt→ltb, none, refl, replicate, ◌++◌, ◌<◌, ◌↔◌,
}
use scion_time.Base.Bytes.{put16_lem, put32_lem}
use scion_time.Csptp.RequestTlv.{
  IsRequestTlv, RequestTlv, decode_request_tlv, encode_request_tlv, encoded_request_tlv_length,
  has_server_state_ds, request_tlv_at, request_tlv_bytes,
}
use scion_time.Csptp.Timestamp.{bytes3_lem}

pub request_tlv_at-request_tlv_bytes :
    (t : RequestTlv) (r : List ℕ) → IsRequestTlv t → request_tlv_at (request_tlv_bytes t r) ≡ t
unfolding request_tlv_bytes
request_tlv_at-request_tlv_bytes t r v = λ i. record {
  type = put16_lem t.type v.type i;
  length = put16_lem t.length v.length i;
  organization_id = bytes3_lem t.organization_id v.organization_id i;
  organization_sub_type = bytes3_lem t.organization_sub_type v.organization_sub_type i;
  flag_field = put32_lem t.flag_field v.flag_field i;
}

decode_request_tlv-fits :
    (b : List ℕ) (t : RequestTlv)
    → request_tlv_at b ≡ t
    → encoded_request_tlv_length t ≤ length b
    → decode_request_tlv b ≡ some t
unfolding decode_request_tlv
decode_request_tlv-fits b t e h = rw (
  le→ltb_false (length b) 14 (unfold encoded_request_tlv_length in ground arith),
  e,
  le→ltb_false _ _ h,
)

-- EncodeRequestTLV succeeds exactly if the slice has the length that EncodedRequestTLVLength
-- gives; it keeps the length of the slice and the bytes behind that length, and DecodeRequestTLV
-- then reads the TLV that was written.
pub decode_request_tlv-encode_request_tlv :
    (b : List ℕ) (t : RequestTlv)
    → IsRequestTlv t
    → encoded_request_tlv_length t ≤ length b
    → (c : List ℕ) × (encode_request_tlv b t ≡ some c)
      × (decode_request_tlv c ≡ some t)
      × (length c ≡ length b)
      × (drop (encoded_request_tlv_length t) c ≡ drop (encoded_request_tlv_length t) b)
unfolding encoded_request_tlv_length encode_request_tlv
decode_request_tlv-encode_request_tlv b t v h =
    elim (Bool-cases (has_server_state_ds t.flag_field)) [
      | inl e ↦
          let long : 54 ≤ length b = rw e at h in
          let c = request_tlv_bytes t (replicate 22 0 ++ replicate 18 0 ++ drop 54 b) in
          let size : length c ≡ length b =
            unfold request_tlv_bytes in omega (arith, length-drop 54 b) in
          (
            c,
            rw (lt→ltb 35 (length b) (omega arith), e, lt→ltb 53 (length b) long),
            decode_request_tlv-fits c t (request_tlv_at-request_tlv_bytes t _ v)
                (omega (arith, size)),
            size,
            rw e (unfold request_tlv_bytes in refl),
          )
      | inr e ↦
          let long : 36 ≤ length b = rw e at h in
          let c = request_tlv_bytes t (replicate 22 0 ++ drop 36 b) in
          let size : length c ≡ length b =
            unfold request_tlv_bytes in omega (arith, length-drop 36 b) in
          (
            c,
            rw (lt→ltb 35 (length b) long, e),
            decode_request_tlv-fits c t (request_tlv_at-request_tlv_bytes t _ v)
                (omega (arith, size)),
            size,
            rw e (unfold request_tlv_bytes in refl),
          )
    ]

-- EncodeRequestTLV panics exactly on slices shorter than EncodedRequestTLVLength says.
pub encode_request_tlv-none :
    (b : List ℕ) (t : RequestTlv)
    → (encode_request_tlv b t ≡ none) ↔ (length b < encoded_request_tlv_length t)
unfolding encoded_request_tlv_length encode_request_tlv
encode_request_tlv-none b t = ground arith
