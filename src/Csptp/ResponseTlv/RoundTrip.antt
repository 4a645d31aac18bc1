-- ===== src/Csptp/ResponseTlv/RoundTrip.antt =====
-- EncodeResponseTLV and DecodeResponseTLV of net/csptp/csptp.go.
use scion_time.Base.{
  Bool-cases, List, ap, arith, drop, if◌then◌else◌, inl, inr, length, length-drop, le→ltb_false,
  lt→ltb, none, refl, some, ℕ, ◌<◌, ◌↔◌, ◌≡◌, ◌≤◌, false, true, ◌∙◌,
}
use scion_time.Base.Bytes.{at32, byte_lem, int16_lem, int64_lem, put16_lem, put32_lem, put64_lem}
use scion_time.Csptp.RequestTlv.{has_server_state_ds}
use scion_time.Csptp.ResponseTlv.{
  IsResponseTlv, IsServerStateDs, ResponseTlv, ServerStateDs, decode_response_tlv,
  encode_response_tlv, encoded_response_tlv_length, no_server_state_ds, response_tlv_bytes,
  put_server_state_ds, response_tlv_at, server_state_ds_at,
}
use scion_time.Csptp.Timestamp.{bytes3_lem, timestamp_lem}

server_state_ds_lem :
    (t : ResponseTlv) (r : List ℕ)
    → IsServerStateDs t.server_state_ds
    → server_state_ds_at (response_tlv_bytes t (put_server_state_ds t.server_state_ds r))
      ≡ t.server_state_ds
unfolding response_tlv_bytes
server_state_ds_lem t r v = λ i.
    let s = t.server_state_ds in
    record {
      gm_priority1 = byte_lem s.gm_priority1 v.gm_priority1 i;
      gm_clock_class = byte_lem s.gm_clock_class v.gm_clock_class i;
      gm_clock_accuracy = byte_lem s.gm_clock_accuracy v.gm_clock_accuracy i;
      gm_clock_variance = put16_lem s.gm_clock_variance v.gm_clock_variance i;
      gm_priority2 = byte_lem s.gm_priority2 v.gm_priority2 i;
      gm_clock_id = put64_lem s.gm_clock_id v.gm_clock_id i;
      steps_removed = put16_lem s.steps_removed v.steps_removed i;
      time_source = byte_lem s.time_source v.time_source i;
      reserved = byte_lem s.reserved v.reserved i;
    }

response_tlv_at-response_tlv_bytes :
    (t : ResponseTlv) (r : List ℕ) (s : ServerStateDs)
    → IsResponseTlv t
    → response_tlv_at (response_tlv_bytes t r) s ≡ record t { server_state_ds = s }
unfolding response_tlv_bytes
response_tlv_at-response_tlv_bytes t r s v = λ i. record {
  type = put16_lem t.type v.type i;
  length = put16_lem t.length v.length i;
  organization_id = bytes3_lem t.organization_id v.organization_id i;
  organization_sub_type = bytes3_lem t.organization_sub_type v.organization_sub_type i;
  flag_field = put32_lem t.flag_field v.flag_field i;
  error = put16_lem t.error v.error i;
  request_ingress_timestamp =
      timestamp_lem t.request_ingress_timestamp v.request_ingress_timestamp i;
  request_correction_field = int64_lem t.request_correction_field v.request_correction_field i;
  utc_offset = int16_lem t.utc_offset v.utc_offset i;
  server_state_ds = s;
}

-- What DecodeResponseTLV can know of a TLV: the server state only if its flag is set.
pub visible : ResponseTlv → ResponseTlv
visible t =
    if has_server_state_ds t.flag_field
    then t
    else record t { server_state_ds = no_server_state_ds }

module _ (c : List ℕ) where
  decode_with :
      has_server_state_ds (at32 c 10) ≡ true
      → 54 ≤ length c
      → decode_response_tlv c ≡ some (response_tlv_at c (server_state_ds_at c))
  unfolding decode_response_tlv encoded_response_tlv_length
  decode_with e h = rw (le→ltb_false (length c) 14 (omega arith), e, le→ltb_false (length c) 54 h)

  decode_without :
      has_server_state_ds (at32 c 10) ≡ false
      → 36 ≤ length c
      → decode_response_tlv c ≡ some (response_tlv_at c no_server_state_ds)
  unfolding decode_response_tlv encoded_response_tlv_length
  decode_without e h =
      rw (le→ltb_false (length c) 14 (omega arith), e, le→ltb_false (length c) 36 h)

module _ (t : ResponseTlv) (r : List ℕ) (v : IsResponseTlv t) where
  flags_kept :
      has_server_state_ds (at32 (response_tlv_bytes t r) 10) ≡ has_server_state_ds t.flag_field
  flags_kept =
      ap (λ (x : ResponseTlv). has_server_state_ds x.flag_field)
        (response_tlv_at-response_tlv_bytes t r no_server_state_ds v)

-- On every slice of at least the length that EncodedResponseTLVLength gives, EncodeResponseTLV
-- succeeds and keeps the length of the slice and the bytes behind that length; DecodeResponseTLV
-- then reads the TLV that was written, with a server state of zeros if the flags announce none.
pub decode_response_tlv-encode_response_tlv :
    (b : List ℕ) (t : ResponseTlv)
    → IsResponseTlv t
    → encoded_response_tlv_length t ≤ length b
    → (c : List ℕ) × (encode_response_tlv b t ≡ some c)
      × (decode_response_tlv c ≡ some (visible t))
      × (length c ≡ length b)
      × (drop (encoded_response_tlv_length t) c ≡ drop (encoded_response_tlv_length t) b)
unfolding encoded_response_tlv_length encode_response_tlv visible
decode_response_tlv-encode_response_tlv b t v h =
    elim (Bool-cases (has_server_state_ds t.flag_field)) [
      | inl e ↦
          let long : 54 ≤ length b = rw e at h in
          let r = put_server_state_ds t.server_state_ds (drop 54 b) in
          let c = response_tlv_bytes t r in
          let size : length c ≡ length b =
            unfold response_tlv_bytes in omega (arith, length-drop 54 b) in
          let read : response_tlv_at c (server_state_ds_at c) ≡ t =
            rw (server_state_ds_lem t (drop 54 b) v.server_state_ds)
              (response_tlv_at-response_tlv_bytes t r t.server_state_ds v) in
          (
            c,
            rw (lt→ltb 35 (length b) (omega arith), e, lt→ltb 53 (length b) long),
            rw (e, visible)
                (decode_with c (flags_kept t r v ∙ e) (omega (arith, size)) ∙ ap some read),
            size,
            rw e (unfold response_tlv_bytes in refl),
          )
      | inr e ↦
          let long : 36 ≤ length b = rw e at h in
          let r = drop 36 b in
          let c = response_tlv_bytes t r in
          let size : length c ≡ length b =
            unfold response_tlv_bytes in omega (arith, length-drop 36 b) in
          (
            c,
            rw (lt→ltb 35 (length b) long, e),
            rw (e, visible)
                (decode_without c (flags_kept t r v ∙ e) (omega (arith, size))
                  ∙ ap some (response_tlv_at-response_tlv_bytes t r no_server_state_ds v)),
            size,
            rw e (unfold response_tlv_bytes in refl),
          )
    ]

-- EncodeResponseTLV panics exactly on slices shorter than EncodedResponseTLVLength says.
pub encode_response_tlv-none :
    (b : List ℕ) (t : ResponseTlv)
    → (encode_response_tlv b t ≡ none) ↔ (length b < encoded_response_tlv_length t)
unfolding encoded_response_tlv_length encode_response_tlv
encode_response_tlv-none b t = ground arith
