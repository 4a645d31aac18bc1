-- ===== src/Csptp/ResponseTlv.antt =====
-- net/csptp/csptp.go: the response TLV, its length, EncodeResponseTLV and DecodeResponseTLV.
pub mod RoundTrip
use scion_time.Base.{length, List, Option, drop, if◌then◌else◌, ltb, none, some, ℕ, ◌+◌, ◌<◌, ◌^◌}
use scion_time.Base.Bytes.{at16, at32, at64, at8, put16, put32, put64, put8}
use scion_time.Base.Int.{Fits, bits, signed, ℤ}
use scion_time.Csptp.RequestTlv.{has_server_state_ds}
use scion_time.Csptp.Timestamp.{
  Bytes3, IsBytes3, IsTimestamp, Timestamp, bytes3_at, put_bytes3, put_timestamp, timestamp_at,
}

pub record ServerStateDs : Type 0 where
  pub gm_priority1 : ℕ
  pub gm_clock_class : ℕ
  pub gm_clock_accuracy : ℕ
  pub gm_clock_variance : ℕ
  pub gm_priority2 : ℕ
  pub gm_clock_id : ℕ
  pub steps_removed : ℕ
  pub time_source : ℕ
  pub reserved : ℕ

-- `request_correction_field` is an int64, `utc_offset` an int16; the other plain fields are
-- unsigned.
pub record ResponseTlv : Type 0 where
  pub type : ℕ
  pub length : ℕ
  pub organization_id : Bytes3
  pub organization_sub_type : Bytes3
  pub flag_field : ℕ
  pub error : ℕ
  pub request_ingress_timestamp : Timestamp
  pub request_correction_field : ℤ
  pub utc_offset : ℤ
  pub server_state_ds : ServerStateDs

-- The ranges of the Go types.
pub record IsServerStateDs (s : ServerStateDs) : Type 0 where
  pub gm_priority1 : s.gm_priority1 < 2 ^ 8
  pub gm_clock_class : s.gm_clock_class < 2 ^ 8
  pub gm_clock_accuracy : s.gm_clock_accuracy < 2 ^ 8
  pub gm_clock_variance : s.gm_clock_variance < 2 ^ 16
  pub gm_priority2 : s.gm_priority2 < 2 ^ 8
  pub gm_clock_id : s.gm_clock_id < 2 ^ 64
  pub steps_removed : s.steps_removed < 2 ^ 16
  pub time_source : s.time_source < 2 ^ 8
  pub reserved : s.reserved < 2 ^ 8

pub record IsResponseTlv (t : ResponseTlv) : Type 0 where
  pub type : t.type < 2 ^ 16
  pub length : t.length < 2 ^ 16
  pub organization_id : IsBytes3 t.organization_id
  pub organization_sub_type : IsBytes3 t.organization_sub_type
  pub flag_field : t.flag_field < 2 ^ 32
  pub error : t.error < 2 ^ 16
  pub request_ingress_timestamp : IsTimestamp t.request_ingress_timestamp
  pub request_correction_field : Fits (2 ^ 63) t.request_correction_field
  pub utc_offset : Fits (2 ^ 15) t.utc_offset
  pub server_state_ds : IsServerStateDs t.server_state_ds

abbrev pub no_server_state_ds : ServerStateDs
no_server_state_ds = record {
  gm_priority1 = 0;
  gm_clock_class = 0;
  gm_clock_accuracy = 0;
  gm_clock_variance = 0;
  gm_priority2 = 0;
  gm_clock_id = 0;
  steps_removed = 0;
  time_source = 0;
  reserved = 0;
}

unfoldable pub encoded_response_tlv_length : ResponseTlv → ℕ
encoded_response_tlv_length t =
    let len : ℕ = 36 in if has_server_state_ds t.flag_field then len + 18 else len

-- b[36] to b[53], in front of what is behind them.
abbrev put_server_state_ds : ServerStateDs → List ℕ → List ℕ
put_server_state_ds s r = put8 s.gm_priority1 (
    put8 s.gm_clock_class (
      put8 s.gm_clock_accuracy (
        put16 s.gm_clock_variance (
          put8 s.gm_priority2 (
            put64 s.gm_clock_id
              (put16 s.steps_removed (put8 s.time_source (put8 s.reserved r))))))))

-- b[0] to b[35], in front of what is behind them.
unfoldable pub response_tlv_bytes : ResponseTlv → List ℕ → List ℕ
response_tlv_bytes t r = put16 t.type (
    put16 t.length (
      put_bytes3 t.organization_id (
        put_bytes3 t.organization_sub_type (
          put32 t.flag_field (
            put16 t.error (
              put_timestamp t.request_ingress_timestamp (
                put64 (bits (2 ^ 64) t.request_correction_field)
                  (put16 (bits (2 ^ 16) t.utc_offset) r))))))))

-- Overwrites the front of the slice `b`; `none` is the panic of `b[35]` or `b[53]`.
unfoldable pub encode_response_tlv : List ℕ → ResponseTlv → Option (List ℕ)
encode_response_tlv b t =
    if ltb 35 (length b)
    then (if has_server_state_ds t.flag_field
        then (if ltb 53 (length b)
            then some (response_tlv_bytes t (put_server_state_ds t.server_state_ds (drop 54 b)))
            else none)
        else some (response_tlv_bytes t (drop 36 b)))
    else none

abbrev server_state_ds_at : List ℕ → ServerStateDs
server_state_ds_at b = record {
  gm_priority1 = at8 b 36;
  gm_clock_class = at8 b 37;
  gm_clock_accuracy = at8 b 38;
  gm_clock_variance = at16 b 39;
  gm_priority2 = at8 b 41;
  gm_clock_id = at64 b 42;
  steps_removed = at16 b 50;
  time_source = at8 b 52;
  reserved = at8 b 53;
}

-- The fields at their offsets; the server state is the argument.
abbrev response_tlv_at : List ℕ → ServerStateDs → ResponseTlv
response_tlv_at b s = record {
  type = at16 b 0;
  length = at16 b 2;
  organization_id = bytes3_at b 4;
  organization_sub_type = bytes3_at b 7;
  flag_field = at32 b 10;
  error = at16 b 14;
  request_ingress_timestamp = timestamp_at b 16;
  request_correction_field = signed (2 ^ 63) (at64 b 26);
  utc_offset = signed (2 ^ 15) (at16 b 34);
  server_state_ds = s;
}

-- `none` is errUnexpectedResponseTLVSize; what is then left in `tlv` is not part of the model. The
-- length is checked once with the flags alone, which is all that the length depends on.
unfoldable pub decode_response_tlv : List ℕ → Option ResponseTlv
decode_response_tlv b =
    if ltb (length b) 14
    then none
    else if ltb (length b) (encoded_response_tlv_length (response_tlv_at b no_server_state_ds))
    then none
    else if has_server_state_ds (at32 b 10)
    then some (response_tlv_at b (server_state_ds_at b))
    else some (response_tlv_at b no_server_state_ds)
