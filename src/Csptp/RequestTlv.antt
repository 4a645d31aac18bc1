-- ===== src/Csptp/RequestTlv.antt =====
-- net/csptp/csptp.go: the request TLV, its length, EncodeRequestTLV and DecodeRequestTLV.
pub mod RoundTrip
use Prim.Native.Nat.{bit_and}
use scion_time.Base.{
  length, Bool, List, Option, drop, if◌then◌else◌, ltb, none, replicate, some, ℕ, ◌++◌, ◌+◌, ◌<◌,
  ◌==◌, ◌^◌,
}
use scion_time.Base.Bytes.{at16, at32, put16, put32}
use scion_time.Csptp.Timestamp.{Bytes3, IsBytes3, bytes3_at, put_bytes3}

abbrev pub tlv_flag_server_state_ds : ℕ
tlv_flag_server_state_ds = 1

-- `flags&TLVFlagServerStateDS == TLVFlagServerStateDS`
unfoldable pub has_server_state_ds : ℕ → Bool
has_server_state_ds flags = bit_and flags tlv_flag_server_state_ds == tlv_flag_server_state_ds

pub record RequestTlv : Type 0 where
  pub type : ℕ
  pub length : ℕ
  pub organization_id : Bytes3
  pub organization_sub_type : Bytes3
  pub flag_field : ℕ

-- The ranges of the Go types.
pub record IsRequestTlv (t : RequestTlv) : Type 0 where
  pub type : t.type < 2 ^ 16
  pub length : t.length < 2 ^ 16
  pub organization_id : IsBytes3 t.organization_id
  pub organization_sub_type : IsBytes3 t.organization_sub_type
  pub flag_field : t.flag_field < 2 ^ 32

unfoldable pub encoded_request_tlv_length : RequestTlv → ℕ
encoded_request_tlv_length t =
    let len = 14 + 22 in if has_server_state_ds t.flag_field then len + 18 else len

-- b[0] to b[13], in front of what is behind them.
unfoldable pub request_tlv_bytes : RequestTlv → List ℕ → List ℕ
request_tlv_bytes t r = put16 t.type (
    put16 t.length
      (put_bytes3 t.organization_id (put_bytes3 t.organization_sub_type (put32 t.flag_field r))))

-- Overwrites the front of the slice `b`, the padding included; `none` is the panic of `b[35]` or
-- `b[53]`.
unfoldable pub encode_request_tlv : List ℕ → RequestTlv → Option (List ℕ)
encode_request_tlv b t =
    if ltb 35 (length b)
    then (if has_server_state_ds t.flag_field
        then (if ltb 53 (length b)
            then some (request_tlv_bytes t (replicate 22 0 ++ replicate 18 0 ++ drop 54 b))
            else none)
        else some (request_tlv_bytes t (replicate 22 0 ++ drop 36 b)))
    else none

-- The fields at their offsets.
abbrev pub request_tlv_at : List ℕ → RequestTlv
request_tlv_at b = record {
  type = at16 b 0;
  length = at16 b 2;
  organization_id = bytes3_at b 4;
  organization_sub_type = bytes3_at b 7;
  flag_field = at32 b 10;
}

-- `none` is errUnexpectedRequestTLVSize; what is then left in `tlv` is not part of the model.
unfoldable pub decode_request_tlv : List ℕ → Option RequestTlv
decode_request_tlv b =
    if ltb (length b) 14
    then none
    else let t = request_tlv_at b in
      if ltb (length b) (encoded_request_tlv_length t) then none else some t
