-- ===== src/Csptp/Message.antt =====
-- net/csptp/csptp.go: the PTP message, EncodeMessage and DecodeMessage.
pub mod RoundTrip
use scion_time.Base.{List, Option, drop, if◌then◌else◌, length, ltb, none, some, ℕ, ◌<◌, ◌^◌}
use scion_time.Base.Bytes.{at16, at32, at64, at8, put16, put32, put64, put8}
use scion_time.Base.Int.{Fits, bits, signed, ℤ}
use scion_time.Csptp.Timestamp.{IsTimestamp, Timestamp, put_timestamp, timestamp_at}

abbrev pub min_message_length : ℕ
min_message_length = 44

pub record PortId : Type 0 where
  pub clock_id : ℕ
  pub port : ℕ

-- `correction_field` is an int64, `log_message_interval` an int8; the other plain fields are
-- unsigned.
pub record Message : Type 0 where
  pub sdo_id_message_type : ℕ
  pub ptp_version : ℕ
  pub message_length : ℕ
  pub domain_number : ℕ
  pub minor_sdo_id : ℕ
  pub flag_field : ℕ
  pub correction_field : ℤ
  pub message_type_specific : ℕ
  pub source_port_identity : PortId
  pub sequence_id : ℕ
  pub control_field : ℕ
  pub log_message_interval : ℤ
  pub timestamp : Timestamp

-- The ranges of the Go types.
pub record IsMessage (m : Message) : Type 0 where
  pub sdo_id_message_type : m.sdo_id_message_type < 2 ^ 8
  pub ptp_version : m.ptp_version < 2 ^ 8
  pub message_length : m.message_length < 2 ^ 16
  pub domain_number : m.domain_number < 2 ^ 8
  pub minor_sdo_id : m.minor_sdo_id < 2 ^ 8
  pub flag_field : m.flag_field < 2 ^ 16
  pub correction_field : Fits (2 ^ 63) m.correction_field
  pub message_type_specific : m.message_type_specific < 2 ^ 32
  pub clock_id : m.source_port_identity.clock_id < 2 ^ 64
  pub port : m.source_port_identity.port < 2 ^ 16
  pub sequence_id : m.sequence_id < 2 ^ 16
  pub control_field : m.control_field < 2 ^ 8
  pub log_message_interval : Fits (2 ^ 7) m.log_message_interval
  pub timestamp : IsTimestamp m.timestamp

-- b[0] to b[43], in front of what is behind them.
unfoldable pub message_bytes : Message → List ℕ → List ℕ
message_bytes m r = put8 m.sdo_id_message_type (
    put8 m.ptp_version (
      put16 m.message_length (
        put8 m.domain_number (
          put8 m.minor_sdo_id (
            put16 m.flag_field (
              put64 (bits (2 ^ 64) m.correction_field) (
                put32 m.message_type_specific (
                  put64 m.source_port_identity.clock_id (
                    put16 m.source_port_identity.port (
                      put16 m.sequence_id (
                        put8 m.control_field (
                          put8 (bits (2 ^ 8) m.log_message_interval)
                            (put_timestamp m.timestamp r)))))))))))))

-- Overwrites the front of the slice `b`; `none` is the panic of `b[43]`.
unfoldable pub encode_message : List ℕ → Message → Option (List ℕ)
encode_message b m =
    if ltb 43 (length b) then some (message_bytes m (drop min_message_length b)) else none

-- The fields at their offsets.
abbrev pub message_at : List ℕ → Message
message_at b = record {
  sdo_id_message_type = at8 b 0;
  ptp_version = at8 b 1;
  message_length = at16 b 2;
  domain_number = at8 b 4;
  minor_sdo_id = at8 b 5;
  flag_field = at16 b 6;
  correction_field = signed (2 ^ 63) (at64 b 8);
  message_type_specific = at32 b 16;
  source_port_identity = record { clock_id = at64 b 20; port = at16 b 28 };
  sequence_id = at16 b 30;
  control_field = at8 b 32;
  log_message_interval = signed (2 ^ 7) (at8 b 33);
  timestamp = timestamp_at b 34;
}

-- `none` is errUnexpectedMessageSize.
unfoldable pub decode_message : List ℕ → Option Message
decode_message b = if ltb (length b) min_message_length then none else some (message_at b)
