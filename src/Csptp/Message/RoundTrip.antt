-- ===== src/Csptp/Message/RoundTrip.antt =====
-- EncodeMessage and DecodeMessage of net/csptp/csptp.go undo one another.
use scion_time.Base.{
  List, ap, arith, drop, length, length-drop, le→ltb_false, lt→ltb, none, refl, some, ℕ, ◌<◌, ◌↔◌,
  ◌∙◌, ◌≡◌, ◌≤◌,
}
use scion_time.Base.Bytes.{byte_lem, int64_lem, int8_lem, put16_lem, put32_lem, put64_lem}
use scion_time.Csptp.Message.{
  IsMessage, Message, decode_message, encode_message, message_at, message_bytes, min_message_length,
}
use scion_time.Csptp.Timestamp.{timestamp_lem}

decode_message-fits :
    (b : List ℕ) → min_message_length ≤ length b → decode_message b ≡ some (message_at b)
unfolding decode_message
decode_message-fits b h = rw (le→ltb_false _ _ h)

message_at-message_bytes :
    (m : Message) (r : List ℕ) → IsMessage m → message_at (message_bytes m r) ≡ m
unfolding message_bytes
message_at-message_bytes m r v = λ i. record {
  sdo_id_message_type = byte_lem m.sdo_id_message_type v.sdo_id_message_type i;
  ptp_version = byte_lem m.ptp_version v.ptp_version i;
  message_length = put16_lem m.message_length v.message_length i;
  domain_number = byte_lem m.domain_number v.domain_number i;
  minor_sdo_id = byte_lem m.minor_sdo_id v.minor_sdo_id i;
  flag_field = put16_lem m.flag_field v.flag_field i;
  correction_field = int64_lem m.correction_field v.correction_field i;
  message_type_specific = put32_lem m.message_type_specific v.message_type_specific i;
  source_port_identity = record {
    clock_id = put64_lem m.source_port_identity.clock_id v.clock_id i;
    port = put16_lem m.source_port_identity.port v.port i;
  };
  sequence_id = put16_lem m.sequence_id v.sequence_id i;
  control_field = byte_lem m.control_field v.control_field i;
  log_message_interval = int8_lem m.log_message_interval v.log_message_interval i;
  timestamp = timestamp_lem m.timestamp v.timestamp i;
}

-- EncodeMessage writes a message of the Go types over the first 44 bytes of any slice that is long
-- enough, and keeps the length and the bytes behind them; DecodeMessage then reads that message.
pub decode_message-encode_message :
    (b : List ℕ) (m : Message)
    → IsMessage m
    → min_message_length ≤ length b
    → (c : List ℕ) × (encode_message b m ≡ some c)
      × (decode_message c ≡ some m)
      × (length c ≡ length b)
      × (drop min_message_length c ≡ drop min_message_length b)
unfolding encode_message
decode_message-encode_message b m v h = (
  message_bytes m (drop 44 b),
  rw (lt→ltb _ _ h),
  decode_message-fits (message_bytes m (drop 44 b)) (unfold message_bytes in omega arith)
      ∙ ap some (message_at-message_bytes m (drop 44 b) v),
  unfold message_bytes in omega (arith, length-drop 44 b),
  unfold message_bytes in refl,
)

-- EncodeMessage panics, and DecodeMessage returns its error, exactly on slices of less than 44
-- bytes.
pub message_none :
    (b : List ℕ) (m : Message)
    → ((encode_message b m ≡ none) ↔ (length b < min_message_length))
      × ((decode_message b ≡ none) ↔ (length b < min_message_length))
unfolding encode_message decode_message
message_none b m = (ground arith, ground arith)
