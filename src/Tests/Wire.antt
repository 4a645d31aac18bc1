-- ===== src/Tests/Wire.antt =====
-- Concrete runs of the encoders and decoders of net/ntp, net/csptp and net/ntske.
use scion_time.Ntp.Packet.{Packet, encode_packet, decode_packet, IsPacket, packet_len}
use scion_time.Csptp.Timing.{
  received, returned, clock_offset, c2s_delay, c2s_delay-s2c_delay, mean_path_delay,
  mean_path_delay-clock_offset, s2c_delay,
}
use scion_time.Ntske.Records.{
  Record, Data, port, cookie, algorithm, end_of_message, next_proto, pack, read_data,
}
use scion_time.Base.Run.{ok, out_of_fuel}
use scion_time.Base.{
  All, List, [], arith, drop, length, refl, replicate, some, suc, take, true, zero, ℕ, ◌*◌, ◌++◌,
  ◌+◌, ◌/◌, ◌^◌, ◌∷◌, ◌≡◌, ◌≢◌,
}
use scion_time.Base.Bytes.{IsByte, join16, join32}
use scion_time.Base.Int.{floor_div, negsuc, pos, signed, ◌+ℤ◌, ◌≤ℤ◌}
use scion_time.Csptp.Message.{Message, decode_message, encode_message, min_message_length}
use scion_time.Csptp.Message.RoundTrip.{decode_message-encode_message}
use scion_time.Csptp.RequestTlv.{
  RequestTlv, decode_request_tlv, encode_request_tlv, encoded_request_tlv_length,
  has_server_state_ds,
}
use scion_time.Csptp.RequestTlv.RoundTrip.{decode_request_tlv-encode_request_tlv}
use scion_time.Csptp.ResponseTlv.{
  ResponseTlv, decode_response_tlv, encode_response_tlv, encoded_response_tlv_length,
  no_server_state_ds,
}
use scion_time.Csptp.ResponseTlv.RoundTrip.{decode_response_tlv-encode_response_tlv, visible}
use scion_time.Csptp.Timestamp.{
  Bytes3, IsTimestamp, Timestamp, time_from_timestamp, time_from_timestamp-timestamp_from_time,
  timestamp_from_time,
}
use scion_time.GoTime.{Time, unix}
use scion_time.Ntp.Packet.RoundTrip.{decode_packet-encode_packet, encode_packet-decode_packet}
use scion_time.Ntp.Time64.{Time64}
use scion_time.Ntske.Records.RoundTrip.{all_told, read_data-pack, CookiesArrive-full}
use scion_time.Ntske.Records.Termination.{read_data-ne-out_of_fuel}

abbrev wire_time : Time64
wire_time = record { seconds = 3908988800; fraction = 5 }

abbrev wire_packet : Packet
wire_packet = record {
  lvm = 0b00_100_011;
  stratum = 2;
  poll = pos 6;
  precision = negsuc 19;
  root_delay = record { seconds = 1; fraction = 2 };
  root_dispersion = record { seconds = 3; fraction = 4 };
  reference_id = 77;
  reference_time = wire_time;
  origin_time = wire_time;
  receive_time = wire_time;
  transmit_time = wire_time;
}

abbrev wire_packet-IsPacket : IsPacket wire_packet
wire_packet-IsPacket = record {
  lvm = omega arith;
  stratum = omega arith;
  poll = omega arith;
  precision = omega arith;
  root_delay = (omega arith, omega arith);
  root_dispersion = (omega arith, omega arith);
  reference_id = omega arith;
  reference_time = (omega arith, omega arith);
  origin_time = (omega arith, omega arith);
  receive_time = (omega arith, omega arith);
  transmit_time = (omega arith, omega arith);
}

abbrev sixty_bytes : List ℕ
sixty_bytes = replicate 60 9

abbrev wire_bytes : List ℕ
wire_bytes = replicate 48 9

decode_packet-encode_packet_example :
    decode_packet (encode_packet wire_packet ++ (9 ∷ [])) ≡ some wire_packet
decode_packet-encode_packet_example =
    decode_packet-encode_packet wire_packet (9 ∷ []) wire_packet-IsPacket

abbrev nines_time : Time64
nines_time = record { seconds = 0x09090909; fraction = 0x09090909 }

-- The packet with the byte 9 everywhere.
abbrev nines : Packet
nines = record {
  lvm = 9;
  stratum = 9;
  poll = pos 9;
  precision = pos 9;
  root_delay = record { seconds = 0x0909; fraction = 0x0909 };
  root_dispersion = record { seconds = 0x0909; fraction = 0x0909 };
  reference_id = 0x09090909;
  reference_time = nines_time;
  origin_time = nines_time;
  receive_time = nines_time;
  transmit_time = nines_time;
}

All-nines : (n : ℕ) → All IsByte (replicate n 9)
All-nines zero = tt
All-nines (suc n) = (omega arith, All-nines n)

encode_packet-decode_packet_test : encode_packet nines ≡ take packet_len (replicate 48 9)
unfolding decode_packet signed join16 join32
encode_packet-decode_packet_test =
    encode_packet-decode_packet (replicate 48 9) nines (All-nines 48) refl

abbrev wire_message : Message
wire_message = record {
  sdo_id_message_type = 0x30;
  ptp_version = 0x12;
  message_length = 98;
  domain_number = 0;
  minor_sdo_id = 0;
  flag_field = 0x400;
  correction_field = negsuc 4;
  message_type_specific = 0;
  source_port_identity = record { clock_id = 1; port = 1 };
  sequence_id = 3;
  control_field = 5;
  log_message_interval = pos 127;
  timestamp = record {
    seconds = record { b0 = 0; b1 = 0; b2 = 1; b3 = 2; b4 = 3; b5 = 4 };
    nanoseconds = 8;
  };
}

abbrev no_bytes3 : Bytes3
no_bytes3 = record { b0 = 1; b1 = 2; b2 = 3 }

abbrev wire_request : RequestTlv
wire_request = record {
  type = 3;
  length = 32;
  organization_id = no_bytes3;
  organization_sub_type = no_bytes3;
  flag_field = 1;
}

abbrev wire_response : ResponseTlv
wire_response = record {
  type = 3;
  length = 32;
  organization_id = no_bytes3;
  organization_sub_type = no_bytes3;
  flag_field = 0;
  error = 0;
  request_ingress_timestamp = wire_message.timestamp;
  request_correction_field = negsuc 2;
  utc_offset = pos 37;
  server_state_ds = no_server_state_ds;
}

decode_message-encode_message_example :
    (c : List ℕ) × (encode_message wire_bytes wire_message ≡ some c)
    × (decode_message c ≡ some wire_message)
    × (length c ≡ length wire_bytes)
    × (drop min_message_length c ≡ drop min_message_length wire_bytes)
decode_message-encode_message_example =
    decode_message-encode_message wire_bytes wire_message
      (record {
        sdo_id_message_type = omega arith;
        ptp_version = omega arith;
        message_length = omega arith;
        domain_number = omega arith;
        minor_sdo_id = omega arith;
        flag_field = omega arith;
        correction_field = omega arith;
        message_type_specific = omega arith;
        clock_id = omega arith;
        port = omega arith;
        sequence_id = omega arith;
        control_field = omega arith;
        log_message_interval = omega arith;
        timestamp = (
          (omega arith, omega arith, omega arith, omega arith, omega arith, omega arith),
          omega arith,
        );
      })
      (omega arith)

decode_request_tlv-encode_request_tlv_example :
    (c : List ℕ) × (encode_request_tlv (sixty_bytes) wire_request ≡ some c)
    × (decode_request_tlv c ≡ some wire_request)
    × (length c ≡ length (sixty_bytes))
    × (drop (encoded_request_tlv_length wire_request) c
        ≡ drop (encoded_request_tlv_length wire_request) (sixty_bytes))
unfolding encoded_request_tlv_length has_server_state_ds
decode_request_tlv-encode_request_tlv_example =
    decode_request_tlv-encode_request_tlv (sixty_bytes) wire_request
      (record {
        type = omega arith;
        length = omega arith;
        organization_id = (omega arith, omega arith, omega arith);
        organization_sub_type = (omega arith, omega arith, omega arith);
        flag_field = omega arith;
      })
      (omega arith)

decode_response_tlv-encode_response_tlv_example :
    (c : List ℕ) × (encode_response_tlv wire_bytes wire_response ≡ some c)
    × (decode_response_tlv c ≡ some (visible wire_response))
    × (length c ≡ length wire_bytes)
    × (drop (encoded_response_tlv_length wire_response) c
        ≡ drop (encoded_response_tlv_length wire_response) wire_bytes)
unfolding encoded_response_tlv_length has_server_state_ds
decode_response_tlv-encode_response_tlv_example =
    decode_response_tlv-encode_response_tlv wire_bytes wire_response
      (record {
        type = omega arith;
        length = omega arith;
        organization_id = (omega arith, omega arith, omega arith);
        organization_sub_type = (omega arith, omega arith, omega arith);
        flag_field = omega arith;
        error = omega arith;
        request_ingress_timestamp = (
          (omega arith, omega arith, omega arith, omega arith, omega arith, omega arith),
          omega arith,
        );
        request_correction_field = omega arith;
        utc_offset = omega arith;
        server_state_ds = record {
          gm_priority1 = omega arith;
          gm_clock_class = omega arith;
          gm_clock_accuracy = omega arith;
          gm_clock_variance = omega arith;
          gm_priority2 = omega arith;
          gm_clock_id = omega arith;
          steps_removed = omega arith;
          time_source = omega arith;
          reserved = omega arith;
        };
      })
      (omega arith)

-- 2023-11-14, 22:13:20 UTC
abbrev wire_clock : Time
wire_clock = pos (1700000000 * 10 ^ 9 + 5)

time_from_timestamp-timestamp_from_time_example :
    (s : Timestamp) × (timestamp_from_time wire_clock ≡ some s)
    × IsTimestamp s
    × (time_from_timestamp s ≡ wire_clock)
unfolding unix floor_div
time_from_timestamp-timestamp_from_time_example =
    time_from_timestamp-timestamp_from_time wire_clock 1700000000 refl (omega arith)

mean_path_delay-clock_offset_example :
    (mean_path_delay wire_clock
        (received wire_clock wire_clock (pos 3) 10 2 30 4)
        wire_clock
        (returned wire_clock wire_clock (pos 3) 10 2 30 4)
        (pos 2)
        (pos 4)
      ≡ pos ((10 + 30) / 2))
    × (clock_offset wire_clock
          (received wire_clock wire_clock (pos 3) 10 2 30 4)
          wire_clock
          (returned wire_clock wire_clock (pos 3) 10 2 30 4)
          (pos 2)
          (pos 4)
        ≤ℤ pos 3 +ℤ pos ((10 + 30 + 1) / 2))
    × (pos 3
        ≤ℤ clock_offset wire_clock
            (received wire_clock wire_clock (pos 3) 10 2 30 4)
            wire_clock
            (returned wire_clock wire_clock (pos 3) 10 2 30 4)
            (pos 2)
            (pos 4)
          +ℤ pos ((10 + 30 + 1) / 2))
mean_path_delay-clock_offset_example =
    mean_path_delay-clock_offset wire_clock wire_clock (pos 3) 10 2 30 4 (omega arith) (omega arith)
      (omega arith) (omega arith) (omega arith)

c2s_delay-s2c_delay_test :
    (c2s_delay wire_clock (received wire_clock wire_clock (pos 3) 10 2 30 4) (pos 2) (pos 3)
      ≡ pos 10)
    × (s2c_delay wire_clock (returned wire_clock wire_clock (pos 3) 10 2 30 4) (pos 4) (pos 3)
        ≡ pos 30)
c2s_delay-s2c_delay_test =
    c2s_delay-s2c_delay wire_clock wire_clock (pos 3) 10 2 30 4 (omega arith) (omega arith)
      (omega arith) (omega arith) (omega arith)

abbrev wire_records : List Record
wire_records = next_proto 0 ∷ algorithm (15 ∷ []) ∷ port 4123 true ∷ cookie (1 ∷ 2 ∷ 3 ∷ []) ∷ []

abbrev wire_data : Data
wire_data = record { c2s_key = []; s2c_key = []; server = []; port = 0; cookie = []; algo = 0 }

read_data-pack_example :
    read_data
      (λ n b. n)
      (suc (length wire_records))
      wire_data
      (pack (wire_records ++ (end_of_message ∷ [])) (7 ∷ []))
    ≡ ok (all_told wire_data wire_records)
read_data-pack_example =
    read_data-pack (λ n b. n) wire_data wire_records (7 ∷ [])
      (omega arith, (omega arith, (omega arith, (omega arith, tt))))
      (CookiesArrive-full (wire_records ++ (end_of_message ∷ [])) (7 ∷ []))

read_data-ne-out_of_fuel_example :
    read_data (λ n b. 1) 7 wire_data (128 ∷ 1 ∷ 0 ∷ 2 ∷ 0 ∷ 0 ∷ []) ≢ out_of_fuel
read_data-ne-out_of_fuel_example =
    read_data-ne-out_of_fuel (λ n b. 1) 7 wire_data (128 ∷ 1 ∷ 0 ∷ 2 ∷ 0 ∷ 0 ∷ []) (omega arith)
