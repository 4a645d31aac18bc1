-- ===== src/Tests/Server.antt =====
-- Concrete runs of the server's timestamp store, core/server/server.go, and of the checks on NTP
-- packets, net/ntp.
use scion_time.Ntp.Validation.{
  panic, accepted, validate_request, validate_response_metadata, validate_response_timestamps,
}
use scion_time.Ntp.Packet.{Packet}
use scion_time.Server.Item.Serves.{Serves, handle_request-Serves}
use scion_time.Base.{
  [], arith, refl, some, ℕ, ◌*◌, ◌+◌, ◌^◌, ◌∷◌, ◌≡◌, ◌%◌, ◌/◌, ◌↔◌, ◌≢◌, ◌≤◌, ◌⊎◌,
}
use scion_time.Base.Int.{negsuc, pos, bits, floor_div, floor_mod, ◌+ℤ◌, ◌-ℤ◌, ◌<ℤ◌, ◌≤ℤ◌}
use scion_time.GoTime.{Time, add, nanosecond, unix}
use scion_time.Ntp.Header.{set_mode, set_version, leap_indicator, mode, set_leap_indicator, version}
use scion_time.Ntp.Time64.{Time64, time64_eq, time64_from_time}
use scion_time.Server.Item.{
  Item, handle_request, make_unique, record_times, reply, scan, server_ref_id, ensure_after,
  tss_item_cap, update_tx_timestamp, kept,
}
use scion_time.Ntp.Header.Fields.{Reads, setters_keep}
use scion_time.Ntp.Validation.Accepted.{
  validate_request-accepted, validate_response_metadata-accepted,
  validate_response_timestamps_cases,
}
use scion_time.Server.Item.Interleaved.{IsBuffer, txt_of}
use scion_time.Server.Item.Unique.{make_unique-Settles, Settles}
use scion_time.Server.Item.Update.{Interleaves, interleaved_exchange, update_tx_timestamp-updates}

-- 2023-11-14, 22:13:20 UTC
abbrev server_time : Time
server_time = pos (1700000000 * 10 ^ 9)

abbrev zero64 : Time64
zero64 = record { seconds = 0; fraction = 0 }

abbrev zero_packet : Packet
zero_packet = record {
  lvm = 0;
  stratum = 0;
  poll = pos 0;
  precision = pos 0;
  root_delay = record { seconds = 0; fraction = 0 };
  root_dispersion = record { seconds = 0; fraction = 0 };
  reference_id = 0;
  reference_time = zero64;
  origin_time = zero64;
  receive_time = zero64;
  transmit_time = zero64;
}

abbrev stamp : ℕ → Time64
stamp f = record { seconds = 3908988800; fraction = f }

abbrev new_item : Item
new_item = record { buf = []; qval = stamp 0 }

-- The item of a client that sent its first request at `server_time`, which was read by the
-- server's clock 100 ns later.
abbrev first_item : Item
first_item = record { buf = record { rxt = stamp 0; txt = stamp 429 } ∷ []; qval = stamp 0 }

abbrev first_answer : Packet
first_answer = record zero_packet {
  lvm = 36;
  stratum = 1;
  precision = negsuc 31;
  root_dispersion = record { seconds = 0; fraction = 10 };
  reference_id = server_ref_id;
  reference_time = stamp 429;
  receive_time = stamp 0;
  transmit_time = stamp 429;
}

abbrev second_request : Packet
second_request = record zero_packet { origin_time = stamp 0; receive_time = stamp 7 }

first_request_test :
    handle_request new_item zero_packet zero_packet server_time (pos (1700000000 * 10 ^ 9 + 100))
    ≡ some (server_time, pos (1700000000 * 10 ^ 9 + 100), first_answer, first_item)
unfolding handle_request make_unique scan reply record_times set_version set_mode time64_from_time
    time64_eq bits nanosecond ◌-ℤ◌ floor_mod unix floor_div
first_request_test = refl

handle_request-Serves_example : Serves first_item zero_packet second_request server_time server_time
unfolding time64_eq
handle_request-Serves_example =
    handle_request-Serves first_item zero_packet second_request server_time server_time
      ((refl, tt), omega arith) (omega arith)

interleaved_exchange_example :
    Interleaves first_item zero_packet second_request server_time
      (pos (1700000000 * 10 ^ 9 + 500))
      (pos (1700000001 * 10 ^ 9))
      (pos (1700000001 * 10 ^ 9))
unfolding time64_eq time64_from_time bits nanosecond ◌-ℤ◌ floor_mod unix floor_div ensure_after
interleaved_exchange_example =
    interleaved_exchange new_item zero_packet zero_packet zero_packet second_request server_time
      (pos (1700000000 * 10 ^ 9 + 100)) (pos (1700000000 * 10 ^ 9 + 500))
      (pos (1700000001 * 10 ^ 9)) (pos (1700000001 * 10 ^ 9)) server_time
      (pos (1700000000 * 10 ^ 9 + 100)) first_answer first_item (tt, omega arith) (omega arith)
      (omega arith) first_request_test refl refl refl

update_tx_timestamp-updates_test :
    (server_time <ℤ ensure_after server_time (pos 3))
    × ((item' : Item) × (update_tx_timestamp first_item server_time (pos 3)
          ≡ (ensure_after server_time (pos 3), kept item'))
        × IsBuffer item'.buf
        × (txt_of (time64_from_time server_time) item'.buf
            ≡ some (time64_from_time (ensure_after server_time (pos 3)))))
unfolding time64_eq time64_from_time bits nanosecond ◌-ℤ◌ floor_mod unix floor_div ensure_after add
    ◌+ℤ◌
update_tx_timestamp-updates_test =
    update_tx_timestamp-updates first_item server_time (pos 3) (stamp 429) ((refl, tt), omega arith)
      refl refl

make_unique-Settles_test :
    Settles (tss_item_cap + 1) (stamp 0) first_item.buf server_time server_time
make_unique-Settles_test =
    make_unique-Settles (stamp 0) first_item.buf server_time server_time (omega arith)

setters_keep_test :
    ((q : Packet) × (set_leap_indicator 3 zero_packet ≡ some q)
      × Reads q 3 (version zero_packet) (mode zero_packet)
      × (record q { lvm = zero_packet.lvm } ≡ zero_packet))
    × ((q : Packet) × (set_version 4 zero_packet ≡ some q)
        × Reads q (leap_indicator zero_packet) 4 (mode zero_packet)
        × (record q { lvm = zero_packet.lvm } ≡ zero_packet))
    × ((q : Packet) × (set_mode 5 zero_packet ≡ some q)
        × Reads q (leap_indicator zero_packet) (version zero_packet) 5
        × (record q { lvm = zero_packet.lvm } ≡ zero_packet))
setters_keep_test =
    setters_keep zero_packet 3 4 5 (omega arith) (omega arith) (omega arith) (omega arith)

validate_response_metadata-accepted_example :
    (validate_response_metadata first_answer ≡ accepted) ↔ (
      (first_answer.lvm / 64 ≢ 3)
      × ((first_answer.lvm / 8 % 8 ≡ 3) ⊎ (first_answer.lvm / 8 % 8 ≡ 4))
      × (first_answer.lvm % 8 ≡ 4)
      × (1 ≤ first_answer.stratum)
      × (first_answer.stratum ≤ 15))
validate_response_metadata-accepted_example =
    validate_response_metadata-accepted first_answer (omega arith)

validate_request-accepted_test : (validate_request second_request 123 ≡ accepted) ↔ (
    ((second_request.lvm / 64 ≡ 0) ⊎ (second_request.lvm / 64 ≡ 3))
    × (((second_request.lvm / 8 % 8 ≡ 1) × (second_request.lvm % 8 ≡ 0))
        ⊎ ((2 ≤ second_request.lvm / 8 % 8)
            × (second_request.lvm / 8 % 8 ≤ 4)
            × (second_request.lvm % 8 ≡ 3))))
validate_request-accepted_test = validate_request-accepted second_request 123 (omega arith)

validate_response_timestamps_cases_example :
    ((validate_response_timestamps (pos 1) (pos 5) (pos 6) (pos 9) ≡ accepted)
      ↔ ((pos 1 ≤ℤ pos 9) × (pos 5 ≤ℤ pos 6)))
    × ((validate_response_timestamps (pos 1) (pos 5) (pos 6) (pos 9) ≡ panic) ↔ (pos 9 <ℤ pos 1))
validate_response_timestamps_cases_example =
    validate_response_timestamps_cases (pos 1) (pos 5) (pos 6) (pos 9)
