-- ===== src/Tests/Client.antt =====
-- Concrete runs of the client over IP, core/client/client_ip.go and core/client/client.go.
use scion_time.Ntp.Packet.{Packet, encode_packet}
use scion_time.Client.Ip.{IpClient, Incoming, packet, Pending, Measured, FourTimes}
use scion_time.Server.Store.{Store, add_item, handle_request}
use scion_time.LuckyPacket.{LuckyPacketFilter, do_filter}
use scion_time.Server.Store.Refines.{first_item}
use scion_time.Client.Measure.{
  Attempt, measured, collect_measurements, measure_clock_offset_ip, num_attempts, succeeded,
}
use scion_time.Measurements.{Measurement, fault_tolerant_midpoint}
use scion_time.Base.Int.{◌+ℤ◌, ◌-ℤ◌, floor_div, negsuc, pos, ◌≤ℤ◌}
use scion_time.Base.{
  Bool, List, [], arith, false, none, refl, some, suc, true, zero, ℕ, ◌*◌, ◌+◌, ◌^◌, ◌∷◌, ◌≡◌,
  Option,
}
use scion_time.Client.Ip.Exchange.{IsNear, Offsets, basic_request, judge-Offsets, HasNoZero}
use scion_time.Client.Measure.Attempts.{Ends, measure_clock_offset_ip-Ends}
use scion_time.Client.Measure.Collected.{fault_tolerant_midpoint-collect_measurements}
use scion_time.GoTime.{Time, unix, Duration}
use scion_time.Ntp.Time64.{Time64, time64_from_time}
use scion_time.Server.Ip.{zero_packet}
use scion_time.Sorting.Insertion.{insertion_sorter}
use scion_time.Server.Item.{server_ref_id}
use scion_time.Server.Store.Reachable.{Reachable-IsStore, empty_store, started}

-- 2023-11-14, 22:13:20 UTC
abbrev noon : Time
noon = pos (1700000000 * 10 ^ 9)

abbrev noon64 : Time64
noon64 = record { seconds = 3908988800; fraction = 0 }

abbrev ip_answer : Packet
ip_answer = record zero_packet {
  lvm = 36;
  stratum = 1;
  precision = negsuc 31;
  root_dispersion = record { seconds = 0; fraction = 10 };
  reference_id = server_ref_id;
  reference_time = record { seconds = 3908988800; fraction = 429 };
  origin_time = noon64;
  receive_time = noon64;
  transmit_time = record { seconds = 3908988800; fraction = 429 };
}

-- The lucky packet filter with a window of three measurements, of which one is picked.
abbrev lucky_step : LuckyPacketFilter → FourTimes → Option (LuckyPacketFilter × Duration)
lucky_step f (t0, t1, t2, t3) =
    do_filter (insertion_sorter (λ m. m.rtd)) (insertion_sorter (λ m. m.off)) f t0 t1 t2 t3

abbrev lucky_state : List FourTimes → LuckyPacketFilter
lucky_state [] = record { cap = 3; pick = 1; state = [] }
lucky_state (t ∷ ts) =
    let earlier = lucky_state ts in elim (lucky_step earlier t) [ none ↦ earlier | some (f, o) ↦ f ]

abbrev lucky : List FourTimes → Duration
lucky [] = pos 0
lucky (t ∷ ts) = elim (lucky_step (lucky_state ts) t) [ none ↦ pos 0 | some (f, o) ↦ o ]

abbrev new_client : IpClient
new_client = record {
  interleaved_mode = true;
  filter = some lucky;
  histogram = none;
  filtered = [];
  prev = record {
    reference = [];
    interleaved = false;
    c_tx_time = record { seconds = 0; fraction = 0 };
    c_rx_time = record { seconds = 0; fraction = 0 };
    s_rx_time = record { seconds = 0; fraction = 0 };
  };
}

noon-IsNear : IsNear noon noon
unfolding unix floor_div ◌+ℤ◌
noon-IsNear = (3908988800, 3908988800, refl, refl, omega arith, omega arith, omega arith)

later-IsNear : IsNear (pos (1700000000 * 10 ^ 9 + 100)) noon
unfolding unix floor_div ◌+ℤ◌
later-IsNear = (3908988800, 3908988800, refl, refl, omega arith, omega arith, omega arith)

abbrev noon_client : List ℕ
noon_client = 7 ∷ []

abbrev later : Time
later = pos (1700000000 * 10 ^ 9 + 100)

abbrev ip_store : Store
ip_store =
    add_item empty_store 7 (first_item noon64 (record { seconds = 3908988800; fraction = 429 }))

ip_request_test :
    handle_request empty_store 7 zero_packet (basic_request noon) noon later
    ≡ some (noon, later, ip_answer, ip_store)
unfolding handle_request scion_time.Server.Store.serve_unknown scion_time.Server.Store.evict
    scion_time.Server.Store.add_item scion_time.Server.Item.reply
    scion_time.Server.Item.record_times scion_time.Ntp.Header.set_version
    scion_time.Ntp.Header.set_mode time64_from_time scion_time.Ntp.Time64.time64_eq
    scion_time.Base.Int.bits scion_time.GoTime.nanosecond ◌-ℤ◌ scion_time.Base.Int.floor_mod unix
    floor_div scion_time.Server.Queue.push scion_time.Server.Queue.append scion_time.Server.Queue.up
ip_request_test = refl

empty_store-HasNoZero : HasNoZero empty_store.item 7
empty_store-HasNoZero t e = absurd (cc e)

judge-Offsets_example :
    Offsets new_client noon_client [] noon noon noon later
      (pos (1700000000 * 10 ^ 9 + 900))
      (encode_packet ip_answer)
unfolding scion_time.Client.Ip.continues scion_time.Nts.Process.equal
judge-Offsets_example =
    judge-Offsets new_client noon_client [] empty_store 7 noon noon noon later noon later
      (pos (1700000000 * 10 ^ 9 + 900)) ip_answer ip_store refl refl
      (Reachable-IsStore empty_store started) empty_store-HasNoZero ip_request_test noon-IsNear
      later-IsNear (omega arith) (omega arith)

-- The same answer, after a packet from elsewhere.
abbrev two_reads : ℕ → Incoming × Bool
two_reads zero = (packet [] (pos 5) false, true)
two_reads (suc i) = (packet (encode_packet ip_answer) (pos (1700000000 * 10 ^ 9 + 900)) true, true)

abbrev noon_pending : Pending
noon_pending = record {
  request = basic_request noon;
  interleaved = false;
  c_tx_time0 = noon;
  c_tx_time1 = noon;
}

abbrev noon_measured : Measured
noon_measured = record {
  timestamp = pos (1700000000 * 10 ^ 9 + 900);
  times = (noon, noon, pos (1700000000 * 10 ^ 9 + 99), pos (1700000000 * 10 ^ 9 + 900));
  offset = negsuc 399;
  client = record new_client {
    prev = record {
      reference = noon_client;
      interleaved = false;
      c_tx_time = noon64;
      c_rx_time = time64_from_time (pos (1700000000 * 10 ^ 9 + 900));
      s_rx_time = noon64;
    };
    filtered = (noon, noon, pos (1700000000 * 10 ^ 9 + 99), pos (1700000000 * 10 ^ 9 + 900)) ∷ [];
  };
}

-- The second call leaves the client in the interleaved mode, so there is no third.
abbrev attempts_twice : ℕ → Attempt ℕ
attempts_twice zero = measured noon (pos 4) false
attempts_twice (suc zero) = measured noon (pos 5) true
attempts_twice (suc (suc i)) = measured noon (pos 6) true

measure_clock_offset_ip-Ends_example :
    Ends attempts_twice 3 (measure_clock_offset_ip true (pos 0) attempts_twice)
unfolding num_attempts
measure_clock_offset_ip-Ends_example = measure_clock_offset_ip-Ends attempts_twice true (pos 0)

-- Four measurements, of which the second fails.
abbrev arrived : List (Measurement ℕ)
arrived =
    record { timestamp = noon; offset = pos 4; error = none }
    ∷ record { timestamp = noon; offset = pos 0; error = some 1 }
    ∷ record { timestamp = noon; offset = pos 6; error = none }
    ∷ record { timestamp = noon; offset = pos 9; error = none }
    ∷ []

fault_tolerant_midpoint-collect_measurements_example :
    (m : Measurement ℕ) × (fault_tolerant_midpoint
        (insertion_sorter (λ m. m.offset))
        (collect_measurements 4 arrived noon).0
      ≡ some m)
    × (pos 4 ≤ℤ m.offset)
    × (m.offset ≤ℤ pos 9)
    × (m.error ≡ none)
unfolding succeeded ◌-ℤ◌
fault_tolerant_midpoint-collect_measurements_example =
    fault_tolerant_midpoint-collect_measurements (insertion_sorter (λ m. m.offset)) (pos 4) (pos 9)
      (omega arith) (omega arith) (omega arith) 4 arrived noon (omega arith) (omega arith)
