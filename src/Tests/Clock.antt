-- ===== src/Tests/Clock.antt =====
-- Concrete runs of the clock arithmetic of net/ntp, net/csptp, base/timemath and
-- core/measurements.
use scion_time.Ntp.Time64.{before, after}
use scion_time.Ntp.Offset.{received, returned}
use scion_time.Measurements.{fault_tolerant_midpoint, midpoint}
use scion_time.Base.{
  List, [], arith, none, refl, some, true, ℕ, ◌*◌, ◌+◌, ◌/◌, ◌<◌, ◌^◌, ◌↔◌, ◌∷◌, ◌≡◌, ◌⊎◌, length,
}
use scion_time.Base.Int.{Fits, floor_div, negsuc, pos, ℤ, ◌+ℤ◌, ◌-ℤ◌, ◌≤ℤ◌}
use scion_time.GoTime.{Duration, Time, unix}
use scion_time.Measurements.{Measurement}
use scion_time.Measurements.Robust.{fault_tolerant_midpoint_holds, midpoint_timestamp}
use scion_time.Ntp.Offset.{answered, clock_offset_error, clock_offset_symmetric, round_trip_delay}
use scion_time.Ntp.Time64.{Time64, time64_eq, time64_from_time, time_from_time64}
use scion_time.Ntp.Time64.Conversion.{
  ntp_second, time_from_time64-time64_from_time, time_from_time64_late,
}
use scion_time.Ntp.Time64.Order.{before-after_order, ticks}
use scion_time.Sorting.{Sorter}
use scion_time.Sorting.Insertion.{insertion_sorter}
use scion_time.Timemath.{inv, min_int64}
use scion_time.Timemath.Midpoint.{inv_antitone}
use scion_time.Timemath.Robust.{fault_tolerant_midpoint_inside, median_inside}
use Prim.Native.Nat.{min}
use scion_time.LuckyPacket.{FlashMeasurement, LuckyPacketFilter, do_filter}
use scion_time.LuckyPacket.Window.{IsFilter, do_filter-IsFilter}

-- 2023-11-14, 22:13:20.123456789 UTC, and a time 3 s later.
abbrev noon : Time
noon = pos (1700000000 * 10 ^ 9 + 123456789)

abbrev later : Time
later = pos (1700000003 * 10 ^ 9)

abbrev durations : List Duration
durations = pos 10 ∷ pos 1000000 ∷ pos 12 ∷ pos 14 ∷ []

abbrev sorter : Sorter Duration (λ d. d)
sorter = insertion_sorter (λ d. d)

time_from_time64-time64_from_time_example :
    (time_from_time64 (time64_from_time noon) later ≤ℤ noon)
    × (noon ≤ℤ time_from_time64 (time64_from_time noon) later +ℤ pos 1)
unfolding unix ◌+ℤ◌ floor_div
time_from_time64-time64_from_time_example =
    time_from_time64-time64_from_time noon later 3908988800 3908988803 refl refl (omega arith)
      (omega arith) (omega arith)

time_from_time64_late_example :
    unix (time_from_time64 (time64_from_time noon) (pos (2085978497 * 10 ^ 9)))
    ≡ ntp_second (3908988800 + 2 ^ 32)
unfolding unix ◌+ℤ◌ floor_div
time_from_time64_late_example =
    time_from_time64_late noon (pos (2085978497 * 10 ^ 9)) 3908988800 4294967297 refl refl refl
      (omega arith)

before-after_order_example :
    ((before (record { seconds = 1; fraction = 5 }) (record { seconds = 2; fraction = 3 }) ≡ true)
      ↔ (ticks (record { seconds = 1; fraction = 5 })
          < ticks (record { seconds = 2; fraction = 3 })))
    × ((after (record { seconds = 1; fraction = 5 }) (record { seconds = 2; fraction = 3 }) ≡ true)
        ↔ (ticks (record { seconds = 2; fraction = 3 })
            < ticks (record { seconds = 1; fraction = 5 })))
    × ((time64_eq (record { seconds = 1; fraction = 5 }) (record { seconds = 2; fraction = 3 })
          ≡ true)
        ↔ (◌≡◌ {A = Time64}
            (record { seconds = 1; fraction = 5 })
            (record { seconds = 2; fraction = 3 })))
before-after_order_example =
    before-after_order (record { seconds = 1; fraction = 5 }) (record { seconds = 2; fraction = 3 })
      (omega arith, omega arith) (omega arith, omega arith)

clock_offset_error_example :
    (round_trip_delay noon
        (received noon (negsuc 6) 10 3 20)
        (answered noon (negsuc 6) 10 3 20)
        (returned noon (negsuc 6) 10 3 20)
      ≡ pos (10 + 20))
    × (scion_time.Ntp.Offset.clock_offset noon
          (received noon (negsuc 6) 10 3 20)
          (answered noon (negsuc 6) 10 3 20)
          (returned noon (negsuc 6) 10 3 20)
        ≤ℤ negsuc 6 +ℤ pos ((10 + 20 + 1) / 2))
    × (negsuc 6
        ≤ℤ scion_time.Ntp.Offset.clock_offset noon
            (received noon (negsuc 6) 10 3 20)
            (answered noon (negsuc 6) 10 3 20)
            (returned noon (negsuc 6) 10 3 20)
          +ℤ pos ((10 + 20 + 1) / 2))
clock_offset_error_example =
    clock_offset_error noon (negsuc 6) 10 3 20 (omega arith) (omega arith) (omega arith)
      (omega arith)

clock_offset_symmetric_test :
    scion_time.Ntp.Offset.clock_offset noon
      (received noon (pos 5) 10 3 10)
      (answered noon (pos 5) 10 3 10)
      (returned noon (pos 5) 10 3 10)
    ≡ pos 5
clock_offset_symmetric_test =
    clock_offset_symmetric noon (pos 5) 10 3 (omega arith) (omega arith) (omega arith)

fault_tolerant_midpoint_inside_example :
    (m : Duration) × (scion_time.Timemath.fault_tolerant_midpoint sorter durations ≡ some m)
    × (pos 10 ≤ℤ m)
    × (m ≤ℤ pos 14)
unfolding ◌-ℤ◌
fault_tolerant_midpoint_inside_example =
    fault_tolerant_midpoint_inside sorter durations (pos 10) (pos 14) (omega arith) (omega arith)
      (omega arith) (omega arith) (omega arith)

median_inside_test :
    (m : Duration) × (scion_time.Timemath.median sorter durations ≡ some m)
    × (pos 10 ≤ℤ m)
    × (m ≤ℤ pos 14)
unfolding ◌-ℤ◌
median_inside_test =
    median_inside sorter durations (pos 10) (pos 14) (omega arith) (omega arith) (omega arith)
      (omega arith)

inv_antitone_test :
    (Fits (2 ^ 63) (inv min_int64))
    × (inv (pos 7) ≤ℤ inv min_int64)
    × ((inv (inv min_int64) ≡ min_int64) ⊎ (min_int64 ≡ min_int64))
inv_antitone_test = inv_antitone min_int64 (pos 7) (omega arith) (omega arith) (omega arith)

abbrev measured : ℤ → Measurement ℕ
measured o = record { timestamp = noon; offset = o; error = some 3 }

abbrev measured_list : List (Measurement ℕ)
measured_list = measured (pos 9) ∷ measured (negsuc 50) ∷ measured (pos 4) ∷ measured (pos 7) ∷ []

fault_tolerant_midpoint_holds_example :
    (m : Measurement ℕ) × (fault_tolerant_midpoint (insertion_sorter (λ m. m.offset)) measured_list
      ≡ some m)
    × (pos 4 ≤ℤ m.offset)
    × (m.offset ≤ℤ pos 9)
    × (m.error ≡ none)
unfolding ◌-ℤ◌
fault_tolerant_midpoint_holds_example =
    fault_tolerant_midpoint_holds (insertion_sorter (λ m. m.offset)) measured_list (pos 4) (pos 9)
      (omega arith) (omega arith) (omega arith) (omega arith) (omega arith)

midpoint_timestamp_test :
    (noon
      ≤ℤ (midpoint (record (measured (pos 1)) { timestamp = later }) (measured (pos 2))).timestamp)
    × ((midpoint (record (measured (pos 1)) { timestamp = later }) (measured (pos 2))).timestamp
        ≤ℤ later)
midpoint_timestamp_test =
    midpoint_timestamp (record (measured (pos 1)) { timestamp = later }) (measured (pos 2)) noon
      later (omega arith) (omega arith) (omega arith) (omega arith)

abbrev flash : Duration → FlashMeasurement
flash d = record { stamp = noon; off = d; rtd = d }

abbrev full_filter : LuckyPacketFilter
full_filter = record {
  cap = 3;
  pick = 2;
  state = flash (pos 9) ∷ flash (pos 5) ∷ flash (pos 7) ∷ [];
}

do_filter-IsFilter_example :
    (g : LuckyPacketFilter) × (offset : Duration) × (do_filter
        (insertion_sorter (λ m. m.rtd))
        (insertion_sorter (λ m. m.off))
        full_filter
        noon
        later
        later
        later
      ≡ some (g, offset))
    × IsFilter g
    × (g.cap ≡ full_filter.cap)
    × (length g.state ≡ min (length full_filter.state + 1) full_filter.cap)
do_filter-IsFilter_example =
    do_filter-IsFilter (insertion_sorter (λ m. m.rtd)) (insertion_sorter (λ m. m.off)) full_filter
      noon later later later
      (record {
        room = omega arith;
        picks = omega arith;
        at_most = omega arith;
        within = omega arith;
      })
