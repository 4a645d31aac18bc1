-- ===== src/Measurements.antt =====
-- core/measurements/measurement.go: measurements, their midpoint and their two averages. The
-- argument `s` is slices.SortFunc by the offset; the slice that it leaves sorted is not read again.
pub mod Robust
use scion_time.Base.{
  ◌>>=◌, List, Option, get_elem?, if◌then◌else◌, length, none, not, some, ◌%◌, ◌-◌, ◌/◌, ◌==◌,
}
use scion_time.Base.Int.{add64, ltb_ℤ, quot, sub64}
use scion_time.GoTime.{Duration, Time, add, sub}
use scion_time.Sorting.{Sorter}

-- The error of a measurement is a value that the averages do not read.
pub record Measurement (E : Type 0) : Type 0 where
  pub timestamp : Time
  pub offset : Duration
  pub error : Option E

module _ {E : Type 0} where
  unfoldable pub midpoint : Measurement E → Measurement E → Measurement E
  midpoint x y = record {
    offset = add64 x.offset (quot (sub64 y.offset x.offset) 2);
    timestamp =
        if not (ltb_ℤ y.timestamp x.timestamp)
        then add x.timestamp (quot (sub y.timestamp x.timestamp) 2)
        else add y.timestamp (quot (sub x.timestamp y.timestamp) 2);
    error = none;
  }

  module _ (s : Sorter (Measurement E) (λ m. m.offset)) where
    -- `none` is a panic.
    unfoldable pub median : List (Measurement E) → Option (Measurement E)
    median ms =
        let n = length ms in
        let sorted = s.sort ms in
        let i = n / 2 in
        if n == 0
        then none
        else if not (n % 2 == 0)
        then (do m ← get_elem? sorted i; some (record m { error = none }))
        else (do x ← get_elem? sorted (i - 1); y ← get_elem? sorted i; some (midpoint x y))

    unfoldable pub fault_tolerant_midpoint : List (Measurement E) → Option (Measurement E)
    fault_tolerant_midpoint ms =
        let n = length ms in
        let sorted = s.sort ms in
        let f = (n - 1) / 3 in
        if n == 0
        then none
        else (do x ← get_elem? sorted f; y ← get_elem? sorted (n - 1 - f); some (midpoint x y))
