-- ===== src/Timemath.antt =====
-- base/timemath/timemath.go: sign, inverse, midpoint and the two averages of durations. Duration,
-- which converts from float64, is not modelled.
pub mod Midpoint
pub mod Robust
use scion_time.Base.{
  List, Option, get_elem?, if◌then◌else◌, length, none, not, some, ◌%◌, ◌&&◌, ◌-◌, ◌/◌, ◌==◌, ◌^◌,
  ◌>>=◌,
}
use scion_time.Base.Int.{add64, leb_ℤ, ltb_ℤ, negsuc, pos, quot, sub64, ℤ, eqb_ℤ}
use scion_time.GoTime.{Duration}
use scion_time.Sorting.{Sorter}

unfoldable pub sgn : Duration → ℤ
sgn d = if ltb_ℤ d (pos 0) then negsuc 0 else if ltb_ℤ (pos 0) d then pos 1 else pos 0

-- math.MinInt64 and math.MaxInt64
abbrev pub min_int64 : ℤ
min_int64 = negsuc (2 ^ 63 - 1)

abbrev pub max_int64 : ℤ
max_int64 = pos (2 ^ 63 - 1)

unfoldable pub inv : Duration → Duration
inv d = if eqb_ℤ d min_int64 then max_int64 else sub64 (pos 0) d

unfoldable pub midpoint : Duration → Duration → Duration
midpoint x y = add64 x (quot (sub64 y x) 2)

module _ (s : Sorter Duration (λ d. d)) where
  -- `none` is a panic: on an empty slice, or of an index out of range.
  unfoldable pub median : List Duration → Option Duration
  median ds =
      let n = length ds in
      let sorted = s.sort ds in
      let i = n / 2 in
      if n == 0
      then none
      else if not (n % 2 == 0)
      then get_elem? sorted i
      else (do x ← get_elem? sorted (i - 1); y ← get_elem? sorted i; some (midpoint x y))

  unfoldable pub fault_tolerant_midpoint : List Duration → Option Duration
  fault_tolerant_midpoint ds =
      let n = length ds in
      let sorted = s.sort ds in
      let f = (n - 1) / 3 in
      if n == 0
      then none
      else (do x ← get_elem? sorted f; y ← get_elem? sorted (n - 1 - f); some (midpoint x y))
