-- ===== src/Measurements/Robust.antt =====
-- FaultTolerantMidpoint of core/measurements/measurement.go withstands faulty measurements.
use scion_time.Base.{
  ==_false, List, arith, length, none, some, ◌-◌, ◌/◌, ◌<◌, ◌^◌, ◌≡◌, ◌≤◌, Bool-cases, inl, inr,
  refl,
}
use scion_time.Base.Int.{
  Fits, quot, saturate64, ℤ, ◌-ℤ◌, ◌≤ℤ◌, +ℤ_parts, -ℤ_parts, ltb_ℤ, parts_disjoint, quot_parts,
}
use scion_time.GoTime.{Time, add, sub}
use scion_time.Measurements.{Measurement, fault_tolerant_midpoint, midpoint}
use scion_time.Sorting.{Sorter, count}
use scion_time.Sorting.Rank.{outside, sort_inside, sorted_le}

-- Half the saturated difference leads to a time between the two.
half_between :
    (t u : Time) → t ≤ℤ u → (t ≤ℤ add t (quot (sub u t) 2)) × (add t (quot (sub u t) 2) ≤ℤ u)
unfolding add sub saturate64
half_between t u h = ground (
  arith,
  -ℤ_parts u t,
  parts_disjoint (u -ℤ t),
  quot_parts (saturate64 (u -ℤ t)) 2,
  +ℤ_parts t (quot (saturate64 (u -ℤ t)) 2),
)

offset-midpoint :
    {E : Type 0} (x y : Measurement E)
    → (midpoint x y).offset ≡ scion_time.Timemath.midpoint x.offset y.offset
unfolding midpoint scion_time.Timemath.midpoint
offset-midpoint x y = refl

error-midpoint : {E : Type 0} (x y : Measurement E) → (midpoint x y).error ≡ none
unfolding midpoint
error-midpoint x y = refl

-- The timestamp of a midpoint lies between the two timestamps, whichever is first.
pub midpoint_timestamp :
    {E : Type 0} (x y : Measurement E) (lo hi : Time)
    → lo ≤ℤ x.timestamp
    → x.timestamp ≤ℤ hi
    → lo ≤ℤ y.timestamp
    → y.timestamp ≤ℤ hi
    → (lo ≤ℤ (midpoint x y).timestamp) × ((midpoint x y).timestamp ≤ℤ hi)
unfolding midpoint
midpoint_timestamp x y lo hi a b c d = elim (Bool-cases (ltb_ℤ y.timestamp x.timestamp)) [
  | inl e ↦
      let m = half_between y.timestamp x.timestamp (ground arith) in
      rw e (omega (arith, m.0), omega (arith, m.1))
  | inr e ↦
      let m = half_between x.timestamp y.timestamp (ground arith) in
      rw e (omega (arith, m.0), omega (arith, m.1))
]

module _ {E : Type 0} (s : Sorter (Measurement E) (λ m. m.offset)) (ms : List (Measurement E))
    (lo hi : ℤ) (hlo : Fits (2 ^ 63) lo) (hhi : Fits (2 ^ 63) hi)
    (wide : Fits (2 ^ 63) (hi -ℤ lo)) where
  -- FaultTolerantMidpoint of `n` measurements of which at most (n - 1) / 3 have an offset
  -- outside a range whose width is an int64 returns a measurement with an offset in the range and
  -- without an error.
  pub fault_tolerant_midpoint_holds :
      0 < length ms
      → count (outside (λ (m : Measurement E). m.offset) lo hi) ms ≤ (length ms - 1) / 3
      → (m : Measurement E) × (fault_tolerant_midpoint s ms ≡ some m)
        × (lo ≤ℤ m.offset)
        × (m.offset ≤ℤ hi)
        × (m.error ≡ none)
  unfolding fault_tolerant_midpoint
  fault_tolerant_midpoint_holds h k =
      let (x, ex, lx, hx) =
        sort_inside (λ m. m.offset) lo hi s ms ((length ms - 1) / 3) k (omega arith) in
      let (y, ey, ly, hy) =
        sort_inside (λ m. m.offset) lo hi s ms (length ms - 1 - (length ms - 1) / 3) (omega arith)
          (omega arith) in
      let xy = sorted_le (λ m. m.offset) (s.sort ms) _ _ x y (s.sorts ms) (omega arith) ex ey in
      let b =
        scion_time.Timemath.Robust.midpoint_inside lo hi hlo hhi wide x.offset y.offset lx xy hy in
      (
        midpoint x y,
        rw (==_false (length ms) 0 (λ e. omega arith)) (rw (ex, ey)),
        rw (offset-midpoint x y) b.0,
        rw (offset-midpoint x y) b.1,
        error-midpoint x y,
      )
