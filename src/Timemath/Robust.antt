-- ===== src/Timemath/Robust.antt =====
-- Median and FaultTolerantMidpoint of base/timemath/timemath.go withstand faulty values.
use scion_time.Base.{
  List, arith, get_elem?, length, some, ℕ, ◌*◌, ◌+◌, ◌-◌, ◌/◌, ◌<◌, ◌>>=◌, ◌^◌, ◌≡◌, ◌≤◌, ==_false,
  Bool-cases, inl, inr, ◌%◌, ◌==◌,
}
use scion_time.Base.Int.{Fits, int_laws, parts_disjoint, ℤ, ◌-ℤ◌, ◌≤ℤ◌}
use scion_time.GoTime.{Duration}
use scion_time.Sorting.{Sorter, count}
use scion_time.Sorting.Rank.{outside, sort_inside, sorted_le}
use scion_time.Timemath.{fault_tolerant_midpoint, median, midpoint}
use scion_time.Timemath.Midpoint.{midpoint_between}

module _ (lo hi : ℤ) (hlo : Fits (2 ^ 63) lo) (hhi : Fits (2 ^ 63) hi)
    (wide : Fits (2 ^ 63) (hi -ℤ lo)) where
  -- The midpoint of two values of a range, in ascending order, lies in the range.
  pub midpoint_inside :
      (x y : Duration) → lo ≤ℤ x → x ≤ℤ y → y ≤ℤ hi → (lo ≤ℤ midpoint x y) × (midpoint x y ≤ℤ hi)
  midpoint_inside x y p q r =
      let b =
        midpoint_between x y (omega (arith, parts_disjoint x)) (omega (arith, parts_disjoint y))
          (omega (int_laws, parts_disjoint (y -ℤ x), parts_disjoint (hi -ℤ lo))) q in
      omega (arith, b.0, b.1)

module _ (s : Sorter Duration (λ d. d)) (ds : List Duration) (lo hi : ℤ) (hlo : Fits (2 ^ 63) lo)
    (hhi : Fits (2 ^ 63) hi) (wide : Fits (2 ^ 63) (hi -ℤ lo)) where
  -- The elements of the sorted slice at two positions, in ascending order and in the range.
  two_inside :
      (i j : ℕ)
      → i ≤ j
      → count (outside (λ d. d) lo hi) ds ≤ i
      → count (outside (λ d. d) lo hi) ds + j < length ds
      → (m : Duration) × ((do
        x ← get_elem? (s.sort ds) i
        y ← get_elem? (s.sort ds) j
        some (midpoint x y))
          ≡ some m)
        × (lo ≤ℤ m)
        × (m ≤ℤ hi)
  two_inside i j ij h k =
      let (x, ex, lx, hx) = sort_inside (λ d. d) lo hi s ds i h (omega arith) in
      let (y, ey, ly, hy) = sort_inside (λ d. d) lo hi s ds j (omega arith) k in
      let xy = sorted_le (λ d. d) (s.sort ds) i j x y (s.sorts ds) ij ex ey in
      (
        midpoint x y,
        rw (ex, ey),
        (midpoint_inside lo hi hlo hhi wide x y lx xy hy).0,
        (midpoint_inside lo hi hlo hhi wide x y lx xy hy).1,
      )

  -- FaultTolerantMidpoint of `n` values, of which at most (n - 1) / 3 are outside a
  -- range whose width is an int64, returns a value inside the range, whatever the others are.
  pub fault_tolerant_midpoint_inside :
      0 < length ds
      → count (outside (λ d. d) lo hi) ds ≤ (length ds - 1) / 3
      → (m : Duration) × (fault_tolerant_midpoint s ds ≡ some m) × (lo ≤ℤ m) × (m ≤ℤ hi)
  unfolding fault_tolerant_midpoint
  fault_tolerant_midpoint_inside h k = rw (==_false (length ds) 0 (λ e. omega arith)) (
      two_inside ((length ds - 1) / 3) (length ds - 1 - (length ds - 1) / 3) (omega arith) k
        (omega arith))

  -- Median of values of which fewer than half are outside such a range returns a value inside it.
  pub median_inside :
      2 * count (outside (λ d. d) lo hi) ds < length ds
      → (m : Duration) × (median s ds ≡ some m) × (lo ≤ℤ m) × (m ≤ℤ hi)
  unfolding median
  median_inside h =
      rw (==_false (length ds) 0 (λ e. omega arith)) (elim (Bool-cases (length ds % 2 == 0)) [
        | inl e ↦ rw e (
            two_inside (length ds / 2 - 1) (length ds / 2) (omega arith) (ground arith)
              (ground arith))
        | inr e ↦
            rw e (sort_inside (λ d. d) lo hi s ds (length ds / 2) (omega arith) (ground arith))
      ])
