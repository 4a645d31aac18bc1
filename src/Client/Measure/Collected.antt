-- ===== src/Client/Measure/Collected.antt =====
-- What collectMeasurements in core/client/client.go leaves, and the offset that comes of it.
use scion_time.Measurements.{Measurement, fault_tolerant_midpoint}
use scion_time.Base.{
  Bool, List, Option-cases, [], arith, inl, inr, length, length-append, length-replicate, none,
  replicate, some, suc, zero, ℕ, ◌++◌, ◌+◌, ◌-◌, ◌/◌, ◌<◌, ◌^◌, ◌∷◌, ◌≡◌, ◌≤◌,
}
use scion_time.Base.Int.{Fits, pos, ℤ, ◌-ℤ◌, ◌≤ℤ◌}
use scion_time.Client.Measure.{collect_measurements, succeeded}
use scion_time.GoTime.{Time}
use scion_time.Measurements.Robust.{fault_tolerant_midpoint_holds}
use scion_time.Sorting.{Sorter, count}
use scion_time.Sorting.Rank.{count-le-length, outside}

module _ {E : Type 0} where
  length-succeeded : (n : ℕ) (msc : List (Measurement E)) → length (succeeded n msc) ≤ n
  unfolding succeeded
  length-succeeded zero msc = omega arith
  length-succeeded (suc n) [] = omega arith
  length-succeeded (suc n) (m ∷ msc) = elim (Option-cases m.error) [
    | inl e ↦ rw (succeeded, e) (omega (arith, length-succeeded n msc))
    | inr (x, e) ↦ rw (succeeded, e) (omega (arith, length-succeeded n msc))
  ]

  pub length-collect_measurements :
      (n : ℕ) (msc : List (Measurement E)) (now : Time)
      → length (collect_measurements n msc now).0 ≡ n
  unfolding collect_measurements
  length-collect_measurements n msc now =
      let missing : Measurement E = record { timestamp = now; offset = pos 0; error = none } in
      omega (
        arith,
        length-succeeded n msc,
        length-append (succeeded n msc) (replicate (n - length (succeeded n msc)) missing),
        length-replicate (n - length (succeeded n msc)) missing,
      )

  count-append :
      (p : Measurement E → Bool) (xs ys : List (Measurement E))
      → count p (xs ++ ys) ≡ count p xs + count p ys
  count-append p [] ys = omega arith
  count-append p (x ∷ xs) ys = ground (arith, count-append p xs ys)

  module _ (s : Sorter (Measurement E) (λ m. m.offset)) (lo hi : ℤ) (hlo : Fits (2 ^ 63) lo)
      (hhi : Fits (2 ^ 63) hi) (wide : Fits (2 ^ 63) (hi -ℤ lo)) where
    -- The offset that FaultTolerantMidpoint makes of what collectMeasurements leaves of `n`
    -- measurements is in a range whose width is an int64, without an error, if of those that succeed
    -- in time, together with those that fail or do not arrive, at most (n - 1) / 3 are missing or
    -- have an offset outside the range.
    pub fault_tolerant_midpoint-collect_measurements :
        (n : ℕ) (msc : List (Measurement E)) (now : Time)
        → 0 < n
        → count (outside (λ (m : Measurement E). m.offset) lo hi) (succeeded n msc)
            + (n - length (succeeded n msc))
          ≤ (n - 1) / 3
        → (m : Measurement E) × (fault_tolerant_midpoint s (collect_measurements n msc now).0
            ≡ some m)
          × (lo ≤ℤ m.offset)
          × (m.offset ≤ℤ hi)
          × (m.error ≡ none)
    unfolding collect_measurements
    fault_tolerant_midpoint-collect_measurements n msc now h few =
        let p : Measurement E → Bool = outside (λ (m : Measurement E). m.offset) lo hi in
        let missing : Measurement E = record { timestamp = now; offset = pos 0; error = none } in
        let size : length (collect_measurements n msc now).0 ≡ n =
          length-collect_measurements n msc now in
        let filler : List (Measurement E) = replicate (n - length (succeeded n msc)) missing in
        let bad : count p (succeeded n msc ++ filler) ≤ (n - 1) / 3 = omega (
          arith,
          few,
          count-append p (succeeded n msc) filler,
          count-le-length p filler,
          length-replicate (n - length (succeeded n msc)) missing,
        ) in
        fault_tolerant_midpoint_holds s (collect_measurements n msc now).0 lo hi hlo hhi wide
          (omega (arith, h, size)) (rw size bad)
