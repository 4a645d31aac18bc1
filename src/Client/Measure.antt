-- ===== src/Client/Measure.antt =====
-- core/client/client.go: MeasureClockOffsetIP and collectMeasurements, with the offset that
-- FaultTolerantMidpoint makes of what was collected. The results of single measurements, and which
-- of them arrive before the context is done, are arguments.
pub mod Collected
pub mod Attempts
use scion_time.Measurements.{Measurement}
use scion_time.Base.{
  Bool, List, [], if◌then◌else◌, length, none, replicate, some, suc, zero, ℕ, ◌++◌, ◌+◌, ◌-◌, ◌==◌,
  ◌∷◌,
}
use scion_time.Base.Int.{pos}
use scion_time.GoTime.{Duration, Time}
use scion_time.Ntske.Provider.{zero_time}
use scion_time.Ntske.Records.{error}

-- The values that MeasureClockOffsetIP returns.
abbrev pub Result : Type 0 → Type 0
Result E = Measurement E

-- One call of measureClockOffsetIP: a measurement, and whether the client is in the interleaved mode
-- after it; or an error.
pub data Attempt (E : Type 0) : Type 0 where
  measured : Time → Duration → Bool → Attempt E
  not_measured : E → Attempt E

-- The number of calls.
unfoldable pub num_attempts : Bool → ℕ
num_attempts interleaved_mode = if interleaved_mode then 3 else 1

module _ {E : Type 0} where
  -- The loop from its run `i` on, with `k` runs left and the number of errors so far.
  unfoldable pub attempt_loop : ℕ → ℕ → ℕ → (ℕ → Attempt E) → Result E → Result E
  attempt_loop zero i nerr attempts r = r
  attempt_loop (suc k) i nerr attempts r =
      let more = attempt_loop k (i + 1) nerr attempts in
      let after_error = attempt_loop k (i + 1) (nerr + 1) attempts in
      elim (attempts i) [
        | measured t o in_mode ↦
            let r' : Result E = record { timestamp = t; offset = o; error = none } in
            if in_mode then r' else more r'
        | not_measured e ↦ after_error (if nerr == i then record r { error = some e } else r)
      ]

  unfoldable pub measure_clock_offset_ip : Bool → Time → (ℕ → Attempt E) → Result E
  measure_clock_offset_ip interleaved_mode zero_time attempts =
      attempt_loop (num_attempts interleaved_mode) 0 0 attempts
        (record { timestamp = zero_time; offset = pos 0; error = none })

  -- The measurements without an error among the first `n` that arrive in time.
  unfoldable pub succeeded : ℕ → List (Measurement E) → List (Measurement E)
  succeeded zero msc = []
  succeeded (suc n) [] = []
  succeeded (suc n) (m ∷ msc) =
      let rest = succeeded n msc in elim m.error [ none ↦ m ∷ rest | some e ↦ rest ]

  -- collectMeasurements into a slice of `n` measurements: the slice, and how many succeeded.
  unfoldable pub collect_measurements : ℕ → List (Measurement E) → Time → List (Measurement E) × ℕ
  collect_measurements n msc now =
      let ms = succeeded n msc in
      let missing : Measurement E = record { timestamp = now; offset = pos 0; error = none } in
      (ms ++ replicate (n - length ms) missing, length ms)
