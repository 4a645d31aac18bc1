-- ===== src/Tests/Random.antt =====
-- Concrete runs of the random sampling, base/crypto/crypto.go.
use scion_time.Base.Run.{ok}
use native.Mathlib.Nat.{le_trans, mod-lt}
use scion_time.Base.{
  arith, false, if◌then◌else◌, leb→le, ltb→lt, refl, some, ℕ, ◌%◌, ◌+◌, ◌-◌, ◌<◌, ◌==◌, ◌^◌, ◌≡◌,
}
use scion_time.Crypto.{Words, max_int32, rand_intn, sample, threshold}
use scion_time.Crypto.Choice.{Drawn, Refused, rand_intn-first, sample-Distinct}

-- The word on the threshold of 6, which is refused, and then 100.
abbrev refused_first : Words
refused_first = record { word = λ j. some (if j == 0 then 4 else 100); is_done = λ j. false }

abbrev always_hundred : ℕ → Words
always_hundred l = record { word = λ j. some 100; is_done = λ j. false }

only_zero : (j : ℕ) → j < 1 → j ≡ 0
only_zero j u = omega (arith, u)

refused_first-Refused : Refused refused_first 32 6 1
unfolding threshold
refused_first-Refused j u = ((4, rw (only_zero j u) refl, leb→le 4 (threshold 32 6) refl), refl)

threshold_six : threshold 32 6 < 100
unfolding threshold
threshold_six = ltb→lt (threshold 32 6) 100 refl

hundred-Drawn : (l : ℕ) → l < 4 → Drawn (always_hundred l) 1 (l + 1)
unfolding threshold
hundred-Drawn l u =
    let below : (2 ^ 32 - (l + 1)) % 2 ^ 32 % (l + 1) < l + 1 =
      mod-lt ((2 ^ 32 - (l + 1)) % 2 ^ 32) (omega arith) in
    (0, 100, λ j v. absurd (omega (arith, v)), refl, le_trans below (omega (arith, u)), omega arith)

rand_intn-first_example : (rand_intn refused_first 2 6 ≡ ok 4) × (4 < 6)
rand_intn-first_example =
    rand_intn-first refused_first 6 2 1 100 (leb→le 2 6 refl) (leb→le 6 max_int32 refl)
      refused_first-Refused refl threshold_six (leb→le 2 2 refl)

sample-Distinct_example :
    (f : ℕ → ℕ) × (sample always_hundred 1 2 4 ≡ ok (2, f))
    × ((a : ℕ) → a < 2 → f a < 4)
    × ((a b : ℕ) → a < 2 → b < 2 → f a ≡ f b → a ≡ b)
sample-Distinct_example =
    sample-Distinct always_hundred 1 2 4 (leb→le 4 max_int32 refl) hundred-Drawn
