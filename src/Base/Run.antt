-- ===== src/Base/Run.antt =====
-- How a call ends: it returns a value or an error, panics, or the fuel of the model's loops runs
-- out.
use mathlib.Core.Option.{Option, none, some}
use mathlib.Core.Logic.{◌≢◌}
use mathlib.Core.Path.{refl}

pub data Run (E A : Type 0) : Type 0 where
  ok : A → Run E A
  err : E → Run E A
  panic : Run E A
  out_of_fuel : Run E A

infixl 5 ◌>>=◌
abbrev pub ◌>>=◌ : {E A B : Type 0} → Run E A → (A → Run E B) → Run E B
ok a >>= f = f a
err e >>= f = err e
panic >>= f = panic
out_of_fuel >>= f = out_of_fuel

-- A run-time check of Go: an index or a slice out of range panics.
abbrev pub checked : {E A : Type 0} → Option A → Run E A
checked (some a) = ok a
checked none = panic

-- An error of a callee passes on as the error `e`.
abbrev pub or_err : {E A : Type 0} → E → Option A → Run E A
or_err e (some a) = ok a
or_err e none = err e

-- A chain of calls has enough fuel if each of them does.
module _ {E A : Type 0} where
  pub >>=-ne-out_of_fuel :
      {B : Type 0} (m : Run E A) (f : A → Run E B)
      → m ≢ out_of_fuel
      → ((a : A) → f a ≢ out_of_fuel)
      → (m >>= f) ≢ out_of_fuel
  >>=-ne-out_of_fuel (ok a) f h k = k a
  >>=-ne-out_of_fuel (err e) f h k = λ p. cc
  >>=-ne-out_of_fuel panic f h k = λ p. cc
  >>=-ne-out_of_fuel out_of_fuel f h k = absurd (h refl)

  pub checked-ne-out_of_fuel : (o : Option A) → ◌≢◌ {A = Run E A} (checked o) out_of_fuel
  checked-ne-out_of_fuel none = λ p. cc
  checked-ne-out_of_fuel (some a) = λ p. cc
