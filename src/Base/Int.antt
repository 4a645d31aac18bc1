-- ===== src/Base/Int.antt =====
-- Signed integers over the native numbers, and the fixed-width arithmetic of Go on them:
-- two's complement patterns, wrap-around, saturation and division.
use scion_time.Base.Tests.{ltb, leb, if◌then◌else◌}
use Prim.Native.Nat.{ℕ, suc, ◌+◌, ◌-◌, ◌*◌, ◌/◌, ◌%◌, ◌^◌, ◌≤◌, ◌<◌}
use mathlib.Core.Path.{◌≡◌}
use mathlib.Core.Logic.{◌⊎◌}
use mathlib.Core.Bool.{Bool}
use native.Mathlib.Omega.{arith}
use scion_time.Base.{◌==◌}

-- `negsuc n` is -(n + 1).
pub data ℤ : Type 0 where
  pos : ℕ → ℤ
  negsuc : ℕ → ℤ

abbrev pub pos_part : ℤ → ℕ
pos_part (pos n) = n
pos_part (negsuc n) = 0

abbrev pub neg_part : ℤ → ℕ
neg_part (pos n) = 0
neg_part (negsuc n) = suc n

-- a - b, as an integer.
abbrev pub sub_ℕ : ℕ → ℕ → ℤ
sub_ℕ a b = if leb b a then pos (a - b) else negsuc (b - a - 1)

infixl 65 ◌+ℤ◌ ◌-ℤ◌
infixl 70 ◌*ℤ◌
infix 50 ◌≤ℤ◌ ◌<ℤ◌
unfoldable pub ◌+ℤ◌ : ℤ → ℤ → ℤ
a +ℤ b = sub_ℕ (pos_part a + pos_part b) (neg_part a + neg_part b)

unfoldable pub ◌-ℤ◌ : ℤ → ℤ → ℤ
a -ℤ b = sub_ℕ (pos_part a + neg_part b) (neg_part a + pos_part b)

-- A multiple by a number that is not negative.
unfoldable pub ◌*ℤ◌ : ℤ → ℕ → ℤ
a *ℤ k = sub_ℕ (pos_part a * k) (neg_part a * k)

abbrev pub ◌≤ℤ◌ : ℤ → ℤ → Type 0
a ≤ℤ b = pos_part a + neg_part b ≤ pos_part b + neg_part a

abbrev pub ◌<ℤ◌ : ℤ → ℤ → Type 0
a <ℤ b = pos_part a + neg_part b < pos_part b + neg_part a

abbrev pub ltb_ℤ : ℤ → ℤ → Bool
ltb_ℤ a b = ltb (pos_part a + neg_part b) (pos_part b + neg_part a)

abbrev pub leb_ℤ : ℤ → ℤ → Bool
leb_ℤ a b = leb (pos_part a + neg_part b) (pos_part b + neg_part a)

abbrev pub eqb_ℤ : ℤ → ℤ → Bool
eqb_ℤ a b = pos_part a + neg_part b == pos_part b + neg_part a

pub +ℤ_parts :
    (a b : ℤ)
    → pos_part (a +ℤ b) + neg_part a + neg_part b ≡ neg_part (a +ℤ b) + pos_part a + pos_part b
unfolding ◌+ℤ◌
+ℤ_parts a b = ground arith

pub -ℤ_parts :
    (a b : ℤ)
    → pos_part (a -ℤ b) + neg_part a + pos_part b ≡ neg_part (a -ℤ b) + pos_part a + neg_part b
unfolding ◌-ℤ◌
-ℤ_parts a b = ground arith

pub *ℤ_parts :
    (a : ℤ) (k : ℕ) → pos_part (a *ℤ k) + neg_part a * k ≡ neg_part (a *ℤ k) + pos_part a * k
unfolding ◌*ℤ◌
*ℤ_parts a k = ground arith

pub +ℤ_bounds :
    (a b : ℤ)
    → (pos_part (a +ℤ b) ≤ pos_part a + pos_part b) × (neg_part (a +ℤ b) ≤ neg_part a + neg_part b)
unfolding ◌+ℤ◌
+ℤ_bounds a b = ground arith

pub -ℤ_bounds :
    (a b : ℤ)
    → (pos_part (a -ℤ b) ≤ pos_part a + neg_part b) × (neg_part (a -ℤ b) ≤ neg_part a + pos_part b)
unfolding ◌-ℤ◌
-ℤ_bounds a b = ground arith

-- One of the two parts of an integer is 0.
pub parts_disjoint : (a : ℤ) → (pos_part a ≡ 0) ⊎ (neg_part a ≡ 0)
parts_disjoint a = ground arith

pub eq_of_parts : (a b : ℤ) → pos_part a + neg_part b ≡ pos_part b + neg_part a → a ≡ b
eq_of_parts a b h = ground arith

pub ruleset int_laws = (arith, +ℤ_parts, -ℤ_parts, *ℤ_parts, eq_of_parts)

pub ruleset int_bounds = (arith, +ℤ_parts, -ℤ_parts, +ℤ_bounds, -ℤ_bounds)

-- The quotient rounded towards zero, Go's `/` on signed integers.
unfoldable pub quot : ℤ → ℕ → ℤ
quot a k = sub_ℕ (pos_part a / k) (neg_part a / k)

-- The quotient rounded down and its remainder, by which Go splits a time into its second and
-- the nanoseconds within it.
unfoldable pub floor_div : ℤ → ℕ → ℤ
floor_div (pos n) k = pos (n / k)
floor_div (negsuc n) k = negsuc (n / k)

unfoldable pub floor_mod : ℤ → ℕ → ℕ
floor_mod (pos n) k = n % k
floor_mod (negsuc n) k = k - 1 - n % k

-- The two's complement pattern with modulus `m`, and the signed number of a pattern with the sign
-- bit `h`.
unfoldable pub bits : ℕ → ℤ → ℕ
bits m (pos n) = n % m
bits m (negsuc n) = m - 1 - n % m

unfoldable pub signed : ℕ → ℕ → ℤ
signed h n = if ltb n h then pos n else negsuc (2 * h - 1 - n)

-- What fits a signed integer with the sign bit `h`.
abbrev pub Fits : ℕ → ℤ → Type 0
Fits h a = (pos_part a < h) × (neg_part a ≤ h)

-- int64 arithmetic: wrap-around, and what `time.Sub` does instead.
unfoldable pub wrap64 : ℤ → ℤ
unfolding bits signed
wrap64 a = signed (2 ^ 63) (bits (2 ^ 64) a)

unfoldable pub saturate64 : ℤ → ℤ
saturate64 a =
    if leb (2 ^ 63) (pos_part a)
    then pos (2 ^ 63 - 1)
    else if ltb (2 ^ 63) (neg_part a)
    then negsuc (2 ^ 63 - 1)
    else a

unfoldable pub add64 : ℤ → ℤ → ℤ
add64 a b = wrap64 (a +ℤ b)

unfoldable pub sub64 : ℤ → ℤ → ℤ
sub64 a b = wrap64 (a -ℤ b)

-- Facts by which `omega` reads the operations while they stay shut.
pub quot_parts :
    (a : ℤ) (k : ℕ)
    → (pos_part (quot a k) ≡ pos_part a / k) × (neg_part (quot a k) ≡ neg_part a / k)
unfolding quot
quot_parts (pos n) k = grind arith
quot_parts (negsuc n) k = grind arith

pub wrap64_id : (a : ℤ) → Fits (2 ^ 63) a → wrap64 a ≡ a
unfolding wrap64
wrap64_id (pos n) h = ground arith
wrap64_id (negsuc n) h = ground arith

pub wrap64-Fits : (a : ℤ) → Fits (2 ^ 63) (wrap64 a)
unfolding wrap64
wrap64-Fits (pos n) = ground arith
wrap64-Fits (negsuc n) = ground arith

pub saturate64_id : (a : ℤ) → Fits (2 ^ 63) a → saturate64 a ≡ a
unfolding saturate64
saturate64_id a h = ground arith

pub saturate64-Fits : (a : ℤ) → Fits (2 ^ 63) (saturate64 a)
unfolding saturate64
saturate64-Fits a = ground arith

-- Two's complement patterns round trip, for the widths in use.
pub signed8-bits : (a : ℤ) → Fits (2 ^ 7) a → signed (2 ^ 7) (bits (2 ^ 8) a) ≡ a
unfolding bits signed
signed8-bits (pos n) h = ground arith
signed8-bits (negsuc n) h = ground arith

pub signed16-bits : (a : ℤ) → Fits (2 ^ 15) a → signed (2 ^ 15) (bits (2 ^ 16) a) ≡ a
unfolding bits signed
signed16-bits (pos n) h = ground arith
signed16-bits (negsuc n) h = ground arith

pub signed64-bits : (a : ℤ) → Fits (2 ^ 63) a → signed (2 ^ 63) (bits (2 ^ 64) a) ≡ a
unfolding bits signed
signed64-bits (pos n) h = ground arith
signed64-bits (negsuc n) h = ground arith

pub bits8-signed : (n : ℕ) → n < 2 ^ 8 → bits (2 ^ 8) (signed (2 ^ 7) n) ≡ n
unfolding bits signed
bits8-signed n h = ground arith

pub bits64-signed : (n : ℕ) → n < 2 ^ 64 → bits (2 ^ 64) (signed (2 ^ 63) n) ≡ n
unfolding bits signed
bits64-signed n h = ground arith

pub bits8-lt : (a : ℤ) → bits (2 ^ 8) a < 2 ^ 8
unfolding bits
bits8-lt (pos n) = omega arith
bits8-lt (negsuc n) = omega arith

pub bits16-lt : (a : ℤ) → bits (2 ^ 16) a < 2 ^ 16
unfolding bits
bits16-lt (pos n) = omega arith
bits16-lt (negsuc n) = omega arith

pub bits64-lt : (a : ℤ) → bits (2 ^ 64) a < 2 ^ 64
unfolding bits
bits64-lt (pos n) = omega arith
bits64-lt (negsuc n) = omega arith

-- A time is its floor quotient times the divisor plus the remainder.
pub floor_parts :
    (a : ℤ)
    → (floor_mod a (10 ^ 9) < 10 ^ 9)
      × (pos_part a + 10 ^ 9 * neg_part (floor_div a (10 ^ 9))
          ≡ 10 ^ 9 * pos_part (floor_div a (10 ^ 9)) + floor_mod a (10 ^ 9) + neg_part a)
unfolding floor_div floor_mod
floor_parts (pos n) = omega arith
floor_parts (negsuc n) = omega arith

-- Half of what is near `2 * a`, to within `k`, is near `a`, to within half of `k` rounded up.
pub half_near :
    (x a : ℤ) (k : ℕ)
    → x ≤ℤ a +ℤ a +ℤ pos k
    → a +ℤ a ≤ℤ x +ℤ pos k
    → (quot x 2 ≤ℤ a +ℤ pos ((k + 1) / 2)) × (a ≤ℤ quot x 2 +ℤ pos ((k + 1) / 2))
half_near x a k h1 h2 = (
  omega (int_laws, quot_parts x 2, parts_disjoint x, parts_disjoint a),
  omega (int_laws, quot_parts x 2, parts_disjoint x, parts_disjoint a),
)

pub half_double : (a : ℤ) → quot (a +ℤ a) 2 ≡ a
half_double a = omega (int_laws, quot_parts (a +ℤ a) 2, parts_disjoint (a +ℤ a), parts_disjoint a)

-- The operations of int64 where the true result fits.
module _ (a b r : ℤ) where
  pub add64-eq : a +ℤ b ≡ r → Fits (2 ^ 63) r → add64 a b ≡ r
  unfolding add64
  add64-eq e h = rw e (wrap64_id r h)

  pub sub64-eq : a -ℤ b ≡ r → Fits (2 ^ 63) r → sub64 a b ≡ r
  unfolding sub64
  sub64-eq e h = rw e (wrap64_id r h)
