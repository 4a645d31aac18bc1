-- ===== src/Ntp/Time64/Conversion.antt =====
-- Time64FromTime and TimeFromTime64 of net/ntp/ntp.go: the era that is assumed, and what a round
-- trip keeps.
use scion_time.Base.{
  ℕ, ◌+◌, ◌*◌, ◌/◌, ◌%◌, ◌^◌, ◌≤◌, ◌<◌, ◌≡◌, arith, ltb, if◌then◌else◌, false, ap, lt→ltb, refl,
}
use scion_time.Base.Int.{
  ℤ, pos, ◌+ℤ◌, ◌-ℤ◌, ◌*ℤ◌, ◌≤ℤ◌, bits, quot, floor_parts, int_laws, -ℤ_parts, +ℤ_parts, ltb_ℤ,
}
use native.Mathlib.Decide.{dec_lt}
use scion_time.GoTime.{Time, unix, nanosecond, from_unix}
use scion_time.Ntp.Time64.{epoch, time64_from_time, time_from_time64, era_second}

-- The second `n` of the NTP time scale.
abbrev pub ntp_second : ℕ → ℤ
ntp_second n = epoch +ℤ pos n

quot-epoch : (m : ℕ) → quot (ntp_second m -ℤ epoch) (2 ^ 32) ≡ pos (m / 2 ^ 32)
unfolding quot ◌+ℤ◌ ◌-ℤ◌
quot-epoch m = ground arith

bits-epoch : (n : ℕ) → bits (2 ^ 32) (ntp_second n -ℤ epoch) ≡ n % 2 ^ 32
unfolding bits ◌+ℤ◌ ◌-ℤ◌
bits-epoch n = ground arith

era_start : (q s : ℕ) → epoch +ℤ pos q *ℤ (2 ^ 32) +ℤ pos s ≡ ntp_second (q * 2 ^ 32 + s)
era_start q s = omega int_laws

next_era : (x : ℕ) → ntp_second x +ℤ pos (2 ^ 32) ≡ ntp_second (x + 2 ^ 32)
next_era x = omega int_laws

half_era_before :
    (x m : ℕ) → ltb_ℤ (ntp_second x) (ntp_second m -ℤ pos (2 ^ 31)) ≡ ltb (x + 2 ^ 31) m
half_era_before x m =
    ground (
      arith,
      -ℤ_parts (ntp_second m) (pos (2 ^ 31)),
      +ℤ_parts epoch (pos m),
      +ℤ_parts epoch (pos x),
    )

-- On a reference second `m` of the NTP time scale, the era of `m` is assumed, or the next one for
-- a second count that would lie more than half an era before `m`.
era_second_lem :
    (s m : ℕ)
    → era_second s (ntp_second m) ≡ (
        if ltb (m / 2 ^ 32 * 2 ^ 32 + s + 2 ^ 31) m
        then ntp_second (m / 2 ^ 32 * 2 ^ 32 + s + 2 ^ 32)
        else ntp_second (m / 2 ^ 32 * 2 ^ 32 + s))
unfolding era_second
era_second_lem s m = rw (quot-epoch m, era_start (m / 2 ^ 32) s, half_era_before _ m, next_era _)

-- The wire keeps the second modulo the era.
seconds-time64 :
    (t : Time) (n : ℕ) → unix t ≡ ntp_second n → (time64_from_time t).seconds ≡ n % 2 ^ 32
unfolding time64_from_time
seconds-time64 t n e = rw (e, bits-epoch n)

ltb_no : (x y : ℕ) → ¬ (x < y) → ltb x y ≡ false
ltb_no x y h = ground arith

era_second-near :
    (n m : ℕ)
    → m / 2 ^ 32 ≤ n / 2 ^ 32
    → m ≤ n + 2 ^ 31
    → n < m + 2 ^ 31
    → era_second (n % 2 ^ 32) (ntp_second m) ≡ ntp_second n
era_second-near n m h1 h2 h3 = rw (era_second_lem (n % 2 ^ 32) m) (elim (dec_lt a m) [
  | yes p ↦ rw (lt→ltb a m p) (ap ntp_second (omega arith))
  | no p ↦ rw (ltb_no a m p) (ap ntp_second (omega arith))
])
  where
    a : ℕ
    a = m / 2 ^ 32 * 2 ^ 32 + n % 2 ^ 32 + 2 ^ 31

fraction-time64 :
    (t : Time) → (time64_from_time t).fraction ≡ nanosecond t * 2 ^ 32 / 10 ^ 9 % 2 ^ 32
unfolding time64_from_time
fraction-time64 t = refl

-- Converted to 2^-32 seconds and back, both rounded down, nanoseconds lose at most one.
fraction_back :
    (ns : ℕ)
    → ns < 10 ^ 9
    → (ns * 2 ^ 32 / 10 ^ 9 % 2 ^ 32 * 10 ^ 9 / 2 ^ 32 ≤ ns)
      × (ns ≤ ns * 2 ^ 32 / 10 ^ 9 % 2 ^ 32 * 10 ^ 9 / 2 ^ 32 + 1)
fraction_back ns h = omega arith

nanosecond-lt : (t : Time) → nanosecond t < 10 ^ 9
unfolding nanosecond
nanosecond-lt t = (floor_parts t).0

-- A time is its second and its nanosecond.
time_split : (t : Time) → from_unix (unix t) (pos (nanosecond t)) ≡ t
unfolding from_unix unix nanosecond
time_split t = omega (int_laws, floor_parts t)

from_unix_mono :
    (s : ℤ) (x y : ℕ)
    → x ≤ y
    → y ≤ x + 1
    → (from_unix s (pos x) ≤ℤ from_unix s (pos y))
      × (from_unix s (pos y) ≤ℤ from_unix s (pos x) +ℤ pos 1)
unfolding from_unix
from_unix_mono s x y h k = omega int_laws

-- A time goes through its NTP timestamp and back, and comes out unchanged or one nanosecond
-- earlier, if the reference time is within half an era of it and not in a later era. The seconds
-- of the two times on the NTP time scale are `n` and `m`.
pub time_from_time64-time64_from_time :
    (t t0 : Time) (n m : ℕ)
    → unix t ≡ ntp_second n
    → unix t0 ≡ ntp_second m
    → m / 2 ^ 32 ≤ n / 2 ^ 32
    → m ≤ n + 2 ^ 31
    → n < m + 2 ^ 31
    → (time_from_time64 (time64_from_time t) t0 ≤ℤ t)
      × (t ≤ℤ time_from_time64 (time64_from_time t) t0 +ℤ pos 1)
unfolding time_from_time64
time_from_time64-time64_from_time t t0 n m e e0 h1 h2 h3 =
    let back = fraction_back (nanosecond t) (nanosecond-lt t) in
    let near = from_unix_mono (unix t) _ _ back.0 back.1 in
    let same : era_second (time64_from_time t).seconds (unix t0) ≡ unix t =
      rw (seconds-time64 t n e, e0, e) (era_second-near n m h1 h2 h3) in
    rw (same, fraction-time64 t) (rw (time_split t) at near)

unix-from_unix : (s : ℤ) (x : ℕ) → x < 10 ^ 9 → unix (from_unix s (pos x)) ≡ s
unfolding unix from_unix
unix-from_unix s x h = omega (int_laws, floor_parts (s *ℤ (10 ^ 9) +ℤ pos x))

era_second-late :
    (n m : ℕ)
    → n / 2 ^ 32 + 1 ≡ m / 2 ^ 32
    → m % 2 ^ 32 ≤ 2 ^ 31
    → era_second (n % 2 ^ 32) (ntp_second m) ≡ ntp_second (n + 2 ^ 32)
era_second-late n m h1 h2 =
    rw (era_second_lem (n % 2 ^ 32) m, ltb_no a m (omega arith)) (ap ntp_second (omega arith))
  where
    a : ℕ
    a = m / 2 ^ 32 * 2 ^ 32 + n % 2 ^ 32 + 2 ^ 31

-- A timestamp of the era before that of the reference time comes out a whole era late, if the
-- reference time is in the first half of its era: the seconds count as those of the reference's
-- era.
pub time_from_time64_late :
    (t t0 : Time) (n m : ℕ)
    → unix t ≡ ntp_second n
    → unix t0 ≡ ntp_second m
    → n / 2 ^ 32 + 1 ≡ m / 2 ^ 32
    → m % 2 ^ 32 ≤ 2 ^ 31
    → unix (time_from_time64 (time64_from_time t) t0) ≡ ntp_second (n + 2 ^ 32)
unfolding time_from_time64
time_from_time64_late t t0 n m e e0 h1 h2 =
    let back = fraction_back (nanosecond t) (nanosecond-lt t) in
    let ns = nanosecond-lt t in
    rw (seconds-time64 t n e, e0, era_second-late n m h1 h2, fraction-time64 t)
      (unix-from_unix _ _ (omega arith))
