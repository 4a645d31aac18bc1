-- ===== src/GoTime.antt =====
-- What the sources use of Go's package time: a `time.Time` is its number of nanoseconds since the
-- Unix epoch (monotonic clock readings and locations are left out), a `time.Duration` an int64.
use scion_time.Base.{ℕ, ◌^◌, Bool}
use scion_time.Base.Int.{ℤ, ◌+ℤ◌, ◌-ℤ◌, ◌*ℤ◌, ltb_ℤ, floor_div, floor_mod, saturate64}

abbrev pub Time : Type 0
Time = ℤ

abbrev pub Duration : Type 0
Duration = ℤ

-- t.Unix() and t.Nanosecond(): the second, rounded down, and the nanoseconds within it.
unfoldable pub unix : Time → ℤ
unix t = floor_div t (10 ^ 9)

unfoldable pub nanosecond : Time → ℕ
nanosecond t = floor_mod t (10 ^ 9)

-- time.Unix(sec, nsec)
unfoldable pub from_unix : ℤ → ℤ → Time
from_unix sec nsec = sec *ℤ (10 ^ 9) +ℤ nsec

-- t.Sub(u), which saturates at the bounds of a Duration.
unfoldable pub sub : Time → Time → Duration
sub t u = saturate64 (t -ℤ u)

-- t.Add(d)
unfoldable pub add : Time → Duration → Time
add t d = t +ℤ d

abbrev pub before : Time → Time → Bool
before t u = ltb_ℤ t u

abbrev pub after : Time → Time → Bool
after t u = ltb_ℤ u t
