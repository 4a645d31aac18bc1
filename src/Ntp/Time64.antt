-- ===== src/Ntp/Time64.antt =====
-- net/ntp/ntp.go: 64-bit NTP timestamps and their conversion from and to times.
pub mod Order
pub mod Conversion
use scion_time.Base.{
  ℕ, ◌+◌, ◌*◌, ◌/◌, ◌%◌, ◌^◌, ◌<◌, Bool, ltb, ◌==◌, ◌&&◌, ◌||◌, if◌then◌else◌, ◌≡◌, arith,
}
use scion_time.Base.Int.{ℤ, pos, negsuc, ◌+ℤ◌, ◌-ℤ◌, ◌*ℤ◌, ltb_ℤ, bits, quot}
use scion_time.GoTime.{Time, unix, nanosecond, from_unix}

-- Seconds from the Unix epoch to the NTP epoch.
abbrev pub epoch : ℤ
epoch = negsuc 2208988799

abbrev pub nanoseconds_per_second : ℕ
nanoseconds_per_second = 10 ^ 9

abbrev pub seconds_per_era : ℕ
seconds_per_era = 2 ^ 32

pub record Time64 : Type 0 where
  pub seconds : ℕ
  pub fraction : ℕ

-- Both fields are uint32.
abbrev pub IsTime64 : Time64 → Type 0
IsTime64 t = (t.seconds < 2 ^ 32) × (t.fraction < 2 ^ 32)

unfoldable pub time64_from_time : Time → Time64
time64_from_time t = record {
  seconds = bits (2 ^ 32) (unix t -ℤ epoch);
  fraction = nanosecond t * 2 ^ 32 / nanoseconds_per_second % 2 ^ 32;
}

-- The second that `time_from_time64` assumes for a second count `s` of an unknown era, where the
-- reference time is in the second `tref`.
unfoldable pub era_second : ℕ → ℤ → ℤ
era_second s tref =
    let sec = epoch +ℤ quot (tref -ℤ epoch) seconds_per_era *ℤ seconds_per_era +ℤ pos s in
    if ltb_ℤ sec (tref -ℤ pos (seconds_per_era / 2)) then sec +ℤ pos seconds_per_era else sec

unfoldable pub time_from_time64 : Time64 → Time → Time
time_from_time64 t t0 =
    from_unix (era_second t.seconds (unix t0)) (pos (t.fraction * nanoseconds_per_second / 2 ^ 32))

unfoldable pub before : Time64 → Time64 → Bool
before t u = ltb t.seconds u.seconds || t.seconds == u.seconds && ltb t.fraction u.fraction

unfoldable pub after : Time64 → Time64 → Bool
after t u = ltb u.seconds t.seconds || t.seconds == u.seconds && ltb u.fraction t.fraction

-- The struct comparison `==`.
unfoldable pub time64_eq : Time64 → Time64 → Bool
time64_eq t u = t.seconds == u.seconds && t.fraction == u.fraction
