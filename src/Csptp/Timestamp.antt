-- ===== src/Csptp/Timestamp.antt =====
-- net/csptp/csptp.go: byte arrays of fixed size, timestamps and their conversion.
use scion_time.GoTime
use scion_time.Base.{
  List, Option, arith, if◌then◌else◌, none, some, ℕ, ◌%◌, ◌*◌, ◌+◌, ◌-◌, ◌/◌, ◌<◌, ◌^◌, ◌↔◌, ◌≡◌,
  ◌⊎◌, ◌∙◌, [],
}
use scion_time.Base.Bytes.{IsByte, at32, at8, put32, put8, byte_lem, put32_lem}
use scion_time.Base.Int.{floor_div, floor_parts, int_laws, ltb_ℤ, pos, pos_part, ℤ, ◌<ℤ◌}
use scion_time.GoTime.{Duration, Time}

-- [3]uint8 and [6]uint8
pub record Bytes3 : Type 0 where
  pub b0 : ℕ
  pub b1 : ℕ
  pub b2 : ℕ

pub record Bytes6 : Type 0 where
  pub b0 : ℕ
  pub b1 : ℕ
  pub b2 : ℕ
  pub b3 : ℕ
  pub b4 : ℕ
  pub b5 : ℕ

abbrev pub IsBytes3 : Bytes3 → Type 0
IsBytes3 x = IsByte x.b0 × IsByte x.b1 × IsByte x.b2

abbrev pub IsBytes6 : Bytes6 → Type 0
IsBytes6 x = IsByte x.b0 × IsByte x.b1 × IsByte x.b2 × IsByte x.b3 × IsByte x.b4 × IsByte x.b5

abbrev pub put_bytes3 : Bytes3 → List ℕ → List ℕ
put_bytes3 x r = put8 x.b0 (put8 x.b1 (put8 x.b2 r))

abbrev pub put_bytes6 : Bytes6 → List ℕ → List ℕ
put_bytes6 x r = put8 x.b0 (put8 x.b1 (put8 x.b2 (put8 x.b3 (put8 x.b4 (put8 x.b5 r)))))

abbrev pub bytes3_at : List ℕ → ℕ → Bytes3
bytes3_at b i = record { b0 = at8 b i; b1 = at8 b (i + 1); b2 = at8 b (i + 2) }

abbrev pub bytes6_at : List ℕ → ℕ → Bytes6
bytes6_at b i = record {
  b0 = at8 b i;
  b1 = at8 b (i + 1);
  b2 = at8 b (i + 2);
  b3 = at8 b (i + 3);
  b4 = at8 b (i + 4);
  b5 = at8 b (i + 5);
}

pub record Timestamp : Type 0 where
  pub seconds : Bytes6
  pub nanoseconds : ℕ

abbrev pub IsTimestamp : Timestamp → Type 0
IsTimestamp t = IsBytes6 t.seconds × (t.nanoseconds < 2 ^ 32)

abbrev pub put_timestamp : Timestamp → List ℕ → List ℕ
put_timestamp t r = put_bytes6 t.seconds (put32 t.nanoseconds r)

abbrev pub timestamp_at : List ℕ → ℕ → Timestamp
timestamp_at b i = record { seconds = bytes6_at b i; nanoseconds = at32 b (i + 6) }

-- The timestamp of the second `n`.
abbrev stamp : ℕ → ℕ → Timestamp
stamp n ns = record {
  seconds = record {
    b0 = n / 2 ^ 40 % 256;
    b1 = n / 2 ^ 32 % 256;
    b2 = n / 2 ^ 24 % 256;
    b3 = n / 2 ^ 16 % 256;
    b4 = n / 2 ^ 8 % 256;
    b5 = n % 256;
  };
  nanoseconds = ns % 2 ^ 32;
}

-- `none` is one of the two panics, on a second before 1970 or beyond 48 bits.
unfoldable pub timestamp_from_time : Time → Option Timestamp
timestamp_from_time t =
    let s = GoTime.unix t in
    if ltb_ℤ s (pos 0)
    then none
    else if ltb_ℤ (pos (2 ^ 48 - 1)) s
    then none
    else some (stamp (pos_part s) (GoTime.nanosecond t))

unfoldable pub time_from_timestamp : Timestamp → Time
time_from_timestamp t =
    let s = t.seconds in
    GoTime.from_unix
      (pos (s.b0 * 2 ^ 40 + s.b1 * 2 ^ 32 + s.b2 * 2 ^ 24 + s.b3 * 2 ^ 16 + s.b4 * 2 ^ 8 + s.b5))
      (pos t.nanoseconds)

-- An interval counts 2^-16 ns; `>>` rounds down.
unfoldable pub duration_from_time_interval : ℤ → Duration
duration_from_time_interval i = floor_div i (2 ^ 16)

nanosecond-lt : (t : Time) → GoTime.nanosecond t < 10 ^ 9
unfolding GoTime.nanosecond
nanosecond-lt t = (floor_parts t).0

time_split :
    (t : Time) (n : ℕ)
    → GoTime.unix t ≡ pos n
    → GoTime.from_unix (pos n) (pos (GoTime.nanosecond t)) ≡ t
unfolding GoTime.from_unix GoTime.unix GoTime.nanosecond
time_split t n e = rw (← e) (omega (int_laws, floor_parts t))

timestamp_from_time-fits :
    (t : Time) (n : ℕ)
    → GoTime.unix t ≡ pos n
    → n < 2 ^ 48
    → timestamp_from_time t ≡ some (stamp n (GoTime.nanosecond t))
unfolding timestamp_from_time
timestamp_from_time-fits t n e h = rw e (ground arith)

join48 :
    (n : ℕ)
    → n < 2 ^ 48
    → n / 2 ^ 40 % 256 * 2 ^ 40
        + n / 2 ^ 32 % 256 * 2 ^ 32
        + n / 2 ^ 24 % 256 * 2 ^ 24
        + n / 2 ^ 16 % 256 * 2 ^ 16
        + n / 2 ^ 8 % 256 * 2 ^ 8
        + n % 256
      ≡ n
join48 n h = omega arith

time_from_timestamp-stamp :
    (n ns : ℕ)
    → n < 2 ^ 48
    → ns < 2 ^ 32
    → time_from_timestamp (stamp n ns) ≡ GoTime.from_unix (pos n) (pos ns)
unfolding time_from_timestamp
time_from_timestamp-stamp n ns h k = let e : ns % 2 ^ 32 ≡ ns = omega arith in rw (join48 n h, e)

-- A timestamp is made of every time from 1970 on whose second has 48 bits; it is well formed and
-- stands for that very time, to the nanosecond.
pub time_from_timestamp-timestamp_from_time :
    (t : Time) (n : ℕ)
    → GoTime.unix t ≡ pos n
    → n < 2 ^ 48
    → (s : Timestamp) × (timestamp_from_time t ≡ some s)
      × IsTimestamp s
      × (time_from_timestamp s ≡ t)
time_from_timestamp-timestamp_from_time t n e h = (
  _,
  timestamp_from_time-fits t n e h,
  omega arith,
  time_from_timestamp-stamp n _ h (omega (arith, nanosecond-lt t)) ∙ time_split t n e,
)

-- The conversion panics exactly on times before 1970 and on times whose second has more than 48
-- bits.
pub timestamp_from_time-none :
    (t : Time)
    → (timestamp_from_time t ≡ none)
      ↔ ((GoTime.unix t <ℤ pos 0) ⊎ (pos (2 ^ 48 - 1) <ℤ GoTime.unix t))
unfolding timestamp_from_time
timestamp_from_time-none t = ground arith

-- Arrays and timestamps of the Go types are read back from the bytes written.
pub bytes3_lem :
    (x : Bytes3)
    → IsBytes3 x
    → ◌≡◌ {A = Bytes3} (record { b0 = x.b0 % 256; b1 = x.b1 % 256; b2 = x.b2 % 256 }) x
bytes3_lem x v =
    λ i. record { b0 = byte_lem x.b0 v.0 i; b1 = byte_lem x.b1 v.1 i; b2 = byte_lem x.b2 v.2 i }

pub timestamp_lem : (t : Timestamp) → IsTimestamp t → timestamp_at (put_timestamp t []) 0 ≡ t
timestamp_lem t v = λ i. record {
  seconds = record {
    b0 = byte_lem t.seconds.b0 v.0.0 i;
    b1 = byte_lem t.seconds.b1 v.0.1 i;
    b2 = byte_lem t.seconds.b2 v.0.2 i;
    b3 = byte_lem t.seconds.b3 v.0.3 i;
    b4 = byte_lem t.seconds.b4 v.0.4 i;
    b5 = byte_lem t.seconds.b5 v.0.5 i;
  };
  nanoseconds = put32_lem t.nanoseconds v.1 i;
}
