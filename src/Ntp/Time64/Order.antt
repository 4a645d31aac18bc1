-- ===== src/Ntp/Time64/Order.antt =====
-- Before and After of net/ntp/ntp.go order the timestamps as numbers of 2^-32 seconds.
use scion_time.Base.{ℕ, ◌+◌, ◌*◌, ◌^◌, ◌<◌, ◌≡◌, ◌↔◌, true, arith}
use scion_time.Ntp.Time64.{Time64, IsTime64, before, after, time64_eq}

-- The timestamp as one number.
abbrev pub ticks : Time64 → ℕ
ticks t = t.seconds * 2 ^ 32 + t.fraction

-- On uint32 fields Before is the order of the timestamps as numbers of 2^-32 seconds, After is its
-- converse, and neither holds exactly at equal timestamps.
pub before-after_order :
    (t u : Time64)
    → IsTime64 t
    → IsTime64 u
    → ((before t u ≡ true) ↔ (ticks t < ticks u))
      × ((after t u ≡ true) ↔ (ticks u < ticks t))
      × ((time64_eq t u ≡ true) ↔ (t ≡ u))
unfolding before after time64_eq
before-after_order t u ht hu = (ground arith, ground arith, ground arith)
