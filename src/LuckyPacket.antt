-- ===== src/LuckyPacket.antt =====
-- core/client/filter_flash.go: the filter that keeps a window of measurements and returns the
-- median offset of those with the lowest round-trip delays. The two sorters are the two calls of
-- slices.SortFunc. The array behind luckyPkts is overwritten by each step before it is read, so it
-- is not part of the state.
pub mod Window
use scion_time.Base.{
  ◌>>=◌, List, Option, [], drop, get_elem?, if◌then◌else◌, length, ltb, none, not, some, take, ℕ,
  ◌%◌, ◌++◌, ◌-◌, ◌/◌, ◌==◌, ◌∷◌,
}
use scion_time.Ntp.Offset.{clock_offset, round_trip_delay}
use Prim.Native.Nat.{min}
use scion_time.Base.Int.{add64, leb_ℤ, pos, pos_part, quot, sub64, ℤ}
use scion_time.GoTime.{Duration, Time}
use scion_time.Sorting.{Sorter}

pub record FlashMeasurement : Type 0 where
  pub stamp : Time
  pub off : Duration
  pub rtd : Duration

-- `cap` is the capacity of the window.
pub record LuckyPacketFilter : Type 0 where
  pub cap : ℕ
  pub pick : ℕ
  pub state : List FlashMeasurement

-- `none` is a panic.
unfoldable pub new_lucky_packet_filter : ℤ → ℤ → Option LuckyPacketFilter
new_lucky_packet_filter cap pick =
    if leb_ℤ cap (pos 0)
    then none
    else if leb_ℤ pick (pos 0)
    then none
    else some (record { cap = pos_part cap; pick = min (pos_part pick) (pos_part cap); state = [] })

-- The window with a new measurement.
unfoldable pub shifted : LuckyPacketFilter → FlashMeasurement → List FlashMeasurement
shifted f m =
    let kept = if length f.state == f.cap then drop 1 f.state else f.state in kept ++ (m ∷ [])

-- The median offset of the picked measurements, which are sorted by their offsets; `none` is a
-- panic.
unfoldable pub median_offset : List FlashMeasurement → Option Duration
median_offset ms =
    let i = length ms / 2 in
    if not (length ms % 2 == 0) then (do m ← get_elem? ms i; some m.off) else (do
      x ← get_elem? ms (i - 1)
      y ← get_elem? ms i
      some (add64 x.off (quot (sub64 y.off x.off) 2)))

module _ (by_delay : Sorter FlashMeasurement (λ m. m.rtd))
    (by_offset : Sorter FlashMeasurement (λ m. m.off)) where
  unfoldable pub lucky_packets : ℕ → List FlashMeasurement → List FlashMeasurement
  lucky_packets pick window =
      if ltb pick (length window) then take pick (by_delay.sort window) else window

  -- Do: the filter after the step, and the offset.
  unfoldable pub do_filter :
      LuckyPacketFilter → Time → Time → Time → Time → Option (LuckyPacketFilter × Duration)
  do_filter f c_tx s_rx s_tx c_rx =
      if f.cap == 0 then some (f, clock_offset c_tx s_rx s_tx c_rx) else (do
        let m : FlashMeasurement = record {
          stamp = c_tx;
          off = clock_offset c_tx s_rx s_tx c_rx;
          rtd = round_trip_delay c_tx s_rx s_tx c_rx;
        }
        let window = shifted f m
        offset ← median_offset (by_offset.sort (lucky_packets f.pick window))
        some (record f { state = window }, offset))

-- Reset
unfoldable pub reset : LuckyPacketFilter → LuckyPacketFilter
reset f = record f { state = [] }
