-- ===== src/LuckyPacket/Window.antt =====
-- The lucky packet filter of core/client/filter_flash.go keeps within its capacity and always has
-- a result.
use scion_time.Base.{
  ==_false, ==_iff, Bool-cases, List, [], arith, drop, inl, inr, length, length-append, length-drop,
  length-take, ltb, refl, some, ℕ, ◌%◌, ◌+◌, ◌-◌, ◌/◌, ◌<◌, ◌==◌, ◌∷◌, ◌≡◌, ◌≤◌,
}
use scion_time.Ntp.Offset.{clock_offset, round_trip_delay}
use Prim.Native.Nat.{min}
use scion_time.Base.Int.{add64, quot, sub64, leb_ℤ, pos, pos_part, ℤ}
use scion_time.GoTime.{Duration, Time}
use scion_time.LuckyPacket.{
  FlashMeasurement, LuckyPacketFilter, do_filter, lucky_packets, median_offset, shifted,
  new_lucky_packet_filter,
}
use scion_time.Sorting.{Sorter}
use scion_time.Sorting.Rank.{get_elem?-lt, length-perm}
use mathlib.Core.Path.{subst}

-- A filter as NewLuckyPacketFilter makes it, and as Do leaves it.
pub record IsFilter (f : LuckyPacketFilter) : Type 0 where
  pub room : 0 < f.cap
  pub picks : 0 < f.pick
  pub at_most : f.pick ≤ f.cap
  pub within : length f.state ≤ f.cap

length-shifted :
    (f : LuckyPacketFilter) (m : FlashMeasurement)
    → IsFilter f
    → length (shifted f m) ≡ min (length f.state + 1) f.cap
unfolding shifted
length-shifted f m v = elim (Bool-cases (length f.state == f.cap)) [
  | inl e ↦
      let full = (==_iff (length f.state) f.cap).0 e in
      rw e (
        omega (arith, full, v.room, length-append (drop 1 f.state) (m ∷ []), length-drop 1 f.state))
  | inr e ↦ rw e (ground (arith, length-append f.state (m ∷ []), v.within))
]

median_offset-some :
    (ms : List FlashMeasurement) → 0 < length ms → (d : Duration) × (median_offset ms ≡ some d)
unfolding median_offset
median_offset-some ms h = elim (Bool-cases (length ms % 2 == 0)) [
  | inl e ↦
      let even = (==_iff (length ms % 2) 0).0 e in
      let (x, ex) = get_elem?-lt ms (length ms / 2 - 1) (omega arith) in
      let (y, ey) = get_elem?-lt ms (length ms / 2) (omega arith) in
      (add64 x.off (quot (sub64 y.off x.off) 2), rw (e, ex, ey) refl)
  | inr e ↦ let (x, ex) = get_elem?-lt ms (length ms / 2) (omega arith) in (x.off, rw (e, ex) refl)
]

module _ (by_delay : Sorter FlashMeasurement (λ m. m.rtd))
    (by_offset : Sorter FlashMeasurement (λ m. m.off)) where
  length-lucky_packets :
      (pick : ℕ) (window : List FlashMeasurement)
      → length (lucky_packets by_delay by_offset pick window) ≡ min pick (length window)
  unfolding lucky_packets
  length-lucky_packets pick window = elim (Bool-cases (ltb pick (length window))) [
    | inl e ↦
        rw (e, length-take pick (by_delay.sort window), length-perm (by_delay.permutes window)) refl
    | inr e ↦ rw e (ground arith)
  ]

  -- From a well-formed filter, Do returns an offset, and leaves a well-formed filter of the same
  -- capacity, whose window has one measurement more, or is full.
  pub do_filter-IsFilter :
      (f : LuckyPacketFilter) (c_tx s_rx s_tx c_rx : Time)
      → IsFilter f
      → (g : LuckyPacketFilter) × (offset : Duration) × (do_filter by_delay by_offset f c_tx s_rx
            s_tx c_rx
          ≡ some (g, offset))
        × IsFilter g
        × (g.cap ≡ f.cap)
        × (length g.state ≡ min (length f.state + 1) f.cap)
  unfolding do_filter
  do_filter-IsFilter f c_tx s_rx s_tx c_rx v =
      let m : FlashMeasurement = record {
        stamp = c_tx;
        off = clock_offset c_tx s_rx s_tx c_rx;
        rtd = round_trip_delay c_tx s_rx s_tx c_rx;
      } in
      let window = shifted f m in
      let lucky = lucky_packets by_delay by_offset f.pick window in
      let size = length-shifted f m v in
      let picked = length-lucky_packets f.pick window in
      let sorted = length-perm (by_offset.permutes lucky) in
      let some_left : 0 < length (by_offset.sort lucky) =
        omega (arith, size, picked, sorted, v.room, v.picks) in
      let (d, e) = median_offset-some (by_offset.sort lucky) some_left in
      (
        record f { state = window },
        d,
        rw (==_false f.cap 0 (λ z. omega (arith, v.room)), e) refl,
        record {
          room = v.room;
          picks = v.picks;
          at_most = v.at_most;
          within = omega (arith, size);
        },
        refl,
        size,
      )

new_lucky_packet_filter-IsFilter :
    (cap pick : ℤ) (f : LuckyPacketFilter) → new_lucky_packet_filter cap pick ≡ some f → IsFilter f
unfolding new_lucky_packet_filter
new_lucky_packet_filter-IsFilter cap pick f h = elim (Bool-cases (leb_ℤ cap (pos 0))) [
  | inl e ↦ absurd (cc (rw e at h))
  | inr e ↦ elim (Bool-cases (leb_ℤ pick (pos 0))) [
    | inl e' ↦ absurd (cc (rw (e, e') at h))
    | inr e' ↦
        let c : 0 < pos_part cap = ground arith in
        let k : 0 < pos_part pick = ground arith in
        subst (λ (g : LuckyPacketFilter). IsFilter g) (Option-some (rw (e, e') at h))
          (record { room = c; picks = omega arith; at_most = omega arith; within = omega arith })
  ]
]
  where
    Option-some : {A : Type 0} {a b : A} → some a ≡ some b → a ≡ b
    Option-some h = cc h
