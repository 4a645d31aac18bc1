-- ===== src/Server/Item/Update.antt =====
-- updateTXTimestamp completes what handleRequest stored, so that the next interleaved request gets
-- the time at which the last answer was sent.
use scion_time.Ntp.Packet.{Packet}
use scion_time.Base.{
  Bool-cases, List, [], ap, arith, get_elem?, inl, inr, none, refl, set, some, suc, zero, ℕ, ◌+◌,
  ◌∙◌, ◌∷◌, ◌≡◌, ◌⊎◌, false, sym, true, length-set, Option, ◌<◌,
}
use scion_time.Ntp.Time64.{Time64, time64_eq, time64_from_time}
use scion_time.Server.Item.{
  Entry, Latest, scan_latest, Item, ensure_after, next_latest, no_latest, update_entry,
  update_tx_timestamp, handle_request, kept,
}
use scion_time.Server.Item.Interleaved.{Distinct, txt_of, IsBuffer, time64_eq_self}
use scion_time.Server.Item.Serves.{Answers, handle_request-Serves}
use scion_time.Server.Item.Unique.{clash, time64_eq_iff}
use scion_time.Base.Int.{int_laws, ltb_ℤ, ◌<ℤ◌}
use scion_time.GoTime.{Time, add}
use scion_time.Server.Item.Scan.{txt_of-clash}

pub scan_latest-x :
    (u : Time64) (i : ℕ) (es : List Entry) (s : Latest)
    → Distinct es
    → ((txt_of u es ≡ none) × ((scan_latest u i es s).x ≡ s.x))
      ⊎ ((j : ℕ) × (e : Entry) × (get_elem? es j ≡ some e)
          × (e.rxt ≡ u)
          × (txt_of u es ≡ some e.txt)
          × ((scan_latest u i es s).x ≡ some (i + j)))
unfolding scan_latest
scan_latest-x u i [] s d = inl (refl, refl)
scan_latest-x u i (e ∷ es) s d = elim (Bool-cases (time64_eq e.rxt u)) [
  | inl y ↦ elim (scan_latest-x u (i + 1) es (next_latest u i e s) d.1) [
    | inl (_, o) ↦
        inr (0, e, refl, (time64_eq_iff e.rxt u).0 y, rw y refl, (o ∙ rw y (ap some (omega arith))))
    | inr (j, f, g, r, k, o) ↦
        absurd (cc (k, (rw ((time64_eq_iff e.rxt u).0 y) at (txt_of-clash e.rxt es d.0))))
  ]
  | inr m ↦ elim (scan_latest-x u (i + 1) es (next_latest u i e s) d.1) [
    | inl (a, o) ↦ inl (rw m a, (o ∙ rw m refl))
    | inr (j, f, g, r, k, o) ↦ inr (suc j, f, g, r, rw m k, (o ∙ ap some (omega arith)))
  ]
]

-- A new transmit timestamp in an entry.
clash-set_txt :
    (u : Time64) (es : List Entry) (j : ℕ) (e : Entry) (x : Time64)
    → get_elem? es j ≡ some e
    → clash u (set es j (record e { txt = x })) ≡ clash u es
clash-set_txt u [] j e x h = refl
clash-set_txt u (y ∷ es) zero e x h = let same : y ≡ e = cc h in rw same refl
clash-set_txt u (y ∷ es) (suc j) e x h = rw (clash-set_txt u es j e x h) refl

pub Distinct-set_txt :
    (es : List Entry) (j : ℕ) (e : Entry) (x : Time64)
    → Distinct es
    → get_elem? es j ≡ some e
    → Distinct (set es j (record e { txt = x }))
Distinct-set_txt [] j e x d h = tt
Distinct-set_txt (y ∷ es) zero e x d h = let same : y ≡ e = cc h in (rw same at d.0, d.1)
Distinct-set_txt (y ∷ es) (suc j) e x d h =
    (clash-set_txt y.rxt es j e x h ∙ d.0, Distinct-set_txt es j e x d.1 h)

ensure_after_later : (rxt txt : Time) → rxt <ℤ ensure_after rxt txt
unfolding ensure_after add
ensure_after_later rxt txt = elim (Bool-cases (ltb_ℤ rxt txt)) [
  | inl y ↦ rw y (ground arith)
  | inr n ↦ rw n (omega int_laws)
]

clash-there :
    (es : List Entry) (j : ℕ) (e : Entry) → get_elem? es j ≡ some e → clash e.rxt es ≡ true
clash-there [] j e h = absurd (cc h)
clash-there (y ∷ es) zero e h = let same : y ≡ e = cc h in rw (same, time64_eq_self e.rxt) refl
clash-there (y ∷ es) (suc j) e h = elim (Bool-cases (time64_eq y.rxt e.rxt)) [
  | inl z ↦ rw z refl
  | inr z ↦ rw z (clash-there es j e h)
]

txt_of-set_txt :
    (es : List Entry) (j : ℕ) (e : Entry) (u x : Time64)
    → Distinct es
    → get_elem? es j ≡ some e
    → e.rxt ≡ u
    → txt_of u (set es j (record e { txt = x })) ≡ some x
txt_of-set_txt [] j e u x d h k = absurd (cc h)
txt_of-set_txt (y ∷ es) zero e u x d h k = rw (k, time64_eq_self u) refl
txt_of-set_txt (y ∷ es) (suc j) e u x d h k = elim (Bool-cases (time64_eq y.rxt u)) [
  | inl z ↦ absurd (cc (clash-there es j e h, (rw ((time64_eq_iff y.rxt u).0 z ∙ sym k) at d.0)))
  | inr z ↦ rw z (txt_of-set_txt es j e u x d.1 h k)
]

-- Where the item has another transmit timestamp, it is replaced.
update_entry-replaces :
    (item : Item) (t old x : Time64)
    → IsBuffer item.buf
    → txt_of t item.buf ≡ some old
    → time64_eq old x ≡ false
    → (buf : List Entry) × (update_entry item t x ≡ kept (record item { buf = buf }))
      × IsBuffer buf
      × (txt_of t buf ≡ some x)
unfolding update_entry
update_entry-replaces item t old x b h new = elim (scan_latest-x t 0 item.buf no_latest b.0) [
  | inl (n, o) ↦ absurd (cc (h, n))
  | inr (j, e, g, r, k, o) ↦
      let o' : (scan_latest t 0 item.buf no_latest).x ≡ some j = o ∙ ap some (omega arith) in
      let same : old ≡ e.txt = cc (h, k) in
      let new' : time64_eq e.txt x ≡ false = rw same at new in
      (
        set item.buf j (record e { txt = x }),
        rw (update_entry, o', g, new') refl,
        (
          Distinct-set_txt item.buf j e x b.0 g,
          rw (length-set item.buf j (record e { txt = x })) b.1,
        ),
        txt_of-set_txt item.buf j e t x b.0 g r,
      )
]

-- After updateTXTimestamp, the transmit time is later than the receive time. If the item has
-- another transmit timestamp for the receive timestamp, it has the new one afterwards.
pub update_tx_timestamp-updates :
    (item : Item) (rxt txt : Time) (old : Time64)
    → IsBuffer item.buf
    → txt_of (time64_from_time rxt) item.buf ≡ some old
    → time64_eq old (time64_from_time (ensure_after rxt txt)) ≡ false
    → (rxt <ℤ ensure_after rxt txt)
      × ((item' : Item) × (update_tx_timestamp item rxt txt ≡ (ensure_after rxt txt, kept item'))
          × IsBuffer item'.buf
          × (txt_of (time64_from_time rxt) item'.buf
              ≡ some (time64_from_time (ensure_after rxt txt))))
unfolding update_tx_timestamp
update_tx_timestamp-updates item rxt txt old b h new =
    let (buf, e, w, k) =
      update_entry-replaces item (time64_from_time rxt) old
        (time64_from_time (ensure_after rxt txt)) b h new in
    (
      ensure_after_later rxt txt,
      (record item { buf = buf }, rw (update_tx_timestamp, e) refl, w, k),
    )

-- The times of an answer in the interleaved mode.
interleaved_times :
    (answer req : Packet) (rxt64 txt64 t : Time64) (stored : Option Time64)
    → Answers answer req rxt64 txt64 stored
    → stored ≡ some t
    → time64_eq req.receive_time req.transmit_time ≡ false
    → (answer.origin_time ≡ req.receive_time) × (answer.transmit_time ≡ t)
interleaved_times answer req rxt64 txt64 t stored a found other =
    (a.origin_time ∙ rw (found, other) refl, a.transmit_time ∙ rw (found, other) refl)

-- What a request `req2` with the timestamp of `rxt` as its origin timestamp leads to after
-- the item `stored` was updated with the time `sent`.
abbrev pub Interleaves : Item → Packet → Packet → Time → Time → Time → Time → Type 0
Interleaves stored resp2 req2 rxt sent rxt2 txt2 =
    (updated : Item) × (answer2 : Packet) × (rxt3 txt3 : Time) × (last : Item)
    × (update_tx_timestamp stored rxt sent ≡ (ensure_after rxt sent, kept updated))
    × (handle_request updated resp2 req2 rxt2 txt2 ≡ some (rxt3, txt3, answer2, last))
    × (answer2.origin_time ≡ req2.receive_time)
    × (answer2.transmit_time ≡ time64_from_time (ensure_after rxt sent))

-- Two exchanges in the interleaved mode: the answer to the first request is sent, and then
-- updateTXTimestamp is told the time `sent` at which it was; the second request names the receive
-- timestamp of the first as its origin, and its receive and transmit timestamps differ. Then the
-- second answer has the receive timestamp of its request as its origin, and as its transmit
-- timestamp the time at which the first answer was sent, or 1 ns after the first request was
-- received if that is later. The timestamp of that time differs from the transmit timestamp that
-- was stored with the first answer, and no other request or update of the client comes between.
pub interleaved_exchange :
    (item : Item) (resp req resp2 req2 : Packet) (rxt txt sent rxt2 txt2 : Time) (rxt' txt' : Time)
    (answer : Packet) (stored : Item)
    → IsBuffer item.buf
    → resp.lvm < 192
    → resp2.lvm < 192
    → handle_request item resp req rxt txt ≡ some (rxt', txt', answer, stored)
    → time64_eq (time64_from_time txt') (time64_from_time (ensure_after rxt' sent)) ≡ false
    → req2.origin_time ≡ time64_from_time rxt'
    → time64_eq req2.receive_time req2.transmit_time ≡ false
    → Interleaves stored resp2 req2 rxt' sent rxt2 txt2
interleaved_exchange item resp req resp2 req2 rxt txt sent rxt2 txt2 rxt' txt' answer stored b h h2
      e n o m =
    let (r, t, a, i, e1, _, _, _, _, w, k) = handle_request-Serves item resp req rxt txt b h in
    let pair : ◌≡◌ {A = Option (Time × Time × Packet × Item)} (some (r, t, a, i))
        (some (rxt', txt', answer, stored)) =
      sym e1 ∙ e in
    let same_i : i ≡ stored = cc pair in
    let same_r : r ≡ rxt' = cc pair in
    let same_t : t ≡ txt' = cc pair in
    let w' : IsBuffer stored.buf = rw (← same_i) w in
    let k' : txt_of (time64_from_time rxt') stored.buf ≡ some (time64_from_time txt') =
      rw (← same_i, ← same_r, ← same_t) k in
    let (_, (updated, u, w2, k2)) =
      update_tx_timestamp-updates stored rxt' sent (time64_from_time txt') w' k' n in
    let (r3, t3, a3, i3, e3, _, _, _, an, _, _) =
      handle_request-Serves updated resp2 req2 rxt2 txt2 w2 h2 in
    let found : txt_of req2.origin_time updated.buf
        ≡ some (time64_from_time (ensure_after rxt' sent)) =
      rw o k2 in
    let times = interleaved_times a3 req2 _ _ _ _ an found m in
    (updated, a3, r3, t3, i3, u, e3, times.0, times.1)
