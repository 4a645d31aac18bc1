-- ===== src/Server/Store/Update.antt =====
-- updateTXTimestamp of core/server/server.go keeps the timestamp store valid.
use scion_time.Server.Item.{
  update_tx_timestamp, dropped, kept, requeued, Entry, Item, Updated, ensure_after, no_latest,
  remove_entry, scan_latest, update_entry,
}
use scion_time.Base.{
  Bool-cases, List, Option-cases, [], ap, arith, false, get_elem?, inl, inr, length, length-set,
  refl, set, some, suc, take, zero, ℕ, ◌-◌, ◌==◌, ◌∙◌, ◌∷◌, ◌≡◌, ◌≤◌,
}
use scion_time.GoTime.{Time}
use scion_time.Ntp.Time64.{Time64, time64_eq, time64_from_time}
use scion_time.Server.Item.Interleaved.{Distinct, IsBuffer, clash-head, time64_eq_comm}
use scion_time.Server.Item.Unique.{clash}
use scion_time.Server.Item.Update.{Distinct-set_txt, scan_latest-x}
use scion_time.Server.Queue.{ClientId}
use scion_time.Server.Store.{Store, put_updated, update_tx}
use scion_time.Server.Store.Change.{drop_item-IsStore}
use scion_time.Server.Store.Valid.{IsStore, replace-IsStore, requeue-IsStore}

clash-take :
    (u : Time64) (es : List Entry) (n : ℕ) → clash u es ≡ false → clash u (take n es) ≡ false
clash-take u [] zero h = refl
clash-take u [] (suc n) h = refl
clash-take u (e ∷ es) zero h = refl
clash-take u (e ∷ es) (suc n) h =
    let (a, b) = clash-head u e es h in rw (a, clash-take u es n b) refl

clash-at :
    (u : Time64) (es : List Entry) (n : ℕ) (l : Entry)
    → clash u es ≡ false
    → get_elem? es n ≡ some l
    → time64_eq l.rxt u ≡ false
clash-at u [] n l h g = absurd (cc g)
clash-at u (e ∷ es) zero l h g = let same : e ≡ l = cc g in rw (← same) (clash-head u e es h).0
clash-at u (e ∷ es) (suc n) l h g = clash-at u es n l (clash-head u e es h).1 g

-- The last entry moves to the place of an entry that goes.
clash-remove :
    (u : Time64) (es : List Entry) (n j : ℕ) (l : Entry)
    → clash u es ≡ false
    → get_elem? es n ≡ some l
    → clash u (take n (set es j l)) ≡ false
clash-remove u [] n j l h g = absurd (cc g)
clash-remove u (e ∷ es) zero zero l h g = refl
clash-remove u (e ∷ es) zero (suc j) l h g = refl
clash-remove u (e ∷ es) (suc n) zero l h g =
    let (a, b) = clash-head u e es h in rw (clash-at u es n l b g, clash-take u es n b) refl
clash-remove u (e ∷ es) (suc n) (suc j) l h g =
    let (a, b) = clash-head u e es h in rw (a, clash-remove u es n j l b g) refl

Distinct-take : (es : List Entry) (n : ℕ) → Distinct es → Distinct (take n es)
Distinct-take [] zero d = tt
Distinct-take [] (suc n) d = tt
Distinct-take (e ∷ es) zero d = tt
Distinct-take (e ∷ es) (suc n) d = (clash-take e.rxt es n d.0, Distinct-take es n d.1)

clash-before :
    (es : List Entry) (n : ℕ) (l : Entry)
    → Distinct es
    → get_elem? es n ≡ some l
    → clash l.rxt (take n es) ≡ false
clash-before [] n l d g = absurd (cc g)
clash-before (e ∷ es) zero l d g = refl
clash-before (e ∷ es) (suc n) l d g =
    rw (time64_eq_comm e.rxt l.rxt, clash-at e.rxt es n l d.0 g, clash-before es n l d.1 g) refl

Distinct-remove :
    (es : List Entry) (n j : ℕ) (l : Entry)
    → Distinct es
    → get_elem? es n ≡ some l
    → Distinct (take n (set es j l))
Distinct-remove [] n j l d g = absurd (cc g)
Distinct-remove (e ∷ es) zero zero l d g = tt
Distinct-remove (e ∷ es) zero (suc j) l d g = tt
Distinct-remove (e ∷ es) (suc n) zero l d g = (clash-before es n l d.1 g, Distinct-take es n d.1)
Distinct-remove (e ∷ es) (suc n) (suc j) l d g =
    (clash-remove e.rxt es n j l d.0 g, Distinct-remove es n j l d.1 g)

length-take_le : (es : List Entry) (n : ℕ) → length (take n es) ≤ length es
length-take_le [] zero = omega arith
length-take_le [] (suc n) = omega arith
length-take_le (e ∷ es) zero = omega arith
length-take_le (e ∷ es) (suc n) = omega (arith, length-take_le es n)

remove_entry-IsBuffer : (x : ℕ) (es : List Entry) → IsBuffer es → IsBuffer (remove_entry x es)
unfolding remove_entry
remove_entry-IsBuffer x es b = elim (Option-cases (get_elem? es (length es - 1))) [
  | inl n ↦ rw (remove_entry, n) b
  | inr (l, g) ↦
      rw (remove_entry, g)
        (
          Distinct-remove es (length es - 1) x l b.0 g,
          omega (arith, length-take_le (set es x l) (length es - 1), length-set es x l, b.1),
        )
]

-- What updateTXTimestamp makes of an item: one that stays keeps its place in the queue, and all are
-- well-formed.
abbrev pub Keeps : Item → Updated → Type 0
Keeps item dropped = Unit
Keeps item (kept t) = IsBuffer t.buf × (t.qval ≡ item.qval)
Keeps item (requeued t) = IsBuffer t.buf

update_entry-Keeps :
    (item : Item) (t x : Time64) → IsBuffer item.buf → Keeps item (update_entry item t x)
unfolding update_entry
update_entry-Keeps item t x b = elim (scan_latest-x t 0 item.buf no_latest b.0) [
  | inl (n, o) ↦ rw (Keeps, update_entry, o) (b, refl)
  | inr (j, e, g, r, k, o) ↦
      let o' : (scan_latest t 0 item.buf no_latest).x ≡ some j = o ∙ ap some (omega arith) in
      elim (Bool-cases (time64_eq e.txt x)) [
        | inr n ↦
            rw (Keeps, update_entry, o', g, n)
              (
                (
                  Distinct-set_txt item.buf j e x b.0 g,
                  omega (arith, length-set item.buf j (record e { txt = x }), b.1),
                ),
                refl,
              )
        | inl y ↦ elim (Bool-cases (length item.buf == 1)) [
          | inl one ↦ rw (Keeps, update_entry, o', g, y, one) tt
          | inr more ↦ elim (Option-cases (scan_latest t 0 item.buf no_latest).max0) [
            | inl z ↦
                rw (Keeps, update_entry, o', g, y, more, z)
                  (remove_entry-IsBuffer j item.buf b, refl)
            | inr ((m, u), z) ↦ elim (Bool-cases (time64_eq u t)) [
              | inl last ↦
                  rw (Keeps, update_entry, o', g, y, more, z, last)
                    (remove_entry-IsBuffer j item.buf b)
              | inr other ↦
                  rw (Keeps, update_entry, o', g, y, more, z, other)
                    (remove_entry-IsBuffer j item.buf b, refl)
            ]
          ]
        ]
      ]
]

put_updated-IsStore :
    (s : Store) (k : ClientId) (t : Item)
    → IsStore s
    → s.item k ≡ some t
    → (u : Updated) → Keeps t u
    → IsStore (put_updated s k u)
unfolding put_updated
put_updated-IsStore s k t w h dropped m = drop_item-IsStore s k t w h
put_updated-IsStore s k t w h (kept t') m = replace-IsStore s w k t t' h m.0 m.1
put_updated-IsStore s k t w h (requeued t') m = requeue-IsStore s w k t t' h m

pub update_tx-IsStore :
    (s : Store) (k : ClientId) (rxt txt : Time) → IsStore s → IsStore (update_tx s k rxt txt).1
unfolding update_tx update_tx_timestamp put_updated
update_tx-IsStore s k rxt txt w = elim (Option-cases (s.item k)) [
  | inl n ↦ rw (update_tx, n) w
  | inr (t, h) ↦
      rw (update_tx, h)
        (put_updated-IsStore s k t w h
          (update_entry t (time64_from_time rxt) (time64_from_time (ensure_after rxt txt)))
          (update_entry-Keeps t _ _ (w.buffers k t h)))
]
