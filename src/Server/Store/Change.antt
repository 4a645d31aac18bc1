-- ===== src/Server/Store/Change.antt =====
-- Items leave and join the timestamp store of core/server/server.go.
use scion_time.Ntp.Time64.{before, after, Time64}
use mathlib.Core.Path.{subst}
use scion_time.Base.{
  ==_false, ==_iff, Bool-cases, Option, ap, arith, false, inl, inr, none, refl, some, true, ℕ, ◌-◌,
  ◌<◌, ◌==◌, ◌∙◌, ◌≡◌, ◌≢◌, ◌⊎◌, sym,
}
use scion_time.Server.Item.{Item}
use scion_time.Server.Item.Interleaved.{IsBuffer}
use scion_time.Server.Queue.{ClientId, Queue, parent, pop, remove}
use scion_time.Server.Queue.Member.{Indexed, Member}
use scion_time.Server.Queue.Order.{IsHeap}
use scion_time.Server.Queue.Removal.{Removes, pop_lem, push_lem, remove_lem}
use scion_time.Server.Store.{Store, add_item, drop_item, evict, less, qval_of, tss_cap, update}
use scion_time.Server.Store.Valid.{IsStore, first_least, less-IsOrder, less-update_ne}

Member-at : (q : Queue) (x : ℕ) → Indexed q → x < q.size → Member (q.at x) q
Member-at q x ix h = (omega (arith, ix x h), ap q.at (ix x h))

module _ (s : Store) (w : IsStore s) (k : ClientId) (r : Queue) (gone : Removes k s.queue r)
    (u : IsHeap (less s.item) r.size r) where
  without-IsStore : IsStore (record { item = update s.item k none; count = s.count - 1; queue = r })
  without-IsStore = record {
    indexed = gone.indexed;
    heap = λ x hx lx.
        less-update_ne s.item k _ _ none
          ((gone.members (r.at x)).0 (Member-at r x gone.indexed lx)).1
          ((gone.members (r.at (parent x))).0 (Member-at r (parent x) gone.indexed (omega arith))).1
        ∙ u x hx lx;
    queued = λ l t e. elim (Bool-cases (l == k)) [
      | inl y ↦ absurd (cc (rw y at e))
      | inr n ↦ (gone.members l).1 (w.queued l t (rw n at e), λ f. cc (n, (==_iff l k).1 f))
    ];
    backed = λ l m. let (a, ne) = (gone.members l).0 m in rw (==_false l k ne) (w.backed l a);
    counted = omega (arith, w.counted, gone.size);
    bounded = omega (arith, w.bounded);
    buffers = λ l t e. elim (Bool-cases (l == k)) [
      | inl y ↦ absurd (cc (rw y at e))
      | inr n ↦ w.buffers l t (rw n at e)
    ];
  }

-- An item that is dropped.
pub drop_item-IsStore :
    (s : Store) (k : ClientId) (t : Item) → IsStore s → s.item k ≡ some t → IsStore (drop_item s k)
unfolding drop_item
drop_item-IsStore s k t w h =
    let m = w.queued k t h in
    let (gone, u) =
      remove_lem (less s.item) (less-IsOrder s.item) s.queue (s.queue.qidx k) m.0 w.indexed
        w.heap in
    without-IsStore s w k (remove (less s.item) s.queue (s.queue.qidx k))
      (subst (λ (l : ClientId). Removes l s.queue (remove (less s.item) s.queue (s.queue.qidx k)))
        m.1 gone)
      (λ x hx lx. u x hx (omega (arith, gone.size)))

-- A store without an item of `k` gets one.
pub add_item-IsStore :
    (s : Store) (k : ClientId) (t : Item)
    → IsStore s
    → s.item k ≡ none
    → s.count < tss_cap
    → IsBuffer t.buf
    → IsStore (add_item s k t)
unfolding add_item
add_item-IsStore s k t w h c b =
    let items : ClientId → Option Item = update s.item k (some t) in
    let new : ¬ Member k s.queue = λ m. cc (h, (w.backed k m).1) in
    let apart : (x : ℕ) → x < s.queue.size → s.queue.at x ≢ k = λ x hx e.
      new (subst (λ (l : ClientId). Member l s.queue) e (Member-at s.queue x w.indexed hx)) in
    let (a, u) = push_lem (less items) (less-IsOrder items) s.queue k w.indexed new (λ x hx lx.
      less-update_ne s.item k _ _ (some t) (apart x lx) (apart (parent x) (omega arith))
      ∙ w.heap x hx lx) in
    record {
      indexed = a.indexed;
      heap = λ x hx lx. u x hx (omega (arith, a.size));
      queued = λ l v e. elim (Bool-cases (l == k)) [
        | inl y ↦ (a.members l).1 (inr ((==_iff l k).0 y))
        | inr n ↦ (a.members l).1 (inl (w.queued l v (rw n at e)))
      ];
      backed = λ l m. elim (Bool-cases (l == k)) [
        | inl y ↦ rw y (t, refl)
        | inr n ↦ rw n (elim ((a.members l).0 m) [
          | inl old ↦ w.backed l old
          | inr e ↦ absurd (cc (n, (==_iff l k).1 e))
        ])
      ];
      counted = omega (arith, w.counted, a.size);
      bounded = omega (arith, c);
      buffers = λ l v e. elim (Bool-cases (l == k)) [
        | inl y ↦ let same : t ≡ v = cc (rw y at e) in rw (← same) b
        | inr n ↦ w.buffers l v (rw n at e)
      ];
    }

less-found :
    (f : ClientId → Option Item) (a b : ClientId) (t v : Item)
    → f a ≡ some t
    → f b ≡ some v
    → less f a b ≡ before t.qval v.qval
unfolding less
less-found f a b t v h e = rw (qval_of, h) (rw (qval_of, e) refl)

-- The qval of no item is before that of the first one in the queue.
pub first_qval :
    (s : Store) (l : ClientId) (t : Item)
    → IsStore s
    → s.item l ≡ some t
    → (v : Item) × (s.item (s.queue.at 0) ≡ some v) × (before t.qval v.qval ≡ false)
first_qval s l t w h =
    let m = w.queued l t h in
    let (v, e) = w.backed (s.queue.at 0) (Member-at s.queue 0 w.indexed (omega (arith, m.0))) in
    let least =
      first_least s.item s.queue.size s.queue w.heap (s.queue.qidx l) (s.queue.qidx l) (omega arith)
        m.0 in
    (v, e, sym (less-found s.item l (s.queue.at 0) t v h e) ∙ (rw m.1 at least))

pub first_found :
    (s : Store) → IsStore s → 0 < s.queue.size → (v : Item) × (s.item (s.queue.at 0) ≡ some v)
first_found s w h = w.backed (s.queue.at 0) (Member-at s.queue 0 w.indexed h)

-- What evict does: nothing, where there is room or the first qval is after the timestamp; else the
-- first item goes.
pub evict_cases :
    (s : Store) (rxt64 : Time64)
    → IsStore s
    → ((evict s rxt64 ≡ s) × (s.count < tss_cap))
      ⊎ ((evict s rxt64 ≡ s)
          × (s.count ≡ tss_cap)
          × (after (qval_of s.item (s.queue.at 0)) rxt64 ≡ true))
      ⊎ (IsStore (evict s rxt64)
          × (s.count ≡ tss_cap)
          × (after (qval_of s.item (s.queue.at 0)) rxt64 ≡ false)
          × ((evict s rxt64).count < tss_cap)
          × ((evict s rxt64).item ≡ update s.item (s.queue.at 0) none))
unfolding evict
evict_cases s rxt64 w = elim (Bool-cases (s.count == tss_cap)) [
  | inr n ↦ inl (
    rw n refl,
    (let ne : s.count ≢ tss_cap = λ r. cc (n, (==_iff s.count tss_cap).1 r) in
        omega (arith, w.bounded, ne)),
  )
  | inl full ↦ elim (Bool-cases (after (qval_of s.item (s.queue.at 0)) rxt64)) [
    | inl a ↦ inr (inl (rw (full, a) refl, (==_iff s.count tss_cap).0 full, a))
    | inr n ↦
        let c = (==_iff s.count tss_cap).0 full in
        let some_item : 0 < s.queue.size = omega (arith, c, w.counted) in
        let (gone, u) =
          pop_lem (less s.item) (less-IsOrder s.item) s.queue some_item w.indexed w.heap in
        inr (
          inr (
            rw (full, n)
              (
                without-IsStore s w (s.queue.at 0) (pop (less s.item) s.queue) gone
                    (λ x hx lx. u x hx (omega (arith, gone.size))),
                c,
                refl,
                omega (arith, c),
                refl,
              )))
  ]
]
