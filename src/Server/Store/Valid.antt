-- ===== src/Server/Store/Valid.antt =====
-- The timestamp store of core/server/server.go: what holds of it between two requests, and the order
-- of its items.
use scion_time.Ntp.Time64.{before}
use scion_time.Base.{
  ==_false, ==_iff, ==_self, Bool-cases, Option, arith, false, inl, inr, refl, some, suc, sym, zero,
  ℕ, ◌<◌, ◌==◌, ◌∙◌, ◌≡◌, ◌≢◌, ◌≤◌,
}
use scion_time.Server.Item.{Item}
use scion_time.Server.Item.Interleaved.{IsBuffer}
use scion_time.Server.Queue.{ClientId, Queue, parent}
use scion_time.Server.Queue.Member.{Indexed, Member}
use scion_time.Server.Queue.Order.{IsHeap, IsOrder}
use scion_time.Server.Queue.Removal.{fix_lem}
use scion_time.Server.Store.{Store, less, qval_of, replace, requeue, tss_cap, update}

pub less-IsOrder : (f : ClientId → Option Item) → IsOrder (less f)
unfolding less before
less-IsOrder f = record { asym = λ a b h. ground arith; negtrans = λ a b c h k. ground arith }

-- The items of the map are those in the queue, as many as `count` says, at most 2^20. Their indices
-- are right, the queue is a heap, and the items are well-formed.
pub record IsStore (s : Store) : Type 0 where
  pub indexed : Indexed s.queue
  pub heap : IsHeap (less s.item) s.queue.size s.queue
  pub queued : (k : ClientId) (t : Item) → s.item k ≡ some t → Member k s.queue
  pub backed : (k : ClientId) → Member k s.queue → (t : Item) × (s.item k ≡ some t)
  pub counted : s.count ≡ s.queue.size
  pub bounded : s.count ≤ tss_cap
  pub buffers : (k : ClientId) (t : Item) → s.item k ≡ some t → IsBuffer t.buf

-- The order of the items depends on their qval alone.
less-ext :
    (f g : ClientId → Option Item) (a b : ClientId)
    → qval_of f a ≡ qval_of g a
    → qval_of f b ≡ qval_of g b
    → less f a b ≡ less g a b
unfolding less
less-ext f g a b h k = rw (h, k) refl

qval_of-update_ne :
    (f : ClientId → Option Item) (k l : ClientId) (v : Option Item)
    → l ≢ k
    → qval_of (update f k v) l ≡ qval_of f l
qval_of-update_ne f k l v h = rw (qval_of, ==_false l k h) refl

pub update_self : (f : ClientId → Option Item) (k : ClientId) (v : Option Item) → update f k v k ≡ v
update_self f k v = rw (==_self k) refl

pub update_ne :
    (f : ClientId → Option Item) (k l : ClientId) (v : Option Item) → l ≢ k → update f k v l ≡ f l
update_ne f k l v h = rw (==_false l k h) refl

qval_of-update :
    (f : ClientId → Option Item) (k l : ClientId) (t t' : Item)
    → f k ≡ some t
    → t'.qval ≡ t.qval
    → qval_of (update f k (some t')) l ≡ qval_of f l
qval_of-update f k l t t' h e = elim (Bool-cases (l == k)) [
  | inl y ↦
      let lk : l ≡ k = (==_iff l k).0 y in rw (lk) (rw (qval_of, ==_self k) (rw (qval_of, h) e))
  | inr n ↦ rw (qval_of, n) refl
]

-- The first item is a least one.
pub first_least :
    (f : ClientId → Option Item) (n : ℕ) (q : Queue)
    → IsHeap (less f) n q
    → (fuel x : ℕ) → x ≤ fuel
    → x < n
    → less f (q.at x) (q.at 0) ≡ false
first_least f n q u fuel zero hf hx = elim (Bool-cases (less f (q.at 0) (q.at 0))) [
  | inl e ↦ (less-IsOrder f).asym _ _ e
  | inr e ↦ e
]
first_least f n q u zero (suc x) hf hx = absurd (omega arith)
first_least f n q u (suc fuel) (suc x) hf hx =
    (less-IsOrder f).negtrans _ _ _ (u (suc x) (omega arith) hx)
      (first_least f n q u fuel (parent (suc x)) (omega arith) (omega arith))

-- The order of other items, when one is replaced.
pub less-update_ne :
    (f : ClientId → Option Item) (k a b : ClientId) (v : Option Item)
    → a ≢ k
    → b ≢ k
    → less (update f k v) a b ≡ less f a b
less-update_ne f k a b v p q =
    less-ext (update f k v) f a b (qval_of-update_ne f k a v p) (qval_of-update_ne f k b v q)

module _ (s : Store) (w : IsStore s) (k : ClientId) (t t' : Item) (h : s.item k ≡ some t)
    (b : IsBuffer t'.buf) where
  queued-update :
      (l : ClientId) (u : Item) → update s.item k (some t') l ≡ some u → Member l s.queue
  queued-update l u e = elim (Bool-cases (l == k)) [
    | inl y ↦ let lk : l ≡ k = (==_iff l k).0 y in rw lk (w.queued k t h)
    | inr n ↦ w.queued l u (rw n at e)
  ]

  backed-update :
      (l : ClientId) → Member l s.queue → (u : Item) × (update s.item k (some t') l ≡ some u)
  backed-update l m = elim (Bool-cases (l == k)) [
    | inl y ↦ rw y (t', refl)
    | inr n ↦ rw n (w.backed l m)
  ]

  buffers-update : (l : ClientId) (u : Item) → update s.item k (some t') l ≡ some u → IsBuffer u.buf
  buffers-update l u e = elim (Bool-cases (l == k)) [
    | inl y ↦ let same : t' ≡ u = cc (rw y at e) in rw (← same) b
    | inr n ↦ w.buffers l u (rw n at e)
  ]

  -- An item replaced by one with the same qval.
  pub replace-IsStore : t'.qval ≡ t.qval → IsStore (replace s k t')
  replace-IsStore q = record {
    indexed = w.indexed;
    heap = λ x hx lx.
        less-ext (update s.item k (some t')) s.item _ _ (qval_of-update s.item k _ t t' h q)
          (qval_of-update s.item k _ t t' h q)
        ∙ w.heap x hx lx;
    queued = queued-update;
    backed = backed-update;
    counted = w.counted;
    bounded = w.bounded;
    buffers = buffers-update;
  }

  -- An item replaced by any other, and put in its place in the queue.
  pub requeue-IsStore : IsStore (requeue s k t')
  unfolding requeue
  requeue-IsStore =
      let items : ClientId → Option Item = update s.item k (some t') in
      let m = w.queued k t h in
      let (r, u) =
        fix_lem (less items) (less-IsOrder items) (less s.item) s.queue (s.queue.qidx k)
          (less-IsOrder s.item) m.0 w.indexed w.heap
          (λ a c p q.
            less-update_ne s.item k a c (some t') (λ e. p (e ∙ sym m.1)) (λ e. q (e ∙ sym m.1))) in
      record {
        indexed = r.indexed;
        heap = λ x hx lx. u x hx (omega (arith, r.size));
        queued = λ l v e. (r.members l).0 (queued-update l v e);
        backed = λ l v. backed-update l ((r.members l).1 v);
        counted = w.counted ∙ sym r.size;
        bounded = w.bounded;
        buffers = buffers-update;
      }
