-- ===== src/Server/Queue/Removal.antt =====
-- heap.Push, heap.Fix, heap.Remove and heap.Pop on the queue of core/server/server.go: which items are
-- in the queue afterwards, and that it is a heap.
use scion_time.Base.{
  Bool, Bool-cases, arith, inl, inr, ltb, not, refl, suc, zero, ℕ, ◌&&◌, ◌*◌, ◌+◌, ◌<◌, ◌==◌, ◌||◌,
  ◌↔◌, ◌∙◌, ◌≡◌, ◌≢◌, ==_iff, ap, sym, ◌-◌, ◌⊎◌, ==_false, ==_self,
}
use scion_time.Server.Queue.{
  ClientId, Queue, child, down, drop_last, parent, settle, swap, up, remove, append, fix, push, pop,
}
use scion_time.Server.Queue.Member.{
  Indexed, Member, Reorders, child_range, Reorders-settle, Reorders-swap, Reorders-trans,
  Reorders-up, Reorders-down,
}
use scion_time.Server.Queue.Order.{
  swap-at_ne, IsHeap, IsOrder, swap-at_right, IsHeapBut, up-IsHeap, InPlace,
}
use scion_time.Server.Queue.Sift.{IsHeapAround, settle-IsHeap}
use mathlib.Core.Path.{subst}

-- up and down leave the elements from `n` on alone.
module _ (less : ClientId → ClientId → Bool) where
  up-at : (fuel j n : ℕ) (q : Queue) → j < n → (up less fuel j q).at n ≡ q.at n
  unfolding up
  up-at zero j n q h = refl
  up-at (suc fuel) j n q h =
      elim (Bool-cases (parent j == j || not (less (q.at j) (q.at (parent j))))) [
        | inl e ↦ rw (up, e) refl
        | inr e ↦
            rw (up, e)
              (up-at fuel (parent j) n (swap q (parent j) j) (omega arith)
                ∙ swap-at_ne q (parent j) j n (λ r. omega (arith, r)) (λ r. omega (arith, r)))
      ]

  down-at : (fuel i n : ℕ) (q : Queue) → i < n → (down less fuel i n q).0.at n ≡ q.at n
  unfolding down
  down-at zero i n q h = refl
  down-at (suc fuel) i n q h =
      elim (Bool-cases (ltb (2 * i + 1) n && less (q.at (child less q i n)) (q.at i))) [
        | inr e ↦ rw (down, e) refl
        | inl e ↦
            let c = child_range less q i n (ground arith) in
            rw (down, e)
              (down-at fuel (child less q i n) n (swap q i (child less q i n)) c.0
                ∙ swap-at_ne q i (child less q i n) n (λ r. omega (arith, r))
                    (λ r. omega (arith, r, c)))
      ]

  settle-at : (i n : ℕ) (q : Queue) → i < n → (settle less i n q).at n ≡ q.at n
  unfolding settle
  settle-at i n q h = elim (Bool-cases (ltb i (down less n i n q).1)) [
    | inl e ↦ rw e (down-at n i n q h)
    | inr e ↦ rw e (up-at i i n (down less n i n q).0 h ∙ down-at n i n q h)
  ]

-- `r` is `q` without the item of `k`.
pub record Removes (k : ClientId) (q r : Queue) : Type 0 where
  pub indexed : Indexed r
  pub size : r.size + 1 ≡ q.size
  pub members : (l : ClientId) → Member l r ↔ (Member l q × (l ≢ k))

Removes-drop_last :
    (q : Queue) (n : ℕ) → n + 1 ≡ q.size → Indexed q → Removes (q.at n) q (drop_last q)
unfolding drop_last
Removes-drop_last q n h ix = record {
  indexed = λ x hx. ix x (omega arith);
  size = omega arith;
  members = λ l. (
    (λ m. (
      (omega (arith, m.0), m.1),
      λ e. let z : q.qidx l ≡ n = ap q.qidx e ∙ ix n (omega arith) in omega (arith, m.0, z),
    )),
    (λ m. (
      let z : q.qidx l ≢ n = λ r. m.1 (sym m.0.1 ∙ ap q.at r) in omega (arith, z, m.0.0),
      m.0.1,
    )),
  );
}

Removes-Reorders : {p q r : Queue} (k : ClientId) → Reorders p q → Removes k q r → Removes k p r
Removes-Reorders k a b = record {
  indexed = b.indexed;
  size = b.size ∙ a.size;
  members = λ l. (
    (λ m. let z = (b.members l).0 m in ((a.members l).1 z.0, z.1)),
    (λ m. (b.members l).1 ((a.members l).0 m.0, m.1)),
  );
}

module _ (less : ClientId → ClientId → Bool) (o : IsOrder less) where
  -- A swap with the last item puts all but its new place in order, for one item less.
  IsHeapAround-swap :
      (n i : ℕ) (q : Queue) → i < n → IsHeap less (n + 1) q → IsHeapAround less n i (swap q i n)
  IsHeapAround-swap n i q h u = record {
    others = λ x hx lx ne px.
        rw
          (
            swap-at_ne q i n x ne (λ r. omega (arith, r)),
            swap-at_ne q i n (parent x) px (λ r. omega (arith, r)),
          )
          (u x hx (omega arith));
    above = λ x hx lx px hi.
        rw
          (
            swap-at_ne q i n x (λ r. omega (arith, r)) (λ r. omega (arith, r)),
            swap-at_ne q i n (parent i) (λ r. omega (arith, r)) (λ r. omega (arith, r)),
          )
          (o.negtrans _ _ _ (rw px at (u x hx (omega arith))) (u i hi (omega arith)));
  }

  -- heap.Remove, on a heap with right indices: the item at `i` goes, and a heap with right indices
  -- is left.
  pub remove_lem :
      (q : Queue) (i : ℕ)
      → i < q.size
      → Indexed q
      → IsHeap less q.size q
      → Removes (q.at i) q (remove less q i) × IsHeap less (q.size - 1) (remove less q i)
  unfolding remove drop_last
  remove_lem q i h ix u =
      let n : ℕ = q.size - 1 in
      let last : n + 1 ≡ q.size = omega arith in
      elim (Bool-cases (n == i)) [
        | inl e ↦
            let ni : n ≡ i = (==_iff n i).0 e in
            rw e (
              subst (λ (k : ClientId). Removes k q (drop_last q)) (ap q.at ni)
                  (Removes-drop_last q n last ix),
              λ x hx lx. u x hx (omega arith),
            )
        | inr e ↦
            let ni : n ≢ i = λ r. cc (e, (==_iff n i).1 r) in
            let s = Reorders-swap q i n h (omega arith) ix in
            let t =
              Reorders-settle less i n (swap q i n) (omega (arith, s.size, ni))
                (omega (arith, s.size)) s.indexed in
            let at_n : (settle less i n (swap q i n)).at n ≡ q.at i =
              settle-at less i n (swap q i n) (omega (arith, ni)) ∙ swap-at_right q i n in
            let gone =
              Removes-drop_last (settle less i n (swap q i n)) n (omega (arith, s.size, t.size))
                t.indexed in
            rw e (
              Removes-Reorders (q.at i) (Reorders-trans s t) (rw at_n at gone),
              settle-IsHeap less o i n (swap q i n) (omega (arith, ni))
                  (IsHeapAround-swap n i q (omega (arith, ni)) (rw (← last) at u)),
            )
      ]

  -- heap.Fix, after the item at `i` has changed its value: the tests were those of `old`, which
  -- agree with the new ones on other items.
  pub fix_lem :
      (old : ClientId → ClientId → Bool) (q : Queue) (i : ℕ)
      → IsOrder old
      → i < q.size
      → Indexed q
      → IsHeap old q.size q
      → ((a b : ClientId) → a ≢ q.at i → b ≢ q.at i → less a b ≡ old a b)
      → Reorders q (fix less q i) × IsHeap less q.size (fix less q i)
  unfolding fix
  fix_lem old q i p h ix u same =
      let apart : (x : ℕ) → x < q.size → x ≢ i → q.at x ≢ q.at i =
        λ x hx ne e. ne (sym (ix x hx) ∙ ap q.qidx e ∙ ix i h) in
      (
        Reorders-settle less i q.size q h (omega arith) ix,
        settle-IsHeap less o i q.size q h (record {
          others = λ x hx lx ne px.
              same _ _ (apart x lx ne) (apart (parent x) (omega arith) px) ∙ u x hx lx;
          above = λ x hx lx px hi.
              same _ _ (apart x lx (λ r. omega (arith, r)))
                (apart (parent i) (omega arith) (λ r. omega (arith, r)))
              ∙ p.negtrans _ _ _ (rw px at (u x hx lx)) (u i hi h);
        }),
      )

-- `r` is `q` with the item of `k`.
pub record Adds (k : ClientId) (q r : Queue) : Type 0 where
  pub indexed : Indexed r
  pub size : r.size ≡ q.size + 1
  pub members : (l : ClientId) → Member l r ↔ (Member l q ⊎ (l ≡ k))

Adds-append : (q : Queue) (k : ClientId) → Indexed q → ¬ Member k q → Adds k q (append q k)
unfolding append
Adds-append q k ix new = record {
  indexed = λ x hx.
      let fresh : x < q.size → q.at x ≢ k = λ h e.
        (let z : q.qidx k ≡ x = ap q.qidx (sym e) ∙ ix x h in
          new (omega (arith, z), ap q.at z ∙ e)) in
      elim (Bool-cases (x == q.size)) [
        | inl e ↦ rw (e, ==_self k) (sym ((==_iff x q.size).0 e))
        | inr e ↦
            let lt : x < q.size = ground arith in rw (e, ==_false (q.at x) k (fresh lt)) (ix x lt)
      ];
  size = refl;
  members = λ l. (
    (λ m. ground arith),
    (λ m. elim m [ inl a ↦ (ground arith, ground arith) | inr e ↦ (ground arith, ground arith) ]),
  );
}

append-at_last : (q : Queue) (k : ClientId) → (append q k).at q.size ≡ k
unfolding append
append-at_last q k = ground arith

append-at_ne : (q : Queue) (k : ClientId) (x : ℕ) → x ≢ q.size → (append q k).at x ≡ q.at x
unfolding append
append-at_ne q k x h = ground arith

module _ (less : ClientId → ClientId → Bool) (o : IsOrder less) where
  IsHeapBut-append :
      (q : Queue) (k : ClientId)
      → IsHeap less q.size q
      → IsHeapBut less (q.size + 1) q.size (append q k)
  IsHeapBut-append q k u = record {
    others = λ x hx lx ne.
        rw (append-at_ne q k x ne, append-at_ne q k (parent x) (λ r. omega (arith, r)))
          (u x hx (omega (arith, ne)));
    below = λ x hx lx px hi. absurd (omega (arith, px));
  }

  -- heap.Push of an item that is not in the queue.
  pub push_lem :
      (q : Queue) (k : ClientId)
      → Indexed q
      → ¬ Member k q
      → IsHeap less q.size q
      → Adds k q (push less q k) × IsHeap less (q.size + 1) (push less q k)
  unfolding push
  push_lem q k ix new u =
      let a = Adds-append q k ix new in
      let r = Reorders-up less q.size q.size (append q k) (omega (arith, a.size)) a.indexed in
      (
        record {
          indexed = r.indexed;
          size = r.size ∙ a.size;
          members = λ l. (
            (λ m. (a.members l).0 ((r.members l).1 m)),
            (λ m. (r.members l).0 ((a.members l).1 m)),
          );
        },
        up-IsHeap less o q.size (q.size + 1) q.size (append q k) (omega arith) (omega arith)
            (IsHeapBut-append q k u),
      )

module _ (less : ClientId → ClientId → Bool) (o : IsOrder less) where
  settle_first : (n : ℕ) (q : Queue) → settle less 0 n q ≡ (down less n 0 n q).0
  unfolding settle up
  settle_first n q = ground arith

  -- heap.Pop, on a heap with right indices: the first item goes.
  pub pop_lem :
      (q : Queue)
      → 0 < q.size
      → Indexed q
      → IsHeap less q.size q
      → Removes (q.at 0) q (pop less q) × IsHeap less (q.size - 1) (pop less q)
  unfolding pop drop_last
  pop_lem q h ix u =
      let n : ℕ = q.size - 1 in
      let s = Reorders-swap q 0 n h (omega arith) ix in
      let t = Reorders-down less n 0 n (swap q 0 n) (omega (arith, s.size)) s.indexed in
      let last : (down less n 0 n (swap q 0 n)).0.at n ≡ q.at 0 =
        last_at n (swap q 0 n) ∙ swap-at_right q 0 n in
      let gone =
        Removes-drop_last (down less n 0 n (swap q 0 n)).0 n (omega (arith, s.size, t.size))
          t.indexed in
      (
        Removes-Reorders (q.at 0) (Reorders-trans s t) (
            subst
              (λ (k : ClientId).
                Removes k (down less n 0 n (swap q 0 n)).0
                  (drop_last (down less n 0 n (swap q 0 n)).0))
              last gone),
        λ x hx lx.
            subst (λ (r : Queue). InPlace less r x) (settle_first n (swap q 0 n))
              (settle-IsHeap less o 0 n (swap q 0 n) (omega arith)
                (IsHeapAround-swap less o n 0 q (omega arith)
                  (subst (λ (m : ℕ). IsHeap less m q) (omega arith) u))
                x hx lx),
      )
    where
      last_at : (n : ℕ) (r : Queue) → (down less n 0 n r).0.at n ≡ r.at n
      last_at zero r = unfold down in refl
      last_at (suc m) r = down-at less (suc m) 0 (suc m) r (omega arith)
