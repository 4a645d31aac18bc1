-- ===== src/Server/Queue/Sift.antt =====
-- down, Fix and Remove of container/heap restore the heap order.
use scion_time.Base.{
  Bool, Bool-cases, arith, false, inl, inr, ltb, refl, suc, true, zero, ℕ, ◌&&◌, ◌*◌, ◌+◌, ◌<◌, ◌≡◌,
  ◌≢◌, ◌≤◌, ◌⊎◌, ==_iff, ◌==◌, lt→ltb,
}
use scion_time.Server.Queue.{ClientId, Queue, child, down, parent, swap, settle}
use scion_time.Server.Queue.Member.{child_range}
use scion_time.Server.Queue.Order.{
  InPlace, IsOrder, swap-at_left, swap-at_ne, swap-at_right, IsHeap, up-IsHeap,
}

module _ (less : ClientId → ClientId → Bool) where
  -- All are in place but the one at `i` and its children, which are in place of it.
  pub record IsHeapAround (n i : ℕ) (q : Queue) : Type 0 where
    pub others : (x : ℕ) → 0 < x → x < n → x ≢ i → parent x ≢ i → InPlace less q x
    pub above :
        (x : ℕ) → 0 < x → x < n → parent x ≡ i → 0 < i → less (q.at x) (q.at (parent i)) ≡ false

  moves : Queue → ℕ → ℕ → Bool
  moves q i n = ltb (2 * i + 1) n && less (q.at (child less q i n)) (q.at i)

  down_cases :
      (fuel i n : ℕ) (q : Queue)
      → ((moves q i n ≡ false) × (down less (suc fuel) i n q ≡ (q, i)))
        ⊎ ((moves q i n ≡ true)
            × (down less (suc fuel) i n q
                ≡ down less fuel (child less q i n) n (swap q i (child less q i n))))
  unfolding down moves
  down_cases fuel i n q = elim (Bool-cases (moves q i n)) [
    | inl e ↦ inr (e, rw (down, e) refl)
    | inr e ↦ inl (e, rw (down, e) refl)
  ]

  down_grows : (fuel i n : ℕ) (q : Queue) → i ≤ (down less fuel i n q).1
  unfolding down moves
  down_grows zero i n q = omega arith
  down_grows (suc fuel) i n q = elim (Bool-cases (moves q i n)) [
    | inl e ↦
        let c = child_range less q i n (ground arith) in
        rw (down, e)
          (omega (arith, c, down_grows fuel (child less q i n) n (swap q i (child less q i n))))
    | inr e ↦ rw (down, e) (omega arith)
  ]

module _ (less : ClientId → ClientId → Bool) (o : IsOrder less) where
  irrefl : (a : ClientId) → less a a ≡ false
  irrefl a = elim (Bool-cases (less a a)) [ inl e ↦ o.asym a a e | inr e ↦ e ]

  -- No child is less than the one that down picks.
  child_least :
      (q : Queue) (i n x : ℕ)
      → 0 < x
      → x < n
      → parent x ≡ i
      → less (q.at x) (q.at (child less q i n)) ≡ false
  unfolding child
  child_least q i n x hx lx px =
      let right_or_left : x ≢ 2 * i + 1 → x ≡ 2 * i + 1 + 1 = λ r. omega (arith, r, px) in
      elim (Bool-cases (ltb (2 * i + 1 + 1) n && less (q.at (2 * i + 1 + 1)) (q.at (2 * i + 1)))) [
        | inl e ↦
            let right : less (q.at (2 * i + 1 + 1)) (q.at (2 * i + 1)) ≡ true = ground arith in
            rw e (elim (Bool-cases (x == 2 * i + 1)) [
              | inl f ↦ rw ((==_iff x (2 * i + 1)).0 f) (o.asym _ _ right)
              | inr f ↦ rw (right_or_left (λ r. cc (f, (==_iff x (2 * i + 1)).1 r))) (irrefl _)
            ])
        | inr e ↦ rw e (elim (Bool-cases (x == 2 * i + 1)) [
          | inl f ↦ rw ((==_iff x (2 * i + 1)).0 f) (irrefl _)
          | inr f ↦
              let xr = right_or_left (λ r. cc (f, (==_iff x (2 * i + 1)).1 r)) in
              rw xr (ground arith)
        ])
      ]

  -- Where down ends at once, all but its start are in place.
  IsHeapAround-stop :
      (n i : ℕ) (q : Queue)
      → IsHeapAround less n i q
      → moves less q i n ≡ false
      → (x : ℕ) → 0 < x
      → x < n
      → x ≢ i
      → InPlace less q x
  unfolding moves
  IsHeapAround-stop n i q u e x hx lx ne = elim (Bool-cases (parent x == i)) [
    | inr f ↦ u.others x hx lx ne (λ r. cc (f, (==_iff (parent x) i).1 r))
    | inl f ↦
        let px : parent x ≡ i = (==_iff (parent x) i).0 f in
        let fine : less (q.at (child less q i n)) (q.at i) ≡ false = ground arith in
        rw px (o.negtrans _ _ _ (child_least q i n x hx lx px) fine)
  ]

  -- Where down moves on, the start is in place afterwards.
  module _ (n i j : ℕ) (q : Queue)
      (j_least : (x : ℕ) → 0 < x → x < n → parent x ≡ i → less (q.at x) (q.at j) ≡ false)
      (pj : parent j ≡ i) (ij : i < j) (lj : j < n) (worse : less (q.at j) (q.at i) ≡ true)
      (u : IsHeapAround less n i q) where
    moved-others : (x : ℕ) → 0 < x → x < n → parent x ≢ j → InPlace less (swap q i j) x
    moved-others x hx lx px = elim (Bool-cases (x == j)) [
      | inl e ↦
          let xj : x ≡ j = (==_iff x j).0 e in
          rw (xj, pj, swap-at_right, swap-at_left) (o.asym _ _ worse)
      | inr e ↦
          let xj : x ≢ j = λ r. cc (e, (==_iff x j).1 r) in
          elim (Bool-cases (x == i)) [
            | inl f ↦
                let xi : x ≡ i = (==_iff x i).0 f in
                let hi : 0 < i = omega arith in
                rw
                  (
                    xi,
                    swap-at_left,
                    swap-at_ne q i j (parent i) (λ r. omega (arith, r)) (λ r. omega (arith, r)),
                  )
                  (u.above j (omega arith) lj pj hi)
            | inr f ↦
                let xi : x ≢ i = λ r. cc (f, (==_iff x i).1 r) in
                elim (Bool-cases (parent x == i)) [
                  | inl g ↦
                      let pi : parent x ≡ i = (==_iff (parent x) i).0 g in
                      rw (pi, swap-at_left, swap-at_ne q i j x xi xj) (j_least x hx lx pi)
                  | inr g ↦
                      let pi : parent x ≢ i = λ r. cc (g, (==_iff (parent x) i).1 r) in
                      rw (swap-at_ne q i j x xi xj, swap-at_ne q i j (parent x) pi px)
                        (u.others x hx lx xi pi)
                ]
          ]
    ]

    moved-above :
        (x : ℕ)
        → 0 < x
        → x < n
        → parent x ≡ j
        → less ((swap q i j).at x) ((swap q i j).at (parent j)) ≡ false
    moved-above x hx lx px =
        let xi : x ≢ i = λ r. omega (arith, r) in
        let xj : x ≢ j = λ r. omega (arith, r) in
        let pi : parent x ≢ i = λ r. omega (arith, r) in
        rw (pj, swap-at_left, swap-at_ne q i j x xi xj) (rw px at (u.others x hx lx xi pi))

  moved-child :
      (n i : ℕ) (q : Queue)
      → IsHeapAround less n i q
      → moves less q i n ≡ true
      → (child less q i n < n)
        × (i < child less q i n)
        × IsHeapAround less n (child less q i n) (swap q i (child less q i n))
        × InPlace less (swap q i (child less q i n)) (child less q i n)
  unfolding moves
  moved-child n i q u e =
      let (a, b, c) = child_range less q i n (ground arith) in
      let worse : less (q.at (child less q i n)) (q.at i) ≡ true = ground arith in
      let least =
        λ (x : ℕ) (hx : 0 < x) (lx : x < n) (px : parent x ≡ i). child_least q i n x hx lx px in
      let j = child less q i n in
      (
        a,
        b,
        record {
          others = λ x hx lx ne px. moved-others n i j q least c b a worse u x hx lx px;
          above = λ x hx lx px hj. moved-above n i j q least c b a worse u x hx lx px;
        },
        moved-others n i j q least c b a worse u j (omega arith) a (λ r. omega (arith, r)),
      )

  down-IsHeap :
      (fuel i n : ℕ) (q : Queue)
      → n ≤ fuel + i
      → IsHeapAround less n i q
      → (0 < i → InPlace less q i)
      → IsHeap less n (down less fuel i n q).0
  unfolding down
  down-IsHeap zero i n q h u p =
      λ x hx lx. u.others x hx lx (λ r. omega (arith, r)) (λ r. omega (arith, r))
  down-IsHeap (suc fuel) i n q h u p = elim (down_cases less fuel i n q) [
    | inl (e, same) ↦ rw same (λ x hx lx. elim (Bool-cases (x == i)) [
      | inl f ↦ let xi : x ≡ i = (==_iff x i).0 f in rw xi (p (omega arith))
      | inr f ↦ IsHeapAround-stop n i q u e x hx lx (λ r. cc (f, (==_iff x i).1 r))
    ])
    | inr (e, same) ↦
        let m = moved-child n i q u e in
        rw same (
          down-IsHeap fuel (child less q i n) n (swap q i (child less q i n)) (omega (arith, m.1))
            m.2 (λ z. m.3))
  ]

  -- Fix: after any change of the item at `i`, the order is restored.
  pub settle-IsHeap :
      (i n : ℕ) (q : Queue) → i < n → IsHeapAround less n i q → IsHeap less n (settle less i n q)
  unfolding settle
  settle-IsHeap i zero q h u = absurd (omega arith)
  settle-IsHeap i (suc m) q h u = elim (down_cases less m i (suc m) q) [
    | inl (e, same) ↦
        let stay : ltb i i ≡ false = ground arith in
        rw (same, stay)
          (up-IsHeap less o i (suc m) i q (omega arith) h (record {
            others = λ x hx lx ne. IsHeapAround-stop (suc m) i q u e x hx lx ne;
            below = λ x hx lx px hi. u.above x hx lx px hi;
          }))
    | inr (e, same) ↦
        let c = moved-child (suc m) i q u e in
        let on : ltb i
              (down less m (child less q i (suc m)) (suc m) (swap q i (child less q i (suc m)))).1
            ≡ true =
          lt→ltb _ _ (
            omega (
              arith,
              c.1,
              down_grows less m (child less q i (suc m)) (suc m)
                  (swap q i (child less q i (suc m))),
            )) in
        rw (same, on)
          (down-IsHeap m (child less q i (suc m)) (suc m) (swap q i (child less q i (suc m)))
            (omega (arith, c.1)) c.2 (λ z. c.3))
  ]
