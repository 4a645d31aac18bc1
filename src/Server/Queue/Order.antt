-- ===== src/Server/Queue/Order.antt =====
-- The heap operations of core/server/server.go keep the heap order: no item is less than its
-- parent, so the first one is a minimum.
use scion_time.Base.{
  ==_iff, Bool, Bool-cases, arith, false, inl, inr, true, ℕ, ◌<◌, ◌==◌, ◌≡◌, ◌≢◌, not, refl, suc,
  zero, ◌||◌, ◌≤◌,
}
use scion_time.Server.Queue.{ClientId, Queue, parent, swap, up}

-- A strict weak order, which Before on timestamps is.
pub record IsOrder (less : ClientId → ClientId → Bool) : Type 0 where
  pub asym : (a b : ClientId) → less a b ≡ true → less b a ≡ false
  pub negtrans : (a b c : ClientId) → less a b ≡ false → less b c ≡ false → less a c ≡ false

module _ (less : ClientId → ClientId → Bool) where
  abbrev pub InPlace : Queue → ℕ → Type 0
  InPlace q x = less (q.at x) (q.at (parent x)) ≡ false

  abbrev pub IsHeap : ℕ → Queue → Type 0
  IsHeap n q = (x : ℕ) → 0 < x → x < n → InPlace q x

  -- All are in place but the one at `j`, whose children are in place of it.
  pub record IsHeapBut (n j : ℕ) (q : Queue) : Type 0 where
    pub others : (x : ℕ) → 0 < x → x < n → x ≢ j → InPlace q x
    pub below :
        (x : ℕ) → 0 < x → x < n → parent x ≡ j → 0 < j → less (q.at x) (q.at (parent j)) ≡ false

pub swap-at_left : (q : Queue) (i j : ℕ) → (swap q i j).at i ≡ q.at j
unfolding swap
swap-at_left q i j = ground arith

pub swap-at_right : (q : Queue) (i j : ℕ) → (swap q i j).at j ≡ q.at i
unfolding swap
swap-at_right q i j = ground arith

pub swap-at_ne : (q : Queue) (i j x : ℕ) → x ≢ i → x ≢ j → (swap q i j).at x ≡ q.at x
unfolding swap
swap-at_ne q i j x h k = ground arith

module _ (less : ClientId → ClientId → Bool) (o : IsOrder less) where
  module _ (n i j : ℕ) (q : Queue) (pj : parent j ≡ i) (ij : i < j)
      (worse : less (q.at j) (q.at i) ≡ true) (u : IsHeapBut less n j q) (x : ℕ) (hx : 0 < x)
      (lx : x < n) where
    swap-others : x ≢ i → InPlace less (swap q i j) x
    swap-others ne = elim (Bool-cases (x == j)) [
      | inl e ↦
          let xj : x ≡ j = (==_iff x j).0 e in
          rw (xj, pj, swap-at_right, swap-at_left) (o.asym _ _ worse)
      | inr e ↦
          let xj : x ≢ j = λ r. cc (e, (==_iff x j).1 r) in
          elim (Bool-cases (parent x == j)) [
            | inl f ↦
                let px : parent x ≡ j = (==_iff _ _).0 f in
                rw (px, swap-at_right, swap-at_ne q i j x ne xj)
                  (rw pj at (u.below x hx lx px (omega arith)))
            | inr f ↦
                let px : parent x ≢ j = λ r. cc (f, (==_iff (parent x) j).1 r) in
                elim (Bool-cases (parent x == i)) [
                  | inl g ↦
                      let pi : parent x ≡ i = (==_iff _ _).0 g in
                      rw (pi, swap-at_left, swap-at_ne q i j x ne xj)
                        (o.negtrans _ _ _ (rw pi at (u.others x hx lx xj)) (o.asym _ _ worse))
                  | inr g ↦
                      let pi : parent x ≢ i = λ r. cc (g, (==_iff (parent x) i).1 r) in
                      rw (swap-at_ne q i j x ne xj, swap-at_ne q i j (parent x) pi px)
                        (u.others x hx lx xj)
                ]
          ]
    ]

    swap-below :
        parent x ≡ i → 0 < i → less ((swap q i j).at x) ((swap q i j).at (parent i)) ≡ false
    swap-below px hi =
        let top = u.others i hi (omega arith) (λ r. omega (arith, r)) in
        let same : (swap q i j).at (parent i) ≡ q.at (parent i) =
          swap-at_ne q i j (parent i) (λ r. omega (arith, r)) (λ r. omega (arith, r)) in
        elim (Bool-cases (x == j)) [
          | inl e ↦ let xj : x ≡ j = (==_iff x j).0 e in rw (same, xj, swap-at_right) top
          | inr e ↦
              let xj : x ≢ j = λ r. cc (e, (==_iff x j).1 r) in
              rw (same, swap-at_ne q i j x (λ r. omega (arith, r, px)) xj)
                (o.negtrans _ _ _ (rw px at (u.others x hx lx xj)) top)
        ]

  swap-IsHeapBut :
      (n i j : ℕ) (q : Queue)
      → j < n
      → parent j ≡ i
      → i < j
      → less (q.at j) (q.at i) ≡ true
      → IsHeapBut less n j q
      → IsHeapBut less n i (swap q i j)
  swap-IsHeapBut n i j q hj pj ij worse u = record {
    others = λ x hx lx ne. swap-others n i j q pj ij worse u x hx lx ne;
    below = λ x hx lx px hi. swap-below n i j q pj ij worse u x hx lx px hi;
  }

  -- up restores the order where all but its start are in place.
  pub up-IsHeap :
      (fuel n j : ℕ) (q : Queue)
      → j ≤ fuel
      → j < n
      → IsHeapBut less n j q
      → IsHeap less n (up less fuel j q)
  unfolding up
  up-IsHeap zero n j q hf hj u = λ x hx lx. u.others x hx lx (λ r. omega (arith, r))
  up-IsHeap (suc fuel) n j q hf hj u =
      elim (Bool-cases (parent j == j || not (less (q.at j) (q.at (parent j))))) [
        | inl e ↦
            rw (up, e)
              (λ x hx lx. elim (Bool-cases (x == j)) [
                | inr f ↦ u.others x hx lx (λ r. cc (f, (==_iff x j).1 r))
                | inl f ↦ let xj : x ≡ j = (==_iff x j).0 f in rw xj (ground arith)
              ])
        | inr e ↦
            let lt : parent j < j = ground arith in
            let worse : less (q.at j) (q.at (parent j)) ≡ true = ground arith in
            rw (up, e)
              (up-IsHeap fuel n (parent j) (swap q (parent j) j) (omega arith) (omega arith)
                (swap-IsHeapBut n (parent j) j q hj refl lt worse u))
      ]
