-- ===== src/Server/Queue/Member.antt =====
-- The heap operations of core/server/server.go keep each item's index right, and the items in the
-- queue.
use scion_time.Base.{
  ap, arith, ℕ, ◌<◌, ◌↔◌, ◌≡◌, Bool, Bool-cases, inl, inr, ltb, not, refl, suc, zero, ◌&&◌, ◌*◌,
  ◌+◌, ◌==◌, ◌||◌, ◌∙◌, ◌≤◌,
}
use scion_time.Server.Queue.{ClientId, Queue, swap, child, down, parent, settle, up}

-- The fields `qidx` are right.
abbrev pub Indexed : Queue → Type 0
Indexed q = (x : ℕ) → x < q.size → q.qidx (q.at x) ≡ x

abbrev pub Member : ClientId → Queue → Type 0
Member k q = (q.qidx k < q.size) × (q.at (q.qidx k) ≡ k)

module _ (q : Queue) (i j : ℕ) (hi : i < q.size) (hj : j < q.size) (ix : Indexed q) where
  swap-Indexed : Indexed (swap q i j)
  unfolding swap
  swap-Indexed x hx = ground (arith, ix x hx, ix i hi, ix j hj, ap q.at, ap q.qidx)

  Member-swap : (k : ClientId) → Member k q ↔ Member k (swap q i j)
  unfolding swap
  Member-swap k = ground (arith, ix i hi, ix j hj)

-- `r` is `q` in another order, with right indices.
pub record Reorders (q r : Queue) : Type 0 where
  pub indexed : Indexed r
  pub size : r.size ≡ q.size
  pub members : (k : ClientId) → Member k q ↔ Member k r

Reorders-refl : (q : Queue) → Indexed q → Reorders q q
Reorders-refl q ix = record { indexed = ix; size = refl; members = λ k. ((λ m. m), (λ m. m)) }

pub Reorders-trans : {p q r : Queue} → Reorders p q → Reorders q r → Reorders p r
Reorders-trans a b = record {
  indexed = b.indexed;
  size = b.size ∙ a.size;
  members =
      λ k. ((λ m. (b.members k).0 ((a.members k).0 m)), (λ m. (a.members k).1 ((b.members k).1 m)));
}

pub Reorders-swap :
    (q : Queue) (i j : ℕ) → i < q.size → j < q.size → Indexed q → Reorders q (swap q i j)
Reorders-swap q i j hi hj ix = record {
  indexed = swap-Indexed q i j hi hj ix;
  size = size-swap q i j;
  members = Member-swap q i j hi hj ix;
}
  where
    size-swap : (q : Queue) (i j : ℕ) → (swap q i j).size ≡ q.size
    size-swap q i j = unfold swap in refl

module _ (less : ClientId → ClientId → Bool) where
  pub Reorders-up :
      (fuel j : ℕ) (q : Queue) → j < q.size → Indexed q → Reorders q (up less fuel j q)
  unfolding up
  Reorders-up zero j q h ix = Reorders-refl q ix
  Reorders-up (suc fuel) j q h ix =
      elim (Bool-cases (parent j == j || not (less (q.at j) (q.at (parent j))))) [
        | inl e ↦ rw (up, e) (Reorders-refl q ix)
        | inr e ↦
            let s = Reorders-swap q (parent j) j (omega arith) h ix in
            rw (up, e)
              (Reorders-trans s (
                Reorders-up fuel (parent j) (swap q (parent j) j) (omega (arith, s.size))
                  s.indexed))
      ]

  -- The child is below `n` where the left one is.
  pub child_range :
      (q : Queue) (i n : ℕ)
      → 2 * i + 1 < n
      → (child less q i n < n) × (i < child less q i n) × (parent (child less q i n) ≡ i)
  unfolding child
  child_range q i n h = ground arith

  pub Reorders-down :
      (fuel i n : ℕ) (q : Queue) → n ≤ q.size → Indexed q → Reorders q (down less fuel i n q).0
  unfolding down
  Reorders-down zero i n q h ix = Reorders-refl q ix
  Reorders-down (suc fuel) i n q h ix =
      elim (Bool-cases (ltb (2 * i + 1) n && less (q.at (child less q i n)) (q.at i))) [
        | inr e ↦ rw (down, e) (Reorders-refl q ix)
        | inl e ↦
            let below : 2 * i + 1 < n = ground arith in
            let c = child_range q i n below in
            let s = Reorders-swap q i (child less q i n) (omega (arith, c)) (omega (arith, c)) ix in
            rw (down, e)
              (Reorders-trans s (
                Reorders-down fuel (child less q i n) n (swap q i (child less q i n))
                  (omega (arith, s.size)) s.indexed))
      ]

  pub Reorders-settle :
      (i n : ℕ) (q : Queue) → i < q.size → n ≤ q.size → Indexed q → Reorders q (settle less i n q)
  unfolding settle
  Reorders-settle i n q hi hn ix =
      let d = Reorders-down n i n q hn ix in
      elim (Bool-cases (ltb i (down less n i n q).1)) [
        | inl e ↦ rw e d
        | inr e ↦ rw e (Reorders-trans d (Reorders-up i i _ (omega (arith, d.size)) d.indexed))
      ]
