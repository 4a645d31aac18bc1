-- ===== src/Crypto/Choice.antt =====
-- What RandIntn and Sample of base/crypto/crypto.go choose.
use scion_time.Base.Run.{ok}
use native.Mathlib.Nat.{mod-lt}
use scion_time.Base.{
  ==_false, ==_iff, ==_self, Bool-cases, arith, false, inl, inr, le→leb, le→ltb_false, lt→ltb, refl,
  some, suc, sym, zero, ℕ, ◌%◌, ◌+◌, ◌<◌, ◌==◌, ◌∙◌, ◌≡◌, ◌≢◌, ◌≤◌, if◌then◌else◌, ltb, ltb→lt, ◌-◌,
  ap,
}
use scion_time.Crypto.{
  Words, max_int32, pick, rand_int, rand_intn, rand_loop, threshold, sample_loop, pick_all, sample,
}
use mathlib.Core.Path.{subst}
use Prim.Native.Nat.{min}

-- The words before the `i`-th are refused, and the context is not done after them.
abbrev pub Refused : Words → ℕ → ℕ → ℕ → Type 0
Refused ws w n i =
    (j : ℕ)
    → j < i
    → ((x : ℕ) × (ws.word j ≡ some x) × (x ≤ threshold w n)) × (ws.is_done j ≡ false)

rand_loop-first :
    (ws : Words) (w n fuel i k x : ℕ)
    → ((j : ℕ)
        → k ≤ j
        → j < k + i
        → ((y : ℕ) × (ws.word j ≡ some y) × (y ≤ threshold w n)) × (ws.is_done j ≡ false))
    → ws.word (k + i) ≡ some x
    → threshold w n < x
    → i < fuel
    → rand_loop ws w n fuel k ≡ ok (x % n)
unfolding rand_loop
rand_loop-first ws w n zero i k x refused e t h = absurd (omega (arith, h))
rand_loop-first ws w n (suc fuel) zero k x refused e t h =
    let here : k + 0 ≡ k = omega arith in
    rw (rand_loop, (rw here at e), lt→ltb (threshold w n) x t) refl
rand_loop-first ws w n (suc fuel) (suc i) k x refused e t h =
    let ((y, f, small), not_done) = refused k (omega arith) (omega arith) in
    let there : k + suc i ≡ k + 1 + i = omega arith in
    let rest =
      rand_loop-first ws w n fuel i (k + 1) x
        (λ j l u. refused j (omega (arith, l)) (omega (arith, u))) (rw there at e) t
        (omega (arith, h)) in
    rw (rand_loop, f, le→ltb_false (threshold w n) y small, not_done) rest

-- RandIntn of an `n` from 2 to math.MaxInt32 returns: where the words before the `i`-th, with `i` below the
-- fuel, are at most the threshold and the context is not done after them, and the `i`-th word `x` is
-- above the threshold, the result is `x % n`, which is below `n`.
pub rand_intn-first :
    (ws : Words) (n fuel i x : ℕ)
    → 2 ≤ n
    → n ≤ max_int32
    → Refused ws 32 n i
    → ws.word i ≡ some x
    → threshold 32 n < x
    → i < fuel
    → (rand_intn ws fuel n ≡ ok (x % n)) × (x % n < n)
unfolding rand_intn rand_int
rand_intn-first ws n fuel i x two small refused e t h =
    let here : 0 + i ≡ i = omega arith in
    let r =
      rand_loop-first ws 32 n fuel i 0 x (λ j l u. refused j (omega (arith, u))) (rw here e) t h in
    (
      rw (==_false n 0 (λ q. omega (arith, q, two)), le→leb n max_int32 small, le→ltb_false n 2 two)
          r,
      mod-lt x (omega (arith, two)),
    )

ltb_false→le : (a b : ℕ) → ltb a b ≡ false → b ≤ a
ltb_false→le a b h = ground arith

-- What the second loop keeps: the first `k` items are different ones from before the `i`-th, and the
-- others are in their places.
record Chooses (k i : ℕ) (f : ℕ → ℕ) : Type 0 where
  early : (a : ℕ) → a < k → f a < i
  different : (a b : ℕ) → a < k → b < k → f a ≡ f b → a ≡ b
  kept : (a : ℕ) → i ≤ a → f a ≡ a

pick_self : (f : ℕ → ℕ) (dst src : ℕ) → pick f dst src dst ≡ f src
pick_self f dst src = rw (==_self dst) refl

pick_ne : (f : ℕ → ℕ) (dst src a : ℕ) → a ≢ dst → pick f dst src a ≡ f a
pick_ne f dst src a h = rw (==_false a dst h) refl

pick-Chooses :
    (k i j : ℕ) (f : ℕ → ℕ) → Chooses k i f → j < k → k ≤ i → Chooses k (i + 1) (pick f j i)
pick-Chooses k i j f w h l = record {
  early = λ a u. elim (Bool-cases (a == j)) [
    | inl y ↦ rw y (omega (arith, w.kept i (omega arith)))
    | inr n ↦ rw n (omega (arith, w.early a u))
  ];
  different = λ a b u v e. elim (Bool-cases (a == j)) [
    | inl y ↦ elim (Bool-cases (b == j)) [
      | inl z ↦ (==_iff a j).0 y ∙ sym ((==_iff b j).0 z)
      | inr z ↦
          let at : f i ≡ f b = rw (y, z) at e in
          absurd (omega (arith, at, w.kept i (omega arith), w.early b v))
    ]
    | inr y ↦ elim (Bool-cases (b == j)) [
      | inl z ↦
          let at : f a ≡ f i = rw (y, z) at e in
          absurd (omega (arith, at, w.kept i (omega arith), w.early a u))
      | inr z ↦ w.different a b u v (rw (y, z) at e)
    ]
  ];
  kept = λ a u. pick_ne f j i a (λ q. omega (arith, q, u, h, l)) ∙ w.kept a (omega (arith, u));
}

keep-Chooses : (k i : ℕ) (f : ℕ → ℕ) → Chooses k i f → Chooses k (i + 1) f
keep-Chooses k i f w = record {
  early = λ a u. omega (arith, w.early a u);
  different = w.different;
  kept = λ a u. w.kept a (omega (arith, u));
}

-- One of the words that are read for a run is accepted, within the fuel.
abbrev pub Drawn : Words → ℕ → ℕ → Type 0
Drawn ws fuel n =
    (i : ℕ) × (x : ℕ) × Refused ws 32 n i × (ws.word i ≡ some x) × (threshold 32 n < x) × (i < fuel)

rand_intn-Drawn :
    (ws : Words) (fuel n : ℕ)
    → 1 ≤ n
    → n ≤ max_int32
    → Drawn ws fuel n
    → (j : ℕ) × (rand_intn ws fuel n ≡ ok j)
unfolding rand_intn rand_int
rand_intn-Drawn ws fuel n one small (i, x, refused, e, t, h) = elim (Bool-cases (ltb n 2)) [
  | inl l ↦ (0, rw (==_false n 0 (λ q. omega (arith, q, one)), le→leb n max_int32 small, l) refl)
  | inr l ↦ (x % n, (rand_intn-first ws n fuel i x (ltb_false→le n 2 l) small refused e t h).0)
]

sample_loop-Chooses :
    (ws : ℕ → Words) (fuel k m i : ℕ) (f : ℕ → ℕ)
    → k ≤ i
    → i + m ≤ max_int32
    → ((l : ℕ) → l < i + m → Drawn (ws l) fuel (l + 1))
    → Chooses k i f
    → (g : ℕ → ℕ) × (sample_loop ws fuel k m i f ≡ ok g) × Chooses k (i + m) g
unfolding sample_loop
sample_loop-Chooses ws fuel k zero i f l small drawn w =
    let same : i ≡ i + 0 = omega arith in (f, refl, subst (λ z. Chooses k z f) same w)
sample_loop-Chooses ws fuel k (suc m) i f l small drawn w =
    let (j, e) =
      rand_intn-Drawn (ws i) fuel (i + 1) (omega arith) (omega (arith, small))
        (drawn i (omega arith)) in
    let f' : ℕ → ℕ = if ltb j k then pick f j i else f in
    let w' : Chooses k (i + 1) f' = elim (Bool-cases (ltb j k)) [
      | inl u ↦ rw u (pick-Chooses k i j f w (ltb→lt j k u) l)
      | inr u ↦ rw u (keep-Chooses k i f w)
    ] in
    let (g, r, v) =
      sample_loop-Chooses ws fuel k m (i + 1) f' (omega (arith, l)) (omega (arith, small))
        (λ a u. drawn a (omega (arith, u))) w' in
    let same : i + 1 + m ≡ i + suc m = omega arith in (g, rw e r, subst (λ z. Chooses k z g) same v)

pick_all_same : (m i : ℕ) (f : ℕ → ℕ) → ((b : ℕ) → f b ≡ b) → (a : ℕ) → pick_all m i f a ≡ a
unfolding pick_all
pick_all_same zero i f h a = h a
pick_all_same (suc m) i f h a =
    pick_all_same m (i + 1) (pick f i i)
      (λ b. elim (Bool-cases (b == i)) [
        | inl y ↦ rw y (h i ∙ sym ((==_iff b i).0 y))
        | inr n ↦ rw n (h b)
      ])
      a

pick_all-Chooses : (k : ℕ) → Chooses k k (pick_all k 0 (λ i. i))
pick_all-Chooses k =
    let same : (a : ℕ) → pick_all k 0 (λ i. i) a ≡ a = pick_all_same k 0 (λ i. i) (λ b. refl) in
    record {
      early = λ a u. omega (arith, same a, u);
      different = λ a b u v e. sym (same a) ∙ e ∙ same b;
      kept = λ a u. same a;
    }

-- Sample, of `n` items with `n` at most math.MaxInt32, returns for every `k` and ends: when each run of
-- its second loop reads a word that RandIntn accepts within the fuel, the result is `min k n`, and the
-- first `min k n` places hold items from before the `n`-th, each a different one.
pub sample-Distinct :
    (ws : ℕ → Words) (fuel k n : ℕ)
    → n ≤ max_int32
    → ((l : ℕ) → l < n → Drawn (ws l) fuel (l + 1))
    → (f : ℕ → ℕ) × (sample ws fuel k n ≡ ok (min k n, f))
      × ((a : ℕ) → a < min k n → f a < n)
      × ((a b : ℕ) → a < min k n → b < min k n → f a ≡ f b → a ≡ b)
unfolding sample
sample-Distinct ws fuel k n small drawn =
    let c = if ltb n k then n else k in
    let size : c ≡ min k n = elim (Bool-cases (ltb n k)) [
      | inl u ↦ rw u (omega (arith, ltb→lt n k u))
      | inr u ↦ rw u (omega (arith, ltb_false→le n k u))
    ] in
    let whole : c + (n - c) ≡ n = omega (arith, size) in
    let (f, r, w) =
      sample_loop-Chooses ws fuel c (n - c) c (pick_all c 0 (λ i. i)) (omega arith)
        (omega (arith, whole, small)) (λ a u. drawn a (omega (arith, u, whole)))
        (pick_all-Chooses c) in
    (
      f,
      rw r (ap (λ z. ok (z, f)) size),
      λ a u. omega (arith, w.early a (omega (arith, u, size)), whole),
      λ a b u v. w.different a b (omega (arith, u, size)) (omega (arith, v, size)),
    )
