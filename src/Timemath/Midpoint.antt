-- ===== src/Timemath/Midpoint.antt =====
-- Midpoint, Inv and Sgn of base/timemath/timemath.go.
use scion_time.Base.{refl, ◌^◌, arith, ℕ, ◌≡◌, ◌⊎◌, Bool-cases, inl, inr, ◌<◌, ◌-◌}
use scion_time.Base.Int.{
  Fits, add64-eq, quot, quot_parts, sub64-eq, ◌-ℤ◌, ◌≤ℤ◌, int_laws, parts_disjoint, pos, ℤ, ◌+ℤ◌,
  eqb_ℤ, neg_part, eq_of_parts, pos_part,
}
use scion_time.GoTime.{Duration}
use scion_time.Timemath.{midpoint, inv, min_int64}

Fits-between : (h : ℕ) (x z y : ℤ) → Fits h x → Fits h y → x ≤ℤ z → z ≤ℤ y → Fits h z
Fits-between h x z y hx hy p q = omega (arith, parts_disjoint z)

halfway : (x y : ℤ) → x ≤ℤ y → (x ≤ℤ x +ℤ quot (y -ℤ x) 2) × (x +ℤ quot (y -ℤ x) 2 ≤ℤ y)
halfway x y h = omega (int_laws, quot_parts (y -ℤ x) 2, parts_disjoint (y -ℤ x))

-- Where the difference of two values in ascending order is an int64, the midpoint is the first
-- plus half of the difference, with no overflow.
pub midpoint-eq :
    (x y : Duration)
    → Fits (2 ^ 63) x
    → Fits (2 ^ 63) y
    → Fits (2 ^ 63) (y -ℤ x)
    → x ≤ℤ y
    → midpoint x y ≡ x +ℤ quot (y -ℤ x) 2
unfolding midpoint
midpoint-eq x y hx hy hd h =
    let (p, q) = halfway x y h in
    rw (sub64-eq y x (y -ℤ x) refl hd)
      (add64-eq x (quot (y -ℤ x) 2) _ refl (Fits-between (2 ^ 63) x _ y hx hy p q))

-- Then it lies between the two.
pub midpoint_between :
    (x y : Duration)
    → Fits (2 ^ 63) x
    → Fits (2 ^ 63) y
    → Fits (2 ^ 63) (y -ℤ x)
    → x ≤ℤ y
    → (x ≤ℤ midpoint x y) × (midpoint x y ≤ℤ y)
midpoint_between x y hx hy hd h = rw (midpoint-eq x y hx hy hd h) (halfway x y h)

negated : (d : ℤ) → (pos_part (pos 0 -ℤ d) ≡ neg_part d) × (neg_part (pos 0 -ℤ d) ≡ pos_part d)
unfolding ◌-ℤ◌
negated d = ground arith

-- Inv negates every int64 but the least, which it takes to the greatest.
inv-cases :
    (d : Duration)
    → Fits (2 ^ 63) d
    → ((pos_part (inv d) ≡ neg_part d) × (neg_part (inv d) ≡ pos_part d) × (neg_part d < 2 ^ 63))
      ⊎ ((pos_part (inv d) ≡ 2 ^ 63 - 1) × (neg_part (inv d) ≡ 0) × (neg_part d ≡ 2 ^ 63))
unfolding inv
inv-cases d h = elim (Bool-cases (eqb_ℤ d min_int64)) [
  | inl e ↦ inr (rw e (refl, refl, ground (arith, parts_disjoint d)))
  | inr e ↦
      let small : neg_part d < 2 ^ 63 = ground (arith, parts_disjoint d) in
      inl (
        rw (e, sub64-eq (pos 0) d _ refl (omega (arith, negated d)))
          ((negated d).0, (negated d).1, small))
]

-- Inv keeps to int64, reverses the order of all int64s, and is undone by itself but on the least.
pub inv_antitone :
    (x y : Duration)
    → Fits (2 ^ 63) x
    → Fits (2 ^ 63) y
    → x ≤ℤ y
    → (Fits (2 ^ 63) (inv x)) × (inv y ≤ℤ inv x) × ((inv (inv x) ≡ x) ⊎ (x ≡ min_int64))
inv_antitone x y hx hy h =
    let fits : Fits (2 ^ 63) (inv x) = omega (arith, inv-cases x hx) in
    (
      fits,
      omega (arith, inv-cases x hx, inv-cases y hy, parts_disjoint x, parts_disjoint y),
      elim (inv-cases x hx) [
        | inl a ↦ inl (eq_of_parts _ x (omega (arith, a, inv-cases (inv x) fits, parts_disjoint x)))
        | inr a ↦ inr (eq_of_parts x _ (omega (arith, a, parts_disjoint x)))
      ],
    )
