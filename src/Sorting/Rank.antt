-- ===== src/Sorting/Rank.antt =====
-- Elements of a sorted list by their position: how many elements may lie outside a range without
-- moving the one at a position out of it.
use mathlib.Core.List.{Permᴰ, Perm}
use scion_time.Base.{
  All, Bool, List, [], arith, get_elem?, length, refl, some, suc, zero, ℕ, ◌+◌, ◌<◌, ◌∷◌, ◌≡◌, ◌≤◌,
  sym, true, ◌∙◌, ◌||◌,
}
use scion_time.Base.Int.{ltb_ℤ, ℤ, ◌<ℤ◌, ◌≤ℤ◌}
use scion_time.Sorting.{IsSorted, count, Sorter}
use mathlib.Core.Logic.{∥∥₁_elim}
use native.Mathlib.Nat.{ℕ_set}

module _ {A : Type 0} where
  count-permᴰ : (p : A → Bool) {xs ys : List A} → Permᴰ xs ys → count p xs ≡ count p ys
  count-permᴰ p Permᴰ.nil = refl
  count-permᴰ p (Permᴰ.cons e h) = rw (e, count-permᴰ p h)
  count-permᴰ p (Permᴰ.swap {l = l} e e') = rw (e, e') (omega arith)
  count-permᴰ p (Permᴰ.trans h k) = count-permᴰ p h ∙ count-permᴰ p k

  -- Permutations count alike.
  pub count-perm : (p : A → Bool) {xs ys : List A} → Perm xs ys → count p xs ≡ count p ys
  count-perm p h = ∥∥₁_elim h (ℕ_set _ _) (count-permᴰ p)

  count_all : (xs : List A) → count (λ x. true) xs ≡ length xs
  count_all [] = refl
  count_all (x ∷ xs) = omega (arith, count_all xs)

  pub length-perm : {xs ys : List A} → Perm xs ys → length xs ≡ length ys
  length-perm {xs} {ys} h = sym (count_all xs) ∙ count-perm (λ x. true) h ∙ count_all ys

  pub count-le-length : (p : A → Bool) (xs : List A) → count p xs ≤ length xs
  count-le-length p [] = omega arith
  count-le-length p (x ∷ xs) = ground (arith, count-le-length p xs)

module _ {A : Type 0} (key : A → ℤ) where
  abbrev pub below : ℤ → A → Bool
  below lo x = ltb_ℤ (key x) lo

  abbrev pub above : ℤ → A → Bool
  above hi x = ltb_ℤ hi (key x)

  All-above :
      (a hi : ℤ) (xs : List A)
      → hi <ℤ a
      → All (λ y. a ≤ℤ key y) xs
      → count (above hi) xs ≡ length xs
  All-above a hi [] h v = refl
  All-above a hi (x ∷ xs) h v = ground (arith, All-above a hi xs)

  All-get_elem? :
      (a : ℤ) (xs : List A) (i : ℕ) (y : A)
      → All (λ z. a ≤ℤ key z) xs
      → get_elem? xs i ≡ some y
      → a ≤ℤ key y
  All-get_elem? a [] i y v e = cc
  All-get_elem? a (x ∷ xs) zero y v e = ground (arith)
  All-get_elem? a (x ∷ xs) (suc i) y v e = All-get_elem? a xs i y v.1 e

  -- With at most `i` keys below `lo`, the one at position `i` is not.
  pub not_below :
      (lo : ℤ) (xs : List A) (i : ℕ) (y : A)
      → IsSorted key xs
      → get_elem? xs i ≡ some y
      → count (below lo) xs ≤ i
      → lo ≤ℤ key y
  not_below lo [] i y s e h = cc
  not_below lo (x ∷ xs) zero y s e h = ground arith
  not_below lo (x ∷ xs) (suc i) y s e h =
      ground (arith, not_below lo xs i y s.1 e, All-get_elem? (key x) xs i y s.0 e)

  -- With fewer keys above `hi` than positions from `i` on, the one at position `i` is not.
  pub not_above :
      (hi : ℤ) (xs : List A) (i : ℕ) (y : A)
      → IsSorted key xs
      → get_elem? xs i ≡ some y
      → count (above hi) xs + i < length xs
      → key y ≤ℤ hi
  not_above hi [] i y s e h = cc
  not_above hi (x ∷ xs) zero y s e h = ground (arith, All-above (key x) hi xs)
  not_above hi (x ∷ xs) (suc i) y s e h = ground (arith, not_above hi xs i y s.1 e)

  pub sorted_le :
      (xs : List A) (i j : ℕ) (x y : A)
      → IsSorted key xs
      → i ≤ j
      → get_elem? xs i ≡ some x
      → get_elem? xs j ≡ some y
      → key x ≤ℤ key y
  sorted_le [] i j x y s h e e' = cc
  sorted_le (z ∷ xs) zero zero x y s h e e' = ground arith
  sorted_le (z ∷ xs) (suc i) zero x y s h e e' = absurd (omega arith)
  sorted_le (z ∷ xs) zero (suc j) x y s h e e' = ground (arith, All-get_elem? (key z) xs j y s.0 e')
  sorted_le (z ∷ xs) (suc i) (suc j) x y s h e e' = sorted_le xs i j x y s.1 (omega arith) e e'

pub get_elem?-lt {ℓ} :
    {A : Type ℓ} (xs : List A) (i : ℕ) → i < length xs → (x : A) × (get_elem? xs i ≡ some x)
get_elem?-lt [] i h = absurd (omega arith)
get_elem?-lt (x ∷ xs) zero h = (x, refl)
get_elem?-lt (x ∷ xs) (suc i) h = get_elem?-lt xs i (omega arith)

module _ {A : Type 0} (key : A → ℤ) (lo hi : ℤ) where
  abbrev pub outside : A → Bool
  outside x = below key lo x || above key hi x

  below-le-outside : (xs : List A) → count (below key lo) xs ≤ count outside xs
  below-le-outside [] = omega arith
  below-le-outside (x ∷ xs) = ground (arith, below-le-outside xs)

  above-le-outside : (xs : List A) → count (above key hi) xs ≤ count outside xs
  above-le-outside [] = omega arith
  above-le-outside (x ∷ xs) = ground (arith, above-le-outside xs)

  -- An element that has more positions on either side of it than there are keys outside a range
  -- has its key inside the range.
  pub sort_inside :
      (s : Sorter A key) (xs : List A) (i : ℕ)
      → count outside xs ≤ i
      → count outside xs + i < length xs
      → (y : A) × (get_elem? (s.sort xs) i ≡ some y) × (lo ≤ℤ key y) × (key y ≤ℤ hi)
  sort_inside s xs i h k =
      let sorted = s.sort xs in
      let size : length sorted ≡ length xs = length-perm (s.permutes xs) in
      let same = count-perm outside (s.permutes xs) in
      let (y, e) = get_elem?-lt sorted i (omega (arith, size)) in
      (
        y,
        e,
        not_below key lo sorted i y (s.sorts xs) e (omega (arith, same, below-le-outside sorted)),
        not_above key hi sorted i y (s.sorts xs) e
            (omega (arith, same, size, above-le-outside sorted)),
      )
