-- ===== src/Sorting/Insertion.antt =====
-- Insertion sort meets the laws of a sorter.
use mathlib.Core.List.Perm
use mathlib.Core.List.{Perm}
use scion_time.Base.{All, Bool-cases, List, [], arith, if◌then◌else◌, inl, inr, ◌∷◌}
use scion_time.Base.Int.{leb_ℤ, ℤ, ◌≤ℤ◌}
use scion_time.Sorting.{IsSorted, Sorter}

module _ {A : Type 0} (key : A → ℤ) where
  pub insert : A → List A → List A
  insert x [] = x ∷ []
  insert x (y ∷ ys) = if leb_ℤ (key x) (key y) then x ∷ y ∷ ys else y ∷ insert x ys

  pub insertion_sort : List A → List A
  insertion_sort [] = []
  insertion_sort (x ∷ xs) = insert x (insertion_sort xs)

  All-mono : (a b : ℤ) (xs : List A) → a ≤ℤ b → All (λ y. b ≤ℤ key y) xs → All (λ y. a ≤ℤ key y) xs
  All-mono a b [] h v = tt
  All-mono a b (x ∷ xs) h v = (omega arith, All-mono a b xs h v.1)

  All-insert :
      (a : ℤ) (x : A) (ys : List A)
      → a ≤ℤ key x
      → All (λ y. a ≤ℤ key y) ys
      → All (λ y. a ≤ℤ key y) (insert x ys)
  unfolding insert
  All-insert a x [] h v = (h, tt)
  All-insert a x (y ∷ ys) h v = ground (arith, All-insert a x ys)

  insert-IsSorted : (x : A) (ys : List A) → IsSorted key ys → IsSorted key (insert x ys)
  unfolding insert
  insert-IsSorted x [] s = (tt, tt)
  insert-IsSorted x (y ∷ ys) s =
      ground (arith, insert-IsSorted x ys, All-mono (key x) (key y) ys, All-insert (key y) x ys)

  pub insertion_sort-IsSorted : (xs : List A) → IsSorted key (insertion_sort xs)
  unfolding insertion_sort
  insertion_sort-IsSorted [] = tt
  insertion_sort-IsSorted (x ∷ xs) = insert-IsSorted x _ (insertion_sort-IsSorted xs)

  insert-perm : (x : A) (ys : List A) → Perm (insert x ys) (x ∷ ys)
  unfolding insert
  insert-perm x [] = Perm.refl _
  insert-perm x (y ∷ ys) = elim (Bool-cases (leb_ℤ (key x) (key y))) [
    | inl e ↦ rw e (Perm.refl _)
    | inr e ↦ rw e (Perm.trans (Perm.cons y (insert-perm x ys)) (Perm.swap _ _ _))
  ]

  pub insertion_sort-perm : (xs : List A) → Perm (insertion_sort xs) xs
  unfolding insertion_sort
  insertion_sort-perm [] = Perm.refl _
  insertion_sort-perm (x ∷ xs) = Perm.trans (insert-perm x _) (Perm.cons x (insertion_sort-perm xs))

  unfoldable pub insertion_sorter : Sorter A key
  unfolding insertion_sort insert
  insertion_sorter = record {
    sort = insertion_sort;
    sorts = insertion_sort-IsSorted;
    permutes = insertion_sort-perm;
  }
