-- ===== src/Sorting.antt =====
-- What the sources rely on of Go's slices.Sort and slices.SortFunc: the result is sorted by a key
-- and a permutation of the input. The order of elements with equal keys is left open, as it is for
-- slices.SortFunc. Insertion sort shows that the laws can be met, and runs in tests.
pub mod Rank
pub mod Insertion
use mathlib.Core.List.{Perm}
use scion_time.Base.{All, Bool, List, [], if◌then◌else◌, ℕ, ◌+◌, ◌∷◌}
use scion_time.Base.Int.{ℤ, ◌≤ℤ◌}

module _ {A : Type 0} where
  -- Each key is at most all that follow.
  abbrev pub IsSorted : (A → ℤ) → List A → Type 0
  IsSorted key [] = Unit
  IsSorted key (x ∷ xs) = All (λ y. key x ≤ℤ key y) xs × IsSorted key xs

  abbrev pub count : (A → Bool) → List A → ℕ
  count p [] = 0
  count p (x ∷ xs) = (if p x then 1 else 0) + count p xs

pub record Sorter (A : Type 0) (key : A → ℤ) : Type 0 where
  pub sort : List A → List A
  pub sorts : (xs : List A) → IsSorted key (sort xs)
  pub permutes : (xs : List A) → Perm (sort xs) xs
