-- ===== src/Server/Queue.antt =====
-- core/server/server.go: the queue of items, with what it uses of container/heap. A slice of
-- pointers is its length and its elements by index; a pointer to an item is the identifier of the
-- item's client, and `qidx` are the items' fields of that name. A test `less` on two items stands for
-- their `qval`, which no operation changes.
pub mod Member
pub mod Order
pub mod Sift
pub mod Removal
use scion_time.Base.{
  Bool, false, if◌then◌else◌, ltb, not, suc, true, zero, ℕ, ◌&&◌, ◌*◌, ◌+◌, ◌-◌, ◌/◌, ◌==◌, ◌||◌,
}

-- Client identifiers are strings that are only compared; numbers stand for them.
abbrev pub ClientId : Type 0
ClientId = ℕ

pub record Queue : Type 0 where
  pub size : ℕ
  pub at : ℕ → ClientId
  pub qidx : ClientId → ℕ

abbrev pub empty_queue : Queue
empty_queue = record { size = 0; at = λ i. 0; qidx = λ k. 0 }

-- Swap
unfoldable pub swap : Queue → ℕ → ℕ → Queue
swap q i j = record q {
  at = λ x. if x == j then q.at i else if x == i then q.at j else q.at x;
  qidx = λ k. if k == q.at i then j else if k == q.at j then i else q.qidx k;
}

-- Push
unfoldable pub append : Queue → ClientId → Queue
append q k = record {
  size = q.size + 1;
  at = λ x. if x == q.size then k else q.at x;
  qidx = λ l. if l == k then q.size else q.qidx l;
}

-- Pop: the queue without its last element.
unfoldable pub drop_last : Queue → Queue
drop_last q = record q { size = q.size - 1 }

abbrev pub parent : ℕ → ℕ
parent j = (j - 1) / 2

module _ (less : ClientId → ClientId → Bool) where
  -- up of container/heap. The index falls with each round, so `j` rounds are enough.
  unfoldable pub up : ℕ → ℕ → Queue → Queue
  up zero j q = q
  up (suc fuel) j q =
      let i = parent j in
      elim (i == j || not (less (q.at j) (q.at i))) [ true ↦ q | false ↦ up fuel i (swap q i j) ]

  -- The child with which down goes on: the lesser of the two, the left one if they are equal.
  unfoldable pub child : Queue → ℕ → ℕ → ℕ
  child q i n =
      let j = 2 * i + 1 in if ltb (j + 1) n && less (q.at (j + 1)) (q.at j) then j + 1 else j

  -- down of container/heap, with the index that it ends at. The index grows with each round, so
  -- `n` rounds are enough.
  unfoldable pub down : ℕ → ℕ → ℕ → Queue → Queue × ℕ
  down zero i n q = (q, i)
  down (suc fuel) i n q =
      let j = child q i n in
      elim (ltb (2 * i + 1) n && less (q.at j) (q.at i)) [
        | true ↦ down fuel j n (swap q i j)
        | false ↦ (q, i)
      ]

  -- heap.Push
  unfoldable pub push : Queue → ClientId → Queue
  push q k = up q.size q.size (append q k)

  -- if !down(h, i, n) { up(h, i) }
  unfoldable pub settle : ℕ → ℕ → Queue → Queue
  settle i n q = let (r, f) = down n i n q in if ltb i f then r else up i i r

  -- heap.Fix
  unfoldable pub fix : Queue → ℕ → Queue
  fix q i = settle i q.size q

  -- heap.Remove; heap.Pop is the removal of the element at 0.
  unfoldable pub remove : Queue → ℕ → Queue
  remove q i = let n = q.size - 1 in drop_last (if n == i then q else settle i n (swap q i n))

  -- heap.Pop
  unfoldable pub pop : Queue → Queue
  pop q = let n = q.size - 1 in drop_last ((down n 0 n (swap q 0 n)).0)
