-- ===== src/Crypto.antt =====
-- base/crypto/crypto.go: RandIntn and Sample. The words that rand.Read delivers and whether the context
-- is done after one of them are arguments.
pub mod Choice
use scion_time.Base.Run.{Run, ok, err, panic, out_of_fuel, ◌>>=◌, or_err}
use scion_time.Base.{
  Bool, Option, if◌then◌else◌, leb, ltb, none, some, suc, zero, ℕ, ◌%◌, ◌+◌, ◌-◌, ◌==◌, ◌^◌,
}

pub data RandomError : Type 0 where
  -- of rand.Read and of the context
  not_read context_done : RandomError

-- What is read, one word per run of the loop, as little-endian numbers of 32 or 64 bits.
pub record Words : Type 0 where
  pub word : ℕ → Option ℕ
  pub is_done : ℕ → Bool

-- uint32(-n) % uint32(n), or the same on 64 bits
unfoldable pub threshold : ℕ → ℕ → ℕ
threshold w n = (2 ^ w - n) % 2 ^ w % n

-- The loop of randInt31 and randInt63 from its run `i` on.
unfoldable pub rand_loop : Words → ℕ → ℕ → ℕ → ℕ → Run RandomError ℕ
rand_loop ws w n zero i = out_of_fuel
rand_loop ws w n (suc fuel) i =
    let rest = rand_loop ws w n fuel (i + 1) in
    elim (ws.word i) [
      | none ↦ err not_read
      | some x ↦
          if ltb (threshold w n) x
          then ok (x % n)
          else if ws.is_done i
          then err context_done
          else rest
    ]

-- randInt31, and randInt63, with 32 and 64 for the width `w`.
unfoldable pub rand_int : ℕ → Words → ℕ → ℕ → Run RandomError ℕ
rand_int w ws fuel n = if ltb n 2 then ok 0 else rand_loop ws w n fuel 0

-- math.MaxInt32
abbrev pub max_int32 : ℕ
max_int32 = 2 ^ 31 - 1

-- RandIntn of a number that is not negative.
unfoldable pub rand_intn : Words → ℕ → ℕ → Run RandomError ℕ
rand_intn ws fuel n =
    if n == 0
    then panic
    else if leb n max_int32
    then rand_int 32 ws fuel n
    else rand_int 64 ws fuel n

-- pick(dst, src) on a slice, of which `f` tells what was at which index at first: `ps[dst] = ps[src]`
abbrev pub pick : (ℕ → ℕ) → ℕ → ℕ → ℕ → ℕ
pick f dst src l = if l == dst then f src else f l

-- The first loop of Sample, which picks every item for its own place.
unfoldable pub pick_all : ℕ → ℕ → (ℕ → ℕ) → ℕ → ℕ
pick_all zero i f = f
pick_all (suc m) i f = pick_all m (i + 1) (pick f i i)

-- The second loop of Sample from its run `i` on, with `m` runs left. The words are those for the run.
unfoldable pub sample_loop : (ℕ → Words) → ℕ → ℕ → ℕ → ℕ → (ℕ → ℕ) → Run RandomError (ℕ → ℕ)
sample_loop ws fuel k zero i f = ok f
sample_loop ws fuel k (suc m) i f = do
  j ← rand_intn (ws i) fuel (i + 1)
  sample_loop ws fuel k m (i + 1) (if ltb j k then pick f j i else f)

-- Sample of numbers that are not negative: how many items, and what is where in the slice.
unfoldable pub sample : (ℕ → Words) → ℕ → ℕ → ℕ → Run RandomError (ℕ × (ℕ → ℕ))
sample ws fuel k n =
    let k' = if ltb n k then n else k in
    do f ← sample_loop ws fuel k' (n - k') k' (pick_all k' 0 (λ i. i)); ok (k', f)
