-- ===== src/Ntske/Provider.antt =====
-- net/ntske/provider.go: the provider of the keys that encrypt the server's cookies. The lock makes
-- each method one step; the clock readings and random bytes of a method are its arguments.
pub mod Validity
use scion_time.Base.{◌>>=◌}
use scion_time.GoTime.{Time, Duration, add, before, after}
use scion_time.Base.{
  Bool, List, Option, [], false, if◌then◌else◌, none, not, some, true, ℕ, ◌*◌, ◌+◌, ◌-◌, ◌==◌, ◌^◌,
  ◌||◌, ◌∷◌,
}
use scion_time.Base.Int.{negsuc, pos}

-- 24 hours are 86400 * 10^9 ns.
abbrev pub key_renewal_interval : Duration
key_renewal_interval = pos (86400 * 10 ^ 9)

abbrev pub key_validity : Duration
key_validity = pos (3 * 86400 * 10 ^ 9)

-- math.MaxInt
abbrev pub max_int : ℕ
max_int = 2 ^ 63 - 1

pub record Key : Type 0 where
  pub id : ℕ
  pub value : List ℕ
  pub not_before : Time
  pub not_after : Time

-- The zero values of time.Time, the first second of the year 1, and of Key.
abbrev pub zero_time : Time
zero_time = negsuc (62135596800 * 10 ^ 9 - 1)

abbrev pub zero_key : Key
zero_key = record { id = 0; value = []; not_before = zero_time; not_after = zero_time }

-- The map from identifiers to keys, as an association list.
abbrev pub KeyMap : Type 0
KeyMap = List (ℕ × Key)

pub record Provider : Type 0 where
  pub keys : KeyMap
  pub current_id : ℕ
  pub generated_at : Time

unfoldable pub is_valid_at : Key → Time → Bool
is_valid_at k t = if before t k.not_before || after t k.not_after then false else true

unfoldable pub lookup : ℕ → KeyMap → Option Key
lookup i [] = none
lookup i ((j, k) ∷ m) = if j == i then some k else lookup i m

-- keys[i], which is the zero key if there is none
unfoldable pub lookup_or_zero : ℕ → KeyMap → Key
lookup_or_zero i m = elim (lookup i m) [ some k ↦ k | none ↦ zero_key ]

-- delete of every key that is not valid at `t`
unfoldable pub delete_invalid : Time → KeyMap → KeyMap
delete_invalid t [] = []
delete_invalid t ((j, k) ∷ m) =
    let rest = delete_invalid t m in if is_valid_at k t then (j, k) ∷ rest else rest

-- keys[i] = k
unfoldable pub insert : ℕ → Key → KeyMap → KeyMap
insert i k [] = (i, k) ∷ []
insert i k ((j, l) ∷ m) = let rest = (j, l) ∷ insert i k m in if j == i then (i, k) ∷ m else rest

-- The key that follows on the identifier `n`.
abbrev pub next_key : ℕ → Time → List ℕ → Key
next_key n now value = record {
  id = n + 1;
  value = value;
  not_before = now;
  not_after = add now key_validity;
}

-- generateNext at the time `now`, with the result of rand.Read; `none` is a panic.
abbrev pub with_next_key : Provider → Time → List ℕ → Provider
with_next_key p now value = record {
  keys = insert (p.current_id + 1) (next_key p.current_id now value) (delete_invalid now p.keys);
  current_id = p.current_id + 1;
  generated_at = now;
}

unfoldable pub generate_next : Provider → Time → Option (List ℕ) → Option Provider
generate_next p now random =
    if p.current_id == max_int
    then none
    else elim random [ none ↦ none | some value ↦ some (with_next_key p now value) ]

unfoldable pub new_provider : Time → Option (List ℕ) → Option Provider
new_provider now random =
    generate_next (record { keys = []; current_id = 0; generated_at = zero_time }) now random

unfoldable pub get : Provider → ℕ → Time → Option Key
get p id now = elim (lookup id p.keys) [
  | none ↦ none
  | some key ↦ if not (is_valid_at key now) then none else some key
]

-- The test of Current at its clock reading `now`, and its call of generateNext, which reads the
-- clock once more, at `now'`.
unfoldable pub is_due : Provider → Time → Bool
is_due p now =
    not (is_valid_at (lookup_or_zero p.current_id p.keys) now)
    || before (add p.generated_at key_renewal_interval) now

unfoldable pub refreshed : Provider → Time → Time → Option (List ℕ) → Option Provider
refreshed p now now' random = if is_due p now then generate_next p now' random else some p

unfoldable pub current : Provider → Time → Time → Option (List ℕ) → Option (Provider × Key)
current p now now' random = do
  q ← refreshed p now now' random
  some (q, lookup_or_zero q.current_id q.keys)
