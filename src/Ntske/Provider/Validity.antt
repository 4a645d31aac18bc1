-- ===== src/Ntske/Provider/Validity.antt =====
-- The keys of net/ntske/provider.go live long enough for the cookies that are made with them.
use scion_time.GoTime.{Time, add}
use scion_time.Base.{
  All, [], arith, if◌then◌else◌, refl, some, true, ℕ, ◌==◌, ◌∷◌, ◌≡◌, ◌≤◌, Bool-cases, List, Option,
  inl, inr, ◌+◌, ==_false, ==_self, none, ◌⊎◌, Option-cases, ◌*◌, ◌^◌, ◌↔◌, sym, ◌∙◌,
}
use scion_time.Base.Int.{◌+ℤ◌, ◌≤ℤ◌, pos, +ℤ_parts, int_laws}
use scion_time.Ntske.Provider.{
  Key, KeyMap, Provider, delete_invalid, insert, is_valid_at, key_validity, lookup, generate_next,
  current, key_renewal_interval, lookup_or_zero, next_key, with_next_key, is_due, refreshed, get,
}
use mathlib.Core.Path.{subst}

-- The identifiers in the map are at most `n`.
abbrev pub Below : ℕ → KeyMap → Type 0
Below n m = All (λ (e : ℕ × Key). e.0 ≤ n) m

-- The newest key is in the map and was made when the provider says, and no identifier is newer.
pub record IsProvider (p : Provider) : Type 0 where
  pub newest : Key
  pub found : lookup p.current_id p.keys ≡ some newest
  pub named : newest.id ≡ p.current_id
  pub from : newest.not_before ≡ p.generated_at
  pub until : newest.not_after ≡ p.generated_at +ℤ key_validity
  pub bounded : Below p.current_id p.keys

lookup-insert :
    (i j : ℕ) (k : Key) (m : KeyMap)
    → lookup j (insert i k m) ≡ (if i == j then some k else lookup j m)
unfolding lookup insert
lookup-insert i j k [] = refl
lookup-insert i j k ((h, l) ∷ m) = ground (arith, lookup-insert i j k m)

lookup-delete_invalid :
    (t : Time) (i : ℕ) (k : Key) (m : KeyMap)
    → lookup i m ≡ some k
    → is_valid_at k t ≡ true
    → lookup i (delete_invalid t m) ≡ some k
unfolding lookup delete_invalid
lookup-delete_invalid t i k [] e v = cc
lookup-delete_invalid t i k ((j, l) ∷ m) e v = elim (Bool-cases (j == i)) [
  | inl same ↦ let e' : l ≡ k = cc (rw same at e) in rw (e', v, same)
  | inr other ↦
      let ih = lookup-delete_invalid t i k m (rw other at e) v in
      elim (Bool-cases (is_valid_at l t)) [ inl a ↦ rw (a, other) ih | inr a ↦ rw a ih ]
]

Below-delete_invalid : (t : Time) (n : ℕ) (m : KeyMap) → Below n m → Below n (delete_invalid t m)
unfolding delete_invalid
Below-delete_invalid t n [] b = tt
Below-delete_invalid t n ((j, l) ∷ m) b = ground (arith, Below-delete_invalid t n m)

Below-insert : (n : ℕ) (k : Key) (m : KeyMap) → Below n m → Below (n + 1) (insert (n + 1) k m)
unfolding insert
Below-insert n k [] b = (omega arith, tt)
Below-insert n k ((j, l) ∷ m) b = ground (arith, Below-insert n k m, Below-mono n m)
  where
    Below-mono : (n : ℕ) (m : KeyMap) → Below n m → Below (n + 1) m
    Below-mono n [] b = tt
    Below-mono n ((j, l) ∷ m) b = (omega arith, Below-mono n m b.1)

lookup-above : (i n : ℕ) (k : Key) (m : KeyMap) → Below n m → lookup i m ≡ some k → i ≤ n
unfolding lookup
lookup-above i n k [] b e = cc
lookup-above i n k ((j, l) ∷ m) b e = ground (arith, lookup-above i n k m b.1)

generate_next-inv :
    (p : Provider) (now : Time) (random : Option (List ℕ)) (q : Provider)
    → generate_next p now random ≡ some q
    → (value : List ℕ) × (with_next_key p now value ≡ q)
unfolding generate_next
generate_next-inv p now none q e = ground arith
generate_next-inv p now (some value) q e = (value, ground arith)

module _ (p : Provider) (now : Time) (value : List ℕ) (b : Below p.current_id p.keys) where
  lookup-with_next_key :
      (i : ℕ)
      → lookup i (with_next_key p now value).keys ≡ (
          if (p.current_id + 1) == i
          then some (next_key p.current_id now value)
          else lookup i (delete_invalid now p.keys))
  lookup-with_next_key i =
      lookup-insert (p.current_id + 1) i (next_key p.current_id now value)
        (delete_invalid now p.keys)

  -- generateNext makes the newest key of the provider, valid from its own clock reading on.
  with_next_key-IsProvider : IsProvider (with_next_key p now value)
  unfolding add
  with_next_key-IsProvider = record {
    newest = next_key p.current_id now value;
    found = rw (lookup-with_next_key, ==_self (p.current_id + 1));
    named = refl;
    from = refl;
    until = refl;
    bounded = Below-insert p.current_id _ _ (Below-delete_invalid now p.current_id p.keys b);
  }

  with_next_key-keeps :
      (i : ℕ) (k : Key)
      → lookup i p.keys ≡ some k
      → is_valid_at k now ≡ true
      → lookup i (with_next_key p now value).keys ≡ some k
  with_next_key-keeps i k e v =
      let old : i ≤ p.current_id = lookup-above i p.current_id k p.keys b e in
      rw (lookup-with_next_key, ==_false (p.current_id + 1) i (λ q. omega arith))
        (lookup-delete_invalid now i k p.keys e v)

-- What a call of Current did: made a key, or found the newest one good enough.
refreshed-inv :
    (p : Provider) (now now' : Time) (random : Option (List ℕ)) (q : Provider)
    → refreshed p now now' random ≡ some q
    → ((value : List ℕ) × (with_next_key p now' value ≡ q))
      ⊎ ((p ≡ q)
          × (is_valid_at (lookup_or_zero p.current_id p.keys) now ≡ true)
          × (now ≤ℤ p.generated_at +ℤ key_renewal_interval))
unfolding refreshed
refreshed-inv p now now' random q e = elim (Bool-cases (is_due p now)) [
  | inl due ↦ inl (generate_next-inv p now' random q (rw due at e))
  | inr good ↦ inr (ground arith, unfold is_due in ground arith, unfold is_due add in ground arith)
]

current-inv :
    (p : Provider) (now now' : Time) (random : Option (List ℕ)) (q : Provider) (k : Key)
    → current p now now' random ≡ some (q, k)
    → (refreshed p now now' random ≡ some q) × (lookup_or_zero q.current_id q.keys ≡ k)
unfolding current
current-inv p now now' random q k e = elim (Option-cases (refreshed p now now' random)) [
  | inl n ↦ absurd (cc (rw n at e))
  | inr (q', s) ↦
      let pair : ◌≡◌ {A = Option (Provider × Key)} (some (q', lookup_or_zero q'.current_id q'.keys))
          (some (q, k)) =
        rw s at e in
      let same : q' ≡ q = cc pair in (rw (← same) s, rw (← same) (cc pair))
]

-- At the times from NotBefore to NotAfter a key is valid.
is_valid_at_iff :
    (k : Key) (t : Time) → (is_valid_at k t ≡ true) ↔ ((k.not_before ≤ℤ t) × (t ≤ℤ k.not_after))
unfolding is_valid_at
is_valid_at_iff k t = ground arith

lookup_or_zero-found : (i : ℕ) (m : KeyMap) (k : Key) → lookup i m ≡ some k → lookup_or_zero i m ≡ k
unfolding lookup_or_zero
lookup_or_zero-found i m k e = rw (e, lookup_or_zero)

lasts :
    (q : Provider) (w : IsProvider q) (now now' : Time) (k : Key)
    → lookup_or_zero q.current_id q.keys ≡ k
    → q.generated_at ≤ℤ now'
    → now ≤ℤ q.generated_at +ℤ key_renewal_interval
    → (lookup k.id q.keys ≡ some k)
      × (k.not_before ≤ℤ now')
      × (now +ℤ pos (2 * 86400 * 10 ^ 9) ≤ℤ k.not_after)
lasts q w now now' k e h young =
    let same : w.newest ≡ k = sym (lookup_or_zero-found _ _ _ w.found) ∙ e in
    rw (← same) (
      subst (λ (i : ℕ). lookup i q.keys ≡ some w.newest) (sym w.named) w.found,
      rw w.from h,
      rw w.until (omega (int_laws, +ℤ_parts q.generated_at key_renewal_interval)),
    )

-- From a well-formed provider, and with a clock that does not run backwards between the two
-- readings, Current gives back a well-formed provider and a key that it holds, which is valid from
-- then on for at least two days more.
pub current_lasts :
    (p : Provider) (now now' : Time) (random : Option (List ℕ)) (q : Provider) (k : Key)
    → IsProvider p
    → now ≤ℤ now'
    → current p now now' random ≡ some (q, k)
    → IsProvider q
      × (lookup k.id q.keys ≡ some k)
      × (k.not_before ≤ℤ now')
      × (now +ℤ pos (2 * 86400 * 10 ^ 9) ≤ℤ k.not_after)
current_lasts p now now' random q k v h e =
    let (again, key) = current-inv p now now' random q k e in
    elim (refreshed-inv p now now' random q again) [
      | inl (value, made) ↦
          let w : IsProvider q = rw made at (with_next_key-IsProvider p now' value v.bounded) in
          let at : q.generated_at ≡ now' = rw (← made) in
          let l = lasts q w now now' k key (rw at (omega arith)) (rw at (omega int_laws)) in
          (w, l.0, l.1, l.2)
      | inr (same, good, young) ↦
          let w : IsProvider q = rw same at v in
          let valid =
            (is_valid_at_iff v.newest now).0 (rw (lookup_or_zero-found _ _ _ v.found) at good) in
          let begun : p.generated_at ≤ℤ now' = omega (arith, rw v.from at valid.0) in
          let l = lasts q w now now' k key (rw same at begun) (rw same at young) in
          (w, l.0, l.1, l.2)
    ]

-- As long as a key is valid at the clock readings of generateNext, later calls of Current keep it.
pub current_keeps :
    (p : Provider) (now now' : Time) (random : Option (List ℕ)) (q : Provider) (k : Key) (i : ℕ)
    (l : Key)
    → IsProvider p
    → current p now now' random ≡ some (q, k)
    → lookup i p.keys ≡ some l
    → l.not_before ≤ℤ now'
    → now' ≤ℤ l.not_after
    → IsProvider q × (lookup i q.keys ≡ some l)
current_keeps p now now' random q k i l v e f a b =
    elim (refreshed-inv p now now' random q (current-inv p now now' random q k e).0) [
      | inl (value, made) ↦ rw (← made) (
        with_next_key-IsProvider p now' value v.bounded,
        with_next_key-keeps p now' value v.bounded i l f ((is_valid_at_iff l now').1 (a, b)),
      )
      | inr (same, good, young) ↦ rw (← same) (v, f)
    ]

-- What calls of Current make of a provider while the clock readings of generateNext lie within the
-- validity of the key `l`.
pub data Serves (l : Key) (p : Provider) : Provider → Type 0 where
  idle : Serves l p p
  serve :
      {q r : Provider} (now now' : Time) (random : Option (List ℕ)) (k : Key)
      → Serves l p q
      → l.not_before ≤ℤ now'
      → now' ≤ℤ l.not_after
      → current q now now' random ≡ some (r, k)
      → Serves l p r

Serves-keeps :
    (l : Key) (i : ℕ) {p q : Provider}
    → IsProvider p
    → lookup i p.keys ≡ some l
    → Serves l p q
    → IsProvider q × (lookup i q.keys ≡ some l)
Serves-keeps l i v f idle = (v, f)
Serves-keeps l i v f (serve now now' random k s a b e) =
    let (w, g) = Serves-keeps l i v f s in current_keeps _ now now' random _ k i l w e g a b

get-found :
    (p : Provider) (i : ℕ) (t : Time) (k : Key)
    → lookup i p.keys ≡ some k
    → is_valid_at k t ≡ true
    → get p i t ≡ some k
unfolding get
get-found p i t k e v = rw (e, get) (rw v)

-- A key that Current returned is what Get returns for its identifier at every time within its
-- validity, whatever calls of Current come between, as long as their clocks read times within it
-- too: no cookie is made under a key that is given up before it expires.
pub get-current :
    (p : Provider) (now now' : Time) (random : Option (List ℕ)) (q r : Provider) (k : Key)
    (t : Time)
    → IsProvider p
    → now ≤ℤ now'
    → current p now now' random ≡ some (q, k)
    → Serves k q r
    → k.not_before ≤ℤ t
    → t ≤ℤ k.not_after
    → get r k.id t ≡ some k
get-current p now now' random q r k t v h e s a b =
    let (w, f, _, _) = current_lasts p now now' random q k v h e in
    let (_, g) = Serves-keeps k k.id w f s in
    get-found r k.id t k g ((is_valid_at_iff k t).1 (a, b))
