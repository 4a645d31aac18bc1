-- ===== src/Ntske/Records/RoundTrip.antt =====
-- ReadData of net/ntske/ntske.go ends, and reads back what ExchangeMsg.Pack packed.
use scion_time.Base.{
  List, [], arith, length, length-append, le→leb, refl, some, ℕ, ◌++◌, ◌<◌, ◌^◌, ◌∷◌, ◌≡◌, ◌≤◌,
  Bool, false, if◌then◌else◌, ltb, not, suc, true, ◌%◌, ◌+◌, All, ◌&&◌, ◌-◌, ◌==◌, ◌∙◌, ap,
}
use scion_time.Base.Bytes.{drop-append, take-append, put16_lem, at16, put16, join16}
use scion_time.Ntske.Records.{
  Data, Record, algorithm, cookie, end_of_message, error, next_proto, port, read_exact, server,
  warning, critical_bit, pack_header, read_body, read_step, continue, done, pack, pack_record,
  pack_simple, read_cookie, read_data,
}
use native.Mathlib.Nat.{mod-eq_of_lt}
use scion_time.Base.Run.{ok}
use Prim.Native.Nat.{min}
use mathlib.Core.List.{append-nil}

-- A record that takes part in an exchange: its values fit their fields, and it offers one
-- algorithm. Warnings and errors end the reading.
abbrev pub IsReadable : Record → Type 0
IsReadable (next_proto n) = n < 2 ^ 16
IsReadable end_of_message = ⊥
IsReadable (server addr c) = length addr < 2 ^ 16
IsReadable (port p c) = p < 2 ^ 16
IsReadable (cookie c) = length c < 2 ^ 16
IsReadable (warning code) = ⊥
IsReadable (error code) = ⊥
IsReadable (algorithm []) = ⊥
IsReadable (algorithm (a ∷ [])) = a < 2 ^ 16
IsReadable (algorithm (a ∷ b ∷ more)) = ⊥

-- What such a record says.
abbrev pub told : Data → Record → Data
told d (next_proto n) = d
told d end_of_message = d
told d (server addr c) = record d { server = addr }
told d (port p c) = record d { port = p }
told d (cookie c) = record d { cookie = d.cookie ++ (c ∷ []) }
told d (warning code) = d
told d (error code) = d
told d (algorithm []) = d
told d (algorithm (a ∷ more)) = record d { algo = a }

abbrev pub all_told : Data → List Record → Data
all_told d [] = d
all_told d (r ∷ rs) = all_told (told d r) rs

-- The one call of bufio.Reader.Read for a cookie delivers it whole, where `rest` follows the record. That
-- is a condition on how the bytes arrive, since Read may deliver fewer than it is asked for.
abbrev pub ArrivesWhole : (ℕ → List ℕ → ℕ) → Record → List ℕ → Type 0
ArrivesWhole short (next_proto n) rest = Unit
ArrivesWhole short end_of_message rest = Unit
ArrivesWhole short (server addr c) rest = Unit
ArrivesWhole short (port p c) rest = Unit
ArrivesWhole short (cookie c) rest = length c ≤ short (length c) (c ++ rest)
ArrivesWhole short (warning code) rest = Unit
ArrivesWhole short (error code) rest = Unit
ArrivesWhole short (algorithm algo) rest = Unit

-- Each cookie of a message is delivered whole.
abbrev pub CookiesArrive : (ℕ → List ℕ → ℕ) → List Record → List ℕ → Type 0
CookiesArrive short [] rest = Unit
CookiesArrive short (r ∷ rs) rest =
    ArrivesWhole short r (pack rs rest) × CookiesArrive short rs rest

-- Reads that deliver what they are asked for.
ArrivesWhole-full : (r : Record) (rest : List ℕ) → ArrivesWhole (λ n b. n) r rest
ArrivesWhole-full (next_proto n) rest = tt
ArrivesWhole-full end_of_message rest = tt
ArrivesWhole-full (server addr c) rest = tt
ArrivesWhole-full (port p c) rest = tt
ArrivesWhole-full (cookie c) rest = omega arith
ArrivesWhole-full (warning code) rest = tt
ArrivesWhole-full (error code) rest = tt
ArrivesWhole-full (algorithm algo) rest = tt

pub CookiesArrive-full : (rs : List Record) (rest : List ℕ) → CookiesArrive (λ n b. n) rs rest
CookiesArrive-full [] rest = tt
CookiesArrive-full (r ∷ rs) rest = (ArrivesWhole-full r (pack rs rest), CookiesArrive-full rs rest)

read_exact-append : (a b : List ℕ) → read_exact (length a) (a ++ b) ≡ some (a, b)
read_exact-append a b =
    rw
      (
        le→leb (length a) (length (a ++ b)) (omega (arith, length-append a b)),
        take-append a b,
        drop-append a b,
      )
      refl

-- The header's fields, read back.
critical_lem :
    (t : ℕ) (c : Bool)
    → t < 2 ^ 15
    → ((if c then t + critical_bit else t) < 2 ^ 16)
      × ((if c then t + critical_bit else t) % critical_bit ≡ t)
      × (not (ltb (if c then t + critical_bit else t) critical_bit) ≡ c)
critical_lem t true h = (omega arith, omega arith, ground arith)
critical_lem t false h = (omega arith, omega arith, ground arith)

read_step_four :
    (short : ℕ → List ℕ → ℕ) (d : Data) (w x y z : ℕ) (rest : List ℕ)
    → read_step short d (w ∷ x ∷ y ∷ z ∷ rest)
      ≡ read_body short
          (join16 w x % critical_bit)
          (not (ltb (join16 w x) critical_bit))
          (join16 y z)
          d
          rest
unfolding read_step
read_step_four short d w x y z rest =
    rw (read_step, le→leb 4 (suc (suc (suc (suc (length rest))))) (omega arith)) refl

read_step-pack_header :
    (t : ℕ) (c : Bool) (n : ℕ) (short : ℕ → List ℕ → ℕ) (d : Data) (rest : List ℕ)
    → t < 2 ^ 15
    → n < 2 ^ 16
    → read_step short d (pack_header t c n rest) ≡ read_body short t c n d rest
unfolding read_step pack_header
read_step-pack_header t c n short d rest ht hn =
    let (small, low, bit) = critical_lem t c ht in
    rw
      (
        read_step_four,
        put16_lem (if c then t + critical_bit else t) small,
        mod-eq_of_lt hn,
        put16_lem n hn,
        low,
        bit,
      )
      refl

uint16_read :
    (x : ℕ) (rest : List ℕ)
    → x < 2 ^ 16
    → (v : List ℕ) × (read_exact 2 (put16 x rest) ≡ some (v, rest)) × (at16 v 0 ≡ x)
uint16_read x rest h = (
  put16 x [],
  rw (le→leb 2 (suc (suc (length rest))) (omega arith)) refl,
  rw (put16_lem x h) refl,
)

module _ (short : ℕ → List ℕ → ℕ) where
  read_cookie-append :
      (c rest : List ℕ)
      → length c ≤ short (length c) (c ++ rest)
      → read_cookie short (length c) (c ++ rest) ≡ some (c, rest)
  unfolding read_cookie
  read_cookie-append c rest whole =
      let size = length-append c rest in
      let guard : (ltb 0 (length c) && length (c ++ rest) == 0) ≡ false = ground arith in
      let all : min (length c) (short (length c) (c ++ rest)) ≡ length c = omega (arith, whole) in
      let none_left : length c - length c ≡ 0 = omega arith in
      rw (read_cookie, guard, all, take-append c rest, drop-append c rest, none_left)
        (ap (λ (x : List ℕ). some (x, rest)) (append-nil c))

  -- A readable record is read back by one run of the loop.
  read_step-pack_record :
      (d : Data) (r : Record) (rest : List ℕ)
      → IsReadable r
      → ArrivesWhole short r rest
      → read_step short d (pack_record r rest) ≡ continue (told d r) rest
  unfolding pack_record pack_simple read_body
  read_step-pack_record d (next_proto n) rest h whole =
      let (v, e, f) = uint16_read n rest h in
      rw (read_step-pack_header 1 true 2 short d (put16 n rest) (omega arith) (omega arith), e) refl
  read_step-pack_record d end_of_message rest h whole = absurd h
  read_step-pack_record d (server addr c) rest h whole =
      rw
        (
          read_step-pack_header 6 c (length addr) short d (addr ++ rest) (omega arith) h,
          read_exact-append addr rest,
        )
        refl
  read_step-pack_record d (port p c) rest h whole =
      let (v, e, f) = uint16_read p rest h in
      rw (read_step-pack_header 7 c 2 short d (put16 p rest) (omega arith) (omega arith), e, f) refl
  read_step-pack_record d (cookie c) rest h whole =
      rw
        (
          read_step-pack_header 5 false (length c) short d (c ++ rest) (omega arith) h,
          read_cookie-append c rest whole,
        )
        refl
  read_step-pack_record d (warning code) rest h whole = absurd h
  read_step-pack_record d (error code) rest h whole = absurd h
  read_step-pack_record d (algorithm []) rest h whole = absurd h
  read_step-pack_record d (algorithm (a ∷ [])) rest h whole =
      let (v, e, f) = uint16_read a rest h in
      rw (read_step-pack_header 4 true 2 short d (put16 a rest) (omega arith) (omega arith), e, f)
        refl
  read_step-pack_record d (algorithm (a ∷ b ∷ more)) rest h whole = absurd h

  read_data_next :
      (n : ℕ) (d e : Data) (b r : List ℕ)
      → read_step short d b ≡ continue e r
      → read_data short (suc n) d b ≡ read_data short n e r
  unfolding read_data
  read_data_next n d e b r h = rw (read_data, h) refl

  -- What one side packs, the other reads: from a message of readable records and an end record,
  -- whatever follows, ReadData makes the data that the records tell, in as many runs of its loop
  -- as there are records, if each of the message's cookies is delivered whole by the one call of
  -- bufio.Reader.Read for it. Readable are records with fields that fit, no warning and no error, and
  -- of an algorithm record only one with a single algorithm.
  pub read_data-pack :
      (d : Data) (rs : List Record) (rest : List ℕ)
      → All IsReadable rs
      → CookiesArrive short (rs ++ (end_of_message ∷ [])) rest
      → read_data short (suc (length rs)) d (pack (rs ++ (end_of_message ∷ [])) rest)
        ≡ ok (all_told d rs)
  unfolding read_data pack
  read_data-pack d [] rest h arrive =
      let e : read_step short d (pack_record end_of_message rest) ≡ done d =
        unfold pack_record read_body in
        read_step-pack_header 0 true 0 short d rest (omega arith) (omega arith) in
      rw (read_data, e) refl
  read_data-pack d (r ∷ rs) rest h arrive =
      let e = read_step-pack_record d r (pack (rs ++ (end_of_message ∷ [])) rest) h.0 arrive.0 in
      read_data_next (suc (length rs)) d (told d r) _ _ e
      ∙ read_data-pack (told d r) rs rest h.1 arrive.1
