-- ===== src/Base/Bytes.antt =====
-- Big-endian fields of a byte slice.
use scion_time.Base.Lists.{get_or}
use Prim.Native.Nat.{ℕ, ◌+◌, ◌*◌, ◌/◌, ◌%◌, ◌^◌, ◌<◌}
use mathlib.Core.Path.{◌≡◌}
use mathlib.Core.List.{List, ◌∷◌}
use native.Mathlib.Omega.{arith}
use scion_time.Base.{
  All, [], ap, length, refl, suc, sym, take, zero, ◌∙◌, ◌≤◌, Option, drop, if◌then◌else◌, leb, none,
  some, ◌&&◌, ◌-◌, length-append, le→leb, ◌++◌,
}
use scion_time.Base.Int.{
  bits, bits8-signed, signed, Fits, bits16-lt, bits64-lt, bits8-lt, signed16-bits, signed64-bits,
  signed8-bits, ℤ,
}

-- `byte(x >> 8), byte(x)` and so on, in front of what follows.
abbrev pub put8 : ℕ → List ℕ → List ℕ
put8 x r = x % 256 ∷ r

abbrev pub put16 : ℕ → List ℕ → List ℕ
put16 x r = x / 2 ^ 8 % 256 ∷ x % 256 ∷ r

abbrev pub put32 : ℕ → List ℕ → List ℕ
put32 x r = x / 2 ^ 24 % 256 ∷ x / 2 ^ 16 % 256 ∷ x / 2 ^ 8 % 256 ∷ x % 256 ∷ r

abbrev pub put64 : ℕ → List ℕ → List ℕ
put64 x r =
    x / 2 ^ 56 % 256
    ∷ x / 2 ^ 48 % 256
    ∷ x / 2 ^ 40 % 256
    ∷ x / 2 ^ 32 % 256
    ∷ x / 2 ^ 24 % 256
    ∷ x / 2 ^ 16 % 256
    ∷ x / 2 ^ 8 % 256
    ∷ x % 256
    ∷ r

-- `b[i]`, where the code has checked the length.
abbrev pub at8 : List ℕ → ℕ → ℕ
at8 b i = get_or b i 0

-- Bytes joined by `<<` and `|`: the shifted bytes share no bit, so `|` is `+`.
unfoldable pub join16 : ℕ → ℕ → ℕ
join16 x y = x * 2 ^ 8 + y

unfoldable pub join32 : ℕ → ℕ → ℕ → ℕ → ℕ
join32 x y z w = x * 2 ^ 24 + y * 2 ^ 16 + z * 2 ^ 8 + w

unfoldable pub join64 : ℕ → ℕ → ℕ → ℕ → ℕ → ℕ → ℕ → ℕ → ℕ
join64 a b c d e f g h =
    a * 2 ^ 56 + b * 2 ^ 48 + c * 2 ^ 40 + d * 2 ^ 32 + e * 2 ^ 24 + f * 2 ^ 16 + g * 2 ^ 8 + h

abbrev pub at16 : List ℕ → ℕ → ℕ
at16 b i = join16 (at8 b i) (at8 b (i + 1))

abbrev pub at32 : List ℕ → ℕ → ℕ
at32 b i = join32 (at8 b i) (at8 b (i + 1)) (at8 b (i + 2)) (at8 b (i + 3))

abbrev pub at64 : List ℕ → ℕ → ℕ
at64 b i =
    join64 (at8 b i) (at8 b (i + 1)) (at8 b (i + 2)) (at8 b (i + 3)) (at8 b (i + 4)) (at8 b (i + 5))
      (at8 b (i + 6)) (at8 b (i + 7))

-- A field of the width of its bytes is read back.
pub put16_lem : (x : ℕ) → x < 2 ^ 16 → join16 (x / 2 ^ 8 % 256) (x % 256) ≡ x
unfolding join16
put16_lem x h = omega arith

pub put32_lem :
    (x : ℕ)
    → x < 2 ^ 32
    → join32 (x / 2 ^ 24 % 256) (x / 2 ^ 16 % 256) (x / 2 ^ 8 % 256) (x % 256) ≡ x
unfolding join32
put32_lem x h = omega arith

pub put64_lem :
    (x : ℕ)
    → x < 2 ^ 64
    → join64
        (x / 2 ^ 56 % 256)
        (x / 2 ^ 48 % 256)
        (x / 2 ^ 40 % 256)
        (x / 2 ^ 32 % 256)
        (x / 2 ^ 24 % 256)
        (x / 2 ^ 16 % 256)
        (x / 2 ^ 8 % 256)
        (x % 256)
      ≡ x
unfolding join64
put64_lem x h = omega arith

abbrev pub IsByte : ℕ → Type 0
IsByte x = x < 256

pub at8-lt : (b : List ℕ) (i : ℕ) → All IsByte b → at8 b i < 256
at8-lt [] i v = omega arith
at8-lt (x ∷ b) zero v = v.0
at8-lt (x ∷ b) (suc i) v = at8-lt b i v.1

-- The bytes `b[i]` to `b[i + n - 1]`.
abbrev pub gather : ℕ → List ℕ → ℕ → List ℕ
gather zero b i = []
gather (suc n) b i = at8 b i ∷ gather n b (i + 1)

gather-cons : (n x : ℕ) (b : List ℕ) (i : ℕ) → gather n (x ∷ b) (suc i) ≡ gather n b i
gather-cons zero x b i = refl
gather-cons (suc n) x b i =
    let e : suc i + 1 ≡ suc (i + 1) = omega arith in
    rw e (ap (λ (r : List ℕ). at8 b i ∷ r) (gather-cons n x b (i + 1)))

pub take-gather : (n : ℕ) (b : List ℕ) → n ≤ length b → take n b ≡ gather n b 0
take-gather zero b h = refl
take-gather (suc n) [] h = absurd (omega arith)
take-gather (suc n) (x ∷ b) h =
    ap (λ (r : List ℕ). x ∷ r) (take-gather n b (omega arith) ∙ sym (gather-cons n x b 0))

-- Joined bytes are written as they were.
pub put8-byte : (x : ℕ) (r : List ℕ) → x < 256 → put8 x r ≡ x ∷ r
put8-byte x r h = rw (let e : x % 256 ≡ x = omega arith in e)

pub put16-join16 : (x y : ℕ) (r : List ℕ) → x < 256 → y < 256 → put16 (join16 x y) r ≡ x ∷ y ∷ r
unfolding join16
put16-join16 x y r hx hy = ground (arith)

pub put32-join32 :
    (x y z w : ℕ) (r : List ℕ)
    → x < 256
    → y < 256
    → z < 256
    → w < 256
    → put32 (join32 x y z w) r ≡ x ∷ y ∷ z ∷ w ∷ r
unfolding join32
put32-join32 x y z w r hx hy hz hw = ground arith

pub put64-join64 :
    (a b c d e f g h : ℕ) (r : List ℕ)
    → a < 256
    → b < 256
    → c < 256
    → d < 256
    → e < 256
    → f < 256
    → g < 256
    → h < 256
    → put64 (join64 a b c d e f g h) r ≡ a ∷ b ∷ c ∷ d ∷ e ∷ f ∷ g ∷ h ∷ r
unfolding join64
put64-join64 a b c d e f g h r ha hb hc hd he hf hg hh = ground arith

-- A field of a byte slice is written as it was read, in front of a tail that is.
module _ (b : List ℕ) (v : All IsByte b) {r r' : List ℕ} (i : ℕ) (e : r ≡ r') where
  pub put8-at8 : put8 (at8 b i) r ≡ at8 b i ∷ r'
  put8-at8 = rw e (put8-byte _ r' (at8-lt b i v))

  pub put8-int8 : put8 (bits (2 ^ 8) (signed (2 ^ 7) (at8 b i))) r ≡ at8 b i ∷ r'
  put8-int8 = rw (bits8-signed _ (at8-lt b i v)) put8-at8

  pub put16-at16 : put16 (at16 b i) r ≡ at8 b i ∷ at8 b (i + 1) ∷ r'
  put16-at16 = rw e (put16-join16 _ _ r' (at8-lt b i v) (at8-lt b _ v))

  pub put32-at32 : put32 (at32 b i) r ≡ at8 b i ∷ at8 b (i + 1) ∷ at8 b (i + 2) ∷ at8 b (i + 3) ∷ r'
  put32-at32 =
      rw e (put32-join32 _ _ _ _ r' (at8-lt b i v) (at8-lt b _ v) (at8-lt b _ v) (at8-lt b _ v))

  pub put64-at64 :
      put64 (at64 b i) r
      ≡ at8 b i
        ∷ at8 b (i + 1)
        ∷ at8 b (i + 2)
        ∷ at8 b (i + 3)
        ∷ at8 b (i + 4)
        ∷ at8 b (i + 5)
        ∷ at8 b (i + 6)
        ∷ at8 b (i + 7)
        ∷ r'
  put64-at64 = rw e (
      put64-join64 _ _ _ _ _ _ _ _ r' (at8-lt b i v) (at8-lt b _ v) (at8-lt b _ v) (at8-lt b _ v)
        (at8-lt b _ v) (at8-lt b _ v) (at8-lt b _ v) (at8-lt b _ v))

-- The same for values: a value of its Go type is read back from the bytes written.
pub byte_lem : (x : ℕ) → x < 2 ^ 8 → x % 256 ≡ x
byte_lem x h = omega arith

pub int8_lem : (z : ℤ) → Fits (2 ^ 7) z → signed (2 ^ 7) (bits (2 ^ 8) z % 256) ≡ z
int8_lem z h = rw (byte_lem _ (bits8-lt z)) (signed8-bits z h)

-- What is read back of a number that was written as 8 bytes.
abbrev pub reread64 : ℕ → ℕ
reread64 x =
    join64 (x / 2 ^ 56 % 256) (x / 2 ^ 48 % 256) (x / 2 ^ 40 % 256) (x / 2 ^ 32 % 256)
      (x / 2 ^ 24 % 256) (x / 2 ^ 16 % 256) (x / 2 ^ 8 % 256) (x % 256)

abbrev pub reread16 : ℕ → ℕ
reread16 x = join16 (x / 2 ^ 8 % 256) (x % 256)

pub int64_lem : (z : ℤ) → Fits (2 ^ 63) z → signed (2 ^ 63) (reread64 (bits (2 ^ 64) z)) ≡ z
int64_lem z h = rw (put64_lem _ (bits64-lt z)) (signed64-bits z h)

pub int16_lem : (z : ℤ) → Fits (2 ^ 15) z → signed (2 ^ 15) (reread16 (bits (2 ^ 16) z)) ≡ z
int16_lem z h = rw (put16_lem _ (bits16-lt z)) (signed16-bits z h)

-- binary.BigEndian.Uint16(b[i:]) and b[i:j] on a slice whose capacity is its length; `none` is the
-- panic on an index out of range.
unfoldable pub uint16? : List ℕ → ℕ → Option ℕ
uint16? b i = if leb (i + 2) (length b) then some (at16 b i) else none

unfoldable pub slice? : List ℕ → ℕ → ℕ → Option (List ℕ)
slice? b i j = if leb i j && leb j (length b) then some (take (j - i) (drop i b)) else none

-- Big-endian numbers at the front of a slice and behind two or four bytes.
module _ (x : ℕ) (h : x < 2 ^ 16) (r : List ℕ) where
  pub uint16?-put16 : uint16? (put16 x r) 0 ≡ some x
  unfolding uint16?
  uint16?-put16 = rw (le→leb 2 (suc (suc (length r))) (omega arith)) (ap some (put16_lem x h))

  pub uint16?-put16_behind_two : (a b : ℕ) → uint16? (a ∷ b ∷ put16 x r) 2 ≡ some x
  unfolding uint16?
  uint16?-put16_behind_two a b =
      rw (le→leb 4 (suc (suc (suc (suc (length r))))) (omega arith)) (ap some (put16_lem x h))

  pub uint16?-put16_behind_four : (a b c d : ℕ) → uint16? (a ∷ b ∷ c ∷ d ∷ put16 x r) 4 ≡ some x
  unfolding uint16?
  uint16?-put16_behind_four a b c d =
      rw (le→leb 6 (suc (suc (suc (suc (suc (suc (length r))))))) (omega arith))
        (ap some (put16_lem x h))

pub take-append : (xs ys : List ℕ) → take (length xs) (xs ++ ys) ≡ xs
take-append [] ys = refl
take-append (x ∷ xs) ys = ap (λ (r : List ℕ). x ∷ r) (take-append xs ys)

pub drop-append : (xs ys : List ℕ) → drop (length xs) (xs ++ ys) ≡ ys
drop-append [] ys = refl
drop-append (x ∷ xs) ys = drop-append xs ys

-- The value behind the four bytes of a header, and what follows it.
module _ (a b c d : ℕ) (xs ys : List ℕ) where
  four : 4 + length xs ≡ suc (suc (suc (suc (length xs))))
  four = omega arith

  pub drop-header : drop (4 + length xs) (a ∷ b ∷ c ∷ d ∷ (xs ++ ys)) ≡ ys
  drop-header = rw four (drop-append xs ys)

  pub slice?-header : slice? (a ∷ b ∷ c ∷ d ∷ (xs ++ ys)) 4 (4 + length xs) ≡ some xs
  unfolding slice?
  slice?-header =
      let e : 4 + length xs - 4 ≡ length xs = omega arith in
      rw (
        le→leb 4 (4 + length xs) (omega arith),
        le→leb (4 + length xs) (suc (suc (suc (suc (length (xs ++ ys))))))
            (omega (arith, length-append xs ys)),
        e,
        take-append xs ys,
      )
