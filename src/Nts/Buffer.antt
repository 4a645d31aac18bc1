-- ===== src/Nts/Buffer.antt =====
-- Writing into a slice of fixed length from its front, as the pack methods of net/nts/nts.go do: the
-- bytes written so far are `buf[:pos]`, and the slice has `limit` bytes.
use scion_time.Base.{
  List, [], ap, arith, if◌then◌else◌, leb, length, le→leb, refl, replicate, suc, take, zero, ℕ,
  ◌++◌, ◌+◌, ◌-◌, ◌∷◌, ◌≡◌, ◌≤◌,
}
use scion_time.Base.Bytes.{put16}
use scion_time.Base.Run.{Run, ok, panic}

-- binary.BigEndian.PutUint16(buf[pos:], x); a write out of range panics.
unfoldable pub write16 : {E : Type 0} → ℕ → ℕ → List ℕ → Run E (List ℕ)
write16 limit x buf = if leb (length buf + 2) limit then ok (buf ++ put16 x []) else panic

-- n := copy(buf[pos:], src); pos += n
unfoldable pub copy_in : ℕ → List ℕ → List ℕ → List ℕ
copy_in limit src buf = buf ++ take (limit - length buf) src

-- make([]byte, n) followed by copy(·, src)
unfoldable pub filled : ℕ → List ℕ → List ℕ
filled n src = take n src ++ replicate (n - length src) 0

pub write16-ok :
    {E : Type 0} (limit x : ℕ) (buf : List ℕ)
    → length buf + 2 ≤ limit
    → ◌≡◌ {A = Run E (List ℕ)} (write16 limit x buf) (ok (buf ++ put16 x []))
unfolding write16
write16-ok limit x buf h = rw (le→leb _ _ h)

pub take-all : (n : ℕ) (xs : List ℕ) → length xs ≤ n → take n xs ≡ xs
take-all zero [] h = refl
take-all zero (x ∷ xs) h = absurd (omega arith)
take-all (suc n) [] h = refl
take-all (suc n) (x ∷ xs) h = ap (λ (r : List ℕ). x ∷ r) (take-all n xs (omega arith))

pub copy_in-fits :
    (limit : ℕ) (src buf : List ℕ)
    → length buf + length src ≤ limit
    → copy_in limit src buf ≡ buf ++ src
unfolding copy_in
copy_in-fits limit src buf h = rw (take-all (limit - length buf) src (omega arith))
