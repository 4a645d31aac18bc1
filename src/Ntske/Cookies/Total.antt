-- ===== src/Ntske/Cookies/Total.antt =====
-- How the Decode methods of net/ntske/cookies.go end: always, and on some inputs with a panic.
use scion_time.Base.Run.{panic, out_of_fuel, >>=-ne-out_of_fuel, checked-ne-out_of_fuel}
use scion_time.Base.{
  List, [], arith, drop, inl, inr, leb, length, length-drop, suc, zero, ℕ, ◌+◌, ◌∷◌, ◌≢◌, ◌≤◌,
  Bool-cases, Option, refl, some, ◌<◌, ◌≡◌,
}
use scion_time.Base.Bytes.{uint16?}
use scion_time.Ntske.Cookies.{
  Found, decode_field, decode_loop, all_found, decode_encrypted_server_cookie, decode_server_cookie,
  nothing,
}

module _ (t1 t2 t3 : ℕ) where
  decode_field-ne-out_of_fuel :
      (t len : ℕ) (rest : List ℕ) (st : Found) → decode_field t1 t2 t3 t len rest st ≢ out_of_fuel
  unfolding decode_field
  decode_field-ne-out_of_fuel t len rest st = ground arith

  -- What is left of the slice falls by four bytes at least in a round.
  decode_loop-ne-out_of_fuel :
      (fuel : ℕ) (rest : List ℕ) (st : Found)
      → length rest ≤ fuel
      → decode_loop t1 t2 t3 fuel rest st ≢ out_of_fuel
  unfolding decode_loop
  decode_loop-ne-out_of_fuel fuel [] st h = λ e. cc
  decode_loop-ne-out_of_fuel zero (x ∷ r) st h = absurd (omega arith)
  decode_loop-ne-out_of_fuel (suc fuel) (x ∷ r) st h =
      >>=-ne-out_of_fuel _ _ (checked-ne-out_of_fuel (uint16? (x ∷ r) 0)) λ t.
        >>=-ne-out_of_fuel _ _ (checked-ne-out_of_fuel (uint16? (x ∷ r) 2)) λ len.
          >>=-ne-out_of_fuel _ _ (decode_field-ne-out_of_fuel t len (x ∷ r) st) λ st'.
            elim (Bool-cases (leb (4 + len) (length (x ∷ r)))) [
              | inl e ↦ rw e (
                  decode_loop-ne-out_of_fuel fuel (drop (4 + len) (x ∷ r)) st'
                    (omega (arith, length-drop (4 + len) (x ∷ r))))
              | inr e ↦ rw e (λ p. cc)
            ]

all_found-ne-out_of_fuel :
    {C : Type 0} (make : ℕ → List ℕ → List ℕ → C) (n : Option ℕ) (a c : Option (List ℕ))
    → all_found make n a c ≢ out_of_fuel
unfolding all_found
all_found-ne-out_of_fuel make (some n) (some a) (some c) = λ p. cc
all_found-ne-out_of_fuel make _ _ _ = λ p. cc

-- Both decoders end on every slice: their loops take at most as many rounds as there are bytes.
pub decode_cookies-ne-out_of_fuel :
    (b : List ℕ)
    → (decode_server_cookie b ≢ out_of_fuel) × (decode_encrypted_server_cookie b ≢ out_of_fuel)
unfolding decode_server_cookie decode_encrypted_server_cookie
decode_cookies-ne-out_of_fuel b = (
  >>=-ne-out_of_fuel _ _ (decode_loop-ne-out_of_fuel _ _ _ (length b) b nothing (omega arith))
      (λ st. all_found-ne-out_of_fuel _ st.number st.first st.second),
  >>=-ne-out_of_fuel _ _ (decode_loop-ne-out_of_fuel _ _ _ (length b) b nothing (omega arith))
      (λ st. all_found-ne-out_of_fuel _ st.number st.first st.second),
)

decode_loop-short :
    (t1 t2 t3 fuel x : ℕ) (r : List ℕ) (st : Found)
    → length r < 3
    → decode_loop t1 t2 t3 (suc fuel) (x ∷ r) st ≡ panic
unfolding decode_loop uint16?
decode_loop-short t1 t2 t3 fuel x [] st h = refl
decode_loop-short t1 t2 t3 fuel x (y ∷ []) st h = refl
decode_loop-short t1 t2 t3 fuel x (y ∷ z ∷ []) st h = refl
decode_loop-short t1 t2 t3 fuel x (y ∷ z ∷ w ∷ r) st h = absurd (omega arith)

-- Both decoders panic on every slice of one to three bytes, which cannot hold the header of a
-- field, instead of returning errUnexpectedCookieData.
pub decode_cookies-short :
    (b : List ℕ)
    → 0 < length b
    → length b < 4
    → (decode_server_cookie b ≡ panic) × (decode_encrypted_server_cookie b ≡ panic)
unfolding decode_server_cookie decode_encrypted_server_cookie
decode_cookies-short [] h k = absurd (omega arith)
decode_cookies-short (x ∷ r) h k = (
  rw (decode_loop-short 0x101 0x201 0x301 (length r) x r nothing (omega arith)),
  rw (decode_loop-short 0x401 0x501 0x601 (length r) x r nothing (omega arith)),
)
