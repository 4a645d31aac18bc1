-- ===== src/Ntske/Cookies.antt =====
-- net/ntske/cookies.go: Encode and Decode of the plain and the encrypted server cookie.
pub mod RoundTrip
pub mod Total
use scion_time.Base.Run.{Run, ok, err, panic, out_of_fuel, checked, ◌>>=◌}
use scion_time.Base.{
  List, Option, [], drop, false, if◌then◌else◌, leb, length, none, some, suc, true, zero, ℕ, ◌%◌,
  ◌++◌, ◌+◌, ◌==◌, ◌^◌, ◌∷◌,
}
use scion_time.Base.Bytes.{put16, slice?, uint16?}

abbrev pub cookie_type_algorithm : ℕ
cookie_type_algorithm = 0x101

abbrev pub cookie_type_key_s2c : ℕ
cookie_type_key_s2c = 0x201

abbrev pub cookie_type_key_c2s : ℕ
cookie_type_key_c2s = 0x301

abbrev pub cookie_type_key_id : ℕ
cookie_type_key_id = 0x401

abbrev pub cookie_type_nonce : ℕ
cookie_type_nonce = 0x501

abbrev pub cookie_type_ciphertext : ℕ
cookie_type_ciphertext = 0x601

pub data CookieError : Type 0 where
  unexpected_cookie_data : CookieError

pub record ServerCookie : Type 0 where
  pub algo : ℕ
  pub s2c : List ℕ
  pub c2s : List ℕ

pub record EncryptedServerCookie : Type 0 where
  pub id : ℕ
  pub nonce : List ℕ
  pub ciphertext : List ℕ

-- A field of the cookie: type, length and value.
abbrev put_field : ℕ → List ℕ → List ℕ → List ℕ
put_field t value r = put16 t (put16 (length value % 2 ^ 16) (value ++ r))

unfoldable pub encode_server_cookie : ServerCookie → List ℕ
encode_server_cookie c = put16 cookie_type_algorithm (
    put16 2
      (put16 c.algo (put_field cookie_type_key_s2c c.s2c (put_field cookie_type_key_c2s c.c2s []))))

unfoldable pub encode_encrypted_server_cookie : EncryptedServerCookie → List ℕ
encode_encrypted_server_cookie c = put16 cookie_type_key_id (
    put16 2 (
      put16 c.id
        (put_field cookie_type_nonce c.nonce (put_field cookie_type_ciphertext c.ciphertext []))))

-- The fields found so far: a number and two byte strings, in both kinds of cookie.
pub record Found : Type 0 where
  pub number : Option ℕ
  pub first : Option (List ℕ)
  pub second : Option (List ℕ)

abbrev pub nothing : Found
nothing = record { number = none; first = none; second = none }

-- The loops of the two Decode methods differ in the three types of field that they look for.
module _ (number_type first_type second_type : ℕ) where
  -- One field, of the type `t` and the length `len`, at the front of `rest`, which is `b[pos:]`.
  unfoldable pub decode_field : ℕ → ℕ → List ℕ → Found → Run CookieError Found
  decode_field t len rest st =
      if t == number_type
      then (do v ← checked (uint16? rest 4); ok (record st { number = some v }))
      else if t == first_type
      then (do v ← checked (slice? rest 4 (4 + len)); ok (record st { first = some v }))
      else if t == second_type
      then (do v ← checked (slice? rest 4 (4 + len)); ok (record st { second = some v }))
      else ok st

  -- From `b[pos:]` on; a field that ends behind `b` ends the loop with `pos != len(b)`.
  unfoldable pub decode_loop : ℕ → List ℕ → Found → Run CookieError Found
  decode_loop fuel [] st = ok st
  decode_loop zero (x ∷ r) st = out_of_fuel
  decode_loop (suc fuel) (x ∷ r) st =
      let rest = x ∷ r in
      do
        t ← checked (uint16? rest 0)
        len ← checked (uint16? rest 2)
        st' ← decode_field t len rest st
        elim (leb (4 + len) (length rest)) [
          | true ↦ decode_loop fuel (drop (4 + len) rest) st'
          | false ↦ err unexpected_cookie_data
        ]

-- The check that all three fields were found.
unfoldable pub all_found :
    {C : Type 0}
    → (ℕ → List ℕ → List ℕ → C)
    → Option ℕ
    → Option (List ℕ)
    → Option (List ℕ)
    → Run CookieError C
all_found make (some n) (some a) (some c) = ok (make n a c)
all_found make _ _ _ = err unexpected_cookie_data

-- Each field takes four bytes at least, so `length b` rounds are enough.
unfoldable pub decode_server_cookie : List ℕ → Run CookieError ServerCookie
decode_server_cookie b = do
  st ←
      decode_loop cookie_type_algorithm cookie_type_key_s2c cookie_type_key_c2s (length b) b nothing
  all_found (λ n a c. record { algo = n; s2c = a; c2s = c }) st.number st.first st.second

unfoldable pub decode_encrypted_server_cookie : List ℕ → Run CookieError EncryptedServerCookie
decode_encrypted_server_cookie b = do
  st ← decode_loop cookie_type_key_id cookie_type_nonce cookie_type_ciphertext (length b) b nothing
  all_found (λ n a c. record { id = n; nonce = a; ciphertext = c }) st.number st.first st.second
