-- ===== src/Ntske/Cookies/RoundTrip.antt =====
-- A cookie of net/ntske/cookies.go is decoded from its encoding.
use scion_time.Base.Run.{ok}
use scion_time.Base.{
  ==_false, ==_self, List, [], ap, arith, drop, length, length-append, le→leb, refl, some, suc, ℕ,
  ◌%◌, ◌++◌, ◌+◌, ◌/◌, ◌<◌, ◌^◌, ◌∙◌, ◌∷◌, ◌≡◌, ◌≢◌, ◌≤◌,
}
use scion_time.Base.Bytes.{
  drop-header, put16, slice?-header, uint16?, uint16?-put16, uint16?-put16_behind_four,
  uint16?-put16_behind_two,
}
use scion_time.Ntske.Cookies.{
  EncryptedServerCookie, Found, ServerCookie, all_found, decode_encrypted_server_cookie,
  decode_field, decode_loop, decode_server_cookie, encode_encrypted_server_cookie,
  encode_server_cookie, nothing, put_field,
}

module _ (t1 t2 t3 : ℕ) where
  decode_loop_step :
      (fuel t len x : ℕ) (r : List ℕ) (st st' : Found)
      → uint16? (x ∷ r) 0 ≡ some t
      → uint16? (x ∷ r) 2 ≡ some len
      → decode_field t1 t2 t3 t len (x ∷ r) st ≡ ok st'
      → 4 + len ≤ length (x ∷ r)
      → decode_loop t1 t2 t3 (suc fuel) (x ∷ r) st
        ≡ decode_loop t1 t2 t3 fuel (drop (4 + len) (x ∷ r)) st'
  unfolding decode_loop
  decode_loop_step fuel t len x r st st' e0 e2 ef h =
      rw (e0, e2, ef, le→leb (4 + len) (length (x ∷ r)) h)

  -- One round of the loop, over a field with the type `t` and the value `xs`.
  decode_loop-field :
      (fuel t : ℕ) (xs r : List ℕ) (st st' : Found)
      → t < 2 ^ 16
      → length xs < 2 ^ 16
      → decode_field t1 t2 t3 t (length xs) (put_field t xs r) st ≡ ok st'
      → decode_loop t1 t2 t3 (suc fuel) (put_field t xs r) st ≡ decode_loop t1 t2 t3 fuel r st'
  decode_loop-field fuel t xs r st st' ht hl e =
      let size : length xs % 2 ^ 16 ≡ length xs = omega arith in
      decode_loop_step fuel t (length xs) _ _ st st' (uint16?-put16 t ht _)
        (uint16?-put16_behind_two (length xs % 2 ^ 16) (omega arith) (xs ++ r) _ _ ∙ ap some size) e
        (omega (arith, length-append xs r))
      ∙ ap (λ (q : List ℕ). decode_loop t1 t2 t3 fuel q st') (drop-header _ _ _ _ xs r)

  field_number :
      (v : ℕ) (r : List ℕ) (st : Found)
      → v < 2 ^ 16
      → decode_field t1 t2 t3 t1 2 (put16 t1 (put16 2 (put16 v r))) st
        ≡ ok (record st { number = some v })
  unfolding decode_field
  field_number v r st h = rw (==_self t1, uint16?-put16_behind_four v h r _ _ _ _)

  field_first :
      (xs r : List ℕ) (st : Found)
      → t2 ≢ t1
      → decode_field t1 t2 t3 t2 (length xs) (put_field t2 xs r) st
        ≡ ok (record st { first = some xs })
  unfolding decode_field
  field_first xs r st ne = rw (==_false t2 t1 ne, ==_self t2, slice?-header _ _ _ _ xs r)

  field_second :
      (xs r : List ℕ) (st : Found)
      → t3 ≢ t1
      → t3 ≢ t2
      → decode_field t1 t2 t3 t3 (length xs) (put_field t3 xs r) st
        ≡ ok (record st { second = some xs })
  unfolding decode_field
  field_second xs r st ne ne' =
      rw (==_false t3 t1 ne, ==_false t3 t2 ne', ==_self t3, slice?-header _ _ _ _ xs r)

  -- All three fields, in the order in which both Encode methods write them.
  three_fields :
      (fuel v : ℕ) (xs ys : List ℕ)
      → t1 < 2 ^ 16
      → t2 < 2 ^ 16
      → t3 < 2 ^ 16
      → t2 ≢ t1
      → t3 ≢ t1
      → t3 ≢ t2
      → v < 2 ^ 16
      → length xs < 2 ^ 16
      → length ys < 2 ^ 16
      → decode_loop t1 t2 t3
          (suc (suc (suc fuel)))
          (put16 t1 (put16 2 (put16 v (put_field t2 xs (put_field t3 ys [])))))
          nothing
        ≡ ok (record { number = some v; first = some xs; second = some ys })
  three_fields fuel v xs ys h1 h2 h3 n1 n2 n3 hv hx hy =
      decode_loop-field (suc (suc fuel)) t1 (v / 2 ^ 8 % 256 ∷ v % 256 ∷ []) _ _ _ h1 (omega arith)
        (field_number v _ _ hv)
      ∙ decode_loop-field (suc fuel) t2 xs _ _ _ h2 hx (field_first xs _ _ n1)
      ∙ decode_loop-field fuel t3 ys _ _ _ h3 hy (field_second ys _ _ n2 n3)
      ∙ done
    where
      done :
          decode_loop t1 t2 t3 fuel []
            (record { number = some v; first = some xs; second = some ys })
          ≡ ok (record { number = some v; first = some xs; second = some ys })
      done = unfold decode_loop in refl

-- A server cookie whose keys have less than 2^16 bytes is decoded from its encoding.
pub decode_server_cookie-encode_server_cookie :
    (c : ServerCookie)
    → c.algo < 2 ^ 16
    → length c.s2c < 2 ^ 16
    → length c.c2s < 2 ^ 16
    → decode_server_cookie (encode_server_cookie c) ≡ ok c
unfolding decode_server_cookie encode_server_cookie all_found
decode_server_cookie-encode_server_cookie c h1 h2 h3 = rw (
    three_fields 0x101 0x201 0x301 _ c.algo c.s2c c.c2s (omega arith) (omega arith) (omega arith)
      (omega arith) (omega arith) (omega arith) h1 h2 h3)

-- An encrypted server cookie whose nonce and ciphertext have less than 2^16 bytes is decoded from
-- its encoding.
pub decode_encrypted_server_cookie-encode_encrypted_server_cookie :
    (c : EncryptedServerCookie)
    → c.id < 2 ^ 16
    → length c.nonce < 2 ^ 16
    → length c.ciphertext < 2 ^ 16
    → decode_encrypted_server_cookie (encode_encrypted_server_cookie c) ≡ ok c
unfolding decode_encrypted_server_cookie encode_encrypted_server_cookie all_found
decode_encrypted_server_cookie-encode_encrypted_server_cookie c h1 h2 h3 = rw (
    three_fields 0x401 0x501 0x601 _ c.id c.nonce c.ciphertext (omega arith) (omega arith)
      (omega arith) (omega arith) (omega arith) (omega arith) h1 h2 h3)
