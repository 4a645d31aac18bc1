-- ===== src/Ntske/Sealed.antt =====
-- net/ntske/cookies.go: EncryptWithNonce and Decrypt, and core/server/ntske.go, which hands out eight
-- cookies with newNTSKEMsg.
pub mod Opens
use scion_time.Ntske.Cookies.{
  ServerCookie, CookieError, EncryptedServerCookie, decode_server_cookie,
  encode_encrypted_server_cookie, encode_server_cookie,
}
use scion_time.Ntske.Records.{
  Data, Record, next_proto, algorithm, server, port, cookie, end_of_message,
}
use scion_time.Ntske.Provider.{Key}
use scion_time.Base.Run.{Run, ok, err, panic, out_of_fuel, ◌>>=◌, or_err}
use scion_time.Base.{
  List, Option, [], false, if◌then◌else◌, length, map, ℕ, ◌%◌, ◌++◌, ◌==◌, ◌^◌, ◌∷◌,
}
use scion_time.Base.Int.{bits}
use scion_time.Nts.Aead.{Aead}

pub data SealError : Type 0 where
  -- of rand.Read, miscreant.NewAEAD and Open
  no_random bad_key not_authentic : SealError
  not_a_cookie : CookieError → SealError
  no_cookie : SealError

-- The errors of Decode pass on.
abbrev pub decoded_cookie : {A : Type 0} → Run CookieError A → Run SealError A
decoded_cookie (ok c) = ok c
decoded_cookie (err e) = err (not_a_cookie e)
decoded_cookie panic = panic
decoded_cookie out_of_fuel = out_of_fuel

-- EncryptWithNonce; `random` is the result of rand.Read.
unfoldable pub encrypt_with_nonce :
    Aead → Option (List ℕ) → ServerCookie → List ℕ → ℕ → Run SealError EncryptedServerCookie
encrypt_with_nonce aead random c key key_id = do
  bits ← or_err no_random random
  if aead.accepts_key key
      then ok (record {
        id = key_id % 2 ^ 16;
        nonce = bits;
        ciphertext = aead.seal key bits (encode_server_cookie c) [];
      })
      else err bad_key

unfoldable pub decrypt : Aead → EncryptedServerCookie → List ℕ → Run SealError ServerCookie
decrypt aead c key =
    if aead.accepts_key key
    then (do
      b ← or_err not_authentic (aead.unseal key c.nonce c.ciphertext [])
      decoded_cookie (decode_server_cookie b))
    else err bad_key

-- The loop that encrypts the same cookie for each of the results of rand.Read, and goes on after an
-- error.
unfoldable pub encrypt_each :
    Aead → ServerCookie → List ℕ → ℕ → List (Option (List ℕ)) → List (List ℕ)
encrypt_each aead c key key_id [] = []
encrypt_each aead c key key_id (r ∷ rs) =
    let rest = encrypt_each aead c key key_id rs in
    elim (encrypt_with_nonce aead r c key key_id) [
      | ok e ↦ encode_encrypted_server_cookie e ∷ rest
      | _ ↦ rest
    ]

abbrev pub aes_siv_cmac_256 : ℕ
aes_siv_cmac_256 = 15

-- newNTSKEMsg, with the server's address and port, the keys of the connection, the provider's
-- current key and the eight results of rand.Read.
unfoldable pub new_ntske_msg :
    Aead → List ℕ → ℕ → Data → Key → List (Option (List ℕ)) → Run SealError (List Record)
new_ntske_msg aead ip local_port data_ key randoms =
    let plaintext : ServerCookie = record {
      algo = aes_siv_cmac_256;
      s2c = data_.s2c_key;
      c2s = data_.c2s_key;
    } in
    let cookies = encrypt_each aead plaintext key.value key.id randoms in
    if length cookies == 0
    then err no_cookie
    else ok (
        next_proto 0
        ∷ algorithm (aes_siv_cmac_256 ∷ [])
        ∷ server ip false
        ∷ port (local_port % 2 ^ 16) false
        ∷ (map cookie cookies ++ (end_of_message ∷ [])))
