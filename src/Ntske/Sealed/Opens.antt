-- ===== src/Ntske/Sealed/Opens.antt =====
-- The cookies that the server of core/server and net/ntske makes are opened by it.
use scion_time.Base.Run.{ok}
use scion_time.Ntske.Cookies.{
  ServerCookie, EncryptedServerCookie, cookie_type_key_c2s, decode_encrypted_server_cookie,
  encode_encrypted_server_cookie, encode_server_cookie, cookie_type_ciphertext,
}
use scion_time.Ntske.Records.{
  Data, Record, next_proto, algorithm, server, port, cookie, pack, read_data, end_of_message,
}
use scion_time.Ntske.Provider.{Key}
use mathlib.Core.List.{append-nil, append_assoc}
use scion_time.Base.{
  All, List, Option, [], ap, arith, length, length-append, refl, some, suc, true, ℕ, ◌%◌, ◌++◌, ◌+◌,
  ◌<◌, ◌^◌, ◌∷◌, ◌≡◌, ==_false, false, map, ◌==◌, ◌∙◌,
}
use scion_time.Base.Bytes.{put16}
use scion_time.Base.Int.{bits}
use scion_time.Nts.Aead.{Aead}
use scion_time.Nts.Process.Fields.{size}
use scion_time.Ntske.Cookies.RoundTrip.{
  decode_encrypted_server_cookie-encode_encrypted_server_cookie,
  decode_server_cookie-encode_server_cookie,
}
use scion_time.Ntske.Sealed.{
  decrypt, encrypt_each, encrypt_with_nonce, aes_siv_cmac_256, new_ntske_msg,
}
use scion_time.Ntske.Records.RoundTrip.{CookiesArrive, IsReadable, all_told, read_data-pack}

-- A cookie whose fields fit their lengths, also once it is encrypted.
abbrev pub IsCookie : ServerCookie → Type 0
IsCookie c = (c.algo < 2 ^ 16) × (length c.s2c + length c.c2s < 2 ^ 15)

length-encode_server_cookie :
    (c : ServerCookie) → length (encode_server_cookie c) ≡ 14 + length c.s2c + length c.c2s
unfolding encode_server_cookie
length-encode_server_cookie c = omega (
  arith,
  length-append c.s2c (put16 cookie_type_key_c2s (put16 (length c.c2s % 2 ^ 16) (c.c2s ++ []))),
  length-append c.c2s [],
)

-- The server finds its key by the identifier of the cookie `b`, and opens it to `c`.
abbrev pub Opens : Aead → List ℕ → ℕ → ServerCookie → List ℕ → Type 0
Opens aead key key_id c b =
    (e : EncryptedServerCookie) × (decode_encrypted_server_cookie b ≡ ok e)
    × (e.id ≡ key_id % 2 ^ 16)
    × (decrypt aead e key ≡ ok c)

encrypt_with_nonce-Opens :
    (aead : Aead) (bits : List ℕ) (c : ServerCookie) (key : List ℕ) (key_id : ℕ)
    → aead.accepts_key key ≡ true
    → length bits ≡ 16
    → IsCookie c
    → (e : EncryptedServerCookie) × (encrypt_with_nonce aead (some bits) c key key_id ≡ ok e)
      × Opens aead key key_id c (encode_encrypted_server_cookie e)
      × (length (encode_encrypted_server_cookie e) < 2 ^ 16)
unfolding encrypt_with_nonce decrypt encode_encrypted_server_cookie
encrypt_with_nonce-Opens aead bits c key key_id k n w =
    let e : EncryptedServerCookie = record {
      id = key_id % 2 ^ 16;
      nonce = bits;
      ciphertext = aead.seal key bits (encode_server_cookie c) [];
    } in
    let size = aead.length-seal key bits (encode_server_cookie c) [] in
    let plain_size = length-encode_server_cookie c in
    (
      e,
      rw k refl,
      (
        e,
        decode_encrypted_server_cookie-encode_encrypted_server_cookie e (omega arith)
            (omega (arith, n)) (omega (arith, size, plain_size, w.1)),
        refl,
        rw
            (
              k,
              aead.unseal-seal key bits (encode_server_cookie c) [],
              decode_server_cookie-encode_server_cookie c w.0 (omega (arith, w.1))
                  (omega (arith, w.1)),
            )
            refl,
      ),
      omega (
        arith,
        n,
        size,
        plain_size,
        w.1,
        length-append bits (
            put16 cookie_type_ciphertext
              (put16 (length e.ciphertext % 2 ^ 16) (e.ciphertext ++ []))),
        length-append e.ciphertext [],
      ),
    )

-- A server cookie that is encrypted with a key that the cipher accepts and a nonce of 16 bytes, and
-- encoded, is decoded, names the key, and decrypts with it to the same cookie, if its two keys
-- together have less than 2^15 bytes.
pub decrypt-encrypt_with_nonce :
    (aead : Aead) (bits : List ℕ) (c : ServerCookie) (key : List ℕ) (key_id : ℕ)
    → aead.accepts_key key ≡ true
    → length bits ≡ 16
    → IsCookie c
    → (e : EncryptedServerCookie) × (encrypt_with_nonce aead (some bits) c key key_id ≡ ok e)
      × Opens aead key key_id c (encode_encrypted_server_cookie e)
decrypt-encrypt_with_nonce aead bits c key key_id k n w =
    let (e, f, o, _) = encrypt_with_nonce-Opens aead bits c key key_id k n w in (e, f, o)

-- All results of rand.Read are there.
abbrev pub AreNonces : List (Option (List ℕ)) → Type 0
AreNonces rs =
    All (λ (r : Option (List ℕ)). (bits : List ℕ) × (r ≡ some bits) × (length bits ≡ 16)) rs

encrypt_each-Opens :
    (aead : Aead) (c : ServerCookie) (key : List ℕ) (key_id : ℕ) (rs : List (Option (List ℕ)))
    → aead.accepts_key key ≡ true
    → IsCookie c
    → AreNonces rs
    → (length (encrypt_each aead c key key_id rs) ≡ length rs)
      × All (Opens aead key key_id c) (encrypt_each aead c key key_id rs)
      × All (λ (b : List ℕ). length b < 2 ^ 16) (encrypt_each aead c key key_id rs)
unfolding encrypt_each
encrypt_each-Opens aead c key key_id [] k w n = (refl, tt, tt)
encrypt_each-Opens aead c key key_id (r ∷ rs) k w n =
    let (bits, eq, l) = n.0 in
    let (e, f, o, s) = encrypt_with_nonce-Opens aead bits c key key_id k l w in
    let (ih, os, ls) = encrypt_each-Opens aead c key key_id rs k w n.1 in
    rw (encrypt_each, eq, f) (ap suc ih, (o, os), (s, ls))

IsReadable-cookies :
    (cs : List (List ℕ))
    → All (λ (b : List ℕ). length b < 2 ^ 16) cs
    → All IsReadable (map cookie cs)
IsReadable-cookies [] w = tt
IsReadable-cookies (c ∷ cs) w = (w.0, IsReadable-cookies cs w.1)

all_told-cookies :
    (d : Data) (cs : List (List ℕ))
    → all_told d (map cookie cs) ≡ record d { cookie = d.cookie ++ cs }
all_told-cookies d [] = rw (append-nil d.cookie) refl
all_told-cookies d (c ∷ cs) =
    all_told-cookies (record d { cookie = d.cookie ++ (c ∷ []) }) cs
    ∙ rw (append_assoc d.cookie (c ∷ []) cs) refl

-- What a client has after the server's message: the server's address and port, the algorithm, and
-- as many cookies as there were nonces, each of which the server opens to the client's keys.
abbrev pub Supplied : Aead → Key → ServerCookie → List ℕ → ℕ → ℕ → Data → Data → Type 0
Supplied aead key plaintext ip local_port n d d' =
    (d'.server ≡ ip)
    × (d'.port ≡ local_port % 2 ^ 16)
    × (d'.algo ≡ aes_siv_cmac_256)
    × ((cs : List (List ℕ)) × (d'.cookie ≡ d.cookie ++ cs)
        × (length cs ≡ n)
        × All (Opens aead key.value key.id plaintext) cs)

-- The message of newNTSKEMsg, with the keys of a connection and at least one nonce, is made, and
-- from its packed form ReadData gets the server's address and port, the algorithm, and a cookie for
-- each nonce, which names the provider's key and decrypts with it to the keys of the connection. The
-- cipher accepts the key, all nonces have 16 bytes, the keys together less than 2^15 bytes, the
-- address less than 2^16, and each cookie of the message is delivered whole by the one call of
-- bufio.Reader.Read for it.
pub read_data-new_ntske_msg :
    (aead : Aead) (ip : List ℕ) (local_port : ℕ) (server_data : Data) (key : Key)
    (r : Option (List ℕ)) (rs : List (Option (List ℕ))) (short : ℕ → List ℕ → ℕ) (d : Data)
    → aead.accepts_key key.value ≡ true
    → length server_data.s2c_key + length server_data.c2s_key < 2 ^ 15
    → AreNonces (r ∷ rs)
    → length ip < 2 ^ 16
    → ((msg : List Record)
        → new_ntske_msg aead ip local_port server_data key (r ∷ rs) ≡ ok msg
        → CookiesArrive short msg [])
    → (msg : List Record) × (fuel : ℕ) × (d' : Data) × (new_ntske_msg aead ip local_port server_data
          key
          (r ∷ rs)
        ≡ ok msg)
      × (read_data short fuel d (pack msg []) ≡ ok d')
      × Supplied aead key
          (record { algo = aes_siv_cmac_256; s2c = server_data.s2c_key; c2s = server_data.c2s_key })
          ip
          local_port
          (length (r ∷ rs))
          d
          d'
unfolding new_ntske_msg
read_data-new_ntske_msg aead ip local_port server_data key r rs short d k w n h full =
    let plaintext : ServerCookie = record {
      algo = aes_siv_cmac_256;
      s2c = server_data.s2c_key;
      c2s = server_data.c2s_key;
    } in
    let cs : List (List ℕ) = encrypt_each aead plaintext key.value key.id (r ∷ rs) in
    let (size, opened, short_cookies) =
      encrypt_each-Opens aead plaintext key.value key.id (r ∷ rs) k (omega arith, w) n in
    let some_cookie : (length cs == 0) ≡ false =
      ==_false (length cs) 0 (λ e. omega (arith, e, size)) in
    let offer : List Record =
      next_proto 0
      ∷ algorithm (aes_siv_cmac_256 ∷ [])
      ∷ server ip false
      ∷ port (local_port % 2 ^ 16) false
      ∷ map cookie cs in
    let read =
      read_data-pack short d offer []
        (omega arith, (omega arith, (h, (omega arith, IsReadable-cookies cs short_cookies))))
        (full (offer ++ (end_of_message ∷ [])) (rw some_cookie refl)) in
    let told_is =
      all_told-cookies
        (record d { algo = aes_siv_cmac_256; server = ip; port = local_port % 2 ^ 16 }) cs in
    (
      _,
      _,
      _,
      rw some_cookie refl,
      read ∙ ap ok told_is,
      (refl, refl, refl, (cs, refl, size, opened)),
    )
