-- ===== src/Tests/Nts.antt =====
-- Concrete runs of the NTS extension fields of net/nts/nts.go.
use scion_time.Nts.Packet.{Packet, no_auth}
use scion_time.Base.{
  List, [], arith, drop, refl, replicate, some, true, ℕ, ◌++◌, ◌∷◌, ◌≡◌, none, ◌≢◌,
}
use scion_time.Nts.Aead.{Aead}
use scion_time.Nts.Process.Exchange.{
  Served, Stored, process_request-new_request_packet, process_response-new_response_packet,
}
use scion_time.Nts.Process.RoundTrip.{Received, encode_packet-Received}
use scion_time.Base.Bytes.{join16}
use scion_time.Base.Int.{pos}
use scion_time.Ntske.Cookies.{EncryptedServerCookie, ServerCookie, encode_encrypted_server_cookie}
use scion_time.Ntske.Fetcher.{
  Connected, checked_data, dialed, empty_data, exchange_keys, fetch_data, or_failed, unknown_algo,
}
use scion_time.Ntske.Fetcher.Stock.{fetch_data-refused}
use scion_time.Ntske.Provider.{Key}
use scion_time.Ntske.Records.{Data, Record, pack, read_body, read_cookie, read_data, read_step}
use scion_time.Ntske.Sealed.{aes_siv_cmac_256, encrypt_with_nonce, new_ntske_msg}
use scion_time.Ntske.Sealed.Opens.{
  Opens, Supplied, decrypt-encrypt_with_nonce, read_data-new_ntske_msg,
}
use scion_time.Ntske.Records.RoundTrip.{CookiesArrive-full}

-- A cipher that hides nothing, with a tag of sixteen zeros.
abbrev plain_aead : Aead
plain_aead = record {
  accepts_key = λ k. true;
  seal = λ k n p a. replicate 16 0 ++ p;
  unseal = λ k n c a. some (drop 16 c);
  unseal-seal = λ k n p a. refl;
  length-seal = λ k n p a. omega arith;
}

abbrev cookie_a : List ℕ
cookie_a = replicate 28 1

abbrev cookie_b : List ℕ
cookie_b = replicate 28 2

abbrev ntp_header : List ℕ
ntp_header = replicate 48 9

abbrev key_c2s : List ℕ
key_c2s = replicate 32 5

process_request-new_request_packet_example :
    Served plain_aead (replicate 16 3) ntp_header cookie_a (cookie_b ∷ []) key_c2s (replicate 32 7)
process_request-new_request_packet_example =
    process_request-new_request_packet plain_aead (replicate 16 3) ntp_header cookie_a
      (cookie_b ∷ []) key_c2s (replicate 32 7) refl refl refl refl (refl, omega arith) (omega arith)

process_response-new_response_packet_example :
    Stored plain_aead
      (replicate 16 3)
      ntp_header
      (cookie_a ∷ cookie_b ∷ [])
      key_c2s
      (replicate 32 7)
      ((1 ∷ []) ∷ [])
process_response-new_response_packet_example =
    process_response-new_response_packet plain_aead (replicate 16 3) ntp_header cookie_a
      (cookie_b ∷ []) key_c2s (replicate 32 7) ((1 ∷ []) ∷ []) refl refl refl (omega arith)
      (refl, omega arith) (refl, omega arith) (omega arith) (refl, tt) (omega arith)

abbrev sent_packet : Packet
sent_packet = record {
  unique_id = replicate 32 7;
  cookies = cookie_a ∷ [];
  cookie_placeholders = replicate 28 0 ∷ [];
  auth = record no_auth { key = key_c2s; plain_text = 1 ∷ 2 ∷ 3 ∷ 4 ∷ [] };
}

encode_packet-Received_test :
    (bytes : List ℕ) × (q : Packet) × (scion_time.Nts.Encode.encode_packet plain_aead
        (some (replicate 16 3))
        ntp_header
        sent_packet
      ≡ scion_time.Base.Run.ok bytes)
    × Received plain_aead ntp_header sent_packet bytes q
encode_packet-Received_test =
    encode_packet-Received plain_aead (replicate 16 3) ntp_header sent_packet
      (record {
        accepted = refl;
        id_long = omega arith;
        id_value = (refl, omega arith);
        values = ((refl, omega arith), tt);
        placeholder_values = ((refl, omega arith), tt);
        plain_aligned = refl;
        fits = omega arith;
      })
      refl refl

abbrev plain_server_cookie : ServerCookie
plain_server_cookie = record { algo = 15; s2c = replicate 32 4; c2s = key_c2s }

decrypt-encrypt_with_nonce_example :
    (e : EncryptedServerCookie) × (encrypt_with_nonce plain_aead
        (some (replicate 16 3))
        plain_server_cookie
        (replicate 32 1)
        7
      ≡ scion_time.Base.Run.ok e)
    × Opens plain_aead (replicate 32 1) 7 plain_server_cookie (encode_encrypted_server_cookie e)
decrypt-encrypt_with_nonce_example =
    decrypt-encrypt_with_nonce plain_aead (replicate 16 3) plain_server_cookie (replicate 32 1) 7
      refl refl (omega arith, omega arith)

abbrev connection_data : Data
connection_data = record empty_data { c2s_key = key_c2s; s2c_key = replicate 32 4 }

abbrev server_key : Key
server_key = record { id = 7; value = replicate 32 1; not_before = pos 0; not_after = pos 9 }

read_data-new_ntske_msg_example :
    (msg : List Record) × (fuel : ℕ) × (d' : Data) × (new_ntske_msg plain_aead
        (1 ∷ 2 ∷ [])
        123
        connection_data
        server_key
        (some (replicate 16 3) ∷ some (replicate 16 8) ∷ [])
      ≡ scion_time.Base.Run.ok msg)
    × (read_data (λ n b. n) fuel empty_data (pack msg []) ≡ scion_time.Base.Run.ok d')
    × Supplied plain_aead server_key plain_server_cookie (1 ∷ 2 ∷ []) 123 2 empty_data d'
read_data-new_ntske_msg_example =
    read_data-new_ntske_msg plain_aead (1 ∷ 2 ∷ []) 123 connection_data server_key
      (some (replicate 16 3)) (some (replicate 16 8) ∷ []) (λ n b. n) empty_data refl (omega arith)
      ((replicate 16 3, refl, refl), ((replicate 16 8, refl, refl), tt)) (omega arith)
      (λ msg e. CookiesArrive-full msg [])

-- A server that offers a cookie for an algorithm that the client does not know.
abbrev other_server : Connected
other_server = record {
  address = 1 ∷ [];
  stream = 128 ∷ 4 ∷ 0 ∷ 2 ∷ 0 ∷ 16 ∷ 0 ∷ 5 ∷ 0 ∷ 1 ∷ 9 ∷ 128 ∷ 0 ∷ 0 ∷ 0 ∷ [];
  exported_s2c = some (4 ∷ []);
  exported_c2s = some (5 ∷ []);
}

abbrev refused_data : Data
refused_data = record {
  c2s_key = 5 ∷ [];
  s2c_key = 4 ∷ [];
  server = 1 ∷ [];
  port = 123;
  cookie = (9 ∷ []) ∷ [];
  algo = 16;
}

refused_test :
    fetch_data (λ n b. n) (some other_server) empty_data
    ≡ (refused_data, scion_time.Base.Run.err unknown_algo)
unfolding fetch_data exchange_keys read_data read_step read_body read_cookie dialed checked_data
    or_failed join16
refused_test = refl

fetch_data-refused_example :
    ((fetch_data (λ n b. n) none refused_data).1 ≡ scion_time.Base.Run.ok refused_data)
    × (refused_data.algo ≢ aes_siv_cmac_256)
fetch_data-refused_example =
    fetch_data-refused (λ n b. n) (some other_server) none empty_data refused_data refused_test

-- A request for eight cookies of the 124 bytes that the server makes.
abbrev eight_cookies : Packet
eight_cookies = record sent_packet {
  cookies = replicate 124 1 ∷ [];
  cookie_placeholders = replicate 7 (replicate 124 0);
  auth = record no_auth { key = key_c2s };
}

eight_cookies_test :
    scion_time.Nts.Encode.encode_packet plain_aead (some (replicate 16 3)) ntp_header eight_cookies
    ≡ scion_time.Base.Run.panic
unfolding scion_time.Nts.Encode.encode_packet scion_time.Nts.Encode.or_panic
    scion_time.Nts.Encode.pack_unique_identifier scion_time.Nts.Encode.pack_field
    scion_time.Nts.Buffer.write16 scion_time.Nts.Encode.pack_each scion_time.Nts.Encode.pack_cookie
    scion_time.Nts.Buffer.copy_in scion_time.Nts.Encode.round_up4
    scion_time.Nts.Encode.pack_cookie_placeholder scion_time.Nts.Encode.pack_authenticator
eight_cookies_test = refl
