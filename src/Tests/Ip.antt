-- ===== src/Tests/Ip.antt =====
-- Concrete runs of the server over IP, core/server/server_ip.go.
use scion_time.Base.Run.{ok, panic}
use scion_time.Ntp.Packet.{Packet, encode_packet, decode_packet}
use scion_time.Base.Int.{◌+ℤ◌, floor_div, negsuc, ◌-ℤ◌}
use scion_time.Ntske.Cookies.{ServerCookie, encode_encrypted_server_cookie, encode_server_cookie}
use scion_time.Ntske.Provider.{
  Provider, Key, current, is_due, is_valid_at, lookup, lookup_or_zero, refreshed,
}
use scion_time.Server.Ip.{
  Arrival, Surroundings, IpServer, accept, authenticate_request, no_timestamp, serve_packet,
  zero_packet, timestamped,
}
use scion_time.Base.{
  List, [], arith, drop, none, refl, replicate, some, true, ℕ, ◌++◌, ◌∷◌, ◌≡◌, false, ◌*◌, ◌+◌, ◌^◌,
  Bool, suc, zero,
}
use scion_time.Base.Int.{pos}
use scion_time.Nts.Aead.{Aead}
use scion_time.Server.Store.Reachable.{empty_store, Reachable-IsStore, started}
use scion_time.GoTime.{add}
use scion_time.Ntske.Sealed.{encrypt_each, encrypt_with_nonce}
use scion_time.Server.Ip.Answering.{AnswersPlain, serve_packet_plain}
use scion_time.Server.Ip.ShortId.{serve_packet-short}

-- A cipher that hides nothing, with a tag of sixteen zeros.
abbrev open_aead : Aead
open_aead = record {
  accepts_key = λ k. true;
  seal = λ k n p a. replicate 16 0 ++ p;
  unseal = λ k n c a. some (drop 16 c);
  unseal-seal = λ k n p a. refl;
  length-seal = λ k n p a. omega arith;
}

abbrev held_key : Key
held_key = record { id = 1; value = 7 ∷ 8 ∷ []; not_before = pos 1000; not_after = pos 9000 }

abbrev held_keys : Provider
held_keys = record { keys = (1, held_key) ∷ []; current_id = 1; generated_at = pos 1000 }

abbrev held_cookie : ServerCookie
held_cookie = record { algo = 15; s2c = 4 ∷ []; c2s = 5 ∷ [] }

-- The cookie above, encrypted with the nonce 3 and encoded, in 44 bytes.
abbrev encoded_cookie : List ℕ
encoded_cookie =
    4
    ∷ 1
    ∷ 0
    ∷ 2
    ∷ 0
    ∷ 1
    ∷ 5
    ∷ 1
    ∷ 0
    ∷ 2
    ∷ 3
    ∷ 3
    ∷ 6
    ∷ 1
    ∷ 0
    ∷ 32
    ∷ (replicate 16 0 ++ (1 ∷ 1 ∷ 0 ∷ 2 ∷ 0 ∷ 15 ∷ 2 ∷ 1 ∷ 0 ∷ 1 ∷ 4 ∷ 3 ∷ 1 ∷ 0 ∷ 1 ∷ 5 ∷ []))

-- A request of version 4 with a unique identifier of 24 bytes, the cookie and an authenticator.
abbrev short_request : List ℕ
short_request =
    35
    ∷ (replicate 47 0
        ++ (1
            ∷ 4
            ∷ 0
            ∷ 28
            ∷ (replicate 24 9
                ++ (2
                    ∷ 4
                    ∷ 0
                    ∷ 52
                    ∷ (encoded_cookie
                        ++ (4
                            ∷ 4
                            ∷ 0
                            ∷ 40
                            ∷ 0
                            ∷ 16
                            ∷ 0
                            ∷ 16
                            ∷ (replicate 16 3 ++ replicate 16 0)))))))

abbrev short_arrival : Arrival
short_arrival = record { buf = short_request; rxt = pos 2000; client = 7; port = 123 }

abbrev plain_arrival : Arrival
plain_arrival = record { buf = 35 ∷ replicate 47 0; rxt = pos 2000; client = 7; port = 123 }

abbrev calm : Surroundings
calm = record {
  get_now = pos 2000;
  txt = pos 2001;
  current_now = pos 2002;
  next_now = pos 2002;
  key_random = none;
  cookie_randoms = λ i. some (replicate 16 3);
  auth_random = some (replicate 16 3);
}

abbrev first_server : IpServer
first_server = record { provider = held_keys; store = empty_store; txid = 0 }

abbrev short_nts : scion_time.Nts.Packet.Packet
short_nts = record {
  unique_id = replicate 24 9;
  cookies = encoded_cookie ∷ [];
  cookie_placeholders = [];
  auth = record {
    nonce = replicate 16 3;
    cipher_text = replicate 16 0;
    key = [];
    plain_text = [];
    pos = 128;
  };
}

accepted_test :
    accept open_aead held_keys (pos 2000) short_arrival
    ≡ ok (record zero_packet { lvm = 35 }, some (short_nts, held_cookie))
unfolding accept authenticate_request scion_time.Ntp.Packet.decode_packet
    scion_time.Server.Ip.or_refused scion_time.Ntp.Validation.validate_request
    scion_time.Ntp.Header.leap_indicator scion_time.Ntp.Header.version scion_time.Ntp.Header.mode
    scion_time.Base.Int.signed scion_time.Base.Bytes.join16 scion_time.Base.Bytes.join32
    scion_time.Nts.Decode.decode_packet scion_time.Nts.Decode.decode_loop
    scion_time.Nts.Decode.decode_field scion_time.Nts.Packet.first_cookie
    scion_time.Ntske.Cookies.decode_encrypted_server_cookie scion_time.Ntske.Cookies.decode_loop
    scion_time.Nts.Decode.unpack_value scion_time.Nts.Buffer.filled scion_time.Nts.Decode.value_len
    scion_time.Base.Bytes.uint16? scion_time.Ntske.Cookies.decode_field scion_time.Base.Bytes.slice?
    scion_time.Ntske.Cookies.all_found scion_time.Ntske.Provider.get
    scion_time.Ntske.Provider.lookup scion_time.Nts.Decode.unpack_authenticator
    scion_time.Nts.Process.authenticate scion_time.Nts.Process.cookie_loop
    scion_time.Nts.Process.process_request scion_time.Ntske.Cookies.decode_server_cookie
    scion_time.Ntske.Provider.is_valid_at scion_time.Ntske.Sealed.decrypt
accepted_test = refl

plain_test :
    accept open_aead held_keys (pos 2000) plain_arrival ≡ ok (record zero_packet { lvm = 35 }, none)
unfolding accept authenticate_request scion_time.Ntp.Packet.decode_packet
    scion_time.Server.Ip.or_refused scion_time.Ntp.Validation.validate_request
    scion_time.Ntp.Header.leap_indicator scion_time.Ntp.Header.version scion_time.Ntp.Header.mode
    scion_time.Base.Int.signed scion_time.Base.Bytes.join16 scion_time.Base.Bytes.join32
plain_test = refl

current_key_test : current held_keys (pos 2002) (pos 2002) none ≡ some (held_keys, held_key)
unfolding current refreshed is_due lookup_or_zero lookup is_valid_at add ◌+ℤ◌
current_key_test = refl

serve_packet-short_example :
    serve_packet open_aead calm first_server short_arrival no_timestamp ≡ panic
unfolding encrypt_each encrypt_with_nonce encode_server_cookie encode_encrypted_server_cookie
serve_packet-short_example =
    serve_packet-short open_aead calm first_server short_arrival no_timestamp
      (record zero_packet { lvm = 35 }) short_nts held_cookie held_keys held_key _ []
      (Reachable-IsStore empty_store started) accepted_test (omega arith) current_key_test refl

-- The kernel's timestamp of the answer is the expected one.
serve_packet_plain_example :
    AnswersPlain open_aead calm first_server plain_arrival
      (record zero_packet { lvm = 35 })
      (timestamped (pos 2007) 0)
serve_packet_plain_example =
    serve_packet_plain open_aead calm first_server plain_arrival (record zero_packet { lvm = 35 })
      (Reachable-IsStore empty_store started) (timestamped (pos 2007) 0) plain_test
