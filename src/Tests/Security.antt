-- ===== src/Tests/Security.antt =====
-- Concrete runs of the cookies and keys of net/ntske and of the decoder of net/nts.
use scion_time.Ntske.Provider.Validity.{serve}
use scion_time.Ntske.Cookies.{
  ServerCookie, EncryptedServerCookie, decode_encrypted_server_cookie, decode_server_cookie,
  encode_encrypted_server_cookie, encode_server_cookie,
}
use scion_time.Nts.Decode.{decode_loop}
use scion_time.Base.Run.{ok, panic, out_of_fuel}
use scion_time.Base.{
  List, [], arith, refl, replicate, ℕ, ◌++◌, ◌∷◌, ◌≡◌, ◌≢◌, inl, inr, none, some, ◌*◌, ◌^◌, ◌∙◌,
  ◌⊎◌,
}
use scion_time.Base.Bytes.{join16}
use scion_time.Base.Int.{pos, ◌+ℤ◌, ◌≤ℤ◌}
use scion_time.Nts.Decode.{start}
use scion_time.Nts.Decode.Termination.{
  decode_loop-endless, decode_packet-ne-out_of_fuel, Reaches, here, next, MovesOn,
}
use scion_time.Ntske.Cookies.RoundTrip.{
  decode_encrypted_server_cookie-encode_encrypted_server_cookie,
  decode_server_cookie-encode_server_cookie,
}
use scion_time.Ntske.Cookies.Total.{decode_cookies-ne-out_of_fuel, decode_cookies-short}
use scion_time.Ntske.Provider.{
  Provider, Key, current, get, is_due, is_valid_at, lookup, lookup_or_zero, next_key, refreshed,
}
use scion_time.GoTime.{add}
use scion_time.Nts.Packet.{ntp_packet_len}
use scion_time.Ntske.Provider.Validity.{IsProvider, current_lasts, get-current, idle}

abbrev plain_cookie : ServerCookie
plain_cookie = record { algo = 15; s2c = 1 ∷ 2 ∷ []; c2s = 3 ∷ [] }

abbrev sealed_cookie : EncryptedServerCookie
sealed_cookie = record { id = 4; nonce = 1 ∷ 2 ∷ []; ciphertext = 3 ∷ 5 ∷ [] }

decode_server_cookie-encode_server_cookie_test :
    decode_server_cookie (encode_server_cookie plain_cookie) ≡ ok plain_cookie
decode_server_cookie-encode_server_cookie_test =
    decode_server_cookie-encode_server_cookie plain_cookie (omega arith) (omega arith) (omega arith)

decode_encrypted_server_cookie-encode_encrypted_server_cookie_test :
    decode_encrypted_server_cookie (encode_encrypted_server_cookie sealed_cookie) ≡ ok sealed_cookie
decode_encrypted_server_cookie-encode_encrypted_server_cookie_test =
    decode_encrypted_server_cookie-encode_encrypted_server_cookie sealed_cookie (omega arith)
      (omega arith) (omega arith)

decode_cookies-ne-out_of_fuel_test :
    (decode_server_cookie (1 ∷ 1 ∷ 0 ∷ 0 ∷ []) ≢ out_of_fuel)
    × (decode_encrypted_server_cookie (1 ∷ 1 ∷ 0 ∷ 0 ∷ []) ≢ out_of_fuel)
decode_cookies-ne-out_of_fuel_test = decode_cookies-ne-out_of_fuel (1 ∷ 1 ∷ 0 ∷ 0 ∷ [])

decode_cookies-short_example :
    (decode_server_cookie (1 ∷ 2 ∷ []) ≡ panic)
    × (decode_encrypted_server_cookie (1 ∷ 2 ∷ []) ≡ panic)
decode_cookies-short_example = decode_cookies-short (1 ∷ 2 ∷ []) (omega arith) (omega arith)

-- A packet with a field of the type 2 and the length 0 behind its header.
abbrev endless : List ℕ
endless = replicate 48 9 ++ (0 ∷ 2 ∷ replicate 26 0)

decode_loop-endless_example : decode_loop 1000 endless 48 start ≡ out_of_fuel
unfolding join16
decode_loop-endless_example =
    decode_loop-endless 1000 endless 48 start (omega arith) refl (λ e. absurd (omega (arith, e)))
      refl

-- A packet with a unique identifier of 32 bytes.
abbrev identified : List ℕ
identified =
    replicate 48 9
    ++ (1 ∷ 4 ∷ 0 ∷ 36 ∷ (replicate 32 7 ++ (4 ∷ 4 ∷ 0 ∷ 40 ∷ (replicate 36 0 ++ replicate 28 0))))

identified_positions : (j : ℕ) → Reaches identified ntp_packet_len j → (j ≡ 48) ⊎ (j ≡ 84)
unfolding join16
identified_positions j here = inl refl
identified_positions k (next {j = j} r h ne e) = elim (identified_positions j r) [
  | inl a ↦ inr (e ∙ rw a refl)
  | inr b ↦ absurd (ne (rw b refl))
]

identified_positive : MovesOn identified ntp_packet_len
unfolding join16
identified_positive j r h ne = elim (identified_positions j r) [
  | inl a ↦ rw a (omega arith)
  | inr b ↦ absurd (ne (rw b refl))
]

decode_packet-ne-out_of_fuel_example : scion_time.Nts.Decode.decode_packet identified ≢ out_of_fuel
decode_packet-ne-out_of_fuel_example = decode_packet-ne-out_of_fuel identified identified_positive

abbrev new_key : Key
new_key = next_key 0 (pos 1000) (7 ∷ 8 ∷ [])

abbrev first_provider : Provider
first_provider = record { keys = (1, new_key) ∷ []; current_id = 1; generated_at = pos 1000 }

first_provider-IsProvider : IsProvider first_provider
unfolding lookup add
first_provider-IsProvider = record {
  newest = new_key;
  found = refl;
  named = refl;
  from = refl;
  until = refl;
  bounded = (omega arith, tt);
}

current_test : current first_provider (pos 2000) (pos 2001) none ≡ some (first_provider, new_key)
unfolding current refreshed is_due lookup_or_zero lookup is_valid_at add ◌+ℤ◌
current_test = refl

second_test : current first_provider (pos 3000) (pos 3000) none ≡ some (first_provider, new_key)
unfolding current refreshed is_due lookup_or_zero lookup is_valid_at add ◌+ℤ◌
second_test = refl

current_lasts_example :
    IsProvider first_provider
    × (lookup new_key.id first_provider.keys ≡ some new_key)
    × (new_key.not_before ≤ℤ pos 2001)
    × (pos 2000 +ℤ pos (2 * 86400 * 10 ^ 9) ≤ℤ new_key.not_after)
current_lasts_example =
    current_lasts first_provider (pos 2000) (pos 2001) none first_provider new_key
      first_provider-IsProvider (omega arith) current_test

get-current_example : get first_provider new_key.id (pos 5000) ≡ some new_key
unfolding add ◌+ℤ◌
get-current_example =
    get-current first_provider (pos 2000) (pos 2001) none first_provider first_provider new_key
      (pos 5000) first_provider-IsProvider (omega arith) current_test
      (serve (pos 3000) (pos 3000) none new_key idle (omega arith) (omega arith) second_test)
      (omega arith) (omega arith)
