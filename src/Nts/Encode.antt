-- ===== src/Nts/Encode.antt =====
-- net/nts/nts.go: the pack methods, EncodePacket and NewResponsePacket.
use scion_time.Base.Run.{Run, ok, err, panic, out_of_fuel, ◌>>=◌, or_err}
use scion_time.Base.{
  List, Option, [], if◌then◌else◌, length, ltb, not, replicate, ℕ, ◌%◌, ◌*◌, ◌++◌, ◌+◌, ◌-◌, ◌/◌,
  ◌==◌, ◌^◌, ◌∷◌,
}
use scion_time.Nts.Aead.{Aead}
use scion_time.Nts.Buffer.{copy_in, write16}
use scion_time.Nts.Packet.{
  Authenticator, NtsError, bad_key, empty_packet, ext_authenticator, ext_cookie,
  ext_unique_identifier, max_packet_len, no_auth, no_random, ntp_packet_len, short_unique_id,
  Packet,
}

-- (n + 3) &^ 3
unfoldable pub round_up4 : ℕ → ℕ
round_up4 n = (n + 3) / 4 * 4

-- An extension field of one of the first three kinds: its header, the value and its padding.
unfoldable pub pack_field : ℕ → ℕ → List ℕ → List ℕ → Run NtsError (List ℕ)
pack_field limit t value buf = do
  let new_len = round_up4 (length value)
  let padding = replicate (new_len - length value) 0
  b ← write16 limit t buf
  b ← write16 limit ((4 + new_len % 2 ^ 16) % 2 ^ 16) b
  ok (copy_in limit padding (copy_in limit value b))

unfoldable pub pack_unique_identifier : ℕ → List ℕ → List ℕ → Run NtsError (List ℕ)
pack_unique_identifier limit id buf =
    if ltb (length id) 32
    then err short_unique_id
    else pack_field limit ext_unique_identifier id buf

unfoldable pub pack_cookie : ℕ → List ℕ → List ℕ → Run NtsError (List ℕ)
pack_cookie limit cookie buf = pack_field limit ext_cookie cookie buf

-- The type written is extCookie here too.
unfoldable pub pack_cookie_placeholder : ℕ → List ℕ → List ℕ → Run NtsError (List ℕ)
pack_cookie_placeholder limit cookie buf = pack_field limit ext_cookie cookie buf

-- for _, c := range cs { pos, err = c.pack(buf, pos) }
unfoldable pub pack_each :
    (List ℕ → List ℕ → Run NtsError (List ℕ)) → List (List ℕ) → List ℕ → Run NtsError (List ℕ)
pack_each pack [] buf = ok buf
pack_each pack (c ∷ cs) buf = pack c buf >>= pack_each pack cs

-- (-n) % 4 on uint16
unfoldable pub pad_len : ℕ → ℕ
pad_len n = (2 ^ 16 - n) % 2 ^ 16 % 4

-- Authenticator.pack; `random` is the result of rand.Read.
unfoldable pub pack_authenticator :
    Aead → Option (List ℕ) → ℕ → Authenticator → List ℕ → Run NtsError (List ℕ)
pack_authenticator aead random limit a buf =
    if aead.accepts_key a.key
    then (do
      nonce ← or_err no_random random
      let nonce_len = length nonce % 2 ^ 16
      let nonce_pad_len = pad_len nonce_len
      let cipher_text = aead.seal a.key nonce a.plain_text buf
      let cipher_len = length cipher_text % 2 ^ 16
      let cipher_pad_len = pad_len cipher_len
      let ext_len = (4 + 2 + 2 + nonce_len + nonce_pad_len + cipher_len + cipher_pad_len) % 2 ^ 16
      b ← write16 limit ext_authenticator buf
      b ← write16 limit ext_len b
      b ← write16 limit nonce_len b
      b ← write16 limit cipher_len b
      let b = copy_in limit (replicate nonce_pad_len 0) (copy_in limit nonce b)
      ok (copy_in limit (replicate cipher_pad_len 0) (copy_in limit cipher_text b)))
    else err bad_key

-- An error of a pack method is a panic of EncodePacket.
unfoldable pub or_panic : {E A : Type 0} → Run E A → Run E A
or_panic (ok a) = ok a
or_panic (err e) = panic
or_panic panic = panic
or_panic out_of_fuel = out_of_fuel

-- EncodePacket: the slice holds an NTP packet, and is made 1024 bytes long before the fields are
-- written behind the packet.
unfoldable pub encode_packet : Aead → Option (List ℕ) → List ℕ → Packet → Run NtsError (List ℕ)
encode_packet aead random b p =
    if not (length b == ntp_packet_len)
    then panic
    else or_panic (do
      b ← pack_unique_identifier max_packet_len p.unique_id b
      b ← pack_each (pack_cookie max_packet_len) p.cookies b
      b ← pack_each (pack_cookie_placeholder max_packet_len) p.cookie_placeholders b
      pack_authenticator aead random max_packet_len p.auth b)

-- NewResponsePacket: the cookies become the plaintext of the authenticator. It panics if there is
-- no cookie; its buffer has room for the headers and for values all as long as the first.
unfoldable pub new_response_packet : List (List ℕ) → List ℕ → List ℕ → Run NtsError Packet
new_response_packet [] key unique_id = panic
new_response_packet (c ∷ cs) key unique_id =
    let limit = length (c ∷ cs) * (4 + length c) in
    do
      buf ← or_panic (pack_each (pack_cookie limit) (c ∷ cs) [])
      ok (record empty_packet {
        unique_id = unique_id;
        auth = record no_auth { key = key; plain_text = buf ++ replicate (limit - length buf) 0 };
      })
