-- ===== src/Nts/Process/RoundTrip.antt =====
-- A packet that EncodePacket of net/nts/nts.go wrote is decoded and authenticated.
use scion_time.Base.Run.{ok}
use scion_time.Nts.Packet.{
  Packet, ext_authenticator, ext_unique_identifier, max_packet_len, ntp_packet_len,
}
use scion_time.Nts.Encode.{
  encode_packet, pack_cookie, pack_cookie_placeholder, pack_unique_identifier, or_panic,
}
use scion_time.Base.{
  ==_iff, All, List, [], arith, false, length, length-append, ltb, refl, some, true, ℕ, ◌%◌, ◌++◌,
  ◌+◌, ◌==◌, ◌≡◌, ◌≤◌, le→ltb_false, ◌∙◌, take,
}
use scion_time.Nts.Aead.{Aead}
use scion_time.Nts.Process.Fields.{
  IsValue, cookie_fields, field, length-cookie_fields, length-field, pack_authenticator-writes,
  pack_each-writes, pack_field-writes, sealed, size, cookie_fields-append,
  cookie_fields-append_cookies, field-append, size-append, values-append,
}
use mathlib.Core.List.{append_assoc}
use scion_time.Base.Bytes.{take-append}
use scion_time.Nts.Decode.{decode_packet}
use scion_time.Nts.Process.Decoded.{decode_packet-fields, decoded}

-- A packet whose values are aligned and short, with a key that the cipher accepts.
pub record IsPacket (aead : Aead) (p : Packet) : Type 0 where
  pub accepted : aead.accepts_key p.auth.key ≡ true
  pub id_long : 32 ≤ length p.unique_id
  pub id_value : IsValue p.unique_id
  pub values : All IsValue p.cookies
  pub placeholder_values : All IsValue p.cookie_placeholders
  pub plain_aligned : length p.auth.plain_text % 4 ≡ 0
  pub fits :
      92
        + length p.unique_id
        + size p.cookies
        + size p.cookie_placeholders
        + length p.auth.plain_text
      ≤ max_packet_len

-- What stands in front of the authenticator.
abbrev pub prefix : List ℕ → Packet → List ℕ
prefix header p =
    ((header ++ field ext_unique_identifier p.unique_id []) ++ cookie_fields p.cookies [])
    ++ cookie_fields p.cookie_placeholders []

abbrev pub authenticator_value : Aead → List ℕ → List ℕ → Packet → List ℕ
authenticator_value aead nonce header p =
    sealed nonce (aead.seal p.auth.key nonce p.auth.plain_text (prefix header p))

abbrev pub written : Aead → List ℕ → List ℕ → Packet → List ℕ
written aead nonce header p =
    prefix header p ++ field ext_authenticator (authenticator_value aead nonce header p) []

all_fields :
    (header id : List ℕ) (cs ds : List (List ℕ)) (last : List ℕ)
    → (((header ++ field ext_unique_identifier id []) ++ cookie_fields cs [])
          ++ cookie_fields ds [])
        ++ last
      ≡ header ++ field ext_unique_identifier id (cookie_fields (cs ++ ds) last)
all_fields header id cs ds last =
    let b1 : List ℕ = header ++ field ext_unique_identifier id [] in
    append_assoc (b1 ++ cookie_fields cs []) (cookie_fields ds []) last
    ∙ append_assoc b1 (cookie_fields cs []) (cookie_fields ds [] ++ last)
    ∙ append_assoc header (field ext_unique_identifier id [])
        (cookie_fields cs [] ++ (cookie_fields ds [] ++ last))
    ∙ rw
        (
          field-append ext_unique_identifier id
              (cookie_fields cs [] ++ (cookie_fields ds [] ++ last)),
          cookie_fields-append ds last,
          cookie_fields-append cs (cookie_fields ds last),
          cookie_fields-append_cookies cs ds last,
        )
        refl

module _ (aead : Aead) (nonce header : List ℕ) (p : Packet) (w : IsPacket aead p)
    (n : length nonce ≡ 16) (h : length header ≡ ntp_packet_len) where
  length-prefix :
      length (prefix header p)
      ≡ 52 + length p.unique_id + size p.cookies + size p.cookie_placeholders
  length-prefix =
      let b1 : List ℕ = header ++ field ext_unique_identifier p.unique_id [] in
      let b2 : List ℕ = b1 ++ cookie_fields p.cookies [] in
      omega (
        arith,
        h,
        length-append header (field ext_unique_identifier p.unique_id []),
        length-field ext_unique_identifier p.unique_id [],
        length-append b1 (cookie_fields p.cookies []),
        length-cookie_fields p.cookies [],
        length-append b2 (cookie_fields p.cookie_placeholders []),
        length-cookie_fields p.cookie_placeholders [],
      )

  pub encode_packet-written :
      encode_packet aead (some nonce) header p ≡ ok (written aead nonce header p)
  unfolding encode_packet pack_unique_identifier pack_cookie pack_cookie_placeholder or_panic
  encode_packet-written =
      let b1 : List ℕ = header ++ field ext_unique_identifier p.unique_id [] in
      let l1 : length b1 ≡ 52 + length p.unique_id = omega (
        arith,
        h,
        length-append header (field ext_unique_identifier p.unique_id []),
        length-field ext_unique_identifier p.unique_id [],
      ) in
      let b2 : List ℕ = b1 ++ cookie_fields p.cookies [] in
      let l2 : length b2 ≡ 52 + length p.unique_id + size p.cookies = omega (
        arith,
        l1,
        length-append b1 (cookie_fields p.cookies []),
        length-cookie_fields p.cookies [],
      ) in
      let whole : (length header == ntp_packet_len) ≡ true =
        (==_iff (length header) ntp_packet_len).1 h in
      let long : ltb (length p.unique_id) 32 ≡ false =
        le→ltb_false (length p.unique_id) 32 w.id_long in
      rw
        (
          whole,
          long,
          pack_field-writes max_packet_len ext_unique_identifier p.unique_id header w.id_value
              (omega (arith, h, w.fits)),
          pack_each-writes (pack_cookie max_packet_len) max_packet_len p.cookies b1 (λ c b. refl)
              w.values (omega (arith, l1, w.fits)),
          pack_each-writes (pack_cookie_placeholder max_packet_len) max_packet_len
              p.cookie_placeholders b2 (λ c b. refl) w.placeholder_values
              (omega (arith, l2, w.fits)),
          pack_authenticator-writes aead nonce max_packet_len p.auth (prefix header p) w.accepted n
              w.plain_aligned (omega (arith, w.fits)) (omega (arith, w.fits, length-prefix)),
        )
        refl

  -- The written packet, from its front.
  abbrev all_cookies : List (List ℕ)
  all_cookies = p.cookies ++ p.cookie_placeholders

  abbrev last_field : List ℕ
  last_field = field ext_authenticator (authenticator_value aead nonce header p) []

  written-fields :
      written aead nonce header p
      ≡ header ++ field ext_unique_identifier p.unique_id (cookie_fields all_cookies last_field)
  written-fields = all_fields header p.unique_id p.cookies p.cookie_placeholders last_field

  length-last_field : length last_field ≡ 40 + length p.auth.plain_text
  length-last_field =
      let cipher : List ℕ = aead.seal p.auth.key nonce p.auth.plain_text (prefix header p) in
      omega (
        arith,
        n,
        aead.length-seal p.auth.key nonce p.auth.plain_text (prefix header p),
        length-append nonce cipher,
        length-field ext_authenticator (authenticator_value aead nonce header p) [],
      )

take_front : (n : ℕ) (xs ys : List ℕ) → length xs ≡ n → take n (xs ++ ys) ≡ xs
take_front n xs ys h = rw (← h) (take-append xs ys)

-- What the receiver of `bytes` gets of the packet `p` that was sent with `header`.
pub record Received (aead : Aead) (header : List ℕ) (p : Packet) (bytes : List ℕ) (q : Packet)
    : Type 0 where
  pub header_kept : take ntp_packet_len bytes ≡ header
  pub decodes : decode_packet bytes ≡ ok q
  pub unique_id_kept : q.unique_id ≡ p.unique_id
  pub cookies_kept : q.cookies ≡ p.cookies ++ p.cookie_placeholders
  pub no_placeholders : q.cookie_placeholders ≡ []
  pub opens :
      aead.unseal p.auth.key q.auth.nonce q.auth.cipher_text (take q.auth.pos bytes)
      ≡ some p.auth.plain_text

-- Every packet of aligned values that fits 1024 bytes, with a unique identifier of at least 32 bytes
-- and a key that the cipher accepts, is written behind its 48 byte header, and decoded: the header,
-- the unique identifier and the cookies are kept, the placeholders come out as cookies, and with the
-- packet's key the authenticator opens to its plaintext. The random nonce has 16 bytes.
pub encode_packet-Received :
    (aead : Aead) (nonce header : List ℕ) (p : Packet)
    → IsPacket aead p
    → length nonce ≡ 16
    → length header ≡ ntp_packet_len
    → (bytes : List ℕ) × (q : Packet) × (encode_packet aead (some nonce) header p ≡ ok bytes)
      × Received aead header p bytes q
encode_packet-Received aead nonce header p w n h =
    let cs : List (List ℕ) = p.cookies ++ p.cookie_placeholders in
    let pre : List ℕ = prefix header p in
    let cipher : List ℕ = aead.seal p.auth.key nonce p.auth.plain_text pre in
    let size_is = aead.length-seal p.auth.key nonce p.auth.plain_text pre in
    let bytes : List ℕ = written aead nonce header p in
    let at : ℕ = 48 + (4 + length p.unique_id) + size cs in
    let at_is : at ≡ length pre = omega (
      arith,
      length-prefix aead nonce header p w n h,
      size-append p.cookies p.cookie_placeholders,
    ) in
    let front : take at bytes ≡ pre = rw at_is (take-append pre _) in
    let fields = written-fields aead nonce header p w n h in
    (
      bytes,
      decoded p.unique_id cs nonce cipher at,
      encode_packet-written aead nonce header p w n h,
      record {
        header_kept = rw fields (take_front ntp_packet_len header _ h);
        decodes =
            decode_packet-fields bytes header p.unique_id cs nonce cipher h w.id_value
              (values-append p.cookies p.cookie_placeholders w.values w.placeholder_values) n
              (omega (arith, size_is)) (omega (arith, size_is, w.fits)) fields;
        unique_id_kept = refl;
        cookies_kept = refl;
        no_placeholders = refl;
        opens = rw front (aead.unseal-seal p.auth.key nonce p.auth.plain_text pre);
      },
    )
