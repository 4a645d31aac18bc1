-- ===== src/Nts/Process/Decoded.antt =====
-- DecodePacket of net/nts/nts.go on the fields that the pack methods write.
use scion_time.Base.Run.{ok}
use scion_time.Nts.Packet.{
  Packet, empty_packet, ext_authenticator, ext_unique_identifier, no_auth, ntp_packet_len,
}
use scion_time.Nts.Decode.{
  decode_packet, start, decode_field, Decoding, decode_loop, unpack_authenticator,
}
use mathlib.Core.List.{append_assoc}
use scion_time.Base.{
  All, List, [], arith, length, length-append, refl, suc, true, ℕ, ◌++◌, ◌+◌, ◌<◌, ◌^◌, ◌∙◌, ◌≡◌,
  ◌≤◌, ap, sym, ◌-◌,
}
use scion_time.Base.Bytes.{drop-append, put16_lem}
use scion_time.Nts.Process.Fields.{
  IsValue, cookie_fields, field, length-cookie_fields, length-field, sealed, size,
  cookie_fields-append, length-size,
}
use scion_time.Nts.Process.Loop.{
  decode_loop-cookies, decode_loop-field, field_at, filled-append, length-next, next_field,
  unpack_value-append, decode_loop-done, with_cookies,
}

-- What is decoded of a unique identifier, cookies and an authenticator at the position `at`.
abbrev pub decoded : List ℕ → List (List ℕ) → List ℕ → List ℕ → ℕ → Packet
decoded id cs nonce cipher at = record empty_packet {
  unique_id = id;
  cookies = cs;
  auth = record no_auth { nonce = nonce; cipher_text = cipher; pos = at };
}

abbrev identified : List ℕ → Decoding
identified id = record start {
  pkt = record empty_packet { unique_id = id };
  found_unique_id = true;
}

decode_field-unique_id :
    (i : ℕ) (id r : List ℕ)
    → IsValue id
    → decode_field ext_unique_identifier (4 + length id) i (id ++ r) start ≡ identified id
unfolding decode_field
decode_field-unique_id i id r h = rw (unpack_value-append id r h) refl

unpack_authenticator-sealed :
    (at : ℕ) (nonce cipher r : List ℕ)
    → length nonce < 2 ^ 16
    → length cipher < 2 ^ 16
    → unpack_authenticator at (sealed nonce cipher ++ r)
      ≡ record no_auth { nonce = nonce; cipher_text = cipher; pos = at }
unfolding unpack_authenticator
unpack_authenticator-sealed at nonce cipher r hn hc =
    rw
      (
        unpack_authenticator,
        put16_lem (length nonce) hn,
        put16_lem (length cipher) hc,
        append_assoc nonce cipher r,
        drop-append nonce (cipher ++ r),
        filled-append nonce (cipher ++ r),
        filled-append cipher r,
      )
      refl

abbrev authenticated : ℕ → List ℕ → List ℕ → Decoding → Decoding
authenticated at nonce cipher st = record st {
  pkt = record st.pkt { auth = record no_auth { nonce = nonce; cipher_text = cipher; pos = at } };
  found_authenticator = true;
}

decode_field-authenticator :
    (at : ℕ) (nonce cipher : List ℕ) (st : Decoding)
    → length nonce < 2 ^ 16
    → length cipher < 2 ^ 16
    → decode_field ext_authenticator
        (4 + length (sealed nonce cipher))
        at
        (sealed nonce cipher ++ [])
        st
      ≡ authenticated at nonce cipher st
unfolding decode_field
decode_field-authenticator at nonce cipher st hn hc =
    rw (unpack_authenticator-sealed at nonce cipher [] hn hc) refl

module _ (b header id : List ℕ) (cs : List (List ℕ)) (nonce cipher : List ℕ)
    (h : length header ≡ ntp_packet_len) (id_value : IsValue id) (values : All IsValue cs)
    (nonce_long : length nonce ≡ 16) (cipher_long : 16 ≤ length cipher)
    (cipher_short : length cipher < 2 ^ 14) where
  abbrev last_field : List ℕ
  last_field = field ext_authenticator (sealed nonce cipher) []

  length-last_field : length last_field ≡ 24 + length cipher
  length-last_field = omega (
    arith,
    nonce_long,
    length-append nonce cipher,
    length-field ext_authenticator (sealed nonce cipher) [],
  )

  -- Where the authenticator stands.
  abbrev pub auth_at : ℕ
  auth_at = 48 + (4 + length id) + size cs

  length_total :
      b ≡ header ++ field ext_unique_identifier id (cookie_fields cs last_field)
      → length b ≡ 48 + (4 + length id) + size cs + length last_field
  length_total e =
      let rest : List ℕ = cookie_fields cs last_field in
      rw e (
        omega (
          arith,
          h,
          length-append header (field ext_unique_identifier id rest),
          length-field ext_unique_identifier id rest,
          length-cookie_fields cs last_field,
        ))

  decode_loop-all :
      (k : ℕ)
      → b ≡ header ++ field ext_unique_identifier id (cookie_fields cs last_field)
      → decode_loop (suc (length cs + suc k)) b 48 start
        ≡ ok (record {
          pkt = decoded id cs nonce cipher auth_at;
          found_unique_id = true;
          found_authenticator = true;
        })
  unfolding decode_field
  decode_loop-all k e =
      let rest : List ℕ = cookie_fields cs last_field in
      let pre : List ℕ = header ++ field ext_unique_identifier id [] in
      let pre2 : List ℕ = pre ++ cookie_fields cs [] in
      let total : length b ≡ 48 + (4 + length id) + size cs + length last_field = rw e (
        omega (
          arith,
          h,
          length-append header (field ext_unique_identifier id rest),
          length-field ext_unique_identifier id rest,
          length-cookie_fields cs last_field,
        )) in
      let f1 =
        rw h at (field_at b header ext_unique_identifier id rest (omega arith) id_value.1 e) in
      let l1 : length pre ≡ 48 + (4 + length id) =
        rw (length-next header ext_unique_identifier id, h) refl in
      let e1 = next_field b header ext_unique_identifier id rest e in
      let rounds = rw l1 at (
        decode_loop-cookies cs (suc k) b pre last_field (identified id) values e1
          (omega (arith, length-last_field, cipher_long)) refl) in
      let e2 : b ≡ pre2 ++ last_field =
        e1
        ∙ sym (
            append_assoc pre (cookie_fields cs []) last_field
            ∙ ap (λ (q : List ℕ). pre ++ q) (cookie_fields-append cs last_field)) in
      let l2 : length pre2 ≡ auth_at =
        omega (arith, l1, length-append pre (cookie_fields cs []), length-cookie_fields cs []) in
      let f2 = rw l2 at (
        field_at b pre2 ext_authenticator (sealed nonce cipher) [] (omega arith)
          (omega (arith, cipher_short, nonce_long, length-append nonce cipher)) e2) in
      rw
        (
          decode_loop-field (length cs + suc k) b 48 ext_unique_identifier id rest start f1
              (omega (arith, total, length-last_field)) refl,
          decode_field-unique_id 48 id rest id_value,
          rounds,
          decode_loop-field k b auth_at ext_authenticator (sealed nonce cipher) []
              (with_cookies (identified id) cs) f2
              (omega (arith, total, length-last_field, cipher_long)) refl,
          decode_field-authenticator auth_at nonce cipher (with_cookies (identified id) cs)
              (omega (arith, nonce_long)) (omega (arith, cipher_short)),
          decode_loop-done k b _
              (authenticated auth_at nonce cipher (with_cookies (identified id) cs)) refl,
        )
        refl

  pub decode_packet-fields :
      b ≡ header ++ field ext_unique_identifier id (cookie_fields cs last_field)
      → decode_packet b ≡ ok (decoded id cs nonce cipher auth_at)
  unfolding decode_packet
  decode_packet-fields e =
      let total : length b ≡ 48 + (4 + length id) + size cs + length last_field = length_total e in
      let fuel : length b ≡ suc (length cs + suc (length b - 2 - length cs)) =
        omega (arith, total, length-size cs) in
      let all = decode_loop-all (length b - 2 - length cs) e in
      let enough : decode_loop (length b) b 48 start
          ≡ ok (record {
            pkt = decoded id cs nonce cipher auth_at;
            found_unique_id = true;
            found_authenticator = true;
          }) =
        ap (λ (m : ℕ). decode_loop m b 48 start) fuel ∙ all in
      rw enough refl
