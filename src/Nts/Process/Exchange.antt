-- ===== src/Nts/Process/Exchange.antt =====
-- A request of an NTS client and the response to it, through net/nts/nts.go on both sides.
use scion_time.Base.Run.{ok}
use scion_time.Nts.Packet.{
  Packet, ntp_packet_len, empty_packet, first_cookie, max_packet_len, new_request_packet, no_auth,
  num_stored_cookies,
}
use scion_time.Nts.Decode.{decode_packet}
use native.Mathlib.Nat.{suc-mul}
use scion_time.Base.{
  ==_self, All, List, [], ap, arith, length, length-replicate, refl, replicate, some, suc, take,
  true, zero, ℕ, ◌%◌, ◌*◌, ◌++◌, ◌+◌, ◌-◌, ◌<◌, ◌^◌, ◌∙◌, ◌∷◌, ◌≡◌, ◌≤◌,
}
use scion_time.Nts.Aead.{Aead}
use scion_time.Nts.Process.{authenticate, cookie_loop, equal, process_request, process_response}
use scion_time.Nts.Process.Fields.{
  IsValue, cookie_fields, length-cookie_fields, length-size, size, pack_each-writes,
}
use scion_time.Nts.Process.Loop.{cookie_loop-cookies}
use mathlib.Core.List.{append-nil}
use scion_time.Nts.Encode.{encode_packet, new_response_packet, or_panic, pack_cookie}
use scion_time.Nts.Process.RoundTrip.{IsPacket, encode_packet-Received}

equal_self : (xs : List ℕ) → equal xs xs ≡ true
unfolding equal
equal_self [] = refl
equal_self (x ∷ xs) = rw (==_self x, equal_self xs) refl

-- Without plaintext no cookie is added.
authenticate-opened :
    (aead : Aead) (q : Packet) (b key plain : List ℕ) (cs : List (List ℕ))
    → aead.accepts_key key ≡ true
    → aead.unseal key q.auth.nonce q.auth.cipher_text (take q.auth.pos b) ≡ some plain
    → plain ≡ cookie_fields cs []
    → All IsValue cs
    → All (λ (c : List ℕ). 24 ≤ length c) cs
    → authenticate aead q b key ≡ ok (record q { cookies = q.cookies ++ cs })
unfolding authenticate
authenticate-opened aead q b key plain cs k o e v w =
    let fuel : length plain ≡ length cs + (length plain - length cs) =
      rw e (omega (arith, length-size cs, length-cookie_fields cs [])) in
    let rounds : cookie_loop (length plain) plain 0 q.cookies ≡ ok (q.cookies ++ cs) =
      ap (λ (m : ℕ). cookie_loop m plain 0 q.cookies) fuel
      ∙ cookie_loop-cookies cs (length plain - length cs) plain [] q.cookies v w e in
    rw (k, o, rounds) refl

zeros-values : (n m : ℕ) → m % 4 ≡ 0 → m < 2 ^ 15 → All IsValue (replicate n (replicate m 0))
zeros-values zero m a s = tt
zeros-values (suc n) m a s =
    let l = length-replicate {A = ℕ} m 0 in
    ((omega (arith, a, l), omega (arith, s, l)), zeros-values n m a s)

size-zeros : (n m : ℕ) → size (replicate n (replicate m 0)) ≡ n * (4 + m)
size-zeros zero m = omega arith
size-zeros (suc n) m =
    omega (arith, size-zeros n m, length-replicate {A = ℕ} m 0, suc-mul n (4 + m))

-- The server gets the cookie and the identifier of the request, and as many cookies and placeholders
-- as the client lacks.
abbrev pub Served : Aead → List ℕ → List ℕ → List ℕ → List (List ℕ) → List ℕ → List ℕ → Type 0
Served aead nonce header c stock c2s_key id =
    (p : Packet) × (bytes : List ℕ) × (q : Packet) × (new_request_packet (c ∷ stock) c2s_key id
      ≡ ok p)
    × (encode_packet aead (some nonce) header p ≡ ok bytes)
    × (decode_packet bytes ≡ ok q)
    × (take ntp_packet_len bytes ≡ header)
    × (q.unique_id ≡ id)
    × (first_cookie q ≡ ok c)
    × (length q.cookies ≡ 1 + (num_stored_cookies - length (c ∷ stock)))
    × (process_request aead bytes c2s_key q ≡ ok q)

-- What NewRequestPacket makes of a client's stock of cookies is written, decoded and authenticated
-- by ProcessRequest with the client's key: the server gets the spent cookie first, the identifier, and
-- as many fields of the cookie type as cookies are asked for. The cookie is aligned, the identifier
-- has 32 bytes, the nonce 16, the cipher accepts the key, and the packet fits 1024 bytes, which it
-- does not where many cookies of the server's own 124 bytes are asked for.
pub process_request-new_request_packet :
    (aead : Aead) (nonce header c : List ℕ) (stock : List (List ℕ)) (c2s_key id : List ℕ)
    → aead.accepts_key c2s_key ≡ true
    → length nonce ≡ 16
    → length header ≡ ntp_packet_len
    → length id ≡ 32
    → IsValue c
    → 124 + (1 + (num_stored_cookies - length (c ∷ stock))) * (4 + length c) ≤ max_packet_len
    → Served aead nonce header c stock c2s_key id
unfolding new_request_packet first_cookie process_request
process_request-new_request_packet aead nonce header c stock c2s_key id k n h i v fit =
    let zeros : List (List ℕ) =
      replicate (num_stored_cookies - length (c ∷ stock)) (replicate (length c) 0) in
    let p : Packet = record {
      unique_id = id;
      cookies = c ∷ [];
      cookie_placeholders = zeros;
      auth = record no_auth { key = c2s_key };
    } in
    let w : IsPacket aead p = record {
      accepted = k;
      id_long = omega (arith, i);
      id_value = (omega (arith, i), omega (arith, i));
      values = (v, tt);
      placeholder_values = zeros-values _ (length c) v.0 v.1;
      plain_aligned = refl;
      fits = omega (
        arith,
        i,
        fit,
        size-zeros (num_stored_cookies - length (c ∷ stock)) (length c),
        suc-mul (num_stored_cookies - length (c ∷ stock)) (4 + length c),
      );
    } in
    let (bytes, q, e, r) = encode_packet-Received aead nonce header p w n h in
    (
      p,
      bytes,
      q,
      refl,
      e,
      r.decodes,
      r.header_kept,
      r.unique_id_kept,
      rw (first_cookie, r.cookies_kept) refl,
      rw (r.cookies_kept) (
          omega (
            arith,
            length-replicate {A = List ℕ} (num_stored_cookies - length (c ∷ stock))
                (replicate (length c) 0),
          )),
      authenticate-opened aead q bytes c2s_key [] [] k r.opens refl tt tt
          ∙ rw (append-nil q.cookies) refl,
    )

size-same :
    (c : List ℕ) (cs : List (List ℕ))
    → All (λ (d : List ℕ). length d ≡ length c) cs
    → size cs ≡ length cs * (4 + length c)
size-same c [] s = omega arith
size-same c (d ∷ cs) s = omega (arith, s.0, size-same c cs s.1, suc-mul (length cs) (4 + length c))

same-values :
    (c : List ℕ) (cs : List (List ℕ))
    → All (λ (d : List ℕ). length d ≡ length c) cs
    → IsValue c
    → All IsValue cs
same-values c [] s v = tt
same-values c (d ∷ cs) s v =
    ((omega (arith, s.0, v.0), omega (arith, s.0, v.1)), same-values c cs s.1 v)

same-long :
    (c : List ℕ) (cs : List (List ℕ))
    → All (λ (d : List ℕ). length d ≡ length c) cs
    → 24 ≤ length c
    → All (λ (d : List ℕ). 24 ≤ length d) cs
same-long c [] s v = tt
same-long c (d ∷ cs) s v = (omega (arith, s.0, v), same-long c cs s.1 v)

size-aligned : (cs : List (List ℕ)) → All IsValue cs → size cs % 4 ≡ 0
size-aligned [] v = refl
size-aligned (c ∷ cs) v = omega (arith, v.0.0, size-aligned cs v.1)

-- The client gets the cookies that the server sent.
abbrev pub Stored :
    Aead → List ℕ → List ℕ → List (List ℕ) → List ℕ → List ℕ → List (List ℕ) → Type 0
Stored aead nonce header cookies s2c_key id stock =
    (p : Packet) × (bytes : List ℕ) × (q : Packet) × (new_response_packet cookies s2c_key id ≡ ok p)
    × (encode_packet aead (some nonce) header p ≡ ok bytes)
    × (decode_packet bytes ≡ ok q)
    × (take ntp_packet_len bytes ≡ header)
    × (process_response aead bytes s2c_key stock q id ≡ ok (stock ++ cookies))

-- What NewResponsePacket makes of cookies is written, decoded and accepted by ProcessResponse with
-- the server's key and the identifier of the request, which adds exactly these cookies to the
-- client's stock. There is a cookie, all are aligned and of the same length of at least 24 bytes,
-- the identifier is aligned and has at least 32 bytes, the nonce has 16, the cipher accepts the
-- key, and the packet fits 1024 bytes.
pub process_response-new_response_packet :
    (aead : Aead) (nonce header c : List ℕ) (cs : List (List ℕ)) (s2c_key id : List ℕ)
    (stock : List (List ℕ))
    → aead.accepts_key s2c_key ≡ true
    → length nonce ≡ 16
    → length header ≡ ntp_packet_len
    → 32 ≤ length id
    → IsValue id
    → IsValue c
    → 24 ≤ length c
    → All (λ (d : List ℕ). length d ≡ length c) cs
    → 92 + length id + length (c ∷ cs) * (4 + length c) ≤ max_packet_len
    → Stored aead nonce header (c ∷ cs) s2c_key id stock
unfolding new_response_packet process_response or_panic pack_cookie
process_response-new_response_packet aead nonce header c cs s2c_key id stock k n h long iv v l s
      fit =
    let limit : ℕ = length (c ∷ cs) * (4 + length c) in
    let exact : size (c ∷ cs) ≡ limit = size-same c (c ∷ cs) (refl, s) in
    let vs : All IsValue (c ∷ cs) = same-values c (c ∷ cs) (refl, s) v in
    let packed =
      pack_each-writes (pack_cookie limit) limit (c ∷ cs) [] (λ d b. refl) vs
        (omega (arith, exact)) in
    let full : limit - length (cookie_fields (c ∷ cs) []) ≡ 0 =
      omega (arith, exact, length-cookie_fields (c ∷ cs) []) in
    let p : Packet = record empty_packet {
      unique_id = id;
      auth = record no_auth { key = s2c_key; plain_text = cookie_fields (c ∷ cs) [] };
    } in
    let plain_long = length-cookie_fields (c ∷ cs) [] in
    let w : IsPacket aead p = record {
      accepted = k;
      id_long = long;
      id_value = iv;
      values = tt;
      placeholder_values = tt;
      plain_aligned = omega (arith, plain_long, size-aligned (c ∷ cs) vs);
      fits = omega (arith, fit, plain_long, exact);
    } in
    let (bytes, q, e, r) = encode_packet-Received aead nonce header p w n h in
    (
      p,
      bytes,
      q,
      rw (packed, full, append-nil (cookie_fields (c ∷ cs) [])) refl,
      e,
      r.decodes,
      r.header_kept,
      rw
          (
            r.unique_id_kept,
            equal_self id,
            authenticate-opened aead q bytes s2c_key (cookie_fields (c ∷ cs) []) (c ∷ cs) k r.opens
                refl vs (same-long c (c ∷ cs) (refl, s) l),
            r.cookies_kept,
          )
          refl,
    )
