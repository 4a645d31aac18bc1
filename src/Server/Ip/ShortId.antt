-- ===== src/Server/Ip/ShortId.antt =====
-- What runIPServer of core/server/server_ip.go makes of an authentic request with a unique identifier
-- of less than 32 bytes.
use scion_time.Base.Run.{Run, ok, err, panic, out_of_fuel, >>=-ne-out_of_fuel}
use scion_time.Nts.Encode.{
  encode_packet, pack_cookie, or_panic, new_response_packet, pack_each, pack_field,
  pack_unique_identifier,
}
use scion_time.Nts.Packet.{Packet, NtsError, ext_cookie}
use scion_time.Ntske.Provider.{Provider, Key, current}
use scion_time.Ntske.Cookies.{ServerCookie}
use scion_time.Server.Ip.{
  Arrival, Surroundings, IpServer, Written, accept, add_fields, firsts, respond, serve_packet,
  zero_packet,
}
use scion_time.Base.{
  Bool-cases, List, Option, [], arith, inl, inr, leb, length, lt→ltb, refl, ℕ, ◌*◌, ◌+◌, ◌<◌, ◌∷◌,
  ◌≡◌, ◌≢◌, ◌⊎◌, ==_false, false, some, ◌==◌,
}
use scion_time.Nts.Aead.{Aead}
use scion_time.Nts.Buffer.{write16}
use scion_time.Ntske.Sealed.{encrypt_each}
use scion_time.Server.Store.Refines.{handle_request-Refined}
use scion_time.Server.Store.Valid.{IsStore}

write16-ne-out_of_fuel :
    (limit x : ℕ) (buf : List ℕ) → ◌≢◌ {A = Run NtsError (List ℕ)} (write16 limit x buf) out_of_fuel
unfolding write16
write16-ne-out_of_fuel limit x buf = elim (Bool-cases (leb (length buf + 2) limit)) [
  | inl y ↦ rw y (λ q. cc)
  | inr n ↦ rw n (λ q. cc)
]

pack_cookie-ne-out_of_fuel : (limit : ℕ) (c buf : List ℕ) → pack_cookie limit c buf ≢ out_of_fuel
unfolding pack_cookie pack_field
pack_cookie-ne-out_of_fuel limit c buf =
    >>=-ne-out_of_fuel (write16 limit ext_cookie buf) _
      (write16-ne-out_of_fuel limit ext_cookie buf)
      (λ b. >>=-ne-out_of_fuel (write16 limit _ b) _ (write16-ne-out_of_fuel limit _ b) (λ d q. cc))

pack_each-ne-out_of_fuel :
    (limit : ℕ) (cs : List (List ℕ)) (buf : List ℕ)
    → pack_each (pack_cookie limit) cs buf ≢ out_of_fuel
unfolding pack_each
pack_each-ne-out_of_fuel limit [] buf = λ q. cc
pack_each-ne-out_of_fuel limit (c ∷ cs) buf =
    >>=-ne-out_of_fuel (pack_cookie limit c buf) _ (pack_cookie-ne-out_of_fuel limit c buf)
      (λ b. pack_each-ne-out_of_fuel limit cs b)

-- The response packet has the identifier of the request, or making it panics.
new_response_packet-cases :
    (cs : List (List ℕ)) (key id : List ℕ)
    → (new_response_packet cs key id ≡ panic)
      ⊎ ((p : Packet) × (new_response_packet cs key id ≡ ok p) × (p.unique_id ≡ id))
unfolding new_response_packet or_panic
new_response_packet-cases [] key id = inl refl
new_response_packet-cases (c ∷ cs) key id =
    by_result (pack_each (pack_cookie limit) (c ∷ cs) []) refl
  where
    limit : ℕ
    limit = length (c ∷ cs) * (4 + length c)

    by_result :
        (r : Run NtsError (List ℕ))
        → pack_each (pack_cookie limit) (c ∷ cs) [] ≡ r
        → (new_response_packet (c ∷ cs) key id ≡ panic)
          ⊎ ((p : Packet) × (new_response_packet (c ∷ cs) key id ≡ ok p) × (p.unique_id ≡ id))
    by_result (ok b) e = rw e (inr (_, refl, refl))
    by_result (err x) e = rw e (inl refl)
    by_result panic e = rw e (inl refl)
    by_result out_of_fuel e = absurd (pack_each-ne-out_of_fuel limit (c ∷ cs) [] e)

encode_packet-short :
    (aead : Aead) (random : Option (List ℕ)) (b : List ℕ) (p : Packet)
    → length p.unique_id < 32
    → encode_packet aead random b p ≡ panic
unfolding encode_packet pack_unique_identifier or_panic
encode_packet-short aead random b p h = ground (arith, lt→ltb (length p.unique_id) 32 h)

add_fields-short :
    (aead : Aead) (s : Surroundings) (key : Key) (ntsreq : Packet) (server_cookie : ServerCookie)
    (buf c : List ℕ) (cs : List (List ℕ))
    → length ntsreq.unique_id < 32
    → encrypt_each aead server_cookie key.value key.id
        (firsts (length ntsreq.cookies + length ntsreq.cookie_placeholders) s.cookie_randoms)
      ≡ c ∷ cs
    → add_fields aead s key (ntsreq, server_cookie) buf ≡ panic
unfolding add_fields
add_fields-short aead s key ntsreq server_cookie buf c cs h e =
    let some_cookie : (length (c ∷ cs) == 0) ≡ false =
      ==_false (length (c ∷ cs)) 0 (λ q. omega (arith, q)) in
    elim (new_response_packet-cases (c ∷ cs) server_cookie.s2c ntsreq.unique_id) [
      | inl p ↦ rw (e, some_cookie, p) refl
      | inr (p, f, same) ↦
          let short : length p.unique_id < 32 = rw same h in
          rw (e, some_cookie, f, encode_packet-short aead s.auth_random buf p short) refl
    ]

-- An authentic request with a unique identifier of less than 32 bytes, for which at least one cookie is
-- made, stops the server: the iteration panics, whatever the valid store and the socket's results.
pub serve_packet-short :
    (aead : Aead) (s : Surroundings) (v : IpServer) (a : Arrival) (w : Written)
    (req : scion_time.Ntp.Packet.Packet) (ntsreq : Packet) (server_cookie : ServerCookie)
    (provider' : Provider) (key : Key) (c : List ℕ) (cs : List (List ℕ))
    → IsStore v.store
    → accept aead v.provider s.get_now a ≡ ok (req, some (ntsreq, server_cookie))
    → length ntsreq.unique_id < 32
    → current v.provider s.current_now s.next_now s.key_random ≡ some (provider', key)
    → encrypt_each aead server_cookie key.value key.id
        (firsts (length ntsreq.cookies + length ntsreq.cookie_placeholders) s.cookie_randoms)
      ≡ c ∷ cs
    → serve_packet aead s v a w ≡ panic
unfolding serve_packet respond
serve_packet-short aead s v a w req ntsreq server_cookie provider' key c cs valid h short k e =
    let (rxt, txt, resp, store', f, _, _) =
      handle_request-Refined v.store a.client zero_packet req a.rxt s.txt valid (omega arith) in
    rw
      (
        h,
        f,
        k,
        add_fields-short aead s key ntsreq server_cookie (scion_time.Ntp.Packet.encode_packet resp)
            c cs short e,
      )
      refl
