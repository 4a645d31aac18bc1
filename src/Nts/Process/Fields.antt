-- ===== src/Nts/Process/Fields.antt =====
-- The extension fields that net/nts/nts.go writes, as bytes, where values need no padding.
use scion_time.Base.Run.{ok, Run}
use mathlib.Core.List.{append-nil, append_assoc}
use scion_time.Base.{
  List, [], arith, length, length-append, refl, ℕ, ◌%◌, ◌++◌, ◌+◌, ◌<◌, ◌^◌, ◌∷◌, ◌≡◌, ◌≤◌, ◌-◌,
  All, some, true,
}
use scion_time.Base.Bytes.{put16}
use scion_time.Nts.Buffer.{copy_in-fits, write16-ok}
use scion_time.Nts.Encode.{pack_field, round_up4, pack_authenticator, pack_each, pad_len}
use scion_time.Nts.Packet.{ext_cookie, Authenticator, NtsError, ext_authenticator}
use scion_time.Nts.Aead.{Aead}
use scion_time.Ntske.Records.{pack}

abbrev pub field : ℕ → List ℕ → List ℕ → List ℕ
field t v r = put16 t (put16 (4 + length v) (v ++ r))

-- A value that is aligned, and short enough for a header.
abbrev pub IsValue : List ℕ → Type 0
IsValue v = (length v % 4 ≡ 0) × (length v < 2 ^ 15)

-- The fields of the cookies in front of `r`, and their size.
abbrev pub cookie_fields : List (List ℕ) → List ℕ → List ℕ
cookie_fields [] r = r
cookie_fields (c ∷ cs) r = field ext_cookie c (cookie_fields cs r)

abbrev pub size : List (List ℕ) → ℕ
size [] = 0
size (c ∷ cs) = 4 + length c + size cs

pub length-field : (t : ℕ) (v r : List ℕ) → length (field t v r) ≡ 4 + length v + length r
length-field t v r = omega (arith, length-append v r)

pub length-cookie_fields :
    (cs : List (List ℕ)) (r : List ℕ) → length (cookie_fields cs r) ≡ size cs + length r
length-cookie_fields [] r = omega arith
length-cookie_fields (c ∷ cs) r =
    omega (arith, length-field ext_cookie c (cookie_fields cs r), length-cookie_fields cs r)

pub field-append : (t : ℕ) (v r : List ℕ) → field t v [] ++ r ≡ field t v r
field-append t v r = rw (append-nil v) refl

pub cookie_fields-append :
    (cs : List (List ℕ)) (r : List ℕ) → cookie_fields cs [] ++ r ≡ cookie_fields cs r
cookie_fields-append [] r = refl
cookie_fields-append (c ∷ cs) r =
    rw (append_assoc c (cookie_fields cs []) r, cookie_fields-append cs r) refl

pub cookie_fields-append_cookies :
    (cs ds : List (List ℕ)) (r : List ℕ)
    → cookie_fields (cs ++ ds) r ≡ cookie_fields cs (cookie_fields ds r)
cookie_fields-append_cookies [] ds r = refl
cookie_fields-append_cookies (c ∷ cs) ds r = rw (cookie_fields-append_cookies cs ds r) refl

pub values-append :
    (cs ds : List (List ℕ)) → All IsValue cs → All IsValue ds → All IsValue (cs ++ ds)
values-append [] ds v w = w
values-append (c ∷ cs) ds v w = (v.0, values-append cs ds v.1 w)

pub length-size : (cs : List (List ℕ)) → length cs ≤ size cs
length-size [] = omega arith
length-size (c ∷ cs) = omega (arith, length-size cs)

pub size-append : (cs ds : List (List ℕ)) → size (cs ++ ds) ≡ size cs + size ds
size-append [] ds = omega arith
size-append (c ∷ cs) ds = omega (arith, size-append cs ds)

pub pack_field-writes :
    (limit t : ℕ) (v buf : List ℕ)
    → IsValue v
    → length buf + (4 + length v) ≤ limit
    → pack_field limit t v buf ≡ ok (buf ++ field t v [])
unfolding pack_field
pack_field-writes limit t v buf (a, s) h =
    let up : round_up4 (length v) ≡ length v = unfold round_up4 in omega (arith, a) in
    let none : length v - length v ≡ 0 = omega arith in
    let header : (4 + length v % 2 ^ 16) % 2 ^ 16 ≡ 4 + length v = omega (arith, s) in
    let b1 : List ℕ = buf ++ put16 t [] in
    let b2 : List ℕ = b1 ++ put16 (4 + length v) [] in
    let l1 : length b1 ≡ length buf + 2 = omega (arith, length-append buf (put16 t [])) in
    let l2 : length b2 ≡ length buf + 4 =
      omega (arith, l1, length-append b1 (put16 (4 + length v) [])) in
    rw
      (
        up,
        none,
        header,
        write16-ok limit t buf (omega (arith, h)),
        write16-ok limit (4 + length v) b1 (omega (arith, h, l1)),
        copy_in-fits limit v b2 (omega (arith, h, l2)),
        copy_in-fits limit [] (b2 ++ v) (omega (arith, h, l2, length-append b2 v)),
        append-nil (b2 ++ v),
        append-nil v,
        append_assoc b1 (put16 (4 + length v) []) v,
        append_assoc buf (put16 t []) (put16 (4 + length v) v),
      )
      refl

pub pack_each-writes :
    (pack : List ℕ → List ℕ → Run NtsError (List ℕ)) (limit : ℕ) (cs : List (List ℕ)) (buf : List ℕ)
    → ((c b : List ℕ) → pack c b ≡ pack_field limit ext_cookie c b)
    → All IsValue cs
    → length buf + size cs ≤ limit
    → pack_each pack cs buf ≡ ok (buf ++ cookie_fields cs [])
unfolding pack_each
pack_each-writes pack limit [] buf same v h = rw (append-nil buf) refl
pack_each-writes pack limit (c ∷ cs) buf same v h =
    rw
      (
        same c buf,
        pack_field-writes limit ext_cookie c buf v.0 (omega (arith, h)),
        pack_each-writes pack limit cs (buf ++ field ext_cookie c []) same v.1 (
            omega
              (arith, h, length-append buf (field ext_cookie c []), length-field ext_cookie c [])),
        append_assoc buf (field ext_cookie c []) (cookie_fields cs []),
        field-append ext_cookie c (cookie_fields cs []),
      )
      refl

-- The value of the authenticator's field.
abbrev pub sealed : List ℕ → List ℕ → List ℕ
sealed nonce cipher = put16 (length nonce) (put16 (length cipher) (nonce ++ cipher))

pub pack_authenticator-writes :
    (aead : Aead) (nonce : List ℕ) (limit : ℕ) (a : Authenticator) (buf : List ℕ)
    → aead.accepts_key a.key ≡ true
    → length nonce ≡ 16
    → length a.plain_text % 4 ≡ 0
    → length a.plain_text < 2 ^ 14
    → length buf + 40 + length a.plain_text ≤ limit
    → pack_authenticator aead (some nonce) limit a buf
      ≡ ok (
          buf ++ field ext_authenticator (sealed nonce (aead.seal a.key nonce a.plain_text buf)) [])
unfolding pack_authenticator pad_len
pack_authenticator-writes aead nonce limit a buf k n p s h =
    let cipher : List ℕ = aead.seal a.key nonce a.plain_text buf in
    let size : length cipher ≡ 16 + length a.plain_text =
      aead.length-seal a.key nonce a.plain_text buf in
    let whole : length cipher % 2 ^ 16 ≡ length cipher = omega (arith, size, s) in
    let aligned : (2 ^ 16 - length cipher) % 2 ^ 16 % 4 ≡ 0 = omega (arith, size, p, s) in
    let short : (8 + 16 + 0 + length cipher + 0) % 2 ^ 16 ≡ 24 + length cipher =
      omega (arith, size, s) in
    let b1 : List ℕ = buf ++ put16 ext_authenticator [] in
    let b2 : List ℕ = b1 ++ put16 (24 + length cipher) [] in
    let b3 : List ℕ = b2 ++ put16 16 [] in
    let b4 : List ℕ = b3 ++ put16 (length cipher) [] in
    let l1 : length b1 ≡ length buf + 2 = length-append buf (put16 ext_authenticator []) in
    let l2 : length b2 ≡ length buf + 4 =
      omega (arith, l1, length-append b1 (put16 (24 + length cipher) [])) in
    let l3 : length b3 ≡ length buf + 6 = omega (arith, l2, length-append b2 (put16 16 [])) in
    let l4 : length b4 ≡ length buf + 8 =
      omega (arith, l3, length-append b3 (put16 (length cipher) [])) in
    let b5 : List ℕ = b4 ++ nonce in
    let l5 : length b5 ≡ length buf + 24 = omega (arith, n, l4, length-append b4 nonce) in
    let room : length buf + 24 + length cipher ≤ limit = omega (arith, size, h) in
    let b6 : List ℕ = b5 ++ cipher in
    let l6 : length b6 ≡ length buf + 24 + length cipher =
      omega (arith, l5, length-append b5 cipher) in
    let value : 4 + length (sealed nonce cipher) ≡ 24 + length cipher =
      omega (arith, n, length-append nonce cipher) in
    rw
      (
        k,
        value,
        n,
        whole,
        aligned,
        short,
        write16-ok limit ext_authenticator buf (omega (arith, room)),
        write16-ok limit (24 + length cipher) b1 (omega (arith, room, l1)),
        write16-ok limit 16 b2 (omega (arith, room, l2)),
        write16-ok limit (length cipher) b3 (omega (arith, room, l3)),
        copy_in-fits limit nonce b4 (omega (arith, room, l4, n)),
        copy_in-fits limit [] b5 (omega (arith, room, l5)),
        append-nil b5,
        copy_in-fits limit cipher b5 (omega (arith, room, l5)),
        copy_in-fits limit [] b6 (omega (arith, room, l6)),
        append-nil b6,
      )
      (rw
        (
          append-nil (nonce ++ cipher),
          append_assoc b4 nonce cipher,
          append_assoc b3 (put16 (length cipher) []) (nonce ++ cipher),
          append_assoc b2 (put16 16 []) (put16 (length cipher) (nonce ++ cipher)),
          append_assoc b1 (put16 (24 + length cipher) [])
              (put16 16 (put16 (length cipher) (nonce ++ cipher))),
          append_assoc buf (put16 ext_authenticator [])
              (put16 (24 + length cipher) (put16 16 (put16 (length cipher) (nonce ++ cipher)))),
        )
        refl)
