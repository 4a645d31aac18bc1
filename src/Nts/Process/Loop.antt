-- ===== src/Nts/Process/Loop.antt =====
-- The loops of DecodePacket and authenticate in net/nts/nts.go over the fields that the pack methods
-- write.
use mathlib.Core.List.{append-nil, append_assoc}
use scion_time.Base.{
  All, List, [], ap, arith, drop, false, length, length-append, le→leb, refl, suc, sym, true, zero,
  ℕ, ◌%◌, ◌++◌, ◌+◌, ◌-◌, ◌<◌, ◌^◌, ◌∙◌, ◌∷◌, ◌≡◌, ◌≤◌, leb,
}
use scion_time.Base.Bytes.{at16, put16_lem, take-append}
use scion_time.Base.Run.{ok}
use scion_time.Nts.Buffer.{filled}
use scion_time.Nts.Decode.{Decoding, decode_field, decode_loop, unpack_value, value_len}
use scion_time.Nts.Packet.{ext_cookie}
use scion_time.Nts.Process.Fields.{
  IsValue, cookie_fields, field, field-append, length-cookie_fields, length-field, size,
}
use scion_time.Nts.Process.{cookie_loop}

drop-behind : (pre : List ℕ) (n : ℕ) (r : List ℕ) → drop (length pre + n) (pre ++ r) ≡ drop n r
drop-behind [] n r = let e : 0 + n ≡ n = omega arith in rw e refl
drop-behind (x ∷ pre) n r =
    let e : suc (length pre) + n ≡ suc (length pre + n) = omega arith in rw e (drop-behind pre n r)

pub filled-append : (v r : List ℕ) → filled (length v) (v ++ r) ≡ v
unfolding filled
filled-append v r =
    let enough : length v - length (v ++ r) ≡ 0 = omega (arith, length-append v r) in
    rw (enough, take-append v r, append-nil v) refl

pub unpack_value-append : (v r : List ℕ) → IsValue v → unpack_value (4 + length v) (v ++ r) ≡ v
unfolding unpack_value value_len
unpack_value-append v r h =
    let size : (4 + length v + 2 ^ 16 - 4) % 2 ^ 16 ≡ length v = omega (arith, h.1) in
    rw size (filled-append v r)

-- A field of `b` at the position `i`.
pub record FieldAt (b : List ℕ) (i t : ℕ) (v r : List ℕ) : Type 0 where
  pub type_is : at16 (drop i b) 0 ≡ t
  pub len_is : at16 (drop i b) 2 ≡ 4 + length v
  pub value_is : drop (i + 4) b ≡ v ++ r

pub field_at :
    (b pre : List ℕ) (t : ℕ) (v r : List ℕ)
    → t < 2 ^ 16
    → length v < 2 ^ 15
    → b ≡ pre ++ field t v r
    → FieldAt b (length pre) t v r
field_at b pre t v r ht hv e =
    let here : drop (length pre) b ≡ field t v r = rw e (
      ap (λ (m : ℕ). drop m (pre ++ field t v r)) (omega arith)
      ∙ drop-behind pre 0 (field t v r)) in
    record {
      type_is = rw here (put16_lem t ht);
      len_is = rw here (put16_lem (4 + length v) (omega (arith, hv)));
      value_is = rw e (drop-behind pre 4 (field t v r));
    }

-- One round of DecodePacket's loop.
pub decode_loop-field :
    (fuel : ℕ) (b : List ℕ) (i t : ℕ) (v r : List ℕ) (st : Decoding)
    → FieldAt b i t v r
    → i + 28 ≤ length b
    → st.found_authenticator ≡ false
    → decode_loop (suc fuel) b i st
      ≡ decode_loop fuel b (i + (4 + length v)) (decode_field t (4 + length v) i (v ++ r) st)
unfolding decode_loop
decode_loop-field fuel b i t v r st f h n =
    rw (decode_loop, f.type_is, f.len_is, f.value_is, le→leb (i + 28) (length b) h, n) refl

pub decode_loop-done :
    (fuel : ℕ) (b : List ℕ) (i : ℕ) (st : Decoding)
    → st.found_authenticator ≡ true
    → decode_loop fuel b i st ≡ ok st
unfolding decode_loop
decode_loop-done zero b i st h = ground arith
decode_loop-done (suc fuel) b i st h = ground arith

abbrev pub with_cookies : Decoding → List (List ℕ) → Decoding
with_cookies st cs = record st { pkt = record st.pkt { cookies = st.pkt.cookies ++ cs } }

decode_field-cookie :
    (i : ℕ) (v r : List ℕ) (st : Decoding)
    → IsValue v
    → decode_field ext_cookie (4 + length v) i (v ++ r) st ≡ with_cookies st (v ∷ [])
unfolding decode_field
decode_field-cookie i v r st h = rw (unpack_value-append v r h) refl

pub next_field :
    (b pre : List ℕ) (t : ℕ) (v r : List ℕ)
    → b ≡ pre ++ field t v r
    → b ≡ (pre ++ field t v []) ++ r
next_field b pre t v r e =
    e ∙ sym (append_assoc pre (field t v []) r ∙ ap (λ (q : List ℕ). pre ++ q) (field-append t v r))

pub length-next :
    (pre : List ℕ) (t : ℕ) (v : List ℕ) → length (pre ++ field t v []) ≡ length pre + (4 + length v)
length-next pre t v = omega (arith, length-append pre (field t v []), length-field t v [])

-- The rounds over the cookies' fields.
pub decode_loop-cookies :
    (cs : List (List ℕ)) (fuel : ℕ) (b pre r : List ℕ) (st : Decoding)
    → All IsValue cs
    → b ≡ pre ++ cookie_fields cs r
    → 28 ≤ length r
    → st.found_authenticator ≡ false
    → decode_loop (length cs + fuel) b (length pre) st
      ≡ decode_loop fuel b (length pre + size cs) (with_cookies st cs)
decode_loop-cookies [] fuel b pre r st v e h n =
    let none_left : 0 + fuel ≡ fuel = omega arith in
    let same_place : length pre + 0 ≡ length pre = omega arith in
    rw (none_left, same_place, append-nil st.pkt.cookies) refl
decode_loop-cookies (c ∷ cs) fuel b pre r st v e h n =
    let rest : List ℕ = cookie_fields cs r in
    let pre' : List ℕ = pre ++ field ext_cookie c [] in
    let f = field_at b pre ext_cookie c rest (omega arith) v.0.1 e in
    let long : length pre + 28 ≤ length b = rw e (
      omega (
        arith,
        h,
        length-append pre (field ext_cookie c rest),
        length-field ext_cookie c rest,
        length-cookie_fields cs r,
      )) in
    let ih =
      decode_loop-cookies cs fuel b pre' r (with_cookies st (c ∷ [])) v.1
        (next_field b pre ext_cookie c rest e) h n in
    let place : length pre + (4 + length c) + size cs ≡ length pre + (4 + length c + size cs) =
      omega arith in
    let one : suc (length cs) + fuel ≡ suc (length cs + fuel) = omega arith in
    rw
      (
        one,
        decode_loop-field (length cs + fuel) b (length pre) ext_cookie c rest st f long n,
        decode_field-cookie (length pre) c rest st v.0,
      )
      (rw (length-next pre ext_cookie c) at ih
        ∙ rw (place, append_assoc st.pkt.cookies (c ∷ []) cs) refl)

leb_no : (m n : ℕ) → n < m → leb m n ≡ false
leb_no m n h = ground arith

cookie_loop-done :
    (fuel : ℕ) (b : List ℕ) (i : ℕ) (acc : List (List ℕ))
    → length b < i + 28
    → cookie_loop fuel b i acc ≡ ok acc
unfolding cookie_loop
cookie_loop-done zero b i acc h = let n = leb_no (i + 28) (length b) h in rw n refl
cookie_loop-done (suc fuel) b i acc h = let n = leb_no (i + 28) (length b) h in rw n refl

-- The rounds of authenticate over cookies of at least 24 bytes.
pub cookie_loop-cookies :
    (cs : List (List ℕ)) (fuel : ℕ) (b pre : List ℕ) (acc : List (List ℕ))
    → All IsValue cs
    → All (λ (c : List ℕ). 24 ≤ length c) cs
    → b ≡ pre ++ cookie_fields cs []
    → cookie_loop (length cs + fuel) b (length pre) acc ≡ ok (acc ++ cs)
unfolding cookie_loop
cookie_loop-cookies [] fuel b pre acc v w e =
    rw (append-nil acc)
      (cookie_loop-done (0 + fuel) b (length pre) acc (rw e (omega (arith, length-append pre []))))
cookie_loop-cookies (c ∷ cs) fuel b pre acc v w e =
    let rest : List ℕ = cookie_fields cs [] in
    let f = field_at b pre ext_cookie c rest (omega arith) v.0.1 e in
    let long : length pre + 28 ≤ length b = rw e (
      omega (
        arith,
        w.0,
        length-append pre (field ext_cookie c rest),
        length-field ext_cookie c rest,
      )) in
    let ih =
      cookie_loop-cookies cs fuel b (pre ++ field ext_cookie c []) (acc ++ c ∷ []) v.1 w.1
        (next_field b pre ext_cookie c rest e) in
    let one : suc (length cs) + fuel ≡ suc (length cs + fuel) = omega arith in
    rw
      (
        one,
        cookie_loop,
        f.type_is,
        f.len_is,
        f.value_is,
        le→leb (length pre + 28) (length b) long,
        unpack_value-append c rest v.0,
      )
      (rw (length-next pre ext_cookie c) at ih ∙ rw (append_assoc acc (c ∷ []) cs) refl)
