-- ===== src/Nts/Decode/Termination.antt =====
-- When the loop of DecodePacket in net/nts/nts.go ends.
use scion_time.Base.Run.{out_of_fuel, >>=-ne-out_of_fuel}
use scion_time.Base.{
  Bool-cases, List, arith, drop, false, inl, inr, leb, leb→le, length, le→leb, not, refl, suc, zero,
  ℕ, ◌&&◌, ◌+◌, ◌<◌, ◌∙◌, ◌≡◌, ◌≢◌, ◌≤◌, true, ==_iff, ◌==◌,
}
use scion_time.Base.Bytes.{at16}
use scion_time.Nts.Decode.{Decoding, decode_field, decode_loop, decode_packet, start}
use scion_time.Nts.Packet.{ext_authenticator, ntp_packet_len}

-- The type and the length in the header at a position.
abbrev pub type_at : List ℕ → ℕ → ℕ
type_at b i = at16 (drop i b) 0

abbrev pub len_at : List ℕ → ℕ → ℕ
len_at b i = at16 (drop i b) 2

-- Only an authenticator sets the flag that ends the loop.
decode_field-authenticator :
    (t len i : ℕ) (rest : List ℕ) (st : Decoding)
    → t ≢ ext_authenticator
    → (decode_field t len i rest st).found_authenticator ≡ st.found_authenticator
unfolding decode_field
decode_field-authenticator t len i rest st ne = ground arith

-- On a field of length 0 that is no authenticator, with 28 bytes at least from its position on,
-- the loop of DecodePacket does not move on: no number of rounds is enough for it to end.
pub decode_loop-endless :
    (fuel : ℕ) (b : List ℕ) (i : ℕ) (st : Decoding)
    → i + 28 ≤ length b
    → len_at b i ≡ 0
    → type_at b i ≢ ext_authenticator
    → st.found_authenticator ≡ false
    → decode_loop fuel b i st ≡ out_of_fuel
unfolding decode_loop
decode_loop-endless zero b i st h e ne f = rw (le→leb (i + 28) (length b) h, f)
decode_loop-endless (suc fuel) b i st h e ne f =
    let st' = decode_field (type_at b i) (len_at b i) i (drop (i + 4) b) st in
    let stay : i + len_at b i ≡ i = omega (arith, e) in
    let ih : decode_loop fuel b (i + len_at b i) st' ≡ out_of_fuel =
      rw stay
        (decode_loop-endless fuel b i st' h e ne (decode_field-authenticator _ _ _ _ st ne ∙ f)) in
    let test : (leb (i + 28) (length b) && not st.found_authenticator) ≡ true = ground arith in
    rw test ih

-- The positions, from `i` on, at which the loop of DecodePacket stands before it meets an
-- authenticator.
pub data Reaches (b : List ℕ) (i : ℕ) : ℕ → Type 0 where
  here : Reaches b i i
  next :
      {j k : ℕ}
      → Reaches b i j
      → j + 28 ≤ length b
      → type_at b j ≢ ext_authenticator
      → k ≡ j + len_at b j
      → Reaches b i k

-- The loop moves on from each field that it passes.
abbrev pub MovesOn : List ℕ → ℕ → Type 0
MovesOn b s =
    (j : ℕ) → Reaches b s j → j + 28 ≤ length b → type_at b j ≢ ext_authenticator → 0 < len_at b j

decode_loop-found :
    (fuel : ℕ) (b : List ℕ) (i : ℕ) (st : Decoding)
    → st.found_authenticator ≡ true
    → decode_loop fuel b i st ≢ out_of_fuel
unfolding decode_loop
decode_loop-found zero b i st f p = ground (arith, p, f)
decode_loop-found (suc fuel) b i st f p = ground (arith, p, f)

decode_field-found :
    (t len i : ℕ) (rest : List ℕ) (st : Decoding)
    → t ≡ ext_authenticator
    → (decode_field t len i rest st).found_authenticator ≡ true
unfolding decode_field
decode_field-found t len i rest st e = rw e refl

decode_loop-total :
    (fuel : ℕ) (b : List ℕ) (s i : ℕ) (st : Decoding)
    → MovesOn b s
    → Reaches b s i
    → length b ≤ fuel + i
    → decode_loop fuel b i st ≢ out_of_fuel
unfolding decode_loop
decode_loop-total zero b s i st moves r h = elim (Bool-cases (leb (i + 28) (length b))) [
  | inl e ↦ absurd (omega (arith, leb→le _ _ e))
  | inr e ↦ rw e (λ p. cc)
]
decode_loop-total (suc fuel) b s i st moves r h =
    elim (Bool-cases (leb (i + 28) (length b) && not st.found_authenticator)) [
      | inr e ↦ rw e (λ p. cc)
      | inl e ↦
          let inside : i + 28 ≤ length b = ground (arith) in
          rw e (elim (Bool-cases (type_at b i == ext_authenticator)) [
            | inl y ↦
                decode_loop-found fuel b (i + len_at b i) _
                  (decode_field-found (type_at b i) _ _ _ _ ((==_iff _ _).0 y))
            | inr n ↦
                let ne : type_at b i ≢ ext_authenticator = λ q. cc (n, (==_iff _ _).1 q) in
                decode_loop-total fuel b s (i + len_at b i) _ moves (next r inside ne refl)
                  (omega (arith, moves i r inside ne, h))
          ])
    ]

-- DecodePacket ends on every slice in which each field that its loop passes, before an authenticator
-- and with 28 bytes from its position on, has a positive length.
pub decode_packet-ne-out_of_fuel :
    (b : List ℕ) → MovesOn b ntp_packet_len → decode_packet b ≢ out_of_fuel
unfolding decode_packet
decode_packet-ne-out_of_fuel b moves =
    >>=-ne-out_of_fuel _ _
      (decode_loop-total (length b) b ntp_packet_len ntp_packet_len start moves here (omega arith))
      (λ st. ground arith)
