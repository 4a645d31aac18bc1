-- ===== src/Ntp/Packet/RoundTrip.antt =====
-- EncodePacket and DecodePacket of net/ntp/ntp.go undo one another.
use scion_time.Base.{
  List, arith, some, ℕ, ◌%◌, ◌++◌, ◌/◌, ◌<◌, ◌^◌, ◌≡◌, ap, length, le→ltb_false, none, refl, ◌↔◌,
  All, take, ◌∙◌, ◌≤◌, sym, ◌+◌, ◌∷◌,
}
use scion_time.Base.Bytes.{
  join32, put16_lem, put32_lem, IsByte, take-gather, at16, at32, at8, put16, put16-at16, put32,
  put32-at32, put8-at8, put8-int8,
}
use scion_time.Base.Int.{Fits, bits, bits8-lt, signed, signed8-bits, ℤ}
use scion_time.Ntp.Packet.{IsPacket, Packet, decode_packet, encode_packet, packet_at, packet_len}
use scion_time.Ntp.Time64.{IsTime64, Time64}
use native.Mathlib.Decide.{dec_lt}

put8_lem : (x : ℕ) → x < 2 ^ 8 → x % 256 ≡ x
put8_lem x h = omega arith

int8_lem : (z : ℤ) → Fits (2 ^ 7) z → signed (2 ^ 7) (bits (2 ^ 8) z % 256) ≡ z
int8_lem z h = rw (put8_lem _ (bits8-lt z)) (signed8-bits z h)

time64_lem :
    (t : Time64)
    → IsTime64 t
    → ◌≡◌ {A = Time64}
        (record {
          seconds =
              join32
                (t.seconds / 2 ^ 24 % 256)
                (t.seconds / 2 ^ 16 % 256)
                (t.seconds / 2 ^ 8 % 256)
                (t.seconds % 256);
          fraction =
              join32
                (t.fraction / 2 ^ 24 % 256)
                (t.fraction / 2 ^ 16 % 256)
                (t.fraction / 2 ^ 8 % 256)
                (t.fraction % 256);
        })
        t
time64_lem t h =
    λ i. record { seconds = put32_lem t.seconds h.0 i; fraction = put32_lem t.fraction h.1 i }

packet_at-encode_packet :
    (p : Packet) (rest : List ℕ) → IsPacket p → packet_at (encode_packet p ++ rest) ≡ p
unfolding encode_packet
packet_at-encode_packet p rest v = λ i. record {
  lvm = put8_lem p.lvm v.lvm i;
  stratum = put8_lem p.stratum v.stratum i;
  poll = int8_lem p.poll v.poll i;
  precision = int8_lem p.precision v.precision i;
  root_delay = record {
    seconds = put16_lem p.root_delay.seconds v.root_delay.0 i;
    fraction = put16_lem p.root_delay.fraction v.root_delay.1 i;
  };
  root_dispersion = record {
    seconds = put16_lem p.root_dispersion.seconds v.root_dispersion.0 i;
    fraction = put16_lem p.root_dispersion.fraction v.root_dispersion.1 i;
  };
  reference_id = put32_lem p.reference_id v.reference_id i;
  reference_time = time64_lem p.reference_time v.reference_time i;
  origin_time = time64_lem p.origin_time v.origin_time i;
  receive_time = time64_lem p.receive_time v.receive_time i;
  transmit_time = time64_lem p.transmit_time v.transmit_time i;
}

decode_packet-fits : (b : List ℕ) → packet_len ≤ length b → decode_packet b ≡ some (packet_at b)
unfolding decode_packet
decode_packet-fits b h = rw (le→ltb_false _ _ h)

-- A packet of the Go types is decoded from what EncodePacket wrote, whatever follows it.
pub decode_packet-encode_packet :
    (p : Packet) (rest : List ℕ) → IsPacket p → decode_packet (encode_packet p ++ rest) ≡ some p
unfolding encode_packet
decode_packet-encode_packet p rest v =
    decode_packet-fits (encode_packet p ++ rest) (omega arith)
    ∙ ap some (packet_at-encode_packet p rest v)

pub length-encode_packet : (p : Packet) → length (encode_packet p) ≡ packet_len
unfolding encode_packet
length-encode_packet p = refl

-- DecodePacket fails exactly on slices shorter than a packet.
pub decode_packet-none : (b : List ℕ) → (decode_packet b ≡ none) ↔ (length b < packet_len)
unfolding decode_packet
decode_packet-none b = ground arith

encode_packet-packet_at :
    (b : List ℕ)
    → All IsByte b
    → packet_len ≤ length b
    → encode_packet (packet_at b) ≡ take packet_len b
unfolding encode_packet
encode_packet-packet_at b v h =
    (put8-at8 b v 0 (
      put8-at8 b v 1 (
        put8-int8 b v 2 (
          put8-int8 b v 3 (
            time32 4 (
              time32 8
                (put32-at32 b v 12 (time64 16 (time64 24 (time64 32 (time64 40 refl)))))))))))
    ∙ sym (take-gather 48 b h)
  where
    time32 :
        (i : ℕ) {r r' : List ℕ}
        → r ≡ r'
        → put16 (at16 b i) (put16 (at16 b (i + 2)) r)
          ≡ at8 b i ∷ at8 b (i + 1) ∷ at8 b (i + 2) ∷ at8 b (i + 2 + 1) ∷ r'
    time32 i e = put16-at16 b v i (put16-at16 b v (i + 2) e)

    time64 :
        (i : ℕ) {r r' : List ℕ}
        → r ≡ r'
        → put32 (at32 b i) (put32 (at32 b (i + 4)) r)
          ≡ at8 b i
            ∷ at8 b (i + 1)
            ∷ at8 b (i + 2)
            ∷ at8 b (i + 3)
            ∷ at8 b (i + 4)
            ∷ at8 b (i + 4 + 1)
            ∷ at8 b (i + 4 + 2)
            ∷ at8 b (i + 4 + 3)
            ∷ r'
    time64 i e = put32-at32 b v i (put32-at32 b v (i + 4) e)

-- EncodePacket gives back the 48 bytes in front of any slice that DecodePacket accepts, so a
-- decoded packet holds all that was on the wire.
pub encode_packet-decode_packet :
    (b : List ℕ) (p : Packet)
    → All IsByte b
    → decode_packet b ≡ some p
    → encode_packet p ≡ take packet_len b
encode_packet-decode_packet b p v e = elim (dec_lt (length b) packet_len) [
  | yes h ↦ cc (e, (decode_packet-none b).1 h)
  | no h ↦
      let q : packet_at b ≡ p = cc (decode_packet-fits b (omega arith), e) in
      rw (← q) (encode_packet-packet_at b v (omega arith))
]
