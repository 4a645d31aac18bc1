-- ===== src/Ntp/Packet.antt =====
-- net/ntp/ntp.go: the packet, EncodePacket and DecodePacket. A slice is the list of its bytes; the
-- encoder always leaves a slice of exactly 48 bytes, whether or not it reuses the array behind it.
pub mod RoundTrip
use scion_time.Base.{List, Option, [], if◌then◌else◌, length, ltb, none, some, ℕ, ◌+◌, ◌<◌, ◌^◌}
use scion_time.Base.Bytes.{at16, at32, at8, put16, put32, put8}
use scion_time.Base.Int.{Fits, bits, signed, ℤ}
use scion_time.Ntp.Time64.{IsTime64, Time64}

abbrev pub packet_len : ℕ
packet_len = 48

pub record Time32 : Type 0 where
  pub seconds : ℕ
  pub fraction : ℕ

-- `poll` and `precision` are int8, the other plain fields uint8 and uint32.
pub record Packet : Type 0 where
  pub lvm : ℕ
  pub stratum : ℕ
  pub poll : ℤ
  pub precision : ℤ
  pub root_delay : Time32
  pub root_dispersion : Time32
  pub reference_id : ℕ
  pub reference_time : Time64
  pub origin_time : Time64
  pub receive_time : Time64
  pub transmit_time : Time64

-- The ranges of the Go types.
pub record IsPacket (p : Packet) : Type 0 where
  pub lvm : p.lvm < 2 ^ 8
  pub stratum : p.stratum < 2 ^ 8
  pub poll : Fits (2 ^ 7) p.poll
  pub precision : Fits (2 ^ 7) p.precision
  pub root_delay : (p.root_delay.seconds < 2 ^ 16) × (p.root_delay.fraction < 2 ^ 16)
  pub root_dispersion : (p.root_dispersion.seconds < 2 ^ 16) × (p.root_dispersion.fraction < 2 ^ 16)
  pub reference_id : p.reference_id < 2 ^ 32
  pub reference_time : IsTime64 p.reference_time
  pub origin_time : IsTime64 p.origin_time
  pub receive_time : IsTime64 p.receive_time
  pub transmit_time : IsTime64 p.transmit_time

abbrev put_time32 : Time32 → List ℕ → List ℕ
put_time32 t r = put16 t.seconds (put16 t.fraction r)

abbrev put_time64 : Time64 → List ℕ → List ℕ
put_time64 t r = put32 t.seconds (put32 t.fraction r)

abbrev time32_at : List ℕ → ℕ → Time32
time32_at b i = record { seconds = at16 b i; fraction = at16 b (i + 2) }

abbrev time64_at : List ℕ → ℕ → Time64
time64_at b i = record { seconds = at32 b i; fraction = at32 b (i + 4) }

-- buf[0] to buf[47]
unfoldable pub encode_packet : Packet → List ℕ
encode_packet p = put8 p.lvm (
    put8 p.stratum (
      put8 (bits (2 ^ 8) p.poll) (
        put8 (bits (2 ^ 8) p.precision) (
          put_time32 p.root_delay (
            put_time32 p.root_dispersion (
              put32 p.reference_id (
                put_time64 p.reference_time (
                  put_time64 p.origin_time
                    (put_time64 p.receive_time (put_time64 p.transmit_time []))))))))))

-- The fields at their offsets.
abbrev pub packet_at : List ℕ → Packet
packet_at b = record {
  lvm = at8 b 0;
  stratum = at8 b 1;
  poll = signed (2 ^ 7) (at8 b 2);
  precision = signed (2 ^ 7) (at8 b 3);
  root_delay = time32_at b 4;
  root_dispersion = time32_at b 8;
  reference_id = at32 b 12;
  reference_time = time64_at b 16;
  origin_time = time64_at b 24;
  receive_time = time64_at b 32;
  transmit_time = time64_at b 40;
}

-- `none` is errUnexpectedPacketSize.
unfoldable pub decode_packet : List ℕ → Option Packet
decode_packet b = if ltb (length b) packet_len then none else some (packet_at b)
