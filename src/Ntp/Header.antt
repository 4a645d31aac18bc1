-- ===== src/Ntp/Header.antt =====
-- net/ntp/ntp.go: the leap indicator, version and mode, which share the first byte of a packet.
-- A setter that panics gives `none`.
pub mod Fields
use Prim.Native.Nat.{bit_and, bit_or}
use scion_time.Base.{Option, if◌then◌else◌, none, some, ℕ, ◌%◌, ◌*◌, ◌/◌, ◌==◌, ◌^◌}
use scion_time.Ntp.Packet.{Packet}

abbrev pub leap_indicator_no_warning : ℕ
leap_indicator_no_warning = 0

abbrev pub leap_indicator_unknown : ℕ
leap_indicator_unknown = 3

abbrev pub version_min : ℕ
version_min = 1

abbrev pub version_max : ℕ
version_max = 4

abbrev pub mode_reserved_0 : ℕ
mode_reserved_0 = 0

abbrev pub mode_client : ℕ
mode_client = 3

abbrev pub mode_server : ℕ
mode_server = 4

unfoldable pub leap_indicator : Packet → ℕ
leap_indicator p = bit_and (p.lvm / 2 ^ 6) 0b11

unfoldable pub set_leap_indicator : ℕ → Packet → Option Packet
set_leap_indicator l p =
    if bit_and l 0b11 == l
    then some (record p { lvm = bit_or (bit_and p.lvm 0b0011_1111) (l * 2 ^ 6 % 256) })
    else none

unfoldable pub version : Packet → ℕ
version p = bit_and (p.lvm / 2 ^ 3) 0b111

unfoldable pub set_version : ℕ → Packet → Option Packet
set_version v p =
    if bit_and v 0b111 == v
    then some (record p { lvm = bit_or (bit_and p.lvm 0b1100_0111) (v * 2 ^ 3 % 256) })
    else none

unfoldable pub mode : Packet → ℕ
mode p = bit_and p.lvm 0b111

unfoldable pub set_mode : ℕ → Packet → Option Packet
set_mode m p =
    if bit_and m 0b111 == m
    then some (record p { lvm = bit_or (bit_and p.lvm 0b1111_1000) m })
    else none
