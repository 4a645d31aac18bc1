-- ===== src/Ntp/Validation/Accepted.antt =====
-- Which packets the checks of net/ntp/validation.go accept.
use scion_time.Base.{arith, ℕ, ◌%◌, ◌/◌, ◌<◌, ◌↔◌, ◌≡◌, ◌≢◌, ◌≤◌, ◌⊎◌}
use scion_time.Base.Int.{parts_disjoint, saturate64, ◌-ℤ◌, ◌<ℤ◌, ◌≤ℤ◌, -ℤ_parts}
use scion_time.GoTime.{Time, sub}
use scion_time.Ntp.Header.Fields.{leap_indicator_lem, mode_lem, version_lem}
use scion_time.Ntp.Packet.{Packet}
use scion_time.Ntp.Validation.{
  accepted, panic, validate_request, validate_response_metadata, validate_response_timestamps,
}

-- A response is accepted exactly if the leap indicator is known, the version 3 or 4, the mode that
-- of a server and the stratum from 1 to 15; the fields are given by the bits of the first byte.
pub validate_response_metadata-accepted :
    (p : Packet)
    → p.lvm < 256
    → (validate_response_metadata p ≡ accepted) ↔ (
        (p.lvm / 64 ≢ 3)
        × ((p.lvm / 8 % 8 ≡ 3) ⊎ (p.lvm / 8 % 8 ≡ 4))
        × (p.lvm % 8 ≡ 4)
        × (1 ≤ p.stratum)
        × (p.stratum ≤ 15))
unfolding validate_response_metadata
validate_response_metadata-accepted p h =
    rw (leap_indicator_lem p h, version_lem p h, mode_lem p h) (ground arith)

-- A request is accepted exactly if the leap indicator is 0 or 3 and either the version is 1 and
-- the mode 0, or the version is 2, 3 or 4 and the mode that of a client.
pub validate_request-accepted :
    (p : Packet) (src_port : ℕ)
    → p.lvm < 256
    → (validate_request p src_port ≡ accepted) ↔ (
        ((p.lvm / 64 ≡ 0) ⊎ (p.lvm / 64 ≡ 3))
        × (((p.lvm / 8 % 8 ≡ 1) × (p.lvm % 8 ≡ 0))
            ⊎ ((2 ≤ p.lvm / 8 % 8) × (p.lvm / 8 % 8 ≤ 4) × (p.lvm % 8 ≡ 3))))
unfolding validate_request
validate_request-accepted p src_port h =
    rw (leap_indicator_lem p h, version_lem p h, mode_lem p h) (ground arith)

-- The timestamps of a response are accepted exactly if neither clock ran backwards over the
-- exchange, and the check panics exactly if the client's did.
pub validate_response_timestamps_cases :
    (t0 t1 t2 t3 : Time)
    → ((validate_response_timestamps t0 t1 t2 t3 ≡ accepted) ↔ ((t0 ≤ℤ t3) × (t1 ≤ℤ t2)))
      × ((validate_response_timestamps t0 t1 t2 t3 ≡ panic) ↔ (t3 <ℤ t0))
unfolding validate_response_timestamps sub saturate64
validate_response_timestamps_cases t0 t1 t2 t3 = (
  ground
      (arith, -ℤ_parts t3 t0, -ℤ_parts t2 t1, parts_disjoint (t3 -ℤ t0), parts_disjoint (t2 -ℤ t1)),
  ground (arith, -ℤ_parts t3 t0, parts_disjoint (t3 -ℤ t0)),
)
