-- ===== src/Ntp/Validation.antt =====
-- net/ntp/validation.go: the checks on responses and requests.
pub mod Accepted
use scion_time.Base.{if◌then◌else◌, ltb, not, ℕ, ◌&&◌, ◌==◌, ◌||◌}
use scion_time.Base.Int.{ltb_ℤ, pos}
use scion_time.GoTime.{Time, sub}
use scion_time.Ntp.Header.{
  leap_indicator, leap_indicator_no_warning, leap_indicator_unknown, mode, mode_client,
  mode_reserved_0, mode_server, version, version_max, version_min,
}
use scion_time.Ntp.Packet.{Packet}

pub data Verdict : Type 0 where
  accepted unexpected_request unexpected_response panic : Verdict

unfoldable pub validate_response_metadata : Packet → Verdict
validate_response_metadata resp =
    if leap_indicator resp == leap_indicator_unknown
    then unexpected_response
    else if not (version resp == 3) && not (version resp == 4)
    then unexpected_response
    else if not (mode resp == mode_server)
    then unexpected_response
    else if resp.stratum == 0 || ltb 15 resp.stratum
    then unexpected_response
    else accepted

unfoldable pub validate_response_timestamps : Time → Time → Time → Time → Verdict
validate_response_timestamps t0 t1 t2 t3 =
    if ltb_ℤ (sub t3 t0) (pos 0)
    then panic
    else if ltb_ℤ (sub t2 t1) (pos 0)
    then unexpected_response
    else accepted

-- `src_port` is not read.
unfoldable pub validate_request : Packet → ℕ → Verdict
validate_request req src_port =
    let li = leap_indicator req in
    let vn = version req in
    let md = mode req in
    if not (li == leap_indicator_no_warning) && not (li == leap_indicator_unknown)
    then unexpected_request
    else if ltb vn version_min || ltb version_max vn
    then unexpected_request
    else if vn == 1 && not (md == mode_reserved_0) || not (vn == 1) && not (md == mode_client)
    then unexpected_request
    else accepted
