-- ===== src/Csptp.antt =====
-- net/csptp/csptp.go: the messages and TLVs of the client-server PTP, and the delays computed from
-- its timestamps.
pub mod Timestamp
pub mod Message
pub mod RequestTlv
pub mod ResponseTlv
pub mod Timing
