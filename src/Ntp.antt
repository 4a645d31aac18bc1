-- ===== src/Ntp.antt =====
-- net/ntp: timestamps, the packet and its wire format, and the checks on requests and responses.
pub mod Time64
pub mod Offset
pub mod Packet
pub mod Header
pub mod Validation
