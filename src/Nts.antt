-- ===== src/Nts.antt =====
-- net/nts: the extension fields that secure an NTP packet.
pub mod Aead
pub mod Buffer
pub mod Packet
pub mod Encode
pub mod Decode
pub mod Process
