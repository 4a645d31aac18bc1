-- ===== src/Client.antt =====
-- core/client: how a client measures the offset of its clock.
pub mod Ip
pub mod Measure
