-- ===== src/Server.antt =====
-- core/server/server.go: how the server answers NTP requests.
pub mod Item
pub mod Queue
pub mod Store
pub mod Ip
