-- ===== src/Ntske.antt =====
-- net/ntske: the keys that the NTP and NTS-KE servers share, and the cookies made with them.
pub mod Cookies
pub mod Provider
pub mod Records
pub mod Sealed
pub mod Fetcher
