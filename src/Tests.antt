-- ===== src/Tests.antt =====
-- Runs of the definitions and the theorems at concrete inputs.
mod Clock
mod Server
mod Store
mod Wire
mod Security
mod Nts
mod Ip
mod Client
mod Random
