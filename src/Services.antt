-- ===== src/Services.antt =====
-- The services: what each operation refuses, and the request that it makes.
pub mod Settled
pub mod Asks
pub mod Server
pub mod Reset
pub mod Wol
pub mod Key
pub mod Rdns
pub mod Failover
pub mod Subnet
pub mod Ip
pub mod Vswitch
pub mod Traffic
pub mod Boot
pub mod StorageBox
pub mod Refusals
