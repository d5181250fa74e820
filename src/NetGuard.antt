-- ===== src/NetGuard.antt =====
-- internal/netguard: the guard on the hosts of upstream URLs (contract.go, guard.go).
pub mod Address
pub mod Ranges
pub mod Guard
pub mod Hosts
pub mod Examples
