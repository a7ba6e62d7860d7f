-- ===== src/Controller.antt =====
-- internal/controller: the claim handler for NetBox and the reconciler of pools.
pub mod ResolvedPrefixes
pub mod Handler
pub mod Releasing
pub mod ClaimHandler
pub mod Pools
pub mod Ledger
