-- ===== src/Netbox.antt =====
-- internal/netbox: the NetBox client, and what an allocation takes from a pool and a claim.
pub mod Numbers
pub mod Metadata
pub mod Gateway
pub mod Config
pub mod Defaults
pub mod Slug
pub mod Wire
pub mod Client
