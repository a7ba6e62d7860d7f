-- ===== src/Ipamutil.antt =====
-- pkg/ipamutil: the reconciler of claims, over a handler for the provider.
pub mod Address
pub mod Reconciler
pub mod Releasing
pub mod Assigning
pub mod Reconcile
