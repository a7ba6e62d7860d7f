-- ===== src/Tests.antt =====
-- Examples on which the theorems are applied, over a small world: a number that counts the calls.
mod World
mod Naming
mod Client
mod Handler
mod Pools
mod Claims
mod Retry
mod Ledger
mod Paging
mod Listing
mod Program
mod Server
mod Protected
