-- ===== src/Account.antt =====
-- account/: branches (shards of chains), addresses and which branch an address belongs to.
pub mod Branch
pub mod Address
pub mod Shards
pub mod Codec
mod Tests
