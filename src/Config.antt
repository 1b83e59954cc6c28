-- ===== src/Config.antt =====
-- cluster/config/: which shards there are, and where a key belongs.
pub mod Shards
pub mod Routing
pub mod Slaves
mod Tests
