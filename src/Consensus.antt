-- ===== src/Consensus.antt =====
-- consensus/ and the proof-of-staked-work part of cluster/config: difficulties and mining quotas.
pub mod Boost
pub mod Posw
pub mod Window
pub mod Quota
pub mod Difficulty
mod Tests
