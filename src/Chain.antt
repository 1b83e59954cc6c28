-- ===== src/Chain.antt =====
-- core/rootblockchain.go: the store of root blocks, its canonical chain, and how it moves.
pub mod Store
pub mod Reorg
pub mod Canonical
pub mod Meeting
pub mod Write
pub mod Heaviest
pub mod Ancestor
pub mod Hashes
pub mod Rewind
pub mod Rewound
pub mod Coinbase
pub mod Rewards
mod RewardTests
mod Tests
pub mod Counts
