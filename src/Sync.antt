-- ===== src/Sync.antt =====
-- cluster/sync/: bringing a chain up to a peer's.
pub mod Types
pub mod Ancestor
pub mod Server
mod Answers
pub mod Served
pub mod Search
mod Samples
pub mod Honest
pub mod Agreement
pub mod Meeting
pub mod Bound
pub mod Task
pub mod Linked
pub mod Queue
mod Tests
pub mod Catchup
