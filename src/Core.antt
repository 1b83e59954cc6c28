-- ===== src/Core.antt =====
-- core/: gas, the transition of the state by one message, the cursor over deposits, and the
-- validators of blocks.
pub mod Gas
pub mod State
pub mod Message
pub mod Transition
pub mod Intrinsic
pub mod Accounting
pub mod Refund
pub mod XshardCursor
pub mod CursorEnd
pub mod RootValidator
pub mod RootGroups
pub mod RootAcceptance
pub mod SameChain
pub mod Amounts
pub mod MinorValidator
pub mod MinorAcceptance
mod CursorTests
mod RootTests
mod MinorTests
mod Tests
