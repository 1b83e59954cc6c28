-- ===== src/Types.antt =====
-- core/types/: the balances of tokens.
pub mod TokenBalances
pub mod Entries
pub mod Ledger
pub mod BalanceCodec
pub mod BalanceTrip
mod Tests
