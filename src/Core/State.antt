-- ===== src/Core/State.antt =====
-- What a message does to the state database (core/state/statedb.go): balances by address and token,
-- nonces, the refund counter, and what the block has gathered. Addresses and tokens are numbers.
use goquarkchain.Prelude.{ℕ, ◌+◌, ◌-◌, Bool, List, [], ◌∷◌, ◌++◌, ◌==◌, if◌then◌else◌}
use goquarkchain.Prelude.Int.{ℤ, pos, ◌+ℤ◌, ◌-ℤ◌}

-- `types.CrossShardTransactionDeposit`
pub record Deposit : Type 0 where
  pub tx_hash : ℕ
  pub from : ℕ
  pub from_full_shard_key : ℕ
  pub to : ℕ
  pub to_full_shard_key : ℕ
  pub value : ℕ
  pub gas_token_id : ℕ
  pub transfer_token_id : ℕ
  pub gas_remained : ℕ
  pub gas_price : ℕ
  pub message_data : List ℕ
  pub create_contract : Bool
  pub is_from_root_chain : Bool
  pub refund_rate : ℕ

pub record State : Type 0 where
  pub balance : ℕ → ℕ → ℤ
  pub nonce : ℕ → ℕ
  pub refund : ℕ
  pub gas_used : ℕ
  pub block_fee : ℕ → ℕ
  pub xshard_list : List Deposit

abbrev set_balance : State → ℕ → ℕ → ℤ → State
set_balance s addr token amount = record s {
  balance =
      λ a t. if a == addr then if t == token then amount else s.balance a t else s.balance a t;
}

unfoldable pub add_balance : ℕ → ℕ → ℕ → State → State
add_balance addr amount token s = set_balance s addr token (s.balance addr token +ℤ pos amount)

unfoldable pub sub_balance : ℕ → ℕ → ℕ → State → State
sub_balance addr amount token s = set_balance s addr token (s.balance addr token -ℤ pos amount)

abbrev pub set_nonce : ℕ → ℕ → State → State
set_nonce addr n s = record s { nonce = λ a. if a == addr then n else s.nonce a }

-- `SubRefund(GetRefund())`
abbrev pub clear_refund : State → State
clear_refund s = record s { refund = s.refund - s.refund }

abbrev pub append_xshard_list : Deposit → State → State
append_xshard_list d s = record s { xshard_list = s.xshard_list ++ (d ∷ []) }

abbrev pub add_gas_used : ℕ → State → State
add_gas_used n s = record s { gas_used = s.gas_used + n }

-- A fee of one token.
abbrev pub add_block_fee : ℕ → ℕ → State → State
add_block_fee token fee s = record s {
  block_fee = λ t. if t == token then fee + s.block_fee t else s.block_fee t;
}
