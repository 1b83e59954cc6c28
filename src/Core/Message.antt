-- ===== src/Core/Message.antt =====
-- core/state_transition.go: a message, and what its transition reads of the EVM and the
-- configuration.
use goquarkchain.Prelude.{ℕ, Bool, Option, List}
use goquarkchain.Core.Gas.{GasPrices}
use goquarkchain.Core.State.{State}

-- `Message`
pub record Message : Type 0 where
  pub from : ℕ
  pub to : Option ℕ
  pub gas_price : ℕ
  pub gas : ℕ
  pub value : ℕ
  pub nonce : ℕ
  pub check_nonce : Bool
  pub msg_data : List ℕ
  pub is_cross_shard : Bool
  pub from_full_shard_key : ℕ
  pub to_full_shard_key : ℕ
  pub tx_hash : ℕ
  pub transfer_token_id : ℕ
  pub refund_rate : ℕ

-- The errors of the EVM that the transition tells apart.
pub data VmError : Type 0 where
  vm_insufficient_balance posw_sender_not_allowed other_vm_error : VmError

-- What the transition reads of `vm.EVM` and of the chain's configuration.
pub record Env : Type 0 where
  pub prices : GasPrices
  pub gas_token_id : ℕ
  pub gas_price_in_gas_token : ℕ
  pub is_apply_xshard : Bool
  pub xshard_gas_used_start : ℕ
  pub contract_address : Option ℕ
  pub coinbase : ℕ
  pub default_chain_token_id : ℕ
  pub local_fee_num : ℕ
  pub local_fee_denom : ℕ
  pub enable_evm_time_stamp : ℕ
  pub time_stamp : ℕ
  pub sender_disallow : ℕ → Option ℕ
  pub create_address : ℕ → ℕ → ℕ → ℕ

-- What the EVM leaves: the gas, an error, the state.
pub record Ran : Type 0 where
  pub gas_left : ℕ
  pub vmerr : Option VmError
  pub state : State

-- `evm.Create` and `evm.Call`, given the gas and the state.
pub record Evm : Type 0 where
  pub create : Message → ℕ → State → Ran
  pub call : Message → ℕ → State → Ran
