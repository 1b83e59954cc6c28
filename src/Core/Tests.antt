-- ===== src/Core/Tests.antt =====
-- Runs of core/: a message with two bytes of data, and an EVM that uses a tenth of its gas.
use goquarkchain.Prelude.{
  ℕ, ◌+◌, ◌-◌, ◌/◌, ◌%◌, ◌^◌, ◌≡◌, refl, true, false, none, some, leb, [], ◌∷◌, if◌then◌else◌, ok,
  err, arith,
}
use goquarkchain.Prelude.Int.{pos, ◌+ℤ◌}
use goquarkchain.Core.Gas.{
  out_of_gas, GasPrices, gtxx_shard_cost, intrinsic_gas, data_gas, add_price, non_zero_bytes,
  sub_gas,
}
use goquarkchain.Core.State.{State, sub_balance}
use goquarkchain.Core.Message.{Message, Env, Ran, Evm}
use goquarkchain.Core.Transition.{
  St, use_gas, buy_gas, pre_check, refund, run_evm, is_insufficient, is_failed, pay_intrinsic,
  transition_db, transfer_failure_by_posw_balance_check,
}
use goquarkchain.Core.Intrinsic.{ArePrices, plain_gas, intrinsic_gas-eq}
use goquarkchain.Core.Accounting.{KeepsGas, transition_db-gas}
use goquarkchain.Core.Refund.{refund_sum}

abbrev prices : GasPrices
prices = record {
  tx_gas = 21000;
  tx_gas_contract_creation = 53000;
  tx_data_zero_gas = 4;
  tx_data_non_zero_gas = 68;
}

prices-ArePrices : ArePrices prices
prices-ArePrices = record {
  base_fits = omega arith;
  creation_fits = omega arith;
  some_zero_gas = omega arith;
  some_non_zero_gas = omega arith;
}

intrinsic_gas-eq_example : intrinsic_gas prices (0 ∷ 9 ∷ []) false true ≡ (
    if leb (plain_gas prices (0 ∷ 9 ∷ []) false) (2 ^ 64 - 1)
    then ok (
        if true
        then (plain_gas prices (0 ∷ 9 ∷ []) false + gtxx_shard_cost) % 2 ^ 64
        else plain_gas prices (0 ∷ 9 ∷ []) false)
    else err out_of_gas)
intrinsic_gas-eq_example = intrinsic_gas-eq prices (0 ∷ 9 ∷ []) false true prices-ArePrices

abbrev env : Env
env = record {
  prices = prices;
  gas_token_id = 1;
  gas_price_in_gas_token = 2;
  is_apply_xshard = false;
  xshard_gas_used_start = 0;
  contract_address = none;
  coinbase = 5;
  default_chain_token_id = 1;
  local_fee_num = 1;
  local_fee_denom = 2;
  enable_evm_time_stamp = 0;
  time_stamp = 10;
  sender_disallow = λ a. none;
  create_address = λ a k n. a + n;
}

abbrev msg : Message
msg = record {
  from = 3;
  to = some 4;
  gas_price = 2;
  gas = 30000;
  value = 7;
  nonce = 0;
  check_nonce = true;
  msg_data = 0 ∷ 9 ∷ [];
  is_cross_shard = false;
  from_full_shard_key = 0;
  to_full_shard_key = 0;
  tx_hash = 11;
  transfer_token_id = 1;
  refund_rate = 80;
}

abbrev rich : State
rich = record {
  balance = λ a t. pos 1000000;
  nonce = λ a. 0;
  refund = 100;
  gas_used = 0;
  block_fee = λ t. 0;
  xshard_list = [];
}

abbrev start : St
start = record { gp = 50000; gas = 0; initial_gas = 0; state = rich }

-- Both calls use a tenth of the gas.
abbrev tenth : Message → ℕ → State → Ran
tenth m gas s = record { gas_left = gas - gas / 10; vmerr = none; state = s }

abbrev evm : Evm
evm = record { create = tenth; call = tenth }

evm-KeepsGas : KeepsGas evm
evm-KeepsGas = record { create_keeps = λ m gas s. omega arith; call_keeps = λ m gas s. omega arith }

abbrev paid_start : St
paid_start = record {
  gp = 20000;
  gas = 8928;
  initial_gas = 30000;
  state = sub_balance 3 60000 1 rich;
}

paid_run : pay_intrinsic env msg start ≡ ok (21072, paid_start)
unfolding pay_intrinsic pre_check buy_gas sub_gas intrinsic_gas data_gas add_price non_zero_bytes
    use_gas
paid_run = refl

run_fine : is_insufficient env msg (run_evm env msg evm paid_start).vmerr ≡ false
unfolding run_evm transfer_failure_by_posw_balance_check
run_fine = refl

transition_db-gas_example :
    (used : ℕ) × (st' : St) × (transition_db env msg evm start
      ≡ ok (used, is_failed env msg (run_evm env msg evm paid_start).vmerr, st'))
    × (st'.gas + used ≡ 30000)
    × (st'.gp + used ≡ 50000)
transition_db-gas_example =
    transition_db-gas env msg evm start paid_start 21072 refl refl refl (omega arith) evm-KeepsGas
      paid_run run_fine

refund_sum_example :
    (refund env msg 1000 rich).balance 3 1 +ℤ (refund env msg 1000 rich).balance 0 1
    ≡ (pos 1000000 +ℤ pos 1000000) +ℤ pos 1000
refund_sum_example = refund_sum env msg 1000 rich (omega arith) (omega arith)
