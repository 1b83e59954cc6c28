-- ===== src/Core/Transition.antt =====
-- core/state_transition.go: the transition of the state by one message. The EVM, `CreateAddress` and
-- the prices of go-ethereum are parameters. An error gives up the state with it.
use goquarkchain.Prelude.{
  ℕ, ◌+◌, ◌-◌, ◌*◌, ◌/◌, ◌%◌, ◌^◌, Bool, true, false, Option, none, some, ltb, leb, ◌==◌,
  if◌then◌else◌, Result, ok, ◌>>=◌, ◌>>◌, fail_if,
}
use goquarkchain.Prelude.Int.{pos, ltb_ℤ}
use goquarkchain.Core.Gas.{
  CoreError, out_of_gas, insufficient_balance_for_gas, nonce_too_high, nonce_too_low,
  insufficient_balance, gtxx_shard_cost, add_gas, sub_gas, intrinsic_gas,
}
use goquarkchain.Core.Message.{
  Message, VmError, vm_insufficient_balance, posw_sender_not_allowed, Env, Ran, Evm,
}
use goquarkchain.Core.State.{
  Deposit, State, add_balance, sub_balance, set_nonce, clear_refund, append_xshard_list,
  add_gas_used, add_block_fee,
}

-- `StateTransition`, with the gas pool and the state it points to.
pub record St : Type 0 where
  pub gp : ℕ
  pub gas : ℕ
  pub initial_gas : ℕ
  pub state : State

abbrev pub sub64 : ℕ → ℕ → ℕ
sub64 a b = (a + 2 ^ 64 - b) % 2 ^ 64

abbrev pub gas_used : St → ℕ
gas_used st = sub64 st.initial_gas st.gas

unfoldable pub use_gas : ℕ → St → Result CoreError St
use_gas amount st = do
  fail_if (ltb st.gas amount) out_of_gas
  ok (record st { gas = st.gas - amount })

module _ (env : Env) (msg : Message) where
  unfoldable pub buy_gas : St → Result CoreError St
  buy_gas st = do
    let mgval = msg.gas * env.gas_price_in_gas_token
    fail_if (ltb_ℤ (st.state.balance msg.from env.gas_token_id) (pos mgval))
        insufficient_balance_for_gas
    gp ← sub_gas st.gp msg.gas
    ok (record {
      gp = gp;
      gas = (st.gas + msg.gas) % 2 ^ 64;
      initial_gas = msg.gas;
      state = sub_balance msg.from mgval env.gas_token_id st.state;
    })

  unfoldable pub pre_check : St → Result CoreError St
  unfolding buy_gas
  pre_check st = do
    let nonce = st.state.nonce msg.from
    fail_if (if msg.check_nonce then ltb nonce msg.nonce else false) nonce_too_high
    fail_if (if msg.check_nonce then ltb msg.nonce nonce else false) nonce_too_low
    buy_gas st

  unfoldable pub pre_fill : St → St
  pre_fill st =
      let gas = (st.gas + (msg.gas + env.xshard_gas_used_start) % 2 ^ 64) % 2 ^ 64 in
      record st { gas = gas; initial_gas = gas }

  -- `refund`: what the rate does not give back goes to the zero address.
  unfoldable pub refund : ℕ → State → State
  refund total s =
      let to_refund = total * msg.refund_rate / 100 in
      if msg.refund_rate == 100
      then add_balance msg.from total env.default_chain_token_id s
      else (let s' = add_balance msg.from to_refund env.default_chain_token_id s in
          if leb to_refund total
          then add_balance 0 (total - to_refund) env.default_chain_token_id s'
          else s')

  -- The refund counter, capped to half of the used gas.
  unfoldable pub gas_with_refund : Option VmError → St → ℕ
  gas_with_refund (some e) st = st.gas
  gas_with_refund none st =
      let half = gas_used st / 2 in
      (st.gas + (if ltb st.state.refund half then st.state.refund else half)) % 2 ^ 64

  unfoldable pub refund_gas : Option VmError → St → Result CoreError St
  unfolding refund gas_with_refund
  refund_gas vmerr st = do
    let gas = gas_with_refund vmerr st
    gp ← add_gas st.gp gas
    ok (record st {
      gp = gp;
      gas = gas;
      state = refund (gas * msg.gas_price) (clear_refund st.state);
    })

  -- `AddGasUsed` counts `st.gasUsed()` before the EVM is enabled.
  unfoldable pub charge_fee : ℕ → St → St
  charge_fee used st =
      let rate_fee = used * msg.gas_price * env.local_fee_num / env.local_fee_denom in
      record st {
        state =
            add_gas_used
              (if leb env.enable_evm_time_stamp env.time_stamp then used else gas_used st)
              (add_block_fee env.default_chain_token_id rate_fee
                (add_balance env.coinbase rate_fee env.default_chain_token_id st.state));
      }

  unfoldable pub transfer_failure_by_posw_balance_check : State → Bool
  transfer_failure_by_posw_balance_check s = elim (env.sender_disallow msg.from) [
    | none ↦ false
    | some v ↦ ltb_ℤ (s.balance msg.from env.default_chain_token_id) (pos (msg.value + v))
  ]

  -- The deposit for a contract creation (`to` is none) and for a call.
  unfoldable pub deposit_of : ℕ → State → Deposit
  deposit_of gas_reserved s = record {
    tx_hash = msg.tx_hash;
    from = msg.from;
    from_full_shard_key = msg.from_full_shard_key;
    to = elim msg.to [
      | none ↦ env.create_address msg.from msg.from_full_shard_key (s.nonce msg.from)
      | some a ↦ a
    ];
    to_full_shard_key = msg.to_full_shard_key;
    value = msg.value;
    gas_token_id = env.default_chain_token_id;
    transfer_token_id = msg.transfer_token_id;
    gas_remained = gas_reserved;
    gas_price = msg.gas_price;
    message_data = msg.msg_data;
    create_contract = elim msg.to [ none ↦ true | some a ↦ false ];
    is_from_root_chain = false;
    refund_rate = msg.refund_rate;
  }

  -- The gas that is kept for the target shard.
  unfoldable pub remote_gas_reserved : ℕ → ℕ
  remote_gas_reserved intrinsic = elim msg.to [
    | none ↦ sub64 msg.gas intrinsic
    | some a ↦ if leb env.enable_evm_time_stamp env.time_stamp then sub64 msg.gas intrinsic else 0
  ]

  -- `AddCrossShardTxDeposit`: whether it failed, and what it leaves.
  unfoldable pub add_cross_shard_tx_deposit : ℕ → St → Result CoreError (ℕ × Bool × St)
  unfolding refund charge_fee transfer_failure_by_posw_balance_check deposit_of remote_gas_reserved
  add_cross_shard_tx_deposit intrinsic st = do
    fail_if (ltb_ℤ (st.state.balance msg.from msg.transfer_token_id) (pos msg.value))
        insufficient_balance
    let failed = transfer_failure_by_posw_balance_check st.state
    let reserved = if failed then 0 else remote_gas_reserved intrinsic
    let paid = sub_balance msg.from msg.value msg.transfer_token_id st.state
    let st₁ =
        if failed
        then record st { gas = 0 }
        else record st { state = append_xshard_list (deposit_of reserved paid) paid }
    let local = gas_used st₁
    let remained = sub64 (sub64 msg.gas local) reserved
    let st₂ = record st₁ { state = refund (remained * msg.gas_price) st₁.state }
    let st₃ = charge_fee (if failed then local else sub64 local gtxx_shard_cost) st₂
    ok (st₃.state.gas_used % 2 ^ 64, failed, st₃)

  abbrev pub creates : Bool
  creates = elim msg.to [
    | none ↦ true
    | some a ↦ elim env.contract_address [ none ↦ false | some c ↦ true ]
  ]

  -- The run of the EVM, with the state before it.
  unfoldable pub run_evm : Evm → St → Ran
  unfolding transfer_failure_by_posw_balance_check
  run_evm evm st =
      let s =
        if env.is_apply_xshard
        then st.state
        else set_nonce msg.from ((st.state.nonce msg.from + 1) % 2 ^ 64) st.state in
      if creates
      then evm.create msg st.gas st.state
      else if transfer_failure_by_posw_balance_check s
      then record { gas_left = 0; vmerr = some posw_sender_not_allowed; state = s }
      else evm.call msg st.gas s

  abbrev pub is_insufficient : Option VmError → Bool
  is_insufficient (some vm_insufficient_balance) = true
  is_insufficient _ = false

  abbrev pub is_failed : Option VmError → Bool
  is_failed none = false
  is_failed (some e) = true

  -- `TransitionDb` after the EVM has run.
  unfoldable pub settle_run : Ran → St → Result CoreError (ℕ × Bool × St)
  unfolding refund_gas charge_fee
  settle_run ran st = do
    fail_if (is_insufficient ran.vmerr) insufficient_balance
    st₁ ← refund_gas ran.vmerr (record st { gas = ran.gas_left; state = ran.state })
    let st₂ = charge_fee (gas_used st₁) st₁
    ok (gas_used st₂, is_failed ran.vmerr, st₂)

  -- `TransitionDb` up to the intrinsic gas: that gas, and what is left.
  unfoldable pub pay_intrinsic : St → Result CoreError (ℕ × St)
  unfolding pre_check pre_fill
  pay_intrinsic st = do
    let creation : Bool = elim msg.to [ none ↦ true | some a ↦ false ]
    (gas, st₁) ← if env.is_apply_xshard then ok (env.xshard_gas_used_start, pre_fill st) else (do
      st₁ ← pre_check st
      gas ← intrinsic_gas env.prices msg.msg_data creation msg.is_cross_shard
      ok (gas, st₁))
    st₂ ← use_gas gas st₁
    ok (gas, st₂)

  -- `TransitionDb` from the intrinsic gas on.
  unfoldable pub after_intrinsic : Evm → ℕ × St → Result CoreError (ℕ × Bool × St)
  unfolding run_evm settle_run add_cross_shard_tx_deposit
  after_intrinsic evm (gas, st) =
      let bumped = set_nonce msg.from ((st.state.nonce msg.from + 1) % 2 ^ 64) st.state in
      if msg.is_cross_shard
      then add_cross_shard_tx_deposit gas (record st { state = bumped })
      else settle_run (run_evm evm st) st

  -- `TransitionDb`: the used gas, whether the message failed, and what it leaves.
  unfoldable pub transition_db : Evm → St → Result CoreError (ℕ × Bool × St)
  unfolding pay_intrinsic after_intrinsic
  transition_db evm st = pay_intrinsic st >>= after_intrinsic evm
