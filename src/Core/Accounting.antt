-- ===== src/Core/Accounting.antt =====
-- core/state_transition.go: where the gas of a message goes.
use goquarkchain.Prelude.{
  ℕ, ◌+◌, ◌-◌, ◌*◌, ◌%◌, ◌^◌, ◌≤◌, ◌<◌, ◌≡◌, refl, sym, ap, ◌∙◌, subst, Bool, true, false, Option,
  none, some, ltb, ltb→le, if◌then◌else◌, ok, ◌>>=◌, fail_if, >>=-eq-ok, arith, Bool-cases, inl,
  inr,
}
use goquarkchain.Prelude.Int.{pos, ltb_ℤ}
use goquarkchain.Core.Gas.{nonce_too_high, nonce_too_low, add_gas, sub_gas, intrinsic_gas}
use goquarkchain.Core.State.{State, sub_balance, clear_refund}
use goquarkchain.Core.Message.{Message, VmError, Env, Ran, Evm}
use goquarkchain.Core.Transition.{
  St, gas_used, use_gas, buy_gas, pre_check, gas_with_refund, refund_gas, charge_fee, creates,
  run_evm, is_insufficient, is_failed, settle_run, pay_intrinsic, after_intrinsic, refund,
  transition_db,
}

-- The EVM returns no more gas than it was given.
pub record KeepsGas (evm : Evm) : Type 0 where
  pub create_keeps : (msg : Message) (gas : ℕ) (s : State) → (evm.create msg gas s).gas_left ≤ gas
  pub call_keeps : (msg : Message) (gas : ℕ) (s : State) → (evm.call msg gas s).gas_left ≤ gas

use_gas-ok :
    (n : ℕ) (st st' : St)
    → use_gas n st ≡ ok st'
    → (n ≤ st.gas) × (st' ≡ record st { gas = st.gas - n })
unfolding use_gas
use_gas-ok n st st' e = elim (Bool-cases (ltb st.gas n)) [
  | inl short ↦ cc (rw short at e)
  | inr enough ↦ (ltb→le _ _ enough, cc (rw enough at e))
]

-- What a message that passes the checks has bought.
record Bought (msg : Message) (st st' : St) : Type 0 where
  from_pool : st'.gp + msg.gas ≡ st.gp
  bought : st'.gas ≡ (st.gas + msg.gas) % 2 ^ 64
  initial : st'.initial_gas ≡ msg.gas

sub_gas-ok : (gp n gp' : ℕ) → sub_gas gp n ≡ ok gp' → gp' + n ≡ gp
unfolding sub_gas
sub_gas-ok gp n gp' e = elim (Bool-cases (ltb gp n)) [
  | inl short ↦ cc (rw short at e)
  | inr enough ↦
      let same : gp - n ≡ gp' = cc (rw enough at e) in omega (arith, same, ltb→le gp n enough)
]

zero_least : (n : ℕ) → 0 ≤ n
zero_least n = omega arith

either-le :
    (b : Bool) (x y : Ran) (n : ℕ)
    → x.gas_left ≤ n
    → y.gas_left ≤ n
    → (if b then x else y).gas_left ≤ n
either-le true x y n h h' = h
either-le false x y n h h' = h'

else_branch : {A : Type 0} (b : Bool) (x y : A) → b ≡ false → (if b then x else y) ≡ y
else_branch b x y e = rw e refl

add_gas-ok : (gp n : ℕ) → gp + n < 2 ^ 64 → add_gas gp n ≡ ok (gp + n)
unfolding add_gas
add_gas-ok gp n h = ground arith

module _ (env : Env) (msg : Message) where
  buy_gas-ok : (st st' : St) → buy_gas env msg st ≡ ok st' → Bought msg st st'
  unfolding buy_gas
  buy_gas-ok st st' e =
      elim (Bool-cases (
        ltb_ℤ (st.state.balance msg.from env.gas_token_id)
          (pos (msg.gas * env.gas_price_in_gas_token)))) [
            | inl poor ↦ cc (rw poor at e)
            | inr rich ↦
                let (gp, e₁, e₂) = >>=-eq-ok (sub_gas st.gp msg.gas) _ (rw rich at e) in
                let same : ◌≡◌ {A = St}
                    (record {
                      gp = gp;
                      gas = (st.gas + msg.gas) % 2 ^ 64;
                      initial_gas = msg.gas;
                      state =
                          sub_balance msg.from (msg.gas * env.gas_price_in_gas_token)
                            env.gas_token_id st.state;
                    })
                    st' =
                  cc in
                subst (Bought msg st) same (record {
                  from_pool = sub_gas-ok st.gp msg.gas gp e₁;
                  bought = refl;
                  initial = refl;
                })
          ]

  pre_check-ok : (st st' : St) → pre_check env msg st ≡ ok st' → Bought msg st st'
  unfolding pre_check
  pre_check-ok st st' e =
      let (_, _, e₁) =
        >>=-eq-ok
          (fail_if (if msg.check_nonce then ltb (st.state.nonce msg.from) msg.nonce else false)
            nonce_too_high)
          _ e in
      let (_, _, e₂) =
        >>=-eq-ok
          (fail_if (if msg.check_nonce then ltb msg.nonce (st.state.nonce msg.from) else false)
            nonce_too_low)
          _ e₁ in
      buy_gas-ok st st' e₂

  -- What is bought and paid when the intrinsic gas is: `gas` of it is used up.
  pay_intrinsic-ok :
      (st st' : St) (gas : ℕ)
      → env.is_apply_xshard ≡ false
      → st.gas ≡ 0
      → st.gp < 2 ^ 64
      → pay_intrinsic env msg st ≡ ok (gas, st')
      → (st'.gp + msg.gas ≡ st.gp) × (st'.gas ≤ msg.gas) × (st'.initial_gas ≡ msg.gas)
  unfolding pay_intrinsic
  pay_intrinsic-ok st st' gas local start small e =
      let ((g, st₁), e₁, e₂) = >>=-eq-ok _ _ (rw (local, pay_intrinsic) at e) in
      let (st₀, e₃, e₄) = >>=-eq-ok (pre_check env msg st) _ e₁ in
      let (_, _, e₅) =
        >>=-eq-ok (intrinsic_gas env.prices msg.msg_data _ msg.is_cross_shard) _ e₄ in
      let (st₂, e₆, e₇) = >>=-eq-ok (use_gas g st₁) _ e₂ in
      let same₁ : st₀ ≡ st₁ = cc in
      let same₂ : st₂ ≡ st' = cc in
      let b : Bought msg st st₁ = subst (Bought msg st) same₁ (pre_check-ok st st₀ e₃) in
      let (enough, left) = use_gas-ok g st₁ st₂ e₆ in
      subst (λ (x : St). (x.gp + msg.gas ≡ st.gp) × (x.gas ≤ msg.gas) × (x.initial_gas ≡ msg.gas))
        (sym left ∙ same₂)
        (b.from_pool, omega (arith, b.bought, b.from_pool, start, small), b.initial)

  run_evm-le : (evm : Evm) (st : St) → KeepsGas evm → (run_evm env msg evm st).gas_left ≤ st.gas
  unfolding run_evm
  run_evm-le evm st k =
      either-le (creates env msg) _ _ st.gas (k.create_keeps msg st.gas st.state)
        (either-le _ _ _ st.gas (zero_least st.gas) (k.call_keeps msg st.gas _))

  gas_with_refund-le :
      (e : Option VmError) (st : St)
      → st.gas ≤ st.initial_gas
      → st.initial_gas < 2 ^ 64
      → gas_with_refund env msg e st ≤ st.initial_gas
  unfolding gas_with_refund
  gas_with_refund-le (some e) st h small = h
  gas_with_refund-le none st h small = ground arith

  refund_gas-ok :
      (e : Option VmError) (st : St)
      → st.gas ≤ st.initial_gas
      → st.gp + st.initial_gas < 2 ^ 64
      → (st₁ : St) × (refund_gas env msg e st ≡ ok st₁)
        × (st₁.gas ≤ st.initial_gas)
        × (st₁.gp ≡ st.gp + st₁.gas)
        × (st₁.initial_gas ≡ st.initial_gas)
  unfolding refund_gas
  refund_gas-ok e st h small =
      let le : gas_with_refund env msg e st ≤ st.initial_gas =
        gas_with_refund-le e st h (omega (arith, small)) in
      (
        record st {
          gp = st.gp + gas_with_refund env msg e st;
          gas = gas_with_refund env msg e st;
          state =
              refund env msg (gas_with_refund env msg e st * msg.gas_price) (clear_refund st.state);
        },
        rw (add_gas-ok st.gp (gas_with_refund env msg e st) (omega (arith, le, small))) refl,
        le,
        refl,
        refl,
      )

  -- After the run the used gas is what was bought less what is left, and the rest is back in the
  -- pool, which cannot overflow.
  settle_run-ok :
      (ran : Ran) (st : St)
      → is_insufficient env msg ran.vmerr ≡ false
      → ran.gas_left ≤ st.initial_gas
      → st.gp + st.initial_gas < 2 ^ 64
      → (used : ℕ) × (st' : St) × (settle_run env msg ran st
          ≡ ok (used, is_failed env msg ran.vmerr, st'))
        × (st'.gas + used ≡ st.initial_gas)
        × (st'.gp ≡ st.gp + st'.gas)
  unfolding settle_run charge_fee
  settle_run-ok ran st fine le small =
      let (st₁, e, below, pool, kept) =
        refund_gas-ok ran.vmerr (record st { gas = ran.gas_left; state = ran.state }) le small in
      (
        gas_used st₁,
        charge_fee env msg (gas_used st₁) st₁,
        rw (fine, e) refl,
        omega (arith, below, kept, small),
        pool,
      )

  -- A message in its own shard that has passed the checks and paid its intrinsic gas, run by an
  -- EVM that returns no more gas than it was given and does not lack the balance, makes a
  -- transition. The used gas is what the message bought less what is left, the pool loses exactly
  -- the used gas, and the message failed exactly if the EVM returned an error.
  pub transition_db-gas :
      (evm : Evm) (st st₁ : St) (intrinsic : ℕ)
      → msg.is_cross_shard ≡ false
      → env.is_apply_xshard ≡ false
      → st.gas ≡ 0
      → st.gp < 2 ^ 64
      → KeepsGas evm
      → pay_intrinsic env msg st ≡ ok (intrinsic, st₁)
      → is_insufficient env msg (run_evm env msg evm st₁).vmerr ≡ false
      → (used : ℕ) × (st' : St) × (transition_db env msg evm st
          ≡ ok (used, is_failed env msg (run_evm env msg evm st₁).vmerr, st'))
        × (st'.gas + used ≡ msg.gas)
        × (st'.gp + used ≡ st.gp)
  unfolding transition_db after_intrinsic
  transition_db-gas evm st st₁ intrinsic here local start small keeps paid fine =
      let (pool, enough, initial) = pay_intrinsic-ok st st₁ intrinsic local start small paid in
      let (used, st', e, total, back) =
        settle_run-ok (run_evm env msg evm st₁) st₁ fine
          (omega (arith, run_evm-le evm st₁ keeps, enough, initial))
          (omega (arith, pool, initial, small)) in
      (
        used,
        st',
        ap (λ r. r >>= after_intrinsic env msg evm) paid
            ∙ else_branch msg.is_cross_shard _ _ here
            ∙ e,
        omega (arith, total, initial),
        omega (arith, total, initial, back, pool),
      )
