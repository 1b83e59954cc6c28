-- ===== src/Core/Refund.antt =====
-- core/state_transition.go: a refund neither makes nor loses money.
use goquarkchain.Prelude.{
  ℕ, ◌-◌, ◌*◌, ◌/◌, ◌≤◌, ◌≡◌, refl, ap, ap₂, ◌∙◌, true, false, leb, ◌==◌, arith, Bool-cases, inl,
  inr,
}
use goquarkchain.Prelude.Int.{ℤ, pos, ◌+ℤ◌, int_laws}
use native.Mathlib.Nat.{div-le_of_le-mul}
use goquarkchain.Core.State.{State, add_balance}
use goquarkchain.Core.Message.{Message, Env}
use goquarkchain.Core.Transition.{refund}

equal_self : (n : ℕ) → (n == n) ≡ true
equal_self n = ground arith

add_balance-same :
    (a n t : ℕ) (s : State) → (add_balance a n t s).balance a t ≡ s.balance a t +ℤ pos n
unfolding add_balance
add_balance-same a n t s = rw (equal_self a, equal_self t) refl

add_balance-other :
    (a b n t u : ℕ) (s : State)
    → (b == a) ≡ false
    → (add_balance a n t s).balance b u ≡ s.balance b u
unfolding add_balance
add_balance-other a b n t u s e = rw e refl

split_sum :
    (x y : ℤ) (part total : ℕ)
    → part ≤ total
    → (x +ℤ pos part) +ℤ (y +ℤ pos (total - part)) ≡ (x +ℤ y) +ℤ pos total
split_sum x y part total h = grind int_laws

whole_sum : (x y : ℤ) (total : ℕ) → (x +ℤ pos total) +ℤ y ≡ (x +ℤ y) +ℤ pos total
whole_sum x y total = grind int_laws

accepted : (a b : ℕ) → a ≤ b → leb a b ≡ true
accepted a b h = ground arith

-- With a refund rate of at most 100, and a sender other than the zero address, a refund of a total
-- adds the total to what the sender and the zero address have together.
pub refund_sum :
    (env : Env) (msg : Message) (total : ℕ) (s : State)
    → 1 ≤ msg.from
    → msg.refund_rate ≤ 100
    → (refund env msg total s).balance msg.from env.default_chain_token_id
        +ℤ (refund env msg total s).balance 0 env.default_chain_token_id
      ≡ (s.balance msg.from env.default_chain_token_id +ℤ s.balance 0 env.default_chain_token_id)
        +ℤ pos total
unfolding refund
refund_sum env msg total s from rate = elim (Bool-cases (msg.refund_rate == 100)) [
  | inl all ↦ rw all (
      ap₂ ◌+ℤ◌ (add_balance-same a total t s) (add_balance-other a 0 total t t s zero_other)
      ∙ whole_sum _ _ total)
  | inr some ↦
      rw (some, accepted part total part_le)
        (ap₂ ◌+ℤ◌
            (add_balance-other 0 a (total - part) t t s' other_zero ∙ add_balance-same a part t s)
            (add_balance-same 0 (total - part) t s'
              ∙ ap (λ z. z +ℤ pos (total - part)) (add_balance-other a 0 part t t s zero_other))
          ∙ split_sum _ _ part total part_le)
]
  where
    a : ℕ
    a = msg.from

    t : ℕ
    t = env.default_chain_token_id

    part : ℕ
    part = total * msg.refund_rate / 100

    s' : State
    s' = add_balance a part t s

    part_le : part ≤ total
    part_le = div-le_of_le-mul 100 (grind (arith, rate))

    zero_other : (0 == a) ≡ false
    zero_other = ground (arith, from)

    other_zero : (a == 0) ≡ false
    other_zero = ground (arith, from)
