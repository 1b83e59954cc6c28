-- ===== src/Chain/RewardTests.antt =====
-- The coinbase of a root block with one minor block.
use goquarkchain.Prelude.{
  ℕ, ◌≡◌, inl, inr, refl, true, Option, none, [], ◌∷◌, ◌==◌, Bool-cases, if◌then◌else◌, ok, arith,
}
use goquarkchain.Prelude.Int.{pos}
use goquarkchain.Core.RootValidator.{RootBlock}
use goquarkchain.Types.TokenBalances.{lookup_entry}
use goquarkchain.Types.Entries.{Amounts}
use goquarkchain.Chain.Coinbase.{Rate, RewardEnv, Rewards, calculate_root_block_coinbase}
use goquarkchain.Chain.Rewards.{IsRight, reward_of, calculate_root_block_coinbase-Amounts}

abbrev one_half : Rate
one_half = record { num = 1; denom = 2 }

abbrev env : RewardEnv
env = record {
  epoch_interval = 2;
  block_reward_decay_factor = one_half;
  coinbase_amount = 100;
  reward_calculate_rate = one_half;
  default_chain_token_id = 3;
  contains_minor = λ h. true;
  coinbase_tokens = λ h. (3, pos 5) ∷ (9, pos 8) ∷ [];
}

abbrev block : RootBlock
block = record {
  header = record {
    hash = 102;
    number = 2;
    parent_hash = 101;
    minor_header_hash = 7;
    root = 8;
    coinbase_amount = [];
    time = 9;
    difficulty = 3;
    total_difficulty = 3;
  };
  minor_block_headers =
      record {
        hash = 501;
        number = 1;
        parent_hash = 500;
        full_shard_id = 1;
        time = 5;
        prev_root_block_hash = 101;
        coinbase_recipient = 4;
      }
      ∷ [];
  tracking_data = [];
}

abbrev tables : ℕ → ℕ → ℕ
tables h id = if id == 3 then 5 else (if id == 9 then 8 else 0)

tables-Amounts : (h : ℕ) → Amounts (env.coinbase_tokens h) (tables h)
unfolding lookup_entry
tables-Amounts h id = elim (Bool-cases (id == 3)) [
  | inl e ↦ rw e refl
  | inr e ↦ elim (Bool-cases (id == 9)) [ inl e' ↦ rw (e, e') refl | inr e' ↦ rw (e, e') refl ]
]

calculate_root_block_coinbase-Amounts_example :
    (rewards : Rewards) × (cache : ℕ → Option ℕ) × (calculate_root_block_coinbase env block
        (λ epoch. none)
      ≡ ok (rewards, cache))
    × Amounts rewards.balances (reward_of env block tables)
    × IsRight env cache
unfolding lookup_entry
calculate_root_block_coinbase-Amounts_example =
    calculate_root_block_coinbase-Amounts env block (λ epoch. none) tables (omega arith) (refl, tt)
      (λ h. (refl, (refl, tt))) tables-Amounts (λ epoch a e. cc)

-- 5 of the default token are halved to 2, and the second epoch adds half of 100.
reward_of_default : (reward_of env block tables 3 ≡ 52) × (reward_of env block tables 9 ≡ 4)
reward_of_default = (refl, refl)
