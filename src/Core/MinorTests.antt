-- ===== src/Core/MinorTests.antt =====
-- A minor block of height 3 in the shard 1 of the two of chain 0, and runs of its validator.
use goquarkchain.Prelude.{
  ℕ, ◌+◌, ◌-◌, ◌≡◌, ◌↔◌, refl, true, false, none, some, [], ◌∷◌, ◌==◌, if◌then◌else◌, ok,
}
use goquarkchain.Prelude.Bits.{bit_len}
use goquarkchain.Account.Branch.{is_in_branch}
use goquarkchain.Core.RootValidator.{RootHeader}
use goquarkchain.Core.MinorValidator.{
  MinorBlock, MinorEnv, RanState, validate_state, validate_minor_block,
}
use goquarkchain.Core.MinorAcceptance.{
  IsAcceptedMinor, Describes, validate_state_iff, validate_minor_block-IsAcceptedMinor,
}

abbrev root_header : RootHeader
root_header = record {
  hash = 101;
  number = 1;
  parent_hash = 100;
  minor_header_hash = 0;
  root = 0;
  coinbase_amount = [];
  time = 4;
  difficulty = 1;
  total_difficulty = 2;
}

abbrev minor_block : ℕ → MinorBlock
minor_block h = record {
  hash = h + 10;
  number = h;
  parent_hash = h + 9;
  version = 0;
  branch = record { value = 3 };
  time = h + 50;
  meta_hash = 6;
  computed_meta_hash = 6;
  extra = [];
  gas_limit = 1000;
  xshard_gas_limit = 500;
  transactions = [];
  tx_hash = 7;
  coinbase_full_shard_key = 5;
  coinbase_amount = (35760, 60) ∷ [];
  difficulty = 40;
  prev_root_block_hash = 101;
  gas_used = 21000;
  bloom = 0;
  cursor = some (record { root_block_height = 1; minor_block_index = 0; xshard_deposit_index = 0 });
  receipt_hash = 12;
  cross_shard_gas_used = 0;
  root = 13;
}

abbrev env : MinorEnv
env = record {
  verify_header = λ b. true;
  has_block_and_state = λ n. n == 12;
  has_block = λ n. n == 12;
  get_block = λ n. if n == 12 then some (minor_block 2) else none;
  branch = record { value = 3 };
  now = 60;
  extra_data_size_limit = 1024;
  gas_limit = 1000;
  xshard_gas_limit = 500;
  merkle_root = λ txs. 7;
  skip_difficulty_check = false;
  calc_difficulty = λ time parent. some 40;
  get_root_block = λ n. if n == 101 then some root_header else none;
  last_confirmed_at = λ n. some (record { hash = 11; number = 1; parent_hash = 10 });
  parent_hash_of = λ n. n - 1;
  disable_pow_check = false;
  posw_enabled = false;
  adjusted_difficulty = λ b. none;
  diff_divider = λ time. 1;
  verify_seal = λ b difficulty. difficulty == 40;
}

accepted : validate_minor_block env (minor_block 3) false ≡ ok tt
unfolding validate_minor_block is_in_branch bit_len
accepted = refl

validate_minor_block-IsAcceptedMinor_example : IsAcceptedMinor env (minor_block 3)
validate_minor_block-IsAcceptedMinor_example =
    validate_minor_block-IsAcceptedMinor env (minor_block 3) false accepted

abbrev state : RanState
state = record {
  gas_used = 21000;
  bloom = 0;
  cursor = some (record { root_block_height = 1; minor_block_index = 0; xshard_deposit_index = 0 });
  receipt_hash = 12;
  coinbase_amount = (35760, 60) ∷ [];
  xshard_receive_gas_used = 0;
  root = 13;
}

validate_state_iff_example :
    (validate_state state (minor_block 3) ≡ ok tt) ↔ Describes state (minor_block 3)
validate_state_iff_example = validate_state_iff state (minor_block 3) (tt, tt) (tt, tt)
