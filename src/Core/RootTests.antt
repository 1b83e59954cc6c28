-- ===== src/Core/RootTests.antt =====
-- A root block of height 2 with two minor blocks of one shard, and runs of its validator.
use goquarkchain.Prelude.{
  ℕ, ◌+◌, ◌-◌, ◌≡◌, ◌↔◌, refl, true, false, none, some, [], ◌∷◌, ◌==◌, if◌then◌else◌, ok, arith,
}
use goquarkchain.Core.RootValidator.{
  MinorHeader, RootHeader, RootBlock, RootEnv, Latest, set_latest, is_same_chain, root_node,
  validate_block, amount_of, compare_coinbase_amount_map,
}
use goquarkchain.Core.RootAcceptance.{IsAccepted, validate_block-IsAccepted}
use goquarkchain.Core.SameChain.{IsChain, is_same_chain-IsChain}
use goquarkchain.Core.Amounts.{compare_coinbase_amount_map_iff}

-- The minor block of a height, and the root block.
abbrev minor : ℕ → MinorHeader
minor h = record {
  hash = h + 10;
  number = h;
  parent_hash = h + 9;
  full_shard_id = 65537;
  time = 5;
  prev_root_block_hash = 101;
  coinbase_recipient = 4;
}

abbrev root : ℕ → RootHeader
root h = record {
  hash = h + 100;
  number = h;
  parent_hash = h + 99;
  minor_header_hash = 7;
  root = 8;
  coinbase_amount = (35760, 120) ∷ [];
  time = 9;
  difficulty = 3;
  total_difficulty = h + h + h;
}

abbrev root_block : RootBlock
root_block = record {
  header = root 2;
  minor_block_headers = minor 1 ∷ minor 2 ∷ [];
  tracking_data = [];
}

abbrev before : Latest
before = λ id. if id == 65537 then some (minor 0) else none

abbrev env : RootEnv
env = record {
  has_block = λ n. false;
  verify_header = λ h. true;
  get_block = λ n. if n == 101 then some (root 1) else none;
  parent_hash_of = λ n. n - 1;
  extra_data_size_limit = 1024;
  merkle_root = λ headers. 7;
  empty_trie_hash = 8;
  skip_coinbase_check = false;
  coinbase_of = λ block. some ((35760, 120) ∷ []);
  contains_minor = λ n. true;
  latest_minor_headers = λ n. before;
  max_blocks = λ id. some 3;
  initialized_before = λ h. 65537 ∷ [];
}

accepted : validate_block env root_block false ≡ ok (set_latest before 65537 (minor 2))
unfolding validate_block
accepted = refl

validate_block-IsAccepted_example : IsAccepted env root_block (set_latest before 65537 (minor 2))
validate_block-IsAccepted_example =
    validate_block-IsAccepted env root_block false (set_latest before 65537 (minor 2)) accepted

root-IsChain : IsChain (λ n. n - 1) (λ h. root_node (root h)) 5
root-IsChain = record {
  numbered = λ h le. refl;
  linked = λ h lt. omega arith;
  known = λ h lt. omega arith;
  not_empty = λ h le e. absurd (omega (arith, e));
}

is_same_chain-IsChain_example :
    is_same_chain (λ n. n - 1) (root_node (root 5)) (root_node (root 2)) ≡ ok (102 == 102)
is_same_chain-IsChain_example =
    is_same_chain-IsChain (λ n. n - 1) (λ h. root_node (root h)) 5 root-IsChain (root_node (root 2))
      (omega arith) (omega arith)

compare_coinbase_amount_map_iff_example :
    (compare_coinbase_amount_map ((1, 5) ∷ (2, 6) ∷ []) ((2, 6) ∷ (1, 5) ∷ []) ≡ true)
    ↔ ((k : ℕ) → amount_of ((1, 5) ∷ (2, 6) ∷ []) k ≡ amount_of ((2, 6) ∷ (1, 5) ∷ []) k)
compare_coinbase_amount_map_iff_example =
    compare_coinbase_amount_map_iff ((1, 5) ∷ (2, 6) ∷ []) ((2, 6) ∷ (1, 5) ∷ [])
      (((λ e. absurd (omega (arith, e))), tt), (tt, tt))
      (((λ e. absurd (omega (arith, e))), tt), (tt, tt))
