-- ===== src/Chain/Tests.antt =====
-- A chain of root blocks, a fork of it that is heavier and shorter, and runs on them.
use goquarkchain.Prelude.{
  ℕ, ◌+◌, ◌-◌, ◌≡◌, inl, inr, refl, true, false, none, some, [], ◌∷◌, ◌==◌, ==_iff, Bool-cases,
  if◌then◌else◌, ok, arith,
}
use goquarkchain.Core.RootValidator.{MinorHeader, RootBlock}
use goquarkchain.Chain.Store.{
  RootChain, ChainConfig, count_of, get_block_count, put_root_block_index, is_listed,
  get_block_by_number,
}
use goquarkchain.Chain.Reorg.{write_block_with_state, is_preferred, reorg, finish_reorg, canon_stat}
use goquarkchain.Chain.Write.{IsAppendable, IsWritten, write_block_with_state-IsWritten}
use goquarkchain.Chain.Heaviest.{IsFresh, IsGood, Reached, Reached-IsGood}
use goquarkchain.Chain.Ancestor.{
  walk_up, get_ancestor, get_block_hashes_from_hash, get_ancestor-walk_up,
  get_block_by_number-walk_up,
}
use goquarkchain.Chain.Counts.{put_root_block_index-get_block_count}
use goquarkchain.Chain.Hashes.{AreAncestors, get_block_hashes_from_hash-AreAncestors}
use goquarkchain.Chain.Rewind.{set_head}
use goquarkchain.Chain.Rewound.{IsRewound, set_head-IsRewound}

abbrev config : ChainConfig
config = record {
  count_minor_blocks = false;
  initialized_before = λ n. 1 ∷ [];
  max_stale_root_block_height_diff = 60;
  is_check_db = false;
}

abbrev minor : ℕ → MinorHeader
minor n = record {
  hash = n + 500;
  number = n;
  parent_hash = n + 499;
  full_shard_id = 1;
  time = 5;
  prev_root_block_hash = 100;
  coinbase_recipient = 8;
}

-- A block of a hash, a height, a parent and a total difficulty; it lists one minor block.
abbrev block : ℕ → ℕ → ℕ → ℕ → RootBlock
block hash number parent_hash total_difficulty = record {
  header = record {
    hash = hash;
    number = number;
    parent_hash = parent_hash;
    minor_header_hash = 7;
    root = 8;
    coinbase_amount = [];
    time = 9;
    difficulty = 3;
    total_difficulty = total_difficulty;
  };
  minor_block_headers = minor hash ∷ [];
  tracking_data = [];
}

abbrev genesis : RootBlock
genesis = block 100 0 99 1

abbrev empty : RootChain
empty = record {
  blocks = λ h. if h == 100 then some genesis else none;
  canonical = λ n. if n == 0 then 100 else 0;
  head_hash = 100;
  current = genesis;
  genesis_block = genesis;
  lookup = λ h. none;
  latest_headers = λ h. none;
  block_counts = λ n shard. none;
  confirming = λ shard h. 0;
  future = λ h. none;
}

empty-IsFresh : IsFresh empty
empty-IsFresh = record {
  only = λ h b e. elim (Bool-cases (h == 100)) [
    | inl same ↦ let is_b : some genesis ≡ some b = rw same at e in (cc, (==_iff h 100).0 same)
    | inr other ↦ cc (rw other at e)
  ];
  has_genesis = refl;
  lowest = refl;
  is_head = refl;
  same_head = refl;
  marked = refl;
}

-- Two blocks, and then a fork of one block that is heavier.
abbrev one : RootChain
one = (write_block_with_state config (block 101 1 100 2) empty).1

abbrev two : RootChain
two = (write_block_with_state config (block 102 2 101 3) one).1

abbrev forked : RootChain
forked = (write_block_with_state config (block 201 1 100 9) two).1

one-Reached : Reached config one
one-Reached =
    Reached.write empty (block 101 1 100 2) genesis (Reached.start empty empty-IsFresh)
      (record { parent = record { stored = refl; next = refl }; fresh = inl refl })

second : IsAppendable one (block 102 2 101 3) (block 101 1 100 2)
unfolding write_block_with_state
second = record { parent = record { stored = refl; next = refl }; fresh = inl refl }

two-Reached : Reached config two
two-Reached = Reached.write one (block 102 2 101 3) (block 101 1 100 2) one-Reached second

fork : IsAppendable two (block 201 1 100 9) genesis
unfolding write_block_with_state
fork = record { parent = record { stored = refl; next = refl }; fresh = inl refl }

forked-Reached : Reached config forked
forked-Reached = Reached.write two (block 201 1 100 9) genesis two-Reached fork

two-IsGood : IsGood two
two-IsGood = Reached-IsGood config two two-Reached

-- The head and the canonical hash of height 1 move to the fork; that of height 2 stays.
forked_head : (forked.head_hash ≡ 201) × (forked.canonical 1 ≡ 201) × (forked.canonical 2 ≡ 102)
unfolding write_block_with_state reorg finish_reorg
forked_head = (refl, refl, refl)

-- The entry of the minor block that only the dropped block of height 1 lists is still there; that
-- of height 2 is gone.
forked_lookup :
    (forked.lookup 601 ≡ some (record { block_hash = 101; index = 0 })) × (forked.lookup 602 ≡ none)
unfolding write_block_with_state reorg finish_reorg
forked_lookup = (refl, refl)

write_block_with_state-IsWritten_example :
    (bc' : RootChain) × (write_block_with_state config (block 201 1 100 9) two
      ≡ (ok canon_stat, bc'))
    × IsWritten (block 201 1 100 9) two bc'
unfolding is_preferred write_block_with_state
write_block_with_state-IsWritten_example =
    write_block_with_state-IsWritten config two (block 201 1 100 9) genesis two-IsGood.store
      two-IsGood.canonical fork

Reached-IsGood_example : IsGood forked
Reached-IsGood_example = Reached-IsGood config forked forked-Reached

get_ancestor-walk_up_example :
    (a : RootBlock) × (walk_up two.blocks 2 (block 102 2 101 3) ≡ some a)
    × ((get_ancestor two 102 2 2 5).0 ≡ (a.header.hash, 2 - 2))
unfolding write_block_with_state
get_ancestor-walk_up_example =
    get_ancestor-walk_up two 2 5 (block 102 2 101 3) two-IsGood.store two-IsGood.canonical refl
      (omega arith) (omega arith) (omega arith)

get_block_by_number-walk_up_example :
    get_block_by_number two 1 ≡ walk_up two.blocks (2 - 1) (block 102 2 101 3)
unfolding write_block_with_state
get_block_by_number-walk_up_example =
    get_block_by_number-walk_up two 1 two-IsGood.store two-IsGood.canonical refl (omega arith)

get_block_hashes_from_hash-AreAncestors_example :
    AreAncestors two (block 102 2 101 3) 7 (get_block_hashes_from_hash two 102 7)
unfolding write_block_with_state
get_block_hashes_from_hash-AreAncestors_example =
    get_block_hashes_from_hash-AreAncestors two 7 (block 102 2 101 3) two-IsGood.store refl refl

set_head-IsRewound_example :
    (bc' : RootChain) × (set_head config 1 1 two ≡ ok bc') × IsRewound two 1 bc'
unfolding write_block_with_state
set_head-IsRewound_example =
    set_head-IsRewound config 0 1 two two-IsGood.store two-IsGood.canonical refl

-- The hashes of the ancestors, and a stale answer above the head after the fork.
hashes_two : get_block_hashes_from_hash two 102 7 ≡ 101 ∷ 100 ∷ []
unfolding write_block_with_state get_block_hashes_from_hash
hashes_two = refl

stale : get_block_by_number forked 2 ≡ some (block 102 2 101 3)
unfolding write_block_with_state reorg finish_reorg get_block_by_number
stale = refl

-- Counting is on, and a shard has one block of the miner at height 1.
abbrev counting : ChainConfig
counting = record config { count_minor_blocks = true }

abbrev counted : RootChain
counted = record two {
  block_counts =
      λ n shard. if n == 1 then some (λ recipient. if recipient == 8 then 1 else 0) else none;
}

put_root_block_index-get_block_count_example :
    count_of
      (get_block_count counting (put_root_block_index counting (block 102 2 101 3) counted) 2 1)
      8
    ≡ 2
unfolding is_listed
put_root_block_index-get_block_count_example =
    put_root_block_index-get_block_count counting (block 102 2 101 3) counted 1 8
      (λ recipient. if recipient == 8 then 1 else 0) refl (omega arith) refl refl refl (omega arith)
