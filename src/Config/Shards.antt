-- ===== src/Config/Shards.antt =====
-- The shards of a configuration, cluster/config/cluster_config.go and shard_config.go. A map is a
-- list of keys and values.
use goquarkchain.Prelude.{
  ℕ, zero, suc, ◌+◌, ◌*◌, ◌/◌, ◌%◌, ◌^◌, bit_and, bit_or, Bool, true, false, not, ◌||◌, ◌&&◌,
  Option, none, some, List, [], ◌∷◌, length, ltb, ◌==◌, if◌then◌else◌, Result, ok, err, ◌>>=◌, ◌>>◌,
  fail_if,
}
use goquarkchain.Common.Words.{sub32}

-- `bad_*` are panics of initAndValidate.
pub data ConfigError : Type 0 where
  no_such_chain bad_full_shard_id bad_shard_count bad_shard_ids bad_chain_id no_such_slave
        no_slaves :
      ConfigError

pub record ShardConfig : Type 0 where
  pub chain_id : ℕ
  pub shard_size : ℕ
  pub shard_id : ℕ
  pub genesis_root_height : Option ℕ

abbrev pub Shards : Type 0
Shards = List (ℕ × ShardConfig)

-- `ShardConfig.GetFullShardId`.
unfoldable pub config_full_shard_id : ShardConfig → ℕ
config_full_shard_id s = bit_or (bit_or (s.chain_id * 2 ^ 16 % 2 ^ 32) s.shard_size) s.shard_id

unfoldable pub find : {A : Type 0} → ℕ → List (ℕ × A) → Option A
find k [] = none
find k ((key, value) ∷ rest) = let others = find k rest in if key == k then some value else others

unfoldable pub is_member : ℕ → List ℕ → Bool
is_member n [] = false
is_member n (k ∷ ks) = n == k || is_member n ks

-- The first loop of `initAndValidate`: chainIdToShardSize, where the last shard of a chain counts.
unfoldable pub chain_sizes : List (ℕ × ℕ) → Shards → Result ConfigError (List (ℕ × ℕ))
unfolding config_full_shard_id
chain_sizes sizes [] = ok sizes
chain_sizes sizes ((id, s) ∷ shards) =
    fail_if (not (id == config_full_shard_id s)) bad_full_shard_id
    >> chain_sizes ((s.chain_id, s.shard_size) ∷ sizes) shards

-- chainIdToShardIds.
unfoldable pub shard_ids_of : ℕ → Shards → List ℕ
shard_ids_of chain [] = []
shard_ids_of chain ((id, s) ∷ shards) =
    let ids = shard_ids_of chain shards in if s.chain_id == chain then s.shard_id ∷ ids else ids

-- Whether all numbers below n are among the ids.
unfoldable pub all_below : ℕ → List ℕ → Bool
unfolding is_member
all_below zero ids = true
all_below (suc n) ids = is_member n ids && all_below n ids

-- The second loop; a map goes through each chain once.
unfoldable pub check_chains : List (ℕ × ℕ) → Shards → Shards → Result ConfigError (Unit {0})
unfolding find shard_ids_of all_below
check_chains sizes shards [] = ok tt
check_chains sizes shards ((id, s) ∷ rest) = elim (find s.chain_id sizes) [
  | none ↦ err no_such_chain
  | some size ↦
      fail_if (not (length (shard_ids_of s.chain_id shards) == size)) bad_shard_count
      >> (fail_if (not (all_below size (shard_ids_of s.chain_id shards))) bad_shard_ids
          >> check_chains sizes shards rest)
]

-- The third loop: each i below the number of chains is the id that is found under i, where a chain
-- that is missing has the id 0.
unfoldable pub has_chains : ℕ → List (ℕ × ℕ) → Bool
has_chains zero sizes = true
has_chains (suc n) sizes =
    (elim (find n sizes) [ none ↦ n == 0 | some size ↦ true ]) && has_chains n sizes

-- `initAndValidate`, as far as it is about shards; it gives chainIdToShardSize.
unfoldable pub init_and_validate : ℕ → Shards → Result ConfigError (List (ℕ × ℕ))
unfolding chain_sizes check_chains has_chains
init_and_validate chain_size shards = chain_sizes [] shards >>= (λ sizes.
    check_chains sizes shards shards
    >> (fail_if (not (has_chains chain_size sizes)) bad_chain_id >> ok sizes))

unfoldable pub get_shard_size_by_chain_id : List (ℕ × ℕ) → ℕ → Result ConfigError ℕ
unfolding find
get_shard_size_by_chain_id sizes chain = elim (find chain sizes) [
  | none ↦ err no_such_chain
  | some size ↦ ok size
]

unfoldable pub get_full_shard_id_by_full_shard_key : List (ℕ × ℕ) → ℕ → Result ConfigError ℕ
unfolding get_shard_size_by_chain_id
get_full_shard_id_by_full_shard_key sizes key =
    get_shard_size_by_chain_id sizes (key / 2 ^ 16) >>= (λ size.
      ok (bit_or (bit_or (key / 2 ^ 16 * 2 ^ 16 % 2 ^ 32) size) (bit_and key (sub32 size 1))))

unfoldable pub is_same_full_shard : List (ℕ × ℕ) → ℕ → ℕ → Bool
unfolding get_full_shard_id_by_full_shard_key
is_same_full_shard sizes key1 key2 = elim (get_full_shard_id_by_full_shard_key sizes key1) [
  | err why ↦ false
  | ok id1 ↦ elim (get_full_shard_id_by_full_shard_key sizes key2) [
    | err why ↦ false
    | ok id2 ↦ id1 == id2
  ]
]

unfoldable pub get_genesis_shard_ids : Shards → List ℕ
get_genesis_shard_ids [] = []
get_genesis_shard_ids ((id, s) ∷ shards) = id ∷ get_genesis_shard_ids shards

unfoldable pub get_initialized_shard_ids_before_root_height : Shards → ℕ → List ℕ
get_initialized_shard_ids_before_root_height [] height = []
get_initialized_shard_ids_before_root_height ((id, s) ∷ shards) height =
    let ids = get_initialized_shard_ids_before_root_height shards height in
    elim s.genesis_root_height [
      | none ↦ ids
      | some root_height ↦ if ltb root_height height then id ∷ ids else ids
    ]

-- `getFullShardIdListFromSlaveIndex`, from the index on, for at least one slave.
unfoldable pub slave_list_from : ℕ → List ℕ → ℕ → ℕ → List ℕ
slave_list_from index [] slaves slave = []
slave_list_from index (id ∷ ids) slaves slave =
    let rest = slave_list_from (index + 1) ids slaves slave in
    if index % slaves == slave then id ∷ rest else rest

unfoldable pub get_full_shard_id_list_from_slave_index : List ℕ → ℕ → ℕ → List ℕ
unfolding slave_list_from
get_full_shard_id_list_from_slave_index ids slaves slave = slave_list_from 0 ids slaves slave
