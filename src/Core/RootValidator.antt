-- ===== src/Core/RootValidator.antt =====
-- RootBlockValidator of core/rootblock_validator.go, and isSameChain of core/common.go. The chain is
-- given by its lookups; engine, Merkle root and coinbase are parameters.
use goquarkchain.Prelude.{
  ℕ, zero, suc, ◌+◌, ◌-◌, ◌/◌, ◌%◌, ◌^◌, Bool, true, false, not, ◌&&◌, ◌||◌, Option, none, some,
  List, [], ◌∷◌, ◌++◌, length, ltb, ◌==◌, if◌then◌else◌, Result, ok, err, ◌>>=◌, ◌>>◌, fail_if,
}

-- `wrong_order` and `missing_blocks` are `log.Crit`, which ends the process; `nil_header` is a panic.
pub data RootError : Type 0 where
  unexpected_height known_block bad_header no_parent bad_total_difficulty too_much_tracking_data :
      RootError
  bad_merkle_root bad_state_root no_coinbase bad_coinbase not_validated too_late : RootError
  bad_shard_order bad_number bad_link no_root_block wrong_order missing_blocks : RootError
  other_chain too_many_blocks no_config uninitialized_shard no_genesis bad_first_link : RootError
  nil_header bad_seal : RootError

pub record MinorHeader : Type 0 where
  pub hash : ℕ
  pub number : ℕ
  pub parent_hash : ℕ
  pub full_shard_id : ℕ
  pub time : ℕ
  pub prev_root_block_hash : ℕ
  pub coinbase_recipient : ℕ

pub record RootHeader : Type 0 where
  pub hash : ℕ
  pub number : ℕ
  pub parent_hash : ℕ
  pub minor_header_hash : ℕ
  pub root : ℕ
  pub coinbase_amount : List (ℕ × ℕ)
  pub time : ℕ
  pub difficulty : ℕ
  pub total_difficulty : ℕ

pub record RootBlock : Type 0 where
  pub header : RootHeader
  pub minor_block_headers : List MinorHeader
  pub tracking_data : List ℕ

abbrev pub Latest : Type 0
Latest = ℕ → Option MinorHeader

pub record RootEnv : Type 0 where
  pub has_block : ℕ → Bool
  pub verify_header : RootHeader → Bool
  pub get_block : ℕ → Option RootHeader
  pub parent_hash_of : ℕ → ℕ
  pub extra_data_size_limit : ℕ
  pub merkle_root : List MinorHeader → ℕ
  pub empty_trie_hash : ℕ
  pub skip_coinbase_check : Bool
  pub coinbase_of : RootBlock → Option (List (ℕ × ℕ))
  pub contains_minor : ℕ → Bool
  pub latest_minor_headers : ℕ → Latest
  pub max_blocks : ℕ → Option ℕ
  pub initialized_before : ℕ → List ℕ

-- What isSameChain asks of a block.
pub record Node : Type 0 where
  pub hash : ℕ
  pub number : ℕ
  pub parent_hash : ℕ

abbrev pub root_node : RootHeader → Node
root_node h = record { hash = h.hash; number = h.number; parent_hash = h.parent_hash }

-- The hash of the n-th ancestor; 0 is the empty hash.
unfoldable pub walk_parents : (ℕ → ℕ) → ℕ → ℕ → Result RootError ℕ
walk_parents parent_of zero hash = ok hash
walk_parents parent_of (suc n) hash =
    let older = walk_parents parent_of n (parent_of hash) in
    if parent_of hash == 0 then err missing_blocks else older

unfoldable pub is_same_chain : (ℕ → ℕ) → Node → Node → Result RootError Bool
unfolding walk_parents
is_same_chain parent_of longer shorter =
    let far =
      walk_parents parent_of (longer.number - shorter.number - 1) longer.parent_hash
      >>= (λ hash. ok (hash == shorter.hash)) in
    if ltb longer.number shorter.number
    then err wrong_order
    else if shorter.number == longer.number
    then ok (shorter.hash == longer.hash)
    else if (shorter.number + 1) % 2 ^ 64 == longer.number
    then ok (shorter.hash == longer.parent_hash)
    else far

-- `shardIdToMinorHeadersMap`, its newest shard first.
abbrev pub Groups : Type 0
Groups = List (ℕ × List MinorHeader)

unfoldable pub add_to_last : Groups → MinorHeader → Groups
add_to_last [] h = []
add_to_last ((id, headers) ∷ groups) h = (id, headers ++ (h ∷ [])) ∷ groups

-- A header of the shard of the one before it.
unfoldable pub follow : Option MinorHeader → MinorHeader → Result RootError (Unit {0})
follow none h = err nil_header
follow (some p) h =
    fail_if (not (h.number == (p.number + 1) % 2 ^ 64)) bad_number
    >> fail_if (not (h.parent_hash == p.hash)) bad_link

-- The loop over the minor block headers, from the shard, the header before and the groups so far.
unfoldable pub group_headers :
    (ℕ → Bool) → ℕ → ℕ → Option MinorHeader → Groups → List MinorHeader → Result RootError Groups
unfolding add_to_last follow
group_headers contains time shard parent groups [] = ok groups
group_headers contains time shard parent groups (h ∷ headers) =
    fail_if (not (contains h.hash)) not_validated
    >> (fail_if (ltb time h.time) too_late
        >> (fail_if (ltb h.full_shard_id shard) bad_shard_order
            >> (elim (ltb shard h.full_shard_id) [
              | true ↦
                  group_headers contains time h.full_shard_id (some h)
                    ((h.full_shard_id, h ∷ []) ∷ groups) headers
              | false ↦
                  follow parent h
                  >> group_headers contains time shard (some h) (add_to_last groups h) headers
            ])))

-- The loop over the root blocks that the minor blocks point to; a map goes through each once.
unfoldable pub check_prev_roots :
    RootEnv → RootHeader → List MinorHeader → Result RootError (Unit {0})
unfolding is_same_chain
check_prev_roots env root [] = ok tt
check_prev_roots env root (h ∷ headers) = elim (env.get_block h.prev_root_block_hash) [
  | none ↦ err no_root_block
  | some prev ↦
      is_same_chain env.parent_hash_of (root_node root) (root_node prev)
      >>= (λ same. fail_if (not same) other_chain >> check_prev_roots env root headers)
]

unfoldable pub member : ℕ → List ℕ → Bool
member n [] = false
member n (k ∷ ks) = k == n || member n ks

-- Whether the first header of a shard does not extend the latest one.
unfoldable pub breaks : Option MinorHeader → MinorHeader → Bool
breaks none h = false
breaks (some prev) h =
    not ((prev.number + 1) % 2 ^ 64 == h.number) || not (prev.hash == h.parent_hash)

unfoldable pub is_missing : Option MinorHeader → Bool
is_missing none = true
is_missing (some h) = false

abbrev pub last_of : MinorHeader → List MinorHeader → MinorHeader
last_of h [] = h
last_of h (h' ∷ headers) = last_of h' headers

-- The headers of one shard; the last of them is the shard's new latest one.
unfoldable pub check_group :
    RootEnv → List ℕ → Latest → ℕ → List MinorHeader → Result RootError MinorHeader
unfolding member breaks is_missing
check_group env initialized latest id [] = err nil_header
check_group env initialized latest id (first ∷ headers) = elim (env.max_blocks id) [
  | none ↦ err no_config
  | some max_count ↦
      fail_if (ltb max_count (length (first ∷ headers) % 2 ^ 32)) too_many_blocks
      >> (fail_if (not (member id initialized)) uninitialized_shard
          >> (fail_if (is_missing (latest id) && not (first.number == 0)) no_genesis
              >> (fail_if (breaks (latest id) first) bad_first_link >> ok (last_of first headers))))
]

unfoldable pub set_latest : Latest → ℕ → MinorHeader → Latest
set_latest latest id h = λ i. if i == id then some h else latest i

unfoldable pub check_groups : RootEnv → List ℕ → Latest → Groups → Result RootError Latest
unfolding check_group set_latest
check_groups env initialized latest [] = ok latest
check_groups env initialized latest ((id, headers) ∷ groups) =
    check_group env initialized latest id headers
    >>= (λ h. check_groups env initialized (set_latest latest id h) groups)

-- `compareCoinbaseAmountMap` of core/minorblock_validator.go; a map is a list of keys and values.
unfoldable pub amount_of : List (ℕ × ℕ) → ℕ → Option ℕ
amount_of [] k = none
amount_of ((key, value) ∷ amounts) k =
    let rest = amount_of amounts k in if key == k then some value else rest

unfoldable pub all_in : List (ℕ × ℕ) → List (ℕ × ℕ) → Bool
unfolding amount_of
all_in [] b = true
all_in ((key, value) ∷ a) b =
    (elim (amount_of b key) [ none ↦ false | some other ↦ other == value ]) && all_in a b

unfoldable pub compare_coinbase_amount_map : List (ℕ × ℕ) → List (ℕ × ℕ) → Bool
unfolding all_in
compare_coinbase_amount_map a b = length a == length b && all_in a b

unfoldable pub check_coinbase : RootEnv → RootBlock → Result RootError (Unit {0})
unfolding compare_coinbase_amount_map
check_coinbase env block = if env.skip_coinbase_check then ok tt else elim (env.coinbase_of block) [
  | none ↦ err no_coinbase
  | some expected ↦
      fail_if (not (compare_coinbase_amount_map expected block.header.coinbase_amount)) bad_coinbase
]

-- The checks of `ValidateBlock` on the header and the parent.
unfoldable pub check_root_header : RootEnv → RootBlock → Bool → Result RootError (Unit {0})
unfolding check_coinbase
check_root_header env block force =
    fail_if (ltb block.header.number 1) unexpected_height
    >> (fail_if (env.has_block block.header.hash && not force) known_block
        >> (fail_if (not (env.verify_header block.header)) bad_header
            >> (elim (env.get_block block.header.parent_hash) [
              | none ↦ err no_parent
              | some parent ↦
                  fail_if
                    (not (
                      block.header.difficulty + parent.total_difficulty
                      == block.header.total_difficulty))
                    bad_total_difficulty
                  >> (fail_if (ltb env.extra_data_size_limit (length block.tracking_data % 2 ^ 32))
                        too_much_tracking_data
                      >> (fail_if
                            (not (
                              env.merkle_root block.minor_block_headers
                              == block.header.minor_header_hash))
                            bad_merkle_root
                          >> (fail_if (not (block.header.root == env.empty_trie_hash))
                                bad_state_root
                              >> check_coinbase env block)))
            ])))

-- `ValidateBlock`; it gives the latest minor block headers that are stored for the block.
unfoldable pub validate_block : RootEnv → RootBlock → Bool → Result RootError Latest
unfolding check_root_header group_headers check_prev_roots check_groups
validate_block env block force =
    check_root_header env block force
    >> (group_headers env.contains_minor block.header.time 0 none [] block.minor_block_headers
        >>= (λ groups.
            check_prev_roots env block.header block.minor_block_headers
            >> check_groups env (env.initialized_before block.header.number)
                (env.latest_minor_headers block.header.parent_hash) groups))

-- `ValidateSeal` of a root block: what the difficulty is divided by before the engine checks the
-- seal. `guardian` says whether the guardian's signature is valid; `posw` is the difficulty and the
-- divider that `GetAdjustedDifficulty` gives. Dividers are not 0, where Go would panic.
unfoldable pub validate_seal :
    (RootHeader → ℕ → Bool)
    → (RootHeader → Bool)
    → (RootHeader → ℕ × ℕ)
    → Bool
    → (ℕ → ℕ)
    → RootHeader
    → Bool
    → Result RootError (Unit {0})
validate_seal verify_seal guardian posw posw_enabled diff_divider header use_posw =
    let adjusted =
      if use_posw
      then (posw header).0 / (posw header).1
      else if guardian header
      then header.difficulty / 1000
      else if posw_enabled
      then header.difficulty / diff_divider header.time
      else header.difficulty in
    if header.number == 0 then ok tt else fail_if (not (verify_seal header adjusted)) bad_seal
