-- ===== src/Chain/Store.antt =====
-- core/rootblockchain.go: the store of the root chain and its writes. `blocks` is what GetBlock finds
-- in the block cache or in the database; a hash of 0 is the empty hash.
use goquarkchain.Prelude.{
  ℕ, ◌+◌, ◌-◌, ◌%◌, ◌^◌, Bool, true, false, Option, none, some, List, [], ◌∷◌, ltb, ◌==◌,
  if◌then◌else◌,
}
use goquarkchain.Core.RootValidator.{MinorHeader, RootBlock, Latest}

-- `LookupEntry`: the root block that lists a minor block, and the place in it.
pub record LookupEntry : Type 0 where
  pub block_hash : ℕ
  pub index : ℕ

-- How often a shard lists a miner; `none` where nothing is stored.
abbrev pub BlockCount : Type 0
BlockCount = ℕ → Option (ℕ → ℕ)

-- `canonical` are the canonical hashes by number, `head_hash` is the stored head block hash,
-- `current` is `currentBlock`, `block_counts` are the stored counts by height, `confirming` the root
-- blocks by shard and minor block, `future` are `futureBlocks`.
pub record RootChain : Type 0 where
  pub blocks : ℕ → Option RootBlock
  pub canonical : ℕ → ℕ
  pub head_hash : ℕ
  pub current : RootBlock
  pub genesis_block : RootBlock
  pub lookup : ℕ → Option LookupEntry
  pub latest_headers : ℕ → Option Latest
  pub block_counts : ℕ → BlockCount
  pub confirming : ℕ → ℕ → ℕ
  pub future : ℕ → Option RootBlock

-- What the configuration says: `countMinorBlocks`, and the shards initialized before a root height.
pub record ChainConfig : Type 0 where
  pub count_minor_blocks : Bool
  pub initialized_before : ℕ → List ℕ
  pub max_stale_root_block_height_diff : ℕ
  pub is_check_db : Bool

abbrev pub at {ℓ} : {A : Type ℓ} → ℕ → A → (ℕ → A) → ℕ → A
at key value f k = if k == key then value else f k

unfoldable pub get_block : RootChain → ℕ → Option RootBlock
get_block bc hash = bc.blocks hash

unfoldable pub get_block_by_number : RootChain → ℕ → Option RootBlock
unfolding get_block
get_block_by_number bc number =
    if bc.canonical number == 0 then none else get_block bc (bc.canonical number)

unfoldable pub write_root_block : RootBlock → RootChain → RootChain
write_root_block b bc = record bc { blocks = at b.header.hash (some b) bc.blocks }

unfoldable pub write_canonical_hash : ℕ → ℕ → RootChain → RootChain
write_canonical_hash hash number bc = record bc { canonical = at number hash bc.canonical }

-- The entries of the headers from place `i` on.
unfoldable pub write_entries :
    ℕ → ℕ → List MinorHeader → (ℕ → Option LookupEntry) → ℕ → Option LookupEntry
write_entries block_hash i [] entries = entries
write_entries block_hash i (h ∷ headers) entries =
    write_entries block_hash (i + 1) headers
      (at h.hash (some (record { block_hash = block_hash; index = i % 2 ^ 32 })) entries)

unfoldable pub write_block_content_lookup_entries : RootBlock → RootChain → RootChain
unfolding write_entries
write_block_content_lookup_entries b bc = record bc {
  lookup = write_entries b.header.hash 0 b.minor_block_headers bc.lookup;
}

unfoldable pub delete_entries : List MinorHeader → (ℕ → Option LookupEntry) → ℕ → Option LookupEntry
delete_entries [] entries = entries
delete_entries (h ∷ headers) entries = delete_entries headers (at h.hash none entries)

unfoldable pub is_listed : ℕ → List ℕ → Bool
is_listed x [] = false
is_listed x (y ∷ ys) = if x == y then true else is_listed x ys

-- `GetBlockCount`
unfoldable pub get_block_count : ChainConfig → RootChain → ℕ → BlockCount
unfolding is_listed
get_block_count config bc root_height shard =
    if config.count_minor_blocks
    then (if is_listed shard (config.initialized_before root_height)
        then bc.block_counts root_height shard
        else none)
    else none

-- A count that is read from a map, 0 where it has none.
unfoldable pub count_of : Option (ℕ → ℕ) → ℕ → ℕ
count_of none recipient = 0
count_of (some counts) recipient = counts recipient

unfoldable pub count_header : MinorHeader → BlockCount → BlockCount
unfolding count_of
count_header h counts =
    at h.full_shard_id
      (some (
        at h.coinbase_recipient
          ((count_of (counts h.full_shard_id) h.coinbase_recipient + 1) % 2 ^ 32)
          (count_of (counts h.full_shard_id))))
      counts

unfoldable pub count_headers : List MinorHeader → BlockCount → BlockCount
unfolding count_header
count_headers [] counts = counts
count_headers (h ∷ headers) counts = count_headers headers (count_header h counts)

unfoldable pub confirm_headers : ℕ → List MinorHeader → (ℕ → ℕ → ℕ) → ℕ → ℕ → ℕ
confirm_headers root_hash [] confirming = confirming
confirm_headers root_hash (h ∷ headers) confirming =
    confirm_headers root_hash headers (λ shard hash.
      if shard == h.full_shard_id
      then (if hash == h.hash then root_hash else confirming shard hash)
      else confirming shard hash)

-- Only the shards of the map are written.
unfoldable pub write_counts : BlockCount → BlockCount → BlockCount
write_counts new old shard = elim (new shard) [ none ↦ old shard | some counts ↦ some counts ]

-- The part of `PutRootBlockIndex` behind its early return.
unfoldable pub put_counts : ChainConfig → RootBlock → RootChain → RootChain
unfolding get_block_count count_headers confirm_headers write_counts
put_counts config b bc =
    let before : BlockCount =
      if ltb 0 b.header.number then get_block_count config bc (b.header.number - 1) else λ shard.
      none in
    record bc {
      block_counts =
          at b.header.number
            (write_counts (count_headers b.minor_block_headers before)
              (bc.block_counts b.header.number))
            bc.block_counts;
      confirming = confirm_headers b.header.hash b.minor_block_headers bc.confirming;
    }

unfoldable pub put_root_block_index : ChainConfig → RootBlock → RootChain → RootChain
unfolding write_canonical_hash put_counts
put_root_block_index config b bc =
    let bc' = write_canonical_hash b.header.hash b.header.number bc in
    if config.count_minor_blocks then put_counts config b bc' else bc'

unfoldable pub insert : ChainConfig → RootBlock → RootChain → RootChain
unfolding put_root_block_index
insert config b bc = record (put_root_block_index config b bc) {
  head_hash = b.header.hash;
  current = b;
}
