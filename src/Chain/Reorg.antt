-- ===== src/Chain/Reorg.antt =====
-- core/rootblockchain.go: WriteBlockWithState, which chooses the head, and reorg.
use goquarkchain.Prelude.{
  ℕ, zero, suc, ◌+◌, Bool, ◌||◌, ◌&&◌, Option, none, some, List, [], ◌∷◌, ◌++◌, ltb, ◌==◌,
  if◌then◌else◌, Result, ok, err, ◌>>=◌,
}
use goquarkchain.Core.RootValidator.{MinorHeader, RootBlock}
use goquarkchain.Chain.Store.{
  RootChain, ChainConfig, at, get_block, write_root_block, write_block_content_lookup_entries,
  delete_entries, is_listed, insert,
}

-- `out_of_fuel` is not the code's: it stands for a loop that goes on.
pub data ChainError : Type 0 where
  invalid_old_chain invalid_new_chain out_of_fuel : ChainError

pub data WriteStatus : Type 0 where
  canon_stat side_stat : WriteStatus

-- The loop that reduces the higher side to a height: the block it stops at, `none` if a parent is
-- missing, and the blocks on the way.
unfoldable pub reduce :
    ℕ → RootChain → ℕ → Option RootBlock → Result ChainError (Option RootBlock × List RootBlock)
unfolding get_block
reduce zero bc target block = err out_of_fuel
reduce (suc n) bc target none = ok (none, [])
reduce (suc n) bc target (some b) =
    let rest = reduce n bc target (get_block bc b.header.parent_hash) in
    if b.header.number == target
    then ok (some b, [])
    else rest >>= (λ (last, passed). ok (last, b ∷ passed))

abbrev pub or_error : ChainError → Option RootBlock → Result ChainError RootBlock
or_error why none = err why
or_error why (some b) = ok b

-- `commonBlock`, and what both sides passed before it.
pub record Fork : Type 0 where
  pub common_block : RootBlock
  pub old_chain : List RootBlock
  pub new_chain : List RootBlock

abbrev pub passing : RootBlock → RootBlock → Fork → Fork
passing old new fork = record fork {
  old_chain = old ∷ fork.old_chain;
  new_chain = new ∷ fork.new_chain;
}

-- The loop that takes both sides down together.
unfoldable pub meet : ℕ → RootChain → RootBlock → RootBlock → Result ChainError Fork
unfolding get_block
meet zero bc old new = err out_of_fuel
meet (suc n) bc old new =
    let rest = or_error invalid_old_chain (get_block bc old.header.parent_hash) >>= (λ older.
      or_error invalid_new_chain (get_block bc new.header.parent_hash)
      >>= (λ newer. meet n bc older newer >>= (λ fork. ok (passing old new fork)))) in
    if old.header.hash == new.header.hash
    then ok (record { common_block = old; old_chain = []; new_chain = [] })
    else rest

unfoldable pub listed_headers : List RootBlock → List MinorHeader
listed_headers [] = []
listed_headers (b ∷ blocks) = b.minor_block_headers ++ listed_headers blocks

abbrev pub hashes_of : List MinorHeader → List ℕ
hashes_of [] = []
hashes_of (h ∷ headers) = h.hash ∷ hashes_of headers

-- `MinorHeaderDifference`
unfoldable pub minor_header_difference : List MinorHeader → List MinorHeader → List MinorHeader
unfolding is_listed
minor_header_difference [] removed = []
minor_header_difference (h ∷ headers) removed =
    let rest = minor_header_difference headers removed in
    if is_listed h.hash (hashes_of removed) then rest else h ∷ rest

-- The blocks of the new chain, its newest first, from the oldest on.
unfoldable pub insert_all : ChainConfig → List RootBlock → RootChain → RootChain
unfolding insert write_block_content_lookup_entries
insert_all config [] bc = bc
insert_all config (b ∷ blocks) bc =
    write_block_content_lookup_entries b (insert config b (insert_all config blocks bc))

-- Both blocks at one height, and the headers of the old chain that the first loop has passed.
unfoldable pub level :
    ℕ → RootChain → RootBlock → RootBlock → Result ChainError (Fork × List MinorHeader)
unfolding reduce meet listed_headers
level n bc old new =
    let down_old = reduce n bc new.header.number (some old) >>= (λ (last, passed).
      or_error invalid_old_chain last >>= (λ old'. meet n bc old' new >>= (λ fork.
        ok (record fork { old_chain = passed ++ fork.old_chain }, listed_headers passed)))) in
    let down_new = reduce n bc old.header.number (some new) >>= (λ (last, passed).
      or_error invalid_new_chain last >>= (λ new'.
        meet n bc old new'
        >>= (λ fork. ok (record fork { new_chain = passed ++ fork.new_chain }, [])))) in
    if ltb new.header.number old.header.number then down_old else down_new

-- The end of reorg: the new chain goes in, and entries that only the deleted headers had go out.
unfoldable pub replace_chain :
    ChainConfig → List MinorHeader → List RootBlock → RootChain → RootChain
unfolding insert_all listed_headers minor_header_difference delete_entries
replace_chain config deleted new_chain bc =
    let bc' = insert_all config new_chain bc in
    record bc' {
      lookup =
          delete_entries (minor_header_difference deleted (listed_headers new_chain)) bc'.lookup;
    }

unfoldable pub reorg : ChainConfig → RootChain → RootBlock → RootBlock → Result ChainError RootChain
unfolding level replace_chain
reorg config bc old new =
    level (old.header.number + new.header.number + 1) bc old new
    >>= (λ (fork, deleted). ok (replace_chain config deleted fork.new_chain bc))

-- A block of more total difficulty, or of the same one and a lower height, becomes the head.
unfoldable pub is_preferred : RootBlock → RootBlock → Bool
is_preferred b current =
    ltb current.header.total_difficulty b.header.total_difficulty
    || (current.header.total_difficulty == b.header.total_difficulty
        && ltb b.header.number current.header.number)

abbrev pub remove_future : ℕ → RootChain → RootChain
remove_future hash bc = record bc { future = at hash none bc.future }

-- The end of `WriteBlockWithState` for a block that becomes the head.
abbrev pub set_head_block : ChainConfig → RootBlock → RootChain → RootChain
set_head_block config b bc =
    remove_future b.header.hash (insert config b (write_block_content_lookup_entries b bc))

-- The state stays as it is written where reorg fails.
unfoldable pub finish_reorg :
    ChainConfig
    → RootBlock
    → RootChain
    → Result ChainError RootChain
    → Result ChainError WriteStatus × RootChain
unfolding insert write_block_content_lookup_entries
finish_reorg config b bc (err why) = (err why, bc)
finish_reorg config b bc (ok bc') = (ok canon_stat, set_head_block config b bc')

unfoldable pub write_block_with_state :
    ChainConfig → RootBlock → RootChain → Result ChainError WriteStatus × RootChain
unfolding write_root_block is_preferred reorg finish_reorg
write_block_with_state config b bc =
    let bc' = write_root_block b bc in
    if is_preferred b bc.current
    then finish_reorg config b bc' (
        if b.header.parent_hash == bc.current.header.hash
        then ok bc'
        else reorg config bc' bc.current b)
    else (ok side_stat, remove_future b.header.hash bc')
