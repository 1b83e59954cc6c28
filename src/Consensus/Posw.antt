-- ===== src/Consensus/Posw.antt =====
-- consensus/posw/posw.go: how many blocks of the last window a recipient mined, through a cache of
-- the windows. Hashes and recipients are numbers.
use goquarkchain.Prelude.{
  ℕ, zero, suc, ◌-◌, ◌*◌, ◌/◌, ◌%◌, ◌^◌, Bool, Option, none, some, ltb, leb, ◌==◌, if◌then◌else◌,
  ◌&&◌, List, [], ◌∷◌, ◌++◌, drop, length, Result, ok, err, ◌>>=◌,
}
use mathlib.Core.List.{reverse}
use goquarkchain.Consensus.Boost.{PoswConfig, get_diff_divider}

-- `missing_block` is a panic: the message of that error reads the block that is missing.
pub data PoswError : Type 0 where
  block_not_found missing_block : PoswError

pub record Block : Type 0 where
  pub number : ℕ
  pub parent_hash : ℕ
  pub coinbase : ℕ

-- `heightAndAddrs`
pub record HeightAndAddrs : Type 0 where
  pub height : ℕ
  pub addrs : List ℕ

-- The LRU cache of a third party: what a key finds, and the cache after an addition.
pub record CacheOps : Type 1 where
  pub Cache : Type 0
  pub get : Cache → ℕ → Option HeightAndAddrs
  pub add : ℕ → HeightAndAddrs → Cache → Cache

-- The loop of a miss: the coinbases of at most `n` blocks, the newest first. It asks for the parent
-- after the last of them too.
unfoldable pub walk : (ℕ → Option Block) → ℕ → Block → Result PoswError (List ℕ)
walk get_block zero block = ok []
walk get_block (suc n) block =
    let rest : Result PoswError (List ℕ) = elim (get_block block.parent_hash) [
      | none ↦ err missing_block
      | some parent ↦ walk get_block n parent
    ] in
    if block.number == 0
    then ok (block.coinbase ∷ [])
    else rest >>= (λ addrs. ok (block.coinbase ∷ addrs))

-- The window of a hit, from the window of the parent.
unfoldable pub slide : ℕ → List ℕ → ℕ → List ℕ
slide len addrs coinbase = (if length addrs == len then drop 1 addrs else addrs) ++ (coinbase ∷ [])

module _ (get_block : ℕ → Option Block) (ops : CacheOps) where
  -- The addresses of the window of `len` blocks that ends at `block`.
  unfoldable pub window_of : ℕ → Block → ops.Cache → Result PoswError (List ℕ)
  unfolding walk slide
  window_of len block cache = elim (ops.get cache block.parent_hash) [
    | some found ↦ ok (slide len found.addrs block.coinbase)
    | none ↦ walk get_block len block >>= (λ addrs. ok (reverse addrs))
  ]

  -- `getCoinbaseAddressUntilBlock`, with the cache after it. The check of the length cannot fail.
  unfoldable pub get_coinbase_address_until_block :
      PoswConfig → ℕ → ops.Cache → Result PoswError (List ℕ × ops.Cache)
  unfolding window_of
  get_coinbase_address_until_block config header_hash cache = elim (get_block header_hash) [
    | none ↦ err block_not_found
    | some block ↦ window_of (config.window_size - 1) block cache >>= (λ addrs.
        ok (addrs, ops.add header_hash (record { height = block.number; addrs = addrs }) cache))
  ]

-- `bytes.Compare` of two recipients is 0.
unfoldable pub count_coinbase : ℕ → List ℕ → ℕ
count_coinbase coinbase [] = 0
count_coinbase coinbase (cb ∷ cbs) =
    if cb == coinbase then suc (count_coinbase coinbase cbs) else count_coinbase coinbase cbs

-- The blocks that a stake pays for. `stakes` is not negative, and `stake_per_block` is not 0.
unfoldable pub block_threshold : PoswConfig → ℕ → ℕ → ℕ
block_threshold config stakes stake_per_block =
    let threshold = stakes / stake_per_block % 2 ^ 64 in
    if ltb config.window_size threshold then config.window_size else threshold

-- `PoSWDiffAdjust`, with the blocks counted in the window; the divider is below 2^63.
unfoldable pub posw_diff_adjust : PoswConfig → ℕ → ℕ → Option ℕ → ℕ → List ℕ → ℕ → ℕ
unfolding block_threshold get_diff_divider
posw_diff_adjust config diff time none stake_per_block window coinbase = diff
posw_diff_adjust config diff time (some stakes) stake_per_block window coinbase =
    let threshold = block_threshold config stakes stake_per_block in
    if stakes / stake_per_block % 2 ^ 64 == 0
    then diff
    else if ltb (count_coinbase coinbase window) threshold
    then diff / get_diff_divider config time
    else diff

-- `BuildSenderDisallowMap`: the amount that a recipient may not send; none if it is not in the map.
unfoldable pub sender_disallowed : PoswConfig → List ℕ → Option ℕ → ℕ → Option ℕ
unfolding count_coinbase
sender_disallowed config window coinbase recipient =
    let with_coinbase : List ℕ = elim coinbase [ none ↦ window | some c ↦ window ++ (c ∷ []) ] in
    let mined = count_coinbase recipient with_coinbase in
    if config.enabled
    then if mined == 0 then none else some (mined * config.total_stake_per_block)
    else none

unfoldable pub is_posw_enabled : PoswConfig → ℕ → ℕ → Bool
is_posw_enabled config time height =
    config.enabled && leb config.enable_timestamp time && ltb 0 height

-- `GetPoSWInfo` after the count: the effective difficulty, what may be mined and what was.
unfoldable pub get_posw_info : PoswConfig → ℕ → ℕ → ℕ → Option ℕ → ℕ → List ℕ → ℕ → ℕ × ℕ × ℕ
unfolding is_posw_enabled block_threshold count_coinbase get_diff_divider
get_posw_info config diff time height none stake_per_block window address =
    (diff, 0, count_coinbase address window)
get_posw_info config diff time height (some stakes) stake_per_block window address =
    let mined = count_coinbase address window in
    let mineable = block_threshold config stakes stake_per_block in
    if is_posw_enabled config time height
    then (
      (if ltb mined mineable then diff / get_diff_divider config time else diff),
      mineable,
      mined,
    )
    else (diff, 0, mined)
