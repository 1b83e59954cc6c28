-- ===== src/Chain/Counts.antt =====
-- core/rootblockchain.go: the counts of minor blocks by shard and miner that PutRootBlockIndex keeps.
use goquarkchain.Prelude.{
  ℕ, ◌+◌, ◌-◌, ◌%◌, ◌^◌, ◌<◌, ◌≡◌, inl, inr, refl, sym, ap, ◌∙◌, Bool, true, false, none, some,
  List, [], ◌∷◌, ltb, lt→ltb, ◌==◌, ==_iff, Bool-cases, if◌then◌else◌, arith,
}
use goquarkchain.Core.RootValidator.{MinorHeader, RootBlock}
use goquarkchain.Chain.Store.{
  RootChain, ChainConfig, BlockCount, at, is_listed, get_block_count, count_of, count_header,
  count_headers, write_counts, put_counts, put_root_block_index, write_canonical_hash,
}
use goquarkchain.Chain.Canonical.{at_same}

-- How many of the headers are of a shard and of a miner.
abbrev pub occurrences : ℕ → ℕ → List MinorHeader → ℕ
occurrences shard recipient [] = 0
occurrences shard recipient (h ∷ headers) =
    (if h.full_shard_id == shard then (if h.coinbase_recipient == recipient then 1 else 0) else 0)
    + occurrences shard recipient headers

count_header-count :
    (h : MinorHeader) (counts : BlockCount) (shard recipient : ℕ)
    → count_of (counts shard) recipient < 2 ^ 32
    → count_of (count_header h counts shard) recipient
      ≡ (count_of (counts shard) recipient + occurrences shard recipient (h ∷ [])) % 2 ^ 32
unfolding count_header count_of
count_header-count h counts shard recipient small = elim (Bool-cases (shard == h.full_shard_id)) [
  | inr other ↦
      let back : (h.full_shard_id == shard) ≡ false = ground arith in
      rw (other, back) (omega (arith, small))
  | inl same ↦
      let back : (h.full_shard_id == shard) ≡ true = ground arith in
      let e : shard ≡ h.full_shard_id = (==_iff shard h.full_shard_id).0 same in
      elim (Bool-cases (recipient == h.coinbase_recipient)) [
        | inl mine ↦
            let back' : (h.coinbase_recipient == recipient) ≡ true = ground arith in
            let e' : recipient ≡ h.coinbase_recipient =
              (==_iff recipient h.coinbase_recipient).0 mine in
            rw (same, back, mine, back')
              (ap (λ t. (t + 1) % 2 ^ 32)
                  (ap (λ s. count_of (counts s) h.coinbase_recipient) (sym e)
                    ∙ ap (count_of (counts shard)) (sym e'))
                ∙ omega arith)
        | inr theirs ↦
            let back' : (h.coinbase_recipient == recipient) ≡ false = ground arith in
            rw (same, back, theirs, back')
              (ap (λ s. count_of (counts s) recipient) (sym e) ∙ omega (arith, small))
      ]
]

count_headers-count :
    (headers : List MinorHeader) (counts : BlockCount) (shard recipient : ℕ)
    → count_of (counts shard) recipient < 2 ^ 32
    → count_of (count_headers headers counts shard) recipient
      ≡ (count_of (counts shard) recipient + occurrences shard recipient headers) % 2 ^ 32
unfolding count_headers
count_headers-count [] counts shard recipient small = omega (arith, small)
count_headers-count (h ∷ headers) counts shard recipient small =
    let first = count_header-count h counts shard recipient small in
    count_headers-count headers (count_header h counts) shard recipient (omega (arith, first))
    ∙ omega (arith, first)

count_header-seen :
    (h : MinorHeader) (counts : BlockCount) (shard : ℕ) (old : ℕ → ℕ)
    → counts shard ≡ some old
    → (new : ℕ → ℕ) × (count_header h counts shard ≡ some new)
unfolding count_header
count_header-seen h counts shard old e = elim (Bool-cases (shard == h.full_shard_id)) [
  | inl same ↦ (
    at h.coinbase_recipient ((count_of (counts h.full_shard_id) h.coinbase_recipient + 1) % 2 ^ 32)
        (count_of (counts h.full_shard_id)),
    rw same refl,
  )
  | inr other ↦ (old, rw other e)
]

count_headers-seen :
    (headers : List MinorHeader) (counts : BlockCount) (shard : ℕ) (old : ℕ → ℕ)
    → counts shard ≡ some old
    → (new : ℕ → ℕ) × (count_headers headers counts shard ≡ some new)
unfolding count_headers
count_headers-seen [] counts shard old e = (old, e)
count_headers-seen (h ∷ headers) counts shard old e =
    let (new, e') = count_header-seen h counts shard old e in
    count_headers-seen headers (count_header h counts) shard new e'

written_some :
    (new old : BlockCount) (shard : ℕ) (counts : ℕ → ℕ)
    → new shard ≡ some counts
    → write_counts new old shard ≡ some counts
unfolding write_counts
written_some new old shard counts e = rw (e, write_counts) refl

get_block_count_on :
    (config : ChainConfig) (bc : RootChain) (n shard : ℕ)
    → config.count_minor_blocks ≡ true
    → is_listed shard (config.initialized_before n) ≡ true
    → get_block_count config bc n shard ≡ bc.block_counts n shard
unfolding get_block_count
get_block_count_on config bc n shard on init = rw (on, init) refl

-- The counts that a block's height gets.
put_root_block_index-block_counts :
    (config : ChainConfig) (b : RootBlock) (bc : RootChain)
    → config.count_minor_blocks ≡ true
    → 0 < b.header.number
    → (put_root_block_index config b bc).block_counts b.header.number
      ≡ write_counts
          (count_headers b.minor_block_headers (
            get_block_count config
              (write_canonical_hash b.header.hash b.header.number bc)
              (b.header.number - 1)))
          (bc.block_counts b.header.number)
unfolding put_root_block_index put_counts write_canonical_hash
put_root_block_index-block_counts config b bc on high =
    ap (λ x. (if x then put_counts config b bc' else bc').block_counts b.header.number) on
    ∙ at_same b.header.number
        (write_counts (count_headers b.minor_block_headers (before_of (ltb 0 b.header.number)))
          (bc.block_counts b.header.number))
        bc.block_counts
    ∙ ap
        (λ x.
          write_counts (count_headers b.minor_block_headers (before_of x))
            (bc.block_counts b.header.number))
        (lt→ltb 0 b.header.number high)
  where
    bc' : RootChain
    bc' = write_canonical_hash b.header.hash b.header.number bc

    before_of : Bool → BlockCount
    before_of x = if x then get_block_count config bc' (b.header.number - 1) else (λ (s : ℕ). none)

-- Where counting is on, and the shard is initialized and has stored counts at the height below,
-- PutRootBlockIndex of a block above the genesis makes GetBlockCount at its height give, for every
-- miner, the count below and the block's headers of the shard and the miner, as a word of 32 bits.
pub put_root_block_index-get_block_count :
    (config : ChainConfig) (b : RootBlock) (bc : RootChain) (shard recipient : ℕ) (old : ℕ → ℕ)
    → config.count_minor_blocks ≡ true
    → 0 < b.header.number
    → is_listed shard (config.initialized_before (b.header.number - 1)) ≡ true
    → is_listed shard (config.initialized_before b.header.number) ≡ true
    → bc.block_counts (b.header.number - 1) shard ≡ some old
    → old recipient < 2 ^ 32
    → count_of
        (get_block_count config (put_root_block_index config b bc) b.header.number shard)
        recipient
      ≡ (old recipient + occurrences shard recipient b.minor_block_headers) % 2 ^ 32
unfolding count_of
put_root_block_index-get_block_count config b bc shard recipient old on high init init' e small =
    ap (λ o. count_of o recipient) stored
    ∙ ap (λ o. count_of o recipient) (sym seen)
    ∙ count_headers-count b.minor_block_headers before shard recipient
        (omega (arith, ap (λ o. count_of o recipient) at_shard, small))
    ∙ ap (λ o. (count_of o recipient + occurrences shard recipient b.minor_block_headers) % 2 ^ 32)
        at_shard
  where
    before : BlockCount
    before =
        get_block_count config (write_canonical_hash b.header.hash b.header.number bc)
          (b.header.number - 1)

    at_shard : before shard ≡ some old
    at_shard =
        get_block_count_on config (write_canonical_hash b.header.hash b.header.number bc)
          (b.header.number - 1) shard on init
        ∙ unfold write_canonical_hash in e

    new : ℕ → ℕ
    new = (count_headers-seen b.minor_block_headers before shard old at_shard).0

    seen : count_headers b.minor_block_headers before shard ≡ some new
    seen = (count_headers-seen b.minor_block_headers before shard old at_shard).1

    stored :
        get_block_count config (put_root_block_index config b bc) b.header.number shard ≡ some new
    stored =
        get_block_count_on config (put_root_block_index config b bc) b.header.number shard on init'
        ∙ ap (λ f. f shard) (put_root_block_index-block_counts config b bc on high)
        ∙ written_some (count_headers b.minor_block_headers before)
            (bc.block_counts b.header.number) shard new seen
