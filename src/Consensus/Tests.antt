-- ===== src/Consensus/Tests.antt =====
-- Runs of the proof of staked work: a chain of two blocks, a window of three, and a cache of one
-- entry.
use goquarkchain.Prelude.{
  ℕ, zero, suc, ◌*◌, ◌^◌, ◌≤◌, ◌≡◌, inl, inr, refl, true, Option, none, some, ◌==◌, ==_iff,
  if◌then◌else◌, [], ◌∷◌, sym, ap, ◌∙◌, subst, ok, ◌>>=◌, arith, Bool-cases,
}
use goquarkchain.Consensus.Boost.{PoswConfig, IsSane, get_diff_divider, get_diff_divider_mono}
use goquarkchain.Consensus.Posw.{
  Block, HeightAndAddrs, CacheOps, walk, slide, window_of, get_coinbase_address_until_block,
}
use goquarkchain.Consensus.Window.{
  recent, Coherent, Remembers, get_coinbase_address_until_block-recent,
  get_coinbase_address_until_block-Coherent,
}

abbrev config : PoswConfig
config = record {
  enabled = true;
  enable_timestamp = 0;
  diff_divider = 20;
  window_size = 3;
  total_stake_per_block = 10;
  boost_timestamp = 100;
  boost_multiplier_per_step = 2;
  boost_steps = 10;
  boost_step_interval = 50;
}

config-IsSane : IsSane config
config-IsSane = record {
  some_multiplier = omega arith;
  some_interval = omega arith;
  some_divider = omega arith;
  largest_fits = omega arith;
}

get_diff_divider_mono_example :
    (20 ≤ get_diff_divider config 120)
    × (get_diff_divider config 120 ≤ get_diff_divider config 260)
    × (get_diff_divider config 260 ≤ 20 * 2 ^ 10)
get_diff_divider_mono_example =
    get_diff_divider_mono config 120 260 config-IsSane (omega arith) (omega arith)

-- Hash 1 is the genesis block, hash 2 its child.
abbrev genesis : Block
genesis = record { number = 0; parent_hash = 0; coinbase = 7 }

abbrev child : Block
child = record { number = 1; parent_hash = 1; coinbase = 8 }

abbrev two_blocks : ℕ → Option Block
two_blocks zero = none
two_blocks (suc zero) = some genesis
two_blocks (suc (suc zero)) = some child
two_blocks (suc (suc (suc n))) = none

block_of : (a b : Block) → ◌≡◌ {A = Option Block} (some a) (some b) → a ≡ b
block_of a b e = cc

two_blocks-Rooted :
    (k : ℕ) (b : Block) → two_blocks k ≡ some b → b.number ≡ 0 → two_blocks b.parent_hash ≡ none
two_blocks-Rooted zero b e z = cc
two_blocks-Rooted (suc zero) b e z =
    subst (λ (x : Block). two_blocks x.parent_hash ≡ none) (block_of genesis b e) refl
two_blocks-Rooted (suc (suc zero)) b e z =
    absurd (omega (arith, ap (λ (x : Block). x.number) (block_of child b e), z))
two_blocks-Rooted (suc (suc (suc n))) b e z = cc

-- One entry, the last one added.
abbrev one_entry : CacheOps
one_entry = record {
  Cache = Option (ℕ × HeightAndAddrs);
  get = λ c k. elim c [ none ↦ none | some e ↦ if e.0 == k then some e.1 else none ];
  add = λ k e c. some (k, e);
}

entry_of :
    (k k' : ℕ) (e e' : HeightAndAddrs)
    → (if k == k' then some e else none) ≡ some e'
    → (k' ≡ k) × (e' ≡ e)
entry_of k k' e e' h = elim (Bool-cases (k == k')) [
  | inl same ↦ (sym ((==_iff k k').0 same), cc (rw same at h))
  | inr other ↦ cc (rw other at h)
]

one_entry-Remembers : Remembers two_blocks one_entry
one_entry-Remembers c k k' e e' h = inl (entry_of k k' e e' h)

abbrev genesis_window : HeightAndAddrs
genesis_window = record { height = 0; addrs = 7 ∷ [] }

abbrev warm : one_entry.Cache
warm = some (1, genesis_window)

genesis_recent : recent two_blocks config 1 ≡ ok (7 ∷ [])
unfolding walk
genesis_recent = refl

warm-Coherent : Coherent two_blocks one_entry config warm
warm-Coherent k e h =
    let (same_key, same_entry) = entry_of 1 k genesis_window e h in
    ap (recent two_blocks config) same_key
    ∙ genesis_recent
    ∙ ap (λ (x : HeightAndAddrs). ok x.addrs) (sym same_entry)

get_coinbase_address_until_block-recent_example :
    get_coinbase_address_until_block two_blocks one_entry config 2 warm >>= (λ (addrs, _). ok addrs)
    ≡ recent two_blocks config 2
get_coinbase_address_until_block-recent_example =
    get_coinbase_address_until_block-recent two_blocks one_entry config 2 warm (omega arith)
      two_blocks-Rooted warm-Coherent

abbrev next_cache : one_entry.Cache
next_cache = some (2, record { height = 1; addrs = 7 ∷ 8 ∷ [] })

hit_run :
    get_coinbase_address_until_block two_blocks one_entry config 2 warm
    ≡ ok ((7 ∷ 8 ∷ []), next_cache)
unfolding get_coinbase_address_until_block window_of slide
hit_run = refl

get_coinbase_address_until_block-Coherent_example : Coherent two_blocks one_entry config next_cache
get_coinbase_address_until_block-Coherent_example =
    get_coinbase_address_until_block-Coherent two_blocks one_entry config 2 warm next_cache
      (7 ∷ 8 ∷ []) (omega arith) two_blocks-Rooted one_entry-Remembers warm-Coherent hit_run

child_recent : recent two_blocks config 2 ≡ ok (7 ∷ 8 ∷ [])
unfolding walk
child_recent = refl
