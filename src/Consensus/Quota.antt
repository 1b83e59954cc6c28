-- ===== src/Consensus/Quota.antt =====
-- consensus/posw/posw.go: what a stake is good for.
use goquarkchain.Prelude.{
  ℕ, ◌-◌, ◌*◌, ◌/◌, ◌%◌, ◌^◌, ◌≤◌, ◌<◌, ◌≡◌, ap, Option, some, List, [], ◌∷◌, length,
  length-reverse, ok, arith,
}
use native.Mathlib.Nat.{le-div_iff_mul-le, mod-eq_of_lt}
use goquarkchain.Consensus.Boost.{PoswConfig, get_diff_divider}
use goquarkchain.Consensus.Posw.{Block, count_coinbase, block_threshold, posw_diff_adjust}
use goquarkchain.Consensus.Window.{recent, recent-ok, walk-length}

count_coinbase-le : (c : ℕ) (cbs : List ℕ) → count_coinbase c cbs ≤ length cbs
unfolding count_coinbase
count_coinbase-le c [] = omega arith
count_coinbase-le c (cb ∷ cbs) = ground (arith, count_coinbase-le c cbs)

-- With a window and a price that are not 0, a stake below 2^64 that pays for every block of the
-- window always divides the difficulty, however many of
-- the blocks before this one the recipient mined.
pub posw_diff_adjust-full_stake :
    (get_block : ℕ → Option Block) (config : PoswConfig)
    (parent diff time stakes stake_per_block coinbase : ℕ) (window : List ℕ)
    → 1 ≤ config.window_size
    → 1 ≤ stake_per_block
    → config.window_size * stake_per_block ≤ stakes
    → stakes < 2 ^ 64
    → recent get_block config parent ≡ ok window
    → posw_diff_adjust config diff time (some stakes) stake_per_block window coinbase
      ≡ diff / get_diff_divider config time
unfolding posw_diff_adjust block_threshold
posw_diff_adjust-full_stake get_block config parent diff time stakes per coinbase window size
      some_stake paid small e =
    let (b, w, found, walked, same) = recent-ok get_block config parent window e in
    let short : length window ≤ config.window_size - 1 = omega (
      arith,
      ap length same,
      length-reverse w,
      walk-length get_block (config.window_size - 1) b w walked,
    ) in
    let enough : config.window_size ≤ stakes / per = (le-div_iff_mul-le some_stake).1 paid in
    let fits : stakes / per % 2 ^ 64 ≡ stakes / per = mod-eq_of_lt (omega (arith, small)) in
    rw fits (ground (arith, short, enough, size, count_coinbase-le coinbase window))
