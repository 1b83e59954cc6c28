-- ===== src/Consensus/Difficulty.antt =====
-- consensus/difficulty.go: the difficulty after a parent block, by the time between them.
use goquarkchain.Prelude.{ℕ, ◌-◌, ◌/◌, ltb, if◌then◌else◌, Option, none, some}
use goquarkchain.Prelude.Int.{ℤ, pos, negsuc, ◌+ℤ◌, ◌-ℤ◌, ◌*ℤ◌, ltb_ℤ}

pub record EthDifficultyCalculator : Type 0 where
  pub adjustment_cutoff : ℕ
  pub adjustment_factor : ℕ
  pub minimum_difficulty : ℕ

-- `none` is ErrPreTime. The parent's difficulty is not negative.
unfoldable pub calculate_difficulty : EthDifficultyCalculator → ℕ → ℕ → ℕ → Option ℤ
calculate_difficulty c parent_time parent_difficulty time =
    let sign = pos 1 -ℤ pos ((time - parent_time) / c.adjustment_cutoff) in
    let capped = if ltb_ℤ sign (negsuc 98) then negsuc 98 else sign in
    let offset = pos (parent_difficulty / c.adjustment_factor) in
    let diff = pos parent_difficulty +ℤ (offset *ℤ capped) in
    if ltb time parent_time
    then none
    else some (if ltb_ℤ diff (pos c.minimum_difficulty) then pos c.minimum_difficulty else diff)
