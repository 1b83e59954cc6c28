-- ===== src/Consensus/Boost.antt =====
-- cluster/config/config.go: the divider of the difficulty, boosted step by step over time.
use goquarkchain.Prelude.{
  ℕ, zero, suc, ◌+◌, ◌-◌, ◌*◌, ◌/◌, ◌%◌, ◌^◌, ◌≤◌, ◌<◌, ◌≡◌, sym, ap, ◌∙◌, Bool, false, ltb, leb,
  if◌then◌else◌, arith,
}
use native.Mathlib.Nat.{
  pow-suc, pow-zero, mod-eq_of_lt, pow-le-pow_right, one-le-pow, le-mul_of_pos_right,
  mul-le-mul_left, mul-le-mul_right, div-le_self, le-div_iff_mul-le, div-mul-le_self,
}

-- `POSWConfig`
pub record PoswConfig : Type 0 where
  pub enabled : Bool
  pub enable_timestamp : ℕ
  pub diff_divider : ℕ
  pub window_size : ℕ
  pub total_stake_per_block : ℕ
  pub boost_timestamp : ℕ
  pub boost_multiplier_per_step : ℕ
  pub boost_steps : ℕ
  pub boost_step_interval : ℕ

abbrev quarkash_to_jiaozi : ℕ
quarkash_to_jiaozi = 1000000000000000000

abbrev pub new_posw_config : PoswConfig
new_posw_config = record {
  enabled = false;
  enable_timestamp = 0;
  diff_divider = 20;
  window_size = 256;
  total_stake_per_block = 1000000000 * quarkash_to_jiaozi;
  boost_timestamp = 0;
  boost_multiplier_per_step = 2;
  boost_steps = 10;
  boost_step_interval = 43200;
}

abbrev pub new_root_posw_config : PoswConfig
new_root_posw_config = record {
  enabled = false;
  enable_timestamp = 0;
  diff_divider = 1000;
  window_size = 4320;
  total_stake_per_block = 240000 * quarkash_to_jiaozi;
  boost_timestamp = 0;
  boost_multiplier_per_step = 2;
  boost_steps = 10;
  boost_step_interval = 86400 * 2;
}

-- The loop of `pow`, on uint64: `r` so far, `n` rounds to go.
unfoldable pub pow_loop : ℕ → ℕ → ℕ → ℕ
pow_loop value zero r = r
pow_loop value (suc n) r = pow_loop value n (r * value % 2 ^ 64)

unfoldable pub pow : ℕ → ℕ → ℕ
unfolding pow_loop
pow value n = pow_loop value n 1

-- The number of steps of a boosted block.
unfoldable pub boost_count : PoswConfig → ℕ → ℕ
boost_count c blocktime =
    let steps = ((blocktime - c.boost_timestamp) / c.boost_step_interval + 1) % 2 ^ 64 in
    if ltb c.boost_steps steps then c.boost_steps else steps

unfoldable pub get_diff_divider : PoswConfig → ℕ → ℕ
unfolding pow boost_count
get_diff_divider c blocktime =
    if ltb 0 c.boost_timestamp
    then if leb c.boost_timestamp blocktime
      then c.diff_divider * pow c.boost_multiplier_per_step (boost_count c blocktime) % 2 ^ 64
      else c.diff_divider
    else c.diff_divider

-- The multiplier is not 0, time passes in steps, and the largest divider fits 64 bits.
pub record IsSane (c : PoswConfig) : Type 0 where
  pub some_multiplier : 1 ≤ c.boost_multiplier_per_step
  pub some_interval : 1 ≤ c.boost_step_interval
  pub some_divider : 1 ≤ c.diff_divider
  pub largest_fits : c.diff_divider * c.boost_multiplier_per_step ^ c.boost_steps < 2 ^ 64

-- The loop does not wrap when its result fits.
pow_loop-eq : (v n r : ℕ) → 1 ≤ v → r * v ^ n < 2 ^ 64 → pow_loop v n r ≡ r * v ^ n
unfolding pow_loop
pow_loop-eq v zero r h p = omega (arith, pow-zero v, ap (λ (t : ℕ). r * t) (pow-zero v))
pow_loop-eq v (suc n) r h p =
    ap (λ t. pow_loop v n t) (mod-eq_of_lt small)
    ∙ pow_loop-eq v n (r * v) h (omega (arith, p, split))
    ∙ sym split
  where
    split : r * v ^ suc n ≡ r * v * v ^ n
    split = ap (λ (t : ℕ). r * t) (pow-suc v n) ∙ grind arith

    small : r * v < 2 ^ 64
    small = grind (arith, p, split, one-le-pow n v h)

boost_count-le : (c : PoswConfig) (t : ℕ) → boost_count c t ≤ c.boost_steps
unfolding boost_count
boost_count-le c t = ground arith

-- The quotient of a later time is not smaller.
steps_mono : (b i t t' : ℕ) → 1 ≤ i → t ≤ t' → (t - b) / i + 1 ≤ (t' - b) / i + 1
steps_mono b i t t' h p = omega (
  arith,
  (le-div_iff_mul-le {k = i} {x = (t - b) / i} {y = t' - b} h).1
      (omega (arith, div-mul-le_self (t - b) i)),
)

boost_count_mono :
    (c : PoswConfig) (t t' : ℕ)
    → 1 ≤ c.boost_step_interval
    → 1 ≤ c.boost_timestamp
    → t ≤ t'
    → t' < 2 ^ 64
    → boost_count c t ≤ boost_count c t'
unfolding boost_count
boost_count_mono c t t' h b p q = ground (
  arith,
  steps_mono c.boost_timestamp c.boost_step_interval t t' h p,
  div-le_self (t - c.boost_timestamp) c.boost_step_interval,
  div-le_self (t' - c.boost_timestamp) c.boost_step_interval,
)

-- What the divider of a boosted block is.
boosted :
    (c : PoswConfig) (t : ℕ)
    → IsSane c
    → c.diff_divider * pow c.boost_multiplier_per_step (boost_count c t) % 2 ^ 64
      ≡ c.diff_divider * c.boost_multiplier_per_step ^ boost_count c t
unfolding pow
boosted c t h =
    ap (λ s. c.diff_divider * s % 2 ^ 64)
      (pow_loop-eq m n 1 h.some_multiplier (grind (arith, fits, le_product)) ∙ one_mul)
    ∙ mod-eq_of_lt fits
  where
    m : ℕ
    m = c.boost_multiplier_per_step

    n : ℕ
    n = boost_count c t

    grows : c.diff_divider * m ^ n ≤ c.diff_divider * m ^ c.boost_steps
    grows = mul-le-mul_left c.diff_divider (pow-le-pow_right h.some_multiplier (boost_count-le c t))

    fits : c.diff_divider * m ^ n < 2 ^ 64
    fits = omega (arith, grows, h.largest_fits)

    le_product : 1 * m ^ n ≤ c.diff_divider * m ^ n
    le_product = mul-le-mul_right (m ^ n) h.some_divider

    one_mul : 1 * m ^ n ≡ m ^ n
    one_mul = omega arith

-- If the multiplier, the interval and the divider are not 0, the largest divider fits 64 bits, and
-- times are words, then as time passes the divider does not shrink, and it stays between the plain divider and the
-- divider boosted by all the steps.
pub get_diff_divider_mono :
    (c : PoswConfig) (t t' : ℕ)
    → IsSane c
    → t ≤ t'
    → t' < 2 ^ 64
    → (c.diff_divider ≤ get_diff_divider c t)
      × (get_diff_divider c t ≤ get_diff_divider c t')
      × (get_diff_divider c t' ≤ c.diff_divider * c.boost_multiplier_per_step ^ c.boost_steps)
unfolding get_diff_divider
get_diff_divider_mono c t t' h p q =
    rw (boosted c t h, boosted c t' h) (grind (arith, p, at_least t, at_least t', grows, at_most))
  where
    m : ℕ
    m = c.boost_multiplier_per_step

    at_least : (s : ℕ) → c.diff_divider ≤ c.diff_divider * m ^ boost_count c s
    at_least s =
        le-mul_of_pos_right c.diff_divider (one-le-pow (boost_count c s) m h.some_multiplier)

    grows :
        1 ≤ c.boost_timestamp
        → c.diff_divider * m ^ boost_count c t ≤ c.diff_divider * m ^ boost_count c t'
    grows b =
        mul-le-mul_left c.diff_divider
          (pow-le-pow_right h.some_multiplier (boost_count_mono c t t' h.some_interval b p q))

    at_most : c.diff_divider * m ^ boost_count c t' ≤ c.diff_divider * m ^ c.boost_steps
    at_most =
        mul-le-mul_left c.diff_divider (pow-le-pow_right h.some_multiplier (boost_count-le c t'))
