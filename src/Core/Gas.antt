-- ===== src/Core/Gas.antt =====
-- core/gaspool.go, and the intrinsic gas of core/state_transition.go.
use goquarkchain.Prelude.{
  ℕ, suc, ◌+◌, ◌-◌, ◌*◌, ◌/◌, ◌%◌, ◌^◌, Bool, ltb, ◌==◌, if◌then◌else◌, List, [], ◌∷◌, length,
  Result, ok, ◌>>=◌, ◌>>◌, fail_if,
}

-- `pool_overflow` is a panic.
pub data CoreError : Type 0 where
  gas_limit_reached pool_overflow out_of_gas insufficient_balance_for_gas : CoreError
  nonce_too_high nonce_too_low insufficient_balance : CoreError

-- The gas pool is a uint64.
unfoldable pub add_gas : ℕ → ℕ → Result CoreError ℕ
add_gas gp amount = do
  fail_if (ltb (2 ^ 64 - 1 - amount) gp) pool_overflow
  ok ((gp + amount) % 2 ^ 64)

unfoldable pub sub_gas : ℕ → ℕ → Result CoreError ℕ
sub_gas gp amount = do fail_if (ltb gp amount) gas_limit_reached; ok (gp - amount)

-- The prices of go-ethereum's params.
pub record GasPrices : Type 0 where
  pub tx_gas : ℕ
  pub tx_gas_contract_creation : ℕ
  pub tx_data_zero_gas : ℕ
  pub tx_data_non_zero_gas : ℕ

-- `GtxxShardCost`
abbrev pub gtxx_shard_cost : ℕ
gtxx_shard_cost = 9000

-- The loop that counts `nz`.
unfoldable pub non_zero_bytes : List ℕ → ℕ
non_zero_bytes [] = 0
non_zero_bytes (b ∷ bs) = if b == 0 then non_zero_bytes bs else suc (non_zero_bytes bs)

-- One of the two additions that are checked for overflow.
unfoldable pub add_price : ℕ → ℕ → ℕ → Result CoreError ℕ
add_price gas price n = do
  fail_if (ltb ((2 ^ 64 - 1 - gas) / price) n) out_of_gas
  ok ((gas + n * price % 2 ^ 64) % 2 ^ 64)

unfoldable pub data_gas : GasPrices → List ℕ → ℕ → Result CoreError ℕ
unfolding add_price non_zero_bytes
data_gas prices bytes gas = do
  gas' ← add_price gas prices.tx_data_non_zero_gas (non_zero_bytes bytes)
  add_price gas' prices.tx_data_zero_gas (length bytes - non_zero_bytes bytes)

unfoldable pub intrinsic_gas : GasPrices → List ℕ → Bool → Bool → Result CoreError ℕ
unfolding data_gas
intrinsic_gas prices bytes creation cross_shard = do
  let gas = if creation then prices.tx_gas_contract_creation else prices.tx_gas
  gas' ← if ltb 0 (length bytes) then data_gas prices bytes gas else ok gas
  ok (if cross_shard then (gas' + gtxx_shard_cost) % 2 ^ 64 else gas')
