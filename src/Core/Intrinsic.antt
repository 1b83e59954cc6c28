-- ===== src/Core/Intrinsic.antt =====
-- core/state_transition.go: the intrinsic gas is the sum of its prices, or refused.
use goquarkchain.Prelude.{
  ℕ, suc, ◌+◌, ◌-◌, ◌*◌, ◌/◌, ◌%◌, ◌^◌, ◌≤◌, ◌<◌, ◌≡◌, refl, ap, ◌∙◌, ◌==◌, Bool, true, false, ltb,
  leb, ltb→lt, ltb→le, leb→le, if◌then◌else◌, List, [], ◌∷◌, length, Result, ok, err, ◌>>=◌, arith,
  Bool-cases, inl, inr,
}
use native.Mathlib.Nat.{le-div_iff_mul-le, div-lt_iff_lt-mul}
use goquarkchain.Core.Gas.{
  CoreError, out_of_gas, GasPrices, gtxx_shard_cost, non_zero_bytes, add_price, data_gas,
  intrinsic_gas,
}

-- The sum, refused when it does not fit 64 bits.
abbrev checked : ℕ → Result CoreError ℕ
checked total = if leb total (2 ^ 64 - 1) then ok total else err out_of_gas

add_price-eq :
    (gas price n : ℕ) → 1 ≤ price → gas < 2 ^ 64 → add_price gas price n ≡ checked (gas + n * price)
unfolding add_price
add_price-eq gas price n p h = elim (Bool-cases (ltb ((2 ^ 64 - 1 - gas) / price) n)) [
  | inl over ↦
      let big : 2 ^ 64 - 1 - gas < n * price = (div-lt_iff_lt-mul p).0 (ltb→lt _ _ over) in
      rw (over, refused (gas + n * price) (omega (arith, big))) refl
  | inr fits ↦
      let small : n * price ≤ 2 ^ 64 - 1 - gas = small_of (not_over fits) in
      rw (fits, accepted (gas + n * price) (omega (arith, small, h)))
        (ap ok (sums gas (n * price) (omega (arith, small, h))))
]
  where
    not_over : ltb ((2 ^ 64 - 1 - gas) / price) n ≡ false → n ≤ (2 ^ 64 - 1 - gas) / price
    not_over q = ltb→le _ _ q

    small_of : n ≤ (2 ^ 64 - 1 - gas) / price → n * price ≤ 2 ^ 64 - 1 - gas
    small_of q = (le-div_iff_mul-le p).0 q

    refused : (t : ℕ) → 2 ^ 64 - 1 < t → leb t (2 ^ 64 - 1) ≡ false
    refused t q = ground arith

    accepted : (t : ℕ) → t < 2 ^ 64 → leb t (2 ^ 64 - 1) ≡ true
    accepted t q = ground arith

    sums : (a b : ℕ) → a + b < 2 ^ 64 → (a + b % 2 ^ 64) % 2 ^ 64 ≡ a + b
    sums a b q = omega arith

non_zero_bytes-le : (bs : List ℕ) → non_zero_bytes bs ≤ length bs
unfolding non_zero_bytes
non_zero_bytes-le [] = omega arith
non_zero_bytes-le (b ∷ bs) = ground (arith, non_zero_bytes-le bs)

-- The price of a byte of the data.
abbrev pub byte_price : GasPrices → ℕ → ℕ
byte_price prices b = if b == 0 then prices.tx_data_zero_gas else prices.tx_data_non_zero_gas

-- The prices of the bytes, one by one.
unfoldable pub bytes_price : GasPrices → List ℕ → ℕ
bytes_price prices [] = 0
bytes_price prices (b ∷ bytes) = byte_price prices b + bytes_price prices bytes

-- The price of a message without the cost of crossing shards: its base and its bytes.
abbrev pub plain_gas : GasPrices → List ℕ → Bool → ℕ
plain_gas prices bytes creation =
    (if creation then prices.tx_gas_contract_creation else prices.tx_gas) + bytes_price prices bytes

-- The same price from the number of bytes that are not 0.
abbrev counted_gas : GasPrices → List ℕ → ℕ → ℕ
counted_gas prices bytes base =
    base
    + non_zero_bytes bytes * prices.tx_data_non_zero_gas
    + (length bytes - non_zero_bytes bytes) * prices.tx_data_zero_gas

one_more : (k x : ℕ) → suc k * x ≡ x + k * x
one_more k x = grind arith

counted_gas-eq :
    (prices : GasPrices) (bytes : List ℕ) (base : ℕ)
    → counted_gas prices bytes base ≡ base + bytes_price prices bytes
unfolding non_zero_bytes bytes_price
counted_gas-eq prices [] base = grind arith
counted_gas-eq prices (b ∷ bytes) base =
    let n = non_zero_bytes bytes in
    let rec = counted_gas-eq prices bytes base in
    let more : suc (length bytes) - n ≡ suc (length bytes - n) =
      omega (arith, non_zero_bytes-le bytes) in
    elim (Bool-cases (b == 0)) [
      | inl is_zero ↦ rw is_zero (
          grind (
            arith,
            rec,
            one_more (length bytes - n) prices.tx_data_zero_gas,
            ap (λ (k : ℕ). k * prices.tx_data_zero_gas) more,
          ))
      | inr other ↦ rw other (grind (arith, rec, one_more n prices.tx_data_non_zero_gas))
    ]

-- Prices are words, and bytes are not free.
pub record ArePrices (prices : GasPrices) : Type 0 where
  pub base_fits : prices.tx_gas < 2 ^ 64
  pub creation_fits : prices.tx_gas_contract_creation < 2 ^ 64
  pub some_zero_gas : 1 ≤ prices.tx_data_zero_gas
  pub some_non_zero_gas : 1 ≤ prices.tx_data_non_zero_gas

data_gas-eq :
    (prices : GasPrices) (bytes : List ℕ) (gas : ℕ)
    → ArePrices prices
    → gas < 2 ^ 64
    → data_gas prices bytes gas
      ≡ checked (
          gas
          + non_zero_bytes bytes * prices.tx_data_non_zero_gas
          + (length bytes - non_zero_bytes bytes) * prices.tx_data_zero_gas)
unfolding data_gas
data_gas-eq prices bytes gas h small =
    rw
      (add_price-eq gas prices.tx_data_non_zero_gas (non_zero_bytes bytes) h.some_non_zero_gas
        small)
      (twice (gas + non_zero_bytes bytes * prices.tx_data_non_zero_gas))
  where
    n : ℕ
    n = length bytes - non_zero_bytes bytes

    more : (x a : ℕ) → leb a (2 ^ 64 - 1) ≡ false → leb (a + x) (2 ^ 64 - 1) ≡ false
    more x a q = ground arith

    twice :
        (a : ℕ)
        → checked a >>= (λ g. add_price g prices.tx_data_zero_gas n)
          ≡ checked (a + n * prices.tx_data_zero_gas)
    twice a = elim (Bool-cases (leb a (2 ^ 64 - 1))) [
      | inl fits ↦ rw fits (
          add_price-eq a prices.tx_data_zero_gas n h.some_zero_gas
            (omega (arith, leb→le a (2 ^ 64 - 1) fits)))
      | inr over ↦ rw (over, more (n * prices.tx_data_zero_gas) a over) refl
    ]

bind-checked :
    (t : ℕ) (f : ℕ → ℕ)
    → checked t >>= (λ g. ok (f g)) ≡ (if leb t (2 ^ 64 - 1) then ok (f t) else err out_of_gas)
bind-checked t f = elim (Bool-cases (leb t (2 ^ 64 - 1))) [
  | inl fits ↦ rw fits refl
  | inr over ↦ rw over refl
]

unpriced :
    (prices : GasPrices) (bytes : List ℕ) (gas : ℕ)
    → gas < 2 ^ 64
    → length bytes ≤ 0
    → ok gas
      ≡ checked (
          gas
          + non_zero_bytes bytes * prices.tx_data_non_zero_gas
          + (length bytes - non_zero_bytes bytes) * prices.tx_data_zero_gas)
unfolding non_zero_bytes
unpriced prices [] gas small none_left =
    rw
      (added gas (0 * prices.tx_data_non_zero_gas) (0 * prices.tx_data_zero_gas) (omega arith)
        (omega arith))
      (ground (arith, small))
  where
    added : (a x y : ℕ) → x ≡ 0 → y ≡ 0 → a + x + y ≡ a
    added a x y p q = omega arith
unpriced prices (b ∷ bytes) gas small none_left = absurd (omega arith)

-- With base prices that are words and prices of bytes that are not 0, `IntrinsicGas` is the base
-- price of the message and the price of each byte of its data, 0 or not, with the cost of crossing shards added to the word,
-- and runs out of gas exactly when the price without that cost does not fit 64 bits.
pub intrinsic_gas-eq :
    (prices : GasPrices) (bytes : List ℕ) (creation cross_shard : Bool)
    → ArePrices prices
    → intrinsic_gas prices bytes creation cross_shard ≡ (
        if leb (plain_gas prices bytes creation) (2 ^ 64 - 1)
        then ok (
            if cross_shard
            then (plain_gas prices bytes creation + gtxx_shard_cost) % 2 ^ 64
            else plain_gas prices bytes creation)
        else err out_of_gas)
unfolding intrinsic_gas
intrinsic_gas-eq prices bytes creation cross_shard h =
    (rw
      (elim (Bool-cases (ltb 0 (length bytes)))
        as (λ _.
          (if ltb 0 (length bytes) then data_gas prices bytes base else ok base)
          ≡ checked (counted_gas prices bytes base)) [
            | inl some_bytes ↦ rw some_bytes (data_gas-eq prices bytes base h base_small)
            | inr no_bytes ↦
                rw no_bytes (unpriced prices bytes base base_small (ltb→le _ _ no_bytes))
          ])
      (bind-checked (counted_gas prices bytes base)
        (λ g. if cross_shard then (g + gtxx_shard_cost) % 2 ^ 64 else g)))
    ∙ ap
        (λ t.
          if leb t (2 ^ 64 - 1)
          then ok (if cross_shard then (t + gtxx_shard_cost) % 2 ^ 64 else t)
          else err out_of_gas)
        (counted_gas-eq prices bytes base)
  where
    base : ℕ
    base = if creation then prices.tx_gas_contract_creation else prices.tx_gas

    base_small : base < 2 ^ 64
    base_small = ground (arith, h.base_fits, h.creation_fits)
