-- ===== src/Chain/Coinbase.antt =====
-- core/rootblockchain.go: CalculateRootBlockCoinBase and getCoinbaseAmount; and powerBigInt of
-- core/minorblockchain_addon.go and BigIntMulBigRat of common/utils.go. Rates are pairs of numbers,
-- since a rate is never negative here; the second number of a big.Rat is never 0.
use goquarkchain.Prelude.{
  ℕ, zero, suc, ◌+◌, ◌-◌, ◌*◌, ◌/◌, ◌^◌, ◌≡◌, refl, sym, ap, ◌∙◌, Bool, false, Option, none, some,
  List, [], ◌∷◌, inl, inr, Bool-cases, ◌==◌, ==_iff, if◌then◌else◌, Result, ok, err, ◌>>=◌, arith,
}
use goquarkchain.Prelude.Int.{ℤ, pos, negsuc, ◌+ℤ◌, sub_ℕ, ltb_ℤ}
use goquarkchain.Core.RootValidator.{MinorHeader, RootBlock}
use goquarkchain.Chain.Store.{at}
use goquarkchain.Types.TokenBalances.{
  BalanceError, TokenBalances, new_empty_token_balances, add_balances, set_value, lookup_entry,
  put_entry,
}
use goquarkchain.Types.Entries.{
  value_or_zero, Amounts, HasDistinctTokens, lookup_entry-put_entry, lookup_entry_first,
  lookup_entry_apart, add_entries-Amounts,
}
use native.Mathlib.Nat.{pow-suc, pow-zero}

-- `division_by_zero` is the panic for epochs of no blocks.
pub data CoinbaseError : Type 0 where
  missing_minor_block division_by_zero : CoinbaseError
  panicked : BalanceError → CoinbaseError

pub record Rate : Type 0 where
  pub num : ℕ
  pub denom : ℕ

-- The configuration, and what the database says of minor blocks by hash.
pub record RewardEnv : Type 0 where
  pub epoch_interval : ℕ
  pub block_reward_decay_factor : Rate
  pub coinbase_amount : ℕ
  pub reward_calculate_rate : Rate
  pub default_chain_token_id : ℕ
  pub contains_minor : ℕ → Bool
  pub coinbase_tokens : ℕ → List (ℕ × ℤ)

-- `index` more factors.
unfoldable pub power_loop : ℕ → ℕ → ℕ → ℕ
power_loop factor zero t = t
power_loop factor (suc index) t = power_loop factor index (t * factor)

unfoldable pub power_big_int : ℕ → ℕ → ℕ
unfolding power_loop
power_big_int factor p = if p == 0 then 1 else power_loop factor (p - 1) factor

abbrev pub decayed : ℕ → Rate → ℕ → ℕ
decayed amount rate epoch = amount * power_big_int rate.num epoch / power_big_int rate.denom epoch

-- The amount, and the cache of amounts by epoch.
unfoldable pub get_coinbase_amount :
    RewardEnv → ℕ → (ℕ → Option ℕ) → Result CoinbaseError (ℕ × (ℕ → Option ℕ))
unfolding power_big_int
get_coinbase_amount env height cache =
    let epoch = height / env.epoch_interval in
    let amount = decayed env.coinbase_amount env.block_reward_decay_factor epoch in
    if env.epoch_interval == 0 then err division_by_zero else elim (cache epoch) [
      | some cached ↦ ok (cached, cache)
      | none ↦ ok (amount, at epoch (some amount) cache)
    ]

-- `big.Int.Div` by a positive number rounds down.
unfoldable pub big_int_mul_big_rat : ℤ → Rate → ℤ
big_int_mul_big_rat (pos n) rate = pos (n * rate.num / rate.denom)
big_int_mul_big_rat (negsuc n) rate = sub_ℕ 0 ((suc n * rate.num + (rate.denom - 1)) / rate.denom)

-- Balances that never had a trie.
abbrev pub Rewards : Type 0
Rewards = TokenBalances (Unit {0})

unfoldable pub check_known : (ℕ → Bool) → List MinorHeader → Result CoinbaseError (Unit {0})
check_known contains [] = ok tt
check_known contains (h ∷ headers) =
    let rest = check_known contains headers in
    if contains h.hash then rest else err missing_minor_block

unfoldable pub add_all : (ℕ → List (ℕ × ℤ)) → List MinorHeader → Rewards → Rewards
unfolding add_balances
add_all tokens [] rewards = rewards
add_all tokens (h ∷ headers) rewards = add_all tokens headers (add_balances (tokens h.hash) rewards)

abbrev pub or_panic : Result BalanceError Rewards → Result CoinbaseError Rewards
or_panic (ok rewards) = ok rewards
or_panic (err why) = err (panicked why)

-- The loop over a copy of the rewards.
unfoldable pub scale_all : Rate → List (ℕ × ℤ) → Rewards → Result CoinbaseError Rewards
unfolding big_int_mul_big_rat set_value
scale_all rate [] rewards = ok rewards
scale_all rate ((token, value) ∷ entries) rewards =
    or_panic (set_value (big_int_mul_big_rat value rate) token rewards)
    >>= (λ r. scale_all rate entries r)

unfoldable pub calculate_root_block_coinbase :
    RewardEnv → RootBlock → (ℕ → Option ℕ) → Result CoinbaseError (Rewards × (ℕ → Option ℕ))
unfolding check_known add_all scale_all get_coinbase_amount new_empty_token_balances lookup_entry
calculate_root_block_coinbase env block cache =
    let gathered = add_all env.coinbase_tokens block.minor_block_headers new_empty_token_balances in
    let genesis_token = env.default_chain_token_id in
    check_known env.contains_minor block.minor_block_headers >>= (λ done.
      scale_all env.reward_calculate_rate gathered.balances gathered >>= (λ scaled.
        get_coinbase_amount env block.header.number cache >>= (λ (amount, cache').
          or_panic (
            set_value (value_or_zero (lookup_entry genesis_token scaled.balances) +ℤ pos amount)
              genesis_token scaled)
          >>= (λ rewards. ok (rewards, cache')))))

power_loop-eq : (factor n t : ℕ) → power_loop factor n t ≡ t * factor ^ n
unfolding power_loop
power_loop-eq factor zero t = omega (arith, ap (λ (x : ℕ). t * x) (pow-zero factor))
power_loop-eq factor (suc n) t =
    power_loop-eq factor n (t * factor) ∙ grind (arith, pow-suc factor n)

suc-ne-zero : (n : ℕ) → (suc n == 0) ≡ false
suc-ne-zero n = ground arith

-- The product of p factors.
pub power_big_int-eq : (factor p : ℕ) → power_big_int factor p ≡ factor ^ p
unfolding power_big_int
power_big_int-eq factor zero = sym (pow-zero factor)
power_big_int-eq factor (suc p) =
    rw (suc-ne-zero p) refl
    ∙ ap (λ k. power_loop factor k factor) {x = suc p - 1} {y = p} (omega arith)
    ∙ power_loop-eq factor p factor
    ∙ grind (arith, pow-suc factor p)

-- The amounts of a token in the maps of the headers, taken together.
abbrev pub total : (ℕ → ℕ → ℕ) → List MinorHeader → ℕ → ℕ
total tables [] id = 0
total tables (h ∷ headers) id = tables h.hash id + total tables headers id

pub add_all-Amounts :
    (tokens : ℕ → List (ℕ × ℤ)) (tables : ℕ → ℕ → ℕ) (headers : List MinorHeader) (r : Rewards)
    (f : ℕ → ℕ)
    → ((h : ℕ) → HasDistinctTokens (tokens h))
    → ((h : ℕ) → Amounts (tokens h) (tables h))
    → Amounts r.balances f
    → Amounts (add_all tokens headers r).balances (λ id. f id + total tables headers id)
unfolding add_all add_balances
add_all-Amounts tokens tables [] r f d ht hf id =
    hf id ∙ ap pos {x = f id} {y = f id + 0} (omega arith)
add_all-Amounts tokens tables (h ∷ headers) r f d ht hf id =
    add_all-Amounts tokens tables headers (add_balances (tokens h.hash) r)
      (λ j. f j + tables h.hash j) d ht
      (add_entries-Amounts (tokens h.hash) r.balances f (tables h.hash) (d h.hash) (ht h.hash) hf)
      id
    ∙ ap pos {x = f id + tables h.hash id + total tables headers id}
        {y = f id + (tables h.hash id + total tables headers id)} (omega arith)

pub set_value-ok :
    (n token : ℕ) (r : Rewards)
    → set_value (pos n) token r ≡ ok (record r { balances = put_entry token (pos n) r.balances })
unfolding set_value
set_value-ok n token r = rw (not_negative n) refl
  where
    not_negative : (m : ℕ) → ltb_ℤ (pos m) (pos 0) ≡ false
    not_negative m = ground arith

-- The tokens of a list that have the amounts of a table are scaled; the others stay.
pub record IsScaled (rate : Rate) (f : ℕ → ℕ) (entries : List (ℕ × ℤ)) (r r' : Rewards)
    : Type 0 where
  pub listed :
      (id : ℕ) (v : ℤ)
      → lookup_entry id entries ≡ some v
      → lookup_entry id r'.balances ≡ some (pos (f id * rate.num / rate.denom))
  pub others :
      (id : ℕ)
      → lookup_entry id entries ≡ none
      → lookup_entry id r'.balances ≡ lookup_entry id r.balances

pub scale_all-IsScaled :
    (rate : Rate) (f : ℕ → ℕ) (entries : List (ℕ × ℤ)) (r : Rewards)
    → HasDistinctTokens entries
    → ((id : ℕ) (v : ℤ) → lookup_entry id entries ≡ some v → v ≡ pos (f id))
    → (r' : Rewards) × (scale_all rate entries r ≡ ok r') × IsScaled rate f entries r r'
unfolding scale_all big_int_mul_big_rat
scale_all-IsScaled rate f [] r d h =
    (r, refl, record { listed = λ id v e. unfold lookup_entry in cc; others = λ id e. refl })
scale_all-IsScaled rate f ((k, v) ∷ entries) r (fresh, d) h =
    let r₁ : Rewards = record r { balances = put_entry k (pos scaled) r.balances } in
    let (r', e, s) = scale_all-IsScaled rate f entries r₁ d (λ id u e. elim (Bool-cases (id == k)) [
      | inl same ↦ cc (fresh, e, (==_iff id k).0 same)
      | inr apart ↦ h id u (lookup_entry_apart id k v entries apart ∙ e)
    ]) in
    (
      r',
      rw (h k v (lookup_entry_first k v entries)) (rw (set_value-ok scaled k r) e),
      record {
        listed = λ id u found. elim (Bool-cases (id == k)) [
          | inl same ↦
              let one : id ≡ k = (==_iff id k).0 same in
              ap (λ x. lookup_entry x r'.balances) one
              ∙ s.others k fresh
              ∙ lookup_entry-put_entry k k (pos scaled) r.balances
              ∙ ap (λ b. if b then some (pos scaled) else lookup_entry k r.balances)
                  ((==_iff k k).1 refl)
              ∙ ap (λ x. some (pos (f x * rate.num / rate.denom))) (sym one)
          | inr apart ↦ s.listed id u (sym (lookup_entry_apart id k v entries apart) ∙ found)
        ];
        others = λ id missing. elim (Bool-cases (id == k)) [
          | inl same ↦ cc (missing, (==_iff id k).0 same, lookup_entry_first k v entries)
          | inr apart ↦
              s.others id (sym (lookup_entry_apart id k v entries apart) ∙ missing)
              ∙ lookup_entry-put_entry id k (pos scaled) r.balances
              ∙ ap (λ b. if b then some (pos scaled) else lookup_entry id r.balances) apart
        ];
      },
    )
  where
    scaled : ℕ
    scaled = f k * rate.num / rate.denom
