-- ===== src/Chain/Rewards.antt =====
-- core/rootblockchain.go: the amounts that CalculateRootBlockCoinBase gives.
use goquarkchain.Prelude.{
  ℕ, ◌+◌, ◌*◌, ◌/◌, ◌^◌, ◌≤◌, ◌≡◌, refl, sym, ap, ap₂, ◌∙◌, Bool, true, false, Option, some, List,
  [], ◌∷◌, All, inl, inr, Bool-cases, ◌==◌, ==_iff, Option-cases, if◌then◌else◌, ok, arith,
}
use goquarkchain.Prelude.Int.{ℤ, pos, ◌+ℤ◌, pos_part}
use goquarkchain.Core.RootValidator.{MinorHeader, RootBlock}
use goquarkchain.Chain.Store.{at}
use goquarkchain.Types.TokenBalances.{
  new_empty_token_balances, add_balances, lookup_entry, put_entry,
}
use goquarkchain.Types.Entries.{
  value_or_zero, Amounts, HasDistinctTokens, put_entry-Amounts, pos_add,
  add_entries-HasDistinctTokens,
}
use goquarkchain.Chain.Coinbase.{
  Rate, RewardEnv, decayed, Rewards, power_big_int-eq, get_coinbase_amount, check_known, add_all,
  calculate_root_block_coinbase, total, add_all-Amounts, set_value-ok, IsScaled, scale_all-IsScaled,
}
use native.Mathlib.Nat.{zero-div}

add_all-HasDistinctTokens :
    (tokens : ℕ → List (ℕ × ℤ)) (headers : List MinorHeader) (r : Rewards)
    → HasDistinctTokens r.balances
    → HasDistinctTokens (add_all tokens headers r).balances
unfolding add_all add_balances
add_all-HasDistinctTokens tokens [] r d = d
add_all-HasDistinctTokens tokens (h ∷ headers) r d =
    add_all-HasDistinctTokens tokens headers (add_balances (tokens h.hash) r)
      (add_entries-HasDistinctTokens (tokens h.hash) r.balances d)

check_known-ok :
    (contains : ℕ → Bool) (headers : List MinorHeader)
    → All (λ h. contains h.hash ≡ true) headers
    → check_known contains headers ≡ ok tt
unfolding check_known
check_known-ok contains [] h = refl
check_known-ok contains (x ∷ headers) (e, h) = rw e (check_known-ok contains headers h)

scaled-Amounts :
    (rate : Rate) (f : ℕ → ℕ) (r r' : Rewards)
    → Amounts r.balances f
    → IsScaled rate f r.balances r r'
    → Amounts r'.balances (λ id. f id * rate.num / rate.denom)
scaled-Amounts rate f r r' h s id = elim (Option-cases (lookup_entry id r.balances)) [
  | inr (v, found) ↦ ap value_or_zero (s.listed id v found)
  | inl missing ↦
      let zero_f : 0 ≡ f id =
        ap pos_part {x = pos 0} {y = pos (f id)} (ap value_or_zero (sym missing) ∙ h id) in
      ap value_or_zero (s.others id missing ∙ missing)
      ∙ ap pos (
          sym (zero-div rate.denom)
          ∙ ap (λ x. x / rate.denom) {x = 0} {y = f id * rate.num}
              (omega (arith, ap (λ (x : ℕ). x * rate.num) zero_f)))
]

-- The coinbase of a root block of an epoch.
abbrev pub epoch_amount : RewardEnv → ℕ → ℕ
epoch_amount env epoch =
    env.coinbase_amount
    * env.block_reward_decay_factor.num ^ epoch
    / env.block_reward_decay_factor.denom ^ epoch

-- The cache has right amounts only.
abbrev pub IsRight : RewardEnv → (ℕ → Option ℕ) → Type 0
IsRight env cache = (epoch a : ℕ) → cache epoch ≡ some a → a ≡ epoch_amount env epoch

decayed-eq :
    (env : RewardEnv) (epoch : ℕ)
    → decayed env.coinbase_amount env.block_reward_decay_factor epoch ≡ epoch_amount env epoch
decayed-eq env epoch =
    ap₂ (λ x y. env.coinbase_amount * x / y)
      (power_big_int-eq env.block_reward_decay_factor.num epoch)
      (power_big_int-eq env.block_reward_decay_factor.denom epoch)

get_coinbase_amount-IsRight :
    (env : RewardEnv) (height : ℕ) (cache : ℕ → Option ℕ)
    → 1 ≤ env.epoch_interval
    → IsRight env cache
    → (amount : ℕ) × (cache' : ℕ → Option ℕ) × (get_coinbase_amount env height cache
        ≡ ok (amount, cache'))
      × (amount ≡ epoch_amount env (height / env.epoch_interval))
      × IsRight env cache'
unfolding get_coinbase_amount
get_coinbase_amount-IsRight env height cache positive right =
    let some_blocks : (env.epoch_interval == 0) ≡ false = ground arith in
    elim (Option-cases (cache epoch)) [
      | inr (a, found) ↦
          (a, cache, rw (some_blocks, found, get_coinbase_amount) refl, right epoch a found, right)
      | inl missing ↦ (
        decayed env.coinbase_amount env.block_reward_decay_factor epoch,
        at epoch (some (decayed env.coinbase_amount env.block_reward_decay_factor epoch)) cache,
        rw (some_blocks, missing, get_coinbase_amount) refl,
        decayed-eq env epoch,
        grown,
      )
    ]
  where
    epoch : ℕ
    epoch = height / env.epoch_interval

    grown :
        IsRight env
          (at epoch (some (decayed env.coinbase_amount env.block_reward_decay_factor epoch)) cache)
    grown e a found = elim (Bool-cases (e == epoch)) [
      | inl same ↦
          let one : some (decayed env.coinbase_amount env.block_reward_decay_factor epoch)
              ≡ some a =
            rw same at found in
          let is_a : decayed env.coinbase_amount env.block_reward_decay_factor epoch ≡ a = cc in
          sym is_a ∙ decayed-eq env epoch ∙ ap (epoch_amount env) (sym ((==_iff e epoch).0 same))
      | inr other ↦ right e a (rw other at found)
    ]

-- The amount of a token in the coinbase of a root block.
abbrev pub reward_of : RewardEnv → RootBlock → (ℕ → ℕ → ℕ) → ℕ → ℕ
reward_of env block tables id =
    total tables block.minor_block_headers id
      * env.reward_calculate_rate.num
      / env.reward_calculate_rate.denom
    + (if id == env.default_chain_token_id
        then epoch_amount env (block.header.number / env.epoch_interval)
        else 0)

-- For epochs of at least one block and a root block whose minor blocks are all stored, with coinbase
-- maps of amounts by token, and a cache of right amounts, CalculateRootBlockCoinBase ends with no
-- error; it gives for each token the sum over the minor blocks, scaled by the reward rate and rounded
-- down, and for the default token besides that the amount of the block's epoch, decayed once for each
-- epoch before; the cache that is left has right amounts again.
pub calculate_root_block_coinbase-Amounts :
    (env : RewardEnv) (block : RootBlock) (cache : ℕ → Option ℕ) (tables : ℕ → ℕ → ℕ)
    → 1 ≤ env.epoch_interval
    → All (λ h. env.contains_minor h.hash ≡ true) block.minor_block_headers
    → ((h : ℕ) → HasDistinctTokens (env.coinbase_tokens h))
    → ((h : ℕ) → Amounts (env.coinbase_tokens h) (tables h))
    → IsRight env cache
    → (rewards : Rewards) × (cache' : ℕ → Option ℕ) × (calculate_root_block_coinbase env block cache
        ≡ ok (rewards, cache'))
      × Amounts rewards.balances (reward_of env block tables)
      × IsRight env cache'
unfolding calculate_root_block_coinbase
calculate_root_block_coinbase-Amounts env block cache tables positive known distinct held right =
    let gathered : Rewards =
      add_all env.coinbase_tokens block.minor_block_headers new_empty_token_balances in
    let sums : Amounts gathered.balances (λ id. 0 + total tables block.minor_block_headers id) =
      add_all-Amounts env.coinbase_tokens tables block.minor_block_headers new_empty_token_balances
        (λ id. 0) distinct held empty_amounts in
    let (scaled, e, s) =
      scale_all-IsScaled env.reward_calculate_rate
        (λ id. 0 + total tables block.minor_block_headers id) gathered.balances gathered
        (add_all-HasDistinctTokens env.coinbase_tokens block.minor_block_headers
          new_empty_token_balances empty_distinct)
        (λ id v found. ap value_or_zero (sym found) ∙ sums id) in
    let amounts =
      scaled-Amounts env.reward_calculate_rate (λ id. 0 + total tables block.minor_block_headers id)
        gathered scaled sums s in
    let (top, cache', computed, amount, right') =
      get_coinbase_amount-IsRight env block.header.number cache positive right in
    let sum : value_or_zero (lookup_entry token scaled.balances) +ℤ pos top
        ≡ pos (top + share token) =
      ap (λ x. x +ℤ pos top) (amounts token) ∙ pos_add (share token) top in
    (
      record scaled { balances = put_entry token (pos (top + share token)) scaled.balances },
      cache',
      rw (check_known-ok env.contains_minor block.minor_block_headers known)
          (rw e (rw (computed, sum, set_value-ok (top + share token) token scaled) refl)),
      λ id.
          put_entry-Amounts scaled.balances share token (top + share token) amounts id
          ∙ ap pos (final top amount id),
      right',
    )
  where
    token : ℕ
    token = env.default_chain_token_id

    share : ℕ → ℕ
    share id =
        (0 + total tables block.minor_block_headers id)
        * env.reward_calculate_rate.num
        / env.reward_calculate_rate.denom

    plain :
        (id : ℕ)
        → share id
          ≡ total tables block.minor_block_headers id
            * env.reward_calculate_rate.num
            / env.reward_calculate_rate.denom
    plain id =
        ap (λ x. x * env.reward_calculate_rate.num / env.reward_calculate_rate.denom)
          {x = 0 + total tables block.minor_block_headers id}
          {y = total tables block.minor_block_headers id} (omega arith)

    final :
        (top : ℕ)
        → top ≡ epoch_amount env (block.header.number / env.epoch_interval)
        → (id : ℕ) → at token (top + share token) share id ≡ reward_of env block tables id
    final top right_top id = elim (Bool-cases (id == token)) [
      | inl same ↦ rw same (omega (arith, right_top, ap share ((==_iff id token).0 same), plain id))
      | inr apart ↦ rw apart (omega (arith, plain id))
    ]

    empty_amounts : Amounts (new_empty_token_balances {Trie = Unit {0}}).balances (λ id. 0)
    empty_amounts = unfold new_empty_token_balances in unfold lookup_entry in (λ id. refl)

    empty_distinct : HasDistinctTokens (new_empty_token_balances {Trie = Unit {0}}).balances
    empty_distinct = unfold new_empty_token_balances in tt
