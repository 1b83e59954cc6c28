-- ===== src/Config/Routing.antt =====
-- Keys and the shards that they belong to: cluster/config/cluster_config.go.
use goquarkchain.Prelude.{
  ℕ, zero, suc, ◌*◌, ◌/◌, ◌%◌, ◌^◌, ◌<◌, ◌≡◌, ◌⊎◌, inl, inr, refl, sym, ap, ap₂, ◌∙◌, subst, bit_or,
  Bool, true, false, not, ◌||◌, ◌&&◌, Option, none, some, List, [], ◌∷◌, length, ◌==◌, ==_iff,
  if◌then◌else◌, Result, ok, err, ◌>>◌, fail_if, fail_if-ok, >>=-eq-ok, same_of_not, true_of_not,
  Bool-cases, arith,
}
use goquarkchain.Prelude.Bits.{pow_pos}
use native.Mathlib.Nat.{mod-lt}
use goquarkchain.Account.Branch.{is_in_branch}
use goquarkchain.Account.Shards.{word, IsShard, is_in_branch_iff, joined, bit_and-low_key}
use goquarkchain.Config.Shards.{
  ConfigError, no_such_chain, bad_full_shard_id, bad_shard_count, bad_shard_ids, bad_chain_id,
  ShardConfig, Shards, config_full_shard_id, find, is_member, chain_sizes, shard_ids_of, all_below,
  check_chains, has_chains, init_and_validate, get_shard_size_by_chain_id,
  get_full_shard_id_by_full_shard_key,
}

-- An entry of a map.
abbrev pub Contains : {A : Type 0} → List (ℕ × A) → ℕ → A → Type 0
Contains [] k a = ⊥
Contains ((key, value) ∷ rest) k a = ((key ≡ k) × (value ≡ a)) ⊎ Contains rest k a

either_of : (a b : Bool) → (a || b) ≡ true → (a ≡ true) ⊎ (b ≡ true)
either_of true b h = inl refl
either_of false b h = inr h

both_of : (a b : Bool) → (a && b) ≡ true → (a ≡ true) × (b ≡ true)
both_of true b h = (refl, h)
both_of false b h = cc

all_below-is_member :
    (n i : ℕ) (ids : List ℕ) → i < n → all_below n ids ≡ true → is_member i ids ≡ true
unfolding all_below
all_below-is_member zero i ids lt h = absurd (omega arith)
all_below-is_member (suc n) i ids lt h =
    let (here, below) = both_of _ _ h in
    elim (Bool-cases (i == n)) [
      | inl same ↦ subst (λ t. is_member t ids ≡ true) (sym ((==_iff i n).0 same)) here
      | inr other ↦ let smaller : i < n = ground arith in all_below-is_member n i ids smaller below
    ]

-- A shard id of a chain is that of a configured shard.
shard_ids_of-Contains :
    (chain i : ℕ) (shards : Shards)
    → is_member i (shard_ids_of chain shards) ≡ true
    → (id : ℕ) × (s : ShardConfig) × Contains shards id s × (s.chain_id ≡ chain) × (s.shard_id ≡ i)
unfolding shard_ids_of is_member
shard_ids_of-Contains chain i [] h = cc
shard_ids_of-Contains chain i ((id, s) ∷ shards) h =
    of_chain (s.chain_id == chain) refl h (shard_ids_of-Contains chain i shards)
  where
    further :
        ((id' : ℕ) × (s' : ShardConfig) × Contains shards id' s'
          × (s'.chain_id ≡ chain)
          × (s'.shard_id ≡ i))
        → (id' : ℕ) × (s' : ShardConfig) × Contains ((id, s) ∷ shards) id' s'
          × (s'.chain_id ≡ chain)
          × (s'.shard_id ≡ i)
    further (id', s', there, c, j) = (id', s', inr there, c, j)

    of_chain :
        (b : Bool)
        → (s.chain_id == chain) ≡ b
        → is_member i
            (if b then s.shard_id ∷ shard_ids_of chain shards else shard_ids_of chain shards)
          ≡ true
        → (is_member i (shard_ids_of chain shards) ≡ true
            → (id' : ℕ) × (s' : ShardConfig) × Contains shards id' s'
              × (s'.chain_id ≡ chain)
              × (s'.shard_id ≡ i))
        → (id' : ℕ) × (s' : ShardConfig) × Contains ((id, s) ∷ shards) id' s'
          × (s'.chain_id ≡ chain)
          × (s'.shard_id ≡ i)
    of_chain true same h rec = elim (either_of (i == s.shard_id) _ h) [
      | inl here ↦ (id, s, inl (refl, refl), (==_iff _ _).0 same, sym ((==_iff _ _).0 here))
      | inr there ↦ further (rec there)
    ]
    of_chain false other h rec = further (rec h)

-- The ids of the shards are what the shards say.
chain_sizes-ids :
    (before : List (ℕ × ℕ)) (shards : Shards) (sizes : List (ℕ × ℕ))
    → chain_sizes before shards ≡ ok sizes
    → (id : ℕ) (s : ShardConfig) → Contains shards id s
    → id ≡ config_full_shard_id s
unfolding chain_sizes
chain_sizes-ids before [] sizes e id s here = absurd here
chain_sizes-ids before ((id', s') ∷ shards) sizes e id s here =
    let (same, e₁) = fail_if-ok (not (id' == config_full_shard_id s')) bad_full_shard_id _ e in
    elim here [
      | inl (p, q) ↦ sym p ∙ same_of_not _ _ same ∙ ap config_full_shard_id q
      | inr there ↦
          chain_sizes-ids ((s'.chain_id, s'.shard_size) ∷ before) shards sizes e₁ id s there
    ]

-- A chain that is found has its shards, if one of the shards that are gone through is its own.
check_chains-all_below :
    (sizes : List (ℕ × ℕ)) (shards rest : Shards) (id : ℕ) (s : ShardConfig) (size : ℕ)
    → check_chains sizes shards rest ≡ ok tt
    → Contains rest id s
    → find s.chain_id sizes ≡ some size
    → all_below size (shard_ids_of s.chain_id shards) ≡ true
unfolding check_chains
check_chains-all_below sizes shards [] id s size e here found = absurd here
check_chains-all_below sizes shards ((id', s') ∷ rest) id s size e here found =
    of_size (find s'.chain_id sizes) refl e (check_chains-all_below sizes shards rest id s size)
  where
    of_size :
        (o : Option ℕ)
        → find s'.chain_id sizes ≡ o
        → (elim o [
          | none ↦ err no_such_chain
          | some size' ↦
              fail_if (not (length (shard_ids_of s'.chain_id shards) == size')) bad_shard_count
              >> (fail_if (not (all_below size' (shard_ids_of s'.chain_id shards))) bad_shard_ids
                  >> check_chains sizes shards rest)
        ])
          ≡ ok tt
        → (check_chains sizes shards rest ≡ ok tt
            → Contains rest id s
            → find s.chain_id sizes ≡ some size
            → all_below size (shard_ids_of s.chain_id shards) ≡ true)
        → all_below size (shard_ids_of s.chain_id shards) ≡ true
    of_size none eq e rec = cc
    of_size (some size') eq e rec =
        let (count, e₁) =
          fail_if-ok (not (length (shard_ids_of s'.chain_id shards) == size')) bad_shard_count _
            e in
        let (all, e₂) =
          fail_if-ok (not (all_below size' (shard_ids_of s'.chain_id shards))) bad_shard_ids _ e₁ in
        elim here [
          | inl (p, q) ↦
              let same : some size' ≡ some size =
                sym eq ∙ ap (λ (t : ShardConfig). find t.chain_id sizes) q ∙ found in
              let sizes_same : size' ≡ size = cc in
              ap₂ (λ (n : ℕ) (t : ShardConfig). all_below n (shard_ids_of t.chain_id shards))
                (sym sizes_same) (sym q)
              ∙ true_of_not _ all
          | inr there ↦ rec e₂ there found
        ]

-- The size of a chain is that of one of its shards.
chain_sizes-Contains :
    (before : List (ℕ × ℕ)) (shards : Shards) (sizes : List (ℕ × ℕ)) (chain size : ℕ)
    → chain_sizes before shards ≡ ok sizes
    → find chain sizes ≡ some size
    → (find chain before ≡ some size)
      ⊎ ((id : ℕ) × (s : ShardConfig) × Contains shards id s
          × (s.chain_id ≡ chain)
          × (s.shard_size ≡ size))
unfolding chain_sizes find
chain_sizes-Contains before [] sizes chain size e found =
    let same : before ≡ sizes = cc in inl (subst (λ l. find chain l ≡ some size) (sym same) found)
chain_sizes-Contains before ((id, s) ∷ shards) sizes chain size e found =
    let (_, e₁) = fail_if-ok (not (id == config_full_shard_id s)) bad_full_shard_id _ e in
    elim (chain_sizes-Contains ((s.chain_id, s.shard_size) ∷ before) shards sizes chain size e₁
      found) [
        | inr (id', s', there, c, z) ↦ inr (id', s', inr there, c, z)
        | inl early ↦ elim (Bool-cases (s.chain_id == chain)) [
          | inl here ↦
              let value : some s.shard_size ≡ some size = rw here at early in
              let value_same : s.shard_size ≡ size = cc in
              inr (id, s, inl (refl, refl), (==_iff _ _).0 here, value_same)
          | inr other ↦ inl (rw other at early)
        ]
      ]

find_nil : (chain size : ℕ) → find {A = ℕ} chain [] ≡ some size → ⊥
unfolding find
find_nil chain size e = cc

id_of :
    (s : ShardConfig) (chain size number : ℕ)
    → s.chain_id ≡ chain
    → s.shard_size ≡ size
    → s.shard_id ≡ number
    → config_full_shard_id s ≡ bit_or (bit_or (chain * 2 ^ 16 % 2 ^ 32) size) number
unfolding config_full_shard_id
id_of s chain size number p q r =
    ap₂ bit_or (ap₂ (λ (x y : ℕ). bit_or (x * 2 ^ 16 % 2 ^ 32) y) p q) r

size_found :
    (sizes : List (ℕ × ℕ)) (chain size : ℕ)
    → get_shard_size_by_chain_id sizes chain ≡ ok size
    → find chain sizes ≡ some size
unfolding get_shard_size_by_chain_id
size_found sizes chain size e = of_found (find chain sizes) e
  where
    of_found :
        (o : Option ℕ)
        → ◌≡◌ {A = Result ConfigError ℕ}
            (elim o [ none ↦ err no_such_chain | some size' ↦ ok size' ])
            (ok size)
        → o ≡ some size
    of_found none e = cc
    of_found (some size') e = let same : size' ≡ size = cc in ap some same

-- The id that is computed from a key is the word of a branch that the key is in.
key_word :
    (sizes : List (ℕ × ℕ)) (key k : ℕ)
    → key < 2 ^ 32
    → k < 16
    → get_shard_size_by_chain_id sizes (key / 2 ^ 16) ≡ ok (2 ^ k)
    → (get_full_shard_id_by_full_shard_key sizes key ≡ ok (word (key / 2 ^ 16) k (key % 2 ^ k)))
      × IsShard (key / 2 ^ 16) k (key % 2 ^ k)
unfolding get_full_shard_id_by_full_shard_key
key_word sizes key k small size_fits size =
    let shard : IsShard (key / 2 ^ 16) k (key % 2 ^ k) = record {
      chain_fits = omega arith;
      size_fits = size_fits;
      id_fits = mod-lt key (pow_pos k);
    } in
    (
      rw size (
          ap ok (
            ap (bit_or (bit_or (key / 2 ^ 16 * 2 ^ 16 % 2 ^ 32) (2 ^ k)))
              (bit_and-low_key key k size_fits)
            ∙ joined (key / 2 ^ 16) k (key % 2 ^ k) shard)),
      shard,
    )

-- In a configuration that initAndValidate accepts, and where the shards of the key's chain have one
-- size, a power of two below 2^16, GetFullShardIdByFullShardKey of a 32-bit key of a configured chain
-- is the id of a configured shard, and the key is in that shard's branch.
pub get_full_shard_id_by_full_shard_key-Contains :
    (chain_size : ℕ) (shards : Shards) (sizes : List (ℕ × ℕ)) (key k : ℕ)
    → init_and_validate chain_size shards ≡ ok sizes
    → key < 2 ^ 32
    → k < 16
    → get_shard_size_by_chain_id sizes (key / 2 ^ 16) ≡ ok (2 ^ k)
    → ((id : ℕ) (s : ShardConfig)
        → Contains shards id s
        → s.chain_id ≡ key / 2 ^ 16
        → s.shard_size ≡ 2 ^ k)
    → (id : ℕ) × (s : ShardConfig) × (get_full_shard_id_by_full_shard_key sizes key ≡ ok id)
      × Contains shards id s
      × (is_in_branch (record { value = id }) key ≡ true)
unfolding init_and_validate
get_full_shard_id_by_full_shard_key-Contains chain_size shards sizes key k valid small size_fits
      size same_size =
    let (sizes', sized, e₁) = >>=-eq-ok (chain_sizes [] shards) _ valid in
    let (_, checked, e₂) = >>=-eq-ok (check_chains sizes' shards shards) _ e₁ in
    let (_, e₃) = fail_if-ok (not (has_chains chain_size sizes')) bad_chain_id _ e₂ in
    let agree : sizes' ≡ sizes = cc in
    let found : find (key / 2 ^ 16) sizes' ≡ some (2 ^ k) =
      subst (λ l. find (key / 2 ^ 16) l ≡ some (2 ^ k)) (sym agree)
        (size_found sizes (key / 2 ^ 16) (2 ^ k) size) in
    let (id₀, s₀, there₀, chain₀, size₀) =
      own_shard (chain_sizes-Contains [] shards sizes' (key / 2 ^ 16) (2 ^ k) sized found) in
    let all =
      check_chains-all_below sizes' shards shards id₀ s₀ (2 ^ k) checked there₀
        (ap (λ t. find t sizes') chain₀ ∙ found) in
    let (eq, shard) = key_word sizes key k small size_fits size in
    let listed =
      all_below-is_member (2 ^ k) (key % 2 ^ k) (shard_ids_of s₀.chain_id shards) shard.id_fits
        all in
    let (id, s, there, chain, number) =
      shard_ids_of-Contains s₀.chain_id (key % 2 ^ k) shards listed in
    let is_chain : s.chain_id ≡ key / 2 ^ 16 = chain ∙ chain₀ in
    let is_id : id ≡ word (key / 2 ^ 16) k (key % 2 ^ k) =
      chain_sizes-ids [] shards sizes' sized id s there
      ∙ id_of s (key / 2 ^ 16) (2 ^ k) (key % 2 ^ k) is_chain (same_size id s there is_chain) number
      ∙ joined (key / 2 ^ 16) k (key % 2 ^ k) shard in
    (
      id,
      s,
      eq ∙ ap ok (sym is_id),
      there,
      ap (λ t. is_in_branch (record { value = t }) key) is_id
          ∙ (is_in_branch_iff (key / 2 ^ 16) k (key % 2 ^ k) key shard).1 (refl, refl),
    )
  where
    own_shard :
        (find (key / 2 ^ 16) [] ≡ some (2 ^ k))
          ⊎ ((id : ℕ) × (s : ShardConfig) × Contains shards id s
              × (s.chain_id ≡ key / 2 ^ 16)
              × (s.shard_size ≡ 2 ^ k))
        → (id : ℕ) × (s : ShardConfig) × Contains shards id s
          × (s.chain_id ≡ key / 2 ^ 16)
          × (s.shard_size ≡ 2 ^ k)
    own_shard (inl nothing) = absurd (find_nil (key / 2 ^ 16) (2 ^ k) nothing)
    own_shard (inr s) = s
