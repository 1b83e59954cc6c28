-- ===== src/Config/Tests.antt =====
-- A configuration of one chain of two shards and one of a single shard.
use goquarkchain.Prelude.{
  ℕ, ◌/◌, ◌^◌, ◌≡◌, inl, inr, refl, sym, ap, ◌∙◌, true, some, List, [], ◌∷◌, ok, arith,
}
use goquarkchain.Account.Branch.{is_in_branch}
use goquarkchain.Config.Shards.{
  ShardConfig, Shards, init_and_validate, get_shard_size_by_chain_id,
  get_full_shard_id_by_full_shard_key,
}
use goquarkchain.Config.Routing.{Contains, get_full_shard_id_by_full_shard_key-Contains}

abbrev shard : ℕ → ℕ → ℕ → ShardConfig
shard chain size id = record {
  chain_id = chain;
  shard_size = size;
  shard_id = id;
  genesis_root_height = some 0;
}

abbrev shards : Shards
shards = (2, shard 0 2 0) ∷ (3, shard 0 2 1) ∷ (65537, shard 1 1 0) ∷ []

abbrev sizes : List (ℕ × ℕ)
sizes = (1, 1) ∷ (0, 2) ∷ (0, 2) ∷ []

valid : init_and_validate 2 shards ≡ ok sizes
unfolding init_and_validate
valid = refl

size_of_first : get_shard_size_by_chain_id sizes (5 / 2 ^ 16) ≡ ok (2 ^ 1)
unfolding get_shard_size_by_chain_id
size_of_first = refl

same_size :
    (id : ℕ) (s : ShardConfig)
    → Contains shards id s
    → s.chain_id ≡ 5 / 2 ^ 16
    → s.shard_size ≡ 2 ^ 1
same_size id s (inl (p, q)) chain = ap (λ (t : ShardConfig). t.shard_size) (sym q)
same_size id s (inr (inl (p, q))) chain = ap (λ (t : ShardConfig). t.shard_size) (sym q)
same_size id s (inr (inr (inl (p, q)))) chain =
    let other : 1 ≡ 0 = ap (λ (t : ShardConfig). t.chain_id) q ∙ chain in
    absurd (omega (arith, other))
same_size id s (inr (inr (inr none_left))) chain = absurd none_left

get_full_shard_id_by_full_shard_key-Contains_example :
    (id : ℕ) × (s : ShardConfig) × (get_full_shard_id_by_full_shard_key sizes 5 ≡ ok id)
    × Contains shards id s
    × (is_in_branch (record { value = id }) 5 ≡ true)
get_full_shard_id_by_full_shard_key-Contains_example =
    get_full_shard_id_by_full_shard_key-Contains 2 shards sizes 5 1 valid (omega arith)
      (omega arith) size_of_first same_size
