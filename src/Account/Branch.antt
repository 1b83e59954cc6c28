-- ===== src/Account/Branch.antt =====
-- account/branch.go and account/neighbor.go. A branch is the word chain id (16 bits), then the
-- shard size, a power of two, with the shard id in the digits below it.
use goquarkchain.Prelude.{
  ℕ, ◌-◌, ◌*◌, ◌/◌, ◌%◌, ◌^◌, Bool, true, false, Option, none, some, ltb, leb, ◌==◌, if◌then◌else◌,
  bit_and, bit_or, bit_xor,
}
use goquarkchain.Common.Words.{sub32, shl32, int_left_most_bit, is_p2}

pub record Branch : Type 0 where
  pub value : ℕ

unfoldable pub get_chain_id : Branch → ℕ
get_chain_id b = b.value / 2 ^ 16

unfoldable pub get_shard_size : Branch → ℕ
unfolding shl32 int_left_most_bit
get_shard_size b =
    let branch_value = bit_and b.value (2 ^ 16 - 1) in
    shl32 1 (sub32 (int_left_most_bit branch_value) 1)

unfoldable pub get_full_shard_id : Branch → ℕ
get_full_shard_id b = b.value

unfoldable pub get_shard_id : Branch → ℕ
unfolding get_shard_size
get_shard_id b =
    let branch_value = bit_and b.value (2 ^ 16 - 1) in bit_xor branch_value (get_shard_size b)

unfoldable pub is_in_branch : Branch → ℕ → Bool
unfolding get_chain_id get_shard_size get_shard_id
is_in_branch b full_shard_key =
    if full_shard_key / 2 ^ 16 == get_chain_id b
    then bit_and full_shard_key (sub32 (get_shard_size b) 1) == get_shard_id b
    else false

-- `CreatBranch`; `none` is its error.
unfoldable pub create_branch : ℕ → ℕ → ℕ → Option Branch
unfolding is_p2
create_branch chain_id shard_size shard_id =
    if is_p2 shard_size
    then some (record { value = bit_or (bit_or (chain_id * 2 ^ 16 % 2 ^ 32) shard_size) shard_id })
    else none

unfoldable pub abs_uint32 : ℕ → ℕ → ℕ
abs_uint32 a b = if ltb b a then sub32 a b else sub32 b a

unfoldable pub is_neighbor : Branch → Branch → ℕ → Bool
unfolding get_chain_id get_shard_id is_p2 abs_uint32
is_neighbor b1 b2 shard_size =
    if leb shard_size 32
    then true
    else if get_chain_id b1 == get_chain_id b2
    then is_p2 (abs_uint32 (get_shard_id b1) (get_shard_id b2))
    else if get_shard_id b1 == get_shard_id b2
    then is_p2 (abs_uint32 (get_chain_id b1) (get_chain_id b2))
    else false
