-- ===== src/Account/Tests.antt =====
-- Runs of account/: shard 1 of the 4 shards of chain 3, and an address of that chain.
use goquarkchain.Prelude.{
  ℕ, zero, suc, ◌/◌, ◌%◌, ◌^◌, ◌≡◌, ◌↔◌, refl, true, some, replicate, All, arith,
}
use goquarkchain.Prelude.Bytes.{IsByte, from_be}
use goquarkchain.Account.Branch.{is_in_branch}
use goquarkchain.Account.Address.{
  Address, to_bytes, create_address_from_bytes, full_shard_id_of, address_in_branch,
}
use goquarkchain.Account.Shards.{
  word, branch_of, IsShard, is_in_branch_iff, full_shard_id_of_iff, address_in_branch-IsIn,
}
use goquarkchain.Account.Codec.{
  IsAddress, create_address_from_bytes-to_bytes, to_bytes-create_address_from_bytes,
}

abbrev home : Address
home = record { recipient = replicate 20 7; full_shard_key = 196613 }

home-IsAddress : IsAddress home
home-IsAddress = record { recipient_fits = refl; key_fits = omega arith }

one-IsShard : IsShard 3 2 1
one-IsShard = record { chain_fits = omega arith; size_fits = omega arith; id_fits = omega arith }

is_in_branch_iff_example :
    (is_in_branch (branch_of 3 2 1) 196613 ≡ true) ↔ ((196613 / 2 ^ 16 ≡ 3) × (196613 % 2 ^ 2 ≡ 1))
is_in_branch_iff_example = is_in_branch_iff 3 2 1 196613 one-IsShard

full_shard_id_of_iff_example :
    (full_shard_id_of home (2 ^ 2) ≡ some (word 3 2 1))
    ↔ (is_in_branch (branch_of 3 2 1) home.full_shard_key ≡ true)
full_shard_id_of_iff_example = full_shard_id_of_iff home 3 2 1 (omega arith) one-IsShard

address_in_branch-IsIn_example :
    ((address_in_branch home (branch_of 3 2 1)).recipient ≡ home.recipient)
    × (is_in_branch (branch_of 3 2 1) (address_in_branch home (branch_of 3 2 1)).full_shard_key
        ≡ true)
address_in_branch-IsIn_example = address_in_branch-IsIn home 3 2 1 one-IsShard

create_address_from_bytes-to_bytes_example : create_address_from_bytes (to_bytes home) ≡ some home
create_address_from_bytes-to_bytes_example = create_address_from_bytes-to_bytes home home-IsAddress

All-sevens : (n : ℕ) → All IsByte (replicate n 7)
All-sevens zero = tt
All-sevens (suc n) = (omega arith, All-sevens n)

accepted :
    create_address_from_bytes (replicate 24 7)
    ≡ some (record { recipient = replicate 20 7; full_shard_key = 117901063 })
unfolding create_address_from_bytes from_be
accepted = refl

to_bytes-create_address_from_bytes_example :
    to_bytes (record { recipient = replicate 20 7; full_shard_key = 117901063 }) ≡ replicate 24 7
to_bytes-create_address_from_bytes_example =
    to_bytes-create_address_from_bytes (replicate 24 7)
      (record { recipient = replicate 20 7; full_shard_key = 117901063 }) (All-sevens 24) accepted
