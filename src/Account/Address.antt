-- ===== src/Account/Address.antt =====
-- account/address.go and account/types.go: a recipient of 20 bytes with a full shard key.
use goquarkchain.Prelude.{
  ℕ, ◌+◌, ◌-◌, ◌*◌, ◌/◌, ◌%◌, ◌^◌, Bool, true, false, Option, none, some, ◌==◌, if◌then◌else◌,
  bit_and, bit_or, List, [], ◌∷◌, ◌++◌, take, drop, length, replicate,
}
use goquarkchain.Prelude.Bytes.{be_bytes, from_be}
use goquarkchain.Common.Words.{sub32, is_p2}
use goquarkchain.Account.Branch.{Branch, get_chain_id, get_shard_size, get_shard_id}

pub record Address : Type 0 where
  pub recipient : List ℕ
  pub full_shard_key : ℕ

abbrev pub recipient_length : ℕ
recipient_length = 20

abbrev pub full_shard_key_length : ℕ
full_shard_key_length = 4

unfoldable pub to_bytes : Address → List ℕ
unfolding be_bytes
to_bytes a = a.recipient ++ be_bytes 4 a.full_shard_key

-- `CreatAddressFromBytes`; `none` is its error.
unfoldable pub create_address_from_bytes : List ℕ → Option Address
unfolding from_be
create_address_from_bytes bs =
    if length bs == recipient_length + full_shard_key_length
    then some (record {
      recipient = take recipient_length bs;
      full_shard_key = from_be 0 (drop recipient_length bs);
    })
    else none

-- `Address.GetFullShardID`
unfoldable pub full_shard_id_of : Address → ℕ → Option ℕ
unfolding is_p2
full_shard_id_of a shard_size =
    if is_p2 shard_size
    then (let chain_id = a.full_shard_key / 2 ^ 16 in
        let shard_id = bit_and a.full_shard_key (sub32 shard_size 1) in
        some (bit_or (bit_or (chain_id * 2 ^ 16 % 2 ^ 32) shard_size) shard_id))
    else none

unfoldable pub chain_id_of : Address → ℕ
chain_id_of a = a.full_shard_key / 2 ^ 16

unfoldable pub address_in_shard : Address → ℕ → Address
address_in_shard a full_shard_key = record {
  recipient = a.recipient;
  full_shard_key = full_shard_key;
}

-- uint32 `^x`
abbrev pub not32 : ℕ → ℕ
not32 x = 2 ^ 32 - 1 - x

unfoldable pub address_in_branch : Address → Branch → Address
unfolding get_chain_id get_shard_size get_shard_id
address_in_branch a branch =
    let shard_key = bit_and a.full_shard_key (2 ^ 16 - 1) in
    let new_shard_key =
      (bit_and shard_key (not32 (sub32 (get_shard_size branch) 1)) + get_shard_id branch)
      % 2 ^ 32 in
    record {
      recipient = a.recipient;
      full_shard_key = bit_or (get_chain_id branch * 2 ^ 16 % 2 ^ 32) new_shard_key;
    }

-- `CreatEmptyAddress`
unfoldable pub create_empty_address : ℕ → Address
create_empty_address full_shard_key = record {
  recipient = replicate recipient_length 0;
  full_shard_key = full_shard_key;
}

bytes_equal : List ℕ → List ℕ → Bool
bytes_equal [] [] = true
bytes_equal [] (y ∷ ys) = false
bytes_equal (x ∷ xs) [] = false
bytes_equal (x ∷ xs) (y ∷ ys) = if x == y then bytes_equal xs ys else false

unfoldable pub is_empty : Address → Bool
unfolding bytes_equal
is_empty a = bytes_equal (replicate recipient_length 0) a.recipient
