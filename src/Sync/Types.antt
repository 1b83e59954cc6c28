-- ===== src/Sync/Types.antt =====
-- cluster/sync/: headers, and what can go wrong. A hash is a number.
use goquarkchain.Prelude.{ℕ}

pub data SyncError : Type 0 where
  lower_td empty_list wrong_count out_of_range bad_order bad_bounds out_of_fuel : SyncError
  bad_ancestor nil_pointer ancestor_td wrong_parent not_linked wrong_number bad_seal : SyncError
  unmatched_blocks peer_failed add_failed bad_limit bad_direction bad_kind not_found : SyncError
  not_canonical missing_header too_many_hashes : SyncError

pub record Header : Type 0 where
  pub hash : ℕ
  pub number : ℕ
  pub parent_hash : ℕ
  pub difficulty : ℕ
  pub total_difficulty : ℕ

abbrev pub root_block_header_list_limit : ℕ
root_block_header_list_limit = 500

abbrev pub minor_block_header_list_limit : ℕ
minor_block_header_list_limit = 100

abbrev pub root_block_batch_size : ℕ
root_block_batch_size = 100

abbrev pub minor_block_batch_size : ℕ
minor_block_batch_size = 50
