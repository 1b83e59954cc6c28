-- ===== src/Core/CursorTests.antt =====
-- A run of the cross-shard cursor: the only root block's coinbase was given, and no block follows.
use goquarkchain.Prelude.{◌≡◌, refl, true, none, some, [], ok}
use goquarkchain.Core.XshardCursor.{
  Blockchain, RootBlock, XshardTxCursor, get_current_tx, next_root_block, scan, get_next_tx,
}

abbrev only_root : RootBlock
only_root = record {
  hash = 8;
  number = 1;
  coinbase = 3;
  coinbase_full_shard_key = 0;
  coinbase_amount = 100;
  minor_block_headers = [];
}

abbrev small_chain : Blockchain
small_chain = record {
  genesis_token = 1;
  branch = record { value = 1 };
  genesis_root_height = 0;
  get_root_block_by_hash = λ h. some only_root;
  get_root_block_by_height = λ h n. none;
  read_cross_shard_tx_list = λ h. none;
  is_neighbor = λ b n. true;
}

abbrev at_coinbase : XshardTxCursor
at_coinbase = record {
  max_root_block_header = only_root;
  m_block_index = 0;
  xshard_deposit_index = 1;
  x_tx_list = some [];
  r_block = some only_root;
}

abbrev at_end : XshardTxCursor
at_end = record at_coinbase { m_block_index = 0; xshard_deposit_index = 0; r_block = none }

last_run : get_next_tx small_chain at_coinbase ≡ ok (none, at_end)
unfolding get_next_tx scan next_root_block get_current_tx
last_run = refl
