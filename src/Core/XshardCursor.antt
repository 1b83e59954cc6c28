-- ===== src/Core/XshardCursor.antt =====
-- core/xshard_tx_cursor.go: the cursor over the deposits that a shard is to execute. The chain's
-- databases are a parameter; a nil that is dereferenced is an error.
use goquarkchain.Prelude.{
  ℕ, ◌+◌, ◌-◌, ◌%◌, ◌^◌, Bool, true, false, not, ◌||◌, Option, none, some, List, [], ◌∷◌, drop,
  get_elem?, leb, ◌==◌, if◌then◌else◌, Result, ok, err, ◌>>=◌, ◌>>◌, fail_if,
}
use goquarkchain.Account.Branch.{Branch, is_in_branch}
use goquarkchain.Core.State.{Deposit}

pub data CursorError : Type 0 where
  bad_deposit_index unexpected_list nil_pointer : CursorError

pub record MinorBlockHeader : Type 0 where
  pub hash : ℕ
  pub branch : ℕ
  pub prev_root_block_hash : ℕ

-- `coinbase_amount` is the balance in the genesis token.
pub record RootBlock : Type 0 where
  pub hash : ℕ
  pub number : ℕ
  pub coinbase : ℕ
  pub coinbase_full_shard_key : ℕ
  pub coinbase_amount : ℕ
  pub minor_block_headers : List MinorBlockHeader

-- `blockchain`
pub record Blockchain : Type 0 where
  pub genesis_token : ℕ
  pub branch : Branch
  pub genesis_root_height : ℕ
  pub get_root_block_by_hash : ℕ → Option RootBlock
  pub get_root_block_by_height : ℕ → ℕ → Option RootBlock
  pub read_cross_shard_tx_list : ℕ → Option (List Deposit)
  pub is_neighbor : ℕ → ℕ → Bool

pub record XshardTxCursor : Type 0 where
  pub max_root_block_header : RootBlock
  pub m_block_index : ℕ
  pub xshard_deposit_index : ℕ
  pub x_tx_list : Option (List Deposit)
  pub r_block : Option RootBlock

pub record XshardTxCursorInfo : Type 0 where
  pub root_block_height : ℕ
  pub minor_block_index : ℕ
  pub xshard_deposit_index : ℕ

module _ (bc : Blockchain) where
  -- The list of the minor block that the cursor stands in.
  unfoldable pub recover_list : RootBlock → ℕ → Result CursorError (Option (List Deposit))
  recover_list r index =
      if index == 0 then ok (some []) else elim (get_elem? r.minor_block_headers (index - 1)) [
        | none ↦ err nil_pointer
        | some h ↦ ok (bc.read_cross_shard_tx_list h.hash)
      ]

  -- `NewXShardTxCursor`, for a minor block with that previous root block.
  unfoldable pub new_xshard_tx_cursor : ℕ → XshardTxCursorInfo → Result CursorError XshardTxCursor
  unfolding recover_list
  new_xshard_tx_cursor prev_root_hash info = elim (bc.get_root_block_by_hash prev_root_hash) [
    | none ↦ err nil_pointer
    | some max_root ↦ elim (bc.get_root_block_by_height prev_root_hash info.root_block_height) [
      | none ↦ ok (record {
        max_root_block_header = max_root;
        m_block_index = info.minor_block_index;
        xshard_deposit_index = info.xshard_deposit_index;
        x_tx_list = some [];
        r_block = none;
      })
      | some header ↦ elim (bc.get_root_block_by_hash header.hash) [
        | none ↦ err nil_pointer
        | some r ↦ recover_list r info.minor_block_index >>= (λ txs. ok (record {
          max_root_block_header = max_root;
          m_block_index = info.minor_block_index;
          xshard_deposit_index = info.xshard_deposit_index;
          x_tx_list = txs;
          r_block = some r;
        }))
      ]
    ]
  ]

  -- The deposit of a root block's coinbase.
  unfoldable pub coinbase_deposit : RootBlock → Deposit
  coinbase_deposit r = record {
    tx_hash = r.hash;
    from = r.coinbase;
    from_full_shard_key = r.coinbase_full_shard_key;
    to = r.coinbase;
    to_full_shard_key = r.coinbase_full_shard_key;
    value = if is_in_branch bc.branch r.coinbase_full_shard_key then r.coinbase_amount else 0;
    gas_token_id = bc.genesis_token;
    transfer_token_id = bc.genesis_token;
    gas_remained = 0;
    gas_price = 0;
    message_data = [];
    create_contract = false;
    is_from_root_chain = true;
    refund_rate = 100;
  }

  unfoldable pub get_current_tx : XshardTxCursor → Result CursorError (Option Deposit)
  unfolding coinbase_deposit
  get_current_tx x =
      if x.m_block_index == 0
      then if x.xshard_deposit_index == 1
        then elim x.r_block [ none ↦ err nil_pointer | some r ↦ ok (some (coinbase_deposit r)) ]
        else if x.xshard_deposit_index == 2
        then ok none
        else err bad_deposit_index
      else elim x.x_tx_list [
        | none ↦ err nil_pointer
        | some txs ↦ ok (get_elem? txs x.xshard_deposit_index)
      ]

  -- The end of the loop: on to the next root block, or the end.
  unfoldable pub next_root_block :
      RootBlock → XshardTxCursor → Result CursorError (Option Deposit × XshardTxCursor)
  unfolding get_current_tx
  next_root_block r x =
      elim (bc.get_root_block_by_height x.max_root_block_header.hash ((r.number + 1) % 2 ^ 64)) [
        | none ↦ ok (none, record x { r_block = none; m_block_index = 0; xshard_deposit_index = 0 })
        | some header ↦
            let x' : XshardTxCursor = record x {
              r_block = bc.get_root_block_by_hash header.hash;
              m_block_index = 0;
              xshard_deposit_index = 1;
            } in
            get_current_tx x' >>= (λ tx. ok (tx, x'))
      ]

  abbrev pub next_minor : XshardTxCursor → XshardTxCursor
  next_minor x = record x { m_block_index = x.m_block_index + 1 }

  -- The loop over the minor blocks that are left, from the one that the cursor stands at.
  unfoldable pub scan :
      RootBlock
      → List MinorBlockHeader
      → XshardTxCursor
      → Result CursorError (Option Deposit × XshardTxCursor)
  unfolding get_current_tx next_root_block
  scan r [] x = next_root_block r x
  scan r (h ∷ hs) x =
      let moved : Result CursorError (Option Deposit × XshardTxCursor) =
        fail_if (not (x.xshard_deposit_index == 0)) bad_deposit_index >> scan r hs (next_minor x) in
      if (h.branch == bc.branch.value) || not (bc.is_neighbor h.branch r.number)
      then moved
      else elim (bc.get_root_block_by_hash h.prev_root_block_hash) [
        | none ↦ err nil_pointer
        | some prev ↦
            if leb prev.number bc.genesis_root_height
            then elim (bc.read_cross_shard_tx_list h.hash) [
              | none ↦ moved
              | some txs ↦ err unexpected_list
            ]
            else (let x' : XshardTxCursor = record x {
              x_tx_list = bc.read_cross_shard_tx_list h.hash;
            } in
                get_current_tx x' >>= (λ tx. elim tx [
                  | some t ↦ ok (some t, x')
                  | none ↦ do
                    fail_if (not (x'.xshard_deposit_index == 0)) bad_deposit_index
                    scan r hs (next_minor x')
                ]))
      ]

  unfoldable pub get_next_tx : XshardTxCursor → Result CursorError (Option Deposit × XshardTxCursor)
  unfolding scan
  get_next_tx x = elim x.r_block [
    | none ↦ ok (none, x)
    | some r ↦
        let x₁ : XshardTxCursor = record x {
          xshard_deposit_index = (x.xshard_deposit_index + 1) % 2 ^ 64;
        } in
        get_current_tx x₁ >>= (λ tx. elim tx [
          | some t ↦ ok (some t, x₁)
          | none ↦
              scan r (drop x.m_block_index r.minor_block_headers)
                (record x { m_block_index = x.m_block_index + 1; xshard_deposit_index = 0 })
        ])
  ]

  unfoldable pub get_cursor_info : XshardTxCursor → XshardTxCursorInfo
  get_cursor_info x = record {
    root_block_height = elim x.r_block [
      | none ↦ (x.max_root_block_header.number + 1) % 2 ^ 64
      | some r ↦ r.number
    ];
    minor_block_index = x.m_block_index;
    xshard_deposit_index = x.xshard_deposit_index;
  }
