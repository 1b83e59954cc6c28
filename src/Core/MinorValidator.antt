-- ===== src/Core/MinorValidator.antt =====
-- MinorBlockValidator of core/minorblock_validator.go. The chains are given by their lookups; the
-- engine, Merkle roots and the clock are parameters.
use goquarkchain.Prelude.{
  ℕ, ◌+◌, ◌/◌, ◌%◌, ◌^◌, Bool, true, false, not, ◌&&◌, Option, none, some, List, length, ltb, leb,
  ◌==◌, if◌then◌else◌, Result, ok, err, ◌>>=◌, ◌>>◌, fail_if,
}
use goquarkchain.Account.Branch.{Branch, is_in_branch}
use goquarkchain.Core.XshardCursor.{XshardTxCursorInfo}
use goquarkchain.Core.RootValidator.{
  RootError, Node, RootHeader, root_node, is_same_chain, compare_coinbase_amount_map,
}

-- `crashed` is `log.Crit`, which ends the process.
pub data MinorError : Type 0 where
  bad_header bad_version bad_height known_block unknown_ancestor pruned_ancestor : MinorError
  invalid_minor_block height_mismatch bad_branch too_far_in_future bad_time bad_meta_hash :
      MinorError
  extra_limit bad_gas_limit big_xshard_gas_limit bad_xshard_gas_limit bad_tx_hash : MinorError
  bad_miner_key no_difficulty bad_difficulty no_root_block root_block_order : MinorError
  not_one_minor_chain not_one_root_chain bad_seal no_adjusted_difficulty crashed : MinorError
  bad_gas_used bad_bloom bad_cursor bad_receipt_hash bad_coinbase_amount bad_xshard_gas_used :
      MinorError
  bad_state_root : MinorError

-- A minor block, with the hash of its meta data as it is computed.
pub record MinorBlock : Type 0 where
  pub hash : ℕ
  pub number : ℕ
  pub parent_hash : ℕ
  pub version : ℕ
  pub branch : Branch
  pub time : ℕ
  pub meta_hash : ℕ
  pub computed_meta_hash : ℕ
  pub extra : List ℕ
  pub gas_limit : ℕ
  pub xshard_gas_limit : ℕ
  pub transactions : List ℕ
  pub tx_hash : ℕ
  pub coinbase_full_shard_key : ℕ
  pub coinbase_amount : List (ℕ × ℕ)
  pub difficulty : ℕ
  pub prev_root_block_hash : ℕ
  pub gas_used : ℕ
  pub bloom : ℕ
  pub cursor : Option XshardTxCursorInfo
  pub receipt_hash : ℕ
  pub cross_shard_gas_used : ℕ
  pub root : ℕ

abbrev pub minor_node : MinorBlock → Node
minor_node b = record { hash = b.hash; number = b.number; parent_hash = b.parent_hash }

pub record MinorEnv : Type 0 where
  pub verify_header : MinorBlock → Bool
  pub has_block_and_state : ℕ → Bool
  pub has_block : ℕ → Bool
  pub get_block : ℕ → Option MinorBlock
  pub branch : Branch
  pub now : ℕ
  pub extra_data_size_limit : ℕ
  pub gas_limit : ℕ
  pub xshard_gas_limit : ℕ
  pub merkle_root : List ℕ → ℕ
  pub skip_difficulty_check : Bool
  pub calc_difficulty : ℕ → MinorBlock → Option ℕ
  pub get_root_block : ℕ → Option RootHeader
  pub last_confirmed_at : ℕ → Option Node
  pub parent_hash_of : ℕ → ℕ
  pub disable_pow_check : Bool
  pub posw_enabled : Bool
  pub adjusted_difficulty : MinorBlock → Option ℕ
  pub diff_divider : ℕ → ℕ
  pub verify_seal : MinorBlock → ℕ → Bool

-- isSameChain, where a process that ends is an error.
abbrev pub crash_of : Result RootError Bool → Result MinorError Bool
crash_of (ok same) = ok same
crash_of (err why) = err crashed

-- `isSameRootChain` of core/minorblockchain_addon.go.
unfoldable pub root_parent_of : MinorEnv → ℕ → ℕ
root_parent_of env hash = elim (env.get_root_block hash) [ none ↦ 0 | some h ↦ h.parent_hash ]

unfoldable pub is_same_root_chain :
    MinorEnv → Option RootHeader → Option RootHeader → Result MinorError Bool
unfolding root_parent_of is_same_chain
is_same_root_chain env none shorter = ok false
is_same_root_chain env (some longer) none = ok false
is_same_root_chain env (some longer) (some shorter) =
    if ltb longer.number shorter.number
    then ok false
    else crash_of (is_same_chain (root_parent_of env) (root_node longer) (root_node shorter))

-- `ValidateSeal`.
unfoldable pub validate_minor_seal : MinorEnv → MinorBlock → Bool → Result MinorError (Unit {0})
validate_minor_seal env block use_posw =
    let seal : ℕ → Result MinorError (Unit {0}) =
      λ difficulty. fail_if (not (env.verify_seal block difficulty)) bad_seal in
    if block.number == 0
    then ok tt
    else if use_posw
    then elim (env.adjusted_difficulty block) [
      | none ↦ err no_adjusted_difficulty
      | some difficulty ↦ seal difficulty
    ]
    else if env.posw_enabled
    then seal (block.difficulty / env.diff_divider block.time)
    else seal block.difficulty

-- The parent, when its state is there.
unfoldable pub find_parent : MinorEnv → MinorBlock → Result MinorError MinorBlock
find_parent env block =
    fail_if
      (not (env.has_block_and_state block.parent_hash) && not (env.has_block block.parent_hash))
      unknown_ancestor
    >> (fail_if (not (env.has_block_and_state block.parent_hash)) pruned_ancestor
        >> (elim (env.get_block block.parent_hash) [
          | none ↦ err invalid_minor_block
          | some parent ↦ ok parent
        ]))

-- The checks on the block itself, given its parent.
unfoldable pub check_fields : MinorEnv → MinorBlock → MinorBlock → Result MinorError (Unit {0})
check_fields env parent block =
    fail_if (not (block.number == (parent.number + 1) % 2 ^ 64)) height_mismatch
    >> (fail_if (not (block.branch.value == env.branch.value)) bad_branch
        >> (fail_if (ltb ((env.now + 15) % 2 ^ 64) block.time) too_far_in_future
            >> (fail_if (leb block.time parent.time) bad_time
                >> (fail_if (not (block.meta_hash == block.computed_meta_hash)) bad_meta_hash
                    >> (fail_if (ltb env.extra_data_size_limit (length block.extra)) extra_limit
                        >> (fail_if (not (block.gas_limit == env.gas_limit)) bad_gas_limit
                            >> (fail_if (leb block.gas_limit block.xshard_gas_limit)
                                  big_xshard_gas_limit
                                >> (fail_if (not (block.xshard_gas_limit == env.xshard_gas_limit))
                                      bad_xshard_gas_limit
                                    >> (fail_if
                                          (not
                                            (env.merkle_root block.transactions == block.tx_hash))
                                          bad_tx_hash
                                        >> fail_if
                                            (not (
                                              is_in_branch env.branch
                                                block.coinbase_full_shard_key))
                                            bad_miner_key)))))))))

unfoldable pub check_difficulty : MinorEnv → MinorBlock → MinorBlock → Result MinorError (Unit {0})
check_difficulty env parent block =
    if env.skip_difficulty_check then ok tt else elim (env.calc_difficulty block.time parent) [
      | none ↦ err no_difficulty
      | some difficulty ↦ fail_if (not (difficulty == block.difficulty)) bad_difficulty
    ]

-- The root block that the block points to must not stand before the parent's.
unfoldable pub check_root_order :
    Option RootHeader → Option RootHeader → Result MinorError (Unit {0})
check_root_order none parent_root = err no_root_block
check_root_order (some root) none = err no_root_block
check_root_order (some root) (some parent_root) =
    fail_if (ltb root.number parent_root.number) root_block_order

-- The minor block that the root block confirms last must be an ancestor.
unfoldable pub check_confirmed : MinorEnv → MinorBlock → Option Node → Result MinorError (Unit {0})
unfolding is_same_chain
check_confirmed env parent none = ok tt
check_confirmed env parent (some confirmed) =
    crash_of (is_same_chain env.parent_hash_of (minor_node parent) confirmed)
    >>= (λ same. fail_if (not same) not_one_minor_chain)

-- `ValidateBlock`.
unfoldable pub validate_minor_block : MinorEnv → MinorBlock → Bool → Result MinorError (Unit {0})
unfolding find_parent check_fields check_difficulty check_root_order check_confirmed
    is_same_root_chain validate_minor_seal
validate_minor_block env block force =
    fail_if (not (env.verify_header block)) bad_header
    >> (fail_if (not (block.version == 0)) bad_version
        >> (fail_if (ltb block.number 1) bad_height
            >> (fail_if (env.has_block_and_state block.hash && not force) known_block
                >> (find_parent env block >>= (λ parent.
                    let root = env.get_root_block block.prev_root_block_hash in
                    let parent_root = env.get_root_block parent.prev_root_block_hash in
                    check_fields env parent block
                    >> (check_difficulty env parent block
                        >> (check_root_order root parent_root
                            >> (check_confirmed env parent
                                  (env.last_confirmed_at block.prev_root_block_hash)
                                >> (is_same_root_chain env root parent_root >>= (λ same.
                                    fail_if (not same) not_one_root_chain
                                    >> (if env.disable_pow_check
                                        then ok tt
                                        else validate_minor_seal env block
                                            env.posw_enabled)))))))))))

-- `compareXshardTxCursor`.
unfoldable pub compare_xshard_tx_cursor :
    Option XshardTxCursorInfo → Option XshardTxCursorInfo → Bool
compare_xshard_tx_cursor none b = false
compare_xshard_tx_cursor (some a) none = false
compare_xshard_tx_cursor (some a) (some b) =
    if not (a.xshard_deposit_index == b.xshard_deposit_index)
    then false
    else if not (a.minor_block_index == b.minor_block_index)
    then false
    else if not (a.root_block_height == b.root_block_height)
    then false
    else true

-- What the state says after the block has run, with the coinbase amount of the height and the fees.
pub record RanState : Type 0 where
  pub gas_used : ℕ
  pub bloom : ℕ
  pub cursor : Option XshardTxCursorInfo
  pub receipt_hash : ℕ
  pub coinbase_amount : List (ℕ × ℕ)
  pub xshard_receive_gas_used : ℕ
  pub root : ℕ

-- `ValidateState`.
unfoldable pub validate_state : RanState → MinorBlock → Result MinorError (Unit {0})
unfolding compare_xshard_tx_cursor
validate_state state block =
    fail_if (not (block.gas_used == state.gas_used)) bad_gas_used
    >> (fail_if (not (state.bloom == block.bloom)) bad_bloom
        >> (fail_if (not (compare_xshard_tx_cursor state.cursor block.cursor)) bad_cursor
            >> (fail_if (not (state.receipt_hash == block.receipt_hash)) bad_receipt_hash
                >> (fail_if (not (state.gas_used == block.gas_used)) bad_gas_used
                    >> (fail_if
                          (not (
                            compare_coinbase_amount_map state.coinbase_amount
                              block.coinbase_amount))
                          bad_coinbase_amount
                        >> (fail_if
                              (not (state.xshard_receive_gas_used == block.cross_shard_gas_used))
                              bad_xshard_gas_used
                            >> fail_if (not (block.root == state.root)) bad_state_root))))))
