-- ===== src/Core/MinorAcceptance.antt =====
-- What it means that the validator of core/minorblock_validator.go accepts a block and its state.
use goquarkchain.Prelude.{
  ℕ, ◌+◌, ◌%◌, ◌^◌, ◌≤◌, ◌<◌, ◌≡◌, ◌↔◌, ◌⊎◌, inl, inr, Bool-cases, refl, sym, ap, ap₂, ◌∙◌, Bool,
  true, false, not, ◌&&◌, Option, none, some, length, ltb, leb, ◌==◌, ==_iff, if◌then◌else◌, ltb→le,
  Result, ok, err, fail_if, fail_if-ok, skip_fail_if, >>=-eq-ok, same_of_not, not_of_same,
  true_of_not, not_of_true, arith,
}
use goquarkchain.Account.Branch.{is_in_branch}
use goquarkchain.Core.XshardCursor.{XshardTxCursorInfo}
use goquarkchain.Core.RootValidator.{
  RootError, Node, RootHeader, root_node, compare_coinbase_amount_map, amount_of,
}
use goquarkchain.Core.SameChain.{IsAncestor, is_same_chain-IsAncestor}
use goquarkchain.Core.Amounts.{IsMap, compare_coinbase_amount_map_iff}
use goquarkchain.Core.MinorValidator.{
  MinorError, bad_header, bad_version, bad_height, known_block, unknown_ancestor, pruned_ancestor,
  invalid_minor_block, height_mismatch, bad_branch, too_far_in_future, bad_time, bad_meta_hash,
  extra_limit, bad_gas_limit, big_xshard_gas_limit, bad_xshard_gas_limit, bad_tx_hash,
  bad_miner_key, bad_gas_used, bad_bloom, bad_cursor, bad_receipt_hash, bad_coinbase_amount,
  bad_xshard_gas_used, bad_state_root, root_block_order, not_one_root_chain, bad_seal,
  bad_difficulty, no_difficulty, not_one_minor_chain, no_adjusted_difficulty, root_parent_of,
  crash_of, minor_node, MinorBlock, MinorEnv, RanState, compare_xshard_tx_cursor, validate_state,
  find_parent, check_fields, check_difficulty, check_root_order, check_confirmed,
  is_same_root_chain, validate_minor_seal, validate_minor_block,
}

passes_iff : (b : Bool) (e : MinorError) → (fail_if b e ≡ ok tt) ↔ (b ≡ false)
passes_iff true e = (λ h. cc, λ h. cc)
passes_iff false e = (λ h. refl, λ h. refl)

-- Both cursors are there and are the same.
abbrev pub AreSameCursors : Option XshardTxCursorInfo → Option XshardTxCursorInfo → Type 0
AreSameCursors a b = (c : XshardTxCursorInfo) × (a ≡ some c) × (b ≡ some c)

cursor_eq :
    (a b : XshardTxCursorInfo)
    → a.xshard_deposit_index ≡ b.xshard_deposit_index
    → a.minor_block_index ≡ b.minor_block_index
    → a.root_block_height ≡ b.root_block_height
    → a ≡ b
cursor_eq a b p q r i = record {
  root_block_height = r i;
  minor_block_index = q i;
  xshard_deposit_index = p i;
}

three_of :
    (x y z : Bool)
    → (if not x then false else if not y then false else if not z then false else true) ≡ true
    → (x ≡ true) × (y ≡ true) × (z ≡ true)
three_of true true true h = (refl, refl, refl)
three_of true true false h = cc
three_of true false z h = cc
three_of false y z h = cc

same_cursor : (c : XshardTxCursorInfo) → compare_xshard_tx_cursor (some c) (some c) ≡ true
unfolding compare_xshard_tx_cursor
same_cursor c =
    let x = (==_iff c.xshard_deposit_index c.xshard_deposit_index).1 refl in
    let y = (==_iff c.minor_block_index c.minor_block_index).1 refl in
    let z = (==_iff c.root_block_height c.root_block_height).1 refl in rw (x, y, z) refl

compare_xshard_tx_cursor_iff :
    (a b : Option XshardTxCursorInfo) → (compare_xshard_tx_cursor a b ≡ true) ↔ AreSameCursors a b
unfolding compare_xshard_tx_cursor
compare_xshard_tx_cursor_iff none b = (λ h. cc, λ (c, is_a, is_b). cc)
compare_xshard_tx_cursor_iff (some a) none = (λ h. cc, λ (c, is_a, is_b). cc)
compare_xshard_tx_cursor_iff (some a) (some b) = (
  λ h.
      let (x, y, z) = three_of _ _ _ h in
      let same = cursor_eq a b ((==_iff _ _).0 x) ((==_iff _ _).0 y) ((==_iff _ _).0 z) in
      (b, ap some same, refl),
  λ (c, is_a, is_b). ap₂ compare_xshard_tx_cursor is_a is_b ∙ same_cursor c,
)

-- What the block says of its state is what the state is after it has run.
abbrev pub Describes : RanState → MinorBlock → Type 0
Describes state block =
    (block.gas_used ≡ state.gas_used)
    × (state.bloom ≡ block.bloom)
    × AreSameCursors state.cursor block.cursor
    × (state.receipt_hash ≡ block.receipt_hash)
    × ((k : ℕ) → amount_of state.coinbase_amount k ≡ amount_of block.coinbase_amount k)
    × (state.xshard_receive_gas_used ≡ block.cross_shard_gas_used)
    × (block.root ≡ state.root)

-- `ValidateState` accepts a block exactly when the state after its run has the gas, the bloom, the
-- cursor, the receipts, the coinbase amount of every token, the cross-shard gas and the root that
-- the block says, and both cursors are there; in the amounts no token stands twice.
pub validate_state_iff :
    (state : RanState) (block : MinorBlock)
    → IsMap state.coinbase_amount
    → IsMap block.coinbase_amount
    → (validate_state state block ≡ ok tt) ↔ Describes state block
unfolding validate_state
validate_state_iff state block map_s map_b = (accepts, fits)
  where
    accepts : validate_state state block ≡ ok tt → Describes state block
    accepts e =
        let (gas, e₁) = fail_if-ok (not (block.gas_used == state.gas_used)) bad_gas_used _ e in
        let (bloom, e₂) = fail_if-ok (not (state.bloom == block.bloom)) bad_bloom _ e₁ in
        let (cursor, e₃) =
          fail_if-ok (not (compare_xshard_tx_cursor state.cursor block.cursor)) bad_cursor _ e₂ in
        let (receipts, e₄) =
          fail_if-ok (not (state.receipt_hash == block.receipt_hash)) bad_receipt_hash _ e₃ in
        let (gas', e₅) = fail_if-ok (not (state.gas_used == block.gas_used)) bad_gas_used _ e₄ in
        let (coinbase, e₆) =
          fail_if-ok (not (compare_coinbase_amount_map state.coinbase_amount block.coinbase_amount))
            bad_coinbase_amount _ e₅ in
        let (xshard, e₇) =
          fail_if-ok (not (state.xshard_receive_gas_used == block.cross_shard_gas_used))
            bad_xshard_gas_used _ e₆ in
        (
          same_of_not _ _ gas,
          same_of_not _ _ bloom,
          (compare_xshard_tx_cursor_iff state.cursor block.cursor).0 (true_of_not _ cursor),
          same_of_not _ _ receipts,
          (compare_coinbase_amount_map_iff state.coinbase_amount block.coinbase_amount map_s
                map_b).0
              (true_of_not _ coinbase),
          same_of_not _ _ xshard,
          same_of_not _ _ ((passes_iff (not (block.root == state.root)) bad_state_root).0 e₇),
        )

    fits : Describes state block → validate_state state block ≡ ok tt
    fits (gas, bloom, cursor, receipts, coinbase, xshard, root) =
        skip_fail_if _ _ _ (not_of_same _ _ gas)
        ∙ skip_fail_if _ _ _ (not_of_same _ _ bloom)
        ∙ skip_fail_if _ _ _
            (not_of_true _ ((compare_xshard_tx_cursor_iff state.cursor block.cursor).1 cursor))
        ∙ skip_fail_if _ _ _ (not_of_same _ _ receipts)
        ∙ skip_fail_if _ _ _ (not_of_same _ _ (sym gas))
        ∙ skip_fail_if _ _ _ (
            not_of_true _ (
              (compare_coinbase_amount_map_iff state.coinbase_amount block.coinbase_amount map_s
                  map_b).1
                coinbase))
        ∙ skip_fail_if _ _ _ (not_of_same _ _ xshard)
        ∙ (passes_iff (not (block.root == state.root)) bad_state_root).1 (not_of_same _ _ root)

-- What the checks on a block and its parent come to.
pub record ExtendsParent (env : MinorEnv) (parent block : MinorBlock) : Type 0 where
  pub height : block.number ≡ (parent.number + 1) % 2 ^ 64
  pub own_branch : block.branch.value ≡ env.branch.value
  pub not_too_far : block.time ≤ (env.now + 15) % 2 ^ 64
  pub later : parent.time < block.time
  pub meta : block.meta_hash ≡ block.computed_meta_hash
  pub short_extra : length block.extra ≤ env.extra_data_size_limit
  pub gas : block.gas_limit ≡ env.gas_limit
  pub xshard_gas : block.xshard_gas_limit ≡ env.xshard_gas_limit
  pub room : block.xshard_gas_limit < block.gas_limit
  pub transactions : env.merkle_root block.transactions ≡ block.tx_hash
  pub miner : is_in_branch env.branch block.coinbase_full_shard_key ≡ true

leb→lt : (a b : ℕ) → leb a b ≡ false → b < a
leb→lt a b h = ground arith

check_fields-ExtendsParent :
    (env : MinorEnv) (parent block : MinorBlock)
    → check_fields env parent block ≡ ok tt
    → ExtendsParent env parent block
unfolding check_fields
check_fields-ExtendsParent env parent block e =
    let (height, e₁) =
      fail_if-ok (not (block.number == (parent.number + 1) % 2 ^ 64)) height_mismatch _ e in
    let (branch, e₂) = fail_if-ok (not (block.branch.value == env.branch.value)) bad_branch _ e₁ in
    let (future, e₃) =
      fail_if-ok (ltb ((env.now + 15) % 2 ^ 64) block.time) too_far_in_future _ e₂ in
    let (time, e₄) = fail_if-ok (leb block.time parent.time) bad_time _ e₃ in
    let (meta, e₅) =
      fail_if-ok (not (block.meta_hash == block.computed_meta_hash)) bad_meta_hash _ e₄ in
    let (extra, e₆) =
      fail_if-ok (ltb env.extra_data_size_limit (length block.extra)) extra_limit _ e₅ in
    let (gas, e₇) = fail_if-ok (not (block.gas_limit == env.gas_limit)) bad_gas_limit _ e₆ in
    let (room, e₈) =
      fail_if-ok (leb block.gas_limit block.xshard_gas_limit) big_xshard_gas_limit _ e₇ in
    let (xshard, e₉) =
      fail_if-ok (not (block.xshard_gas_limit == env.xshard_gas_limit)) bad_xshard_gas_limit _ e₈ in
    let (txs, e₁₀) =
      fail_if-ok (not (env.merkle_root block.transactions == block.tx_hash)) bad_tx_hash _ e₉ in
    record {
      height = same_of_not _ _ height;
      own_branch = same_of_not _ _ branch;
      not_too_far = ltb→le _ _ future;
      later = leb→lt _ _ time;
      meta = same_of_not _ _ meta;
      short_extra = ltb→le _ _ extra;
      gas = same_of_not _ _ gas;
      xshard_gas = same_of_not _ _ xshard;
      room = leb→lt _ _ room;
      transactions = same_of_not _ _ txs;
      miner = true_of_not _ (
          (passes_iff (not (is_in_branch env.branch block.coinbase_full_shard_key)) bad_miner_key).0
            e₁₀);
    }

find_parent-eq :
    (env : MinorEnv) (block parent : MinorBlock)
    → find_parent env block ≡ ok parent
    → (env.get_block block.parent_hash ≡ some parent)
      × (env.has_block_and_state block.parent_hash ≡ true)
unfolding find_parent
find_parent-eq env block parent e =
    let (known, e₁) =
      fail_if-ok
        (not (env.has_block_and_state block.parent_hash) && not (env.has_block block.parent_hash))
        unknown_ancestor _ e in
    let (kept, e₂) =
      fail_if-ok (not (env.has_block_and_state block.parent_hash)) pruned_ancestor _ e₁ in
    (of_block (env.get_block block.parent_hash) e₂, true_of_not _ kept)
  where
    of_block :
        (o : Option MinorBlock)
        → ◌≡◌ {A = Result MinorError MinorBlock}
            (elim o [ none ↦ err invalid_minor_block | some parent' ↦ ok parent' ])
            (ok parent)
        → o ≡ some parent
    of_block none e = cc
    of_block (some parent') e = let same : parent' ≡ parent = cc in ap some same

check_root_order-le :
    (root parent_root : Option RootHeader)
    → check_root_order root parent_root ≡ ok tt
    → (r : RootHeader) × (p : RootHeader) × (root ≡ some r)
      × (parent_root ≡ some p)
      × (p.number ≤ r.number)
unfolding check_root_order
check_root_order-le none parent_root e = cc
check_root_order-le (some r) none e = cc
check_root_order-le (some r) (some p) e =
    (r, p, refl, refl, ltb→le _ _ ((passes_iff (ltb r.number p.number) root_block_order).0 e))

check_difficulty-eq :
    (env : MinorEnv) (parent block : MinorBlock)
    → check_difficulty env parent block ≡ ok tt
    → (env.skip_difficulty_check ≡ true)
      ⊎ (env.calc_difficulty block.time parent ≡ some block.difficulty)
unfolding check_difficulty
check_difficulty-eq env parent block e = elim (Bool-cases env.skip_difficulty_check) [
  | inl off ↦ inl off
  | inr on ↦ inr (calculated (env.calc_difficulty block.time parent) (rw on at e))
]
  where
    calculated :
        (o : Option ℕ)
        → ◌≡◌ {A = Result MinorError (Unit {0})}
            (elim o [
              | none ↦ err no_difficulty
              | some d ↦ fail_if (not (d == block.difficulty)) bad_difficulty
            ])
            (ok tt)
        → o ≡ some block.difficulty
    calculated none e = cc
    calculated (some d) e =
        ap some (same_of_not _ _ ((passes_iff (not (d == block.difficulty)) bad_difficulty).0 e))

crash_of-ok : (m : Result RootError Bool) (b : Bool) → crash_of m ≡ ok b → m ≡ ok b
crash_of-ok (ok a) b e = let same : a ≡ b = cc in ap ok same
crash_of-ok (err why) b e = cc

-- A block that a root block confirms last, if any, is an ancestor.
abbrev pub Confirms : MinorEnv → MinorBlock → Option Node → Type 0
Confirms env parent none = Unit {0}
Confirms env parent (some confirmed) = IsAncestor env.parent_hash_of (minor_node parent) confirmed

check_confirmed-Confirms :
    (env : MinorEnv) (parent : MinorBlock) (last : Option Node)
    → check_confirmed env parent last ≡ ok tt
    → Confirms env parent last
unfolding check_confirmed
check_confirmed-Confirms env parent none e = tt
check_confirmed-Confirms env parent (some confirmed) e =
    let (same, found, e₁) =
      >>=-eq-ok (crash_of _) (λ same. fail_if (not same) not_one_minor_chain) e in
    let is_true : same ≡ true = true_of_not _ ((passes_iff (not same) not_one_minor_chain).0 e₁) in
    is_same_chain-IsAncestor env.parent_hash_of (minor_node parent) confirmed
      (crash_of-ok _ true (found ∙ ap ok is_true))

otherwise :
    (b : Bool) (m : Result MinorError Bool) → (if b then ok false else m) ≡ ok true → m ≡ ok true
otherwise true m e = cc
otherwise false m e = e

is_same_root_chain-IsAncestor :
    (env : MinorEnv) (root parent_root : RootHeader)
    → is_same_root_chain env (some root) (some parent_root) ≡ ok true
    → IsAncestor (root_parent_of env) (root_node root) (root_node parent_root)
unfolding is_same_root_chain
is_same_root_chain-IsAncestor env root parent_root e =
    is_same_chain-IsAncestor (root_parent_of env) (root_node root) (root_node parent_root)
      (crash_of-ok _ true (otherwise (ltb root.number parent_root.number) _ e))

-- The difficulty that a seal must meet: the adjusted one where proof of staked work is on.
abbrev pub seal_difficulty : MinorEnv → MinorBlock → Option ℕ
seal_difficulty env block =
    if env.posw_enabled then env.adjusted_difficulty block else some block.difficulty

abbrev pub IsSealed : MinorEnv → MinorBlock → Type 0
IsSealed env block =
    (d : ℕ) × (seal_difficulty env block ≡ some d) × (env.verify_seal block d ≡ true)

validate_minor_seal-IsSealed :
    (env : MinorEnv) (block : MinorBlock)
    → 1 ≤ block.number
    → validate_minor_seal env block env.posw_enabled ≡ ok tt
    → IsSealed env block
unfolding validate_minor_seal
validate_minor_seal-IsSealed env block above e =
    let not_genesis : (block.number == 0) ≡ false = positive block.number above in
    elim (Bool-cases env.posw_enabled) [
      | inl on ↦ rw on (adjusted (env.adjusted_difficulty block) (rw (not_genesis, on) at e))
      | inr off ↦ rw off (block.difficulty, refl, verified (rw (not_genesis, off) at e))
    ]
  where
    positive : (n : ℕ) → 1 ≤ n → (n == 0) ≡ false
    positive n h = ground arith

    verified :
        {d : ℕ}
        → fail_if (not (env.verify_seal block d)) bad_seal ≡ ok tt
        → env.verify_seal block d ≡ true
    verified {d} e = true_of_not _ ((passes_iff (not (env.verify_seal block d)) bad_seal).0 e)

    adjusted :
        (o : Option ℕ)
        → ◌≡◌ {A = Result MinorError (Unit {0})}
            (elim o [
              | none ↦ err no_adjusted_difficulty
              | some d ↦ fail_if (not (env.verify_seal block d)) bad_seal
            ])
            (ok tt)
        → (d : ℕ) × (o ≡ some d) × (env.verify_seal block d ≡ true)
    adjusted none e = cc
    adjusted (some d) e =
        (d, refl, true_of_not _ ((passes_iff (not (env.verify_seal block d)) bad_seal).0 e))

-- An accepted minor block.
pub record IsAcceptedMinor (env : MinorEnv) (block : MinorBlock) : Type 0 where
  pub header : env.verify_header block ≡ true
  pub version : block.version ≡ 0
  pub not_genesis : 1 ≤ block.number
  pub parent : MinorBlock
  pub parent_is : env.get_block block.parent_hash ≡ some parent
  pub parent_has_state : env.has_block_and_state block.parent_hash ≡ true
  pub extends_parent : ExtendsParent env parent block
  pub difficulty :
      (env.skip_difficulty_check ≡ true)
      ⊎ (env.calc_difficulty block.time parent ≡ some block.difficulty)
  pub root : RootHeader
  pub root_is : env.get_root_block block.prev_root_block_hash ≡ some root
  pub parent_root : RootHeader
  pub parent_root_is : env.get_root_block parent.prev_root_block_hash ≡ some parent_root
  pub root_order : parent_root.number ≤ root.number
  pub one_root_chain : IsAncestor (root_parent_of env) (root_node root) (root_node parent_root)
  pub confirmed : Confirms env parent (env.last_confirmed_at block.prev_root_block_hash)
  pub seal : (env.disable_pow_check ≡ true) ⊎ IsSealed env block

-- A minor block that `ValidateBlock` accepts has a header that verifies, the version 0 and a height of
-- at least 1, and extends a known parent that has its state: the next height, the branch of the
-- chain, a later time that is at most 15 seconds ahead, the right meta hash, gas limits and
-- transaction root, a short enough extra field, and a miner in the branch. Its difficulty is the one
-- calculated from its time and parent, unless that check is off. The root block it points to is
-- known, and the root block of its parent stands as many parents before it as it is lower. The minor
-- block that this root block confirms last, if any, stands as many parents before the block's parent
-- as it is lower. Its seal verifies for its own difficulty, or for the adjusted one where proof of
-- staked work is on, unless the check of seals is off.
pub validate_minor_block-IsAcceptedMinor :
    (env : MinorEnv) (block : MinorBlock) (force : Bool)
    → validate_minor_block env block force ≡ ok tt
    → IsAcceptedMinor env block
unfolding validate_minor_block
validate_minor_block-IsAcceptedMinor env block force e =
    let (header, e₁) = fail_if-ok (not (env.verify_header block)) bad_header _ e in
    let (version, e₂) = fail_if-ok (not (block.version == 0)) bad_version _ e₁ in
    let (height, e₃) = fail_if-ok (ltb block.number 1) bad_height _ e₂ in
    let (_, e₄) = fail_if-ok (env.has_block_and_state block.hash && not force) known_block _ e₃ in
    let (parent, found, e₅) = >>=-eq-ok (find_parent env block) _ e₄ in
    let (parent_is, has_state) = find_parent-eq env block parent found in
    let root = env.get_root_block block.prev_root_block_hash in
    let parent_root = env.get_root_block parent.prev_root_block_hash in
    let (_, fields, e₆) = >>=-eq-ok (check_fields env parent block) _ e₅ in
    let (_, difficulty, e₇) = >>=-eq-ok (check_difficulty env parent block) _ e₆ in
    let (_, ordered, e₈) = >>=-eq-ok (check_root_order root parent_root) _ e₇ in
    let (_, confirmed, e₉) =
      >>=-eq-ok (check_confirmed env parent (env.last_confirmed_at block.prev_root_block_hash)) _
        e₈ in
    let (same, is_same, e₁₀) = >>=-eq-ok (is_same_root_chain env root parent_root) _ e₉ in
    let (is_true, e₁₁) = fail_if-ok (not same) not_one_root_chain _ e₁₀ in
    let (r, p, root_is, parent_root_is, le) = check_root_order-le root parent_root ordered in
    record {
      header = true_of_not _ header;
      version = same_of_not _ _ version;
      not_genesis = ltb→le _ _ height;
      parent = parent;
      parent_is = parent_is;
      parent_has_state = has_state;
      extends_parent = check_fields-ExtendsParent env parent block fields;
      difficulty = check_difficulty-eq env parent block difficulty;
      root = r;
      root_is = root_is;
      parent_root = p;
      parent_root_is = parent_root_is;
      root_order = le;
      one_root_chain = is_same_root_chain-IsAncestor env r p (
          ap₂ (is_same_root_chain env) (sym root_is) (sym parent_root_is)
          ∙ is_same
          ∙ ap ok (true_of_not _ is_true));
      confirmed = check_confirmed-Confirms env parent _ confirmed;
      seal = elim (Bool-cases env.disable_pow_check) [
        | inl off ↦ inl off
        | inr on ↦ inr (validate_minor_seal-IsSealed env block (ltb→le _ _ height) (rw on at e₁₁))
      ];
    }
