-- ===== src/Core/RootAcceptance.antt =====
-- What it means that `ValidateBlock` of core/rootblock_validator.go accepts a root block.
use goquarkchain.Prelude.{
  ℕ, ◌+◌, ◌%◌, ◌^◌, ◌≤◌, ◌<◌, ◌≡◌, ◌≢◌, refl, sym, ap, ◌∙◌, subst, Bool, true, false, not, ◌&&◌,
  ◌||◌, Option, none, some, List, [], ◌∷◌, ◌++◌, length, All, ltb, ◌==◌, ==_iff, ltb→le, ok, err,
  ◌>>=◌, ◌>>◌, fail_if, fail_if-ok, >>=-eq-ok, same_of_not, true_of_not, arith,
}
use goquarkchain.Core.RootValidator.{
  MinorHeader, RootHeader, RootBlock, RootEnv, Groups, Latest, group_headers, member, breaks,
  is_missing, last_of, check_group, set_latest, check_groups, check_prev_roots, is_same_chain,
  root_node, check_root_header, check_coinbase, validate_block, too_many_blocks,
  uninitialized_shard, no_genesis, no_config, no_parent, no_root_block, bad_first_link, other_chain,
  unexpected_height, known_block, bad_header, bad_total_difficulty, too_much_tracking_data,
  bad_merkle_root, bad_state_root,
}
use goquarkchain.Core.RootGroups.{IsRun, IsGrouped, headers_of, IsAllowed, group_headers-IsGrouped}

-- The first header of a shard extends the shard's latest one, or is its genesis.
abbrev pub Continues : Option MinorHeader → MinorHeader → Type 0
Continues none h = h.number ≡ 0
Continues (some prev) h = ((prev.number + 1) % 2 ^ 64 ≡ h.number) × (prev.hash ≡ h.parent_hash)

-- The conditions on the headers of one shard.
pub record Fits (env : RootEnv) (initialized : List ℕ) (latest : Latest) (id : ℕ)
    (headers : List MinorHeader) : Type 0 where
  pub first : MinorHeader
  pub others : List MinorHeader
  pub headers_are : headers ≡ first ∷ others
  pub continues : Continues (latest id) first
  pub max_count : ℕ
  pub max_count_of : env.max_blocks id ≡ some max_count
  pub few : length headers % 2 ^ 32 ≤ max_count
  pub is_initialized : member id initialized ≡ true

-- The new latest headers: the last one of each group, and the old one of any other shard.
abbrev pub IsStored : Latest → Latest → Groups → Type 0
IsStored latest latest' groups =
    All (λ g. (p : MinorHeader) → IsRun g.0 g.1 p → latest' g.0 ≡ some p) groups
    × ((i : ℕ) → All (λ g. g.0 ≢ i) groups → latest' i ≡ latest i)

module _ (env : RootEnv) (initialized : List ℕ) where
  Continues-breaks :
      (latest : Option MinorHeader) (h : MinorHeader)
      → (is_missing latest && not (h.number == 0)) ≡ false
      → breaks latest h ≡ false
      → Continues latest h
  unfolding is_missing breaks
  Continues-breaks none h missing unbroken = same_of_not h.number 0 missing
  Continues-breaks (some prev) h missing unbroken =
      either_of ((prev.number + 1) % 2 ^ 64 == h.number) (prev.hash == h.parent_hash) unbroken
        ((==_iff _ _).0) ((==_iff _ _).0)
    where
      either_of :
          {P Q : Type 0} (a b : Bool)
          → (not a || not b) ≡ false
          → (a ≡ true → P)
          → (b ≡ true → Q)
          → P × Q
      either_of true true e p q = (p refl, q refl)
      either_of true false e p q = cc
      either_of false b e p q = cc

  check_group-Fits :
      (latest : Latest) (id : ℕ) (headers : List MinorHeader) (h : MinorHeader)
      → check_group env initialized latest id headers ≡ ok h
      → (fits : Fits env initialized latest id headers) × (last_of fits.first fits.others ≡ h)
  unfolding check_group
  check_group-Fits latest id [] h e = cc
  check_group-Fits latest id (first ∷ others) h e = of_max (env.max_blocks id) refl e
    where
      of_max :
          (o : Option ℕ)
          → env.max_blocks id ≡ o
          → (elim o [
            | none ↦ err no_config
            | some max_count ↦
                fail_if (ltb max_count (length (first ∷ others) % 2 ^ 32)) too_many_blocks
                >> (fail_if (not (member id initialized)) uninitialized_shard
                    >> (fail_if (is_missing (latest id) && not (first.number == 0)) no_genesis
                        >> (fail_if (breaks (latest id) first) bad_first_link
                            >> ok (last_of first others))))
          ])
            ≡ ok h
          → (fits : Fits env initialized latest id (first ∷ others)) × (last_of fits.first
                fits.others
              ≡ h)
      of_max none eq e = cc
      of_max (some max_count) eq e =
          let (few, e₁) =
            fail_if-ok (ltb max_count (length (first ∷ others) % 2 ^ 32)) too_many_blocks _ e in
          let (known, e₂) = fail_if-ok (not (member id initialized)) uninitialized_shard _ e₁ in
          let (begun, e₃) =
            fail_if-ok (is_missing (latest id) && not (first.number == 0)) no_genesis _ e₂ in
          let (unbroken, e₄) = fail_if-ok (breaks (latest id) first) bad_first_link _ e₃ in
          (
            record {
              first = first;
              others = others;
              headers_are = refl;
              continues = Continues-breaks (latest id) first begun unbroken;
              max_count = max_count;
              max_count_of = eq;
              few = ltb→le _ _ few;
              is_initialized = true_of_not _ known;
            },
            cc,
          )

  last_of-snoc :
      (f : MinorHeader) (headers : List MinorHeader) (h : MinorHeader)
      → last_of f (headers ++ (h ∷ [])) ≡ h
  last_of-snoc f [] h = refl
  last_of-snoc f (x ∷ headers) h = last_of-snoc x headers h

  last_of-IsRun :
      (id : ℕ) (headers : List MinorHeader) (p f : MinorHeader) (others : List MinorHeader)
      → IsRun id headers p
      → headers ≡ f ∷ others
      → last_of f others ≡ p
  last_of-IsRun id headers p f others (IsRun.one h same) e =
      let a : h ≡ f = cc in let b : [] ≡ others = cc in subst (λ l. last_of f l ≡ h) b (sym a)
  last_of-IsRun id headers p f others (IsRun.more before q h run same ext) e = snoc before h e
    where
      snoc :
          (before : List MinorHeader) (h : MinorHeader)
          → before ++ (h ∷ []) ≡ f ∷ others
          → last_of f others ≡ h
      snoc [] h e =
          let a : h ≡ f = cc in let b : [] ≡ others = cc in subst (λ l. last_of f l ≡ h) b (sym a)
      snoc (x ∷ before) h e =
          let b : before ++ (h ∷ []) ≡ others = cc in
          subst (λ l. last_of f l ≡ h) b (last_of-snoc f before h)

  All-map :
      {A : Type 0} (P Q : A → Type 0) (f : (a : A) → P a → Q a) (xs : List A) → All P xs → All Q xs
  All-map P Q f [] all = tt
  All-map P Q f (x ∷ xs) (h, hs) = (f x h, All-map P Q f xs hs)

  All-both :
      {A : Type 0} (P Q : A → Type 0) (xs : List A) → All P xs → All Q xs → All (λ a. P a × Q a) xs
  All-both P Q [] all all' = tt
  All-both P Q (x ∷ xs) (h, hs) (h', hs') = ((h, h'), All-both P Q xs hs hs')

  set_latest_same :
      (latest : Latest) (id : ℕ) (h : MinorHeader) → set_latest latest id h id ≡ some h
  unfolding set_latest
  set_latest_same latest id h = let same : (id == id) ≡ true = ground arith in rw same refl

  set_latest_other :
      (latest : Latest) (id i : ℕ) (h : MinorHeader) → id ≢ i → set_latest latest id h i ≡ latest i
  unfolding set_latest
  set_latest_other latest id i h other =
      let apart : (i == id) ≡ false = ground arith in rw apart refl

  Fits-same :
      (latest latest₀ : Latest) (id : ℕ) (headers : List MinorHeader)
      → latest id ≡ latest₀ id
      → Fits env initialized latest id headers
      → Fits env initialized latest₀ id headers
  Fits-same latest latest₀ id headers same fits = record {
    first = fits.first;
    others = fits.others;
    headers_are = fits.headers_are;
    continues = subst (λ o. Continues o fits.first) same fits.continues;
    max_count = fits.max_count;
    max_count_of = fits.max_count_of;
    few = fits.few;
    is_initialized = fits.is_initialized;
  }

  check_groups-Fits :
      (latest₀ latest : Latest) (groups : Groups) (latest' : Latest)
      → IsGrouped groups
      → All (λ g. latest g.0 ≡ latest₀ g.0) groups
      → check_groups env initialized latest groups ≡ ok latest'
      → All (λ g. Fits env initialized latest₀ g.0 g.1) groups × IsStored latest latest' groups
  unfolding check_groups
  check_groups-Fits latest₀ latest [] latest' grouped agree e =
      let same : latest ≡ latest' = cc in (tt, (tt, λ i none_of. ap (λ l. l i) (sym same)))
  check_groups-Fits latest₀ latest ((id, headers) ∷ groups) latest' ((p, run), below, grouped)
        (agree, agrees) e =
      let (h, checked, e') =
        >>=-eq-ok (check_group env initialized latest id headers)
          (λ h. check_groups env initialized (set_latest latest id h) groups) e in
      let (fits, is_last) = check_group-Fits latest id headers h checked in
      let agrees' =
        All-map (λ g. (g.0 < id) × (latest g.0 ≡ latest₀ g.0))
          (λ g. set_latest latest id h g.0 ≡ latest₀ g.0)
          (λ g (lt, same).
            set_latest_other latest id g.0 h (λ q. absurd (omega (arith, q, lt))) ∙ same)
          groups (All-both (λ g. g.0 < id) (λ g. latest g.0 ≡ latest₀ g.0) groups below agrees) in
      let (all, (stored, kept)) =
        check_groups-Fits latest₀ (set_latest latest id h) groups latest' grouped agrees' e' in
      let apart =
        All-map (λ g. g.0 < id) (λ g. g.0 ≢ id) (λ g lt q. absurd (omega (arith, q, lt))) groups
          below in
      (
        (Fits-same latest latest₀ id headers agree fits, all),
        (
          (
            λ q run'.
                kept id apart
                ∙ set_latest_same latest id h
                ∙ ap (λ t. some t)
                    (sym is_last
                      ∙ last_of-IsRun id headers q fits.first fits.others run' fits.headers_are),
            stored,
          ),
          λ i (other, others). kept i others ∙ set_latest_other latest id i h other,
        ),
      )

-- A header points to a root block of the chain below the new one.
abbrev pub PointsBack : RootEnv → RootHeader → MinorHeader → Type 0
PointsBack env root h =
    (prev : RootHeader) × (env.get_block h.prev_root_block_hash ≡ some prev)
    × (is_same_chain env.parent_hash_of (root_node root) (root_node prev) ≡ ok true)

check_prev_roots-PointsBack :
    (env : RootEnv) (root : RootHeader) (headers : List MinorHeader)
    → check_prev_roots env root headers ≡ ok tt
    → All (PointsBack env root) headers
unfolding check_prev_roots
check_prev_roots-PointsBack env root [] e = tt
check_prev_roots-PointsBack env root (h ∷ headers) e =
    of_prev (env.get_block h.prev_root_block_hash) refl e
      (check_prev_roots-PointsBack env root headers)
  where
    of_prev :
        (o : Option RootHeader)
        → env.get_block h.prev_root_block_hash ≡ o
        → (elim o [
          | none ↦ err no_root_block
          | some prev ↦
              is_same_chain env.parent_hash_of (root_node root) (root_node prev)
              >>= (λ same. fail_if (not same) other_chain >> check_prev_roots env root headers)
        ])
          ≡ ok tt
        → (check_prev_roots env root headers ≡ ok tt → All (PointsBack env root) headers)
        → All (PointsBack env root) (h ∷ headers)
    of_prev none eq e rec = cc
    of_prev (some prev) eq e rec =
        let (same, is_same, e₁) =
          >>=-eq-ok (is_same_chain env.parent_hash_of (root_node root) (root_node prev))
            (λ same. fail_if (not same) other_chain >> check_prev_roots env root headers) e in
        let (is_true, e₂) =
          fail_if-ok (not same) other_chain (check_prev_roots env root headers) e₁ in
        ((prev, eq, is_same ∙ ap ok (true_of_not _ is_true)), rec e₂)

-- What the checks on the header and its parent come to.
pub record IsRootHeader (env : RootEnv) (block : RootBlock) : Type 0 where
  pub positive : 1 ≤ block.header.number
  pub verified : env.verify_header block.header ≡ true
  pub parent : RootHeader
  pub parent_of : env.get_block block.header.parent_hash ≡ some parent
  pub total : block.header.difficulty + parent.total_difficulty ≡ block.header.total_difficulty
  pub merkle : env.merkle_root block.minor_block_headers ≡ block.header.minor_header_hash
  pub coinbase_checked : check_coinbase env block ≡ ok tt

check_root_header-IsRootHeader :
    (env : RootEnv) (block : RootBlock) (force : Bool)
    → check_root_header env block force ≡ ok tt
    → IsRootHeader env block
unfolding check_root_header
check_root_header-IsRootHeader env block force e =
    let (high, e₁) = fail_if-ok (ltb block.header.number 1) unexpected_height _ e in
    let (fresh, e₂) = fail_if-ok (env.has_block block.header.hash && not force) known_block _ e₁ in
    let (verified, e₃) = fail_if-ok (not (env.verify_header block.header)) bad_header _ e₂ in
    of_parent (ltb→le _ _ high) (true_of_not _ verified) (env.get_block block.header.parent_hash)
      refl e₃
  where
    of_parent :
        1 ≤ block.header.number
        → env.verify_header block.header ≡ true
        → (o : Option RootHeader) → env.get_block block.header.parent_hash ≡ o
        → (elim o [
          | none ↦ err no_parent
          | some parent ↦
              fail_if
                (not (
                  block.header.difficulty + parent.total_difficulty
                  == block.header.total_difficulty))
                bad_total_difficulty
              >> (fail_if
                    (ltb env.extra_data_size_limit (length block.tracking_data % 2 ^ 32))
                    too_much_tracking_data
                  >> (fail_if
                        (not (
                          env.merkle_root block.minor_block_headers
                          == block.header.minor_header_hash))
                        bad_merkle_root
                      >> (fail_if (not (block.header.root == env.empty_trie_hash)) bad_state_root
                          >> check_coinbase env block)))
        ])
          ≡ ok tt
        → IsRootHeader env block
    of_parent positive verified none eq e = cc
    of_parent positive verified (some parent) eq e =
        let (total, e₁) =
          fail_if-ok
            (not
              (block.header.difficulty + parent.total_difficulty == block.header.total_difficulty))
            bad_total_difficulty _ e in
        let (small, e₂) =
          fail_if-ok (ltb env.extra_data_size_limit (length block.tracking_data % 2 ^ 32))
            too_much_tracking_data _ e₁ in
        let (merkle, e₃) =
          fail_if-ok
            (not (env.merkle_root block.minor_block_headers == block.header.minor_header_hash))
            bad_merkle_root _ e₂ in
        let (root, e₄) =
          fail_if-ok (not (block.header.root == env.empty_trie_hash)) bad_state_root _ e₃ in
        record {
          positive = positive;
          verified = verified;
          parent = parent;
          parent_of = eq;
          total = same_of_not _ _ total;
          merkle = same_of_not _ _ merkle;
          coinbase_checked = e₄;
        }

-- What an accepted block is, with the latest headers that are stored for it.
pub record IsAccepted (env : RootEnv) (block : RootBlock) (latest' : Latest) : Type 0 where
  pub header : IsRootHeader env block
  pub groups : Groups
  pub grouped : IsGrouped groups
  pub all_headers : headers_of groups ≡ block.minor_block_headers
  pub allowed : All (IsAllowed env.contains_minor block.header.time) block.minor_block_headers
  pub points_back : All (PointsBack env block.header) block.minor_block_headers
  pub fit :
      All
        (λ g.
          Fits env
            (env.initialized_before block.header.number)
            (env.latest_minor_headers block.header.parent_hash)
            g.0
            g.1)
        groups
  pub stored : IsStored (env.latest_minor_headers block.header.parent_hash) latest' groups

-- A root block that `ValidateBlock` accepts is at a height of at least 1, on a known parent whose
-- total difficulty it extends, under its Merkle root; its minor block headers are, in their order,
-- runs of linked blocks of growing shard ids. Every header is of a validated minor block, no later
-- than the block, and points to a root block of the same chain. The run of each shard is within the
-- shard's maximum, the shard is initialized before this height, and the run extends the shard's
-- latest header or begins with its genesis. The stored latest headers are the last ones of the runs,
-- and those of the parent for the other shards.
pub validate_block-IsAccepted :
    (env : RootEnv) (block : RootBlock) (force : Bool) (latest' : Latest)
    → validate_block env block force ≡ ok latest'
    → IsAccepted env block latest'
unfolding validate_block
validate_block-IsAccepted env block force latest' e =
    let initialized = env.initialized_before block.header.number in
    let latest = env.latest_minor_headers block.header.parent_hash in
    let (_, checked, e₁) = >>=-eq-ok (check_root_header env block force) _ e in
    let (groups, is_groups, e₂) =
      >>=-eq-ok
        (group_headers env.contains_minor block.header.time 0 none [] block.minor_block_headers) _
        e₁ in
    let (_, backed, e₃) =
      >>=-eq-ok (check_prev_roots env block.header block.minor_block_headers) _ e₂ in
    let (grouped, all, allowed) =
      group_headers-IsGrouped env.contains_minor block.header.time 0 none []
        block.minor_block_headers groups refl is_groups in
    let (fit, stored) =
      check_groups-Fits env initialized latest latest groups latest' grouped (agree latest groups)
        e₃ in
    record {
      header = check_root_header-IsRootHeader env block force checked;
      groups = groups;
      grouped = grouped;
      all_headers = all;
      allowed = allowed;
      points_back = check_prev_roots-PointsBack env block.header block.minor_block_headers backed;
      fit = fit;
      stored = stored;
    }
  where
    agree : (latest : Latest) (groups : Groups) → All (λ g. latest g.0 ≡ latest g.0) groups
    agree latest [] = tt
    agree latest (g ∷ groups) = (refl, agree latest groups)
