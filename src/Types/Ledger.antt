-- ===== src/Types/Ledger.antt =====
-- core/types/token.go: TokenBalances against a table of amounts by token.
use goquarkchain.Prelude.{
  ℕ, zero, suc, ◌<◌, ◌^◌, ◌≡◌, ◌≢◌, ◌⊎◌, inl, inr, refl, sym, ap, ◌∙◌, subst, Bool, true, false,
  not, ◌&&◌, Option, none, some, List, [], ◌∷◌, All, length, drop, replicate, ◌==◌, ==_iff,
  Bool-cases, Option-cases, Result, ok, ◌>>=◌, arith, drop-length-append,
}
use goquarkchain.Prelude.Int.{ℤ, pos, ltb_ℤ, pos_part}
use goquarkchain.Prelude.Bytes.{be_bytes, from_be, from_be-be_bytes}
use goquarkchain.Types.Entries.{
  Ledger, with_amount, lookup_entry-All, All-remove_entry, lookup_entry-put_entry-none,
}
use goquarkchain.Types.TokenBalances.{
  BalanceError, TrieOps, TokenBalances, lookup_entry, put_entry, encode_to_byte32, set_value,
  stored_balance, balance_in, get_token_balance, write_balance, write_balances, trie_or_new, commit,
  not_using_trie, is_nil,
}

-- What is asked of the balances.
pub data Op : Type 0 where
  read : ℕ → Op
  write : ℕ → ℕ → Op
  flush : Op

abbrev pub IsWordOp : Op → Type 0
IsWordOp (read id) = id < 2 ^ 64
IsWordOp (write amount id) = id < 2 ^ 64
IsWordOp flush = Unit {0}

-- The amounts that the table answers, and the table after it.
abbrev pub spec : List Op → Ledger → List ℤ × Ledger
spec [] f = ([], f)
spec (read id ∷ ops) f = let (answers, f') = spec ops f in (pos (f id) ∷ answers, f')
spec (write amount id ∷ ops) f = spec ops (with_amount id amount f)
spec (flush ∷ ops) f = spec ops f

-- What go-ethereum says of its trie and of RLP.
pub record IsTrie {Trie : Type 0} (ops : TrieOps Trie) : Type 0 where
  pub empty : (k : List ℕ) → ops.get ops.new_secure k ≡ []
  pub updated : (t : Trie) (k v : List ℕ) → ops.get (ops.update t k v) k ≡ v
  pub update_other :
      (t : Trie) (k k' v : List ℕ) → k ≢ k' → ops.get (ops.update t k v) k' ≡ ops.get t k'
  pub deleted : (t : Trie) (k : List ℕ) → ops.get (ops.delete t k) k ≡ []
  pub delete_other :
      (t : Trie) (k k' : List ℕ) → k ≢ k' → ops.get (ops.delete t k) k' ≡ ops.get t k'
  pub committed : (t : Trie) (k : List ℕ) → ops.get (ops.commit t) k ≡ ops.get t k
  pub decoded : (n : ℕ) → ops.rlp_decode (ops.rlp_encode n) ≡ some n
  pub encoded : (n : ℕ) → (length (ops.rlp_encode n) == 0) ≡ false

encode_to_byte32-injective :
    (a b : ℕ) → a < 2 ^ 64 → b < 2 ^ 64 → encode_to_byte32 a ≡ encode_to_byte32 b → a ≡ b
unfolding encode_to_byte32
encode_to_byte32-injective a b ha hb e =
    sym (from_be-be_bytes 8 a ha) ∙ ap (from_be 0) tails ∙ from_be-be_bytes 8 b hb
  where
    zeros : List ℕ
    zeros = replicate 24 0

    tails : be_bytes 8 a ≡ be_bytes 8 b
    tails =
        sym (drop-length-append zeros (be_bytes 8 a))
        ∙ ap (drop (length zeros)) e
        ∙ drop-length-append zeros (be_bytes 8 b)

module _ {Trie : Type 0} (ops : TrieOps Trie) where
  -- The trie says `n` of a token.
  abbrev pub Holds : Trie → ℕ → ℕ → Type 0
  Holds trie id n =
      ((stored_balance ops trie id ≡ ok none) × (n ≡ 0))
      ⊎ (stored_balance ops trie id ≡ ok (some (pos n)))

  abbrev pub MayHold : Option Trie → ℕ → ℕ → Type 0
  MayHold none id n = n ≡ 0
  MayHold (some trie) id n = Holds trie id n

  abbrev pub IsEntry : Ledger → ℕ × ℤ → Type 0
  IsEntry f (k, v) = (v ≡ pos (f k)) × (k < 2 ^ 64)

  -- The balances stand for a table: each entry has its amount, and the trie has the others.
  pub record StandsFor (t : TokenBalances Trie) (f : Ledger) : Type 0 where
    pub cached : All (IsEntry f) t.balances
    pub stored :
        (id : ℕ) → id < 2 ^ 64 → lookup_entry id t.balances ≡ none → MayHold t.token_trie id (f id)

  pub put_entry-StandsFor :
      (t : TokenBalances Trie) (f : Ledger) (id amount : ℕ)
      → id < 2 ^ 64
      → StandsFor t f
      → StandsFor
          (record t { balances = put_entry id (pos amount) t.balances })
          (with_amount id amount f)
  unfolding put_entry
  put_entry-StandsFor t f id amount word h = record {
    cached = (
      (rw ((==_iff id id).1 refl) refl, word),
      All-remove_entry (IsEntry f) (IsEntry (with_amount id amount f)) id t.balances
          (λ k v other (e, w). let back : (k == id) ≡ false = ground arith in (rw back e, w))
          h.cached,
    );
    stored = λ k w e.
        let (other, before) = lookup_entry-put_entry-none id k (pos amount) t.balances e in
        subst (MayHold t.token_trie k) (sym (rw other refl)) (h.stored k w before);
  }

  -- The trie after a balance is written.
  module _ (laws : IsTrie ops) where
    Holds-bytes :
        (trie : Trie) (id n : ℕ) (bytes : List ℕ)
        → ops.get trie (encode_to_byte32 id) ≡ bytes
        → ((bytes ≡ []) × (n ≡ 0)) ⊎ (bytes ≡ ops.rlp_encode n)
        → Holds trie id n
    unfolding stored_balance
    Holds-bytes trie id n bytes e (inl (none_there, z)) = inl (rw (e ∙ none_there) refl, z)
    Holds-bytes trie id n bytes e (inr there) =
        inr (rw (e ∙ there) (rw (laws.encoded n, laws.decoded n) refl))

    write_balance-Holds : (trie : Trie) (id n : ℕ) → Holds (write_balance ops id (pos n) trie) id n
    unfolding write_balance
    write_balance-Holds trie id zero =
        Holds-bytes (ops.delete trie (encode_to_byte32 id)) id 0 []
          (laws.deleted trie (encode_to_byte32 id)) (inl (refl, refl))
    write_balance-Holds trie id (suc n) = rw (positive n) (
        Holds-bytes (ops.update trie (encode_to_byte32 id) (ops.rlp_encode (suc n))) id (suc n)
          (ops.rlp_encode (suc n))
          (laws.updated trie (encode_to_byte32 id) (ops.rlp_encode (suc n))) (inr refl))
      where
        positive : (n : ℕ) → ltb_ℤ (pos 0) (pos (suc n)) ≡ true
        positive n = ground arith

    write_balance-get :
        (trie : Trie) (id k : ℕ) (v : ℤ)
        → id < 2 ^ 64
        → k < 2 ^ 64
        → (id == k) ≡ false
        → ops.get (write_balance ops id v trie) (encode_to_byte32 k)
          ≡ ops.get trie (encode_to_byte32 k)
    unfolding write_balance
    write_balance-get trie id k v hi hk apart = elim (Bool-cases (ltb_ℤ (pos 0) v)) [
      | inl up ↦ rw up (
          laws.update_other trie (encode_to_byte32 id) (encode_to_byte32 k)
            (ops.rlp_encode (pos_part v)) keys)
      | inr down ↦ rw down (laws.delete_other trie (encode_to_byte32 id) (encode_to_byte32 k) keys)
    ]
      where
        keys : encode_to_byte32 id ≢ encode_to_byte32 k
        keys e =
            let same : id ≡ k = encode_to_byte32-injective id k hi hk e in
            cc (apart, (==_iff id k).1 same)

    Holds-get :
        (trie trie' : Trie) (id n : ℕ)
        → ops.get trie' (encode_to_byte32 id) ≡ ops.get trie (encode_to_byte32 id)
        → Holds trie id n
        → Holds trie' id n
    unfolding stored_balance
    Holds-get trie trie' id n e h = rw e h

    -- Entries that have the amounts of a table bring them into the trie, and keep what it has.
    write_balances-Holds :
        (f : Ledger) (entries : List (ℕ × ℤ)) (trie : Trie) (k : ℕ)
        → k < 2 ^ 64
        → All (IsEntry f) entries
        → (lookup_entry k entries ≡ none → Holds trie k (f k))
        → Holds (write_balances ops entries trie) k (f k)
    unfolding write_balances lookup_entry
    write_balances-Holds f [] trie k w h start = start refl
    write_balances-Holds f ((j, v) ∷ entries) trie k w ((e, wj), hs) start =
        write_balances-Holds f entries (write_balance ops j v trie) k w hs (λ later.
          elim (Bool-cases (k == j)) [
            | inl same ↦
                let one : k ≡ j = (==_iff k j).0 same in
                subst (λ x. Holds (write_balance ops j x trie) k (f k)) (sym e)
                  (subst (λ x. Holds (write_balance ops j (pos (f j)) trie) x (f x)) (sym one)
                    (write_balance-Holds trie j (f j)))
            | inr other ↦
                let apart : (j == k) ≡ false = ground arith in
                Holds-get trie (write_balance ops j v trie) k (f k)
                  (write_balance-get trie j k v wj w apart) (start (rw other later))
          ])

    commit-StandsFor :
        (t : TokenBalances Trie) (f : Ledger)
        → t.has_db ≡ true
        → StandsFor t f
        → (t' : TokenBalances Trie) × (commit ops t ≡ ok t') × (t'.has_db ≡ true) × StandsFor t' f
    unfolding commit
    commit-StandsFor t f db h = elim (Bool-cases (not_using_trie t)) [
      | inl small ↦ (t, rw small refl, db, h)
      | inr large ↦ (
        record t { token_trie = some (ops.commit written); balances = [] },
        rw (large, connected (is_nil t.token_trie) db) refl,
        db,
        record {
          cached = tt;
          stored = λ k w e.
              Holds-get written (ops.commit written) k (f k)
                (laws.committed written (encode_to_byte32 k))
                (write_balances-Holds f t.balances (trie_or_new ops t.token_trie) k w h.cached
                  (λ before. from_option t.token_trie k (f k) (h.stored k w before)));
        },
      )
    ]
      where
        written : Trie
        written = write_balances ops t.balances (trie_or_new ops t.token_trie)

        connected : (b : Bool) → t.has_db ≡ true → (b && not t.has_db) ≡ false
        connected true e = rw e refl
        connected false e = refl

        from_option : (o : Option Trie) (k n : ℕ) → MayHold o k n → Holds (trie_or_new ops o) k n
        from_option none k n z =
            Holds-bytes ops.new_secure k n [] (laws.empty (encode_to_byte32 k)) (inl (refl, z))
        from_option (some trie) k n held = held

    -- What is read from the trie is cached.
    balance_in-StandsFor :
        (t : TokenBalances Trie) (f : Ledger) (id : ℕ)
        → id < 2 ^ 64
        → StandsFor t f
        → (o : Option Trie) → MayHold o id (f id)
        → (t' : TokenBalances Trie) × (balance_in ops o id t ≡ ok (pos (f id), t'))
          × (t'.has_db ≡ t.has_db)
          × StandsFor t' f
    unfolding balance_in
    balance_in-StandsFor t f id w h none z = (t, ap (λ n. ok (pos n, t)) (sym z), refl, h)
    balance_in-StandsFor t f id w h (some trie) (inl (miss, z)) =
        (t, rw miss (ap (λ n. ok (pos n, t)) (sym z)), refl, h)
    balance_in-StandsFor t f id w h (some trie) (inr hit) = (
      record t { balances = put_entry id (pos (f id)) t.balances },
      rw hit refl,
      refl,
      subst (StandsFor (record t { balances = put_entry id (pos (f id)) t.balances }))
          (λ i k. same k i) (put_entry-StandsFor t f id (f id) w h),
    )
      where
        same : (k : ℕ) → with_amount id (f id) f k ≡ f k
        same k = elim (Bool-cases (k == id)) [
          | inl e ↦ rw e (ap f (sym ((==_iff k id).0 e)))
          | inr e ↦ rw e refl
        ]

    -- Reading a token gives its amount, and leaves the table.
    get_token_balance-StandsFor :
        (t : TokenBalances Trie) (f : Ledger) (id : ℕ)
        → id < 2 ^ 64
        → StandsFor t f
        → (t' : TokenBalances Trie) × (get_token_balance ops id t ≡ ok (pos (f id), t'))
          × (t'.has_db ≡ t.has_db)
          × StandsFor t' f
    unfolding get_token_balance
    get_token_balance-StandsFor t f id w h = elim (Option-cases (lookup_entry id t.balances)) [
      | inr (v, e) ↦
          let (amount, word) = lookup_entry-All (IsEntry f) id v t.balances h.cached e in
          (t, rw (e, get_token_balance) (ap (λ x. ok (x, t)) amount), refl, h)
      | inl e ↦
          let (t', got, same, h') =
            balance_in-StandsFor t f id w h t.token_trie (h.stored id w e) in
          (t', rw (e, get_token_balance) got, same, h')
    ]

  -- The balances asked in turn: the amounts that are read, and the balances after it.
  unfoldable pub run_ops :
      List Op → TokenBalances Trie → Result BalanceError (List ℤ × TokenBalances Trie)
  unfolding get_token_balance set_value commit
  run_ops [] t = ok ([], t)
  run_ops (read id ∷ rest) t =
      get_token_balance ops id t
      >>= (λ (amount, t'). run_ops rest t' >>= (λ (answers, last). ok (amount ∷ answers, last)))
  run_ops (write amount id ∷ rest) t = set_value (pos amount) id t >>= (λ t'. run_ops rest t')
  run_ops (flush ∷ rest) t = commit ops t >>= (λ t'. run_ops rest t')

  -- Over a trie that keeps its laws, and balances that have a database and stand for a table of
  -- amounts, reading, setting
  -- and committing tokens of 64 bits in any order ends with no error, answers the amounts of the
  -- table, with each amount that was set since, and leaves balances that stand for the table then.
  pub run_ops-StandsFor :
      IsTrie ops
      → (asked : List Op) (t : TokenBalances Trie) (f : Ledger) → All IsWordOp asked
      → t.has_db ≡ true
      → StandsFor t f
      → (t' : TokenBalances Trie) × (run_ops asked t ≡ ok ((spec asked f).0, t'))
        × StandsFor t' (spec asked f).1
  unfolding run_ops set_value
  run_ops-StandsFor laws [] t f w db h = (t, refl, h)
  run_ops-StandsFor laws (read id ∷ rest) t f (w, ws) db h =
      let (t₁, e₁, kept, h₁) = get_token_balance-StandsFor laws t f id w h in
      let (t₂, e₂, h₂) = run_ops-StandsFor laws rest t₁ f ws (kept ∙ db) h₁ in
      (t₂, rw e₁ (rw e₂ refl), h₂)
  run_ops-StandsFor laws (write amount id ∷ rest) t f (w, ws) db h =
      let (t₂, e₂, h₂) =
        run_ops-StandsFor laws rest (record t { balances = put_entry id (pos amount) t.balances })
          (with_amount id amount f) ws db (put_entry-StandsFor t f id amount w h) in
      (t₂, rw (not_negative amount) e₂, h₂)
    where
      not_negative : (n : ℕ) → ltb_ℤ (pos n) (pos 0) ≡ false
      not_negative n = ground arith
  run_ops-StandsFor laws (flush ∷ rest) t f (w, ws) db h =
      let (t₁, e₁, db₁, h₁) = commit-StandsFor laws t f db h in
      let (t₂, e₂, h₂) = run_ops-StandsFor laws rest t₁ f ws db₁ h₁ in (t₂, rw e₁ e₂, h₂)
