-- ===== src/Consensus/Window.antt =====
-- consensus/posw/posw.go: the cache of windows never changes the answer.
use goquarkchain.Prelude.{
  ℕ, zero, suc, ◌-◌, ◌≤◌, ◌<◌, ◌≡◌, ◌⊎◌, inl, inr, refl, sym, ap, ◌∙◌, true, false, Option, none,
  some, ◌==◌, ==_iff, List, [], ◌∷◌, ◌++◌, take, drop, length, length-reverse, Result, ok, err,
  ◌>>=◌, >>=-eq-ok, arith, Bool-cases, Option-cases,
}
use mathlib.Core.List.{reverse, reverse-cons}
use goquarkchain.Consensus.Boost.{PoswConfig}
use goquarkchain.Consensus.Posw.{
  PoswError, block_not_found, Block, HeightAndAddrs, CacheOps, walk, slide, window_of,
  get_coinbase_address_until_block,
}

take-short : (n : ℕ) (w : List ℕ) → length w ≤ n → take n w ≡ w
take-short zero [] h = refl
take-short zero (x ∷ w) h = absurd (omega arith)
take-short (suc n) [] h = refl
take-short (suc n) (x ∷ w) h = ap (λ t. x ∷ t) (take-short n w (omega arith))

drop_one-append : (l r : List ℕ) → 1 ≤ length l → drop 1 (l ++ r) ≡ drop 1 l ++ r
drop_one-append [] r h = absurd (omega arith)
drop_one-append (x ∷ l) r h = refl

-- Dropping the oldest of a reversed window is taking one block less.
drop_one-reverse : (n : ℕ) (w : List ℕ) → length w ≡ suc n → drop 1 (reverse w) ≡ reverse (take n w)
drop_one-reverse zero [] h = absurd (omega arith)
drop_one-reverse zero (x ∷ []) h = refl
drop_one-reverse zero (x ∷ y ∷ w) h = absurd (omega arith)
drop_one-reverse (suc n) [] h = absurd (omega arith)
drop_one-reverse (suc n) (x ∷ w) h =
    ap (drop 1) (reverse-cons x w)
    ∙ drop_one-append (reverse w) (x ∷ []) (omega (arith, length-reverse w))
    ∙ ap (λ t. t ++ (x ∷ [])) (drop_one-reverse n w (omega arith))
    ∙ sym (reverse-cons x (take n w))

below : (m n : ℕ) → (m == n) ≡ false → (m < n) ⊎ (n < m)
below m n h = ground arith

slide-reverse :
    (n : ℕ) (w : List ℕ) (cb : ℕ)
    → length w ≤ suc n
    → slide (suc n) (reverse w) cb ≡ reverse (cb ∷ take n w)
unfolding slide
slide-reverse n w cb h = elim (Bool-cases (length (reverse w) == suc n)) [
  | inl full ↦ rw full (
      ap (λ t. t ++ (cb ∷ [])) (drop_one-reverse n w (sym (length-reverse w) ∙ (==_iff _ _).0 full))
      ∙ sym (reverse-cons cb (take n w)))
  | inr short ↦ rw short (
      ap (λ t. reverse t ++ (cb ∷ []))
        (sym (
          take-short n w
            (omega (arith, length-reverse w, below (length (reverse w)) (suc n) short))))
      ∙ sym (reverse-cons cb (take n w)))
]

module _ (get_block : ℕ → Option Block) where
  -- What a walk that succeeds met first.
  walk-ok :
      (n : ℕ) (b : Block) (w : List ℕ)
      → walk get_block (suc n) b ≡ ok w
      → (((b.number == 0) ≡ true) × (w ≡ b.coinbase ∷ []))
        ⊎ (((b.number == 0) ≡ false)
            × (p : Block) × (v : List ℕ) × (get_block b.parent_hash ≡ some p)
            × (walk get_block n p ≡ ok v)
            × (w ≡ b.coinbase ∷ v))
  unfolding walk
  walk-ok n b w e = elim (Bool-cases (b.number == 0)) [
    | inl first ↦ inl (first, cc (rw first at e))
    | inr later ↦ elim (Option-cases (get_block b.parent_hash)) [
      | inl gone ↦ cc (rw (later, gone) at e)
      | inr (p, found) ↦
          let (v, e₁, e₂) =
            >>=-eq-ok (walk get_block n p) (λ addrs. ok (b.coinbase ∷ addrs))
              (rw (later, found) at e) in
          inr (later, p, v, found, e₁, cc)
    ]
  ]

  walk-first :
      (n : ℕ) (b : Block) → (b.number == 0) ≡ true → walk get_block (suc n) b ≡ ok (b.coinbase ∷ [])
  unfolding walk
  walk-first n b first = rw first refl

  walk-later :
      (n : ℕ) (b p : Block) (v : List ℕ)
      → (b.number == 0) ≡ false
      → get_block b.parent_hash ≡ some p
      → walk get_block n p ≡ ok v
      → walk get_block (suc n) b ≡ ok (b.coinbase ∷ v)
  unfolding walk
  walk-later n b p v later found e = rw (later, found, e) refl

  pub walk-length : (n : ℕ) (b : Block) (w : List ℕ) → walk get_block n b ≡ ok w → length w ≤ n
  unfolding walk
  walk-length zero b [] e = omega arith
  walk-length zero b (x ∷ w) e = cc
  walk-length (suc n) b w e = elim (walk-ok n b w e) [
    | inl (first, same) ↦ rw same (omega arith)
    | inr (later, p, v, found, deeper, same) ↦ rw same (omega (arith, walk-length n p v deeper))
  ]

  take-nil : (n : ℕ) → take {A = ℕ} n [] ≡ []
  take-nil zero = refl
  take-nil (suc n) = refl

  walk_zero : (b : Block) → walk get_block 0 b ≡ ok []
  unfolding walk
  walk_zero b = refl

  -- A shorter walk sees the newest blocks of a longer one.
  walk-take :
      (n : ℕ) (b : Block) (w : List ℕ)
      → walk get_block (suc n) b ≡ ok w
      → walk get_block n b ≡ ok (take n w)
  walk-take zero b w e = walk_zero b
  walk-take (suc n) b w e = elim (walk-ok (suc n) b w e) [
    | inl (first, same) ↦
        rw same (walk-first n b first ∙ ap (λ t. ok (b.coinbase ∷ t)) (sym (take-nil n)))
    | inr (later, p, v, found, deeper, same) ↦
        rw same (walk-later n b p (take n v) later found (walk-take n p v deeper))
  ]

  -- The specification: the window without a cache.
  abbrev pub recent : PoswConfig → ℕ → Result PoswError (List ℕ)
  recent config h = elim (get_block h) [
    | none ↦ err block_not_found
    | some block ↦ walk get_block (config.window_size - 1) block >>= (λ addrs. ok (reverse addrs))
  ]

  pub recent-ok :
      (config : PoswConfig) (h : ℕ) (addrs : List ℕ)
      → recent config h ≡ ok addrs
      → (b : Block) × (w : List ℕ) × (get_block h ≡ some b)
        × (walk get_block (config.window_size - 1) b ≡ ok w)
        × (addrs ≡ reverse w)
  recent-ok config h addrs e = elim (Option-cases (get_block h)) [
    | inl gone ↦ cc (rw (gone, recent) at e)
    | inr (b, found) ↦
        let (w, e₁, e₂) =
          >>=-eq-ok (walk get_block (config.window_size - 1) b) (λ v. ok (reverse v))
            (rw (found, recent) at e) in
        (b, w, found, e₁, cc)
  ]

  module _ (ops : CacheOps) where
    -- Every window in the cache is the one that a walk gives.
    abbrev pub Coherent : PoswConfig → ops.Cache → Type 0
    Coherent config cache =
        (k : ℕ) (e : HeightAndAddrs) → ops.get cache k ≡ some e → recent config k ≡ ok e.addrs

    -- A block of number 0 has no parent.
    abbrev pub Rooted : Type 0
    Rooted =
        (k : ℕ) (b : Block) → get_block k ≡ some b → b.number ≡ 0 → get_block b.parent_hash ≡ none

    -- What a cache finds after an addition was added then, or found before; it may have forgotten.
    abbrev pub Remembers : Type 0
    Remembers =
        (c : ops.Cache) (k k' : ℕ) (e e' : HeightAndAddrs)
        → ops.get (ops.add k e c) k' ≡ some e'
        → ((k' ≡ k) × (e' ≡ e)) ⊎ (ops.get c k' ≡ some e')

    bind_again :
        (m : Result PoswError (List ℕ)) (f : List ℕ → ops.Cache)
        → m
            >>= (λ w. ok (reverse w))
            >>= (λ addrs. ok (addrs, f addrs))
            >>= (λ (addrs, _). ok addrs)
          ≡ m >>= (λ w. ok (reverse w))
    bind_again (ok w) f = refl
    bind_again (err why) f = refl

    none-ne-some : {C : Type 0} (p : Block) → ◌≡◌ {A = Option Block} none (some p) → C
    none-ne-some p e = cc

    hit-recent :
        (config : PoswConfig) (n h : ℕ) (b : Block) (addrs : List ℕ)
        → config.window_size - 1 ≡ suc n
        → Rooted
        → get_block h ≡ some b
        → recent config b.parent_hash ≡ ok addrs
        → walk get_block (config.window_size - 1) b >>= (λ w. ok (reverse w))
          ≡ ok (slide (config.window_size - 1) addrs b.coinbase)
    hit-recent config n h b addrs size rooted found e =
        let (p, w, found_p, walked, same) = recent-ok config b.parent_hash addrs e in
        elim (Bool-cases (b.number == 0)) [
          | inl first ↦ none-ne-some p (sym (rooted h b found ((==_iff _ _).0 first)) ∙ found_p)
          | inr later ↦
              let deep : walk get_block (suc n) p ≡ ok w =
                ap (λ k. walk get_block k p) (sym size) ∙ walked in
              rw (size, same, walk-later n b p (take n w) later found_p (walk-take n p w deep))
                (ap ok (sym (slide-reverse n w b.coinbase (walk-length (suc n) p w deep))))
        ]

    window_of-eq :
        (config : PoswConfig) (h : ℕ) (b : Block) (cache : ops.Cache)
        → 2 ≤ config.window_size
        → Rooted
        → Coherent config cache
        → get_block h ≡ some b
        → window_of get_block ops (config.window_size - 1) b cache
          ≡ walk get_block (config.window_size - 1) b >>= (λ w. ok (reverse w))
    unfolding window_of
    window_of-eq config h b cache size rooted coherent found =
        elim (Option-cases (ops.get cache b.parent_hash)) [
          | inl miss ↦ rw (miss, window_of) refl
          | inr (e, hit) ↦
              rw (hit, window_of)
                (sym (
                  hit-recent config (config.window_size - 2) h b e.addrs (omega arith) rooted found
                    (coherent b.parent_hash e hit)))
        ]

    -- For a window of at least 2 blocks, on a chain where a block of number 0 has no parent, with any
    -- cache whose windows are right, the addresses are those of a walk without a cache,
    -- and the errors are the same.
    pub get_coinbase_address_until_block-recent :
        (config : PoswConfig) (h : ℕ) (cache : ops.Cache)
        → 2 ≤ config.window_size
        → Rooted
        → Coherent config cache
        → get_coinbase_address_until_block get_block ops config h cache >>= (λ (addrs, _). ok addrs)
          ≡ recent config h
    unfolding get_coinbase_address_until_block
    get_coinbase_address_until_block-recent config h cache size rooted coherent =
        elim (Option-cases (get_block h)) [
          | inl gone ↦ rw (gone, recent, get_coinbase_address_until_block) refl
          | inr (b, found) ↦
              rw
                (
                  found,
                  recent,
                  get_coinbase_address_until_block,
                  window_of-eq config h b cache size rooted coherent found,
                )
                (bind_again (walk get_block (config.window_size - 1) b)
                  (λ addrs. ops.add h (record { height = b.number; addrs = addrs }) cache))
        ]

    -- Under the same conditions, and if a cache finds only what was added, the windows of the cache
    -- that is returned are right again.
    pub get_coinbase_address_until_block-Coherent :
        (config : PoswConfig) (h : ℕ) (cache cache' : ops.Cache) (addrs : List ℕ)
        → 2 ≤ config.window_size
        → Rooted
        → Remembers
        → Coherent config cache
        → get_coinbase_address_until_block get_block ops config h cache ≡ ok (addrs, cache')
        → Coherent config cache'
    unfolding get_coinbase_address_until_block
    get_coinbase_address_until_block-Coherent config h cache cache' addrs size rooted mem coherent
          e =
        elim (Option-cases (get_block h)) [
          | inl gone ↦ cc (rw (gone, get_coinbase_address_until_block) at e)
          | inr (b, found) ↦
              let (v, e₁, e₂) =
                >>=-eq-ok (window_of get_block ops (config.window_size - 1) b cache)
                  (λ v. ok (v, ops.add h (record { height = b.number; addrs = v }) cache))
                  (rw (found, get_coinbase_address_until_block) at e) in
              let right : recent config h ≡ ok v =
                rw (found, recent)
                  (sym (window_of-eq config h b cache size rooted coherent found) ∙ e₁) in
              let added : ops.add h (record { height = b.number; addrs = v }) cache ≡ cache' = cc in
              λ k e' hit.
                elim (mem cache h k (record { height = b.number; addrs = v }) e'
                  (ap (λ c. ops.get c k) added ∙ hit)) [
                    | inl (same_key, same_entry) ↦
                        ap (recent config) same_key
                        ∙ right
                        ∙ ap (λ (x : HeightAndAddrs). ok x.addrs) (sym same_entry)
                    | inr before ↦ coherent k e' before
                  ]
        ]
