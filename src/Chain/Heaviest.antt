-- ===== src/Chain/Heaviest.antt =====
-- core/rootblockchain.go: the states that writes of blocks lead to from the genesis.
use goquarkchain.Prelude.{ℕ, ◌≤◌, ◌≡◌, inl, inr, sym, ap, ◌∙◌, subst, some, ◌==◌, Bool-cases, arith}
use goquarkchain.Core.RootValidator.{RootBlock}
use goquarkchain.Chain.Store.{RootChain, ChainConfig, at}
use goquarkchain.Chain.Reorg.{is_preferred, write_block_with_state}
use goquarkchain.Chain.Canonical.{Rooted, OnChain, IsStore, IsCanonical}
use goquarkchain.Chain.Write.{IsAppendable, IsWritten, chosen, write_block_with_state-IsWritten}

-- No stored block has more total difficulty than the head.
abbrev pub IsHeaviest : RootChain → Type 0
IsHeaviest bc =
    (h : ℕ) (b : RootBlock)
    → bc.blocks h ≡ some b
    → b.header.total_difficulty ≤ bc.current.header.total_difficulty

pub record IsGood (bc : RootChain) : Type 0 where
  pub store : IsStore bc
  pub canonical : IsCanonical bc
  pub heaviest : IsHeaviest bc

-- The store holds the genesis only, as its head.
pub record IsFresh (bc : RootChain) : Type 0 where
  pub only :
      (h : ℕ) (b : RootBlock)
      → bc.blocks h ≡ some b
      → (b ≡ bc.genesis_block) × (h ≡ bc.genesis_block.header.hash)
  pub has_genesis : bc.blocks bc.genesis_block.header.hash ≡ some bc.genesis_block
  pub lowest : bc.genesis_block.header.number ≡ 0
  pub is_head : bc.current ≡ bc.genesis_block
  pub same_head : bc.head_hash ≡ bc.genesis_block.header.hash
  pub marked : bc.canonical bc.genesis_block.header.number ≡ bc.genesis_block.header.hash

-- The states that writes of blocks on stored parents lead to.
pub data Reached (config : ChainConfig) : RootChain → Type 0 where
  start : (bc : RootChain) → IsFresh bc → Reached config bc
  write :
      (bc : RootChain) (b p : RootBlock)
      → Reached config bc
      → IsAppendable bc b p
      → Reached config (write_block_with_state config b bc).1

fresh-IsGood : (bc : RootChain) → IsFresh bc → IsGood bc
fresh-IsGood bc f = record {
  store = record {
    keyed = λ h b e. let (p, q) = f.only h b e in ap (λ x. x.header.hash) p ∙ sym q;
    rooted = λ h b e. let (p, q) = f.only h b e in rw p Rooted.at_genesis;
    has_genesis = f.has_genesis;
    lowest = f.lowest;
  };
  canonical = record {
    has_current = rw f.is_head f.has_genesis;
    same_head = f.same_head ∙ ap (λ x. x.header.hash) (sym f.is_head);
    on_chain = rw f.is_head (OnChain.first f.marked);
  };
  heaviest = λ h b e.
      let (p, q) = f.only h b e in
      omega (arith, ap (λ x. x.header.total_difficulty) (p ∙ sym f.is_head));
}

chosen-max :
    (b current : RootBlock)
    → (b.header.total_difficulty ≤ (chosen b current).header.total_difficulty)
      × (current.header.total_difficulty ≤ (chosen b current).header.total_difficulty)
unfolding is_preferred
chosen-max b current = ground arith

written-IsHeaviest :
    (b : RootBlock) (bc bc' : RootChain) → IsHeaviest bc → IsWritten b bc bc' → IsHeaviest bc'
written-IsHeaviest b bc bc' heavy w h v e =
    let (le_b, le_current) = chosen-max b bc.current in
    let head : bc'.current.header.total_difficulty ≡ (chosen b bc.current).header.total_difficulty =
      ap (λ x. x.header.total_difficulty) w.head in
    let found : at b.header.hash (some b) bc.blocks h ≡ some v =
      ap (λ f. f h) (sym w.has_blocks) ∙ e in
    elim (Bool-cases (h == b.header.hash)) [
      | inl same ↦
          let is_b : some b ≡ some v = rw same at found in
          let one : b ≡ v = cc in omega (arith, head, le_b, ap (λ x. x.header.total_difficulty) one)
      | inr other ↦ omega (arith, head, le_current, heavy h v (rw other at found))
    ]

-- In every state that writes of blocks on stored parents lead to from the genesis, the stored
-- blocks stand on the genesis, the canonical hashes up to the head are those of the head's chain,
-- and no stored block has more total difficulty than the head.
pub Reached-IsGood : (config : ChainConfig) (bc : RootChain) → Reached config bc → IsGood bc
Reached-IsGood config bc (Reached.start c f) = fresh-IsGood bc f
Reached-IsGood config bc (Reached.write before b p reached new) =
    let good : IsGood before = Reached-IsGood config before reached in
    let (bc', eq, w) =
      write_block_with_state-IsWritten config before b p good.store good.canonical new in
    let same : bc' ≡ (write_block_with_state config b before).1 = sym (ap (λ r. r.1) eq) in
    subst IsGood same (record {
      store = w.store;
      canonical = w.canonical;
      heaviest = written-IsHeaviest b before bc' good.heaviest w;
    })
