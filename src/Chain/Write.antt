-- ===== src/Chain/Write.antt =====
-- core/rootblockchain.go: WriteBlockWithState on a store that is in order.
use goquarkchain.Prelude.{
  ◌≡◌, ◌⊎◌, inl, inr, refl, sym, ap, ◌∙◌, subst, true, none, some, ◌==◌, ==_iff, Bool-cases,
  if◌then◌else◌, ok,
}
use goquarkchain.Core.RootValidator.{RootBlock}
use goquarkchain.Chain.Store.{
  RootChain, ChainConfig, at, insert, write_root_block, write_block_content_lookup_entries,
}
use goquarkchain.Chain.Reorg.{
  replace_chain, canon_stat, side_stat, reorg, set_head_block, remove_future, finish_reorg,
  is_preferred, write_block_with_state,
}
use goquarkchain.Chain.Canonical.{
  IsParent, Rooted, OnChain, IsStore, IsCanonical, Grows, Rooted-Grows, OnChain-keep,
  OnChain-Rooted, IsParent-Grows, at_same, insert_writes, insert-OnChain, insert_again-OnChain,
  Segment-OnChain, Inserted, insert_all-Inserted,
}
use goquarkchain.Chain.Meeting.{IsStored, level-IsFork}

-- A block that the validator has passed: its parent is stored one below, and its hash is new or
-- its own.
pub record IsAppendable (bc : RootChain) (b p : RootBlock) : Type 0 where
  pub parent : IsParent bc.blocks b p
  pub fresh : (bc.blocks b.header.hash ≡ none) ⊎ (bc.blocks b.header.hash ≡ some b)

write_root_block-Grows :
    (bc : RootChain) (b p : RootBlock)
    → IsAppendable bc b p
    → Grows bc.blocks (write_root_block b bc).blocks
unfolding write_root_block
write_root_block-Grows bc b p h k v e = elim (Bool-cases (k == b.header.hash)) [
  | inl same ↦
      let at_k : bc.blocks k ≡ bc.blocks b.header.hash =
        ap bc.blocks ((==_iff k b.header.hash).0 same) in
      rw same (elim h.fresh [ inl f ↦ cc | inr f ↦ cc ])
  | inr other ↦ rw other e
]

-- Storing the block keeps the store in order.
pub write_root_block-IsStore :
    (bc : RootChain) (b p : RootBlock)
    → IsStore bc
    → IsAppendable bc b p
    → IsStore (write_root_block b bc)
unfolding write_root_block
write_root_block-IsStore bc b p h new = record {
  keyed = λ k v e. elim (Bool-cases (k == b.header.hash)) [
    | inl same ↦ let is_b : some b ≡ some v = rw same at e in cc ((==_iff k b.header.hash).0 same)
    | inr other ↦ h.keyed k v (rw other at e)
  ];
  rooted = λ k v e. elim (Bool-cases (k == b.header.hash)) [
    | inl same ↦
        let is_b : some b ≡ some v = rw same at e in
        let one : b ≡ v = cc in
        subst (λ x. Rooted (at b.header.hash (some b) bc.blocks) bc.genesis_block x) one
          (Rooted.above b p
            (IsParent-Grows bc.blocks (at b.header.hash (some b) bc.blocks) b p grows new.parent)
            (Rooted-Grows bc.blocks (at b.header.hash (some b) bc.blocks) bc.genesis_block p grows
              (h.rooted b.header.parent_hash p new.parent.stored)))
    | inr other ↦
        Rooted-Grows bc.blocks (at b.header.hash (some b) bc.blocks) bc.genesis_block v grows
          (h.rooted k v (rw other at e))
  ];
  has_genesis = grows bc.genesis_block.header.hash bc.genesis_block h.has_genesis;
  lowest = h.lowest;
}
  where
    grows : Grows bc.blocks (at b.header.hash (some b) bc.blocks)
    grows = unfold write_root_block in write_root_block-Grows bc b p new

-- The new state: the same blocks, and a chain that the block is on.
pub reorg-Inserted :
    (config : ChainConfig) (bc : RootChain) (old new : RootBlock)
    → IsStore bc
    → IsStored bc old
    → IsStored bc new
    → OnChain bc.blocks bc.canonical bc.genesis_block old
    → (bc' : RootChain) × (reorg config bc old new ≡ ok bc') × Inserted bc bc' new
unfolding reorg replace_chain
reorg-Inserted config bc old new h ho hn chain =
    let (fork, deleted, eq, ways) = level-IsFork bc old new h ho hn in
    let below =
      Segment-OnChain bc.blocks bc.canonical bc.genesis_block old fork.common_block fork.old_chain
        h.lowest ways.old_way chain in
    let done =
      insert_all-Inserted config bc new fork.common_block fork.new_chain ways.new_way below in
    (
      replace_chain config deleted fork.new_chain bc,
      rw eq refl,
      record {
        same_blocks = done.same_blocks;
        same_genesis = done.same_genesis;
        on_chain = done.on_chain;
      },
    )

-- The head that the choice between a block and the head gives.
abbrev pub chosen : RootBlock → RootBlock → RootBlock
chosen b current = if is_preferred b current then b else current

-- What a write of a block leaves.
pub record IsWritten (b : RootBlock) (bc bc' : RootChain) : Type 0 where
  pub store : IsStore bc'
  pub canonical : IsCanonical bc'
  pub has_blocks : bc'.blocks ≡ at b.header.hash (some b) bc.blocks
  pub head : bc'.current ≡ chosen b bc.current

-- A block that is on the chain already becomes its head.
set_head_block-IsCanonical :
    (config : ChainConfig) (b : RootBlock) (bc bc' : RootChain)
    → IsStore bc
    → bc.blocks b.header.hash ≡ some b
    → bc'.blocks ≡ bc.blocks
    → bc'.genesis_block ≡ bc.genesis_block
    → OnChain bc.blocks (at b.header.number b.header.hash bc'.canonical) bc.genesis_block b
    → IsStore (set_head_block config b bc') × IsCanonical (set_head_block config b bc')
unfolding insert write_block_content_lookup_entries
set_head_block-IsCanonical config b bc bc' h stored eb eg chain =
    let (w₁, w₂, w₃) = insert_writes config b (write_block_content_lookup_entries b bc') in
    let blocks : (set_head_block config b bc').blocks ≡ bc.blocks = w₁ ∙ eb in
    let genesis : (set_head_block config b bc').genesis_block ≡ bc.genesis_block = w₃ ∙ eg in
    (
      record {
        keyed = λ k v e. h.keyed k v (ap (λ f. f k) (sym blocks) ∙ e);
        rooted = λ k v e.
            subst (λ f. Rooted f (set_head_block config b bc').genesis_block v) (sym blocks)
              (subst (λ g. Rooted bc.blocks g v) (sym genesis)
                (h.rooted k v (ap (λ f. f k) (sym blocks) ∙ e)));
        has_genesis =
            subst (λ g. (set_head_block config b bc').blocks g.header.hash ≡ some g) (sym genesis)
              (ap (λ f. f bc.genesis_block.header.hash) blocks ∙ h.has_genesis);
        lowest = ap (λ g. g.header.number) genesis ∙ h.lowest;
      },
      record {
        has_current = ap (λ f. f b.header.hash) blocks ∙ stored;
        same_head = refl;
        on_chain =
            subst
              (λ g.
                OnChain (set_head_block config b bc').blocks (set_head_block config b bc').canonical
                  g b)
              (sym genesis)
              (subst (λ f. OnChain f (set_head_block config b bc').canonical bc.genesis_block b)
                (sym blocks) (subst (λ f. OnChain bc.blocks f bc.genesis_block b) (sym w₂) chain));
      },
    )

-- The state with the block stored, before the head moves.
stored_first :
    (bc : RootChain) (b p : RootBlock)
    → IsStore bc
    → IsCanonical bc
    → IsAppendable bc b p
    → IsCanonical (write_root_block b bc)
unfolding write_root_block
stored_first bc b p h c new = record {
  has_current = grows bc.current.header.hash bc.current c.has_current;
  same_head = c.same_head;
  on_chain =
      OnChain-keep bc.blocks (at b.header.hash (some b) bc.blocks) bc.canonical bc.canonical
        bc.genesis_block bc.current grows (λ k le. refl) c.on_chain;
}
  where
    grows : Grows bc.blocks (at b.header.hash (some b) bc.blocks)
    grows = unfold write_root_block in write_root_block-Grows bc b p new

-- The head after a preferred block is written on the head, or by way of a reorganisation.
finish_reorg-IsWritten :
    (config : ChainConfig) (bc : RootChain) (b p : RootBlock) (bc' : RootChain)
    → IsStore bc
    → IsAppendable bc b p
    → is_preferred b bc.current ≡ true
    → bc'.blocks ≡ (write_root_block b bc).blocks
    → bc'.genesis_block ≡ bc.genesis_block
    → OnChain
        (write_root_block b bc).blocks
        (at b.header.number b.header.hash bc'.canonical)
        bc.genesis_block
        b
    → IsWritten b bc (set_head_block config b bc')
unfolding write_root_block insert write_block_content_lookup_entries
finish_reorg-IsWritten config bc b p bc' h new better eb eg chain =
    let own : at b.header.hash (some b) bc.blocks b.header.hash ≡ some b =
      at_same b.header.hash (some b) bc.blocks in
    let (s, c) =
      set_head_block-IsCanonical config b
        (record bc { blocks = at b.header.hash (some b) bc.blocks }) bc'
        (unfold write_root_block in write_root_block-IsStore bc b p h new) own eb eg chain in
    record {
      store = s;
      canonical = c;
      has_blocks = (insert_writes config b (write_block_content_lookup_entries b bc')).0 ∙ eb;
      head = rw better refl;
    }

-- In a store that is in order, writing a block that stands on a stored block never fails; the store
-- stays in order and has the block; the head is the block if it is preferred, and the same as
-- before otherwise; and the canonical hashes up to the head are those of the head's chain.
pub write_block_with_state-IsWritten :
    (config : ChainConfig) (bc : RootChain) (b p : RootBlock)
    → IsStore bc
    → IsCanonical bc
    → IsAppendable bc b p
    → (bc' : RootChain) × (write_block_with_state config b bc
        ≡ (ok (if is_preferred b bc.current then canon_stat else side_stat), bc'))
      × IsWritten b bc bc'
unfolding write_block_with_state finish_reorg
write_block_with_state-IsWritten config bc b p h c new =
    elim (Bool-cases (is_preferred b bc.current)) [
      | inr worse ↦ (
        remove_future b.header.hash bc₁,
        rw worse refl,
        record {
          store = record {
            keyed = h₁.keyed;
            rooted = h₁.rooted;
            has_genesis = h₁.has_genesis;
            lowest = h₁.lowest;
          };
          canonical = record {
            has_current = c₁.has_current;
            same_head = c₁.same_head;
            on_chain = c₁.on_chain;
          };
          has_blocks = unfold write_root_block in refl;
          head = rw worse same_current;
        },
      )
      | inl better ↦ elim (Bool-cases (b.header.parent_hash == bc.current.header.hash)) [
        | inl direct ↦ (
          set_head_block config b bc₁,
          rw (better, direct) refl,
          finish_reorg-IsWritten config bc b p bc₁ h new better refl same_genesis (onto direct),
        )
        | inr apart ↦
            let (bc₂, eq, done) =
              reorg-Inserted config bc₁ bc.current b h₁ (current_stored, current_rooted)
                (stored_b, h₁.rooted b.header.hash b stored_b) current_chain in
            (
              set_head_block config b bc₂,
              rw (better, apart) (rw eq refl),
              finish_reorg-IsWritten config bc b p bc₂ h new better done.same_blocks
                  (done.same_genesis ∙ same_genesis) (again bc₂ done),
            )
      ]
    ]
  where
    bc₁ : RootChain
    bc₁ = write_root_block b bc

    h₁ : IsStore bc₁
    h₁ = write_root_block-IsStore bc b p h new

    c₁ : IsCanonical bc₁
    c₁ = stored_first bc b p h c new

    same_genesis : bc₁.genesis_block ≡ bc.genesis_block
    same_genesis = unfold write_root_block in refl

    same_current : bc₁.current ≡ bc.current
    same_current = unfold write_root_block in refl

    stored_b : bc₁.blocks b.header.hash ≡ some b
    stored_b = unfold write_root_block in at_same b.header.hash (some b) bc.blocks

    current_stored : bc₁.blocks bc.current.header.hash ≡ some bc.current
    current_stored = unfold write_root_block in c₁.has_current

    current_chain : OnChain bc₁.blocks bc₁.canonical bc₁.genesis_block bc.current
    current_chain = unfold write_root_block in c₁.on_chain

    current_rooted : Rooted bc₁.blocks bc₁.genesis_block bc.current
    current_rooted =
        OnChain-Rooted bc₁.blocks bc₁.canonical bc₁.genesis_block bc.current current_chain

    grows : Grows bc.blocks bc₁.blocks
    grows = write_root_block-Grows bc b p new

    onto :
        (b.header.parent_hash == bc.current.header.hash) ≡ true
        → OnChain bc₁.blocks (at b.header.number b.header.hash bc₁.canonical) bc.genesis_block b
    onto direct =
        let same : p ≡ bc.current = cc (
          new.parent.stored,
          c.has_current,
          (==_iff b.header.parent_hash bc.current.header.hash).0 direct,
        ) in
        subst (λ g. OnChain bc₁.blocks (at b.header.number b.header.hash bc₁.canonical) g b)
          same_genesis
          (insert-OnChain config b p bc₁ (IsParent-Grows bc.blocks bc₁.blocks b p grows new.parent)
            (subst (λ x. OnChain bc₁.blocks bc₁.canonical bc₁.genesis_block x) (sym same)
              current_chain))

    again :
        (bc₂ : RootChain)
        → Inserted bc₁ bc₂ b
        → OnChain bc₁.blocks (at b.header.number b.header.hash bc₂.canonical) bc.genesis_block b
    again bc₂ done =
        subst (λ g. OnChain bc₁.blocks (at b.header.number b.header.hash bc₂.canonical) g b)
          same_genesis
          (insert_again-OnChain b (record bc₁ { canonical = bc₂.canonical }) done.on_chain)
