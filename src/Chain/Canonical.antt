-- ===== src/Chain/Canonical.antt =====
-- core/rootblockchain.go: what the store and the canonical hashes are to be, and what writes keep.
use goquarkchain.Prelude.{
  ℕ, ◌+◌, ◌≤◌, ◌<◌, ◌≡◌, inl, inr, refl, sym, ap, ◌∙◌, subst, false, Option, some, List, [], ◌∷◌,
  ◌++◌, ◌==◌, ==_iff, Bool-cases, arith,
}
use goquarkchain.Core.RootValidator.{RootBlock}
use goquarkchain.Chain.Store.{
  RootChain, ChainConfig, at, insert, put_root_block_index, put_counts, write_canonical_hash,
  write_block_content_lookup_entries,
}
use goquarkchain.Chain.Reorg.{insert_all}

abbrev pub Blocks : Type 0
Blocks = ℕ → Option RootBlock

-- `p` is the stored parent of `b`, one below.
pub record IsParent (blocks : Blocks) (b p : RootBlock) : Type 0 where
  pub stored : blocks b.header.parent_hash ≡ some p
  pub next : b.header.number ≡ p.header.number + 1

-- The stored blocks below `b` go down to the genesis.
pub data Rooted (blocks : Blocks) (genesis : RootBlock) : RootBlock → Type 0 where
  at_genesis : Rooted blocks genesis genesis
  above :
      (b p : RootBlock) → IsParent blocks b p → Rooted blocks genesis p → Rooted blocks genesis b

-- The canonical hash of the height of `b`, and of every block below, is the block's.
pub data OnChain (blocks : Blocks) (canonical : ℕ → ℕ) (genesis : RootBlock)
    : RootBlock → Type 0 where
  first :
      canonical genesis.header.number ≡ genesis.header.hash
      → OnChain blocks canonical genesis genesis
  extend :
      (b p : RootBlock)
      → IsParent blocks b p
      → canonical b.header.number ≡ b.header.hash
      → OnChain blocks canonical genesis p
      → OnChain blocks canonical genesis b

-- Every stored block is stored under its hash, and stands on the genesis, which is stored.
pub record IsStore (bc : RootChain) : Type 0 where
  pub keyed : (h : ℕ) (b : RootBlock) → bc.blocks h ≡ some b → b.header.hash ≡ h
  pub rooted : (h : ℕ) (b : RootBlock) → bc.blocks h ≡ some b → Rooted bc.blocks bc.genesis_block b
  pub has_genesis : bc.blocks bc.genesis_block.header.hash ≡ some bc.genesis_block
  pub lowest : bc.genesis_block.header.number ≡ 0

-- The head is stored, is the stored head hash, and its chain is the canonical one.
pub record IsCanonical (bc : RootChain) : Type 0 where
  pub has_current : bc.blocks bc.current.header.hash ≡ some bc.current
  pub same_head : bc.head_hash ≡ bc.current.header.hash
  pub on_chain : OnChain bc.blocks bc.canonical bc.genesis_block bc.current

abbrev pub Grows : Blocks → Blocks → Type 0
Grows blocks blocks' = (h : ℕ) (b : RootBlock) → blocks h ≡ some b → blocks' h ≡ some b

abbrev pub SameUpTo : ℕ → (ℕ → ℕ) → (ℕ → ℕ) → Type 0
SameUpTo n f g = (k : ℕ) → k ≤ n → f k ≡ g k

pub IsParent-Grows :
    (blocks blocks' : Blocks) (b p : RootBlock)
    → Grows blocks blocks'
    → IsParent blocks b p
    → IsParent blocks' b p
IsParent-Grows blocks blocks' b p grows h = record {
  stored = grows b.header.parent_hash p h.stored;
  next = h.next;
}

pub Rooted-Grows :
    (blocks blocks' : Blocks) (genesis b : RootBlock)
    → Grows blocks blocks'
    → Rooted blocks genesis b
    → Rooted blocks' genesis b
Rooted-Grows blocks blocks' genesis b grows Rooted.at_genesis = Rooted.at_genesis
Rooted-Grows blocks blocks' genesis b grows (Rooted.above c p parent rest) =
    Rooted.above b p (IsParent-Grows blocks blocks' b p grows parent)
      (Rooted-Grows blocks blocks' genesis p grows rest)

-- Storing more blocks, and other canonical hashes above, keep a block on its chain.
pub OnChain-keep :
    (blocks blocks' : Blocks) (canonical canonical' : ℕ → ℕ) (genesis b : RootBlock)
    → Grows blocks blocks'
    → SameUpTo b.header.number canonical canonical'
    → OnChain blocks canonical genesis b
    → OnChain blocks' canonical' genesis b
OnChain-keep blocks blocks' canonical canonical' genesis b grows same (OnChain.first e) =
    OnChain.first (sym (same b.header.number (omega arith)) ∙ e)
OnChain-keep blocks blocks' canonical canonical' genesis b grows same
      (OnChain.extend c p parent e rest) =
    OnChain.extend b p (IsParent-Grows blocks blocks' b p grows parent)
      (sym (same b.header.number (omega arith)) ∙ e)
      (OnChain-keep blocks blocks' canonical canonical' genesis p grows
        (λ k le. same k (omega (arith, le, parent.next))) rest)

pub OnChain-Rooted :
    (blocks : Blocks) (canonical : ℕ → ℕ) (genesis b : RootBlock)
    → OnChain blocks canonical genesis b
    → Rooted blocks genesis b
OnChain-Rooted blocks canonical genesis b (OnChain.first e) = Rooted.at_genesis
OnChain-Rooted blocks canonical genesis b (OnChain.extend c p parent e rest) =
    Rooted.above b p parent (OnChain-Rooted blocks canonical genesis p rest)

-- A block of a chain has the canonical hash of its height.
pub OnChain-hash :
    (blocks : Blocks) (canonical : ℕ → ℕ) (genesis b : RootBlock)
    → OnChain blocks canonical genesis b
    → canonical b.header.number ≡ b.header.hash
OnChain-hash blocks canonical genesis b (OnChain.first e) = e
OnChain-hash blocks canonical genesis b (OnChain.extend c p parent e rest) = e

-- A stored parent is the only one.
pub OnChain-parent :
    (blocks : Blocks) (canonical : ℕ → ℕ) (genesis b p : RootBlock)
    → genesis.header.number ≡ 0
    → IsParent blocks b p
    → OnChain blocks canonical genesis b
    → OnChain blocks canonical genesis p
OnChain-parent blocks canonical genesis b p lowest parent (OnChain.first e) =
    absurd (omega (arith, lowest, parent.next))
OnChain-parent blocks canonical genesis b p lowest parent (OnChain.extend c q other e rest) =
    let same : q ≡ p = cc (other.stored, parent.stored) in
    subst (OnChain blocks canonical genesis) same rest

-- A block of height 0 is the genesis.
pub Rooted-genesis :
    (blocks : Blocks) (genesis b : RootBlock)
    → Rooted blocks genesis b
    → b.header.number ≡ 0
    → b ≡ genesis
Rooted-genesis blocks genesis b Rooted.at_genesis e = refl
Rooted-genesis blocks genesis b (Rooted.above c p parent rest) e =
    absurd (omega (arith, parent.next))

-- A block above height 0 has a stored parent.
pub Rooted-IsParent :
    (blocks : Blocks) (genesis b : RootBlock)
    → genesis.header.number ≡ 0
    → 0 < b.header.number
    → Rooted blocks genesis b
    → (p : RootBlock) × IsParent blocks b p × Rooted blocks genesis p
Rooted-IsParent blocks genesis b lowest high Rooted.at_genesis = absurd (omega arith)
Rooted-IsParent blocks genesis b lowest high (Rooted.above c p parent rest) = (p, parent, rest)

pub at_same : {A : Type 0} (key : ℕ) (value : A) (f : ℕ → A) → at key value f key ≡ value
at_same key value f = rw ((==_iff key key).1 refl) refl

pub at_other :
    {A : Type 0} (key k : ℕ) (value : A) (f : ℕ → A) → (k == key) ≡ false → at key value f k ≡ f k
at_other key k value f h = rw h refl

below-ne : (k n : ℕ) → k < n → (k == n) ≡ false
below-ne k n h = ground arith

-- What an insertion writes: the canonical hash of its height, and no block.
pub insert_writes :
    (config : ChainConfig) (b : RootBlock) (bc : RootChain)
    → ((insert config b bc).blocks ≡ bc.blocks)
      × ((insert config b bc).canonical ≡ at b.header.number b.header.hash bc.canonical)
      × ((insert config b bc).genesis_block ≡ bc.genesis_block)
unfolding insert put_root_block_index write_canonical_hash put_counts
insert_writes config b bc = elim (Bool-cases config.count_minor_blocks) [
  | inl e ↦ (rw e refl, rw e refl, rw e refl)
  | inr e ↦ (rw e refl, rw e refl, rw e refl)
]

-- A block whose parent is on the chain is on it after it is inserted.
pub insert-OnChain :
    (config : ChainConfig) (b p : RootBlock) (bc : RootChain)
    → IsParent bc.blocks b p
    → OnChain bc.blocks bc.canonical bc.genesis_block p
    → OnChain bc.blocks (at b.header.number b.header.hash bc.canonical) bc.genesis_block b
insert-OnChain config b p bc parent rest =
    OnChain.extend b p parent (at_same b.header.number b.header.hash bc.canonical) (
      OnChain-keep bc.blocks bc.blocks bc.canonical (at b.header.number b.header.hash bc.canonical)
        bc.genesis_block p (λ h v e. e)
        (λ k le. sym (
          at_other b.header.number k b.header.hash bc.canonical
            (below-ne k b.header.number (omega (arith, le, parent.next)))))
        rest)

-- A block that is on the chain already stays on it.
pub insert_again-OnChain :
    (b : RootBlock) (bc : RootChain)
    → OnChain bc.blocks bc.canonical bc.genesis_block b
    → OnChain bc.blocks (at b.header.number b.header.hash bc.canonical) bc.genesis_block b
insert_again-OnChain b bc h =
    OnChain-keep bc.blocks bc.blocks bc.canonical (at b.header.number b.header.hash bc.canonical)
      bc.genesis_block b (λ k v e. e) (λ k le. same k) h
  where
    same : (k : ℕ) → bc.canonical k ≡ at b.header.number b.header.hash bc.canonical k
    same k = elim (Bool-cases (k == b.header.number)) [
      | inl e ↦ rw e (
          ap bc.canonical ((==_iff k b.header.number).0 e)
          ∙ OnChain-hash bc.blocks bc.canonical bc.genesis_block b h)
      | inr e ↦ rw e refl
    ]

-- `passed` are the stored blocks from `b` down to the one above `a`.
pub data Segment (blocks : Blocks) : RootBlock → List RootBlock → RootBlock → Type 0 where
  done : (b : RootBlock) → Segment blocks b [] b
  down :
      (b p a : RootBlock) (passed : List RootBlock)
      → IsParent blocks b p
      → Segment blocks p passed a
      → Segment blocks b (b ∷ passed) a

-- One side's way to a block, and that block's way to another, are one way.
pub Segment-append :
    (blocks : Blocks) (b m a : RootBlock) (xs ys : List RootBlock)
    → Segment blocks b xs m
    → Segment blocks m ys a
    → Segment blocks b (xs ++ ys) a
Segment-append blocks b m a xs ys (Segment.done c) t = t
Segment-append blocks b m a xs ys (Segment.down c p d passed parent rest) t =
    Segment.down b p a (passed ++ ys) parent (Segment-append blocks p m a passed ys rest t)

-- What is below a block of the chain is on the chain.
pub Segment-OnChain :
    (blocks : Blocks) (canonical : ℕ → ℕ) (genesis b a : RootBlock) (passed : List RootBlock)
    → genesis.header.number ≡ 0
    → Segment blocks b passed a
    → OnChain blocks canonical genesis b
    → OnChain blocks canonical genesis a
Segment-OnChain blocks canonical genesis b a passed lowest (Segment.done c) h = h
Segment-OnChain blocks canonical genesis b a passed lowest (Segment.down c p d more parent rest) h =
    Segment-OnChain blocks canonical genesis p a more lowest rest
      (OnChain-parent blocks canonical genesis b p lowest parent h)

-- The chain that `insert_all` leaves.
pub record Inserted (bc bc' : RootChain) (b : RootBlock) : Type 0 where
  pub same_blocks : bc'.blocks ≡ bc.blocks
  pub same_genesis : bc'.genesis_block ≡ bc.genesis_block
  pub on_chain : OnChain bc.blocks bc'.canonical bc.genesis_block b

-- Inserting the blocks above a block of the chain, the lowest first, brings their top onto it.
pub insert_all-Inserted :
    (config : ChainConfig) (bc : RootChain) (b a : RootBlock) (passed : List RootBlock)
    → Segment bc.blocks b passed a
    → OnChain bc.blocks bc.canonical bc.genesis_block a
    → Inserted bc (insert_all config passed bc) b
unfolding insert_all write_block_content_lookup_entries
insert_all-Inserted config bc b a passed (Segment.done c) h = record {
  same_blocks = refl;
  same_genesis = refl;
  on_chain = h;
}
insert_all-Inserted config bc b a passed (Segment.down c p d more parent rest) h =
    let ih : Inserted bc (insert_all config more bc) p =
      insert_all-Inserted config bc p a more rest h in
    let bc' : RootChain = insert_all config more bc in
    let (w₁, w₂, w₃) = insert_writes config b bc' in
    record {
      same_blocks = w₁ ∙ ih.same_blocks;
      same_genesis = w₃ ∙ ih.same_genesis;
      on_chain =
          subst (λ f. OnChain bc.blocks f bc.genesis_block b) (sym w₂)
            (insert-OnChain config b p (record bc { canonical = bc'.canonical }) parent
              ih.on_chain);
    }
