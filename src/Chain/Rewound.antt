-- ===== src/Chain/Rewound.antt =====
-- core/rootblockchain.go: the chain that SetHead leaves.
use goquarkchain.Prelude.{
  ℕ, suc, ◌+◌, ◌-◌, ◌≤◌, ◌<◌, min, ◌≡◌, ◌≢◌, inl, inr, refl, sym, ap, ◌∙◌, false, none, some, List,
  [], ◌∷◌, All, ◌==◌, ==_iff, Bool-cases, ok, arith,
}
use goquarkchain.Core.RootValidator.{RootBlock}
use goquarkchain.Chain.Store.{RootChain, ChainConfig, get_block}
use goquarkchain.Chain.Canonical.{
  Blocks, OnChain, OnChain-Rooted, IsStore, IsCanonical, at_other, Segment-OnChain,
}
use goquarkchain.Chain.Meeting.{IsStored}
use goquarkchain.Chain.Ancestor.{walk_up}
use goquarkchain.Chain.Rewind.{
  delete_root_block, delete_root_blocks, load_last_state, rewound, set_head, AreBetween, Rewinding,
  rewind_loop-Rewinding,
}

delete_root_blocks-blocks :
    (deleted : List RootBlock) (bc : RootChain) (k : ℕ)
    → All (λ x. x.header.hash ≢ k) deleted
    → (delete_root_blocks deleted bc).blocks k ≡ bc.blocks k
unfolding delete_root_blocks
delete_root_blocks-blocks [] bc k h = refl
delete_root_blocks-blocks (x ∷ deleted) bc k (h, hs) =
    delete_root_blocks-blocks deleted (delete_root_block x bc) k hs
    ∙ elim (Bool-cases (k == x.header.hash)) [
      | inl e ↦ absurd (h (sym ((==_iff k x.header.hash).0 e)))
      | inr e ↦ at_other x.header.hash k none bc.blocks e
    ]

delete_root_blocks-canonical :
    (deleted : List RootBlock) (bc : RootChain) (k : ℕ)
    → All (λ x. x.header.number ≢ k) deleted
    → (delete_root_blocks deleted bc).canonical k ≡ bc.canonical k
unfolding delete_root_blocks
delete_root_blocks-canonical [] bc k h = refl
delete_root_blocks-canonical (x ∷ deleted) bc k (h, hs) =
    delete_root_blocks-canonical deleted (delete_root_block x bc) k hs
    ∙ elim (Bool-cases (k == x.header.number)) [
      | inl e ↦ absurd (h (sym ((==_iff k x.header.number).0 e)))
      | inr e ↦ at_other x.header.number k 0 bc.canonical e
    ]

-- A height of which the canonical hash is gone stays without one.
deleted-stays :
    (deleted : List RootBlock) (bc : RootChain) (k : ℕ)
    → bc.canonical k ≡ 0
    → (delete_root_blocks deleted bc).canonical k ≡ 0
unfolding delete_root_blocks
deleted-stays [] bc k h = h
deleted-stays (x ∷ deleted) bc k h =
    deleted-stays deleted (delete_root_block x bc) k (elim (Bool-cases (k == x.header.number)) [
      | inl e ↦ rw e refl
      | inr e ↦ at_other x.header.number k 0 bc.canonical e ∙ h
    ])

-- The canonical hash of a height is deleted unless no deleted block has that height.
delete_root_blocks-cleared :
    (deleted : List RootBlock) (bc : RootChain) (k : ℕ)
    → (All (λ x. x.header.number ≢ k) deleted → ⊥)
    → (delete_root_blocks deleted bc).canonical k ≡ 0
unfolding delete_root_blocks
delete_root_blocks-cleared [] bc k h = absurd (h tt)
delete_root_blocks-cleared (x ∷ deleted) bc k h = elim (Bool-cases (k == x.header.number)) [
  | inl e ↦ deleted-stays deleted (delete_root_block x bc) k (rw e refl)
  | inr e ↦
      delete_root_blocks-cleared deleted (delete_root_block x bc) k
        (λ others. h (ground arith, others))
]

between_hash-ne :
    (bc : RootChain) (a b c : RootBlock) (deleted : List RootBlock) (k : ℕ)
    → bc.blocks k ≡ some c
    → c.header.number ≤ a.header.number
    → AreBetween bc a b deleted
    → All (λ x. x.header.hash ≢ k) deleted
between_hash-ne bc a b c [] k e low h = tt
between_hash-ne bc a b c (x ∷ deleted) k e low ((s, lo, hi), hs) = (
  λ same. let one : x ≡ c = cc in absurd (omega (arith, lo, low, ap (λ y. y.header.number) one)),
  between_hash-ne bc a b c deleted k e low hs,
)

between_number-ne :
    (bc : RootChain) (a b : RootBlock) (deleted : List RootBlock) (k : ℕ)
    → k ≤ a.header.number
    → AreBetween bc a b deleted
    → All (λ x. x.header.number ≢ k) deleted
between_number-ne bc a b [] k low h = tt
between_number-ne bc a b (x ∷ deleted) k low ((s, lo, hi), hs) =
    (λ same. omega (arith, lo, low, same), between_number-ne bc a b deleted k low hs)

-- A chain is kept by a store that keeps the blocks up to its height.
OnChain-low :
    (blocks blocks' : Blocks) (canonical canonical' : ℕ → ℕ) (genesis b : RootBlock)
    → ((h : ℕ) (c : RootBlock)
        → blocks h ≡ some c
        → c.header.number ≤ b.header.number
        → blocks' h ≡ some c)
    → ((k : ℕ) → k ≤ b.header.number → canonical' k ≡ canonical k)
    → OnChain blocks canonical genesis b
    → OnChain blocks' canonical' genesis b
OnChain-low blocks blocks' canonical canonical' genesis b keeps same (OnChain.first e) =
    OnChain.first (same b.header.number (omega arith) ∙ e)
OnChain-low blocks blocks' canonical canonical' genesis b keeps same
      (OnChain.extend c p parent e rest) =
    OnChain.extend b p
      (record {
        stored = keeps b.header.parent_hash p parent.stored (omega (arith, parent.next));
        next = parent.next;
      })
      (same b.header.number (omega arith) ∙ e)
      (OnChain-low blocks blocks' canonical canonical' genesis p
        (λ h v eq le. keeps h v eq (omega (arith, le, parent.next)))
        (λ k le. same k (omega (arith, le, parent.next))) rest)

delete_root_blocks-genesis :
    (deleted : List RootBlock) (bc : RootChain)
    → (delete_root_blocks deleted bc).genesis_block ≡ bc.genesis_block
unfolding delete_root_blocks
delete_root_blocks-genesis [] bc = refl
delete_root_blocks-genesis (x ∷ deleted) bc =
    delete_root_blocks-genesis deleted (delete_root_block x bc)

-- What SetHead to a height leaves.
pub record IsRewound (bc : RootChain) (head : ℕ) (bc' : RootChain) : Type 0 where
  pub height : bc'.current.header.number ≡ min head bc.current.header.number
  pub walked :
      walk_up bc.blocks (bc.current.header.number - bc'.current.header.number) bc.current
      ≡ some bc'.current
  pub canonical : IsCanonical bc'
  pub cleared : (k : ℕ) → head < k → k ≤ bc.current.header.number → bc'.canonical k ≡ 0
  pub kept :
      (h : ℕ) (c : RootBlock)
      → bc.blocks h ≡ some c
      → c.header.number ≤ head
      → c.header.number ≤ bc.current.header.number
      → bc'.blocks h ≡ some c

rewound-IsRewound :
    (bc : RootChain) (head : ℕ) (a : RootBlock) (deleted : List RootBlock)
    → IsStore bc
    → IsCanonical bc
    → Rewinding bc head bc.current a deleted
    → IsRewound bc head (rewound a deleted bc)
rewound-IsRewound bc head a deleted h c r = record {
  height = r.height;
  walked = r.walked;
  canonical = record {
    has_current = keeps a.header.hash a r.stored.0 (omega arith);
    same_head = refl;
    on_chain = rw (delete_root_blocks-genesis deleted bc) (
        OnChain-low bc.blocks (delete_root_blocks deleted bc).blocks bc.canonical
          (delete_root_blocks deleted bc).canonical bc.genesis_block a keeps
          (λ k le.
            delete_root_blocks-canonical deleted bc k
              (between_number-ne bc a bc.current deleted k le r.between))
          (Segment-OnChain bc.blocks bc.canonical bc.genesis_block bc.current a deleted h.lowest
            r.way c.on_chain));
  };
  cleared = λ k lo hi.
      delete_root_blocks-cleared deleted bc k (r.covers k (omega (arith, r.height, lo)) hi);
  kept = λ k v e le top. keeps k v e (omega (arith, r.height));
}
  where
    keeps :
        (k : ℕ) (v : RootBlock)
        → bc.blocks k ≡ some v
        → v.header.number ≤ a.header.number
        → (delete_root_blocks deleted bc).blocks k ≡ some v
    keeps k v e le =
        delete_root_blocks-blocks deleted bc k
          (between_hash-ne bc a bc.current v deleted k e le r.between)
        ∙ e

-- In a store that is in order and has no block of the empty hash, SetHead ends without a reset and
-- with no error: the head is the ancestor of the old one at the asked height, or the old one where
-- that is lower, the canonical hashes up to it are those of its chain, those above are gone up to
-- the old head, and the stored blocks up to it are kept.
pub set_head-IsRewound :
    (config : ChainConfig) (n : ℕ) (head : ℕ) (bc : RootChain)
    → IsStore bc
    → IsCanonical bc
    → bc.blocks 0 ≡ none
    → (bc' : RootChain) × (set_head config (suc n) head bc ≡ ok bc') × IsRewound bc head bc'
unfolding set_head load_last_state get_block
set_head-IsRewound config n head bc h c no_empty =
    let hb : IsStored bc bc.current = (
      c.has_current,
      OnChain-Rooted bc.blocks bc.canonical bc.genesis_block bc.current c.on_chain,
    ) in
    let (a, deleted, eq, r) =
      rewind_loop-Rewinding (bc.current.header.number + 1) bc head bc.current h hb (omega arith) in
    let done : IsRewound bc head (rewound a deleted bc) =
      rewound-IsRewound bc head a deleted h c r in
    let not_empty : (a.header.hash == 0) ≡ false = elim (Bool-cases (a.header.hash == 0)) [
      | inl e ↦ cc (r.stored.0, no_empty, (==_iff a.header.hash 0).0 e)
      | inr e ↦ e
    ] in
    let found : (delete_root_blocks deleted bc).blocks a.header.hash ≡ some a =
      done.canonical.has_current in
    (rewound a deleted bc, rw eq (rw (not_empty, found) refl), done)
