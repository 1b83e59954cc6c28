-- ===== src/Chain/Ancestor.antt =====
-- core/rootblockchain.go: GetBlockByNumber, GetAncestor and GetBlockHashesFromHash, and the walk along
-- parents that they are measured against.
use goquarkchain.Prelude.{
  ℕ, zero, suc, ◌+◌, ◌-◌, ◌≤◌, ◌≡◌, inl, inr, refl, sym, ap, ap₂, ◌∙◌, subst, false, Option, none,
  some, List, [], ◌∷◌, ltb, le→ltb, ◌==◌, ==_iff, Bool-cases, if◌then◌else◌, arith,
}
use goquarkchain.Core.RootValidator.{RootBlock}
use goquarkchain.Chain.Store.{RootChain, get_block, get_block_by_number}
use goquarkchain.Chain.Canonical.{
  Blocks, Rooted-IsParent, OnChain, OnChain-hash, OnChain-parent, OnChain-Rooted, IsStore,
  IsCanonical,
}
use goquarkchain.Chain.Meeting.{IsStored, parent-IsStored}

-- The n-th ancestor, one parent after the other.
unfoldable pub walk_up : Blocks → ℕ → RootBlock → Option RootBlock
walk_up blocks zero b = some b
walk_up blocks (suc n) b = elim (blocks b.header.parent_hash) [
  | none ↦ none
  | some p ↦ walk_up blocks n p
]

abbrev Answer : Type 0
Answer = (ℕ × ℕ) × ℕ

-- The loop of `GetAncestor`; the counter comes back with the answer.
unfoldable pub ancestor_loop : RootChain → ℕ → ℕ → ℕ → ℕ → Answer
unfolding get_block
ancestor_loop bc zero hash number max_non_canonical = ((hash, number), max_non_canonical)
ancestor_loop bc (suc n) hash number max_non_canonical =
    let below : RootBlock → Answer =
      λ b. ancestor_loop bc n b.header.parent_hash (number - 1) (max_non_canonical - 1) in
    if bc.canonical number == hash
    then ((bc.canonical (number - suc n), number - suc n), max_non_canonical)
    else if max_non_canonical == 0
    then ((0, 0), max_non_canonical)
    else elim (get_block bc hash) [ none ↦ ((0, 0), max_non_canonical - 1) | some b ↦ below b ]

unfoldable pub get_ancestor : RootChain → ℕ → ℕ → ℕ → ℕ → Answer
unfolding ancestor_loop get_block
get_ancestor bc hash number ancestor max_non_canonical =
    if ltb number ancestor
    then ((0, 0), max_non_canonical)
    else if ancestor == 1
    then elim (get_block bc hash) [
      | none ↦ ((0, 0), max_non_canonical)
      | some b ↦ ((b.header.parent_hash, number - 1), max_non_canonical)
    ]
    else ancestor_loop bc ancestor hash number max_non_canonical

unfoldable pub hashes_loop : RootChain → ℕ → RootBlock → List ℕ
unfolding get_block
hashes_loop bc zero b = []
hashes_loop bc (suc n) b = elim (get_block bc b.header.parent_hash) [
  | none ↦ []
  | some p ↦
      let rest = hashes_loop bc n p in
      b.header.parent_hash ∷ (if p.header.number == 0 then [] else rest)
]

unfoldable pub get_block_hashes_from_hash : RootChain → ℕ → ℕ → List ℕ
unfolding hashes_loop get_block
get_block_hashes_from_hash bc hash max = elim (get_block bc hash) [
  | none ↦ []
  | some b ↦ hashes_loop bc max b
]

pub walk_up-parent :
    (blocks : Blocks) (n : ℕ) (b p : RootBlock)
    → blocks b.header.parent_hash ≡ some p
    → walk_up blocks (suc n) b ≡ walk_up blocks n p
unfolding walk_up
walk_up-parent blocks n b p e = rw (e, walk_up) refl

-- A stored block of the chain has its ancestors on the chain, down to the genesis.
pub record IsAncestor (bc : RootChain) (n : ℕ) (b a : RootBlock) : Type 0 where
  pub walked : walk_up bc.blocks n b ≡ some a
  pub height : a.header.number + n ≡ b.header.number
  pub stored : IsStored bc a

pub stored-IsAncestor :
    (bc : RootChain) (n : ℕ) (b : RootBlock)
    → IsStore bc
    → IsStored bc b
    → n ≤ b.header.number
    → (a : RootBlock) × IsAncestor bc n b a
unfolding walk_up
stored-IsAncestor bc zero b h hb le =
    (b, record { walked = refl; height = omega arith; stored = hb })
stored-IsAncestor bc (suc n) b h hb le =
    let (p, parent, rest) =
      Rooted-IsParent bc.blocks bc.genesis_block b h.lowest (omega arith) hb.1 in
    let (a, ih) =
      stored-IsAncestor bc n p h (parent-IsStored bc b p h parent) (omega (arith, parent.next)) in
    (
      a,
      record {
        walked = walk_up-parent bc.blocks n b p parent.stored ∙ ih.walked;
        height = omega (arith, ih.height, parent.next);
        stored = ih.stored;
      },
    )

pub ancestor-OnChain :
    (bc : RootChain) (canonical : ℕ → ℕ) (n : ℕ) (b a : RootBlock)
    → IsStore bc
    → OnChain bc.blocks canonical bc.genesis_block b
    → n ≤ b.header.number
    → walk_up bc.blocks n b ≡ some a
    → OnChain bc.blocks canonical bc.genesis_block a
unfolding walk_up
ancestor-OnChain bc canonical zero b a h chain le e =
    let one : b ≡ a = cc in subst (OnChain bc.blocks canonical bc.genesis_block) one chain
ancestor-OnChain bc canonical (suc n) b a h chain le e =
    let (p, parent, rest) =
      Rooted-IsParent bc.blocks bc.genesis_block b h.lowest (omega arith)
        (OnChain-Rooted bc.blocks canonical bc.genesis_block b chain) in
    ancestor-OnChain bc canonical n p a h
      (OnChain-parent bc.blocks canonical bc.genesis_block b p h.lowest parent chain)
      (omega (arith, parent.next)) (sym (walk_up-parent bc.blocks n b p parent.stored) ∙ e)

-- The canonical hash of a height up to the head is that of the head's ancestor at that height.
pub canonical-IsAncestor :
    (bc : RootChain) (k : ℕ)
    → IsStore bc
    → IsCanonical bc
    → k ≤ bc.current.header.number
    → (a : RootBlock) × IsAncestor bc (bc.current.header.number - k) bc.current a
      × (bc.canonical k ≡ a.header.hash)
      × OnChain bc.blocks bc.canonical bc.genesis_block a
canonical-IsAncestor bc k h c le =
    let n : ℕ = bc.current.header.number - k in
    let stored : IsStored bc bc.current = (
      c.has_current,
      OnChain-Rooted bc.blocks bc.canonical bc.genesis_block bc.current c.on_chain,
    ) in
    let (a, ha) = stored-IsAncestor bc n bc.current h stored (omega arith) in
    let chain =
      ancestor-OnChain bc bc.canonical n bc.current a h c.on_chain (omega arith) ha.walked in
    (
      a,
      ha,
      ap bc.canonical {x = k} {y = a.header.number} (omega (arith, ha.height))
          ∙ OnChain-hash bc.blocks bc.canonical bc.genesis_block a chain,
      chain,
    )

-- In a store that is in order and has no block of the empty hash, the block that GetBlockByNumber
-- finds at a height up to the head is the head's ancestor at that height.
pub get_block_by_number-walk_up :
    (bc : RootChain) (k : ℕ)
    → IsStore bc
    → IsCanonical bc
    → bc.blocks 0 ≡ none
    → k ≤ bc.current.header.number
    → get_block_by_number bc k ≡ walk_up bc.blocks (bc.current.header.number - k) bc.current
unfolding get_block_by_number get_block
get_block_by_number-walk_up bc k h c no_empty le =
    let (a, ha, eq, chain) = canonical-IsAncestor bc k h c le in
    let found : bc.blocks (bc.canonical k) ≡ some a = ap bc.blocks eq ∙ ha.stored.0 in
    elim (Bool-cases (bc.canonical k == 0)) [
      | inl e ↦ cc (found, no_empty, (==_iff (bc.canonical k) 0).0 e)
      | inr e ↦ rw e (found ∙ sym ha.walked)
    ]

-- A stored block that has the canonical hash of its height is on the chain.
marked-OnChain :
    (bc : RootChain) (b : RootBlock)
    → IsStore bc
    → IsCanonical bc
    → IsStored bc b
    → b.header.number ≤ bc.current.header.number
    → bc.canonical b.header.number ≡ b.header.hash
    → OnChain bc.blocks bc.canonical bc.genesis_block b
marked-OnChain bc b h c hb le e =
    let (a, ha, eq, chain) = canonical-IsAncestor bc b.header.number h c le in
    let one : a ≡ b = cc (ha.stored.0, hb.0, eq, e) in
    subst (OnChain bc.blocks bc.canonical bc.genesis_block) one chain

ancestor_loop-walk_up :
    (bc : RootChain) (n m : ℕ) (b : RootBlock)
    → IsStore bc
    → IsCanonical bc
    → IsStored bc b
    → b.header.number ≤ bc.current.header.number
    → n ≤ b.header.number
    → n ≤ m
    → (a : RootBlock) × (walk_up bc.blocks n b ≡ some a)
      × ((ancestor_loop bc n b.header.hash b.header.number m).0
          ≡ (a.header.hash, b.header.number - n))
unfolding ancestor_loop get_block walk_up
ancestor_loop-walk_up bc zero m b h c hb top low enough =
    (b, refl, ap (λ k. (b.header.hash, k)) {x = b.header.number} (omega arith))
ancestor_loop-walk_up bc (suc n) m b h c hb top low enough =
    let (p, parent, rest) =
      Rooted-IsParent bc.blocks bc.genesis_block b h.lowest (omega arith) hb.1 in
    elim (Bool-cases (bc.canonical b.header.number == b.header.hash)) [
      | inl e ↦
          let chain = marked-OnChain bc b h c hb top ((==_iff _ _).0 e) in
          let (a, ha) = stored-IsAncestor bc (suc n) b h hb low in
          let lower = ancestor-OnChain bc bc.canonical (suc n) b a h chain low ha.walked in
          (
            a,
            ha.walked,
            rw e (
                ap (λ k. (k, b.header.number - suc n))
                  (ap bc.canonical {x = b.header.number - suc n} {y = a.header.number}
                      (omega (arith, ha.height))
                    ∙ OnChain-hash bc.blocks bc.canonical bc.genesis_block a lower)),
          )
      | inr e ↦
          let (a, walked, eq) =
            ancestor_loop-walk_up bc n (m - 1) p h c (parent-IsStored bc b p h parent)
              (omega (arith, parent.next)) (omega (arith, parent.next)) (omega arith) in
          let some_left : (m == 0) ≡ false = ground arith in
          (
            a,
            walk_up-parent bc.blocks n b p parent.stored ∙ walked,
            rw (e, some_left, hb.0)
                (ap₂ (λ x y. (ancestor_loop bc n x y (m - 1)).0) {u = b.header.number - 1}
                    {v = p.header.number} (sym (h.keyed b.header.parent_hash p parent.stored))
                    (omega (arith, parent.next))
                  ∙ eq
                  ∙ ap (λ k. (a.header.hash, k)) {x = p.header.number - n}
                      {y = b.header.number - suc n} (omega (arith, parent.next))),
          )
    ]

-- In a store that is in order, GetAncestor of a stored block no higher than the head, with a counter
-- that is no smaller than the distance, is the hash and the height of the ancestor that the walk
-- along the parents comes to, for every distance down to the genesis.
pub get_ancestor-walk_up :
    (bc : RootChain) (n m : ℕ) (b : RootBlock)
    → IsStore bc
    → IsCanonical bc
    → bc.blocks b.header.hash ≡ some b
    → b.header.number ≤ bc.current.header.number
    → n ≤ b.header.number
    → n ≤ m
    → (a : RootBlock) × (walk_up bc.blocks n b ≡ some a)
      × ((get_ancestor bc b.header.hash b.header.number n m).0
          ≡ (a.header.hash, b.header.number - n))
unfolding get_ancestor get_block walk_up
get_ancestor-walk_up bc n m b h c stored top low enough = elim (Bool-cases (n == 1)) [
  | inl e ↦
      let (a, ha) = stored-IsAncestor bc n b h hb low in
      let first : walk_up bc.blocks 1 b ≡ some a =
        ap (λ k. walk_up bc.blocks k b) (sym ((==_iff n 1).0 e)) ∙ ha.walked in
      let (p, parent, rest) =
        Rooted-IsParent bc.blocks bc.genesis_block b h.lowest (omega (arith, (==_iff n 1).0 e))
          hb.1 in
      let one : some p ≡ some a = sym (walk_up-parent bc.blocks 0 b p parent.stored) ∙ first in
      let same : p ≡ a = cc in
      (
        a,
        ha.walked,
        rw (le→ltb b.header.number n low, e, stored)
            (ap₂ (λ (x y : ℕ). (x, y)) {u = b.header.number - 1} {v = b.header.number - n}
              (sym (h.keyed b.header.parent_hash p parent.stored) ∙ ap (λ x. x.header.hash) same)
              (omega (arith, (==_iff n 1).0 e))),
      )
  | inr e ↦
      let (a, walked, eq) = ancestor_loop-walk_up bc n m b h c hb top low enough in
      (a, walked, rw (le→ltb b.header.number n low, e) eq)
]
  where
    hb : IsStored bc b
    hb = (stored, h.rooted b.header.hash b stored)
