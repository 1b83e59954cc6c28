-- ===== src/Chain/Hashes.antt =====
-- core/rootblockchain.go: what GetBlockHashesFromHash collects.
use goquarkchain.Prelude.{
  ℕ, zero, suc, ◌<◌, min, ◌≡◌, inl, inr, sym, ap, ◌∙◌, none, some, List, [], ◌∷◌, length, get_elem?,
  ltb, ltb→lt, ltb→le, ◌==◌, ==_iff, Bool-cases, arith,
}
use goquarkchain.Core.RootValidator.{RootBlock}
use goquarkchain.Chain.Store.{RootChain, get_block}
use goquarkchain.Chain.Canonical.{Rooted-IsParent, Rooted-genesis, IsStore, IsParent}
use goquarkchain.Chain.Meeting.{IsStored, parent-IsStored}
use goquarkchain.Chain.Ancestor.{walk_up, walk_up-parent, hashes_loop, get_block_hashes_from_hash}

-- The list has a hash for each ancestor within reach, the nearest first.
pub record AreAncestors (bc : RootChain) (b : RootBlock) (max : ℕ) (hashes : List ℕ) : Type 0 where
  pub count : length hashes ≡ min max b.header.number
  pub each :
      (i : ℕ)
      → i < length hashes
      → (a : RootBlock) × (walk_up bc.blocks (suc i) b ≡ some a)
        × (get_elem? hashes i ≡ some a.header.hash)

AreAncestors-none :
    (bc : RootChain) (b : RootBlock) (max : ℕ)
    → min max b.header.number ≡ 0
    → AreAncestors bc b max []
AreAncestors-none bc b max e = record { count = sym e; each = λ i lt. absurd (omega (arith, lt)) }

AreAncestors-one :
    (bc : RootChain) (b p : RootBlock) (max : ℕ) (rest : List ℕ)
    → IsParent bc.blocks b p
    → p.header.hash ≡ b.header.parent_hash
    → AreAncestors bc p max rest
    → AreAncestors bc b (suc max) (b.header.parent_hash ∷ rest)
unfolding walk_up
AreAncestors-one bc b p max rest parent keyed below = record {
  count = omega (arith, below.count, parent.next);
  each = each;
}
  where
    each :
        (i : ℕ)
        → i < suc (length rest)
        → (a : RootBlock) × (walk_up bc.blocks (suc i) b ≡ some a)
          × (get_elem? (b.header.parent_hash ∷ rest) i ≡ some a.header.hash)
    each zero lt = (p, walk_up-parent bc.blocks 0 b p parent.stored, ap some (sym keyed))
    each (suc i) lt =
        let (a, walked, found) = below.each i (omega arith) in
        (a, walk_up-parent bc.blocks (suc i) b p parent.stored ∙ walked, found)

hashes_loop-AreAncestors :
    (bc : RootChain) (n : ℕ) (b : RootBlock)
    → IsStore bc
    → IsStored bc b
    → bc.blocks bc.genesis_block.header.parent_hash ≡ none
    → AreAncestors bc b n (hashes_loop bc n b)
unfolding hashes_loop get_block
hashes_loop-AreAncestors bc zero b h hb lowest = AreAncestors-none bc b 0 (omega arith)
hashes_loop-AreAncestors bc (suc n) b h hb lowest = elim (Bool-cases (ltb 0 b.header.number)) [
  | inr low ↦
      let zero_b : b.header.number ≡ 0 = omega (arith, ltb→le 0 _ low) in
      let one : b ≡ bc.genesis_block = Rooted-genesis bc.blocks bc.genesis_block b hb.1 zero_b in
      let missing : bc.blocks b.header.parent_hash ≡ none =
        ap (λ x. bc.blocks x.header.parent_hash) one ∙ lowest in
      rw (missing, hashes_loop) (AreAncestors-none bc b (suc n) (omega (arith, zero_b)))
  | inl high ↦
      let (p, parent, rest) =
        Rooted-IsParent bc.blocks bc.genesis_block b h.lowest (ltb→lt 0 _ high) hb.1 in
      let keyed = h.keyed b.header.parent_hash p parent.stored in
      elim (Bool-cases (p.header.number == 0)) [
        | inl last ↦
            rw (parent.stored, last, hashes_loop)
              (AreAncestors-one bc b p n [] parent keyed
                (AreAncestors-none bc p n (omega (arith, (==_iff _ _).0 last))))
        | inr more ↦
            rw (parent.stored, more, hashes_loop)
              (AreAncestors-one bc b p n (hashes_loop bc n p) parent keyed
                (hashes_loop-AreAncestors bc n p h (parent-IsStored bc b p h parent) lowest))
      ]
]

-- In a store that is in order, and whose genesis has no stored parent, GetBlockHashesFromHash of a
-- stored block gives the hashes of its ancestors, the nearest first: as many as asked for, or all
-- down to the genesis.
pub get_block_hashes_from_hash-AreAncestors :
    (bc : RootChain) (max : ℕ) (b : RootBlock)
    → IsStore bc
    → bc.blocks b.header.hash ≡ some b
    → bc.blocks bc.genesis_block.header.parent_hash ≡ none
    → AreAncestors bc b max (get_block_hashes_from_hash bc b.header.hash max)
unfolding get_block_hashes_from_hash get_block
get_block_hashes_from_hash-AreAncestors bc max b h stored lowest =
    rw (stored, get_block_hashes_from_hash)
      (hashes_loop-AreAncestors bc max b h (stored, h.rooted b.header.hash b stored) lowest)
