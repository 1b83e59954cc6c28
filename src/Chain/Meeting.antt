-- ===== src/Chain/Meeting.antt =====
-- core/rootblockchain.go: the two loops of reorg on a store that is in order.
use goquarkchain.Prelude.{
  ℕ, zero, suc, ◌+◌, ◌≤◌, ◌<◌, ◌≡◌, inl, inr, refl, sym, ap, ◌∙◌, subst, some, List, [], ◌∷◌, ◌++◌,
  ltb, ltb→lt, ltb→le, ◌==◌, ==_iff, Bool-cases, ok, arith,
}
use goquarkchain.Core.RootValidator.{MinorHeader, RootBlock}
use goquarkchain.Chain.Store.{RootChain, get_block}
use goquarkchain.Chain.Reorg.{Fork, passing, reduce, meet, level, listed_headers}
use goquarkchain.Chain.Canonical.{
  IsParent, Rooted, IsStore, Rooted-genesis, Rooted-IsParent, Segment, Segment-append,
}

-- A block that is in the store and stands on the genesis.
abbrev pub IsStored : RootChain → RootBlock → Type 0
IsStored bc b = (bc.blocks b.header.hash ≡ some b) × Rooted bc.blocks bc.genesis_block b

pub parent-IsStored :
    (bc : RootChain) (b p : RootBlock) → IsStore bc → IsParent bc.blocks b p → IsStored bc p
parent-IsStored bc b p h parent = (
  ap bc.blocks (h.keyed b.header.parent_hash p parent.stored) ∙ parent.stored,
  h.rooted b.header.parent_hash p parent.stored,
)

-- From a stored block the loop comes down to any height below.
pub reduce-Segment :
    (n : ℕ) (bc : RootChain) (target : ℕ) (b : RootBlock)
    → IsStore bc
    → IsStored bc b
    → target ≤ b.header.number
    → b.header.number < target + n
    → (a : RootBlock) × (passed : List RootBlock) × (reduce n bc target (some b)
        ≡ ok (some a, passed))
      × (a.header.number ≡ target)
      × IsStored bc a
      × Segment bc.blocks b passed a
unfolding reduce get_block
reduce-Segment zero bc target b h stored low fuel = absurd (omega arith)
reduce-Segment (suc n) bc target b h stored low fuel =
    elim (Bool-cases (b.header.number == target)) [
      | inl e ↦ (b, [], rw e refl, (==_iff b.header.number target).0 e, stored, Segment.done b)
      | inr e ↦
          let high : target < b.header.number = ground arith in
          let (p, parent, rest) =
            Rooted-IsParent bc.blocks bc.genesis_block b h.lowest (omega arith) stored.1 in
          let (a, passed, eq, at_target, ha, way) =
            reduce-Segment n bc target p h (parent-IsStored bc b p h parent)
              (omega (arith, parent.next)) (omega (arith, parent.next)) in
          (
            a,
            b ∷ passed,
            rw e (rw parent.stored (rw eq refl)),
            at_target,
            ha,
            Segment.down b p a passed parent way,
          )
    ]

-- Two ways to one block.
pub record IsFork (bc : RootChain) (old new : RootBlock) (fork : Fork) : Type 0 where
  pub old_way : Segment bc.blocks old fork.old_chain fork.common_block
  pub new_way : Segment bc.blocks new fork.new_chain fork.common_block

-- From two stored blocks of one height the loop comes to a block of both chains.
pub meet-IsFork :
    (n : ℕ) (bc : RootChain) (old new : RootBlock)
    → IsStore bc
    → IsStored bc old
    → IsStored bc new
    → old.header.number ≡ new.header.number
    → old.header.number < n
    → (fork : Fork) × (meet n bc old new ≡ ok fork) × IsFork bc old new fork
unfolding meet get_block
meet-IsFork zero bc old new h ho hn same fuel = absurd (omega arith)
meet-IsFork (suc n) bc old new h ho hn same fuel =
    elim (Bool-cases (old.header.hash == new.header.hash)) [
      | inl e ↦
          let one : old ≡ new = cc (ho.0, hn.0, (==_iff old.header.hash new.header.hash).0 e) in
          (
            record { common_block = old; old_chain = []; new_chain = [] },
            rw e refl,
            record {
              old_way = Segment.done old;
              new_way = subst (λ x. Segment bc.blocks x [] old) one (Segment.done old);
            },
          )
      | inr e ↦ elim (Bool-cases (ltb 0 old.header.number)) [
        | inl high ↦
            let (p, po, ro) =
              Rooted-IsParent bc.blocks bc.genesis_block old h.lowest (ltb→lt 0 _ high) ho.1 in
            let (q, pn, rn) =
              Rooted-IsParent bc.blocks bc.genesis_block new h.lowest
                (omega (arith, ltb→lt 0 _ high)) hn.1 in
            let (fork, eq, hf) =
              meet-IsFork n bc p q h (parent-IsStored bc old p h po) (parent-IsStored bc new q h pn)
                (omega (arith, po.next, pn.next)) (omega (arith, po.next)) in
            (
              passing old new fork,
              rw e (rw (po.stored, pn.stored) (rw eq refl)),
              record {
                old_way = Segment.down old p fork.common_block fork.old_chain po hf.old_way;
                new_way = Segment.down new q fork.common_block fork.new_chain pn hf.new_way;
              },
            )
        | inr low ↦
            let zero_old : old.header.number ≡ 0 = omega (arith, ltb→le 0 _ low) in
            let one : old ≡ new =
              Rooted-genesis bc.blocks bc.genesis_block old ho.1 zero_old
              ∙ sym (Rooted-genesis bc.blocks bc.genesis_block new hn.1 (sym same ∙ zero_old)) in
            cc (e, (==_iff old.header.hash new.header.hash).1 (ap (λ x. x.header.hash) one))
      ]
    ]

-- Both blocks are brought to a common one, whichever is higher.
pub level-IsFork :
    (bc : RootChain) (old new : RootBlock)
    → IsStore bc
    → IsStored bc old
    → IsStored bc new
    → (fork : Fork) × (deleted : List MinorHeader) × (level
          (old.header.number + new.header.number + 1)
          bc
          old
          new
        ≡ ok (fork, deleted))
      × IsFork bc old new fork
unfolding level listed_headers
level-IsFork bc old new h ho hn = elim (Bool-cases (ltb new.header.number old.header.number)) [
  | inl e ↦
      let (a, passed, eq, height, ha, way) =
        reduce-Segment n bc new.header.number old h ho (omega (arith, ltb→lt new.header.number _ e))
          (omega arith) in
      let (fork, eq', hf) = meet-IsFork n bc a new h ha hn height (omega (arith, height)) in
      (
        record fork { old_chain = passed ++ fork.old_chain },
        listed_headers passed,
        rw e (rw eq (rw eq' refl)),
        record {
          old_way =
              Segment-append bc.blocks old a fork.common_block passed fork.old_chain way hf.old_way;
          new_way = hf.new_way;
        },
      )
  | inr e ↦
      let (a, passed, eq, height, ha, way) =
        reduce-Segment n bc old.header.number new h hn (ltb→le new.header.number _ e)
          (omega arith) in
      let (fork, eq', hf) = meet-IsFork n bc old a h ho ha (sym height) (omega arith) in
      (
        record fork { new_chain = passed ++ fork.new_chain },
        [],
        rw e (rw eq (rw eq' refl)),
        record {
          old_way = hf.old_way;
          new_way =
              Segment-append bc.blocks new a fork.common_block passed fork.new_chain way hf.new_way;
        },
      )
]
  where
    n : ℕ
    n = old.header.number + new.header.number + 1
