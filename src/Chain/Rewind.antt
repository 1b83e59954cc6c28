-- ===== src/Chain/Rewind.antt =====
-- core/rootblockchain.go: SetHead, loadLastState and Reset.
use goquarkchain.Prelude.{
  ℕ, zero, suc, ◌+◌, ◌-◌, ◌≤◌, ◌<◌, min, ◌≡◌, ◌≢◌, inl, inr, refl, ap, ◌∙◌, none, some, List, [],
  ◌∷◌, All, ltb, ltb→lt, ltb→le, ◌==◌, ==_iff, Bool-cases, if◌then◌else◌, Result, ok, err, ◌>>=◌,
  arith,
}
use goquarkchain.Core.RootValidator.{RootBlock}
use goquarkchain.Chain.Store.{RootChain, ChainConfig, at, get_block, write_root_block, insert}
use goquarkchain.Chain.Canonical.{Rooted-IsParent, IsStore, Segment}
use goquarkchain.Chain.Meeting.{IsStored, parent-IsStored}
use goquarkchain.Chain.Ancestor.{walk_up, walk_up-parent}

-- `nil_current` is the panic of storing a nil head; `out_of_fuel` stands for a loop that goes on.
pub data RewindError : Type 0 where
  nil_current out_of_fuel : RewindError

-- The loop of `SetHead`: the block it stops at, and the blocks it deletes.
unfoldable pub rewind_loop :
    ℕ → RootChain → ℕ → RootBlock → Result RewindError (RootBlock × List RootBlock)
unfolding get_block
rewind_loop zero bc head b = err out_of_fuel
rewind_loop (suc n) bc head b =
    let below : RootBlock → Result RewindError (RootBlock × List RootBlock) =
      λ p. rewind_loop n bc head p >>= (λ (last, deleted). ok (last, b ∷ deleted)) in
    if ltb head b.header.number
    then elim (get_block bc b.header.parent_hash) [ none ↦ err nil_current | some p ↦ below p ]
    else ok (b, [])

-- `DeleteRootBlock` and `DeleteCanonicalHash`
abbrev pub delete_root_block : RootBlock → RootChain → RootChain
delete_root_block b bc = record bc {
  blocks = at b.header.hash none bc.blocks;
  latest_headers = at b.header.hash none bc.latest_headers;
  canonical = at b.header.number 0 bc.canonical;
}

unfoldable pub delete_root_blocks : List RootBlock → RootChain → RootChain
delete_root_blocks [] bc = bc
delete_root_blocks (b ∷ deleted) bc = delete_root_blocks deleted (delete_root_block b bc)

-- The head that is stored, or a reset.
unfoldable pub load_last_state :
    (RootChain → Result RewindError RootChain) → RootChain → Result RewindError RootChain
unfolding get_block
load_last_state reset bc =
    if bc.head_hash == 0 then reset bc else elim (get_block bc bc.head_hash) [
      | none ↦ reset bc
      | some b ↦ ok (record bc { current = b })
    ]

-- The writes of `ResetWithGenesisBlock` behind its `SetHead(0)`.
unfoldable pub write_genesis : ChainConfig → RootChain → RootChain
unfolding write_root_block insert
write_genesis config bc = insert config bc.genesis_block (write_root_block bc.genesis_block bc)

-- The writes of `SetHead` behind its loop.
abbrev pub rewound : RootBlock → List RootBlock → RootChain → RootChain
rewound last deleted bc = record (delete_root_blocks deleted bc) {
  future = λ h. none;
  current = last;
  head_hash = last.header.hash;
}

-- `n` bounds how often a reset calls SetHead again.
unfoldable pub set_head : ChainConfig → ℕ → ℕ → RootChain → Result RewindError RootChain
unfolding rewind_loop delete_root_blocks load_last_state write_genesis
set_head config zero head bc = err out_of_fuel
set_head config (suc n) head bc =
    let reset : RootChain → Result RewindError RootChain =
      λ x. set_head config n 0 x >>= (λ y. ok (write_genesis config y)) in
    rewind_loop (bc.current.header.number + 1) bc head bc.current
    >>= (λ (last, deleted). load_last_state reset (rewound last deleted bc))

-- The blocks from `b` down to the one above `a`: stored, and at the heights between.
abbrev pub AreBetween : RootChain → RootBlock → RootBlock → List RootBlock → Type 0
AreBetween bc a b deleted =
    All
      (λ x.
        (bc.blocks x.header.hash ≡ some x)
        × (a.header.number < x.header.number)
        × (x.header.number ≤ b.header.number))
      deleted

AreBetween-wider :
    (bc : RootChain) (a p b : RootBlock) (xs : List RootBlock)
    → p.header.number ≤ b.header.number
    → AreBetween bc a p xs
    → AreBetween bc a b xs
AreBetween-wider bc a p b [] le h = tt
AreBetween-wider bc a p b (x ∷ xs) le ((s, lo, hi), hs) =
    ((s, lo, omega arith), AreBetween-wider bc a p b xs le hs)

-- What the loop comes to on a stored block.
pub record Rewinding (bc : RootChain) (head : ℕ) (b a : RootBlock) (deleted : List RootBlock)
    : Type 0 where
  pub way : Segment bc.blocks b deleted a
  pub height : a.header.number ≡ min head b.header.number
  pub stored : IsStored bc a
  pub between : AreBetween bc a b deleted
  pub covers :
      (k : ℕ)
      → a.header.number < k
      → k ≤ b.header.number
      → All (λ x. x.header.number ≢ k) deleted
      → ⊥
  pub walked : walk_up bc.blocks (b.header.number - a.header.number) b ≡ some a

pub rewind_loop-Rewinding :
    (n : ℕ) (bc : RootChain) (head : ℕ) (b : RootBlock)
    → IsStore bc
    → IsStored bc b
    → b.header.number < n
    → (a : RootBlock) × (deleted : List RootBlock) × (rewind_loop n bc head b ≡ ok (a, deleted))
      × Rewinding bc head b a deleted
unfolding rewind_loop get_block walk_up
rewind_loop-Rewinding zero bc head b h hb fuel = absurd (omega arith)
rewind_loop-Rewinding (suc n) bc head b h hb fuel = elim (Bool-cases (ltb head b.header.number)) [
  | inr low ↦
      let le : b.header.number ≤ head = ltb→le head _ low in
      (
        b,
        [],
        rw low refl,
        record {
          way = Segment.done b;
          height = omega arith;
          stored = hb;
          between = tt;
          covers = λ k lo hi none_left. omega (arith, lo, hi);
          walked =
              ap (λ k. walk_up bc.blocks k b) {x = b.header.number - b.header.number} {y = 0}
                (omega arith);
        },
      )
  | inl high ↦
      let lt : head < b.header.number = ltb→lt head _ high in
      let (p, parent, rest) =
        Rooted-IsParent bc.blocks bc.genesis_block b h.lowest (omega arith) hb.1 in
      let (a, deleted, eq, ih) =
        rewind_loop-Rewinding n bc head p h (parent-IsStored bc b p h parent)
          (omega (arith, parent.next)) in
      (
        a,
        b ∷ deleted,
        rw (high, parent.stored) (rw eq refl),
        record {
          way = Segment.down b p a deleted parent ih.way;
          height = omega (arith, ih.height, parent.next);
          stored = ih.stored;
          between = (
            (hb.0, omega (arith, ih.height, parent.next), omega arith),
            AreBetween-wider bc a p b deleted (omega (arith, parent.next)) ih.between,
          );
          covers = λ k lo hi (not_b, others). elim (Bool-cases (b.header.number == k)) [
            | inl e ↦ not_b ((==_iff b.header.number k).0 e)
            | inr e ↦
                let lower : k ≤ p.header.number = ground (arith, parent.next) in
                ih.covers k lo lower others
          ];
          walked =
              ap (λ k. walk_up bc.blocks k b) {x = b.header.number - a.header.number}
                {y = suc (p.header.number - a.header.number)}
                (omega (arith, ih.height, parent.next))
              ∙ walk_up-parent bc.blocks (p.header.number - a.header.number) b p parent.stored
              ∙ ih.walked;
        },
      )
]
