-- ===== src/Sync/Meeting.antt =====
-- Where a root task that asks an honest node meets that node's chain: cluster/sync/root_task.go
-- against cluster/master/handle.go.
use goquarkchain.Prelude.{
  ℕ, ◌+◌, ◌^◌, ◌≤◌, ◌<◌, ◌≡◌, ◌≢◌, inl, inr, Bool, true, false, none, some, ltb, leb, ◌==◌,
  if◌then◌else◌, ltb→le, ok, Bool-cases, arith,
}
use goquarkchain.Sync.Types.{Header}
use goquarkchain.Sync.Ancestor.{sub_word, search_loop, root_find_ancestor, root_ask}
use goquarkchain.Sync.Server.{Chain}
use goquarkchain.Sync.Agreement.{served_by, IsCanonical, search_loop_shared, sub_word_lem}

-- The node's chain and ours have the blocks up to k in common and no higher one, the window of the
-- search covers k, and the target is at most as high as the node's tip.
pub record Meets (chain : Chain) (c : ℕ → Header) (staleness : ℕ) (has_block : ℕ → Bool)
    (tip target : Header) (k : ℕ) : Type 0 where
  pub canonical : IsCanonical chain c
  pub shared : (h : ℕ) → h ≤ chain.tip.number → has_block (c h).hash ≡ leb h k
  pub below_tip : k ≤ tip.number
  pub below_target : k ≤ target.number
  pub fresh : tip.number ≤ k + staleness
  pub target_covered : target.number ≤ chain.tip.number
  pub heavy : chain.tip.difficulty < chain.tip.total_difficulty
  pub heavier : target.difficulty < chain.tip.total_difficulty
  pub small : chain.tip.number + tip.number + 1 < 2 ^ 32

-- A root task that downloads from a node whose chain c shares exactly the blocks up to height k
-- with ours finds c k: under `Meets`, and when the target does not directly extend our tip,
-- `findAncestor` returns that header, with no error, for every position of k in the window. A task
-- that aims at the node's tip still does so then.
pub root_find_ancestor-Meets :
    (chain : Chain) (c : ℕ → Header) (staleness : ℕ) (has_block : ℕ → Bool) (tip target : Header)
    (k : ℕ)
    → Meets chain c staleness has_block tip target k
    → target.parent_hash ≢ tip.hash
    → (target' : Header) × (root_find_ancestor (served_by chain) staleness has_block tip target
        ≡ ok (some (c k), target'))
      × (target ≡ chain.tip → target' ≡ chain.tip)
unfolding root_find_ancestor
root_find_ancestor-Meets chain c staleness has_block tip target k meets apart =
    searched (if ltb tip.number staleness then 0 else sub_word (2 ^ 32) tip.number staleness)
      (if ltb target.number tip.number then target.number else tip.number) low_start end_above
      end_low end_covered
  where
    parted : (target.parent_hash == tip.hash) ≡ false
    parted = ground arith

    low_start : (if ltb tip.number staleness then 0 else sub_word (2 ^ 32) tip.number staleness) ≤ k
    low_start = elim (Bool-cases (ltb tip.number staleness)) [
      | inl young ↦ rw young (omega arith)
      | inr old ↦
          let le = ltb→le tip.number staleness old in
          rw (old, sub_word_lem (2 ^ 32) tip.number staleness le (omega (arith, meets.small)))
            (omega (arith, meets.fresh))
    ]

    end_above : k ≤ (if ltb target.number tip.number then target.number else tip.number)
    end_above = let a = meets.below_tip in let b = meets.below_target in ground arith

    end_low : (if ltb target.number tip.number then target.number else tip.number) ≤ tip.number
    end_low = ground arith

    end_covered :
        (if ltb target.number tip.number then target.number else tip.number) ≤ chain.tip.number
    end_covered = let a = meets.target_covered in ground arith

    searched :
        (start end : ℕ)
        → start ≤ k
        → k ≤ end
        → end ≤ tip.number
        → end ≤ chain.tip.number
        → (target' : Header) × ((if target.parent_hash == tip.hash
              then ok (some tip, target)
              else search_loop true
                  (2 ^ 32)
                  has_block
                  (root_ask (served_by chain))
                  (end + 2)
                  0
                  target
                  start
                  end
                  none)
            ≡ ok (some (c k), target'))
          × (target ≡ chain.tip → target' ≡ chain.tip)
    searched start end low high bounded covered =
        let (t, eq, moved) =
          search_loop_shared chain c meets.canonical has_block k end covered
            (omega (arith, meets.small)) (λ h q. meets.shared h (omega arith)) meets.heavy (end + 2)
            0 start end target none (omega arith) (omega arith) (high, inl low) meets.heavier in
        (t, rw parted eq, moved)
