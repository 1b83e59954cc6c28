-- ===== src/Sync/Bound.antt =====
-- The searches of cluster/sync/root_task.go and minor_task.go with any peer.
use goquarkchain.Prelude.{
  ℕ, ◌+◌, ◌^◌, ◌≤◌, ◌<◌, ◌≡◌, ◌≢◌, inl, inr, subst, Bool, true, false, none, some, List, All, ltb,
  ◌==◌, if◌then◌else◌, ltb→le, ltb→lt, ok, err, Bool-cases, arith,
}
use goquarkchain.Sync.Types.{out_of_fuel, Header}
use goquarkchain.Sync.Ancestor.{
  sub_word, search_loop, RootPeer, MinorPeer, root_ask, root_find_ancestor, minor_ask,
  minor_find_ancestor,
}
use goquarkchain.Sync.Answers.{
  root_ask-Answers, minor_ask-Answers, root_ask_answer, minor_ask_answer,
}
use goquarkchain.Sync.Search.{IsOursAtZero, search_loop_total, search_loop-Ours}
use goquarkchain.Sync.Agreement.{sub_word_lem}

-- Every header of height 0 that the peer ever answers with is one that our chain has.
abbrev pub AnswersOurGenesis : RootPeer → (ℕ → Bool) → Type 0
AnswersOurGenesis peer has_block =
    (n start skip limit : ℕ) (peer_tip : Header) (headers : List Header)
    → peer n start skip limit ≡ some (peer_tip, headers)
    → All (IsOursAtZero has_block) headers

abbrev pub MinorAnswersOurGenesis : MinorPeer → (ℕ → Bool) → Type 0
MinorAnswersOurGenesis peer has_block =
    (n start skip limit : ℕ) (headers : List Header)
    → peer n start skip limit ≡ some headers
    → All (IsOursAtZero has_block) headers

-- Where the search begins, for a tip at that height.
abbrev window_start : ℕ → ℕ → ℕ → ℕ
window_start w height staleness = if ltb height staleness then 0 else sub_word w height staleness

at_zero :
    (w height staleness : ℕ) → height < w → window_start w height staleness ≡ 0 → height ≤ staleness
at_zero w height staleness small eq = elim (Bool-cases (ltb height staleness)) [
  | inl young ↦ omega (arith, ltb→lt height staleness young)
  | inr old ↦
      let le = ltb→le height staleness old in
      let long : sub_word w height staleness ≡ 0 = rw old at eq in
      omega (arith, sub_word_lem w height staleness le small)
]

-- The search of a root task ends against any peer: for a tip below the last height of a word, and,
-- if the tip is at most `staleness` blocks high, so that the search reaches back to the genesis, for
-- a peer whose answers have no header of height 0 but of blocks that our chain has, `findAncestor`
-- never needs more rounds than the heights up to the lower of the two tips; whatever else the peer
-- answers, it returns a header, no header or an error.
pub root_find_ancestor_total :
    (peer : RootPeer) (staleness : ℕ) (has_block : ℕ → Bool) (tip target : Header)
    → tip.number + 1 < 2 ^ 32
    → (tip.number ≤ staleness → AnswersOurGenesis peer has_block)
    → root_find_ancestor peer staleness has_block tip target ≢ err out_of_fuel
unfolding root_find_ancestor
root_find_ancestor_total peer staleness has_block tip target small anchored =
    no_fuel (target.parent_hash == tip.hash)
      (if ltb target.number tip.number then target.number else tip.number) (ground arith)
  where
    no_fuel :
        (b : Bool) (end : ℕ)
        → end ≤ tip.number
        → (if b
            then ok (some tip, target)
            else search_loop true
                (2 ^ 32)
                has_block
                (root_ask peer)
                (end + 2)
                0
                target
                (window_start (2 ^ 32) tip.number staleness)
                end
                none)
          ≢ err out_of_fuel
    no_fuel true end le = λ e. cc
    no_fuel false end le =
        search_loop_total true (2 ^ 32) has_block tip.number small (root_ask peer)
          (root_ask-Answers peer) (end + 2) 0 target (window_start (2 ^ 32) tip.number staleness)
          end none le (omega arith)
          (λ z n t s e rhs t' got.
            let (skip, limit, peer_tip, eq) = root_ask_answer peer n t s e rhs t' got in
            anchored (at_zero (2 ^ 32) tip.number staleness (omega arith) z) n s skip limit peer_tip
              rhs eq)
          tt

-- The search of a minor task ends as well, under the same conditions on words of 64 bits.
pub minor_find_ancestor_total :
    (peer : MinorPeer) (staleness : ℕ) (has_block : ℕ → Bool) (tip target : Header)
    → tip.number + 1 < 2 ^ 64
    → (tip.number ≤ staleness → MinorAnswersOurGenesis peer has_block)
    → minor_find_ancestor peer staleness has_block tip target ≢ err out_of_fuel
unfolding minor_find_ancestor
minor_find_ancestor_total peer staleness has_block tip target small anchored =
    no_fuel (target.hash == tip.hash)
      (if ltb target.number tip.number then target.number else tip.number) (ground arith)
  where
    no_fuel :
        (b : Bool) (end : ℕ)
        → end ≤ tip.number
        → (if b
            then ok (some tip, target)
            else search_loop false
                (2 ^ 64)
                has_block
                (minor_ask peer)
                (end + 2)
                0
                target
                (window_start (2 ^ 64) tip.number staleness)
                end
                none)
          ≢ err out_of_fuel
    no_fuel true end le = λ e. cc
    no_fuel false end le =
        search_loop_total false (2 ^ 64) has_block tip.number small (minor_ask peer)
          (minor_ask-Answers peer) (end + 2) 0 target (window_start (2 ^ 64) tip.number staleness)
          end none le (omega arith)
          (λ z n t s e rhs t' got.
            let (skip, limit, eq) = minor_ask_answer peer n t s e rhs t' got in
            anchored (at_zero (2 ^ 64) tip.number staleness (omega arith) z) n s skip limit rhs eq)
          tt

-- A header that the search of a root task returns is one of ours: our chain has its block, and it is
-- no higher than our tip, for a tip below the last height of a word that our chain has, and, if the
-- tip is at most `staleness` blocks high, for a peer whose answers have no header of height 0 but of
-- blocks that our chain has.
pub root_find_ancestor-Ours :
    (peer : RootPeer) (staleness : ℕ) (has_block : ℕ → Bool) (tip target a target' : Header)
    → tip.number + 1 < 2 ^ 32
    → (tip.number ≤ staleness → AnswersOurGenesis peer has_block)
    → has_block tip.hash ≡ true
    → root_find_ancestor peer staleness has_block tip target ≡ ok (some a, target')
    → (has_block a.hash ≡ true) × (a.number ≤ tip.number)
unfolding root_find_ancestor
root_find_ancestor-Ours peer staleness has_block tip target a target' small anchored have =
    ours (target.parent_hash == tip.hash)
      (if ltb target.number tip.number then target.number else tip.number) (ground arith)
  where
    ours :
        (b : Bool) (end : ℕ)
        → end ≤ tip.number
        → (if b
            then ok (some tip, target)
            else search_loop true
                (2 ^ 32)
                has_block
                (root_ask peer)
                (end + 2)
                0
                target
                (window_start (2 ^ 32) tip.number staleness)
                end
                none)
          ≡ ok (some a, target')
        → (has_block a.hash ≡ true) × (a.number ≤ tip.number)
    ours true end le e =
        let same : tip ≡ a = cc in
        subst (λ x. (has_block x.hash ≡ true) × (x.number ≤ tip.number)) same (have, omega arith)
    ours false end le e =
        search_loop-Ours true (2 ^ 32) has_block tip.number small (root_ask peer) (end + 2) 0 target
          (window_start (2 ^ 32) tip.number staleness) end none (some a) target' le
          (λ z n t s e rhs t' got.
            let (skip, limit, peer_tip, eq) = root_ask_answer peer n t s e rhs t' got in
            anchored (at_zero (2 ^ 32) tip.number staleness (omega arith) z) n s skip limit peer_tip
              rhs eq)
          tt e
