-- ===== src/Sync/Catchup.antt =====
-- A task that runs against an honest node: cluster/sync/task.go and root_task.go against
-- cluster/master/handle.go.
use goquarkchain.Prelude.{ℕ, ◌+◌, ◌^◌, ◌≤◌, ◌<◌, ◌≡◌, true, some, List, ok}
use goquarkchain.Sync.Types.{Header}
use goquarkchain.Sync.Samples.{samples}
use goquarkchain.Sync.Task.{Ops}

-- The part of a chain above the height a, in headers c and blocks b: it is linked and sealed, a node
-- sends its blocks, and adding them one by one takes our chain from `state a` up to `state top`.
pub record Extends {X B : Type 0} (ops : Ops X B) (c : ℕ → Header) (b : ℕ → B) (state : ℕ → X)
    (a top : ℕ) : Type 0 where
  pub linked : (h : ℕ) → a ≤ h → h < top → (c (h + 1)).parent_hash ≡ (c h).hash
  pub sealed : (x : X) (h : ℕ) → a < h → h ≤ top → ops.validate_seal x (c h) ≡ true
  pub header_of_block : (h : ℕ) → a < h → h ≤ top → ops.header_of (b h) ≡ c h
  pub sent :
      (n s count : ℕ)
      → a < s
      → s + count ≤ top + 1
      → ops.get_blocks n (samples (λ h. (c h).hash) s 1 count) ≡ some (samples b s 1 count)
  pub added :
      (h : ℕ)
      → a ≤ h
      → h < top
      → (x : X) × (ops.sync_block (state h) (b (h + 1)) ≡ ok x)
        × (ops.add_block x (b (h + 1)) ≡ ok (state (h + 1)))

module _ {X B : Type 0} (ops : Ops X B) (c : ℕ → Header) (b : ℕ → B) (state : ℕ → X) (a top : ℕ)
    (ext : Extends ops c b state a top) (small : top + 1 < 2 ^ 32)
    (numbered : (h : ℕ) → h ≤ top → (c h).number ≡ h) where
  hashes : ℕ → ℕ → List ℕ
  hashes s count = samples (λ h. (c h).hash) s 1 count
