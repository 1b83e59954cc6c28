-- ===== src/Sync/Task.antt =====
-- A sync task, cluster/sync/task.go, with what root_task.go and minor_task.go plug into it. The
-- chain is a state `X` with its operations; a block's type is `B`.
use goquarkchain.Prelude.{
  ℕ, zero, suc, ◌+◌, ◌-◌, ◌*◌, ◌%◌, ◌^◌, min, Bool, true, false, not, ◌||◌, Option, none, some,
  List, [], ◌∷◌, map, length, take, drop, ltb, leb, ◌==◌, if◌then◌else◌, Result, ok, err, ◌>>=◌,
  ◌>>◌, fail_if,
}
use goquarkchain.Sync.Types.{
  SyncError, out_of_fuel, bad_ancestor, nil_pointer, ancestor_td, wrong_parent, not_linked,
  wrong_number, bad_seal, unmatched_blocks, Header, root_block_header_list_limit,
  minor_block_header_list_limit,
}
use goquarkchain.Sync.Ancestor.{
  sub_word, RootPeer, MinorPeer, answer, root_download, minor_download, root_find_ancestor,
  minor_find_ancestor,
}

-- `blockchain` of sync.go, and the blocks that a peer sends for hashes in the n-th batch.
-- `sync_block` of a root task has the slaves add the minor blocks.
pub record Ops (X B : Type 0) : Type 0 where
  pub current : X → Header
  pub has_block : X → ℕ → Bool
  pub validate_seal : X → Header → Bool
  pub sync_block : X → B → Result SyncError X
  pub add_block : X → B → Result SyncError X
  pub header_of : B → Header
  pub get_blocks : ℕ → List ℕ → Option (List B)

-- What a root or a minor task plugs in. Each takes the header that the task aims at; `find_ancestor`
-- and `get_headers` return it, as a download may move it.
pub record Plug (X : Type 0) : Type 0 where
  pub max_sync_staleness : ℕ
  pub batch_size : ℕ
  pub find_ancestor : X → Header → Result SyncError (Option Header × Header)
  pub get_headers : ℕ → Header → Header → Result SyncError (List Header × Header)
  pub need_skip : X → Header → Bool

-- An error, with the chain as it was left.
abbrev pub Outcome : Type 0 → Type 0 → Type 0
Outcome X A = Result (SyncError × X) A

abbrev pub leaving : {X A : Type 0} → X → Result SyncError A → Outcome X A
leaving x (ok a) = ok a
leaving x (err why) = err (why, x)

-- `validateHeaderList`, from the header `prev` on.
unfoldable pub validate_header_list :
    (Header → Bool) → Option Header → List Header → Result SyncError (Unit {0})
validate_header_list sealed prev [] = ok tt
validate_header_list sealed none (h ∷ headers) =
    fail_if (not (sealed h)) bad_seal >> validate_header_list sealed (some h) headers
validate_header_list sealed (some prev) (h ∷ headers) =
    fail_if (not (h.number == (prev.number + 1) % 2 ^ 64)) wrong_number
    >> (fail_if (not (prev.hash == h.parent_hash)) not_linked
        >> (fail_if (not (sealed h)) bad_seal >> validate_header_list sealed (some h) headers))

module _ {X B : Type 0} (ops : Ops X B) where
  -- The loop over the blocks of a batch; it gives the last one's header.
  unfoldable pub add_blocks : X → Header → List B → Outcome X (X × Header)
  add_blocks x ancestor [] = ok (x, ancestor)
  add_blocks x ancestor (block ∷ blocks) = leaving x (ops.sync_block x block) >>= (λ x₁.
      leaving x₁ (ops.add_block x₁ block) >>= (λ x₂. add_blocks x₂ (ops.header_of block) blocks))

  -- The loop over the batches of hashes, on fuel; n counts the batches.
  unfoldable pub add_batches : ℕ → ℕ → ℕ → X → Header → List ℕ → Outcome X (X × Header × ℕ)
  unfolding add_blocks
  add_batches batch_size zero n x ancestor hashes = err (out_of_fuel, x)
  add_batches batch_size (suc fuel) n x ancestor [] = ok (x, ancestor, n)
  add_batches batch_size (suc fuel) n x ancestor (hash ∷ hashes) =
      let batch = take batch_size (hash ∷ hashes) in
      leaving x (answer (ops.get_blocks n batch)) >>= (λ blocks.
        leaving x (fail_if (not (length blocks == length batch)) unmatched_blocks)
        >> (add_blocks x ancestor blocks >>= (λ (x', ancestor').
            add_batches batch_size fuel (n + 1) x' ancestor' (drop batch_size (hash ∷ hashes)))))

  -- The loop of `Run`, on fuel; n counts the batches and m the lists of headers.
  unfoldable pub run_loop : Plug X → ℕ → ℕ → ℕ → X → Header → Header → Outcome X X
  unfolding add_batches validate_header_list
  run_loop plug zero m n x target ancestor = err (out_of_fuel, x)
  run_loop plug (suc fuel) m n x target ancestor =
      leaving x (plug.get_headers m ancestor target) >>= (λ (headers, target'). elim headers [
        | [] ↦ ok x
        | h ∷ hs ↦
            leaving x (validate_header_list (ops.validate_seal x) none (h ∷ hs))
            >> (add_batches plug.batch_size (length (h ∷ hs) + 1) n x ancestor
                  (map (λ a. a.hash) (h ∷ hs))
                >>= (λ (x', ancestor', n'). run_loop plug fuel (m + 1) n' x' target' ancestor'))
      ])

  -- `Run`. The events that it sends are left out.
  unfoldable pub run : Plug X → ℕ → X → Header → Outcome X X
  unfolding run_loop
  run plug fuel x target =
      let searched = leaving x (plug.find_ancestor x target) >>= (λ (found, target'). elim found [
        | none ↦ ok x
        | some ancestor ↦
            if ltb plug.max_sync_staleness
              (sub_word (2 ^ 64) (ops.current x).number ancestor.number)
            then ok x
            else run_loop plug fuel 0 0 x target' ancestor
      ]) in
      if plug.need_skip x target then ok x else searched

  -- `needSkip`, `findAncestor` and `getHeaders` of a root task.
  unfoldable pub root_need_skip : X → Header → Bool
  root_need_skip x target = leb target.total_difficulty (ops.current x).total_difficulty

  unfoldable pub root_ancestor :
      RootPeer → ℕ → X → Header → Result SyncError (Option Header × Header)
  root_ancestor peer staleness x target =
      let looked_up =
        root_find_ancestor peer staleness (ops.has_block x) (ops.current x) target
        >>= (λ (found, target'). elim found [
          | none ↦ err nil_pointer
          | some ancestor ↦
              fail_if (not (ops.has_block x ancestor.hash)) bad_ancestor
              >> (fail_if (ltb target'.total_difficulty ancestor.total_difficulty) ancestor_td
                  >> ok (some ancestor, target'))
        ]) in
      if ops.has_block x target.hash then ok (none, target) else looked_up

  -- The same of a minor task.
  unfoldable pub minor_ancestor :
      MinorPeer → ℕ → X → Header → Result SyncError (Option Header × Header)
  minor_ancestor peer staleness x target =
      let looked_up =
        minor_find_ancestor peer staleness (ops.has_block x) (ops.current x) target
        >>= (λ (found, target'). elim found [
          | none ↦ err nil_pointer
          | some ancestor ↦
              fail_if (not (ops.has_block x ancestor.hash)) bad_ancestor
              >> ok (some ancestor, target')
        ]) in
      if ops.has_block x target.hash then ok (none, target) else looked_up

  -- `needSkip` of a minor task: the height of a known root block by its hash, and the root block
  -- that the minor tip confirms, where there is a tip.
  unfoldable pub minor_need_skip :
      (X → ℕ → Option ℕ) → (X → Option ℕ) → (Header → ℕ) → X → Header → Bool
  minor_need_skip root_height tip_root root_of x target =
      if leb target.number (ops.current x).number || ops.has_block x target.hash
      then true
      else elim (root_height x (root_of target)) [
        | none ↦ true
        | some height ↦ elim (tip_root x) [
          | none ↦ false
          | some root ↦ elim (root_height x root) [
            | none ↦ false
            | some confirmed ↦ ltb height confirmed
          ]
        ]
      ]

-- The first of the headers must extend the ancestor.
unfoldable pub extends : Header → List Header × Header → Result SyncError (List Header × Header)
extends ancestor ([], target) = err wrong_parent
extends ancestor (h ∷ headers, target) =
    fail_if (not (h.parent_hash == ancestor.hash)) wrong_parent >> ok (h ∷ headers, target)

unfoldable pub root_get_headers :
    RootPeer → ℕ → Header → Header → Result SyncError (List Header × Header)
unfolding extends
root_get_headers peer n ancestor target =
    let asked =
      root_download peer n target ((ancestor.number + 1) % 2 ^ 32) 0
        (min root_block_header_list_limit (target.number - ancestor.number))
      >>= extends ancestor in
    if leb target.number ancestor.number then ok ([], target) else asked

unfoldable pub minor_get_headers :
    MinorPeer → ℕ → Header → Header → Result SyncError (List Header × Header)
unfolding extends
minor_get_headers peer n ancestor target =
    let asked =
      minor_download peer n target ((ancestor.number + 1) % 2 ^ 64) 0
        (min minor_block_header_list_limit (target.number - ancestor.number))
      >>= extends ancestor in
    if leb target.number ancestor.number then ok ([], target) else asked

-- `NewRootChainTask` and `NewMinorChainTask`: `early` and `late` are the answers of the peer to the
-- search and to the lists of headers after it.
unfoldable pub root_plug : {X B : Type 0} → Ops X B → RootPeer → RootPeer → Plug X
unfolding root_need_skip root_ancestor root_get_headers
root_plug ops early late = record {
  max_sync_staleness = 22500;
  batch_size = 3;
  find_ancestor = root_ancestor ops early 22500;
  get_headers = root_get_headers late;
  need_skip = root_need_skip ops;
}

unfoldable pub minor_plug :
    {X B : Type 0}
    → Ops X B
    → MinorPeer
    → MinorPeer
    → (X → ℕ → Option ℕ)
    → (X → Option ℕ)
    → (Header → ℕ)
    → Plug X
unfolding minor_need_skip minor_ancestor minor_get_headers
minor_plug ops early late root_height tip_root root_of = record {
  max_sync_staleness = 22500 * 6;
  batch_size = minor_block_header_list_limit;
  find_ancestor = minor_ancestor ops early (22500 * 6);
  get_headers = minor_get_headers late;
  need_skip = minor_need_skip ops root_height tip_root root_of;
}
