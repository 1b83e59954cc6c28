-- ===== src/Sync/Ancestor.antt =====
-- The searches for the last common block: `findAncestor` of cluster/sync/root_task.go and of
-- minor_task.go, and the downloads that they check.
use goquarkchain.Prelude.{
  ℕ, zero, suc, ◌+◌, ◌-◌, ◌/◌, ◌%◌, ◌^◌, Bool, true, false, not, Option, none, some, List, [], ◌∷◌,
  length, ltb, leb, ◌==◌, if◌then◌else◌, Result, ok, err, ◌>>=◌, ◌>>◌, fail_if,
}
use mathlib.Core.List.{reverse}
use goquarkchain.Sync.Types.{
  SyncError, lower_td, empty_list, wrong_count, out_of_range, bad_order, bad_bounds, out_of_fuel,
  peer_failed, Header, root_block_header_list_limit, minor_block_header_list_limit,
}

-- a - b of a word of `w` values.
abbrev pub sub_word : ℕ → ℕ → ℕ → ℕ
sub_word w a b = (a + w - b) % w

-- What one round of the search comes to.
pub data Round : Type 0 where
  found : Header → Round
  more : ℕ → ℕ → Option Header → Round

-- Whether the number of a header is out of order after the one before.
unfoldable pub unordered : Bool → Option ℕ → ℕ → Bool
unordered strict none number = false
unordered strict (some p) number = if strict then leb p number else ltb p number

-- The inner loop, over the headers of a round with the newest first. `strict` says that equal
-- numbers are refused too; `pre` is the header before.
unfoldable pub scan_back :
    Bool → ℕ → (ℕ → Bool) → List Header → Option ℕ → ℕ → ℕ → Option Header → Result SyncError Round
unfolding unordered
scan_back strict w has_block [] pre start end best = ok (more start end best)
scan_back strict w has_block (rh ∷ rhs) pre start end best =
    let older =
      scan_back strict w has_block rhs (some rh.number) start (sub_word w rh.number 1) best in
    if ltb rh.number start
    then err out_of_range
    else if ltb end rh.number
    then err out_of_range
    else if unordered strict pre rh.number
    then err bad_order
    else if has_block rh.hash
    then if rh.number == end
      then ok (found rh)
      else if ltb end ((rh.number + 1) % w)
      then err bad_bounds
      else ok (more ((rh.number + 1) % w) end (some rh))
    else older

-- The outer loop on fuel; `ask n target start end` is the download of the n-th round, with the
-- header that the task aims at after it.
unfoldable pub search_loop :
    Bool
    → ℕ
    → (ℕ → Bool)
    → (ℕ → Header → ℕ → ℕ → Result SyncError (List Header × Header))
    → ℕ
    → ℕ
    → Header
    → ℕ
    → ℕ
    → Option Header
    → Result SyncError (Option Header × Header)
unfolding scan_back
search_loop strict w has_block ask zero n target start end best = err out_of_fuel
search_loop strict w has_block ask (suc fuel) n target start end best =
    let rest = ask n target start end >>= (λ (headers, target').
      scan_back strict w has_block (reverse headers) none start end best >>= (λ round. elim round [
        | found rh ↦ ok (some rh, target')
        | more start' end' best' ↦
            search_loop strict w has_block ask fuel (n + 1) target' start' end' best'
      ])) in
    if ltb end start then ok (best, target) else rest

-- A peer's answers to the header requests: by the round, the first height, the skip and the limit.
-- The root one comes with the
-- peer's tip; `none` is an error.
abbrev pub RootPeer : Type 0
RootPeer = ℕ → ℕ → ℕ → ℕ → Option (Header × List Header)

abbrev pub MinorPeer : Type 0
MinorPeer = ℕ → ℕ → ℕ → ℕ → Option (List Header)

abbrev pub answer : {A : Type 0} → Option A → Result SyncError A
answer none = err peer_failed
answer (some a) = ok a

-- What `downloadBlockHeaderListAndCheck` of a root task makes of an answer.
unfoldable pub root_check :
    Header → ℕ → ℕ → ℕ → Header → List Header → Result SyncError (List Header × Header)
root_check target start skip limit tip headers =
    let new_limit =
      (sub_word (2 ^ 32) (tip.number + 1) start + skip) % 2 ^ 32 / ((skip + 1) % 2 ^ 32) in
    let expected = if ltb limit new_limit then limit else new_limit in
    fail_if (leb tip.total_difficulty target.difficulty) lower_td
    >> (fail_if (length headers == 0) empty_list
        >> (fail_if (not (length headers == expected)) wrong_count
            >> ok (headers, (if tip.hash == target.hash then target else tip))))

unfoldable pub root_download :
    RootPeer → ℕ → Header → ℕ → ℕ → ℕ → Result SyncError (List Header × Header)
unfolding root_check
root_download peer n target start skip limit =
    answer (peer n start skip limit)
    >>= (λ (tip, headers). root_check target start skip limit tip headers)

-- The same of a minor task.
unfoldable pub minor_download :
    MinorPeer → ℕ → Header → ℕ → ℕ → ℕ → Result SyncError (List Header × Header)
minor_download peer n target height skip limit =
    answer (peer n height (skip % 2 ^ 32) (limit % 2 ^ 32)) >>= (λ headers.
      let new_limit =
        (sub_word (2 ^ 64) (target.number + 1) height + skip) % 2 ^ 64 / ((skip + 1) % 2 ^ 64) in
      let expected = if ltb limit new_limit then limit else new_limit in
      fail_if (length headers == 0) empty_list
      >> (fail_if (not (length headers == expected)) wrong_count >> ok (headers, target)))

-- The download of a round: `span` heights apart.
unfoldable pub root_ask : RootPeer → ℕ → Header → ℕ → ℕ → Result SyncError (List Header × Header)
unfolding root_download
root_ask peer n target start end =
    let span = (end - start) / root_block_header_list_limit + 1 in
    root_download peer n target start (span - 1)
      (sub_word (2 ^ 32) ((end + 1) % 2 ^ 32) start / span)

unfoldable pub minor_ask : MinorPeer → ℕ → Header → ℕ → ℕ → Result SyncError (List Header × Header)
unfolding minor_download
minor_ask peer n target start end =
    let span = (end - start) / minor_block_header_list_limit + 1 in
    minor_download peer n target start (span - 1)
      ((sub_word (2 ^ 64) ((end + 1) % 2 ^ 64) start + span - 1) % 2 ^ 64 / span)

-- `findAncestor` of a root task, for a chain with that tip. Every round takes heights away, so
-- that many rounds are enough.
unfoldable pub root_find_ancestor :
    RootPeer → ℕ → (ℕ → Bool) → Header → Header → Result SyncError (Option Header × Header)
unfolding search_loop root_ask
root_find_ancestor peer max_sync_staleness has_block tip target =
    let start =
      if ltb tip.number max_sync_staleness
      then 0
      else sub_word (2 ^ 32) tip.number max_sync_staleness in
    let end = if ltb target.number tip.number then target.number else tip.number in
    if target.parent_hash == tip.hash
    then ok (some tip, target)
    else search_loop true (2 ^ 32) has_block (root_ask peer) (end + 2) 0 target start end none

-- The same of a minor task.
unfoldable pub minor_find_ancestor :
    MinorPeer → ℕ → (ℕ → Bool) → Header → Header → Result SyncError (Option Header × Header)
unfolding search_loop minor_ask
minor_find_ancestor peer max_sync_staleness has_block tip target =
    let start =
      if ltb tip.number max_sync_staleness
      then 0
      else sub_word (2 ^ 64) tip.number max_sync_staleness in
    let end = if ltb target.number tip.number then target.number else tip.number in
    if target.hash == tip.hash
    then ok (some tip, target)
    else search_loop false (2 ^ 64) has_block (minor_ask peer) (end + 2) 0 target start end none
