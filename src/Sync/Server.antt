-- ===== src/Sync/Server.antt =====
-- What a node answers to a peer that catches up: `HandleGetRootBlockHeaderListWithSkipRequest` and
-- its neighbours of cluster/master/handle.go, and the same of cluster/slave/api_backend.go. The
-- chain's database is given by its lookups.
use goquarkchain.Prelude.{
  ℕ, zero, suc, ◌+◌, ◌*◌, ◌%◌, ◌^◌, Bool, true, false, ◌||◌, ◌&&◌, Option, none, some, List, [],
  ◌∷◌, length, ltb, leb, not, ◌==◌, if◌then◌else◌, Result, ok, err, ◌>>=◌, ◌>>◌, fail_if,
}
use goquarkchain.Sync.Types.{
  SyncError, bad_limit, bad_direction, bad_kind, not_found, not_canonical, missing_header,
  too_many_hashes, nil_pointer, Header, minor_block_batch_size, root_block_header_list_limit,
  root_block_batch_size,
}
use goquarkchain.Sync.Ancestor.{sub_word}

-- Where the wanted headers begin: at a hash, at a height, or a type value that is neither.
pub data Start : Type 0 where
  at_hash : ℕ → Start
  at_height : ℕ → Start
  at_other : Start

pub data Direction : Type 0 where
  to_genesis to_tip other_way : Direction

pub record Request : Type 0 where
  pub start : Start
  pub skip : ℕ
  pub limit : ℕ
  pub direction : Direction

-- A node's chain: the tip, the canonical header of a height, and the header of a hash.
pub record Chain : Type 0 where
  pub tip : Header
  pub by_number : ℕ → Option Header
  pub by_hash : ℕ → Option Header

-- The next height: a step towards the genesis or the tip, in words of `w` values.
unfoldable pub next_height : ℕ → Direction → ℕ → ℕ → ℕ
next_height w to_genesis step height = sub_word w height step
next_height w to_tip step height = (height + step) % w
next_height w other_way step height = (height + step) % w

-- The loop of the two servers; `limit` counts the headers that may still be added.
unfoldable pub serve : ℕ → Chain → Direction → ℕ → ℕ → ℕ → List Header
unfolding next_height
serve w chain way step zero height = []
serve w chain way step (suc limit) height =
    let rest = serve w chain way step limit (next_height w way step height) in
    if leb height chain.tip.number
    then elim (chain.by_number height) [ none ↦ [] | some header ↦ header ∷ rest ]
    else []

pub is_other_way : Direction → Bool
is_other_way other_way = true
is_other_way to_tip = false
is_other_way to_genesis = false

pub is_other_start : Start → Bool
is_other_start at_other = true
is_other_start (at_height h) = false
is_other_start (at_hash h) = false

-- The height that a root request starts at; `none` where its hash is not on the canonical chain.
unfoldable pub root_start_height : Chain → Start → Option ℕ
root_start_height chain (at_height height) = some height
root_start_height chain at_other = none
root_start_height chain (at_hash hash) = elim (chain.by_hash hash) [
  | none ↦ none
  | some header ↦ elim (chain.by_number header.number) [
    | none ↦ none
    | some canonical ↦ if header.hash == canonical.hash then some header.number else none
  ]
]

-- `HandleGetRootBlockHeaderListWithSkipRequest`.
unfoldable pub root_headers_with_skip : Chain → Request → Result SyncError (Header × List Header)
unfolding is_other_way is_other_start root_start_height serve
root_headers_with_skip chain request =
    fail_if (request.limit == 0 || ltb (2 * root_block_header_list_limit) request.limit) bad_limit
    >> (fail_if (is_other_way request.direction) bad_direction
        >> (fail_if (is_other_start request.start) bad_kind
            >> ok (
              chain.tip,
              (elim (root_start_height chain request.start) [
                | none ↦ []
                | some height ↦
                    serve (2 ^ 32) chain request.direction ((request.skip + 1) % 2 ^ 32)
                      request.limit height
              ]),
            )))

-- `getMinorBlockHeadersWithSkip`, of the slave's shard. A type value that is neither gives a nil height.
minor_start_height : Chain → Start → Result SyncError ℕ
minor_start_height chain (at_height height) = ok height
minor_start_height chain at_other = err nil_pointer
minor_start_height chain (at_hash hash) = elim (chain.by_hash hash) [
  | none ↦ err not_found
  | some header ↦ elim (chain.by_number header.number) [
    | none ↦ err not_canonical
    | some canonical ↦ if canonical.hash == header.hash then ok header.number else err not_canonical
  ]
]

unfoldable pub minor_headers_with_skip : Chain → Request → Result SyncError (List Header)
unfolding minor_start_height serve
minor_headers_with_skip chain request = minor_start_height chain request.start >>= (λ height.
    ok (serve (2 ^ 64) chain request.direction (request.skip + 1) request.limit height))

-- From a hash back to the genesis, by the parents: the loop of `HandleGetRootBlockHeaderListRequest`
-- and of `getMinorBlockHeaders`. A header that is missing makes them panic.
unfoldable pub back : Chain → ℕ → ℕ → Result SyncError (List Header)
back chain zero hash = ok []
back chain (suc limit) hash = elim (chain.by_hash hash) [
  | none ↦ err missing_header
  | some header ↦
      let older = back chain limit header.parent_hash in
      if header.number == 0 then ok (header ∷ []) else (older >>= λ headers. ok (header ∷ headers))
]

abbrev pub is_to_genesis : Direction → Bool
is_to_genesis to_genesis = true
is_to_genesis to_tip = false
is_to_genesis other_way = false

abbrev pub has_hash : Chain → ℕ → Bool
has_hash chain hash = elim (chain.by_hash hash) [ none ↦ false | some header ↦ true ]

-- `HandleGetRootBlockHeaderListRequest`.
unfoldable pub root_headers_back :
    Chain → ℕ → ℕ → Direction → Result SyncError (Header × List Header)
unfolding back
root_headers_back chain hash limit direction =
    fail_if (not (has_hash chain hash)) not_found
    >> (fail_if (limit == 0 || ltb (2 * root_block_header_list_limit) limit) bad_limit
        >> (fail_if (not (is_to_genesis direction)) bad_direction
            >> (back chain limit hash >>= (λ headers. ok (chain.tip, headers)))))

-- `getMinorBlockHeaders`.
unfoldable pub minor_headers_back : Chain → ℕ → ℕ → Result SyncError (List Header)
unfolding back
minor_headers_back chain hash limit =
    fail_if (not (has_hash chain hash)) not_found >> back chain limit hash

-- `SlaveBackend.GetMinorBlockHeaderList`: a plain walk back has a loop of its own.
unfoldable pub minor_headers : Chain → Request → Result SyncError (List Header)
unfolding minor_headers_with_skip minor_headers_back
minor_headers chain request = elim request.start [
  | at_height height ↦ minor_headers_with_skip chain request
  | at_other ↦ minor_headers_with_skip chain request
  | at_hash hash ↦
      if request.skip == 0 && is_to_genesis request.direction
      then minor_headers_back chain hash request.limit
      else minor_headers_with_skip chain request
]

-- `HandleGetRootBlockListRequest`: the known ones of the hashes.
unfoldable pub known_blocks : {B : Type 0} → (ℕ → Option B) → List ℕ → List B
known_blocks lookup [] = []
known_blocks lookup (hash ∷ hashes) = elim (lookup hash) [
  | none ↦ known_blocks lookup hashes
  | some block ↦ block ∷ known_blocks lookup hashes
]

unfoldable pub root_blocks : {B : Type 0} → (ℕ → Option B) → List ℕ → Result SyncError (List B)
unfolding known_blocks
root_blocks lookup hashes =
    fail_if (ltb (2 * root_block_batch_size) (length hashes)) too_many_hashes
    >> ok (known_blocks lookup hashes)

-- `GetMinorBlockListByHashList` of the slave: all of the hashes, or an error.
all_blocks : {B : Type 0} → (ℕ → Option B) → List ℕ → Result SyncError (List B)
all_blocks lookup [] = ok []
all_blocks lookup (hash ∷ hashes) = elim (lookup hash) [
  | none ↦ err not_found
  | some block ↦ all_blocks lookup hashes >>= λ blocks. ok (block ∷ blocks)
]

unfoldable pub minor_blocks : {B : Type 0} → (ℕ → Option B) → List ℕ → Result SyncError (List B)
unfolding all_blocks
minor_blocks lookup hashes =
    fail_if (ltb (2 * minor_block_batch_size) (length hashes)) too_many_hashes
    >> all_blocks lookup hashes
