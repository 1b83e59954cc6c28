-- ===== src/Sync/Served.antt =====
-- The answers to header requests: `HandleGetRootBlockHeaderListWithSkipRequest` of
-- cluster/master/handle.go.
use goquarkchain.Prelude.{
  ℕ, zero, suc, ◌+◌, ◌%◌, ◌^◌, ◌≤◌, ◌≡◌, refl, sym, subst, Bool, true, false, ◌||◌, Option, none,
  some, List, [], ◌∷◌, All, length, ltb, leb, leb→le, ◌==◌, if◌then◌else◌, Result, ok, fail_if-ok,
  arith,
}
use goquarkchain.Sync.Types.{SyncError, bad_limit, bad_direction, bad_kind, Header}
use goquarkchain.Sync.Server.{
  Chain, Request, Direction, serve, next_height, is_other_way, is_other_start, root_start_height,
  root_headers_with_skip,
}

-- A header of the node's own chain, up to its tip.
abbrev pub IsOwn : Chain → Header → Type 0
IsOwn chain h = (n : ℕ) × (n ≤ chain.tip.number) × (chain.by_number n ≡ some h)

-- At most so many headers, all of the node's own chain.
abbrev pub AreOwn : Chain → ℕ → List Header → Type 0
AreOwn chain limit headers = (length headers ≤ limit) × All (IsOwn chain) headers

serve-AreOwn :
    (w : ℕ) (chain : Chain) (way : Direction) (step limit height : ℕ)
    → AreOwn chain limit (serve w chain way step limit height)
unfolding serve
serve-AreOwn w chain way step zero height = (omega arith, tt)
serve-AreOwn w chain way step (suc limit) height =
    of_height (leb height chain.tip.number) refl _
      (serve-AreOwn w chain way step limit (next_height w way step height))
  where
    of_header :
        (o : Option Header)
        → chain.by_number height ≡ o
        → height ≤ chain.tip.number
        → (rest : List Header) → AreOwn chain limit rest
        → AreOwn chain (suc limit) (elim o [ none ↦ [] | some header ↦ header ∷ rest ])
    of_header none eq le rest own = (omega arith, tt)
    of_header (some header) eq le rest (few, all) = (omega (arith, few), ((height, le, eq), all))

    of_height :
        (b : Bool)
        → leb height chain.tip.number ≡ b
        → (rest : List Header) → AreOwn chain limit rest
        → AreOwn chain (suc limit) (
            if b
            then elim (chain.by_number height) [ none ↦ [] | some header ↦ header ∷ rest ]
            else [])
    of_height true below rest own =
        of_header (chain.by_number height) refl (leb→le _ _ below) rest own
    of_height false above rest own = (omega arith, tt)

-- An answer to a request for root block headers has the node's tip, at most as many headers as were
-- asked for and 1000 in all, and only headers of the node's canonical chain that are not above its
-- tip; a request for none, or for more, is refused.
pub root_headers_with_skip-AreOwn :
    (chain : Chain) (request : Request) (tip : Header) (headers : List Header)
    → root_headers_with_skip chain request ≡ ok (tip, headers)
    → (tip ≡ chain.tip)
      × (1 ≤ request.limit)
      × (request.limit ≤ 1000)
      × AreOwn chain request.limit headers
unfolding root_headers_with_skip
root_headers_with_skip-AreOwn chain request tip headers e =
    let (bounded, e₁) = fail_if-ok (request.limit == 0 || ltb 1000 request.limit) bad_limit _ e in
    let (_, e₂) = fail_if-ok (is_other_way request.direction) bad_direction _ e₁ in
    let (_, e₃) = fail_if-ok (is_other_start request.start) bad_kind _ e₂ in
    let (low, high) = limits request.limit bounded in
    let same_tip : chain.tip ≡ tip = cc in
    (sym same_tip, low, high, of_start (root_start_height chain request.start) e₃)
  where
    limits : (n : ℕ) → (n == 0 || ltb 1000 n) ≡ false → (1 ≤ n) × (n ≤ 1000)
    limits n h = ground arith

    of_start :
        (o : Option ℕ)
        → ◌≡◌ {A = Result SyncError (Header × List Header)}
            (ok (
              chain.tip,
              (elim o [
                | none ↦ []
                | some height ↦
                    serve
                      (2 ^ 32)
                      chain
                      request.direction
                      ((request.skip + 1) % 2 ^ 32)
                      request.limit
                      height
              ]),
            ))
            (ok (tip, headers))
        → AreOwn chain request.limit headers
    of_start none e =
        let same : [] ≡ headers = cc in subst (AreOwn chain request.limit) same (omega arith, tt)
    of_start (some height) e =
        let same : serve (2 ^ 32) chain request.direction ((request.skip + 1) % 2 ^ 32)
              request.limit height
            ≡ headers =
          cc in
        subst (AreOwn chain request.limit) same (
          serve-AreOwn (2 ^ 32) chain request.direction ((request.skip + 1) % 2 ^ 32) request.limit
            height)
