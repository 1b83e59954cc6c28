-- ===== src/Sync/Agreement.antt =====
-- The search of cluster/sync/root_task.go against the answers of cluster/master/handle.go.
use goquarkchain.Prelude.{
  ℕ, zero, suc, ◌+◌, ◌-◌, ◌*◌, ◌/◌, ◌%◌, ◌^◌, ◌≤◌, ◌<◌, ◌≡◌, ◌⊎◌, inl, inr, refl, ap, ap₂, ◌∙◌,
  Bool, true, false, not, ◌||◌, Option, none, some, List, ◌∷◌, length, ltb, leb, ◌==◌,
  if◌then◌else◌, ltb→le, leb→le, le→ltb, ltb→lt, Result, ok, err, ◌>>=◌, skip_fail_if, Bool-cases,
  arith,
}
use mathlib.Core.List.{reverse}
use native.Mathlib.Nat.{
  mod-eq_of_lt, add-mod_right, div-mul-le_self, le-div_iff_mul-le, div-le_of_le-mul,
}
use goquarkchain.Sync.Types.{SyncError, Header}
use goquarkchain.Sync.Ancestor.{
  Round, found, more, sub_word, scan_back, search_loop, RootPeer, answer, root_check, root_download,
  root_ask,
}
use goquarkchain.Sync.Server.{Chain, at_height, to_tip, serve, next_height, root_headers_with_skip}
use goquarkchain.Sync.Samples.{samples, reverse-samples, length-samples}
use goquarkchain.Sync.Honest.{OnTrack, Progress, scan_back-Progress}

-- A peer that answers each request as the node with that chain does.
abbrev pub reply_of : Result SyncError (Header × List Header) → Option (Header × List Header)
reply_of (ok reply) = some reply
reply_of (err why) = none

abbrev pub served_by : Chain → RootPeer
served_by chain n start skip limit = reply_of (
    root_headers_with_skip chain
      (record { start = at_height start; skip = skip; limit = limit; direction = to_tip }))

-- The canonical chain of a node is c, up to the tip.
pub record IsCanonical (chain : Chain) (c : ℕ → Header) : Type 0 where
  pub tip_is : chain.tip ≡ c chain.tip.number
  pub numbered : (h : ℕ) → h ≤ chain.tip.number → (c h).number ≡ h
  pub stored : (h : ℕ) → h ≤ chain.tip.number → chain.by_number h ≡ some (c h)

pub sub_word_lem : (w a b : ℕ) → b ≤ a → a < w → sub_word w a b ≡ a - b
sub_word_lem w a b le lt =
    ap (λ t. t % w) {x = a + w - b} {y = a - b + w} (omega arith)
    ∙ add-mod_right (a - b) w
    ∙ mod-eq_of_lt (omega arith)

-- How a window of heights is cut: at most 500 headers, one at least, and none past the end.
record IsCut (start end span limit : ℕ) : Type 0 where
  wide : 1 ≤ span
  narrow : span ≤ end - start + 1
  some_headers : 1 ≤ limit
  few_headers : limit ≤ 500
  inside : limit * span ≤ end + 1 - start

window_IsCut : (d : ℕ) → 1 ≤ (d + 1) / (d / 500 + 1) × ((d + 1) / (d / 500 + 1) ≤ 500)
window_IsCut d = (
  (le-div_iff_mul-le {k = d / 500 + 1} {x = 1} {y = d + 1} (omega arith)).1 (omega arith),
  div-le_of_le-mul (d / 500 + 1) {m = d + 1} {n = 500} (omega arith),
)

span_IsCut :
    (start end : ℕ)
    → start ≤ end
    → IsCut start end ((end - start) / 500 + 1) ((end + 1 - start) / ((end - start) / 500 + 1))
span_IsCut start end le =
    let eq : end + 1 - start ≡ end - start + 1 = omega arith in
    let (low, high) = window_IsCut (end - start) in
    record {
      wide = omega arith;
      narrow = omega arith;
      some_headers = rw eq low;
      few_headers = rw eq high;
      inside = div-mul-le_self (end + 1 - start) ((end - start) / 500 + 1);
    }

ne→== : (a b : ℕ) → ¬ (a ≡ b) → (a == b) ≡ false
ne→== a b h = ground arith

least : (a b : ℕ) → a ≤ b → not (a == (if ltb a b then a else b)) ≡ false
least a b h = ground arith

-- One round of the search, when its download and its scan succeed.
module _ (strict : Bool) (w : ℕ) (has_block : ℕ → Bool)
    (ask : ℕ → Header → ℕ → ℕ → Result SyncError (List Header × Header)) where
  after_round : ℕ → ℕ → Header → Round → Result SyncError (Option Header × Header)
  after_round fuel n t (found rh) = ok (some rh, t)
  after_round fuel n t (more s e best) = search_loop strict w has_block ask fuel n t s e best

  search_loop-suc :
      (fuel n s e : ℕ) (target t : Header) (best : Option Header) (headers : List Header)
      (r : Round)
      → ltb e s ≡ false
      → ask n target s e ≡ ok (headers, t)
      → scan_back strict w has_block (reverse headers) none s e best ≡ ok r
      → search_loop strict w has_block ask (suc fuel) n target s e best
        ≡ after_round fuel (n + 1) t r
  unfolding search_loop after_round
  search_loop-suc fuel n s e target t best headers (found rh) going got scanned =
      rw (going, got, scanned) refl
  search_loop-suc fuel n s e target t best headers (more s' e' best') going got scanned =
      rw (going, got, scanned) refl

module _ (chain : Chain) (c : ℕ → Header) (canonical : IsCanonical chain c) where
  serve-samples :
      (w n span h : ℕ)
      → h + n * span ≤ chain.tip.number + span
      → chain.tip.number + span < w
      → serve w chain to_tip span n h ≡ samples c h span n
  unfolding serve next_height
  serve-samples w zero span h fits small = refl
  serve-samples w (suc n) span h fits small =
      let in_chain : leb h chain.tip.number ≡ true = ground arith in
      let next : (h + span) % w ≡ h + span = mod-eq_of_lt (omega arith) in
      rw (in_chain, canonical.stored h (leb→le _ _ in_chain), next)
        (ap (λ t. c h ∷ t) (serve-samples w n span (h + span) (omega arith) small))

  -- The heights that a request asks for are on the chain, and no word wraps.
  pub record InChain (start skip limit : ℕ) : Type 0 where
    pub some_headers : 1 ≤ limit
    pub few_headers : limit ≤ 1000
    pub fits : start + limit * (skip + 1) ≤ chain.tip.number + (skip + 1)
    pub small : chain.tip.number + (skip + 1) < 2 ^ 32

  reply-samples :
      (start skip limit : ℕ)
      → InChain start skip limit
      → root_headers_with_skip chain
          (record { start = at_height start; skip = skip; limit = limit; direction = to_tip })
        ≡ ok (chain.tip, samples c start (skip + 1) limit)
  unfolding root_headers_with_skip
  reply-samples start skip limit within =
      let positive : (limit == 0) ≡ false = ne→== limit 0 (omega (arith, within.some_headers)) in
      let bounded : ltb 1000 limit ≡ false = le→ltb 1000 limit within.few_headers in
      let step : (skip + 1) % 2 ^ 32 ≡ skip + 1 = mod-eq_of_lt (omega (arith, within.small)) in
      skip_fail_if (limit == 0 || ltb 1000 limit) _ _ (ap₂ (λ a b. a || b) positive bounded)
      ∙ ap (λ t. ok (chain.tip, serve (2 ^ 32) chain to_tip t limit start)) step
      ∙ ap (λ t. ok (chain.tip, t))
          (serve-samples (2 ^ 32) limit (skip + 1) start within.fits within.small)

  served-samples :
      (n start skip limit : ℕ)
      → InChain start skip limit
      → served_by chain n start skip limit ≡ some (chain.tip, samples c start (skip + 1) limit)
  served-samples n start skip limit within = ap reply_of (reply-samples start skip limit within)

  root_check-samples :
      (start skip limit : ℕ) (target : Header)
      → InChain start skip limit
      → start ≤ chain.tip.number
      → target.difficulty < chain.tip.total_difficulty
      → root_check target start skip limit chain.tip (samples c start (skip + 1) limit)
        ≡ ok (
          samples c start (skip + 1) limit,
          (if chain.tip.hash == target.hash then target else chain.tip),
        )
  unfolding root_check
  root_check-samples start skip limit target within below lower =
      let small = within.small in
      let got : length (samples c start (skip + 1) limit) ≡ limit =
        length-samples c limit start (skip + 1) in
      let step : (skip + 1) % 2 ^ 32 ≡ skip + 1 = mod-eq_of_lt (omega arith) in
      let left : (sub_word (2 ^ 32) (chain.tip.number + 1) start + skip) % 2 ^ 32
          ≡ chain.tip.number + 1 - start + skip =
        ap (λ t. (t + skip) % 2 ^ 32)
          (sub_word_lem (2 ^ 32) (chain.tip.number + 1) start (omega arith) (omega arith))
        ∙ mod-eq_of_lt (omega arith) in
      let room : limit
          ≤ (sub_word (2 ^ 32) (chain.tip.number + 1) start + skip)
            % 2 ^ 32
            / ((skip + 1) % 2 ^ 32) =
        rw (left, step)
          ((le-div_iff_mul-le {k = skip + 1} {x = limit} {y = chain.tip.number + 1 - start + skip}
              (omega arith)).1
            (omega (arith, within.fits, within.some_headers, below))) in
      skip_fail_if (leb chain.tip.total_difficulty target.difficulty) _ _ (ground arith)
      ∙ skip_fail_if (length (samples c start (skip + 1) limit) == 0) _ _
          (ne→== _ 0 (omega (arith, got, within.some_headers)))
      ∙ skip_fail_if _ _ _ (rw got (least limit _ room))

  pub root_download-samples :
      (n start skip limit : ℕ) (target : Header)
      → InChain start skip limit
      → start ≤ chain.tip.number
      → target.difficulty < chain.tip.total_difficulty
      → root_download (served_by chain) n target start skip limit
        ≡ ok (
          samples c start (skip + 1) limit,
          (if chain.tip.hash == target.hash then target else chain.tip),
        )
  unfolding root_download
  root_download-samples n start skip limit target within below lower =
      ap (λ t. answer t >>= (λ (tip, headers). root_check target start skip limit tip headers))
        (served-samples n start skip limit within)
      ∙ root_check-samples start skip limit target within below lower

  -- The download of a window that the peer's chain covers.
  root_ask-samples :
      (n start end : ℕ) (target : Header)
      → start ≤ end
      → end ≤ chain.tip.number
      → chain.tip.number + end + 1 < 2 ^ 32
      → target.difficulty < chain.tip.total_difficulty
      → (limit : ℕ) × (1 ≤ limit)
        × (start + limit * ((end - start) / 500 + 1) ≤ end + 1)
        × (root_ask (served_by chain) n target start end
            ≡ ok (
              samples c start ((end - start) / 500 + 1) limit,
              (if chain.tip.hash == target.hash then target else chain.tip),
            ))
  unfolding root_ask
  root_ask-samples n start end target le covered small lower =
      let skip = (end - start) / 500 in
      let limit = (end + 1 - start) / (skip + 1) in
      let cut = span_IsCut start end le in
      let asked : sub_word (2 ^ 32) ((end + 1) % 2 ^ 32) start / (skip + 1) ≡ limit =
        ap (λ t. sub_word (2 ^ 32) t start / (skip + 1)) (mod-eq_of_lt (omega arith))
        ∙ ap (λ t. t / (skip + 1))
            (sub_word_lem (2 ^ 32) (end + 1) start (omega arith) (omega arith)) in
      let within : InChain start skip limit = record {
        some_headers = cut.some_headers;
        few_headers = omega (arith, cut.few_headers);
        fits = omega (arith, cut.inside);
        small = omega (arith, cut.narrow);
      } in
      (
        limit,
        cut.some_headers,
        omega (arith, cut.inside),
        ap₂ (λ a b. root_download (served_by chain) n target start a b) {x = skip + 1 - 1}
              {y = skip} (omega arith) asked
            ∙ root_download-samples n start skip limit target within (omega arith) lower,
      )

  module _ (has_block : ℕ → Bool) (k top : ℕ) (covered : top ≤ chain.tip.number)
      (small : chain.tip.number + top + 1 < 2 ^ 32)
      (shared : (h : ℕ) → h ≤ top → has_block (c h).hash ≡ leb h k)
      (heavy : chain.tip.difficulty < chain.tip.total_difficulty) where
    pub search_loop_shared :
        (fuel n s e : ℕ) (target : Header) (best : Option Header)
        → e ≤ top
        → e + 1 - s < fuel
        → OnTrack c k s e best
        → target.difficulty < chain.tip.total_difficulty
        → (t : Header) × (search_loop true
              (2 ^ 32)
              has_block
              (root_ask (served_by chain))
              fuel
              n
              target
              s
              e
              best
            ≡ ok (some (c k), t))
          × (target ≡ chain.tip → t ≡ chain.tip)
    unfolding search_loop after_round
    search_loop_shared zero n s e target best below enough track lower = absurd (omega arith)
    search_loop_shared (suc fuel) n s e target best below enough track lower =
        elim (Bool-cases (ltb e s)) [
          | inl past ↦
              let over = ltb→lt e s past in (target, ended past (kept over track.0 track.1), λ q. q)
          | inr going ↦
              let le = ltb→le e s going in
              let (limit, some_headers, fits, got) =
                root_ask-samples n s e target le (omega (arith, below, covered))
                  (omega (arith, below, small)) lower in
              let t = if chain.tip.hash == target.hash then target else chain.tip in
              let lighter : t.difficulty < chain.tip.total_difficulty =
                lighter_of (chain.tip.hash == target.hash) in
              let moved : target ≡ chain.tip → t ≡ chain.tip =
                moved_to (chain.tip.hash == target.hash) in
              let (r, scanned, pr) =
                scan_back-Progress (2 ^ 32) has_block c k top (omega (arith, small))
                  (λ h q. canonical.numbered h (omega (arith, q, covered))) shared limit
                  ((e - s) / 500 + 1) s e none best (omega arith) below (omega (arith, fits))
                  (λ p q. cc) track in
              round_shared limit t r le some_headers lighter moved pr
                (search_loop_shared fuel (n + 1))
                (search_loop-suc true (2 ^ 32) has_block (root_ask (served_by chain)) fuel n s e
                  target t best _ r going got
                  (ap (λ l. scan_back true (2 ^ 32) has_block l none s e best)
                      (reverse-samples c limit s ((e - s) / 500 + 1))
                    ∙ scanned))
        ]
      where
        moved_to : (b : Bool) → target ≡ chain.tip → (if b then target else chain.tip) ≡ chain.tip
        moved_to true q = q
        moved_to false q = refl

        lighter_of :
            (b : Bool) → (if b then target else chain.tip).difficulty < chain.tip.total_difficulty
        lighter_of true = lower
        lighter_of false = heavy

        closer :
            (limit s' e' : ℕ)
            → s ≤ e
            → 1 ≤ limit
            → s ≤ s'
            → e' ≤ e
            → (limit ≡ 0) ⊎ ((s < s') ⊎ (e' < e))
            → e' + 1 - s' < fuel
        closer limit s' e' le some_headers up down (inl none_asked) = absurd (omega arith)
        closer limit s' e' le some_headers up down (inr (inl more_below)) = omega arith
        closer limit s' e' le some_headers up down (inr (inr less_above)) = omega arith

        round_shared :
            (limit : ℕ) (t : Header) (r : Round)
            → s ≤ e
            → 1 ≤ limit
            → t.difficulty < chain.tip.total_difficulty
            → (target ≡ chain.tip → t ≡ chain.tip)
            → Progress c k limit s e r
            → ((s' e' : ℕ) (t : Header) (best : Option Header)
                → e' ≤ top
                → e' + 1 - s' < fuel
                → OnTrack c k s' e' best
                → t.difficulty < chain.tip.total_difficulty
                → (t' : Header) × (search_loop true
                      (2 ^ 32)
                      has_block
                      (root_ask (served_by chain))
                      fuel
                      (n + 1)
                      t
                      s'
                      e'
                      best
                    ≡ ok (some (c k), t'))
                  × (t ≡ chain.tip → t' ≡ chain.tip))
            → {m : Result SyncError (Option Header × Header)}
            → m ≡ after_round true (2 ^ 32) has_block (root_ask (served_by chain)) fuel (n + 1) t r
            → (t' : Header) × (m ≡ ok (some (c k), t')) × (target ≡ chain.tip → t' ≡ chain.tip)
        round_shared limit t r le some_headers lighter moved pr rec eq = elim pr.result [
          | inl is_found ↦ (
            t,
            eq
                ∙ ap
                    (after_round true (2 ^ 32) has_block (root_ask (served_by chain)) fuel (n + 1)
                      t)
                    is_found,
            moved,
          )
          | inr (s', e', b', is_more, track', up, down, less) ↦
              let (t', eq', moved') =
                rec s' e' t b' (omega (arith, down, below))
                  (closer limit s' e' le some_headers up down less) track' lighter in
              (
                t',
                eq
                    ∙ ap
                        (after_round true (2 ^ 32) has_block (root_ask (served_by chain)) fuel
                          (n + 1) t)
                        is_more
                    ∙ eq',
                λ q. moved' (moved q),
              )
        ]

        ended :
            ltb e s ≡ true
            → best ≡ some (c k)
            → search_loop true
                (2 ^ 32)
                has_block
                (root_ask (served_by chain))
                (suc fuel)
                n
                target
                s
                e
                best
              ≡ ok (some (c k), target)
        ended past eq = rw (past, eq) refl

        kept : e < s → k ≤ e → (s ≤ k) ⊎ ((s ≡ k + 1) × (best ≡ some (c k))) → best ≡ some (c k)
        kept over high (inl low) = absurd (omega arith)
        kept over high (inr (at, eq)) = eq
