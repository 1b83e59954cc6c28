-- ===== src/Sync/Honest.antt =====
-- A round of the search against a peer whose chain shares the blocks up to a height with ours.
use goquarkchain.Prelude.{
  ℕ, zero, suc, ◌+◌, ◌-◌, ◌*◌, ◌%◌, ◌≤◌, ◌<◌, ◌≡◌, ◌⊎◌, inl, inr, refl, ap, ◌∙◌, Bool, true, false,
  Option, none, some, List, ◌∷◌, ltb, leb, ◌==◌, ==_iff, if◌then◌else◌, leb→le, le→ltb, Result, ok,
  Bool-cases, arith,
}
use native.Mathlib.Nat.{mod-eq_of_lt, add-mod_right}
use native.Mathlib.Decide.{dec_lt}
use goquarkchain.Sync.Types.{SyncError, Header}
use goquarkchain.Sync.Samples.{samples_down}
use goquarkchain.Sync.Ancestor.{Round, found, more, sub_word, scan_back, unordered}

-- One header of a round, at its height.
module _ (strict : Bool) (w : ℕ) (has_block : ℕ → Bool) (rh : Header) (rhs : List Header)
    (pre : Option ℕ) (s e h : ℕ) (best : Option Header) (at_h : rh.number ≡ h) (low : s ≤ h)
    (high : h ≤ e) (small : e + 1 < w) (in_order : unordered strict pre h ≡ false) where
  scan_back_known :
      has_block rh.hash ≡ true
      → scan_back strict w has_block (rh ∷ rhs) pre s e best
        ≡ (if h == e then ok (found rh) else ok (more (h + 1) e (some rh)))
  unfolding scan_back
  scan_back_known have =
      let high_enough = le→ltb h s low in
      let low_enough = le→ltb e h high in
      let next : (h + 1) % w ≡ h + 1 = mod-eq_of_lt (omega (arith, small)) in
      elim (Bool-cases (h == e)) [
        | inl last ↦ rw (at_h, high_enough, low_enough, in_order, have, last) refl
        | inr early ↦
            let more_fits : ltb e (h + 1) ≡ false = ground arith in
            rw (at_h, high_enough, low_enough, in_order, have, early, next, more_fits) refl
      ]

  scan_back_unknown :
      1 ≤ h
      → has_block rh.hash ≡ false
      → scan_back strict w has_block (rh ∷ rhs) pre s e best
        ≡ scan_back strict w has_block rhs (some h) s (h - 1) best
  unfolding scan_back
  scan_back_unknown positive no_block =
      let high_enough = le→ltb h s low in
      let low_enough = le→ltb e h high in
      let before : sub_word w h 1 ≡ h - 1 =
        ap (λ t. t % w) {x = h + w - 1} {y = h - 1 + w} (omega arith)
        ∙ add-mod_right (h - 1) w
        ∙ mod-eq_of_lt (omega (arith, small)) in
      rw (at_h, high_enough, low_enough, in_order, no_block, before) refl

module _ (c : ℕ → Header) (k : ℕ) where
  -- The last shared height is still ahead of the search, or just behind it and kept.
  abbrev pub OnTrack : ℕ → ℕ → Option Header → Type 0
  OnTrack s e best = (k ≤ e) × ((s ≤ k) ⊎ ((s ≡ k + 1) × (best ≡ some (c k))))

  -- What a round of n headers comes to.
  pub record Progress (n s e : ℕ) (r : Round) : Type 0 where
    pub result :
        (r ≡ found (c k))
        ⊎ ((s' : ℕ) × (e' : ℕ) × (b' : Option Header) × (r ≡ more s' e' b')
            × OnTrack s' e' b'
            × (s ≤ s')
            × (e' ≤ e)
            × ((n ≡ 0) ⊎ ((s < s') ⊎ (e' < e))))

module _ (w : ℕ) (has_block : ℕ → Bool) (c : ℕ → Header) (k top : ℕ) (small : top + 1 < w)
    (number : (h : ℕ) → h ≤ top → (c h).number ≡ h)
    (shared : (h : ℕ) → h ≤ top → has_block (c h).hash ≡ leb h k) where
  unordered_later :
      (pre : Option ℕ) (h span : ℕ)
      → ((p : ℕ) → pre ≡ some p → h + span < p + span)
      → unordered true pre h ≡ false
  unfolding unordered
  unordered_later none h span ordered = refl
  unordered_later (some p) h span ordered = let later = ordered p refl in ground arith

  leb→lt : (a b : ℕ) → leb a b ≡ false → b < a
  leb→lt a b h = ground arith

  kept : (h : ℕ) → h ≤ k → (h + 1 ≤ k) ⊎ ((h + 1 ≡ k + 1) × (some (c h) ≡ some (c k)))
  kept h le = elim (dec_lt h k) [
    | yes lt ↦ inl (omega arith)
    | no ge ↦ inr (omega arith, ap (λ t. some (c t)) {x = h} {y = k} (omega arith))
  ]

  later : (h p : ℕ) {span : ℕ} → some h ≡ some p → 1 ≤ span → h < p + span
  later h p e positive = let eq : h ≡ p = cc in omega arith

  pub scan_back-Progress :
      (n span s e : ℕ) (pre : Option ℕ) (best : Option Header)
      → 1 ≤ span
      → e ≤ top
      → s + n * span ≤ e + span
      → ((p : ℕ) → pre ≡ some p → s + n * span < p + span)
      → OnTrack c k s e best
      → (r : Round) × (scan_back true w has_block (samples_down c s span n) pre s e best ≡ ok r)
        × Progress c k n s e r
  unfolding scan_back
  scan_back-Progress zero span s e pre best positive below fits ordered track = (
    more s e best,
    refl,
    record { result = inr (s, e, best, refl, track, omega arith, omega arith, inl refl) },
  )
  scan_back-Progress (suc n) span s e pre best positive below fits ordered track =
      let h = s + n * span in
      let at_h = number h (omega arith) in
      let in_order = unordered_later pre h span (λ p e. omega (arith, ordered p e)) in
      elim (Bool-cases (leb h k)) [
        | inl known ↦
            let kn =
              scan_back_known true w has_block (c h) (samples_down c s span n) pre s e h best at_h
                (omega arith) (omega arith) (omega arith) in_order
                (shared h (omega arith) ∙ known) in
            met h (omega arith) (omega arith) (leb→le h k known) kn
        | inr above ↦
            let over = leb→lt h k above in
            let un =
              scan_back_unknown true w has_block (c h) (samples_down c s span n) pre s e h best at_h
                (omega arith) (omega arith) (omega arith) in_order (omega (arith, over))
                (shared h (omega arith) ∙ above) in
            let (r, eq, pr) =
              scan_back-Progress n span s (h - 1) (some h) best positive (omega arith)
                (omega (arith, over)) (λ p q. later h p q positive)
                (omega (arith, over, track.0), track.1) in
            (r, un ∙ eq, widen h r (omega arith) over pr)
      ]
    where
      met :
          (h : ℕ)
          → s ≤ h
          → h ≤ e
          → h ≤ k
          → {m : Result SyncError Round}
          → m ≡ (if h == e then ok (found (c h)) else ok (more (h + 1) e (some (c h))))
          → (r : Round) × (m ≡ ok r) × Progress c k (suc n) s e r
      met h low high shared_height eq = elim (Bool-cases (h == e)) [
        | inl last ↦
            let at_end = (==_iff h e).0 last in
            (
              found (c h),
              rw last at eq,
              record {
                result =
                    inl (ap (λ t. found (c t)) {x = h} {y = k} (omega (arith, at_end, track.0)));
              },
            )
        | inr early ↦ (
          more (h + 1) e (some (c h)),
          rw early at eq,
          record {
            result = inr (
              h + 1,
              e,
              some (c h),
              refl,
              (track.0, kept h shared_height),
              omega arith,
              omega arith,
              inr (inl (omega arith)),
            );
          },
        )
      ]

      widen :
          (h : ℕ) (r : Round)
          → h ≤ e
          → k < h
          → Progress c k n s (h - 1) r
          → Progress c k (suc n) s e r
      widen h r high over pr = elim pr.result [
        | inl eq ↦ record { result = inl eq }
        | inr (s', e', b', eq, t, up, down, _) ↦ record {
          result =
              inr
                (s', e', b', eq, t, up, omega (arith, down), inr (inr (omega (arith, down, over))));
        }
      ]
