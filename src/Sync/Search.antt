-- ===== src/Sync/Search.antt =====
-- The rounds of the search for the last common block, with any answers: the inner and the outer loop
-- of `findAncestor` in cluster/sync/root_task.go and minor_task.go.
use goquarkchain.Prelude.{
  ℕ, zero, suc, ◌+◌, ◌-◌, ◌%◌, ◌≤◌, ◌<◌, ◌≡◌, ◌⊎◌, inl, inr, refl, sym, ap, ◌∙◌, subst, Bool, true,
  false, Option, none, some, List, [], ◌∷◌, length, length-reverse, All, All-reverse, ltb, ◌==◌,
  ==_iff, if◌then◌else◌, ltb→le, Result, ok, err, >>=-eq-ok, if_err-ok, Bool-cases, arith,
}
use mathlib.Core.List.{reverse}
use native.Mathlib.Nat.{mod-eq_of_lt, add-mod_right}
use goquarkchain.Sync.Types.{SyncError, out_of_range, bad_order, bad_bounds, out_of_fuel, Header}
use goquarkchain.Sync.Ancestor.{Round, found, more, sub_word, scan_back, unordered, search_loop}
use goquarkchain.Sync.Answers.{Answers, ne_out, no_fuel_error}

-- A header of height 0 is the one of our chain.
abbrev pub IsOursAtZero : (ℕ → Bool) → Header → Type 0
IsOursAtZero has_block h = h.number ≡ 0 → has_block h.hash ≡ true

module _ (strict : Bool) (w : ℕ) (has_block : ℕ → Bool) (top : ℕ) (small : top + 1 < w) where
  -- What the first header of a round comes to.
  data First (rh : Header) (rhs : List Header) (start end : ℕ) (best : Option Header) (r : Round)
      : Type 0 where
    at_end :
        has_block rh.hash ≡ true → rh.number ≡ end → r ≡ found rh → First rh rhs start end best r
    known :
        has_block rh.hash ≡ true
        → (rh.number + 1) % w ≤ end
        → r ≡ more ((rh.number + 1) % w) end (some rh)
        → First rh rhs start end best r
    unknown :
        has_block rh.hash ≡ false
        → scan_back strict w has_block rhs (some rh.number) start (sub_word w rh.number 1) best
          ≡ ok r
        → First rh rhs start end best r

  scan_back-First :
      (rh : Header) (rhs : List Header) (pre : Option ℕ) (start end : ℕ) (best : Option Header)
      (r : Round)
      → scan_back strict w has_block (rh ∷ rhs) pre start end best ≡ ok r
      → (start ≤ rh.number) × (rh.number ≤ end) × First rh rhs start end best r
  unfolding scan_back
  scan_back-First rh rhs pre start end best r e =
      let (p₁, e₁) = if_err-ok (ltb rh.number start) out_of_range _ e in
      let (p₂, e₂) = if_err-ok (ltb end rh.number) out_of_range _ e₁ in
      let (_, e₃) = if_err-ok (unordered strict pre rh.number) bad_order _ e₂ in
      (ltb→le _ _ p₁, ltb→le _ _ p₂, placed e₃)
    where
      placed :
          (if has_block rh.hash
              then if rh.number == end
                then ok (found rh)
                else if ltb end ((rh.number + 1) % w)
                then err bad_bounds
                else ok (more ((rh.number + 1) % w) end (some rh))
              else scan_back strict w has_block rhs
                  (some rh.number)
                  start
                  (sub_word w rh.number 1)
                  best)
            ≡ ok r
          → First rh rhs start end best r
      placed e₃ = elim (Bool-cases (has_block rh.hash)) [
        | inr no_block ↦ First.unknown no_block (rw no_block at e₃)
        | inl have ↦ elim (Bool-cases (rh.number == end)) [
          | inl last ↦ First.at_end have ((==_iff _ _).0 last) (cc (rw (have, last) at e₃))
          | inr early ↦
              let (p₄, e₄) =
                if_err-ok (ltb end ((rh.number + 1) % w)) bad_bounds _ (rw (have, early) at e₃) in
              First.known have (ltb→le _ _ p₄) (cc)
        ]
      ]

  -- No header that the downloads give at height 0 is foreign, unless the search starts higher.
  abbrev Anchored : (ℕ → Header → ℕ → ℕ → Result SyncError (List Header × Header)) → ℕ → Type 0
  Anchored ask start =
      start ≡ 0
      → (n : ℕ) (t : Header) (s e : ℕ) (rhs : List Header) (t' : Header)
      → ask n t s e ≡ ok (rhs, t')
      → All (IsOursAtZero has_block) rhs

  -- The best block so far is ours, and no higher than the tip.
  abbrev pub Ours : Option Header → Type 0
  Ours none = Unit {0}
  Ours (some h) = (has_block h.hash ≡ true) × (h.number ≤ top)

  succ_word : (n : ℕ) → n ≤ top → (n + 1) % w ≡ n + 1
  succ_word n h = mod-eq_of_lt (omega (arith, small))

  pred_word : (n : ℕ) → 1 ≤ n → n ≤ top → sub_word w n 1 ≡ n - 1
  pred_word n h q =
      ap (λ t. t % w) {x = n + w - 1} {y = n - 1 + w} (omega (arith, h))
      ∙ add-mod_right (n - 1) w
      ∙ mod-eq_of_lt (omega (arith, q, small))

  true-ne-false : true ≡ false → ⊥
  true-ne-false e = cc

  positive_of : (n : ℕ) → (n == 0) ≡ false → 1 ≤ n
  positive_of n h = ground arith

  not_at_zero :
      (s : ℕ) (rh : Header)
      → (s ≡ 0 → IsOursAtZero has_block rh)
      → s ≤ rh.number
      → has_block rh.hash ≡ false
      → 1 ≤ rh.number
  not_at_zero s rh anchored low no_block = elim (Bool-cases (rh.number == 0)) [
    | inl zero_height ↦
        let z : rh.number ≡ 0 = (==_iff _ _).0 zero_height in
        absurd (true-ne-false (sym (anchored (omega (arith, z, low)) z) ∙ no_block))
    | inr positive ↦ positive_of rh.number positive
  ]

  -- A round with headers takes heights away from the search.
  record Shrinks (rhs : List Header) (s e s' e' : ℕ) (b' : Option Header) : Type 0 where
    from_below : s ≤ s'
    from_above : e' ≤ e
    smaller : (length rhs ≡ 0) ⊎ ((s < s') ⊎ (e' < e))
    ours : Ours b'

  scan_back-Shrinks :
      (rhs : List Header) (pre : Option ℕ) (s e : ℕ) (best : Option Header) (s' e' : ℕ)
      (b' : Option Header)
      → e ≤ top
      → (s ≡ 0 → All (IsOursAtZero has_block) rhs)
      → Ours best
      → scan_back strict w has_block rhs pre s e best ≡ ok (more s' e' b')
      → Shrinks rhs s e s' e' b'
  unfolding scan_back
  scan_back-Shrinks [] pre s e best s' e' b' below anchored ours eq =
      let eq₁ : s ≡ s' = cc in
      let eq₂ : e ≡ e' = cc in
      let eq₃ : best ≡ b' = cc in
      record {
        from_below = omega arith;
        from_above = omega arith;
        smaller = inl refl;
        ours = subst Ours eq₃ ours;
      }
  scan_back-Shrinks (rh ∷ rhs) pre s e best s' e' b' below anchored ours eq =
      let (low, high, first) = scan_back-First rh rhs pre s e best (more s' e' b') eq in
      of_first low high first (λ p d.
        scan_back-Shrinks rhs (some rh.number) s (sub_word w rh.number 1) best s' e' b'
          (omega (arith, pred_word rh.number p (omega arith), high, below)) (λ z. (anchored z).1)
          ours d)
    where
      of_first :
          s ≤ rh.number
          → rh.number ≤ e
          → First rh rhs s e best (more s' e' b')
          → (1 ≤ rh.number
              → scan_back strict w has_block rhs (some rh.number) s (sub_word w rh.number 1) best
                ≡ ok (more s' e' b')
              → Shrinks rhs s (sub_word w rh.number 1) s' e' b')
          → Shrinks (rh ∷ rhs) s e s' e' b'
      of_first low high (First.at_end have last same) rec = cc
      of_first low high (First.known have le same) rec =
          let eq₁ : s' ≡ (rh.number + 1) % w = cc in
          let eq₂ : e' ≡ e = cc in
          let eq₃ : b' ≡ some rh = cc in
          let next : (rh.number + 1) % w ≡ rh.number + 1 =
            succ_word rh.number (omega (arith, high, below)) in
          record {
            from_below = omega (arith, eq₁, next, low);
            from_above = omega (arith, eq₂);
            smaller = inr (inl (omega (arith, eq₁, next, low)));
            ours = subst Ours (sym eq₃) (have, omega (arith, high, below));
          }
      of_first low high (First.unknown no_block deeper) rec =
          let some_height : 1 ≤ rh.number = not_at_zero s rh (λ z. (anchored z).0) low no_block in
          let before : sub_word w rh.number 1 ≡ rh.number - 1 =
            pred_word rh.number some_height (omega (arith, high, below)) in
          let r = rec some_height deeper in
          record {
            from_below = r.from_below;
            from_above = omega (arith, r.from_above, before, high);
            smaller = inr (inr (omega (arith, r.from_above, before, high, some_height)));
            ours = r.ours;
          }

  scan_back-ne-out :
      (rhs : List Header) (pre : Option ℕ) (s e : ℕ) (best : Option Header)
      → ¬ (scan_back strict w has_block rhs pre s e best ≡ err out_of_fuel)
  unfolding scan_back
  scan_back-ne-out [] pre s e best = λ eq. cc
  scan_back-ne-out (rh ∷ rhs) pre s e best =
      no_fuel_error (ltb rh.number s) out_of_range _ (λ p. cc)
        (no_fuel_error (ltb e rh.number) out_of_range _ (λ p. cc)
          (no_fuel_error (unordered strict pre rh.number) bad_order _ (λ p. cc)
            (placed (has_block rh.hash)
              (scan_back-ne-out rhs (some rh.number) s (sub_word w rh.number 1) best))))
    where
      placed :
          (b : Bool) {older : Result SyncError Round}
          → ¬ (older ≡ err out_of_fuel)
          → ¬ (
              (if b
                then if rh.number == e
                  then ok (found rh)
                  else if ltb e ((rh.number + 1) % w)
                  then err bad_bounds
                  else ok (more ((rh.number + 1) % w) e (some rh))
                else older)
              ≡ err out_of_fuel)
      placed true h eq = elim (Bool-cases (rh.number == e)) [
        | inl last ↦ cc (rw last at eq)
        | inr early ↦
            no_fuel_error (ltb e ((rh.number + 1) % w)) bad_bounds _ (λ p. cc) (λ p. cc)
              (rw early at eq)
      ]
      placed false h eq = h eq

  Anchored-le :
      (ask : ℕ → Header → ℕ → ℕ → Result SyncError (List Header × Header)) (s s' : ℕ)
      → s ≤ s'
      → Anchored ask s
      → Anchored ask s'
  Anchored-le ask s s' le anchored z = anchored (omega arith)

  pub search_loop_total :
      (ask : ℕ → Header → ℕ → ℕ → Result SyncError (List Header × Header))
      → Answers ask
      → (fuel n : ℕ) (t : Header) (s e : ℕ) (best : Option Header) → e ≤ top
      → e + 1 - s < fuel
      → Anchored ask s
      → Ours best
      → ¬ (search_loop strict w has_block ask fuel n t s e best ≡ err out_of_fuel)
  unfolding search_loop
  search_loop_total ask answers zero n t s e best below enough anchored ours = absurd (omega arith)
  search_loop_total ask answers (suc fuel) n t s e best below enough anchored ours =
      next (search_loop_total ask answers fuel (n + 1))
    where
      closer :
          (rhs : List Header) (s' e' : ℕ) (b' : Option Header)
          → 1 ≤ length rhs
          → s ≤ e
          → Shrinks (reverse rhs) s e s' e' b'
          → e' + 1 - s' < fuel
      closer rhs s' e' b' some_headers low sh = elim sh.smaller [
        | inl no_headers ↦ absurd (omega (arith, no_headers, length-reverse rhs))
        | inr (inl up) ↦ omega (arith, sh.from_above)
        | inr (inr down) ↦ omega (arith, sh.from_below)
      ]

      round_total :
          (rhs : List Header) (t' : Header)
          → 1 ≤ length rhs
          → (s ≡ 0 → All (IsOursAtZero has_block) rhs)
          → (round : Round) → scan_back strict w has_block (reverse rhs) none s e best ≡ ok round
          → s ≤ e
          → ((t' : Header) (s' e' : ℕ) (b' : Option Header)
              → e' ≤ top
              → e' + 1 - s' < fuel
              → Anchored ask s'
              → Ours b'
              → ¬ (search_loop strict w has_block ask fuel (n + 1) t' s' e' b' ≡ err out_of_fuel))
          → ¬ (
              ◌≡◌ {A = Result SyncError (Option Header × Header)}
                (elim round [
                  | found rh ↦ ok (some rh, t')
                  | more s' e' b' ↦ search_loop strict w has_block ask fuel (n + 1) t' s' e' b'
                ])
                (err out_of_fuel))
      round_total rhs t' some_headers ours_at (found rh) scanned low rec = λ eq. cc
      round_total rhs t' some_headers ours_at (more s' e' b') scanned low rec =
          let sh =
            scan_back-Shrinks (reverse rhs) none s e best s' e' b' below
              (λ z. All-reverse (IsOursAtZero has_block) rhs (ours_at z)) ours scanned in
          rec t' s' e' b' (omega (arith, sh.from_above, below))
            (closer rhs s' e' b' some_headers low sh) (Anchored-le ask s s' sh.from_below anchored)
            sh.ours

      next :
          ((t' : Header) (s' e' : ℕ) (b' : Option Header)
            → e' ≤ top
            → e' + 1 - s' < fuel
            → Anchored ask s'
            → Ours b'
            → ¬ (search_loop strict w has_block ask fuel (n + 1) t' s' e' b' ≡ err out_of_fuel))
          → ¬ (search_loop strict w has_block ask (suc fuel) n t s e best ≡ err out_of_fuel)
      next rec = elim (Bool-cases (ltb e s)) [
        | inl past ↦ λ eq. cc (rw past at eq)
        | inr going ↦ λ eq.
            ne_out (ask n t s e) _ (answers.own_error n t s e)
              (λ (rhs, t') got.
                ne_out (scan_back strict w has_block (reverse rhs) none s e best) _
                  (scan_back-ne-out (reverse rhs) none s e best)
                  (λ round scanned.
                    round_total rhs t' (answers.headers n t s e rhs t' got)
                      (λ z. anchored z n t s e rhs t' got) round scanned (ltb→le e s going) rec))
              (rw going at eq)
      ]

  -- A round that ends the search ends it on a block of ours.
  scan_back-Ours :
      (rhs : List Header) (pre : Option ℕ) (s e : ℕ) (best : Option Header) (a : Header)
      → e ≤ top
      → (s ≡ 0 → All (IsOursAtZero has_block) rhs)
      → scan_back strict w has_block rhs pre s e best ≡ ok (found a)
      → Ours (some a)
  unfolding scan_back
  scan_back-Ours [] pre s e best a below anchored eq = cc
  scan_back-Ours (rh ∷ rhs) pre s e best a below anchored eq =
      let (low, high, first) = scan_back-First rh rhs pre s e best (found a) eq in
      of_first low high first (λ p d.
        scan_back-Ours rhs (some rh.number) s (sub_word w rh.number 1) best a
          (omega (arith, pred_word rh.number p (omega arith), high, below)) (λ z. (anchored z).1) d)
    where
      of_first :
          s ≤ rh.number
          → rh.number ≤ e
          → First rh rhs s e best (found a)
          → (1 ≤ rh.number
              → scan_back strict w has_block rhs (some rh.number) s (sub_word w rh.number 1) best
                ≡ ok (found a)
              → Ours (some a))
          → Ours (some a)
      of_first low high (First.at_end have last same) rec =
          let eq₁ : rh ≡ a = cc in subst (λ x. Ours (some x)) eq₁ (have, omega (arith, high, below))
      of_first low high (First.known have le same) rec = cc
      of_first low high (First.unknown no_block deeper) rec =
          rec (not_at_zero s rh (λ z. (anchored z).0) low no_block) deeper

  pub search_loop-Ours :
      (ask : ℕ → Header → ℕ → ℕ → Result SyncError (List Header × Header))
      → (fuel n : ℕ) (t : Header) (s e : ℕ) (best r : Option Header) (t' : Header) → e ≤ top
      → Anchored ask s
      → Ours best
      → search_loop strict w has_block ask fuel n t s e best ≡ ok (r, t')
      → Ours r
  unfolding search_loop
  search_loop-Ours ask zero n t s e best r t' below anchored ours eq = cc
  search_loop-Ours ask (suc fuel) n t s e best r t' below anchored ours eq =
      next (search_loop-Ours ask fuel (n + 1)) eq
    where
      ended :
          (rhs : List Header) (t₁ : Header)
          → (s ≡ 0 → All (IsOursAtZero has_block) rhs)
          → (round : Round) → scan_back strict w has_block (reverse rhs) none s e best ≡ ok round
          → ◌≡◌ {A = Result SyncError (Option Header × Header)}
              (elim round [
                | found rh ↦ ok (some rh, t₁)
                | more s' e' b' ↦ search_loop strict w has_block ask fuel (n + 1) t₁ s' e' b'
              ])
              (ok (r, t'))
          → ((t₁ : Header) (s' e' : ℕ) (b' r : Option Header) (t' : Header)
              → e' ≤ top
              → Anchored ask s'
              → Ours b'
              → search_loop strict w has_block ask fuel (n + 1) t₁ s' e' b' ≡ ok (r, t')
              → Ours r)
          → Ours r
      ended rhs t₁ ours_at (found rh) scanned eq rec =
          let eq₁ : some rh ≡ r = cc in
          subst Ours eq₁ (
            scan_back-Ours (reverse rhs) none s e best rh below
              (λ z. All-reverse (IsOursAtZero has_block) rhs (ours_at z)) scanned)
      ended rhs t₁ ours_at (more s' e' b') scanned eq rec =
          let sh =
            scan_back-Shrinks (reverse rhs) none s e best s' e' b' below
              (λ z. All-reverse (IsOursAtZero has_block) rhs (ours_at z)) ours scanned in
          rec t₁ s' e' b' r t' (omega (arith, sh.from_above, below))
            (Anchored-le ask s s' sh.from_below anchored) sh.ours eq

      next :
          ((t₁ : Header) (s' e' : ℕ) (b' r : Option Header) (t' : Header)
            → e' ≤ top
            → Anchored ask s'
            → Ours b'
            → search_loop strict w has_block ask fuel (n + 1) t₁ s' e' b' ≡ ok (r, t')
            → Ours r)
          → search_loop strict w has_block ask (suc fuel) n t s e best ≡ ok (r, t')
          → Ours r
      next rec = elim (Bool-cases (ltb e s)) [
        | inl past ↦ λ eq. let eq₁ : best ≡ r = cc (rw past at eq) in subst Ours eq₁ ours
        | inr going ↦ λ eq.
            let ((rhs, t₁), got, eq₁) = >>=-eq-ok (ask n t s e) _ (rw going at eq) in
            let (round, scanned, eq₂) =
              >>=-eq-ok (scan_back strict w has_block (reverse rhs) none s e best) _ eq₁ in
            ended rhs t₁ (λ z. anchored z n t s e rhs t₁ got) round scanned eq₂ rec
      ]
