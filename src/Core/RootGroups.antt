-- ===== src/Core/RootGroups.antt =====
-- The minor block headers of an accepted root block, by shards: core/rootblock_validator.go.
use goquarkchain.Prelude.{
  ℕ, ◌+◌, ◌%◌, ◌^◌, ◌≤◌, ◌<◌, ◌≡◌, refl, sym, ap, ◌∙◌, subst, Bool, true, false, not, Option, none,
  some, List, [], ◌∷◌, ◌++◌, append-nil, append_assoc, All, ltb, ◌==◌, ltb→le, ltb→lt, ok, ◌>>◌,
  fail_if, fail_if-ok, >>=-eq-ok, same_of_not, true_of_not, arith,
}
use goquarkchain.Core.RootValidator.{
  RootError, not_validated, too_late, bad_shard_order, bad_number, bad_link, MinorHeader, Groups,
  add_to_last, follow, group_headers,
}

-- A header extends another one.
abbrev pub Extends : MinorHeader → MinorHeader → Type 0
Extends p h = (h.number ≡ (p.number + 1) % 2 ^ 64) × (h.parent_hash ≡ p.hash)

-- Headers of one shard, each of which extends the one before, with the last one named.
pub data IsRun (id : ℕ) : List MinorHeader → MinorHeader → Type 0 where
  one : (h : MinorHeader) → h.full_shard_id ≡ id → IsRun id (h ∷ []) h
  more :
      (headers : List MinorHeader) (p h : MinorHeader)
      → IsRun id headers p
      → h.full_shard_id ≡ id
      → Extends p h
      → IsRun id (headers ++ (h ∷ [])) h

-- Runs of different shards, the greatest shard first.
abbrev pub IsGrouped : Groups → Type 0
IsGrouped [] = Unit {0}
IsGrouped ((id, headers) ∷ groups) =
    ((p : MinorHeader) × IsRun id headers p) × All (λ g. g.0 < id) groups × IsGrouped groups

-- The headers of the groups, in the order of the block.
abbrev pub headers_of : Groups → List MinorHeader
headers_of [] = []
headers_of ((id, headers) ∷ groups) = headers_of groups ++ headers

-- What the loop knows: the header before is the last one of the newest group.
abbrev pub OnGroups : ℕ → Option MinorHeader → Groups → Type 0
OnGroups shard none groups = groups ≡ []
OnGroups shard (some p) [] = ⊥
OnGroups shard (some p) ((id, headers) ∷ groups) =
    (id ≡ shard) × IsRun id headers p × All (λ g. g.0 < id) groups × IsGrouped groups

pub not_failed : (b : Bool) (e : RootError) → fail_if b e ≡ ok tt → b ≡ false
not_failed true e h = cc
not_failed false e h = refl

follow-Extends :
    (parent : Option MinorHeader) (h : MinorHeader)
    → follow parent h ≡ ok tt
    → (p : MinorHeader) × (parent ≡ some p) × Extends p h
unfolding follow
follow-Extends none h e = cc
follow-Extends (some p) h e =
    let (numbered, e₁) = fail_if-ok (not (h.number == (p.number + 1) % 2 ^ 64)) bad_number _ e in
    (p, refl, (same_of_not _ _ numbered, same_of_not _ _ (not_failed _ bad_link e₁)))

All-below :
    (a b : ℕ) (groups : Groups) → a < b → All (λ g. g.0 < a) groups → All (λ g. g.0 < b) groups
All-below a b [] lt all = tt
All-below a b (g ∷ groups) lt (h, hs) = (omega arith, All-below a b groups lt hs)

OnGroups-IsGrouped :
    (shard : ℕ) (parent : Option MinorHeader) (groups : Groups)
    → OnGroups shard parent groups
    → IsGrouped groups
OnGroups-IsGrouped shard none groups on = subst IsGrouped (sym on) tt
OnGroups-IsGrouped shard (some p) [] on = absurd on
OnGroups-IsGrouped shard (some p) ((id, headers) ∷ groups) (same, run, below, grouped) =
    ((p, run), below, grouped)

OnGroups-below :
    (shard id : ℕ) (parent : Option MinorHeader) (groups : Groups)
    → shard < id
    → OnGroups shard parent groups
    → All (λ g. g.0 < id) groups
OnGroups-below shard id none groups lt on = subst (All (λ g. g.0 < id)) (sym on) tt
OnGroups-below shard id (some p) [] lt on = absurd on
OnGroups-below shard id (some p) ((id', headers) ∷ groups) lt (same, run, below, grouped) =
    (omega arith, All-below id' id groups (omega arith) below)

OnGroups-add :
    (shard : ℕ) (p h : MinorHeader) (groups : Groups)
    → OnGroups shard (some p) groups
    → h.full_shard_id ≡ shard
    → Extends p h
    → OnGroups shard (some h) (add_to_last groups h)
      × (headers_of (add_to_last groups h) ≡ headers_of groups ++ (h ∷ []))
unfolding add_to_last
OnGroups-add shard p h [] on same ext = absurd on
OnGroups-add shard p h ((id, headers) ∷ groups) (at, run, below, grouped) same ext = (
  (at, IsRun.more headers p h run (same ∙ sym at) ext, below, grouped),
  sym (append_assoc (headers_of groups) headers (h ∷ [])),
)

module _ (contains : ℕ → Bool) (time : ℕ) where
  -- A header that the root block may contain.
  abbrev pub IsAllowed : MinorHeader → Type 0
  IsAllowed h = (contains h.hash ≡ true) × (h.time ≤ time)

  pub group_headers-IsGrouped :
      (shard : ℕ) (parent : Option MinorHeader) (before : Groups) (headers : List MinorHeader)
      (groups : Groups)
      → OnGroups shard parent before
      → group_headers contains time shard parent before headers ≡ ok groups
      → IsGrouped groups
        × (headers_of groups ≡ headers_of before ++ headers)
        × All IsAllowed headers
  unfolding group_headers
  group_headers-IsGrouped shard parent before [] groups on e =
      let same : before ≡ groups = cc in
      (
        subst IsGrouped same (OnGroups-IsGrouped shard parent before on),
        ap headers_of (sym same) ∙ sym (append-nil (headers_of before)),
        tt,
      )
  group_headers-IsGrouped shard parent before (h ∷ headers) groups on e =
      let (validated, e₁) = fail_if-ok (not (contains h.hash)) not_validated _ e in
      let (early, e₂) = fail_if-ok (ltb time h.time) too_late _ e₁ in
      let (ordered, e₃) = fail_if-ok (ltb h.full_shard_id shard) bad_shard_order _ e₂ in
      of_case (ltb→le _ _ ordered) (true_of_not _ validated, ltb→le _ _ early)
        (ltb shard h.full_shard_id) refl e₃
        (group_headers-IsGrouped h.full_shard_id (some h) ((h.full_shard_id, h ∷ []) ∷ before)
          headers groups)
        (group_headers-IsGrouped shard (some h) (add_to_last before h) headers groups)
    where
      of_case :
          shard ≤ h.full_shard_id
          → IsAllowed h
          → (b : Bool) → ltb shard h.full_shard_id ≡ b
          → (elim b [
            | true ↦
                group_headers contains time h.full_shard_id
                  (some h)
                  ((h.full_shard_id, h ∷ []) ∷ before)
                  headers
            | false ↦
                follow parent h
                >> group_headers contains time shard (some h) (add_to_last before h) headers
          ])
            ≡ ok groups
          → (OnGroups h.full_shard_id (some h) ((h.full_shard_id, h ∷ []) ∷ before)
              → group_headers contains time h.full_shard_id
                  (some h)
                  ((h.full_shard_id, h ∷ []) ∷ before)
                  headers
                ≡ ok groups
              → IsGrouped groups
                × (headers_of groups ≡ headers_of ((h.full_shard_id, h ∷ []) ∷ before) ++ headers)
                × All IsAllowed headers)
          → (OnGroups shard (some h) (add_to_last before h)
              → group_headers contains time shard (some h) (add_to_last before h) headers
                ≡ ok groups
              → IsGrouped groups
                × (headers_of groups ≡ headers_of (add_to_last before h) ++ headers)
                × All IsAllowed headers)
          → IsGrouped groups
            × (headers_of groups ≡ headers_of before ++ (h ∷ headers))
            × All IsAllowed (h ∷ headers)
      of_case le allowed true is_new e new same =
          let (grouped, all, rest) =
            new
              (
                refl,
                IsRun.one h refl,
                OnGroups-below shard h.full_shard_id parent before (ltb→lt _ _ is_new) on,
                OnGroups-IsGrouped shard parent before on,
              )
              e in
          (grouped, all ∙ append_assoc (headers_of before) (h ∷ []) headers, (allowed, rest))
      of_case le allowed false is_old e new same =
          let (t, followed, e') =
            >>=-eq-ok (follow parent h)
              (λ done. group_headers contains time shard (some h) (add_to_last before h) headers)
              e in
          let (p, is_some, ext) = follow-Extends parent h followed in
          let (on', added) =
            OnGroups-add shard p h before (subst (λ o. OnGroups shard o before) is_some on)
              (omega (arith, ltb→le _ _ is_old)) ext in
          let (grouped, all, rest) = same on' e' in
          (
            grouped,
            all ∙ ap (λ l. l ++ headers) added ∙ append_assoc (headers_of before) (h ∷ []) headers,
            (allowed, rest),
          )
