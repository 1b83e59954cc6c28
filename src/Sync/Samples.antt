-- ===== src/Sync/Samples.antt =====
-- Stretches of a chain: every span-th of its values.
use goquarkchain.Prelude.{
  ℕ, zero, suc, ◌+◌, ◌-◌, ◌*◌, min, ◌≡◌, refl, ap, ◌∙◌, List, [], ◌∷◌, ◌++◌, length, take, drop,
  map, arith,
}
use mathlib.Core.List.{reverse, reverse-append}

module _ {A : Type 0} (c : ℕ → A) where
  -- Every span-th header of a sequence, n of them.
  abbrev pub samples : ℕ → ℕ → ℕ → List A
  samples start span zero = []
  samples start span (suc n) = c start ∷ samples (start + span) span n

  abbrev pub samples_down : ℕ → ℕ → ℕ → List A
  samples_down start span zero = []
  samples_down start span (suc n) = c (start + n * span) ∷ samples_down start span n

  samples_snoc :
      (n start span : ℕ)
      → samples start span (suc n) ≡ samples start span n ++ (c (start + n * span) ∷ [])
  samples_snoc zero start span = ap (λ t. c t ∷ []) {x = start} {y = start + 0 * span} (omega arith)
  samples_snoc (suc n) start span =
      ap (λ t. c start ∷ t) (samples_snoc n (start + span) span)
      ∙ ap (λ t. c start ∷ (samples (start + span) span n ++ (c t ∷ [])))
          {x = start + span + n * span} {y = start + suc n * span} (omega arith)

  pub reverse-samples :
      (n start span : ℕ) → reverse (samples start span n) ≡ samples_down start span n
  reverse-samples zero start span = refl
  reverse-samples (suc n) start span =
      ap reverse (samples_snoc n start span)
      ∙ reverse-append (samples start span n) (c (start + n * span) ∷ [])
      ∙ ap (λ t. c (start + n * span) ∷ t) (reverse-samples n start span)

  pub length-samples : (n start span : ℕ) → length (samples start span n) ≡ n
  length-samples zero start span = refl
  length-samples (suc n) start span = ap suc (length-samples n (start + span) span)

module _ {A : Type 0} (c : ℕ → A) where
  pub take-samples : (m n start : ℕ) → take m (samples c start 1 n) ≡ samples c start 1 (min m n)
  take-samples zero n start = ap (samples c start 1) {x = 0} {y = min 0 n} (omega arith)
  take-samples (suc m) zero start = ap (samples c start 1) {x = 0} {y = min (suc m) 0} (omega arith)
  take-samples (suc m) (suc n) start =
      ap (λ t. c start ∷ t) (take-samples m n (start + 1))
      ∙ ap (samples c start 1) {x = suc (min m n)} {y = min (suc m) (suc n)} (omega arith)

  pub drop-samples :
      (m n start : ℕ) → drop m (samples c start 1 n) ≡ samples c (start + m) 1 (n - m)
  drop-samples zero n start =
      ap (λ t. samples c t 1 n) {x = start} {y = start + 0} (omega arith)
      ∙ ap (samples c (start + 0) 1) {x = n} {y = n - 0} (omega arith)
  drop-samples (suc m) zero start =
      ap (samples c (start + suc m) 1) {x = 0} {y = 0 - suc m} (omega arith)
  drop-samples (suc m) (suc n) start =
      drop-samples m n (start + 1)
      ∙ ap (λ t. samples c t 1 (n - m)) {x = start + 1 + m} {y = start + suc m} (omega arith)
      ∙ ap (samples c (start + suc m) 1) {x = n - m} {y = suc n - suc m} (omega arith)

pub map-samples :
    {A B : Type 0} (f : A → B) (c : ℕ → A) (n start span : ℕ)
    → map f (samples c start span n) ≡ samples (λ h. f (c h)) start span n
map-samples f c zero start span = refl
map-samples f c (suc n) start span =
    ap (λ t. f (c start) ∷ t) (map-samples f c n (start + span) span)
