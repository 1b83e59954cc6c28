-- ===== src/Prelude/Bits.antt =====
-- The bit operations at variables: a word is split into a high and a low field, and each operation
-- works on the fields apart.
use Prim.Native.Nat.{
  ℕ, zero, suc, ◌+◌, ◌-◌, ◌*◌, ◌/◌, ◌%◌, ◌^◌, ◌≤◌, ◌<◌, min, max, bit_and, bit_or, bit_xor, digits,
  bitwise, differ, bit_and-bitwise, bit_or-bitwise, bit_xor-bitwise,
}
use mathlib.Core.Path.{◌≡◌, refl, sym, ap, ap₂, ◌∙◌}
use mathlib.Core.Logic.{◌↔◌, ◌⊎◌, inl, inr}
use native.Mathlib.Omega.{arith}
use native.Mathlib.Decide.{dec_lt}
use native.Mathlib.Nat.{pow-suc, le_refl, div-add-mod', mod-lt}

-- The count of digits to go does not matter when it is large enough.
module _ (z : ℕ → ℕ) (f : ℕ → ℕ → ℕ) where
  digits_count : (n m a b : ℕ) → a ≤ n → a ≤ m → digits z f n a b ≡ digits z f m a b
  digits_count zero zero a b p q = refl
  digits_count (suc n) zero zero b p q = refl
  digits_count zero (suc m) zero b p q = refl
  digits_count (suc n) (suc m) zero b p q = refl
  digits_count zero (suc m) (suc a) b p q = absurd (omega arith)
  digits_count (suc n) zero (suc a) b p q = absurd (omega arith)
  digits_count (suc n) (suc m) (suc a) b p q =
      ap (λ t. t * 2 + f (suc a % 2) (b % 2))
        (digits_count n m (suc a / 2) (b / 2) (omega arith) (omega arith))

  -- One digit of a number that is not 0.
  lowest_digit :
      (a b : ℕ)
      → bitwise z f (suc a) b ≡ bitwise z f (suc a / 2) (b / 2) * 2 + f (suc a % 2) (b % 2)
  lowest_digit a b =
      ap (λ t. t * 2 + f (suc a % 2) (b % 2))
        (digits_count a (suc a / 2) (suc a / 2) (b / 2) (omega arith) (le_refl _))

and_step : (a b : ℕ) → bit_and a b ≡ bit_and (a / 2) (b / 2) * 2 + min (a % 2) (b % 2)
and_step zero b = simp bit_and-bitwise (omega arith)
and_step (suc a) b = simp bit_and-bitwise (lowest_digit (λ y. 0) min a b)

or_step : (a b : ℕ) → bit_or a b ≡ bit_or (a / 2) (b / 2) * 2 + max (a % 2) (b % 2)
or_step zero b = simp bit_or-bitwise (omega arith)
or_step (suc a) b = simp bit_or-bitwise (lowest_digit (λ y. y) max a b)

xor_step : (a b : ℕ) → bit_xor a b ≡ bit_xor (a / 2) (b / 2) * 2 + differ (a % 2) (b % 2)
xor_step zero b = simp bit_xor-bitwise (omega arith)
xor_step (suc a) b = simp bit_xor-bitwise (lowest_digit (λ y. y) differ a b)

half_field : (k a b : ℕ) → (a * 2 ^ suc k + b) / 2 ≡ a * 2 ^ k + b / 2
half_field k a b = omega (arith, ap (λ (t : ℕ). a * t) (pow-suc 2 k))

low_field : (k a b : ℕ) → (a * 2 ^ suc k + b) % 2 ≡ b % 2
low_field k a b = omega (arith, ap (λ (t : ℕ). a * t) (pow-suc 2 k))

-- An operation given by its digits works on two fields apart.
module _ (op : ℕ → ℕ → ℕ) (d : ℕ → ℕ → ℕ) (op_zero : op 0 0 ≡ 0)
    (step : (a b : ℕ) → op a b ≡ op (a / 2) (b / 2) * 2 + d (a % 2) (b % 2)) where
  fields :
      (k a b a' b' : ℕ)
      → b < 2 ^ k
      → b' < 2 ^ k
      → op (a * 2 ^ k + b) (a' * 2 ^ k + b') ≡ op a a' * 2 ^ k + op b b'
  fields zero a b a' b' h h' =
      ap₂ op {x = a * 2 ^ 0 + b} {y = a} {u = a' * 2 ^ 0 + b'} {v = a'} (omega arith) (omega arith)
      ∙ omega (arith, op_zero, ap₂ op {x = b} {y = 0} {u = b'} {v = 0} (omega arith) (omega arith))
  fields (suc k) a b a' b' h h' =
      step (a * 2 ^ suc k + b) (a' * 2 ^ suc k + b')
      ∙ ap₂ (λ (x y : ℕ). x * 2 + y)
          (ap₂ op (half_field k a b) (half_field k a' b')
            ∙ fields k a (b / 2) a' (b' / 2) (omega (arith, pow-suc 2 k))
                (omega (arith, pow-suc 2 k)))
          (ap₂ d (low_field k a b) (low_field k a' b'))
      ∙ omega (arith, step b b', ap (λ (t : ℕ). op a a' * t) (pow-suc 2 k))

pub and_fields :
    (k a b a' b' : ℕ)
    → b < 2 ^ k
    → b' < 2 ^ k
    → bit_and (a * 2 ^ k + b) (a' * 2 ^ k + b') ≡ bit_and a a' * 2 ^ k + bit_and b b'
and_fields = fields bit_and min refl and_step

or_fields :
    (k a b a' b' : ℕ)
    → b < 2 ^ k
    → b' < 2 ^ k
    → bit_or (a * 2 ^ k + b) (a' * 2 ^ k + b') ≡ bit_or a a' * 2 ^ k + bit_or b b'
or_fields = fields bit_or max refl or_step

xor_fields :
    (k a b a' b' : ℕ)
    → b < 2 ^ k
    → b' < 2 ^ k
    → bit_xor (a * 2 ^ k + b) (a' * 2 ^ k + b') ≡ bit_xor a a' * 2 ^ k + bit_xor b b'
xor_fields = fields bit_xor differ refl xor_step

pub pow_pos : (k : ℕ) → 0 < 2 ^ k
pow_pos zero = omega arith
pow_pos (suc k) = omega (arith, pow-suc 2 k, pow_pos k)

pub zero-bit_or : (b : ℕ) → bit_or 0 b ≡ b
zero-bit_or b = bit_or-bitwise 0 b

zero-bit_and : (b : ℕ) → bit_and 0 b ≡ 0
zero-bit_and b = bit_and-bitwise 0 b

module _ (op : ℕ → ℕ → ℕ) (d : ℕ → ℕ → ℕ) (op_zero : op 0 0 ≡ 0)
    (step : (a b : ℕ) → op a b ≡ op (a / 2) (b / 2) * 2 + d (a % 2) (b % 2)) where
  right_unit : d 0 0 ≡ 0 → d 1 0 ≡ 1 → (n a : ℕ) → a ≤ n → op a 0 ≡ a
  right_unit d0 d1 zero a h =
      ap (λ t. op t 0) {x = a} {y = 0} (omega arith) ∙ omega (arith, op_zero)
  right_unit d0 d1 (suc n) a h =
      step a 0
      ∙ ap₂ (λ (x y : ℕ). x * 2 + y) (right_unit d0 d1 n (a / 2) (omega arith))
          (digit (a % 2) (omega arith))
      ∙ omega arith
    where
      digit : (x : ℕ) → x < 2 → d x 0 ≡ x
      digit zero p = d0
      digit (suc zero) p = d1
      digit (suc (suc x)) p = absurd (omega arith)

pub bit_or-zero : (a : ℕ) → bit_or a 0 ≡ a
bit_or-zero a = right_unit bit_or max refl or_step refl refl a a (le_refl a)

pub bit_xor-zero : (a : ℕ) → bit_xor a 0 ≡ a
bit_xor-zero a = right_unit bit_xor differ refl xor_step refl refl a a (le_refl a)

and_zero_below : (n a : ℕ) → a ≤ n → bit_and a 0 ≡ 0
and_zero_below zero a h = ap (λ t. bit_and t 0) {x = a} {y = 0} (omega arith)
and_zero_below (suc n) a h = omega (arith, and_step a 0, and_zero_below n (a / 2) (omega arith))

pub bit_and-zero : (a : ℕ) → bit_and a 0 ≡ 0
bit_and-zero a = and_zero_below a a (le_refl a)

-- k ones keep a number of k digits.
pub bit_and-ones : (k x : ℕ) → x < 2 ^ k → bit_and x (2 ^ k - 1) ≡ x
bit_and-ones zero x h = ap (λ t. bit_and t 0) {x = x} {y = 0} (omega arith) ∙ omega arith
bit_and-ones (suc k) x h =
    and_step x (2 ^ suc k - 1)
    ∙ ap (λ t. bit_and (x / 2) t * 2 + min (x % 2) ((2 ^ suc k - 1) % 2)) {x = (2 ^ suc k - 1) / 2}
        {y = 2 ^ k - 1} (omega (arith, pow-suc 2 k, pow_pos k))
    ∙ omega (arith, pow-suc 2 k, pow_pos k, bit_and-ones k (x / 2) (omega (arith, pow-suc 2 k)))

-- A mask of k ones takes the low field.
pub bit_and-mask : (k a b : ℕ) → b < 2 ^ k → bit_and (a * 2 ^ k + b) (2 ^ k - 1) ≡ b
bit_and-mask k a b h =
    ap (bit_and (a * 2 ^ k + b)) {x = 2 ^ k - 1} {y = 0 * 2 ^ k + (2 ^ k - 1)} (omega arith)
    ∙ and_fields k a b 0 (2 ^ k - 1) h (omega (arith, pow_pos k))
    ∙ omega (arith, ap (λ (t : ℕ). t * 2 ^ k) (bit_and-zero a), bit_and-ones k b h)

pub bit_and-mod : (k x : ℕ) → bit_and x (2 ^ k - 1) ≡ x % 2 ^ k
bit_and-mod k x =
    ap (λ t. bit_and t (2 ^ k - 1)) (sym (div-add-mod' x (2 ^ k)))
    ∙ bit_and-mask k (x / 2 ^ k) (x % 2 ^ k) (mod-lt x (pow_pos k))

-- A field and what stands above it are joined by addition.
pub bit_or-field : (k a b : ℕ) → b < 2 ^ k → bit_or (a * 2 ^ k) b ≡ a * 2 ^ k + b
bit_or-field k a b h =
    ap₂ bit_or {x = a * 2 ^ k} {y = a * 2 ^ k + 0} {u = b} {v = 0 * 2 ^ k + b} (omega arith)
      (omega arith)
    ∙ or_fields k a 0 0 b (pow_pos k) h
    ∙ omega (arith, ap (λ (t : ℕ). t * 2 ^ k) (bit_or-zero a), zero-bit_or b)

-- What stands below a leading one joins a word that ends in zeros there.
pub bit_or-lead :
    (n k c i : ℕ)
    → 2 ^ k + i < 2 ^ n
    → i < 2 ^ k
    → bit_or (c * 2 ^ n + 2 ^ k) i ≡ c * 2 ^ n + (2 ^ k + i)
bit_or-lead n k c i h hi =
    ap (bit_or (c * 2 ^ n + 2 ^ k)) {x = i} {y = 0 * 2 ^ n + i} (omega arith)
    ∙ or_fields n c (2 ^ k) 0 i (omega arith) (omega arith)
    ∙ omega (
      arith,
      ap (λ (t : ℕ). t * 2 ^ n) (bit_or-zero c),
      ap (λ (t : ℕ). bit_or t i) {x = 2 ^ k} {y = 1 * 2 ^ k} (omega arith),
      bit_or-field k 1 i hi,
    )

-- A leading one is taken away.
pub bit_xor-lead : (k b : ℕ) → b < 2 ^ k → bit_xor (2 ^ k + b) (2 ^ k) ≡ b
bit_xor-lead k b h =
    ap₂ bit_xor {x = 2 ^ k + b} {y = 1 * 2 ^ k + b} {u = 2 ^ k} {v = 1 * 2 ^ k + 0} (omega arith)
      (omega arith)
    ∙ xor_fields k 1 b 1 0 h (pow_pos k)
    ∙ omega (arith, bit_xor-zero b)

pub pow_mono : (a b : ℕ) → a ≤ b → 2 ^ a ≤ 2 ^ b
pow_mono zero b h = omega (arith, pow_pos b)
pow_mono (suc a) zero h = absurd (omega arith)
pow_mono (suc a) (suc b) h = omega (arith, pow-suc 2 a, pow-suc 2 b, pow_mono a b (omega arith))

pub pow_add : (a b : ℕ) → 2 ^ (a + b) ≡ 2 ^ a * 2 ^ b
pow_add zero b = ap (λ t. 2 ^ t) {x = 0 + b} {y = b} (omega arith) ∙ omega arith
pow_add (suc a) b =
    ap (λ t. 2 ^ t) {x = suc a + b} {y = suc (a + b)} (omega arith)
    ∙ omega (arith, pow-suc 2 (a + b), pow_add a b, ap (λ (t : ℕ). t * 2 ^ b) (pow-suc 2 a))

-- A mask of j ones above k zeros takes the high field.
pub bit_and-high :
    (j k a b : ℕ)
    → a < 2 ^ j
    → b < 2 ^ k
    → bit_and (a * 2 ^ k + b) ((2 ^ j - 1) * 2 ^ k) ≡ a * 2 ^ k
bit_and-high j k a b ha hb =
    ap (bit_and (a * 2 ^ k + b)) {x = (2 ^ j - 1) * 2 ^ k} {y = (2 ^ j - 1) * 2 ^ k + 0}
      (omega arith)
    ∙ and_fields k a b (2 ^ j - 1) 0 hb (pow_pos k)
    ∙ omega (arith, ap (λ (t : ℕ). t * 2 ^ k) (bit_and-ones j a ha), bit_and-zero b)

and_self_below : (n a : ℕ) → a ≤ n → bit_and a a ≡ a
and_self_below zero a h = ap (λ t. bit_and t t) {x = a} {y = 0} (omega arith) ∙ omega arith
and_self_below (suc n) a h = omega (arith, and_step a a, and_self_below n (a / 2) (omega arith))

pub bit_and_self : (a : ℕ) → bit_and a a ≡ a
bit_and_self a = and_self_below a a (le_refl a)

abbrev ZeroOrPower : ℕ → Type 0
ZeroOrPower n = (n ≡ 0) ⊎ ((k : ℕ) × (n ≡ 2 ^ k))

double_power : (n : ℕ) → 2 ≤ n → n % 2 < 1 → ZeroOrPower (n / 2) → ZeroOrPower n
double_power n h even (inl q) = absurd (omega arith)
double_power n h even (inr (k, q)) = inr (suc k, omega (arith, pow-suc 2 k))

and_pred_even :
    (n : ℕ) → n % 2 < 1 → 2 ≤ n → bit_and n (n - 1) ≡ 0 → bit_and (n / 2) (n / 2 - 1) ≡ 0
and_pred_even n even h e =
    ap (bit_and (n / 2)) {x = n / 2 - 1} {y = (n - 1) / 2} (omega arith)
    ∙ omega (arith, and_step n (n - 1), e)

and_pred_odd : (n : ℕ) → ¬ (n % 2 < 1) → 2 ≤ n → bit_and n (n - 1) ≡ 0 → ⊥
and_pred_odd n odd h e = omega (
  arith,
  and_step n (n - 1),
  e,
  ap (bit_and (n / 2)) {x = (n - 1) / 2} {y = n / 2} (omega arith),
  bit_and_self (n / 2),
)

-- n & (n - 1) is 0 for the powers of two and for 0 only.
and_pred_below : (f n : ℕ) → n ≤ f → bit_and n (n - 1) ≡ 0 → ZeroOrPower n
and_pred_below zero n h e = inl (omega arith)
and_pred_below (suc f) zero h e = inl refl
and_pred_below (suc f) (suc zero) h e = inr (0, omega arith)
and_pred_below (suc f) (suc (suc m)) h e = elim (dec_lt (suc (suc m) % 2) 1) [
  | yes even ↦ double_power (suc (suc m)) (omega arith) even (
      and_pred_below f (suc (suc m) / 2) (omega arith)
        (and_pred_even (suc (suc m)) even (omega arith) e))
  | no odd ↦ absurd (and_pred_odd (suc (suc m)) odd (omega arith) e)
]

pub and_pred_iff : (n : ℕ) → (bit_and n (n - 1) ≡ 0) ↔ ((n ≡ 0) ⊎ ((k : ℕ) × (n ≡ 2 ^ k)))
and_pred_iff n = (and_pred_below n n (le_refl n), back)
  where
    back : (n ≡ 0) ⊎ ((k : ℕ) × (n ≡ 2 ^ k)) → bit_and n (n - 1) ≡ 0
    back (inl e) = ap (λ t. bit_and t (t - 1)) e
    back (inr (k, e)) =
        ap (λ t. bit_and t (t - 1)) e
        ∙ ap (λ t. bit_and t (2 ^ k - 1)) {x = 2 ^ k} {y = 1 * 2 ^ k + 0} (omega arith)
        ∙ bit_and-mask k 1 0 (pow_pos k)

-- The number of binary digits.
bit_len_fuel : ℕ → ℕ → ℕ
bit_len_fuel zero v = 0
bit_len_fuel (suc f) zero = 0
bit_len_fuel (suc f) (suc v) = suc (bit_len_fuel f (suc v / 2))

unfoldable pub bit_len : ℕ → ℕ
unfolding bit_len_fuel
bit_len v = bit_len_fuel v v

bit_len_fuel_bound : (f v : ℕ) → v ≤ f → v < 2 ^ bit_len_fuel f v
unfolding bit_len_fuel
bit_len_fuel_bound zero v h = omega arith
bit_len_fuel_bound (suc f) zero h = omega arith
bit_len_fuel_bound (suc f) (suc v) h =
    omega (
      arith,
      pow-suc 2 (bit_len_fuel f (suc v / 2)),
      bit_len_fuel_bound f (suc v / 2) (omega arith),
    )

bit_len_fuel-le : (f v n : ℕ) → v < 2 ^ n → bit_len_fuel f v ≤ n
unfolding bit_len_fuel
bit_len_fuel-le zero v n h = omega arith
bit_len_fuel-le (suc f) zero n h = omega arith
bit_len_fuel-le (suc f) (suc v) zero h = absurd (omega arith)
bit_len_fuel-le (suc f) (suc v) (suc n) h =
    omega (arith, bit_len_fuel-le f (suc v / 2) n (omega (arith, pow-suc 2 n)))

-- A number with a leading one above k digits has k + 1 digits.
pub bit_len-lead : (k i : ℕ) → i < 2 ^ k → bit_len (2 ^ k + i) ≡ k + 1
unfolding bit_len
bit_len-lead k i h = by_order (dec_lt l (k + 1))
  where
    v : ℕ
    v = 2 ^ k + i

    l : ℕ
    l = bit_len_fuel v v

    upper : l ≤ k + 1
    upper = bit_len_fuel-le v v (k + 1) (omega (arith, pow_add k 1))

    by_order : Dec (l < k + 1) → l ≡ k + 1
    by_order (yes p) =
        absurd (omega (arith, bit_len_fuel_bound v v (le_refl v), pow_mono l k (omega arith)))
    by_order (no p) = omega (arith, upper)
