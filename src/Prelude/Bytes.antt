-- ===== src/Prelude/Bytes.antt =====
-- Big-endian byte strings: what `encoding/binary` and `big.Int` read and write.
use Prim.Native.Nat.{ℕ, zero, suc, ◌+◌, ◌*◌, ◌/◌, ◌%◌, ◌^◌, ◌≤◌, ◌<◌}
use mathlib.Core.Path.{◌≡◌, refl, sym, ap, ap₂, ◌∙◌}
use mathlib.Core.List.{List, [], ◌∷◌, ◌++◌}
use native.Mathlib.Omega.{arith}
use native.Mathlib.Nat.{pow-suc}
use goquarkchain.Prelude.Lists.{All, length, length-append, replicate}

-- The `n` low bytes of `v`, highest first.
unfoldable pub be_bytes : ℕ → ℕ → List ℕ
be_bytes zero v = []
be_bytes (suc n) v = be_bytes n (v / 256) ++ ((v % 256) ∷ [])

-- The number that the bytes read so far and the coming ones spell.
unfoldable pub from_be : ℕ → List ℕ → ℕ
from_be acc [] = acc
from_be acc (b ∷ bs) = from_be (acc * 256 + b) bs

-- How many bytes a number has without leading zeros: the length of `big.Int.Bytes`.
byte_len_fuel : ℕ → ℕ → ℕ
byte_len_fuel zero v = 0
byte_len_fuel (suc f) zero = 0
byte_len_fuel (suc f) (suc v) = suc (byte_len_fuel f (suc v / 256))

unfoldable pub byte_len : ℕ → ℕ
unfolding byte_len_fuel
byte_len v = byte_len_fuel v v

-- `big.Int.Bytes` of an absolute value.
unfoldable pub big_bytes : ℕ → List ℕ
unfolding be_bytes byte_len
big_bytes v = be_bytes (byte_len v) v

pub length-be_bytes : (n v : ℕ) → length (be_bytes n v) ≡ n
unfolding be_bytes
length-be_bytes zero v = refl
length-be_bytes (suc n) v =
    omega
      (arith, length-append (be_bytes n (v / 256)) ((v % 256) ∷ []), length-be_bytes n (v / 256))

pub from_be-append :
    (acc : ℕ) (xs ys : List ℕ) → from_be acc (xs ++ ys) ≡ from_be (from_be acc xs) ys
unfolding from_be
from_be-append acc [] ys = refl
from_be-append acc (x ∷ xs) ys = from_be-append (acc * 256 + x) xs ys

from_be_nil : (v : ℕ) → v < 256 ^ 0 → from_be 0 [] ≡ v
unfolding from_be
from_be_nil v h = omega arith

from_be_snoc : (xs : List ℕ) (b : ℕ) → from_be 0 (xs ++ (b ∷ [])) ≡ from_be 0 xs * 256 + b
unfolding from_be
from_be_snoc xs b = from_be-append 0 xs (b ∷ [])

-- Reading back what was written gives the number, when it fits.
pub from_be-be_bytes : (n v : ℕ) → v < 256 ^ n → from_be 0 (be_bytes n v) ≡ v
unfolding be_bytes
from_be-be_bytes zero v h = from_be_nil v h
from_be-be_bytes (suc n) v h =
    from_be_snoc (be_bytes n (v / 256)) (v % 256)
    ∙ omega (arith, from_be-be_bytes n (v / 256) (omega (arith, pow-suc 256 n)))

pub from_be-zeros : (n : ℕ) (bs : List ℕ) → from_be 0 (replicate n 0 ++ bs) ≡ from_be 0 bs
unfolding from_be
from_be-zeros zero bs = refl
from_be-zeros (suc n) bs = from_be-zeros n bs

byte_len_fuel_bound : (f v : ℕ) → v ≤ f → v < 256 ^ byte_len_fuel f v
unfolding byte_len_fuel
byte_len_fuel_bound zero v h = omega arith
byte_len_fuel_bound (suc f) zero h = omega arith
byte_len_fuel_bound (suc f) (suc v) h = omega (
  arith,
  pow-suc 256 (byte_len_fuel f (suc v / 256)),
  byte_len_fuel_bound f (suc v / 256) (omega arith),
)

pub byte_len_bound : (v : ℕ) → v < 256 ^ byte_len v
unfolding byte_len
byte_len_bound v = byte_len_fuel_bound v v (omega arith)

byte_len_fuel-le : (f v n : ℕ) → v < 256 ^ n → byte_len_fuel f v ≤ n
unfolding byte_len_fuel
byte_len_fuel-le zero v n h = omega arith
byte_len_fuel-le (suc f) zero n h = omega arith
byte_len_fuel-le (suc f) (suc v) zero h = absurd (omega arith)
byte_len_fuel-le (suc f) (suc v) (suc n) h =
    omega (arith, byte_len_fuel-le f (suc v / 256) n (omega (arith, pow-suc 256 n)))

-- The byte length is the least that holds the number.
pub byte_len-le : (v n : ℕ) → v < 256 ^ n → byte_len v ≤ n
unfolding byte_len
byte_len-le v n h = byte_len_fuel-le v v n h

pub length-big_bytes : (v : ℕ) → length (big_bytes v) ≡ byte_len v
unfolding big_bytes
length-big_bytes v = length-be_bytes (byte_len v) v

pub from_be-big_bytes : (v : ℕ) → from_be 0 (big_bytes v) ≡ v
unfolding big_bytes
from_be-big_bytes v = from_be-be_bytes (byte_len v) v (byte_len_bound v)

abbrev pub IsByte : ℕ → Type 0
IsByte b = b < 256

All-snoc : (xs : List ℕ) (b : ℕ) → All IsByte xs → IsByte b → All IsByte (xs ++ (b ∷ []))
All-snoc [] b h hb = (hb, tt)
All-snoc (x ∷ xs) b (h, hs) hb = (h, All-snoc xs b hs hb)

pub be_bytes-IsByte : (n v : ℕ) → All IsByte (be_bytes n v)
unfolding be_bytes
be_bytes-IsByte zero v = tt
be_bytes-IsByte (suc n) v =
    All-snoc (be_bytes n (v / 256)) (v % 256) (be_bytes-IsByte n (v / 256)) (omega arith)

-- Byte strings of one length that spell the same number are the same.
pub from_be-injective :
    (a b : ℕ) (xs ys : List ℕ)
    → length xs ≡ length ys
    → All IsByte xs
    → All IsByte ys
    → from_be a xs ≡ from_be b ys
    → (a ≡ b) × (xs ≡ ys)
unfolding from_be
from_be-injective a b [] [] e h g p = (p, refl)
from_be-injective a b [] (y ∷ ys) e h g p = absurd (omega arith)
from_be-injective a b (x ∷ xs) [] e h g p = absurd (omega arith)
from_be-injective a b (x ∷ xs) (y ∷ ys) e (h, hs) (g, gs) p =
    let (q, r) = from_be-injective (a * 256 + x) (b * 256 + y) xs ys (omega arith) hs gs p in
    (omega arith, ap₂ (λ u v. u ∷ v) {x = x} {y = y} (omega arith) r)

from_be-lt :
    (acc n : ℕ) (bs : List ℕ) → length bs ≡ n → All IsByte bs → from_be acc bs < (acc + 1) * 256 ^ n
unfolding from_be
from_be-lt acc zero [] e h = omega arith
from_be-lt acc zero (b ∷ bs) e h = absurd (omega arith)
from_be-lt acc (suc n) [] e h = absurd (omega arith)
from_be-lt acc (suc n) (b ∷ bs) e (h, hs) = widen (from_be-lt (acc * 256 + b) n bs (omega arith) hs)
  where
    above : (u v w : ℕ) → u ≤ v → u * w ≤ v * w
    above u v w p = grind arith

    widen : {t : ℕ} → t < (acc * 256 + b + 1) * 256 ^ n → t < (acc + 1) * 256 ^ suc n
    widen p = omega (
      arith,
      p,
      above (acc * 256 + b + 1) ((acc + 1) * 256) (256 ^ n) (omega arith),
      ap (λ (t : ℕ). (acc + 1) * t) (pow-suc 256 n),
    )

-- Writing out what was read gives the same bytes.
pub be_bytes-from_be :
    (n : ℕ) (bs : List ℕ) → length bs ≡ n → All IsByte bs → be_bytes n (from_be 0 bs) ≡ bs
be_bytes-from_be n bs e h =
    (from_be-injective 0 0 (be_bytes n (from_be 0 bs)) bs (length-be_bytes n (from_be 0 bs) ∙ sym e)
      (be_bytes-IsByte n (from_be 0 bs)) h
      (from_be-be_bytes n (from_be 0 bs) (omega (arith, from_be-lt 0 n bs e h)))).1
