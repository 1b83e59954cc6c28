-- ===== src/Serialize/Prefix.antt =====
-- serialize/serializer.go: `writeListLen` and `prefillByteArray` against what reads them.
use goquarkchain.Prelude.{
  ℕ, zero, suc, ◌-◌, ◌/◌, ◌%◌, ◌≤◌, ◌<◌, ◌^◌, ◌≡◌, refl, sym, ap, ◌∙◌, false, Option, none, some,
  List, [], ◌∷◌, ◌++◌, append-nil, append_assoc, length, length-append, replicate, length-replicate,
  ltb, ◌==◌, if◌then◌else◌, ok, >>=-eq-ok, arith, Bool-cases, inl, inr, ==_iff, ltb→le, le→ltb,
}
use goquarkchain.Prelude.Int.{ℤ, pos}
use goquarkchain.Prelude.Bytes.{
  be_bytes, length-be_bytes, from_be, from_be-zeros, big_bytes, from_be-big_bytes, length-big_bytes,
}
use goquarkchain.Serialize.Types.{Tags}
use goquarkchain.Serialize.Buffer.{advance, get_var_bytes}
use goquarkchain.Serialize.Writer.{
  list_len_loop, write_list_len, serialize_byte_slice, prefill_byte_array,
  serialize_fix_size_big_uint, abs_value,
}
use goquarkchain.Serialize.Reader.{deserialize_fix_size_big_uint}
use goquarkchain.Serialize.Cursor.{Decodes-get_bytes, Decodes-get_var_bytes}
use goquarkchain.Serialize.Spec.{Coded, FitsPrefix, FitsWidth, settle_fixed}
use native.Mathlib.Nat.{pow-suc}

replicate_snoc : (n : ℕ) (tail : List ℕ) → replicate n 0 ++ (0 ∷ tail) ≡ 0 ∷ (replicate n 0 ++ tail)
replicate_snoc zero tail = refl
replicate_snoc (suc n) tail = ap (λ t. 0 ∷ t) (replicate_snoc n tail)

be_bytes-zero : (n : ℕ) (tail : List ℕ) → be_bytes n 0 ++ tail ≡ replicate n 0 ++ tail
unfolding be_bytes
be_bytes-zero zero tail = refl
be_bytes-zero (suc n) tail =
    append_assoc (be_bytes n 0) (0 ∷ []) tail ∙ be_bytes-zero n (0 ∷ tail) ∙ replicate_snoc n tail

suc-ne-zero : (n : ℕ) → (suc n == 0) ≡ false
suc-ne-zero n = ground arith

pow_pos : (i : ℕ) → 0 < 256 ^ i
pow_pos zero = omega arith
pow_pos (suc i) = omega (arith, pow-suc 256 i, pow_pos i)

-- The loop writes the low bytes of the length, and leaves 0 only if they are all of it.
list_len_loop-bytes :
    (i n : ℕ) (tail : List ℕ) → n < 256 ^ i → list_len_loop i n tail ≡ (be_bytes i n ++ tail, 0)
unfolding list_len_loop be_bytes
list_len_loop-bytes zero n tail h = ap (λ k. (tail, k)) {x = n} {y = 0} (omega arith)
list_len_loop-bytes (suc i) zero tail h = ap (λ t. (t, 0)) (sym (be_bytes-zero (suc i) tail))
list_len_loop-bytes (suc i) (suc n) tail h =
    rw (suc-ne-zero n) refl
    ∙ list_len_loop-bytes i (suc n / 256) ((suc n % 256) ∷ tail) (omega (arith, pow-suc 256 i))
    ∙ ap (λ t. (t, 0)) (sym (append_assoc (be_bytes i (suc n / 256)) ((suc n % 256) ∷ []) tail))

list_len_loop-fits : (i n : ℕ) (tail : List ℕ) → (list_len_loop i n tail).1 ≡ 0 → n < 256 ^ i
unfolding list_len_loop
list_len_loop-fits zero n tail h = omega arith
list_len_loop-fits (suc i) zero tail h = pow_pos (suc i)
list_len_loop-fits (suc i) (suc n) tail h = omega (
  arith,
  pow-suc 256 i,
  list_len_loop-fits i (suc n / 256) ((suc n % 256) ∷ tail) (rw (suc-ne-zero n) at h),
)

-- A length is written in `size` bytes if it fits them, and refused otherwise.
pub write_list_len-ok :
    (n size : ℕ) (w w' : List ℕ)
    → write_list_len n size w ≡ ok w'
    → (n < 256 ^ size) × (w' ≡ w ++ be_bytes size n)
unfolding write_list_len
write_list_len-ok n size w w' e = elim (Bool-cases (ltb 0 (list_len_loop size n []).1)) [
  | inl left ↦ cc (rw left at e)
  | inr none_left ↦
      let fits : n < 256 ^ size =
        list_len_loop-fits size n [] (omega (arith, ltb→le 0 _ none_left)) in
      (
        fits,
        cc (
          rw none_left at e,
          ap (λ p. w ++ p.0) (list_len_loop-bytes size n [] fits),
          append-nil (be_bytes size n),
        ),
      )
]

pub write_list_len-fits :
    (n size : ℕ) (w : List ℕ) → n < 256 ^ size → (w' : List ℕ) × (write_list_len n size w ≡ ok w')
unfolding write_list_len
write_list_len-fits n size w h =
    (w ++ (be_bytes size n ++ []), rw (list_len_loop-bytes size n [] h) refl)

pub byte_slice-Coded :
    (v : List ℕ) (tags : Tags) (w w' : List ℕ)
    → FitsPrefix tags
    → serialize_byte_slice v tags w ≡ ok w'
    → Coded (get_var_bytes tags.byte_size) tags.byte_size v w w'
unfolding serialize_byte_slice
byte_slice-Coded v tags w w' (h1, h4) e =
    let (w₁, e₁, e₂) =
      >>=-eq-ok (write_list_len (length v) tags.byte_size w) (λ u. ok (u ++ v)) e in
    let (fits, a) = write_list_len-ok (length v) tags.byte_size w w₁ e₁ in
    let p : List ℕ = be_bytes tags.byte_size (length v) in
    (
      p ++ v,
      cc (a, append_assoc w p v),
      omega (arith, length-append p v, length-be_bytes tags.byte_size (length v)),
      Decodes-get_var_bytes tags.byte_size v h1 h4 fits,
    )

-- The fixed-size form has exactly `size` bytes and spells the absolute value.
prefill_byte_array-ok :
    (size : ℕ) (bs out : List ℕ)
    → prefill_byte_array size bs ≡ ok out
    → (length out ≡ size) × (from_be 0 out ≡ from_be 0 bs)
unfolding prefill_byte_array
prefill_byte_array-ok size bs out e = elim (Bool-cases (ltb size (length bs))) [
  | inl long ↦ cc (rw long at e)
  | inr fits ↦ elim (Bool-cases (length bs == size)) [
    | inl same ↦
        let q : bs ≡ out = cc (rw (fits, same) at e) in
        (rw (← q) ((==_iff _ _).0 same), ap (from_be 0) (sym q))
    | inr short ↦
        let q : replicate (size - length bs) 0 ++ bs ≡ out = cc (rw (fits, short) at e) in
        (
          ap length (sym q)
              ∙ omega (
                arith,
                length-append (replicate (size - length bs) 0) bs,
                length-replicate {A = ℕ} (size - length bs) 0,
                ltb→le size (length bs) fits,
              ),
          ap (from_be 0) (sym q) ∙ from_be-zeros (size - length bs) bs,
        )
  ]
]

from_be_all_zeros : (n : ℕ) → from_be 0 (replicate n 0) ≡ 0
unfolding from_be
from_be_all_zeros zero = refl
from_be_all_zeros (suc n) = from_be_all_zeros n

pub fixed-Coded :
    (v : Option ℤ) (size : ℕ) (w w' : List ℕ)
    → serialize_fix_size_big_uint v size w ≡ ok w'
    → Coded (deserialize_fix_size_big_uint size) size (settle_fixed v) w w'
unfolding serialize_fix_size_big_uint deserialize_fix_size_big_uint
fixed-Coded none size w w' e = (
  replicate {A = ℕ} size 0,
  cc,
  omega (arith, length-replicate {A = ℕ} size 0),
  λ bb rest at.
      rw
        (Decodes-get_bytes (replicate {A = ℕ} size 0) size (length-replicate {A = ℕ} size 0) bb rest
          at)
        (ap (λ k. ok (some (pos k), advance (length (replicate {A = ℕ} size 0)) bb))
          (from_be_all_zeros size)),
)
fixed-Coded (some v) size w w' e =
    let (bs, e₁, e₂) =
      >>=-eq-ok (prefill_byte_array size (big_bytes (abs_value v))) (λ u. ok (w ++ u)) e in
    let (long, spelled) = prefill_byte_array-ok size (big_bytes (abs_value v)) bs e₁ in
    (
      bs,
      cc,
      omega arith,
      λ bb rest at. rw (Decodes-get_bytes bs size long bb rest at) (
          ap (λ k. ok (some (pos k), advance (length bs) bb))
            (spelled ∙ from_be-big_bytes (abs_value v))),
    )

prefill_byte_array-fits :
    (size : ℕ) (bs : List ℕ)
    → length bs ≤ size
    → (out : List ℕ) × (prefill_byte_array size bs ≡ ok out)
unfolding prefill_byte_array
prefill_byte_array-fits size bs h = (
  if length bs == size then bs else replicate (size - length bs) 0 ++ bs,
  rw (le→ltb size (length bs) h) refl,
)

-- Every value that is narrow enough is written.
pub fixed-fits :
    (v : Option ℤ) (size : ℕ) (w : List ℕ)
    → FitsWidth size v
    → (w' : List ℕ) × (serialize_fix_size_big_uint v size w ≡ ok w')
unfolding serialize_fix_size_big_uint
fixed-fits none size w h = (w ++ replicate size 0, refl)
fixed-fits (some v) size w h =
    let bs = big_bytes (abs_value v) in
    let (out, e) =
      prefill_byte_array-fits size bs (omega (arith, length-big_bytes (abs_value v))) in
    (w ++ out, rw e refl)
