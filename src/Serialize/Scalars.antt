-- ===== src/Serialize/Scalars.antt =====
-- serialize/: each scalar writer against its reader.
use goquarkchain.Prelude.{
  ℕ, ◌+◌, ◌*◌, ◌%◌, ◌≤◌, ◌<◌, ◌^◌, ◌≡◌, refl, ap, ◌∙◌, Bool, true, false, List, [], ◌∷◌, ◌++◌,
  append_assoc, length, length-append, ok, arith,
}
use goquarkchain.Prelude.Int.{ℤ, pos, negsuc}
use goquarkchain.Prelude.Bytes.{
  be_bytes, length-be_bytes, from_be, from_be-be_bytes, big_bytes, length-big_bytes,
  from_be-big_bytes, byte_len, byte_len-le,
}
use goquarkchain.Serialize.Buffer.{advance, get_var_bytes}
use goquarkchain.Serialize.Writer.{serialize_string, serialize_big_int, serialize_bool, abs_value}
use goquarkchain.Serialize.Reader.{
  uint_loop, deserialize_uint, deserialize_var_uint, deserialize_big_int, deserialize_bool,
}
use goquarkchain.Serialize.Cursor.{Decodes, Decodes-get_bytes, Decodes-get_var_bytes}
use goquarkchain.Serialize.Spec.{Coded}

from_be-ge : (acc : ℕ) (bs : List ℕ) → acc ≤ from_be acc bs
unfolding from_be
from_be-ge acc [] = omega arith
from_be-ge acc (b ∷ bs) = omega (arith, from_be-ge (acc * 256 + b) bs)

-- The accumulator of `deserializeUint` does not wrap when the number fits 64 bits.
pub uint_loop-eq : (ui : ℕ) (bs : List ℕ) → from_be ui bs < 2 ^ 64 → uint_loop ui bs ≡ from_be ui bs
unfolding uint_loop from_be
uint_loop-eq ui [] h = refl
uint_loop-eq ui (b ∷ bs) h =
    ap (λ k. uint_loop k bs) {x = ui * 256 % 2 ^ 64 + b} {y = ui * 256 + b}
      (omega (arith, from_be-ge (ui * 256 + b) bs))
    ∙ uint_loop-eq (ui * 256 + b) bs h

pub uint-Coded :
    (n v : ℕ) (w w' : List ℕ)
    → v < 256 ^ n
    → v < 2 ^ 64
    → w' ≡ w ++ be_bytes n v
    → Coded (deserialize_uint n) n v w w'
unfolding deserialize_uint
uint-Coded n v w w' fits small e = (
  be_bytes n v,
  e,
  omega (arith, length-be_bytes n v),
  λ bb rest h. rw (Decodes-get_bytes (be_bytes n v) n (length-be_bytes n v) bb rest h) (
      ap (λ k. ok (k, advance (length (be_bytes n v)) bb))
        (uint_loop-eq 0 (be_bytes n v) (rw (from_be-be_bytes n v fits) small)
          ∙ from_be-be_bytes n v fits)),
)

be_bytes_one : (n : ℕ) → n < 256 → (n % 256) ∷ [] ≡ be_bytes 1 n
unfolding be_bytes
be_bytes_one n h = refl

-- The writer of a big.Int, as a counted byte string.
serialize_big_int-eq :
    (n : ℕ) (w : List ℕ)
    → byte_len n < 256
    → serialize_big_int (pos n) w ≡ ok (w ++ (be_bytes 1 (length (big_bytes n)) ++ big_bytes n))
unfolding serialize_big_int
serialize_big_int-eq n w h =
    rw (be_bytes_one (length (big_bytes n)) (omega (arith, length-big_bytes n)))
      (ap ok (append_assoc w (be_bytes 1 (length (big_bytes n))) (big_bytes n)))

counted : (n : ℕ) → List ℕ
counted n = be_bytes 1 (length (big_bytes n)) ++ big_bytes n

counted_long : (n : ℕ) → 1 ≤ length (counted n)
unfolding counted
counted_long n = omega (
  arith,
  length-append (be_bytes 1 (length (big_bytes n))) (big_bytes n),
  length-be_bytes 1 (length (big_bytes n)),
)

Decodes-counted : (n : ℕ) → byte_len n < 256 → Decodes (get_var_bytes 1) (counted n) (big_bytes n)
unfolding counted
Decodes-counted n h =
    Decodes-get_var_bytes 1 (big_bytes n) (omega arith) (omega arith)
      (omega (arith, length-big_bytes n))

pub big_int-Coded :
    (v : ℤ) (w w' : List ℕ)
    → byte_len (abs_value v) < 256
    → serialize_big_int v w ≡ ok w'
    → Coded deserialize_big_int 1 v w w'
unfolding deserialize_big_int counted
big_int-Coded (negsuc n) w w' h e = unfold serialize_big_int in cc
big_int-Coded (pos n) w w' h e = (
  counted n,
  cc (serialize_big_int-eq n w h),
  counted_long n,
  λ bb rest at. rw (Decodes-counted n h bb rest at) (rw (from_be-big_bytes n) refl),
)

pub var_uint-Coded :
    (v : ℕ) (w w' : List ℕ)
    → v < 256 ^ 8
    → serialize_big_int (pos v) w ≡ ok w'
    → Coded deserialize_var_uint 1 v w w'
unfolding deserialize_var_uint counted
var_uint-Coded v w w' h e = (
  counted v,
  cc (serialize_big_int-eq v w (omega (arith, byte_len-le v 8 h))),
  counted_long v,
  λ bb rest at. rw (Decodes-counted v (omega (arith, byte_len-le v 8 h)) bb rest at) (
      ap (λ k. ok (k, advance (length (counted v)) bb))
        (uint_loop-eq 0 (big_bytes v) (rw (from_be-big_bytes v) h) ∙ from_be-big_bytes v)),
)

pub bool-Coded :
    (b : Bool) (w w' : List ℕ) → serialize_bool b w ≡ ok w' → Coded deserialize_bool 1 b w w'
unfolding serialize_bool deserialize_bool
bool-Coded true w w' e =
    (1 ∷ [], cc, omega arith, λ bb rest h. rw (Decodes-get_bytes (1 ∷ []) 1 refl bb rest h) refl)
bool-Coded false w w' e =
    (0 ∷ [], cc, omega arith, λ bb rest h. rw (Decodes-get_bytes (0 ∷ []) 1 refl bb rest h) refl)

pub string-Coded :
    (v w w' : List ℕ)
    → length v < 256 ^ 4
    → serialize_string v w ≡ ok w'
    → Coded (get_var_bytes 4) 4 v w w'
unfolding serialize_string
string-Coded v w w' h e = (
  be_bytes 4 (length v) ++ v,
  cc (append_assoc w (be_bytes 4 (length v)) v),
  omega (arith, length-append (be_bytes 4 (length v)) v, length-be_bytes 4 (length v)),
  Decodes-get_var_bytes 4 v (omega arith) (omega arith) h,
)
