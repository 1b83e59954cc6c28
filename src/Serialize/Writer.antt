-- ===== src/Serialize/Writer.antt =====
-- serialize/serializer.go and the fixed-size integers of utils.go. A writer appends to `w`; on an
-- error the bytes written so far are dropped with it.
use goquarkchain.Prelude.{
  ℕ, zero, suc, ◌-◌, ◌/◌, ◌%◌, Bool, true, false, Option, none, some, List, [], ◌∷◌, ◌++◌, length,
  replicate, ltb, ◌==◌, if◌then◌else◌, Result, ok, err, ◌>>=◌, ◌>>◌, fail_if,
}
use goquarkchain.Prelude.Int.{ℤ, pos, negsuc}
use goquarkchain.Prelude.Bytes.{be_bytes, big_bytes}
use goquarkchain.Serialize.Types.{
  Tags, default_tags, Ty, uint8, uint16, uint32, uint64, uint, bool, string, byte_slice, big_int,
  uint128, uint256, byte_array, slice, array, struct, ptr, Fields, no_fields, field, El, ElFields,
  zero_value, is_serializable,
}
use goquarkchain.Serialize.Buffer.{Error, unaddressable, negative_big, too_long}

abbrev pub Writer : Type 0
Writer = List ℕ → Result Error (List ℕ)

-- `big.Int.Bytes` drops the sign.
abbrev pub abs_value : ℤ → ℕ
abs_value (pos n) = n
abs_value (negsuc n) = suc n

unfoldable pub prefill_byte_array : ℕ → List ℕ → Result Error (List ℕ)
prefill_byte_array size bs = do
  fail_if (ltb size (length bs)) too_long
  ok (if length bs == size then bs else replicate (size - length bs) 0 ++ bs)

-- `Uint128.Serialize` and `Uint256.Serialize` call it with 16 and 32.
unfoldable pub serialize_fix_size_big_uint : Option ℤ → ℕ → Writer
serialize_fix_size_big_uint none size w = ok (w ++ replicate size 0)
serialize_fix_size_big_uint (some v) size w = do
  bs ← prefill_byte_array size (big_bytes (abs_value v))
  ok (w ++ bs)

-- The length is cut to one byte.
unfoldable pub serialize_big_int : ℤ → Writer
serialize_big_int (negsuc n) w = err negative_big
serialize_big_int (pos n) w = let bs = big_bytes n in ok ((w ++ ((length bs % 256) ∷ [])) ++ bs)

-- The loop over `sizeBytes`, from the last byte on: `i` bytes are still to be filled, `tail` are
-- done. The bytes not reached stay 0. It also returns what is left of the length.
unfoldable pub list_len_loop : ℕ → ℕ → List ℕ → List ℕ × ℕ
list_len_loop zero n tail = (tail, n)
list_len_loop (suc i) n tail =
    if n == 0
    then (replicate (suc i) 0 ++ tail, n)
    else list_len_loop i (n / 256) ((n % 256) ∷ tail)

unfoldable pub write_list_len : ℕ → ℕ → Writer
write_list_len n size w =
    let (size_bytes, left) = list_len_loop size n [] in
    fail_if (ltb 0 left) too_long >> ok (w ++ size_bytes)

unfoldable pub serialize_byte_slice : List ℕ → Tags → Writer
serialize_byte_slice v tags w = do w' ← write_list_len (length v) tags.byte_size w; ok (w' ++ v)

-- The length is cut to four bytes.
unfoldable pub serialize_string : List ℕ → Writer
serialize_string v w = ok ((w ++ be_bytes 4 (length v)) ++ v)

unfoldable pub serialize_bool : Bool → Writer
serialize_bool b w = ok (w ++ ((if b then 1 else 0) ∷ []))

-- `serializeUint` at a kind of `n` bytes.
abbrev pub serialize_uint : ℕ → ℕ → Writer
serialize_uint n v w = ok (w ++ be_bytes n v)

abbrev pub serialize_byte_array : List ℕ → Writer
serialize_byte_array v w = ok (w ++ v)

-- The elements of a list, one after the other.
unfoldable pub serialize_all : {A : Type 0} → (A → Writer) → List A → Writer
serialize_all f [] w = ok w
serialize_all f (v ∷ vs) w = do w' ← f v w; serialize_all f vs w'

-- The flag says whether `val.CanAddr()`: not the argument of `Serialize`, nor what reflect.Zero
-- makes, nor their fields and array elements, but what a pointer or a slice holds.
unfoldable mutual
  pub serialize : (t : Ty) → Tags → Bool → El t → Writer
  serialize uint8 tags addr v w = serialize_uint 1 v w
  serialize uint16 tags addr v w = serialize_uint 2 v w
  serialize uint32 tags addr v w = serialize_uint 4 v w
  serialize uint64 tags addr v w = serialize_uint 8 v w
  serialize uint tags addr v w = serialize_big_int (pos v) w
  serialize bool tags addr v w = serialize_bool v w
  serialize string tags addr v w = serialize_string v w
  serialize byte_slice tags addr v w = serialize_byte_slice v tags w
  serialize big_int tags addr v w = serialize_big_int v w
  serialize uint128 tags addr v w = do
    fail_if (if addr then false else true) unaddressable
    serialize_fix_size_big_uint v 16 w
  serialize uint256 tags addr v w = do
    fail_if (if addr then false else true) unaddressable
    serialize_fix_size_big_uint v 32 w
  serialize (byte_array n) tags addr v w = serialize_byte_array v w
  serialize (slice t) tags addr v w = do
    w' ← write_list_len (length v) tags.byte_size w
    serialize_all (serialize t default_tags true) v w'
  serialize (array n t) tags addr v w = serialize_all (serialize t default_tags addr) v w
  serialize (struct fs) tags addr v w = serialize_fields fs addr v w
  serialize (ptr t) tags addr none w =
      if tags.nil_ok
      then ok (w ++ (0 ∷ []))
      else serialize t tags (is_serializable t) (zero_value t) w
  serialize (ptr t) tags addr (some v) w =
      serialize t tags true v (if tags.nil_ok then w ++ (1 ∷ []) else w)

  pub serialize_fields : (fs : Fields) → Bool → ElFields fs → Writer
  serialize_fields no_fields addr v w = ok w
  serialize_fields (field tags t fs) addr (v, vs) w = do
    w' ← serialize t tags addr v w
    serialize_fields fs addr vs w'
