-- ===== src/Serialize/Reader.antt =====
-- serialize/deserializer.go, into a fresh target. An error gives up the buffer.
use goquarkchain.Prelude.{
  ℕ, zero, suc, ◌+◌, ◌*◌, ◌%◌, ◌^◌, Bool, true, false, Option, none, some, List, [], ◌∷◌, ◌==◌,
  if◌then◌else◌, Result, ok, err, ◌>>=◌,
}
use goquarkchain.Prelude.Int.{ℤ, pos}
use goquarkchain.Prelude.Bytes.{from_be}
use goquarkchain.Serialize.Types.{
  Tags, default_tags, Ty, uint8, uint16, uint32, uint64, uint, bool, string, byte_slice, big_int,
  uint128, uint256, byte_array, slice, array, struct, ptr, Fields, no_fields, field, El, ElFields,
}
use goquarkchain.Serialize.Buffer.{
  ByteBuffer, Error, bad_bool, get_bytes, get_uint, get_len, get_var_bytes,
}

abbrev pub Reader : Type 0 → Type 0
Reader A = ByteBuffer → Result Error (A × ByteBuffer)

-- `ui = ui<<8 | uint64(b)`: the low byte of the shifted word is 0, so the bits are added.
unfoldable pub uint_loop : ℕ → List ℕ → ℕ
uint_loop ui [] = ui
uint_loop ui (b ∷ bs) = uint_loop (ui * 256 % 2 ^ 64 + b) bs

-- `deserializeUint` at a kind of `n` bytes.
unfoldable pub deserialize_uint : ℕ → Reader ℕ
deserialize_uint n bb = do (bs, bb') ← get_bytes n bb; ok (uint_loop 0 bs, bb')

-- `deserializeUint` at the kind `uint`.
unfoldable pub deserialize_var_uint : Reader ℕ
deserialize_var_uint bb = do (bs, bb') ← get_var_bytes 1 bb; ok (uint_loop 0 bs, bb')

unfoldable pub deserialize_fix_size_big_uint : ℕ → Reader (Option ℤ)
deserialize_fix_size_big_uint size bb = do
  (bs, bb') ← get_bytes size bb
  ok (some (pos (from_be 0 bs)), bb')

unfoldable pub deserialize_big_int : Reader ℤ
deserialize_big_int bb = do (bs, bb') ← get_var_bytes 1 bb; ok (pos (from_be 0 bs), bb')

unfoldable pub read_bool : List ℕ → Result Error Bool
read_bool [] = err bad_bool
read_bool (b ∷ _) = if b == 0 then ok false else if b == 1 then ok true else err bad_bool

unfoldable pub deserialize_bool : Reader Bool
unfolding read_bool
deserialize_bool bb = do (bs, bb') ← get_bytes 1 bb; b ← read_bool bs; ok (b, bb')

abbrev pub deserialize_byte_array : ℕ → Reader (List ℕ)
deserialize_byte_array n bb = get_bytes n bb

abbrev pub deserialize_byte_slice : Tags → Reader (List ℕ)
deserialize_byte_slice tags bb = get_var_bytes tags.byte_size bb

abbrev pub deserialize_string : Reader (List ℕ)
deserialize_string bb = get_var_bytes 4 bb

-- The loop over the `vlen` elements of a list.
unfoldable pub deserialize_all : {A : Type 0} → Reader A → ℕ → Reader (List A)
deserialize_all f zero bb = ok ([], bb)
deserialize_all f (suc n) bb = do
  (v, bb') ← f bb
  (vs, bb'') ← deserialize_all f n bb'
  ok (v ∷ vs, bb'')

-- `deserializePtr`: `b` is `NilOK`, `f` reads what the pointer points to.
abbrev pub read_tagged : {A : Type 0} → Bool → Reader A → Reader (Option A)
read_tagged b f bb =
    if b
    then get_uint 1 bb >>= (λ (b, bb').
      if b == 0 then ok (none, bb') else f bb' >>= (λ (v, bb''). ok (some v, bb'')))
    else f bb >>= (λ (v, bb'). ok (some v, bb'))

unfoldable mutual
  pub deserialize : (t : Ty) → Tags → Reader (El t)
  deserialize uint8 tags bb = deserialize_uint 1 bb
  deserialize uint16 tags bb = deserialize_uint 2 bb
  deserialize uint32 tags bb = deserialize_uint 4 bb
  deserialize uint64 tags bb = deserialize_uint 8 bb
  deserialize uint tags bb = deserialize_var_uint bb
  deserialize bool tags bb = deserialize_bool bb
  deserialize string tags bb = deserialize_string bb
  deserialize byte_slice tags bb = deserialize_byte_slice tags bb
  deserialize big_int tags bb = deserialize_big_int bb
  deserialize uint128 tags bb = deserialize_fix_size_big_uint 16 bb
  deserialize uint256 tags bb = deserialize_fix_size_big_uint 32 bb
  deserialize (byte_array n) tags bb = deserialize_byte_array n bb
  deserialize (slice t) tags bb = do
    (vlen, bb') ← get_len tags.byte_size bb
    deserialize_all (deserialize t default_tags) vlen bb'
  deserialize (array n t) tags bb = deserialize_all (deserialize t default_tags) n bb
  deserialize (struct fs) tags bb = deserialize_fields fs bb
  deserialize (ptr t) tags bb = read_tagged tags.nil_ok (deserialize t tags) bb

  pub deserialize_fields : (fs : Fields) → Reader (ElFields fs)
  deserialize_fields no_fields bb = ok (tt, bb)
  deserialize_fields (field tags t fs) bb = do
    (v, bb') ← deserialize t tags bb
    (vs, bb'') ← deserialize_fields fs bb'
    ok ((v, vs), bb'')
