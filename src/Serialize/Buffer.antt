-- ===== src/Serialize/Buffer.antt =====
-- serialize/bytebuffer.go: a cursor over a byte slice.
use goquarkchain.Prelude.{
  ℕ, ◌+◌, ◌-◌, List, take, drop, length, ltb, Result, ok, ◌>>=◌, ◌>>◌, fail_if,
}
use goquarkchain.Prelude.Bytes.{from_be}

-- Every error of the package.
pub data Error : Type 0 where
  too_short zero_byte_size big_byte_size length_exceeds : Error
  unaddressable negative_big too_long bad_bool nil_target : Error

-- `data` is `bytes`.
pub record ByteBuffer : Type 0 where
  pub bytes : List ℕ
  pub position : ℕ
  pub size : ℕ

unfoldable pub new_byte_buffer : List ℕ → ByteBuffer
new_byte_buffer bs = record { bytes = bs; position = 0; size = length bs }

-- `position` is at most `size`, so `size - position` is Go's difference.
unfoldable pub remaining : ByteBuffer → ℕ
remaining bb = bb.size - bb.position

abbrev pub advance : ℕ → ByteBuffer → ByteBuffer
advance n bb = record bb { position = bb.position + n }

unfoldable pub get_bytes : ℕ → ByteBuffer → Result Error (List ℕ × ByteBuffer)
get_bytes n bb = do
  fail_if (ltb (bb.size - bb.position) n) too_short
  ok (take n (drop bb.position bb.bytes), advance n bb)

-- `GetUInt8`, `GetUInt16`, `GetUInt32`, `GetUInt64` at 1, 2, 4 and 8 bytes.
unfoldable pub get_uint : ℕ → ByteBuffer → Result Error (ℕ × ByteBuffer)
unfolding from_be
get_uint n bb = do (b, bb') ← get_bytes n bb; ok (from_be 0 b, bb')

-- At most four bytes are shifted into an int of 64 bits, so nothing overflows.
unfoldable pub get_len : ℕ → ByteBuffer → Result Error (ℕ × ByteBuffer)
unfolding from_be
get_len byte_size bb = do
  fail_if (ltb byte_size 1) zero_byte_size
  fail_if (ltb 4 byte_size) big_byte_size
  (b, bb') ← get_bytes byte_size bb
  fail_if (ltb (remaining bb') (from_be 0 b)) length_exceeds
  ok (from_be 0 b, bb')

unfoldable pub get_var_bytes : ℕ → ByteBuffer → Result Error (List ℕ × ByteBuffer)
get_var_bytes byte_size bb = do (n, bb') ← get_len byte_size bb; get_bytes n bb'
