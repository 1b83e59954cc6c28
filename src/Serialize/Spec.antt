-- ===== src/Serialize/Spec.antt =====
-- What the codec promises: which values come back, as what, and how small an encoding can be.
use goquarkchain.Prelude.{
  ℕ, ◌+◌, ◌*◌, ◌≤◌, ◌<◌, ◌^◌, ◌≡◌, Bool, true, Option, none, some, List, ◌++◌, map, length, All,
  if◌then◌else◌,
}
use goquarkchain.Prelude.Int.{ℤ, pos, negsuc}
use goquarkchain.Prelude.Bytes.{byte_len}
use goquarkchain.Serialize.Types.{
  Tags, default_tags, Ty, uint8, uint16, uint32, uint64, uint, bool, string, byte_slice, big_int,
  uint128, uint256, byte_array, slice, array, struct, ptr, Fields, no_fields, field, El, ElFields,
  zero_value, is_serializable,
}
use goquarkchain.Serialize.Writer.{abs_value}
use goquarkchain.Serialize.Reader.{Reader}
use goquarkchain.Serialize.Cursor.{Decodes}

-- The least number of bytes of an encoding.
abbrev mutual
  pub min_size : Ty → Tags → ℕ
  min_size uint8 tags = 1
  min_size uint16 tags = 2
  min_size uint32 tags = 4
  min_size uint64 tags = 8
  min_size uint tags = 1
  min_size bool tags = 1
  min_size string tags = 4
  min_size byte_slice tags = tags.byte_size
  min_size big_int tags = 1
  min_size uint128 tags = 16
  min_size uint256 tags = 32
  min_size (byte_array n) tags = n
  min_size (slice t) tags = tags.byte_size
  min_size (array n t) tags = n * min_size t default_tags
  min_size (struct fs) tags = min_fields fs
  min_size (ptr t) tags = if tags.nil_ok then 1 else min_size t tags

  pub min_fields : Fields → ℕ
  min_fields no_fields = 0
  min_fields (field tags t fs) = min_size t tags + min_fields fs

-- A length prefix of 1 to 4 bytes.
abbrev pub FitsPrefix : Tags → Type 0
FitsPrefix tags = (1 ≤ tags.byte_size) × (tags.byte_size ≤ 4)

-- What the encoder does not check itself: words, byte arrays and arrays of the size that their types
-- say, texts and big numbers whose lengths fit, prefixes of 1 to 4 bytes, and slices of elements of
-- at least one byte. (The reader refuses a slice longer than the bytes left, so that a longer slice
-- of elements of no bytes does not come back.)
abbrev mutual
  pub Fits : (t : Ty) → Tags → El t → Type 0
  Fits uint8 tags v = v < 256 ^ 1
  Fits uint16 tags v = v < 256 ^ 2
  Fits uint32 tags v = v < 256 ^ 4
  Fits uint64 tags v = v < 256 ^ 8
  Fits uint tags v = v < 256 ^ 8
  Fits bool tags v = Unit {0}
  Fits string tags v = length v < 256 ^ 4
  Fits byte_slice tags v = FitsPrefix tags
  Fits big_int tags v = byte_len (abs_value v) < 256
  Fits uint128 tags v = Unit {0}
  Fits uint256 tags v = Unit {0}
  Fits (byte_array n) tags v = length v ≡ n
  Fits (slice t) tags v =
      FitsPrefix tags × (1 ≤ min_size t default_tags) × All (λ x. Fits t default_tags x) v
  Fits (array n t) tags v = (length v ≡ n) × All (λ x. Fits t default_tags x) v
  Fits (struct fs) tags v = FitsFields fs v
  Fits (ptr t) tags none = if tags.nil_ok then Unit {0} else Fits t tags (zero_value t)
  Fits (ptr t) tags (some v) = Fits t tags v

  pub FitsFields : (fs : Fields) → ElFields fs → Type 0
  FitsFields no_fields v = Unit {0}
  FitsFields (field tags t fs) (v, vs) = Fits t tags v × FitsFields fs vs

-- A nil `Value` comes back as 0, and a negative one without its sign, which is not written.
abbrev pub settle_fixed : Option ℤ → Option ℤ
settle_fixed none = some (pos 0)
settle_fixed (some v) = some (pos (abs_value v))

-- What a value comes back as: itself, but for a nil pointer whose field is not marked `nil`, which
-- comes back as a pointer to the zero value, and a `Value` of a fixed size that is nil or negative.
abbrev mutual
  pub settle : (t : Ty) → Tags → El t → El t
  settle uint8 tags v = v
  settle uint16 tags v = v
  settle uint32 tags v = v
  settle uint64 tags v = v
  settle uint tags v = v
  settle bool tags v = v
  settle string tags v = v
  settle byte_slice tags v = v
  settle big_int tags v = v
  settle uint128 tags v = settle_fixed v
  settle uint256 tags v = settle_fixed v
  settle (byte_array n) tags v = v
  settle (slice t) tags v = map (λ x. settle t default_tags x) v
  settle (array n t) tags v = map (λ x. settle t default_tags x) v
  settle (struct fs) tags v = settle_fields fs v
  settle (ptr t) tags none = if tags.nil_ok then none else some (settle t tags (zero_value t))
  settle (ptr t) tags (some v) = some (settle t tags v)

  pub settle_fields : (fs : Fields) → ElFields fs → ElFields fs
  settle_fields no_fields v = tt
  settle_fields (field tags t fs) (v, vs) = (settle t tags v, settle_fields fs vs)

-- The writer appended an encoding of at least `k` bytes, which `read` reads back as `a`.
abbrev pub Coded : {A : Type 0} → Reader A → ℕ → A → List ℕ → List ℕ → Type 0
Coded read k a w w' = (enc : List ℕ) × (w' ≡ w ++ enc) × (k ≤ length enc) × Decodes read enc a

-- The values that the writer accepts: every length fits its prefix, no number is negative or too
-- wide, and what writes itself is addressable.
abbrev pub NotNegative : ℤ → Type 0
NotNegative (pos n) = Unit {0}
NotNegative (negsuc n) = ⊥

abbrev pub FitsWidth : ℕ → Option ℤ → Type 0
FitsWidth size none = Unit {0}
FitsWidth size (some v) = byte_len (abs_value v) ≤ size

abbrev mutual
  pub Accepts : (t : Ty) → Tags → Bool → El t → Type 0
  Accepts uint8 tags addr v = Unit {0}
  Accepts uint16 tags addr v = Unit {0}
  Accepts uint32 tags addr v = Unit {0}
  Accepts uint64 tags addr v = Unit {0}
  Accepts uint tags addr v = Unit {0}
  Accepts bool tags addr v = Unit {0}
  Accepts string tags addr v = Unit {0}
  Accepts byte_slice tags addr v = length v < 256 ^ tags.byte_size
  Accepts big_int tags addr v = NotNegative v
  Accepts uint128 tags addr v = (addr ≡ true) × FitsWidth 16 v
  Accepts uint256 tags addr v = (addr ≡ true) × FitsWidth 32 v
  Accepts (byte_array n) tags addr v = Unit {0}
  Accepts (slice t) tags addr v =
      (length v < 256 ^ tags.byte_size) × All (λ x. Accepts t default_tags true x) v
  Accepts (array n t) tags addr v = All (λ x. Accepts t default_tags addr x) v
  Accepts (struct fs) tags addr v = AcceptsFields fs addr v
  Accepts (ptr t) tags addr none =
      if tags.nil_ok then Unit {0} else Accepts t tags (is_serializable t) (zero_value t)
  Accepts (ptr t) tags addr (some v) = Accepts t tags true v

  pub AcceptsFields : (fs : Fields) → Bool → ElFields fs → Type 0
  AcceptsFields no_fields addr v = Unit {0}
  AcceptsFields (field tags t fs) addr (v, vs) = Accepts t tags addr v × AcceptsFields fs addr vs
