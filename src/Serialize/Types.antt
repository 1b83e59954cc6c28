-- ===== src/Serialize/Types.antt =====
-- The Go types that serialize/ accepts, as reflect sees them, and their values.
use goquarkchain.Prelude.{ℕ, Bool, true, false, Option, none, List, [], replicate}
use goquarkchain.Prelude.Int.{ℤ, pos}

-- serialize.Tags; an ignored field is dropped by `structFields`, so `Fields` holds the others.
pub record Tags : Type 0 where
  pub nil_ok : Bool
  pub byte_size : ℕ

-- What `Serialize` passes at the top, and a list to its elements.
abbrev pub default_tags : Tags
default_tags = record { nil_ok = false; byte_size = 1 }

mutual
  pub data Ty : Type 0 where
    uint8 uint16 uint32 uint64 uint bool string byte_slice big_int uint128 uint256 : Ty
    byte_array : ℕ → Ty
    slice : Ty → Ty
    array : ℕ → Ty → Ty
    struct : Fields → Ty
    ptr : Ty → Ty

  pub data Fields : Type 0 where
    no_fields : Fields
    field : Tags → Ty → Fields → Fields

-- The values of a type. `none` is a nil pointer; of a `Uint128` it is a nil `Value`.
abbrev mutual
  pub El : Ty → Type 0
  El uint8 = ℕ
  El uint16 = ℕ
  El uint32 = ℕ
  El uint64 = ℕ
  El uint = ℕ
  El bool = Bool
  El string = List ℕ
  El byte_slice = List ℕ
  El big_int = ℤ
  El uint128 = Option ℤ
  El uint256 = Option ℤ
  El (byte_array n) = List ℕ
  El (slice t) = List (El t)
  El (array n t) = List (El t)
  El (struct fs) = ElFields fs
  El (ptr t) = Option (El t)

  pub ElFields : Fields → Type 0
  ElFields no_fields = Unit {0}
  ElFields (field tags t fs) = El t × ElFields fs

-- reflect.Zero
abbrev mutual
  pub zero_value : (t : Ty) → El t
  zero_value uint8 = 0
  zero_value uint16 = 0
  zero_value uint32 = 0
  zero_value uint64 = 0
  zero_value uint = 0
  zero_value bool = false
  zero_value string = []
  zero_value byte_slice = []
  zero_value big_int = pos 0
  zero_value uint128 = none
  zero_value uint256 = none
  zero_value (byte_array n) = replicate n 0
  zero_value (slice t) = []
  zero_value (array n t) = replicate n (zero_value t)
  zero_value (struct fs) = zero_fields fs
  zero_value (ptr t) = none

  pub zero_fields : (fs : Fields) → ElFields fs
  zero_fields no_fields = tt
  zero_fields (field tags t fs) = (zero_value t, zero_fields fs)

-- `Implements(serializableInterface)` of the pointer type, among the types of this package.
abbrev pub is_serializable : Ty → Bool
is_serializable uint128 = true
is_serializable uint256 = true
is_serializable _ = false
