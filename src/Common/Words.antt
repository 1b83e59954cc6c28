-- ===== src/Common/Words.antt =====
-- common/utils.go: 32-bit words, powers of two and shard masks.
use goquarkchain.Prelude.{
  ℕ, ◌+◌, ◌-◌, ◌*◌, ◌%◌, ◌^◌, Bool, true, false, ltb, ◌==◌, if◌then◌else◌, bit_and, List, [], ◌∷◌,
  ◌++◌,
}
use goquarkchain.Prelude.Bits.{bit_len}

-- uint32 `a - b`.
abbrev pub sub32 : ℕ → ℕ → ℕ
sub32 a b = (a + 2 ^ 32 - b) % 2 ^ 32

-- uint32 `x << k`; a shift by 32 or more leaves nothing.
unfoldable pub shl32 : ℕ → ℕ → ℕ
shl32 x k = elim (ltb k 32) [ true ↦ x * 2 ^ k % 2 ^ 32 | false ↦ 0 ]

-- `IntLeftMostBit`: 32 - bits.LeadingZeros32(v).
unfoldable pub int_left_most_bit : ℕ → ℕ
int_left_most_bit v = bit_len v

-- `IsP2`
unfoldable pub is_p2 : ℕ → Bool
is_p2 shard_size = bit_and shard_size (sub32 shard_size 1) == 0

-- `MasksHaveOverlap`
unfoldable pub masks_have_overlap : ℕ → ℕ → Bool
unfolding shl32 int_left_most_bit
masks_have_overlap m1 m2 =
    let i1 = int_left_most_bit m1 in
    let i2 = int_left_most_bit m2 in
    let i = if ltb i2 i1 then i2 else i1 in
    let bit_mask = sub32 (shl32 1 (sub32 i 1)) 1 in bit_and m1 bit_mask == bit_and m2 bit_mask

contains : List ℕ → ℕ → Bool
contains [] d = false
contains (v ∷ vs) d = if v == d then true else contains vs d

-- `RemoveDuplicate`: the inner loop appends at the last index when no element before it is equal.
remove_duplicate_loop : List ℕ → List ℕ → List ℕ
unfolding contains
remove_duplicate_loop out [] = out
remove_duplicate_loop out (d ∷ ds) =
    remove_duplicate_loop (if contains out d then out else out ++ (d ∷ [])) ds

unfoldable pub remove_duplicate : List ℕ → List ℕ
unfolding remove_duplicate_loop
remove_duplicate ds = remove_duplicate_loop [] ds
