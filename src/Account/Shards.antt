-- ===== src/Account/Shards.antt =====
-- account/: a branch keeps its three numbers, and the branches of a chain share out its keys.
use goquarkchain.Prelude.{
  ℕ, zero, suc, ◌+◌, ◌-◌, ◌*◌, ◌/◌, ◌%◌, ◌^◌, ◌≤◌, ◌<◌, ◌≡◌, ◌↔◌, ◌⊎◌, ap₂, subst, refl, sym, ap,
  ◌∙◌, true, some, ==_iff, bit_and, bit_or, bit_xor, inr, arith, lt→ltb,
}
use goquarkchain.Prelude.Bits.{
  bit_and-mask, bit_and-mod, bit_and-high, bit_or-field, bit_xor-lead, bit_len-lead, pow_mono,
  pow_pos, pow_add, and_pred_iff, bit_or-lead,
}
use native.Mathlib.Nat.{
  mod-lt, div-add-mod', div-lt_iff_lt-mul, mul-add-mod_self_left, mod-eq_of_lt,
}
use goquarkchain.Common.Words.{sub32, shl32, int_left_most_bit, is_p2}
use goquarkchain.Account.Branch.{
  Branch, get_chain_id, get_shard_size, get_shard_id, is_in_branch, create_branch, is_neighbor,
  abs_uint32,
}
use goquarkchain.Account.Address.{Address, not32, full_shard_id_of, address_in_branch}

-- The word of shard `i` of the 2^k shards of chain `c`.
abbrev pub word : ℕ → ℕ → ℕ → ℕ
word c k i = c * 2 ^ 16 + (2 ^ k + i)

abbrev pub branch_of : ℕ → ℕ → ℕ → Branch
branch_of c k i = record { value = word c k i }

-- Chain ids have 16 bits, and the size and the shard id fit the other 16.
pub record IsShard (c k i : ℕ) : Type 0 where
  pub chain_fits : c < 2 ^ 16
  pub size_fits : k < 16
  pub id_fits : i < 2 ^ k

small_size : (k : ℕ) → k < 16 → 2 ^ k ≤ 2 ^ 15
small_size k h = pow_mono k 15 (omega arith)

sub32_one : (k : ℕ) → k < 16 → sub32 (2 ^ k) 1 ≡ 2 ^ k - 1
sub32_one k h = omega (arith, small_size k h, pow_pos k)

is_p2-pow : (k : ℕ) → k < 16 → is_p2 (2 ^ k) ≡ true
unfolding is_p2
is_p2-pow k h =
    (==_iff _ _).1 (ap (bit_and (2 ^ k)) (sub32_one k h) ∙ (and_pred_iff (2 ^ k)).1 (inr (k, refl)))

pred_mask : (n : ℕ) → n < 2 ^ 32 → bit_and n (sub32 n 1) ≡ bit_and n (n - 1)
pred_mask zero h = refl
pred_mask (suc n) h = ap (bit_and (suc n)) {x = sub32 (suc n) 1} {y = suc n - 1} (omega arith)

-- `IsP2` accepts the powers of two, and 0.
pub is_p2_iff : (n : ℕ) → n < 2 ^ 32 → (is_p2 n ≡ true) ↔ ((n ≡ 0) ⊎ ((k : ℕ) × (n ≡ 2 ^ k)))
unfolding is_p2
is_p2_iff n h = (
  λ e. (and_pred_iff n).0 (sym (pred_mask n h) ∙ (==_iff _ _).0 e),
  λ d. (==_iff _ _).1 (pred_mask n h ∙ (and_pred_iff n).1 d),
)

shl32_pow : (k : ℕ) → k < 16 → shl32 1 k ≡ 2 ^ k
unfolding shl32
shl32_pow k h = rw (lt→ltb k 32 (omega arith), shl32) (omega (arith, small_size k h))

lead_shift : (k i : ℕ) → k < 16 → i < 2 ^ k → sub32 (int_left_most_bit (2 ^ k + i)) 1 ≡ k
unfolding int_left_most_bit
lead_shift k i h hi = omega (arith, bit_len-lead k i hi)

low_word : (c k i : ℕ) → IsShard c k i → bit_and (word c k i) (2 ^ 16 - 1) ≡ 2 ^ k + i
low_word c k i h =
    bit_and-mask 16 c (2 ^ k + i) (omega (arith, small_size k h.size_fits, h.id_fits))

-- A branch gives back the chain id, the shard size and the shard id that it was made of.
pub branch_of-fields :
    (c k i : ℕ)
    → IsShard c k i
    → (get_chain_id (branch_of c k i) ≡ c)
      × (get_shard_size (branch_of c k i) ≡ 2 ^ k)
      × (get_shard_id (branch_of c k i) ≡ i)
unfolding get_chain_id get_shard_size get_shard_id
branch_of-fields c k i h = (
  omega (arith, small_size k h.size_fits, h.id_fits),
  size,
  ap₂ bit_xor (low_word c k i h) size ∙ bit_xor-lead k i h.id_fits,
)
  where
    size : shl32 1 (sub32 (int_left_most_bit (bit_and (word c k i) (2 ^ 16 - 1))) 1) ≡ 2 ^ k
    size =
        ap (λ t. shl32 1 (sub32 (int_left_most_bit t) 1)) (low_word c k i h)
        ∙ ap (λ t. shl32 1 t) (lead_shift k i h.size_fits h.id_fits)
        ∙ shl32_pow k h.size_fits

-- The two joins of `CreatBranch` and of `GetFullShardID`.
pub joined :
    (c k i : ℕ) → IsShard c k i → bit_or (bit_or (c * 2 ^ 16 % 2 ^ 32) (2 ^ k)) i ≡ word c k i
joined c k i h =
    ap (λ t. bit_or (bit_or t (2 ^ k)) i) {x = c * 2 ^ 16 % 2 ^ 32} {y = c * 2 ^ 16}
      (omega (arith, h.chain_fits))
    ∙ ap (λ t. bit_or t i) (bit_or-field 16 c (2 ^ k) (omega (arith, small_size k h.size_fits)))
    ∙ bit_or-lead 16 k c i (omega (arith, small_size k h.size_fits, h.id_fits)) h.id_fits

-- `CreatBranch` makes a branch of a chain, a power of two and a shard id below it, and the branch
-- gives the three back.
pub create_branch-fields :
    (c k i : ℕ)
    → IsShard c k i
    → (b : Branch) × (create_branch c (2 ^ k) i ≡ some b)
      × (get_chain_id b ≡ c)
      × (get_shard_size b ≡ 2 ^ k)
      × (get_shard_id b ≡ i)
unfolding create_branch
create_branch-fields c k i h =
    let (x, y, z) = branch_of-fields c k i h in
    (
      branch_of c k i,
      rw (is_p2-pow k h.size_fits) (ap (λ (t : ℕ). some (record { value = t })) (joined c k i h)),
      x,
      y,
      z,
    )

-- A key is in a branch exactly when its chain is the branch's and its low digits are the shard id.
pub is_in_branch_iff :
    (c k i key : ℕ)
    → IsShard c k i
    → (is_in_branch (branch_of c k i) key ≡ true) ↔ ((key / 2 ^ 16 ≡ c) × (key % 2 ^ k ≡ i))
unfolding is_in_branch
is_in_branch_iff c k i key h =
    let (x, y, z) = branch_of-fields c k i h in
    let masked : bit_and key (sub32 (get_shard_size (branch_of c k i)) 1) ≡ key % 2 ^ k =
      ap (λ t. bit_and key (sub32 t 1)) y
      ∙ ap (bit_and key) (sub32_one k h.size_fits)
      ∙ bit_and-mod k key in
    rw (x, z, masked) (ground arith)

key_IsShard :
    (a : Address) (k : ℕ)
    → a.full_shard_key < 2 ^ 32
    → k < 16
    → IsShard (a.full_shard_key / 2 ^ 16) k (a.full_shard_key % 2 ^ k)
key_IsShard a k h hk = record {
  chain_fits = omega arith;
  size_fits = hk;
  id_fits = mod-lt a.full_shard_key (pow_pos k);
}

pub bit_and-low_key : (key k : ℕ) → k < 16 → bit_and key (sub32 (2 ^ k) 1) ≡ key % 2 ^ k
bit_and-low_key key k h = ap (bit_and key) (sub32_one k h) ∙ bit_and-mod k key

-- A word has one chain and one shard id.
word_injective :
    (c c' k i i' : ℕ)
    → IsShard c k i
    → IsShard c' k i'
    → word c k i ≡ word c' k i'
    → (c ≡ c') × (i ≡ i')
word_injective c c' k i i' h h' e =
    let (x, y, z) = branch_of-fields c k i h in
    let (x', y', z') = branch_of-fields c' k i' h' in
    let same : branch_of c k i ≡ branch_of c' k i' = ap (λ (t : ℕ). record { value = t }) e in
    (sym x ∙ ap get_chain_id same ∙ x', sym z ∙ ap get_shard_id same ∙ z')

full_shard_id_of_eq :
    (a : Address) (k : ℕ)
    → a.full_shard_key < 2 ^ 32
    → k < 16
    → full_shard_id_of a (2 ^ k)
      ≡ some (word (a.full_shard_key / 2 ^ 16) k (a.full_shard_key % 2 ^ k))
unfolding full_shard_id_of
full_shard_id_of_eq a k h hk = rw (is_p2-pow k hk) (
    ap (λ t. some (bit_or (bit_or (key / 2 ^ 16 * 2 ^ 16 % 2 ^ 32) (2 ^ k)) t)) masked
    ∙ ap some (joined (key / 2 ^ 16) k (key % 2 ^ k) (key_IsShard a k h hk)))
  where
    key : ℕ
    key = a.full_shard_key

    masked : bit_and key (sub32 (2 ^ k) 1) ≡ key % 2 ^ k
    masked = bit_and-low_key key k hk

some_injective : {x y : ℕ} → some x ≡ some y → x ≡ y
some_injective e = cc

-- For a power of two, `GetFullShardID` of an address is the word of a branch exactly when the
-- address's key is in that branch. So every key is in exactly one branch of its chain.
pub full_shard_id_of_iff :
    (a : Address) (c k i : ℕ)
    → a.full_shard_key < 2 ^ 32
    → IsShard c k i
    → (full_shard_id_of a (2 ^ k) ≡ some (word c k i))
      ↔ (is_in_branch (branch_of c k i) a.full_shard_key ≡ true)
full_shard_id_of_iff a c k i h s = (
  λ e.
      let (x, y) =
        word_injective (key / 2 ^ 16) c k (key % 2 ^ k) i (key_IsShard a k h s.size_fits) s
          (some_injective (sym (full_shard_id_of_eq a k h s.size_fits) ∙ e)) in
      (is_in_branch_iff c k i key s).1 (x, y),
  λ e.
      let (x, y) = (is_in_branch_iff c k i key s).0 e in
      full_shard_id_of_eq a k h s.size_fits ∙ ap some (ap₂ (λ t u. word t k u) x y),
)
  where
    key : ℕ
    key = a.full_shard_key

-- The high digits of the old key's shard part stay, the low ones become the shard id.
moved_low :
    (c k i x : ℕ)
    → IsShard c k i
    → x < 2 ^ 16
    → bit_and x (not32 (2 ^ k - 1)) + i ≡ x / 2 ^ k * 2 ^ k + i
moved_low c k i x h hx =
    ap (λ t. t + i)
      (ap (λ t. bit_and t (not32 (2 ^ k - 1))) (sym (div-add-mod' x (2 ^ k)))
        ∙ ap (bit_and (x / 2 ^ k * 2 ^ k + x % 2 ^ k)) mask
        ∙ bit_and-high (32 - k) k (x / 2 ^ k) (x % 2 ^ k) small (mod-lt x (pow_pos k)))
  where
    split : 2 ^ 32 ≡ 2 ^ (32 - k) * 2 ^ k
    split =
        ap (λ t. 2 ^ t) {x = 32} {y = 32 - k + k} (omega (arith, h.size_fits)) ∙ pow_add (32 - k) k

    mask : not32 (2 ^ k - 1) ≡ (2 ^ (32 - k) - 1) * 2 ^ k
    mask = omega (
      arith,
      split,
      pow_pos k,
      ap (λ (t : ℕ). t * 2 ^ k) {x = 2 ^ (32 - k) - 1 + 1} {y = 2 ^ (32 - k)}
          (omega (arith, pow_pos (32 - k))),
    )

    small : x / 2 ^ k < 2 ^ (32 - k)
    small = (div-lt_iff_lt-mul (pow_pos k)).1 (omega (arith, split))

-- A multiple of 2^k below 2^16 leaves room for the shard id.
room : (k i x : ℕ) → k < 16 → i < 2 ^ k → x < 2 ^ 16 → x / 2 ^ k * 2 ^ k + i < 2 ^ 16
room k i x hk hi hx =
    subst (λ t. x / 2 ^ k * 2 ^ k + i < t) (sym split)
      (below (x / 2 ^ k) (2 ^ k) i (2 ^ (16 - k))
        ((div-lt_iff_lt-mul (pow_pos k)).1 (omega (arith, split))) hi)
  where
    split : 2 ^ 16 ≡ 2 ^ (16 - k) * 2 ^ k
    split = ap (λ t. 2 ^ t) {x = 16} {y = 16 - k + k} (omega arith) ∙ pow_add (16 - k) k

    below : (r w j h : ℕ) → r < h → j < w → r * w + j < h * w
    below r w j h p q = grind arith

joined_key :
    (c k i x : ℕ)
    → IsShard c k i
    → x < 2 ^ 16
    → bit_or (c * 2 ^ 16 % 2 ^ 32) ((x / 2 ^ k * 2 ^ k + i) % 2 ^ 32)
      ≡ c * 2 ^ 16 + (x / 2 ^ k * 2 ^ k + i)
joined_key c k i x h hx =
    ap₂ bit_or {x = c * 2 ^ 16 % 2 ^ 32} {y = c * 2 ^ 16} {u = m % 2 ^ 32} {v = m}
      (omega (arith, h.chain_fits)) (omega (arith, fits))
    ∙ bit_or-field 16 c m fits
  where
    m : ℕ
    m = x / 2 ^ k * 2 ^ k + i

    fits : m < 2 ^ 16
    fits = room k i x h.size_fits h.id_fits hx

joined_low : (c k i q : ℕ) → k < 16 → i < 2 ^ k → (c * 2 ^ 16 + (q * 2 ^ k + i)) % 2 ^ k ≡ i
joined_low c k i q hk hi =
    ap (λ t. t % 2 ^ k) {x = c * 2 ^ 16 + (q * 2 ^ k + i)} {y = 2 ^ k * (c * 2 ^ (16 - k) + q) + i}
      (omega (arith, ap (λ (t : ℕ). c * t) split))
    ∙ mul-add-mod_self_left (2 ^ k) (c * 2 ^ (16 - k) + q) i
    ∙ mod-eq_of_lt hi
  where
    split : 2 ^ 16 ≡ 2 ^ (16 - k) * 2 ^ k
    split = ap (λ t. 2 ^ t) {x = 16} {y = 16 - k + k} (omega arith) ∙ pow_add (16 - k) k

-- Moving an address into a branch puts its key there, and keeps the recipient.
pub address_in_branch-IsIn :
    (a : Address) (c k i : ℕ)
    → IsShard c k i
    → ((address_in_branch a (branch_of c k i)).recipient ≡ a.recipient)
      × (is_in_branch (branch_of c k i) (address_in_branch a (branch_of c k i)).full_shard_key
          ≡ true)
unfolding address_in_branch
address_in_branch-IsIn a c k i h =
    let (x, y, z) = branch_of-fields c k i h in
    (
      refl,
      (is_in_branch_iff c k i _ h).1 (
          rw
            (
              z,
              x,
              y,
              sub32_one k h.size_fits,
              moved_low c k i low h low_small,
              joined_key c k i low h low_small,
            )
            (
              omega (arith, room k i low h.size_fits h.id_fits low_small),
              joined_low c k i (low / 2 ^ k) h.size_fits h.id_fits,
            )),
    )
  where
    low : ℕ
    low = bit_and a.full_shard_key (2 ^ 16 - 1)

    low_small : low < 2 ^ 16
    low_small = omega (arith, bit_and-mod 16 a.full_shard_key)

abs_uint32_comm : (a b : ℕ) → abs_uint32 a b ≡ abs_uint32 b a
unfolding abs_uint32
abs_uint32_comm a b = ground arith

-- Being neighbors does not depend on the order of the two branches.
pub is_neighbor_comm : (b1 b2 : Branch) (n : ℕ) → is_neighbor b1 b2 n ≡ is_neighbor b2 b1 n
unfolding is_neighbor
is_neighbor_comm b1 b2 n = ground (
  arith,
  abs_uint32_comm (get_shard_id b1) (get_shard_id b2),
  abs_uint32_comm (get_chain_id b1) (get_chain_id b2),
)
