-- ===== src/Types/BalanceCodec.antt =====
-- core/types/token.go: Serialize and Deserialize of TokenBalances.
use goquarkchain.Prelude.{
  ℕ, zero, suc, ◌%◌, ◌^◌, ◌≡◌, inl, inr, refl, ap, ◌∙◌, Bool, true, false, none, some, List, [],
  ◌∷◌, ◌++◌, All, length, map, leb, ◌==◌, Bool-cases, if◌then◌else◌, ok, ◌>>=◌,
}
use goquarkchain.Prelude.Int.{ℤ, pos}
use goquarkchain.Prelude.Bytes.{be_bytes}
use goquarkchain.Serialize.Buffer.{get_uint}
use goquarkchain.Serialize.Writer.{Writer, serialize_big_int, abs_value}
use goquarkchain.Serialize.Reader.{Reader, deserialize_big_int}
use goquarkchain.Types.Entries.{value_or_zero}
use goquarkchain.Types.TokenBalances.{TokenBalances, lookup_entry, put_entry}

-- `sort.Slice`
unfoldable pub insert_key : ℕ → List ℕ → List ℕ
insert_key k [] = k ∷ []
insert_key k (j ∷ keys) =
    let rest = insert_key k keys in if leb k j then k ∷ (j ∷ keys) else j ∷ rest

unfoldable pub sort_keys : List ℕ → List ℕ
unfolding insert_key
sort_keys [] = []
sort_keys (k ∷ keys) = insert_key k (sort_keys keys)

abbrev pub keys_of : List (ℕ × ℤ) → List ℕ
keys_of entries = map (λ e. e.0) entries

-- The loop over the keys; each of them has a value.
unfoldable pub serialize_entries : List (ℕ × ℤ) → List ℕ → Writer
unfolding lookup_entry
serialize_entries entries [] w = ok w
serialize_entries entries (k ∷ keys) w = do
  w₁ ← serialize_big_int (pos k) w
  w₂ ← serialize_big_int (value_or_zero (lookup_entry k entries)) w₁
  serialize_entries entries keys w₂

-- A key is cut to 64 bits by `Uint64`.
abbrev pub put_unless_zero : ℤ → ℤ → List (ℕ × ℤ) → List (ℕ × ℤ)
put_unless_zero k (pos n) entries =
    if n == 0 then entries else put_entry (abs_value k % 2 ^ 64) (pos n) entries
put_unless_zero k v entries = put_entry (abs_value k % 2 ^ 64) v entries

unfoldable pub deserialize_entries : ℕ → List (ℕ × ℤ) → Reader (List (ℕ × ℤ))
unfolding put_entry
deserialize_entries zero entries bb = ok (entries, bb)
deserialize_entries (suc n) entries bb = do
  (k, bb₁) ← deserialize_big_int bb
  (v, bb₂) ← deserialize_big_int bb₁
  deserialize_entries n (put_unless_zero k v entries) bb₂

module _ {Trie : Type 0} where
  unfoldable pub serialize_token_balances : TokenBalances Trie → Writer
  unfolding sort_keys serialize_entries
  serialize_token_balances t w =
      let keys = sort_keys (keys_of t.balances) in
      serialize_entries t.balances keys (w ++ be_bytes 4 (length (keys_of t.balances) % 2 ^ 32))

  -- Only the map of the receiver is replaced.
  unfoldable pub deserialize_token_balances : TokenBalances Trie → Reader (TokenBalances Trie)
  unfolding deserialize_entries get_uint
  deserialize_token_balances t bb = do
    (num, bb₁) ← get_uint 4 bb
    (entries, bb₂) ← deserialize_entries num [] bb₁
    ok (record t { balances = entries }, bb₂)

unfoldable pub is_key : ℕ → List ℕ → Bool
is_key k [] = false
is_key k (j ∷ keys) = if k == j then true else is_key k keys

length-insert_key : (k : ℕ) (keys : List ℕ) → length (insert_key k keys) ≡ suc (length keys)
unfolding insert_key
length-insert_key k [] = refl
length-insert_key k (j ∷ keys) = elim (Bool-cases (leb k j)) [
  | inl le ↦ rw le refl
  | inr gt ↦ rw gt (ap suc (length-insert_key k keys))
]

pub length-sort_keys : (keys : List ℕ) → length (sort_keys keys) ≡ length keys
unfolding sort_keys
length-sort_keys [] = refl
length-sort_keys (k ∷ keys) = length-insert_key k (sort_keys keys) ∙ ap suc (length-sort_keys keys)

is_key-insert_key : (x k : ℕ) (keys : List ℕ) → is_key x (insert_key k keys) ≡ is_key x (k ∷ keys)
unfolding insert_key is_key
is_key-insert_key x k [] = refl
is_key-insert_key x k (j ∷ keys) = elim (Bool-cases (leb k j)) [
  | inl le ↦ rw le refl
  | inr gt ↦ rw gt (
      ap (λ b. if x == j then true else b) (is_key-insert_key x k keys)
      ∙ swap (x == j) (x == k) (is_key x keys))
]
  where
    swap :
        (a b c : Bool)
        → (if a then true else (if b then true else c))
          ≡ (if b then true else (if a then true else c))
    swap true true c = refl
    swap true false c = refl
    swap false true c = refl
    swap false false c = refl

pub is_key-sort_keys : (x : ℕ) (keys : List ℕ) → is_key x (sort_keys keys) ≡ is_key x keys
unfolding sort_keys is_key
is_key-sort_keys x [] = refl
is_key-sort_keys x (k ∷ keys) =
    is_key-insert_key x k (sort_keys keys)
    ∙ ap (λ b. if x == k then true else b) (is_key-sort_keys x keys)

All-insert_key :
    (P : ℕ → Type 0) (k : ℕ) (keys : List ℕ) → P k → All P keys → All P (insert_key k keys)
unfolding insert_key
All-insert_key P k [] p h = (p, tt)
All-insert_key P k (j ∷ keys) p (q, h) = elim (Bool-cases (leb k j)) [
  | inl le ↦ rw (le, insert_key) (p, (q, h))
  | inr gt ↦ rw (gt, insert_key) (q, All-insert_key P k keys p h)
]

pub All-sort_keys : (P : ℕ → Type 0) (keys : List ℕ) → All P keys → All P (sort_keys keys)
unfolding sort_keys
All-sort_keys P [] h = tt
All-sort_keys P (k ∷ keys) (p, h) = All-insert_key P k (sort_keys keys) p (All-sort_keys P keys h)

-- A token that is no key has no entry, and the other way round.
pub lookup_entry-keys :
    (x : ℕ) (entries : List (ℕ × ℤ))
    → is_key x (keys_of entries) ≡ false
    → lookup_entry x entries ≡ none
unfolding lookup_entry is_key
lookup_entry-keys x [] h = refl
lookup_entry-keys x ((k, v) ∷ entries) h = elim (Bool-cases (x == k)) [
  | inl same ↦ cc (rw same at h)
  | inr other ↦ rw other (lookup_entry-keys x entries (rw other at h))
]

pub keys-lookup_entry :
    (x : ℕ) (entries : List (ℕ × ℤ))
    → is_key x (keys_of entries) ≡ true
    → (v : ℤ) × (lookup_entry x entries ≡ some v)
unfolding lookup_entry is_key
keys-lookup_entry x [] h = cc
keys-lookup_entry x ((k, v) ∷ entries) h = elim (Bool-cases (x == k)) [
  | inl same ↦ (v, rw same refl)
  | inr other ↦ let (u, e) = keys-lookup_entry x entries (rw other at h) in (u, rw other e)
]
