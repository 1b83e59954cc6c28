-- ===== src/Types/TokenBalances.antt =====
-- core/types/token.go: TokenBalances, a cache of amounts by token in front of a trie. The trie and
-- RLP belong to third parties: `TrieOps` is what the code calls of them.
use goquarkchain.Prelude.{
  ℕ, ◌+◌, Bool, true, false, not, ◌&&◌, Option, none, some, List, [], ◌∷◌, ◌++◌, length, replicate,
  leb, ◌==◌, if◌then◌else◌, Result, ok, err, ◌>>=◌,
}
use goquarkchain.Prelude.Int.{ℤ, pos, ◌+ℤ◌, ltb_ℤ, pos_part}
use goquarkchain.Prelude.Bytes.{be_bytes}

-- All of them are panics; `no_database` is the one of `NewSecure` with no database.
pub data BalanceError : Type 0 where
  negative_value bad_rlp no_database : BalanceError

pub record TrieOps (Trie : Type 0) : Type 0 where
  pub new_secure : Trie
  pub get : Trie → List ℕ → List ℕ
  pub update : Trie → List ℕ → List ℕ → Trie
  pub delete : Trie → List ℕ → Trie
  pub commit : Trie → Trie
  pub rlp_encode : ℕ → List ℕ
  pub rlp_decode : List ℕ → Option ℕ

-- `has_db` says whether there is a database; the database itself is behind the tries. `balances` is
-- the Go map, as a list of keys and values in some order.
pub record TokenBalances (Trie : Type 0) : Type 0 where
  pub has_db : Bool
  pub token_trie : Option Trie
  pub balances : List (ℕ × ℤ)

abbrev pub token_trie_threshold : ℕ
token_trie_threshold = 16

unfoldable pub lookup_entry : ℕ → List (ℕ × ℤ) → Option ℤ
lookup_entry id [] = none
lookup_entry id ((k, v) ∷ entries) = if id == k then some v else lookup_entry id entries

unfoldable pub remove_entry : ℕ → List (ℕ × ℤ) → List (ℕ × ℤ)
remove_entry id [] = []
remove_entry id ((k, v) ∷ entries) =
    let rest = remove_entry id entries in if id == k then rest else (k, v) ∷ rest

-- A key has one entry; the order stands for none.
unfoldable pub put_entry : ℕ → ℤ → List (ℕ × ℤ) → List (ℕ × ℤ)
unfolding remove_entry
put_entry id amount entries = (id, amount) ∷ remove_entry id entries

-- `EncodeToByte32`
unfoldable pub encode_to_byte32 : ℕ → List ℕ
unfolding be_bytes
encode_to_byte32 n = replicate 24 0 ++ be_bytes 8 n

unfoldable pub add_entries : List (ℕ × ℤ) → List (ℕ × ℤ) → List (ℕ × ℤ)
unfolding lookup_entry put_entry
add_entries [] balances = balances
add_entries ((k, v) ∷ other) balances = elim (lookup_entry k balances) [
  | none ↦ add_entries other (put_entry k v balances)
  | some old ↦ add_entries other (put_entry k (v +ℤ old) balances)
]

unfoldable pub non_zero_entries : List (ℕ × ℤ) → ℕ
non_zero_entries [] = 0
non_zero_entries ((k, v) ∷ entries) = (if ltb_ℤ (pos 0) v then 1 else 0) + non_zero_entries entries

abbrev pub is_nil : {A : Type 0} → Option A → Bool
is_nil none = true
is_nil (some a) = false

module _ {Trie : Type 0} where
  unfoldable pub new_empty_token_balances : TokenBalances Trie
  new_empty_token_balances = record { has_db = false; token_trie = none; balances = [] }

  unfoldable pub add_balances : List (ℕ × ℤ) → TokenBalances Trie → TokenBalances Trie
  unfolding add_entries
  add_balances other t = record t { balances = add_entries other t.balances }

  unfoldable pub set_value : ℤ → ℕ → TokenBalances Trie → Result BalanceError (TokenBalances Trie)
  unfolding put_entry
  set_value amount id t =
      if ltb_ℤ amount (pos 0)
      then err negative_value
      else ok (record t { balances = put_entry id amount t.balances })

  unfoldable pub is_blank : TokenBalances Trie → Bool
  unfolding non_zero_entries
  is_blank t = is_nil t.token_trie && (non_zero_entries t.balances == 0)

  unfoldable pub not_using_trie : TokenBalances Trie → Bool
  unfolding non_zero_entries
  not_using_trie t = is_nil t.token_trie && leb (non_zero_entries t.balances) token_trie_threshold

module _ {Trie : Type 0} (ops : TrieOps Trie) where
  -- What the trie holds of a token: no bytes read as 0.
  unfoldable pub stored_balance : Trie → ℕ → Result BalanceError (Option ℤ)
  unfolding encode_to_byte32
  stored_balance trie id =
      let bytes = ops.get trie (encode_to_byte32 id) in
      if length bytes == 0
      then ok none
      else elim (ops.rlp_decode bytes) [ none ↦ err bad_rlp | some n ↦ ok (some (pos n)) ]

  abbrev pub cache_balance : ℕ → TokenBalances Trie → Option ℤ → ℤ × TokenBalances Trie
  cache_balance id t none = (pos 0, t)
  cache_balance id t (some v) = (v, record t { balances = put_entry id v t.balances })

  -- What the cache does not have.
  unfoldable pub balance_in :
      Option Trie → ℕ → TokenBalances Trie → Result BalanceError (ℤ × TokenBalances Trie)
  unfolding put_entry stored_balance
  balance_in none id t = ok (pos 0, t)
  balance_in (some trie) id t = stored_balance trie id >>= (λ found. ok (cache_balance id t found))

  -- The amount, and the balances with what was read from the trie.
  unfoldable pub get_token_balance :
      ℕ → TokenBalances Trie → Result BalanceError (ℤ × TokenBalances Trie)
  unfolding lookup_entry balance_in
  get_token_balance id t = elim (lookup_entry id t.balances) [
    | some v ↦ ok (v, t)
    | none ↦ balance_in t.token_trie id t
  ]

  -- A positive balance is written to the trie, and another one deleted from it.
  unfoldable pub write_balance : ℕ → ℤ → Trie → Trie
  unfolding encode_to_byte32
  write_balance id v trie =
      if ltb_ℤ (pos 0) v
      then ops.update trie (encode_to_byte32 id) (ops.rlp_encode (pos_part v))
      else ops.delete trie (encode_to_byte32 id)

  unfoldable pub write_balances : List (ℕ × ℤ) → Trie → Trie
  unfolding write_balance
  write_balances [] trie = trie
  write_balances ((k, v) ∷ entries) trie = write_balances entries (write_balance k v trie)

  abbrev pub trie_or_new : Option Trie → Trie
  trie_or_new none = ops.new_secure
  trie_or_new (some trie) = trie

  unfoldable pub commit : TokenBalances Trie → Result BalanceError (TokenBalances Trie)
  unfolding write_balances not_using_trie
  commit t =
      if not_using_trie t
      then ok t
      else if is_nil t.token_trie && not t.has_db
      then err no_database
      else ok (record t {
        token_trie = some (ops.commit (write_balances t.balances (trie_or_new t.token_trie)));
        balances = [];
      })
