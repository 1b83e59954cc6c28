-- ===== src/Types/Tests.antt =====
-- A trie as a table of bytes, and runs of balances on it.
use goquarkchain.Prelude.{
  ℕ, ◌≡◌, inl, inr, ◌≢◌, refl, ap₂, Bool, true, false, none, some, List, [], ◌∷◌, ◌++◌, ◌<◌, length,
  ◌==◌, ==_iff, Bool-cases, if◌then◌else◌, ok, arith,
}
use goquarkchain.Prelude.Int.{pos}
use goquarkchain.Prelude.Bytes.{byte_len}
use goquarkchain.Serialize.Buffer.{advance, new_byte_buffer}
use goquarkchain.Types.TokenBalances.{
  TrieOps, TokenBalances, new_empty_token_balances, lookup_entry,
}
use goquarkchain.Types.Ledger.{
  Op, read, write, flush, spec, IsTrie, StandsFor, run_ops, run_ops-StandsFor,
}
use goquarkchain.Types.BalanceCodec.{serialize_token_balances, deserialize_token_balances}
use goquarkchain.Types.BalanceTrip.{deserialize_token_balances-serialize_token_balances}

same_key : List ℕ → List ℕ → Bool
same_key [] [] = true
same_key [] (y ∷ ys) = false
same_key (x ∷ xs) [] = false
same_key (x ∷ xs) (y ∷ ys) = let rest = same_key xs ys in if x == y then rest else false

same_key_refl : (xs : List ℕ) → same_key xs xs ≡ true
unfolding same_key
same_key_refl [] = refl
same_key_refl (x ∷ xs) = rw ((==_iff x x).1 refl) (same_key_refl xs)

same_key-eq : (xs ys : List ℕ) → same_key xs ys ≡ true → xs ≡ ys
unfolding same_key
same_key-eq [] [] h = refl
same_key-eq [] (y ∷ ys) h = cc
same_key-eq (x ∷ xs) [] h = cc
same_key-eq (x ∷ xs) (y ∷ ys) h = elim (Bool-cases (x == y)) [
  | inl e ↦ ap₂ (λ a b. a ∷ b) ((==_iff x y).0 e) (same_key-eq xs ys (rw e at h))
  | inr e ↦ cc (rw e at h)
]

abbrev Table : Type 0
Table = List ℕ → List ℕ

written : Table → List ℕ → List ℕ → Table
unfolding same_key
written t k v k' = if same_key k k' then v else t k'

written_same : (t : Table) (k v : List ℕ) → written t k v k ≡ v
unfolding written
written_same t k v = rw (same_key_refl k) refl

written_other : (t : Table) (k k' v : List ℕ) → k ≢ k' → written t k v k' ≡ t k'
unfolding written
written_other t k k' v h = elim (Bool-cases (same_key k k')) [
  | inl e ↦ absurd (h (same_key-eq k k' e))
  | inr e ↦ rw e refl
]

-- A number is encoded as one item, which is not what RLP does, but keeps its law.
abbrev table_ops : TrieOps Table
table_ops = record {
  new_secure = λ k. [];
  get = λ t k. t k;
  update = written;
  delete = λ t k. written t k [];
  commit = λ t. t;
  rlp_encode = λ n. n ∷ [];
  rlp_decode = λ bytes. elim bytes [ [] ↦ none | n ∷ rest ↦ some n ];
}

table-IsTrie : IsTrie table_ops
table-IsTrie = record {
  empty = λ k. refl;
  updated = written_same;
  update_other = written_other;
  deleted = λ t k. written_same t k [];
  delete_other = λ t k k' h. written_other t k k' [] h;
  committed = λ t k. refl;
  decoded = λ n. refl;
  encoded = λ n. refl;
}

-- No balances, with a database.
abbrev nothing : TokenBalances Table
nothing = record { has_db = true; token_trie = none; balances = [] }

nothing-StandsFor : StandsFor table_ops nothing (λ k. 0)
nothing-StandsFor = record { cached = tt; stored = λ id w e. refl }

-- The token 3 is set and read, before and after the balances are committed.
abbrev asked : List Op
asked = write 7 3 ∷ read 3 ∷ flush ∷ read 3 ∷ read 5 ∷ []

run_ops-StandsFor_example :
    (t : TokenBalances Table) × (run_ops table_ops asked nothing
      ≡ ok (pos 7 ∷ pos 7 ∷ pos 0 ∷ [], t))
    × StandsFor table_ops t (spec asked (λ k. 0)).1
run_ops-StandsFor_example =
    run_ops-StandsFor table_ops table-IsTrie asked nothing (λ k. 0)
      (omega arith, (omega arith, (tt, (omega arith, (omega arith, tt))))) refl nothing-StandsFor

-- Two entries, one of them 0, in the order in which they were put.
abbrev few : TokenBalances Table
few = record { has_db = false; token_trie = none; balances = (5, pos 7) ∷ (3, pos 0) ∷ [] }

abbrev amounts : ℕ → ℕ
amounts k = if k == 5 then 7 else 0

few-StandsFor : StandsFor table_ops few amounts
unfolding lookup_entry
few-StandsFor = record {
  cached = ((refl, omega arith), ((refl, omega arith), tt));
  stored = λ id w e. elim (Bool-cases (id == 5)) [
    | inl five ↦ cc (rw five at e)
    | inr other ↦ rw other refl
  ];
}

amounts-byte_len : (k : ℕ) → byte_len (amounts k) < 256
unfolding byte_len
amounts-byte_len k = elim (Bool-cases (k == 5)) [
  | inl five ↦ rw five (omega arith)
  | inr other ↦ rw other (omega arith)
]

deserialize_token_balances-serialize_token_balances_example :
    (enc : List ℕ) × (serialize_token_balances few [] ≡ ok ([] ++ enc))
    × (t' : TokenBalances Table) × (deserialize_token_balances new_empty_token_balances
          (new_byte_buffer (enc ++ (1 ∷ [])))
        ≡ ok (t', advance (length enc) (new_byte_buffer (enc ++ (1 ∷ [])))))
    × StandsFor table_ops t' amounts
deserialize_token_balances-serialize_token_balances_example =
    deserialize_token_balances-serialize_token_balances table_ops few new_empty_token_balances
      amounts [] (1 ∷ []) refl (unfold new_empty_token_balances in refl) few-StandsFor
      amounts-byte_len (omega arith)
