-- ===== src/Types/BalanceTrip.antt =====
-- core/types/token.go: balances that are serialized and read back.
use goquarkchain.Prelude.{
  ℕ, ◌%◌, ◌^◌, ◌<◌, ◌≡◌, inl, inr, refl, sym, ap, ◌∙◌, subst, true, false, none, List, [], ◌∷◌,
  ◌++◌, append-nil, All, length, ◌==◌, ==_iff, Bool-cases, ok, ◌>>=◌, arith,
}
use goquarkchain.Prelude.Int.{ℤ, pos}
use goquarkchain.Prelude.Bytes.{
  be_bytes, length-be_bytes, from_be, from_be-be_bytes, byte_len, byte_len-le, big_bytes,
}
use goquarkchain.Serialize.Buffer.{advance, get_uint, get_bytes, new_byte_buffer}
use goquarkchain.Serialize.Writer.{serialize_big_int}
use goquarkchain.Serialize.Reader.{deserialize_big_int}
use goquarkchain.Serialize.Cursor.{Decodes, Decodes-get_bytes, Decodes-map, new_byte_buffer-IsAt}
use goquarkchain.Serialize.Spec.{Coded}
use goquarkchain.Serialize.Scalars.{big_int-Coded}
use goquarkchain.Serialize.RoundTrip.{advance_zero, Coded-then, Coded-map}
use goquarkchain.Types.TokenBalances.{TrieOps, TokenBalances, lookup_entry, put_entry}
use goquarkchain.Types.Entries.{
  Ledger, value_or_zero, lookup_entry-All, All-remove_entry, lookup_entry-put_entry-none,
}
use goquarkchain.Types.Ledger.{IsEntry, StandsFor}
use goquarkchain.Types.BalanceCodec.{
  keys_of, serialize_entries, put_unless_zero, deserialize_entries, sort_keys,
  serialize_token_balances, deserialize_token_balances, is_key, length-sort_keys, is_key-sort_keys,
  All-sort_keys, lookup_entry-keys, keys-lookup_entry,
}

-- What the reader gathers from the keys of a table.
decoded : Ledger → List ℕ → List (ℕ × ℤ) → List (ℕ × ℤ)
decoded f [] entries = entries
decoded f (k ∷ keys) entries = decoded f keys (put_unless_zero (pos k) (pos (f k)) entries)

-- A key of 64 bits whose amount is written, and fits one byte of length.
abbrev IsWritable : Ledger → List (ℕ × ℤ) → ℕ → Type 0
IsWritable f entries k =
    (k < 2 ^ 64) × (value_or_zero (lookup_entry k entries) ≡ pos (f k)) × (byte_len (f k) < 256)

word_cut : (k : ℕ) → k < 2 ^ 64 → k % 2 ^ 64 ≡ k
word_cut k h = omega arith

put_unless_zero-put_entry :
    (k n : ℕ) (entries : List (ℕ × ℤ))
    → k < 2 ^ 64
    → (n == 0) ≡ false
    → put_unless_zero (pos k) (pos n) entries ≡ put_entry k (pos n) entries
put_unless_zero-put_entry k n entries w nz =
    rw nz (ap (λ j. put_entry j (pos n) entries) (word_cut k w))

put_unless_zero-All :
    {Trie : Type 0} (ops : TrieOps Trie) (f : Ledger) (k : ℕ) (entries : List (ℕ × ℤ))
    → k < 2 ^ 64
    → All (IsEntry ops f) entries
    → All (IsEntry ops f) (put_unless_zero (pos k) (pos (f k)) entries)
unfolding put_entry
put_unless_zero-All ops f k entries w h = elim (Bool-cases (f k == 0)) [
  | inl z ↦ rw z h
  | inr nz ↦
      subst (All (IsEntry ops f)) (sym (put_unless_zero-put_entry k (f k) entries w nz))
        ((refl, w), All-remove_entry (IsEntry ops f) (IsEntry ops f) k entries (λ j v apart e. e) h)
]

decoded-All :
    {Trie : Type 0} (ops : TrieOps Trie) (f : Ledger) (keys : List ℕ) (entries : List (ℕ × ℤ))
    → All (λ k. k < 2 ^ 64) keys
    → All (IsEntry ops f) entries
    → All (IsEntry ops f) (decoded f keys entries)
unfolding decoded
decoded-All ops f [] entries ws h = h
decoded-All ops f (k ∷ keys) entries (w, ws) h =
    decoded-All ops f keys (put_unless_zero (pos k) (pos (f k)) entries) ws
      (put_unless_zero-All ops f k entries w h)

put_unless_zero-none :
    (f : Ledger) (k id : ℕ) (entries : List (ℕ × ℤ))
    → k < 2 ^ 64
    → lookup_entry id (put_unless_zero (pos k) (pos (f k)) entries) ≡ none
    → ((id ≡ k → f id ≡ 0)) × (lookup_entry id entries ≡ none)
put_unless_zero-none f k id entries w e = elim (Bool-cases (f k == 0)) [
  | inl z ↦ (λ same. ap f same ∙ (==_iff (f k) 0).0 z, rw z at e)
  | inr nz ↦
      let put : lookup_entry id (put_entry k (pos (f k)) entries) ≡ none =
        ap (lookup_entry id) (sym (put_unless_zero-put_entry k (f k) entries w nz)) ∙ e in
      let (apart, before) = lookup_entry-put_entry-none k id (pos (f k)) entries put in
      (λ same. cc (apart, (==_iff id k).1 same), before)
]

-- A key that is missing afterwards has the amount 0.
decoded-none :
    (f : Ledger) (id : ℕ) (keys : List ℕ) (entries : List (ℕ × ℤ))
    → All (λ k. k < 2 ^ 64) keys
    → lookup_entry id (decoded f keys entries) ≡ none
    → (lookup_entry id entries ≡ none) × (is_key id keys ≡ true → f id ≡ 0)
unfolding decoded is_key
decoded-none f id [] entries ws e = (e, λ h. cc)
decoded-none f id (k ∷ keys) entries (w, ws) e =
    let (before, zero_rest) =
      decoded-none f id keys (put_unless_zero (pos k) (pos (f k)) entries) ws e in
    let (zero_here, first) = put_unless_zero-none f k id entries w before in
    (
      first,
      λ h. elim (Bool-cases (id == k)) [
        | inl same ↦ zero_here ((==_iff id k).0 same)
        | inr other ↦ zero_rest (rw other at h)
      ],
    )

-- The loop over the keys is read back.
entries-Coded :
    (f : Ledger) (entries : List (ℕ × ℤ)) (keys : List ℕ) (gathered : List (ℕ × ℤ)) (w : List ℕ)
    → All (IsWritable f entries) keys
    → (w' : List ℕ) × (serialize_entries entries keys w ≡ ok w')
      × Coded (deserialize_entries (length keys) gathered) 0 (decoded f keys gathered) w w'
unfolding serialize_entries deserialize_entries decoded serialize_big_int
entries-Coded f entries [] gathered w h = (
  w,
  refl,
  (
    [],
    sym (append-nil w),
    omega arith,
    λ bb rest at. ap (λ k. ok (gathered, k)) (sym (advance_zero bb)),
  ),
)
entries-Coded f entries (k ∷ keys) gathered w ((word, value, fits), hs) =
    let w₁ : List ℕ = written k w in
    let w₂ : List ℕ = written (f k) w₁ in
    let (w', e, c) =
      entries-Coded f entries keys (put_unless_zero (pos k) (pos (f k)) gathered) w₂ hs in
    let c₂ =
      Coded-then deserialize_big_int
        (λ v bb. deserialize_entries (length keys) (put_unless_zero (pos k) v gathered) bb) 1 0
        (pos (f k)) (decoded f (k ∷ keys) gathered) w₁ w₂ w'
        (big_int-Coded (pos (f k)) w₁ w₂ fits refl) c in
    let (x, ex, lx, dx) =
      Coded-then deserialize_big_int
        (λ j bb.
          deserialize_big_int bb
          >>= (λ (v, bb'). deserialize_entries (length keys) (put_unless_zero j v gathered) bb'))
        1 1 (pos k) (decoded f (k ∷ keys) gathered) w w₁ w'
        (big_int-Coded (pos k) w w₁ (omega (arith, byte_len-le k 8 (omega arith))) refl) c₂ in
    (w', rw value e, (x, ex, omega arith, dx))
  where
    written : ℕ → List ℕ → List ℕ
    written n w = (w ++ ((length (big_bytes n) % 256) ∷ [])) ++ big_bytes n

entry-IsWritable :
    {Trie : Type 0} (ops : TrieOps Trie) (f : Ledger) (all entries : List (ℕ × ℤ))
    → ((k : ℕ) → byte_len (f k) < 256)
    → All (IsEntry ops f) all
    → ((k : ℕ) → is_key k (keys_of entries) ≡ true → is_key k (keys_of all) ≡ true)
    → All (IsEntry ops f) entries
    → All (IsWritable f all) (keys_of entries)
unfolding is_key
entry-IsWritable ops f all [] fits whole sub h = tt
entry-IsWritable ops f all ((k, v) ∷ entries) fits whole sub ((e, w), hs) = (
  (w, value, fits k),
  entry-IsWritable ops f all entries fits whole
      (λ j is. sub j (elim (Bool-cases (j == k)) [ inl s ↦ rw s refl | inr s ↦ rw s is ])) hs,
)
  where
    value : value_or_zero (lookup_entry k all) ≡ pos (f k)
    value =
        let (x, found) = keys-lookup_entry k all (sub k (rw ((==_iff k k).1 refl) refl)) in
        ap value_or_zero found ∙ (lookup_entry-All (IsEntry ops f) k x all whole found).0

uint32-Coded : (n : ℕ) (w : List ℕ) → n < 2 ^ 32 → Coded (get_uint 4) 4 n w (w ++ be_bytes 4 n)
unfolding get_uint
uint32-Coded n w h = (
  be_bytes 4 n,
  refl,
  omega (arith, length-be_bytes 4 n),
  subst (Decodes (get_uint 4) (be_bytes 4 n)) (from_be-be_bytes 4 n h) (
      Decodes-map (get_bytes 4) (from_be 0) (be_bytes 4 n) (be_bytes 4 n)
        (Decodes-get_bytes (be_bytes 4 n) 4 (length-be_bytes 4 n))),
)

module _ {Trie : Type 0} (ops : TrieOps Trie) where
  decoded-StandsFor :
      (t t₀ : TokenBalances Trie) (f : Ledger)
      → t.token_trie ≡ none
      → t₀.token_trie ≡ none
      → StandsFor ops t f
      → All (λ k. k < 2 ^ 64) (sort_keys (keys_of t.balances))
      → StandsFor ops (record t₀ { balances = decoded f (sort_keys (keys_of t.balances)) [] }) f
  decoded-StandsFor t t₀ f bare bare₀ h words = record {
    cached = decoded-All ops f (sort_keys (keys_of t.balances)) [] words tt;
    stored = λ id w e.
        let (start, zero_key) = decoded-none f id (sort_keys (keys_of t.balances)) [] words e in
        rw bare₀ (elim (Bool-cases (is_key id (keys_of t.balances))) [
          | inl listed ↦ zero_key (is_key-sort_keys id (keys_of t.balances) ∙ listed)
          | inr missing ↦ rw bare at (h.stored id w (lookup_entry-keys id t.balances missing))
        ]);
  }

  -- Balances without a trie that stand for a table of amounts of fewer than 256 bytes, with fewer than
  -- 2 ^ 32 entries of the map, are serialized with no error, whatever order the map is in, and reading
  -- the bytes into balances without a trie gives balances that stand for the same table.
  pub deserialize_token_balances-serialize_token_balances :
      (t t₀ : TokenBalances Trie) (f : Ledger) (w rest : List ℕ)
      → t.token_trie ≡ none
      → t₀.token_trie ≡ none
      → StandsFor ops t f
      → ((k : ℕ) → byte_len (f k) < 256)
      → length (keys_of t.balances) < 2 ^ 32
      → (enc : List ℕ) × (serialize_token_balances t w ≡ ok (w ++ enc))
        × (t' : TokenBalances Trie) × (deserialize_token_balances t₀ (new_byte_buffer (enc ++ rest))
            ≡ ok (t', advance (length enc) (new_byte_buffer (enc ++ rest))))
        × StandsFor ops t' f
  unfolding serialize_token_balances deserialize_token_balances
  deserialize_token_balances-serialize_token_balances t t₀ f w rest bare bare₀ h fits few =
      let writable =
        All-sort_keys (IsWritable f t.balances) (keys_of t.balances)
          (entry-IsWritable ops f t.balances t.balances fits h.cached (λ k is. is) h.cached) in
      let (w', e, c) = entries-Coded f t.balances keys [] (w ++ be_bytes 4 n) writable in
      let same : length keys ≡ n = length-sort_keys (keys_of t.balances) in
      let (x, ex, lx, dx) =
        Coded-then (get_uint 4)
          (λ num bb.
            deserialize_entries num [] bb
            >>= (λ (entries, bb'). ok (record t₀ { balances = entries }, bb')))
          4 0 n (record t₀ { balances = decoded f keys [] }) w (w ++ be_bytes 4 n) w'
          (uint32-Coded n w few)
          (Coded-map (deserialize_entries n []) (λ entries. record t₀ { balances = entries }) 0
            (decoded f keys []) (w ++ be_bytes 4 n) w' (rw same at c)) in
      (
        x,
        ap (λ m. serialize_entries t.balances keys (w ++ be_bytes 4 m)) {x = n % 2 ^ 32} {y = n}
              (omega (arith, few))
            ∙ e
            ∙ ap ok ex,
        record t₀ { balances = decoded f keys [] },
        dx (new_byte_buffer (x ++ rest)) rest (new_byte_buffer-IsAt (x ++ rest)),
        decoded-StandsFor t t₀ f bare bare₀ h (words keys writable),
      )
    where
      keys : List ℕ
      keys = sort_keys (keys_of t.balances)

      n : ℕ
      n = length (keys_of t.balances)

      words : (ks : List ℕ) → All (IsWritable f t.balances) ks → All (λ k. k < 2 ^ 64) ks
      words [] hs = tt
      words (k ∷ ks) ((word, value, short), hs) = (word, words ks hs)
