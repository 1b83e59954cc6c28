-- ===== src/Types/Entries.antt =====
-- core/types/token.go: the entries of a map of balances, and the amounts that they give.
use goquarkchain.Prelude.{
  ℕ, ◌+◌, ◌≡◌, refl, sym, ap, ap₂, ◌∙◌, subst, false, Option, none, some, List, [], ◌∷◌, All, inl,
  inr, Bool-cases, Option-cases, ◌==◌, ==_iff, if◌then◌else◌, arith,
}
use goquarkchain.Prelude.Int.{ℤ, pos, ◌+ℤ◌, pos_part}
use goquarkchain.Types.TokenBalances.{lookup_entry, remove_entry, put_entry, add_entries}

abbrev pub Ledger : Type 0
Ledger = ℕ → ℕ

abbrev pub with_amount : ℕ → ℕ → Ledger → Ledger
with_amount id amount f k = if k == id then amount else f k

abbrev pub value_or_zero : Option ℤ → ℤ
value_or_zero none = pos 0
value_or_zero (some v) = v

module _ (P : ℕ × ℤ → Type 0) where
  pub lookup_entry-All :
      (id : ℕ) (v : ℤ) (entries : List (ℕ × ℤ))
      → All P entries
      → lookup_entry id entries ≡ some v
      → P (id, v)
  unfolding lookup_entry
  lookup_entry-All id v [] h e = cc
  lookup_entry-All id v ((k, w) ∷ entries) (p, hs) e = elim (Bool-cases (id == k)) [
    | inl same ↦
        let one : some w ≡ some v = rw same at e in
        let eq : w ≡ v = cc in
        subst (λ x. P (x, v)) (sym ((==_iff id k).0 same)) (subst (λ x. P (k, x)) eq p)
    | inr other ↦ lookup_entry-All id v entries hs (rw other at e)
  ]

  pub All-remove_entry :
      (Q : ℕ × ℤ → Type 0) (id : ℕ) (entries : List (ℕ × ℤ))
      → ((k : ℕ) (v : ℤ) → (id == k) ≡ false → P (k, v) → Q (k, v))
      → All P entries
      → All Q (remove_entry id entries)
  unfolding remove_entry
  All-remove_entry Q id [] step h = tt
  All-remove_entry Q id ((k, v) ∷ entries) step (p, hs) = elim (Bool-cases (id == k)) [
    | inl same ↦ rw (same, remove_entry) (All-remove_entry Q id entries step hs)
    | inr other ↦ rw (other, remove_entry) (step k v other p, All-remove_entry Q id entries step hs)
  ]

-- What has no entry after another one was put had none before.
pub lookup_entry-remove_entry :
    (id k : ℕ) (entries : List (ℕ × ℤ))
    → (k == id) ≡ false
    → lookup_entry k (remove_entry id entries) ≡ lookup_entry k entries
unfolding lookup_entry remove_entry
lookup_entry-remove_entry id k [] h = refl
lookup_entry-remove_entry id k ((j, v) ∷ entries) h = elim (Bool-cases (id == j)) [
  | inl same ↦
      let apart : (k == j) ≡ false = ground arith in
      rw (same, apart) (lookup_entry-remove_entry id k entries h)
  | inr other ↦ elim (Bool-cases (k == j)) [
    | inl mine ↦ rw (other, mine) refl
    | inr theirs ↦ rw (other, theirs) (lookup_entry-remove_entry id k entries h)
  ]
]

pub lookup_entry-put_entry-none :
    (id k : ℕ) (amount : ℤ) (entries : List (ℕ × ℤ))
    → lookup_entry k (put_entry id amount entries) ≡ none
    → ((k == id) ≡ false) × (lookup_entry k entries ≡ none)
unfolding lookup_entry put_entry
lookup_entry-put_entry-none id k amount entries e = elim (Bool-cases (k == id)) [
  | inl same ↦ cc (rw same at e)
  | inr other ↦ (other, sym (lookup_entry-remove_entry id k entries other) ∙ rw other at e)
]

-- What the amounts by token of a map are.
abbrev pub Amounts : List (ℕ × ℤ) → (ℕ → ℕ) → Type 0
Amounts entries f = (id : ℕ) → value_or_zero (lookup_entry id entries) ≡ pos (f id)

-- No token stands twice.
abbrev pub HasDistinctTokens : List (ℕ × ℤ) → Type 0
HasDistinctTokens [] = Unit {0}
HasDistinctTokens ((k, v) ∷ entries) = (lookup_entry k entries ≡ none) × HasDistinctTokens entries

pub lookup_entry-put_entry :
    (id k : ℕ) (v : ℤ) (entries : List (ℕ × ℤ))
    → lookup_entry id (put_entry k v entries)
      ≡ (if id == k then some v else lookup_entry id entries)
unfolding lookup_entry put_entry
lookup_entry-put_entry id k v entries = elim (Bool-cases (id == k)) [
  | inl same ↦ rw same refl
  | inr other ↦ rw other (lookup_entry-remove_entry k id entries other)
]

pub pos_add : (a b : ℕ) → pos a +ℤ pos b ≡ pos (b + a)
unfolding ◌+ℤ◌
pos_add a b = ground arith

-- A map with one token set.
pub put_entry-Amounts :
    (entries : List (ℕ × ℤ)) (f : ℕ → ℕ) (k n : ℕ)
    → Amounts entries f
    → Amounts (put_entry k (pos n) entries) (with_amount k n f)
put_entry-Amounts entries f k n h id =
    ap value_or_zero (lookup_entry-put_entry id k (pos n) entries)
    ∙ elim (Bool-cases (id == k)) [ inl same ↦ rw same refl | inr other ↦ rw other (h id) ]

add_one :
    (k : ℕ) (v : ℤ) (balances : List (ℕ × ℤ)) (f : ℕ → ℕ) (n : ℕ)
    → v ≡ pos n
    → Amounts balances f
    → Amounts (add_entries ((k, v) ∷ []) balances) (with_amount k (f k + n) f)
unfolding add_entries
add_one k v balances f n e h = elim (Option-cases (lookup_entry k balances)) [
  | inl missing ↦
      let zero_k : 0 ≡ f k =
        ap pos_part {x = pos 0} {y = pos (f k)} (ap value_or_zero (sym missing) ∙ h k) in
      let same : v ≡ pos (f k + n) = e ∙ ap pos {x = n} {y = f k + n} (omega (arith, zero_k)) in
      rw (missing, add_entries)
        (subst (λ x. Amounts (put_entry k x balances) (with_amount k (f k + n) f)) (sym same)
          (put_entry-Amounts balances f k (f k + n) h))
  | inr (old, found) ↦
      let old_k : old ≡ pos (f k) = ap value_or_zero (sym found) ∙ h k in
      let same : v +ℤ old ≡ pos (f k + n) = ap₂ (λ a b. a +ℤ b) e old_k ∙ pos_add n (f k) in
      rw (found, add_entries)
        (subst (λ x. Amounts (put_entry k x balances) (with_amount k (f k + n) f)) (sym same)
          (put_entry-Amounts balances f k (f k + n) h))
]

add_entries_first :
    (k : ℕ) (v : ℤ) (other balances : List (ℕ × ℤ))
    → add_entries ((k, v) ∷ other) balances ≡ add_entries other (add_entries ((k, v) ∷ []) balances)
unfolding add_entries
add_entries_first k v other balances = elim (Option-cases (lookup_entry k balances)) [
  | inl missing ↦ rw (missing, add_entries) refl
  | inr (old, found) ↦ rw (found, add_entries) refl
]

pub lookup_entry_first :
    (k : ℕ) (v : ℤ) (entries : List (ℕ × ℤ)) → lookup_entry k ((k, v) ∷ entries) ≡ some v
unfolding lookup_entry
lookup_entry_first k v entries = rw ((==_iff k k).1 refl) refl

pub lookup_entry_apart :
    (j k : ℕ) (v : ℤ) (entries : List (ℕ × ℤ))
    → (j == k) ≡ false
    → lookup_entry j ((k, v) ∷ entries) ≡ lookup_entry j entries
unfolding lookup_entry
lookup_entry_apart j k v entries h = rw h refl

-- Adding a map adds the amounts of every token.
pub add_entries-Amounts :
    (other balances : List (ℕ × ℤ)) (f g : ℕ → ℕ)
    → HasDistinctTokens other
    → Amounts other g
    → Amounts balances f
    → Amounts (add_entries other balances) (λ id. f id + g id)
unfolding add_entries lookup_entry
add_entries-Amounts [] balances f g d hg hf id =
    hf id ∙ ap pos {x = f id} {y = f id + g id} (omega (arith, ap pos_part (hg id)))
add_entries-Amounts ((k, v) ∷ other) balances f g (fresh, d) hg hf id =
    ap (λ x. value_or_zero (lookup_entry id x)) (add_entries_first k v other balances)
    ∙ add_entries-Amounts other (add_entries ((k, v) ∷ []) balances) (with_amount k (f k + g k) f)
        (with_amount k 0 g) d rest (add_one k v balances f (g k) here hf) id
    ∙ elim (Bool-cases (id == k)) [
      | inl same ↦
          let one : id ≡ k = (==_iff id k).0 same in
          rw same (ap pos {x = f k + g k + 0} {y = f id + g id} (omega (arith, ap f one, ap g one)))
      | inr apart ↦ rw apart refl
    ]
  where
    here : v ≡ pos (g k)
    here = ap value_or_zero (sym (lookup_entry_first k v other)) ∙ hg k

    rest : Amounts other (with_amount k 0 g)
    rest j = elim (Bool-cases (j == k)) [
      | inl same ↦ rw same (
          ap (λ x. value_or_zero (lookup_entry x other)) ((==_iff j k).0 same)
          ∙ ap value_or_zero fresh)
      | inr apart ↦ rw apart (ap value_or_zero (sym (lookup_entry_apart j k v other apart)) ∙ hg j)
    ]

removed-none : (k : ℕ) (entries : List (ℕ × ℤ)) → lookup_entry k (remove_entry k entries) ≡ none
unfolding lookup_entry remove_entry
removed-none k [] = refl
removed-none k ((j, v) ∷ entries) = elim (Bool-cases (k == j)) [
  | inl same ↦ rw same (removed-none k entries)
  | inr apart ↦
      rw apart (lookup_entry_apart k j v (remove_entry k entries) apart ∙ removed-none k entries)
]

remove_entry-none :
    (k id : ℕ) (entries : List (ℕ × ℤ))
    → lookup_entry id entries ≡ none
    → lookup_entry id (remove_entry k entries) ≡ none
remove_entry-none k id entries e = elim (Bool-cases (id == k)) [
  | inl same ↦
      ap (λ x. lookup_entry x (remove_entry k entries)) ((==_iff id k).0 same)
      ∙ removed-none k entries
  | inr apart ↦ lookup_entry-remove_entry k id entries apart ∙ e
]

remove_entry-HasDistinctTokens :
    (k : ℕ) (entries : List (ℕ × ℤ))
    → HasDistinctTokens entries
    → HasDistinctTokens (remove_entry k entries)
unfolding remove_entry
remove_entry-HasDistinctTokens k [] d = tt
remove_entry-HasDistinctTokens k ((j, v) ∷ entries) (fresh, d) = elim (Bool-cases (k == j)) [
  | inl same ↦ rw (same, remove_entry) (remove_entry-HasDistinctTokens k entries d)
  | inr apart ↦
      rw (apart, remove_entry)
        (remove_entry-none k j entries fresh, remove_entry-HasDistinctTokens k entries d)
]

put_entry-HasDistinctTokens :
    (k : ℕ) (v : ℤ) (entries : List (ℕ × ℤ))
    → HasDistinctTokens entries
    → HasDistinctTokens (put_entry k v entries)
unfolding put_entry
put_entry-HasDistinctTokens k v entries d =
    (removed-none k entries, remove_entry-HasDistinctTokens k entries d)

pub add_entries-HasDistinctTokens :
    (other balances : List (ℕ × ℤ))
    → HasDistinctTokens balances
    → HasDistinctTokens (add_entries other balances)
unfolding add_entries
add_entries-HasDistinctTokens [] balances d = d
add_entries-HasDistinctTokens ((k, v) ∷ other) balances d =
    elim (Option-cases (lookup_entry k balances)) [
      | inl missing ↦
          rw (missing, add_entries)
            (add_entries-HasDistinctTokens other (put_entry k v balances)
              (put_entry-HasDistinctTokens k v balances d))
      | inr (old, found) ↦
          rw (found, add_entries)
            (add_entries-HasDistinctTokens other (put_entry k (v +ℤ old) balances)
              (put_entry-HasDistinctTokens k (v +ℤ old) balances d))
    ]
