-- ===== src/Core/Amounts.antt =====
-- compareCoinbaseAmountMap of core/minorblock_validator.go, on maps as lists of keys and values.
use goquarkchain.Prelude.{
  ℕ, ◌+◌, ◌≡◌, ◌≢◌, ◌↔◌, inl, inr, refl, sym, ap, ap₂, ◌∙◌, subst, Bool, true, false, ◌&&◌, Option,
  none, some, List, [], ◌∷◌, All, length, ◌==◌, ==_iff, if◌then◌else◌, Bool-cases, arith,
}
use goquarkchain.Core.RootValidator.{amount_of, all_in, compare_coinbase_amount_map}

abbrev pub Amounts : Type 0
Amounts = List (ℕ × ℕ)

-- No key stands twice.
abbrev pub IsMap : Amounts → Type 0
IsMap [] = Unit {0}
IsMap ((key, value) ∷ rest) = All (λ a. a.0 ≢ key) rest × IsMap rest

remove_key : ℕ → Amounts → Amounts
remove_key k [] = []
remove_key k ((key, value) ∷ rest) =
    let others = remove_key k rest in if key == k then rest else (key, value) ∷ others

ne_of : (a b : ℕ) → (a == b) ≡ false → a ≢ b
ne_of a b h e = ground arith

eq_false : (a b : ℕ) → a ≢ b → (a == b) ≡ false
eq_false a b h = ground arith

both_of : (a b : Bool) → (a && b) ≡ true → (a ≡ true) × (b ≡ true)
both_of true b h = (refl, h)
both_of false b h = cc

amount_of-none : (k : ℕ) (xs : Amounts) → All (λ a. a.0 ≢ k) xs → amount_of xs k ≡ none
unfolding amount_of
amount_of-none k [] all = refl
amount_of-none k ((key, value) ∷ rest) (apart, all) =
    let other = eq_false key k apart in rw other (amount_of-none k rest all)

remove_key-other : (k j : ℕ) (xs : Amounts) → j ≢ k → amount_of (remove_key k xs) j ≡ amount_of xs j
unfolding amount_of remove_key
remove_key-other k j [] apart = refl
remove_key-other k j ((key, value) ∷ rest) apart = elim (Bool-cases (key == k)) [
  | inl same ↦
      let eq = (==_iff key k).0 same in
      let other : (key == j) ≡ false = eq_false key j (λ e. apart (sym e ∙ eq)) in
      rw (same, other) refl
  | inr differ ↦ elim (Bool-cases (key == j)) [
    | inl here ↦ rw (differ, here) refl
    | inr there ↦ rw (differ, there) (remove_key-other k j rest apart)
  ]
]

remove_key-same : (k : ℕ) (xs : Amounts) → IsMap xs → amount_of (remove_key k xs) k ≡ none
unfolding amount_of remove_key
remove_key-same k [] is_map = refl
remove_key-same k ((key, value) ∷ rest) (apart, is_map) = elim (Bool-cases (key == k)) [
  | inl same ↦
      let eq = (==_iff key k).0 same in
      rw same (amount_of-none k rest (subst (λ t. All (λ a. a.0 ≢ t) rest) eq apart))
  | inr differ ↦ rw (differ, differ) (remove_key-same k rest is_map)
]

remove_key-All : (P : ℕ × ℕ → Type 0) (k : ℕ) (xs : Amounts) → All P xs → All P (remove_key k xs)
unfolding remove_key
remove_key-All P k [] all = tt
remove_key-All P k ((key, value) ∷ rest) (h, all) = elim (Bool-cases (key == k)) [
  | inl same ↦ rw same all
  | inr differ ↦ rw differ (h, remove_key-All P k rest all)
]

remove_key-IsMap : (k : ℕ) (xs : Amounts) → IsMap xs → IsMap (remove_key k xs)
unfolding remove_key
remove_key-IsMap k [] is_map = tt
remove_key-IsMap k ((key, value) ∷ rest) (apart, is_map) = elim (Bool-cases (key == k)) [
  | inl same ↦ rw same is_map
  | inr differ ↦
      rw differ (remove_key-All (λ a. a.0 ≢ key) k rest apart, remove_key-IsMap k rest is_map)
]

length-remove_key :
    (k v : ℕ) (xs : Amounts) → amount_of xs k ≡ some v → length (remove_key k xs) + 1 ≡ length xs
unfolding amount_of remove_key
length-remove_key k v [] found = cc
length-remove_key k v ((key, value) ∷ rest) found = elim (Bool-cases (key == k)) [
  | inl same ↦ rw same (omega arith)
  | inr differ ↦
      let ih = length-remove_key k v rest (rw differ at found) in rw differ (omega (arith, ih))
]

-- The lookup that `all_in` makes for one entry.
entry_of :
    (o : Option ℕ) (value : ℕ)
    → (elim o [ none ↦ false | some other ↦ other == value ]) ≡ true
    → o ≡ some value
entry_of none value h = cc
entry_of (some other) value h = ap some ((==_iff other value).0 h)

all_in-agree :
    (a b b' : Amounts)
    → All (λ e. amount_of b e.0 ≡ amount_of b' e.0) a
    → all_in a b ≡ true
    → all_in a b' ≡ true
unfolding all_in
all_in-agree [] b b' same h = refl
all_in-agree ((key, value) ∷ a) b b' (same, all) h =
    let (here, there) = both_of _ _ h in
    let found = entry_of (amount_of b key) value here in
    let value_same : (value == value) ≡ true = (==_iff value value).1 refl in
    rw (sym same ∙ found, value_same) (all_in-agree a b b' all there)

All-map : (P Q : ℕ × ℕ → Type 0) (f : (a : ℕ × ℕ) → P a → Q a) (xs : Amounts) → All P xs → All Q xs
All-map P Q f [] all = tt
All-map P Q f (x ∷ xs) (h, hs) = (f x h, All-map P Q f xs hs)

abbrev AreSame : Amounts → Amounts → Type 0
AreSame a b = (k : ℕ) → amount_of a k ≡ amount_of b k

same_of_all_in :
    (a b : Amounts) → IsMap a → IsMap b → length a ≡ length b → all_in a b ≡ true → AreSame a b
unfolding all_in amount_of
same_of_all_in [] [] map_a map_b len all k = refl
same_of_all_in [] (x ∷ b) map_a map_b len all k = absurd (omega arith)
same_of_all_in ((key, value) ∷ a) b (apart, map_a) map_b len all k =
    let (here, there) = both_of _ _ all in
    let found = entry_of (amount_of b key) value here in
    let left =
      all_in-agree a b (remove_key key b)
        (All-map (λ e. e.0 ≢ key) (λ e. amount_of b e.0 ≡ amount_of (remove_key key b) e.0)
          (λ e ne. sym (remove_key-other key e.0 b ne)) a apart)
        there in
    let ih =
      same_of_all_in a (remove_key key b) map_a (remove_key-IsMap key b map_b)
        (omega (arith, length-remove_key key value b found, len)) left k in
    elim (Bool-cases (key == k)) [
      | inl same ↦ let eq = (==_iff key k).0 same in rw same (sym found ∙ ap (amount_of b) eq)
      | inr differ ↦ rw differ (ih ∙ remove_key-other key k b (λ e. ne_of key k differ (sym e)))
    ]

amount_of_head : (key value : ℕ) (rest : Amounts) → amount_of ((key, value) ∷ rest) key ≡ some value
unfolding amount_of
amount_of_head key value rest =
    let here : (key == key) ≡ true = (==_iff key key).1 refl in rw here refl

amount_of_tail :
    (key value k : ℕ) (rest : Amounts)
    → k ≢ key
    → amount_of ((key, value) ∷ rest) k ≡ amount_of rest k
unfolding amount_of
amount_of_tail key value k rest apart =
    let other = eq_false key k (λ e. apart (sym e)) in rw other refl

-- Maps with the same lookups still have them without one key.
same_without :
    (key value : ℕ) (a b : Amounts)
    → IsMap ((key, value) ∷ a)
    → IsMap b
    → AreSame ((key, value) ∷ a) b
    → AreSame a (remove_key key b)
same_without key value a b (apart, map_a) map_b same k = elim (Bool-cases (k == key)) [
  | inl is_key ↦
      let eq = (==_iff k key).0 is_key in
      subst (λ t. amount_of a t ≡ amount_of (remove_key key b) t) (sym eq)
        (amount_of-none key a apart ∙ sym (remove_key-same key b map_b))
  | inr differ ↦
      let ne = ne_of k key differ in
      sym (amount_of_tail key value k a ne) ∙ same k ∙ sym (remove_key-other key k b ne)
]

all_in_of_same :
    (a b : Amounts) → IsMap a → IsMap b → AreSame a b → (length a ≡ length b) × (all_in a b ≡ true)
unfolding all_in
all_in_of_same [] [] map_a map_b same = (refl, refl)
all_in_of_same [] ((key, value) ∷ b) map_a map_b same =
    let found : none ≡ some value = same key ∙ amount_of_head key value b in cc
all_in_of_same ((key, value) ∷ a) b (apart, map_a) map_b same =
    let found : amount_of b key ≡ some value = sym (same key) ∙ amount_of_head key value a in
    let (len, all) =
      all_in_of_same a (remove_key key b) map_a (remove_key-IsMap key b map_b)
        (same_without key value a b (apart, map_a) map_b same) in
    let value_same : (value == value) ≡ true = (==_iff value value).1 refl in
    (
      omega (arith, len, length-remove_key key value b found),
      rw (found, value_same)
          (all_in-agree a (remove_key key b) b
            (All-map (λ e. e.0 ≢ key) (λ e. amount_of (remove_key key b) e.0 ≡ amount_of b e.0)
              (λ e ne. remove_key-other key e.0 b ne) a apart)
            all),
    )

-- Two coinbase amounts, as maps in which no token stands twice, compare as equal exactly when every
-- token has the same amount, or is missing, in both.
pub compare_coinbase_amount_map_iff :
    (a b : Amounts)
    → IsMap a
    → IsMap b
    → (compare_coinbase_amount_map a b ≡ true) ↔ ((k : ℕ) → amount_of a k ≡ amount_of b k)
unfolding compare_coinbase_amount_map
compare_coinbase_amount_map_iff a b map_a map_b = (
  λ h.
      let (len, all) = both_of (length a == length b) (all_in a b) h in
      same_of_all_in a b map_a map_b ((==_iff _ _).0 len) all,
  λ same.
      let (len, all) = all_in_of_same a b map_a map_b same in
      ap₂ (λ x y. x && y) ((==_iff _ _).1 len) all,
)
