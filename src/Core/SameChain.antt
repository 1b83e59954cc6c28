-- ===== src/Core/SameChain.antt =====
-- isSameChain of core/common.go on a chain of known parents.
use goquarkchain.Prelude.{
  ℕ, zero, suc, ◌+◌, ◌-◌, ◌%◌, ◌^◌, ◌≤◌, ◌<◌, ◌≡◌, ◌≢◌, inl, inr, sym, ap, ap₂, ◌∙◌, true, false,
  ltb, ◌==◌, ==_iff, le→ltb, ltb→le, ok, >>=-eq-ok, Bool-cases, arith,
}
use native.Mathlib.Nat.{mod-eq_of_lt}
use goquarkchain.Core.RootValidator.{Node, walk_parents, is_same_chain}

-- The headers of a chain up to the height n, with the parents that the database knows.
pub record IsChain (parent_of : ℕ → ℕ) (c : ℕ → Node) (n : ℕ) : Type 0 where
  pub numbered : (h : ℕ) → h ≤ n → (c h).number ≡ h
  pub linked : (h : ℕ) → h < n → (c (h + 1)).parent_hash ≡ (c h).hash
  pub known : (h : ℕ) → h < n → parent_of (c (h + 1)).hash ≡ (c h).hash
  pub not_empty : (h : ℕ) → h ≤ n → (c h).hash ≢ 0

==_sym : (a b : ℕ) → (a == b) ≡ (b == a)
==_sym a b = ground arith

eq_false : (a b : ℕ) → a ≢ b → (a == b) ≡ false
eq_false a b h = ground arith

ne_of : (a b : ℕ) → (a == b) ≡ false → a ≢ b
ne_of a b h e = ground arith

eq_true : (a b : ℕ) → a ≡ b → (a == b) ≡ true
eq_true a b h = ground arith

-- The hash so many parents before a hash, and so many before a block.
unfoldable pub parents_back : (ℕ → ℕ) → ℕ → ℕ → ℕ
parents_back parent_of zero hash = hash
parents_back parent_of (suc k) hash = parents_back parent_of k (parent_of hash)

unfoldable pub ancestor_hash : (ℕ → ℕ) → Node → ℕ → ℕ
unfolding parents_back
ancestor_hash parent_of block zero = block.hash
ancestor_hash parent_of block (suc k) = parents_back parent_of k block.parent_hash

-- The block as many parents back as it is lower, itself if it is at the same height.
abbrev pub IsAncestor : (ℕ → ℕ) → Node → Node → Type 0
IsAncestor parent_of longer shorter =
    (k : ℕ) × (shorter.number + k ≡ longer.number)
    × (ancestor_hash parent_of longer k ≡ shorter.hash)

walk_parents_back :
    (parent_of : ℕ → ℕ) (k hash found : ℕ)
    → walk_parents parent_of k hash ≡ ok found
    → parents_back parent_of k hash ≡ found
unfolding walk_parents parents_back
walk_parents_back parent_of zero hash found e = cc
walk_parents_back parent_of (suc k) hash found e = elim (Bool-cases (parent_of hash == 0)) [
  | inl missing ↦ cc (rw missing at e)
  | inr there ↦ walk_parents_back parent_of k (parent_of hash) found (rw there at e)
]

just_below : (l s : ℕ) → s ≤ l → s ≢ l → (s + 1) % 2 ^ 64 ≡ l → s + 1 ≡ l
just_below l s le ne e = omega arith

-- What isSameChain accepts is an ancestor.
pub is_same_chain-IsAncestor :
    (parent_of : ℕ → ℕ) (longer shorter : Node)
    → is_same_chain parent_of longer shorter ≡ ok true
    → IsAncestor parent_of longer shorter
unfolding is_same_chain ancestor_hash parents_back
is_same_chain-IsAncestor parent_of longer shorter e =
    let s = shorter.number in
    let l = longer.number in
    elim (Bool-cases (ltb l s)) [
      | inl higher ↦ cc (rw higher at e)
      | inr low ↦ elim (Bool-cases (s == l)) [
        | inl level ↦
            let found : ok (shorter.hash == longer.hash) ≡ ok true = rw (low, level) at e in
            (0, omega (arith, (==_iff s l).0 level), sym ((==_iff _ _).0 (cc)))
        | inr lower ↦ elim (Bool-cases ((s + 1) % 2 ^ 64 == l)) [
          | inl next ↦
              let found : ok (shorter.hash == longer.parent_hash) ≡ ok true =
                rw (low, lower, next) at e in
              (
                1,
                just_below l s (ltb→le l s low) (ne_of s l lower) ((==_iff _ l).0 next),
                sym ((==_iff _ _).0 (cc)),
              )
          | inr far ↦
              let (hash, walked, same) =
                >>=-eq-ok (walk_parents parent_of (l - s - 1) longer.parent_hash) _
                  (rw (low, lower, far) at e) in
              (
                suc (l - s - 1),
                omega (arith, ltb→le l s low, ne_of s l lower),
                walk_parents_back parent_of (l - s - 1) longer.parent_hash hash walked
                    ∙ (==_iff _ _).0 (cc),
              )
        ]
      ]
    ]

module _ (parent_of : ℕ → ℕ) (c : ℕ → Node) (n : ℕ) (chain : IsChain parent_of c n) where
  walk_parents-IsChain :
      (k s : ℕ) → s + k ≤ n → walk_parents parent_of k (c (s + k)).hash ≡ ok (c s).hash
  unfolding walk_parents
  walk_parents-IsChain zero s le = ap (λ t. ok (c t).hash) {x = s + 0} {y = s} (omega arith)
  walk_parents-IsChain (suc k) s le =
      let at : (c (s + suc k)).hash ≡ (c (s + k + 1)).hash =
        ap (λ t. (c t).hash) {x = s + suc k} {y = s + k + 1} (omega arith) in
      let parent : parent_of (c (s + suc k)).hash ≡ (c (s + k)).hash =
        ap parent_of at ∙ chain.known (s + k) (omega arith) in
      let some_parent : ((c (s + k)).hash == 0) ≡ false =
        eq_false _ 0 (chain.not_empty (s + k) (omega arith)) in
      rw (parent, some_parent) (walk_parents-IsChain k s (omega arith))

  -- Asked about the top of a chain and a header that is not above it, isSameChain ends with no
  -- error, and says whether the header is the chain's at its height; the chain's headers have their
  -- heights as numbers, are linked, and are found by their hashes, which are not empty.
  pub is_same_chain-IsChain :
      (shorter : Node)
      → n < 2 ^ 64
      → shorter.number ≤ n
      → is_same_chain parent_of (c n) shorter ≡ ok (shorter.hash == (c shorter.number).hash)
  unfolding is_same_chain
  is_same_chain-IsChain shorter small below =
      let at = chain.numbered n (omega arith) in
      let s = shorter.number in
      let in_order : ltb (c n).number s ≡ false = le→ltb _ _ (omega (arith, at)) in
      elim (Bool-cases (s == n)) [
        | inl top ↦
            let eq = (==_iff s n).0 top in
            let same : (s == (c n).number) ≡ true = eq_true _ _ (omega (arith, eq, at)) in
            rw (in_order, same) (ap (λ t. ok (shorter.hash == (c t).hash)) (sym eq))
        | inr lower ↦
            let lt : s < n = ground arith in
            let other : (s == (c n).number) ≡ false =
              eq_false _ _ (λ e. absurd (omega (arith, e, lt, at))) in
            let next : (s + 1) % 2 ^ 64 ≡ s + 1 = mod-eq_of_lt (omega arith) in
            elim (Bool-cases (s + 1 == n)) [
              | inl just_below ↦
                  let eq = (==_iff (s + 1) n).0 just_below in
                  let is_next : (s + 1 == (c n).number) ≡ true =
                    eq_true _ _ (omega (arith, eq, at)) in
                  rw (in_order, other, next, is_next)
                    (ap (λ t. ok (shorter.hash == t))
                      (ap (λ t. (c t).parent_hash) (sym eq) ∙ chain.linked s lt))
              | inr far ↦
                  let not_next : (s + 1 == (c n).number) ≡ false =
                    eq_false _ _ (λ e. ne_of _ _ far (e ∙ at)) in
                  let k = n - s - 1 in
                  let parent : (c n).parent_hash ≡ (c (s + k)).hash =
                    ap (λ t. (c t).parent_hash) {x = n} {y = s + k + 1} (omega arith)
                    ∙ chain.linked (s + k) (omega arith) in
                  let walked : walk_parents parent_of ((c n).number - s - 1) (c n).parent_hash
                      ≡ ok (c s).hash =
                    ap₂ (walk_parents parent_of) {x = (c n).number - s - 1} {y = k}
                      (omega (arith, at)) parent
                    ∙ walk_parents-IsChain k s (omega arith) in
                  rw (in_order, other, next, not_next, walked)
                    (ap ok (==_sym (c s).hash shorter.hash))
            ]
      ]
