-- ===== src/Common/TokenCodec.antt =====
-- common/token_codec.go: names are numbers in bijective base 36, and the two functions are inverse.
use goquarkchain.Prelude.{
  ℕ, zero, suc, ◌+◌, ◌-◌, ◌*◌, ◌/◌, ◌%◌, ◌^◌, ◌<◌, ◌≤◌, ◌≡◌, refl, ap, ap₂, ◌∙◌, ◌⊎◌, inl, inr,
  false, ltb, leb, if◌then◌else◌, List, [], ◌∷◌, ◌++◌, append_assoc, length, All, length-reverse,
  All-reverse, ok, arith, Bool-cases, ltb→le, ltb→lt, le→ltb, lt→ltb,
}
use native.Mathlib.Nat.{le_trans}
use goquarkchain.Common.Token.{
  token_id_max, token_char_encode, token_char_decode, encode_loop, encode_last, token_id_encode,
  decode_loop, token_id_decode,
}
use mathlib.Core.List.{reverse, reverse-reverse}

-- A capital letter or a digit.
abbrev pub IsTokenChar : ℕ → Type 0
IsTokenChar c = ((b'A' ≤ c) × (c ≤ b'Z')) ⊎ ((b'0' ≤ c) × (c ≤ b'9'))

abbrev pub digit : ℕ → ℕ
digit c = if leb b'A' c then c - 55 else c - 48

abbrev digit_char : ℕ → ℕ
digit_char d = if ltb d 10 then 48 + d else 55 + d

-- The number of a name in bijective base 36, its last character first; 0 is the empty name.
unfoldable pub token_value : List ℕ → ℕ
token_value [] = 0
token_value (c ∷ cs) = digit c + 1 + 36 * token_value cs

encode-digit : (c : ℕ) → IsTokenChar c → token_char_encode c ≡ ok (digit c)
unfolding token_char_encode
encode-digit c (inl h) = ground arith
encode-digit c (inr h) = ground arith

decode-digit_char : (d : ℕ) → d < 36 → token_char_decode d ≡ ok (digit_char d)
unfolding token_char_decode
decode-digit_char d h = ground arith

digit_char-IsTokenChar : (d : ℕ) → d < 36 → IsTokenChar (digit_char d)
digit_char-IsTokenChar d h = elim (Bool-cases (ltb d 10)) [
  | inl small ↦ rw small (inr (omega arith, omega (arith, ltb→lt d 10 small)))
  | inr large ↦ rw large (inl (omega (arith, ltb→le d 10 large), omega arith))
]

digit-digit_char : (d : ℕ) → d < 36 → digit (digit_char d) ≡ d
digit-digit_char d h = ground arith

digit-lt : (c : ℕ) → IsTokenChar c → digit c < 36
digit-lt c (inl h) = ground arith
digit-lt c (inr h) = ground arith

digit-injective : (c d : ℕ) → IsTokenChar c → IsTokenChar d → digit c ≡ digit d → c ≡ d
digit-injective c d (inl h) (inl g) e = ground arith
digit-injective c d (inl h) (inr g) e = ground arith
digit-injective c d (inr h) (inl g) e = ground arith
digit-injective c d (inr h) (inr g) e = ground arith

-- Different names have different numbers.
token_value-injective :
    (xs ys : List ℕ)
    → All IsTokenChar xs
    → All IsTokenChar ys
    → token_value xs ≡ token_value ys
    → xs ≡ ys
unfolding token_value
token_value-injective [] [] h g e = refl
token_value-injective [] (y ∷ ys) h g e = absurd (omega arith)
token_value-injective (x ∷ xs) [] h g e = absurd (omega arith)
token_value-injective (x ∷ xs) (y ∷ ys) (h, hs) (g, gs) e =
    let same : digit x ≡ digit y = omega (arith, e, digit-lt x h, digit-lt y g) in
    ap₂ (λ u v. u ∷ v) (digit-injective x y h g same)
      (token_value-injective xs ys hs gs (omega (arith, e, same)))

-- The largest number of a name of at most n characters.
abbrev largest : ℕ → ℕ
largest zero = 0
largest (suc n) = 36 * (largest n + 1)

token_value-le : (cs : List ℕ) → All IsTokenChar cs → token_value cs ≤ largest (length cs)
unfolding token_value
token_value-le [] h = omega arith
token_value-le (c ∷ cs) (h, hs) = omega (arith, digit-lt c h, token_value-le cs hs)

largest_mono : (m n : ℕ) → m ≤ n → largest m ≤ largest n
largest_mono zero n h = omega arith
largest_mono (suc m) zero h = absurd (omega arith)
largest_mono (suc m) (suc n) h = omega (arith, largest_mono m n (omega arith))

-- Nothing wraps while the sum fits 64 bits.
encode_loop-value :
    (cs : List ℕ) (id base : ℕ)
    → All IsTokenChar cs
    → id + base * token_value cs < 2 ^ 64
    → encode_loop cs id base ≡ ok (id + base * token_value cs)
unfolding encode_loop token_value
encode_loop-value [] id base h fits = ap ok {x = id} {y = id + base * 0} (omega arith)
encode_loop-value (c ∷ []) id base (h, hs) fits = rw (encode-digit c h) (ap ok (omega arith))
encode_loop-value (c ∷ d ∷ cs) id base (h, hs) fits = rw (encode-digit c h) (
    ap₂ (encode_loop (d ∷ cs)) {x = (id + base * (digit c + 1) % 2 ^ 64) % 2 ^ 64}
      {y = id + base * (digit c + 1)} {u = base * 36 % 2 ^ 64} {v = base * 36} (omega arith)
      (omega arith)
    ∙ encode_loop-value (d ∷ cs) (id + base * (digit c + 1)) (base * 36) hs (omega arith)
    ∙ ap ok (omega arith))

-- What a stretch of decoding appends: the digits of id + 1, the last one first.
record Decoded (fuel id : ℕ) (name : List ℕ) : Type 0 where
  chars : List ℕ
  decoded : decode_loop fuel id name ≡ ok (name ++ chars)
  valued : token_value chars ≡ id + 1
  short : length chars ≤ fuel
  some_chars : 1 ≤ length chars
  valid : All IsTokenChar chars

last_digit : (f id : ℕ) (name : List ℕ) → id < 36 → Decoded (suc f) id name
unfolding decode_loop token_value
last_digit f id name h = record {
  chars = digit_char (id % 36) ∷ [];
  decoded = rw (decode-digit_char (id % 36) (omega arith), lt→ltb (id / 36) 1 (omega arith)) refl;
  valued = omega (arith, digit-digit_char (id % 36) (omega arith));
  short = omega arith;
  some_chars = omega arith;
  valid = (digit_char-IsTokenChar (id % 36) (omega arith), tt);
}

next_digit :
    (f id : ℕ) (name : List ℕ)
    → 36 ≤ id
    → Decoded f (id / 36 - 1) (name ++ (digit_char (id % 36) ∷ []))
    → Decoded (suc f) id name
unfolding decode_loop token_value
next_digit f id name h d = record {
  chars = digit_char (id % 36) ∷ d.chars;
  decoded =
      rw (decode-digit_char (id % 36) (omega arith), le→ltb (id / 36) 1 (omega arith))
        (d.decoded ∙ ap ok (append_assoc name (digit_char (id % 36) ∷ []) d.chars));
  valued = omega (arith, digit-digit_char (id % 36) (omega arith), d.valued);
  short = omega (arith, d.short);
  some_chars = omega arith;
  valid = (digit_char-IsTokenChar (id % 36) (omega arith), d.valid);
}

decode_loop-Decoded : (f id : ℕ) (name : List ℕ) → id < largest f → Decoded f id name
decode_loop-Decoded zero id name h = absurd (omega arith)
decode_loop-Decoded (suc f) id name h = elim (Bool-cases (ltb id 36)) [
  | inl small ↦ last_digit f id name (ltb→lt id 36 small)
  | inr large ↦ next_digit f id name (ltb→le id 36 large) (
      decode_loop-Decoded f (id / 36 - 1) (name ++ (digit_char (id % 36) ∷ []))
        (omega (arith, ltb→le id 36 large)))
]

-- A name that the chain can use: 1 to 12 capital letters and digits.
pub record IsTokenName (name : List ℕ) : Type 0 where
  pub some_chars : 1 ≤ length name
  pub short : length name ≤ 12
  pub valid : All IsTokenChar name

encode_last-value :
    (cs : List ℕ)
    → 1 ≤ length cs
    → length cs ≤ 12
    → All IsTokenChar cs
    → encode_last cs ≡ ok (token_value cs - 1)
unfolding encode_last
encode_last-value [] h1 h2 h = absurd (omega arith)
encode_last-value (c ∷ cs) h1 h2 (h, hs) = rw (encode-digit c h) (
    encode_loop-value cs (digit c) 36 hs (omega (arith, bound, unfolded c cs))
    ∙ ap ok (omega (arith, unfolded c cs)))
  where
    unfolded : (c : ℕ) (cs : List ℕ) → token_value (c ∷ cs) ≡ digit c + 1 + 36 * token_value cs
    unfolded c cs = unfold token_value in refl

    bound : token_value (c ∷ cs) ≤ largest 12
    bound = le_trans (token_value-le (c ∷ cs) (h, hs)) (largest_mono (length (c ∷ cs)) 12 h2)

-- The id of a name is its number in bijective base 36, less one.
encode-value :
    (name : List ℕ) → IsTokenName name → token_id_encode name ≡ ok (token_value (reverse name) - 1)
unfolding token_id_encode
encode-value name h = rw (leb_small (length name) h.short) (
    encode_last-value (reverse name) (omega (arith, length-reverse name, h.some_chars))
      (omega (arith, length-reverse name, h.short)) (All-reverse IsTokenChar name h.valid))
  where
    leb_small : (n : ℕ) → n ≤ 12 → leb 13 n ≡ false
    leb_small n p = ground arith

Decoded-IsTokenName : (id : ℕ) → (d : Decoded 12 id []) → IsTokenName (reverse d.chars)
Decoded-IsTokenName id d = record {
  some_chars = omega (arith, length-reverse d.chars, d.some_chars);
  short = omega (arith, length-reverse d.chars, d.short);
  valid = All-reverse IsTokenChar d.chars d.valid;
}

decode_small :
    (id : ℕ)
    → id ≤ token_id_max
    → (d : Decoded 12 id []) → token_id_decode id ≡ ok (reverse d.chars)
unfolding token_id_decode
decode_small id h d = rw (le→ltb token_id_max id h, d.decoded) refl

encode-Decoded : (id : ℕ) → (d : Decoded 12 id []) → token_id_encode (reverse d.chars) ≡ ok id
encode-Decoded id d =
    encode-value (reverse d.chars) (Decoded-IsTokenName id d)
    ∙ ap ok (
        ap (λ t. token_value t - 1) (reverse-reverse d.chars)
        ∙ ap (λ t. t - 1) d.valued
        ∙ omega arith)

-- Every id up to the largest decodes to a name of 1 to 12 capital letters and digits, and encoding
-- that name gives the id back.
pub encode-decode :
    (id : ℕ)
    → id ≤ token_id_max
    → (name : List ℕ) × (token_id_decode id ≡ ok name)
      × IsTokenName name
      × (token_id_encode name ≡ ok id)
encode-decode id h =
    let d = decode_loop-Decoded 12 id [] (omega arith) in
    (reverse d.chars, decode_small id h d, Decoded-IsTokenName id d, encode-Decoded id d)

token_value_pos : (cs : List ℕ) → 1 ≤ length cs → 1 ≤ token_value cs
unfolding token_value
token_value_pos [] h = absurd (omega arith)
token_value_pos (c ∷ cs) h = omega arith

-- Every name of 1 to 12 capital letters and digits encodes to an id up to the largest, and decoding
-- that id gives the name back.
pub decode-encode :
    (name : List ℕ)
    → IsTokenName name
    → (id : ℕ) × (token_id_encode name ≡ ok id)
      × (id ≤ token_id_max)
      × (token_id_decode id ≡ ok name)
decode-encode name h = (
  id,
  encode-value name h,
  small,
  decode_small id small d ∙ ap ok (ap reverse same ∙ reverse-reverse name),
)
  where
    cs : List ℕ
    cs = reverse name

    valid : All IsTokenChar cs
    valid = All-reverse IsTokenChar name h.valid

    id : ℕ
    id = token_value cs - 1

    small : id ≤ token_id_max
    small = omega (
      arith,
      token_value-le cs valid,
      largest_mono (length cs) 12 (omega (arith, length-reverse name, h.short)),
    )

    d : Decoded 12 id []
    d = decode_loop-Decoded 12 id [] (omega (arith, small))

    same : d.chars ≡ cs
    same = token_value-injective d.chars cs d.valid valid (
        omega
          (arith, d.valued, token_value_pos cs (omega (arith, length-reverse name, h.some_chars))))
