-- ===== src/Serialize/Safety.antt =====
-- serialize/: on any bytes, hostile ones too, a reader stays inside its buffer.
use goquarkchain.Prelude.{
  ℕ, zero, suc, ◌+◌, ◌-◌, ◌*◌, ◌≤◌, ◌≡◌, sym, ap, ◌∙◌, subst, Bool, true, false, Option, none, some,
  ◌∷◌, ltb, ◌==◌, if◌then◌else◌, Result, ok, ◌>>=◌, ◌>>◌, fail_if, >>=-eq-ok, arith, Bool-cases,
  inl, inr, ltb→le,
}
use goquarkchain.Prelude.Int.{pos}
use goquarkchain.Prelude.Bytes.{from_be}
use goquarkchain.Serialize.Types.{
  Tags, default_tags, Ty, uint8, uint16, uint32, uint64, uint, bool, string, byte_slice, big_int,
  uint128, uint256, byte_array, slice, array, struct, ptr, Fields, no_fields, field, El,
}
use goquarkchain.Serialize.Buffer.{
  ByteBuffer, Error, advance, remaining, get_bytes, get_uint, get_len, get_var_bytes,
}
use goquarkchain.Serialize.Reader.{
  Reader, deserialize_all, deserialize, deserialize_fields, deserialize_uint, deserialize_var_uint,
  deserialize_big_int, deserialize_fix_size_big_uint, deserialize_bool, read_bool, uint_loop,
  read_tagged,
}
use goquarkchain.Serialize.Spec.{min_size, min_fields}

-- The reader took at least `k` bytes, none of them behind the end, and changed nothing else.
pub record Took (k : ℕ) (bb bb' : ByteBuffer) : Type 0 where
  pub same_bytes : bb'.bytes ≡ bb.bytes
  pub same_size : bb'.size ≡ bb.size
  pub forward : bb.position + k ≤ bb'.position
  pub inside : bb.position ≤ bb.size → bb'.position ≤ bb'.size

abbrev pub Safe : {A : Type 0} → Reader A → ℕ → Type 0
Safe {A} read k = (bb bb' : ByteBuffer) (a : A) → read bb ≡ ok (a, bb') → Took k bb bb'

Took-trans : (j k : ℕ) (a b c : ByteBuffer) → Took j a b → Took k b c → Took (j + k) a c
Took-trans j k a b c h g = record {
  same_bytes = g.same_bytes ∙ h.same_bytes;
  same_size = g.same_size ∙ h.same_size;
  forward = omega (arith, h.forward, g.forward);
  inside = λ p. g.inside (h.inside p);
}

Took-weaken : (j k : ℕ) (a b : ByteBuffer) → k ≤ j → Took j a b → Took k a b
Took-weaken j k a b le h = record {
  same_bytes = h.same_bytes;
  same_size = h.same_size;
  forward = omega (arith, h.forward);
  inside = h.inside;
}

Took-zero : (a b : ByteBuffer) → a ≡ b → Took 0 a b
Took-zero a b e = record {
  same_bytes = ap (λ (x : ByteBuffer). x.bytes) (sym e);
  same_size = ap (λ (x : ByteBuffer). x.size) (sym e);
  forward = omega (arith, ap (λ (x : ByteBuffer). x.position) e);
  inside =
      λ p. omega (arith, ap (λ (x : ByteBuffer). x.position) e, ap (λ (x : ByteBuffer). x.size) e);
}

pub Safe-get_bytes : (n : ℕ) → Safe (get_bytes n) n
unfolding get_bytes
Safe-get_bytes n bb bb' a e = elim (Bool-cases (ltb (bb.size - bb.position) n)) [
  | inl short ↦ cc (rw short at e)
  | inr enough ↦
      let q : advance n bb ≡ bb' = cc (rw enough at e) in
      record {
        same_bytes = ap (λ (x : ByteBuffer). x.bytes) (sym q);
        same_size = ap (λ (x : ByteBuffer). x.size) (sym q);
        forward = omega (arith, ap (λ (x : ByteBuffer). x.position) q);
        inside = λ p. omega (
          arith,
          ap (λ (x : ByteBuffer). x.position) q,
          ap (λ (x : ByteBuffer). x.size) q,
          ltb→le (bb.size - bb.position) n enough,
        );
      }
]

Safe-then :
    {A B : Type 0} (f : Reader A) (g : A → Reader B) (j k : ℕ)
    → Safe f j
    → ((a : A) → Safe (g a) k)
    → Safe (λ bb. f bb >>= (λ (v, bb'). g v bb')) (j + k)
Safe-then f g j k hf hg bb bb' b e =
    let ((a, bb₁), e₁, e₂) = >>=-eq-ok (f bb) (λ (v, bb'). g v bb') e in
    Took-trans j k bb bb₁ bb' (hf bb bb₁ a e₁) (hg a bb₁ bb' b e₂)

Safe-map :
    {A B : Type 0} (f : Reader A) (g : A → B) (k : ℕ)
    → Safe f k
    → Safe (λ bb. f bb >>= (λ (v, bb'). ok (g v, bb'))) k
Safe-map f g k hf bb bb' b e =
    let ((a, bb₁), e₁, e₂) = >>=-eq-ok (f bb) (λ (v, bb'). ok (g v, bb')) e in
    subst (λ x. Took k bb x) (cc) (hf bb bb₁ a e₁)

-- A length that was read is at most what is left to read, so nothing larger is allocated.
pub get_len-bounded :
    (size n : ℕ) (bb bb' : ByteBuffer)
    → get_len size bb ≡ ok (n, bb')
    → Took size bb bb' × (1 ≤ size) × (size ≤ 4) × (n ≤ remaining bb')
unfolding get_len
get_len-bounded size n bb bb' e = elim (Bool-cases (ltb size 1)) [
  | inl bad ↦ cc (rw bad at e)
  | inr h1 ↦ elim (Bool-cases (ltb 4 size)) [
    | inl bad ↦ cc (rw (h1, bad) at e)
    | inr h4 ↦
        let ((b, bb₁), e₁, e₂) =
          >>=-eq-ok (get_bytes size bb)
            (λ (b, bb₁).
              fail_if (ltb (remaining bb₁) (from_be 0 b)) Error.length_exceeds
              >> ok (from_be 0 b, bb₁))
            (rw (h1, h4) at e) in
        elim (Bool-cases (ltb (remaining bb₁) (from_be 0 b))) [
          | inl bad ↦ cc (rw bad at e₂)
          | inr fits ↦
              let q : ◌≡◌ {A = Result Error (ℕ × ByteBuffer)} (ok (from_be 0 b, bb₁))
                  (ok (n, bb')) =
                rw fits at e₂ in
              let same : bb₁ ≡ bb' = cc in
              (
                subst (λ x. Took size bb x) same (Safe-get_bytes size bb bb₁ b e₁),
                ltb→le size 1 h1,
                ltb→le 4 size h4,
                omega (
                  arith,
                  ltb→le (remaining bb₁) (from_be 0 b) fits,
                  ap remaining same,
                  num (from_be 0 b) n bb₁ bb' q,
                ),
              )
        ]
  ]
]
  where
    num :
        (x y : ℕ) (u v : ByteBuffer)
        → ◌≡◌ {A = Result Error (ℕ × ByteBuffer)} (ok (x, u)) (ok (y, v))
        → x ≡ y
    num x y u v p = cc

Safe-get_len : (size : ℕ) → Safe (get_len size) size
Safe-get_len size bb bb' n e = (get_len-bounded size n bb bb' e).0

Safe-get_var_bytes : (size : ℕ) → Safe (get_var_bytes size) size
unfolding get_var_bytes
Safe-get_var_bytes size bb bb' a e =
    let ((n, bb₁), e₁, e₂) = >>=-eq-ok (get_len size bb) (λ (n, bb₁). get_bytes n bb₁) e in
    Took-weaken (size + n) size bb bb' (omega arith)
      (Took-trans size n bb bb₁ bb' (Safe-get_len size bb bb₁ n e₁) (Safe-get_bytes n bb₁ bb' a e₂))

Safe-deserialize_bool : Safe deserialize_bool 1
unfolding deserialize_bool
Safe-deserialize_bool bb bb' a e =
    let ((bs, bb₁), e₁, e₂) =
      >>=-eq-ok (get_bytes 1 bb) (λ (bs, bb₁). read_bool bs >>= (λ b. ok (b, bb₁))) e in
    let (b, e₃, e₄) = >>=-eq-ok (read_bool bs) (λ b. ok (b, bb₁)) e₂ in
    subst (λ x. Took 1 bb x) (cc) (Safe-get_bytes 1 bb bb₁ bs e₁)

all-Safe :
    {A : Type 0} (read : Reader A) (k n : ℕ) → Safe read k → Safe (deserialize_all read n) (n * k)
unfolding deserialize_all
all-Safe read k zero h bb bb' a e =
    Took-weaken 0 (0 * k) bb bb' (omega arith) (Took-zero bb bb' (cc))
all-Safe read k (suc n) h bb bb' a e = Took-weaken (k + n * k) (suc n * k) bb bb' (omega arith) (
    Safe-then read (λ v bb. deserialize_all read n bb >>= (λ (vs, bb'). ok (v ∷ vs, bb'))) k (n * k)
      h (λ v. Safe-map (deserialize_all read n) (λ vs. v ∷ vs) (n * k) (all-Safe read k n h)) bb bb'
      a e)

tagged-Safe :
    {A : Type 0} (b : Bool) (f : Reader A) (k : ℕ)
    → Safe f k
    → Safe (read_tagged b f) (if b then 1 else k)
tagged-Safe false f k h bb bb' a e = Safe-map f (λ v. some v) k h bb bb' a e
tagged-Safe {A} true f k h bb bb' a e =
    let ((m, bb₁), e₁, e₂) = >>=-eq-ok (get_uint 1 bb) after e in
    elim (Bool-cases (m == 0)) [
      | inl nil ↦
          subst (λ x. Took 1 bb x) (same_buffer bb₁ bb' none a (rw nil at e₂)) (marker bb bb₁ m e₁)
      | inr full ↦ Took-weaken (1 + k) 1 bb bb' (omega arith) (
          Took-trans 1 k bb bb₁ bb' (marker bb bb₁ m e₁)
            (Safe-map f (λ v. some v) k h bb₁ bb' a (rw full at e₂)))
    ]
  where
    after : ℕ × ByteBuffer → Result Error (Option A × ByteBuffer)
    after p = if p.0 == 0 then ok (none, p.1) else f p.1 >>= (λ (v, bb''). ok (some v, bb''))

    same_buffer :
        (u v : ByteBuffer) (x y : Option A)
        → ◌≡◌ {A = Result Error (Option A × ByteBuffer)} (ok (x, u)) (ok (y, v))
        → u ≡ v
    same_buffer u v x y p = cc

    marker : Safe (get_uint 1) 1
    marker = unfold get_uint in Safe-map (get_bytes 1) (from_be 0) 1 (Safe-get_bytes 1)

mutual
  unfolding deserialize deserialize_uint deserialize_var_uint deserialize_big_int
      deserialize_fix_size_big_uint

  type-Safe : (t : Ty) (tags : Tags) → Safe (deserialize t tags) (min_size t tags)
  type-Safe uint8 tags = Safe-map (get_bytes 1) (uint_loop 0) 1 (Safe-get_bytes 1)
  type-Safe uint16 tags = Safe-map (get_bytes 2) (uint_loop 0) 2 (Safe-get_bytes 2)
  type-Safe uint32 tags = Safe-map (get_bytes 4) (uint_loop 0) 4 (Safe-get_bytes 4)
  type-Safe uint64 tags = Safe-map (get_bytes 8) (uint_loop 0) 8 (Safe-get_bytes 8)
  type-Safe uint tags = Safe-map (get_var_bytes 1) (uint_loop 0) 1 (Safe-get_var_bytes 1)
  type-Safe bool tags = Safe-deserialize_bool
  type-Safe string tags = Safe-get_var_bytes 4
  type-Safe byte_slice tags = Safe-get_var_bytes tags.byte_size
  type-Safe big_int tags =
      Safe-map (get_var_bytes 1) (λ bs. pos (from_be 0 bs)) 1 (Safe-get_var_bytes 1)
  type-Safe uint128 tags =
      Safe-map (get_bytes 16) (λ bs. some (pos (from_be 0 bs))) 16 (Safe-get_bytes 16)
  type-Safe uint256 tags =
      Safe-map (get_bytes 32) (λ bs. some (pos (from_be 0 bs))) 32 (Safe-get_bytes 32)
  type-Safe (byte_array n) tags = Safe-get_bytes n
  type-Safe (slice t) tags = λ bb bb' a e.
      Took-weaken (tags.byte_size + 0) tags.byte_size bb bb' (omega arith) (
        Safe-then (get_len tags.byte_size) (λ n. deserialize_all (deserialize t default_tags) n)
          tags.byte_size 0 (Safe-get_len tags.byte_size)
          (λ n b b' v e'. Took-weaken (n * min_size t default_tags) 0 b b' (omega arith) (
            all-Safe (deserialize t default_tags) (min_size t default_tags) n
              (type-Safe t default_tags) b b' v e'))
          bb bb' a e)
  type-Safe (array n t) tags =
      all-Safe (deserialize t default_tags) (min_size t default_tags) n (type-Safe t default_tags)
  type-Safe (struct fs) tags = fields-Safe fs
  type-Safe (ptr t) tags =
      tagged-Safe tags.nil_ok (deserialize t tags) (min_size t tags) (type-Safe t tags)

  fields-Safe : (fs : Fields) → Safe (deserialize_fields fs) (min_fields fs)
  fields-Safe no_fields = λ bb bb' a e. Took-zero bb bb' (cc)
  fields-Safe (field tags t fs) =
      Safe-then (deserialize t tags)
        (λ v bb. deserialize_fields fs bb >>= (λ (vs, bb'). ok ((v, vs), bb'))) (min_size t tags)
        (min_fields fs) (type-Safe t tags)
        (λ v. Safe-map (deserialize_fields fs) (λ vs. (v, vs)) (min_fields fs) (fields-Safe fs))

-- On every input, of every type, a successful read leaves the bytes and the size alone, takes at
-- least the least size of the type, and ends inside the buffer if it began there.
pub deserialize-Took :
    (t : Ty) (tags : Tags) (bb bb' : ByteBuffer) (v : El t)
    → deserialize t tags bb ≡ ok (v, bb')
    → Took (min_size t tags) bb bb'
deserialize-Took t tags bb bb' v e = type-Safe t tags bb bb' v e
