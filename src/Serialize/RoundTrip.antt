-- ===== src/Serialize/RoundTrip.antt =====
-- serialize/: what `Serialize` wrote, `Deserialize` reads back, for every type.
use goquarkchain.Prelude.{
  ℕ, suc, ◌+◌, ◌*◌, ◌≤◌, ◌<◌, ◌^◌, ◌≡◌, refl, sym, ap, ◌∙◌, Bool, true, false, Option, none, some,
  List, [], ◌∷◌, ◌++◌, append-nil, append_assoc, map, length, length-append, All, ◌==◌,
  if◌then◌else◌, Result, ok, ◌>>=◌, >>=-eq-ok, arith,
}
use goquarkchain.Prelude.Bytes.{be_bytes, length-be_bytes}
use goquarkchain.Serialize.Types.{
  Tags, default_tags, Ty, uint8, uint16, uint32, uint64, uint, bool, string, byte_slice, big_int,
  uint128, uint256, byte_array, slice, array, struct, ptr, Fields, no_fields, field, El, ElFields,
  zero_value, is_serializable,
}
use goquarkchain.Serialize.Buffer.{ByteBuffer, Error, advance, get_bytes, get_uint, get_len}
use goquarkchain.Serialize.Writer.{
  Writer, write_list_len, serialize_all, serialize, serialize_fields,
}
use goquarkchain.Serialize.Reader.{
  Reader, deserialize_all, read_tagged, deserialize, deserialize_fields,
}
use goquarkchain.Serialize.Cursor.{
  IsAt, Decodes-get_bytes, Decodes-then, Decodes-map, get_len-IsAt, advance-IsAt, advance-add,
}
use goquarkchain.Serialize.Spec.{
  Coded, min_size, min_fields, Fits, FitsFields, settle, settle_fields,
}
use goquarkchain.Serialize.Scalars.{
  uint-Coded, big_int-Coded, var_uint-Coded, bool-Coded, string-Coded,
}
use goquarkchain.Serialize.Prefix.{write_list_len-ok, byte_slice-Coded, fixed-Coded}

pub advance_zero : (bb : ByteBuffer) → advance 0 bb ≡ bb
advance_zero bb =
    ap (λ (k : ℕ). record bb { position = k }) {x = bb.position + 0} {y = bb.position} (omega arith)

-- Two writers in a row against two readers in a row.
pub Coded-then :
    {A B : Type 0} (f : Reader A) (g : A → Reader B) (j k : ℕ) (a : A) (b : B) (w w₁ w₂ : List ℕ)
    → Coded f j a w w₁
    → Coded (g a) k b w₁ w₂
    → Coded (λ bb. f bb >>= (λ (v, bb'). g v bb')) (j + k) b w w₂
Coded-then f g j k a b w w₁ w₂ (x, ex, lx, dx) (y, ey, ly, dy) = (
  x ++ y,
  cc (append_assoc w x y),
  omega (arith, length-append x y),
  Decodes-then f g x y a b dx dy,
)

pub Coded-map :
    {A B : Type 0} (f : Reader A) (g : A → B) (k : ℕ) (a : A) (w w' : List ℕ)
    → Coded f k a w w'
    → Coded (λ bb. f bb >>= (λ (v, bb'). ok (g v, bb'))) k (g a) w w'
Coded-map f g k a w w' (x, ex, lx, dx) = (x, ex, lx, Decodes-map f g x a dx)

-- What `P` says of an element, its writer and its reader meet.
module _ {A : Type 0} (P : A → Type 0) (write : A → Writer) (read : Reader A) (k : ℕ) (back : A → A)
    (one : (v : A) (w w' : List ℕ) → P v → write v w ≡ ok w' → Coded read k (back v) w w') where
  pub All-Coded :
      (vs : List A) (w w' : List ℕ)
      → All P vs
      → serialize_all write vs w ≡ ok w'
      → Coded (deserialize_all read (length vs)) (length vs * k) (map back vs) w w'
  unfolding serialize_all deserialize_all
  All-Coded [] w w' h e = (
    [],
    cc (append-nil w),
    omega arith,
    λ bb rest at. ap (λ k. ok ([], k)) (sym (advance_zero bb)),
  )
  All-Coded (v ∷ vs) w w' (h, hs) e =
      let (w₁, e₁, e₂) = >>=-eq-ok (write v w) (λ u. serialize_all write vs u) e in
      let (x, ex, lx, dx) =
        Coded-then read
          (λ y bb. deserialize_all read (length vs) bb >>= (λ (ys, bb'). ok (y ∷ ys, bb'))) k
          (length vs * k) (back v) (back v ∷ map back vs) w w₁ w' (one v w w₁ h e₁)
          (Coded-map (deserialize_all read (length vs)) (λ ys. back v ∷ ys) (length vs * k)
            (map back vs) w₁ w' (All-Coded vs w₁ w' hs e₂)) in
      (x, ex, omega arith, dx)

-- A length prefix in front of the elements.
prefix-Coded :
    {A : Type 0} (g : ℕ → Reader A) (size n j : ℕ) (a : A) (w w₁ w' : List ℕ)
    → 1 ≤ size
    → size ≤ 4
    → n < 256 ^ size
    → n ≤ j
    → w₁ ≡ w ++ be_bytes size n
    → Coded (g n) j a w₁ w'
    → Coded (λ bb. get_len size bb >>= (λ (m, bb'). g m bb')) size a w w'
prefix-Coded g size n j a w w₁ w' h1 h4 fits le e₁ (x, ex, lx, dx) = (
  p ++ x,
  cc (append_assoc w p x),
  omega (arith, length-append p x, length-be_bytes size n),
  λ bb rest at.
      let at' : IsAt bb (p ++ (x ++ rest)) = rw append_assoc at at in
      rw (get_len-IsAt bb size n (x ++ rest) h1 h4 fits (omega (arith, length-append x rest)) at') (
        dx (advance (length p) bb) rest (advance-IsAt bb p (x ++ rest) at')
        ∙ ap (λ k. ok (a, k)) (advance-add (length p) (length x) bb)
        ∙ ap (λ k. ok (a, advance k bb)) (sym (length-append p x))),
)
  where
    p : List ℕ
    p = be_bytes size n

byte_array-Coded :
    (n : ℕ) (v w w' : List ℕ) → length v ≡ n → w' ≡ w ++ v → Coded (get_bytes n) n v w w'
byte_array-Coded n v w w' h e = (v, e, omega arith, Decodes-get_bytes v n h)

-- The marker byte of a field that may be nil.
read_ptr : {A : Type 0} → Reader A → Reader (Option A)
read_ptr f bb =
    get_uint 1 bb
    >>= (λ (b, bb'). if b == 0 then ok (none, bb') else f bb' >>= (λ (v, bb''). ok (some v, bb'')))

read_marker :
    (b : ℕ) (bb : ByteBuffer) (rest : List ℕ)
    → IsAt bb (b ∷ rest)
    → get_uint 1 bb ≡ ok (b, advance 1 bb)
unfolding get_uint
read_marker b bb rest h =
    rw (Decodes-get_bytes (b ∷ []) 1 refl bb rest h)
      (ap (λ k. ok (k, advance 1 bb)) {x = 0 + b} {y = b} (omega arith))

nil_ptr-Coded :
    {A : Type 0} (f : Reader A) (w w' : List ℕ)
    → w' ≡ w ++ (0 ∷ [])
    → Coded (read_ptr f) 1 none w w'
unfolding read_ptr
nil_ptr-Coded f w w' e = (0 ∷ [], e, omega arith, λ bb rest h. rw (read_marker 0 bb rest h) refl)

some_ptr-Coded :
    {A : Type 0} (f : Reader A) (k : ℕ) (a : A) (w w' : List ℕ)
    → Coded f k a (w ++ (1 ∷ [])) w'
    → Coded (read_ptr f) 1 (some a) w w'
unfolding read_ptr
some_ptr-Coded f k a w w' (x, ex, lx, dx) = (
  1 ∷ x,
  ex ∙ append_assoc w (1 ∷ []) x,
  omega arith,
  λ bb rest h. rw (read_marker 1 bb (x ++ rest) h) (
      rw (dx (advance 1 bb) rest (advance-IsAt bb (1 ∷ []) (x ++ rest) h)) (
        ap (λ k. ok (some a, k)) (advance-add 1 (length x) bb)
        ∙ ap (λ k. ok (some a, advance k bb)) {x = 1 + length x} {y = suc (length x)}
            (omega arith))),
)

tagged_nil-Coded :
    {A F : Type 0} (b : Bool) (f : Reader A) (k : ℕ) (a : A) (m : Result Error (List ℕ))
    (w w' : List ℕ)
    → (F → m ≡ ok w' → Coded f k a w w')
    → (if b then Unit {0} else F)
    → (if b then ok (w ++ (0 ∷ [])) else m) ≡ ok w'
    → Coded (read_tagged b f) (if b then 1 else k) (if b then none else some a) w w'
unfolding read_ptr
tagged_nil-Coded true f k a m w w' one h e = nil_ptr-Coded f w w' (cc)
tagged_nil-Coded false f k a m w w' one h e = Coded-map f (λ v. some v) k a w w' (one h e)

tagged_some-Coded :
    {A : Type 0} (b : Bool) (f : Reader A) (k : ℕ) (a : A) (w w' : List ℕ)
    → Coded f k a (if b then w ++ (1 ∷ []) else w) w'
    → Coded (read_tagged b f) (if b then 1 else k) (some a) w w'
unfolding read_ptr
tagged_some-Coded true f k a w w' c = some_ptr-Coded f k a w w' c
tagged_some-Coded false f k a w w' c = Coded-map f (λ v. some v) k a w w' c

mutual
  unfolding serialize deserialize

  pub serialize-Coded :
      (t : Ty) (tags : Tags) (addr : Bool) (v : El t) (w w' : List ℕ)
      → Fits t tags v
      → serialize t tags addr v w ≡ ok w'
      → Coded (deserialize t tags) (min_size t tags) (settle t tags v) w w'
  serialize-Coded uint8 tags addr v w w' h e = uint-Coded 1 v w w' h (omega arith) (cc)
  serialize-Coded uint16 tags addr v w w' h e = uint-Coded 2 v w w' h (omega arith) (cc)
  serialize-Coded uint32 tags addr v w w' h e = uint-Coded 4 v w w' h (omega arith) (cc)
  serialize-Coded uint64 tags addr v w w' h e = uint-Coded 8 v w w' h (omega arith) (cc)
  serialize-Coded uint tags addr v w w' h e = var_uint-Coded v w w' h e
  serialize-Coded bool tags addr v w w' h e = bool-Coded v w w' e
  serialize-Coded string tags addr v w w' h e = string-Coded v w w' h e
  serialize-Coded byte_slice tags addr v w w' h e = byte_slice-Coded v tags w w' h e
  serialize-Coded big_int tags addr v w w' h e = big_int-Coded v w w' h e
  serialize-Coded uint128 tags true v w w' h e = fixed-Coded v 16 w w' e
  serialize-Coded uint128 tags false v w w' h e = cc
  serialize-Coded uint256 tags true v w w' h e = fixed-Coded v 32 w w' e
  serialize-Coded uint256 tags false v w w' h e = cc
  serialize-Coded (byte_array n) tags addr v w w' h e = byte_array-Coded n v w w' h (cc)
  serialize-Coded (slice t) tags addr v w w' ((h1, h4), solid, hs) e =
      let (w₁, e₁, e₂) =
        >>=-eq-ok (write_list_len (length v) tags.byte_size w)
          (λ u. serialize_all (serialize t default_tags true) v u) e in
      let (fits, a) = write_list_len-ok (length v) tags.byte_size w w₁ e₁ in
      prefix-Coded (λ n. deserialize_all (deserialize t default_tags) n) tags.byte_size (length v)
        (length v * min_size t default_tags) (settle (slice t) tags v) w w₁ w' h1 h4 fits
        (grind arith) a
        (All-Coded (λ x. Fits t default_tags x) (serialize t default_tags true)
          (deserialize t default_tags) (min_size t default_tags) (settle t default_tags)
          (serialize-Coded t default_tags true) v w₁ w' hs e₂)
  serialize-Coded (array n t) tags addr v w w' (len, hs) e = rw (← len) (
      All-Coded (λ x. Fits t default_tags x) (serialize t default_tags addr)
        (deserialize t default_tags) (min_size t default_tags) (settle t default_tags)
        (serialize-Coded t default_tags addr) v w w' hs e)
  serialize-Coded (struct fs) tags addr v w w' h e = fields-Coded fs addr v w w' h e
  serialize-Coded (ptr t) tags addr none w w' h e =
      tagged_nil-Coded tags.nil_ok (deserialize t tags) (min_size t tags)
        (settle t tags (zero_value t)) (serialize t tags (is_serializable t) (zero_value t) w) w w'
        (serialize-Coded t tags (is_serializable t) (zero_value t) w w') h e
  serialize-Coded (ptr t) tags addr (some v) w w' h e =
      tagged_some-Coded tags.nil_ok (deserialize t tags) (min_size t tags) (settle t tags v) w w'
        (serialize-Coded t tags true v (if tags.nil_ok then w ++ (1 ∷ []) else w) w' h e)

  fields-Coded :
      (fs : Fields) (addr : Bool) (v : ElFields fs) (w w' : List ℕ)
      → FitsFields fs v
      → serialize_fields fs addr v w ≡ ok w'
      → Coded (deserialize_fields fs) (min_fields fs) (settle_fields fs v) w w'
  fields-Coded no_fields addr v w w' h e = (
    [],
    cc (append-nil w),
    omega arith,
    λ bb rest at. ap (λ k. ok (tt, k)) (sym (advance_zero bb)),
  )
  fields-Coded (field tags t fs) addr (v, vs) w w' (h, hs) e =
      let (w₁, e₁, e₂) =
        >>=-eq-ok (serialize t tags addr v w) (λ u. serialize_fields fs addr vs u) e in
      Coded-then (deserialize t tags)
        (λ y bb. deserialize_fields fs bb >>= (λ (ys, bb'). ok ((y, ys), bb'))) (min_size t tags)
        (min_fields fs) (settle t tags v) (settle t tags v, settle_fields fs vs) w w₁ w'
        (serialize-Coded t tags addr v w w₁ h e₁)
        (Coded-map (deserialize_fields fs) (λ ys. (settle t tags v, ys)) (min_fields fs)
          (settle_fields fs vs) w₁ w' (fields-Coded fs addr vs w₁ w' hs e₂))
