-- ===== src/Serialize/Totality.antt =====
-- serialize/: what is accepted is written, and then read back.
use goquarkchain.Prelude.{
  ℕ, ◌≤◌, ◌≡◌, refl, Bool, true, false, none, some, List, [], ◌∷◌, ◌++◌, length, All, if◌then◌else◌,
  Result, ok, ◌>>=◌, ◌∙◌, ap,
}
use goquarkchain.Prelude.Int.{pos, negsuc}
use goquarkchain.Serialize.Types.{
  Tags, default_tags, Ty, uint8, uint16, uint32, uint64, uint, bool, string, byte_slice, big_int,
  uint128, uint256, byte_array, slice, array, struct, ptr, Fields, no_fields, field, El, ElFields,
  zero_value, is_serializable,
}
use goquarkchain.Serialize.Buffer.{Error, advance, new_byte_buffer}
use goquarkchain.Serialize.Writer.{
  Writer, write_list_len, serialize_byte_slice, serialize_big_int, serialize_bool, serialize_string,
  serialize_all, serialize, serialize_fields,
}
use goquarkchain.Serialize.Reader.{deserialize}
use goquarkchain.Serialize.Cursor.{new_byte_buffer-IsAt}
use goquarkchain.Serialize.Spec.{Fits, Accepts, AcceptsFields, min_size, settle}
use goquarkchain.Serialize.Prefix.{write_list_len-fits, fixed-fits}
use goquarkchain.Serialize.RoundTrip.{serialize-Coded}

-- The writer succeeds.
abbrev Writes : Result Error (List ℕ) → Type 0
Writes r = (w' : List ℕ) × (r ≡ ok w')

Writes-then :
    (m : Result Error (List ℕ)) (f : List ℕ → Result Error (List ℕ))
    → Writes m
    → ((w : List ℕ) → Writes (f w))
    → Writes (m >>= f)
Writes-then m f (w, e) h = rw e (h w)

module _ {A : Type 0} (P : A → Type 0) (write : A → Writer)
    (one : (v : A) (w : List ℕ) → P v → Writes (write v w)) where
  All-Writes : (vs : List A) (w : List ℕ) → All P vs → Writes (serialize_all write vs w)
  unfolding serialize_all
  All-Writes [] w h = (w, refl)
  All-Writes (v ∷ vs) w (h, hs) =
      Writes-then (write v w) (λ u. serialize_all write vs u) (one v w h) (λ u. All-Writes vs u hs)

nil-Writes :
    {F : Type 0} (b : Bool) (w : List ℕ) (m : Result Error (List ℕ))
    → (F → Writes m)
    → (if b then Unit {0} else F)
    → Writes (if b then ok w else m)
nil-Writes true w m f h = (w, refl)
nil-Writes false w m f h = f h

mutual
  unfolding serialize serialize_big_int serialize_bool serialize_string serialize_byte_slice

  serialize-Writes :
      (t : Ty) (tags : Tags) (addr : Bool) (v : El t) (w : List ℕ)
      → Accepts t tags addr v
      → Writes (serialize t tags addr v w)
  serialize-Writes uint8 tags addr v w h = (_, refl)
  serialize-Writes uint16 tags addr v w h = (_, refl)
  serialize-Writes uint32 tags addr v w h = (_, refl)
  serialize-Writes uint64 tags addr v w h = (_, refl)
  serialize-Writes uint tags addr v w h = (_, refl)
  serialize-Writes bool tags addr v w h = (_, refl)
  serialize-Writes string tags addr v w h = (_, refl)
  serialize-Writes byte_slice tags addr v w h =
      Writes-then (write_list_len (length v) tags.byte_size w) (λ u. ok (u ++ v))
        (write_list_len-fits (length v) tags.byte_size w h) (λ u. (u ++ v, refl))
  serialize-Writes big_int tags addr (pos n) w h = (_, refl)
  serialize-Writes big_int tags addr (negsuc n) w h = absurd h
  serialize-Writes uint128 tags true v w h = fixed-fits v 16 w h.1
  serialize-Writes uint128 tags false v w h = cc
  serialize-Writes uint256 tags true v w h = fixed-fits v 32 w h.1
  serialize-Writes uint256 tags false v w h = cc
  serialize-Writes (byte_array n) tags addr v w h = (_, refl)
  serialize-Writes (slice t) tags addr v w (fits, hs) =
      Writes-then (write_list_len (length v) tags.byte_size w)
        (λ u. serialize_all (serialize t default_tags true) v u)
        (write_list_len-fits (length v) tags.byte_size w fits)
        (λ u.
          All-Writes (λ x. Accepts t default_tags true x) (serialize t default_tags true)
            (serialize-Writes t default_tags true) v u hs)
  serialize-Writes (array n t) tags addr v w hs =
      All-Writes (λ x. Accepts t default_tags addr x) (serialize t default_tags addr)
        (serialize-Writes t default_tags addr) v w hs
  serialize-Writes (struct fs) tags addr v w h = fields-Writes fs addr v w h
  serialize-Writes (ptr t) tags addr none w h =
      nil-Writes tags.nil_ok (w ++ (0 ∷ [])) (serialize t tags (is_serializable t) (zero_value t) w)
        (serialize-Writes t tags (is_serializable t) (zero_value t) w) h
  serialize-Writes (ptr t) tags addr (some v) w h =
      serialize-Writes t tags true v (if tags.nil_ok then w ++ (1 ∷ []) else w) h

  fields-Writes :
      (fs : Fields) (addr : Bool) (v : ElFields fs) (w : List ℕ)
      → AcceptsFields fs addr v
      → Writes (serialize_fields fs addr v w)
  fields-Writes no_fields addr v w h = (w, refl)
  fields-Writes (field tags t fs) addr (v, vs) w (h, hs) =
      Writes-then (serialize t tags addr v w) (λ u. serialize_fields fs addr vs u)
        (serialize-Writes t tags addr v w h) (λ u. fields-Writes fs addr vs u hs)

-- For every type, a value that the writer accepts and that fits its type (words of their width, texts
-- and big numbers whose lengths fit, arrays of their length, prefixes of 1 to 4 bytes, and slices of
-- elements whose least encoding is at least one byte) is appended to what was written before, and
-- the reader, at its first byte and with anything behind it, returns the settled value and stops
-- right behind it. Settled, a value is itself, but for an unmarked nil pointer, which comes back as a
-- pointer to zero, and a `Value` of a fixed size, which comes back as 0 when nil and without its sign
-- when negative.
pub deserialize-serialize :
    (t : Ty) (tags : Tags) (addr : Bool) (v : El t) (w rest : List ℕ)
    → Accepts t tags addr v
    → Fits t tags v
    → (enc : List ℕ) × (serialize t tags addr v w ≡ ok (w ++ enc))
      × (min_size t tags ≤ length enc)
      × (deserialize t tags (new_byte_buffer (enc ++ rest))
          ≡ ok (settle t tags v, advance (length enc) (new_byte_buffer (enc ++ rest))))
deserialize-serialize t tags addr v w rest a h =
    let (w', e) = serialize-Writes t tags addr v w a in
    let (x, ex, lx, dx) = serialize-Coded t tags addr v w w' h e in
    (x, e ∙ ap ok ex, lx, dx (new_byte_buffer (x ++ rest)) rest (new_byte_buffer-IsAt (x ++ rest)))
