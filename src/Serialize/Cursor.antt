-- ===== src/Serialize/Cursor.antt =====
-- serialize/bytebuffer.go: what a reader finds at the cursor, and how readers chain.
use goquarkchain.Prelude.{
  ℕ, ◌+◌, ◌-◌, ◌≤◌, ◌<◌, ◌^◌, ◌≡◌, refl, sym, ap, ◌∙◌, List, ◌++◌, append_assoc, length, drop,
  length-append, take-length-append, drop-length-append, drop-drop, le→ltb, ok, ◌>>=◌, arith,
}
use goquarkchain.Prelude.Bytes.{be_bytes, length-be_bytes, from_be-be_bytes}
use goquarkchain.Serialize.Buffer.{
  ByteBuffer, advance, new_byte_buffer, remaining, get_bytes, get_len, get_var_bytes,
}
use goquarkchain.Serialize.Reader.{Reader}

-- The bytes from the cursor to the end are `rest`.
pub record IsAt (bb : ByteBuffer) (rest : List ℕ) : Type 0 where
  pub here : drop bb.position bb.bytes ≡ rest
  pub within : bb.position + length rest ≡ bb.size

pub new_byte_buffer-IsAt : (bs : List ℕ) → IsAt (new_byte_buffer bs) bs
unfolding new_byte_buffer
new_byte_buffer-IsAt bs = record { here = refl; within = omega arith }

pub advance-IsAt :
    (bb : ByteBuffer) (xs ys : List ℕ) → IsAt bb (xs ++ ys) → IsAt (advance (length xs) bb) ys
advance-IsAt bb xs ys h = record {
  here =
      sym (drop-drop bb.position (length xs) bb.bytes)
      ∙ ap (drop (length xs)) h.here
      ∙ drop-length-append xs ys;
  within = omega (arith, h.within, length-append xs ys);
}

pub get_bytes-IsAt :
    (bb : ByteBuffer) (xs ys : List ℕ)
    → IsAt bb (xs ++ ys)
    → get_bytes (length xs) bb ≡ ok (xs, advance (length xs) bb)
unfolding get_bytes
get_bytes-IsAt bb xs ys h =
    rw (le→ltb (bb.size - bb.position) (length xs) (omega (arith, h.within, length-append xs ys)))
      (rw (h.here, take-length-append xs ys))

pub advance-add : (m n : ℕ) (bb : ByteBuffer) → advance n (advance m bb) ≡ advance (m + n) bb
advance-add m n bb =
    ap (λ (k : ℕ). record bb { position = k }) {x = bb.position + m + n} {y = bb.position + (m + n)}
      (omega arith)

-- Wherever the reader finds `enc`, it returns `a` and moves behind it.
abbrev pub Decodes : {A : Type 0} → Reader A → List ℕ → A → Type 0
Decodes read enc a =
    (bb : ByteBuffer) (rest : List ℕ)
    → IsAt bb (enc ++ rest)
    → read bb ≡ ok (a, advance (length enc) bb)

pub Decodes-get_bytes : (xs : List ℕ) (n : ℕ) → length xs ≡ n → Decodes (get_bytes n) xs xs
Decodes-get_bytes xs n e bb rest h = rw (← e) (get_bytes-IsAt bb xs rest h)

-- One reader after another.
pub Decodes-then :
    {A B : Type 0} (f : Reader A) (g : A → Reader B) (xs ys : List ℕ) (a : A) (b : B)
    → Decodes f xs a
    → Decodes (g a) ys b
    → Decodes (λ bb. f bb >>= (λ (v, bb'). g v bb')) (xs ++ ys) b
Decodes-then f g xs ys a b hf hg bb rest h = rw (hf bb (ys ++ rest) h') (
    hg (advance (length xs) bb) rest (advance-IsAt bb xs (ys ++ rest) h')
    ∙ ap (λ k. ok (b, k)) (advance-add (length xs) (length ys) bb)
    ∙ ap (λ k. ok (b, advance k bb)) (sym (length-append xs ys)))
  where
    h' : IsAt bb (xs ++ (ys ++ rest))
    h' = rw append_assoc at h

pub Decodes-map :
    {A B : Type 0} (f : Reader A) (g : A → B) (xs : List ℕ) (a : A)
    → Decodes f xs a
    → Decodes (λ bb. f bb >>= (λ (v, bb'). ok (g v, bb'))) xs (g a)
Decodes-map f g xs a hf bb rest h = rw (hf bb rest h)

-- A length prefix is read back when at least that many bytes follow it.
pub get_len-IsAt :
    (bb : ByteBuffer) (size n : ℕ) (rest : List ℕ)
    → 1 ≤ size
    → size ≤ 4
    → n < 256 ^ size
    → n ≤ length rest
    → IsAt bb (be_bytes size n ++ rest)
    → get_len size bb ≡ ok (n, advance (length (be_bytes size n)) bb)
unfolding get_len remaining
get_len-IsAt bb size n rest h1 h4 fits more h =
    rw (le→ltb size 1 h1, le→ltb 4 size h4)
      (rw (Decodes-get_bytes (be_bytes size n) size (length-be_bytes size n) bb rest h)
        (rw (from_be-be_bytes size n fits, le→ltb _ n enough) refl))
  where
    enough : n ≤ bb.size - (bb.position + length (be_bytes size n))
    enough = omega (arith, h.within, length-append (be_bytes size n) rest)

-- A counted byte string is read back.
pub Decodes-get_var_bytes :
    (size : ℕ) (xs : List ℕ)
    → 1 ≤ size
    → size ≤ 4
    → length xs < 256 ^ size
    → Decodes (get_var_bytes size) (be_bytes size (length xs) ++ xs) xs
unfolding get_var_bytes
Decodes-get_var_bytes size xs h1 h4 fits bb rest h =
    rw (get_len-IsAt bb size (length xs) (xs ++ rest) h1 h4 fits more h') (
      get_bytes-IsAt (advance (length p) bb) xs rest (advance-IsAt bb p (xs ++ rest) h')
      ∙ ap (λ k. ok (xs, k)) (advance-add (length p) (length xs) bb)
      ∙ ap (λ k. ok (xs, advance k bb)) (sym (length-append p xs)))
  where
    p : List ℕ
    p = be_bytes size (length xs)

    h' : IsAt bb (p ++ (xs ++ rest))
    h' = rw append_assoc at h

    more : length xs ≤ length (xs ++ rest)
    more = omega (arith, length-append xs rest)
