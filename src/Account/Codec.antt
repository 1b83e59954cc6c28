-- ===== src/Account/Codec.antt =====
-- account/address.go: addresses as 24 bytes.
use goquarkchain.Prelude.{
  ℕ, zero, suc, [], ◌∷◌, ◌+◌, ◌^◌, ◌<◌, ◌≡◌, sym, ap, ap₂, ◌∙◌, some, ◌==◌, ==_iff, List, ◌++◌,
  take, drop, length, All, length-append, length-drop, take-length-append, drop-length-append,
  take-append-drop, arith, Bool-cases, inl, inr,
}
use goquarkchain.Prelude.Bytes.{
  be_bytes, from_be, from_be-be_bytes, length-be_bytes, IsByte, be_bytes-from_be,
}
use goquarkchain.Account.Address.{
  Address, recipient_length, full_shard_key_length, to_bytes, create_address_from_bytes,
}

-- An address that Go's types allow.
pub record IsAddress (a : Address) : Type 0 where
  pub recipient_fits : length a.recipient ≡ 20
  pub key_fits : a.full_shard_key < 2 ^ 32

-- Reading back the bytes of an address gives the address.
pub create_address_from_bytes-to_bytes :
    (a : Address) → IsAddress a → create_address_from_bytes (to_bytes a) ≡ some a
unfolding create_address_from_bytes to_bytes
create_address_from_bytes-to_bytes a h = rw ((==_iff _ _).1 long) (
    ap some (
      ap₂ (λ (r : List ℕ) (k : ℕ). record { recipient = r; full_shard_key = k })
        (ap (λ n. take n (a.recipient ++ key)) (sym h.recipient_fits)
          ∙ take-length-append a.recipient key)
        (ap (λ n. from_be 0 (drop n (a.recipient ++ key))) (sym h.recipient_fits)
          ∙ ap (from_be 0) (drop-length-append a.recipient key)
          ∙ from_be-be_bytes 4 a.full_shard_key h.key_fits)))
  where
    key : List ℕ
    key = be_bytes 4 a.full_shard_key

    long : length (a.recipient ++ key) ≡ 24
    long =
        omega (
          arith,
          length-append a.recipient key,
          length-be_bytes 4 a.full_shard_key,
          h.recipient_fits,
        )

All-drop : (n : ℕ) (bs : List ℕ) → All IsByte bs → All IsByte (drop n bs)
All-drop zero bs h = h
All-drop (suc n) [] h = h
All-drop (suc n) (b ∷ bs) (h, hs) = All-drop n bs hs

-- Bytes that are accepted are the bytes of the address that they give.
pub to_bytes-create_address_from_bytes :
    (bs : List ℕ) (a : Address)
    → All IsByte bs
    → create_address_from_bytes bs ≡ some a
    → to_bytes a ≡ bs
unfolding create_address_from_bytes to_bytes
to_bytes-create_address_from_bytes bs a h e =
    elim (Bool-cases (length bs == recipient_length + full_shard_key_length)) [
      | inl fits ↦
          let long : length bs ≡ 24 = (==_iff _ _).0 fits in
          let r : Address = record {
            recipient = take 20 bs;
            full_shard_key = from_be 0 (drop 20 bs);
          } in
          let same : a ≡ r = cc (rw fits at e) in
          ap (λ (x : Address). x.recipient ++ be_bytes 4 x.full_shard_key) same
          ∙ ap (λ t. take 20 bs ++ t)
              (be_bytes-from_be 4 (drop 20 bs) (omega (arith, length-drop 20 bs))
                (All-drop 20 bs h))
          ∙ take-append-drop 20 bs
      | inr bad ↦ cc (rw bad at e)
    ]
