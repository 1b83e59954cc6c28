-- ===== src/Common/TokenTest.antt =====
-- Runs of common/token_codec.go.
use goquarkchain.Prelude.{ℕ, ◌≤◌, ◌≡◌, refl, List, [], ◌∷◌, ok, arith, inl}
use goquarkchain.Common.TokenCodec.{IsTokenName, encode-decode, decode-encode}
use goquarkchain.Common.Token.{
  token_id_encode, token_id_decode, token_id_max, encode_loop, decode_loop, token_char_encode,
  token_char_decode,
}

qkc : token_id_encode (b'Q' ∷ b'K' ∷ b'C' ∷ []) ≡ ok 35760
unfolding token_id_encode encode_loop token_char_encode
qkc = refl

zs :
    token_id_decode 4873763662273663091
    ≡ ok (b'Z' ∷ b'Z' ∷ b'Z' ∷ b'Z' ∷ b'Z' ∷ b'Z' ∷ b'Z' ∷ b'Z' ∷ b'Z' ∷ b'Z' ∷ b'Z' ∷ b'Z' ∷ [])
unfolding token_id_decode decode_loop token_char_decode
zs = refl

encode-decode_example :
    (name : List ℕ) × (token_id_decode 35760 ≡ ok name)
    × IsTokenName name
    × (token_id_encode name ≡ ok 35760)
encode-decode_example = encode-decode 35760 (omega arith)

abbrev qkc_name : List ℕ
qkc_name = b'Q' ∷ b'K' ∷ b'C' ∷ []

qkc-IsTokenName : IsTokenName qkc_name
qkc-IsTokenName = record {
  some_chars = omega arith;
  short = omega arith;
  valid = (
    inl (omega arith, omega arith),
    (inl (omega arith, omega arith), (inl (omega arith, omega arith), tt)),
  );
}

decode-encode_example :
    (id : ℕ) × (token_id_encode qkc_name ≡ ok id)
    × (id ≤ token_id_max)
    × (token_id_decode id ≡ ok qkc_name)
decode-encode_example = decode-encode qkc_name qkc-IsTokenName
