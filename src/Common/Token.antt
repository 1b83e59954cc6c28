-- ===== src/Common/Token.antt =====
-- common/token_codec.go: token names of up to 12 letters and digits as 64-bit ids. A name is the
-- list of its bytes.
use goquarkchain.Prelude.{
  ℕ, zero, suc, ◌+◌, ◌-◌, ◌*◌, ◌/◌, ◌%◌, ◌^◌, ltb, leb, if◌then◌else◌, ◌&&◌, List, [], ◌∷◌, ◌++◌,
  length, Result, ok, err, ◌>>=◌, ◌>>◌, fail_if,
}
use mathlib.Core.List.{reverse}

-- `name_too_long`, `unknown_character` and `empty_name` are panics (the last of an index).
pub data TokenError : Type 0 where
  name_too_long unknown_character empty_name too_big bad_char out_of_fuel : TokenError

abbrev pub token_base : ℕ
token_base = 36

abbrev pub token_id_max : ℕ
token_id_max = 4873763662273663091

unfoldable pub token_char_encode : ℕ → Result TokenError ℕ
token_char_encode char =
    if leb b'A' char && leb char b'Z'
    then ok (10 + (char - b'A'))
    else if leb b'0' char && leb char b'9'
    then ok (char - b'0')
    else err unknown_character

unfoldable pub token_char_decode : ℕ → Result TokenError ℕ
token_char_decode id =
    if ltb id token_base
    then if ltb id 10 then ok ((b'0' + id) % 256) else ok ((b'A' + id - 10) % 256)
    else err bad_char

-- The loop of `TokenIDEncode`; the list is what is left of the name, its last byte first.
unfoldable pub encode_loop : List ℕ → ℕ → ℕ → Result TokenError ℕ
encode_loop [] id base = ok id
encode_loop (c ∷ cs) id base = do
  d ← token_char_encode c
  encode_loop cs ((id + base * (d + 1) % 2 ^ 64) % 2 ^ 64) (base * token_base % 2 ^ 64)

unfoldable pub encode_last : List ℕ → Result TokenError ℕ
encode_last [] = err empty_name
encode_last (c ∷ cs) = do id ← token_char_encode c; encode_loop cs id token_base

unfoldable pub token_id_encode : List ℕ → Result TokenError ℕ
unfolding encode_last
token_id_encode name = fail_if (leb 13 (length name)) name_too_long >> encode_last (reverse name)

-- Both stretches of `TokenIdDecode`: a digit, then `id/36 - 1` while `id/36` is not 0.
unfoldable pub decode_loop : ℕ → ℕ → List ℕ → Result TokenError (List ℕ)
decode_loop zero id name = err out_of_fuel
decode_loop (suc fuel) id name =
    let rest = λ (t : ℕ). decode_loop fuel (id / token_base - 1) (name ++ (t ∷ [])) in
    token_char_decode (id % token_base)
    >>= (λ t. if ltb (id / token_base) 1 then ok (name ++ (t ∷ [])) else rest t)

-- No accepted id has more than 12 digits, so 12 rounds are enough.
unfoldable pub token_id_decode : ℕ → Result TokenError (List ℕ)
token_id_decode id = do
  fail_if (ltb token_id_max id) too_big
  name ← decode_loop 12 id []
  ok (reverse name)
