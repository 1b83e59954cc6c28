-- ===== src/Serialize/Tests.antt =====
-- Runs of serialize/: a struct with a nil pointer and a list, and hostile input.
use goquarkchain.Prelude.{
  ℕ, ◌≤◌, ◌<◌, ◌^◌, ◌≡◌, refl, Bool, true, false, none, some, List, [], ◌∷◌, ◌++◌, length, Result,
  ok, err, arith,
}
use goquarkchain.Prelude.Int.{negsuc}
use goquarkchain.Prelude.Bytes.{from_be, be_bytes}
use goquarkchain.Serialize.Types.{
  Tags, default_tags, Ty, uint16, uint32, big_int, uint256, slice, struct, ptr, no_fields, field,
  El,
}
use goquarkchain.Serialize.Buffer.{
  length_exceeds, advance, remaining, new_byte_buffer, get_bytes, get_len,
}
use goquarkchain.Serialize.Writer.{serialize, write_list_len, list_len_loop}
use goquarkchain.Serialize.Reader.{deserialize, deserialize_uint, uint_loop}
use goquarkchain.Serialize.Spec.{min_size, settle, Fits, Accepts}
use goquarkchain.Serialize.Prefix.{write_list_len-ok}
use goquarkchain.Serialize.Safety.{Took, deserialize-Took, get_len-bounded}
use goquarkchain.Serialize.Totality.{deserialize-serialize}

abbrev nil_tags : Tags
nil_tags = record { nil_ok = true; byte_size = 1 }

abbrev list_tags : Tags
list_tags = record { nil_ok = false; byte_size = 2 }

-- struct { A uint32; B *big.Int `nil`; C []uint16 `bytesizeofslicelen:"2"`; D *Uint256 }
abbrev sample_type : Ty
sample_type = struct (
    field default_tags uint32 (
      field nil_tags (ptr big_int)
        (field list_tags (slice uint16) (field default_tags (ptr uint256) no_fields))))

-- The last number is -5, whose sign is not written.
abbrev sample : El sample_type
sample = (70000, (none, ((1 ∷ 515 ∷ []), (some (some (negsuc 4)), tt))))

sample-Accepts : Accepts sample_type default_tags true sample
unfolding goquarkchain.Prelude.Bytes.byte_len
sample-Accepts = (tt, (tt, ((omega arith, (tt, (tt, tt))), ((refl, omega arith), tt))))

sample-Fits : Fits sample_type default_tags sample
sample-Fits = (
  omega arith,
  (tt, (((omega arith, omega arith), omega arith, (omega arith, (omega arith, tt))), (tt, tt))),
)

deserialize-serialize_example :
    (enc : List ℕ) × (serialize sample_type default_tags true sample (5 ∷ [])
      ≡ ok ((5 ∷ []) ++ enc))
    × (min_size sample_type default_tags ≤ length enc)
    × (deserialize sample_type default_tags (new_byte_buffer (enc ++ (6 ∷ [])))
        ≡ ok (
          settle sample_type default_tags sample,
          advance (length enc) (new_byte_buffer (enc ++ (6 ∷ []))),
        ))
deserialize-serialize_example =
    deserialize-serialize sample_type default_tags true sample (5 ∷ []) (6 ∷ []) sample-Accepts
      sample-Fits

abbrev three_bytes : List ℕ
three_bytes = 1 ∷ 2 ∷ 3 ∷ []

read_two :
    deserialize uint16 default_tags (new_byte_buffer three_bytes)
    ≡ ok (258, advance 2 (new_byte_buffer three_bytes))
unfolding deserialize deserialize_uint uint_loop get_bytes new_byte_buffer
read_two = refl

deserialize-Took_example :
    Took 2 (new_byte_buffer three_bytes) (advance 2 (new_byte_buffer three_bytes))
deserialize-Took_example =
    deserialize-Took uint16 default_tags (new_byte_buffer three_bytes)
      (advance 2 (new_byte_buffer three_bytes)) 258 read_two

read_length :
    get_len 1 (new_byte_buffer three_bytes) ≡ ok (1, advance 1 (new_byte_buffer three_bytes))
unfolding get_len get_bytes new_byte_buffer remaining from_be
read_length = refl

get_len-bounded_example :
    Took 1 (new_byte_buffer three_bytes) (advance 1 (new_byte_buffer three_bytes))
    × (1 ≤ 1)
    × (1 ≤ 4)
    × (1 ≤ remaining (advance 1 (new_byte_buffer three_bytes)))
get_len-bounded_example =
    get_len-bounded 1 1 (new_byte_buffer three_bytes) (advance 1 (new_byte_buffer three_bytes))
      read_length

-- A list that announces more elements than there are bytes is refused before it is made.
hostile_length :
    deserialize (slice uint16) default_tags (new_byte_buffer (200 ∷ 1 ∷ 2 ∷ []))
    ≡ err length_exceeds
unfolding deserialize get_len get_bytes new_byte_buffer remaining from_be
hostile_length = refl

wrote_length : write_list_len 258 2 (9 ∷ []) ≡ ok (9 ∷ 1 ∷ 2 ∷ [])
unfolding write_list_len list_len_loop
wrote_length = refl

write_list_len-ok_example : (258 < 256 ^ 2) × ((9 ∷ 1 ∷ 2 ∷ []) ≡ (9 ∷ []) ++ be_bytes 2 258)
write_list_len-ok_example = write_list_len-ok 258 2 (9 ∷ []) (9 ∷ 1 ∷ 2 ∷ []) wrote_length

small_number : from_be 0 (1 ∷ 2 ∷ []) < 2 ^ 64
unfolding from_be
small_number = omega arith
