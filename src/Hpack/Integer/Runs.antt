-- ===== src/Hpack/Integer/Runs.antt =====
-- Integers of RFC 7541, appendix C.1, encoded and decoded.
use aws_c_http.Prelude.{ℕ, ◌≡◌, ◌⊎◌, inr, refl, some, List, [], ◌∷◌, ◌++◌, arith}
use aws_c_http.Hpack.Integer.Codec.{
  Append, IsAppend, encoded, append_failed, encode_integer, ProgressInteger, ongoing, complete,
  zero_progress, decode_integer, masked_right_bits_u8,
}
use aws_c_http.Hpack.Integer.RoundTrip.{integer_round_trip}
use aws_c_http.Hpack.Integer.Pieces.{integer_in_pieces}

-- Memory that does not run out.
abbrev append_byte : Append
append_byte out b = some (out ++ (b ∷ []))

append_byte-IsAppend : IsAppend append_byte
append_byte-IsAppend out b = inr refl

encodes_1337 : encode_integer append_byte 1337 0 5 [] ≡ encoded (31 ∷ 154 ∷ 10 ∷ [])
unfolding encode_integer
encodes_1337 = refl

integer_round_trip_example :
    (encode_integer append_byte 1337 0 5 (7 ∷ []) ≡ append_failed (7 ∷ []))
    ⊎ ((code : List ℕ) × (encode_integer append_byte 1337 0 5 (7 ∷ []) ≡ encoded ((7 ∷ []) ++ code))
        × (decode_integer 5 zero_progress 0 (code ++ (9 ∷ [])) ≡ complete 1337 (9 ∷ [])))
unfolding masked_right_bits_u8
integer_round_trip_example =
    integer_round_trip append_byte append_byte-IsAppend 1337 0 5 0 (7 ∷ []) (9 ∷ []) (omega arith)
      (omega arith) refl (omega arith)

writes_1337 : encode_integer append_byte 1337 0 5 (7 ∷ []) ≡ encoded (7 ∷ 31 ∷ 154 ∷ 10 ∷ [])
unfolding encode_integer
writes_1337 = refl

integer_in_pieces_example :
    (progress : ProgressInteger) × (partial : ℕ) × (decode_integer 5 zero_progress 0 (31 ∷ 154 ∷ [])
      ≡ ongoing progress partial)
    × (decode_integer 5 progress partial (10 ∷ 9 ∷ []) ≡ complete 1337 (9 ∷ []))
unfolding masked_right_bits_u8
integer_in_pieces_example =
    integer_in_pieces append_byte append_byte-IsAppend 1337 0 5 0 (7 ∷ []) (31 ∷ 154 ∷ []) (10 ∷ [])
      (9 ∷ []) (omega arith) (omega arith) refl (omega arith) writes_1337 (omega arith)
