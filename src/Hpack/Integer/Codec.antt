-- ===== src/Hpack/Integer/Codec.antt =====
-- `aws_hpack_encode_integer` of source/hpack_encoder.c and `aws_hpack_decode_integer` of
-- source/hpack_decoder.c.
use aws_c_http.Prelude.{
  ℕ, zero, suc, ◌+◌, ◌-◌, ◌*◌, ◌/◌, ◌%◌, ◌^◌, ◌≡◌, ◌⊎◌, true, false, not, Option, none, some, List,
  [], ◌∷◌, ◌++◌, ltb, ◌==◌, if◌then◌else◌, length, take, bit_and, bit_or,
}
use aws_c_http.Prelude.Words.{add_u64, sub_u64, u64_mod}

-- `s_masked_right_bits_u8`: `UINT8_MAX >> (8 - num_masked_bits)`
unfoldable pub masked_right_bits_u8 : ℕ → ℕ
masked_right_bits_u8 num_masked_bits = 0xff / 2 ^ (8 - num_masked_bits)

-- aws-c-common's `aws_byte_buf_append_byte_dynamic`; a buffer is its bytes.
abbrev pub Append : Type 0
Append = List ℕ → ℕ → Option (List ℕ)

-- Its documented behaviour: the byte stands at the end of the buffer, or memory has run out.
abbrev pub IsAppend : Append → Type 0
IsAppend append =
    (out : List ℕ) (b : ℕ) → (append out b ≡ none) ⊎ (append out b ≡ some (out ++ (b ∷ [])))

pub data Encoded : Type 0 where
  encoded append_failed : List ℕ → Encoded
  out_of_fuel : Encoded

-- The byte of one round of the loop. `integer & hi_57bit_mask` is not zero where an `uint64_t` has a
-- bit above its lowest seven.
unfoldable pub this_octet : ℕ → ℕ
this_octet integer = if not (integer / 128 == 0) then integer % 128 + 128 else integer % 128

-- `output->len = original_len` where an append fails.
unfoldable pub restore_len : List ℕ → Encoded → Encoded
restore_len output (append_failed out) = append_failed (take (length output) out)
restore_len output e = e

module _ (append : Append) where
  -- The loop of `aws_hpack_encode_integer`, of at most `fuel` rounds.
  unfoldable pub encode_octets : ℕ → ℕ → List ℕ → Encoded
  unfolding this_octet
  encode_octets zero integer out = out_of_fuel
  encode_octets (suc fuel) integer out = elim (append out (this_octet integer)) [
    | none ↦ append_failed out
    | some out' ↦ elim (integer / 128 == 0) [
      | true ↦ encoded out'
      | false ↦ encode_octets fuel (integer / 128) out'
    ]
  ]

  -- An `uint64_t` has at most ten groups of seven bits.
  unfoldable pub encode_integer : ℕ → ℕ → ℕ → List ℕ → Encoded
  unfolding encode_octets restore_len masked_right_bits_u8
  encode_integer integer starting_bits prefix_size output =
      let prefix_mask = masked_right_bits_u8 prefix_size in
      if ltb integer prefix_mask
      then elim (append output (bit_or starting_bits integer)) [
        | none ↦ append_failed (take (length output) output)
        | some out ↦ encoded out
      ]
      else elim (append output (bit_or starting_bits prefix_mask)) [
        | none ↦ append_failed (take (length output) output)
        | some out ↦ restore_len output (encode_octets 10 (sub_u64 integer prefix_mask) out)
      ]

pub data IntegerState : Type 0 where
  integer_init integer_value : IntegerState

-- `struct hpack_progress_integer`
pub record ProgressInteger : Type 0 where
  pub state : IntegerState
  pub bit_count : ℕ

abbrev pub zero_progress : ProgressInteger
zero_progress = record { state = integer_init; bit_count = 0 }

-- What a call leaves: the progress, `*integer` and the bytes that are not read. `complete` resets
-- the progress; `overflow` is AWS_ERROR_OVERFLOW_DETECTED.
pub data Decoded : Type 0 where
  ongoing : ProgressInteger → ℕ → Decoded
  complete : ℕ → List ℕ → Decoded
  overflow : ProgressInteger → ℕ → List ℕ → Decoded

unfoldable pub decode_integer : ℕ → ProgressInteger → ℕ → List ℕ → Decoded
unfolding masked_right_bits_u8
decode_integer prefix_size progress integer [] = ongoing progress integer
decode_integer prefix_size progress integer (byte ∷ to_decode) = elim progress.state [
  | integer_init ↦
      let prefix_mask = masked_right_bits_u8 prefix_size in
      let cut = bit_and byte prefix_mask in
      let rest =
        decode_integer prefix_size (record progress { state = integer_value }) cut to_decode in
      if not (cut == prefix_mask) then complete cut to_decode else rest
  | integer_value ↦
      let new_byte_value = bit_and byte 127 * 2 ^ progress.bit_count % u64_mod in
      let sum = add_u64 integer new_byte_value in
      let next_count = (progress.bit_count + 7) % 256 in
      let progress' = record progress { bit_count = next_count } in
      let rest = decode_integer prefix_size progress' sum to_decode in
      if ltb sum integer
      then overflow progress integer to_decode
      else (if bit_and byte 128 == 0
          then complete sum to_decode
          else (if ltb (64 - 7) next_count then overflow progress' sum to_decode else rest))
]
