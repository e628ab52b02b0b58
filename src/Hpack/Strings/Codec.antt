-- ===== src/Hpack/Strings/Codec.antt =====
-- `aws_hpack_encode_string` of source/hpack_encoder.c and `aws_hpack_decode_string` of
-- source/hpack_decoder.c.
use aws_c_http.Prelude.{
  ℕ, ◌-◌, ◌/◌, Bool, true, false, not, Option, none, some, List, [], ◌∷◌, ltb, ◌==◌, if◌then◌else◌,
  length, take, drop, min,
}
use aws_c_http.Hpack.Integer.Codec.{
  Append, Encoded, encoded, append_failed, out_of_fuel, encode_integer, ProgressInteger, Decoded,
  zero_progress, ongoing, complete, overflow, decode_integer,
}

-- `enum aws_hpack_huffman_mode`
pub data HuffmanMode : Type 0 where
  huffman_smallest huffman_never huffman_always : HuffmanMode

-- What the code calls of aws-c-compression, on the encoder's state `H` and the decoder's `D`, and the
-- append of aws-c-common. An encoder gives the output with the code behind it, a decoder the bytes
-- that it left and the output with the text; `none` is an error. `reserve` says whether
-- `s_ensure_space` makes room.
pub record Coder (H D : Type 0) : Type 0 where
  pub encoded_length : H → List ℕ → ℕ
  pub encode : H → List ℕ → List ℕ → H × Option (List ℕ)
  pub reset_encoder : H → H
  pub decode : D → List ℕ → List ℕ → D × Option (List ℕ × List ℕ)
  pub reset_decoder : D → D
  pub append_bytes : List ℕ → List ℕ → Option (List ℕ)
  pub reserve : List ℕ → ℕ → Bool

module _ {H D : Type 0} (k : Coder H D) where
  unfoldable pub use_huffman : HuffmanMode → H → List ℕ → Bool
  use_huffman huffman_never h s = false
  use_huffman huffman_always h s = true
  use_huffman huffman_smallest h s = ltb (k.encoded_length h s) (length s)

  -- The error exit: the length of the output as it was, and the encoder reset.
  unfoldable pub encode_failed : H → List ℕ → List ℕ → H × Encoded
  encode_failed h output out = (k.reset_encoder h, append_failed (take (length output) out))

  -- The data behind the length, which is in `out`.
  unfoldable pub encode_data : Bool → H → List ℕ → ℕ → List ℕ → List ℕ → H × Encoded
  unfolding encode_failed
  encode_data true h s str_length output out =
      let (h', result) = k.encode h s out in
      if not (k.reserve out str_length)
      then encode_failed h output out
      else elim result [ none ↦ encode_failed h' output out | some out' ↦ (h', encoded out') ]
  encode_data false h s str_length output out = elim (k.append_bytes out s) [
    | none ↦ encode_failed h output out
    | some out' ↦ (h, encoded out')
  ]

  -- With the length written.
  unfoldable pub encode_behind_length : Bool → H → List ℕ → ℕ → List ℕ → Encoded → H × Encoded
  unfolding encode_data
  encode_behind_length huffman h s str_length output (append_failed out) =
      encode_failed h output out
  encode_behind_length huffman h s str_length output out_of_fuel = (h, out_of_fuel)
  encode_behind_length huffman h s str_length output (encoded out) =
      if ltb 0 str_length then encode_data huffman h s str_length output out else (h, encoded out)

  unfoldable pub encode_string : Append → HuffmanMode → H → List ℕ → List ℕ → H × Encoded
  unfolding use_huffman encode_behind_length
  encode_string append mode h to_encode output =
      let huffman = use_huffman mode h to_encode in
      let str_length = if huffman then k.encoded_length h to_encode else length to_encode in
      let starting_bits = if huffman then 0x80 else 0 in
      encode_behind_length huffman h to_encode str_length output
        (encode_integer append str_length starting_bits 7 output)

pub data StringState : Type 0 where
  string_init string_length string_value : StringState

-- `struct hpack_progress_string`
pub record ProgressString : Type 0 where
  pub state : StringState
  pub use_huffman : Bool
  pub length : ℕ

abbrev pub zero_string : ProgressString
zero_string = record { state = string_init; use_huffman = false; length = 0 }

-- The part of `struct aws_hpack_decoder` that decodes a string.
pub record StringDecoder (D : Type 0) : Type 0 where
  pub huffman_decoder : D
  pub progress_integer : ProgressInteger
  pub progress_string : ProgressString

-- What a call leaves: the decoder, the output, and the bytes that are not read, which are none where
-- the string is not complete.
pub data StringDecoded (D : Type 0) : Type 0 where
  string_ongoing : StringDecoder D → List ℕ → StringDecoded D
  string_complete : StringDecoder D → List ℕ → List ℕ → StringDecoded D
  string_failed : StringDecoder D → StringDecoded D

module _ {D : Type 0} where
  -- `handle_complete`
  unfoldable pub handle_complete : StringDecoder D → List ℕ → List ℕ → StringDecoded D
  handle_complete d output rest =
      string_complete (record d { progress_string = zero_string }) output rest

  -- The end of HPACK_STRING_STATE_VALUE; a string that is not complete has taken all the data.
  unfoldable pub value_appended : StringDecoder D → List ℕ → List ℕ → StringDecoded D
  unfolding handle_complete
  value_appended d output rest =
      if d.progress_string.length == 0
      then handle_complete d output rest
      else string_ongoing d output

module _ {H D : Type 0} (k : Coder H D) where
  unfoldable pub take_value : StringDecoder D → List ℕ → List ℕ → List ℕ → StringDecoded D
  unfolding value_appended
  take_value d chunk output rest =
      let (huffman', decoded) = k.decode d.huffman_decoder chunk output in
      let d' = record d { huffman_decoder = huffman' } in
      if d.progress_string.use_huffman
      then elim decoded [
        | none ↦ string_failed d'
        | some (left, output') ↦
            if not (length left == 0) then string_failed d' else value_appended d' output' rest
      ]
      else elim (k.append_bytes output chunk) [
        | none ↦ string_failed d
        | some output' ↦ value_appended d output' rest
      ]

  -- HPACK_STRING_STATE_VALUE, where the loop goes on.
  unfoldable pub decode_value : StringDecoder D → List ℕ → List ℕ → StringDecoded D
  unfolding take_value
  decode_value d [] output = string_ongoing d output
  decode_value d (b ∷ bs) output =
      let to_process = min d.progress_string.length (length (b ∷ bs)) in
      let progress = record (d.progress_string) {
        length = d.progress_string.length - to_process;
      } in
      take_value (record d { progress_string = progress }) (take to_process (b ∷ bs)) output
        (drop to_process (b ∷ bs))

  -- HPACK_STRING_STATE_LENGTH behind its integer, and then the value.
  unfoldable pub length_decoded : StringDecoder D → Decoded → List ℕ → StringDecoded D
  unfolding decode_value handle_complete
  length_decoded d (overflow p n rest) output = string_failed (record d {
    progress_integer = p;
    progress_string = record (d.progress_string) { length = n };
  })
  length_decoded d (ongoing p n) output =
      string_ongoing
        (record d {
          progress_integer = p;
          progress_string = record (d.progress_string) { length = n };
        })
        output
  length_decoded d (complete n rest) output =
      let d' = record d {
        progress_integer = zero_progress;
        progress_string = record (d.progress_string) { length = n };
      } in
      if n == 0
      then handle_complete d' output rest
      else decode_value
          (record d' { progress_string = record (d'.progress_string) { state = string_value } })
          rest output

  unfoldable pub decode_length : StringDecoder D → List ℕ → List ℕ → StringDecoded D
  unfolding length_decoded
  decode_length d to_decode output =
      length_decoded d (decode_integer 7 d.progress_integer d.progress_string.length to_decode)
        output

  -- `aws_hpack_decode_string`: its loop goes through the states in this order.
  unfoldable pub decode_string : StringDecoder D → List ℕ → List ℕ → StringDecoded D
  unfolding decode_length decode_value
  decode_string d [] output = string_ongoing d output
  decode_string d (b ∷ bs) output = elim d.progress_string.state [
    | string_init ↦
        decode_length
          (record d {
            huffman_decoder = k.reset_decoder d.huffman_decoder;
            progress_string = record (d.progress_string) {
              state = string_length;
              use_huffman = not (b / 128 == 0);
            };
          })
          (b ∷ bs) output
    | string_length ↦ decode_length d (b ∷ bs) output
    | string_value ↦ decode_value d (b ∷ bs) output
  ]
