-- ===== src/Hpack/Strings/RoundTrip.antt =====
-- What `aws_hpack_encode_string` writes, `aws_hpack_decode_string` reads back.
use aws_c_http.Prelude.{
  ℕ, same, ◌^◌, ◌<◌, ◌≡◌, ◌⊎◌, sym, ap, ◌∙◌, inl, inr, Bool, List, [], ◌∷◌, ◌++◌, length, drop,
  take-length, take-length_append, drop-length_append, bit_or, arith,
}
use mathlib.Core.List.{append_assoc}
use aws_c_http.Hpack.Integer.Codec.{
  Append, IsAppend, Encoded, encoded, append_failed, encode_integer, masked_right_bits_u8, complete,
}
use aws_c_http.Hpack.Integer.RoundTrip.{integer_read}
use aws_c_http.Hpack.Strings.Codec.{
  HuffmanMode, Coder, use_huffman, encode_failed, encode_behind_length, encode_string,
  string_complete, decode_string,
}
use aws_c_http.Hpack.Strings.Reading.{IsCoder, StandsFor, fresh, string_read}
use aws_c_http.Hpack.Strings.Writing.{
  starting_bits, first_flag, value_size, string_written, none_only, small, starting,
}

module _ {H D : Type 0} (k : Coder H D) where
  encoded_inj : {a b : List ℕ} → encoded a ≡ encoded b → a ≡ b
  encoded_inj e = cc

  length_failed :
      (append : Append) (mode : HuffmanMode) (h : H) (s output : List ℕ)
      → encode_integer append
          (value_size k mode h s)
          (starting_bits (use_huffman k mode h s))
          7
          output
        ≡ append_failed output
      → encode_string k append mode h s output ≡ (k.reset_encoder h, append_failed output)
  unfolding encode_string encode_behind_length encode_failed
  length_failed append mode h s output e =
      ap (encode_behind_length k (use_huffman k mode h s) h s (value_size k mode h s) output) e
      ∙ ap (λ z. (k.reset_encoder h, append_failed z)) (take-length output)

  length_encoded :
      (append : Append) (mode : HuffmanMode) (h : H) (s output out : List ℕ)
      → encode_integer append
          (value_size k mode h s)
          (starting_bits (use_huffman k mode h s))
          7
          output
        ≡ encoded out
      → encode_string k append mode h s output
        ≡ encode_behind_length k
            (use_huffman k mode h s)
            h
            s
            (value_size k mode h s)
            output
            (encoded out)
  unfolding encode_string
  length_encoded append mode h s output out e =
      ap (encode_behind_length k (use_huffman k mode h s) h s (value_size k mode h s) output) e

  -- Both codes of a length, read in front of different bytes, are what was written for it.
  string_read_back :
      (append : Append) (mode : HuffmanMode) (h : H) (s output code bytes : List ℕ) (d : D)
      (scratch rest : List ℕ)
      → IsAppend append
      → IsCoder k h s
      → length s < 2 ^ 63
      → encode_integer append
          (value_size k mode h s)
          (starting_bits (use_huffman k mode h s))
          7
          output
        ≡ encoded (output ++ code)
      → length bytes ≡ value_size k mode h s
      → (0 < length bytes → StandsFor k (use_huffman k mode h s) bytes s)
      → (code' : List ℕ) × (d' : D) × (output ++ code ≡ output ++ code')
        × (decode_string k (fresh k d) ((code' ++ bytes) ++ rest) scratch
            ≡ string_complete (fresh k d') (scratch ++ s) rest)
  unfolding masked_right_bits_u8
  string_read_back append mode h s output code bytes d scratch rest is_append c b written long
        stands =
      let coded : Bool = use_huffman k mode h s in
      let n : ℕ = value_size k mode h s in
      let (bits, clear) = starting coded in
      let bound = small k coded h s c b in
      elim (integer_read append is_append n (starting_bits coded) 7 0 output (bytes ++ rest)
        (omega arith) bits clear (omega arith)) [
          | inl failed ↦ absurd (ground (arith, sym failed ∙ written))
          | inr (x, tail, low, written', read) ↦
              let first : ℕ = bit_or (starting_bits coded) x in
              let (d', e) =
                string_read k coded first tail bytes s d scratch rest c.appends
                  (λ z. none_only k coded h s c (sym long ∙ z)) stands
                  (first_flag coded x (omega arith))
                  (read ∙ ap (λ m. complete m (bytes ++ rest)) (sym long)) in
              (
                first ∷ tail,
                d',
                encoded_inj (sym written ∙ written'),
                ap (λ z. decode_string k (fresh k d) z scratch)
                      (append_assoc (first ∷ tail) bytes rest)
                    ∙ e,
              )
        ]

  -- A string of less than 2^63 bytes, with memory for the appends and a coder that does what it
  -- promises: encoding fails and leaves the output as it was, or it writes a code behind the output,
  -- and decoding the code, with any bytes behind it, appends the string to the scratch space, leaves
  -- those bytes, and the decoder is in front of a string again.
  pub string_round_trip :
      (append : Append) (mode : HuffmanMode) (h : H) (s output : List ℕ) (d : D)
      (scratch rest : List ℕ)
      → IsAppend append
      → IsCoder k h s
      → length s < 2 ^ 63
      → (h' : H) × ((encode_string k append mode h s output ≡ (h', append_failed output))
          ⊎ ((code : List ℕ) × (d' : D) × (encode_string k append mode h s output
                ≡ (h', encoded (output ++ code)))
              × (decode_string k (fresh k d) (code ++ rest) scratch
                  ≡ string_complete (fresh k d') (scratch ++ s) rest)))
  unfolding masked_right_bits_u8
  string_round_trip append mode h s output d scratch rest is_append c b =
      let coded : Bool = use_huffman k mode h s in
      let (bits, clear) = starting coded in
      let bound = small k coded h s c b in
      elim (integer_read append is_append (value_size k mode h s) (starting_bits coded) 7 0 output
        [] (omega arith) bits clear (omega arith)) [
          | inl failed ↦ (k.reset_encoder h, inl (length_failed append mode h s output failed))
          | inr (x, tail, low, written, read) ↦
              let code : List ℕ = bit_or (starting_bits coded) x ∷ tail in
              let begun = length_encoded append mode h s output (output ++ code) written in
              let (h', w) = string_written k coded h s output (output ++ code) c in
              elim w [
                | inl failed ↦ (
                  h',
                  inl (
                      begun
                      ∙ failed
                      ∙ ap (λ z. (h', append_failed z)) (take-length_append output code)),
                )
                | inr (bytes, ended, long, stands) ↦
                    let (code', d', same, e) =
                      string_read_back append mode h s output code bytes d scratch rest is_append c
                        b written long stands in
                    (
                      h',
                      inr (
                        code' ++ bytes,
                        d',
                        begun
                            ∙ ended
                            ∙ ap (λ z. (h', encoded (z ++ bytes))) same
                            ∙ ap (λ z. (h', encoded z)) (append_assoc output code' bytes),
                        e,
                      ),
                    )
              ]
        ]

  append_cancel : (xs ys zs : List ℕ) → xs ++ ys ≡ xs ++ zs → ys ≡ zs
  append_cancel xs ys zs e =
      sym (drop-length_append xs ys) ∙ ap (drop (length xs)) e ∙ drop-length_append xs zs

  -- What is written for a string is read back by any decoder in front of a string.
  abbrev pub ReadsBack : List ℕ → List ℕ → Type 0
  ReadsBack s code =
      (d : D) (scratch rest : List ℕ)
      → (d' : D) × (decode_string k (fresh k d) (code ++ rest) scratch
          ≡ string_complete (fresh k d') (scratch ++ s) rest)

  same_code :
      (s output code : List ℕ) (r : H × Encoded) (h : H) (d : D) (scratch rest : List ℕ)
      → r ≡ (h, encoded (output ++ code))
      → ((h' : H) × ((r ≡ (h', append_failed output))
            ⊎ ((code' : List ℕ) × (d' : D) × (r ≡ (h', encoded (output ++ code')))
                × (decode_string k (fresh k d) (code' ++ rest) scratch
                    ≡ string_complete (fresh k d') (scratch ++ s) rest))))
      → (d' : D) × (decode_string k (fresh k d) (code ++ rest) scratch
          ≡ string_complete (fresh k d') (scratch ++ s) rest)
  same_code s output code r h d scratch rest written (h', inl failed) =
      absurd (ground (arith, sym (ap (λ z. z.1) failed) ∙ ap (λ z. z.1) written))
  same_code s output code r h d scratch rest written (h', inr (code', d', written', read)) =
      let same : code ≡ code' =
        append_cancel output code code'
          (encoded_inj (sym (ap (λ z. z.1) written) ∙ ap (λ z. z.1) written')) in
      (d', ap (λ z. decode_string k (fresh k d) (z ++ rest) scratch) same ∙ read)

  pub string_codes :
      (append : Append) (mode : HuffmanMode) (h : H) (s output : List ℕ)
      → D
      → IsAppend append
      → IsCoder k h s
      → length s < 2 ^ 63
      → (h' : H) × ((encode_string k append mode h s output ≡ (h', append_failed output))
          ⊎ ((code : List ℕ) × (encode_string k append mode h s output
                ≡ (h', encoded (output ++ code)))
              × ReadsBack s code))
  string_codes append mode h s output any a c b =
      let (h', r) = string_round_trip append mode h s output any [] [] a c b in
      (
        h',
        elim r [
          | inl failed ↦ inl failed
          | inr (code, d', written, read) ↦ inr (
            code,
            written,
            λ d scratch rest.
                same_code s output code (encode_string k append mode h s output) h' d scratch rest
                  written (string_round_trip append mode h s output d scratch rest a c b),
          )
        ],
      )
