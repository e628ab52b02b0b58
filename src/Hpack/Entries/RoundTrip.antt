-- ===== src/Hpack/Entries/RoundTrip.antt =====
-- A header field that source/hpack_encoder.c writes as a literal with a new name, and that is not to be
-- kept in the dynamic table, is read back by `aws_hpack_decode` of source/hpack_decoder.c.
use aws_c_http.Prelude.{
  ℕ, ◌^◌, ◌<◌, ◌≡◌, ◌⊎◌, refl, sym, ap, ◌∙◌, inl, inr, true, false, List, [], ◌∷◌, ◌++◌, length,
  take, take-length, take-length_append, some, arith,
}
use mathlib.Core.Path.{subst}
use mathlib.Core.List.{append_assoc}
use aws_c_http.Hpack.Integer.Codec.{
  Append, IsAppend, encoded, append_failed, encode_integer, masked_right_bits_u8,
}
use aws_c_http.Hpack.Table.Ring.{
  use_cache, no_cache, no_forward_cache, Compression, Header, Lookups,
}
use aws_c_http.Hpack.Static.{Finds, find_index}
use aws_c_http.Hpack.Strings.Codec.{Coder, encode_string}
use aws_c_http.Hpack.Strings.Reading.{IsCoder}
use aws_c_http.Hpack.Strings.RoundTrip.{ReadsBack, string_codes}
use aws_c_http.Hpack.Entries.Encode.{
  Encoder, Written, written_integer, field_failed, then_string, index_literal, encode_literal,
  is_use_cache, encode_header_field, literal_entry_type, entry_starting_bit_pattern,
  entry_num_prefix_bits,
}
use aws_c_http.Hpack.Entries.Decode.{Decoder, finished, header_field, decode}
use aws_c_http.Hpack.Entries.Literal.{between, literal_read}

module _ {H D T : Type 0} (k : Coder H D) (append : Append) (l : Lookups T) (f : Finds T) where
  -- C's error, with the output as it was.
  abbrev pub Undone : List ℕ → Written H T → Type 0
  Undone original w = (w.err ≡ true) × (w.output ≡ original)

  then_failed :
      (e : Encoder H T) (original s out : List ℕ) (next : Encoder H T → List ℕ → Written H T)
      (behind : List ℕ) {h : H}
      → encode_string k append e.huffman_mode e.huffman_encoder s out ≡ (h, append_failed out)
      → out ≡ original ++ behind
      → Undone original (then_string k append l f e original s out next)
  unfolding then_string written_integer field_failed
  then_failed e original s out next behind failed begins =
      rw failed (refl, ap (take (length original)) begins ∙ take-length_append original behind)

  then_written :
      (e : Encoder H T) (original s out : List ℕ) (next : Encoder H T → List ℕ → Written H T)
      {h : H} {out' : List ℕ}
      → encode_string k append e.huffman_mode e.huffman_encoder s out ≡ (h, encoded out')
      → then_string k append l f e original s out next
        ≡ next (record e { huffman_encoder = h }) out'
  unfolding then_string written_integer
  then_written e original s out next written = rw written refl

  -- A literal that is not to be kept leaves the table as it is.
  not_indexed :
      (c : Compression) (header : Header) (original : List ℕ) (e : Encoder H T) (out : List ℕ)
      → is_use_cache c ≡ false
      → index_literal k append l f header (literal_entry_type c) original e out
        ≡ record { encoder = e; output = out; err = false }
  unfolding index_literal literal_entry_type is_use_cache
  not_indexed use_cache header original e out keep = absurd (ground (arith, keep))
  not_indexed no_cache header original e out keep = refl
  not_indexed no_forward_cache header original e out keep = refl

  -- The index of zero is one byte.
  index_written :
      (c : Compression) (output : List ℕ)
      → IsAppend append
      → is_use_cache c ≡ false
      → (encode_integer append 0
            (entry_starting_bit_pattern (literal_entry_type c))
            (entry_num_prefix_bits (literal_entry_type c))
            output
          ≡ append_failed output)
        ⊎ (encode_integer append 0
              (entry_starting_bit_pattern (literal_entry_type c))
              (entry_num_prefix_bits (literal_entry_type c))
              output
            ≡ encoded (output ++ (entry_starting_bit_pattern (literal_entry_type c) ∷ [])))
  unfolding encode_integer masked_right_bits_u8 entry_starting_bit_pattern entry_num_prefix_bits
      literal_entry_type is_use_cache
  index_written use_cache output a keep = absurd (ground (arith, keep))
  index_written no_cache output a keep = elim (a output 0) [
    | inl e ↦ inl (rw e (ap append_failed (take-length output)))
    | inr e ↦ inr (rw e refl)
  ]
  index_written no_forward_cache output a keep = elim (a output 0x10) [
    | inl e ↦ inl (rw e (ap append_failed (take-length output)))
    | inr e ↦ inr (rw e refl)
  ]

  abbrev value_behind : Header → List ℕ → Encoder H T → List ℕ → Written H T
  value_behind header output e out =
      then_string k append l f e output header.value out
        (index_literal k append l f header (literal_entry_type header.compression) output)

  index_failed :
      (e : Encoder H T) (header : Header) (output : List ℕ)
      → encode_integer append 0
          (entry_starting_bit_pattern (literal_entry_type header.compression))
          (entry_num_prefix_bits (literal_entry_type header.compression))
          output
        ≡ append_failed output
      → Undone output (encode_literal k append l f e header 0 output)
  unfolding encode_literal written_integer field_failed
  index_failed e header output failed = rw failed (refl, take-length output)

  index_behind :
      (e : Encoder H T) (header : Header) (output out : List ℕ)
      → encode_integer append 0
          (entry_starting_bit_pattern (literal_entry_type header.compression))
          (entry_num_prefix_bits (literal_entry_type header.compression))
          output
        ≡ encoded out
      → encode_literal k append l f e header 0 output
        ≡ then_string k append l f e output header.name out (value_behind header output)
  unfolding encode_literal written_integer
  index_behind e header output out written = rw written refl

  field_literal :
      (e : Encoder H T) (header : Header) (output : List ℕ)
      → is_use_cache header.compression ≡ false
      → (find_index f e.context header true).0 ≡ 0
      → encode_header_field k append l f e header output
        ≡ encode_literal k append l f e header 0 output
  unfolding encode_header_field
  field_literal e header output keep unknown = rw (unknown) refl

  -- What a header field is written as: nothing, where memory runs out or the coder fails, or a code behind
  -- the output that is decoded to the field and leaves the table and the rest.
  abbrev pub ReadBack : Header → List ℕ → Decoder D T → D → List ℕ → Written H T → Type 0
  ReadBack header output d huffman rest w =
      Undone output w
      ⊎ ((code : List ℕ) × (d' : Decoder D T) × (w.err ≡ false)
          × (w.output ≡ output ++ code)
          × (decode k l (between k l d huffman) (code ++ rest)
              ≡ some (finished (header_field header) d' rest))
          × (d'.context ≡ d.context))

  -- The value behind a name that is written, and all that is read back.
  value_round_trip :
      (e : Encoder H T) (header : Header) (output : List ℕ) (d : Decoder D T) (huffman : D)
      (rest name_code : List ℕ) (w : Written H T)
      → IsAppend append
      → ((h : H) → IsCoder k h header.value)
      → length header.value < 2 ^ 63
      → is_use_cache header.compression ≡ false
      → ReadsBack k header.name name_code
      → w
        ≡ value_behind header output e (
            (output ++ (entry_starting_bit_pattern (literal_entry_type header.compression) ∷ []))
            ++ name_code)
      → ReadBack header output d huffman rest w
  value_round_trip e header output d huffman rest name_code w a value value_small keep name_read
        begun =
      let pattern : ℕ = entry_starting_bit_pattern (literal_entry_type header.compression) in
      let out : List ℕ = (output ++ (pattern ∷ [])) ++ name_code in
      let behind : Encoder H T → List ℕ → Written H T =
        index_literal k append l f header (literal_entry_type header.compression) output in
      let (h, valued) =
        string_codes k append e.huffman_mode e.huffman_encoder header.value out huffman a
          (value e.huffman_encoder) value_small in
      elim valued [
        | inl no_value ↦ inl (
            subst (Undone output) (sym begun) (
              then_failed e output header.value out behind ((pattern ∷ []) ++ name_code) no_value
                (append_assoc output (pattern ∷ []) name_code)))
        | inr (value_code, value_written, value_read) ↦
            let end =
              begun
              ∙ then_written e output header.value out behind value_written
              ∙ not_indexed header.compression header output (record e { huffman_encoder = h })
                  (out ++ value_code) keep in
            let (huffman₁, name_dec) = name_read huffman [] (value_code ++ rest) in
            let (huffman₂, value_dec) = value_read huffman₁ header.name rest in
            let (d', decoded, same) =
              literal_read k l d huffman huffman₁ huffman₂ header name_code value_code rest keep
                name_dec value_dec in
            inr (
              pattern ∷ (name_code ++ value_code),
              d',
              ap (λ w. w.err) end,
              ap (λ w. w.output) end
                  ∙ append_assoc (output ++ (pattern ∷ [])) name_code value_code
                  ∙ append_assoc output (pattern ∷ []) (name_code ++ value_code),
              ap (λ z. decode k l (between k l d huffman) (pattern ∷ z))
                    (append_assoc name_code value_code rest)
                  ∙ decoded,
              same,
            )
      ]

  -- A header field that is not to be kept and whose name is in no table, with strings of less than
  -- 2^63 bytes, memory for the appends of the coder, and a coder that does what it promises: encoding
  -- fails and leaves the output as it was, or it writes a code behind the output, and a decoder between
  -- two entries decodes the code, with any bytes behind it, to the same field, leaves those bytes, and
  -- leaves its table as it was.
  pub field_round_trip :
      (e : Encoder H T) (header : Header) (output : List ℕ) (d : Decoder D T) (huffman : D)
      (rest : List ℕ)
      → IsAppend append
      → ((h : H) → IsCoder k h header.name)
      → ((h : H) → IsCoder k h header.value)
      → length header.name < 2 ^ 63
      → length header.value < 2 ^ 63
      → is_use_cache header.compression ≡ false
      → (find_index f e.context header true).0 ≡ 0
      → ReadBack header output d huffman rest (encode_header_field k append l f e header output)
  field_round_trip e header output d huffman rest a name value name_small value_small keep unknown =
      let literal = field_literal e header output keep unknown in
      let pattern : ℕ = entry_starting_bit_pattern (literal_entry_type header.compression) in
      let behind : Encoder H T → List ℕ → Written H T = value_behind header output in
      elim (index_written header.compression output a keep) [
        | inl no_index ↦
            inl (subst (Undone output) (sym literal) (index_failed e header output no_index))
        | inr index ↦
            let begun = literal ∙ index_behind e header output (output ++ (pattern ∷ [])) index in
            let (h₁, named) =
              string_codes k append e.huffman_mode e.huffman_encoder header.name
                (output ++ (pattern ∷ [])) huffman a (name e.huffman_encoder) name_small in
            elim named [
              | inl no_name ↦ inl (
                  subst (Undone output) (sym begun) (
                    then_failed e output header.name (output ++ (pattern ∷ [])) behind
                      (pattern ∷ []) no_name refl))
              | inr (name_code, name_written, name_read) ↦
                  value_round_trip (record e { huffman_encoder = h₁ }) header output d huffman rest
                    name_code (encode_header_field k append l f e header output) a value value_small
                    keep name_read
                    (begun
                      ∙ then_written e output header.name (output ++ (pattern ∷ [])) behind
                          name_written)
            ]
      ]
