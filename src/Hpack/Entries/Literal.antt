-- ===== src/Hpack/Entries/Literal.antt =====
-- A literal header field with a new name, read by `aws_hpack_decode` of source/hpack_decoder.c.
use aws_c_http.Prelude.{
  ℕ, suc, ◌≡◌, ◌≢◌, refl, ap, ◌∙◌, false, Option, some, List, [], ◌∷◌, ◌++◌, length,
  take-length_append, drop-length_append, arith,
}
use mathlib.Core.Path.{ap₂}
use aws_c_http.Hpack.Integer.Codec.{masked_right_bits_u8, decode_integer}
use aws_c_http.Hpack.Table.Ring.{
  Compression, use_cache, no_cache, no_forward_cache, Header, Lookups,
}
use aws_c_http.Hpack.Strings.Codec.{Coder, decode_string, string_complete}
use aws_c_http.Hpack.Strings.Reading.{fresh}
use aws_c_http.Hpack.Entries.Encode.{is_use_cache, literal_entry_type, entry_starting_bit_pattern}
use aws_c_http.Hpack.Entries.Decode.{
  entry_init, literal_begin, literal_name_string, literal_value_string, Decoder, Round, goes_on,
  failed, finished, failed, header_field, first_byte_entry, round, run_rounds, decode, zero_entry,
  ProgressEntry, with_integer, with_string, name_read, value_read, name_index_read, set_entry,
  set_integer, handle_complete, deliver_literal, begin_literal,
}

module _ {H D T : Type 0} (k : Coder H D) (l : Lookups T) where
  -- A decoder between two entries.
  abbrev pub between : Decoder D T → D → Decoder D T
  between d huffman = record d {
    strings = fresh k huffman;
    progress_entry = record (d.progress_entry) { state = entry_init };
  }

  -- A decoder in a literal: in front of its index, of its name and of its value.
  abbrev at_index : Compression → ProgressEntry
  at_index c = record zero_entry { compression = c; prefix_size = 4; state = literal_begin }

  abbrev at_name : Compression → ProgressEntry
  at_name c = record zero_entry { compression = c; prefix_size = 4; state = literal_name_string }

  abbrev at_value : Compression → List ℕ → ProgressEntry
  at_value c name = record zero_entry {
    compression = c;
    prefix_size = 4;
    state = literal_value_string;
    scratch = name;
    name_length = length name;
  }

  abbrev in_literal : Decoder D T → D → ProgressEntry → Decoder D T
  in_literal d huffman p = record d { strings = fresh k huffman; progress_entry = p }

  delivered :
      (c : Compression) (d : Decoder D T) (header : Header) (rest : List ℕ)
      → is_use_cache c ≡ false
      → (d' : Decoder D T) × (deliver_literal l d header c rest
          ≡ finished (header_field header) d' rest)
        × (d'.context ≡ d.context)
  unfolding deliver_literal handle_complete is_use_cache
  delivered use_cache d header rest e = absurd (ground (arith, e))
  delivered no_cache d header rest e = (_, refl, refl)
  delivered no_forward_cache d header rest e = (_, refl, refl)

  nothing_read :
      (huffman huffman' : D) (out out' rest : List ℕ)
      → decode_string k (fresh k huffman) [] out ≢ string_complete (fresh k huffman') out' rest
  unfolding decode_string
  nothing_read huffman huffman' out out' rest e = absurd (ground (arith, e))

  -- The rounds behind a round.
  abbrev continue : ℕ → Round D T → Option (Round D T)
  continue fuel x = elim x [
    | goes_on d rest ↦ run_rounds k l fuel d rest
    | finished result d rest ↦ some (finished result d rest)
    | failed d ↦ some (failed d)
  ]

  -- The last round: the value.
  value_round :
      (fuel : ℕ) (d : Decoder D T) (huffman huffman' : D) (c : Compression)
      (name value input rest : List ℕ)
      → is_use_cache c ≡ false
      → decode_string k (fresh k huffman) input name
        ≡ string_complete (fresh k huffman') (name ++ value) rest
      → (d' : Decoder D T) × (run_rounds k l
            (suc fuel)
            (in_literal d huffman (at_value c name))
            input
          ≡ some (
              finished
                (header_field (record { name = name; value = value; compression = c }))
                d'
                rest))
        × (d'.context ≡ d.context)
  unfolding run_rounds round with_string value_read
  value_round fuel d huffman huffman' c name value [] rest keep e =
      absurd (nothing_read huffman huffman' name (name ++ value) rest e)
  value_round fuel d huffman huffman' c name value (b ∷ bs) rest keep e =
      let p : ProgressEntry = record (at_value c name) { scratch = name ++ value } in
      let (d', end, same) =
        delivered c (in_literal d huffman' p)
          (record { name = name; value = value; compression = c }) rest keep in
      (
        d',
        ap
              (λ s.
                continue fuel
                  (with_string (in_literal d huffman (at_value c name)) s (value_read l)))
              e
            ∙ ap₂
                (λ n z. continue fuel (
                  deliver_literal l (in_literal d huffman' p)
                    (record { name = n; value = z; compression = c }) c rest))
                (take-length_append name value) (drop-length_append name value)
            ∙ ap (continue fuel) end,
        same,
      )

  -- The round before it: the name.
  name_round :
      (fuel : ℕ) (d : Decoder D T) (huffman huffman' : D) (c : Compression)
      (name input rest : List ℕ)
      → decode_string k (fresh k huffman) input [] ≡ string_complete (fresh k huffman') name rest
      → run_rounds k l (suc fuel) (in_literal d huffman (at_name c)) input
        ≡ run_rounds k l fuel (in_literal d huffman' (at_value c name)) rest
  unfolding run_rounds round with_string name_read set_entry
  name_round fuel d huffman huffman' c name [] rest e =
      absurd (nothing_read huffman huffman' [] name rest e)
  name_round fuel d huffman huffman' c name (b ∷ bs) rest e =
      ap (λ s. continue fuel (with_string (in_literal d huffman (at_name c)) s name_read)) e

  -- The first two rounds: the kind of the entry, and its index of zero.
  index_rounds :
      (fuel : ℕ) (d : Decoder D T) (huffman : D) (c : Compression) (rest : List ℕ)
      → is_use_cache c ≡ false
      → run_rounds k l
          (suc (suc fuel))
          (between d huffman)
          (entry_starting_bit_pattern (literal_entry_type c) ∷ rest)
        ≡ run_rounds k l fuel (in_literal d huffman (at_name c)) rest
  unfolding run_rounds round first_byte_entry begin_literal with_integer name_index_read set_entry
      set_integer entry_starting_bit_pattern literal_entry_type is_use_cache decode_integer
      masked_right_bits_u8
  index_rounds fuel d huffman use_cache rest e = absurd (ground (arith, e))
  index_rounds fuel d huffman no_cache rest e = refl
  index_rounds fuel d huffman no_forward_cache rest e = refl

  -- A literal with a new name that is all there.
  pub literal_read :
      (d : Decoder D T) (huffman huffman₁ huffman₂ : D) (header : Header)
      (name_code value_code rest : List ℕ)
      → is_use_cache header.compression ≡ false
      → decode_string k (fresh k huffman) (name_code ++ (value_code ++ rest)) []
        ≡ string_complete (fresh k huffman₁) header.name (value_code ++ rest)
      → decode_string k (fresh k huffman₁) (value_code ++ rest) header.name
        ≡ string_complete (fresh k huffman₂) (header.name ++ header.value) rest
      → (d' : Decoder D T) × (decode k l (between d huffman) (
            entry_starting_bit_pattern (literal_entry_type header.compression)
            ∷ (name_code ++ (value_code ++ rest)))
          ≡ some (finished (header_field header) d' rest))
        × (d'.context ≡ d.context)
  unfolding decode
  literal_read d huffman huffman₁ huffman₂ header name_code value_code rest keep name value =
      let (d', end, same) =
        value_round 0 d huffman₁ huffman₂ header.compression header.name header.value
          (value_code ++ rest) rest keep value in
      (
        d',
        index_rounds 2 d huffman header.compression (name_code ++ (value_code ++ rest)) keep
            ∙ name_round 1 d huffman huffman₁ header.compression header.name
                (name_code ++ (value_code ++ rest)) (value_code ++ rest) name
            ∙ end,
        same,
      )
