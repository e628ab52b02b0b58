-- ===== src/Hpack/Entries/Encode.antt =====
-- The header blocks of source/hpack_encoder.c.
use aws_c_http.Prelude.{
  ℕ, Bool, true, false, not, ◌&&◌, List, [], ◌∷◌, ◌==◌, if◌then◌else◌, length, take, min,
}
use aws_c_http.Prelude.Words.{u64_max}
use aws_c_http.Hpack.Integer.Codec.{
  Append, Encoded, encoded, append_failed, out_of_fuel, encode_integer,
}
use aws_c_http.Hpack.Table.Ring.{
  Compression, use_cache, no_cache, no_forward_cache, Header, Table, Lookups,
}
use aws_c_http.Hpack.Table.Operations.{table_init, insert_header, resize_dynamic_table}
use aws_c_http.Hpack.Static.{Finds, find_index}
use aws_c_http.Hpack.Strings.Codec.{HuffmanMode, huffman_smallest, Coder, encode_string}

-- `enum aws_hpack_entry_type`
pub data EntryType : Type 0 where
  indexed_header_field literal_with_incremental_indexing literal_without_indexing : EntryType
  literal_never_indexed dynamic_table_resize : EntryType

unfoldable pub entry_starting_bit_pattern : EntryType → ℕ
entry_starting_bit_pattern indexed_header_field = 0x80
entry_starting_bit_pattern literal_with_incremental_indexing = 0x40
entry_starting_bit_pattern dynamic_table_resize = 0x20
entry_starting_bit_pattern literal_never_indexed = 0x10
entry_starting_bit_pattern literal_without_indexing = 0

unfoldable pub entry_num_prefix_bits : EntryType → ℕ
entry_num_prefix_bits indexed_header_field = 7
entry_num_prefix_bits literal_with_incremental_indexing = 6
entry_num_prefix_bits dynamic_table_resize = 5
entry_num_prefix_bits literal_never_indexed = 4
entry_num_prefix_bits literal_without_indexing = 4

unfoldable pub literal_entry_type : Compression → EntryType
literal_entry_type use_cache = literal_with_incremental_indexing
literal_entry_type no_cache = literal_without_indexing
literal_entry_type no_forward_cache = literal_never_indexed

unfoldable pub is_use_cache : Compression → Bool
is_use_cache use_cache = true
is_use_cache no_cache = false
is_use_cache no_forward_cache = false

-- `dynamic_table_size_update` of `struct aws_hpack_encoder`
pub record SizeUpdate : Type 0 where
  pub latest_value : ℕ
  pub smallest_value : ℕ
  pub pending : Bool

-- `struct aws_hpack_encoder`
pub record Encoder (H T : Type 0) : Type 0 where
  pub huffman_encoder : H
  pub huffman_mode : HuffmanMode
  pub context : Table T
  pub dynamic_table_size_update : SizeUpdate

abbrev pub no_size_update : SizeUpdate
no_size_update = record { latest_value = u64_max; smallest_value = u64_max; pending = false }

-- What a call leaves: the encoder, the output, and C's error.
pub record Written (H T : Type 0) : Type 0 where
  pub encoder : Encoder H T
  pub output : List ℕ
  pub err : Bool

-- An integer that is written, as an output and C's error; the loop has rounds for each 64-bit number.
unfoldable pub written_integer : List ℕ → Encoded → List ℕ × Bool
written_integer output (encoded out) = (out, false)
written_integer output (append_failed out) = (out, true)
written_integer output out_of_fuel = (output, true)

module _ {H T : Type 0} where
  unfoldable pub encoder_init : H → T → Encoder H T
  encoder_init huffman lookup = record {
    huffman_encoder = huffman;
    huffman_mode = huffman_smallest;
    context = table_init lookup;
    dynamic_table_size_update = no_size_update;
  }

  unfoldable pub set_huffman_mode : Encoder H T → HuffmanMode → Encoder H T
  set_huffman_mode e mode = record e { huffman_mode = mode }

  unfoldable pub update_max_table_size : Encoder H T → ℕ → Encoder H T
  update_max_table_size e new_max_size = record e {
    dynamic_table_size_update = record {
      latest_value = new_max_size;
      smallest_value = min new_max_size e.dynamic_table_size_update.smallest_value;
      pending = true;
    };
  }

  -- The error exit: the length of the output as it was.
  unfoldable pub field_failed : Encoder H T → List ℕ → List ℕ → Written H T
  field_failed e original out = record {
    encoder = e;
    output = take (length original) out;
    err = true;
  }

module _ {H D T : Type 0} (k : Coder H D) (append : Append) (l : Lookups T) (f : Finds T) where
  -- A string of a header field, and what follows it.
  unfoldable pub then_string :
      Encoder H T → List ℕ → List ℕ → List ℕ → (Encoder H T → List ℕ → Written H T) → Written H T
  unfolding field_failed written_integer
  then_string e original s out next =
      let (h, result) = encode_string k append e.huffman_mode e.huffman_encoder s out in
      let e' = record e { huffman_encoder = h } in
      let (out', err) = written_integer out result in
      if err then field_failed e' original out' else next e' out'

  -- The end of `s_encode_header_field`.
  unfoldable pub index_literal : Header → EntryType → List ℕ → Encoder H T → List ℕ → Written H T
  unfolding field_failed
  index_literal header literal_with_incremental_indexing original e out =
      let (table, err) = insert_header l e.context header in
      let e' = record e { context = table } in
      if err
      then field_failed e' original out
      else record { encoder = e'; output = out; err = false }
  index_literal header entry_type original e out = record { encoder = e; output = out; err = false }

  -- A literal header field, with its name in a table or not.
  unfoldable pub encode_literal : Encoder H T → Header → ℕ → List ℕ → Written H T
  unfolding then_string index_literal written_integer entry_starting_bit_pattern
      entry_num_prefix_bits
  encode_literal e header header_index output =
      let entry_type = literal_entry_type header.compression in
      let (out, err) = written_integer output (
        encode_integer append header_index (entry_starting_bit_pattern entry_type)
          (entry_num_prefix_bits entry_type) output) in
      let value : Encoder H T → List ℕ → Written H T = λ e' out'.
        then_string e' output header.value out' (index_literal header entry_type output) in
      if err
      then field_failed e output out
      else (if not (header_index == 0)
          then value e out
          else then_string e output header.name out value)

  unfoldable pub encode_header_field : Encoder H T → Header → List ℕ → Written H T
  unfolding encode_literal is_use_cache written_integer
  encode_header_field e header output =
      let (header_index, found) = find_index f e.context header true in
      let found_indexed_value = is_use_cache header.compression && found in
      let (out, err) = written_integer output (
        encode_integer append header_index (entry_starting_bit_pattern indexed_header_field)
          (entry_num_prefix_bits indexed_header_field) output) in
      if not (header_index == 0) && found_indexed_value
      then (if err
          then field_failed e output out
          else record { encoder = e; output = out; err = false })
      else encode_literal e header header_index output

  unfoldable pub encode_header_fields : List Header → Encoder H T → List ℕ → Written H T
  unfolding encode_header_field
  encode_header_fields [] e output = record { encoder = e; output = output; err = false }
  encode_header_fields (header ∷ headers) e output =
      let w = encode_header_field e header output in
      let rest = encode_header_fields headers w.encoder w.output in if w.err then w else rest

  -- One dynamic table size update.
  unfoldable pub encode_size_update : Encoder H T → ℕ → List ℕ → Written H T
  unfolding written_integer
  encode_size_update e value output =
      let (table, resize_err) = resize_dynamic_table l e.context value in
      let e' = record e { context = table } in
      let (out, err) = written_integer output (
        encode_integer append value (entry_starting_bit_pattern dynamic_table_resize)
          (entry_num_prefix_bits dynamic_table_resize) output) in
      if resize_err
      then record { encoder = e'; output = output; err = true }
      else record { encoder = e'; output = out; err = err }

  -- The updates in front of the first header block behind a change of the size.
  unfoldable pub encode_size_updates : Encoder H T → List ℕ → Written H T
  unfolding encode_size_update
  encode_size_updates e output =
      let update = e.dynamic_table_size_update in
      let smallest =
        if not (update.smallest_value == update.latest_value)
        then encode_size_update e update.smallest_value output
        else record { encoder = e; output = output; err = false } in
      let latest = encode_size_update smallest.encoder update.latest_value smallest.output in
      if smallest.err
      then smallest
      else (if latest.err then latest else record latest {
        encoder = record (latest.encoder) { dynamic_table_size_update = no_size_update };
      })

  unfoldable pub encode_header_block : Encoder H T → List Header → List ℕ → Written H T
  unfolding encode_size_updates encode_header_fields
  encode_header_block e headers output =
      let w = encode_size_updates e output in
      if e.dynamic_table_size_update.pending
      then (if w.err then w else encode_header_fields headers w.encoder w.output)
      else encode_header_fields headers e output
