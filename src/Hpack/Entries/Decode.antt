-- ===== src/Hpack/Entries/Decode.antt =====
-- `aws_hpack_decode` of source/hpack_decoder.c.
use aws_c_http.Prelude.{
  ℕ, zero, suc, Option, none, some, List, [], ◌∷◌, ltb, ◌==◌, if◌then◌else◌, length, take, drop,
}
use aws_c_http.Prelude.Bits.{flag}
use aws_c_http.Hpack.Integer.Codec.{
  ProgressInteger, zero_progress, Decoded, ongoing, complete, overflow, decode_integer,
}
use aws_c_http.Hpack.Table.Ring.{
  Compression, use_cache, no_cache, no_forward_cache, Header, Table, Lookups, get_header,
  get_dynamic_table_max_size,
}
use aws_c_http.Hpack.Table.Operations.{table_init, insert_header, resize_dynamic_table}
use aws_c_http.Hpack.Static.{entry_header}
use aws_c_http.Hpack.Strings.Codec.{
  Coder, zero_string, StringDecoder, StringDecoded, string_ongoing, string_complete, string_failed,
  decode_string,
}

pub data EntryState : Type 0 where
  entry_init indexed literal_begin literal_name_string literal_value_string : EntryState
  dynamic_table_resize : EntryState

-- `struct hpack_progress_entry`; the members of its union are fields beside each other, of which a
-- state uses its own.
pub record ProgressEntry : Type 0 where
  pub state : EntryState
  pub index : ℕ
  pub prefix_size : ℕ
  pub compression : Compression
  pub name_index : ℕ
  pub name_length : ℕ
  pub size : ℕ
  pub scratch : List ℕ

abbrev pub zero_entry : ProgressEntry
zero_entry = record {
  state = entry_init;
  index = 0;
  prefix_size = 0;
  compression = use_cache;
  name_index = 0;
  name_length = 0;
  size = 0;
  scratch = [];
}

-- `struct aws_hpack_decoder`
pub record Decoder (D T : Type 0) : Type 0 where
  pub context : Table T
  pub dynamic_table_protocol_max_size_setting : ℕ
  pub strings : StringDecoder D
  pub progress_entry : ProgressEntry

-- `struct aws_hpack_decode_result`
pub data Result : Type 0 where
  header_field : Header → Result
  table_resized : ℕ → Result

-- What a round of the loop leaves: an entry that goes on, with the bytes left, an entry that is
-- complete, or an error.
pub data Round (D T : Type 0) : Type 0 where
  goes_on : Decoder D T → List ℕ → Round D T
  finished : Result → Decoder D T → List ℕ → Round D T
  failed : Decoder D T → Round D T

-- The literal that the first byte begins.
unfoldable pub begin_literal : ProgressEntry → Compression → ℕ → ProgressEntry
begin_literal p compression prefix_size = record p {
  compression = compression;
  prefix_size = prefix_size;
  state = literal_begin;
}

-- HPACK_ENTRY_STATE_INIT: the next state by the first byte, which is not taken.
unfoldable pub first_byte_entry : ℕ → ProgressEntry
unfolding begin_literal
first_byte_entry first_byte =
    if flag first_byte 0x80
    then record zero_entry { state = indexed }
    else (if flag first_byte 0x40
        then begin_literal zero_entry use_cache 6
        else (if flag first_byte 0x20
            then record zero_entry { state = dynamic_table_resize }
            else (if flag first_byte 0x10
                then begin_literal zero_entry no_forward_cache 4
                else begin_literal zero_entry no_cache 4)))

module _ {D T : Type 0} where
  unfoldable pub decoder_init : D → T → Decoder D T
  decoder_init huffman lookup = record {
    context = table_init lookup;
    dynamic_table_protocol_max_size_setting = get_dynamic_table_max_size (table_init lookup);
    strings = record {
      huffman_decoder = huffman;
      progress_integer = zero_progress;
      progress_string = zero_string;
    };
    progress_entry = zero_entry;
  }

  unfoldable pub update_max_table_size : Decoder D T → ℕ → Decoder D T
  update_max_table_size d setting_max_size = record d {
    dynamic_table_protocol_max_size_setting = setting_max_size;
  }

  unfoldable pub set_entry : Decoder D T → ProgressEntry → Decoder D T
  set_entry d p = record d { progress_entry = p }

  unfoldable pub set_integer : Decoder D T → ProgressInteger → Decoder D T
  set_integer d p = record d { strings = record (d.strings) { progress_integer = p } }

  -- `handle_complete`
  unfoldable pub handle_complete : Result → Decoder D T → List ℕ → Round D T
  unfolding set_entry
  handle_complete result d rest =
      finished result (set_entry d (record (d.progress_entry) { state = entry_init })) rest

  -- An integer of an entry: its progress, and what is done with the number where it is complete.
  unfoldable pub with_integer :
      Decoder D T
      → (ℕ → ProgressEntry)
      → Decoded
      → (Decoder D T → ℕ → List ℕ → Round D T)
      → Round D T
  unfolding set_entry set_integer
  with_integer d store (overflow p n rest) then_ = failed (set_integer (set_entry d (store n)) p)
  with_integer d store (ongoing p n) then_ = goes_on (set_integer (set_entry d (store n)) p) []
  with_integer d store (complete n rest) then_ =
      then_ (set_integer (set_entry d (store n)) zero_progress) n rest

  -- A string of an entry, which is decoded into the scratch space.
  unfoldable pub with_string :
      Decoder D T → StringDecoded D → (Decoder D T → List ℕ → Round D T) → Round D T
  with_string d (string_failed s) then_ = failed (record d { strings = s })
  with_string d (string_ongoing s out) then_ =
      goes_on
        (record d { strings = s; progress_entry = record (d.progress_entry) { scratch = out } }) []
  with_string d (string_complete s out rest) then_ =
      then_ (record d { strings = s; progress_entry = record (d.progress_entry) { scratch = out } })
        rest

  unfoldable pub index_found : Decoder D T → List ℕ → Option Header → Round D T
  unfolding handle_complete
  index_found d rest none = failed d
  index_found d rest (some header) = handle_complete (header_field header) d rest

  -- The index of an indexed header field is read.
  unfoldable pub index_read : Decoder D T → ℕ → List ℕ → Round D T
  unfolding index_found
  index_read d index rest = index_found d rest (entry_header (get_header d.context index))

  unfoldable pub name_read : Decoder D T → List ℕ → Round D T
  unfolding set_entry
  name_read d rest =
      goes_on
        (set_entry d (record (d.progress_entry) {
          name_length = length d.progress_entry.scratch;
          state = literal_value_string;
        }))
        rest

  -- The name that goes into the scratch space, where there is memory for it.
  unfoldable pub store_name : Decoder D T → ℕ → List ℕ → Option (List ℕ) → Round D T
  unfolding set_entry
  store_name d name_length rest none = failed d
  store_name d name_length rest (some scratch) =
      goes_on
        (set_entry d (record (d.progress_entry) {
          scratch = scratch;
          name_length = name_length;
          state = literal_value_string;
        }))
        rest

module _ {D T : Type 0} (l : Lookups T) where
  -- Saves a literal in the dynamic table, where it asks for it.
  unfoldable pub deliver_literal : Decoder D T → Header → Compression → List ℕ → Round D T
  unfolding handle_complete
  deliver_literal d header use_cache rest =
      let (table, err) = insert_header l d.context header in
      let d' = record d { context = table } in
      if err then failed d' else handle_complete (header_field header) d' rest
  deliver_literal d header compression rest = handle_complete (header_field header) d rest

  unfoldable pub value_read : Decoder D T → List ℕ → Round D T
  unfolding deliver_literal
  value_read d rest =
      let p = d.progress_entry in
      let header : Header = record {
        name = take p.name_length p.scratch;
        value = drop p.name_length p.scratch;
        compression = p.compression;
      } in
      deliver_literal d header p.compression rest

  -- The new size of the dynamic table is read.
  unfoldable pub size_read : Decoder D T → ℕ → List ℕ → Round D T
  unfolding handle_complete
  size_read d size rest =
      let (table, err) = resize_dynamic_table l d.context size in
      let d' = record d { context = table } in
      if ltb d.dynamic_table_protocol_max_size_setting size
      then failed d
      else (if err then failed d' else handle_complete (table_resized size) d' rest)

module _ {H D T : Type 0} (k : Coder H D) where
  unfoldable pub name_found : Decoder D T → List ℕ → Option Header → Round D T
  unfolding store_name
  name_found d rest none = failed d
  name_found d rest (some header) =
      store_name d (length header.name) rest (k.append_bytes d.progress_entry.scratch header.name)

  -- The index of the name of a literal is read.
  unfoldable pub name_index_read : Decoder D T → ℕ → List ℕ → Round D T
  unfolding set_entry name_found
  name_index_read d name_index rest =
      if name_index == 0
      then goes_on (set_entry d (record (d.progress_entry) { state = literal_name_string })) rest
      else name_found d rest (entry_header (get_header d.context name_index))

module _ {H D T : Type 0} (k : Coder H D) (l : Lookups T) where
  -- One round of the loop, on a byte at least.
  unfoldable pub round : EntryState → Decoder D T → ℕ → List ℕ → Round D T
  unfolding set_entry first_byte_entry with_integer with_string index_read name_read name_index_read
      value_read size_read
  round entry_init d b bs = goes_on (set_entry d (first_byte_entry b)) (b ∷ bs)
  round indexed d b bs =
      with_integer d (λ n. record (d.progress_entry) { index = n })
        (decode_integer 7 d.strings.progress_integer d.progress_entry.index (b ∷ bs)) index_read
  round literal_begin d b bs =
      with_integer d (λ n. record (d.progress_entry) { name_index = n })
        (decode_integer d.progress_entry.prefix_size d.strings.progress_integer
          d.progress_entry.name_index (b ∷ bs))
        (name_index_read k)
  round literal_name_string d b bs =
      with_string d (decode_string k d.strings (b ∷ bs) d.progress_entry.scratch) name_read
  round literal_value_string d b bs =
      with_string d (decode_string k d.strings (b ∷ bs) d.progress_entry.scratch) (value_read l)
  round dynamic_table_resize d b bs =
      with_integer d (λ n. record (d.progress_entry) { size = n })
        (decode_integer 5 d.strings.progress_integer d.progress_entry.size (b ∷ bs)) (size_read l)

  -- The loop of `aws_hpack_decode`, of at most `fuel` rounds; `none` means that the fuel ran out, and
  -- AWS_HPACK_DECODE_T_ONGOING is `goes_on` with no bytes.
  unfoldable pub run_rounds : ℕ → Decoder D T → List ℕ → Option (Round D T)
  run_rounds fuel d [] = some (goes_on d [])
  run_rounds zero d (b ∷ bs) = none
  run_rounds (suc fuel) d (b ∷ bs) = elim (round d.progress_entry.state d b bs) [
    | goes_on d' rest ↦ run_rounds fuel d' rest
    | finished result d' rest ↦ some (finished result d' rest)
    | failed d' ↦ some (failed d')
  ]

  -- `aws_hpack_decode`. An entry has at most four states.
  unfoldable pub decode : Decoder D T → List ℕ → Option (Round D T)
  decode d to_decode = run_rounds 4 d to_decode
