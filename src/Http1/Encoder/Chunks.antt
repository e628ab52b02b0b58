-- ===== src/Http1/Encoder/Chunks.antt =====
-- The chunks of source/h1_encoder.c.
use aws_c_http.Prelude.{
  ℕ, zero, suc, ◌+◌, ◌/◌, ◌%◌, Bool, true, Option, none, some, List, [], ◌∷◌, ◌++◌, ltb,
  if◌then◌else◌, length,
}
use aws_c_http.Prelude.Words.{add_u64}
use aws_c_http.ByteBuf.{Write}
use aws_c_http.Http1.Encoder.Types.{OnComplete, Chunk}
use aws_c_http.Http1.Encoder.States.{crlf}
use aws_c_http.Http1.Encoder.Head.{Filling, Allocate, put, put_all}

-- `struct aws_http1_chunk_extension`
pub record ChunkExtension : Type 0 where
  pub key : List ℕ
  pub value : List ℕ

-- `struct aws_http1_chunk_options`
pub record ChunkOptions (S : Type 0) : Type 0 where
  pub chunk_data : Option S
  pub chunk_data_size : ℕ
  pub extensions : List ChunkExtension
  pub on_complete : Option OnComplete

abbrev pub upper_hex_digit : ℕ → ℕ
upper_hex_digit d = if ltb d 10 then b'0' + d else 55 + d

-- "%PRIX64", with a round for each digit but the first.
unfoldable pub upper_hex : ℕ → ℕ → List ℕ
upper_hex zero n = upper_hex_digit n ∷ []
upper_hex (suc fuel) n =
    let rest = upper_hex fuel (n / 16) in
    if ltb n 16 then upper_hex_digit n ∷ [] else rest ++ (upper_hex_digit (n % 16) ∷ [])

-- A `size_t` that is not checked. `sizeof(';')` is that of an `int`.
unfoldable pub extensions_size : List ChunkExtension → ℕ → ℕ
extensions_size [] size = size
extensions_size (x ∷ xs) size =
    extensions_size xs
      (add_u64 (add_u64 (add_u64 (add_u64 size 4) (length x.key)) 4) (length x.value))

module _ {S : Type 0} where
  unfoldable pub calculate_chunk_line_size : ChunkOptions S → ℕ
  unfolding extensions_size
  calculate_chunk_line_size options = extensions_size options.extensions 19

module _ (write : Write) where
  unfoldable pub write_chunk_size : Filling → ℕ → Filling
  unfolding put upper_hex
  write_chunk_size b chunk_size = put write b (upper_hex 15 chunk_size)

  unfoldable pub write_chunk_extension : Filling → ChunkExtension → Filling
  unfolding put_all
  write_chunk_extension b x = put_all write b ((b';' ∷ []) ∷ x.key ∷ (b'=' ∷ []) ∷ x.value ∷ [])

  unfoldable pub write_chunk_extensions : Filling → List ChunkExtension → Filling
  unfolding write_chunk_extension
  write_chunk_extensions b [] = b
  write_chunk_extensions b (x ∷ xs) = write_chunk_extensions (write_chunk_extension b x) xs

module _ {S : Type 0} (write : Write) where
  unfoldable pub populate_chunk_line : Filling → ChunkOptions S → Filling
  unfolding write_chunk_size write_chunk_extensions put
  populate_chunk_line b options =
      put write
        (write_chunk_extensions write (write_chunk_size write b options.chunk_data_size)
          options.extensions)
        crlf

  -- `aws_h1_chunk_new`: the chunk, and whether the assertion on `wrote_chunk_line` holds; nothing where
  -- memory runs out.
  unfoldable pub chunk_new : Allocate → ChunkOptions S → Option (Chunk S × Bool)
  unfolding calculate_chunk_line_size populate_chunk_line
  chunk_new allocate options =
      let size = calculate_chunk_line_size options in
      let (line, wrote_chunk_line) =
        populate_chunk_line (record { contents = []; capacity = size }, true) options in
      if allocate size
      then some (
        record {
          chunk_data = options.chunk_data;
          data_size = options.chunk_data_size;
          on_complete = options.on_complete;
          chunk_line = line.contents;
        },
        wrote_chunk_line,
      )
      else none
