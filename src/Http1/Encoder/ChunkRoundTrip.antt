-- ===== src/Http1/Encoder/ChunkRoundTrip.antt =====
-- The line of a chunk that `aws_h1_chunk_new` of source/h1_encoder.c makes, read by
-- `s_linestate_chunk_size` of source/h1_decoder.c.
use aws_c_http.Prelude.{
  ℕ, ◌+◌, ◌≤◌, ◌<◌, ◌≡◌, ◌≢◌, ◌⊎◌, refl, ap, ◌∙◌, inl, inr, true, false, some, List, [], ◌∷◌, ◌++◌,
  All, ◌==◌, length, take-length_append, arith,
}
use aws_c_http.Prelude.Words.{u64_max}
use aws_c_http.ByteBuf.{Write, IsWrite}
use aws_c_http.Http1.Decoder.Types.{Span, Common, Vtable, Decoder, next, set_state, chunk}
use aws_c_http.Http1.Decoder.Lines.{begin_chunk, split_chunk_size, linestate_chunk_size}
use aws_c_http.Http1.Encoder.Types.{Chunk}
use aws_c_http.Http1.Encoder.States.{crlf}
use aws_c_http.Http1.Encoder.Head.{Allocate}
use aws_c_http.Http1.Encoder.Chunks.{
  ChunkExtension, ChunkOptions, upper_hex, calculate_chunk_line_size, chunk_new,
}
use aws_c_http.Http1.Encoder.ChunkLines.{
  IsHexDigit, hex_value, upper_hex-IsHex, extension_bytes, extension_count, extensions_size_lem,
  line_of, line_populated,
}

-- What follows the first cursor of a splitting: nothing, or the byte to split on.
abbrev pub StartsWith : ℕ → List ℕ → Type 0
StartsWith b ys = (ys ≡ []) ⊎ ((zs : List ℕ) × (ys ≡ b ∷ zs))

-- What aws-c-common documents of `aws_byte_cursor_next_split` and of
-- `aws_byte_cursor_utf8_parse_u64_hex`, as far as it is used here.
pub record ReadsChunkSize (c : Common) : Type 0 where
  pub first_split :
      (xs ys : List ℕ)
      → All (λ b. b ≢ b';') xs
      → StartsWith b';' ys
      → (spans : List Span) × (c.splits (xs ++ ys) b';'
          ≡ record { offset = 0; size = length xs } ∷ spans)
  pub parses_hex :
      (xs : List ℕ)
      → 0 < length xs
      → All IsHexDigit xs
      → hex_value 0 xs ≤ u64_max
      → c.parse_u64_hex xs ≡ (hex_value 0 xs, false)

digits_unsplit : (xs : List ℕ) → All IsHexDigit xs → All (λ b. b ≢ b';') xs
digits_unsplit [] h = tt
digits_unsplit (x ∷ xs) h = (
  λ q. elim h.0 [
    | inl low ↦ omega (arith, q)
    | inr (inl upper) ↦ omega (arith, q)
    | inr (inr lower) ↦ omega (arith, q)
  ],
  digits_unsplit xs h.1,
)

extensions-StartsWith : (xs : List ChunkExtension) → StartsWith b';' (extension_bytes xs)
extensions-StartsWith [] = inl refl
extensions-StartsWith (x ∷ xs) = inr (_, refl)

no_digits : (xs : List ℕ) → 0 < hex_value 0 xs → 0 < length xs
no_digits [] h = omega arith
no_digits (x ∷ xs) h = omega arith

module _ {S : Type 0} (write : Write) (whole : IsWrite write) (allocate : Allocate) where
  line_made :
      (options : ChunkOptions S)
      → options.chunk_data_size ≤ u64_max
      → 19 + extension_count options.extensions ≤ u64_max
      → allocate (19 + extension_count options.extensions) ≡ true
      → chunk_new write allocate options
        ≡ some (
          record {
            chunk_data = options.chunk_data;
            data_size = options.chunk_data_size;
            on_complete = options.on_complete;
            chunk_line = line_of options.chunk_data_size options.extensions ++ crlf;
          },
          true,
        )
  unfolding chunk_new calculate_chunk_line_size
  line_made options small fits memory =
      let (value, digits, short) =
        upper_hex-IsHex 15 options.chunk_data_size (omega (arith, small)) in
      let count : ℕ = 19 + extension_count options.extensions in
      rw (extensions_size_lem options.extensions 19 fits, memory)
        (ap
          (λ z. some (
            record {
              chunk_data = options.chunk_data;
              data_size = options.chunk_data_size;
              on_complete = options.on_complete;
              chunk_line = z.0.contents;
            },
            z.1,
          ))
          (line_populated write whole options count short (omega arith)))

module _ {U : Type 0} (c : Common) (reads : ReadsChunkSize c) (v : Vtable U) where
  size_read :
      (n : ℕ) (xs : List ChunkExtension) (d : Decoder U)
      → n ≤ u64_max
      → 0 < n
      → linestate_chunk_size c v (line_of n xs) d
        ≡ next (set_state (record d { chunk_size = n; chunk_processed = 0 }) chunk)
  unfolding linestate_chunk_size split_chunk_size begin_chunk
  size_read n xs d small more =
      let hex : List ℕ = upper_hex 15 n in
      let (value, digits, short) = upper_hex-IsHex 15 n (omega (arith, small)) in
      let (spans, split) =
        reads.first_split hex (extension_bytes xs) (digits_unsplit hex digits)
          (extensions-StartsWith xs) in
      let parsed : c.parse_u64_hex hex ≡ (n, false) =
        reads.parses_hex hex (no_digits hex (omega (arith, value, more))) digits
          (omega (arith, value, small))
        ∙ ap (λ n. (n, false)) value in
      let other : (n == 0) ≡ false = ground (arith, more) in
      rw (split, take-length_append hex (extension_bytes xs), parsed, other) refl

module _ {S U : Type 0} (write : Write) (whole : IsWrite write) (allocate : Allocate) (c : Common)
    (reads : ReadsChunkSize c) (v : Vtable U) where
  -- With memory for a line whose counted size is a `size_t`, a chunk of any size but zero is made, its
  -- line fits and ends in "\r\n", and from the line without its end, extensions included, the decoder
  -- reads the size of the chunk and begins a chunk of that size.
  pub chunk_size_round_trip :
      (options : ChunkOptions S) (d : Decoder U)
      → 0 < options.chunk_data_size
      → options.chunk_data_size ≤ u64_max
      → 19 + extension_count options.extensions ≤ u64_max
      → allocate (19 + extension_count options.extensions) ≡ true
      → (made : Chunk S) × (line : List ℕ) × (chunk_new write allocate options ≡ some (made, true))
        × (made.data_size ≡ options.chunk_data_size)
        × (made.chunk_line ≡ line ++ crlf)
        × (linestate_chunk_size c v line d
            ≡ next (
                set_state
                  (record d { chunk_size = options.chunk_data_size; chunk_processed = 0 })
                  chunk))
  chunk_size_round_trip options d more small fits memory = (
    _,
    line_of options.chunk_data_size options.extensions,
    line_made write whole allocate options small fits memory,
    refl,
    refl,
    size_read c reads v options.chunk_data_size options.extensions d small more,
  )
