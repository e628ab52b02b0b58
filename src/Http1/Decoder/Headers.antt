-- ===== src/Http1/Decoder/Headers.antt =====
-- `s_linestate_header` of source/h1_decoder.c.
use aws_c_http.Prelude.{
  ℕ, not, ◌&&◌, ◌||◌, Option, none, some, List, [], ◌∷◌, ltb, ◌==◌, if◌then◌else◌, length, get_or,
  map, bit_or,
}
use aws_c_http.Prelude.Bits.{flag}
use aws_c_http.Strutil.Chars.{is_http_token, is_http_field_value, trim_http_whitespace}
use aws_c_http.Http1.Decoder.Types.{
  HeaderName, content_length_name, transfer_encoding_name, other_name, DecodedHeader, Vtable,
  Common, Decoder, Outcome, next, fail, protocol_error, and_then, call, set_state, set_line_state,
  mark_done, unchunked_body, header_line, chunk_size_line,
}
use aws_c_http.Http1.Decoder.Split.{cursor_at, split_first_n_times}

abbrev pub encoding_chunked : ℕ
encoding_chunked = 1

abbrev pub encoding_gzip : ℕ
encoding_gzip = 2

abbrev pub encoding_deflate : ℕ
encoding_deflate = 4

abbrev pub encoding_deprecated_compress : ℕ
encoding_deprecated_compress = 8

abbrev pub content_length_text : List ℕ
content_length_text =
    b'c' ∷ b'o' ∷ b'n' ∷ b't' ∷ b'e' ∷ b'n' ∷ b't' ∷ b'-' ∷ b'l' ∷ b'e' ∷ b'n' ∷ b'g' ∷ b't' ∷ b'h'
    ∷ []

abbrev pub transfer_encoding_text : List ℕ
transfer_encoding_text =
    b't' ∷ b'r' ∷ b'a' ∷ b'n' ∷ b's' ∷ b'f' ∷ b'e' ∷ b'r' ∷ b'-' ∷ b'e' ∷ b'n' ∷ b'c' ∷ b'o' ∷ b'd'
    ∷ b'i' ∷ b'n' ∷ b'g' ∷ []

abbrev pub coding_chunked : List ℕ
coding_chunked = b'c' ∷ b'h' ∷ b'u' ∷ b'n' ∷ b'k' ∷ b'e' ∷ b'd' ∷ []

abbrev pub coding_compress : List ℕ
coding_compress = b'c' ∷ b'o' ∷ b'm' ∷ b'p' ∷ b'r' ∷ b'e' ∷ b's' ∷ b's' ∷ []

abbrev pub coding_deflate : List ℕ
coding_deflate = b'd' ∷ b'e' ∷ b'f' ∷ b'l' ∷ b'a' ∷ b't' ∷ b'e' ∷ []

abbrev pub coding_gzip : List ℕ
coding_gzip = b'g' ∷ b'z' ∷ b'i' ∷ b'p' ∷ []

abbrev pub x_prefix : List ℕ → List ℕ
x_prefix coding = b'x' ∷ b'-' ∷ coding

module _ (c : Common) where
  -- `aws_http_str_to_header_name`, whose table ignores the case of a name.
  unfoldable pub str_to_header_name : List ℕ → HeaderName
  str_to_header_name name =
      if c.eq_ignore_case content_length_text name
      then content_length_name
      else (if c.eq_ignore_case transfer_encoding_text name
          then transfer_encoding_name
          else other_name)

  -- The flag that a coding adds: none if it is not known, and 0 for an empty one.
  unfoldable pub coding_flag : List ℕ → Option ℕ
  coding_flag coding =
      if c.eq_ignore_case coding_chunked coding
      then some encoding_chunked
      else (if c.eq_ignore_case coding_compress coding
            || c.eq_ignore_case (x_prefix coding_compress) coding
          then some encoding_deprecated_compress
          else (if c.eq_ignore_case coding_deflate coding
              then some encoding_deflate
              else (if c.eq_ignore_case coding_gzip coding
                    || c.eq_ignore_case (x_prefix coding_gzip) coding
                  then some encoding_gzip
                  else (if ltb 0 (length coding) then none else some 0))))

module _ {U : Type 0} where
  -- A known coding: nothing may change the flags once the chunked coding is among them.
  unfoldable pub add_coding : ℕ → Decoder U → Outcome U
  add_coding coding d =
      let prev_flags = d.transfer_encoding in
      let d' = record d { transfer_encoding = bit_or prev_flags coding } in
      if flag prev_flags encoding_chunked && not (bit_or prev_flags coding == prev_flags)
      then fail protocol_error d'
      else next d'

module _ {U : Type 0} (c : Common) where
  -- The loop over the codings of a value.
  unfoldable pub add_codings : List (List ℕ) → Decoder U → Outcome U
  unfolding add_coding coding_flag
  add_codings [] d = next d
  add_codings (split ∷ splits) d = elim (coding_flag c (trim_http_whitespace split)) [
    | none ↦ fail protocol_error d
    | some coding ↦ and_then (add_coding coding d) (add_codings splits)
  ]

  unfoldable pub transfer_encoding_header : List ℕ → Decoder U → Outcome U
  transfer_encoding_header value d =
      if not (d.content_length == 0)
      then fail protocol_error d
      else (if d.body_headers_forbidden
          then fail protocol_error d
          else add_codings (map (cursor_at value) (c.splits value b',')) d)

  unfoldable pub content_length_header : List ℕ → Decoder U → Outcome U
  content_length_header value d =
      let (parsed, err) = c.parse_u64 value in
      let d' = record d { content_length = parsed } in
      if not (d.transfer_encoding == 0)
      then fail protocol_error d
      else (if err
          then fail protocol_error d'
          else (if d.body_headers_forbidden && not (parsed == 0)
              then fail protocol_error d'
              else next d'))

  -- The `switch` over the name.
  unfoldable pub body_header : HeaderName → List ℕ → Decoder U → Outcome U
  body_header content_length_name value d = content_length_header value d
  body_header transfer_encoding_name value d = transfer_encoding_header value d
  body_header other_name value d = next d

module _ {U : Type 0} (c : Common) (v : Vtable U) where
  unfoldable pub accept_header : List ℕ → List ℕ → List ℕ → Decoder U → Outcome U
  accept_header input name value d =
      let header : DecodedHeader = record {
        name = str_to_header_name c name;
        name_data = name;
        value_data = value;
        data_line = input;
      } in
      and_then (body_header c header.name value d) (λ d'.
        and_then (call (v.on_header header) d') (λ d''. next (set_line_state d'' header_line)))

  -- What follows the headers of a message that may have a body.
  unfoldable pub begin_body : Decoder U → Outcome U
  begin_body d =
      if flag d.transfer_encoding encoding_chunked
      then next (set_line_state d chunk_size_line)
      else (if ltb 0 d.content_length then next (set_state d unchunked_body) else mark_done v d)

  -- The empty line at the end of the headers, or of the trailers.
  unfoldable pub end_headers : Decoder U → Outcome U
  unfolding begin_body
  end_headers d =
      if d.doing_trailers
      then mark_done v d
      else (if d.body_headers_ignored then mark_done v d else begin_body d)

  -- A header line that has a colon.
  unfoldable pub named_header : List ℕ → List ℕ → List ℕ → Decoder U → Outcome U
  named_header input name value d =
      if not (is_http_token name)
      then fail protocol_error d
      else (if not (is_http_field_value value)
          then fail protocol_error d
          else accept_header input name value d)

  unfoldable pub split_header : List ℕ → Option (List (List ℕ)) → Decoder U → Outcome U
  unfolding named_header
  split_header input none d = fail protocol_error d
  split_header input (some splits) d =
      named_header input (get_or splits 0 []) (trim_http_whitespace (get_or splits 1 [])) d

  unfoldable pub linestate_header : List ℕ → Decoder U → Outcome U
  unfolding end_headers split_header
  linestate_header input d =
      if length input == 0
      then end_headers d
      else split_header input (split_first_n_times c input b':' 2) d
