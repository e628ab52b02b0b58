-- ===== src/Http1/Encoder/Scan.antt =====
-- The scans of source/h1_encoder.c over the headers of a message and over trailing headers.
use aws_c_http.Prelude.{
  ℕ, ◌+◌, Bool, true, false, not, ◌&&◌, ◌||◌, List, [], ◌∷◌, ltb, ◌==◌, if◌then◌else◌, length, map,
}
use aws_c_http.Prelude.Words.{u64_max}
use aws_c_http.Strutil.Chars.{is_http_token, is_http_field_value, trim_http_whitespace}
use aws_c_http.Hpack.Table.Ring.{Header}
use aws_c_http.Http1.Messages.{
  invalid_header_name, invalid_header_value, invalid_header_field, invalid_body_stream,
  missing_body_stream, overflow_detected, Result, ok, raised, ◌>>=◌,
}
use aws_c_http.Http1.Decoder.Types.{Common}
use aws_c_http.Http1.Decoder.Split.{cursor_at}
use aws_c_http.Http1.Decoder.Headers.{content_length_text, transfer_encoding_text, coding_chunked}

abbrev pub connection_text : List ℕ
connection_text = b'c' ∷ b'o' ∷ b'n' ∷ b'n' ∷ b'e' ∷ b'c' ∷ b't' ∷ b'i' ∷ b'o' ∷ b'n' ∷ []

abbrev pub close_text : List ℕ
close_text = b'c' ∷ b'l' ∷ b'o' ∷ b's' ∷ b'e' ∷ []

-- aws-c-common's `aws_add_size_checked`
abbrev pub add_size_checked : ℕ → ℕ → Result ℕ
add_size_checked a b = if ltb u64_max (a + b) then raised overflow_detected else ok (a + b)

-- What `s_scan_outgoing_headers` keeps: fields of the message, and its local variables.
pub record Scanned : Type 0 where
  pub content_length : ℕ
  pub has_connection_close_header : Bool
  pub has_chunked_encoding_header : Bool
  pub total : ℕ
  pub has_content_length_header : Bool
  pub has_transfer_encoding_header : Bool

abbrev pub nothing_scanned : Scanned
nothing_scanned = record {
  content_length = 0;
  has_connection_close_header = false;
  has_chunked_encoding_header = false;
  total = 0;
  has_content_length_header = false;
  has_transfer_encoding_header = false;
}

-- The length of "{name}: {value}\r\n", added to the total.
unfoldable pub add_line : Header → ℕ → Result ℕ
add_line header total = do
  with_name ← add_size_checked (length header.name) total
  with_value ← add_size_checked (length header.value) with_name
  add_size_checked 4 with_value

-- The name and the trimmed value are valid.
unfoldable pub check_header : Header → Result (List ℕ)
check_header header =
    let field_value = trim_http_whitespace header.value in
    if not (is_http_token header.name)
    then raised invalid_header_name
    else (if not (is_http_field_value field_value)
        then raised invalid_header_value
        else ok field_value)

module _ (c : Common) where
  -- The loop over the codings.
  unfoldable pub scan_codings : List (List ℕ) → Scanned → Result Scanned
  scan_codings [] s = ok s
  scan_codings (substr ∷ substrs) s =
      let trimmed = trim_http_whitespace substr in
      let chunked = c.eq trimmed coding_chunked in
      let rest =
        scan_codings substrs
          (if chunked then record s { has_chunked_encoding_header = true } else s) in
      if length trimmed == 0
      then raised invalid_header_value
      else (if s.has_chunked_encoding_header then raised invalid_header_value else rest)

  unfoldable pub scan_content_length : List ℕ → Scanned → Result Scanned
  scan_content_length field_value s =
      let (parsed, failed) = c.parse_u64 field_value in
      if failed
      then raised invalid_header_value
      else ok (record s { has_content_length_header = true; content_length = parsed })

  unfoldable pub scan_transfer_encoding : List ℕ → Scanned → Result Scanned
  unfolding scan_codings
  scan_transfer_encoding field_value s =
      if length field_value == 0
      then raised invalid_header_value
      else scan_codings (map (cursor_at field_value) (c.splits field_value b','))
          (record s { has_transfer_encoding_header = true })

  -- The `switch` over the name.
  unfoldable pub scan_value : List ℕ → List ℕ → Scanned → Result Scanned
  unfolding scan_content_length scan_transfer_encoding
  scan_value name field_value s =
      if c.eq_ignore_case connection_text name
      then ok (
          if c.eq field_value close_text
          then record s { has_connection_close_header = true }
          else s)
      else (if c.eq_ignore_case content_length_text name
          then scan_content_length field_value s
          else (if c.eq_ignore_case transfer_encoding_text name
              then scan_transfer_encoding field_value s
              else ok s))

  unfoldable pub scan_header : Header → Scanned → Result Scanned
  unfolding check_header scan_value add_line
  scan_header header s = do
    field_value ← check_header header
    s' ← scan_value header.name field_value s
    total ← add_line header s'.total
    ok (record s' { total = total })

  unfoldable pub scan_headers : List Header → Scanned → Result Scanned
  unfolding scan_header
  scan_headers [] s = ok s
  scan_headers (header ∷ headers) s = scan_header header s >>= scan_headers headers

-- What follows the loop, for a message with a body stream or without.
unfoldable pub finish_scan : Bool → Bool → Bool → Scanned → Result Scanned
finish_scan has_body_stream body_headers_ignored body_headers_forbidden s =
    let s' =
      if body_headers_ignored
      then record s { content_length = 0; has_chunked_encoding_header = false }
      else s in
    if not s.has_chunked_encoding_header && s.has_transfer_encoding_header
    then raised invalid_header_value
    else (if s.has_chunked_encoding_header && s.has_content_length_header
        then raised invalid_header_value
        else (if s.has_chunked_encoding_header && has_body_stream
            then raised invalid_body_stream
            else (if body_headers_forbidden
                  && (ltb 0 s.content_length || s.has_transfer_encoding_header)
                then raised invalid_header_field
                else (if ltb 0 s'.content_length && not has_body_stream
                    then raised missing_body_stream
                    else ok s'))))

module _ (c : Common) where
  unfoldable pub scan_outgoing_headers : List Header → Bool → Bool → Bool → Result Scanned
  unfolding scan_headers finish_scan
  scan_outgoing_headers headers has_body_stream body_headers_ignored body_headers_forbidden = do
    s ← scan_headers c headers nothing_scanned
    finish_scan has_body_stream body_headers_ignored body_headers_forbidden s
