-- ===== src/Http1/Decoder/Lines.antt =====
-- The other line states of source/h1_decoder.c.
use aws_c_http.Prelude.{
  ℕ, ◌/◌, Bool, true, not, ◌&&◌, ◌||◌, Option, none, some, List, [], ◌∷◌, ltb, leb, ◌==◌,
  if◌then◌else◌, length, get_or,
}
use aws_c_http.Strutil.Chars.{is_http_token, is_http_reason_phrase, is_http_request_target}
use aws_c_http.Http1.Decoder.Types.{
  Span, Vtable, Common, Decoder, Outcome, next, fail, protocol_error, unraised_error, and_then,
  call, set_state, set_line_state, chunk, LineState, request_line, response_line, header_line,
  chunk_size_line, chunk_terminator_line, informational_block,
}
use aws_c_http.Http1.Decoder.Split.{cursor_at, split_first_n_times, split_exactly_n_times}
use aws_c_http.Http1.Decoder.Headers.{linestate_header}

-- "HTTP/1.1" and "HTTP/1.0" of `aws_http_version_to_str`
abbrev pub version_1_1 : List ℕ
version_1_1 = b'H' ∷ b'T' ∷ b'T' ∷ b'P' ∷ b'/' ∷ b'1' ∷ b'.' ∷ b'1' ∷ []

abbrev pub version_1_0 : List ℕ
version_1_0 = b'H' ∷ b'T' ∷ b'T' ∷ b'P' ∷ b'/' ∷ b'1' ∷ b'.' ∷ b'0' ∷ []

unfoldable pub check_info_response_status_code : ℕ → Bool
check_info_response_status_code code_val = leb 100 code_val && ltb code_val 200

module _ {U : Type 0} where
  unfoldable pub linestate_chunk_terminator : List ℕ → Decoder U → Outcome U
  linestate_chunk_terminator input d =
      if not (length input == 0)
      then fail protocol_error d
      else next (set_line_state d chunk_size_line)

  -- What a status code says of the body and of the header block.
  unfoldable pub note_status : ℕ → Decoder U → Decoder U
  unfolding check_info_response_status_code
  note_status code_val d = record d {
    body_headers_ignored = d.body_headers_ignored || code_val == 304;
    body_headers_forbidden = code_val == 204 || code_val / 100 == 1;
    header_block =
        if check_info_response_status_code code_val then informational_block else d.header_block;
  }

module _ {U : Type 0} (c : Common) (v : Vtable U) where
  -- `s_linestate_chunk_size` with the size split off.
  unfoldable pub begin_chunk : List ℕ → Decoder U → Outcome U
  begin_chunk size d =
      let (parsed, err) = c.parse_u64_hex size in
      let d' = record d { chunk_size = parsed } in
      let d'' = record d' { chunk_processed = 0 } in
      if err
      then fail protocol_error d'
      else (if parsed == 0
          then and_then (call (v.on_body [] true) d'')
              (λ z. next (set_line_state (record z { doing_trailers = true }) header_line))
          else next (set_state d'' chunk))

  unfoldable pub split_chunk_size : List ℕ → List Span → Decoder U → Outcome U
  unfolding begin_chunk
  split_chunk_size input [] d = fail unraised_error d
  split_chunk_size input (size ∷ spans) d = begin_chunk (cursor_at input size) d

  unfoldable pub linestate_chunk_size : List ℕ → Decoder U → Outcome U
  unfolding split_chunk_size
  linestate_chunk_size input d = split_chunk_size input (c.splits input b';') d

  unfoldable pub accept_request : List ℕ → List ℕ → List ℕ → Decoder U → Outcome U
  accept_request method uri version d =
      if length method == 0 || (length uri == 0 || length version == 0)
      then fail protocol_error d
      else (if not (is_http_token method)
          then fail protocol_error d
          else (if not (is_http_request_target uri)
              then fail protocol_error d
              else (if not (c.eq version version_1_1)
                  then fail protocol_error d
                  else and_then (call (v.on_request method uri) d)
                      (λ d'. next (set_line_state d' header_line)))))

  unfoldable pub split_request : Option (List (List ℕ)) → Decoder U → Outcome U
  unfolding accept_request
  split_request none d = fail protocol_error d
  split_request (some cursors) d =
      accept_request (get_or cursors 0 []) (get_or cursors 1 []) (get_or cursors 2 []) d

  unfoldable pub linestate_request : List ℕ → Decoder U → Outcome U
  unfolding split_request
  linestate_request input d = split_request (split_exactly_n_times c input b' ' 3) d

  unfoldable pub accept_response : List ℕ → List ℕ → List ℕ → Decoder U → Outcome U
  accept_response version code phrase d =
      let (code_val, err) = c.parse_u64 code in
      if not (c.eq version version_1_1) && not (c.eq version version_1_0)
      then fail protocol_error d
      else (if not (is_http_reason_phrase phrase)
          then fail protocol_error d
          else (if err || (not (length code == 3) || ltb 999 code_val)
              then fail protocol_error d
              else and_then (call (v.on_response code_val) (note_status code_val d))
                  (λ d'. next (set_line_state d' header_line))))

  unfoldable pub split_response : Option (List (List ℕ)) → Decoder U → Outcome U
  unfolding accept_response
  split_response none d = fail protocol_error d
  split_response (some cursors) d =
      accept_response (get_or cursors 0 []) (get_or cursors 1 []) (get_or cursors 2 []) d

  unfoldable pub linestate_response : List ℕ → Decoder U → Outcome U
  unfolding split_response
  linestate_response input d = split_response (split_first_n_times c input b' ' 3) d

  -- `decoder->process_line(decoder, line)`; the code does not call the null pointer.
  unfoldable pub process_line : Option LineState → List ℕ → Decoder U → Outcome U
  process_line none line d = next d
  process_line (some request_line) line d = linestate_request line d
  process_line (some response_line) line d = linestate_response line d
  process_line (some header_line) line d = linestate_header c v line d
  process_line (some chunk_size_line) line d = linestate_chunk_size line d
  process_line (some chunk_terminator_line) line d = linestate_chunk_terminator line d
