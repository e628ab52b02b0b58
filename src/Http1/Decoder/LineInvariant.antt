-- ===== src/Http1/Decoder/LineInvariant.antt =====
-- Every line state of source/h1_decoder.c leaves a well-formed decoder.
use aws_c_http.Prelude.{
  ℕ, ◌^◌, ◌<◌, ◌≡◌, inr, Bool, true, false, Option, none, some, List, [], ◌∷◌, ◌==◌, arith, get_or,
}
use aws_c_http.Http1.Decoder.Types.{
  chunk, LineState, request_line, response_line, header_line, chunk_size_line,
  chunk_terminator_line, Span, Vtable, Common, Decoder, next, protocol_error, unraised_error,
  and_then, call, set_state, set_line_state,
}
use aws_c_http.Http1.Decoder.Split.{cursor_at, split_first_n_times, split_exactly_n_times}
use aws_c_http.Http1.Decoder.Outcomes.{
  Leaves, if-Leaves, next-Leaves, fail-Leaves, and_then-Leaves, call-Leaves,
}
use aws_c_http.Http1.Decoder.Lines.{
  linestate_chunk_terminator, note_status, begin_chunk, split_chunk_size, linestate_chunk_size,
  accept_request, split_request, linestate_request, accept_response, split_response,
  linestate_response, process_line,
}
use aws_c_http.Http1.Decoder.Invariant.{
  IsCommon, AtLine, IsUnread, IsValid, line-IsValid, linestate_header-Leaves,
}

module _ {U : Type 0} (c : Common) (v : Vtable U) where
  terminator-Leaves :
      (input : List ℕ) (d : Decoder U)
      → IsUnread d
      → Leaves IsValid (linestate_chunk_terminator input d)
  unfolding linestate_chunk_terminator
  terminator-Leaves input d i =
      let ended = line-IsValid d chunk_size_line i.framed i.unread tt in
      search (if-Leaves, next-Leaves, fail-Leaves)

  -- A callback, and then the headers.
  headers-Leaves :
      (f : U → U × Bool) (d : Decoder U)
      → IsUnread d
      → Leaves IsValid (and_then (call f d) (λ d'. next (set_line_state d' header_line)))
  headers-Leaves f d i =
      and_then-Leaves
        (call-Leaves {P = IsUnread} f d (λ u. record { framed = i.framed; unread = i.unread }))
        (λ d' i'. next-Leaves _ (line-IsValid d' header_line i'.framed i'.unread tt))

  -- The last chunk, and then the trailers.
  trailers-Leaves :
      (f : U → U × Bool) (d : Decoder U)
      → IsUnread d
      → Leaves IsValid (
          and_then
            (call f d)
            (λ d'. next (set_line_state (record d' { doing_trailers = true }) header_line)))
  trailers-Leaves f d i =
      and_then-Leaves
        (call-Leaves {P = IsUnread} f d (λ u. record { framed = i.framed; unread = i.unread }))
        (λ d' i'.
          next-Leaves _
            (line-IsValid (record d' { doing_trailers = true }) header_line i'.framed i'.unread tt))

  chunk-IsValid :
      (size : ℕ) (d : Decoder U)
      → IsUnread d
      → size < 2 ^ 64
      → (size == 0) ≡ false
      → IsValid (set_state (record d { chunk_size = size; chunk_processed = 0 }) chunk)
  unfolding set_state
  chunk-IsValid size d i word some_left = record {
    framed = record {
      exclusive = i.framed.exclusive;
      no_body = i.framed.no_body;
      length_word = i.framed.length_word;
      chunk_word = word;
    };
    place = inr (ground arith, i.unread);
  }

  begin_chunk-Leaves :
      (size : List ℕ) (d : Decoder U)
      → IsCommon c
      → IsUnread d
      → Leaves IsValid (begin_chunk c v size d)
  unfolding begin_chunk
  begin_chunk-Leaves size d t i =
      let word = t.parsed_hex_word size in
      let parsed : ℕ = (c.parse_u64_hex size).0 in
      let last =
        trailers-Leaves (v.on_body [] true) (record d { chunk_size = parsed; chunk_processed = 0 })
          (record {
            framed = record {
              exclusive = i.framed.exclusive;
              no_body = i.framed.no_body;
              length_word = i.framed.length_word;
              chunk_word = word;
            };
            unread = i.unread;
          }) in
      let more = chunk-IsValid parsed d i word in search (if-Leaves, next-Leaves, fail-Leaves)

  split_chunk_size-Leaves :
      (input : List ℕ) (spans : List Span) (d : Decoder U)
      → IsCommon c
      → IsUnread d
      → Leaves IsValid (split_chunk_size c v input spans d)
  unfolding split_chunk_size
  split_chunk_size-Leaves input [] d t i = fail-Leaves unraised_error d
  split_chunk_size-Leaves input (s ∷ ss) d t i = begin_chunk-Leaves (cursor_at input s) d t i

  accept_request-Leaves :
      (method uri version : List ℕ) (d : Decoder U)
      → IsUnread d
      → Leaves IsValid (accept_request c v method uri version d)
  unfolding accept_request
  accept_request-Leaves method uri version d i =
      let accepted = headers-Leaves (v.on_request method uri) d i in search (if-Leaves, fail-Leaves)

  split_request-Leaves :
      (cursors : Option (List (List ℕ))) (d : Decoder U)
      → IsUnread d
      → Leaves IsValid (split_request c v cursors d)
  unfolding split_request
  split_request-Leaves none d i = fail-Leaves protocol_error d
  split_request-Leaves (some cursors) d i =
      accept_request-Leaves (get_or cursors 0 []) (get_or cursors 1 []) (get_or cursors 2 []) d i

  note_status-IsUnread :
      (code_val : ℕ) (d : Decoder U)
      → IsUnread d
      → d.content_length ≡ 0
      → d.transfer_encoding ≡ 0
      → IsUnread (note_status code_val d)
  unfolding note_status
  note_status-IsUnread code_val d i empty plain = record {
    framed = record {
      exclusive = i.framed.exclusive;
      no_body = λ e. (empty, plain);
      length_word = i.framed.length_word;
      chunk_word = i.framed.chunk_word;
    };
    unread = i.unread;
  }

  accept_response-Leaves :
      (version code phrase : List ℕ) (d : Decoder U)
      → IsUnread d
      → d.content_length ≡ 0
      → d.transfer_encoding ≡ 0
      → Leaves IsValid (accept_response c v version code phrase d)
  unfolding accept_response
  accept_response-Leaves version code phrase d i empty plain =
      let code_val : ℕ = (c.parse_u64 code).0 in
      let noted = note_status-IsUnread code_val d i empty plain in
      let accepted = headers-Leaves (v.on_response code_val) (note_status code_val d) noted in
      search (if-Leaves, fail-Leaves)

  split_response-Leaves :
      (cursors : Option (List (List ℕ))) (d : Decoder U)
      → IsUnread d
      → d.content_length ≡ 0
      → d.transfer_encoding ≡ 0
      → Leaves IsValid (split_response c v cursors d)
  unfolding split_response
  split_response-Leaves none d i empty plain = fail-Leaves protocol_error d
  split_response-Leaves (some cursors) d i empty plain =
      accept_response-Leaves _ _ _ d i empty plain

  pub process_line-Leaves :
      (l : Option LineState) (line : List ℕ) (d : Decoder U)
      → IsCommon c
      → IsUnread d
      → AtLine l d.content_length d.transfer_encoding
      → Leaves IsValid (process_line c v l line d)
  unfolding process_line linestate_request linestate_response linestate_chunk_size
  process_line-Leaves none line d t i at = absurd at
  process_line-Leaves (some request_line) line d t i at =
      split_request-Leaves (split_exactly_n_times c line b' ' 3) d i
  process_line-Leaves (some response_line) line d t i (empty, plain) =
      split_response-Leaves (split_first_n_times c line b' ' 3) d i empty plain
  process_line-Leaves (some header_line) line d t i at = linestate_header-Leaves c v line d t i
  process_line-Leaves (some chunk_size_line) line d t i at =
      split_chunk_size-Leaves line (c.splits line b';') d t i
  process_line-Leaves (some chunk_terminator_line) line d t i at = terminator-Leaves line d i
