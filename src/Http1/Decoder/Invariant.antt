-- ===== src/Http1/Decoder/Invariant.antt =====
-- The well-formed states of the decoder of source/h1_decoder.c, and that its states keep them.
use aws_c_http.Prelude.{
  ℕ, ◌^◌, ◌<◌, ◌≡◌, ◌⊎◌, inl, inr, refl, Bool, true, false, not, Option, none, some, List, [], ◌∷◌,
  ltb, ◌==◌, arith,
}
use aws_c_http.Strutil.Chars.{trim_http_whitespace}
use aws_c_http.Http1.Decoder.Types.{
  RunState, getline, unchunked_body, chunk, LineState, request_line, response_line, header_line,
  chunk_size_line, chunk_terminator_line, Vtable, Common, Decoder, Outcome, fail, protocol_error,
  HeaderName, content_length_name, transfer_encoding_name, other_name, and_then, set_state,
  set_line_state, mark_done,
}
use aws_c_http.Http1.Decoder.Outcomes.{
  Leaves, if-Leaves, next-Leaves, fail-Leaves, and_then-Leaves, call-Leaves, if-Leaves,
}
use aws_c_http.Http1.Decoder.Split.{split_first_n_times}
use aws_c_http.Http1.Decoder.Headers.{
  add_coding, add_codings, coding_flag, transfer_encoding_header, content_length_header,
  body_header, accept_header, named_header, begin_body, end_headers, split_header, linestate_header,
}

-- The parsers of aws-c-common give a `uint64_t`.
pub record IsCommon (c : Common) : Type 0 where
  pub parsed_word : (s : List ℕ) → (c.parse_u64 s).0 < 2 ^ 64
  pub parsed_hex_word : (s : List ℕ) → (c.parse_u64_hex s).0 < 2 ^ 64

-- No message has both a length and a transfer coding, and one that must not have a body has neither.
pub record IsFramed (encoding content chunk_bytes : ℕ) (forbidden : Bool) : Type 0 where
  pub exclusive : (encoding ≡ 0) ⊎ (content ≡ 0)
  pub no_body : forbidden ≡ true → (content ≡ 0) × (encoding ≡ 0)
  pub length_word : content < 2 ^ 64
  pub chunk_word : chunk_bytes < 2 ^ 64

-- What the line states rely on: the first line finds a decoder without a body.
abbrev pub AtLine : Option LineState → ℕ → ℕ → Type 0
AtLine none content encoding = ⊥
AtLine (some request_line) content encoding = (content ≡ 0) × (encoding ≡ 0)
AtLine (some response_line) content encoding = (content ≡ 0) × (encoding ≡ 0)
AtLine (some header_line) content encoding = Unit {0}
AtLine (some chunk_size_line) content encoding = Unit {0}
AtLine (some chunk_terminator_line) content encoding = Unit {0}

module _ {U : Type 0} where
  abbrev pub Framed : Decoder U → Type 0
  Framed d = IsFramed d.transfer_encoding d.content_length d.chunk_size d.body_headers_forbidden

  -- What the states rely on: a body or a chunk has bytes left, and no body has begun before.
  abbrev pub AtState : RunState → Decoder U → Type 0
  AtState getline d =
      AtLine d.process_line d.content_length d.transfer_encoding × (d.content_processed ≡ 0)
  AtState unchunked_body d = d.content_processed < d.content_length
  AtState chunk d = (d.chunk_processed < d.chunk_size) × (d.content_processed ≡ 0)

  -- Between two rounds of the loop: the message is done, or the state finds what it relies on.
  pub record IsValid (d : Decoder U) : Type 0 where
    pub framed : Framed d
    pub place : (d.is_done ≡ true) ⊎ AtState d.run_state d

  -- In front of a body.
  pub record IsUnread (d : Decoder U) : Type 0 where
    pub framed : Framed d
    pub unread : d.content_processed ≡ 0

  pub mark_done-Leaves : (v : Vtable U) (d : Decoder U) → Framed d → Leaves IsValid (mark_done v d)
  unfolding mark_done
  mark_done-Leaves v d f =
      call-Leaves v.on_done (record d { is_done = true })
        (λ u. record { framed = f; place = inl refl })

  pub line-IsValid :
      (d : Decoder U) (l : LineState)
      → Framed d
      → d.content_processed ≡ 0
      → AtLine (some l) d.content_length d.transfer_encoding
      → IsValid (set_line_state d l)
  unfolding set_line_state
  line-IsValid d l f p at = record { framed = f; place = inr (at, p) }

  add_coding-Leaves :
      (coding : ℕ) (d : Decoder U)
      → IsUnread d
      → d.content_length ≡ 0
      → d.body_headers_forbidden ≡ false
      → Leaves
          (λ d'. IsUnread d' × (d'.content_length ≡ 0) × (d'.body_headers_forbidden ≡ false))
          (add_coding coding d)
  unfolding add_coding
  add_coding-Leaves coding d i empty free = record {
    left = λ d' s. (
      record {
        framed = record {
          exclusive = inr (ground arith);
          no_body = λ b. absurd (ground arith);
          length_word = ground arith;
          chunk_word = ground arith;
        };
        unread = ground arith;
      },
      ground arith,
      ground arith,
    );
  }

  -- One round of the loop over the codings.
  coded-Leaves :
      (o : Option ℕ) (d : Decoder U) (rest : Decoder U → Outcome U)
      → IsUnread d
      → d.content_length ≡ 0
      → d.body_headers_forbidden ≡ false
      → ((d' : Decoder U)
          → IsUnread d'
          → d'.content_length ≡ 0
          → d'.body_headers_forbidden ≡ false
          → Leaves IsUnread (rest d'))
      → Leaves IsUnread (elim o [
        | none ↦ fail protocol_error d
        | some coding ↦ and_then (add_coding coding d) rest
      ])
  coded-Leaves none d rest i empty free more = fail-Leaves protocol_error d
  coded-Leaves (some coding) d rest i empty free more =
      and_then-Leaves (add_coding-Leaves coding d i empty free)
        (λ d' (i', empty', free'). more d' i' empty' free')

  add_codings-Leaves :
      (c : Common) (splits : List (List ℕ)) (d : Decoder U)
      → IsUnread d
      → d.content_length ≡ 0
      → d.body_headers_forbidden ≡ false
      → Leaves IsUnread (add_codings c splits d)
  unfolding add_codings
  add_codings-Leaves c [] d i empty free = next-Leaves d i
  add_codings-Leaves c (split ∷ splits) d i empty free =
      coded-Leaves (coding_flag c (trim_http_whitespace split)) d (add_codings c splits) i empty
        free (add_codings-Leaves c splits)

  content_length_header-Leaves :
      (c : Common) (value : List ℕ) (d : Decoder U)
      → IsCommon c
      → IsUnread d
      → Leaves IsUnread (content_length_header c value d)
  unfolding content_length_header
  content_length_header-Leaves c value d t i = record {
    left = λ d' s.
        let word = t.parsed_word value in
        record {
          framed = record {
            exclusive = inl (ground arith);
            no_body = λ b. (ground arith, ground arith);
            length_word = ground arith;
            chunk_word = ground arith;
          };
          unread = ground arith;
        };
  }

  no_length : (d : Decoder U) → not (d.content_length == 0) ≡ false → d.content_length ≡ 0
  no_length d e = ground arith

  transfer_encoding_header-Leaves :
      (c : Common) (value : List ℕ) (d : Decoder U)
      → IsUnread d
      → Leaves IsUnread (transfer_encoding_header c value d)
  unfolding transfer_encoding_header
  transfer_encoding_header-Leaves c value d i =
      search (if-Leaves, fail-Leaves, add_codings-Leaves c, no_length)

  body_header-Leaves :
      (c : Common) (name : HeaderName) (value : List ℕ) (d : Decoder U)
      → IsCommon c
      → IsUnread d
      → Leaves IsUnread (body_header c name value d)
  unfolding body_header
  body_header-Leaves c other_name value d t i = next-Leaves d i
  body_header-Leaves c content_length_name value d t i = content_length_header-Leaves c value d t i
  body_header-Leaves c transfer_encoding_name value d t i =
      transfer_encoding_header-Leaves c value d i

module _ {U : Type 0} (c : Common) (v : Vtable U) where
  accept_header-Leaves :
      (input name value : List ℕ) (d : Decoder U)
      → IsCommon c
      → IsUnread d
      → Leaves IsValid (accept_header c v input name value d)
  unfolding accept_header
  accept_header-Leaves input name value d t i =
      and_then-Leaves (body_header-Leaves c _ value d t i) (λ d' i'.
        and_then-Leaves
          (call-Leaves {P = IsUnread} _ d' (λ u. record { framed = i'.framed; unread = i'.unread }))
          (λ d'' i''. next-Leaves _ (line-IsValid d'' header_line i''.framed i''.unread tt)))

  body-IsValid :
      (d : Decoder U)
      → IsUnread d
      → ltb 0 d.content_length ≡ true
      → IsValid (set_state d unchunked_body)
  unfolding set_state
  body-IsValid d i body =
      let start = i.unread in record { framed = i.framed; place = inr (ground arith) }

  begin_body-Leaves : (d : Decoder U) → IsUnread d → Leaves IsValid (begin_body c v d)
  unfolding begin_body
  begin_body-Leaves d i =
      let finished = mark_done-Leaves v d i.framed in
      let chunks = line-IsValid d chunk_size_line i.framed i.unread tt in
      let body = body-IsValid d i in search (if-Leaves, next-Leaves)

  end_headers-Leaves : (d : Decoder U) → IsUnread d → Leaves IsValid (end_headers c v d)
  unfolding end_headers
  end_headers-Leaves d i =
      let finished = mark_done-Leaves v d i.framed in
      let body = begin_body-Leaves d i in search (if-Leaves)

  named_header-Leaves :
      (input name value : List ℕ) (d : Decoder U)
      → IsCommon c
      → IsUnread d
      → Leaves IsValid (named_header c v input name value d)
  unfolding named_header
  named_header-Leaves input name value d t i =
      let accepted = accept_header-Leaves input name value d t i in search (if-Leaves, fail-Leaves)

  split_header-Leaves :
      (input : List ℕ) (splits : Option (List (List ℕ))) (d : Decoder U)
      → IsCommon c
      → IsUnread d
      → Leaves IsValid (split_header c v input splits d)
  unfolding split_header
  split_header-Leaves input none d t i = fail-Leaves protocol_error d
  split_header-Leaves input (some splits) d t i = named_header-Leaves input _ _ d t i

  pub linestate_header-Leaves :
      (input : List ℕ) (d : Decoder U)
      → IsCommon c
      → IsUnread d
      → Leaves IsValid (linestate_header c v input d)
  unfolding linestate_header
  linestate_header-Leaves input d t i =
      let ended = end_headers-Leaves d i in
      let split = split_header-Leaves input (split_first_n_times c input b':' 2) d t i in
      search (if-Leaves)
