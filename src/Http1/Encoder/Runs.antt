-- ===== src/Http1/Encoder/Runs.antt =====
-- Requests and chunks encoded.
use aws_c_http.Prelude.{
  length, ℕ, ◌+◌, ◌*◌, ◌≤◌, ◌≡◌, ◌⊎◌, refl, inl, inr, true, false, none, some, List, [], ◌∷◌, ◌++◌,
  All, arith,
}
use aws_c_http.ByteBuf.{ByteBuf, len}
use aws_c_http.Hpack.Table.Ring.{use_cache, Header}
use aws_c_http.Http1.Samples.{lower, same_bytes}
use aws_c_http.Http1.Messages.{Message, ok, raised, invalid_header_value}
use aws_c_http.Http1.Decoder.Types.{Vtable, Decoder, next, decoder_new, set_state, chunk}
use aws_c_http.Http1.Decoder.Lines.{version_1_1, linestate_chunk_size}
use aws_c_http.Http1.Decoder.Headers.{content_length_text, transfer_encoding_text, coding_chunked}
use aws_c_http.Http1.Encoder.Types.{
  Chunk, EncoderMessage, Encoder, Streams, Outcome, init, head, encoder_init,
}
use aws_c_http.Http1.Encoder.Types
use aws_c_http.Http1.Encoder.States.{crlf}
use aws_c_http.Http1.Encoder.Process.{chunks_of, run_states, process}
use aws_c_http.Http1.Encoder.Termination.{h1_process_total}
use aws_c_http.Http1.Encoder.Wire.{message_wire, IsSendable, Owes, at_init}
use aws_c_http.Http1.Encoder.Emission.{h1_process-Owes}
use aws_c_http.Http1.Encoder.Scan.{Scanned, scan_outgoing_headers}
use aws_c_http.Http1.Encoder.Head.{message_init_from_request, is_some, head_length}
use aws_c_http.Http1.Encoder.HeadBytes.{head_bytes}
use aws_c_http.Http1.Encoder.OneLine.{IsOneLine}
use aws_c_http.Http1.Encoder.Request.{init_from_request-OneLine}
use aws_c_http.Http1.Encoder.Framing.{HasNamed, scan-framing}
use aws_c_http.Http1.Encoder.Chunks.{ChunkOptions, chunk_new}
use aws_c_http.Http1.Encoder.ChunkRoundTrip.{chunk_size_round_trip}
use aws_c_http.Http1.Encoder.Samples.{
  write_bytes, write_bytes-IsWrite, write_some, write_some-IsWriteToCapacity, lists, lists_source,
  until, decimal, common, common-ReadsChunkSize, common-KeepsLength, allocate_all,
}

abbrev with_name : List ℕ → List ℕ → Header
with_name name value = record { name = name; value = value; compression = use_cache }

-- "POST /" with a body of two bytes.
abbrev post : Message (List ℕ)
post = record {
  headers = with_name content_length_text (b'2' ∷ []) ∷ [];
  body_stream = some (7 ∷ 8 ∷ []);
  method = some (b'P' ∷ b'O' ∷ b'S' ∷ b'T' ∷ []);
  path = some (b'/' ∷ []);
  status = none;
}

abbrev post_scanned : Scanned
post_scanned = record {
  content_length = 2;
  has_connection_close_header = false;
  has_chunked_encoding_header = false;
  total = 19;
  has_content_length_header = true;
  has_transfer_encoding_header = false;
}

abbrev post_method : List ℕ
post_method = b'P' ∷ b'O' ∷ b'S' ∷ b'T' ∷ []

abbrev post_message : EncoderMessage (List ℕ)
post_message = record {
  outgoing_head_buf = head_bytes post_method (b'/' ∷ []) version_1_1 post.headers;
  body = some (7 ∷ 8 ∷ []);
  pending_chunk_list = [];
  trailer = none;
  content_length = 2;
  has_connection_close_header = false;
  has_chunked_encoding_header = false;
}

post_message-IsSendable : IsSendable lists_source post_message
unfolding lists_source
post_message-IsSendable = record {
  head_fits = omega arith;
  length_fits = omega arith;
  body_held = inr refl;
  chunks_sendable = (tt, omega arith);
}

abbrev small_buffer : ByteBuf
small_buffer = record { contents = 1 ∷ []; capacity = 40 }

abbrev large_buffer : ByteBuf
large_buffer = record { contents = 1 ∷ []; capacity = 100 }

abbrev begun : Encoder (List ℕ)
begun = record encoder_init { message = some post_message }

begun-Owes : Owes lists_source begun (message_wire lists_source post_message)
unfolding encoder_init
begun-Owes = at_init post_message refl refl post_message-IsSendable refl

h1_process-Owes_example :
    (e' : Encoder (List ℕ)) × (out' : ByteBuf) × (left : List ℕ) × (process write_bytes write_some
        lists begun small_buffer
      ≡ some (Types.next e' out'))
    × Owes lists_source e' left
    × (out'.contents ++ left ≡ small_buffer.contents ++ message_wire lists_source post_message)
    × (out'.capacity ≡ small_buffer.capacity)
    × (len out' ≤ out'.capacity)
h1_process-Owes_example =
    h1_process-Owes write_bytes write_bytes-IsWrite write_some write_some-IsWriteToCapacity lists
      lists_source begun small_buffer (message_wire lists_source post_message) post_message refl
      begun-Owes (omega arith)

h1_process_total_example :
    (r : Outcome (List ℕ)) × (process write_bytes write_some lists begun small_buffer ≡ some r)
    × ((begun.message ≡ none)
        ⊎ (run_states write_bytes write_some lists
              (4 * chunks_of begun.message + 7 + 5)
              begun
              small_buffer
            ≡ some r))
h1_process_total_example = h1_process_total write_bytes write_some lists begun small_buffer 5

post_made :
    message_init_from_request common write_bytes allocate_all post [] ≡ ok (post_message, true)
unfolding message_init_from_request aws_c_http.Strutil.Chars.is_http_token
    aws_c_http.Strutil.Chars.http_token_table aws_c_http.Strutil.Chars.is_http_request_target
    aws_c_http.Strutil.Chars.is_http_field_value aws_c_http.Strutil.Chars.trim_http_whitespace
    aws_c_http.Strutil.Chars.trim aws_c_http.Strutil.Chars.http_whitespace_table
    aws_c_http.Strutil.Chars.http_field_content_table same_bytes lower decimal
post_made = refl

init_from_request-OneLine_example :
    (method uri : List ℕ) × (s : Scanned) × (post.method ≡ some method)
    × (post.path ≡ some uri)
    × (scan_outgoing_headers common post.headers (is_some post.body_stream) false false ≡ ok s)
    × (head_length (length method) (length uri) (length version_1_1) s.total
        ≡ ok (length post_message.outgoing_head_buf))
    × (allocate_all (length post_message.outgoing_head_buf) ≡ true)
    × (true ≡ true)
    × (post_message.outgoing_head_buf ≡ head_bytes method uri version_1_1 post.headers)
    × IsOneLine method
    × IsOneLine uri
    × All (λ h. IsOneLine h.name × IsOneLine h.value) post.headers
init_from_request-OneLine_example =
    init_from_request-OneLine common write_bytes write_bytes-IsWrite allocate_all post []
      post_message true post_made

-- A message in chunks.
abbrev chunked_headers : List Header
chunked_headers = with_name transfer_encoding_text coding_chunked ∷ []

abbrev chunked_scanned : Scanned
chunked_scanned = record {
  content_length = 0;
  has_connection_close_header = false;
  has_chunked_encoding_header = true;
  total = 28;
  has_content_length_header = false;
  has_transfer_encoding_header = true;
}

chunked_scan : scan_outgoing_headers common chunked_headers false false false ≡ ok chunked_scanned
unfolding scan_outgoing_headers aws_c_http.Strutil.Chars.is_http_token
    aws_c_http.Strutil.Chars.http_token_table aws_c_http.Strutil.Chars.is_http_field_value
    aws_c_http.Strutil.Chars.trim_http_whitespace aws_c_http.Strutil.Chars.trim
    aws_c_http.Strutil.Chars.http_whitespace_table aws_c_http.Strutil.Chars.http_field_content_table
    same_bytes lower until
chunked_scan = refl

chunked_named : HasNamed common transfer_encoding_text chunked_headers
unfolding same_bytes lower
chunked_named = inl refl

scan-framing_example :
    ¬ HasNamed common content_length_text chunked_headers
    × (false ≡ false)
    × (false ≡ false)
    × ((false ≡ true) ⊎ (chunked_scanned.has_chunked_encoding_header ≡ true))
scan-framing_example =
    scan-framing common chunked_headers false false false chunked_scanned common-KeepsLength
      chunked_scan chunked_named

-- A chunk of 171 bytes with an extension.
abbrev options : ChunkOptions (List ℕ)
options = record {
  chunk_data = none;
  chunk_data_size = 171;
  extensions = record { key = b'k' ∷ []; value = b'v' ∷ [] } ∷ [];
  on_complete = none;
}

abbrev ignoring : Vtable (Unit {0})
ignoring = record {
  on_header = λ h u. (u, false);
  on_body = λ bytes fin u. (u, false);
  on_request = λ method uri u. (u, false);
  on_response = λ code u. (u, false);
  on_done = λ u. (u, false);
}

abbrev decoding : Decoder (Unit {0})
decoding = decoder_new true tt

chunk_size_round_trip_example :
    (made : Chunk (List ℕ)) × (line : List ℕ) × (chunk_new write_bytes allocate_all options
      ≡ some (made, true))
    × (made.data_size ≡ options.chunk_data_size)
    × (made.chunk_line ≡ line ++ crlf)
    × (linestate_chunk_size common ignoring line decoding
        ≡ next (
            set_state
              (record decoding { chunk_size = options.chunk_data_size; chunk_processed = 0 })
              chunk))
chunk_size_round_trip_example =
    chunk_size_round_trip write_bytes write_bytes-IsWrite allocate_all common common-ReadsChunkSize
      ignoring options decoding (omega arith) (omega arith) (omega arith) refl

-- Two headers Content-Length: the last one counts, and both lines are sent.
abbrev two_lengths : List Header
two_lengths =
    with_name content_length_text (b'5' ∷ []) ∷ with_name content_length_text (b'3' ∷ []) ∷ []

two_lengths_scan :
    scan_outgoing_headers common two_lengths true false false
    ≡ ok (record post_scanned { content_length = 3; total = 38 })
unfolding scan_outgoing_headers aws_c_http.Strutil.Chars.is_http_token
    aws_c_http.Strutil.Chars.http_token_table aws_c_http.Strutil.Chars.is_http_field_value
    aws_c_http.Strutil.Chars.trim_http_whitespace aws_c_http.Strutil.Chars.trim
    aws_c_http.Strutil.Chars.http_whitespace_table aws_c_http.Strutil.Chars.http_field_content_table
    same_bytes lower decimal
two_lengths_scan = refl

-- "Chunked", which the decoder takes for the chunked coding.
abbrev capital_chunked : List ℕ
capital_chunked = b'C' ∷ b'h' ∷ b'u' ∷ b'n' ∷ b'k' ∷ b'e' ∷ b'd' ∷ []

capital_chunked_scan :
    scan_outgoing_headers common
      (with_name transfer_encoding_text capital_chunked ∷ [])
      false
      false
      false
    ≡ raised invalid_header_value
unfolding scan_outgoing_headers aws_c_http.Strutil.Chars.is_http_token
    aws_c_http.Strutil.Chars.http_token_table aws_c_http.Strutil.Chars.is_http_field_value
    aws_c_http.Strutil.Chars.trim_http_whitespace aws_c_http.Strutil.Chars.trim
    aws_c_http.Strutil.Chars.http_whitespace_table aws_c_http.Strutil.Chars.http_field_content_table
    same_bytes lower until
capital_chunked_scan = refl

-- A header Content-Length of zero where a body is forbidden.
forbidden_zero_scan :
    scan_outgoing_headers common (with_name content_length_text (b'0' ∷ []) ∷ []) false false true
    ≡ ok (record post_scanned { content_length = 0 })
unfolding scan_outgoing_headers aws_c_http.Strutil.Chars.is_http_token
    aws_c_http.Strutil.Chars.http_token_table aws_c_http.Strutil.Chars.is_http_field_value
    aws_c_http.Strutil.Chars.trim_http_whitespace aws_c_http.Strutil.Chars.trim
    aws_c_http.Strutil.Chars.http_whitespace_table aws_c_http.Strutil.Chars.http_field_content_table
    same_bytes lower decimal
forbidden_zero_scan = refl
