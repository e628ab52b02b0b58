-- ===== src/Http1/Encoder/Head.antt =====
-- The buffers that source/h1_encoder.c fills before it sends: the head of a message, a trailer and a
-- chunk's line.
use aws_c_http.Prelude.{
  ℕ, ◌+◌, ◌/◌, ◌%◌, Bool, true, false, ◌&&◌, ◌||◌, Option, none, some, List, [], ◌∷◌, ◌==◌,
  if◌then◌else◌, length,
}
use aws_c_http.ByteBuf.{ByteBuf, Write}
use aws_c_http.Strutil.Chars.{is_http_token, is_http_request_target}
use aws_c_http.Hpack.Table.Ring.{Header}
use aws_c_http.Http1.Messages.{
  invalid_method, invalid_path, invalid_status_code, out_of_memory, Result, ok, raised, ◌>>=◌,
  or_error, Message,
}
use aws_c_http.Http1.StatusText.{status_text}
use aws_c_http.Http1.Decoder.Types.{Common}
use aws_c_http.Http1.Decoder.Lines.{version_1_1}
use aws_c_http.Http1.Encoder.Types.{Chunk, EncoderMessage}
use aws_c_http.Http1.Encoder.States.{crlf}
use aws_c_http.Http1.Encoder.Scan.{Scanned, add_size_checked, scan_outgoing_headers}
use aws_c_http.Http1.Encoder.Trailer.{scan_outgoing_trailer}

-- A buffer that is being filled, with `wrote_all`.
abbrev pub Filling : Type 0
Filling = ByteBuf × Bool

-- `aws_byte_buf_init`, which fails where memory runs out.
abbrev pub Allocate : Type 0
Allocate = ℕ → Bool

unfoldable pub buf_init : Allocate → ℕ → Result Filling
buf_init allocate capacity =
    if allocate capacity
    then ok (record { contents = []; capacity = capacity }, true)
    else raised out_of_memory

module _ (write : Write) where
  unfoldable pub put : Filling → List ℕ → Filling
  put (dst, wrote_all) cursor =
      let (dst', written) = write dst cursor in (dst', wrote_all && written)

  unfoldable pub put_all : Filling → List (List ℕ) → Filling
  unfolding put
  put_all b [] = b
  put_all b (cursor ∷ cursors) = put_all (put b cursor) cursors

  -- The body of the loop of `s_write_headers`.
  unfoldable pub write_header : Filling → Header → Filling
  unfolding put_all
  write_header b header =
      put_all b (header.name ∷ (b':' ∷ []) ∷ (b' ' ∷ []) ∷ header.value ∷ crlf ∷ [])

  unfoldable pub write_headers : Filling → List Header → Filling
  unfolding write_header
  write_headers b [] = b
  write_headers b (header ∷ headers) = write_headers (write_header b header) headers

  -- The three parts of a request or status line, the headers, and the empty line.
  unfoldable pub write_head : Filling → List ℕ → List ℕ → List ℕ → List Header → Filling
  unfolding put_all write_headers put
  write_head b first second third headers =
      put
        (write_headers (put_all b (first ∷ (b' ' ∷ []) ∷ second ∷ (b' ' ∷ []) ∷ third ∷ crlf ∷ []))
          headers)
        crlf

-- The length of a request or status line, its headers and the empty line.
unfoldable pub head_length : ℕ → ℕ → ℕ → ℕ → Result ℕ
head_length first second third header_lines_len = do
  with_first ← add_size_checked first 4
  with_second ← add_size_checked second with_first
  line_len ← add_size_checked third with_second
  with_headers ← add_size_checked header_lines_len line_len
  add_size_checked 2 with_headers

-- The buffer for the head, allocated and filled: its contents, and whether the assertions hold.
unfoldable pub fill_head :
    Write → Allocate → ℕ → List ℕ → List ℕ → List ℕ → List Header → Result (List ℕ × Bool)
unfolding head_length buf_init write_head
fill_head write allocate header_lines_len first second third headers = do
  head_total_len ← head_length (length first) (length second) (length third) header_lines_len
  b ← buf_init allocate head_total_len
  let (head, wrote_all) = write_head write b first second third headers
  ok (head.contents, wrote_all)

unfoldable pub valid_method : Option (List ℕ) → Result (List ℕ)
valid_method none = raised invalid_method
valid_method (some method) = if is_http_token method then ok method else raised invalid_method

unfoldable pub valid_path : Option (List ℕ) → Result (List ℕ)
valid_path none = raised invalid_path
valid_path (some uri) = if is_http_request_target uri then ok uri else raised invalid_path

-- "%03d" of a number below 1000.
abbrev pub three_digits : ℕ → List ℕ
three_digits n = (48 + n / 100 % 10) ∷ (48 + n / 10 % 10) ∷ (48 + n % 10) ∷ []

module _ {S : Type 0} where
  -- The struct, zeroed and then filled from the message and the scan. The chunks that are pending come
  -- from the stream that owns the list.
  abbrev pub message_of : Option S → List (Chunk S) → Scanned → List ℕ → EncoderMessage S
  message_of body chunks s head = record {
    outgoing_head_buf = head;
    body = body;
    pending_chunk_list = chunks;
    trailer = none;
    content_length = s.content_length;
    has_connection_close_header = s.has_connection_close_header;
    has_chunked_encoding_header = s.has_chunked_encoding_header;
  }

abbrev pub is_some : {A : Type 0} → Option A → Bool
is_some none = false
is_some (some a) = true

module _ {S : Type 0} (c : Common) (write : Write) (allocate : Allocate) where
  -- `aws_h1_encoder_message_init_from_request`: the message, and whether the assertions on `wrote_all`
  -- hold. On an error the struct is cleared.
  unfoldable pub message_init_from_request :
      Message S → List (Chunk S) → Result (EncoderMessage S × Bool)
  unfolding scan_outgoing_headers valid_method valid_path fill_head
  message_init_from_request request pending_chunk_list = do
    method ← valid_method request.method
    uri ← valid_path request.path
    s ← scan_outgoing_headers c request.headers (is_some request.body_stream) false false
    head ← fill_head write allocate s.total method uri version_1_1 request.headers
    ok (message_of request.body_stream pending_chunk_list s head.0, head.1)

  -- `aws_h1_encoder_message_init_from_response`, in the same way. The assertion that the status has at
  -- most three digits is the caller's.
  unfoldable pub message_init_from_response :
      Message S → Bool → List (Chunk S) → Result (EncoderMessage S × Bool)
  unfolding scan_outgoing_headers fill_head
  message_init_from_response response body_headers_ignored pending_chunk_list = do
    status_int ← or_error invalid_status_code response.status
    s ←
        scan_outgoing_headers c response.headers (is_some response.body_stream)
          (body_headers_ignored || status_int == 304) (status_int == 204 || status_int / 100 == 1)
    head ←
        fill_head write allocate s.total version_1_1 (three_digits status_int)
          (status_text status_int) response.headers
    ok (message_of response.body_stream pending_chunk_list s head.0, head.1)

module _ (c : Common) (write : Write) where
  -- `aws_h1_trailer_new`, its buffer's allocation included.
  unfoldable pub trailer_new : List Header → Result (List ℕ × Bool)
  unfolding scan_outgoing_trailer buf_init write_headers put
  trailer_new trailing_headers = do
    trailer_size ← scan_outgoing_trailer c trailing_headers
    let (data_buf, wrote_all) =
        put write
          (write_headers write (record { contents = []; capacity = trailer_size }, true)
            trailing_headers)
          crlf
    ok (data_buf.contents, wrote_all)
