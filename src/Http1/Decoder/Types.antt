-- ===== src/Http1/Decoder/Types.antt =====
-- The data of source/h1_decoder.c and include/aws/http/private/h1_decoder.h.
use aws_c_http.Prelude.{ℕ, Bool, true, false, Option, none, some, List, [], if◌then◌else◌}

-- `state_fn`, by the functions that `run_state` points to.
pub data RunState : Type 0 where
  getline unchunked_body chunk : RunState

-- `linestate_fn`, by the functions that `process_line` points to.
pub data LineState : Type 0 where
  request_line response_line header_line chunk_size_line chunk_terminator_line : LineState

-- `enum aws_http_header_block`
pub data HeaderBlock : Type 0 where
  main_block informational_block trailing_block : HeaderBlock

-- The names of `enum aws_http_header_name` that the decoder tells apart.
pub data HeaderName : Type 0 where
  content_length_name transfer_encoding_name other_name : HeaderName

-- `struct aws_h1_decoded_header`
pub record DecodedHeader : Type 0 where
  pub name : HeaderName
  pub name_data : List ℕ
  pub value_data : List ℕ
  pub data_line : List ℕ

-- `struct aws_h1_decoder_vtable`: the callbacks work on the `user_data`, a `U`; the flag beside a new
-- one is C's `err`. `aws_http_str_to_method` of the method is left to `on_request`.
pub record Vtable (U : Type 0) : Type 0 where
  pub on_header : DecodedHeader → U → U × Bool
  pub on_body : List ℕ → Bool → U → U × Bool
  pub on_request : List ℕ → List ℕ → U → U × Bool
  pub on_response : ℕ → U → U × Bool
  pub on_done : U → U × Bool

-- A cursor into another one: where it starts and how long it is.
pub record Span : Type 0 where
  pub offset : ℕ
  pub size : ℕ

-- What the code calls of aws-c-common. `splits` has the cursors that successive calls of
-- `aws_byte_cursor_next_split` give before it returns false; the parsers give what they write and
-- whether they fail.
pub record Common : Type 0 where
  pub splits : List ℕ → ℕ → List Span
  pub parse_u64 : List ℕ → ℕ × Bool
  pub parse_u64_hex : List ℕ → ℕ × Bool
  pub eq : List ℕ → List ℕ → Bool
  pub eq_ignore_case : List ℕ → List ℕ → Bool

-- `struct aws_h1_decoder`; `none` is the null pointer.
pub record Decoder (U : Type 0) : Type 0 where
  pub scratch_space : List ℕ
  pub run_state : RunState
  pub process_line : Option LineState
  pub transfer_encoding : ℕ
  pub content_processed : ℕ
  pub content_length : ℕ
  pub chunk_processed : ℕ
  pub chunk_size : ℕ
  pub doing_trailers : Bool
  pub is_done : Bool
  pub body_headers_ignored : Bool
  pub body_headers_forbidden : Bool
  pub header_block : HeaderBlock
  pub is_decoding_requests : Bool
  pub user_data : U

-- `unraised_error` is AWS_OP_ERR with no error raised.
pub data Error : Type 0 where
  protocol_error callback_error unraised_error : Error

-- What a state function returns: success, or an error, with the decoder that it leaves.
pub data Outcome (U : Type 0) : Type 0 where
  next : Decoder U → Outcome U
  fail : Error → Decoder U → Outcome U

module _ {U : Type 0} where
  -- The early return on an error.
  abbrev pub and_then : Outcome U → (Decoder U → Outcome U) → Outcome U
  and_then (next d) f = f d
  and_then (fail e d) f = fail e d

  -- A callback, whose error ends the state function.
  unfoldable pub call : (U → U × Bool) → Decoder U → Outcome U
  call callback d =
      let (u, err) = callback d.user_data in
      let d' = record d { user_data = u } in if err then fail callback_error d' else next d'

  unfoldable pub set_state : Decoder U → RunState → Decoder U
  set_state d state = record d { scratch_space = []; run_state = state; process_line = none }

  unfoldable pub set_line_state : Decoder U → LineState → Decoder U
  unfolding set_state
  set_line_state d line_processor = record (set_state d getline) {
    process_line = some line_processor;
  }

  unfoldable pub mark_done : Vtable U → Decoder U → Outcome U
  mark_done v d = call v.on_done (record d { is_done = true })

  unfoldable pub reset_state : Decoder U → Decoder U
  unfolding set_line_state
  reset_state d =
      record (set_line_state d (if d.is_decoding_requests then request_line else response_line)) {
        transfer_encoding = 0;
        content_processed = 0;
        content_length = 0;
        chunk_processed = 0;
        chunk_size = 0;
        doing_trailers = false;
        is_done = false;
        body_headers_ignored = false;
        body_headers_forbidden = false;
        header_block = main_block;
      }

  -- The struct cleared, with the parameters of `aws_h1_decoder_new`.
  unfoldable pub zero_decoder : Bool → U → Decoder U
  zero_decoder is_decoding_requests user_data = record {
    scratch_space = [];
    run_state = getline;
    process_line = none;
    transfer_encoding = 0;
    content_processed = 0;
    content_length = 0;
    chunk_processed = 0;
    chunk_size = 0;
    doing_trailers = false;
    is_done = false;
    body_headers_ignored = false;
    body_headers_forbidden = false;
    header_block = main_block;
    is_decoding_requests = is_decoding_requests;
    user_data = user_data;
  }

  unfoldable pub decoder_new : Bool → U → Decoder U
  unfolding reset_state
  decoder_new is_decoding_requests user_data =
      reset_state (zero_decoder is_decoding_requests user_data)

  unfoldable pub set_body_headers_ignored : Decoder U → Bool → Decoder U
  set_body_headers_ignored d ignored = record d { body_headers_ignored = ignored }
