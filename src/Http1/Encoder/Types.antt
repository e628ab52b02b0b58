-- ===== src/Http1/Encoder/Types.antt =====
-- The data of source/h1_encoder.c, from include/aws/http/private/h1_encoder.h. A pointer to a struct is
-- the struct, and `none` is the null pointer.
use aws_c_http.Prelude.{ℕ, Bool, true, false, Option, none, some, List, [], ◌∷◌, ◌++◌}
use aws_c_http.ByteBuf.{ByteBuf}

-- `aws_http_stream_write_chunk_complete_fn` with its `user_data`, by a number for each.
abbrev pub OnComplete : Type 0
OnComplete = ℕ

pub data Error : Type 0 where
  invalid_state stream_error stream_status_error stream_length_incorrect : Error

-- A call of a chunk's callback, with its error if there is one.
pub record Completion : Type 0 where
  pub callback : OnComplete
  pub error : Option Error

-- `struct aws_h1_chunk`; `S` is the state of a `struct aws_input_stream`.
pub record Chunk (S : Type 0) : Type 0 where
  pub chunk_data : Option S
  pub data_size : ℕ
  pub on_complete : Option OnComplete
  pub chunk_line : List ℕ

-- `struct aws_h1_encoder_message`; of `struct aws_h1_trailer` the `trailer_data`.
pub record EncoderMessage (S : Type 0) : Type 0 where
  pub outgoing_head_buf : List ℕ
  pub body : Option S
  pub pending_chunk_list : List (Chunk S)
  pub trailer : Option (List ℕ)
  pub content_length : ℕ
  pub has_connection_close_header : Bool
  pub has_chunked_encoding_header : Bool

-- `enum aws_h1_encoder_state`
pub data State : Type 0 where
  init head unchunked_body chunk_next chunk_line_state chunk_body chunk_end chunk_trailer : State
  done : State

abbrev pub rank : State → ℕ
rank init = 0
rank head = 1
rank unchunked_body = 2
rank chunk_next = 3
rank chunk_line_state = 4
rank chunk_body = 5
rank chunk_end = 6
rank chunk_trailer = 7
rank done = 8

-- `struct aws_h1_encoder`. The current chunk is the front of the pending list or null, so the flag says
-- whether there is one. `completions` has the calls of the chunks' callbacks so far.
pub record Encoder (S : Type 0) : Type 0 where
  pub state : State
  pub message : Option (EncoderMessage S)
  pub progress_bytes : ℕ
  pub current_chunk : Bool
  pub chunk_count : ℕ
  pub completions : List Completion

-- The calls of an input stream: `aws_input_stream_read`, whose flag is C's `err`, and
-- `aws_input_stream_get_status`, with `is_end_of_stream`, or nothing where it fails.
pub record Streams (S : Type 0) : Type 0 where
  pub read : S → ByteBuf → ByteBuf × S × Bool
  pub get_status : S → Option Bool

-- What a state function returns: success, an error, or the dereference of a null pointer.
pub data Outcome (S : Type 0) : Type 0 where
  next : Encoder S → ByteBuf → Outcome S
  fail : Error → Encoder S → ByteBuf → Outcome S
  abort : Outcome S

abbrev pub completed : Option OnComplete → Option Error → List Completion
completed none error = []
completed (some callback) error = record { callback = callback; error = error } ∷ []

module _ {S : Type 0} where
  unfoldable pub encoder_init : Encoder S
  encoder_init = record {
    state = init;
    message = none;
    progress_bytes = 0;
    current_chunk = false;
    chunk_count = 0;
    completions = [];
  }

  -- `aws_h1_encoder_start_message`; the flag is C's `err`.
  unfoldable pub start_message : Encoder S → EncoderMessage S → Encoder S × Bool
  start_message e m = elim e.message [
    | some m' ↦ (e, true)
    | none ↦ (record e { message = some m }, false)
  ]

  unfoldable pub switch_state : Encoder S → State → Encoder S
  switch_state e state = record e { state = state; progress_bytes = 0 }

  -- `s_clean_up_current_chunk` for the chunk in front of the others: the chunk leaves the pending list
  -- and is destroyed, and its callback is called.
  unfoldable pub clean_up_current_chunk :
      Encoder S → EncoderMessage S → Chunk S → List (Chunk S) → Option Error → Encoder S
  clean_up_current_chunk e m chunk others error = record e {
    message = some (record m { pending_chunk_list = others });
    current_chunk = false;
    completions = e.completions ++ completed chunk.on_complete error;
  }
