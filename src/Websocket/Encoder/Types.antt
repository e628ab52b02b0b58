-- ===== src/Websocket/Encoder/Types.antt =====
-- The data of source/websocket_encoder.c, from include/aws/http/private/websocket_encoder.h, and what
-- it takes from aws-c-common.
use aws_c_http.Prelude.{ℕ, Bool, false}
use aws_c_http.Websocket.Frame.{Frame, zero_frame}
pub use aws_c_http.ByteBuf.{ByteBuf, len, Write, IsWrite}

pub data State : Type 0 where
  init opcode_byte length_byte extended_length masking_key_check : State
  masking_key payload_check payload done : State

-- The place of a state in `enum aws_websocket_encoder_state`.
abbrev pub rank : State → ℕ
rank init = 0
rank opcode_byte = 1
rank length_byte = 2
rank extended_length = 3
rank masking_key_check = 4
rank masking_key = 5
rank payload_check = 6
rank payload = 7
rank done = 8

pub data Error : Type 0 where
  invalid_state invalid_argument stream_length_incorrect callback_error : Error

-- `struct aws_websocket_encoder`; the callback stands apart.
pub record Encoder (U : Type 0) : Type 0 where
  pub state : State
  pub state_bytes_processed : ℕ
  pub frame : Frame
  pub is_frame_in_progress : Bool
  pub expecting_continuation_data_frame : Bool
  pub user_data : U

-- `aws_websocket_encoder_payload_fn`: the flag is C's `err`.
abbrev pub PayloadFn : Type 0 → Type 0
PayloadFn U = ByteBuf → U → ByteBuf × U × Bool

-- What a state function returns: success, a raised error, or a failed `AWS_FATAL_ASSERT`.
pub data Outcome (U : Type 0) : Type 0 where
  next : Encoder U → ByteBuf → Outcome U
  fail : Error → Encoder U → ByteBuf → Outcome U
  abort : Outcome U

-- `aws_websocket_encoder_init`
unfoldable pub encoder_init : {U : Type 0} → U → Encoder U
encoder_init user_data = record {
  state = init;
  state_bytes_processed = 0;
  frame = zero_frame;
  is_frame_in_progress = false;
  expecting_continuation_data_frame = false;
  user_data = user_data;
}
