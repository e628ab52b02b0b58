-- ===== src/Websocket/Decoder/Types.antt =====
-- The data of source/websocket_decoder.c, from include/aws/http/private/websocket_decoder.h.
use aws_c_http.Prelude.{ℕ, Bool, false, List, [], ◌∷◌}
use aws_c_http.Websocket.Frame.{Frame, zero_frame}

pub data State : Type 0 where
  init opcode_byte length_byte extended_length masking_key_check : State
  masking_key payload_check payload frame_end done : State

-- The place of a state in `enum aws_websocket_decoder_state`.
abbrev pub rank : State → ℕ
rank init = 0
rank opcode_byte = 1
rank length_byte = 2
rank extended_length = 3
rank masking_key_check = 4
rank masking_key = 5
rank payload_check = 6
rank payload = 7
rank frame_end = 8
rank done = 9

pub data Error : Type 0 where
  protocol_error callback_error : Error

-- What the decoder calls: aws-c-common's UTF-8 validator, whose state is a `V`, and the user's
-- callbacks, which work on the `user_data`, a `U`. The flag beside each new state is C's `err`.
pub record Handlers (V U : Type 0) : Type 0 where
  pub utf8_update : V → List ℕ → V × Bool
  pub utf8_finalize : V → V × Bool
  pub on_frame : Frame → U → U × Bool
  pub on_payload : List ℕ → U → U × Bool

-- `struct aws_websocket_decoder`
pub record Decoder (V U : Type 0) : Type 0 where
  pub state : State
  pub state_bytes_processed : ℕ
  pub state_cache : List ℕ
  pub current_frame : Frame
  pub expecting_continuation_data_frame : Bool
  pub processing_text_message : Bool
  pub text_message_validator : V
  pub user_data : U

-- What a state function, or the loop over them, returns: success, or a raised error.
pub data Outcome (V U : Type 0) : Type 0 where
  next : Decoder V U → List ℕ → Outcome V U
  fail : Error → Decoder V U → List ℕ → Outcome V U

module _ {V U : Type 0} where
  -- `aws_websocket_decoder_init`, with the validator that it makes.
  unfoldable pub decoder_init : V → U → Decoder V U
  decoder_init validator user_data = record {
    state = init;
    state_bytes_processed = 0;
    state_cache = 0 ∷ 0 ∷ 0 ∷ 0 ∷ 0 ∷ 0 ∷ 0 ∷ 0 ∷ [];
    current_frame = zero_frame;
    expecting_continuation_data_frame = false;
    processing_text_message = false;
    text_message_validator = validator;
    user_data = user_data;
  }
