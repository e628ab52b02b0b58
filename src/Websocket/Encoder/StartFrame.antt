-- ===== src/Websocket/Encoder/StartFrame.antt =====
-- `aws_websocket_encoder_start_frame`, `aws_websocket_encoder_is_frame_in_progress` and
-- `aws_websocket_frame_encoded_size` of source/websocket_encoder.c.
use aws_c_http.Prelude.{
  ℕ, ◌≤◌, ◌≡◌, sym, ap, Bool, true, not, List, ◌++◌, ltb, leb, ◌==◌, same, if◌then◌else◌, length,
  length-append, bit_and, arith,
}
use aws_c_http.Websocket.Opcode
use aws_c_http.Websocket.Frame.{Frame, unmask, is_data_frame, min_2byte, max_8byte, min_8byte}
use aws_c_http.Websocket.Mask.{length-unmask}
use aws_c_http.Websocket.Encoder.Types.{Encoder, init, Error, invalid_state, invalid_argument}
use aws_c_http.Websocket.Encoder.Steps.{network_bytes}
use aws_c_http.Websocket.Encoder.Pending.{wire, extension, key_bytes, InProgress, IsValid}
use mathlib.Core.Path.{subst, ◌∙◌}
use aws_c_http.Prelude.Words.{add_u64}

-- Success, with the new encoder, or an error that leaves the encoder as it was.
pub data Started (U : Type 0) : Type 0 where
  started : Encoder U → Started U
  refused : Error → Started U

module _ {U : Type 0} where
  -- The end of the function, with the new value of `expecting_continuation_data_frame`.
  unfoldable pub accept_frame : Encoder U → Frame → Bool → Started U
  accept_frame e f expecting = started (record e {
    frame = f;
    is_frame_in_progress = true;
    expecting_continuation_data_frame = expecting;
  })

  -- The rules of fragmentation.
  unfoldable pub check_fragmentation : Encoder U → Frame → Started U
  unfolding accept_frame
  check_fragmentation e f =
      if is_data_frame f.opcode
      then (if not (same e.expecting_continuation_data_frame (Opcode.continuation == f.opcode))
          then refused invalid_state
          else accept_frame e f (not f.fin))
      else (if not f.fin
          then refused invalid_argument
          else accept_frame e f e.expecting_continuation_data_frame)

  unfoldable pub start_frame : Encoder U → Frame → Started U
  unfolding check_fragmentation
  start_frame e f =
      if e.is_frame_in_progress
      then refused invalid_state
      else (if not (f.opcode == bit_and f.opcode 0x0f)
          then refused invalid_argument
          else (if ltb max_8byte f.payload_length
              then refused invalid_argument
              else check_fragmentation e f))

  unfoldable pub is_frame_in_progress : Encoder U → Bool
  is_frame_in_progress e = e.is_frame_in_progress

-- `aws_websocket_frame_encoded_size`
unfoldable pub frame_encoded_size : Frame → ℕ
frame_encoded_size f =
    let masked : ℕ = if f.masked then add_u64 2 4 else 2 in
    let extended =
      if leb min_8byte f.payload_length
      then add_u64 masked 8
      else (if leb min_2byte f.payload_length then add_u64 masked 2 else masked) in
    add_u64 extended f.payload_length

module _ {U : Type 0} where
  -- A frame that is started on an idle encoder, with a key of four bytes and the payload length that
  -- the callback is to hand over, leaves a well-formed encoder.
  pub start_frame-IsValid :
      (remaining : U → List ℕ) (e : Encoder U) (f : Frame) {e' : Encoder U}
      → start_frame e f ≡ started e'
      → e.state ≡ init
      → length f.masking_key ≡ 4
      → f.payload_length ≡ length (remaining e.user_data)
      → IsValid remaining e'
  unfolding start_frame
  start_frame-IsValid remaining e f {e'} r s k p =
      let still : e'.state ≡ init = ground arith in
      let fr : e'.frame ≡ f = ground arith in
      let u : e'.user_data ≡ e.user_data = ground arith in
      record {
        in_progress = ground arith;
        key = ground arith;
        fits = ground arith;
        progress =
            subst (λ t. InProgress t e'.frame e'.state_bytes_processed (remaining e'.user_data))
              (sym still)
              (ap (λ g. g.payload_length) fr ∙ p ∙ ap (λ z. length (remaining z)) (sym u));
      }

-- The size that `aws_websocket_frame_encoded_size` computes is the length of what is written.
pub encoded_size-length-wire :
    (f : Frame) (p : List ℕ)
    → f.payload_length ≡ length p
    → f.payload_length ≤ max_8byte
    → length f.masking_key ≡ 4
    → frame_encoded_size f ≡ length (wire f p)
unfolding frame_encoded_size network_bytes
encoded_size-length-wire f p e fits k = ground (
  arith,
  length-append (extension f) (key_bytes f ++ unmask f 0 p),
  length-append (key_bytes f) (unmask f 0 p),
  length-unmask f 0 p,
)
