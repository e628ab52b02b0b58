-- ===== src/Websocket/RoundTrip.antt =====
-- The whole way of a frame: `aws_websocket_encoder_start_frame`, a call of
-- `aws_websocket_encoder_process` with room for the frame, and a call of
-- `aws_websocket_decoder_process` on what was written.
use aws_c_http.Prelude.{
  ℕ, ◌+◌, ◌≤◌, ◌≡◌, sym, ap, ◌∙◌, true, false, some, List, ◌++◌, length, All, arith,
}
use aws_c_http.Prelude.Words.{IsByte}
use aws_c_http.Websocket.Frame.{Frame}
use aws_c_http.Websocket.Encoder.Types
use aws_c_http.Websocket.Encoder.Types.{ByteBuf, len, Write, IsWrite, PayloadFn, Encoder}
use aws_c_http.Websocket.Encoder.Steps
use aws_c_http.Websocket.Encoder.Pending.{Source, IsEager, wire, pending}
use aws_c_http.Websocket.Encoder.Conserve.{pending_of}
use aws_c_http.Websocket.Encoder.Completion.{process_completes}
use aws_c_http.Websocket.Encoder.StartFrame.{
  started, start_frame, frame_encoded_size, start_frame-IsValid, encoded_size-length-wire,
}
use aws_c_http.Websocket.Decoder.Types.{Handlers, Decoder}
use aws_c_http.Websocket.Decoder.Process.{process, success}
use aws_c_http.Websocket.FrameRoundTrip.{CanRead, HasRead, started_fits, frame_read}

module _ {W : Type 0} where
  started_kept :
      (e : Encoder W) (f : Frame) {e' : Encoder W}
      → start_frame e f ≡ started e'
      → (e'.state ≡ e.state) × (e'.frame ≡ f) × (e'.user_data ≡ e.user_data)
  unfolding start_frame
  started_kept e f s = (ground arith, ground arith, ground arith)

  started_pending :
      {stream : PayloadFn W} (source : Source stream) (e : Encoder W) (f : Frame) {e' : Encoder W}
      → start_frame e f ≡ started e'
      → e.state ≡ Types.init
      → pending_of source e' ≡ wire f (source.remaining e.user_data)
  started_pending source e f {e'} s at =
      let (state, frame, user) = started_kept e f s in
      ap (λ t. pending t e'.frame e'.state_bytes_processed (source.remaining e'.user_data))
        (state ∙ at)
      ∙ ap (λ g. pending Types.init g e'.state_bytes_processed (source.remaining e'.user_data))
          frame
      ∙ ap (λ z. wire f (source.remaining z)) user

module _ {V U W : Type 0} (h : Handlers V U) (write : Write) (writes : IsWrite write)
    (stream : PayloadFn W) (source : Source stream) (eager : IsEager source) where
  -- A frame with a known opcode that an idle encoder starts, whose key is four bytes and whose payload
  -- is what the callback hands over, is sent by one call with room for its encoded size: the call
  -- appends as many bytes. A decoder that is between two frames and expects the same of the next frame,
  -- and whose callbacks and validator take the frame and its payload, reads from these bytes the frame
  -- and the payload, hands them over, leaves the bytes behind the frame, and is again between two
  -- frames, expecting of the next one what the encoder expects since it started the frame.
  pub frame_round_trip :
      (e e' : Encoder W) (f : Frame) (d : Decoder V U) (out : ByteBuf) (bytes : List ℕ) (u : U)
      → start_frame e f ≡ started e'
      → e.state ≡ Types.init
      → length f.masking_key ≡ 4
      → All IsByte f.masking_key
      → f.payload_length ≡ length (source.remaining e.user_data)
      → All IsByte (source.remaining e.user_data)
      → len out + frame_encoded_size f ≤ out.capacity
      → CanRead h e f d (source.remaining e.user_data) u
      → (sent : List ℕ) × (e'' : Encoder W) × (out' : ByteBuf) × (receiver : Decoder V U)
        × (Steps.process write stream e' out ≡ some (Steps.success e'' out'))
        × (out'.contents ≡ out.contents ++ sent)
        × (length sent ≡ frame_encoded_size f)
        × (e''.is_frame_in_progress ≡ false)
        × (process h d (sent ++ bytes) ≡ some (success true receiver bytes))
        × HasRead h e' f u receiver
  frame_round_trip e e' f d out bytes u s at four key size small room can =
      let p : List ℕ = source.remaining e.user_data in
      let sized : frame_encoded_size f ≡ length (wire f p) =
        encoded_size-length-wire f p size (started_fits e f s).1 four in
      let owed : pending_of source e' ≡ wire f p = started_pending source e f s at in
      let valid = start_frame-IsValid source.remaining e f s at four size in
      let fits : len out + length (pending_of source e') ≤ out.capacity =
        omega (arith, ap length owed, sized, room) in
      let (e'', out', returns, written, idle, _, _) =
        process_completes write writes stream source eager e' out valid fits in
      let (receiver, read, has) = frame_read h e f d p bytes u s four key size small can in
      (
        wire f p,
        e'',
        out',
        receiver,
        returns,
        written ∙ ap (λ z. out.contents ++ z) owed,
        sym sized,
        idle,
        read,
        has,
      )
