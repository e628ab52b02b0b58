-- ===== src/Websocket/Agreement.antt =====
-- The rules of fragmentation, which source/websocket_encoder.c checks when a frame is started and
-- source/websocket_decoder.c checks again at the first byte of the frame.
use aws_c_http.Prelude.{
  ℕ, ◌≤◌, ◌<◌, ◌≡◌, ◌⊎◌, ap, ◌∙◌, inl, inr, Bool, true, false, not, Bool-cases, List, ◌∷◌,
  if◌then◌else◌, bit_and, same, ◌==◌, arith,
}
use aws_c_http.Prelude.Bits.{low_four}
use aws_c_http.Websocket.Opcode
use aws_c_http.Websocket.Frame.{Frame, is_data_frame, max_8byte}
use aws_c_http.Websocket.Encoder.Types.{Encoder, Error, invalid_state, invalid_argument}
use aws_c_http.Websocket.Encoder.Steps.{pack_opcode_byte}
use aws_c_http.Websocket.Encoder.StartFrame
use aws_c_http.Websocket.Encoder.StartFrame.{Started, started, refused, start_frame}
use aws_c_http.Websocket.Decoder.Types.{Decoder, Outcome, next, fail, protocol_error, length_byte}
use aws_c_http.Websocket.Decoder.Steps.{
  is_known_opcode, read_opcode_byte, state_opcode_byte, check_fragmentation,
}
use aws_c_http.Websocket.HeaderBytes.{opcode_byte_fields, first_opcode, with_first_byte}

known-small : (op : ℕ) → is_known_opcode op ≡ true → op < 16
unfolding is_known_opcode
known-small op k = ground arith

module _ {V U : Type 0} where
  -- The decoder behind the first byte of a frame that passes the checks of `s_state_opcode_byte`: its
  -- flags and opcode, what is expected of the next frame, and whether the message is text.
  abbrev pub past_opcode : Frame → Decoder V U → Bool → Decoder V U
  past_opcode f d expecting = record d {
    current_frame = with_first_byte f d.current_frame;
    expecting_continuation_data_frame = expecting;
    processing_text_message = if f.opcode == Opcode.text then true else d.processing_text_message;
    state = length_byte;
  }

  -- What `s_state_opcode_byte` does with the first byte of a frame with a known opcode.
  pub first_byte_checked :
      (f : Frame) (d : Decoder V U) (bytes : List ℕ)
      → is_known_opcode f.opcode ≡ true
      → state_opcode_byte d (pack_opcode_byte f ∷ bytes)
        ≡ check_fragmentation (record d { current_frame = with_first_byte f d.current_frame }) bytes
  unfolding state_opcode_byte
  first_byte_checked f d bytes k =
      let small = known-small f.opcode k in
      let step : Bool → Frame → Outcome V U = λ known g.
        let d' : Decoder V U = record d { current_frame = g } in
        if known then check_fragmentation d' bytes else fail protocol_error d' bytes in
      let byte : ℕ = pack_opcode_byte f in
      ap (λ op. step (is_known_opcode op) (read_opcode_byte d.current_frame byte))
        (first_opcode f small)
      ∙ ap (step (is_known_opcode f.opcode)) (opcode_byte_fields f d.current_frame small).0
      ∙ ap (λ b. step b (with_first_byte f d.current_frame)) k

module _ {V U W : Type 0} where
  -- The encoder started the frame, and the decoder takes its first byte: it has read back what the
  -- encoder packed, and both expect the same of the next frame.
  pub record BothAccept (e : Encoder W) (f : Frame) (d : Decoder V U) (bytes : List ℕ)
      : Type 0 where
    pub sender : Encoder W
    pub starts : start_frame e f ≡ started sender
    pub takes :
        state_opcode_byte d (pack_opcode_byte f ∷ bytes)
        ≡ next (past_opcode f d sender.expecting_continuation_data_frame) bytes

  -- The encoder refuses the frame, and the decoder its first byte.
  pub record BothRefuse (e : Encoder W) (f : Frame) (d : Decoder V U) (bytes : List ℕ)
      : Type 0 where
    pub error : Error
    pub receiver : Decoder V U
    pub refuses : start_frame e f ≡ refused error
    pub fails :
        state_opcode_byte d (pack_opcode_byte f ∷ bytes) ≡ fail protocol_error receiver bytes

  accepted :
      (e : Encoder W) (f : Frame) (d : Decoder V U) (bytes : List ℕ) (expecting : Bool)
      → is_known_opcode f.opcode ≡ true
      → start_frame e f ≡ StartFrame.accept_frame e f expecting
      → check_fragmentation (record d { current_frame = with_first_byte f d.current_frame }) bytes
        ≡ next (past_opcode f d expecting) bytes
      → BothAccept e f d bytes
  unfolding StartFrame.accept_frame
  accepted e f d bytes expecting k starts takes = record {
    sender = _;
    starts = starts;
    takes = first_byte_checked f d bytes k ∙ takes;
  }

  refused_by :
      (e : Encoder W) (f : Frame) (d : Decoder V U) (bytes : List ℕ) (error : Error)
      → is_known_opcode f.opcode ≡ true
      → start_frame e f ≡ refused error
      → check_fragmentation (record d { current_frame = with_first_byte f d.current_frame }) bytes
        ≡ fail protocol_error (record d { current_frame = with_first_byte f d.current_frame }) bytes
      → BothRefuse e f d bytes
  refused_by e f d bytes error k refuses fails = record {
    error = error;
    receiver = _;
    refuses = refuses;
    fails = first_byte_checked f d bytes k ∙ fails;
  }

  -- An encoder between two frames and a decoder, which expect the same of the next frame, agree on a
  -- frame with a known opcode and a length that fits: either the encoder starts it, the decoder takes
  -- its first byte, reading back what is packed, and they expect the same of the frame behind it, or the
  -- encoder refuses it, and the decoder fails at its first byte.
  pub start_frame-state_opcode_byte :
      (e : Encoder W) (f : Frame) (d : Decoder V U) (bytes : List ℕ)
      → e.is_frame_in_progress ≡ false
      → f.payload_length ≤ max_8byte
      → is_known_opcode f.opcode ≡ true
      → d.expecting_continuation_data_frame ≡ e.expecting_continuation_data_frame
      → BothAccept e f d bytes ⊎ BothRefuse e f d bytes
  unfolding start_frame check_fragmentation
  start_frame-state_opcode_byte e f d bytes idle fits k agree =
      let low : bit_and f.opcode 0x0f ≡ f.opcode =
        let small = known-small f.opcode k in omega (arith, low_four f.opcode (omega arith)) in
      elim (Bool-cases (is_data_frame f.opcode)) [
        | inl carries ↦
            elim (Bool-cases
              (same e.expecting_continuation_data_frame (Opcode.continuation == f.opcode))) [
                | inl right ↦ inl (accepted e f d bytes (not f.fin) k (ground arith) (ground arith))
                | inr wrong ↦
                    inr (refused_by e f d bytes invalid_state k (ground arith) (ground arith))
              ]
        | inr control ↦ elim (Bool-cases f.fin) [
          | inl whole ↦ inl (
              accepted e f d bytes e.expecting_continuation_data_frame k (ground arith)
                (ground arith))
          | inr part ↦ inr (refused_by e f d bytes invalid_argument k (ground arith) (ground arith))
        ]
      ]
