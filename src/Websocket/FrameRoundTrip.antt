-- ===== src/Websocket/FrameRoundTrip.antt =====
-- A frame that source/websocket_encoder.c starts and sends, read by source/websocket_decoder.c.
use aws_c_http.Prelude.{
  ℕ, ◌≤◌, ◌≡◌, refl, sym, ap, ◌∙◌, inl, inr, true, false, Bool-cases, some, List, ◌∷◌, ◌++◌,
  if◌then◌else◌, length, ◌==◌, All, arith,
}
use aws_c_http.Prelude.Words.{IsByte}
use mathlib.Core.List.{append_assoc}
use aws_c_http.Websocket.Opcode
use aws_c_http.Websocket.Frame.{Frame, zero_frame, unmask, max_8byte}
use aws_c_http.Websocket.Mask.{length-unmask, unmask_twice}
use aws_c_http.Websocket.Encoder.Types.{Encoder}
use aws_c_http.Websocket.Encoder.Steps.{pack_opcode_byte, pack_length_byte}
use aws_c_http.Websocket.Encoder.Pending.{wire, extension, key_bytes}
use aws_c_http.Websocket.Encoder.StartFrame.{started, start_frame}
use aws_c_http.Websocket.Decoder.Types.{Handlers, Decoder, next, init, opcode_byte}
use aws_c_http.Websocket.Decoder.Steps.{is_known_opcode, state_init, state_opcode_byte}
use aws_c_http.Websocket.Decoder.Process.{state_function, process, success}
use aws_c_http.Websocket.Agreement.{past_opcode, start_frame-state_opcode_byte}
use aws_c_http.Websocket.HeaderRoundTrip.{process_moved}
use aws_c_http.Websocket.HeaderStages.{IsPastHeader, header_stage}
use aws_c_http.Websocket.PayloadStages.{Accepts, payload_stage}

-- What the decoder makes of a frame: an unmasked frame has no key.
abbrev pub received : Frame → Frame
received f = record f { masking_key = if f.masked then f.masking_key else zero_frame.masking_key }

unmask_same : (f : Frame) (z : List ℕ) → unmask (received f) 0 z ≡ unmask f 0 z
unmask_same f z = elim (Bool-cases f.masked) [ inl m ↦ rw m refl | inr m ↦ rw m refl ]

module _ {W : Type 0} where
  pub started_fits :
      (e : Encoder W) (f : Frame) {e' : Encoder W}
      → start_frame e f ≡ started e'
      → (e.is_frame_in_progress ≡ false) × (f.payload_length ≤ max_8byte)
  unfolding start_frame
  started_fits e f s = (ground arith, ground arith)

module _ {V U W : Type 0} where
  -- The decoder takes the first byte of a frame that was started.
  started_taken :
      (e : Encoder W) (f : Frame) (d : Decoder V U) (bytes : List ℕ) {e' : Encoder W}
      → start_frame e f ≡ started e'
      → is_known_opcode f.opcode ≡ true
      → d.expecting_continuation_data_frame ≡ e.expecting_continuation_data_frame
      → state_opcode_byte d (pack_opcode_byte f ∷ bytes)
        ≡ next (past_opcode f d e'.expecting_continuation_data_frame) bytes
  started_taken e f d bytes {e'} s k agree =
      let (idle, fits) = started_fits e f s in
      elim (start_frame-state_opcode_byte e f d bytes idle fits k agree) [
        | inl both ↦
            let same : both.sender ≡ e' = ground (arith, sym both.starts ∙ s) in
            both.takes
            ∙ ap (λ z. next (past_opcode f d z.expecting_continuation_data_frame) bytes) same
        | inr neither ↦ absurd (ground (arith, sym neither.refuses ∙ s))
      ]

module _ {V U W : Type 0} (h : Handlers V U) where
  -- The decoder in front of the second byte.
  abbrev past_first : Encoder W → Frame → Decoder V U → Decoder V U
  past_first e' f d =
      past_opcode f (record d { current_frame = zero_frame; state = opcode_byte })
        e'.expecting_continuation_data_frame

  header_read :
      (e : Encoder W) (f : Frame) (d : Decoder V U) (bytes : List ℕ) {e' : Encoder W}
      → start_frame e f ≡ started e'
      → is_known_opcode f.opcode ≡ true
      → d.state ≡ init
      → length d.state_cache ≡ 8
      → d.expecting_continuation_data_frame ≡ e.expecting_continuation_data_frame
      → length f.masking_key ≡ 4
      → (receiver : Decoder V U) × (process h d
            (pack_opcode_byte f ∷ pack_length_byte f ∷ (extension f ++ (key_bytes f ++ bytes)))
          ≡ process h receiver bytes)
        × IsPastHeader h (past_first e' f d) f receiver
  header_read e f d bytes {e'} s k at cache agree four =
      let d₀ : Decoder V U = record d { current_frame = zero_frame; state = opcode_byte } in
      let xs : List ℕ = pack_length_byte f ∷ (extension f ++ (key_bytes f ++ bytes)) in
      let (receiver, reads, past) =
        header_stage h (past_first e' f d) f bytes refl (started_fits e f s).1 cache refl four in
      (
        receiver,
        process_moved h init d (pack_opcode_byte f ∷ xs) d₀ (pack_opcode_byte f ∷ xs) at refl refl
              (unfold state_function state_init in refl)
            ∙ process_moved h opcode_byte d₀ (pack_opcode_byte f ∷ xs) (past_first e' f d) xs refl
                refl refl (unfold state_function in started_taken e f d₀ xs s k agree)
            ∙ reads,
        past,
      )

  -- What the decoder has to be and to be given for a frame: it is between two frames, expects the same
  -- of the next one as the encoder, and its callbacks take the frame and the payload.
  pub record CanRead (e : Encoder W) (f : Frame) (d : Decoder V U) (p : List ℕ) (u : U)
      : Type 0 where
    pub known : is_known_opcode f.opcode ≡ true
    pub between : d.state ≡ init
    pub cache : length d.state_cache ≡ 8
    pub agree : d.expecting_continuation_data_frame ≡ e.expecting_continuation_data_frame
    pub accepts :
        Accepts h
          (received f)
          (if f.opcode == Opcode.text then true else d.processing_text_message)
          d.text_message_validator
          p
          d.user_data
          u

  -- What the decoder has read behind a frame: it is again between two frames, and agrees with the
  -- encoder that has started the frame.
  pub record HasRead (e' : Encoder W) (f : Frame) (u : U) (receiver : Decoder V U) : Type 0 where
    pub between : receiver.state ≡ init
    pub frame_read : receiver.current_frame ≡ received f
    pub cache : length receiver.state_cache ≡ 8
    pub agree : receiver.expecting_continuation_data_frame ≡ e'.expecting_continuation_data_frame
    pub user : receiver.user_data ≡ u

  pub frame_read :
      (e : Encoder W) (f : Frame) (d : Decoder V U) (p bytes : List ℕ) (u : U) {e' : Encoder W}
      → start_frame e f ≡ started e'
      → length f.masking_key ≡ 4
      → All IsByte f.masking_key
      → f.payload_length ≡ length p
      → All IsByte p
      → CanRead e f d p u
      → (receiver : Decoder V U) × (process h d (wire f p ++ bytes)
          ≡ some (success true receiver bytes))
        × HasRead e' f u receiver
  frame_read e f d p bytes u {e'} s four key size small c =
      let (r, reads, past) =
        header_read e f d (unmask f 0 p ++ bytes) s c.known c.between c.cache c.agree four in
      let fits = (started_fits e f s).1 in
      let fr = past.frame_read in
      let accepts : Accepts h r.current_frame r.processing_text_message r.text_message_validator p
          r.user_data u =
        rw (past.frame_read, past.text, past.validator, past.user) c.accepts in
      let length_read : r.current_frame.payload_length ≡ f.payload_length =
        ap (λ g. g.payload_length) fr in
      let (receiver, returns, behind) =
        payload_stage h r (unmask f 0 p) p bytes u past.at (length_read ∙ size)
          (omega (arith, length_read, fits)) (length-unmask f 0 p)
          (ap (λ g. unmask g 0 (unmask f 0 p)) fr
            ∙ unmask_same f (unmask f 0 p)
            ∙ unmask_twice f 0 p key small)
          accepts in
      (
        receiver,
        ap (λ z. process h d (pack_opcode_byte f ∷ pack_length_byte f ∷ z))
              (append_assoc (extension f) (key_bytes f ++ unmask f 0 p) bytes
                ∙ ap (◌++◌ (extension f)) (append_assoc (key_bytes f) (unmask f 0 p) bytes))
            ∙ reads
            ∙ returns,
        record {
          between = behind.ready;
          frame_read = behind.frame_kept ∙ fr;
          cache = behind.cache ∙ past.cache;
          agree = behind.expecting ∙ past.expecting;
          user = behind.user;
        },
      )
