-- ===== src/Websocket/HeaderStages.antt =====
-- The header of a frame, stage by stage, in the loop of source/websocket_decoder.c.
use aws_c_http.Prelude.{
  ℕ, ◌≤◌, ◌≡◌, refl, ap, ◌∙◌, inl, inr, true, false, Bool-cases, List, [], ◌∷◌, ◌++◌, if◌then◌else◌,
  length, leb, length-write_at, write_at, arith,
}
use aws_c_http.Websocket.Frame.{Frame, min_2byte, max_8byte}
use aws_c_http.Websocket.Encoder.Steps.{pack_length_byte, network_bytes}
use aws_c_http.Websocket.Encoder.Pending.{extension, key_bytes}
use aws_c_http.Websocket.Decoder.Types.{
  Handlers, Decoder, next, length_byte, extended_length, masking_key_check, masking_key,
  payload_check,
}
use aws_c_http.Websocket.Decoder.Steps.{state_length_byte, state_masking_key_check}
use aws_c_http.Websocket.Decoder.Process.{state_function, process}
use aws_c_http.Websocket.HeaderBytes.{short_length, length_byte_fields}
use aws_c_http.Websocket.HeaderRoundTrip.{
  process_moved, length_read, key_read, before_length, behind_length,
}

module _ {V U : Type 0} (h : Handlers V U) where
  -- The decoder behind the key of a frame.
  abbrev pub behind_key : Decoder V U → Frame → Frame → Decoder V U
  behind_key d fr f = record d {
    current_frame = record fr { masking_key = if f.masked then f.masking_key else fr.masking_key };
    state_bytes_processed = if f.masked then 4 else d.state_bytes_processed;
    state = payload_check;
  }

  key_stage :
      (d : Decoder V U) (fr f : Frame) (bytes : List ℕ)
      → fr.masked ≡ f.masked
      → length fr.masking_key ≡ 4
      → length f.masking_key ≡ 4
      → process h
          (record d { current_frame = fr; state = masking_key_check })
          (key_bytes f ++ bytes)
        ≡ process h (behind_key d fr f) bytes
  key_stage d fr f bytes same wide four =
      let d₀ : Decoder V U = record d { current_frame = fr; state = masking_key_check } in
      elim (Bool-cases f.masked) [
        | inl m ↦
            let d₁ : Decoder V U = record d₀ { state_bytes_processed = 0; state = masking_key } in
            let d₂ : Decoder V U = record d₁ {
              current_frame = record fr { masking_key = f.masking_key };
              state_bytes_processed = 4;
              state = payload_check;
            } in
            let xs : List ℕ = f.masking_key ++ bytes in
            rw m (
              process_moved h masking_key_check d₀ xs d₁ xs refl refl refl
                (unfold state_function state_masking_key_check in rw (same ∙ m) refl)
              ∙ process_moved h masking_key d₁ xs d₂ bytes refl refl refl
                  (unfold state_function in key_read d fr f.masking_key bytes four wide))
        | inr m ↦
            let d₁ : Decoder V U = record d₀ { state = payload_check } in
            rw m (
              process_moved h masking_key_check d₀ bytes d₁ bytes refl refl refl
                (unfold state_function state_masking_key_check in rw (same ∙ m) refl))
      ]

  -- The frame that the decoder has read behind the second byte.
  abbrev second_read : Frame → Frame → ℕ → Frame
  second_read f fr len = record fr { masked = f.masked; payload_length = len }

  long_length :
      (d : Decoder V U) (f : Frame) (bytes : List ℕ)
      → d.state ≡ length_byte
      → leb min_2byte f.payload_length ≡ true
      → f.payload_length ≤ max_8byte
      → length d.state_cache ≡ 8
      → process h d (pack_length_byte f ∷ (network_bytes f ++ bytes))
        ≡ process h
            (behind_length d
              (second_read f d.current_frame (short_length f))
              (network_bytes f)
              f.payload_length)
            bytes
  long_length d f bytes at long fits cache =
      let xs : List ℕ = network_bytes f ++ bytes in
      let fr : Frame = second_read f d.current_frame (short_length f) in
      let d₁ : Decoder V U = before_length d fr in
      let d₂ : Decoder V U = behind_length d fr (network_bytes f) f.payload_length in
      let step : state_length_byte d (pack_length_byte f ∷ xs) ≡ next d₁ xs =
        (length_byte_fields d f xs).0
        ∙ ap
            (λ b.
              if b
              then next d₁ xs
              else next (record d { current_frame = fr; state = masking_key_check }) xs)
            long in
      process_moved h length_byte d (pack_length_byte f ∷ xs) d₁ xs at refl refl
        (unfold state_function in step)
      ∙ process_moved h extended_length d₁ xs d₂ bytes refl refl refl
          (unfold state_function in length_read d fr f bytes refl (ground arith) fits cache)

  short_length_stage :
      (d : Decoder V U) (f : Frame) (bytes : List ℕ)
      → d.state ≡ length_byte
      → leb min_2byte f.payload_length ≡ false
      → process h d (pack_length_byte f ∷ bytes)
        ≡ process h
            (record d {
              current_frame = second_read f d.current_frame f.payload_length;
              state = masking_key_check;
            })
            bytes
  short_length_stage d f bytes at short =
      let fr : ℕ → Frame = second_read f d.current_frame in
      let d₁ : Decoder V U = record d {
        current_frame = fr (short_length f);
        state = masking_key_check;
      } in
      let step : state_length_byte d (pack_length_byte f ∷ bytes) ≡ next d₁ bytes =
        (length_byte_fields d f bytes).0
        ∙ ap (λ b. if b then next (before_length d (fr (short_length f))) bytes else next d₁ bytes)
            short in
      let same : short_length f ≡ f.payload_length = ground arith in
      process_moved h length_byte d (pack_length_byte f ∷ bytes) d₁ bytes at refl refl
        (unfold state_function in step)
      ∙ ap (λ n. process h (record d { current_frame = fr n; state = masking_key_check }) bytes)
          same

  -- What the decoder has read of a frame behind its header, and what it has left alone.
  pub record IsPastHeader (d : Decoder V U) (f : Frame) (receiver : Decoder V U) : Type 0 where
    pub at : receiver.state ≡ payload_check
    pub frame_read : receiver.current_frame ≡ record d.current_frame {
      masked = f.masked;
      payload_length = f.payload_length;
      masking_key = if f.masked then f.masking_key else d.current_frame.masking_key;
    }
    pub cache : length receiver.state_cache ≡ 8
    pub expecting : receiver.expecting_continuation_data_frame ≡ d.expecting_continuation_data_frame
    pub text : receiver.processing_text_message ≡ d.processing_text_message
    pub validator : receiver.text_message_validator ≡ d.text_message_validator
    pub user : receiver.user_data ≡ d.user_data

  -- The header from its second byte on.
  pub header_stage :
      (d : Decoder V U) (f : Frame) (bytes : List ℕ)
      → d.state ≡ length_byte
      → f.payload_length ≤ max_8byte
      → length d.state_cache ≡ 8
      → length d.current_frame.masking_key ≡ 4
      → length f.masking_key ≡ 4
      → (receiver : Decoder V U) × (process h d
            (pack_length_byte f ∷ (extension f ++ (key_bytes f ++ bytes)))
          ≡ process h receiver bytes)
        × IsPastHeader d f receiver
  header_stage d f bytes at fits cache wide four =
      let xs : List ℕ = key_bytes f ++ bytes in
      let fr : Frame = second_read f d.current_frame f.payload_length in
      elim (Bool-cases (leb min_2byte f.payload_length)) [
        | inl long ↦
            let extended : extension f ≡ network_bytes f = ground arith in
            let d₁ : Decoder V U = record d {
              state_cache = write_at d.state_cache 0 (network_bytes f);
              state_bytes_processed = length (network_bytes f);
            } in
            (
              behind_key d₁ fr f,
              ap (λ z. process h d (pack_length_byte f ∷ (z ++ xs))) extended
                  ∙ long_length d f xs at long fits cache
                  ∙ key_stage d₁ fr f bytes refl wide four,
              record {
                at = refl;
                frame_read = refl;
                cache = length-write_at d.state_cache 0 (network_bytes f) ∙ cache;
                expecting = refl;
                text = refl;
                validator = refl;
                user = refl;
              },
            )
        | inr short ↦
            let extended : extension f ≡ [] = ground arith in
            (
              behind_key d fr f,
              ap (λ z. process h d (pack_length_byte f ∷ (z ++ xs))) extended
                  ∙ short_length_stage d f xs at short
                  ∙ key_stage d fr f bytes refl wide four,
              record {
                at = refl;
                frame_read = refl;
                cache = cache;
                expecting = refl;
                text = refl;
                validator = refl;
                user = refl;
              },
            )
      ]
