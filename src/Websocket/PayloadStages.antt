-- ===== src/Websocket/PayloadStages.antt =====
-- The payload and the end of a frame in the loop of source/websocket_decoder.c.
use aws_c_http.Prelude.{
  ℕ, ◌≤◌, ◌≡◌, refl, sym, ap, ◌∙◌, inl, inr, Bool, true, false, ◌&&◌, Bool-cases, some, List, [],
  ◌∷◌, ◌++◌, if◌then◌else◌, length, ltb, arith,
}
use aws_c_http.Websocket.Frame.{Frame, is_data_frame, unmask, max_8byte}
use aws_c_http.Websocket.Decoder.Types.{
  Handlers, Decoder, Outcome, next, fail, protocol_error, init, payload_check, payload, frame_end,
  done,
}
use aws_c_http.Websocket.Decoder.Process.{
  state_payload_check, state_payload, state_frame_end, state_function, process, run_states,
  finish_process, success, validate_payload,
}
use aws_c_http.Websocket.HeaderRoundTrip.{process_moved}
use aws_c_http.Websocket.PayloadTaken.{is_checked, whole_payload, behind_payload, validate_all}

abbrev pub has_bytes : List ℕ → Bool
has_bytes [] = false
has_bytes (b ∷ bs) = true

module _ {V U : Type 0} (h : Handlers V U) where
  -- A decoder behind a frame is ready for the next one, and has kept the rest.
  pub record IsBehind (d : Decoder V U) (receiver : Decoder V U) : Type 0 where
    pub ready : receiver.state ≡ init
    pub frame_kept : receiver.current_frame ≡ d.current_frame
    pub cache : length receiver.state_cache ≡ length d.state_cache
    pub expecting : receiver.expecting_continuation_data_frame ≡ d.expecting_continuation_data_frame
    pub user : receiver.user_data ≡ d.user_data

  -- The callbacks take a frame and its payload, and the validator takes the payload where the message
  -- is text: what the decoder asks of them without an error, from the user data `u` to `u'`.
  pub record Accepts (fr : Frame) (text : Bool) (v : V) (p : List ℕ) (u u' : U) : Type 0 where
    pub between : U
    pub frame_taken : h.on_frame fr u ≡ (between, false)
    pub payload_taken :
        (if has_bytes p then h.on_payload p between else (between, false)) ≡ (u', false)
    pub text_taken :
        (text && is_data_frame fr.opcode) ≡ true
        → has_bytes p ≡ true
        → (h.utf8_update v p).1 ≡ false
    pub text_ends :
        (text && is_data_frame fr.opcode) ≡ true
        → (h.utf8_finalize (if has_bytes p then (h.utf8_update v p).0 else v)).1 ≡ false

  done_stage :
      (d : Decoder V U) (bytes : List ℕ)
      → d.state ≡ done
      → process h d bytes ≡ some (success true (record d { state = init }) bytes)
  unfolding process run_states finish_process
  done_stage d bytes at = rw at refl

  frame_end_stage :
      (d : Decoder V U) (bytes : List ℕ)
      → d.state ≡ frame_end
      → (is_checked d ≡ true → (h.utf8_finalize d.text_message_validator).1 ≡ false)
      → (receiver : Decoder V U) × (process h d bytes ≡ some (success true receiver bytes))
        × IsBehind d receiver
  frame_end_stage d bytes at fine =
      let v : V × Bool = h.utf8_finalize d.text_message_validator in
      let checked : Decoder V U = record d {
        text_message_validator = v.0;
        processing_text_message = false;
        state = done;
      } in
      let plain : Decoder V U = record d { state = done } in
      let step : Bool → Bool → Outcome V U = λ test err.
        if test
        then (if err
            then fail protocol_error (record d { text_message_validator = v.0 }) bytes
            else next checked bytes)
        else next plain bytes in
      let returned : state_frame_end h d bytes
          ≡ step
              (d.processing_text_message
                && is_data_frame d.current_frame.opcode
                && d.current_frame.fin)
              v.1 =
        unfold state_frame_end in refl in
      elim (Bool-cases (
        d.processing_text_message && is_data_frame d.current_frame.opcode && d.current_frame.fin)) [
          | inl test ↦
              let right : v.1 ≡ false = fine (ground (arith, test)) in
              (
                record checked { state = init },
                process_moved h frame_end d bytes checked bytes at refl refl (
                      unfold state_function in
                      returned ∙ ap (λ t. step t v.1) test ∙ ap (step true) right)
                    ∙ done_stage checked bytes refl,
                record {
                  ready = refl;
                  frame_kept = refl;
                  cache = refl;
                  expecting = refl;
                  user = refl;
                },
              )
          | inr other ↦ (
            record plain { state = init },
            process_moved h frame_end d bytes plain bytes at refl refl
                  (unfold state_function in returned ∙ ap (λ t. step t v.1) other)
                ∙ done_stage plain bytes refl,
            record { ready = refl; frame_kept = refl; cache = refl; expecting = refl; user = refl },
          )
        ]

  -- From the header on: the payload arrives masked, as `w`.
  pub payload_stage :
      (d : Decoder V U) (w p bytes : List ℕ) (u : U)
      → d.state ≡ payload_check
      → d.current_frame.payload_length ≡ length p
      → d.current_frame.payload_length ≤ max_8byte
      → length w ≡ length p
      → unmask d.current_frame 0 w ≡ p
      → Accepts d.current_frame d.processing_text_message d.text_message_validator p d.user_data u
      → (receiver : Decoder V U) × (process h d (w ++ bytes) ≡ some (success true receiver bytes))
        × IsBehind (record d { user_data = u }) receiver
  payload_stage d [] [] bytes u at e fits same plain a =
      let d₁ : Decoder V U = record d { user_data = u; state = frame_end } in
      let none_left : ltb 0 d.current_frame.payload_length ≡ false = ground arith in
      let handed : a.between ≡ u = ap (λ z. z.0) a.payload_taken in
      let begun : state_payload_check h d bytes ≡ next d₁ bytes =
        unfold state_payload_check in
        rw (a.frame_taken, none_left)
          (ap (λ z. next (record d { user_data = z; state = frame_end }) bytes) handed) in
      let (receiver, returns, behind) = frame_end_stage d₁ bytes refl a.text_ends in
      (
        receiver,
        process_moved h payload_check d bytes d₁ bytes at refl refl (unfold state_function in begun)
            ∙ returns,
        record {
          ready = behind.ready;
          frame_kept = behind.frame_kept;
          cache = behind.cache;
          expecting = behind.expecting;
          user = behind.user;
        },
      )
  payload_stage d (x ∷ w) [] bytes u at e fits same plain a = absurd (omega arith)
  payload_stage d [] (b ∷ p) bytes u at e fits same plain a = absurd (omega arith)
  payload_stage d (x ∷ w) (b ∷ p) bytes u at e fits same plain a =
      let d₁ : Decoder V U = record d {
        user_data = a.between;
        state_bytes_processed = 0;
        state = payload;
      } in
      let d₂ : Decoder V U = behind_payload h d₁ (b ∷ p) u in
      let ws : List ℕ = x ∷ (w ++ bytes) in
      let some_left : ltb 0 d.current_frame.payload_length ≡ true = ground arith in
      let begun : state_payload_check h d ws ≡ next d₁ ws =
        unfold state_payload_check in rw (a.frame_taken, some_left) refl in
      let read : state_payload h d₁ ws ≡ next d₂ bytes =
        whole_payload h d₁ (x ∷ w) bytes (omega arith) refl (e ∙ sym same)
        ∙ ap (λ z. validate_payload h d₁ z bytes) plain
        ∙ validate_all h d₁ (b ∷ p) bytes u refl e (omega arith) (λ t. a.text_taken t refl)
            a.payload_taken in
      let ends : is_checked d₂ ≡ true → (h.utf8_finalize d₂.text_message_validator).1 ≡ false =
        λ t. rw t (a.text_ends t) in
      let (receiver, returns, behind) = frame_end_stage d₂ bytes refl ends in
      (
        receiver,
        process_moved h payload_check d ws d₁ ws at refl refl (unfold state_function in begun)
            ∙ process_moved h payload d₁ ws d₂ bytes refl refl refl (unfold state_function in read)
            ∙ returns,
        record {
          ready = behind.ready;
          frame_kept = behind.frame_kept;
          cache = behind.cache;
          expecting = behind.expecting;
          user = behind.user;
        },
      )
