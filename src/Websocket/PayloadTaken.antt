-- ===== src/Websocket/PayloadTaken.antt =====
-- A payload that reaches `s_state_payload` of source/websocket_decoder.c whole.
use aws_c_http.Prelude.{
  ℕ, ◌≤◌, ◌≡◌, refl, sym, ap, ◌∙◌, inl, inr, Bool, true, false, ◌&&◌, Bool-cases, List, [], ◌∷◌,
  ◌++◌, if◌then◌else◌, length, length-append, take, drop, take_all-append, drop_all-append, ◌==◌,
  ==_iff, arith,
}
use aws_c_http.Prelude.Words.{add_u64, sub_u64}
use aws_c_http.Websocket.Frame.{is_data_frame, unmask, max_8byte}
use aws_c_http.Websocket.Decoder.Types.{
  Handlers, Decoder, Outcome, next, fail, protocol_error, frame_end,
}
use aws_c_http.Websocket.Decoder.Process.{
  state_payload, payload_to_consume, take_payload, validate_payload, deliver_payload,
}

payload_to_consume_all :
    (n : ℕ) (xs ys : List ℕ) → n ≡ length xs → payload_to_consume (sub_u64 n 0) (xs ++ ys) ≡ n
unfolding payload_to_consume
payload_to_consume_all n xs ys e = ground (arith, length-append xs ys)

module _ {V U : Type 0} where
  -- Whether the payload of the frame is checked as text.
  abbrev pub is_checked : Decoder V U → Bool
  is_checked d = d.processing_text_message && is_data_frame d.current_frame.opcode

module _ {V U : Type 0} (h : Handlers V U) where
  -- `s_state_payload`, given the whole payload.
  pub whole_payload :
      (d : Decoder V U) (w bytes : List ℕ)
      → 1 ≤ length w
      → d.state_bytes_processed ≡ 0
      → d.current_frame.payload_length ≡ length w
      → state_payload h d (w ++ bytes) ≡ validate_payload h d (unmask d.current_frame 0 w) bytes
  unfolding state_payload
  whole_payload d [] bytes some_bytes zeroed e = absurd (omega arith)
  whole_payload d (b ∷ w) bytes some_bytes zeroed e =
      let xs : List ℕ = b ∷ (w ++ bytes) in
      let wanted = payload_to_consume_all (length (b ∷ w)) (b ∷ w) bytes refl in
      ap (λ n. take_payload h d (payload_to_consume (sub_u64 n d.state_bytes_processed) xs) xs) e
      ∙ ap (λ k. take_payload h d (payload_to_consume (sub_u64 (length (b ∷ w)) k) xs) xs) zeroed
      ∙ ap (λ n. take_payload h d n xs) wanted
      ∙ unfold take_payload in
        ap
          (λ k.
            validate_payload h d (unmask d.current_frame k (take (length (b ∷ w)) xs))
              (drop (length (b ∷ w)) xs))
          zeroed
        ∙ ap (λ z. validate_payload h d (unmask d.current_frame 0 z) (drop (length (b ∷ w)) xs))
            (take_all-append (b ∷ w) bytes)
        ∙ ap (validate_payload h d (unmask d.current_frame 0 (b ∷ w)))
            (drop_all-append (b ∷ w) bytes)

  -- `s_state_payload` past the mask, given the whole payload.
  deliver_all :
      (d : Decoder V U) (p bytes : List ℕ) (u : U)
      → d.state_bytes_processed ≡ 0
      → d.current_frame.payload_length ≡ length p
      → length p ≤ max_8byte
      → h.on_payload p d.user_data ≡ (u, false)
      → deliver_payload h d p bytes
        ≡ next
            (record d { user_data = u; state_bytes_processed = length p; state = frame_end })
            bytes
  unfolding deliver_payload
  deliver_all d p bytes u zeroed e fits taken =
      let sum : add_u64 0 (length p) ≡ length p = omega arith in
      let all : (length p == length p) ≡ true = (==_iff (length p) (length p)).1 refl in
      rw (taken, zeroed, sum, e, all) refl

  -- The decoder behind the payload, in front of the last state.
  abbrev pub behind_payload : Decoder V U → List ℕ → U → Decoder V U
  behind_payload d p u = record d {
    text_message_validator =
        if is_checked d
        then (h.utf8_update d.text_message_validator p).0
        else d.text_message_validator;
    user_data = u;
    state_bytes_processed = length p;
    state = frame_end;
  }

  pub validate_all :
      (d : Decoder V U) (p bytes : List ℕ) (u : U)
      → d.state_bytes_processed ≡ 0
      → d.current_frame.payload_length ≡ length p
      → length p ≤ max_8byte
      → (is_checked d ≡ true → (h.utf8_update d.text_message_validator p).1 ≡ false)
      → h.on_payload p d.user_data ≡ (u, false)
      → validate_payload h d p bytes ≡ next (behind_payload d p u) bytes
  validate_all d p bytes u zeroed e fits text taken =
      let v : V × Bool = h.utf8_update d.text_message_validator p in
      let d' : Decoder V U = record d { text_message_validator = v.0 } in
      let step : Bool → Bool → Outcome V U = λ test err.
        if test
        then (if err then fail protocol_error d' bytes else deliver_payload h d' p bytes)
        else deliver_payload h d p bytes in
      let returned : validate_payload h d p bytes ≡ step (is_checked d) v.1 =
        unfold validate_payload in refl in
      elim (Bool-cases (is_checked d)) [
        | inl test ↦
            returned
            ∙ ap (λ t. step t v.1) test
            ∙ ap (step true) (text test)
            ∙ deliver_all d' p bytes u zeroed e fits taken
            ∙ ap
                (λ t.
                  next
                    (record d {
                      text_message_validator = if t then v.0 else d.text_message_validator;
                      user_data = u;
                      state_bytes_processed = length p;
                      state = frame_end;
                    })
                    bytes)
                (sym test)
        | inr other ↦
            returned
            ∙ ap (λ t. step t v.1) other
            ∙ deliver_all d p bytes u zeroed e fits taken
            ∙ ap
                (λ t.
                  next
                    (record d {
                      text_message_validator = if t then v.0 else d.text_message_validator;
                      user_data = u;
                      state_bytes_processed = length p;
                      state = frame_end;
                    })
                    bytes)
                (sym other)
      ]
