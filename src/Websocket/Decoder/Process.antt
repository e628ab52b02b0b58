-- ===== src/Websocket/Decoder/Process.antt =====
-- The state functions of source/websocket_decoder.c from the payload on, which call out, and
-- `aws_websocket_decoder_process`.
use aws_c_http.Prelude.{
  ℕ, zero, suc, Bool, true, false, ◌&&◌, Option, none, some, List, [], ◌∷◌, ltb, ◌==◌,
  if◌then◌else◌, length, take, drop,
}
use aws_c_http.Prelude.Words.{add_u64, sub_u64}
use mathlib.Core.Option
use aws_c_http.Websocket.Frame.{is_data_frame, unmask}
use aws_c_http.Websocket.Decoder.Types.{
  State, rank, Handlers, Decoder, Outcome, next, fail, Error, protocol_error, callback_error, init,
  opcode_byte, length_byte, extended_length, masking_key_check, masking_key, payload_check, payload,
  frame_end, done,
}
use aws_c_http.Websocket.Decoder.Steps.{
  state_init, state_opcode_byte, state_length_byte, state_extended_length, state_masking_key_check,
  state_masking_key,
}

-- The bytes that `s_state_payload` takes.
unfoldable pub payload_to_consume : ℕ → List ℕ → ℕ
payload_to_consume remaining bytes =
    if ltb remaining (length bytes) then remaining else length bytes

-- What `aws_websocket_decoder_process` returns: an error, or success with `frame_complete`.
pub data Processed (V U : Type 0) : Type 0 where
  success : Bool → Decoder V U → List ℕ → Processed V U
  failure : Error → Decoder V U → List ℕ → Processed V U

-- What follows the loop.
unfoldable pub finish_process : {V U : Type 0} → Outcome V U → Processed V U
finish_process (fail e d bytes) = failure e d bytes
finish_process (next d bytes) =
    if rank d.state == rank done
    then success true (record d { state = init }) bytes
    else success false d bytes

module _ {V U : Type 0} (h : Handlers V U) where
  unfoldable pub state_payload_check : Decoder V U → List ℕ → Outcome V U
  state_payload_check d bytes =
      let (u, err) = h.on_frame d.current_frame d.user_data in
      let d' = record d { user_data = u } in
      if err
      then fail callback_error d' bytes
      else (if ltb 0 d.current_frame.payload_length
          then next (record d' { state_bytes_processed = 0; state = payload }) bytes
          else next (record d' { state = frame_end }) bytes)

  -- `s_state_payload` from the `on_payload` callback on.
  unfoldable pub deliver_payload : Decoder V U → List ℕ → List ℕ → Outcome V U
  deliver_payload d chunk bytes =
      let (u, err) = h.on_payload chunk d.user_data in
      let d' = record d { user_data = u } in
      let processed = add_u64 d.state_bytes_processed (length chunk) in
      let d'' = record d' { state_bytes_processed = processed } in
      if err
      then fail callback_error d' bytes
      else (if processed == d.current_frame.payload_length
          then next (record d'' { state = frame_end }) bytes
          else next d'' bytes)

  -- The UTF-8 check of `s_state_payload`, and what follows it.
  unfoldable pub validate_payload : Decoder V U → List ℕ → List ℕ → Outcome V U
  unfolding deliver_payload is_data_frame
  validate_payload d chunk bytes =
      let (v, err) = h.utf8_update d.text_message_validator chunk in
      let d' = record d { text_message_validator = v } in
      if d.processing_text_message && is_data_frame d.current_frame.opcode
      then (if err then fail protocol_error d' bytes else deliver_payload d' chunk bytes)
      else deliver_payload d chunk bytes

  -- The part of `s_state_payload` between the two: the mask is undone in place.
  unfoldable pub take_payload : Decoder V U → ℕ → List ℕ → Outcome V U
  unfolding validate_payload
  take_payload d n bytes =
      let index = d.state_bytes_processed in
      validate_payload d (unmask d.current_frame index (take n bytes)) (drop n bytes)

  unfoldable pub state_payload : Decoder V U → List ℕ → Outcome V U
  unfolding take_payload payload_to_consume
  state_payload d [] = next d []
  state_payload d (b ∷ bs) =
      take_payload d
        (payload_to_consume (sub_u64 d.current_frame.payload_length d.state_bytes_processed)
          (b ∷ bs))
        (b ∷ bs)

  unfoldable pub state_frame_end : Decoder V U → List ℕ → Outcome V U
  unfolding is_data_frame
  state_frame_end d bytes =
      let (v, err) = h.utf8_finalize d.text_message_validator in
      let d' = record d { text_message_validator = v } in
      if d.processing_text_message && is_data_frame d.current_frame.opcode && d.current_frame.fin
      then (if err
          then fail protocol_error d' bytes
          else next (record d' { processing_text_message = false; state = done }) bytes)
      else next (record d { state = done }) bytes

  -- `s_state_functions[decoder->state](decoder, data)`. The table has no entry for `done`, which the
  -- loop does not ask for.
  unfoldable pub state_function : State → Decoder V U → List ℕ → Outcome V U
  state_function init = state_init
  state_function opcode_byte = state_opcode_byte
  state_function length_byte = state_length_byte
  state_function extended_length = state_extended_length
  state_function masking_key_check = state_masking_key_check
  state_function masking_key = state_masking_key
  state_function payload_check = state_payload_check
  state_function payload = state_payload
  state_function frame_end = state_frame_end
  state_function done = next

  -- The `while` loop with its fuel; `none` means that the fuel ran out. The state has changed if its
  -- place in the enumeration has.
  unfoldable pub run_states : ℕ → Decoder V U → List ℕ → Option (Outcome V U)
  run_states zero d bytes = none
  run_states (suc fuel) d bytes =
      if rank d.state == rank done
      then some (next d bytes)
      else elim (state_function d.state d bytes) [
        | fail e d' rest ↦ some (fail e d' rest)
        | next d' rest ↦ elim (rank d'.state == rank d.state) [
          | true ↦ some (next d' rest)
          | false ↦ run_states fuel d' rest
        ]
      ]

  -- `aws_websocket_decoder_process`. The states only rise, so ten rounds are enough.
  unfoldable pub process : Decoder V U → List ℕ → Option (Processed V U)
  process d bytes = Option.map finish_process (run_states 10 d bytes)
