-- ===== src/Websocket/Decoder/Steps.antt =====
-- The state functions of source/websocket_decoder.c that read the parts of a frame before its payload.
-- A byte cursor is the list of the bytes that it still covers. A state function returns the decoder
-- and the bytes left, also where it fails, since the C code writes both in place before it returns.
use aws_c_http.Prelude.{
  ℕ, Bool, true, not, ◌&&◌, ◌||◌, List, [], ◌∷◌, ltb, leb, ◌==◌, same, if◌then◌else◌, length, take,
  drop, write_at, bit_and,
}
use aws_c_http.Prelude.Bits.{flag}
use aws_c_http.Prelude.Words.{add_u64, sub_u64, read_be}
use aws_c_http.Websocket.Opcode
use aws_c_http.Websocket.Frame.{
  Frame, zero_frame, is_data_frame, value_for_2byte, min_2byte, max_2byte, min_8byte, max_8byte,
}
use aws_c_http.Websocket.Decoder.Types.{
  Decoder, Outcome, next, fail, protocol_error, opcode_byte, length_byte, extended_length,
  masking_key_check, masking_key, payload_check,
}

-- The `switch` of `s_state_opcode_byte`.
unfoldable pub is_known_opcode : ℕ → Bool
is_known_opcode op =
    op == Opcode.continuation
    || (op == Opcode.text
        || (op == Opcode.binary
            || (op == Opcode.close || (op == Opcode.ping || op == Opcode.pong))))

-- The fields of the first byte.
unfoldable pub read_opcode_byte : Frame → ℕ → Frame
read_opcode_byte f byte = record f {
  fin = flag byte 0x80;
  rsv0 = flag byte 0x40;
  rsv1 = flag byte 0x20;
  rsv2 = flag byte 0x10;
  opcode = bit_and byte 0x0f;
}

-- The values that the bytes of an extended length may hold.
unfoldable pub is_acceptable_length : ℕ → ℕ → Bool
is_acceptable_length total v =
    if total == 2 then leb min_2byte v && leb v max_2byte else leb min_8byte v && leb v max_8byte

-- The bytes that `s_state_extended_length` and `s_state_masking_key` take: as many as are still
-- wanted, or all there are.
unfoldable pub to_consume : ℕ → List ℕ → ℕ
to_consume wanted bytes = if leb wanted (length bytes) then wanted else length bytes

module _ {V U : Type 0} where
  unfoldable pub state_init : Decoder V U → List ℕ → Outcome V U
  state_init d bytes = next (record d { current_frame = zero_frame; state = opcode_byte }) bytes

  -- The end of `s_state_opcode_byte`, past its checks.
  unfoldable pub opcode_accepted : Decoder V U → List ℕ → Outcome V U
  opcode_accepted d bytes =
      next
        (record d {
          processing_text_message =
              if d.current_frame.opcode == Opcode.text then true else d.processing_text_message;
          state = length_byte;
        })
        bytes

  -- The fragmentation checks of `s_state_opcode_byte`.
  unfoldable pub check_fragmentation : Decoder V U → List ℕ → Outcome V U
  unfolding opcode_accepted is_data_frame
  check_fragmentation d bytes =
      let op = d.current_frame.opcode in
      let fin = d.current_frame.fin in
      if is_data_frame op
      then (if not (same d.expecting_continuation_data_frame (Opcode.continuation == op))
          then fail protocol_error d bytes
          else opcode_accepted (record d { expecting_continuation_data_frame = not fin }) bytes)
      else (if not fin then fail protocol_error d bytes else opcode_accepted d bytes)

  unfoldable pub state_opcode_byte : Decoder V U → List ℕ → Outcome V U
  unfolding is_known_opcode check_fragmentation read_opcode_byte
  state_opcode_byte d [] = next d []
  state_opcode_byte d (byte ∷ bytes) =
      let d' = record d { current_frame = read_opcode_byte d.current_frame byte } in
      if is_known_opcode (bit_and byte 0x0f)
      then check_fragmentation d' bytes
      else fail protocol_error d' bytes

  unfoldable pub state_length_byte : Decoder V U → List ℕ → Outcome V U
  state_length_byte d [] = next d []
  state_length_byte d (byte ∷ bytes) =
      let len = bit_and byte 0x7f in
      let frame = record (d.current_frame) { masked = flag byte 0x80; payload_length = len } in
      let d' = record d { current_frame = frame } in
      if leb value_for_2byte len
      then next (record d' { state_bytes_processed = 0; state = extended_length }) bytes
      else next (record d' { state = masking_key_check }) bytes

  -- `total_bytes_extended_length`
  unfoldable pub total_bytes : Decoder V U → ℕ
  total_bytes d = if d.current_frame.payload_length == value_for_2byte then 2 else 8

  -- The end of `s_state_extended_length`, once the cache holds all its bytes.
  unfoldable pub finish_extended_length : Decoder V U → ℕ → List ℕ → Outcome V U
  unfolding is_acceptable_length
  finish_extended_length d total bytes =
      let len = read_be 0 (take total d.state_cache) in
      let d' = record d { current_frame = record (d.current_frame) { payload_length = len } } in
      if is_acceptable_length total len
      then next (record d' { state = masking_key_check }) bytes
      else fail protocol_error d' bytes

  unfoldable pub fill_extended_length : Decoder V U → ℕ → ℕ → List ℕ → Outcome V U
  unfolding finish_extended_length
  fill_extended_length d total n bytes =
      let processed = d.state_bytes_processed in
      let d' = record d {
        state_cache = write_at d.state_cache processed (take n bytes);
        state_bytes_processed = add_u64 processed n;
      } in
      if ltb (add_u64 processed n) total
      then next d' (drop n bytes)
      else finish_extended_length d' total (drop n bytes)

  unfoldable pub state_extended_length : Decoder V U → List ℕ → Outcome V U
  unfolding fill_extended_length to_consume total_bytes
  state_extended_length d [] = next d []
  state_extended_length d (b ∷ bs) =
      let total = total_bytes d in
      fill_extended_length d total (to_consume (sub_u64 total d.state_bytes_processed) (b ∷ bs))
        (b ∷ bs)

  unfoldable pub state_masking_key_check : Decoder V U → List ℕ → Outcome V U
  state_masking_key_check d bytes =
      if d.current_frame.masked
      then next (record d { state = masking_key; state_bytes_processed = 0 }) bytes
      else next (record d { state = payload_check }) bytes

  unfoldable pub fill_masking_key : Decoder V U → ℕ → List ℕ → Outcome V U
  fill_masking_key d n bytes =
      let processed = d.state_bytes_processed in
      let key = write_at d.current_frame.masking_key processed (take n bytes) in
      let d' = record d {
        current_frame = record (d.current_frame) { masking_key = key };
        state_bytes_processed = add_u64 processed n;
      } in
      if add_u64 processed n == 4
      then next (record d' { state = payload_check }) (drop n bytes)
      else next d' (drop n bytes)

  unfoldable pub state_masking_key : Decoder V U → List ℕ → Outcome V U
  unfolding fill_masking_key to_consume
  state_masking_key d [] = next d []
  state_masking_key d (b ∷ bs) =
      fill_masking_key d (to_consume (sub_u64 4 d.state_bytes_processed) (b ∷ bs)) (b ∷ bs)
