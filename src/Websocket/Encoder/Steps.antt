-- ===== src/Websocket/Encoder/Steps.antt =====
-- The state functions of source/websocket_encoder.c and `aws_websocket_encoder_process`.
use Prim.Native.Nat.{bit_or}
use aws_c_http.Prelude.{
  ℕ, zero, suc, ◌+◌, ◌-◌, ◌^◌, ◌%◌, Bool, true, false, not, ◌&&◌, Option, none, some, List, [], ◌∷◌,
  ◌++◌, ltb, leb, ◌==◌, if◌then◌else◌, length, take, drop,
}
use mathlib.Core.Option
use aws_c_http.Prelude.Words.{u64_max, add_u64, sub_u64, be_bytes}
use aws_c_http.Websocket.Frame.{
  Frame, unmask, value_for_2byte, value_for_8byte, min_2byte, max_2byte,
}
use aws_c_http.Websocket.Encoder.Types.{
  ByteBuf, len, Write, State, rank, Error, invalid_state, stream_length_incorrect, callback_error,
  Encoder, PayloadFn, Outcome, next, fail, abort, init, opcode_byte, length_byte, extended_length,
  masking_key_check, masking_key, payload_check, payload, done,
}

-- `flag << n`
abbrev pub shifted : Bool → ℕ → ℕ
shifted b n = if b then 2 ^ n else 0

-- The first byte of a frame.
unfoldable pub pack_opcode_byte : Frame → ℕ
pack_opcode_byte f =
    bit_or
      (bit_or (bit_or (bit_or f.opcode (shifted f.fin 7)) (shifted f.rsv0 6)) (shifted f.rsv1 5))
      (shifted f.rsv2 4)

-- Its second byte: the mask bit, and the length or a marker.
unfoldable pub pack_length_byte : Frame → ℕ
pack_length_byte f =
    if ltb f.payload_length min_2byte
    then bit_or (shifted f.masked 7) f.payload_length
    else (if leb f.payload_length max_2byte
        then bit_or (shifted f.masked 7) value_for_2byte
        else bit_or (shifted f.masked 7) value_for_8byte)

-- The length in the two or eight bytes of `network_bytes_array`.
unfoldable pub network_bytes : Frame → List ℕ
network_bytes f =
    if leb f.payload_length max_2byte
    then be_bytes 2 (f.payload_length % 2 ^ 16)
    else be_bytes 8 f.payload_length

module _ {U : Type 0} where
  unfoldable pub state_init : Encoder U → ByteBuf → Outcome U
  state_init e out =
      if not e.is_frame_in_progress
      then fail invalid_state e out
      else next (record e { state = opcode_byte }) out

  unfoldable pub state_masking_key_check : Encoder U → ByteBuf → Outcome U
  state_masking_key_check e out =
      if e.frame.masked
      then next (record e { state_bytes_processed = 0; state = masking_key }) out
      else next (record e { state = payload_check }) out

  unfoldable pub state_payload_check : Encoder U → ByteBuf → Outcome U
  state_payload_check e out =
      if ltb 0 e.frame.payload_length
      then next (record e { state_bytes_processed = 0; state = payload }) out
      else next (record e { state = done }) out

module _ {U : Type 0} (write : Write) where
  unfoldable pub state_opcode_byte : Encoder U → ByteBuf → Outcome U
  unfolding pack_opcode_byte
  state_opcode_byte e out =
      let (out', written) = write out (pack_opcode_byte e.frame ∷ []) in
      if written then next (record e { state = length_byte }) out' else next e out'

  unfoldable pub state_length_byte : Encoder U → ByteBuf → Outcome U
  unfolding pack_length_byte
  state_length_byte e out =
      let (out', written) = write out (pack_length_byte e.frame ∷ []) in
      if written
      then (if ltb e.frame.payload_length min_2byte
          then next (record e { state = masking_key_check }) out'
          else next (record e { state_bytes_processed = 0; state = extended_length }) out')
      else next e out'

  -- The end of `s_state_extended_length` and `s_state_masking_key`: of the bytes that are left to
  -- write, as many as the buffer has room for; the state `after` once none is left.
  unfoldable pub write_rest : State → Encoder U → List ℕ → ByteBuf → Outcome U
  write_rest after e left out =
      let space = sub_u64 out.capacity (len out) in
      let fits = not (ltb space (length left)) in
      let cursor = if fits then left else take space left in
      let out' = (write out cursor).0 in
      let e' = record e {
        state_bytes_processed = add_u64 e.state_bytes_processed (length cursor);
      } in
      if fits then next (record e' { state = after }) out' else next e' out'

  unfoldable pub state_extended_length : Encoder U → ByteBuf → Outcome U
  unfolding write_rest network_bytes
  state_extended_length e out =
      write_rest masking_key_check e (drop e.state_bytes_processed (network_bytes e.frame)) out

  unfoldable pub state_masking_key : Encoder U → ByteBuf → Outcome U
  unfolding write_rest
  state_masking_key e out =
      write_rest payload_check e (drop e.state_bytes_processed e.frame.masking_key) out

module _ {U : Type 0} where
  -- The end of `s_state_payload`, past the overflow check, with the number of bytes that the callback
  -- wrote.
  unfoldable pub account_payload : Encoder U → ℕ → ByteBuf → Outcome U
  account_payload e written out =
      let processed = e.state_bytes_processed + written in
      let e' = record e { state_bytes_processed = processed } in
      if processed == e.frame.payload_length
      then next (record e' { state = done }) out
      else (if ltb e.frame.payload_length processed
          then fail stream_length_incorrect e' out
          else next e' out)

  -- The middle of `s_state_payload`: the payload behind the first `old` bytes is masked in place.
  unfoldable pub mask_payload : Encoder U → ℕ → ByteBuf → Outcome U
  unfolding account_payload
  mask_payload e old out =
      let written = len out - old in
      let masked = unmask e.frame e.state_bytes_processed (drop old out.contents) in
      if ltb u64_max (e.state_bytes_processed + written)
      then fail stream_length_incorrect e out
      else account_payload e written (record out { contents = take old out.contents ++ masked })

module _ {U : Type 0} (stream_outgoing_payload : PayloadFn U) where
  unfoldable pub state_payload : Encoder U → ByteBuf → Outcome U
  unfolding mask_payload
  state_payload e out =
      let (out', u, err) = stream_outgoing_payload out e.user_data in
      let e' = record e { user_data = u } in
      if leb out.capacity (len out)
      then next e out
      else (if err
          then fail callback_error e' out'
          else (if not (out'.capacity == out.capacity && leb (len out) (len out'))
              then abort
              else mask_payload e' (len out) out'))

-- What `aws_websocket_encoder_process` returns.
pub data Processed (U : Type 0) : Type 0 where
  success : Encoder U → ByteBuf → Processed U
  failure : Error → Encoder U → ByteBuf → Processed U
  aborted : Processed U

-- What follows the loop.
unfoldable pub finish_process : {U : Type 0} → Outcome U → Processed U
finish_process (fail x e out) = failure x e out
finish_process abort = aborted
finish_process (next e out) =
    if rank e.state == rank done
    then success (record e { state = init; is_frame_in_progress = false }) out
    else success e out

module _ {U : Type 0} (write : Write) (stream_outgoing_payload : PayloadFn U) where
  -- `s_state_functions[encoder->state](encoder, out_buf)`. The table has no entry for `done`, which
  -- the loop does not ask for.
  unfoldable pub state_function : State → Encoder U → ByteBuf → Outcome U
  state_function init = state_init
  state_function opcode_byte = state_opcode_byte write
  state_function length_byte = state_length_byte write
  state_function extended_length = state_extended_length write
  state_function masking_key_check = state_masking_key_check
  state_function masking_key = state_masking_key write
  state_function payload_check = state_payload_check
  state_function payload = state_payload stream_outgoing_payload
  state_function done = next

  -- The `while` loop with its fuel; `none` means that the fuel ran out.
  unfoldable pub run_states : ℕ → Encoder U → ByteBuf → Option (Outcome U)
  run_states zero e out = none
  run_states (suc fuel) e out =
      if rank e.state == rank done then some (next e out) else elim (state_function e.state e out) [
        | fail x e' out' ↦ some (fail x e' out')
        | abort ↦ some abort
        | next e' out' ↦ elim (rank e'.state == rank e.state) [
          | true ↦ some (next e' out')
          | false ↦ run_states fuel e' out'
        ]
      ]

  -- `aws_websocket_encoder_process`. The states only rise, so nine rounds are enough.
  unfoldable pub process : Encoder U → ByteBuf → Option (Processed U)
  process e out = Option.map finish_process (run_states 9 e out)
