-- ===== src/Http1/Encoder/Process.antt =====
-- The loop of `aws_h1_encoder_process` of source/h1_encoder.c.
use aws_c_http.Prelude.{ℕ, zero, suc, ◌+◌, ◌*◌, Bool, true, false, Option, none, some, ◌==◌, length}
use aws_c_http.ByteBuf.{ByteBuf, Write, WriteToCapacity}
use aws_c_http.Http1.Encoder.Types.{
  invalid_state, EncoderMessage, State, rank, init, head, unchunked_body, chunk_next,
  chunk_line_state, chunk_body, chunk_end, chunk_trailer, done, Encoder, Streams, Outcome, next,
  fail, abort,
}
use aws_c_http.Http1.Encoder.States.{
  state_init, state_head, state_unchunked_body, state_chunk_next, state_chunk_line,
  state_chunk_body, state_chunk_end, state_chunk_trailer, state_done,
}

abbrev pub chunks_of : {S : Type 0} → Option (EncoderMessage S) → ℕ
chunks_of none = 0
chunks_of (some m) = length m.pending_chunk_list

-- `aws_h1_encoder_is_message_in_progress`
unfoldable pub is_message_in_progress : {S : Type 0} → Encoder S → Bool
is_message_in_progress e = elim e.message [ none ↦ false | some m ↦ true ]

module _ {S : Type 0} (write : Write) (write_to_capacity : WriteToCapacity)
    (streams : Streams S) where
  -- `s_encoder_states[encoder->state].fn`
  unfoldable pub state_function : State → Encoder S → ByteBuf → Outcome S
  state_function init = state_init
  state_function head = state_head write_to_capacity
  state_function unchunked_body = state_unchunked_body streams
  state_function chunk_next = state_chunk_next
  state_function chunk_line_state = state_chunk_line write_to_capacity
  state_function chunk_body = state_chunk_body streams
  state_function chunk_end = state_chunk_end write
  state_function chunk_trailer = state_chunk_trailer write write_to_capacity
  state_function done = state_done

  -- The `do` loop with its fuel; `none` means that the fuel ran out.
  unfoldable pub run_states : ℕ → Encoder S → ByteBuf → Option (Outcome S)
  run_states zero e out = none
  run_states (suc fuel) e out = elim (state_function e.state e out) [
    | fail x e' out' ↦ some (fail x e' out')
    | abort ↦ some abort
    | next e' out' ↦ elim (rank e.state == rank e'.state) [
      | true ↦ some (next e' out')
      | false ↦ run_states fuel e' out'
    ]
  ]

  -- `aws_h1_encoder_process`. Each pending chunk takes four rounds.
  unfoldable pub process : Encoder S → ByteBuf → Option (Outcome S)
  process e out = elim e.message [
    | none ↦ some (fail invalid_state e out)
    | some m ↦ run_states (4 * length m.pending_chunk_list + 7) e out
  ]

-- `aws_h1_encoder_is_waiting_for_chunks`
unfoldable pub is_waiting_for_chunks : {S : Type 0} → Encoder S → Bool
is_waiting_for_chunks e = elim (rank e.state == rank chunk_next) [
  | false ↦ false
  | true ↦ elim e.message [ none ↦ false | some m ↦ length m.pending_chunk_list == 0 ]
]
