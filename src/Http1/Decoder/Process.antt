-- ===== src/Http1/Decoder/Process.antt =====
-- The states of source/h1_decoder.c and the loop of `aws_h1_decode`.
use aws_c_http.Prelude.{
  ℕ, zero, suc, ◌-◌, Bool, true, false, not, ◌||◌, Option, none, some, List, [], ◌∷◌, ◌++◌, ltb,
  ◌==◌, if◌then◌else◌, length, take, drop,
}
use aws_c_http.Prelude.Words.{add_u64, sub_u64}
use aws_c_http.Http1.Decoder.Types.{
  RunState, getline, unchunked_body, chunk, Vtable, Common, Decoder, Error, Outcome, next, fail,
  and_then, call, set_line_state, mark_done, reset_state, chunk_terminator_line,
}
use aws_c_http.Http1.Decoder.Split.{scan_for_crlf, last_or_zero}
use aws_c_http.Http1.Decoder.Lines
use mathlib.Core.Option

-- How many of the bytes of a body or a chunk are taken.
unfoldable pub to_take : ℕ → ℕ → List ℕ → ℕ
to_take processed total input =
    let left = sub_u64 total processed in if ltb left (length input) then left else length input

-- What `aws_h1_decode` returns, with the bytes that are left.
pub data Decoded (U : Type 0) : Type 0 where
  success : Decoder U → List ℕ → Decoded U
  failure : Error → Decoder U → List ℕ → Decoded U

module _ {U : Type 0} where
  -- What follows the loop: an error puts the data back.
  unfoldable pub finish_decode : List ℕ → Outcome U × List ℕ → Decoded U
  finish_decode backup (fail e d, rest) = failure e d backup
  finish_decode backup (next d, rest) =
      if d.is_done then success (reset_state d) rest else success d rest

module _ {U : Type 0} (c : Common) (v : Vtable U) where
  unfoldable pub state_unchunked_body : Decoder U → List ℕ → Outcome U × List ℕ
  unfolding to_take
  state_unchunked_body d input =
      let n = to_take d.content_processed d.content_length input in
      let processed = add_u64 d.content_processed n in
      let finished = processed == d.content_length in
      (
        and_then
            (call (v.on_body (take n input) finished) (record d { content_processed = processed }))
            (λ d'. if finished then mark_done v d' else next d'),
        drop n input,
      )

  unfoldable pub state_chunk : Decoder U → List ℕ → Outcome U × List ℕ
  unfolding to_take
  state_chunk d input =
      let n = to_take d.chunk_processed d.chunk_size input in
      let processed = add_u64 d.chunk_processed n in
      let finished = processed == d.chunk_size in
      (
        and_then (call (v.on_body (take n input) false) (record d { chunk_processed = processed }))
            (λ d'. next (if finished then set_line_state d' chunk_terminator_line else d')),
        drop n input,
      )

  -- The end of `s_state_getline`: the line without its "\r\n".
  unfoldable pub finish_line : Bool → List ℕ → Decoder U → Outcome U
  finish_line found_crlf line d =
      if found_crlf
      then Lines.process_line c v d.process_line (take (length line - 2) line) d
      else next d

  unfoldable pub state_getline : Decoder U → List ℕ → Outcome U × List ℕ
  unfolding finish_line
  state_getline d input =
      let (line_length, found_crlf) = scan_for_crlf (last_or_zero d.scratch_space) input 0 in
      let use_scratch = not found_crlf || not (length d.scratch_space == 0) in
      let joined = d.scratch_space ++ take line_length input in
      let line = if use_scratch then joined else take line_length input in
      (
        finish_line found_crlf line
            (if use_scratch then record d { scratch_space = joined } else d),
        drop line_length input,
      )

  -- `decoder->run_state(decoder, data)`
  unfoldable pub run_state : RunState → Decoder U → List ℕ → Outcome U × List ℕ
  run_state getline d input = state_getline d input
  run_state unchunked_body d input = state_unchunked_body d input
  run_state chunk d input = state_chunk d input

  -- The `while` loop of `aws_h1_decode` with its fuel; `none` means that the fuel ran out.
  unfoldable pub run_states : ℕ → Decoder U → List ℕ → Option (Outcome U × List ℕ)
  run_states fuel d [] = some (next d, [])
  run_states zero d (b ∷ bs) = if d.is_done then some (next d, b ∷ bs) else none
  run_states (suc fuel) d (b ∷ bs) = elim d.is_done [
    | true ↦ some (next d, b ∷ bs)
    | false ↦
        let (result, rest) = run_state d.run_state d (b ∷ bs) in
        elim result [ next d' ↦ run_states fuel d' rest | fail e d' ↦ some (fail e d', rest) ]
  ]

  -- `aws_h1_decode`. Each round takes a byte, so one round for each is enough.
  unfoldable pub decode : Decoder U → List ℕ → Option (Decoded U)
  decode d data_in = Option.map (finish_decode data_in) (run_states (length data_in) d data_in)
