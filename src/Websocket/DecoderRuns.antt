-- ===== src/Websocket/DecoderRuns.antt =====
-- Runs of the WebSocket decoder on a small frame.
use aws_c_http.Prelude.{
  ℕ, ◌+◌, ◌≡◌, ◌⊎◌, refl, sym, ap, Bool, true, false, some, List, [], ◌∷◌, ◌++◌, All, arith,
}
use mathlib.Core.Option
use mathlib.Core.List.{append_assoc}
use aws_c_http.Prelude.Words.{IsByte}
use aws_c_http.Websocket.Frame
use aws_c_http.Websocket.Frame.{Frame, zero_frame, is_data_frame}
use aws_c_http.Websocket.Decoder.Types.{Handlers, Decoder, decoder_init, init, payload}
use aws_c_http.Websocket.Decoder.Process.{
  Processed, process, run_states, success, finish_process, state_function, state_payload,
  state_payload_check, state_frame_end,
}
use aws_c_http.Websocket.Decoder.Steps.{
  state_init, state_opcode_byte, state_length_byte, state_masking_key_check, state_masking_key,
}
use aws_c_http.Websocket.Decoder.Invariant.{IsValid, decoder_init-IsValid, process-IsValid}
use aws_c_http.Websocket.Decoder.Stalls.{IsStreaming}
use aws_c_http.Websocket.Decoder.Chunks.{process_resumed, process_complete, seen}
use aws_c_http.Websocket.Decoder.Termination.{decoder_process_total}

-- A validator that accepts everything, and callbacks that gather the payload.
abbrev pub collect : Handlers Bool (List ℕ)
collect = record {
  utf8_update = λ v xs. (v, false);
  utf8_finalize = λ v. (v, false);
  on_frame = λ f u. (u, false);
  on_payload = λ xs u. (u ++ xs, false);
}

collect-IsStreaming : IsStreaming collect
collect-IsStreaming = record {
  update_append = λ v xs ys e. refl;
  payload_append = λ u xs ys e. ap (λ l. (l, false)) (sym (append_assoc u xs ys));
}

abbrev pub fresh : Decoder Bool (List ℕ)
unfolding decoder_init
fresh = decoder_init true []

-- A masked binary frame of three bytes, in two pieces.
abbrev first_piece : List ℕ
first_piece = 0x82 ∷ 0x83 ∷ 1 ∷ 2 ∷ 3 ∷ 4 ∷ 0x41 ∷ []

abbrev second_piece : List ℕ
second_piece = 0x42 ∷ 0x43 ∷ []

abbrev halfway : Decoder Bool (List ℕ)
halfway = record fresh {
  state = payload;
  state_bytes_processed = 1;
  current_frame = record {
    fin = true;
    rsv0 = false;
    rsv1 = false;
    rsv2 = false;
    masked = true;
    opcode = 2;
    payload_length = 3;
    masking_key = 1 ∷ 2 ∷ 3 ∷ 4 ∷ [];
  };
  user_data = 0x40 ∷ [];
}

first_run : process collect fresh first_piece ≡ some (success false halfway [])
unfolding process run_states fresh state_function state_init state_opcode_byte state_length_byte
    state_masking_key_check state_masking_key state_payload_check state_payload Frame.mask
    finish_process
first_run = refl

abbrev finished : Decoder Bool (List ℕ)
finished = record halfway {
  state = init;
  state_bytes_processed = 3;
  user_data = 0x40 ∷ 0x40 ∷ 0x40 ∷ [];
}

whole_run : process collect fresh (first_piece ++ second_piece) ≡ some (success true finished [])
unfolding process run_states fresh state_function state_init state_opcode_byte state_length_byte
    state_frame_end state_masking_key_check state_masking_key state_payload_check state_payload
    Frame.mask finish_process
whole_run = refl

fresh-IsValid : IsValid fresh
unfolding fresh
fresh-IsValid = decoder_init-IsValid true []

first_piece-bytes : All IsByte first_piece
first_piece-bytes = (
  omega arith,
  (omega arith, (omega arith, (omega arith, (omega arith, (omega arith, (omega arith, tt)))))),
)

whole-bytes : All IsByte (first_piece ++ second_piece)
whole-bytes = (
  omega arith,
  (
    omega arith,
    (
      omega arith,
      (omega arith, (omega arith, (omega arith, (omega arith, (omega arith, (omega arith, tt)))))),
    ),
  ),
)

halfway-IsValid : IsValid halfway
unfolding fresh decoder_init
halfway-IsValid = record { cache = refl; key = refl; fits = omega arith; progress = omega arith }

abbrev empty : List ℕ
empty = []

process_resumed_example :
    (empty ≡ [])
    × (Option.map seen (process collect fresh (first_piece ++ second_piece))
        ≡ Option.map seen (process collect halfway second_piece))
process_resumed_example =
    process_resumed collect collect-IsStreaming fresh first_piece second_piece fresh-IsValid
      first_piece-bytes first_run

process_complete_example :
    process collect fresh ((first_piece ++ second_piece) ++ (0x89 ∷ []))
    ≡ some (success true finished (0x89 ∷ []))
process_complete_example =
    process_complete collect fresh (first_piece ++ second_piece) (0x89 ∷ []) fresh-IsValid
      whole-bytes whole_run

process-IsValid_example :
    IsValid halfway × All IsByte [] × ((false ≡ false) ⊎ (halfway.state ≡ init))
process-IsValid_example =
    process-IsValid collect fresh first_piece fresh-IsValid first_piece-bytes first_run

decoder_process_total_example :
    (r : Processed Bool (List ℕ)) × (process collect fresh first_piece ≡ some r)
    × ((extra : ℕ)
        → Option.map finish_process (run_states collect (10 + extra) fresh first_piece) ≡ some r)
decoder_process_total_example = decoder_process_total collect fresh first_piece
