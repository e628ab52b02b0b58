-- ===== src/Websocket/EncoderRuns.antt =====
-- Runs of the WebSocket encoder on a small frame.
use aws_c_http.Prelude.{
  ℕ, zero, suc, ◌+◌, ◌-◌, ◌≤◌, ◌<◌, ◌≡◌, refl, sym, ap, true, false, some, List, [], ◌∷◌, ◌++◌,
  length, leb, take, drop, if◌then◌else◌, arith, length-take, take-append-drop,
}
use mathlib.Core.Option
use aws_c_http.Websocket.Frame
use aws_c_http.Websocket.Frame.{Frame, zero_frame, is_data_frame, max_8byte}
use aws_c_http.Websocket.Encoder.Types.{
  ByteBuf, len, Write, IsWrite, PayloadFn, Encoder, encoder_init, init,
}
use aws_c_http.Websocket.Encoder.Steps.{
  Processed, process, run_states, success, finish_process, pack_opcode_byte, pack_length_byte,
}
use aws_c_http.Websocket.Encoder.Pending.{Source, IsEager, IsValid, wire}
use aws_c_http.Websocket.Encoder.Conserve.{pending_of}
use aws_c_http.Websocket.Encoder.Emission.{Emits, process-Emits, encoder_process_total}
use aws_c_http.Websocket.Encoder.Completion.{process_completes}
use aws_c_http.Websocket.Encoder.StartFrame.{
  started, start_frame, start_frame-IsValid, encoded_size-length-wire, frame_encoded_size,
}
use aws_c_http.Websocket.Decoder.Types.{decoder_init, next, masking_key_check}
use aws_c_http.Websocket.Decoder.Steps.{read_opcode_byte, state_length_byte}
use aws_c_http.Websocket.HeaderBytes.{opcode_byte_fields, length_byte_fields}

-- A buffer of a fixed capacity.
abbrev pub write_bytes : Write
write_bytes b xs =
    if leb (len b + length xs) b.capacity
    then (record b { contents = b.contents ++ xs }, true)
    else (b, false)

pub write_bytes-IsWrite : IsWrite write_bytes
write_bytes-IsWrite = record {
  write_fits = λ b xs h. ground arith;
  write_full = λ b xs h. ground arith;
}

-- A callback that hands over as much of a list as there is room for.
abbrev pub stream_list : PayloadFn (List ℕ)
stream_list out u =
    let n = out.capacity - len out in
    (record out { contents = out.contents ++ take n u }, drop n u, false)

unfoldable pub list_source : Source stream_list
list_source = record {
  remaining = λ u. u;
  piece = λ out u. take (out.capacity - len out) u;
  left = λ out u. drop (out.capacity - len out) u;
  streams = λ out u. refl;
  splits = λ out u. sym (take-append-drop (out.capacity - len out) u);
  within = λ out u h. omega (arith, length-take (out.capacity - len out) u);
}

take_all : (n : ℕ) (u : List ℕ) → length u ≤ n → take n u ≡ u
take_all zero [] h = refl
take_all (suc n) [] h = refl
take_all zero (x ∷ u) h = absurd (omega arith)
take_all (suc n) (x ∷ u) h = ap (◌∷◌ x) (take_all n u (omega arith))

pub list_source-IsEager : IsEager list_source
unfolding list_source
list_source-IsEager out u h = take_all (out.capacity - len out) u (omega arith)

-- The text "Hi", masked.
abbrev pub greeting : Frame
greeting = record {
  fin = true;
  rsv0 = false;
  rsv1 = false;
  rsv2 = false;
  masked = true;
  opcode = 1;
  payload_length = 2;
  masking_key = 1 ∷ 2 ∷ 3 ∷ 4 ∷ [];
}

abbrev pub idle : Encoder (List ℕ)
unfolding encoder_init
idle = encoder_init (0x48 ∷ 0x69 ∷ [])

abbrev pub begun : Encoder (List ℕ)
unfolding idle
begun = record idle { frame = greeting; is_frame_in_progress = true }

pub begins : start_frame idle greeting ≡ started begun
unfolding start_frame begun is_data_frame
begins = refl

begun-IsValid : IsValid list_source.remaining begun
unfolding begun list_source
begun-IsValid = record { in_progress = refl; key = refl; fits = omega arith; progress = refl }

abbrev small_buffer : ByteBuf
small_buffer = record { contents = []; capacity = 5 }

abbrev pub large_buffer : ByteBuf
large_buffer = record { contents = []; capacity = 16 }

process-Emits_example :
    Emits write_bytes write_bytes-IsWrite stream_list list_source begun small_buffer
process-Emits_example =
    process-Emits write_bytes write_bytes-IsWrite stream_list list_source begun small_buffer
      begun-IsValid (omega arith)

process_completes_example :
    (e' : Encoder (List ℕ)) × (out' : ByteBuf) × (process write_bytes stream_list begun large_buffer
      ≡ some (success e' out'))
    × (out'.contents ≡ large_buffer.contents ++ pending_of list_source begun)
    × (e'.is_frame_in_progress ≡ false)
    × (e'.state ≡ init)
    × (e'.frame ≡ begun.frame)
unfolding begun pack_opcode_byte pack_length_byte Frame.mask list_source
process_completes_example =
    process_completes write_bytes write_bytes-IsWrite stream_list list_source list_source-IsEager
      begun large_buffer begun-IsValid (omega arith)

encoder_process_total_example :
    (r : Processed (List ℕ)) × (process write_bytes stream_list begun small_buffer ≡ some r)
    × ((extra : ℕ)
        → Option.map finish_process
            (run_states write_bytes stream_list (9 + extra) begun small_buffer)
          ≡ some r)
encoder_process_total_example = encoder_process_total write_bytes stream_list begun small_buffer

start_frame-IsValid_example : IsValid list_source.remaining begun
unfolding list_source idle
start_frame-IsValid_example =
    start_frame-IsValid list_source.remaining idle greeting begins refl refl refl

encoded_size-length-wire_example :
    frame_encoded_size greeting ≡ length (wire greeting (0x48 ∷ 0x69 ∷ []))
encoded_size-length-wire_example =
    encoded_size-length-wire greeting (0x48 ∷ 0x69 ∷ []) refl (omega arith) refl

opcode_byte_fields_example :
    (read_opcode_byte zero_frame (pack_opcode_byte greeting)
      ≡ record zero_frame { fin = true; rsv0 = false; rsv1 = false; rsv2 = false; opcode = 1 })
    × (pack_opcode_byte greeting < 256)
opcode_byte_fields_example = opcode_byte_fields greeting zero_frame (omega arith)

length_byte_fields_example :
    (state_length_byte (decoder_init true tt) (pack_length_byte greeting ∷ 1 ∷ [])
      ≡ next
          (record (decoder_init true tt) {
            current_frame = record zero_frame { masked = true; payload_length = 2 };
            state = masking_key_check;
          })
          (1 ∷ []))
    × (pack_length_byte greeting < 256)
unfolding decoder_init
length_byte_fields_example = length_byte_fields (decoder_init true tt) greeting (1 ∷ [])
