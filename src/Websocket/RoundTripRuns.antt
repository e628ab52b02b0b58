-- ===== src/Websocket/RoundTripRuns.antt =====
-- The small frame of the encoder's runs, read by a decoder.
use aws_c_http.Prelude.{
  Bool, ℕ, ◌≡◌, ◌⊎◌, refl, true, false, some, List, [], ◌∷◌, ◌++◌, length, arith,
}
use aws_c_http.Websocket.Frame.{is_data_frame}
use aws_c_http.Websocket.Encoder.Types.{ByteBuf, Encoder, encoder_init}
use aws_c_http.Websocket.Encoder.Steps
use aws_c_http.Websocket.Encoder.StartFrame.{frame_encoded_size}
use aws_c_http.Websocket.Decoder.Types.{Decoder, decoder_init}
use aws_c_http.Websocket.Decoder.Steps.{is_known_opcode}
use aws_c_http.Websocket.Decoder.Process.{process, success}
use aws_c_http.Websocket.Agreement.{BothAccept, BothRefuse, start_frame-state_opcode_byte}
use aws_c_http.Websocket.FrameRoundTrip.{CanRead, HasRead}
use aws_c_http.Websocket.RoundTrip.{frame_round_trip}
use aws_c_http.Websocket.DecoderRuns.{collect, fresh}
use aws_c_http.Websocket.EncoderRuns.{
  write_bytes, write_bytes-IsWrite, stream_list, list_source, list_source-IsEager, greeting, idle,
  begun, begins, large_buffer,
}

abbrev hello : List ℕ
hello = 0x48 ∷ 0x69 ∷ []

fresh-CanRead : CanRead collect idle greeting fresh hello hello
unfolding is_known_opcode decoder_init encoder_init is_data_frame
fresh-CanRead = record {
  known = refl;
  between = refl;
  cache = refl;
  agree = refl;
  accepts = record {
    between = [];
    frame_taken = refl;
    payload_taken = refl;
    text_taken = λ t s. refl;
    text_ends = λ t. refl;
  };
}

frame_round_trip_example :
    (sent : List ℕ) × (e'' : Encoder (List ℕ)) × (out' : ByteBuf) × (receiver : Decoder Bool
      (List ℕ))
    × (Steps.process write_bytes stream_list begun large_buffer ≡ some (Steps.success e'' out'))
    × (out'.contents ≡ [] ++ sent)
    × (length sent ≡ frame_encoded_size greeting)
    × (e''.is_frame_in_progress ≡ false)
    × (process collect fresh (sent ++ (0x89 ∷ [])) ≡ some (success true receiver (0x89 ∷ [])))
    × HasRead collect begun greeting hello receiver
unfolding list_source encoder_init frame_encoded_size
frame_round_trip_example =
    frame_round_trip collect write_bytes write_bytes-IsWrite stream_list list_source
      list_source-IsEager idle begun greeting fresh large_buffer (0x89 ∷ []) hello begins refl refl
      (omega arith, (omega arith, (omega arith, (omega arith, tt)))) refl
      (omega arith, (omega arith, tt)) (omega arith) fresh-CanRead

start_frame-state_opcode_byte_example :
    BothAccept idle greeting fresh [] ⊎ BothRefuse idle greeting fresh []
unfolding is_known_opcode decoder_init encoder_init
start_frame-state_opcode_byte_example =
    start_frame-state_opcode_byte idle greeting fresh [] refl (omega arith) refl refl
