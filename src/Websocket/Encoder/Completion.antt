-- ===== src/Websocket/Encoder/Completion.antt =====
-- Where the buffer has room for all that is pending, one call completes the frame.
use aws_c_http.Prelude.{
  ℕ, zero, suc, ◌+◌, ◌≤◌, ◌≡◌, refl, sym, ap, ◌∙◌, inl, inr, true, false, Bool-cases, some, List,
  [], ◌∷◌, ◌++◌, ◌==◌, arith,
}
use mathlib.Core.List.{append-nil}
use aws_c_http.Websocket.Encoder.Types.{
  ByteBuf, len, Write, IsWrite, State, rank, Encoder, PayloadFn, next, init, opcode_byte,
  length_byte, extended_length, masking_key_check, masking_key, payload_check, payload, done,
}
use aws_c_http.Websocket.Encoder.Steps.{
  state_init, state_opcode_byte, state_length_byte, state_extended_length, state_masking_key_check,
  state_masking_key, state_payload_check, state_function, run_states, finish_process, process,
  success,
}
use aws_c_http.Websocket.Encoder.Pending.{pending, Source, InProgress, IsValid}
use aws_c_http.Websocket.Encoder.Conserve.{pending_of}
use aws_c_http.Websocket.Frame.{unmask}
use aws_c_http.Websocket.Mask.{length-unmask}
use aws_c_http.Prelude.{length, length-append, drop}
use aws_c_http.Websocket.Encoder.Steps.{
  pack_opcode_byte, pack_length_byte, network_bytes, account_payload,
}
use aws_c_http.Websocket.Encoder.Pending.{IsEager, key_bytes}
use aws_c_http.Websocket.Encoder.HeaderSteps.{write_rest_fits}
use aws_c_http.Websocket.Encoder.PayloadStep.{payload_streamed}
use aws_c_http.Websocket.Encoder.Emission.{rank_bound, rises_strictly, state-Step, rank_done}

module _ {U : Type 0} (write : Write) (writes : IsWrite write) (stream : PayloadFn U)
    (source : Source stream) (eager : IsEager source) where
  -- With room for what is pending, a state function moves on.
  advances :
      (s : State) (e : Encoder U) (out : ByteBuf) {e' : Encoder U} {out' : ByteBuf}
      → e.state ≡ s
      → IsValid source.remaining e
      → InProgress s e.frame e.state_bytes_processed (source.remaining e.user_data)
      → len out + length (pending s e.frame e.state_bytes_processed (source.remaining e.user_data))
        ≤ out.capacity
      → state_function write stream s e out ≡ next e' out'
      → (rank s == rank done) ≡ false
      → (rank e'.state == rank s) ≡ false
  unfolding state_function
  advances init e out q v p room r nd = unfold state_init in ground arith
  advances opcode_byte e out q v p room r nd =
      let w = writes.write_fits out (pack_opcode_byte e.frame ∷ []) (omega arith) in
      unfold state_opcode_byte in ground arith
  advances length_byte e out q v p room r nd =
      let w = writes.write_fits out (pack_length_byte e.frame ∷ []) (omega arith) in
      unfold state_length_byte in ground arith
  advances extended_length e out q v p room r nd =
      let left : List ℕ = drop e.state_bytes_processed (network_bytes e.frame) in
      let tail : List ℕ = key_bytes e.frame ++ unmask e.frame 0 (source.remaining e.user_data) in
      let w =
        write_rest_fits write writes masking_key_check e left out
          (omega (arith, length-append left tail)) in
      unfold state_extended_length in ground arith
  advances masking_key_check e out q v p room r nd = unfold state_masking_key_check in ground arith
  advances masking_key e out q v p room r nd =
      let left : List ℕ = drop e.state_bytes_processed e.frame.masking_key in
      let tail : List ℕ = unmask e.frame 0 (source.remaining e.user_data) in
      let w =
        write_rest_fits write writes payload_check e left out
          (omega (arith, length-append left tail)) in
      unfold state_masking_key in ground arith
  advances payload_check e out q v p room r nd = unfold state_payload_check in ground arith
  advances payload e out q v p room r nd =
      let u : U = e.user_data in
      let size = length-unmask e.frame e.state_bytes_processed (source.remaining u) in
      let all : length (source.piece out u) ≡ length (source.remaining u) =
        ap length (eager out u (omega arith)) in
      let w =
        payload_streamed stream e out (source.piece out u) (source.left out u)
          (source.streams out u) (omega arith) (omega (arith, v.fits)) in
      unfold account_payload in ground arith
  advances done e out q v p room r nd = absurd (ground arith)

  nothing_pending :
      (e : Encoder U) (out : ByteBuf)
      → (rank e.state == rank done) ≡ true
      → out.contents ≡ out.contents ++ pending_of source e
  nothing_pending e out f =
      sym (append-nil out.contents)
      ∙ ap
          (λ t.
            out.contents
            ++ pending t e.frame e.state_bytes_processed (source.remaining e.user_data))
          (sym (rank_done e.state f))

  run_states_completes :
      (n : ℕ) (e : Encoder U) (out : ByteBuf)
      → IsValid source.remaining e
      → len out + length (pending_of source e) ≤ out.capacity
      → 9 ≤ n + rank e.state
      → (e' : Encoder U) × (out' : ByteBuf) × (run_states write stream n e out
          ≡ some (next e' out'))
        × ((rank e'.state == rank done) ≡ true)
        × (e'.frame ≡ e.frame)
        × (out'.contents ≡ out.contents ++ pending_of source e)
  unfolding run_states
  run_states_completes zero e out v w fuel = absurd (omega (arith, rank_bound e.state))
  run_states_completes (suc n) e out v w fuel = elim (Bool-cases (rank e.state == rank done)) [
    | inl f ↦ (e, out, rw f, f, refl, nothing_pending e out f)
    | inr f ↦
        let c =
          state-Step write writes stream source e.state e out refl v v.progress (omega arith) in
        let moves = advances e.state e out refl v v.progress w c.returns f in
        let lengths =
          sym (length-append c.out'.contents (pending_of source c.e'))
          ∙ ap length c.bytes
          ∙ length-append out.contents (pending_of source e) in
        let (e', out', r, fin, fr, b) =
          run_states_completes n c.e' c.out' c.valid (omega (arith, c.same_capacity))
            (rises_strictly write stream n e out c.e' c.out' c.returns moves fuel) in
        (e', out', rw (f, c.returns, moves) r, fin, fr ∙ c.same_frame, b ∙ c.bytes)
  ]

  -- On a well-formed encoder, where the buffer has room for all that is pending and the callback
  -- hands over all that is left of the payload, one call of `aws_websocket_encoder_process` appends
  -- exactly the bytes that were pending, and ends the frame.
  pub process_completes :
      (e : Encoder U) (out : ByteBuf)
      → IsValid source.remaining e
      → len out + length (pending_of source e) ≤ out.capacity
      → (e' : Encoder U) × (out' : ByteBuf) × (process write stream e out ≡ some (success e' out'))
        × (out'.contents ≡ out.contents ++ pending_of source e)
        × (e'.is_frame_in_progress ≡ false)
        × (e'.state ≡ init)
        × (e'.frame ≡ e.frame)
  unfolding process finish_process
  process_completes e out v w =
      let (e', out', r, fin, fr, b) = run_states_completes 9 e out v w (omega arith) in
      (
        record e' { state = init; is_frame_in_progress = false },
        out',
        rw (r, fin),
        b,
        refl,
        refl,
        fr,
      )
