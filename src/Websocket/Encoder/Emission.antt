-- ===== src/Websocket/Encoder/Emission.antt =====
-- `aws_websocket_encoder_process` on a frame in progress: it writes the frame's bytes in order, as
-- far as there is room, and resumes where it stopped.
use aws_c_http.Prelude.{
  ℕ, zero, suc, ◌+◌, ◌≤◌, ◌≡◌, ◌⊎◌, refl, sym, ap, ◌∙◌, inl, inr, true, false, Bool-cases, some,
  ◌++◌, ◌==◌, arith,
}
use mathlib.Core.List.{append-nil}
use mathlib.Core.Option
use aws_c_http.Websocket.Encoder.Types.{
  ByteBuf, len, Write, IsWrite, State, rank, Error, Encoder, PayloadFn, Outcome, next, fail, abort,
  init, opcode_byte, length_byte, extended_length, masking_key_check, masking_key, payload_check,
  payload, done,
}
use aws_c_http.Websocket.Encoder.Steps.{
  state_init, state_opcode_byte, state_length_byte, state_extended_length, state_masking_key_check,
  state_masking_key, state_payload_check, state_payload, state_function, run_states, finish_process,
  process, Processed, success,
}
use aws_c_http.Websocket.Encoder.Pending.{pending, Source, IsValid}
use aws_c_http.Websocket.Encoder.Conserve.{
  pending_of, Conserves, Step, stays, returned, chained, init-Step, masking_key_check-Step,
  payload_check-Step,
}
use aws_c_http.Websocket.Encoder.HeaderSteps.{
  opcode_byte-Step, length_byte-Step, extended_length-Step, masking_key-Step,
}
use aws_c_http.Websocket.Encoder.PayloadStep.{payload-Step}

pub rank_bound : (s : State) → rank s ≤ 8
rank_bound init = omega arith
rank_bound s = omega arith

pub rank_done : (s : State) → (rank s == rank done) ≡ true → s ≡ done
rank_done s e = ground arith

module _ {U : Type 0} where
  Outcome-cases :
      (o : Outcome U)
      → ((e : Encoder U) × (out : ByteBuf) × (o ≡ next e out))
        ⊎ ((x : Error) × (e : Encoder U) × (out : ByteBuf) × (o ≡ fail x e out))
        ⊎ (o ≡ abort)
  Outcome-cases (next e out) = inl (e, out, refl)
  Outcome-cases (fail x e out) = inr (inl (x, e, out, refl))
  Outcome-cases abort = inr (inr refl)

module _ {U : Type 0} (write : Write) (stream : PayloadFn U) where
  -- A state function keeps the state or moves on to a later one.
  state_function_rises :
      (s : State) (e : Encoder U) (out : ByteBuf) {e' : Encoder U} {out' : ByteBuf}
      → e.state ≡ s
      → state_function write stream s e out ≡ next e' out'
      → rank e.state ≤ rank e'.state
  unfolding state_function state_init state_opcode_byte state_length_byte state_extended_length
      state_masking_key_check state_masking_key state_payload_check state_payload
  state_function_rises init e out q r = ground arith
  state_function_rises s e out q r = ground arith

  pub rises_strictly :
      (n : ℕ) (e : Encoder U) (out : ByteBuf) (e' : Encoder U) (out' : ByteBuf)
      → state_function write stream e.state e out ≡ next e' out'
      → (rank e'.state == rank e.state) ≡ false
      → 9 ≤ suc n + rank e.state
      → 9 ≤ n + rank e'.state
  rises_strictly n e out e' out' p other hn =
      ground (arith, state_function_rises e.state e out refl p)

  -- Nine rounds are enough, and more give the same outcome.
  run_states_enough :
      (n m : ℕ) (e : Encoder U) (out : ByteBuf)
      → 9 ≤ n + rank e.state
      → 9 ≤ m + rank e.state
      → (o : Outcome U) × (run_states write stream n e out ≡ some o)
        × (run_states write stream m e out ≡ some o)
  unfolding run_states
  run_states_enough zero m e out hn hm = absurd (omega (arith, rank_bound e.state))
  run_states_enough (suc n) zero e out hn hm = absurd (omega (arith, rank_bound e.state))
  run_states_enough (suc n) (suc m) e out hn hm = elim (Bool-cases (rank e.state == rank done)) [
    | inl f ↦ (next e out, rw f, rw f)
    | inr f ↦ elim (Outcome-cases (state_function write stream e.state e out)) [
      | inr (inl (x, e', out', p)) ↦ (fail x e' out', rw (f, p), rw (f, p))
      | inr (inr p) ↦ (abort, rw (f, p), rw (f, p))
      | inl (e', out', p) ↦ elim (Bool-cases (rank e'.state == rank e.state)) [
        | inl stay ↦ (next e' out', rw (f, p, stay), rw (f, p, stay))
        | inr moves ↦
            let (o, a, b) =
              run_states_enough n m e' out' (rises_strictly n e out e' out' p moves hn)
                (rises_strictly m e out e' out' p moves hm) in
            (o, rw (f, p, moves) a, rw (f, p, moves) b)
      ]
    ]
  ]

  -- `aws_websocket_encoder_process` returns on every encoder, buffer and callback, and more rounds of
  -- the loop would not change what it returns.
  pub encoder_process_total :
      (e : Encoder U) (out : ByteBuf)
      → (r : Processed U) × (process write stream e out ≡ some r)
        × ((extra : ℕ)
            → Option.map finish_process (run_states write stream (9 + extra) e out) ≡ some r)
  unfolding process
  encoder_process_total e out =
      let (o, a, b) = run_states_enough 9 9 e out (omega arith) (omega arith) in
      (
        finish_process o,
        rw a,
        λ extra.
            let (o', a', b') = run_states_enough 9 (9 + extra) e out (omega arith) (omega arith) in
            rw b' (ap (Option.map finish_process) (sym a' ∙ a)),
      )

module _ {U : Type 0} (write : Write) (writes : IsWrite write) (stream : PayloadFn U)
    (source : Source stream) where
  pub state-Step : (s : State) → Step source s (state_function write stream s)
  unfolding state_function
  state-Step init = init-Step source
  state-Step opcode_byte = opcode_byte-Step write writes source
  state-Step length_byte = length_byte-Step write writes source
  state-Step extended_length = extended_length-Step write writes source
  state-Step masking_key_check = masking_key_check-Step source
  state-Step masking_key = masking_key-Step write writes source
  state-Step payload_check = payload_check-Step source
  state-Step payload = payload-Step source
  state-Step done = λ e out s v p w. stays source done e out _ s v w refl

  -- The loop conserves the bytes: it stops in `done` or where the buffer or the callback makes it.
  run_states-Conserves :
      (n : ℕ) (e : Encoder U) (out : ByteBuf)
      → IsValid source.remaining e
      → len out ≤ out.capacity
      → 9 ≤ n + rank e.state
      → (o : Outcome U) × (run_states write stream n e out ≡ some o)
        × Conserves source e.state e out o
  unfolding run_states
  run_states-Conserves zero e out v w fuel = absurd (omega (arith, rank_bound e.state))
  run_states-Conserves (suc n) e out v w fuel = elim (Bool-cases (rank e.state == rank done)) [
    | inl f ↦ (next e out, rw f, stays source e.state e out _ refl v w refl)
    | inr f ↦
        let c = state-Step e.state e out refl v v.progress w in
        elim (Bool-cases (rank c.e'.state == rank e.state)) [
          | inl stay ↦
              (next c.e' c.out', rw (f, c.returns, stay), returned source e.state e out _ c)
          | inr moves ↦
              let (o, r, c') =
                run_states-Conserves n c.e' c.out' c.valid c.within
                  (rises_strictly write stream n e out c.e' c.out' c.returns moves fuel) in
              (o, rw (f, c.returns, moves) r, chained source e.state e out _ o c c')
        ]
  ]

  -- What a call does on a frame in progress.
  pub record Emits (e : Encoder U) (out : ByteBuf) : Type 0 where
    pub e' : Encoder U
    pub out' : ByteBuf
    pub returns : process write stream e out ≡ some (success e' out')
    pub same_frame : e'.frame ≡ e.frame
    pub same_capacity : out'.capacity ≡ out.capacity
    pub within : len out' ≤ out'.capacity
    pub progress :
        ((e'.is_frame_in_progress ≡ false)
          × (e'.state ≡ init)
          × (out'.contents ≡ out.contents ++ pending_of source e))
        ⊎ (IsValid source.remaining e'
            × (out'.contents ++ pending_of source e' ≡ out.contents ++ pending_of source e))

  -- On a well-formed encoder with a frame in progress, a buffer and a callback that hands over the
  -- announced payload piece by piece, `aws_websocket_encoder_process` succeeds. It keeps the frame and
  -- the capacity. Either it completes the frame and has appended all the bytes that were pending, or
  -- the encoder is well formed again and what was appended and what is pending now are the bytes that
  -- were pending.
  pub process-Emits :
      (e : Encoder U) (out : ByteBuf)
      → IsValid source.remaining e
      → len out ≤ out.capacity
      → Emits e out
  process-Emits e out v w =
      let (o, r, c) = run_states-Conserves 9 e out v w (omega arith) in
      elim (Bool-cases (rank c.e'.state == rank done)) [
        | inl finished ↦
            let d = rank_done c.e'.state finished in
            record {
              e' = record (c.e') { state = init; is_frame_in_progress = false };
              out' = c.out';
              returns = unfold process finish_process in rw (r, c.returns, finished);
              same_frame = c.same_frame;
              same_capacity = c.same_capacity;
              within = c.within;
              progress = inl (
                refl,
                refl,
                sym (append-nil c.out'.contents)
                    ∙ ap
                        (λ t.
                          c.out'.contents
                          ++ pending t c.e'.frame c.e'.state_bytes_processed
                              (source.remaining c.e'.user_data))
                        (sym d)
                    ∙ c.bytes,
              );
            }
        | inr waits ↦ record {
          e' = c.e';
          out' = c.out';
          returns = unfold process finish_process in rw (r, c.returns, waits);
          same_frame = c.same_frame;
          same_capacity = c.same_capacity;
          within = c.within;
          progress = inr (c.valid, c.bytes);
        }
      ]
