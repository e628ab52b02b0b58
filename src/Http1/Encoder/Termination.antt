-- ===== src/Http1/Encoder/Termination.antt =====
-- The loop of `aws_h1_encoder_process` ends: each change of the state comes closer to the end of the
-- message.
use aws_c_http.Prelude.{
  ℕ, zero, suc, ◌+◌, ◌*◌, ◌<◌, ◌≡◌, ◌⊎◌, refl, ap, ◌∙◌, inl, inr, true, false, Bool-cases, Option,
  none, some, Option-cases, ◌==◌, length, arith,
}
use mathlib.Core.Path.{subst}
use aws_c_http.ByteBuf.{ByteBuf, Write, WriteToCapacity}
use aws_c_http.Http1.Encoder.Types.{
  Error, invalid_state, EncoderMessage, State, rank, init, head, unchunked_body, chunk_next,
  chunk_line_state, chunk_body, chunk_end, chunk_trailer, done, Encoder, Streams, Outcome, next,
  fail, abort, switch_state, clean_up_current_chunk,
}
use aws_c_http.Http1.Encoder.States.{
  encode_buf, deref, deref_chunk, with_chunk, behind_head, body_streamed, chunk_streamed,
  encode_stream, account_stream, check_status, state_init, state_head, state_unchunked_body,
  state_chunk_next, state_chunk_line, state_chunk_body, state_chunk_end, state_chunk_trailer,
  state_done,
}
use aws_c_http.Http1.Encoder.Process.{chunks_of, state_function, run_states, process}

-- How many rounds are left at most.
abbrev pub rounds : {S : Type 0} → State → Option (EncoderMessage S) → ℕ
rounds init none = 0
rounds init (some m) = 4 * length m.pending_chunk_list + 6
rounds head o = 4 * chunks_of o + 5
rounds unchunked_body o = 2
rounds chunk_next o = 4 * chunks_of o + 4
rounds chunk_line_state o = 4 * chunks_of o + 3
rounds chunk_body o = 4 * chunks_of o + 2
rounds chunk_end o = 4 * chunks_of o + 1
rounds chunk_trailer o = 2
rounds done o = 1

abbrev pub rounds_left : {S : Type 0} → Encoder S → ℕ
rounds_left e = rounds e.state e.message

module _ {S : Type 0} where
  pub Outcome-cases :
      (o : Outcome S)
      → ((e : Encoder S) × (out : ByteBuf) × (o ≡ next e out))
        ⊎ ((x : Error) × (e : Encoder S) × (out : ByteBuf) × (o ≡ fail x e out))
        ⊎ (o ≡ abort)
  Outcome-cases (next e out) = inl (e, out, refl)
  Outcome-cases (fail x e out) = inr (inl (x, e, out, refl))
  Outcome-cases abort = inr (inr refl)

  pub rounds_bound : (s : State) (o : Option (EncoderMessage S)) → rounds s o < 4 * chunks_of o + 7
  rounds_bound init none = omega arith
  rounds_bound init (some m) = omega arith
  rounds_bound head o = omega arith
  rounds_bound unchunked_body o = omega arith
  rounds_bound chunk_next o = omega arith
  rounds_bound chunk_line_state o = omega arith
  rounds_bound chunk_body o = omega arith
  rounds_bound chunk_end o = omega arith
  rounds_bound chunk_trailer o = omega arith
  rounds_bound done o = omega arith

module _ {S : Type 0} (write : Write) (write_to_capacity : WriteToCapacity)
    (streams : Streams S) where
  abbrev Falls : Encoder S → Outcome S → Type 0
  Falls e (next e' out) = (e'.state ≡ e.state) ⊎ (rounds_left e' < rounds_left e)
  Falls e (fail x e' out) = Unit {0}
  Falls e abort = Unit {0}

  init-Falls : (e : Encoder S) (out : ByteBuf) → e.state ≡ init → Falls e (state_init e out)
  unfolding state_init switch_state
  init-Falls e out s = ground arith

  head-Falls :
      (e : Encoder S) (out : ByteBuf)
      → e.state ≡ head
      → Falls e (state_head write_to_capacity e out)
  unfolding state_head switch_state deref encode_buf behind_head
  head-Falls e out s = ground arith

  chunk_next-Falls :
      (e : Encoder S) (out : ByteBuf) → e.state ≡ chunk_next → Falls e (state_chunk_next e out)
  unfolding state_chunk_next switch_state deref
  chunk_next-Falls e out s = ground arith

  chunk_line-Falls :
      (e : Encoder S) (out : ByteBuf)
      → e.state ≡ chunk_line_state
      → Falls e (state_chunk_line write_to_capacity e out)
  unfolding state_chunk_line switch_state with_chunk deref deref_chunk encode_buf
      clean_up_current_chunk
  chunk_line-Falls e out s = ground arith

  unchunked_body-Falls :
      (e : Encoder S) (out : ByteBuf)
      → e.state ≡ unchunked_body
      → Falls e (state_unchunked_body streams e out)
  unfolding state_unchunked_body switch_state deref body_streamed encode_stream account_stream
      check_status
  unchunked_body-Falls e out s = ground arith

  chunk_body-Falls :
      (e : Encoder S) (out : ByteBuf)
      → e.state ≡ chunk_body
      → Falls e (state_chunk_body streams e out)
  unfolding state_chunk_body switch_state with_chunk deref deref_chunk chunk_streamed encode_stream
      account_stream check_status clean_up_current_chunk
  chunk_body-Falls e out s = ground arith

  chunk_end-Falls :
      (e : Encoder S) (out : ByteBuf) → e.state ≡ chunk_end → Falls e (state_chunk_end write e out)
  unfolding state_chunk_end switch_state with_chunk deref deref_chunk clean_up_current_chunk
  chunk_end-Falls e out s = ground arith

  chunk_trailer-Falls :
      (e : Encoder S) (out : ByteBuf)
      → e.state ≡ chunk_trailer
      → Falls e (state_chunk_trailer write write_to_capacity e out)
  unfolding state_chunk_trailer switch_state deref encode_buf
  chunk_trailer-Falls e out s = ground arith

  done-Falls : (e : Encoder S) (out : ByteBuf) → e.state ≡ done → Falls e (state_done e out)
  unfolding state_done switch_state
  done-Falls e out s = ground arith

  pub state-Falls :
      (s : State) (e : Encoder S) (out : ByteBuf)
      → e.state ≡ s
      → Falls e (state_function write write_to_capacity streams s e out)
  unfolding state_function
  state-Falls init = init-Falls
  state-Falls head = head-Falls
  state-Falls unchunked_body = unchunked_body-Falls
  state-Falls chunk_next = chunk_next-Falls
  state-Falls chunk_line_state = chunk_line-Falls
  state-Falls chunk_body = chunk_body-Falls
  state-Falls chunk_end = chunk_end-Falls
  state-Falls chunk_trailer = chunk_trailer-Falls
  state-Falls done = done-Falls

  -- A round that changes the state leaves fewer rounds.
  pub rounds_fall :
      (e : Encoder S) (out : ByteBuf) (e' : Encoder S) (out' : ByteBuf)
      → state_function write write_to_capacity streams e.state e out ≡ next e' out'
      → (rank e.state == rank e'.state) ≡ false
      → rounds_left e' < rounds_left e
  rounds_fall e out e' out' q other = elim (subst (Falls e) q (state-Falls e.state e out refl)) [
    | inl s ↦ absurd (ground (arith, ap rank s, other))
    | inr less ↦ less
  ]

  pub round_ends :
      (n : ℕ) (e : Encoder S) (out : ByteBuf) (e' : Encoder S) (out' : ByteBuf)
      → state_function write write_to_capacity streams e.state e out ≡ next e' out'
      → (rank e.state == rank e'.state) ≡ true
      → run_states write write_to_capacity streams (suc n) e out ≡ some (next e' out')
  unfolding run_states
  round_ends n e out e' out' q stay = ground (arith, q, stay)

  pub round_goes_on :
      (n : ℕ) (e : Encoder S) (out : ByteBuf) (e' : Encoder S) (out' : ByteBuf)
      → state_function write write_to_capacity streams e.state e out ≡ next e' out'
      → (rank e.state == rank e'.state) ≡ false
      → run_states write write_to_capacity streams (suc n) e out
        ≡ run_states write write_to_capacity streams n e' out'
  unfolding run_states
  round_goes_on n e out e' out' q moves = ground (arith, q, moves)

  round_fails :
      (n : ℕ) (e : Encoder S) (out : ByteBuf) (x : Error) (e' : Encoder S) (out' : ByteBuf)
      → state_function write write_to_capacity streams e.state e out ≡ fail x e' out'
      → run_states write write_to_capacity streams (suc n) e out ≡ some (fail x e' out')
  unfolding run_states
  round_fails n e out x e' out' q = ground (arith, q)

  round_aborts :
      (n : ℕ) (e : Encoder S) (out : ByteBuf)
      → state_function write write_to_capacity streams e.state e out ≡ abort
      → run_states write write_to_capacity streams (suc n) e out ≡ some abort
  unfolding run_states
  round_aborts n e out q = ground (arith, q)

  pub process_runs :
      (e : Encoder S) (out : ByteBuf) (m : EncoderMessage S)
      → e.message ≡ some m
      → process write write_to_capacity streams e out
        ≡ run_states write write_to_capacity streams (4 * chunks_of e.message + 7) e out
  unfolding process
  process_runs e out m q = ground (arith, q)

  -- Enough rounds end the loop, and more end it in the same way.
  run_states_enough :
      (n m : ℕ) (e : Encoder S) (out : ByteBuf)
      → rounds_left e < n
      → rounds_left e < m
      → (o : Outcome S) × (run_states write write_to_capacity streams n e out ≡ some o)
        × (run_states write write_to_capacity streams m e out ≡ some o)
  run_states_enough zero m e out hn hm = absurd (omega arith)
  run_states_enough (suc n) zero e out hn hm = absurd (omega arith)
  run_states_enough (suc n) (suc m) e out hn hm =
      elim (Outcome-cases (state_function write write_to_capacity streams e.state e out)) [
        | inr (inl (x, e', out', q)) ↦
            (fail x e' out', round_fails n e out x e' out' q, round_fails m e out x e' out' q)
        | inr (inr q) ↦ (abort, round_aborts n e out q, round_aborts m e out q)
        | inl (e', out', q) ↦ elim (Bool-cases (rank e.state == rank e'.state)) [
          | inl stay ↦
              (next e' out', round_ends n e out e' out' q stay, round_ends m e out e' out' q stay)
          | inr moves ↦
              let less = rounds_fall e out e' out' q moves in
              let (o, a, b) =
                run_states_enough n m e' out' (omega (arith, less, hn)) (omega (arith, less, hm)) in
              (
                o,
                round_goes_on n e out e' out' q moves ∙ a,
                round_goes_on m e out e' out' q moves ∙ b,
              )
        ]
      ]

  -- `aws_h1_encoder_process` returns from any state of the encoder, with any message, buffer and
  -- streams, and with a message more rounds of its loop would not change what it returns.
  pub h1_process_total :
      (e : Encoder S) (out : ByteBuf) (extra : ℕ)
      → (r : Outcome S) × (process write write_to_capacity streams e out ≡ some r)
        × ((e.message ≡ none)
            ⊎ (run_states write write_to_capacity streams
                  (4 * chunks_of e.message + 7 + extra)
                  e
                  out
                ≡ some r))
  unfolding process
  h1_process_total e out extra = elim (Option-cases e.message) [
    | inl q ↦ (fail invalid_state e out, ground (arith, q), inl q)
    | inr (m, q) ↦
        let fuel : ℕ = 4 * chunks_of e.message + 7 in
        let enough = rounds_bound e.state e.message in
        let (o, a, b) =
          run_states_enough fuel (fuel + extra) e out enough (omega (arith, enough)) in
        (o, process_runs e out m q ∙ a, inr b)
  ]
