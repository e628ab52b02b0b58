-- ===== src/Http1/Encoder/Emission.antt =====
-- `aws_h1_encoder_process` on a message: it writes the bytes of the message in order, as far as there is
-- room, and resumes where it stopped.
use aws_c_http.Prelude.{
  ℕ, zero, suc, ◌+◌, ◌*◌, ◌≤◌, ◌<◌, ◌≡◌, refl, sym, ap, ◌∙◌, inl, inr, true, false, Bool-cases,
  Option, none, some, List, ◌++◌, ◌==◌, length, length-append, arith,
}
use mathlib.Core.Path.{subst}
use mathlib.Core.List.{append-nil}
use aws_c_http.ByteBuf.{ByteBuf, len, Write, IsWrite, WriteToCapacity, IsWriteToCapacity}
use aws_c_http.Http1.Encoder.Types.{
  EncoderMessage, State, rank, init, Encoder, Streams, Outcome, next, start_message,
}
use aws_c_http.Http1.Encoder.Process.{chunks_of, state_function, run_states, process}
use aws_c_http.Http1.Encoder.Termination.{
  rounds_left, rounds_fall, rounds_bound, round_ends, round_goes_on, process_runs,
}
use aws_c_http.Http1.Encoder.Wire.{
  Source, IsEager, message_wire, IsSendable, Owes, IsThrough, at_rest, at_init, at_head, at_body,
  at_chunk_next, at_chunk_line, at_chunk_body, at_chunk_end, at_chunk_trailer, at_done,
}
use aws_c_http.Http1.Encoder.Conserve.{Step, rest-Step, init-Step, done-Step, chunk_next-Step}
use aws_c_http.Http1.Encoder.Lines.{head-Step, chunk_line-Step}
use aws_c_http.Http1.Encoder.Ends.{chunk_end-Step, chunk_trailer-Step}
use aws_c_http.Http1.Encoder.Bodies.{unchunked_body-Step, chunk_body-Step}
use aws_c_http.Http1.Encoder.Through.{through-nil}

-- States of the same rank are the same.
rank_same : (s t : State) → (rank s == rank t) ≡ true → t ≡ s
rank_same s t e = ground (arith, e)

module _ {S : Type 0} {streams : Streams S} (source : Source streams) where
  -- A message that can be sent and that an idle encoder starts is owed whole.
  pub start_message-Owes :
      (e : Encoder S) (m : EncoderMessage S)
      → e.state ≡ init
      → e.message ≡ none
      → IsSendable source m
      → ((start_message e m).1 ≡ false)
        × Owes source (start_message e m).0 (message_wire source m)
        × ((start_message e m).0.message ≡ some m)
  unfolding start_message
  start_message-Owes e m s q ok =
      let e' : Encoder S = record e { message = some m } in
      let starts : start_message e m ≡ (e', false) = ground (arith, q) in
      rw starts (refl, at_init m s refl ok refl, refl)

module _ {S : Type 0} (write : Write) (whole : IsWrite write) (write_to_capacity : WriteToCapacity)
    (writes : IsWriteToCapacity write_to_capacity) (streams : Streams S)
    (source : Source streams) where
  at_state :
      (e : Encoder S) (out : ByteBuf) (bytes : List ℕ) {s : State}
      → e.state ≡ s
      → Step source e out bytes (state_function write write_to_capacity streams s e out)
      → Step source e out bytes (state_function write write_to_capacity streams e.state e out)
  at_state e out bytes q step =
      subst (λ z. Step source e out bytes (state_function write write_to_capacity streams z e out))
        (sym q) step

  -- An encoder that owes bytes runs the step of its state.
  state-Step :
      (e : Encoder S) (out : ByteBuf) (bytes : List ℕ)
      → len out ≤ out.capacity
      → Owes source e bytes
      → Step source e out bytes (state_function write write_to_capacity streams e.state e out)
  unfolding state_function
  state-Step e out bytes w (at_rest s q b) =
      at_state e out bytes s (rest-Step source e out bytes w s q b)
  state-Step e out bytes w (at_init m s q ok b) =
      at_state e out bytes s (init-Step source e out bytes m w s q ok b)
  state-Step e out bytes w (at_head m s q ok p b) =
      at_state e out bytes s (head-Step source write_to_capacity writes e out bytes m w s q ok p b)
  state-Step e out bytes w (at_body m st s q l small counted more b) =
      at_state e out bytes s
        (unchunked_body-Step source e out bytes m st w s q l small counted more b)
  state-Step e out bytes w (at_chunk_next m s q ok b) =
      at_state e out bytes s (chunk_next-Step source e out bytes m w s q ok b)
  state-Step e out bytes w (at_chunk_line m c cs s q l current ok p b) =
      at_state e out bytes s
        (chunk_line-Step source write_to_capacity writes e out bytes m c cs w s q l current ok p b)
  state-Step e out bytes w (at_chunk_body m c cs st s q l current holds small counted more ok b) =
      at_state e out bytes s
        (chunk_body-Step source e out bytes m c cs st w s q l current holds small counted more ok b)
  state-Step e out bytes w (at_chunk_end m c cs s q l current ok b) =
      at_state e out bytes s
        (chunk_end-Step source write whole e out bytes m c cs w s q l current ok b)
  state-Step e out bytes w (at_chunk_trailer m s q small p zeroed b) = at_state e out bytes s (
      chunk_trailer-Step source write whole write_to_capacity writes e out bytes m m.trailer w s q
        refl small p zeroed b)
  state-Step e out bytes w (at_done m s q b) =
      at_state e out bytes s (done-Step source e out bytes w s b)

  -- What the loop leaves.
  record Sends (e : Encoder S) (out : ByteBuf) (bytes : List ℕ) (r : Option (Outcome S))
      : Type 0 where
    e' : Encoder S
    out' : ByteBuf
    left : List ℕ
    returns : r ≡ some (next e' out')
    owes : Owes source e' left
    same_capacity : out'.capacity ≡ out.capacity
    within : len out' ≤ out'.capacity
    conserved : out'.contents ++ left ≡ out.contents ++ bytes
    through : IsEager source → len out + length bytes ≤ out.capacity → IsThrough source e'

  run_states-Sends :
      (n : ℕ) (e : Encoder S) (out : ByteBuf) (bytes : List ℕ)
      → len out ≤ out.capacity
      → Owes source e bytes
      → rounds_left e < n
      → Sends e out bytes (run_states write write_to_capacity streams n e out)
  run_states-Sends zero e out bytes w owes fuel = absurd (omega arith)
  run_states-Sends (suc n) e out bytes w owes fuel =
      let step = state-Step e out bytes w owes in
      let z = step.writes in
      elim (Bool-cases (rank e.state == rank step.e'.state)) [
        | inl stay ↦ record {
          e' = step.e';
          out' = step.out';
          left = z.left;
          returns =
              round_ends write write_to_capacity streams n e out step.e' step.out' step.returns
                stay;
          owes = z.owes;
          same_capacity = z.same_capacity;
          within = z.within;
          conserved = z.conserved;
          through = λ eager room. elim (z.moves eager room) [
            | inl other ↦ absurd (other (rank_same e.state step.e'.state stay))
            | inr end ↦ end
          ];
        }
        | inr moves ↦
            let rest = run_states-Sends n step.e' step.out' z.left z.within z.owes (
              omega (
                arith,
                rounds_fall write write_to_capacity streams e out step.e' step.out' step.returns
                    moves,
                fuel,
              )) in
            record {
              e' = rest.e';
              out' = rest.out';
              left = rest.left;
              returns =
                  round_goes_on write write_to_capacity streams n e out step.e' step.out'
                    step.returns moves
                  ∙ rest.returns;
              owes = rest.owes;
              same_capacity = rest.same_capacity ∙ z.same_capacity;
              within = rest.within;
              conserved = rest.conserved ∙ z.conserved;
              through = λ eager room. rest.through eager (
                  omega (
                    arith,
                    ap length z.conserved,
                    length-append step.out'.contents z.left,
                    length-append out.contents bytes,
                    z.same_capacity,
                    room,
                  ));
            }
      ]

  message-Sends :
      (e : Encoder S) (out : ByteBuf) (bytes : List ℕ) (m : EncoderMessage S)
      → e.message ≡ some m
      → Owes source e bytes
      → len out ≤ out.capacity
      → Sends e out bytes (process write write_to_capacity streams e out)
  message-Sends e out bytes m q owes w =
      subst (Sends e out bytes) (sym (process_runs write write_to_capacity streams e out m q)) (
        run_states-Sends (4 * chunks_of e.message + 7) e out bytes w owes
          (rounds_bound e.state e.message))

  -- `aws_h1_encoder_process` on an encoder that owes bytes of a message, with a buffer that has room
  -- for the bytes it holds, and streams that hold what is announced and do not fail: it succeeds, keeps
  -- to the capacity, and what it appends, followed by what it owes then, is what it owed before.
  pub h1_process-Owes :
      (e : Encoder S) (out : ByteBuf) (bytes : List ℕ) (m : EncoderMessage S)
      → e.message ≡ some m
      → Owes source e bytes
      → len out ≤ out.capacity
      → (e' : Encoder S) × (out' : ByteBuf) × (left : List ℕ) × (process write write_to_capacity
            streams e out
          ≡ some (next e' out'))
        × Owes source e' left
        × (out'.contents ++ left ≡ out.contents ++ bytes)
        × (out'.capacity ≡ out.capacity)
        × (len out' ≤ out'.capacity)
  h1_process-Owes e out bytes m q owes w =
      let z = message-Sends e out bytes m q owes w in
      (z.e', z.out', z.left, z.returns, z.owes, z.conserved, z.same_capacity, z.within)

  -- If moreover the streams hand over all that they hold where there is room, and there is room for all
  -- that is owed, then exactly that is appended, and the message is complete or the next chunk is not
  -- there yet.
  pub h1_process-IsThrough :
      (e : Encoder S) (out : ByteBuf) (bytes : List ℕ) (m : EncoderMessage S)
      → e.message ≡ some m
      → Owes source e bytes
      → IsEager source
      → len out + length bytes ≤ out.capacity
      → (e' : Encoder S) × (out' : ByteBuf) × (process write write_to_capacity streams e out
          ≡ some (next e' out'))
        × (out'.contents ≡ out.contents ++ bytes)
        × IsThrough source e'
  h1_process-IsThrough e out bytes m q owes eager room =
      let z = message-Sends e out bytes m q owes (omega (arith, room)) in
      let end = z.through eager room in
      (
        z.e',
        z.out',
        z.returns,
        sym (append-nil z.out'.contents)
            ∙ ap (◌++◌ z.out'.contents) (sym (through-nil source z.e' z.left end z.owes))
            ∙ z.conserved,
        end,
      )
