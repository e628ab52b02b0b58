-- ===== src/Http1/Encoder/Conserve.antt =====
-- Each state function of the encoder moves bytes from what it owes to the buffer: the states that copy a
-- buffer.
use aws_c_http.Prelude.{
  ℕ, ◌≤◌, ◌≡◌, ◌≢◌, ◌⊎◌, refl, ap, ◌∙◌, inl, inr, true, none, some, List, [], ◌∷◌, arith,
}
use mathlib.Core.Path.{subst}
use aws_c_http.Prelude.Words.{add_u64}
use aws_c_http.ByteBuf.{ByteBuf, len}
use aws_c_http.Http1.Encoder.Types.{
  Chunk, EncoderMessage, init, head, chunk_next, chunk_line_state, done, Encoder, Streams, Outcome,
  next, switch_state,
}
use aws_c_http.Http1.Encoder.States.{deref, state_init, state_chunk_next, state_done}
use aws_c_http.Http1.Encoder.Wire.{
  Source, trailer_bytes, chunks_wire, chunked_wire, message_wire, AreSendable, IsSendable, Owes,
  IsThrough, Writes, at_rest, at_head, at_chunk_next, at_chunk_line, complete, waiting,
}

module _ {S : Type 0} {streams : Streams S} (source : Source streams) where
  -- What a state function returns, and what it has written.
  pub record Step (e : Encoder S) (out : ByteBuf) (bytes : List ℕ) (o : Outcome S) : Type 0 where
    pub e' : Encoder S
    pub out' : ByteBuf
    pub returns : o ≡ next e' out'
    pub writes : Writes source e out bytes e' out'

  -- A step that writes nothing.
  pub silent :
      (e : Encoder S) (out : ByteBuf) (bytes : List ℕ) (e' : Encoder S)
      → len out ≤ out.capacity
      → Owes source e' bytes
      → (e'.state ≢ e.state) ⊎ IsThrough source e'
      → Writes source e out bytes e' out
  silent e out bytes e' w owes moves = record {
    left = bytes;
    owes = owes;
    same_capacity = refl;
    within = w;
    conserved = refl;
    moves = λ eager room. moves;
  }

  pub rest-Step :
      (e : Encoder S) (out : ByteBuf) (bytes : List ℕ)
      → len out ≤ out.capacity
      → e.state ≡ init
      → e.message ≡ none
      → bytes ≡ []
      → Step e out bytes (state_init e out)
  unfolding state_init switch_state
  rest-Step e out bytes w s q b = record {
    e' = e;
    out' = out;
    returns = ground (arith, q);
    writes = silent e out bytes e w (at_rest s q b) (inr (complete q));
  }

  pub init-Step :
      (e : Encoder S) (out : ByteBuf) (bytes : List ℕ) (m : EncoderMessage S)
      → len out ≤ out.capacity
      → e.state ≡ init
      → e.message ≡ some m
      → IsSendable source m
      → bytes ≡ message_wire source m
      → Step e out bytes (state_init e out)
  unfolding state_init switch_state
  init-Step e out bytes m w s q ok b = record {
    e' = record e { state = head; progress_bytes = 0 };
    out' = out;
    returns = ground (arith, q);
    writes =
        silent e out bytes (record e { state = head; progress_bytes = 0 }) w
          (at_head m refl q ok (omega arith) b) (inl (λ z. absurd (ground (arith, z, s))));
  }

  pub done-Step :
      (e : Encoder S) (out : ByteBuf) (bytes : List ℕ)
      → len out ≤ out.capacity
      → e.state ≡ done
      → bytes ≡ []
      → Step e out bytes (state_done e out)
  unfolding state_done switch_state
  done-Step e out bytes w s b = record {
    e' = record e { state = init; progress_bytes = 0; message = none };
    out' = out;
    returns = refl;
    writes =
        silent e out bytes (record e { state = init; progress_bytes = 0; message = none }) w
          (at_rest refl refl b) (inr (complete refl));
  }

  pub chunk_next-Step :
      (e : Encoder S) (out : ByteBuf) (bytes : List ℕ) (m : EncoderMessage S)
      → len out ≤ out.capacity
      → e.state ≡ chunk_next
      → e.message ≡ some m
      → AreSendable source m.pending_chunk_list m.trailer
      → bytes ≡ chunked_wire source m
      → Step e out bytes (state_chunk_next e out)
  unfolding state_chunk_next switch_state deref
  chunk_next-Step e out bytes m w s q ok b = go m.pending_chunk_list refl
    where
      go :
          (cs : List (Chunk S))
          → m.pending_chunk_list ≡ cs
          → Step e out bytes (state_chunk_next e out)
      go [] l = record {
        e' = e;
        out' = out;
        returns = ground (arith, q, l);
        writes = silent e out bytes e w (at_chunk_next m s q ok b) (inr (waiting m s q l));
      }
      go (c ∷ cs) l = record {
        e' = record e {
          state = chunk_line_state;
          progress_bytes = 0;
          current_chunk = true;
          chunk_count = add_u64 e.chunk_count 1;
        };
        out' = out;
        returns = ground (arith, q, l);
        writes =
            silent e out bytes _ w
              (at_chunk_line m c cs refl q l refl (subst (λ z. AreSendable source z m.trailer) l ok)
                (omega arith) (b ∙ ap (chunks_wire source (trailer_bytes m.trailer)) l))
              (inl (λ z. absurd (ground (arith, z, s))));
      }
