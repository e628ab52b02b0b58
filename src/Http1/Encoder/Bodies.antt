-- ===== src/Http1/Encoder/Bodies.antt =====
-- The states of the encoder that read a body from a stream.
use aws_c_http.Prelude.{
  ℕ, ◌+◌, ◌^◌, ◌≤◌, ◌<◌, ◌≡◌, ◌≢◌, refl, sym, ap, ◌∙◌, inl, inr, true, some, List, [], ◌∷◌, ◌++◌,
  length, length-append, arith,
}
use mathlib.Core.List.{append_assoc, append-nil}
use aws_c_http.ByteBuf.{ByteBuf, len}
use aws_c_http.Http1.Encoder.Types.{
  Chunk, EncoderMessage, unchunked_body, chunk_body, chunk_end, done, Encoder, Streams,
  switch_state, clean_up_current_chunk,
}
use aws_c_http.Http1.Encoder.States.{
  crlf, Streamed, body_streamed, chunk_streamed, state_unchunked_body, state_chunk_body, deref,
  deref_chunk, with_chunk,
}
use aws_c_http.Http1.Encoder.Wire.{
  Source, IsEager, trailer_bytes, chunks_wire, AreSendable, Owes, Writes, at_body, at_chunk_body,
  at_chunk_end, at_done,
}
use aws_c_http.Http1.Encoder.Pieces.{Drained, encode_stream-Drained}
use aws_c_http.Http1.Encoder.Conserve.{Step}

module _ {S : Type 0} {streams : Streams S} (source : Source streams) where
  -- What is written of a stream whose end is not reached.
  stream_stops :
      (e : Encoder S) (out : ByteBuf) (s : S) (total : ℕ) (tail bytes : List ℕ) {r : Streamed S}
      (d : Drained source e out s total r) (e' : Encoder S)
      → bytes ≡ source.remaining s ++ tail
      → (IsEager source → out.capacity < len out + length (source.remaining s))
      → Owes source e' (source.remaining d.s' ++ tail)
      → Writes source e out bytes e' (record out { contents = out.contents ++ d.written })
  stream_stops e out s total tail bytes d e' b full owes = record {
    left = source.remaining d.s' ++ tail;
    owes = owes;
    same_capacity = refl;
    within = omega (arith, length-append out.contents d.written, d.room);
    conserved =
        append_assoc out.contents d.written (source.remaining d.s' ++ tail)
        ∙ ap (◌++◌ out.contents) (
            sym (append_assoc d.written (source.remaining d.s') tail)
            ∙ ap (λ z. z ++ tail) d.conserved
            ∙ sym b);
    moves = λ eager room.
        absurd
          (omega (arith, ap length b, length-append (source.remaining s) tail, room, full eager));
  }

  -- The stream is read to its end.
  stream_ends :
      (e : Encoder S) (out : ByteBuf) (s : S) (total : ℕ) (tail bytes : List ℕ) {r : Streamed S}
      (d : Drained source e out s total r) (e' : Encoder S)
      → bytes ≡ source.remaining s ++ tail
      → source.remaining d.s' ≡ []
      → Owes source e' tail
      → e'.state ≢ e.state
      → Writes source e out bytes e' (record out { contents = out.contents ++ d.written })
  stream_ends e out s total tail bytes d e' b end owes other = record {
    left = tail;
    owes = owes;
    same_capacity = refl;
    within = omega (arith, length-append out.contents d.written, d.room);
    conserved =
        append_assoc out.contents d.written tail
        ∙ ap (λ z. out.contents ++ (z ++ tail))
            (sym (append-nil d.written) ∙ ap (◌++◌ d.written) (sym end) ∙ d.conserved)
        ∙ ap (◌++◌ out.contents) (sym b);
    moves = λ eager room. inl other;
  }

  pub unchunked_body-Step :
      (e : Encoder S) (out : ByteBuf) (bytes : List ℕ) (m : EncoderMessage S) (s : S)
      → len out ≤ out.capacity
      → e.state ≡ unchunked_body
      → e.message ≡ some m
      → m.body ≡ some s
      → m.content_length < 2 ^ 64
      → m.content_length ≡ e.progress_bytes + length (source.remaining s)
      → e.progress_bytes < m.content_length
      → bytes ≡ source.remaining s
      → Step source e out bytes (state_unchunked_body streams e out)
  unfolding state_unchunked_body deref body_streamed switch_state
  unchunked_body-Step e out bytes m s w p q l small counted more b =
      let d = encode_stream-Drained source e out s m.content_length w (small, counted, more) in
      let m' : EncoderMessage S = record m { body = some d.s' } in
      let out' : ByteBuf = record out { contents = out.contents ++ d.written } in
      let b' : bytes ≡ source.remaining s ++ [] = b ∙ sym (append-nil (source.remaining s)) in
      elim d.stops [
        | inl (end, empty) ↦ record {
          e' = record e { state = done; progress_bytes = 0; message = some m' };
          out' = out';
          returns = ground (arith, q, l, d.returns, end);
          writes =
              stream_ends e out s m.content_length [] bytes d _ b' empty (at_done m' refl refl refl)
                (λ z. absurd (ground (arith, z, p)));
        }
        | inr (stops, under, full) ↦ record {
          e' = record e { progress_bytes = d.progress; message = some m' };
          out' = out';
          returns = ground (arith, q, l, d.returns, stops);
          writes = stream_stops e out s m.content_length [] bytes d _ b' full (
              at_body m' d.s' p refl refl small d.counted under
                (append-nil (source.remaining d.s')));
        }
      ]

  pub chunk_body-Step :
      (e : Encoder S) (out : ByteBuf) (bytes : List ℕ) (m : EncoderMessage S) (c : Chunk S)
      (cs : List (Chunk S)) (s : S)
      → len out ≤ out.capacity
      → e.state ≡ chunk_body
      → e.message ≡ some m
      → m.pending_chunk_list ≡ c ∷ cs
      → e.current_chunk ≡ true
      → c.chunk_data ≡ some s
      → c.data_size < 2 ^ 64
      → c.data_size ≡ e.progress_bytes + length (source.remaining s)
      → e.progress_bytes < c.data_size
      → AreSendable source cs m.trailer
      → bytes ≡ source.remaining s ++ (crlf ++ chunks_wire source (trailer_bytes m.trailer) cs)
      → Step source e out bytes (state_chunk_body streams e out)
  unfolding state_chunk_body with_chunk deref deref_chunk chunk_streamed switch_state
      clean_up_current_chunk
  chunk_body-Step e out bytes m c cs s w p q l current holds small counted more ok b =
      let d = encode_stream-Drained source e out s c.data_size w (small, counted, more) in
      let c' : Chunk S = record c { chunk_data = some d.s' } in
      let m' : EncoderMessage S = record m { pending_chunk_list = c' ∷ cs } in
      let out' : ByteBuf = record out { contents = out.contents ++ d.written } in
      let tail : List ℕ = crlf ++ chunks_wire source (trailer_bytes m.trailer) cs in
      elim d.stops [
        | inl (end, empty) ↦ record {
          e' = record e { state = chunk_end; progress_bytes = 0; message = some m' };
          out' = out';
          returns = ground (arith, q, l, current, holds, d.returns, end);
          writes =
              stream_ends e out s c.data_size tail bytes d _ b empty
                (at_chunk_end m' c' cs refl refl refl current ok refl)
                (λ z. absurd (ground (arith, z, p)));
        }
        | inr (stops, under, full) ↦ record {
          e' = record e { progress_bytes = d.progress; message = some m' };
          out' = out';
          returns = ground (arith, q, l, current, holds, d.returns, stops);
          writes =
              stream_stops e out s c.data_size tail bytes d _ b full (
                at_chunk_body m' c' cs d.s' p refl refl current refl small d.counted under ok refl);
        }
      ]
