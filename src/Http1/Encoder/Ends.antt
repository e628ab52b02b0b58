-- ===== src/Http1/Encoder/Ends.antt =====
-- The states of the encoder that write the end of a chunk and the end of the last one.
use aws_c_http.Prelude.{
  ℕ, ◌+◌, ◌^◌, ◌≤◌, ◌<◌, ◌≡◌, refl, sym, ap, ◌∙◌, inl, inr, true, le_or_lt, Option, none, some,
  List, [], ◌∷◌, ◌++◌, length, length-append, drop, arith,
}
use mathlib.Core.List.{append_assoc, append-nil}
use aws_c_http.ByteBuf.{ByteBuf, len, Write, IsWrite, WriteToCapacity, IsWriteToCapacity}
use aws_c_http.Http1.Encoder.Types.{
  Chunk, EncoderMessage, chunk_next, chunk_end, chunk_trailer, done, Encoder, Streams, switch_state,
  clean_up_current_chunk,
}
use aws_c_http.Http1.Encoder.States.{
  crlf, deref, deref_chunk, with_chunk, state_chunk_end, state_chunk_trailer,
}
use aws_c_http.Http1.Encoder.Wire.{
  Source, trailer_bytes, chunks_wire, AreSendable, at_chunk_next, at_chunk_end, at_chunk_trailer,
  at_done,
}
use aws_c_http.Http1.Encoder.Pieces.{encode_buf-Buffered}
use aws_c_http.Http1.Encoder.Conserve.{Step}
use aws_c_http.Http1.Encoder.Copies.{filled, copy_stops, copy_ends, filled_room}

module _ {S : Type 0} {streams : Streams S} (source : Source streams) (write : Write)
    (whole : IsWrite write) where
  pub chunk_end-Step :
      (e : Encoder S) (out : ByteBuf) (bytes : List ℕ) (m : EncoderMessage S) (c : Chunk S)
      (cs : List (Chunk S))
      → len out ≤ out.capacity
      → e.state ≡ chunk_end
      → e.message ≡ some m
      → m.pending_chunk_list ≡ c ∷ cs
      → e.current_chunk ≡ true
      → AreSendable source cs m.trailer
      → bytes ≡ crlf ++ chunks_wire source (trailer_bytes m.trailer) cs
      → Step source e out bytes (state_chunk_end write e out)
  unfolding state_chunk_end with_chunk deref deref_chunk switch_state clean_up_current_chunk
  chunk_end-Step e out bytes m c cs w s q l current ok b =
      elim (le_or_lt (len out + 2) out.capacity) [
        | inl fits ↦ record {
          e' = switch_state (clean_up_current_chunk e m c cs none) chunk_next;
          out' = record out { contents = out.contents ++ crlf };
          returns = ground (arith, q, l, current, whole.write_fits out crlf fits);
          writes = record {
            left = chunks_wire source (trailer_bytes m.trailer) cs;
            owes = at_chunk_next (record m { pending_chunk_list = cs }) refl refl ok refl;
            same_capacity = refl;
            within = omega (arith, length-append out.contents crlf, fits);
            conserved =
                append_assoc out.contents crlf (chunks_wire source (trailer_bytes m.trailer) cs)
                ∙ ap (◌++◌ out.contents) (sym b);
            moves = λ eager room. inl (λ z. absurd (ground (arith, z, s)));
          };
        }
        | inr full ↦ record {
          e' = e;
          out' = out;
          returns = ground (arith, whole.write_full out crlf full);
          writes = record {
            left = bytes;
            owes = at_chunk_end m c cs s q l current ok b;
            same_capacity = refl;
            within = w;
            conserved = refl;
            moves = λ eager room. absurd (
                omega (
                  arith,
                  ap length b,
                  length-append crlf (chunks_wire source (trailer_bytes m.trailer) cs),
                  room,
                  full,
                ));
          };
        }
      ]

  module _ (write_to_capacity : WriteToCapacity)
      (writes : IsWriteToCapacity write_to_capacity) where
    trailer_data-Step :
        (e : Encoder S) (out : ByteBuf) (bytes : List ℕ) (m : EncoderMessage S) (t : List ℕ)
        → len out ≤ out.capacity
        → e.state ≡ chunk_trailer
        → e.message ≡ some m
        → m.trailer ≡ some t
        → length t < 2 ^ 64
        → e.progress_bytes ≤ length t
        → bytes ≡ drop e.progress_bytes t
        → Step source e out bytes (state_chunk_trailer write write_to_capacity e out)
    unfolding state_chunk_trailer deref switch_state
    trailer_data-Step e out bytes m t w s q l small p b =
        let r = encode_buf-Buffered write_to_capacity writes e out t small p w in
        let room = filled_room source e out t r.n r.room in
        let b' : bytes ≡ drop e.progress_bytes t ++ [] =
          b ∙ sym (append-nil (drop e.progress_bytes t)) in
        elim r.stops [
          | inl (end, all, written) ↦ record {
            e' = record e { state = done; progress_bytes = 0 };
            out' = filled source e out t r.n;
            returns = ground (arith, q, l, r.returns, end);
            writes =
                copy_ends source e out t [] bytes r.n _ b' room written (at_done m refl q refl)
                  (λ z. absurd (ground (arith, z, s)));
          }
          | inr (more, under, full) ↦ record {
            e' = record e { progress_bytes = e.progress_bytes + r.n };
            out' = filled source e out t r.n;
            returns = ground (arith, q, l, r.returns, more);
            writes = copy_stops source e out t [] bytes r.n b' room full (
                at_chunk_trailer m s q (rw l small) (rw l (omega (arith, under)))
                  (λ z. absurd (ground (arith, z, l)))
                  (rw l (append-nil (drop (e.progress_bytes + r.n) t))));
          }
        ]

    no_trailer-Step :
        (e : Encoder S) (out : ByteBuf) (bytes : List ℕ) (m : EncoderMessage S)
        → len out ≤ out.capacity
        → e.state ≡ chunk_trailer
        → e.message ≡ some m
        → m.trailer ≡ none
        → e.progress_bytes ≡ 0
        → bytes ≡ crlf
        → Step source e out bytes (state_chunk_trailer write write_to_capacity e out)
    unfolding state_chunk_trailer deref switch_state
    no_trailer-Step e out bytes m w s q l p b = elim (le_or_lt (len out + 2) out.capacity) [
      | inl fits ↦ record {
        e' = record e { state = done; progress_bytes = 0 };
        out' = record out { contents = out.contents ++ crlf };
        returns = ground (arith, q, l, whole.write_fits out crlf fits);
        writes = record {
          left = [];
          owes = at_done m refl q refl;
          same_capacity = refl;
          within = omega (arith, length-append out.contents crlf, fits);
          conserved = append-nil (out.contents ++ crlf) ∙ ap (◌++◌ out.contents) (sym b);
          moves = λ eager room. inl (λ z. absurd (ground (arith, z, s)));
        };
      }
      | inr full ↦ record {
        e' = e;
        out' = out;
        returns = ground (arith, q, l, whole.write_full out crlf full);
        writes = record {
          left = bytes;
          owes =
              at_chunk_trailer m s q (rw l (omega arith)) (rw (l, p) (omega arith)) (λ z. p)
                (b ∙ rw (l, p) refl);
          same_capacity = refl;
          within = w;
          conserved = refl;
          moves = λ eager room. absurd (omega (arith, ap length b, room, full));
        };
      }
    ]

    pub chunk_trailer-Step :
        (e : Encoder S) (out : ByteBuf) (bytes : List ℕ) (m : EncoderMessage S)
        (o : Option (List ℕ))
        → len out ≤ out.capacity
        → e.state ≡ chunk_trailer
        → e.message ≡ some m
        → m.trailer ≡ o
        → length (trailer_bytes o) < 2 ^ 64
        → e.progress_bytes ≤ length (trailer_bytes o)
        → (o ≡ none → e.progress_bytes ≡ 0)
        → bytes ≡ drop e.progress_bytes (trailer_bytes o)
        → Step source e out bytes (state_chunk_trailer write write_to_capacity e out)
    chunk_trailer-Step e out bytes m none w s q l small p zeroed b =
        no_trailer-Step e out bytes m w s q l (zeroed refl)
          (b ∙ ap (λ n. drop n crlf) (zeroed refl))
    chunk_trailer-Step e out bytes m (some t) w s q l small p zeroed b =
        trailer_data-Step e out bytes m t w s q l small p b
