-- ===== src/Http1/Encoder/Lines.antt =====
-- The states of the encoder that copy the head and the line of a chunk.
use aws_c_http.Prelude.{
  ℕ, ◌+◌, ◌≤◌, ◌≡◌, ◌≢◌, refl, ◌∙◌, inl, inr, true, Bool-cases, Option, none, some, List, [], ◌∷◌,
  ◌++◌, ◌==◌, if◌then◌else◌, length, drop, arith,
}
use mathlib.Core.Path.{subst}
use aws_c_http.ByteBuf.{ByteBuf, len, WriteToCapacity, IsWriteToCapacity}
use aws_c_http.Http1.Encoder.Types.{
  Chunk, EncoderMessage, head, chunk_next, chunk_line_state, chunk_body, chunk_trailer, done,
  Encoder, Streams, switch_state, clean_up_current_chunk,
}
use aws_c_http.Http1.Encoder.States.{
  crlf, deref, deref_chunk, with_chunk, behind_head, state_head, state_chunk_line,
}
use aws_c_http.Http1.Encoder.Wire.{
  Source, trailer_bytes, held, chunks_wire, chunked_wire, body_wire, AreSendable, IsSendable,
  HoldsBody, Owes, at_head, at_body, at_chunk_next, at_chunk_line, at_chunk_body, at_chunk_trailer,
  at_done,
}
use aws_c_http.Http1.Encoder.Pieces.{encode_buf-Buffered}
use aws_c_http.Http1.Encoder.Conserve.{Step}
use aws_c_http.Http1.Encoder.Copies.{filled, copy_stops, copy_ends, filled_room}

module _ {S : Type 0} {streams : Streams S} (source : Source streams) where
  -- The state behind the head owes the body.
  behind_head-Owes :
      (e : Encoder S) (m : EncoderMessage S)
      → IsSendable source m
      → Owes source
          (record e {
            state = behind_head m;
            progress_bytes = 0;
            message = some (record m { outgoing_head_buf = [] });
          })
          (body_wire source m.body m)
  unfolding behind_head
  behind_head-Owes e m ok = go m.body refl
    where
      chunked :
          (b : Option S)
          → m.body ≡ b
          → behind_head m ≡ (if m.has_chunked_encoding_header then chunk_next else done)
          → body_wire source m.body m
            ≡ (if m.has_chunked_encoding_header then chunked_wire source m else [])
          → Owes source
              (record e {
                state = behind_head m;
                progress_bytes = 0;
                message = some (record m { outgoing_head_buf = [] });
              })
              (body_wire source m.body m)
      chunked b q s w = elim (Bool-cases m.has_chunked_encoding_header) [
        | inl c ↦
            at_chunk_next (record m { outgoing_head_buf = [] }) (s ∙ rw c refl) refl
              ok.chunks_sendable (w ∙ rw c refl)
        | inr c ↦ at_done (record m { outgoing_head_buf = [] }) (s ∙ rw c refl) refl (w ∙ rw c refl)
      ]

      go :
          (b : Option S)
          → m.body ≡ b
          → Owes source
              (record e {
                state = behind_head m;
                progress_bytes = 0;
                message = some (record m { outgoing_head_buf = [] });
              })
              (body_wire source m.body m)
      go none q = chunked none q (ground (arith, q)) (ground (arith, q))
      go (some s) q = elim (Bool-cases (m.content_length == 0)) [
        | inl z ↦ chunked (some s) q (ground (arith, q, z)) (ground (arith, q, z))
        | inr more ↦
            let holds : HoldsBody source (some s) m.content_length =
              subst (λ z. HoldsBody source z m.content_length) q ok.body_held in
            at_body (record m { outgoing_head_buf = [] }) s (ground (arith, q, more)) refl q
              ok.length_fits (ground (arith, holds, more)) (ground (arith, more))
              (ground (arith, q, more))
      ]

module _ {S : Type 0} {streams : Streams S} (source : Source streams)
    (write_to_capacity : WriteToCapacity) (writes : IsWriteToCapacity write_to_capacity) where
  behind_head_other : (m : EncoderMessage S) → behind_head m ≢ head
  unfolding behind_head
  behind_head_other m q = absurd (ground (arith, q))

  pub head-Step :
      (e : Encoder S) (out : ByteBuf) (bytes : List ℕ) (m : EncoderMessage S)
      → len out ≤ out.capacity
      → e.state ≡ head
      → e.message ≡ some m
      → IsSendable source m
      → e.progress_bytes ≤ length m.outgoing_head_buf
      → bytes ≡ drop e.progress_bytes m.outgoing_head_buf ++ body_wire source m.body m
      → Step source e out bytes (state_head write_to_capacity e out)
  unfolding state_head deref switch_state
  head-Step e out bytes m w s q ok p b =
      let src : List ℕ = m.outgoing_head_buf in
      let r = encode_buf-Buffered write_to_capacity writes e out src ok.head_fits p w in
      let room = filled_room source e out src r.n r.room in
      let tail : List ℕ = body_wire source m.body m in
      elim r.stops [
        | inl (end, all, whole) ↦ record {
          e' = record e {
            state = behind_head m;
            progress_bytes = 0;
            message = some (record m { outgoing_head_buf = [] });
          };
          out' = filled source e out src r.n;
          returns = ground (arith, q, r.returns, end);
          writes =
              copy_ends source e out src tail bytes r.n _ b room whole
                (behind_head-Owes source e m ok) (λ z. behind_head_other m (z ∙ s));
        }
        | inr (more, under, full) ↦ record {
          e' = record e { progress_bytes = e.progress_bytes + r.n };
          out' = filled source e out src r.n;
          returns = ground (arith, q, r.returns, more);
          writes =
              copy_stops source e out src tail bytes r.n b room full
                (at_head m s q ok (omega (arith, under)) refl);
        }
      ]

  pub chunk_line-Step :
      (e : Encoder S) (out : ByteBuf) (bytes : List ℕ) (m : EncoderMessage S) (c : Chunk S)
      (cs : List (Chunk S))
      → len out ≤ out.capacity
      → e.state ≡ chunk_line_state
      → e.message ≡ some m
      → m.pending_chunk_list ≡ c ∷ cs
      → e.current_chunk ≡ true
      → AreSendable source (c ∷ cs) m.trailer
      → e.progress_bytes ≤ length c.chunk_line
      → bytes
        ≡ drop e.progress_bytes c.chunk_line
          ++ (if c.data_size == 0
              then trailer_bytes m.trailer
              else held source c.chunk_data
                ++ (crlf ++ chunks_wire source (trailer_bytes m.trailer) cs))
      → Step source e out bytes (state_chunk_line write_to_capacity e out)
  unfolding state_chunk_line with_chunk deref deref_chunk switch_state clean_up_current_chunk
  chunk_line-Step e out bytes m c cs w s q l current
        (((line_fits, size_fits, sized), others), trailer_fits) p b =
      let src : List ℕ = c.chunk_line in
      let r = encode_buf-Buffered write_to_capacity writes e out src line_fits p w in
      let room = filled_room source e out src r.n r.room in
      let behind : List ℕ = crlf ++ chunks_wire source (trailer_bytes m.trailer) cs in
      elim r.stops [
        | inr (more, under, full) ↦ record {
          e' = record e { progress_bytes = e.progress_bytes + r.n };
          out' = filled source e out src r.n;
          returns = ground (arith, q, l, current, r.returns, more);
          writes = copy_stops source e out src _ bytes r.n b room full (
              at_chunk_line m c cs s q l current
                (((line_fits, size_fits, sized), others), trailer_fits) (omega (arith, under))
                refl);
        }
        | inl (end, all, whole) ↦ elim (Bool-cases (c.data_size == 0)) [
          | inl last ↦ record {
            e' =
                switch_state
                  (clean_up_current_chunk (record e { progress_bytes = e.progress_bytes + r.n }) m c
                    cs none)
                  chunk_trailer;
            out' = filled source e out src r.n;
            returns = ground (arith, q, l, current, r.returns, end, last);
            writes =
                copy_ends source e out src (trailer_bytes m.trailer) bytes r.n _ (b ∙ rw last refl)
                  room whole
                  (at_chunk_trailer (record m { pending_chunk_list = cs }) refl refl trailer_fits
                    (omega arith) (λ z. refl) refl)
                  (λ z. absurd (ground (arith, z, s)));
          }
          | inr body ↦ elim sized [
            | inl zero_size ↦ absurd (ground (arith, zero_size, body))
            | inr (st, holds, size) ↦ record {
              e' = record e { state = chunk_body; progress_bytes = 0 };
              out' = filled source e out src r.n;
              returns = ground (arith, q, l, current, r.returns, end, body);
              writes =
                  copy_ends source e out src (source.remaining st ++ behind) bytes r.n _
                    (b ∙ rw (body, holds) refl) room whole
                    (at_chunk_body m c cs st refl q l current holds size_fits (omega (arith, size))
                      (ground (arith, body)) (others, trailer_fits) refl)
                    (λ z. absurd (ground (arith, z, s)));
            }
          ]
        ]
      ]
