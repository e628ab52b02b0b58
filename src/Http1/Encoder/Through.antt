-- ===== src/Http1/Encoder/Through.antt =====
-- An encoder that is through with a message owes nothing.
use aws_c_http.Prelude.{ℕ, ◌≡◌, ap, ◌∙◌, none, some, List, [], arith}
use aws_c_http.Http1.Encoder.Types.{EncoderMessage, chunk_next, Encoder, Streams}
use aws_c_http.Http1.Encoder.Wire.{
  Source, trailer_bytes, chunks_wire, Owes, IsThrough, at_rest, at_init, at_head, at_body,
  at_chunk_next, at_chunk_line, at_chunk_body, at_chunk_end, at_chunk_trailer, at_done, complete,
  waiting,
}

module _ {S : Type 0} {streams : Streams S} (source : Source streams) where
  -- An encoder that is through owes nothing.
  complete-nil :
      (e : Encoder S) (bytes : List ℕ) → e.message ≡ none → Owes source e bytes → bytes ≡ []
  complete-nil e bytes n (at_rest s q b) = b
  complete-nil e bytes n (at_init m s q ok b) = absurd (ground (arith, n, q))
  complete-nil e bytes n (at_head m s q ok p b) = absurd (ground (arith, n, q))
  complete-nil e bytes n (at_body m st s q l small counted more b) = absurd (ground (arith, n, q))
  complete-nil e bytes n (at_chunk_next m s q ok b) = absurd (ground (arith, n, q))
  complete-nil e bytes n (at_chunk_line m c cs s q l current ok p b) = absurd (ground (arith, n, q))
  complete-nil e bytes n (at_chunk_body m c cs st s q l current holds small counted more ok b) =
      absurd (ground (arith, n, q))
  complete-nil e bytes n (at_chunk_end m c cs s q l current ok b) = absurd (ground (arith, n, q))
  complete-nil e bytes n (at_chunk_trailer m s q small p zeroed b) = absurd (ground (arith, n, q))
  complete-nil e bytes n (at_done m s q b) = b

  waiting-nil :
      (e : Encoder S) (bytes : List ℕ) (m' : EncoderMessage S)
      → e.state ≡ chunk_next
      → e.message ≡ some m'
      → m'.pending_chunk_list ≡ []
      → Owes source e bytes
      → bytes ≡ []
  waiting-nil e bytes m' t n z (at_rest s q b) = b
  waiting-nil e bytes m' t n z (at_init m s q ok b) = absurd (ground (arith, s, t))
  waiting-nil e bytes m' t n z (at_head m s q ok p b) = absurd (ground (arith, s, t))
  waiting-nil e bytes m' t n z (at_body m st s q l small counted more b) =
      absurd (ground (arith, s, t))
  waiting-nil e bytes m' t n z (at_chunk_next m s q ok b) =
      let same : m.pending_chunk_list ≡ [] = cc in
      b ∙ ap (chunks_wire source (trailer_bytes m.trailer)) same
  waiting-nil e bytes m' t n z (at_chunk_line m c cs s q l current ok p b) =
      absurd (ground (arith, s, t))
  waiting-nil e bytes m' t n z
        (at_chunk_body m c cs st s q l current holds small counted more ok b) =
      absurd (ground (arith, s, t))
  waiting-nil e bytes m' t n z (at_chunk_end m c cs s q l current ok b) =
      absurd (ground (arith, s, t))
  waiting-nil e bytes m' t n z (at_chunk_trailer m s q small p zeroed b) =
      absurd (ground (arith, s, t))
  waiting-nil e bytes m' t n z (at_done m s q b) = b

  pub through-nil :
      (e : Encoder S) (bytes : List ℕ) → IsThrough source e → Owes source e bytes → bytes ≡ []
  through-nil e bytes (complete q) o = complete-nil e bytes q o
  through-nil e bytes (waiting m s q l) o = waiting-nil e bytes m s q l o
