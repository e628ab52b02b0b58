-- ===== src/Http1/Encoder/Wire.antt =====
-- The bytes that a message takes on the wire (RFC 7230, section 4.1 for a chunked body), and which of
-- them an encoder has still to write.
use aws_c_http.Prelude.{
  ℕ, ◌+◌, ◌^◌, ◌≤◌, ◌<◌, ◌≡◌, ◌≢◌, ◌⊎◌, true, false, Option, none, some, List, [], ◌∷◌, ◌++◌, All,
  ◌==◌, if◌then◌else◌, length, drop,
}
use aws_c_http.ByteBuf.{ByteBuf, len}
use aws_c_http.Http1.Encoder.Types.{
  Chunk, EncoderMessage, init, head, unchunked_body, chunk_next, chunk_line_state, chunk_body,
  chunk_end, chunk_trailer, done, Encoder, Streams,
}
use aws_c_http.Http1.Encoder.States.{crlf}

-- Streams that hand over what they hold piece by piece, within the capacity, and are not at their end
-- while there is something left.
pub record Source {S : Type 0} (streams : Streams S) : Type 0 where
  pub remaining : S → List ℕ
  pub piece : S → ByteBuf → List ℕ
  pub left : S → ByteBuf → S
  pub reads :
      (s : S) (out : ByteBuf)
      → streams.read s out
        ≡ (record out { contents = out.contents ++ piece s out }, left s out, false)
  pub splits : (s : S) (out : ByteBuf) → remaining s ≡ piece s out ++ remaining (left s out)
  pub within :
      (s : S) (out : ByteBuf)
      → len out ≤ out.capacity
      → len out + length (piece s out) ≤ out.capacity
  pub goes_on : (s : S) → remaining s ≢ [] → streams.get_status s ≡ some false

-- Streams that hand over all that is left where there is room for it.
abbrev pub IsEager : {S : Type 0} {streams : Streams S} → Source streams → Type 0
IsEager {S} source =
    (s : S) (out : ByteBuf)
    → len out + length (source.remaining s) ≤ out.capacity
    → source.piece s out ≡ source.remaining s

abbrev pub trailer_bytes : Option (List ℕ) → List ℕ
trailer_bytes none = crlf
trailer_bytes (some trailer_data) = trailer_data

module _ {S : Type 0} {streams : Streams S} (source : Source streams) where
  abbrev pub held : Option S → List ℕ
  held none = []
  held (some s) = source.remaining s

  -- The chunks up to the one of size zero, which the trailer follows.
  abbrev pub chunks_wire : List ℕ → List (Chunk S) → List ℕ
  chunks_wire trailer [] = []
  chunks_wire trailer (c ∷ cs) =
      c.chunk_line
      ++ (if c.data_size == 0
          then trailer
          else held c.chunk_data ++ (crlf ++ chunks_wire trailer cs))

  abbrev pub chunked_wire : EncoderMessage S → List ℕ
  chunked_wire m = chunks_wire (trailer_bytes m.trailer) m.pending_chunk_list

  -- What follows the head: a body of a known length, or chunks, or nothing.
  abbrev pub body_wire : Option S → EncoderMessage S → List ℕ
  body_wire none m = if m.has_chunked_encoding_header then chunked_wire m else []
  body_wire (some s) m =
      if m.content_length == 0
      then (if m.has_chunked_encoding_header then chunked_wire m else [])
      else source.remaining s

  abbrev pub message_wire : EncoderMessage S → List ℕ
  message_wire m = m.outgoing_head_buf ++ body_wire m.body m

  -- A chunk whose stream holds what its size announces; the last one, of size zero, needs no stream.
  abbrev pub IsSendableChunk : Chunk S → Type 0
  IsSendableChunk c =
      (length c.chunk_line < 2 ^ 64)
      × (c.data_size < 2 ^ 64)
      × ((c.data_size ≡ 0)
          ⊎ ((s : S) × (c.chunk_data ≡ some s) × (c.data_size ≡ length (source.remaining s))))

  abbrev pub AreSendable : List (Chunk S) → Option (List ℕ) → Type 0
  AreSendable cs trailer = All IsSendableChunk cs × (length (trailer_bytes trailer) < 2 ^ 64)

  abbrev pub HoldsBody : Option S → ℕ → Type 0
  HoldsBody none n = Unit {0}
  HoldsBody (some s) n = (n ≡ 0) ⊎ (n ≡ length (source.remaining s))

  -- A message whose body stream, if its length is not zero, holds that many bytes, and whose chunks can
  -- be sent.
  pub record IsSendable (m : EncoderMessage S) : Type 0 where
    pub head_fits : length m.outgoing_head_buf < 2 ^ 64
    pub length_fits : m.content_length < 2 ^ 64
    pub body_held : HoldsBody m.body m.content_length
    pub chunks_sendable : AreSendable m.pending_chunk_list m.trailer

  -- The encoder has to write these bytes still.
  pub data Owes (e : Encoder S) (bytes : List ℕ) : Type 0 where
    at_rest : e.state ≡ init → e.message ≡ none → bytes ≡ [] → Owes e bytes
    at_init :
        (m : EncoderMessage S)
        → e.state ≡ init
        → e.message ≡ some m
        → IsSendable m
        → bytes ≡ message_wire m
        → Owes e bytes
    at_head :
        (m : EncoderMessage S)
        → e.state ≡ head
        → e.message ≡ some m
        → IsSendable m
        → e.progress_bytes ≤ length m.outgoing_head_buf
        → bytes ≡ drop e.progress_bytes m.outgoing_head_buf ++ body_wire m.body m
        → Owes e bytes
    at_body :
        (m : EncoderMessage S) (s : S)
        → e.state ≡ unchunked_body
        → e.message ≡ some m
        → m.body ≡ some s
        → m.content_length < 2 ^ 64
        → m.content_length ≡ e.progress_bytes + length (source.remaining s)
        → e.progress_bytes < m.content_length
        → bytes ≡ source.remaining s
        → Owes e bytes
    at_chunk_next :
        (m : EncoderMessage S)
        → e.state ≡ chunk_next
        → e.message ≡ some m
        → AreSendable m.pending_chunk_list m.trailer
        → bytes ≡ chunked_wire m
        → Owes e bytes
    at_chunk_line :
        (m : EncoderMessage S) (c : Chunk S) (cs : List (Chunk S))
        → e.state ≡ chunk_line_state
        → e.message ≡ some m
        → m.pending_chunk_list ≡ c ∷ cs
        → e.current_chunk ≡ true
        → AreSendable (c ∷ cs) m.trailer
        → e.progress_bytes ≤ length c.chunk_line
        → bytes
          ≡ drop e.progress_bytes c.chunk_line
            ++ (if c.data_size == 0
                then trailer_bytes m.trailer
                else held c.chunk_data ++ (crlf ++ chunks_wire (trailer_bytes m.trailer) cs))
        → Owes e bytes
    at_chunk_body :
        (m : EncoderMessage S) (c : Chunk S) (cs : List (Chunk S)) (s : S)
        → e.state ≡ chunk_body
        → e.message ≡ some m
        → m.pending_chunk_list ≡ c ∷ cs
        → e.current_chunk ≡ true
        → c.chunk_data ≡ some s
        → c.data_size < 2 ^ 64
        → c.data_size ≡ e.progress_bytes + length (source.remaining s)
        → e.progress_bytes < c.data_size
        → AreSendable cs m.trailer
        → bytes ≡ source.remaining s ++ (crlf ++ chunks_wire (trailer_bytes m.trailer) cs)
        → Owes e bytes
    at_chunk_end :
        (m : EncoderMessage S) (c : Chunk S) (cs : List (Chunk S))
        → e.state ≡ chunk_end
        → e.message ≡ some m
        → m.pending_chunk_list ≡ c ∷ cs
        → e.current_chunk ≡ true
        → AreSendable cs m.trailer
        → bytes ≡ crlf ++ chunks_wire (trailer_bytes m.trailer) cs
        → Owes e bytes
    at_chunk_trailer :
        (m : EncoderMessage S)
        → e.state ≡ chunk_trailer
        → e.message ≡ some m
        → length (trailer_bytes m.trailer) < 2 ^ 64
        → e.progress_bytes ≤ length (trailer_bytes m.trailer)
        → (m.trailer ≡ none → e.progress_bytes ≡ 0)
        → bytes ≡ drop e.progress_bytes (trailer_bytes m.trailer)
        → Owes e bytes
    at_done :
        (m : EncoderMessage S) → e.state ≡ done → e.message ≡ some m → bytes ≡ [] → Owes e bytes

  -- The encoder has written all there is: the message is complete, or the next chunk is not there yet.
  pub data IsThrough (e : Encoder S) : Type 0 where
    complete : e.message ≡ none → IsThrough e
    waiting :
        (m : EncoderMessage S)
        → e.state ≡ chunk_next
        → e.message ≡ some m
        → m.pending_chunk_list ≡ []
        → IsThrough e

  -- A step that writes some of the bytes and still owes the others. It keeps the state only where the
  -- encoder is through, or where there is no room or a stream holds something back.
  pub record Writes (e : Encoder S) (out : ByteBuf) (bytes : List ℕ) (e' : Encoder S)
      (out' : ByteBuf) : Type 0 where
    pub left : List ℕ
    pub owes : Owes e' left
    pub same_capacity : out'.capacity ≡ out.capacity
    pub within : len out' ≤ out'.capacity
    pub conserved : out'.contents ++ left ≡ out.contents ++ bytes
    pub moves :
        IsEager source → len out + length bytes ≤ out.capacity → (e'.state ≢ e.state) ⊎ IsThrough e'
