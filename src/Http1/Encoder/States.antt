-- ===== src/Http1/Encoder/States.antt =====
-- The state functions of source/h1_encoder.c.
use aws_c_http.Prelude.{
  ℕ, Bool, true, false, not, Option, none, some, List, [], ◌∷◌, ◌+◌, ltb, ◌==◌, if◌then◌else◌,
  length, drop,
}
use aws_c_http.Prelude.Words.{u64_max, add_u64, sub_u64}
use aws_c_http.ByteBuf.{ByteBuf, len, Write, WriteToCapacity}
use aws_c_http.Http1.Encoder.Types.{
  Error, stream_error, stream_status_error, stream_length_incorrect, Chunk, EncoderMessage, State,
  init, head, unchunked_body, chunk_next, chunk_line_state, chunk_body, chunk_end, chunk_trailer,
  done, Encoder, Streams, Outcome, next, fail, abort, switch_state, clean_up_current_chunk,
}

abbrev pub crlf : List ℕ
crlf = b'\r' ∷ b'\n' ∷ []

-- What `s_encode_stream` leaves: `out_done` or an error, and the stream.
pub data Streamed (S : Type 0) : Type 0 where
  sent : Bool → Encoder S → ByteBuf → S → Streamed S
  broken : Error → Encoder S → ByteBuf → S → Streamed S

module _ {S : Type 0} where
  -- The message and the current chunk are dereferenced.
  unfoldable pub deref : Option (EncoderMessage S) → (EncoderMessage S → Outcome S) → Outcome S
  deref none f = abort
  deref (some m) f = f m

  unfoldable pub deref_chunk :
      Bool → List (Chunk S) → (Chunk S → List (Chunk S) → Outcome S) → Outcome S
  deref_chunk false chunks f = abort
  deref_chunk true [] f = abort
  deref_chunk true (c ∷ cs) f = f c cs

  unfoldable pub with_chunk :
      Encoder S → (EncoderMessage S → Chunk S → List (Chunk S) → Outcome S) → Outcome S
  unfolding deref deref_chunk
  with_chunk e f = deref e.message (λ m. deref_chunk e.current_chunk m.pending_chunk_list (f m))

module _ {S : Type 0} (write_to_capacity : WriteToCapacity) where
  -- `s_encode_buf`: the flag says whether all of `src` has been written.
  unfoldable pub encode_buf : Encoder S → ByteBuf → List ℕ → Encoder S × ByteBuf × Bool
  encode_buf e dst src =
      let src_cursor = drop e.progress_bytes src in
      let (dst', written) = write_to_capacity dst src_cursor in
      (
        record e { progress_bytes = add_u64 e.progress_bytes written },
        dst',
        written == length src_cursor,
      )

module _ {S : Type 0} (streams : Streams S) where
  -- A stream that wrote nothing.
  unfoldable pub check_status : Encoder S → ByteBuf → S → Option Bool → Streamed S
  check_status e dst s none = broken stream_status_error e dst s
  check_status e dst s (some true) = broken stream_length_incorrect e dst s
  check_status e dst s (some false) = sent false e dst s

  -- What follows the reading of `amount_read` bytes.
  unfoldable pub account_stream : Encoder S → ByteBuf → S → ℕ → ℕ → Streamed S
  unfolding check_status
  account_stream e dst s total_length amount_read =
      let progress = e.progress_bytes + amount_read in
      let e' = record e { progress_bytes = progress } in
      if ltb u64_max progress
      then broken stream_length_incorrect e dst s
      else (if ltb total_length progress
          then broken stream_length_incorrect e' dst s
          else (if progress == total_length
              then sent true e' dst s
              else (if amount_read == 0
                  then check_status e' dst s (streams.get_status s)
                  else sent false e' dst s)))

  unfoldable pub encode_stream : Encoder S → ByteBuf → S → ℕ → Streamed S
  unfolding account_stream
  encode_stream e dst s total_length =
      let (dst', s', err) = streams.read s dst in
      if dst.capacity == len dst
      then sent false e dst s
      else (if err
          then broken stream_error e dst' s'
          else account_stream e dst' s' total_length (sub_u64 (len dst') (len dst)))

module _ {S : Type 0} where
  unfoldable pub state_init : Encoder S → ByteBuf → Outcome S
  unfolding switch_state
  state_init e dst = elim e.message [ none ↦ next e dst | some m ↦ next (switch_state e head) dst ]

  -- The state behind the head.
  unfoldable pub behind_head : EncoderMessage S → State
  behind_head m =
      let chunked = if m.has_chunked_encoding_header then chunk_next else done in
      elim m.body [
        | none ↦ chunked
        | some s ↦ if not (m.content_length == 0) then unchunked_body else chunked
      ]

  unfoldable pub state_chunk_next : Encoder S → ByteBuf → Outcome S
  unfolding switch_state deref
  state_chunk_next e dst = deref e.message (λ m. elim m.pending_chunk_list [
    | [] ↦ next e dst
    | c ∷ cs ↦
        next
          (switch_state (record e { current_chunk = true; chunk_count = add_u64 e.chunk_count 1 })
            chunk_line_state)
          dst
  ])

  unfoldable pub state_done : Encoder S → ByteBuf → Outcome S
  unfolding switch_state
  state_done e dst = next (switch_state (record e { message = none }) init) dst

module _ {S : Type 0} (write_to_capacity : WriteToCapacity) where
  unfoldable pub state_head : Encoder S → ByteBuf → Outcome S
  unfolding deref encode_buf behind_head switch_state
  state_head e dst = deref e.message (λ m.
      let (e', dst', finished) = encode_buf write_to_capacity e dst m.outgoing_head_buf in
      if not finished
      then next e' dst'
      else next
          (switch_state (record e' { message = some (record m { outgoing_head_buf = [] }) })
            (behind_head m))
          dst')

  unfoldable pub state_chunk_line : Encoder S → ByteBuf → Outcome S
  unfolding with_chunk encode_buf switch_state clean_up_current_chunk
  state_chunk_line e dst = with_chunk e (λ m c cs.
      let (e', dst', finished) = encode_buf write_to_capacity e dst c.chunk_line in
      if not finished
      then next e' dst'
      else (if c.data_size == 0
          then next (switch_state (clean_up_current_chunk e' m c cs none) chunk_trailer) dst'
          else next (switch_state e' chunk_body) dst'))

module _ {S : Type 0} (streams : Streams S) where
  -- The body has been read from.
  unfoldable pub body_streamed : EncoderMessage S → Streamed S → Outcome S
  unfolding switch_state
  body_streamed m (broken x e dst s) =
      fail x (record e { message = some (record m { body = some s }) }) dst
  body_streamed m (sent false e dst s) =
      next (record e { message = some (record m { body = some s }) }) dst
  body_streamed m (sent true e dst s) =
      next (switch_state (record e { message = some (record m { body = some s }) }) done) dst

  unfoldable pub state_unchunked_body : Encoder S → ByteBuf → Outcome S
  unfolding deref body_streamed encode_stream
  state_unchunked_body e dst = deref e.message (λ m. elim m.body [
    | none ↦ abort
    | some s ↦ body_streamed m (encode_stream streams e dst s m.content_length)
  ])

  -- The stream of the chunk in front of the others has been read from.
  unfoldable pub chunk_streamed :
      EncoderMessage S → Chunk S → List (Chunk S) → Streamed S → Outcome S
  unfolding switch_state clean_up_current_chunk
  chunk_streamed m c cs (broken x e dst s) = fail x (clean_up_current_chunk e m c cs (some x)) dst
  chunk_streamed m c cs (sent out_done e dst s) =
      let chunks = record c { chunk_data = some s } ∷ cs in
      let e' = record e { message = some (record m { pending_chunk_list = chunks }) } in
      if not out_done then next e' dst else next (switch_state e' chunk_end) dst

  unfoldable pub state_chunk_body : Encoder S → ByteBuf → Outcome S
  unfolding with_chunk chunk_streamed encode_stream
  state_chunk_body e dst = with_chunk e (λ m c cs. elim c.chunk_data [
    | none ↦ abort
    | some s ↦ chunk_streamed m c cs (encode_stream streams e dst s c.data_size)
  ])

module _ {S : Type 0} (write : Write) where
  unfoldable pub state_chunk_end : Encoder S → ByteBuf → Outcome S
  unfolding with_chunk switch_state clean_up_current_chunk
  state_chunk_end e dst =
      let (dst', finished) = write dst crlf in
      if not finished
      then next e dst'
      else with_chunk e
          (λ m c cs. next (switch_state (clean_up_current_chunk e m c cs none) chunk_next) dst')

module _ {S : Type 0} (write : Write) (write_to_capacity : WriteToCapacity) where
  unfoldable pub state_chunk_trailer : Encoder S → ByteBuf → Outcome S
  unfolding deref encode_buf switch_state
  state_chunk_trailer e dst = deref e.message (λ m.
      let (e', dst', finished) : Encoder S × ByteBuf × Bool = elim m.trailer [
        | some trailer_data ↦ encode_buf write_to_capacity e dst trailer_data
        | none ↦ let (dst', written) = write dst crlf in (e, dst', written)
      ] in
      if not finished then next e' dst' else next (switch_state e' done) dst')
