-- ===== src/Http1/Encoder/Pieces.antt =====
-- What `s_encode_buf` and `s_encode_stream` of source/h1_encoder.c write of a buffer and of a stream.
use aws_c_http.Prelude.{
  ℕ, ◌+◌, ◌-◌, ◌^◌, ◌≤◌, ◌<◌, ◌≡◌, ◌⊎◌, refl, sym, ap, ◌∙◌, inl, inr, Bool, true, false, Bool-cases,
  le_or_lt, some, List, [], ◌++◌, ◌==◌, length, length-append, length-zero, min, take, drop,
  length-take, ◌%◌, take-append-drop, take-length, drop-drop, length-drop, arith,
}
use mathlib.Core.List.{append_assoc, append-nil}
use aws_c_http.Prelude.Words.{sub_u64}
use aws_c_http.ByteBuf.{ByteBuf, len, WriteToCapacity, IsWriteToCapacity}
use aws_c_http.Http1.Encoder.Types.{Encoder, Streams}
use aws_c_http.Http1.Encoder.States.{
  encode_buf, Streamed, sent, check_status, account_stream, encode_stream,
}
use aws_c_http.Http1.Encoder.Wire.{Source, IsEager}

-- The rest behind the next `n` bytes.
pub append-take-drop :
    (out src tail : List ℕ) (p n : ℕ)
    → (out ++ take n (drop p src)) ++ (drop (p + n) src ++ tail) ≡ out ++ (drop p src ++ tail)
append-take-drop out src tail p n =
    append_assoc out (take n (drop p src)) (drop (p + n) src ++ tail)
    ∙ ap (◌++◌ out) (
        sym (append_assoc (take n (drop p src)) (drop (p + n) src) tail)
        ∙ ap (λ z. (take n (drop p src) ++ z) ++ tail) (sym (drop-drop p n src))
        ∙ ap (λ z. z ++ tail) (take-append-drop n (drop p src)))

-- What `s_encode_buf` leaves: all is written, or the buffer is full.
pub record Buffered {S : Type 0} (e : Encoder S) (out : ByteBuf) (src : List ℕ)
    (r : Encoder S × ByteBuf × Bool) : Type 0 where
  pub n : ℕ
  pub finished : Bool
  pub returns : r ≡ (
    record e { progress_bytes = e.progress_bytes + n },
    record out { contents = out.contents ++ take n (drop e.progress_bytes src) },
    finished,
  )
  pub stops :
      ((finished ≡ true)
        × (e.progress_bytes + n ≡ length src)
        × (take n (drop e.progress_bytes src) ≡ drop e.progress_bytes src))
      ⊎ ((finished ≡ false)
          × (e.progress_bytes + n < length src)
          × (out.capacity < len out + (length src - e.progress_bytes)))
  pub room : len out + length (take n (drop e.progress_bytes src)) ≤ out.capacity

module _ {S : Type 0} (write : WriteToCapacity) (writes : IsWriteToCapacity write) where
  buf_written :
      (e : Encoder S) (out : ByteBuf) (src : List ℕ) (n : ℕ)
      → n ≡ min (out.capacity - len out) (length (drop e.progress_bytes src))
      → e.progress_bytes + n < 2 ^ 64
      → encode_buf write e out src ≡ (
        record e { progress_bytes = e.progress_bytes + n },
        record out { contents = out.contents ++ take n (drop e.progress_bytes src) },
        n == length (drop e.progress_bytes src),
      )
  unfolding encode_buf
  buf_written e out src n q small =
      let wrap : (e.progress_bytes + n) % 2 ^ 64 ≡ e.progress_bytes + n = omega arith in
      rw (writes out (drop e.progress_bytes src), ← q)
        (ap
          (λ (z : ℕ). (
            record e { progress_bytes = z },
            record out { contents = out.contents ++ take n (drop e.progress_bytes src) },
            n == length (drop e.progress_bytes src),
          ))
          wrap)

  pub encode_buf-Buffered :
      (e : Encoder S) (out : ByteBuf) (src : List ℕ)
      → length src < 2 ^ 64
      → e.progress_bytes ≤ length src
      → len out ≤ out.capacity
      → Buffered e out src (encode_buf write e out src)
  encode_buf-Buffered e out src small p w =
      let rest : List ℕ = drop e.progress_bytes src in
      let n : ℕ = min (out.capacity - len out) (length rest) in
      let size : length rest ≡ length src - e.progress_bytes = length-drop e.progress_bytes src in
      let taken : length (take n rest) ≡ min n (length rest) = length-take n rest in
      record {
        n = n;
        finished = n == length rest;
        returns = buf_written e out src n refl (omega (arith, size));
        stops = elim (le_or_lt (length rest) (out.capacity - len out)) [
          | inl fits ↦
              let whole : n ≡ length rest = omega arith in
              inl (rw whole (ground arith), omega (arith, whole, size), rw whole (take-length rest))
          | inr full ↦
              inr (ground (arith, full), omega (arith, size, full), omega (arith, size, full))
        ];
        room = omega (arith, taken);
      }

-- What `s_encode_stream` leaves of a stream that holds what is announced.
pub record Drained {S : Type 0} {streams : Streams S} (source : Source streams) (e : Encoder S)
    (out : ByteBuf) (s : S) (total : ℕ) (r : Streamed S) : Type 0 where
  pub finished : Bool
  pub progress : ℕ
  pub written : List ℕ
  pub s' : S
  pub returns :
      r
      ≡ sent finished
          (record e { progress_bytes = progress })
          (record out { contents = out.contents ++ written })
          s'
  pub conserved : written ++ source.remaining s' ≡ source.remaining s
  pub counted : total ≡ progress + length (source.remaining s')
  pub room : len out + length written ≤ out.capacity
  pub stops :
      ((finished ≡ true) × (source.remaining s' ≡ []))
      ⊎ ((finished ≡ false)
          × (progress < total)
          × (IsEager source → out.capacity < len out + length (source.remaining s)))

module _ {S : Type 0} {streams : Streams S} (source : Source streams) where
  abbrev Announces : Encoder S → S → ℕ → Type 0
  Announces e s total =
      (total < 2 ^ 64)
      × (total ≡ e.progress_bytes + length (source.remaining s))
      × (e.progress_bytes < total)

  stream_full :
      (e : Encoder S) (out : ByteBuf) (s : S) (total : ℕ)
      → Announces e s total
      → out.capacity ≡ len out
      → Drained source e out s total (encode_stream streams e out s total)
  stream_full e out s total (small, counted, more) full = record {
    finished = false;
    progress = e.progress_bytes;
    written = [];
    s' = s;
    returns = unfold encode_stream in (ground (arith, full, append-nil out.contents));
    conserved = refl;
    counted = counted;
    room = omega arith;
    stops = inr (refl, more, λ eager. omega arith);
  }

  accounted :
      (e : Encoder S) (out : ByteBuf) (s : S) (total n : ℕ)
      → e.progress_bytes + n ≤ total
      → total < 2 ^ 64
      → (e.progress_bytes + n < total → streams.get_status s ≡ some false)
      → account_stream streams e out s total n
        ≡ sent
            (e.progress_bytes + n == total)
            (record e { progress_bytes = e.progress_bytes + n })
            out
            s
  unfolding account_stream check_status
  accounted e out s total n most small goes_on = elim (le_or_lt total (e.progress_bytes + n)) [
    | inl end ↦ ground (arith, most, small, end)
    | inr more ↦ ground (arith, most, small, more, goes_on more)
  ]

  stream_read :
      (e : Encoder S) (out : ByteBuf) (s : S) (total : ℕ)
      → (out.capacity == len out) ≡ false
      → encode_stream streams e out s total
        ≡ account_stream streams e
            (record out { contents = out.contents ++ source.piece s out })
            (source.left s out)
            total
            (length (source.piece s out))
  unfolding encode_stream
  stream_read e out s total space =
      let amount : sub_u64 (length (out.contents ++ source.piece s out)) (length out.contents)
          ≡ length (source.piece s out) =
        ground (arith, length-append out.contents (source.piece s out)) in
      rw (source.reads s out, space, amount) refl

  pub encode_stream-Drained :
      (e : Encoder S) (out : ByteBuf) (s : S) (total : ℕ)
      → len out ≤ out.capacity
      → Announces e s total
      → Drained source e out s total (encode_stream streams e out s total)
  encode_stream-Drained e out s total w (small, counted, more) =
      elim (Bool-cases (out.capacity == len out)) [
        | inl full ↦ stream_full e out s total (small, counted, more) (ground (arith, full))
        | inr space ↦
            let piece : List ℕ = source.piece s out in
            let s' : S = source.left s out in
            let progress : ℕ = e.progress_bytes + length piece in
            let parts : length (source.remaining s) ≡ length piece + length (source.remaining s') =
              ap length (source.splits s out) ∙ length-append piece (source.remaining s') in
            record {
              finished = progress == total;
              progress = progress;
              written = piece;
              s' = s';
              returns =
                  stream_read e out s total space
                  ∙ accounted e (record out { contents = out.contents ++ piece }) s' total
                      (length piece) (omega (arith, parts, counted)) small
                      (λ (under : e.progress_bytes + length piece < total).
                        source.goes_on s' (λ (q : source.remaining s' ≡ []).
                          omega (arith, ap length q, parts, counted, under)));
              conserved = sym (source.splits s out);
              counted = omega (arith, counted, parts);
              room = source.within s out w;
              stops = elim (le_or_lt total progress) [
                | inl end ↦ inl (
                  ground (arith, end, counted, parts),
                  length-zero (source.remaining s') (omega (arith, end, counted, parts)),
                )
                | inr under ↦ inr (
                  ground (arith, under),
                  under,
                  λ eager. elim (le_or_lt (len out + length (source.remaining s)) out.capacity) [
                    | inl fits ↦
                        absurd (omega (arith, ap length (eager s out fits), under, counted))
                    | inr over ↦ over
                  ],
                )
              ];
            }
      ]
