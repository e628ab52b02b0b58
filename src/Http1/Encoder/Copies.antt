-- ===== src/Http1/Encoder/Copies.antt =====
-- What the states of the encoder that copy a buffer leave of what is owed.
use aws_c_http.Prelude.{
  ℕ, ◌+◌, ◌-◌, ◌≤◌, ◌<◌, ◌≡◌, ◌≢◌, refl, sym, ap, ◌∙◌, inl, List, ◌++◌, length, length-append,
  length-drop, take, drop, arith,
}
use mathlib.Core.List.{append_assoc}
use aws_c_http.ByteBuf.{ByteBuf, len}
use aws_c_http.Http1.Encoder.Types.{Encoder, Streams}
use aws_c_http.Http1.Encoder.Wire.{Source, Owes, Writes}
use aws_c_http.Http1.Encoder.Pieces.{append-take-drop}

module _ {S : Type 0} {streams : Streams S} (source : Source streams) where
  abbrev pub filled : (e : Encoder S) (out : ByteBuf) (src : List ℕ) (n : ℕ) → ByteBuf
  filled e out src n = record out { contents = out.contents ++ take n (drop e.progress_bytes src) }

  -- The buffer is full in the middle of the part.
  pub copy_stops :
      (e : Encoder S) (out : ByteBuf) (src tail bytes : List ℕ) (n : ℕ)
      → bytes ≡ drop e.progress_bytes src ++ tail
      → len (filled e out src n) ≤ out.capacity
      → out.capacity < len out + (length src - e.progress_bytes)
      → Owes source
          (record e { progress_bytes = e.progress_bytes + n })
          (drop (e.progress_bytes + n) src ++ tail)
      → Writes source e out bytes
          (record e { progress_bytes = e.progress_bytes + n })
          (filled e out src n)
  copy_stops e out src tail bytes n b room full owes = record {
    left = drop (e.progress_bytes + n) src ++ tail;
    owes = owes;
    same_capacity = refl;
    within = room;
    conserved =
        append-take-drop out.contents src tail e.progress_bytes n ∙ ap (◌++◌ out.contents) (sym b);
    moves = λ eager fits. absurd (
        omega (
          arith,
          ap length b,
          length-append (drop e.progress_bytes src) tail,
          length-drop e.progress_bytes src,
          fits,
          full,
        ));
  }

  -- The part is written, and the encoder goes on to what follows it.
  pub copy_ends :
      (e : Encoder S) (out : ByteBuf) (src tail bytes : List ℕ) (n : ℕ) (e' : Encoder S)
      → bytes ≡ drop e.progress_bytes src ++ tail
      → len (filled e out src n) ≤ out.capacity
      → take n (drop e.progress_bytes src) ≡ drop e.progress_bytes src
      → Owes source e' tail
      → e'.state ≢ e.state
      → Writes source e out bytes e' (filled e out src n)
  copy_ends e out src tail bytes n e' b room whole owes other = record {
    left = tail;
    owes = owes;
    same_capacity = refl;
    within = room;
    conserved =
        append_assoc out.contents (take n (drop e.progress_bytes src)) tail
        ∙ ap (λ z. out.contents ++ (z ++ tail)) whole
        ∙ ap (◌++◌ out.contents) (sym b);
    moves = λ eager fits. inl other;
  }

  pub filled_room :
      (e : Encoder S) (out : ByteBuf) (src : List ℕ) (n : ℕ)
      → len out + length (take n (drop e.progress_bytes src)) ≤ out.capacity
      → len (filled e out src n) ≤ out.capacity
  filled_room e out src n room =
      omega (arith, length-append out.contents (take n (drop e.progress_bytes src)), room)
