-- ===== src/Http1/Decoder/Rounds.antt =====
-- The rounds of the loop of `aws_h1_decode` in source/h1_decoder.c: each takes a byte at least and
-- keeps the decoder well formed.
use aws_c_http.Prelude.{
  ℕ, suc, ◌-◌, ◌^◌, ◌<◌, ◌≤◌, ◌≡◌, inl, inr, refl, sym, Bool, true, false, List, [], ◌∷◌, ◌==◌,
  Bool-cases, if◌then◌else◌, arith, length, length-drop, take,
}
use mathlib.Core.Path.{subst}
use aws_c_http.Prelude.Words.{add_u64}
use aws_c_http.Http1.Decoder.Types.{
  RunState, getline, unchunked_body, chunk, chunk_terminator_line, Vtable, Common, Decoder, next,
  mark_done, set_line_state,
}
use aws_c_http.Http1.Decoder.Split.{scan_for_crlf, last_or_zero}
use aws_c_http.Http1.Decoder.Outcomes.{Leaves, next-Leaves, and_then-Leaves, call-Leaves}
use aws_c_http.Http1.Decoder.Process.{
  to_take, state_unchunked_body, state_chunk, finish_line, state_getline, run_state,
}
use aws_c_http.Http1.Decoder.Invariant.{
  IsCommon, Framed, AtState, IsValid, line-IsValid, mark_done-Leaves,
}
use aws_c_http.Http1.Decoder.LineInvariant.{process_line-Leaves}

scanned_le : (prev : ℕ) (cs : List ℕ) (n : ℕ) → n ≤ (scan_for_crlf prev cs n).0
unfolding scan_for_crlf
scanned_le prev [] n = omega arith
scanned_le prev (c ∷ cs) n = let later = scanned_le c cs (suc n) in ground arith

scanned_some : (prev c : ℕ) (cs : List ℕ) (n : ℕ) → n < (scan_for_crlf prev (c ∷ cs) n).0
unfolding scan_for_crlf
scanned_some prev c cs n = let later = scanned_le c cs (suc n) in ground arith

-- A body or a chunk with bytes left takes one at least, and none of those behind it.
pub to_take_bounds :
    (processed total b : ℕ) (bs : List ℕ)
    → processed < total
    → total < 2 ^ 64
    → (0 < to_take processed total (b ∷ bs))
      × (to_take processed total (b ∷ bs) ≤ length (b ∷ bs))
      × (add_u64 processed (to_take processed total (b ∷ bs)) ≤ total)
unfolding to_take
to_take_bounds processed total b bs left word = (ground arith, ground arith, ground arith)

module _ {U : Type 0} (c : Common) (v : Vtable U) where
  at_body :
      (d : Decoder U)
      → d.run_state ≡ unchunked_body
      → d.content_processed < d.content_length
      → AtState d.run_state d
  at_body d e h = subst (λ r. AtState r d) (sym e) h

  at_chunk :
      (d : Decoder U)
      → d.run_state ≡ chunk
      → d.chunk_processed < d.chunk_size
      → d.content_processed ≡ 0
      → AtState d.run_state d
  at_chunk d e h p = subst (λ r. AtState r d) (sym e) (h, p)

  -- In a body, with as many bytes read as given.
  record InBody (processed total : ℕ) (d : Decoder U) : Type 0 where
    framed : Framed d
    at : d.run_state ≡ unchunked_body
    read : d.content_processed ≡ processed
    whole : d.content_length ≡ total

  record InChunk (processed total : ℕ) (d : Decoder U) : Type 0 where
    framed : Framed d
    at : d.run_state ≡ chunk
    read : d.chunk_processed ≡ processed
    whole : d.chunk_size ≡ total
    unread : d.content_processed ≡ 0

  body_read :
      (processed total : ℕ) (d : Decoder U)
      → InBody processed total d
      → processed ≤ total
      → Leaves IsValid (if processed == total then mark_done v d else next d)
  body_read processed total d i bound = elim (Bool-cases (processed == total)) [
    | inl e ↦ rw e (mark_done-Leaves v d i.framed)
    | inr e ↦ rw e (
        next-Leaves d (record {
          framed = i.framed;
          place = inr (at_body d i.at (let r = i.read in let w = i.whole in ground arith));
        }))
  ]

  body-Leaves :
      (input : List ℕ) (d : Decoder U)
      → Framed d
      → d.run_state ≡ unchunked_body
      → add_u64 d.content_processed (to_take d.content_processed d.content_length input)
        ≤ d.content_length
      → Leaves IsValid (state_unchunked_body c v d input).0
  unfolding state_unchunked_body
  body-Leaves input d f at bound =
      and_then-Leaves
        (call-Leaves
          {P = InBody
            (add_u64 d.content_processed (to_take d.content_processed d.content_length input))
            d.content_length}
          _ _ (λ u. record { framed = f; at = at; read = refl; whole = refl }))
        (λ d' i. body_read _ _ d' i bound)

  chunk_read :
      (processed total : ℕ) (d : Decoder U)
      → InChunk processed total d
      → processed ≤ total
      → IsValid (if processed == total then set_line_state d chunk_terminator_line else d)
  chunk_read processed total d i bound = elim (Bool-cases (processed == total)) [
    | inl e ↦ rw e (line-IsValid d chunk_terminator_line i.framed i.unread tt)
    | inr e ↦ rw e (record {
      framed = i.framed;
      place = inr (at_chunk d i.at (let r = i.read in let w = i.whole in ground arith) i.unread);
    })
  ]

  chunk-Leaves :
      (input : List ℕ) (d : Decoder U)
      → Framed d
      → d.run_state ≡ chunk
      → d.content_processed ≡ 0
      → add_u64 d.chunk_processed (to_take d.chunk_processed d.chunk_size input) ≤ d.chunk_size
      → Leaves IsValid (state_chunk c v d input).0
  unfolding state_chunk
  chunk-Leaves input d f at start bound =
      and_then-Leaves
        (call-Leaves
          {P = InChunk (add_u64 d.chunk_processed (to_take d.chunk_processed d.chunk_size input))
            d.chunk_size}
          _ _ (λ u. record { framed = f; at = at; read = refl; whole = refl; unread = start }))
        (λ d' i. next-Leaves _ (chunk_read _ _ d' i bound))

  at_line : (d : Decoder U) → d.run_state ≡ getline → AtState getline d → AtState d.run_state d
  at_line d e h = subst (λ r. AtState r d) (sym e) h

  line-Leaves :
      (found : Bool) (line : List ℕ) (d : Decoder U)
      → IsCommon c
      → Framed d
      → d.run_state ≡ getline
      → AtState getline d
      → Leaves IsValid (finish_line c v found line d)
  unfolding finish_line
  line-Leaves true line d t f at (here, start) =
      process_line-Leaves c v d.process_line (take (length line - 2) line) d t
        (record { framed = f; unread = start }) here
  line-Leaves false line d t f at place =
      next-Leaves d (record { framed = f; place = inr (at_line d at place) })

  scratch-Leaves :
      (found use_scratch : Bool) (joined line : List ℕ) (d : Decoder U)
      → IsCommon c
      → Framed d
      → d.run_state ≡ getline
      → AtState getline d
      → Leaves IsValid (
          finish_line c v found line
            (if use_scratch then record d { scratch_space = joined } else d))
  scratch-Leaves found true joined line d t f at place =
      line-Leaves found line (record d { scratch_space = joined }) t f at place
  scratch-Leaves found false joined line d t f at place = line-Leaves found line d t f at place

  -- A round at each state, on one byte at least.
  pub round-Leaves :
      (r : RunState) (b : ℕ) (bs : List ℕ) (d : Decoder U)
      → IsCommon c
      → Framed d
      → d.run_state ≡ r
      → AtState r d
      → Leaves IsValid (run_state c v r d (b ∷ bs)).0
        × (length (run_state c v r d (b ∷ bs)).1 < length (b ∷ bs))
  unfolding run_state state_getline state_unchunked_body state_chunk
  round-Leaves getline b bs d t f at place =
      let some_read = scanned_some (last_or_zero d.scratch_space) b bs 0 in
      let n : ℕ = (scan_for_crlf (last_or_zero d.scratch_space) (b ∷ bs) 0).0 in
      (scratch-Leaves _ _ _ _ d t f at place, omega (arith, length-drop n (b ∷ bs)))
  round-Leaves unchunked_body b bs d t f at place =
      let (taken, within, bound) =
        to_take_bounds d.content_processed d.content_length b bs place f.length_word in
      (
        body-Leaves (b ∷ bs) d f at bound,
        omega (arith, length-drop (to_take d.content_processed d.content_length (b ∷ bs)) (b ∷ bs)),
      )
  round-Leaves chunk b bs d t f at (place, start) =
      let (taken, within, bound) =
        to_take_bounds d.chunk_processed d.chunk_size b bs place f.chunk_word in
      (
        chunk-Leaves (b ∷ bs) d f at start bound,
        omega (arith, length-drop (to_take d.chunk_processed d.chunk_size (b ∷ bs)) (b ∷ bs)),
      )
