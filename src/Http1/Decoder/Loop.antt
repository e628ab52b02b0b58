-- ===== src/Http1/Decoder/Loop.antt =====
-- The loop of `aws_h1_decode` in source/h1_decoder.c ends, and keeps the decoder well formed.
use aws_c_http.Prelude.{
  ℕ, zero, suc, ◌<◌, ◌≤◌, ◌≡◌, inl, inr, refl, ap, Bool, true, false, Option, some, List, [], ◌∷◌,
  if◌then◌else◌, arith, length,
}
use mathlib.Core.Option
use aws_c_http.Http1.Decoder.Types.{
  Vtable, Common, Decoder, Outcome, next, fail, reset_state, Error, request_line, response_line,
  decoder_new, zero_decoder,
}
use aws_c_http.Http1.Decoder.Outcomes.{Leaves, next-Leaves, fail-Leaves}
use aws_c_http.Http1.Decoder.Process.{
  run_state, run_states, decode, Decoded, success, failure, finish_decode,
}
use aws_c_http.Http1.Decoder.Invariant.{IsCommon, AtLine, AtState, IsValid}
use aws_c_http.Http1.Decoder.Rounds.{round-Leaves}

fresh_line :
    (requests : Bool) → AtLine (some (if requests then request_line else response_line)) 0 0
fresh_line true = (refl, refl)
fresh_line false = (refl, refl)

module _ {U : Type 0} where
  -- The loop ended, and left a well-formed decoder and no more bytes than there were.
  abbrev EndsWell : ℕ → Option (Outcome U × List ℕ) → Type 0
  EndsWell n x = (r : Outcome U × List ℕ) × (x ≡ some r) × Leaves IsValid r.0 × (length r.1 ≤ n)

  done_or_round :
      (done : Bool) (d : Decoder U) (bytes : List ℕ) (rounds : Option (Outcome U × List ℕ))
      → IsValid d
      → (done ≡ false → EndsWell (length bytes) rounds)
      → EndsWell (length bytes) (elim done [ true ↦ some (next d, bytes) | false ↦ rounds ])
  done_or_round true d bytes rounds i more = ((next d, bytes), refl, next-Leaves d i, omega arith)
  done_or_round false d bytes rounds i more = more refl

  not_done : (d : Decoder U) → IsValid d → d.is_done ≡ false → AtState d.run_state d
  not_done d i e = elim i.place [ inl done ↦ absurd (ground arith) | inr at ↦ at ]

  -- The decoder between two calls: no message is done.
  pub record IsReady (d : Decoder U) : Type 0 where
    pub valid : IsValid d
    pub open_message : d.is_done ≡ false

  pub reset-IsReady : (d : Decoder U) → IsReady (reset_state d)
  unfolding reset_state
  reset-IsReady d = record {
    valid = record {
      framed = record {
        exclusive = inl refl;
        no_body = λ e. (refl, refl);
        length_word = omega arith;
        chunk_word = omega arith;
      };
      place = inr (fresh_line d.is_decoding_requests, refl);
    };
    open_message = refl;
  }

  -- What `aws_h1_decode` returns: an error leaves all the data, and success a decoder that is ready.
  pub data IsDecoded (data_in : List ℕ) : Decoded U → Type 0 where
    refused : (e : Error) (d : Decoder U) → IsDecoded data_in (failure e d data_in)
    accepted :
        (d : Decoder U) (rest : List ℕ)
        → IsReady d
        → length rest ≤ length data_in
        → IsDecoded data_in (success d rest)

  finished :
      (done : Bool) (d : Decoder U) (rest data_in : List ℕ)
      → d.is_done ≡ done
      → IsValid d
      → length rest ≤ length data_in
      → IsDecoded data_in (if done then success (reset_state d) rest else success d rest)
  finished true d rest data_in e i short = accepted (reset_state d) rest (reset-IsReady d) short
  finished false d rest data_in e i short =
      accepted d rest (record { valid = i; open_message = e }) short

  loop_decoded :
      (o : Outcome U) (rest data_in : List ℕ)
      → Leaves IsValid o
      → length rest ≤ length data_in
      → IsDecoded data_in (finish_decode data_in (o, rest))
  unfolding finish_decode
  loop_decoded (fail e d) rest data_in l short = refused e d
  loop_decoded (next d) rest data_in l short =
      finished d.is_done d rest data_in refl (l.left d refl) short

  -- A new decoder is ready.
  pub new-IsReady : (requests : Bool) (u : U) → IsReady (decoder_new requests u)
  unfolding decoder_new
  new-IsReady requests u = reset-IsReady (zero_decoder requests u)

module _ {U : Type 0} (c : Common) (v : Vtable U) where
  round_ended :
      (o : Outcome U) (rest : List ℕ) (fuel n : ℕ)
      → Leaves IsValid o
      → length rest < n
      → ((d' : Decoder U) → IsValid d' → EndsWell (length rest) (run_states c v fuel d' rest))
      → EndsWell n
          (elim o [ next d' ↦ run_states c v fuel d' rest | fail e d' ↦ some (fail e d', rest) ])
  round_ended (fail e d') rest fuel n l short more =
      ((fail e d', rest), refl, fail-Leaves e d', omega arith)
  round_ended (next d') rest fuel n l short more =
      let (r, e, kept, fewer) = more d' (l.left d' refl) in (r, e, kept, omega arith)

  -- The loop on a well-formed decoder ends with fuel for each byte, and leaves such a decoder.
  loop-EndsWell :
      (fuel : ℕ) (d : Decoder U) (bytes : List ℕ)
      → IsCommon c
      → IsValid d
      → length bytes ≤ fuel
      → EndsWell (length bytes) (run_states c v fuel d bytes)
  unfolding run_states
  loop-EndsWell fuel d [] t i enough = ((next d, []), refl, next-Leaves d i, omega arith)
  loop-EndsWell zero d (b ∷ bs) t i enough = absurd (omega arith)
  loop-EndsWell (suc fuel) d (b ∷ bs) t i enough =
      done_or_round d.is_done d (b ∷ bs) _ i (λ running.
        let (l, short) =
          round-Leaves c v d.run_state b bs d t i.framed refl (not_done d i running) in
        round_ended (run_state c v d.run_state d (b ∷ bs)).0
          (run_state c v d.run_state d (b ∷ bs)).1 fuel (length (b ∷ bs)) l short
          (λ d' i'.
            loop-EndsWell fuel d' (run_state c v d.run_state d (b ∷ bs)).1 t i' (omega arith)))

  -- On a decoder that is ready, `aws_h1_decode` returns, whatever the data: with an error, and all the
  -- data left, or with a decoder that is ready again.
  pub decode-IsDecoded :
      (d : Decoder U) (data_in : List ℕ)
      → IsCommon c
      → IsReady d
      → (r : Decoded U) × (decode c v d data_in ≡ some r) × IsDecoded data_in r
  unfolding decode
  decode-IsDecoded d data_in t ready =
      let (r, e, l, short) = loop-EndsWell (length data_in) d data_in t ready.valid (omega arith) in
      (
        finish_decode data_in r,
        ap (Option.map (finish_decode data_in)) e,
        loop_decoded r.0 r.1 data_in l short,
      )
