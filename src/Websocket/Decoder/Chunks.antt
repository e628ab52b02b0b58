-- ===== src/Websocket/Decoder/Chunks.antt =====
-- A frame may arrive in pieces: what the decoder does does not depend on how the bytes are cut.
use aws_c_http.Prelude.{
  ℕ, zero, suc, ◌+◌, ◌≤◌, ◌≡◌, refl, sym, ap, ◌∙◌, inl, inr, Bool, true, false, some, List, [], ◌∷◌,
  ◌++◌, ◌==◌, if◌then◌else◌, Option, none, arith, All,
}
use aws_c_http.Prelude.Words.{IsByte}
use aws_c_http.Websocket.Decoder.Types.{
  State, rank, Handlers, Decoder, Outcome, next, fail, Error, init, opcode_byte, length_byte,
  extended_length, masking_key_check, masking_key, payload_check, payload, frame_end, done,
}
use aws_c_http.Websocket.Decoder.Steps.{
  state_init, state_opcode_byte, state_length_byte, state_extended_length, state_masking_key_check,
  state_masking_key,
}
use aws_c_http.Websocket.Decoder.Process.{
  success, state_payload_check, state_payload, state_frame_end, state_function, run_states, process,
  finish_process, Processed, failure,
}
use aws_c_http.Websocket.Decoder.Invariant.{IsValid, progress_at, state_function-IsValid}
use aws_c_http.Websocket.Decoder.Termination.{
  Outcome-cases, rises_strictly, run_states_enough, finished, stalled, moved, first_round,
  process_success, process_of_done, round_next, round_fail,
}
use aws_c_http.Websocket.Decoder.Moves.{state_function-append}
use aws_c_http.Websocket.Decoder.Stalls.{IsStreaming, Visible, accepted, rejected, visible}
use aws_c_http.Websocket.Decoder.Resume.{
  extended_length_waits, extended_length_resumed, masking_key_waits, masking_key_resumed,
  payload_resumed,
}
use mathlib.Core.Option
use mathlib.Core.Path.{ap₂}

-- What a caller may rely on of a call: all of a success, and of a failure the error and the bytes left.
pub data Seen (V U : Type 0) : Type 0 where
  succeeded : Bool → Decoder V U → List ℕ → Seen V U
  failed : Error → List ℕ → Seen V U

abbrev pub seen : {V U : Type 0} → Processed V U → Seen V U
seen (success complete d bytes) = succeeded complete d bytes
seen (failure x d bytes) = failed x bytes

abbrev seen_of : {V U : Type 0} → Visible V U → Seen V U
seen_of (rejected x bytes) = failed x bytes
seen_of (accepted d bytes) =
    if rank d.state == rank done
    then succeeded true (record d { state = init }) bytes
    else succeeded false d bytes

seen-finish_process :
    {V U : Type 0} (o : Outcome V U) → seen (finish_process o) ≡ seen_of (visible o)
unfolding finish_process
seen-finish_process (next d bytes) = ground arith
seen-finish_process (fail x d bytes) = refl

finish_visible :
    {V U : Type 0} (m m' : Option (Outcome V U))
    → Option.map visible m ≡ Option.map visible m'
    → Option.map seen (Option.map finish_process m) ≡ Option.map seen (Option.map finish_process m')
finish_visible none none e = refl
finish_visible none (some o) e = cc
finish_visible (some o) none e = cc
finish_visible (some o) (some o') e = ground (arith, seen-finish_process o, seen-finish_process o')

rank_injective : (s t : State) → (rank s == rank t) ≡ true → s ≡ t
rank_injective s t e = ground arith

visible_next :
    {V U : Type 0} (o : Outcome V U) {d : Decoder V U} {bytes : List ℕ}
    → visible o ≡ accepted d bytes
    → o ≡ next d bytes
visible_next (next d bytes) e = cc
visible_next (fail x d bytes) e = cc

visible_fail :
    {V U : Type 0} (o : Outcome V U) {x : Error} {bytes : List ℕ}
    → visible o ≡ rejected x bytes
    → (d : Decoder V U) × (o ≡ fail x d bytes)
visible_fail (next d bytes) e = absurd (cc)
visible_fail (fail x d bytes) e = (d, cc)

nothing_read :
    {V U : Type 0} (f : Decoder V U → List ℕ → Outcome V U) (d : Decoder V U) (ys : List ℕ)
    {d' : Decoder V U} {rest : List ℕ}
    → next d [] ≡ next d' rest
    → (rest ≡ []) × (visible (f d ys) ≡ visible (f d' ys))
nothing_read f d ys {d'} e =
    let same_d : d ≡ d' = ground arith in (ground arith, ap (λ x. visible (f x ys)) same_d)

module _ {V U : Type 0} (h : Handlers V U) (streaming : IsStreaming h) where
  -- A state function that waits has taken all bytes, and resumes where it stopped.
  state_function_resumed :
      (s : State) (d : Decoder V U) (xs ys : List ℕ) {d' : Decoder V U} {rest : List ℕ}
      → d.state ≡ s
      → IsValid d
      → state_function h s d xs ≡ next d' rest
      → d'.state ≡ s
      → (rank s == rank done) ≡ false
      → (rest ≡ [])
        × (visible (state_function h s d (xs ++ ys)) ≡ visible (state_function h s d' ys))
  unfolding state_function
  state_function_resumed init d xs ys e v r w nd = unfold state_init in absurd (ground arith)
  state_function_resumed opcode_byte d [] ys e v r w nd =
      unfold state_opcode_byte in nothing_read state_opcode_byte d ys r
  state_function_resumed opcode_byte d (x ∷ xs) ys e v r w nd =
      unfold state_opcode_byte in absurd (ground arith)
  state_function_resumed length_byte d [] ys e v r w nd =
      unfold state_length_byte in nothing_read state_length_byte d ys r
  state_function_resumed length_byte d (x ∷ xs) ys e v r w nd =
      unfold state_length_byte in absurd (ground arith)
  state_function_resumed extended_length d [] ys e v r w nd =
      unfold state_extended_length in nothing_read state_extended_length d ys r
  state_function_resumed extended_length d (x ∷ xs) ys e v r w nd =
      let p = progress_at extended_length d e v in
      let (short, reached, left) = extended_length_waits d x xs e p r (ground arith) in
      (
        left,
        ap visible (extended_length_resumed d x xs ys e p short (r ∙ ap₂ next reached left))
            ∙ ap (λ z. visible (state_extended_length z ys)) (sym reached),
      )
  state_function_resumed masking_key_check d xs ys e v r w nd =
      unfold state_masking_key_check in absurd (ground arith)
  state_function_resumed masking_key d [] ys e v r w nd =
      unfold state_masking_key in nothing_read state_masking_key d ys r
  state_function_resumed masking_key d (x ∷ xs) ys e v r w nd =
      let p = progress_at masking_key d e v in
      let (short, reached, left) = masking_key_waits d x xs e p r (ground arith) in
      (
        left,
        ap visible (masking_key_resumed d x xs ys e p short (r ∙ ap₂ next reached left))
            ∙ ap (λ z. visible (state_masking_key z ys)) (sym reached),
      )
  state_function_resumed payload_check d xs ys e v r w nd =
      unfold state_payload_check in absurd (ground arith)
  state_function_resumed payload d [] ys e v r w nd =
      unfold state_payload in nothing_read (state_payload h) d ys r
  state_function_resumed payload d (x ∷ xs) ys e v r w nd =
      payload_resumed h streaming d x xs ys (progress_at payload d e v) v.fits r w
  state_function_resumed frame_end d xs ys e v r w nd =
      unfold state_frame_end in absurd (ground arith)
  state_function_resumed done d xs ys e v r w nd = absurd (ground arith)

  -- Where the same is seen of the first round, the same is seen of the loop.
  run_states-visible :
      (n : ℕ) (s : State) (d d' : Decoder V U) (xs ys : List ℕ)
      → d.state ≡ s
      → d'.state ≡ s
      → (rank s == rank done) ≡ false
      → visible (state_function h s d xs) ≡ visible (state_function h s d' ys)
      → Option.map visible (run_states h n d xs) ≡ Option.map visible (run_states h n d' ys)
  run_states-visible zero s d d' xs ys e e' nd q = unfold run_states in refl
  run_states-visible (suc n) s d d' xs ys e e' nd q =
      elim (Outcome-cases (state_function h s d xs)) [
        | inl (d₁, r₁, p) ↦
            let p' = visible_next (state_function h s d' ys) (sym q ∙ ap visible p) in
            ap (Option.map visible)
              (round_next h n s d xs d₁ r₁ e nd p ∙ sym (round_next h n s d' ys d₁ r₁ e' nd p'))
        | inr (x, d₁, r₁, p) ↦
            let (d₂, p') = visible_fail (state_function h s d' ys) (sym q ∙ ap visible p) in
            ap (Option.map visible) (round_fail h n s d xs d₁ r₁ e nd p)
            ∙ ap (Option.map visible) (sym (round_fail h n s d' ys d₂ r₁ e' nd p'))
      ]

  -- A loop that stops for want of bytes resumes where it stopped.
  run_states_resumed :
      (n : ℕ) (d : Decoder V U) (xs ys : List ℕ) {d' : Decoder V U} {rest : List ℕ}
      → IsValid d
      → All IsByte xs
      → 10 ≤ n + rank d.state
      → run_states h n d xs ≡ some (next d' rest)
      → (rank d'.state == rank done) ≡ false
      → (rest ≡ [])
        × (Option.map visible (run_states h n d (xs ++ ys))
            ≡ Option.map visible (run_states h 10 d' ys))
  run_states_resumed zero d xs ys v a fuel r nd = unfold run_states in absurd (ground arith)
  run_states_resumed (suc n) d xs ys {d'} v a fuel r nd = elim (first_round h n d xs r) [
    | finished f p q ↦ absurd (ground arith)
    | stalled f p w ↦
        let same_state = rank_injective d'.state d.state w in
        let (left, q) = state_function_resumed d.state d xs ys refl v p same_state f in
        let (o, x, y) = run_states_enough h (suc n) 10 d' ys (rw same_state fuel) (omega arith) in
        (
          left,
          run_states-visible (suc n) d.state d d' (xs ++ ys) ys refl same_state f q
              ∙ ap (Option.map visible) (x ∙ sym y),
        )
    | moved d₁ xs₁ f p m q ↦
        let (v₁, a₁) = state_function-IsValid h d.state d xs refl v a p in
        let (left, w) =
          run_states_resumed n d₁ xs₁ ys v₁ a₁ (rises_strictly h n d xs d₁ xs₁ p m fuel) q nd in
        let p' = state_function-append h d.state d xs ys refl v p m in
        (
          left,
          ap (Option.map visible)
                (round_next h n d.state d (xs ++ ys) d₁ (xs₁ ++ ys) refl f p' ∙ rw m)
              ∙ w,
        )
  ]

  -- A call that wants more data has used up what it was given, and calls that are given a frame in
  -- two pieces do what one call does that is given both: where that fails, they fail with the same
  -- error and the same bytes left.
  pub process_resumed :
      (d : Decoder V U) (xs ys : List ℕ) {d' : Decoder V U} {rest : List ℕ}
      → IsValid d
      → All IsByte xs
      → process h d xs ≡ some (success false d' rest)
      → (rest ≡ []) × (Option.map seen (process h d (xs ++ ys)) ≡ Option.map seen (process h d' ys))
  process_resumed d xs ys {d'} v a r =
      let (d₁, run, c, e) = process_success h d xs r in
      let (left, q) = run_states_resumed 10 d xs ys v a (omega arith) run (sym c) in
      let q' : Option.map visible (run_states h 10 d (xs ++ ys))
          ≡ Option.map visible (run_states h 10 d' ys) =
        rw e q in
      (
        left,
        unfold process in finish_visible (run_states h 10 d (xs ++ ys)) (run_states h 10 d' ys) q',
      )

module _ {V U : Type 0} (h : Handlers V U) where
  -- A loop that has reached `done` leaves what follows alone.
  run_states_done :
      (n : ℕ) (d : Decoder V U) (xs ys : List ℕ) {d' : Decoder V U} {rest : List ℕ}
      → IsValid d
      → All IsByte xs
      → run_states h n d xs ≡ some (next d' rest)
      → (rank d'.state == rank done) ≡ true
      → run_states h n d (xs ++ ys) ≡ some (next d' (rest ++ ys))
  run_states_done zero d xs ys v a r dn = unfold run_states in absurd (ground arith)
  run_states_done (suc n) d xs ys {d'} v a r dn = elim (first_round h n d xs r) [
    | finished f p q ↦ unfold run_states in rw f (rw (p, q))
    | stalled f p w ↦ absurd (ground arith)
    | moved d₁ xs₁ f p m q ↦
        let (v₁, a₁) = state_function-IsValid h d.state d xs refl v a p in
        let p' = state_function-append h d.state d xs ys refl v p m in
        round_next h n d.state d (xs ++ ys) d₁ (xs₁ ++ ys) refl f p'
        ∙ rw m (run_states_done n d₁ xs₁ ys v₁ a₁ q dn)
  ]

  -- A call that completes a frame does the same, and leaves them, whatever bytes follow the frame.
  pub process_complete :
      (d : Decoder V U) (xs ys : List ℕ) {d' : Decoder V U} {rest : List ℕ}
      → IsValid d
      → All IsByte xs
      → process h d xs ≡ some (success true d' rest)
      → process h d (xs ++ ys) ≡ some (success true d' (rest ++ ys))
  process_complete d xs ys {d'} {rest} v a r =
      let (d₁, run, c, e) = process_success h d xs r in
      let q = run_states_done 10 d xs ys v a run (sym c) in
      process_of_done h d (xs ++ ys) q (sym c)
      ∙ ap (λ z. some (success true z (rest ++ ys))) (sym e)
