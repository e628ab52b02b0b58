-- ===== src/Websocket/Decoder/Termination.antt =====
-- The loop of `aws_websocket_decoder_process` ends.
use aws_c_http.Prelude.{
  true, Bool, if◌then◌else◌, Option-cases, ℕ, zero, suc, ◌+◌, ◌≤◌, ◌≡◌, refl, sym, ap, ◌∙◌, ◌⊎◌,
  inl, inr, false, some, List, [], ◌∷◌, ◌==◌, Bool-cases, arith,
}
use mathlib.Core.Option
use aws_c_http.Websocket.Decoder.Types.{
  State, rank, Handlers, Decoder, Outcome, next, fail, Error, init, opcode_byte, length_byte,
  extended_length, masking_key_check, masking_key, payload_check, payload, frame_end, done,
}
use aws_c_http.Websocket.Decoder.Steps.{
  state_init, state_opcode_byte, state_length_byte, state_extended_length, state_masking_key_check,
  state_masking_key,
}
use aws_c_http.Websocket.Decoder.Process.{
  Processed, success, state_payload_check, state_payload, state_frame_end, state_function,
  run_states, finish_process, process,
}

rank_bound : (s : State) → rank s ≤ 9
rank_bound init = omega arith
rank_bound s = omega arith

module _ {V U : Type 0} where
  pub Outcome-cases :
      (o : Outcome V U)
      → ((d : Decoder V U) × (bytes : List ℕ) × (o ≡ next d bytes))
        ⊎ ((e : Error) × (d : Decoder V U) × (bytes : List ℕ) × (o ≡ fail e d bytes))
  Outcome-cases (next d bytes) = inl (d, bytes, refl)
  Outcome-cases (fail e d bytes) = inr (e, d, bytes, refl)

module _ {V U : Type 0} (h : Handlers V U) where
  -- A state function keeps the state or moves on to a later one.
  pub state_function_rises :
      (s : State) (d : Decoder V U) (bytes : List ℕ) {d' : Decoder V U} {rest : List ℕ}
      → d.state ≡ s
      → state_function h s d bytes ≡ next d' rest
      → rank d.state ≤ rank d'.state
  unfolding state_function state_init state_opcode_byte state_length_byte state_extended_length
      state_masking_key_check state_masking_key state_payload_check state_payload state_frame_end
  state_function_rises init d bytes e r = ground arith
  state_function_rises opcode_byte d [] e r = ground arith
  state_function_rises opcode_byte d (b ∷ bs) e r = ground arith
  state_function_rises length_byte d [] e r = ground arith
  state_function_rises length_byte d (b ∷ bs) e r = ground arith
  state_function_rises extended_length d [] e r = ground arith
  state_function_rises extended_length d (b ∷ bs) e r = ground arith
  state_function_rises masking_key_check d bs e r = ground arith
  state_function_rises masking_key d [] e r = ground arith
  state_function_rises masking_key d (b ∷ bs) e r = ground arith
  state_function_rises payload_check d bs e r = ground arith
  state_function_rises payload d [] e r = ground arith
  state_function_rises payload d (b ∷ bs) e r = ground arith
  state_function_rises frame_end d bs e r = ground arith
  state_function_rises done d bs e r = ground arith

  pub rises_strictly :
      (n : ℕ) (d : Decoder V U) (bytes : List ℕ) (d' : Decoder V U) (rest : List ℕ)
      → state_function h d.state d bytes ≡ next d' rest
      → (rank d'.state == rank d.state) ≡ false
      → 10 ≤ suc n + rank d.state
      → 10 ≤ n + rank d'.state
  rises_strictly n d bytes d' rest p other hn =
      ground (arith, state_function_rises d.state d bytes refl p)

  -- Two amounts of fuel that are both enough give the same outcome, and there is one.
  pub run_states_enough :
      (n m : ℕ) (d : Decoder V U) (bytes : List ℕ)
      → 10 ≤ n + rank d.state
      → 10 ≤ m + rank d.state
      → (o : Outcome V U) × (run_states h n d bytes ≡ some o) × (run_states h m d bytes ≡ some o)
  unfolding run_states
  run_states_enough zero m d bytes hn hm = absurd (omega (arith, rank_bound d.state))
  run_states_enough (suc n) zero d bytes hn hm = absurd (omega (arith, rank_bound d.state))
  run_states_enough (suc n) (suc m) d bytes hn hm = elim (Bool-cases (rank d.state == rank done)) [
    | inl e ↦ (next d bytes, rw e, rw e)
    | inr e ↦ elim (Outcome-cases (state_function h d.state d bytes)) [
      | inr (x, d', rest, p) ↦ (fail x d' rest, rw (e, p), rw (e, p))
      | inl (d', rest, p) ↦ elim (Bool-cases (rank d'.state == rank d.state)) [
        | inl stays ↦ (next d' rest, rw (e, p, stays), rw (e, p, stays))
        | inr moves ↦
            let (o, a, b) =
              run_states_enough n m d' rest (rises_strictly n d bytes d' rest p moves hn)
                (rises_strictly m d bytes d' rest p moves hm) in
            (o, rw (e, p, moves) a, rw (e, p, moves) b)
      ]
    ]
  ]

  -- `aws_websocket_decoder_process` returns on every decoder and all data, and more rounds of the
  -- loop would not change what it returns.
  pub decoder_process_total :
      (d : Decoder V U) (bytes : List ℕ)
      → (r : Processed V U) × (process h d bytes ≡ some r)
        × ((extra : ℕ) → Option.map finish_process (run_states h (10 + extra) d bytes) ≡ some r)
  unfolding process
  decoder_process_total d bytes =
      let (o, a, b) = run_states_enough 10 10 d bytes (omega arith) (omega arith) in
      (
        finish_process o,
        rw a,
        λ extra.
            let (o', a', b') =
              run_states_enough 10 (10 + extra) d bytes (omega arith) (omega arith) in
            rw b' (ap (Option.map finish_process) (sym a' ∙ a)),
      )

  -- How a successful run of the loop begins.
  pub data Round (n : ℕ) (d : Decoder V U) (bytes : List ℕ) (d' : Decoder V U) (rest : List ℕ)
      : Type 0 where
    finished : (rank d.state == rank done) ≡ true → d ≡ d' → bytes ≡ rest → Round n d bytes d' rest
    stalled :
        (rank d.state == rank done) ≡ false
        → state_function h d.state d bytes ≡ next d' rest
        → (rank d'.state == rank d.state) ≡ true
        → Round n d bytes d' rest
    moved :
        (d₁ : Decoder V U) (bytes₁ : List ℕ)
        → (rank d.state == rank done) ≡ false
        → state_function h d.state d bytes ≡ next d₁ bytes₁
        → (rank d₁.state == rank d.state) ≡ false
        → run_states h n d₁ bytes₁ ≡ some (next d' rest)
        → Round n d bytes d' rest

  pub first_round :
      (n : ℕ) (d : Decoder V U) (bytes : List ℕ) {d' : Decoder V U} {rest : List ℕ}
      → run_states h (suc n) d bytes ≡ some (next d' rest)
      → Round n d bytes d' rest
  unfolding run_states
  first_round n d bytes r = elim (Bool-cases (rank d.state == rank done)) [
    | inl e ↦ finished e (ground arith) (ground arith)
    | inr e ↦ elim (Outcome-cases (state_function h d.state d bytes)) [
      | inr (x, d₁, bytes₁, p) ↦ absurd (ground arith)
      | inl (d₁, bytes₁, p) ↦ elim (Bool-cases (rank d₁.state == rank d.state)) [
        | inl stays ↦ stalled e (ground arith) (ground arith)
        | inr moves ↦ moved d₁ bytes₁ e p moves (ground arith)
      ]
    ]
  ]

  -- What a successful call has run: the loop ended in `done` exactly if the frame is complete.
  pub process_success :
      (d : Decoder V U) (bytes : List ℕ) {complete : Bool} {d' : Decoder V U} {rest : List ℕ}
      → process h d bytes ≡ some (success complete d' rest)
      → (d₁ : Decoder V U) × (run_states h 10 d bytes ≡ some (next d₁ rest))
        × (complete ≡ (rank d₁.state == rank done))
        × (d' ≡ (if complete then record d₁ { state = init } else d₁))
  unfolding process finish_process
  process_success d bytes r = elim (Option-cases (run_states h 10 d bytes)) [
    | inl e ↦ absurd (ground arith)
    | inr (o, e) ↦ elim (Outcome-cases o) [
      | inl (d₁, rest₁, p) ↦ elim (Bool-cases (rank d₁.state == rank done)) [
        | inl q ↦ (d₁, ground arith, ground arith, ground arith)
        | inr q ↦ (d₁, ground arith, ground arith, ground arith)
      ]
      | inr (x, d₁, rest₁, p) ↦ absurd (ground arith)
    ]
  ]

  -- One round of the loop, by what the state function returns.
  pub round_next :
      (n : ℕ) (s : State) (d : Decoder V U) (xs : List ℕ) (d₁ : Decoder V U) (r₁ : List ℕ)
      → d.state ≡ s
      → (rank s == rank done) ≡ false
      → state_function h s d xs ≡ next d₁ r₁
      → run_states h (suc n) d xs
        ≡ (if rank d₁.state == rank s then some (next d₁ r₁) else run_states h n d₁ r₁)
  unfolding run_states
  round_next n s d xs d₁ r₁ e nd p =
      let nd' : (rank d.state == rank done) ≡ false = ap (λ t. rank t == rank done) e ∙ nd in
      let p' : state_function h d.state d xs ≡ next d₁ r₁ =
        ap (λ t. state_function h t d xs) e ∙ p in
      rw (← e, nd', p') (ground arith)

  pub round_fail :
      (n : ℕ) (s : State) (d : Decoder V U) (xs : List ℕ) {x : Error} (d₁ : Decoder V U)
      (r₁ : List ℕ)
      → d.state ≡ s
      → (rank s == rank done) ≡ false
      → state_function h s d xs ≡ fail x d₁ r₁
      → run_states h (suc n) d xs ≡ some (fail x d₁ r₁)
  unfolding run_states
  round_fail n s d xs d₁ r₁ e nd p =
      let nd' : (rank d.state == rank done) ≡ false = ap (λ t. rank t == rank done) e ∙ nd in
      rw (nd', ap (λ t. state_function h t d xs) e ∙ p)

  pub process_of_done :
      (d : Decoder V U) (bytes : List ℕ) {d₁ : Decoder V U} {rest : List ℕ}
      → run_states h 10 d bytes ≡ some (next d₁ rest)
      → (rank d₁.state == rank done) ≡ true
      → process h d bytes ≡ some (success true (record d₁ { state = init }) rest)
  unfolding process finish_process
  process_of_done d bytes run e = rw (run, e)
