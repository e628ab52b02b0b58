-- ===== src/Websocket/Decoder/Invariant.antt =====
-- The well-formedness of a decoder of source/websocket_decoder.c, and that its loop keeps it.
use aws_c_http.Prelude.{
  ℕ, zero, suc, ◌+◌, ◌≤◌, ◌<◌, ◌≡◌, ◌⊎◌, inl, inr, Bool-cases, refl, sym, Bool, true, false, some,
  List, [], ◌∷◌, if◌then◌else◌, arith, length, length-write_at, length-take, All, All-drop, take,
  drop,
}
use aws_c_http.Prelude.Bits.{low_seven}
use aws_c_http.Prelude.Words.{IsByte, sub_u64}
use mathlib.Core.Path.{subst}
use aws_c_http.Websocket.Decoder.Termination.{
  finished, stalled, moved, first_round, process_success,
}
use aws_c_http.Websocket.Mask.{length-unmask}
use aws_c_http.Websocket.Frame.{max_8byte}
use aws_c_http.Websocket.Decoder.Types.{
  State, Handlers, Decoder, next, init, opcode_byte, length_byte, extended_length,
  masking_key_check, masking_key, payload_check, payload, frame_end, done, decoder_init,
}
use aws_c_http.Websocket.Decoder.Steps.{
  state_init, state_opcode_byte, state_length_byte, state_extended_length, state_masking_key_check,
  state_masking_key, total_bytes, to_consume, fill_extended_length, fill_masking_key,
}
use aws_c_http.Websocket.Decoder.Process.{
  state_payload_check, state_payload, state_frame_end, state_function, run_states, process, success,
  take_payload, payload_to_consume,
}

module _ {V U : Type 0} where
  -- In a state of several bytes, fewer bytes have been read than the part of the frame has.
  abbrev pub InProgress : State → Decoder V U → Type 0
  InProgress extended_length d = d.state_bytes_processed < total_bytes d
  InProgress masking_key d = d.state_bytes_processed < 4
  InProgress payload d = d.state_bytes_processed < d.current_frame.payload_length
  InProgress s d = Unit {0}

  pub record IsValid (d : Decoder V U) : Type 0 where
    pub cache : length d.state_cache ≡ 8
    pub key : length d.current_frame.masking_key ≡ 4
    pub fits : d.current_frame.payload_length ≤ max_8byte
    pub progress : InProgress d.state d

  pub decoder_init-IsValid : (v : V) (u : U) → IsValid (decoder_init v u)
  unfolding decoder_init
  decoder_init-IsValid v u = record { cache = refl; key = refl; fits = omega arith; progress = tt }

-- How many bytes a state of several bytes takes.
pub to_consume_bounds :
    (wanted : ℕ) (bytes : List ℕ)
    → (to_consume wanted bytes ≤ wanted) × (to_consume wanted bytes ≤ length bytes)
unfolding to_consume
to_consume_bounds wanted bytes = ground arith

pub payload_to_consume_bounds :
    (wanted : ℕ) (bytes : List ℕ)
    → (payload_to_consume wanted bytes ≤ wanted) × (payload_to_consume wanted bytes ≤ length bytes)
unfolding payload_to_consume
payload_to_consume_bounds wanted bytes = ground arith

module _ {V U : Type 0} where
  length_byte_IsValid :
      (d : Decoder V U) (byte : ℕ) (bytes : List ℕ) {d' : Decoder V U} {rest : List ℕ}
      → IsValid d
      → byte < 256
      → state_length_byte d (byte ∷ bytes) ≡ next d' rest
      → IsValid d'
  unfolding state_length_byte total_bytes
  length_byte_IsValid d byte bytes v b r = ground (arith, low_seven byte)

  fill_extended_length-IsValid :
      (d : Decoder V U) (n : ℕ) (bytes : List ℕ) {d' : Decoder V U} {rest : List ℕ}
      → d.state ≡ extended_length
      → IsValid d
      → d.state_bytes_processed + n ≤ total_bytes d
      → fill_extended_length d (total_bytes d) n bytes ≡ next d' rest
      → IsValid d' × (rest ≡ drop n bytes)
  unfolding fill_extended_length total_bytes
  fill_extended_length-IsValid d n bytes e v b r =
      ground (arith, length-write_at d.state_cache d.state_bytes_processed (take n bytes))

  fill_masking_key-IsValid :
      (d : Decoder V U) (n : ℕ) (bytes : List ℕ) {d' : Decoder V U} {rest : List ℕ}
      → d.state ≡ masking_key
      → IsValid d
      → d.state_bytes_processed + n ≤ 4
      → fill_masking_key d n bytes ≡ next d' rest
      → IsValid d' × (rest ≡ drop n bytes)
  unfolding fill_masking_key
  fill_masking_key-IsValid d n bytes e v b r =
      ground
        (arith, length-write_at d.current_frame.masking_key d.state_bytes_processed (take n bytes))

  pub progress_at : (s : State) (d : Decoder V U) → d.state ≡ s → IsValid d → InProgress s d
  progress_at s d e v = subst (λ t. InProgress t d) e v.progress

  extended_length_IsValid :
      (d : Decoder V U) (b : ℕ) (bs : List ℕ) {d' : Decoder V U} {rest : List ℕ}
      → d.state ≡ extended_length
      → IsValid d
      → All IsByte (b ∷ bs)
      → state_extended_length d (b ∷ bs) ≡ next d' rest
      → IsValid d' × All IsByte rest
  unfolding state_extended_length
  extended_length_IsValid d b bs e v a r =
      let wanted : ℕ = sub_u64 (total_bytes d) d.state_bytes_processed in
      let n : ℕ = to_consume wanted (b ∷ bs) in
      let (low, high) = to_consume_bounds wanted (b ∷ bs) in
      let p = progress_at extended_length d e v in
      let (v', left) = fill_extended_length-IsValid d n (b ∷ bs) e v (ground arith) r in
      (v', rw left (All-drop IsByte n (b ∷ bs) a))

  masking_key_IsValid :
      (d : Decoder V U) (b : ℕ) (bs : List ℕ) {d' : Decoder V U} {rest : List ℕ}
      → d.state ≡ masking_key
      → IsValid d
      → All IsByte (b ∷ bs)
      → state_masking_key d (b ∷ bs) ≡ next d' rest
      → IsValid d' × All IsByte rest
  unfolding state_masking_key
  masking_key_IsValid d b bs e v a r =
      let wanted : ℕ = sub_u64 4 d.state_bytes_processed in
      let n : ℕ = to_consume wanted (b ∷ bs) in
      let (low, high) = to_consume_bounds wanted (b ∷ bs) in
      let p = progress_at masking_key d e v in
      let (v', left) = fill_masking_key-IsValid d n (b ∷ bs) e v (ground arith) r in
      (v', rw left (All-drop IsByte n (b ∷ bs) a))

  finish_IsValid :
      (d : Decoder V U) (complete : Bool) (d' : Decoder V U)
      → IsValid d
      → d' ≡ (if complete then record d { state = init } else d)
      → IsValid d'
  finish_IsValid d true d' v e =
      subst IsValid (sym e) (record { cache = v.cache; key = v.key; fits = v.fits; progress = tt })
  finish_IsValid d false d' v e = subst IsValid (sym e) v

module _ {V U : Type 0} (h : Handlers V U) where
  take_payload-IsValid :
      (d : Decoder V U) (n : ℕ) (bytes : List ℕ) {d' : Decoder V U} {rest : List ℕ}
      → d.state ≡ payload
      → IsValid d
      → n ≤ length bytes
      → d.state_bytes_processed + n ≤ d.current_frame.payload_length
      → take_payload h d n bytes ≡ next d' rest
      → IsValid d' × (rest ≡ drop n bytes)
  unfolding take_payload
  take_payload-IsValid d n bytes e v b c r = ground (
    arith,
    length-take n bytes,
    length-unmask d.current_frame d.state_bytes_processed (take n bytes),
  )

  payload_IsValid :
      (d : Decoder V U) (b : ℕ) (bs : List ℕ) {d' : Decoder V U} {rest : List ℕ}
      → d.state ≡ payload
      → IsValid d
      → All IsByte (b ∷ bs)
      → state_payload h d (b ∷ bs) ≡ next d' rest
      → IsValid d' × All IsByte rest
  unfolding state_payload
  payload_IsValid d b bs e v a r =
      let wanted : ℕ = sub_u64 d.current_frame.payload_length d.state_bytes_processed in
      let n : ℕ = payload_to_consume wanted (b ∷ bs) in
      let (low, high) = payload_to_consume_bounds wanted (b ∷ bs) in
      let p = progress_at payload d e v in
      let (v', left) = take_payload-IsValid d n (b ∷ bs) e v high (ground arith) r in
      (v', rw left (All-drop IsByte n (b ∷ bs) a))

  -- A state function keeps a decoder well formed, and leaves bytes.
  pub state_function-IsValid :
      (s : State) (d : Decoder V U) (bytes : List ℕ) {d' : Decoder V U} {rest : List ℕ}
      → d.state ≡ s
      → IsValid d
      → All IsByte bytes
      → state_function h s d bytes ≡ next d' rest
      → IsValid d' × All IsByte rest
  unfolding state_function state_init state_opcode_byte state_masking_key_check state_payload_check
      state_frame_end
  state_function-IsValid init d bytes e v a r = ground arith
  state_function-IsValid opcode_byte d [] e v a r = ground arith
  state_function-IsValid opcode_byte d (b ∷ bs) e v a r = ground arith
  state_function-IsValid length_byte d [] e v a r = unfold state_length_byte in ground arith
  state_function-IsValid length_byte d (b ∷ bs) e v a r =
      (length_byte_IsValid d b bs v a.0 r, unfold state_length_byte in ground arith)
  state_function-IsValid extended_length d [] e v a r = unfold state_extended_length in ground arith
  state_function-IsValid extended_length d (b ∷ bs) e v a r = extended_length_IsValid d b bs e v a r
  state_function-IsValid masking_key_check d bs e v a r = ground arith
  state_function-IsValid masking_key d [] e v a r = unfold state_masking_key in ground arith
  state_function-IsValid masking_key d (b ∷ bs) e v a r = masking_key_IsValid d b bs e v a r
  state_function-IsValid payload_check d bs e v a r = ground arith
  state_function-IsValid payload d [] e v a r = unfold state_payload in ground arith
  state_function-IsValid payload d (b ∷ bs) e v a r = payload_IsValid d b bs e v a r
  state_function-IsValid frame_end d bs e v a r = ground arith
  state_function-IsValid done d bs e v a r = ground arith

  run_states-IsValid :
      (n : ℕ) (d : Decoder V U) (bytes : List ℕ) {d' : Decoder V U} {rest : List ℕ}
      → IsValid d
      → All IsByte bytes
      → run_states h n d bytes ≡ some (next d' rest)
      → IsValid d' × All IsByte rest
  unfolding run_states
  run_states-IsValid zero d bytes v a r = cc
  run_states-IsValid (suc n) d bytes v a r = elim (first_round h n d bytes r) [
    | finished e p q ↦ (subst IsValid p v, subst (All IsByte) q a)
    | stalled e p _ ↦ state_function-IsValid d.state d bytes refl v a p
    | moved d₁ bytes₁ e p _ q ↦
        let (v₁, a₁) = state_function-IsValid d.state d bytes refl v a p in
        run_states-IsValid n d₁ bytes₁ v₁ a₁ q
  ]

  -- A call that succeeds leaves a well-formed decoder, in the state `init` if the frame is complete.
  pub process-IsValid :
      (d : Decoder V U) (bytes : List ℕ) {complete : Bool} {d' : Decoder V U} {rest : List ℕ}
      → IsValid d
      → All IsByte bytes
      → process h d bytes ≡ some (success complete d' rest)
      → IsValid d' × All IsByte rest × ((complete ≡ false) ⊎ (d'.state ≡ init))
  process-IsValid d bytes {complete = complete} v a r =
      let (d₁, run, c, e) = process_success h d bytes r in
      let (v₁, a₁) = run_states-IsValid 10 d bytes v a run in
      (
        finish_IsValid d₁ _ _ v₁ e,
        a₁,
        elim (Bool-cases complete) [ inl p ↦ inr (ground arith) | inr p ↦ inl p ],
      )
