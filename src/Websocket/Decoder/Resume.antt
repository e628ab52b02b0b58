-- ===== src/Websocket/Decoder/Resume.antt =====
-- How a state function that has waited resumes.
use aws_c_http.Prelude.{
  ℕ, ◌+◌, ◌-◌, ◌≤◌, ◌<◌, ◌≡◌, sym, ap, ◌∙◌, inl, inr, true, List, [], ◌∷◌, ◌++◌, ◌==◌, le_or_lt,
  arith, length, take, drop, take-length_add, drop-length_add, write_at, take-length, length-take,
  drop-length,
}
use aws_c_http.Prelude.Words.{u64_mod, sub_u64, add_u64}
use mathlib.Core.List.{append-nil}
use mathlib.Core.Path.{ap₂}
use mathlib.Core.Logic.{◌≢◌}
use aws_c_http.Websocket.Mask.{length-unmask, unmask-append}
use aws_c_http.Websocket.Frame.{unmask, max_8byte}
use aws_c_http.Websocket.Decoder.Types.{
  rank, Handlers, Decoder, next, extended_length, masking_key, payload,
}
use aws_c_http.Websocket.Decoder.Steps.{
  state_extended_length, state_masking_key, total_bytes, to_consume, fill_extended_length,
  fill_masking_key,
}
use aws_c_http.Websocket.Decoder.Process.{
  state_payload, take_payload, validate_payload, payload_to_consume,
}
use aws_c_http.Websocket.Decoder.Stalls.{
  IsStreaming, visible, to_consume_resumed, payload_to_consume_resumed,
  fill_extended_length_resumed, fill_masking_key_resumed, validate_payload_waits,
  validate_payload_resumed,
}

payload_to_consume_enough :
    (wanted : ℕ) (xs : List ℕ) → wanted ≤ length xs → payload_to_consume wanted xs ≡ wanted
unfolding payload_to_consume
payload_to_consume_enough wanted xs b = ground arith

payload_to_consume_short :
    (wanted : ℕ) (xs : List ℕ) → length xs < wanted → payload_to_consume wanted xs ≡ length xs
unfolding payload_to_consume
payload_to_consume_short wanted xs b = ground arith

module _ {V U : Type 0} where
  -- The decoder after some of the bytes of an extended length, or of a masking key.
  abbrev with_cache : Decoder V U → List ℕ → Decoder V U
  with_cache d xs = record d {
    state_cache = write_at d.state_cache d.state_bytes_processed xs;
    state_bytes_processed = add_u64 d.state_bytes_processed (length xs);
  }

  abbrev with_key : Decoder V U → List ℕ → Decoder V U
  with_key d xs = record d {
    current_frame = record (d.current_frame) {
      masking_key = write_at d.current_frame.masking_key d.state_bytes_processed xs;
    };
    state_bytes_processed = add_u64 d.state_bytes_processed (length xs);
  }

  pub extended_length_waits :
      (d : Decoder V U) (x : ℕ) (xs : List ℕ) {d' : Decoder V U} {rest : List ℕ}
      → d.state ≡ extended_length
      → d.state_bytes_processed < total_bytes d
      → state_extended_length d (x ∷ xs) ≡ next d' rest
      → (rank d'.state == rank d.state) ≡ true
      → (length (x ∷ xs) < sub_u64 (total_bytes d) d.state_bytes_processed)
        × (d' ≡ with_cache d (x ∷ xs))
        × (rest ≡ [])
  unfolding state_extended_length
  extended_length_waits d x xs e p r stays =
      let whole = take-length (x ∷ xs) in
      let none_left = drop-length (x ∷ xs) in (ground arith, ground arith, ground arith)

  pub extended_length_resumed :
      (d : Decoder V U) (x : ℕ) (xs ys : List ℕ)
      → d.state ≡ extended_length
      → d.state_bytes_processed < total_bytes d
      → length (x ∷ xs) < sub_u64 (total_bytes d) d.state_bytes_processed
      → state_extended_length d (x ∷ xs) ≡ next (with_cache d (x ∷ xs)) []
      → state_extended_length d ((x ∷ xs) ++ ys) ≡ state_extended_length (with_cache d (x ∷ xs)) ys
  unfolding state_extended_length
  extended_length_resumed d x xs [] e p short r =
      ap (state_extended_length d) (append-nil (x ∷ xs)) ∙ r
  extended_length_resumed d x xs (y ∷ ys) e p short r =
      let d' : Decoder V U = with_cache d (x ∷ xs) in
      let wanted : ℕ = sub_u64 (total_bytes d) d.state_bytes_processed in
      let wanted' : ℕ = sub_u64 (total_bytes d) d'.state_bytes_processed in
      let n : ℕ = to_consume (wanted - length (x ∷ xs)) (y ∷ ys) in
      let left : wanted - length (x ∷ xs) ≡ wanted' = ground arith in
      ap (λ n. fill_extended_length d (total_bytes d) n ((x ∷ xs) ++ (y ∷ ys)))
        (to_consume_resumed wanted (x ∷ xs) (y ∷ ys) short)
      ∙ fill_extended_length_resumed d (total_bytes d) n (x ∷ xs) (y ∷ ys) (ground arith)
      ∙ ap (λ w. fill_extended_length d' (total_bytes d) (to_consume w (y ∷ ys)) (y ∷ ys)) left

  pub masking_key_waits :
      (d : Decoder V U) (x : ℕ) (xs : List ℕ) {d' : Decoder V U} {rest : List ℕ}
      → d.state ≡ masking_key
      → d.state_bytes_processed < 4
      → state_masking_key d (x ∷ xs) ≡ next d' rest
      → (rank d'.state == rank d.state) ≡ true
      → (length (x ∷ xs) < sub_u64 4 d.state_bytes_processed)
        × (d' ≡ with_key d (x ∷ xs))
        × (rest ≡ [])
  unfolding state_masking_key
  masking_key_waits d x xs e p r stays =
      let whole = take-length (x ∷ xs) in
      let none_left = drop-length (x ∷ xs) in (ground arith, ground arith, ground arith)

  pub masking_key_resumed :
      (d : Decoder V U) (x : ℕ) (xs ys : List ℕ)
      → d.state ≡ masking_key
      → d.state_bytes_processed < 4
      → length (x ∷ xs) < sub_u64 4 d.state_bytes_processed
      → state_masking_key d (x ∷ xs) ≡ next (with_key d (x ∷ xs)) []
      → state_masking_key d ((x ∷ xs) ++ ys) ≡ state_masking_key (with_key d (x ∷ xs)) ys
  unfolding state_masking_key
  masking_key_resumed d x xs [] e p short r = ap (state_masking_key d) (append-nil (x ∷ xs)) ∙ r
  masking_key_resumed d x xs (y ∷ ys) e p short r =
      let d' : Decoder V U = with_key d (x ∷ xs) in
      let wanted : ℕ = sub_u64 4 d.state_bytes_processed in
      let wanted' : ℕ = sub_u64 4 d'.state_bytes_processed in
      let n : ℕ = to_consume (wanted - length (x ∷ xs)) (y ∷ ys) in
      let left : wanted - length (x ∷ xs) ≡ wanted' = ground arith in
      ap (λ n. fill_masking_key d n ((x ∷ xs) ++ (y ∷ ys)))
        (to_consume_resumed wanted (x ∷ xs) (y ∷ ys) short)
      ∙ fill_masking_key_resumed d n (x ∷ xs) (y ∷ ys) (ground arith)
      ∙ ap (λ w. fill_masking_key d' (to_consume w (y ∷ ys)) (y ∷ ys)) left

module _ {V U : Type 0} (h : Handlers V U) where
  take_payload_waits :
      (d : Decoder V U) (n : ℕ) (bytes : List ℕ) {d' : Decoder V U} {rest : List ℕ}
      → n ≤ length bytes
      → take_payload h d n bytes ≡ next d' rest
      → d'.state ≡ payload
      → add_u64 d.state_bytes_processed n ≢ d.current_frame.payload_length
  unfolding take_payload
  take_payload_waits d n bytes b r stays = ground (
    arith,
    length-take n bytes,
    length-unmask d.current_frame d.state_bytes_processed (take n bytes),
  )

  payload_waits :
      (d : Decoder V U) (x : ℕ) (xs : List ℕ) {d' : Decoder V U} {rest : List ℕ}
      → d.state_bytes_processed < d.current_frame.payload_length
      → d.current_frame.payload_length ≤ max_8byte
      → state_payload h d (x ∷ xs) ≡ next d' rest
      → d'.state ≡ payload
      → (length (x ∷ xs) < sub_u64 d.current_frame.payload_length d.state_bytes_processed)
        × (take_payload h d (length (x ∷ xs)) (x ∷ xs) ≡ next d' rest)
  unfolding state_payload
  payload_waits d x xs {d'} {rest} p fits r stays =
      let wanted : ℕ = sub_u64 d.current_frame.payload_length d.state_bytes_processed in
      elim (le_or_lt wanted (length (x ∷ xs))) [
        | inl enough ↦
            let all : take_payload h d wanted (x ∷ xs) ≡ next d' rest =
              ap (λ n. take_payload h d n (x ∷ xs))
                (sym (payload_to_consume_enough wanted (x ∷ xs) enough))
              ∙ r in
            absurd (take_payload_waits d wanted (x ∷ xs) enough all stays (ground arith))
        | inr short ↦ (
          short,
          ap (λ n. take_payload h d n (x ∷ xs))
                (sym (payload_to_consume_short wanted (x ∷ xs) short))
              ∙ r,
        )
      ]

  take_payload_resumed :
      IsStreaming h
      → (d : Decoder V U) (n : ℕ) (xs ys : List ℕ) {d' : Decoder V U} {rest : List ℕ}
      → take_payload h d (length xs) xs ≡ next d' rest
      → d'.state ≡ payload
      → d.state_bytes_processed + length xs < u64_mod
      → (rest ≡ [])
        × (d'.state_bytes_processed ≡ d.state_bytes_processed + length xs)
        × (d'.current_frame ≡ d.current_frame)
        × (visible (take_payload h d (length xs + n) (xs ++ ys)) ≡ visible (take_payload h d' n ys))
  unfolding take_payload
  take_payload_resumed streaming d n xs ys {d'} {rest} r stays b =
      let r' : validate_payload h d (unmask d.current_frame d.state_bytes_processed xs) []
          ≡ next d' rest =
        rw (take-length xs, drop-length xs) at r in
      let (a, f, g) = validate_payload_waits h d _ [] r' stays in
      let whole =
        validate_payload_resumed h streaming d (unmask d.current_frame d.state_bytes_processed xs)
          (unmask d.current_frame (d.state_bytes_processed + length xs) (take n ys)) [] (drop n ys)
          r' stays in
      let moved_on : d'.state_bytes_processed ≡ d.state_bytes_processed + length xs =
        ground (arith, length-unmask d.current_frame d.state_bytes_processed xs) in
      let pieces =
        ap (unmask d.current_frame d.state_bytes_processed) (take-length_add n xs ys)
        ∙ unmask-append d.current_frame d.state_bytes_processed xs (take n ys) in
      let second = ap₂ (λ f i. unmask f i (take n ys)) (sym g) (sym moved_on) in
      (
        a,
        moved_on,
        g,
        ap₂ (λ c r. visible (validate_payload h d c r)) pieces (drop-length_add n xs ys)
            ∙ whole
            ∙ ap (λ c. visible (validate_payload h d' c (drop n ys))) second,
      )

  pub payload_resumed :
      IsStreaming h
      → (d : Decoder V U) (x : ℕ) (xs ys : List ℕ) {d' : Decoder V U} {rest : List ℕ}
      → d.state_bytes_processed < d.current_frame.payload_length
      → d.current_frame.payload_length ≤ max_8byte
      → state_payload h d (x ∷ xs) ≡ next d' rest
      → d'.state ≡ payload
      → (rest ≡ [])
        × (visible (state_payload h d ((x ∷ xs) ++ ys)) ≡ visible (state_payload h d' ys))
  unfolding state_payload
  payload_resumed streaming d x xs [] {d'} {rest} p fits r stays =
      let (short, q) = payload_waits d x xs p fits r stays in
      let (left, _, _, _) = take_payload_resumed streaming d 0 (x ∷ xs) [] q stays (ground arith) in
      (left, ap visible (ap (state_payload h d) (append-nil (x ∷ xs)) ∙ r ∙ ap (next d') left))
  payload_resumed streaming d x xs (y ∷ ys) {d'} {rest} p fits r stays =
      let (short, q) = payload_waits d x xs p fits r stays in
      let wanted : ℕ = sub_u64 d.current_frame.payload_length d.state_bytes_processed in
      let n : ℕ = payload_to_consume (wanted - length (x ∷ xs)) (y ∷ ys) in
      let (left, a, f, whole) =
        take_payload_resumed streaming d n (x ∷ xs) (y ∷ ys) q stays (ground arith) in
      let wanted' : wanted - length (x ∷ xs)
          ≡ sub_u64 d'.current_frame.payload_length d'.state_bytes_processed =
        ground arith in
      (
        left,
        ap (λ k. visible (take_payload h d k ((x ∷ xs) ++ (y ∷ ys))))
              (payload_to_consume_resumed wanted (x ∷ xs) (y ∷ ys) short)
            ∙ whole
            ∙ ap (λ w. visible (take_payload h d' (payload_to_consume w (y ∷ ys)) (y ∷ ys)))
                wanted',
      )
