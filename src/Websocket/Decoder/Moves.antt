-- ===== src/Websocket/Decoder/Moves.antt =====
-- State functions that move on: they read a part of the frame to its end, and do the same whatever
-- bytes follow.
use aws_c_http.Prelude.{
  ℕ, ◌≤◌, ◌<◌, ◌≡◌, ap, ◌∙◌, false, List, [], ◌∷◌, ◌++◌, ◌==◌, arith, length, take, drop,
  take-append_le, drop-append_le, length-append, length-take,
}
use aws_c_http.Prelude.Words.{sub_u64, add_u64}
use aws_c_http.Websocket.Mask.{length-unmask}
use aws_c_http.Websocket.Frame.{unmask, max_8byte}
use aws_c_http.Websocket.Decoder.Types.{
  State, rank, Handlers, Decoder, next, init, opcode_byte, length_byte, extended_length,
  masking_key_check, masking_key, payload_check, payload, frame_end, done,
}
use aws_c_http.Websocket.Decoder.Steps.{
  state_init, state_opcode_byte, state_length_byte, state_extended_length, state_masking_key_check,
  state_masking_key, total_bytes, to_consume, fill_extended_length, fill_masking_key,
}
use aws_c_http.Websocket.Decoder.Process.{
  state_payload_check, state_payload, state_frame_end, state_function, take_payload,
  validate_payload, payload_to_consume,
}
use aws_c_http.Websocket.Decoder.Invariant.{
  IsValid, progress_at, to_consume_bounds, payload_to_consume_bounds,
}

to_consume-append :
    (wanted : ℕ) (xs ys : List ℕ)
    → wanted ≤ length xs
    → to_consume wanted (xs ++ ys) ≡ to_consume wanted xs
unfolding to_consume
to_consume-append wanted xs ys b = ground (arith, length-append xs ys)

payload_to_consume-append :
    (wanted : ℕ) (xs ys : List ℕ)
    → wanted ≤ length xs
    → payload_to_consume wanted (xs ++ ys) ≡ payload_to_consume wanted xs
unfolding payload_to_consume
payload_to_consume-append wanted xs ys b = ground (arith, length-append xs ys)

module _ {V U : Type 0} where
  fill_extended_length-append :
      (d : Decoder V U) (total n : ℕ) (xs ys : List ℕ) {d' : Decoder V U} {rest : List ℕ}
      → n ≤ length xs
      → fill_extended_length d total n xs ≡ next d' rest
      → fill_extended_length d total n (xs ++ ys) ≡ next d' (rest ++ ys)
  unfolding fill_extended_length
  fill_extended_length-append d total n xs ys b r =
      rw (take-append_le n xs ys b, drop-append_le n xs ys b) (ground arith)

  fill_masking_key-append :
      (d : Decoder V U) (n : ℕ) (xs ys : List ℕ) {d' : Decoder V U} {rest : List ℕ}
      → n ≤ length xs
      → fill_masking_key d n xs ≡ next d' rest
      → fill_masking_key d n (xs ++ ys) ≡ next d' (rest ++ ys)
  unfolding fill_masking_key
  fill_masking_key-append d n xs ys b r =
      rw (take-append_le n xs ys b, drop-append_le n xs ys b) (ground arith)

  -- Where the bytes do not suffice, all are taken and the decoder waits.
  extended_length_moves :
      (d : Decoder V U) (b : ℕ) (bs : List ℕ) {d' : Decoder V U} {rest : List ℕ}
      → d.state ≡ extended_length
      → d.state_bytes_processed < total_bytes d
      → state_extended_length d (b ∷ bs) ≡ next d' rest
      → (rank d'.state == rank d.state) ≡ false
      → sub_u64 (total_bytes d) d.state_bytes_processed ≤ length (b ∷ bs)
  unfolding state_extended_length
  extended_length_moves d b bs e p r m = ground arith

  masking_key_moves :
      (d : Decoder V U) (b : ℕ) (bs : List ℕ) {d' : Decoder V U} {rest : List ℕ}
      → d.state ≡ masking_key
      → d.state_bytes_processed < 4
      → state_masking_key d (b ∷ bs) ≡ next d' rest
      → (rank d'.state == rank d.state) ≡ false
      → sub_u64 4 d.state_bytes_processed ≤ length (b ∷ bs)
  unfolding state_masking_key
  masking_key_moves d b bs e p r m = ground arith

  extended_length-append :
      (d : Decoder V U) (x : ℕ) (xs ys : List ℕ) {d' : Decoder V U} {rest : List ℕ}
      → d.state ≡ extended_length
      → IsValid d
      → state_extended_length d (x ∷ xs) ≡ next d' rest
      → (rank d'.state == rank d.state) ≡ false
      → state_extended_length d (x ∷ (xs ++ ys)) ≡ next d' (rest ++ ys)
  unfolding state_extended_length
  extended_length-append d x xs ys e v r m =
      let wanted : ℕ = sub_u64 (total_bytes d) d.state_bytes_processed in
      let enough = extended_length_moves d x xs e (progress_at extended_length d e v) r m in
      ap (λ n. fill_extended_length d (total_bytes d) n (x ∷ (xs ++ ys)))
        (to_consume-append wanted (x ∷ xs) ys enough)
      ∙ fill_extended_length-append d (total_bytes d) (to_consume wanted (x ∷ xs)) (x ∷ xs) ys
          (to_consume_bounds wanted (x ∷ xs)).1 r

  masking_key-append :
      (d : Decoder V U) (x : ℕ) (xs ys : List ℕ) {d' : Decoder V U} {rest : List ℕ}
      → d.state ≡ masking_key
      → IsValid d
      → state_masking_key d (x ∷ xs) ≡ next d' rest
      → (rank d'.state == rank d.state) ≡ false
      → state_masking_key d (x ∷ (xs ++ ys)) ≡ next d' (rest ++ ys)
  unfolding state_masking_key
  masking_key-append d x xs ys e v r m =
      let wanted : ℕ = sub_u64 4 d.state_bytes_processed in
      let enough = masking_key_moves d x xs e (progress_at masking_key d e v) r m in
      ap (λ n. fill_masking_key d n (x ∷ (xs ++ ys))) (to_consume-append wanted (x ∷ xs) ys enough)
      ∙ fill_masking_key-append d (to_consume wanted (x ∷ xs)) (x ∷ xs) ys
          (to_consume_bounds wanted (x ∷ xs)).1 r

module _ {V U : Type 0} (h : Handlers V U) where
  validate_payload-append :
      (d : Decoder V U) (chunk xs ys : List ℕ) {d' : Decoder V U} {rest : List ℕ}
      → validate_payload h d chunk xs ≡ next d' rest
      → validate_payload h d chunk (xs ++ ys) ≡ next d' (rest ++ ys)
  unfolding validate_payload
  validate_payload-append d chunk xs ys r = ground arith

  take_payload-append :
      (d : Decoder V U) (n : ℕ) (xs ys : List ℕ) {d' : Decoder V U} {rest : List ℕ}
      → n ≤ length xs
      → take_payload h d n xs ≡ next d' rest
      → take_payload h d n (xs ++ ys) ≡ next d' (rest ++ ys)
  unfolding take_payload
  take_payload-append d n xs ys b r =
      rw (take-append_le n xs ys b, drop-append_le n xs ys b)
        (validate_payload-append d (unmask d.current_frame d.state_bytes_processed (take n xs))
          (drop n xs) ys r)

  take_payload_moves :
      (d : Decoder V U) (n : ℕ) (bytes : List ℕ) {d' : Decoder V U} {rest : List ℕ}
      → d.state ≡ payload
      → n ≤ length bytes
      → take_payload h d n bytes ≡ next d' rest
      → (rank d'.state == rank d.state) ≡ false
      → add_u64 d.state_bytes_processed n ≡ d.current_frame.payload_length
  unfolding take_payload
  take_payload_moves d n bytes e b r m = ground (
    arith,
    length-take n bytes,
    length-unmask d.current_frame d.state_bytes_processed (take n bytes),
  )

  payload_moves :
      (d : Decoder V U) (b : ℕ) (bs : List ℕ) {d' : Decoder V U} {rest : List ℕ}
      → d.state ≡ payload
      → d.state_bytes_processed < d.current_frame.payload_length
      → d.current_frame.payload_length ≤ max_8byte
      → state_payload h d (b ∷ bs) ≡ next d' rest
      → (rank d'.state == rank d.state) ≡ false
      → sub_u64 d.current_frame.payload_length d.state_bytes_processed ≤ length (b ∷ bs)
  unfolding state_payload
  payload_moves d b bs e p fits r m =
      let wanted : ℕ = sub_u64 d.current_frame.payload_length d.state_bytes_processed in
      let n : ℕ = payload_to_consume wanted (b ∷ bs) in
      let (low, high) = payload_to_consume_bounds wanted (b ∷ bs) in
      let whole = take_payload_moves d n (b ∷ bs) e high r m in ground arith

  payload-append :
      (d : Decoder V U) (x : ℕ) (xs ys : List ℕ) {d' : Decoder V U} {rest : List ℕ}
      → d.state ≡ payload
      → IsValid d
      → state_payload h d (x ∷ xs) ≡ next d' rest
      → (rank d'.state == rank d.state) ≡ false
      → state_payload h d (x ∷ (xs ++ ys)) ≡ next d' (rest ++ ys)
  unfolding state_payload
  payload-append d x xs ys e v r m =
      let wanted : ℕ = sub_u64 d.current_frame.payload_length d.state_bytes_processed in
      let enough = payload_moves d x xs e (progress_at payload d e v) v.fits r m in
      ap (λ n. take_payload h d n (x ∷ (xs ++ ys)))
        (payload_to_consume-append wanted (x ∷ xs) ys enough)
      ∙ take_payload-append d (payload_to_consume wanted (x ∷ xs)) (x ∷ xs) ys
          (payload_to_consume_bounds wanted (x ∷ xs)).1 r

  -- A state function that moves on does the same, whatever bytes follow.
  pub state_function-append :
      (s : State) (d : Decoder V U) (xs ys : List ℕ) {d' : Decoder V U} {rest : List ℕ}
      → d.state ≡ s
      → IsValid d
      → state_function h s d xs ≡ next d' rest
      → (rank d'.state == rank d.state) ≡ false
      → state_function h s d (xs ++ ys) ≡ next d' (rest ++ ys)
  unfolding state_function
  state_function-append init d xs ys e v r m = unfold state_init in ground arith
  state_function-append opcode_byte d [] ys e v r m =
      unfold state_opcode_byte in absurd (ground arith)
  state_function-append opcode_byte d (x ∷ xs) ys e v r m = unfold state_opcode_byte in ground arith
  state_function-append length_byte d [] ys e v r m =
      unfold state_length_byte in absurd (ground arith)
  state_function-append length_byte d (x ∷ xs) ys e v r m = unfold state_length_byte in ground arith
  state_function-append extended_length d [] ys e v r m =
      unfold state_extended_length in absurd (ground arith)
  state_function-append extended_length d (x ∷ xs) ys e v r m =
      extended_length-append d x xs ys e v r m
  state_function-append masking_key_check d xs ys e v r m =
      unfold state_masking_key_check in ground arith
  state_function-append masking_key d [] ys e v r m =
      unfold state_masking_key in absurd (ground arith)
  state_function-append masking_key d (x ∷ xs) ys e v r m = masking_key-append d x xs ys e v r m
  state_function-append payload_check d xs ys e v r m = unfold state_payload_check in ground arith
  state_function-append payload d [] ys e v r m = unfold state_payload in absurd (ground arith)
  state_function-append payload d (x ∷ xs) ys e v r m = payload-append d x xs ys e v r m
  state_function-append frame_end d xs ys e v r m = unfold state_frame_end in ground arith
  state_function-append done d xs ys e v r m = ground arith
