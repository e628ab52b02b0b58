-- ===== src/Websocket/HeaderRoundTrip.antt =====
-- The header of a frame that source/websocket_encoder.c writes, in the states of
-- source/websocket_decoder.c.
use aws_c_http.Prelude.{
  ◌%◌, ◌^◌, ℕ, ◌≤◌, ◌≡◌, refl, sym, ap, ◌∙◌, inl, inr, true, false, Bool-cases, some, List, [], ◌∷◌,
  ◌++◌, if◌then◌else◌, length, length-append, take, drop, take_all-append, drop_all-append,
  write_at, leb, ltb, ◌==◌, arith,
}
use aws_c_http.Prelude.Words.{
  read_be, add_u64, sub_u64, be_bytes, read_be-be_bytes_two, read_be-be_bytes_eight,
}
use aws_c_http.Websocket.Frame.{Frame, min_2byte, max_2byte, max_8byte}
use aws_c_http.Websocket.Encoder.Steps.{network_bytes}
use aws_c_http.Websocket.Decoder.Types.{
  State, rank, Handlers, Decoder, next, extended_length, masking_key_check, masking_key,
  payload_check, done,
}
use aws_c_http.Websocket.Decoder.Steps.{
  state_extended_length, state_masking_key, total_bytes, to_consume, fill_masking_key,
  finish_extended_length, fill_extended_length, is_acceptable_length,
}
use aws_c_http.Websocket.Decoder.Process.{state_function, process, run_states, finish_process}
use aws_c_http.Websocket.Decoder.Termination.{run_states_enough, rises_strictly, round_next}
use aws_c_http.Websocket.HeaderBytes.{short_length}
use mathlib.Core.Option

module _ {A : Type 0} where
  take-write_at :
      (xs src : List A) → length src ≤ length xs → take (length src) (write_at xs 0 src) ≡ src
  take-write_at [] [] h = refl
  take-write_at [] (y ∷ ys) h = absurd (omega arith)
  take-write_at (x ∷ xs) [] h = refl
  take-write_at (x ∷ xs) (y ∷ ys) h = ap (◌∷◌ y) (take-write_at xs ys (omega arith))

  write_at_all : (xs src : List A) → length xs ≡ length src → write_at xs 0 src ≡ src
  write_at_all [] [] h = refl
  write_at_all [] (y ∷ ys) h = absurd (omega arith)
  write_at_all (x ∷ xs) [] h = absurd (omega arith)
  write_at_all (x ∷ xs) (y ∷ ys) h = ap (◌∷◌ y) (write_at_all xs ys (omega arith))

to_consume_all :
    (n : ℕ) (xs ys : List ℕ) → n ≡ length xs → n ≤ 8 → to_consume (sub_u64 n 0) (xs ++ ys) ≡ n
unfolding to_consume
to_consume_all n xs ys e small = ground (arith, length-append xs ys)

module _ {V U : Type 0} where
  -- The decoder in front of an extended length, with the frame read so far, and behind it.
  abbrev pub before_length : Decoder V U → Frame → Decoder V U
  before_length d fr = record d {
    current_frame = fr;
    state_bytes_processed = 0;
    state = extended_length;
  }

  abbrev pub behind_length : Decoder V U → Frame → List ℕ → ℕ → Decoder V U
  behind_length d fr nb v = record d {
    state_cache = write_at d.state_cache 0 nb;
    current_frame = record fr { payload_length = v };
    state_bytes_processed = length nb;
    state = masking_key_check;
  }

  fill_length :
      (d : Decoder V U) (fr : Frame) (nb bytes : List ℕ)
      → length nb ≤ 8
      → length d.state_cache ≡ 8
      → is_acceptable_length (length nb) (read_be 0 nb) ≡ true
      → fill_extended_length (before_length d fr) (length nb) (length nb) (nb ++ bytes)
        ≡ next (behind_length d fr nb (read_be 0 nb)) bytes
  unfolding fill_extended_length finish_extended_length
  fill_length d fr nb bytes small cache fine =
      let sum : add_u64 0 (length nb) ≡ length nb = omega arith in
      let full : ltb (length nb) (length nb) ≡ false = ground arith in
      let kept = take-write_at d.state_cache nb (omega arith) in
      rw (take_all-append nb bytes, drop_all-append nb bytes, sum, full, kept, fine) refl

  -- `s_state_extended_length`, given all the bytes of an acceptable length.
  extended_read :
      (d : Decoder V U) (fr : Frame) (nb bytes : List ℕ)
      → total_bytes (before_length d fr) ≡ length nb
      → 1 ≤ length nb
      → length nb ≤ 8
      → length d.state_cache ≡ 8
      → is_acceptable_length (length nb) (read_be 0 nb) ≡ true
      → state_extended_length (before_length d fr) (nb ++ bytes)
        ≡ next (behind_length d fr nb (read_be 0 nb)) bytes
  unfolding state_extended_length
  extended_read d fr [] bytes total some_bytes small cache fine = absurd (omega arith)
  extended_read d fr (b ∷ nb) bytes total some_bytes small cache fine =
      let xs : List ℕ = b ∷ (nb ++ bytes) in
      let wanted = to_consume_all (length (b ∷ nb)) (b ∷ nb) bytes refl small in
      ap (λ t. fill_extended_length (before_length d fr) t (to_consume (sub_u64 t 0) xs) xs) total
      ∙ ap (λ n. fill_extended_length (before_length d fr) (length (b ∷ nb)) n xs) wanted
      ∙ fill_length d fr (b ∷ nb) bytes small cache fine

  -- The length that the encoder writes behind the second byte.
  pub length_read :
      (d : Decoder V U) (fr f : Frame) (bytes : List ℕ)
      → fr.payload_length ≡ short_length f
      → min_2byte ≤ f.payload_length
      → f.payload_length ≤ max_8byte
      → length d.state_cache ≡ 8
      → state_extended_length (before_length d fr) (network_bytes f ++ bytes)
        ≡ next (behind_length d fr (network_bytes f) f.payload_length) bytes
  unfolding network_bytes total_bytes is_acceptable_length
  length_read d fr f bytes short low high cache =
      elim (Bool-cases (leb f.payload_length max_2byte)) [
        | inl two ↦
            let below : f.payload_length ≤ max_2byte = ground (arith, two) in
            let nb : List ℕ = be_bytes 2 (f.payload_length % 2 ^ 16) in
            let value : read_be 0 nb ≡ f.payload_length =
              read_be-be_bytes_two (f.payload_length % 2 ^ 16) ∙ omega arith in
            rw two (
              extended_read d fr nb bytes (ground arith) (omega arith) (omega arith) cache
                (rw value (ground arith))
              ∙ ap (λ v. next (behind_length d fr nb v) bytes) value)
        | inr eight ↦
            let nb : List ℕ = be_bytes 8 f.payload_length in
            let value : read_be 0 nb ≡ f.payload_length =
              read_be-be_bytes_eight f.payload_length ∙ omega arith in
            rw eight (
              extended_read d fr nb bytes (ground arith) (omega arith) (omega arith) cache
                (rw value (ground arith))
              ∙ ap (λ v. next (behind_length d fr nb v) bytes) value)
      ]

  -- `s_state_masking_key`, given all the bytes of the key.
  pub key_read :
      (d : Decoder V U) (fr : Frame) (key bytes : List ℕ)
      → length key ≡ 4
      → length fr.masking_key ≡ 4
      → state_masking_key
          (record d { current_frame = fr; state_bytes_processed = 0; state = masking_key })
          (key ++ bytes)
        ≡ next
            (record d {
              current_frame = record fr { masking_key = key };
              state_bytes_processed = 4;
              state = payload_check;
            })
            bytes
  unfolding state_masking_key fill_masking_key
  key_read d fr [] bytes four wide = absurd (omega arith)
  key_read d fr (k ∷ key) bytes four wide =
      let xs : List ℕ = k ∷ (key ++ bytes) in
      let wanted = to_consume_all 4 (k ∷ key) bytes (sym four) (omega arith) in
      let taken : take 4 xs ≡ k ∷ key =
        ap (λ n. take n xs) (sym four) ∙ take_all-append (k ∷ key) bytes in
      let dropped : drop 4 xs ≡ bytes =
        ap (λ n. drop n xs) (sym four) ∙ drop_all-append (k ∷ key) bytes in
      let kept : write_at fr.masking_key 0 (k ∷ key) ≡ k ∷ key =
        write_at_all fr.masking_key (k ∷ key) (omega arith) in
      ap
        (λ n.
          fill_masking_key
            (record d { current_frame = fr; state_bytes_processed = 0; state = masking_key }) n xs)
        wanted
      ∙ rw (taken, dropped, kept) refl

module _ {V U : Type 0} (h : Handlers V U) where
  -- A state function that moves on leaves the call what it is from the next state on.
  pub process_moved :
      (s : State) (d : Decoder V U) (xs : List ℕ) (d₁ : Decoder V U) (r₁ : List ℕ)
      → d.state ≡ s
      → (rank s == rank done) ≡ false
      → (rank d₁.state == rank s) ≡ false
      → state_function h s d xs ≡ next d₁ r₁
      → process h d xs ≡ process h d₁ r₁
  unfolding process
  process_moved s d xs d₁ r₁ e nd m p =
      let p' : state_function h d.state d xs ≡ next d₁ r₁ =
        ap (λ t. state_function h t d xs) e ∙ p in
      let m' : (rank d₁.state == rank d.state) ≡ false = ap (λ t. rank d₁.state == rank t) e ∙ m in
      let (o, a, b) =
        run_states_enough h 9 10 d₁ r₁ (rises_strictly h 9 d xs d₁ r₁ p' m' (omega arith))
          (omega arith) in
      ap (Option.map finish_process) (
        round_next h 9 s d xs d₁ r₁ e nd p
        ∙ ap (λ t. if t then some (next d₁ r₁) else run_states h 9 d₁ r₁) m
        ∙ a
        ∙ sym b)
