-- ===== src/Websocket/Decoder/Stalls.antt =====
-- State functions that wait for more bytes: what they have read is kept, and they resume there.
use aws_c_http.Prelude.{
  ℕ, ◌+◌, ◌-◌, ◌<◌, ◌≡◌, sym, if◌then◌else◌, ◌&&◌, ◌∙◌, inl, inr, Bool, true, false, List, ◌++◌,
  Bool-cases, arith, length, take, take-length_add, drop-length_add, write_at, write_at-write_at,
  length-append,
}
use aws_c_http.Prelude.Words.{u64_mod, add_u64}
use aws_c_http.Websocket.Frame.{is_data_frame}
use aws_c_http.Websocket.Decoder.Types.{
  Handlers, Decoder, Outcome, next, fail, Error, protocol_error, payload,
}
use aws_c_http.Websocket.Decoder.Steps.{to_consume, fill_extended_length, fill_masking_key}
use aws_c_http.Websocket.Decoder.Process.{validate_payload, deliver_payload, payload_to_consume}

-- What the theorems ask of the validator and of the user: a piece that they accept may be cut off
-- the front of what they are given.
pub record IsStreaming {V U : Type 0} (h : Handlers V U) : Type 0 where
  pub update_append :
      (v : V) (xs ys : List ℕ)
      → (h.utf8_update v xs).1 ≡ false
      → h.utf8_update v (xs ++ ys) ≡ h.utf8_update (h.utf8_update v xs).0 ys
  pub payload_append :
      (u : U) (xs ys : List ℕ)
      → (h.on_payload xs u).1 ≡ false
      → h.on_payload (xs ++ ys) u ≡ h.on_payload ys (h.on_payload xs u).0

pub to_consume_resumed :
    (wanted : ℕ) (xs ys : List ℕ)
    → length xs < wanted
    → to_consume wanted (xs ++ ys) ≡ length xs + to_consume (wanted - length xs) ys
unfolding to_consume
to_consume_resumed wanted xs ys b = ground (arith, length-append xs ys)

pub payload_to_consume_resumed :
    (wanted : ℕ) (xs ys : List ℕ)
    → length xs < wanted
    → payload_to_consume wanted (xs ++ ys) ≡ length xs + payload_to_consume (wanted - length xs) ys
unfolding payload_to_consume
payload_to_consume_resumed wanted xs ys b = ground (arith, length-append xs ys)

-- Bytes copied in two pieces land where they land in one.
copy_resumed :
    (p n : ℕ) (dst xs ys : List ℕ)
    → p + length xs < u64_mod
    → write_at dst p (xs ++ take n ys)
      ≡ write_at (write_at dst p xs) (add_u64 p (length xs)) (take n ys)
copy_resumed p n dst xs ys b =
    let e : add_u64 p (length xs) ≡ p + length xs = omega arith in
    rw e (sym (write_at-write_at dst p xs (take n ys)))

add_u64_assoc : (p a b : ℕ) → add_u64 p (a + b) ≡ add_u64 (add_u64 p a) b
add_u64_assoc p a b = omega arith

module _ {V U : Type 0} where
  pub fill_extended_length_resumed :
      (d : Decoder V U) (total n : ℕ) (xs ys : List ℕ)
      → d.state_bytes_processed + length xs < u64_mod
      → fill_extended_length d total (length xs + n) (xs ++ ys)
        ≡ fill_extended_length
            (record d {
              state_cache = write_at d.state_cache d.state_bytes_processed xs;
              state_bytes_processed = add_u64 d.state_bytes_processed (length xs);
            })
            total
            n
            ys
  unfolding fill_extended_length
  fill_extended_length_resumed d total n xs ys b = rw (
    take-length_add n xs ys,
    drop-length_add n xs ys,
    add_u64_assoc d.state_bytes_processed (length xs) n,
    copy_resumed d.state_bytes_processed n d.state_cache xs ys b,
  )

  pub fill_masking_key_resumed :
      (d : Decoder V U) (n : ℕ) (xs ys : List ℕ)
      → d.state_bytes_processed + length xs < u64_mod
      → fill_masking_key d (length xs + n) (xs ++ ys)
        ≡ fill_masking_key
            (record d {
              current_frame = record (d.current_frame) {
                masking_key = write_at d.current_frame.masking_key d.state_bytes_processed xs;
              };
              state_bytes_processed = add_u64 d.state_bytes_processed (length xs);
            })
            n
            ys
  unfolding fill_masking_key
  fill_masking_key_resumed d n xs ys b = rw (
    take-length_add n xs ys,
    drop-length_add n xs ys,
    add_u64_assoc d.state_bytes_processed (length xs) n,
    copy_resumed d.state_bytes_processed n d.current_frame.masking_key xs ys b,
  )

-- What a caller may rely on: all of a success, and of a failure the error and the bytes left. A decoder
-- that has failed is of no use any more.
pub data Visible (V U : Type 0) : Type 0 where
  accepted : Decoder V U → List ℕ → Visible V U
  rejected : Error → List ℕ → Visible V U

abbrev pub visible : {V U : Type 0} → Outcome V U → Visible V U
visible (next d bytes) = accepted d bytes
visible (fail e d bytes) = rejected e bytes

module _ {V U : Type 0} (h : Handlers V U) where
  -- The decoder after a chunk that does not complete the payload.
  abbrev delivered : Decoder V U → List ℕ → Decoder V U
  delivered d chunk = record d {
    user_data = (h.on_payload chunk d.user_data).0;
    state_bytes_processed = add_u64 d.state_bytes_processed (length chunk);
  }

  deliver_payload_waits :
      (d : Decoder V U) (chunk bytes : List ℕ) {d' : Decoder V U} {left : List ℕ}
      → deliver_payload h d chunk bytes ≡ next d' left
      → d'.state ≡ payload
      → ((h.on_payload chunk d.user_data).1 ≡ false) × (d' ≡ delivered d chunk) × (left ≡ bytes)
  unfolding deliver_payload
  deliver_payload_waits d chunk bytes r stays = (ground arith, ground arith, ground arith)

  deliver_payload_resumed :
      IsStreaming h
      → (d : Decoder V U) (chunk more bytes : List ℕ) → (h.on_payload chunk d.user_data).1 ≡ false
      → visible (deliver_payload h d (chunk ++ more) bytes)
        ≡ visible (deliver_payload h (delivered d chunk) more bytes)
  unfolding deliver_payload
  deliver_payload_resumed streaming d chunk more bytes r =
      rw
        (
          streaming.payload_append d.user_data chunk more r,
          length-append chunk more,
          add_u64_assoc d.state_bytes_processed (length chunk) (length more),
        )
        (ground arith)

  pub validate_payload_waits :
      (d : Decoder V U) (chunk bytes : List ℕ) {d' : Decoder V U} {left : List ℕ}
      → validate_payload h d chunk bytes ≡ next d' left
      → d'.state ≡ payload
      → (left ≡ bytes)
        × (d'.state_bytes_processed ≡ add_u64 d.state_bytes_processed (length chunk))
        × (d'.current_frame ≡ d.current_frame)
  unfolding validate_payload
  validate_payload_waits d chunk bytes r stays = (ground arith, ground arith, ground arith)

  -- The two ways of `validate_payload`.
  abbrev is_text : Decoder V U → Bool
  is_text d = d.processing_text_message && is_data_frame d.current_frame.opcode

  abbrev validated : Decoder V U → V → Decoder V U
  validated d v = record d { text_message_validator = v }

  validate_text :
      (d : Decoder V U) (chunk bytes : List ℕ)
      → is_text d ≡ true
      → validate_payload h d chunk bytes ≡ (
          let (v, err) = h.utf8_update d.text_message_validator chunk in
          if err
          then fail protocol_error (validated d v) bytes
          else deliver_payload h (validated d v) chunk bytes)
  unfolding validate_payload
  validate_text d chunk bytes text = rw text

  validate_other :
      (d : Decoder V U) (chunk bytes : List ℕ)
      → is_text d ≡ false
      → validate_payload h d chunk bytes ≡ deliver_payload h d chunk bytes
  unfolding validate_payload
  validate_other d chunk bytes other = rw other

  validate_text_accepts :
      (d : Decoder V U) (chunk bytes : List ℕ) {d' : Decoder V U} {left : List ℕ}
      → is_text d ≡ true
      → validate_payload h d chunk bytes ≡ next d' left
      → ((h.utf8_update d.text_message_validator chunk).1 ≡ false)
        × (deliver_payload h
              (validated d (h.utf8_update d.text_message_validator chunk).0)
              chunk
              bytes
            ≡ next d' left)
  validate_text_accepts d chunk bytes text r =
      let e = validate_text d chunk bytes text in (ground arith, ground arith)

  validate_text_resumed :
      IsStreaming h
      → (d : Decoder V U) (chunk more rest : List ℕ) → is_text d ≡ true
      → (h.utf8_update d.text_message_validator chunk).1 ≡ false
      → (h.on_payload chunk d.user_data).1 ≡ false
      → visible (validate_payload h d (chunk ++ more) rest)
        ≡ visible (
            validate_payload h
              (delivered (validated d (h.utf8_update d.text_message_validator chunk).0) chunk)
              more
              rest)
  validate_text_resumed streaming d chunk more rest text ok ok' =
      let v : V = (h.utf8_update d.text_message_validator chunk).0 in
      let w : V = (h.utf8_update v more).0 in
      let whole = deliver_payload_resumed streaming (validated d w) chunk more rest ok' in
      rw
        (
          validate_text d (chunk ++ more) rest text,
          validate_text (delivered (validated d v) chunk) more rest text,
          streaming.update_append d.text_message_validator chunk more ok,
        )
        (elim (Bool-cases (h.utf8_update v more).1) [ inl bad ↦ rw bad | inr good ↦ rw good whole ])

  pub validate_payload_resumed :
      IsStreaming h
      → (d : Decoder V U) (chunk more bytes rest : List ℕ) {d' : Decoder V U} {left : List ℕ}
      → validate_payload h d chunk bytes ≡ next d' left
      → d'.state ≡ payload
      → visible (validate_payload h d (chunk ++ more) rest)
        ≡ visible (validate_payload h d' more rest)
  validate_payload_resumed streaming d chunk more bytes rest r stays =
      elim (Bool-cases (is_text d)) [
        | inl text ↦
            let (ok, r') = validate_text_accepts d chunk bytes text r in
            let (ok', e, _) = deliver_payload_waits _ chunk bytes r' stays in
            rw e (validate_text_resumed streaming d chunk more rest text ok ok')
        | inr other ↦
            let (ok, e, _) =
              deliver_payload_waits d chunk bytes (sym (validate_other d chunk bytes other) ∙ r)
                stays in
            rw
              (
                e,
                validate_other d (chunk ++ more) rest other,
                validate_other (delivered d chunk) more rest other,
              )
              (deliver_payload_resumed streaming d chunk more rest ok)
      ]
