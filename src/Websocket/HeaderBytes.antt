-- ===== src/Websocket/HeaderBytes.antt =====
-- The first two bytes of a frame: the decoder reads back what the encoder packs.
use aws_c_http.Prelude.{
  List, ◌∷◌, ℕ, ◌<◌, ◌≡◌, refl, ap, ◌∙◌, inl, inr, Bool-cases, sym, Bool, true, false, ◌&&◌, same,
  ◌==◌, ==_iff, ltb, leb, if◌then◌else◌, bit_and, bit_or, arith,
}
use aws_c_http.Prelude.Bits.{flag, passes_below, passes_below_at}
use aws_c_http.Websocket.Frame.{Frame, value_for_2byte, value_for_8byte, min_2byte, max_2byte}
use aws_c_http.Websocket.Decoder.Types.{Decoder, next, extended_length, masking_key_check}
use aws_c_http.Websocket.Decoder.Steps.{read_opcode_byte, state_length_byte}
use aws_c_http.Websocket.Encoder.Steps.{pack_opcode_byte, pack_length_byte, shifted}

both : {a b : Bool} → (a && b) ≡ true → (a ≡ true) × (b ≡ true)
both {a = true} h = (refl, h)
both {a = false} h = absurd (ground (arith, h))

same-true : (a b : Bool) → same a b ≡ true → a ≡ b
same-true true true h = refl
same-true true false h = sym h
same-true false true h = h
same-true false false h = refl

ltb-true : (a b : ℕ) → ltb a b ≡ true → a < b
ltb-true a b h = ground (arith, h)

abbrev packed : Bool → Bool → Bool → Bool → ℕ → ℕ
packed a b c d op =
    bit_or (bit_or (bit_or (bit_or op (shifted a 7)) (shifted b 6)) (shifted c 5)) (shifted d 4)

abbrev unpacks : Bool → Bool → Bool → Bool → ℕ → Bool
unpacks a b c d op =
    let x = packed a b c d op in
    same (flag x 0x80) a
    && (same (flag x 0x40) b
        && (same (flag x 0x20) c && (same (flag x 0x10) d && (bit_and x 0x0f == op && ltb x 256))))

unpacks_table : (a b c d : Bool) → passes_below 16 (unpacks a b c d) ≡ true
unfolding passes_below
unpacks_table true true true true = refl
unpacks_table true true true false = refl
unpacks_table true true false true = refl
unpacks_table true true false false = refl
unpacks_table true false true true = refl
unpacks_table true false true false = refl
unpacks_table true false false true = refl
unpacks_table true false false false = refl
unpacks_table false true true true = refl
unpacks_table false true true false = refl
unpacks_table false true false true = refl
unpacks_table false true false false = refl
unpacks_table false false true true = refl
unpacks_table false false true false = refl
unpacks_table false false false true = refl
unpacks_table false false false false = refl

opcode_byte_masks :
    (f : Frame)
    → f.opcode < 16
    → (flag (pack_opcode_byte f) 0x80 ≡ f.fin)
      × (flag (pack_opcode_byte f) 0x40 ≡ f.rsv0)
      × (flag (pack_opcode_byte f) 0x20 ≡ f.rsv1)
      × (flag (pack_opcode_byte f) 0x10 ≡ f.rsv2)
      × (bit_and (pack_opcode_byte f) 0x0f ≡ f.opcode)
      × (pack_opcode_byte f < 256)
unfolding pack_opcode_byte
opcode_byte_masks f b =
    let h =
      passes_below_at 16 (unpacks f.fin f.rsv0 f.rsv1 f.rsv2) f.opcode
        (unpacks_table f.fin f.rsv0 f.rsv1 f.rsv2) b in
    let (h0, t0) = both h in
    let (h1, t1) = both t0 in
    let (h2, t2) = both t1 in
    let (h3, t3) = both t2 in
    let (h4, h5) = both t3 in
    (
      same-true _ _ h0,
      same-true _ _ h1,
      same-true _ _ h2,
      same-true _ _ h3,
      (==_iff _ _).0 h4,
      ltb-true _ _ h5,
    )

-- The fields of the first byte, in another frame.
abbrev pub with_first_byte : Frame → Frame → Frame
with_first_byte f g = record g {
  fin = f.fin;
  rsv0 = f.rsv0;
  rsv1 = f.rsv1;
  rsv2 = f.rsv2;
  opcode = f.opcode;
}

-- The decoder reads back from the first byte that the encoder packs the flags and the opcode, for an
-- opcode of four bits, and the byte is less than 256.
pub opcode_byte_fields :
    (f g : Frame)
    → f.opcode < 16
    → (read_opcode_byte g (pack_opcode_byte f) ≡ with_first_byte f g) × (pack_opcode_byte f < 256)
unfolding read_opcode_byte
opcode_byte_fields f g b =
    let (fin, rsv0, rsv1, rsv2, opcode, small) = opcode_byte_masks f b in
    (rw (fin, rsv0, rsv1, rsv2, opcode) refl, small)

pub first_opcode : (f : Frame) → f.opcode < 16 → bit_and (pack_opcode_byte f) 0x0f ≡ f.opcode
first_opcode f b = let (_, _, _, _, opcode, _) = opcode_byte_masks f b in opcode

abbrev unpacks_length : Bool → ℕ → Bool
unpacks_length m len =
    let x = bit_or (shifted m 7) len in same (flag x 0x80) m && (bit_and x 0x7f == len && ltb x 256)

unpacks_length_table : (m : Bool) → passes_below 128 (unpacks_length m) ≡ true
unfolding passes_below
unpacks_length_table true = refl
unpacks_length_table false = refl

-- The seven bits of the second byte.
abbrev pub short_length : Frame → ℕ
short_length f =
    if ltb f.payload_length min_2byte
    then f.payload_length
    else (if leb f.payload_length max_2byte then value_for_2byte else value_for_8byte)

short_length_bound : (f : Frame) → short_length f < 128
short_length_bound f = ground arith

length_byte_of : (f : Frame) → pack_length_byte f ≡ bit_or (shifted f.masked 7) (short_length f)
unfolding pack_length_byte
length_byte_of f = elim (Bool-cases (ltb f.payload_length min_2byte)) [
  | inl e ↦ rw e
  | inr e ↦ elim (Bool-cases (leb f.payload_length max_2byte)) [
    | inl e' ↦ rw e (rw e')
    | inr e' ↦ rw e (rw e')
  ]
]

length_byte_masks :
    (f : Frame)
    → (flag (pack_length_byte f) 0x80 ≡ f.masked)
      × (bit_and (pack_length_byte f) 0x7f ≡ short_length f)
      × (pack_length_byte f < 256)
length_byte_masks f =
    let h =
      passes_below_at 128 (unpacks_length f.masked) (short_length f) (unpacks_length_table f.masked)
        (short_length_bound f) in
    let (h0, t0) = both h in
    let (h1, h2) = both t0 in
    let e = length_byte_of f in
    (
      ap (λ x. flag x 0x80) e ∙ same-true _ _ h0,
      ap (λ x. bit_and x 0x7f) e ∙ (==_iff _ _).0 h1,
      rw e (ltb-true _ _ h2),
    )

-- From the second byte that the encoder packs, the decoder reads back the `masked` flag and the length
-- in seven bits, or its marker, and goes on to the extended length exactly where the length does not
-- fit seven bits; the byte is less than 256.
pub length_byte_fields :
    {V U : Type 0} (d : Decoder V U) (f : Frame) (bytes : List ℕ)
    → (state_length_byte d (pack_length_byte f ∷ bytes) ≡ (
        let frame = record (d.current_frame) {
          masked = f.masked;
          payload_length = short_length f;
        } in
        if leb min_2byte f.payload_length
        then next
            (record d { current_frame = frame; state_bytes_processed = 0; state = extended_length })
            bytes
        else next (record d { current_frame = frame; state = masking_key_check }) bytes))
      × (pack_length_byte f < 256)
unfolding state_length_byte
length_byte_fields d f bytes =
    let (marked, short, small) = length_byte_masks f in
    let longer : leb value_for_2byte (short_length f) ≡ leb min_2byte f.payload_length =
      ground arith in
    (rw (marked, short, longer) refl, small)
