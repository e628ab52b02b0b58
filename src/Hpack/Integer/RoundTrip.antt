-- ===== src/Hpack/Integer/RoundTrip.antt =====
-- What `aws_hpack_encode_integer` writes, `aws_hpack_decode_integer` reads back.
use aws_c_http.Prelude.{
  ℕ, ◌+◌, ◌-◌, ◌^◌, ◌≤◌, ◌<◌, ◌≡◌, ◌⊎◌, refl, ap, ◌∙◌, inl, inr, true, false, le_or_lt, List, [],
  ◌∷◌, ◌++◌, ltb, length, take, take-length, take-length_append, bit_and, bit_or, arith,
}
use mathlib.Core.List.{append_assoc}
use aws_c_http.Prelude.Words.{sub_u64}
use aws_c_http.Hpack.Integer.Codec.{
  Append, IsAppend, encoded, append_failed, encode_octets, encode_integer, masked_right_bits_u8,
  restore_len, zero_progress, complete, decode_integer,
}
use aws_c_http.Hpack.Integer.Prefix.{mask_bound, prefix_byte}
use aws_c_http.Hpack.Integer.Loop.{value_at, Reads, octets_read}

restored :
    (out : List ℕ) (b : ℕ) (code : List ℕ) → take (length out) ((out ++ (b ∷ [])) ++ code) ≡ out
restored out b code =
    ap (take (length out)) (append_assoc out (b ∷ []) code) ∙ take-length_append out (b ∷ code)

module _ (append : Append) (is_append : IsAppend append) where
  -- The first byte of an integer that fits in the prefix, and of one that does not.
  fits_read :
      (p n acc : ℕ) (b : ℕ) (rest : List ℕ)
      → bit_and b (masked_right_bits_u8 p) ≡ n
      → n < masked_right_bits_u8 p
      → decode_integer p zero_progress acc (b ∷ rest) ≡ complete n rest
  unfolding decode_integer
  fits_read p n acc b rest e h = rw e (ground arith)

  prefix_read :
      (p acc : ℕ) (b : ℕ) (rest : List ℕ)
      → bit_and b (masked_right_bits_u8 p) ≡ masked_right_bits_u8 p
      → decode_integer p zero_progress acc (b ∷ rest)
        ≡ decode_integer p (value_at 0) (masked_right_bits_u8 p) rest
  unfolding decode_integer
  prefix_read p acc b rest e = rw e (ground arith)

  short_written :
      (n bits p : ℕ) (out : List ℕ)
      → n < masked_right_bits_u8 p
      → (encode_integer append n bits p out ≡ append_failed out)
        ⊎ (encode_integer append n bits p out ≡ encoded (out ++ (bit_or bits n ∷ [])))
  unfolding encode_integer
  short_written n bits p out h =
      let l : ltb n (masked_right_bits_u8 p) ≡ true = ground arith in
      elim (is_append out (bit_or bits n)) [
        | inl e ↦ inl (rw l (rw e (ap append_failed (take-length out))))
        | inr e ↦ inr (rw l (rw e refl))
      ]

  long_written :
      (n bits p : ℕ) (out : List ℕ)
      → masked_right_bits_u8 p ≤ n
      → n < 2 ^ 64
      → (encode_integer append n bits p out ≡ append_failed out)
        ⊎ (encode_integer append n bits p out
            ≡ restore_len out (
                encode_octets append 10
                  (n - masked_right_bits_u8 p)
                  (out ++ (bit_or bits (masked_right_bits_u8 p) ∷ []))))
  unfolding encode_integer
  long_written n bits p out h b =
      let mask = masked_right_bits_u8 p in
      let l : ltb n mask ≡ false = ground arith in
      let d : sub_u64 n mask ≡ n - mask = ground arith in
      elim (is_append out (bit_or bits mask)) [
        | inl e ↦ inl (rw l (rw e (ap append_failed (take-length out))))
        | inr e ↦ inr (rw l (rw e (rw d refl)))
      ]

  -- The round trip, with the first byte of the code.
  pub integer_read :
      (n bits p acc : ℕ) (out rest : List ℕ)
      → p ≤ 8
      → bits < 256
      → bit_and bits (masked_right_bits_u8 p) ≡ 0
      → n < masked_right_bits_u8 p + 2 ^ 63
      → (encode_integer append n bits p out ≡ append_failed out)
        ⊎ ((x : ℕ) × (tail : List ℕ) × (x ≤ masked_right_bits_u8 p)
            × (encode_integer append n bits p out ≡ encoded (out ++ (bit_or bits x ∷ tail)))
            × (decode_integer p zero_progress acc ((bit_or bits x ∷ tail) ++ rest)
                ≡ complete n rest))
  unfolding Reads restore_len
  integer_read n bits p acc out rest hp hb z hn =
      let mask = masked_right_bits_u8 p in
      let mask256 = mask_bound p hp in
      elim (le_or_lt mask n) [
        | inr short ↦ elim (short_written n bits p out short) [
          | inl failed ↦ inl failed
          | inr written ↦
              let field = (prefix_byte p bits n hp hb z (omega arith)).0 in
              inr (n, [], omega arith, written, fits_read p n acc _ rest field short)
        ]
        | inl long ↦ elim (long_written n bits p out long (omega arith)) [
          | inl failed ↦ inl failed
          | inr written ↦
              let first = bit_or bits mask in
              let field = (prefix_byte p bits mask hp hb z (omega arith)).0 in
              elim (octets_read append is_append 8 10 p (n - mask) 0 mask (out ++ (first ∷ [])) rest
                (omega arith) (omega arith) (omega arith) (omega arith)) [
                  | inl (code, e) ↦ inl (
                      written ∙ ap (restore_len out) e ∙ ap append_failed (restored out first code))
                  | inr (code, e, read) ↦ inr (
                    mask,
                    code,
                    omega arith,
                    written
                        ∙ ap (restore_len out) e
                        ∙ ap encoded (append_assoc out (first ∷ []) code),
                    prefix_read p acc first (code ++ rest) field
                        ∙ read
                        ∙ ap (λ m. complete m rest) (omega arith),
                  )
                ]
        ]
      ]

  -- For an integer of less than the prefix's mask plus 2^63, whatever stands in the starting bits
  -- above the prefix: encoding fails for want of memory and leaves the output as it was, or it writes
  -- a code behind the output, and decoding the code, with any bytes behind it, gives the integer and
  -- leaves those bytes.
  pub integer_round_trip :
      (n bits p acc : ℕ) (out rest : List ℕ)
      → p ≤ 8
      → bits < 256
      → bit_and bits (masked_right_bits_u8 p) ≡ 0
      → n < masked_right_bits_u8 p + 2 ^ 63
      → (encode_integer append n bits p out ≡ append_failed out)
        ⊎ ((code : List ℕ) × (encode_integer append n bits p out ≡ encoded (out ++ code))
            × (decode_integer p zero_progress acc (code ++ rest) ≡ complete n rest))
  integer_round_trip n bits p acc out rest hp hb z hn =
      elim (integer_read n bits p acc out rest hp hb z hn) [
        | inl failed ↦ inl failed
        | inr (x, tail, small, written, read) ↦ inr (bit_or bits x ∷ tail, written, read)
      ]
