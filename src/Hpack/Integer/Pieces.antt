-- ===== src/Hpack/Integer/Pieces.antt =====
-- An integer that `aws_hpack_encode_integer` wrote, and that reaches `aws_hpack_decode_integer` in
-- pieces.
use aws_c_http.Prelude.{
  ℕ, ◌+◌, ◌^◌, ◌≤◌, ◌<◌, ◌≡◌, refl, sym, ap, ◌∙◌, inl, inr, List, ◌++◌, length, length-append, drop,
  drop_all-append, bit_and, arith,
}
use mathlib.Core.List.{append_assoc}
use aws_c_http.Hpack.Integer.Codec.{
  Append, IsAppend, encoded, encode_integer, masked_right_bits_u8, zero_progress, ProgressInteger,
  Decoded, ongoing, complete, overflow, decode_integer,
}
use aws_c_http.Hpack.Integer.RoundTrip.{integer_round_trip}
use aws_c_http.Hpack.Integer.Resume.{and_then, decode_integer_resumed}

-- A call on a part of the code that leaves bytes to come has not finished, and the next one has.
unfinished :
    (p n : ℕ) (o : Decoded) (ys rest : List ℕ)
    → 1 ≤ length ys
    → and_then p o (ys ++ rest) ≡ complete n rest
    → (progress : ProgressInteger) × (partial : ℕ) × (o ≡ ongoing progress partial)
      × (decode_integer p progress partial (ys ++ rest) ≡ complete n rest)
unfolding and_then
unfinished p n (ongoing progress partial) ys rest more e = (progress, partial, refl, e)
unfinished p n (overflow progress partial left) ys rest more e = absurd (ground (arith, e))
unfinished p n (complete m left) ys rest more e =
    let same : left ++ (ys ++ rest) ≡ rest = ground (arith, e) in
    absurd (omega (arith, ap length same, length-append left (ys ++ rest), length-append ys rest))

-- For a prefix of at most eight bits, starting bits above it, and a number of less than the prefix's mask
-- plus 2^63: the code that `aws_hpack_encode_integer` appends may
-- reach the decoder in two pieces. On a first piece that leaves bytes to come, the call on a reset
-- decoder asks for more, and from where it stopped the next call gives the number and the bytes behind
-- the code.
pub integer_in_pieces :
    (append : Append)
    → IsAppend append
    → (n bits p acc : ℕ) (out xs ys rest : List ℕ) → p ≤ 8
    → bits < 256
    → bit_and bits (masked_right_bits_u8 p) ≡ 0
    → n < masked_right_bits_u8 p + 2 ^ 63
    → encode_integer append n bits p out ≡ encoded (out ++ (xs ++ ys))
    → 1 ≤ length ys
    → (progress : ProgressInteger) × (partial : ℕ) × (decode_integer p zero_progress acc xs
        ≡ ongoing progress partial)
      × (decode_integer p progress partial (ys ++ rest) ≡ complete n rest)
integer_in_pieces append is_append n bits p acc out xs ys rest hp hb z hn written more =
    elim (integer_round_trip append is_append n bits p acc out rest hp hb z hn) [
      | inl failed ↦ absurd (ground (arith, sym written ∙ failed))
      | inr (code, same, read) ↦
          let joined : out ++ (xs ++ ys) ≡ out ++ code = ground (arith, sym written ∙ same) in
          let cut : xs ++ ys ≡ code =
            sym (drop_all-append out (xs ++ ys))
            ∙ ap (drop (length out)) joined
            ∙ drop_all-append out code in
          unfinished p n (decode_integer p zero_progress acc xs) ys rest more (
            sym (decode_integer_resumed p zero_progress acc xs (ys ++ rest))
            ∙ ap (decode_integer p zero_progress acc)
                (sym (append_assoc xs ys rest) ∙ ap (λ w. w ++ rest) cut)
            ∙ read)
    ]
