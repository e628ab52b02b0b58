-- ===== src/Hpack/Integer/Prefix.antt =====
-- The first byte of an integer: the starting bits and the prefix do not meet.
use aws_c_http.Prelude.{
  ℕ, suc, ◌≤◌, ◌<◌, ◌≡◌, refl, Bool, true, not, ◌&&◌, ◌||◌, ltb, ◌==◌, bit_and, bit_or, arith,
}
use aws_c_http.Prelude.Bits.{passes_below, passes_below_at}
use aws_c_http.Hpack.Integer.Codec.{masked_right_bits_u8}

abbrev keeps : ℕ → ℕ → ℕ → Bool
keeps p bits x = bit_and (bit_or bits x) (masked_right_bits_u8 p) == x && ltb (bit_or bits x) 256

abbrev keeps_below : ℕ → ℕ → Bool
keeps_below p bits =
    not (bit_and bits (masked_right_bits_u8 p) == 0)
    || passes_below (suc (masked_right_bits_u8 p)) (keeps p bits)

prefix_table : passes_below 9 (λ p. passes_below 256 (keeps_below p)) ≡ true
unfolding passes_below masked_right_bits_u8
prefix_table = refl

pub mask_bound : (p : ℕ) → p ≤ 8 → masked_right_bits_u8 p < 256
unfolding masked_right_bits_u8
mask_bound p h = omega arith

pub prefix_byte :
    (p bits x : ℕ)
    → p ≤ 8
    → bits < 256
    → bit_and bits (masked_right_bits_u8 p) ≡ 0
    → x ≤ masked_right_bits_u8 p
    → (bit_and (bit_or bits x) (masked_right_bits_u8 p) ≡ x) × (bit_or bits x < 256)
prefix_byte p bits x hp hb z hx =
    let row =
      passes_below_at 9 (λ q. passes_below 256 (keeps_below q)) p prefix_table (omega arith) in
    let cell = passes_below_at 256 (keeps_below p) bits row hb in
    let h : passes_below (suc (masked_right_bits_u8 p)) (keeps p bits) ≡ true = ground arith in
    let k = passes_below_at (suc (masked_right_bits_u8 p)) (keeps p bits) x h (omega arith) in
    (ground arith, ground arith)
