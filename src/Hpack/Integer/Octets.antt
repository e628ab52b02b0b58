-- ===== src/Hpack/Integer/Octets.antt =====
-- One round of the two loops: the octet written, and the octet read back.
use aws_c_http.Prelude.{ℕ, ◌+◌, ◌*◌, ◌/◌, ◌%◌, ◌<◌, ◌≡◌, ap, ◌∙◌, ◌==◌, bit_and, arith}
use aws_c_http.Prelude.Bits.{low_seven, bit_seven}
use native.Mathlib.Nat.{add-mul, mul_assoc, mul_comm}
use aws_c_http.Hpack.Integer.Codec.{this_octet}

octet_byte : (n : ℕ) → this_octet n < 256
unfolding this_octet
octet_byte n = ground arith

pub octet_value : (n : ℕ) → bit_and (this_octet n) 127 ≡ n % 128
unfolding this_octet
octet_value n = low_seven _ (octet_byte n) ∙ ground arith

pub octet_continues : (n : ℕ) → (bit_and (this_octet n) 128 == 0) ≡ (n / 128 == 0)
unfolding this_octet
octet_continues n = ground (arith, bit_seven _ (octet_byte n))

-- A number is its lowest seven bits and the rest of it.
pub split_seven : (n w : ℕ) → n * w ≡ n % 128 * w + n / 128 * (w * 128)
split_seven n w =
    let e : n ≡ n % 128 + n / 128 * 128 = omega arith in
    ap (λ m. m * w) e
    ∙ add-mul (n % 128) (n / 128 * 128) w
    ∙ ap (◌+◌ (n % 128 * w)) (mul_assoc (n / 128) 128 w ∙ ap (◌*◌ (n / 128)) (mul_comm 128 w))
