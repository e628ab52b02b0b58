-- ===== src/Hpack/Integer/Resume.antt =====
-- `aws_hpack_decode_integer` over two pieces of input.
use aws_c_http.Prelude.{
  ◌+◌, ◌*◌, ◌^◌, ◌%◌, ◌-◌, ℕ, ◌≡◌, refl, Bool, true, false, not, List, [], ◌∷◌, ◌++◌, ltb, ◌==◌,
  if◌then◌else◌, bit_and,
}
use aws_c_http.Prelude.Words.{add_u64, u64_mod}
use aws_c_http.Hpack.Integer.Codec.{
  IntegerState, integer_init, integer_value, ProgressInteger, Decoded, ongoing, complete, overflow,
  decode_integer, masked_right_bits_u8,
}

-- The call on the next piece, or the bytes left over before it.
unfoldable pub and_then : ℕ → Decoded → List ℕ → Decoded
and_then p (ongoing progress integer) ys = decode_integer p progress integer ys
and_then p (complete integer rest) ys = complete integer (rest ++ ys)
and_then p (overflow progress integer rest) ys = overflow progress integer (rest ++ ys)

and_then-if :
    (p : ℕ) (b : Bool) (x y x' y' : Decoded) (ys : List ℕ)
    → x' ≡ and_then p x ys
    → y' ≡ and_then p y ys
    → (if b then x' else y') ≡ and_then p (if b then x else y) ys
and_then-if p true x y x' y' ys e e' = e
and_then-if p false x y x' y' ys e e' = e'

resumed_at :
    (p : ℕ) (state : IntegerState) (bit_count integer : ℕ) (xs ys : List ℕ)
    → decode_integer p (record { state = state; bit_count = bit_count }) integer (xs ++ ys)
      ≡ and_then p
          (decode_integer p (record { state = state; bit_count = bit_count }) integer xs)
          ys
unfolding decode_integer and_then
resumed_at p state n integer [] ys = refl
resumed_at p integer_init n integer (x ∷ xs) ys =
    let mask = masked_right_bits_u8 p in
    and_then-if p (not (bit_and x mask == mask)) _ _ _ _ ys refl
      (resumed_at p integer_value n (bit_and x mask) xs ys)
resumed_at p integer_value n integer (x ∷ xs) ys =
    let sum = add_u64 integer (bit_and x 127 * 2 ^ n % u64_mod) in
    let count = (n + 7) % 256 in
    and_then-if p (ltb sum integer) _ _ _ _ ys refl (
      and_then-if p (bit_and x 128 == 0) _ _ _ _ ys refl (
        and_then-if p (ltb (64 - 7) count) _ _ _ _ ys refl
          (resumed_at p integer_value count sum xs ys)))

-- Decoding an integer that arrives in two pieces is decoding the pieces joined: the second call goes
-- on where the first one stopped, and a result or an error stays what it is.
pub decode_integer_resumed :
    (p : ℕ) (progress : ProgressInteger) (integer : ℕ) (xs ys : List ℕ)
    → decode_integer p progress integer (xs ++ ys)
      ≡ and_then p (decode_integer p progress integer xs) ys
decode_integer_resumed p progress integer xs ys =
    resumed_at p progress.state progress.bit_count integer xs ys
