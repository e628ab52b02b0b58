-- ===== src/Prelude/Words.antt =====
-- Bytes and unsigned 64-bit words: `uint8_t`, `uint64_t`, and `size_t` on a 64-bit platform.
use Prim.Native.Nat.{ℕ, zero, suc, ◌+◌, ◌-◌, ◌*◌, ◌/◌, ◌%◌, ◌^◌, ◌<◌}
use mathlib.Core.Path.{◌≡◌}
use native.Mathlib.Omega.{arith}
use mathlib.Core.List.{List, [], ◌∷◌}
use aws_c_http.Prelude.Tests.{ltb, leb, if◌then◌else◌}

abbrev pub IsByte : ℕ → Type 0
IsByte b = b < 256

abbrev pub u64_mod : ℕ
u64_mod = 2 ^ 64

abbrev pub u64_max : ℕ
u64_max = 0xffff_ffff_ffff_ffff

abbrev pub add_u64 : ℕ → ℕ → ℕ
add_u64 a b = (a + b) % u64_mod

-- aws-c-common's `aws_add_u64_saturating`.
abbrev pub add_u64_saturating : ℕ → ℕ → ℕ
add_u64_saturating a b = if ltb u64_max (a + b) then u64_max else a + b

-- `a - b` on `uint64_t`, for two words.
abbrev pub sub_u64 : ℕ → ℕ → ℕ
sub_u64 a b = if leb b a then a - b else a + u64_mod - b

-- Bytes read as one number in network byte order, behind the number read so far.
abbrev pub read_be : ℕ → List ℕ → ℕ
read_be acc [] = acc
read_be acc (b ∷ bs) = read_be (acc * 256 + b) bs

-- The lowest `n` bytes of a number in network byte order.
abbrev pub be_bytes : ℕ → ℕ → List ℕ
be_bytes zero v = []
be_bytes (suc n) v = v / 256 ^ n % 256 ∷ be_bytes n v

pub read_be-be_bytes_two : (v : ℕ) → read_be 0 (be_bytes 2 v) ≡ v % 2 ^ 16
read_be-be_bytes_two v = omega arith

pub read_be-be_bytes_eight : (v : ℕ) → read_be 0 (be_bytes 8 v) ≡ v % 2 ^ 64
read_be-be_bytes_eight v = omega arith
