-- ===== src/Prelude/Bits.antt =====
-- Single bits and masks of a byte, as arithmetic. The bit operations have no laws at variables, so
-- each law about a byte is a table of 256 entries, checked by evaluation.
use Prim.Native.Nat.{ℕ, zero, suc, ◌*◌, ◌/◌, ◌%◌, ◌<◌, bit_and}
use mathlib.Core.Path.{◌≡◌, refl}
use mathlib.Core.Bool.{Bool, true, not, ◌&&◌}
use native.Mathlib.Omega.{arith}
use aws_c_http.Prelude.Tests.{◌==◌, ==_iff}

-- A test of the numbers below a bound.
unfoldable pub passes_below : ℕ → (ℕ → Bool) → Bool
passes_below zero test = true
passes_below (suc bound) test = test bound && passes_below bound test

pub passes_below_at :
    (bound : ℕ) (test : ℕ → Bool) (v : ℕ)
    → passes_below bound test ≡ true
    → v < bound
    → test v ≡ true
unfolding passes_below
passes_below_at zero test v all small = absurd (omega arith)
passes_below_at (suc bound) test v all small = ground (arith, passes_below_at bound test v)

module _ (f g : ℕ → ℕ) where
  pub agree_below : (n : ℕ) → passes_below n (λ x. f x == g x) ≡ true → (x : ℕ) → x < n → f x ≡ g x
  agree_below n e x h = (==_iff (f x) (g x)).0 (passes_below_at n (λ y. f y == g y) x e h)

-- C's `byte & mask` read as a `bool`.
abbrev pub flag : ℕ → ℕ → Bool
flag byte mask = not (bit_and byte mask == 0)

pub low_seven : (b : ℕ) → b < 256 → bit_and b 0x7f ≡ b % 128
unfolding passes_below
low_seven = agree_below _ _ 256 refl

pub low_four : (b : ℕ) → b < 256 → bit_and b 0x0f ≡ b % 16
unfolding passes_below
low_four = agree_below _ _ 256 refl

pub bit_seven : (b : ℕ) → b < 256 → bit_and b 0x80 ≡ b / 128 * 128
unfolding passes_below
bit_seven = agree_below _ _ 256 refl
