-- ===== src/Http1/Samples.antt =====
-- Comparing bytes, for the examples.
use aws_c_http.Prelude.{
  ℕ, ◌+◌, ◌≡◌, refl, ap, Bool, true, false, ◌&&◌, List, [], ◌∷◌, leb, ◌==◌, if◌then◌else◌, length,
  suc, arith,
}

unfoldable pub lower : ℕ → ℕ
lower c = if leb b'A' c && leb c b'Z' then c + 32 else c

unfoldable pub same_bytes : (ℕ → ℕ) → List ℕ → List ℕ → Bool
same_bytes f [] [] = true
same_bytes f [] (y ∷ ys) = false
same_bytes f (x ∷ xs) [] = false
same_bytes f (x ∷ xs) (y ∷ ys) = f x == f y && same_bytes f xs ys

pub same_bytes-length :
    (f : ℕ → ℕ) (xs ys : List ℕ) → same_bytes f xs ys ≡ true → length xs ≡ length ys
unfolding same_bytes
same_bytes-length f [] [] q = refl
same_bytes-length f [] (y ∷ ys) q = absurd (ground (arith, q))
same_bytes-length f (x ∷ xs) [] q = absurd (ground (arith, q))
same_bytes-length f (x ∷ xs) (y ∷ ys) q = ap suc (same_bytes-length f xs ys (ground (arith, q)))
