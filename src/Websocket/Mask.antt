-- ===== src/Websocket/Mask.antt =====
-- Masking keeps lengths, a payload may be masked piece by piece, and masking twice gives it back.
use Prim.Native.Nat.{bit_xor}
use aws_c_http.Prelude.{
  ℕ, zero, suc, ◌+◌, ◌%◌, ◌≡◌, refl, ap, true, List, [], ◌∷◌, ◌++◌, length, arith, ◌==◌, ==_iff,
  All, get_or, Bool-cases, inl, inr,
}
use aws_c_http.Prelude.Bits.{passes_below, passes_below_at}
use aws_c_http.Prelude.Words.{IsByte}
use aws_c_http.Websocket.Frame.{Frame, mask, unmask}
use native.Mathlib.Nat.{add-zero}

pub length-mask : (key : List ℕ) (index : ℕ) (bs : List ℕ) → length (mask key index bs) ≡ length bs
unfolding mask
length-mask key index [] = refl
length-mask key index (b ∷ bs) = ap suc (length-mask key (index + 1) bs)

pub mask-append :
    (key : List ℕ) (index : ℕ) (xs ys : List ℕ)
    → mask key index (xs ++ ys) ≡ mask key index xs ++ mask key (index + length xs) ys
unfolding mask
mask-append key index [] ys = rw add-zero
mask-append key index (x ∷ xs) ys = ground (arith, mask-append key (index + 1) xs ys)

pub length-unmask : (f : Frame) (index : ℕ) (bs : List ℕ) → length (unmask f index bs) ≡ length bs
length-unmask f index bs = ground (arith, length-mask f.masking_key index bs)

pub unmask-append :
    (f : Frame) (index : ℕ) (xs ys : List ℕ)
    → unmask f index (xs ++ ys) ≡ unmask f index xs ++ unmask f (index + length xs) ys
unmask-append f index xs ys = ground (arith, mask-append f.masking_key index xs ys)

pub unmask-nil : (f : Frame) (index : ℕ) → unmask f index [] ≡ []
unfolding mask
unmask-nil f index = ground arith

xor_table : passes_below 256 (λ b. passes_below 256 (λ k. bit_xor (bit_xor b k) k == b)) ≡ true
unfolding passes_below
xor_table = refl

xor_twice : (b k : ℕ) → IsByte b → IsByte k → bit_xor (bit_xor b k) k ≡ b
xor_twice b k b_small k_small = (==_iff (bit_xor (bit_xor b k) k) b).0 (
    passes_below_at 256 (λ z. bit_xor (bit_xor b z) z == b) k
      (passes_below_at 256 (λ y. passes_below 256 (λ z. bit_xor (bit_xor y z) z == y)) b xor_table
        b_small)
      k_small)

get_or-IsByte : (key : List ℕ) (i : ℕ) → All IsByte key → IsByte (get_or key i 0)
get_or-IsByte [] i a = omega arith
get_or-IsByte (k ∷ key) zero a = a.0
get_or-IsByte (k ∷ key) (suc i) a = get_or-IsByte key i a.1

mask_twice :
    (key : List ℕ) (index : ℕ) (bs : List ℕ)
    → All IsByte key
    → All IsByte bs
    → mask key index (mask key index bs) ≡ bs
unfolding mask
mask_twice key index [] k a = refl
mask_twice key index (b ∷ bs) k a =
    rw (xor_twice b (get_or key (index % 4) 0) a.0 (get_or-IsByte key (index % 4) k))
      (ap (◌∷◌ b) (mask_twice key (index + 1) bs k a.1))

pub unmask_twice :
    (f : Frame) (index : ℕ) (bs : List ℕ)
    → All IsByte f.masking_key
    → All IsByte bs
    → unmask f index (unmask f index bs) ≡ bs
unmask_twice f index bs k a = elim (Bool-cases f.masked) [
  | inl e ↦ rw e (mask_twice f.masking_key index bs k a)
  | inr e ↦ rw e refl
]
