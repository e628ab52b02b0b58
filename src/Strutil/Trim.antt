-- ===== src/Strutil/Trim.antt =====
-- What `s_trim` of source/strutil.c cuts off and what it keeps.
use aws_c_http.Prelude.{
  ℕ, zero, suc, ◌-◌, ◌≤◌, ◌<◌, ◌≡◌, ◌⊎◌, refl, ap, sym, ◌∙◌, inl, inr, Bool, true, false, ◌&&◌,
  Bool-cases, List, [], ◌∷◌, ◌++◌, length, get_or, take, drop, length-take, take-append-drop,
  take-length, arith,
}
use mathlib.Core.List.{append-nil, append_assoc}
use aws_c_http.Strutil.Chars.{all_chars, leading, trailing, trim}

-- A conjunction of loops.
pub all_chars-append :
    (t : ℕ → Bool) (xs ys : List ℕ) → all_chars t (xs ++ ys) ≡ (all_chars t xs && all_chars t ys)
unfolding all_chars
all_chars-append t [] ys = refl
all_chars-append t (x ∷ xs) ys = ground (arith, all_chars-append t xs ys)

module _ (t : ℕ → Bool) where
  all_chars-leading : (xs : List ℕ) → all_chars t (take (leading t xs) xs) ≡ true
  unfolding all_chars leading
  all_chars-leading [] = refl
  all_chars-leading (x ∷ xs) = elim (Bool-cases (t x)) [
    | inl e ↦ rw e (rw e (all_chars-leading xs))
    | inr e ↦ rw e refl
  ]

  first_kept :
      (xs : List ℕ)
      → (drop (leading t xs) xs ≡ []) ⊎ (t (get_or (drop (leading t xs) xs) 0 0) ≡ false)
  unfolding leading
  first_kept [] = inl refl
  first_kept (x ∷ xs) = elim (Bool-cases (t x)) [
    | inl e ↦ rw e (first_kept xs)
    | inr e ↦ rw e (inr e)
  ]

  trailing_le : (ys : List ℕ) (n : ℕ) → trailing t ys n ≤ n
  unfolding trailing
  trailing_le ys zero = omega arith
  trailing_le ys (suc n) = ground (arith, trailing_le ys n)

  last_kept :
      (ys : List ℕ) (n : ℕ)
      → (trailing t ys n ≡ 0) ⊎ (t (get_or ys (trailing t ys n - 1) 0) ≡ false)
  unfolding trailing
  last_kept ys zero = inl refl
  last_kept ys (suc n) = elim (Bool-cases (t (get_or ys n 0))) [
    | inl e ↦ rw e (last_kept ys n)
    | inr e ↦ rw e (inr (ap (λ i. t (get_or ys i 0)) (omega arith) ∙ e))
  ]

  -- One byte more of a list.
  take-suc :
      (ys : List ℕ) (n : ℕ) → n < length ys → take (suc n) ys ≡ take n ys ++ (get_or ys n 0 ∷ [])
  take-suc [] n h = absurd (omega arith)
  take-suc (y ∷ ys) zero h = refl
  take-suc (y ∷ ys) (suc n) h = ap (◌∷◌ y) (take-suc ys n (omega arith))

  -- The bytes behind the end of the second loop are all in the table.
  cut_off :
      (ys : List ℕ) (n : ℕ)
      → n ≤ length ys
      → (suf : List ℕ) × (take n ys ≡ take (trailing t ys n) ys ++ suf) × (all_chars t suf ≡ true)
  unfolding trailing all_chars
  cut_off ys zero h = ([], refl, refl)
  cut_off ys (suc n) h =
      let (suf, e1, a) = cut_off ys n (omega arith) in
      elim (Bool-cases (t (get_or ys n 0))) [
        | inl e ↦ rw e (
          suf ++ (get_or ys n 0 ∷ []),
          take-suc ys n (omega arith)
              ∙ ap (λ l. l ++ (get_or ys n 0 ∷ [])) e1
              ∙ append_assoc _ suf _,
          all_chars-append t suf _ ∙ rw a (rw e refl),
        )
        | inr e ↦ rw e ([], sym (append-nil _), refl)
      ]

  -- No byte at either end is in the table.
  unfoldable pub IsTrimmed : List ℕ → Type 0
  IsTrimmed ys =
      (length ys ≡ 0) ⊎ ((t (get_or ys 0 0) ≡ false) × (t (get_or ys (length ys - 1) 0) ≡ false))

get_or-take : (ys : List ℕ) (k i : ℕ) → i < k → get_or (take k ys) i 0 ≡ get_or ys i 0
get_or-take ys zero i h = absurd (omega arith)
get_or-take [] (suc k) i h = refl
get_or-take (y ∷ ys) (suc k) zero h = refl
get_or-take (y ∷ ys) (suc k) (suc i) h = get_or-take ys k i (omega arith)

-- A prefix that starts and ends with a kept byte.
prefix-IsTrimmed :
    (t : ℕ → Bool) (ys : List ℕ) (k : ℕ)
    → k ≤ length ys
    → (ys ≡ []) ⊎ (t (get_or ys 0 0) ≡ false)
    → (k ≡ 0) ⊎ (t (get_or ys (k - 1) 0) ≡ false)
    → IsTrimmed t (take k ys)
unfolding IsTrimmed
prefix-IsTrimmed t ys zero h first last = inl refl
prefix-IsTrimmed t [] (suc k) h first last = inl refl
prefix-IsTrimmed t (y ∷ ys) (suc k) h (inl e) last = absurd (omega (arith, ap length e))
prefix-IsTrimmed t (y ∷ ys) (suc k) h (inr f) (inl e) = absurd (omega arith)
prefix-IsTrimmed t (y ∷ ys) (suc k) h (inr f) (inr e) =
    let len : length (take (suc k) (y ∷ ys)) - 1 ≡ k =
      omega (arith, length-take (suc k) (y ∷ ys)) in
    let last : suc k - 1 ≡ k = omega arith in
    let e' : t (get_or (y ∷ ys) k 0) ≡ false = ap (λ i. t (get_or (y ∷ ys) i 0)) (sym last) ∙ e in
    let kept : t (get_or (take (suc k) (y ∷ ys)) k 0) ≡ false =
      ap t (get_or-take (y ∷ ys) (suc k) k (omega arith)) ∙ e' in
    inr (f, ap (λ i. t (get_or (take (suc k) (y ∷ ys)) i 0)) len ∙ kept)

-- Trimming cuts bytes of the table off both ends of a cursor and stops at a byte that is not in the
-- table: the cursor is a part in the table, the result, and another part in the table, and the
-- result is empty or starts and ends with a byte that is not in the table.
pub trim-split :
    (t : ℕ → Bool) (xs : List ℕ)
    → (pre suf : List ℕ) × (xs ≡ pre ++ (trim t xs ++ suf))
      × (all_chars t pre ≡ true)
      × (all_chars t suf ≡ true)
      × IsTrimmed t (trim t xs)
unfolding trim
trim-split t xs =
    let ys = drop (leading t xs) xs in
    let (suf, e, a) = cut_off t ys (length ys) (omega arith) in
    (
      take (leading t xs) xs,
      suf,
      sym (take-append-drop (leading t xs) xs)
          ∙ ap (◌++◌ (take (leading t xs) xs)) (sym (take-length ys) ∙ e),
      all_chars-leading t xs,
      a,
      prefix-IsTrimmed t ys (trailing t ys (length ys)) (trailing_le t ys (length ys))
          (first_kept t xs) (last_kept t ys (length ys)),
    )
