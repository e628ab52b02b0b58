-- ===== src/Hpack/Entries/SizeUpdates.antt =====
-- The changes of the maximum table size that `aws_hpack_encoder_update_max_table_size` of
-- source/hpack_encoder.c collects for the next header block.
use aws_c_http.Prelude.{ℕ, ◌≤◌, ◌≡◌, ◌⊎◌, refl, ap, inl, inr, true, List, [], ◌∷◌, min, arith}
use aws_c_http.Prelude.Words.{u64_max}
use aws_c_http.Hpack.Entries.Encode.{Encoder, no_size_update, update_max_table_size}

pub Among : ℕ → List ℕ → Type 0
Among y [] = ◌≡◌ {A = ℕ} 1 0
Among y (x ∷ xs) = (y ≡ x) ⊎ Among y xs

pub IsLowest : ℕ → List ℕ → Type 0
IsLowest y [] = Unit
IsLowest y (x ∷ xs) = (y ≤ x) × IsLowest y xs

pub last_of : ℕ → List ℕ → ℕ
last_of x [] = x
last_of x (y ∷ ys) = last_of y ys

min_below : (a b : ℕ) → (min a b ≤ a) × (min a b ≤ b)
min_below a b = (omega arith, omega arith)

min_either : (a b : ℕ) → (min a b ≡ a) ⊎ (min a b ≡ b)
min_either a b = ground arith

-- A value that is that of the smaller of two, or is among others.
either_smaller :
    (s x old : ℕ) (xs : List ℕ) → (s ≡ min x old) ⊎ Among s xs → (s ≡ old) ⊎ Among s (x ∷ xs)
unfolding Among
either_smaller s x old xs (inr among) = inr (inr among)
either_smaller s x old xs (inl same) = elim (min_either x old) [
  | inl new ↦ inr (inl (omega arith))
  | inr kept ↦ inl (omega arith)
]

module _ {H T : Type 0} where
  -- One call after another.
  pub update_all : Encoder H T → List ℕ → Encoder H T
  update_all e [] = e
  update_all e (x ∷ xs) = update_all (update_max_table_size e x) xs

  smallest_of :
      (e : Encoder H T) (xs : List ℕ)
      → ((update_all e xs).dynamic_table_size_update.smallest_value
          ≤ e.dynamic_table_size_update.smallest_value)
        × IsLowest (update_all e xs).dynamic_table_size_update.smallest_value xs
        × (((update_all e xs).dynamic_table_size_update.smallest_value
              ≡ e.dynamic_table_size_update.smallest_value)
            ⊎ Among (update_all e xs).dynamic_table_size_update.smallest_value xs)
  unfolding update_all update_max_table_size Among IsLowest
  smallest_of e [] = (omega arith, tt, inl refl)
  smallest_of e (x ∷ xs) =
      let old = e.dynamic_table_size_update.smallest_value in
      let (below, lowest, among) = smallest_of (update_max_table_size e x) xs in
      let (new_low, old_low) = min_below x old in
      (omega arith, (omega arith, lowest), either_smaller _ x old xs among)

  latest_of :
      (e : Encoder H T) (x : ℕ) (xs : List ℕ)
      → ((update_all (update_max_table_size e x) xs).dynamic_table_size_update.latest_value
          ≡ last_of x xs)
        × ((update_all (update_max_table_size e x) xs).dynamic_table_size_update.pending ≡ true)
  unfolding update_all update_max_table_size last_of
  latest_of e x [] = (refl, refl)
  latest_of e x (y ∷ ys) = latest_of (update_max_table_size e x) y ys

  -- The changes behind a header block, the first of at most 2^64 - 1: an update is pending, its latest
  -- value is the last of them, and its smallest value is one of them and no higher than any.
  pub update_all_smallest :
      (e : Encoder H T) (x : ℕ) (xs : List ℕ)
      → e.dynamic_table_size_update ≡ no_size_update
      → x ≤ u64_max
      → ((update_all e (x ∷ xs)).dynamic_table_size_update.pending ≡ true)
        × ((update_all e (x ∷ xs)).dynamic_table_size_update.latest_value ≡ last_of x xs)
        × IsLowest (update_all e (x ∷ xs)).dynamic_table_size_update.smallest_value (x ∷ xs)
        × Among (update_all e (x ∷ xs)).dynamic_table_size_update.smallest_value (x ∷ xs)
  unfolding update_all IsLowest Among
  update_all_smallest e x xs sent small =
      let (latest, pending) = latest_of e x xs in
      let (below, lowest, among) = smallest_of e (x ∷ xs) in
      let start : e.dynamic_table_size_update.smallest_value ≡ u64_max =
        ap (λ u. u.smallest_value) sent in
      (
        pending,
        latest,
        lowest,
        elim among [ inr one ↦ one | inl kept ↦ inl (omega (arith, lowest.0)) ],
      )
