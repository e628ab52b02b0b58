-- ===== src/RandomAccessSet/Runs.antt =====
-- A set of numbers, with a function for the hash table.
use aws_c_http.Prelude.{
  ℕ, suc, ◌≡◌, ◌≢◌, ◌⊎◌, refl, inl, inr, true, false, Bool-cases, Option, none, some, [], ◌∷◌, ◌==◌,
  if◌then◌else◌, arith,
}
use aws_c_http.RandomAccessSet.Operations.{
  HashTable, RandomAccessSet, exist, add, remove, get_size, random_get_ptr,
}
use aws_c_http.RandomAccessSet.Removal.{remove-IsIndexed}
use aws_c_http.RandomAccessSet.Invariant.{
  IsIndexed, IsHashTable, random_get_ptr-exist, add-IsIndexed,
}

abbrev function_table : HashTable ℕ (ℕ → Option ℕ)
function_table = record {
  find = λ m a. m a;
  put = λ m a i. (λ b. if a == b then some i else m b, false);
  remove = λ m a. λ b. if a == b then none else m b;
  update = λ m a i. λ b. if a == b then some i else m b;
}

same_number : (a b : ℕ) → (a ≡ b) ⊎ (a ≢ b)
same_number a b = elim (Bool-cases (a == b)) [
  | inl e ↦ inl (ground arith)
  | inr e ↦ inr (λ p. ground arith)
]

if_same : {B : Type 0} (a : ℕ) (x y : B) → (if a == a then x else y) ≡ x
if_same a x y = ground arith

if_other : {B : Type 0} (a b : ℕ) (x y : B) → a ≢ b → (if a == b then x else y) ≡ y
if_other a b x y ne = elim (Bool-cases (a == b)) [
  | inl e ↦ absurd (ne (ground arith))
  | inr e ↦ rw e refl
]

function_table-IsHashTable : IsHashTable function_table
function_table-IsHashTable = record {
  same = same_number;
  find-put_self = λ m a i. if_same a (some i) (m a);
  find-put_ne = λ m {a = a} {b = b} i ne. if_other a b (some i) (m b) ne;
  find-remove_self = λ m a. if_same a none (m a);
  find-remove_ne = λ m {a = a} {b = b} ne. if_other a b none (m b) ne;
  find-update_self = λ m a i. if_same a (some i) (m a);
  find-update_ne = λ m {a = a} {b = b} i ne. if_other a b (some i) (m b) ne;
}

abbrev no_numbers : RandomAccessSet ℕ (ℕ → Option ℕ)
no_numbers = record { list = []; map = λ a. none }

abbrev one_number : RandomAccessSet ℕ (ℕ → Option ℕ)
one_number = record { list = 7 ∷ []; map = λ b. if 7 == b then some 0 else none }

no_numbers-IsIndexed : IsIndexed function_table no_numbers
no_numbers-IsIndexed = record {
  indexed = λ a i e. absurd (ground (arith, e));
  found = λ a i e. absurd (ground (arith, e));
}

add-IsIndexed_example :
    (add function_table no_numbers 7 ≡ (one_number, true, false))
    × IsIndexed function_table one_number
    × (exist function_table one_number 7 ≡ true)
    × (get_size function_table one_number ≡ suc (get_size function_table no_numbers))
unfolding add exist
add-IsIndexed_example =
    add-IsIndexed function_table no_numbers 7 function_table-IsHashTable no_numbers-IsIndexed refl
      refl refl

one_number-IsIndexed : IsIndexed function_table one_number
unfolding add exist
one_number-IsIndexed =
    (add-IsIndexed function_table no_numbers 7 {s' = one_number} function_table-IsHashTable
      no_numbers-IsIndexed refl refl refl).1

random_get_ptr-exist_example :
    (a : ℕ) × (random_get_ptr function_table one_number 12 ≡ some a)
    × (exist function_table one_number a ≡ true)
unfolding get_size
random_get_ptr-exist_example =
    random_get_ptr-exist function_table one_number 12 one_number-IsIndexed (omega arith)

abbrev two_numbers : RandomAccessSet ℕ (ℕ → Option ℕ)
unfolding add exist
two_numbers = (add function_table one_number 9).0

two_numbers-IsIndexed : IsIndexed function_table two_numbers
unfolding add exist
two_numbers-IsIndexed =
    (add-IsIndexed function_table one_number 9 {s' = two_numbers} function_table-IsHashTable
      one_number-IsIndexed refl refl refl).1

-- The first of two elements is removed, so that the last takes its place.
remove-IsIndexed_example :
    IsIndexed function_table (remove function_table two_numbers 7)
    × (exist function_table (remove function_table two_numbers 7) 7 ≡ false)
    × (exist function_table (remove function_table two_numbers 7) 9
        ≡ exist function_table two_numbers 9)
    × (get_size function_table two_numbers
        ≡ suc (get_size function_table (remove function_table two_numbers 7)))
unfolding exist two_numbers
remove-IsIndexed_example =
    remove-IsIndexed function_table two_numbers 7 9 function_table-IsHashTable two_numbers-IsIndexed
      refl (λ e. absurd (omega arith))
