-- ===== src/RandomAccessSet/Operations.antt =====
-- The state and the operations of source/random_access_set.c. The elements are a type `A`; a hash table
-- of aws-c-common that maps elements to indices is a state `M`. Allocation does not fail, and the
-- destructor of elements has no part in the state.
use aws_c_http.Prelude.{
  ℕ, ◌-◌, ◌%◌, Bool, true, false, not, Option, none, some, List, [], ◌∷◌, ◌++◌, ◌==◌, if◌then◌else◌,
  length, get_elem?, set, take,
}

-- What the code calls of `struct aws_hash_table`: `none` and the flag `true` are C's errors. `find` and
-- `remove` do not fail; `update` writes the value of an element that was found.
pub record HashTable (A M : Type 0) : Type 0 where
  pub find : M → A → Option ℕ
  pub put : M → A → ℕ → M × Bool
  pub remove : M → A → M
  pub update : M → A → ℕ → M

-- `struct aws_random_access_set_impl`
pub record RandomAccessSet (A M : Type 0) : Type 0 where
  pub list : List A
  pub map : M

module _ {A M : Type 0} (h : HashTable A M) where
  unfoldable pub new : M → RandomAccessSet A M
  new empty = record { list = []; map = empty }

  unfoldable pub exist : RandomAccessSet A M → A → Bool
  exist s element = elim (h.find s.map element) [ none ↦ false | some i ↦ true ]

  unfoldable pub get_size : RandomAccessSet A M → ℕ
  get_size s = length s.list

  -- The set, whether the element was added, and whether the call failed.
  unfoldable pub add : RandomAccessSet A M → A → RandomAccessSet A M × Bool × Bool
  unfolding exist
  add s element =
      let pushed = s.list ++ (element ∷ []) in
      let (map, err) = h.put s.map element (length pushed - 1) in
      if exist s element
      then (s, false, false)
      else (if err
          then (record { list = take (length pushed - 1) pushed; map = map }, false, true)
          else (record { list = pushed; map = map }, true, false))

  -- `aws_array_list_swap` with the last element, then `aws_array_list_pop_back`: the last element moves
  -- to the index given.
  unfoldable pub swap_and_pop : List A → ℕ → A → List A
  swap_and_pop list index last = take (length list - 1) (set list index last)

  -- The end of `aws_random_access_set_remove`, with the element taken out of the hash table.
  unfoldable pub remove_at : List A → M → ℕ → RandomAccessSet A M
  unfolding swap_and_pop
  remove_at list map index = elim (get_elem? list (length list - 1)) [
    | none ↦ record { list = list; map = map }
    | some last ↦
        if not (index == length list - 1)
        then record { list = swap_and_pop list index last; map = h.update map last index }
        else record { list = take (length list - 1) list; map = map }
  ]

  unfoldable pub remove : RandomAccessSet A M → A → RandomAccessSet A M
  unfolding remove_at
  remove s element = if length s.list == 0 then s else elim (h.find s.map element) [
    | none ↦ s
    | some index ↦ remove_at s.list (h.remove s.map element) index
  ]

  unfoldable pub random_get_ptr_index : RandomAccessSet A M → ℕ → Option A
  random_get_ptr_index s index = get_elem? s.list index

  -- `none` is AWS_ERROR_LIST_EMPTY; `random` is what `aws_device_random_u64` gives.
  unfoldable pub random_get_ptr : RandomAccessSet A M → ℕ → Option A
  random_get_ptr s random =
      let size = length s.list in if size == 0 then none else get_elem? s.list (random % size)
