-- ===== src/RandomAccessSet/Removal.antt =====
-- `aws_random_access_set_remove` of source/random_access_set.c: the last element takes the place of the
-- one that goes.
use aws_c_http.Prelude.{
  ℕ, zero, suc, ◌-◌, ◌<◌, ◌≡◌, ◌≢◌, ◌⊎◌, refl, sym, ap, ◌∙◌, inl, inr, true, false, Bool-cases,
  some, List, [], ◌∷◌, ◌==◌, length, length-set, length-take, get_elem?, get_elem?-set_self,
  get_elem?-set_ne, set, take, arith,
}
use aws_c_http.RandomAccessSet.Operations.{
  HashTable, RandomAccessSet, exist, remove, remove_at, swap_and_pop, get_size,
}
use aws_c_http.RandomAccessSet.Invariant.{
  IsIndexed, IsHashTable, get_elem?-range, get_elem?-total, exist_absent, exist_alike, exist_found,
  found_exist,
}

get_elem?-take :
    {A : Type 0} (n : ℕ) (xs : List A) (i : ℕ) → i < n → get_elem? (take n xs) i ≡ get_elem? xs i
get_elem?-take zero xs i h = absurd (omega arith)
get_elem?-take (suc n) [] i h = refl
get_elem?-take (suc n) (x ∷ xs) zero h = refl
get_elem?-take (suc n) (x ∷ xs) (suc i) h = get_elem?-take n xs i (omega arith)

some_inj : {A : Type 0} {a b : A} → some a ≡ some b → a ≡ b
some_inj e = cc

module _ {A M : Type 0} (h : HashTable A M) (t : IsHashTable h) (s : RandomAccessSet A M)
    (v : IsIndexed h s) (element : A) (index : ℕ)
    (found_at : h.find s.map element ≡ some index) where
  -- Two indices of one element, and two elements of one index, are the same.
  same_index : (a : A) (i j : ℕ) → get_elem? s.list i ≡ some a → get_elem? s.list j ≡ some a → i ≡ j
  same_index a i j p q = some_inj (sym (v.found a i p) ∙ v.found a j q)

  other_index : (a : A) (i : ℕ) → get_elem? s.list i ≡ some a → element ≢ a → i ≢ index
  other_index a i p ne e =
      ne (some_inj (sym (v.indexed element index found_at) ∙ ap (get_elem? s.list) (sym e) ∙ p))

  -- The element stands at the end.
  popped : RandomAccessSet A M
  popped = record { list = take (length s.list - 1) s.list; map = h.remove s.map element }

  popped-IsIndexed : index ≡ length s.list - 1 → IsIndexed h popped
  unfolding popped
  popped-IsIndexed last = record {
    indexed = λ a i e. elim (t.same element a) [
      | inl same ↦ absurd (
          ground (
            arith,
            sym (t.find-remove_self s.map element) ∙ ap (h.find (h.remove s.map element)) same ∙ e,
          ))
      | inr other ↦
          let old = v.indexed a i (sym (t.find-remove_ne s.map other) ∙ e) in
          let range = get_elem?-range s.list i old in
          let ne = other_index a i old other in
          get_elem?-take (length s.list - 1) s.list i (omega arith) ∙ old
    ];
    found = λ a i e.
        let range = get_elem?-range (take (length s.list - 1) s.list) i e in
        let before : i < length s.list - 1 =
          omega (arith, length-take (length s.list - 1) s.list) in
        let old = sym (get_elem?-take (length s.list - 1) s.list i before) ∙ e in
        elim (t.same element a) [
          | inl same ↦
              let here : i ≡ index =
                same_index element i index (old ∙ ap some (sym same))
                  (v.indexed element index found_at) in
              absurd (omega arith)
          | inr other ↦ t.find-remove_ne s.map other ∙ v.found a i old
        ];
  }

  -- The element stands before the last one.
  swapped : A → RandomAccessSet A M
  swapped last = record {
    list = swap_and_pop h s.list index last;
    map = h.update (h.remove s.map element) last index;
  }

  module _ (last : A) (at_end : get_elem? s.list (length s.list - 1) ≡ some last)
      (inner : index ≢ length s.list - 1) where
    inside : index < length s.list - 1
    inside =
        let range = get_elem?-range s.list index (v.indexed element index found_at) in omega arith

    kept :
        (i : ℕ)
        → i < length s.list - 1
        → index ≢ i
        → get_elem? (swap_and_pop h s.list index last) i ≡ get_elem? s.list i
    unfolding swap_and_pop
    kept i before ne =
        get_elem?-take (length s.list - 1) (set s.list index last) i before
        ∙ get_elem?-set_ne s.list last ne

    moved : get_elem? (swap_and_pop h s.list index last) index ≡ some last
    unfolding swap_and_pop
    moved =
        get_elem?-take (length s.list - 1) (set s.list index last) index inside
        ∙ get_elem?-set_self s.list index last
            (get_elem?-range s.list index (v.indexed element index found_at))

    swapped-indexed :
        (a : A) (i : ℕ)
        → h.find (swapped last).map a ≡ some i
        → get_elem? (swapped last).list i ≡ some a
    unfolding swapped
    swapped-indexed a i e = elim (t.same last a) [
      | inl same ↦
          let at : index ≡ i = some_inj (
            sym (t.find-update_self (h.remove s.map element) last index)
            ∙ ap (h.find (h.update (h.remove s.map element) last index)) same
            ∙ e) in
          ap (get_elem? (swap_and_pop h s.list index last)) (sym at) ∙ moved ∙ ap some same
      | inr ne ↦
          let gone = sym (t.find-update_ne (h.remove s.map element) index ne) ∙ e in
          elim (t.same element a) [
            | inl same ↦ absurd (
                ground (
                  arith,
                  sym (t.find-remove_self s.map element)
                      ∙ ap (h.find (h.remove s.map element)) same
                      ∙ gone,
                ))
            | inr other ↦
                let old = v.indexed a i (sym (t.find-remove_ne s.map other) ∙ gone) in
                let range = get_elem?-range s.list i old in
                let apart = other_index a i old other in
                let early : i ≢ length s.list - 1 =
                  λ p. ne (some_inj (sym at_end ∙ ap (get_elem? s.list) (sym p) ∙ old)) in
                kept i (omega arith) (λ p. apart (sym p)) ∙ old
          ]
    ]

    swapped-found :
        (a : A) (i : ℕ)
        → get_elem? (swapped last).list i ≡ some a
        → h.find (swapped last).map a ≡ some i
    unfolding swapped swap_and_pop
    swapped-found a i e =
        let range = get_elem?-range (swap_and_pop h s.list index last) i e in
        let before : i < length s.list - 1 = omega (
          arith,
          length-take (length s.list - 1) (set s.list index last),
          length-set s.list index last,
        ) in
        elim (Bool-cases (i == index)) [
          | inl here ↦
              let at : i ≡ index = ground arith in
              let same : last ≡ a =
                some_inj
                  (sym moved ∙ ap (get_elem? (swap_and_pop h s.list index last)) (sym at) ∙ e) in
              ap (h.find (h.update (h.remove s.map element) last index)) (sym same)
              ∙ t.find-update_self (h.remove s.map element) last index
              ∙ ap some (sym at)
          | inr there ↦
              let apart : index ≢ i = λ p. ground arith in
              let old = sym (kept i before apart) ∙ e in
              let ne : last ≢ a = λ p. absurd (
                let far = same_index a i (length s.list - 1) old (at_end ∙ ap some p) in
                omega arith) in
              let other : element ≢ a = λ p.
                absurd (
                  apart
                    (same_index a index i (v.indexed element index found_at ∙ ap some p) old)) in
              t.find-update_ne (h.remove s.map element) index ne
              ∙ t.find-remove_ne s.map other
              ∙ v.found a i old
        ]

    swapped-IsIndexed : IsIndexed h (swapped last)
    swapped-IsIndexed = record { indexed = swapped-indexed; found = swapped-found }

  swapped_find :
      (last a : A) → last ≢ a → element ≢ a → h.find (swapped last).map a ≡ h.find s.map a
  unfolding swapped
  swapped_find last a ne other =
      t.find-update_ne (h.remove s.map element) index ne ∙ t.find-remove_ne s.map other

  remove-cases :
      ((index ≡ length s.list - 1) × (remove h s element ≡ popped))
      ⊎ ((last : A) × (get_elem? s.list (length s.list - 1) ≡ some last)
          × (index ≢ length s.list - 1)
          × (remove h s element ≡ swapped last))
  unfolding remove remove_at popped swapped
  remove-cases =
      let range = get_elem?-range s.list index (v.indexed element index found_at) in
      let full : (length s.list == 0) ≡ false = ground arith in
      let (last, e) = get_elem?-total s.list (length s.list - 1) (omega arith) in
      elim (Bool-cases (index == length s.list - 1)) [
        | inl b ↦ inl (ground arith, rw (full, found_at, remove_at, e, b) refl)
        | inr b ↦ inr (last, e, (λ p. ground arith), rw (full, found_at, remove_at, e, b) refl)
      ]

  popped_outside :
      (other : A)
      → element ≢ other
      → (exist h popped element ≡ false)
        × (exist h popped other ≡ exist h s other)
        × (get_size h s ≡ suc (get_size h popped))
  unfolding get_size popped
  popped_outside other ne =
      let range = get_elem?-range s.list index (v.indexed element index found_at) in
      (
        exist_absent h popped element (t.find-remove_self s.map element),
        exist_alike h popped s other (t.find-remove_ne s.map ne),
        omega (arith, length-take (length s.list - 1) s.list),
      )

  swapped_outside :
      (last other : A)
      → get_elem? s.list (length s.list - 1) ≡ some last
      → index ≢ length s.list - 1
      → element ≢ other
      → (exist h (swapped last) element ≡ false)
        × (exist h (swapped last) other ≡ exist h s other)
        × (get_size h s ≡ suc (get_size h (swapped last)))
  unfolding get_size swapped swap_and_pop
  swapped_outside last other at_end inner ne =
      let range = get_elem?-range s.list index (v.indexed element index found_at) in
      let last_ne : last ≢ element = λ p. inner (
        same_index element index (length s.list - 1) (v.indexed element index found_at)
          (at_end ∙ ap some p)) in
      let other_kept : exist h (swapped last) other ≡ exist h s other = elim (t.same last other) [
        | inl e ↦
            let now =
              ap (h.find (h.update (h.remove s.map element) last index)) (sym e)
              ∙ t.find-update_self (h.remove s.map element) last index in
            let before = v.found other (length s.list - 1) (at_end ∙ ap some e) in
            exist_found h (swapped last) other now ∙ sym (exist_found h s other before)
        | inr last_other ↦
            exist_alike h (swapped last) s other (swapped_find last other last_other ne)
      ] in
      (
        exist_absent h (swapped last) element (
            t.find-update_ne (h.remove s.map element) index last_ne
            ∙ t.find-remove_self s.map element),
        other_kept,
        omega (
          arith,
          length-take (length s.list - 1) (set s.list index last),
          length-set s.list index last,
        ),
      )

module _ {A M : Type 0} (h : HashTable A M) where
  -- Removing an element of the set keeps the list and the hash table in agreement: the set no longer has
  -- the element, is smaller by one, and has any other element as before.
  pub remove-IsIndexed :
      (s : RandomAccessSet A M) (element other : A)
      → IsHashTable h
      → IsIndexed h s
      → exist h s element ≡ true
      → element ≢ other
      → IsIndexed h (remove h s element)
        × (exist h (remove h s element) element ≡ false)
        × (exist h (remove h s element) other ≡ exist h s other)
        × (get_size h s ≡ suc (get_size h (remove h s element)))
  remove-IsIndexed s element other t v here ne =
      let (index, found_at) = found_exist h s element here in
      elim (remove-cases h t s v element index found_at) [
        | inl (last, e) ↦
            let (gone, alike, size) = popped_outside h t s v element index found_at other ne in
            rw e (popped-IsIndexed h t s v element index found_at last, gone, alike, size)
        | inr (last, at_end, inner, e) ↦
            let (gone, alike, size) =
              swapped_outside h t s v element index found_at last other at_end inner ne in
            rw e (
              swapped-IsIndexed h t s v element index found_at last at_end inner,
              gone,
              alike,
              size,
            )
      ]
