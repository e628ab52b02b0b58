-- ===== src/RandomAccessSet/Invariant.antt =====
-- The list and the hash table of a random access set agree.
use aws_c_http.Prelude.{
  ℕ, zero, suc, ◌-◌, ◌%◌, ◌<◌, ◌≡◌, ◌≢◌, ◌⊎◌, refl, sym, ap, ◌∙◌, inl, inr, Bool, true, false,
  le_or_lt, Option-cases, none, some, List, [], ◌∷◌, ◌++◌, ◌==◌, length, length-append, get_elem?,
  arith,
}
use mathlib.Core.Path.{subst}
use native.Mathlib.Nat.{mod-lt}
use aws_c_http.RandomAccessSet.Operations.{
  HashTable, RandomAccessSet, exist, add, random_get_ptr, get_size,
}

module _ {A M : Type 0} (h : HashTable A M) where
  -- Each index that the hash table gives holds its element, and each element is at the index that the
  -- hash table gives.
  pub record IsIndexed (s : RandomAccessSet A M) : Type 0 where
    pub indexed : (a : A) (i : ℕ) → h.find s.map a ≡ some i → get_elem? s.list i ≡ some a
    pub found : (a : A) (i : ℕ) → get_elem? s.list i ≡ some a → h.find s.map a ≡ some i

  -- The documented behaviour of the hash table, on elements with a decidable equality.
  pub record IsHashTable : Type 0 where
    pub same : (a b : A) → (a ≡ b) ⊎ (a ≢ b)
    pub find-put_self : (m : M) (a : A) (i : ℕ) → h.find (h.put m a i).0 a ≡ some i
    pub find-put_ne : (m : M) {a b : A} (i : ℕ) → a ≢ b → h.find (h.put m a i).0 b ≡ h.find m b
    pub find-remove_self : (m : M) (a : A) → h.find (h.remove m a) a ≡ none
    pub find-remove_ne : (m : M) {a b : A} → a ≢ b → h.find (h.remove m a) b ≡ h.find m b
    pub find-update_self : (m : M) (a : A) (i : ℕ) → h.find (h.update m a i) a ≡ some i
    pub find-update_ne : (m : M) {a b : A} (i : ℕ) → a ≢ b → h.find (h.update m a i) b ≡ h.find m b

pub get_elem?-range :
    {A : Type 0} (xs : List A) (i : ℕ) {a : A} → get_elem? xs i ≡ some a → i < length xs
get_elem?-range [] i e = absurd (ground (arith, e))
get_elem?-range (x ∷ xs) zero e = omega arith
get_elem?-range (x ∷ xs) (suc i) e = omega (arith, get_elem?-range xs i e)

get_elem?-append_left :
    {A : Type 0} (xs ys : List A) (i : ℕ) → i < length xs → get_elem? (xs ++ ys) i ≡ get_elem? xs i
get_elem?-append_left [] ys i h = absurd (omega arith)
get_elem?-append_left (x ∷ xs) ys zero h = refl
get_elem?-append_left (x ∷ xs) ys (suc i) h = get_elem?-append_left xs ys i (omega arith)

get_elem?-append_last :
    {A : Type 0} (xs : List A) (a : A) → get_elem? (xs ++ (a ∷ [])) (length xs) ≡ some a
get_elem?-append_last [] a = refl
get_elem?-append_last (x ∷ xs) a = get_elem?-append_last xs a

pub get_elem?-total :
    {A : Type 0} (xs : List A) (i : ℕ) → i < length xs → (a : A) × (get_elem? xs i ≡ some a)
get_elem?-total [] i h = absurd (omega arith)
get_elem?-total (x ∷ xs) zero h = (x, refl)
get_elem?-total (x ∷ xs) (suc i) h = get_elem?-total xs i (omega arith)

module _ {A M : Type 0} (h : HashTable A M) where
  pub exist_found :
      (s : RandomAccessSet A M) (a : A) {i : ℕ} → h.find s.map a ≡ some i → exist h s a ≡ true
  unfolding exist
  exist_found s a f = ap (λ o. elim o as (λ _. Bool) [ none ↦ false | some i ↦ true ]) f

  pub exist_absent : (s : RandomAccessSet A M) (a : A) → h.find s.map a ≡ none → exist h s a ≡ false
  unfolding exist
  exist_absent s a f = ap (λ o. elim o as (λ _. Bool) [ none ↦ false | some i ↦ true ]) f

  pub exist_alike :
      (s s' : RandomAccessSet A M) (a : A)
      → h.find s.map a ≡ h.find s'.map a
      → exist h s a ≡ exist h s' a
  unfolding exist
  exist_alike s s' a f = ap (λ o. elim o as (λ _. Bool) [ none ↦ false | some i ↦ true ]) f

  pub found_exist :
      (s : RandomAccessSet A M) (a : A) → exist h s a ≡ true → (i : ℕ) × (h.find s.map a ≡ some i)
  unfolding exist
  found_exist s a e = elim (Option-cases (h.find s.map a)) [
    | inl n ↦ absurd (
        ground
          (arith, ap (λ o. elim o as (λ _. Bool) [ none ↦ false | some i ↦ true ]) (sym n) ∙ e))
    | inr found ↦ found
  ]

  picked :
      (s : RandomAccessSet A M) (random : ℕ) {a : A}
      → get_elem? s.list (random % length s.list) ≡ some a
      → 0 < length s.list
      → random_get_ptr h s random ≡ some a
  unfolding random_get_ptr
  picked s random e size = let full : (length s.list == 0) ≡ false = ground arith in rw full e

  -- `aws_random_access_set_random_get_ptr` gives an element of the set, for any random number, unless
  -- the set is empty.
  pub random_get_ptr-exist :
      (s : RandomAccessSet A M) (random : ℕ)
      → IsIndexed h s
      → 0 < get_size h s
      → (a : A) × (random_get_ptr h s random ≡ some a) × (exist h s a ≡ true)
  unfolding get_size
  random_get_ptr-exist s random v size =
      let (a, e) = get_elem?-total s.list (random % length s.list) (mod-lt random size) in
      let f = v.found a (random % length s.list) e in (a, picked s random e size, exist_found s a f)

  -- The set after an addition.
  added : RandomAccessSet A M → A → RandomAccessSet A M
  added s element = record {
    list = s.list ++ (element ∷ []);
    map = (h.put s.map element (length s.list)).0;
  }

  add-added :
      (s : RandomAccessSet A M) (element : A)
      → exist h s element ≡ false
      → (h.put s.map element (length s.list)).1 ≡ false
      → add h s element ≡ (added s element, true, false)
  unfolding add added
  add-added s element absent works =
      let last : length (s.list ++ (element ∷ [])) - 1 ≡ length s.list =
        omega (arith, length-append s.list (element ∷ [])) in
      rw (absent, last, works)

  added-IsIndexed :
      (s : RandomAccessSet A M) (element : A)
      → IsHashTable h
      → IsIndexed h s
      → exist h s element ≡ false
      → IsIndexed h (added s element)
  unfolding added
  added-IsIndexed s element t v absent = record {
    indexed = λ a i e. elim (t.same element a) [
      | inl same ↦
          let at : h.find (h.put s.map element (length s.list)).0 a ≡ some (length s.list) =
            ap (h.find (h.put s.map element (length s.list)).0) (sym same)
            ∙ t.find-put_self s.map element (length s.list) in
          let last : length s.list ≡ i = ground (arith, sym at ∙ e) in
          ap (get_elem? (s.list ++ (element ∷ []))) (sym last)
          ∙ get_elem?-append_last s.list element
          ∙ ap some same
      | inr other ↦
          let old = v.indexed a i (sym (t.find-put_ne s.map (length s.list) other) ∙ e) in
          get_elem?-append_left s.list (element ∷ []) i (get_elem?-range s.list i old) ∙ old
    ];
    found = λ a i e. elim (le_or_lt (length s.list) i) [
      | inl far ↦
          let range = get_elem?-range (s.list ++ (element ∷ [])) i e in
          let last : length s.list ≡ i = omega (arith, length-append s.list (element ∷ [])) in
          let same : some element ≡ some a =
            sym (get_elem?-append_last s.list element)
            ∙ ap (get_elem? (s.list ++ (element ∷ []))) last
            ∙ e in
          ap (h.find (h.put s.map element (length s.list)).0) (ground (arith, sym same))
          ∙ t.find-put_self s.map element (length s.list)
          ∙ ap some last
      | inr near ↦
          let old = v.found a i (sym (get_elem?-append_left s.list (element ∷ []) i near) ∙ e) in
          let other : element ≢ a =
            λ same. absurd (ground (arith, exist_found s element (ap (h.find s.map) same ∙ old))) in
          t.find-put_ne s.map (length s.list) other ∙ old
    ];
  }

  -- An element that is not in the set can be added, where the hash table does not fail: the list and
  -- the hash table still agree, and the set has the element and is larger by one.
  pub add-IsIndexed :
      (s : RandomAccessSet A M) (element : A) {s' : RandomAccessSet A M}
      → IsHashTable h
      → IsIndexed h s
      → exist h s element ≡ false
      → (h.put s.map element (length s.list)).1 ≡ false
      → s' ≡ (add h s element).0
      → (add h s element ≡ (s', true, false))
        × IsIndexed h s'
        × (exist h s' element ≡ true)
        × (get_size h s' ≡ suc (get_size h s))
  unfolding get_size added
  add-IsIndexed s element {s'} t v absent works e =
      let r = add-added s element absent works in
      let same : s' ≡ added s element = e ∙ ap (λ z. z.0) r in
      (
        r ∙ ap (λ z. (z, true, false)) (sym same),
        subst (IsIndexed h) (sym same) (added-IsIndexed s element t v absent),
        ap (λ z. exist h z element) same
            ∙ exist_found (added s element) element (t.find-put_self s.map element (length s.list)),
        ap (λ z. length z.list) same ∙ omega (arith, length-append s.list (element ∷ [])),
      )
