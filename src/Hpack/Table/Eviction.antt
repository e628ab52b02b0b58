-- ===== src/Hpack/Table/Eviction.antt =====
-- What `s_dynamic_table_shrink` of source/hpack.c removes, and what it keeps.
use aws_c_http.Prelude.{
  ℕ, zero, suc, ◌+◌, ◌^◌, ◌≤◌, ◌<◌, ◌≡◌, ◌⊎◌, refl, sym, ap, ◌∙◌, inl, inr, false, Bool-cases, ltb,
  arith,
}
use mathlib.Core.Path.{subst}
use aws_c_http.Prelude.Words.{sub_u64}
use aws_c_http.Hpack.Table.Ring.{get_header_size, Lookups, Table, dynamic_table_get, slot}
use aws_c_http.Hpack.Table.Operations.{evict, shrink_to, shrink}

module _ {T : Type 0} where
  -- The sizes of the `n` newest elements, added up.
  unfoldable pub total : Table T → ℕ → ℕ
  total t zero = 0
  total t (suc n) = total t n + get_header_size (dynamic_table_get t n)

  -- The size kept beside the elements is the sum of their sizes.
  pub record IsSized (t : Table T) : Type 0 where
    pub sum : t.size ≡ total t t.num_elements
    pub word : t.size < 2 ^ 64

  -- The elements are the same where the buffer, its capacity and its start are.
  pub record SameRing (t t' : Table T) : Type 0 where
    pub same_buffer : t'.buffer ≡ t.buffer
    pub same_capacity : t'.buffer_capacity ≡ t.buffer_capacity
    pub same_index_0 : t'.index_0 ≡ t.index_0
    pub same_max_size : t'.max_size ≡ t.max_size

  same_get :
      (t t' : Table T) (i : ℕ) → SameRing t t' → dynamic_table_get t' i ≡ dynamic_table_get t i
  unfolding dynamic_table_get slot
  same_get t t' i s = rw (s.same_buffer, s.same_capacity, s.same_index_0)

  same_total : (t t' : Table T) (n : ℕ) → SameRing t t' → total t' n ≡ total t n
  unfolding total
  same_total t t' zero s = refl
  same_total t t' (suc n) s = rw (same_total t t' n s, same_get t t' n s)

  -- What is left after `s_dynamic_table_shrink`: the newest elements of the same buffer, and as many
  -- of them as fit, since the last one that went did not fit.
  pub record IsShrunk (max_size : ℕ) (t t' : Table T) : Type 0 where
    pub same_ring : SameRing t t'
    pub fewer : t'.num_elements ≤ t.num_elements
    pub sized : IsSized t'
    pub fits : t'.size ≤ max_size
    pub needed : (t'.num_elements ≡ t.num_elements) ⊎ (max_size < total t (suc t'.num_elements))

module _ {T : Type 0} (l : Lookups T) where
  evict_kept :
      (n : ℕ) (t : Table T) {t' : Table T}
      → t.num_elements ≡ suc n
      → IsSized t
      → evict l n t ≡ (t', false)
      → SameRing t t' × (t'.num_elements ≡ n) × IsSized t'
  unfolding evict total
  evict_kept n t {t'} e s r =
      let ring : SameRing t t' = record {
        same_buffer = ground arith;
        same_capacity = ground arith;
        same_index_0 = ground arith;
        same_max_size = ground arith;
      } in
      let num : t'.num_elements ≡ n = ground arith in
      let back : ℕ = get_header_size (dynamic_table_get t n) in
      let size : t'.size ≡ sub_u64 t.size back = ground arith in
      let sum : t.size ≡ total t (suc n) = s.sum ∙ ap (total t) e in
      let step : total t (suc n) ≡ total t n + back = refl in
      let left : t'.size ≡ total t n = ground arith in
      (
        ring,
        num,
        record {
          sum = left ∙ sym (same_total t t' n ring) ∙ ap (total t') (sym num);
          word = ground arith;
        },
      )

  kept_all :
      (t : Table T) (max_size : ℕ) {t' : Table T}
      → t' ≡ t
      → IsSized t
      → t.size ≤ max_size
      → IsShrunk max_size t t'
  kept_all t max_size e s fits = record {
    same_ring = record {
      same_buffer = ap (λ z. z.buffer) e;
      same_capacity = ap (λ z. z.buffer_capacity) e;
      same_index_0 = ap (λ z. z.index_0) e;
      same_max_size = ap (λ z. z.max_size) e;
    };
    fewer = omega (arith, ap (λ z. z.num_elements) e);
    sized = subst IsSized (sym e) s;
    fits = omega (arith, ap (λ z. z.size) e);
    needed = inl (ap (λ z. z.num_elements) e);
  }

  one_more :
      (n : ℕ) (t t₁ : Table T) (max_size : ℕ) {t' : Table T}
      → t.num_elements ≡ suc n
      → t₁.num_elements ≡ n
      → t.size ≡ total t (suc n)
      → max_size < t.size
      → SameRing t t₁
      → IsShrunk max_size t₁ t'
      → IsShrunk max_size t t'
  one_more n t t₁ max_size {t'} e num sum large ring k = record {
    same_ring = record {
      same_buffer = k.same_ring.same_buffer ∙ ring.same_buffer;
      same_capacity = k.same_ring.same_capacity ∙ ring.same_capacity;
      same_index_0 = k.same_ring.same_index_0 ∙ ring.same_index_0;
      same_max_size = k.same_ring.same_max_size ∙ ring.same_max_size;
    };
    fewer = let f = k.fewer in omega arith;
    sized = k.sized;
    fits = k.fits;
    needed = inr (elim k.needed [
      | inl same ↦
          let here : suc t'.num_elements ≡ suc n = ap suc (same ∙ num) in
          omega (arith, ap (total t) here)
      | inr more ↦ omega (arith, same_total t t₁ (suc t'.num_elements) ring)
    ]);
  }

  shrink_to_kept :
      (n : ℕ) (t : Table T) (max_size : ℕ) {t' : Table T}
      → t.num_elements ≡ n
      → IsSized t
      → shrink_to l n t max_size ≡ (t', false)
      → IsShrunk max_size t t'
  unfolding shrink_to total
  shrink_to_kept zero t max_size e s r =
      let none_left : t.size ≡ 0 = s.sum ∙ ap (total t) e in
      kept_all t max_size (ap (λ z. z.0) (sym r)) s (omega arith)
  shrink_to_kept (suc n) t max_size {t'} e s r = elim (Bool-cases (ltb max_size t.size)) [
    | inr fits ↦ kept_all t max_size (ground arith) s (ground arith)
    | inl large ↦
        let t₁ : Table T = (evict l n t).0 in
        let went : (evict l n t).1 ≡ false = ground arith in
        let (ring, num, s₁) = evict_kept n t e s (ap (λ b. (t₁, b)) went) in
        let left : shrink_to l n t₁ max_size ≡ (t', false) = ground arith in
        one_more n t t₁ max_size e num (s.sum ∙ ap (total t) e) (ground arith) ring
          (shrink_to_kept n t₁ max_size num s₁ left)
  ]

  -- Shrinking a table whose size is the sum of its elements', where the lookup tables do not fail,
  -- leaves a table that fits and whose size is the sum of its elements': the newest elements are kept,
  -- in their places, and the last element that went did not fit beside them.
  pub shrink-IsShrunk :
      (t : Table T) (max_size : ℕ) {t' : Table T}
      → IsSized t
      → shrink l t max_size ≡ (t', false)
      → IsShrunk max_size t t'
  unfolding shrink
  shrink-IsShrunk t max_size s r = shrink_to_kept t.num_elements t max_size refl s r
