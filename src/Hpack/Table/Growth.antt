-- ===== src/Hpack/Table/Growth.antt =====
-- The growth of the ring buffer of source/hpack.c.
use aws_c_http.Prelude.{
  ℕ, zero, suc, ◌-◌, ◌%◌, ◌≤◌, ◌<◌, ◌≡◌, refl, sym, ap, ◌∙◌, inl, inr, true, false, Bool-cases, ltb,
  ◌==◌, if◌then◌else◌, get_or, arith,
}
use native.Mathlib.Nat.{mod-one}
use aws_c_http.Prelude.Words.{add_u64, sub_u64}
use aws_c_http.Hpack.Table.Ring.{
  Header, empty_header, get_header_size, Lookups, Table, slot, dynamic_table_get,
}
use aws_c_http.Hpack.Table.Operations.{
  shrink_to, shrink, reinsert, resize_buffer, grown_capacity, grow_if_full, push_front,
  insert_header, insert_with_room,
}

module _ {T : Type 0} (l : Lookups T) where
  shrink_to_idle :
      (n : ℕ) (t : Table T) (max_size : ℕ)
      → t.size ≤ max_size
      → shrink_to l n t max_size ≡ (t, false)
  unfolding shrink_to
  shrink_to_idle zero t max_size fits = refl
  shrink_to_idle (suc n) t max_size fits =
      let large : ltb max_size t.size ≡ false = ground arith in rw large refl

  shrink_idle : (t : Table T) (max_size : ℕ) → t.size ≤ max_size → shrink l t max_size ≡ (t, false)
  unfolding shrink
  shrink_idle t max_size fits = shrink_to_idle t.num_elements t max_size fits

  reinsert_keeps :
      (more i : ℕ) (t : Table T)
      → ((reinsert l more i t).0.num_elements ≡ t.num_elements)
        × ((reinsert l more i t).0.buffer_capacity ≡ t.buffer_capacity)
        × ((reinsert l more i t).0.index_0 ≡ t.index_0)
  unfolding reinsert
  reinsert_keeps zero i t = (refl, refl, refl)
  reinsert_keeps (suc more) i t =
      let h = get_or t.buffer i empty_header in
      let p = l.put t.lookup h i in
      let q = l.put_name p.0 h i in
      let (num, cap, start) = reinsert_keeps more (suc i) (record t { lookup = q.0 }) in
      elim (Bool-cases p.1) [
        | inl err ↦ rw err (refl, refl, refl)
        | inr err ↦ rw err (elim (Bool-cases q.1) [
          | inl err' ↦ rw err' (refl, refl, refl)
          | inr err' ↦ rw err' (num, cap, start)
        ])
      ]

  -- A full buffer of one slot, resized: it still has one slot and one element.
  resize_single :
      (t : Table T)
      → t.num_elements ≡ 1
      → ((resize_buffer l t 1).0.num_elements ≡ 1)
        × ((resize_buffer l t 1).0.buffer_capacity ≡ 1)
        × ((resize_buffer l t 1).0.index_0 ≡ 0)
  unfolding resize_buffer
  resize_single t one =
      let kept : (if ltb 1 t.num_elements then 1 else t.num_elements) ≡ 1 = ground arith in
      let (num, cap, start) = reinsert_keeps _ 0 _ in (num ∙ kept, cap, start)

  grow_single :
      (t : Table T)
      → t.num_elements ≡ 1
      → t.buffer_capacity ≡ 1
      → grow_if_full l t ≡ resize_buffer l t 1
  unfolding grow_if_full grown_capacity
  grow_single t one cap =
      let full : (t.num_elements == t.buffer_capacity) ≡ true = ground arith in
      let same : grown_capacity t.buffer_capacity ≡ 1 = ap grown_capacity cap in
      rw full (ap (resize_buffer l t) same)

  room_pushes :
      (t : Table T) (header : Header) {t' : Table T}
      → insert_with_room l t header ≡ (t', false)
      → push_front l (grow_if_full l t).0 header ≡ (t', false)
  unfolding insert_with_room
  room_pushes t header e = ground arith

  -- An insertion that passes the checks, needs no eviction and succeeds.
  insert_pushes :
      (t : Table T) (header : Header) {t' : Table T}
      → get_header_size header ≤ t.max_size
      → 0 < t.max_size
      → t.size ≤ t.max_size - get_header_size header
      → insert_header l t header ≡ (t', false)
      → push_front l (grow_if_full l t).0 header ≡ (t', false)
  unfolding insert_header
  insert_pushes t header {t'} fits room small e =
      let space : sub_u64 t.max_size (get_header_size header)
          ≡ t.max_size - get_header_size header =
        ground arith in
      let idle : shrink l t (sub_u64 t.max_size (get_header_size header)) ≡ (t, false) =
        shrink_idle t _ (omega arith) in
      let first : (t.max_size == 0) ≡ false = ground arith in
      let second : ltb t.max_size (get_header_size header) ≡ false = ground arith in
      let inserted : insert_header l t header ≡ insert_with_room l t header =
        rw (first, second, idle) in
      room_pushes t header (sym inserted ∙ e)

  push_front_fields :
      (t : Table T) (header : Header) {t' : Table T}
      → push_front l t header ≡ (t', false)
      → (t'.num_elements ≡ add_u64 t.num_elements 1) × (t'.buffer_capacity ≡ t.buffer_capacity)
  unfolding push_front
  push_front_fields t header {t'} e = (ground arith, ground arith)

  -- The growth rate leaves a capacity of one as it is. So an insertion into a full table of one
  -- element, where the new header fits beside it and nothing fails, leaves two elements in a buffer of
  -- one slot, and both indices give the same header.
  pub insert_header-full_single :
      (t : Table T) (header : Header) {t' : Table T}
      → t.num_elements ≡ 1
      → t.buffer_capacity ≡ 1
      → get_header_size header ≤ t.max_size
      → 0 < t.max_size
      → t.size ≤ t.max_size - get_header_size header
      → insert_header l t header ≡ (t', false)
      → (t'.num_elements ≡ 2)
        × (t'.buffer_capacity ≡ 1)
        × (dynamic_table_get t' 1 ≡ dynamic_table_get t' 0)
  unfolding dynamic_table_get slot
  insert_header-full_single t header {t'} one cap fits room small e =
      let pushed = insert_pushes t header fits room small e in
      let (num, capacity) = push_front_fields (grow_if_full l t).0 header pushed in
      let same : (grow_if_full l t).0 ≡ (resize_buffer l t 1).0 =
        ap (λ z. z.0) (grow_single t one cap) in
      let (num₁, cap₁, start₁) = resize_single t one in
      let cap' : t'.buffer_capacity ≡ 1 = capacity ∙ ap (λ z. z.buffer_capacity) same ∙ cap₁ in
      let num' : t'.num_elements ≡ 2 =
        num ∙ ap (λ z. add_u64 z.num_elements 1) same ∙ ap (λ k. add_u64 k 1) num₁ in
      (
        num',
        cap',
        ap (λ k. get_or t'.buffer k empty_header)
            (ap (λ c. add_u64 t'.index_0 1 % c) cap'
              ∙ mod-one (add_u64 t'.index_0 1)
              ∙ sym (mod-one (add_u64 t'.index_0 0))
              ∙ ap (λ c. add_u64 t'.index_0 0 % c) (sym cap')),
      )
