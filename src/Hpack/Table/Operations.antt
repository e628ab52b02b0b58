-- ===== src/Hpack/Table/Operations.antt =====
-- The operations that change the dynamic table of source/hpack.c. The flag beside a new table is C's
-- error. Allocation does not fail.
use aws_c_http.Prelude.{
  ℕ, zero, suc, ◌-◌, ◌*◌, ◌/◌, Bool, true, false, List, [], ◌++◌, ltb, ◌==◌, if◌then◌else◌, get_or,
  set, take, drop, replicate, min,
}
use aws_c_http.Prelude.Words.{add_u64, sub_u64}
use aws_c_http.Hpack.Table.Ring.{
  Header, empty_header, get_header_size, Lookups, Table, slot, dynamic_table_get,
}

abbrev pub initial_size : ℕ
initial_size = 4096

abbrev pub initial_elements : ℕ
initial_elements = 512

abbrev pub max_table_size : ℕ
max_table_size = 16 * 1024 * 1024

-- The dynamic table that `aws_hpack_context_init` makes.
unfoldable pub table_init : {T : Type 0} → T → Table T
table_init lookup = record {
  buffer = replicate initial_elements empty_header;
  buffer_capacity = initial_elements;
  num_elements = 0;
  index_0 = 0;
  size = 0;
  max_size = initial_size;
  lookup = lookup;
}

-- `(size_t)(buffer_capacity * 1.5F)`, which is exact below 2^24, or the initial size.
unfoldable pub grown_capacity : ℕ → ℕ
grown_capacity capacity = if capacity == 0 then initial_elements else capacity * 3 / 2

module _ {T : Type 0} (l : Lookups T) where
  -- One round of the loop of `s_dynamic_table_shrink`: the oldest of `suc n` elements goes.
  unfoldable pub evict : ℕ → Table T → Table T × Bool
  evict n t =
      let back = dynamic_table_get t n in
      let (lookup, err) = l.remove t.lookup back in
      let (lookup', err') = l.remove_name lookup back (slot t n) in
      let t' = record t { size = sub_u64 t.size (get_header_size back); num_elements = n } in
      if err then (record t' { lookup = lookup }, true) else (record t' { lookup = lookup' }, err')

  -- The loop, over the number of elements.
  unfoldable pub shrink_to : ℕ → Table T → ℕ → Table T × Bool
  shrink_to zero t max_size = (t, false)
  shrink_to (suc n) t max_size =
      let (t', err) = evict n t in
      let rest = shrink_to n t' max_size in
      if ltb max_size t.size then (if err then (t', true) else rest) else (t, false)

  unfoldable pub shrink : Table T → ℕ → Table T × Bool
  shrink t max_size = shrink_to t.num_elements t max_size

  -- The loop that puts the elements back into the lookup tables, from the `i`-th on.
  unfoldable pub reinsert : ℕ → ℕ → Table T → Table T × Bool
  reinsert zero i t = (t, false)
  reinsert (suc more) i t =
      let h = get_or t.buffer i empty_header in
      let (lookup, err) = l.put t.lookup h i in
      let (lookup', err') = l.put_name lookup h i in
      let rest = reinsert more (suc i) (record t { lookup = lookup' }) in
      if err
      then (record t { lookup = lookup }, true)
      else (if err' then (record t { lookup = lookup' }, true) else rest)

  -- The new buffer: the block from `index_0` on, and the block below it behind that one.
  unfoldable pub unrolled : Table T → ℕ → List Header
  unrolled t new_max_elements =
      let above = min (t.buffer_capacity - t.index_0) new_max_elements in
      let below = min (new_max_elements - above) (t.buffer_capacity - above) in
      take above (drop t.index_0 t.buffer)
      ++ (take below t.buffer ++ replicate (new_max_elements - above - below) empty_header)

  unfoldable pub resize_buffer : Table T → ℕ → Table T × Bool
  resize_buffer t new_max_elements =
      let new_buffer =
        if new_max_elements == 0
        then []
        else (if t.num_elements == 0
            then replicate new_max_elements empty_header
            else unrolled t new_max_elements) in
      let kept = if ltb new_max_elements t.num_elements then new_max_elements else t.num_elements in
      reinsert kept 0 (record t {
        buffer = new_buffer;
        buffer_capacity = new_max_elements;
        num_elements = kept;
        index_0 = 0;
        lookup = l.clear t.lookup;
      })

  -- The end of `aws_hpack_insert_header`, with room in the buffer.
  unfoldable pub push_front : Table T → Header → Table T × Bool
  push_front t header =
      let first = if t.index_0 == 0 then sub_u64 t.buffer_capacity 1 else t.index_0 - 1 in
      let t' = record t {
        index_0 = first;
        num_elements = add_u64 t.num_elements 1;
        size = add_u64 t.size (get_header_size header);
      } in
      let t'' = record t' { buffer = set t.buffer (slot t' 0) header } in
      let (lookup, err) = l.put t.lookup header first in
      let (lookup', err') = l.put_name lookup header first in
      if err
      then (record t'' { lookup = lookup }, true)
      else (record t'' { lookup = lookup' }, err')

  unfoldable pub grow_if_full : Table T → Table T × Bool
  grow_if_full t =
      if t.num_elements == t.buffer_capacity
      then resize_buffer t (grown_capacity t.buffer_capacity)
      else (t, false)

  -- `aws_hpack_insert_header` behind `s_dynamic_table_shrink`.
  unfoldable pub insert_with_room : Table T → Header → Table T × Bool
  insert_with_room t header =
      let (grown, err) = grow_if_full t in if err then (grown, true) else push_front grown header

  unfoldable pub insert_header : Table T → Header → Table T × Bool
  insert_header t header =
      let header_size = get_header_size header in
      let (shrunk, err) = shrink t (sub_u64 t.max_size header_size) in
      if t.max_size == 0
      then (t, false)
      else (if ltb t.max_size header_size
          then (t, true)
          else (if err then (shrunk, true) else insert_with_room shrunk header))

  unfoldable pub resize_dynamic_table : Table T → ℕ → Table T × Bool
  resize_dynamic_table t new_max_size =
      let (shrunk, shrink_err) = shrink t new_max_size in
      let (resized, resize_err) = resize_buffer shrunk shrunk.num_elements in
      if new_max_size == t.max_size
      then (t, false)
      else (if ltb max_table_size new_max_size
          then (t, true)
          else (if shrink_err
              then (shrunk, true)
              else (if resize_err
                  then (resized, true)
                  else (record resized { max_size = new_max_size }, false))))
