-- ===== src/Hpack/Table/Runs.antt =====
-- Runs of the dynamic table on a few headers.
use aws_c_http.Prelude.{ℕ, ◌+◌, ◌≡◌, refl, false, [], ◌∷◌, arith}
use aws_c_http.Hpack.Table.Ring
use aws_c_http.Hpack.Table.Ring.{
  Header, use_cache, empty_header, get_header_size, Lookups, Table, dynamic_table_get,
}
use aws_c_http.Hpack.Table.Operations.{
  shrink, shrink_to, evict, push_front, insert_header, grow_if_full, grown_capacity, resize_buffer,
  unrolled, reinsert, insert_with_room,
}
use aws_c_http.Hpack.Table.Eviction.{IsSized, IsShrunk, shrink-IsShrunk, total}
use aws_c_http.Hpack.Table.Growth.{insert_header-full_single}

-- Lookup tables that count the calls.
abbrev counting : Lookups ℕ
counting = record {
  clear = λ n. n + 1;
  put = λ n h i. (n + 1, false);
  put_name = λ n h i. (n + 1, false);
  remove = λ n h. (n + 1, false);
  remove_name = λ n h i. (n + 1, false);
}

abbrev short : Header
short = record { name = 0x61 ∷ []; value = []; compression = use_cache }

abbrev long : Header
long = record { name = 0x62 ∷ 0x63 ∷ []; value = 0x64 ∷ []; compression = use_cache }

-- The newest element, `short`, stands in the last slot.
abbrev two_headers : Table ℕ
two_headers = record {
  buffer = long ∷ empty_header ∷ short ∷ [];
  buffer_capacity = 3;
  num_elements = 2;
  index_0 = 2;
  size = 68;
  max_size = 4096;
  lookup = 0;
}

two_headers-IsSized : IsSized two_headers
unfolding total dynamic_table_get get_header_size
two_headers-IsSized = record { sum = refl; word = omega arith }

shrinks :
    shrink counting two_headers 40
    ≡ (record two_headers { num_elements = 1; size = 33; lookup = 2 }, false)
unfolding shrink shrink_to evict get_header_size dynamic_table_get
shrinks = refl

shrink-IsShrunk_example :
    IsShrunk 40 two_headers (record two_headers { num_elements = 1; size = 33; lookup = 2 })
shrink-IsShrunk_example = shrink-IsShrunk counting two_headers 40 two_headers-IsSized shrinks

abbrev three_headers : Table ℕ
three_headers = record two_headers {
  buffer = long ∷ long ∷ short ∷ [];
  num_elements = 3;
  index_0 = 1;
  size = 103;
  lookup = 2;
}

-- What `aws_hpack_resize_dynamic_table` leaves of a table of one element.
abbrev single : Table ℕ
single = record {
  buffer = short ∷ [];
  buffer_capacity = 1;
  num_elements = 1;
  index_0 = 0;
  size = 33;
  max_size = 100;
  lookup = 0;
}

abbrev overfull : Table ℕ
overfull = record single { buffer = long ∷ []; num_elements = 2; size = 68; lookup = 5 }

overfills : insert_header counting single long ≡ (overfull, false)
unfolding insert_header get_header_size shrink shrink_to insert_with_room grow_if_full resize_buffer
    reinsert grown_capacity push_front unrolled Ring.slot
overfills = refl

insert_header-full_single_example :
    (overfull.num_elements ≡ 2)
    × (overfull.buffer_capacity ≡ 1)
    × (dynamic_table_get overfull 1 ≡ dynamic_table_get overfull 0)
unfolding get_header_size
insert_header-full_single_example =
    insert_header-full_single counting single long refl refl (omega arith) (omega arith)
      (omega arith) overfills
