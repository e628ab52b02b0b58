-- ===== src/Hpack/Table/Insertion.antt =====
-- The front of the ring buffer: `aws_hpack_insert_header` of source/hpack.c past its checks.
use aws_c_http.Prelude.{ℕ, ◌-◌, ◌^◌, ◌≤◌, ◌<◌, ◌≡◌, ◌==◌, if◌then◌else◌, length}
use aws_c_http.Prelude.Words.{sub_u64}
use aws_c_http.Hpack.Table.Ring.{Table}

module _ {T : Type 0} where
  -- A ring buffer that is filled up to its capacity at most, with room for the sums of its indices.
  pub record IsRing (t : Table T) : Type 0 where
    pub all_slots : length t.buffer ≡ t.buffer_capacity
    pub start : t.index_0 < t.buffer_capacity
    pub filled : t.num_elements ≤ t.buffer_capacity
    pub word : t.buffer_capacity ≤ 2 ^ 63

  -- The slot in front of the first one.
  abbrev front : Table T → ℕ
  front t = if t.index_0 == 0 then sub_u64 t.buffer_capacity 1 else t.index_0 - 1
