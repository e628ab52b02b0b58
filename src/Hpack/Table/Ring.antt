-- ===== src/Hpack/Table/Ring.antt =====
-- The ring buffer of the dynamic table of source/hpack.c, and what the table takes from aws-c-common.
use aws_c_http.Prelude.{
  ℕ, ◌-◌, ◌%◌, Bool, ◌||◌, List, [], ltb, leb, ◌==◌, if◌then◌else◌, length, get_or,
}
use aws_c_http.Prelude.Words.{add_u64}

pub data Compression : Type 0 where
  use_cache no_cache no_forward_cache : Compression

-- `struct aws_http_header`: a cursor is the list of its bytes.
pub record Header : Type 0 where
  pub name : List ℕ
  pub value : List ℕ
  pub compression : Compression

-- A slot of a buffer that `aws_mem_calloc` has cleared.
abbrev pub empty_header : Header
empty_header = record { name = []; value = []; compression = use_cache }

unfoldable pub get_header_size : Header → ℕ
get_header_size h = add_u64 (add_u64 (length h.name) (length h.value)) 32

-- The two reverse lookup tables, of aws-c-common's hash tables, as one state `T`; the flag beside a
-- new state is C's error. `remove_name` is the name's removal where it points to the slot given.
pub record Lookups (T : Type 0) : Type 0 where
  pub clear : T → T
  pub put : T → Header → ℕ → T × Bool
  pub put_name : T → Header → ℕ → T × Bool
  pub remove : T → Header → T × Bool
  pub remove_name : T → Header → ℕ → T × Bool

-- `dynamic_table` of `struct aws_hpack_context`
pub record Table (T : Type 0) : Type 0 where
  pub buffer : List Header
  pub buffer_capacity : ℕ
  pub num_elements : ℕ
  pub index_0 : ℕ
  pub size : ℕ
  pub max_size : ℕ
  pub lookup : T

-- The entry that a pointer into the static or the dynamic table points to.
pub data Entry : Type 0 where
  static_entry : ℕ → Entry
  dynamic_entry : Header → Entry
  invalid_index : Entry

-- Entry 0 of the static table is not used.
abbrev pub static_header_table_size : ℕ
static_header_table_size = 62

module _ {T : Type 0} where
  unfoldable pub slot : Table T → ℕ → ℕ
  slot t index = add_u64 t.index_0 index % t.buffer_capacity

  unfoldable pub dynamic_table_get : Table T → ℕ → Header
  unfolding slot
  dynamic_table_get t index = get_or t.buffer (slot t index) empty_header

  unfoldable pub get_dynamic_table_num_elements : Table T → ℕ
  get_dynamic_table_num_elements t = t.num_elements

  unfoldable pub get_dynamic_table_max_size : Table T → ℕ
  get_dynamic_table_max_size t = t.max_size

  unfoldable pub get_header : Table T → ℕ → Entry
  unfolding dynamic_table_get
  get_header t index =
      if index == 0 || leb (add_u64 static_header_table_size t.num_elements) index
      then invalid_index
      else (if ltb index static_header_table_size
          then static_entry index
          else dynamic_entry (dynamic_table_get t (index - static_header_table_size)))
