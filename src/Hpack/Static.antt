-- ===== src/Hpack/Static.antt =====
-- The static table of source/hpack.c, from include/aws/http/private/hpack_header_static_table.def, and
-- the lookups of `aws_hpack_find_index`.
use Prim.Native.Char.{code}
use Prim.Native.String.{String}
use aws_c_http.Prelude.{
  ℕ, Bool, true, false, not, Option, none, some, List, [], ◌∷◌, leb, ◌==◌, if◌then◌else◌, get_or,
}
use aws_c_http.Prelude.Words.{add_u64, sub_u64}
use aws_c_http.Hpack.Table.Ring.{
  Header, empty_header, use_cache, Table, Entry, static_entry, dynamic_entry, invalid_index,
  static_header_table_size,
}

-- The bytes of a string literal.
abbrev bytes : String → List ℕ
bytes String.[] = []
bytes (String.◌∷◌ c s) = code c ∷ bytes s

abbrev static : String → String → Header
static name value = record { name = bytes name; value = bytes value; compression = use_cache }

-- Entry 0 is not used.
unfoldable pub static_header_table : List Header
static_header_table =
    empty_header
    ∷ static ":authority" ""
    ∷ static ":method" "GET"
    ∷ static ":method" "POST"
    ∷ static ":path" "/"
    ∷ static ":path" "/index.html"
    ∷ static ":scheme" "http"
    ∷ static ":scheme" "https"
    ∷ static ":status" "200"
    ∷ static ":status" "204"
    ∷ static ":status" "206"
    ∷ static ":status" "304"
    ∷ static ":status" "400"
    ∷ static ":status" "404"
    ∷ static ":status" "500"
    ∷ static "accept-charset" ""
    ∷ static "accept-encoding" "gzip,deflate"
    ∷ static "accept-language" ""
    ∷ static "accept-ranges" ""
    ∷ static "accept" ""
    ∷ static "access-control-allow-origin" ""
    ∷ static "age" ""
    ∷ static "allow" ""
    ∷ static "authorization" ""
    ∷ static "cache-control" ""
    ∷ static "content-disposition" ""
    ∷ static "content-encoding" ""
    ∷ static "content-language" ""
    ∷ static "content-length" ""
    ∷ static "content-location" ""
    ∷ static "content-range" ""
    ∷ static "content-type" ""
    ∷ static "cookie" ""
    ∷ static "date" ""
    ∷ static "etag" ""
    ∷ static "expect" ""
    ∷ static "expires" ""
    ∷ static "from" ""
    ∷ static "host" ""
    ∷ static "if-match" ""
    ∷ static "if-modified-since" ""
    ∷ static "if-none-match" ""
    ∷ static "if-range" ""
    ∷ static "if-unmodified-since" ""
    ∷ static "last-modified" ""
    ∷ static "link" ""
    ∷ static "location" ""
    ∷ static "max-forwards" ""
    ∷ static "proxy-authenticate" ""
    ∷ static "proxy-authorization" ""
    ∷ static "range" ""
    ∷ static "referer" ""
    ∷ static "refresh" ""
    ∷ static "retry-after" ""
    ∷ static "server" ""
    ∷ static "set-cookie" ""
    ∷ static "strict-transport-security" ""
    ∷ static "transfer-encoding" ""
    ∷ static "user-agent" ""
    ∷ static "vary" ""
    ∷ static "via" ""
    ∷ static "www-authenticate" ""
    ∷ []

-- The header that `aws_hpack_get_header` points to; `none` is the null pointer.
unfoldable pub entry_header : Entry → Option Header
unfolding static_header_table
entry_header (static_entry index) = some (get_or static_header_table index empty_header)
entry_header (dynamic_entry h) = some h
entry_header invalid_index = none

-- What `aws_hash_table_find` gives in the four reverse lookup tables: in those of whole headers the
-- length of the value of the key that was found, and its index. The tables of the dynamic table are
-- part of a state `T`.
pub record Finds (T : Type 0) : Type 0 where
  pub find_static : Header → Option (ℕ × ℕ)
  pub find_static_name : List ℕ → Option ℕ
  pub find : T → Header → Option (ℕ × ℕ)
  pub find_name : T → List ℕ → Option ℕ

module _ {T : Type 0} where
  -- `trans_index_from_dynamic_table`
  unfoldable pub trans_index : Table T → ℕ → ℕ
  trans_index t absolute_index =
      let index =
        if leb t.index_0 absolute_index
        then sub_u64 absolute_index t.index_0
        else add_u64 (sub_u64 t.buffer_capacity t.index_0) absolute_index in
      add_u64 index static_header_table_size

  -- The lookup of the name alone.
  unfoldable pub find_name_index : Finds T → Table T → List ℕ → ℕ
  unfolding trans_index
  find_name_index f t name = elim (f.find_static_name name) [
    | some index ↦ index
    | none ↦ elim (f.find_name t.lookup name) [ some index ↦ trans_index t index | none ↦ 0 ]
  ]

  -- The index, and whether the value was found with it.
  unfoldable pub find_index : Finds T → Table T → Header → Bool → ℕ × Bool
  unfolding find_name_index
  find_index f t header false = (find_name_index f t header.name, false)
  find_index f t header true = elim (f.find_static header) [
    | some (value_len, index) ↦ (index, not (value_len == 0))
    | none ↦ elim (f.find t.lookup header) [
      | some (value_len, index) ↦ (trans_index t index, not (value_len == 0))
      | none ↦ (find_name_index f t header.name, false)
    ]
  ]
