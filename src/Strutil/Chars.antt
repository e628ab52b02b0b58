-- ===== src/Strutil/Chars.antt =====
-- The tables and the functions of source/strutil.c. A cursor is the list of its bytes.
use aws_c_http.Prelude.{
  ℕ, zero, suc, ◌-◌, Bool, true, false, not, ◌&&◌, ◌||◌, List, [], ◌∷◌, leb, ◌==◌, if◌then◌else◌,
  length, get_or, take, drop,
}

-- A table of 256 entries is the test of a byte; `listed` is one that names its entries.
unfoldable pub listed : List ℕ → ℕ → Bool
listed [] c = false
listed (x ∷ xs) c = c == x || listed xs c

unfoldable pub between : ℕ → ℕ → ℕ → Bool
between a b c = leb a c && leb c b

-- ' ' and '\t'
unfoldable pub http_whitespace_table : ℕ → Bool
unfolding listed
http_whitespace_table = listed (0x20 ∷ 0x09 ∷ [])

-- ! # $ % & ' * + - . ^ _ ` | ~
abbrev pub token_punctuation : List ℕ
token_punctuation =
    0x21 ∷ 0x23 ∷ 0x24 ∷ 0x25 ∷ 0x26 ∷ 0x27 ∷ 0x2a ∷ 0x2b ∷ 0x2d ∷ 0x2e ∷ 0x5e ∷ 0x5f ∷ 0x60 ∷ 0x7c
    ∷ 0x7e ∷ []

-- Punctuation, '0' to '9', 'A' to 'Z', 'a' to 'z'.
unfoldable pub http_token_table : ℕ → Bool
unfolding listed between
http_token_table c =
    listed token_punctuation c
    || (between 0x30 0x39 c || (between 0x41 0x5a c || between 0x61 0x7a c))

unfoldable pub http_lowercase_token_table : ℕ → Bool
unfolding listed between
http_lowercase_token_table c =
    listed token_punctuation c || (between 0x30 0x39 c || between 0x61 0x7a c)

-- '\t', ' ', VCHAR and obs-text.
unfoldable pub http_field_content_table : ℕ → Bool
unfolding listed between
http_field_content_table c =
    listed (0x09 ∷ 0x20 ∷ []) c || (between 0x21 0x7e c || between 0x80 0xff c)

-- The loops that return false at the first byte the table refuses.
unfoldable pub all_chars : (ℕ → Bool) → List ℕ → Bool
all_chars t [] = true
all_chars t (c ∷ cs) = let rest = all_chars t cs in if not (t c) then false else rest

-- `s_trim`: how far the first loop counts, and where the second one stops.
unfoldable pub leading : (ℕ → Bool) → List ℕ → ℕ
leading t [] = 0
leading t (c ∷ cs) = let rest = leading t cs in if not (t c) then 0 else suc rest

unfoldable pub trailing : (ℕ → Bool) → List ℕ → ℕ → ℕ
trailing t cs zero = 0
trailing t cs (suc len) =
    let rest = trailing t cs len in if not (t (get_or cs len 0)) then suc len else rest

unfoldable pub trim : (ℕ → Bool) → List ℕ → List ℕ
unfolding leading trailing
trim t cursor =
    let rest = drop (leading t cursor) cursor in take (trailing t rest (length rest)) rest

unfoldable pub trim_http_whitespace : List ℕ → List ℕ
trim_http_whitespace cursor = trim http_whitespace_table cursor

unfoldable pub is_token : (ℕ → Bool) → List ℕ → Bool
unfolding all_chars
is_token t token = if length token == 0 then false else all_chars t token

unfoldable pub is_http_token : List ℕ → Bool
unfolding is_token
is_http_token token = is_token http_token_table token

unfoldable pub is_lowercase_http_token : List ℕ → Bool
unfolding is_token
is_lowercase_http_token token = is_token http_lowercase_token_table token

unfoldable pub is_http_field_value : List ℕ → Bool
unfolding all_chars
is_http_field_value cursor =
    if length cursor == 0
    then true
    else (if http_whitespace_table (get_or cursor 0 0)
          || http_whitespace_table (get_or cursor (length cursor - 1) 0)
        then false
        else all_chars http_field_content_table cursor)

unfoldable pub is_http_reason_phrase : List ℕ → Bool
unfolding all_chars
is_http_reason_phrase cursor = all_chars http_field_content_table cursor

unfoldable pub is_http_request_target : List ℕ → Bool
unfolding all_chars
is_http_request_target cursor =
    if length cursor == 0 then false else all_chars (λ c. not (leb c 0x20)) cursor

unfoldable pub is_http_pseudo_header_name : List ℕ → Bool
is_http_pseudo_header_name cursor =
    if length cursor == 0 then false else (if not (get_or cursor 0 0 == 0x3a) then false else true)
