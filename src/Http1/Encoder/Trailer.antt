-- ===== src/Http1/Encoder/Trailer.antt =====
-- The trailer of source/h1_encoder.c.
use aws_c_http.Prelude.{ℕ, Bool, false, ◌||◌, List, [], ◌∷◌, if◌then◌else◌}
use aws_c_http.Hpack.Table.Ring.{Header}
use aws_c_http.Http1.Messages.{invalid_header_field, Result, raised, ◌>>=◌}
use aws_c_http.Http1.Decoder.Types.{Common}
use aws_c_http.Http1.Encoder.Scan.{add_size_checked, add_line, check_header}

-- The names that a trailing header must not have.
abbrev pub forbidden_in_trailer : List (List ℕ)
forbidden_in_trailer =
    (b't' ∷ b'r' ∷ b'a' ∷ b'n' ∷ b's' ∷ b'f' ∷ b'e' ∷ b'r' ∷ b'-' ∷ b'e' ∷ b'n' ∷ b'c' ∷ b'o' ∷ b'd'
      ∷ b'i' ∷ b'n' ∷ b'g' ∷ [])
    ∷ (b'c' ∷ b'o' ∷ b'n' ∷ b't' ∷ b'e' ∷ b'n' ∷ b't' ∷ b'-' ∷ b'l' ∷ b'e' ∷ b'n' ∷ b'g' ∷ b't'
        ∷ b'h' ∷ [])
    ∷ (b'h' ∷ b'o' ∷ b's' ∷ b't' ∷ [])
    ∷ (b'e' ∷ b'x' ∷ b'p' ∷ b'e' ∷ b'c' ∷ b't' ∷ [])
    ∷ (b'c' ∷ b'a' ∷ b'c' ∷ b'h' ∷ b'e' ∷ b'-' ∷ b'c' ∷ b'o' ∷ b'n' ∷ b't' ∷ b'r' ∷ b'o' ∷ b'l'
        ∷ [])
    ∷ (b'm' ∷ b'a' ∷ b'x' ∷ b'-' ∷ b'f' ∷ b'o' ∷ b'r' ∷ b'w' ∷ b'a' ∷ b'r' ∷ b'd' ∷ b's' ∷ [])
    ∷ (b'p' ∷ b'r' ∷ b'a' ∷ b'g' ∷ b'm' ∷ b'a' ∷ [])
    ∷ (b'r' ∷ b'a' ∷ b'n' ∷ b'g' ∷ b'e' ∷ [])
    ∷ (b't' ∷ b'e' ∷ [])
    ∷ (b'c' ∷ b'o' ∷ b'n' ∷ b't' ∷ b'e' ∷ b'n' ∷ b't' ∷ b'-' ∷ b'e' ∷ b'n' ∷ b'c' ∷ b'o' ∷ b'd'
        ∷ b'i' ∷ b'n' ∷ b'g' ∷ [])
    ∷ (b'c' ∷ b'o' ∷ b'n' ∷ b't' ∷ b'e' ∷ b'n' ∷ b't' ∷ b'-' ∷ b't' ∷ b'y' ∷ b'p' ∷ b'e' ∷ [])
    ∷ (b'c' ∷ b'o' ∷ b'n' ∷ b't' ∷ b'e' ∷ b'n' ∷ b't' ∷ b'-' ∷ b'r' ∷ b'a' ∷ b'n' ∷ b'g' ∷ b'e'
        ∷ [])
    ∷ (b't' ∷ b'r' ∷ b'a' ∷ b'i' ∷ b'l' ∷ b'e' ∷ b'r' ∷ [])
    ∷ (b'w' ∷ b'w' ∷ b'w' ∷ b'-' ∷ b'a' ∷ b'u' ∷ b't' ∷ b'h' ∷ b'e' ∷ b'n' ∷ b't' ∷ b'i' ∷ b'c'
        ∷ b'a' ∷ b't' ∷ b'e' ∷ [])
    ∷ (b'a' ∷ b'u' ∷ b't' ∷ b'h' ∷ b'o' ∷ b'r' ∷ b'i' ∷ b'z' ∷ b'a' ∷ b't' ∷ b'i' ∷ b'o' ∷ b'n'
        ∷ [])
    ∷ (b'p' ∷ b'r' ∷ b'o' ∷ b'x' ∷ b'y' ∷ b'-' ∷ b'a' ∷ b'u' ∷ b't' ∷ b'h' ∷ b'e' ∷ b'n' ∷ b't'
        ∷ b'i' ∷ b'c' ∷ b'a' ∷ b't' ∷ b'e' ∷ [])
    ∷ (b'p' ∷ b'r' ∷ b'o' ∷ b'x' ∷ b'y' ∷ b'-' ∷ b'a' ∷ b'u' ∷ b't' ∷ b'h' ∷ b'o' ∷ b'r' ∷ b'i'
        ∷ b'z' ∷ b'a' ∷ b't' ∷ b'i' ∷ b'o' ∷ b'n' ∷ [])
    ∷ (b's' ∷ b'e' ∷ b't' ∷ b'-' ∷ b'c' ∷ b'o' ∷ b'o' ∷ b'k' ∷ b'i' ∷ b'e' ∷ [])
    ∷ (b'c' ∷ b'o' ∷ b'o' ∷ b'k' ∷ b'i' ∷ b'e' ∷ [])
    ∷ (b'a' ∷ b'g' ∷ b'e' ∷ [])
    ∷ (b'e' ∷ b'x' ∷ b'p' ∷ b'i' ∷ b'r' ∷ b'e' ∷ b's' ∷ [])
    ∷ (b'd' ∷ b'a' ∷ b't' ∷ b'e' ∷ [])
    ∷ (b'l' ∷ b'o' ∷ b'c' ∷ b'a' ∷ b't' ∷ b'i' ∷ b'o' ∷ b'n' ∷ [])
    ∷ (b'r' ∷ b'e' ∷ b't' ∷ b'r' ∷ b'y' ∷ b'-' ∷ b'a' ∷ b'f' ∷ b't' ∷ b'e' ∷ b'r' ∷ [])
    ∷ (b'v' ∷ b'a' ∷ b'r' ∷ b'y' ∷ [])
    ∷ (b'w' ∷ b'a' ∷ b'r' ∷ b'n' ∷ b'i' ∷ b'n' ∷ b'g' ∷ [])
    ∷ []

module _ (c : Common) where
  -- The name is one of the listed ones, whatever its case.
  unfoldable pub is_among : List (List ℕ) → List ℕ → Bool
  is_among [] name = false
  is_among (text ∷ texts) name = c.eq_ignore_case text name || is_among texts name

  unfoldable pub scan_trailing_header : Header → ℕ → Result ℕ
  unfolding is_among check_header add_line
  scan_trailing_header header total = do
    field_value ← check_header header
    if is_among forbidden_in_trailer header.name
        then raised invalid_header_field
        else add_line header total

  unfoldable pub scan_trailing_headers : List Header → ℕ → Result ℕ
  unfolding scan_trailing_header
  scan_trailing_headers [] total = add_size_checked 2 total
  scan_trailing_headers (header ∷ headers) total =
      scan_trailing_header header total >>= scan_trailing_headers headers

  unfoldable pub scan_outgoing_trailer : List Header → Result ℕ
  unfolding scan_trailing_headers
  scan_outgoing_trailer headers = scan_trailing_headers headers 0
