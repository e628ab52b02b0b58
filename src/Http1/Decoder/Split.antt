-- ===== src/Http1/Decoder/Split.antt =====
-- The functions of source/h1_decoder.c that split a line, and the search for its end.
use aws_c_http.Prelude.{
  ℕ, zero, suc, Bool, true, false, ◌&&◌, Option, none, some, List, [], ◌∷◌, ◌==◌, if◌then◌else◌,
  take, drop,
}
use mathlib.Core.Option
use aws_c_http.Http1.Decoder.Types.{Span, Common}

-- `s_scan_for_crlf`, with the byte in front of the input and the bytes scanned so far: how many bytes
-- there are up to the end of the line, and whether it was found.
unfoldable pub scan_for_crlf : ℕ → List ℕ → ℕ → ℕ × Bool
scan_for_crlf prev_char [] scanned = (scanned, false)
scan_for_crlf prev_char (c ∷ cs) scanned =
    let rest = scan_for_crlf c cs (suc scanned) in
    if c == b'\n' && prev_char == b'\r' then (suc scanned, true) else rest

-- The last byte of the scratch space, or 0.
unfoldable pub last_or_zero : List ℕ → ℕ
last_or_zero [] = 0
last_or_zero (c ∷ []) = c
last_or_zero (c ∷ (c' ∷ cs)) = last_or_zero (c' ∷ cs)

abbrev pub cursor_at : List ℕ → Span → List ℕ
cursor_at input s = take s.size (drop s.offset input)

-- `s_cursor_split_impl` on the cursors that the splitting gives, for `num_cursors` of at least one.
unfoldable pub split_impl : List ℕ → List Span → ℕ → Bool → Option (List (List ℕ))
split_impl input spans zero error_if_more = none
split_impl input [] (suc n) error_if_more = none
split_impl input (s ∷ []) (suc zero) true = some (cursor_at input s ∷ [])
split_impl input (s ∷ (s' ∷ ss)) (suc zero) true = none
split_impl input (s ∷ ss) (suc zero) false = some (drop s.offset input ∷ [])
split_impl input (s ∷ ss) (suc (suc n)) error_if_more =
    Option.map (◌∷◌ (cursor_at input s)) (split_impl input ss (suc n) error_if_more)

module _ (c : Common) where
  unfoldable pub split_first_n_times : List ℕ → ℕ → ℕ → Option (List (List ℕ))
  split_first_n_times input split_on n = split_impl input (c.splits input split_on) n false

  unfoldable pub split_exactly_n_times : List ℕ → ℕ → ℕ → Option (List (List ℕ))
  split_exactly_n_times input split_on n = split_impl input (c.splits input split_on) n true
