-- ===== src/Http1/Encoder/OneLine.antt =====
-- What source/h1_encoder.c accepts has no byte that ends a line.
use aws_c_http.Prelude.{ℕ, ◌≡◌, ◌≢◌, sym, Bool, true, not, List, [], ◌∷◌, ◌++◌, All, leb, arith}
use mathlib.Core.Path.{subst}
use aws_c_http.Strutil.Chars.{
  listed, between, http_token_table, http_field_content_table, http_whitespace_table, all_chars,
  is_token, is_http_token, is_http_field_value, is_http_request_target, trim_http_whitespace,
}
use aws_c_http.Strutil.Trim.{trim-split}

-- Neither '\r' nor '\n'.
abbrev pub IsInLine : ℕ → Type 0
IsInLine b = (b ≢ 0x0d) × (b ≢ 0x0a)

abbrev pub IsOneLine : List ℕ → Type 0
IsOneLine xs = All IsInLine xs

pub OneLine-append : (xs ys : List ℕ) → IsOneLine xs → IsOneLine ys → IsOneLine (xs ++ ys)
OneLine-append [] ys h k = k
OneLine-append (x ∷ xs) ys h k = (h.0, OneLine-append xs ys h.1 k)

all_chars-IsOneLine :
    (t : ℕ → Bool)
    → ((b : ℕ) → t b ≡ true → IsInLine b)
    → (xs : List ℕ) → all_chars t xs ≡ true
    → IsOneLine xs
unfolding all_chars
all_chars-IsOneLine t h [] q = tt
all_chars-IsOneLine t h (x ∷ xs) q =
    let first : t x ≡ true = ground (arith, q) in
    (h x first, all_chars-IsOneLine t h xs (ground (arith, q)))

token_char : (b : ℕ) → http_token_table b ≡ true → IsInLine b
unfolding http_token_table listed between
token_char b q = ground (arith, q)

content_char : (b : ℕ) → http_field_content_table b ≡ true → IsInLine b
unfolding http_field_content_table listed between
content_char b q = ground (arith, q)

blank_char : (b : ℕ) → http_whitespace_table b ≡ true → IsInLine b
unfolding http_whitespace_table listed
blank_char b q = ground (arith, q)

pub token-IsOneLine : (xs : List ℕ) → is_http_token xs ≡ true → IsOneLine xs
unfolding is_http_token is_token
token-IsOneLine xs q = all_chars-IsOneLine http_token_table token_char xs (ground (arith, q))

pub target-IsOneLine : (xs : List ℕ) → is_http_request_target xs ≡ true → IsOneLine xs
unfolding is_http_request_target
target-IsOneLine xs q =
    all_chars-IsOneLine _ (λ (b : ℕ) (above : not (leb b 0x20) ≡ true). ground (arith, above)) xs
      (ground (arith, q))

field_value-IsOneLine : (xs : List ℕ) → is_http_field_value xs ≡ true → IsOneLine xs
unfolding is_http_field_value
field_value-IsOneLine [] q = tt
field_value-IsOneLine (x ∷ xs) q =
    all_chars-IsOneLine http_field_content_table content_char (x ∷ xs) (ground (arith, q))

-- The value whose trimmed form is a field value.
pub trimmed-IsOneLine :
    (xs : List ℕ) → is_http_field_value (trim_http_whitespace xs) ≡ true → IsOneLine xs
unfolding trim_http_whitespace
trimmed-IsOneLine xs q =
    let (pre, suf, split, before, after, trimmed) = trim-split http_whitespace_table xs in
    let blank = all_chars-IsOneLine http_whitespace_table blank_char in
    subst IsOneLine (sym split) (
      OneLine-append pre _ (blank pre before)
        (OneLine-append _ suf (field_value-IsOneLine _ q) (blank suf after)))
