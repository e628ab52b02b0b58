-- ===== src/Strutil/Grammar.antt =====
-- How the grammar tests of source/strutil.c relate to each other and to trimming.
use aws_c_http.Prelude.{
  ℕ, zero, suc, ◌-◌, ◌<◌, ◌≡◌, refl, ap, sym, ◌∙◌, inl, inr, Bool, true, false, not, ◌&&◌, ◌||◌,
  List, [], ◌∷◌, ◌++◌, leb, length, get_or, arith,
}
use aws_c_http.Strutil.Chars.{
  listed, between, all_chars, trim, http_whitespace_table, http_token_table,
  http_lowercase_token_table, http_field_content_table, trim_http_whitespace, is_token,
  is_http_token, is_lowercase_http_token, is_http_field_value, is_http_reason_phrase,
  is_http_request_target,
}
use aws_c_http.Strutil.Trim.{all_chars-append, trim-split, IsTrimmed}

-- Whitespace may stand in a field.
whitespace_field_content :
    (c : ℕ) → http_whitespace_table c ≡ true → http_field_content_table c ≡ true
unfolding http_whitespace_table http_field_content_table listed between
whitespace_field_content c h = ground arith

token_field_content : (c : ℕ) → http_token_table c ≡ true → http_field_content_table c ≡ true
unfolding http_token_table http_field_content_table listed between
token_field_content c h = ground arith

token_visible :
    (c : ℕ) → http_token_table c ≡ true → (http_whitespace_table c || leb c 0x20) ≡ false
unfolding http_token_table http_whitespace_table listed between
token_visible c h = ground arith

token_is_visible : (c : ℕ) → http_token_table c ≡ true → not (leb c 0x20) ≡ true
token_is_visible c h = ground (arith, token_visible c h)

abbrev pub is_uppercase : ℕ → Bool
is_uppercase c = leb 0x41 c && leb c 0x5a

lowercase_table :
    (c : ℕ) → http_lowercase_token_table c ≡ (http_token_table c && not (is_uppercase c))
unfolding http_token_table http_lowercase_token_table listed between
lowercase_table c = ground arith

-- A table that lets in more bytes lets in more cursors.
all_chars_mono :
    {t t' : ℕ → Bool} (sub : (c : ℕ) → t c ≡ true → t' c ≡ true) (xs : List ℕ)
    → all_chars t xs ≡ true
    → all_chars t' xs ≡ true
unfolding all_chars
all_chars_mono sub [] h = refl
all_chars_mono {t = t} {t' = t'} sub (x ∷ xs) h =
    ground (arith, sub x, all_chars_mono {t = t} {t' = t'} sub xs)

module _ (t t' q : ℕ → Bool) (agree : (c : ℕ) → t c ≡ (t' c && q c)) where
  all_chars_both : (xs : List ℕ) → all_chars t xs ≡ (all_chars t' xs && all_chars q xs)
  unfolding all_chars
  all_chars_both [] = refl
  all_chars_both (x ∷ xs) = ground (arith, agree x, all_chars_both xs)

-- A lowercase token is a token in which no byte is an uppercase letter.
pub lowercase_token_iff :
    (xs : List ℕ)
    → is_lowercase_http_token xs ≡ (is_http_token xs && all_chars (λ c. not (is_uppercase c)) xs)
unfolding is_lowercase_http_token is_http_token is_token
lowercase_token_iff xs = ground (
  arith,
  all_chars_both http_lowercase_token_table http_token_table (λ c. not (is_uppercase c))
      lowercase_table xs,
)

module _ (t : ℕ → Bool) where
  char_at : (xs : List ℕ) (i : ℕ) → i < length xs → all_chars t xs ≡ true → t (get_or xs i 0) ≡ true
  unfolding all_chars
  char_at [] i l h = absurd (omega arith)
  char_at (x ∷ xs) zero l h = ground arith
  char_at (x ∷ xs) (suc i) l h = char_at xs i (omega arith) (ground arith)

-- A token is also a field value and a request target.
pub token_is_value_and_target :
    (xs : List ℕ)
    → is_http_token xs ≡ true
    → (is_http_field_value xs ≡ true) × (is_http_request_target xs ≡ true)
unfolding is_http_token is_token is_http_field_value is_http_request_target
token_is_value_and_target xs h =
    let l : 0 < length xs = ground arith in
    let a : all_chars http_token_table xs ≡ true = ground arith in
    let first = token_visible _ (char_at _ xs 0 l a) in
    let last = token_visible _ (char_at _ xs (length xs - 1) (omega arith) a) in
    let fields = all_chars_mono token_field_content xs a in
    let visible = all_chars_mono {t' = λ c. not (leb c 0x20)} token_is_visible xs a in
    (ground arith, ground arith)

empty_legal : (xs : List ℕ) → length xs ≡ 0 → all_chars http_field_content_table xs ≡ true
unfolding all_chars
empty_legal [] z = refl
empty_legal (x ∷ xs) z = absurd (omega arith)

value_of_trimmed :
    (ys : List ℕ)
    → IsTrimmed http_whitespace_table ys
    → is_http_field_value ys ≡ all_chars http_field_content_table ys
unfolding is_http_field_value IsTrimmed
value_of_trimmed ys (inl z) = ground (arith, empty_legal ys z)
value_of_trimmed ys (inr (first, last)) = ground (arith, empty_legal ys)

-- A cursor is legal once it is trimmed exactly when all its bytes are legal.
pub field_value-trim :
    (xs : List ℕ) → is_http_field_value (trim_http_whitespace xs) ≡ is_http_reason_phrase xs
unfolding is_http_reason_phrase trim_http_whitespace
field_value-trim xs =
    let (pre, suf, e, a, b, c) = trim-split http_whitespace_table xs in
    let fc = http_field_content_table in
    let ys = trim http_whitespace_table xs in
    let pre_legal = all_chars_mono whitespace_field_content pre a in
    let suf_legal = all_chars_mono whitespace_field_content suf b in
    let whole : all_chars fc xs ≡ all_chars fc ys =
      ap (all_chars fc) e
      ∙ ground (arith, all_chars-append fc pre (ys ++ suf), all_chars-append fc ys suf) in
    value_of_trimmed ys c ∙ sym whole
