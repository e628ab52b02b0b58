-- ===== src/Strutil/Runs.antt =====
-- The grammar tests on small cursors.
use aws_c_http.Prelude.{ℕ, ◌≡◌, refl, true, List, [], ◌∷◌, ◌++◌}
use aws_c_http.Strutil.Chars.{
  all_chars, trim, http_token_table, http_whitespace_table, trim_http_whitespace, is_http_token,
  is_http_field_value, is_http_reason_phrase,
}
use aws_c_http.Strutil.Trim.{trim-split, IsTrimmed}
use aws_c_http.Strutil.Grammar.{field_value-trim}

-- " a b\t"
abbrev padded : List ℕ
padded = 0x20 ∷ 0x61 ∷ 0x20 ∷ 0x62 ∷ 0x09 ∷ []

-- "Host"
abbrev host : List ℕ
host = 0x48 ∷ 0x6f ∷ 0x73 ∷ 0x74 ∷ []

trims : trim_http_whitespace padded ≡ 0x61 ∷ 0x20 ∷ 0x62 ∷ []
unfolding trim_http_whitespace trim http_whitespace_table
trims = refl

host_is_token : is_http_token host ≡ true
unfolding is_http_token http_token_table
host_is_token = refl

trim-split_example :
    (pre suf : List ℕ) × (padded ≡ pre ++ (trim http_whitespace_table padded ++ suf))
    × (all_chars http_whitespace_table pre ≡ true)
    × (all_chars http_whitespace_table suf ≡ true)
    × IsTrimmed http_whitespace_table (trim http_whitespace_table padded)
trim-split_example = trim-split http_whitespace_table padded

field_value-trim_example :
    is_http_field_value (trim_http_whitespace padded) ≡ is_http_reason_phrase padded
field_value-trim_example = field_value-trim padded
