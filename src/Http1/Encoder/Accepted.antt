-- ===== src/Http1/Encoder/Accepted.antt =====
-- What the scans and the initialisation of source/h1_encoder.c accept.
use aws_c_http.Prelude.{
  ℕ, ◌+◌, ◌≤◌, ◌≡◌, ◌⊎◌, refl, ◌∙◌, inl, inr, Bool, true, Bool-cases, List, [], ◌∷◌, ◌++◌, All,
  if◌then◌else◌, length, length-append, map, arith,
}
use aws_c_http.Prelude.Words.{u64_max}
use aws_c_http.Strutil.Chars.{is_http_token, is_http_field_value, trim_http_whitespace}
use aws_c_http.Hpack.Table.Ring.{Header}
use aws_c_http.Http1.Messages.{Result, ok, raised, ◌>>=◌}
use aws_c_http.Http1.Decoder.Types.{Common}
use aws_c_http.Http1.Decoder.Split.{cursor_at}
use aws_c_http.Http1.Decoder.Headers.{coding_chunked}
use aws_c_http.Http1.Encoder.Scan.{
  Scanned, nothing_scanned, add_line, check_header, scan_codings, scan_content_length,
  scan_transfer_encoding, scan_value, scan_header, scan_headers, finish_scan, scan_outgoing_headers,
}
use aws_c_http.Http1.Encoder.Head.{head_length}
use aws_c_http.Http1.Encoder.HeadBytes.{header_line, header_lines}

-- A chain of two that succeeds has two parts that do.
pub ok_parts :
    {A B : Type 0} {z : B} (r : Result A) (continue : A → Result B)
    → (r >>= continue) ≡ ok z
    → (y : A) × (r ≡ ok y) × (continue y ≡ ok z)
ok_parts (raised x) continue p = absurd (ground (arith, p))
ok_parts (ok y) continue p = (y, refl, p)

abbrev pub IsAcceptable : Header → Type 0
IsAcceptable h =
    (is_http_token h.name ≡ true) × (is_http_field_value (trim_http_whitespace h.value) ≡ true)

check_header-IsAcceptable : (h : Header) {v : List ℕ} → check_header h ≡ ok v → IsAcceptable h
unfolding check_header
check_header-IsAcceptable h q = ground (arith, q)

pub add_line_total :
    (h : Header) (total : ℕ) {n : ℕ}
    → add_line h total ≡ ok n
    → (n ≡ total + length (header_line h)) × (n ≤ u64_max)
unfolding add_line
add_line_total h total q = ground (
  arith,
  q,
  length-append h.name (b':' ∷ b' ' ∷ (h.value ++ (b'\r' ∷ b'\n' ∷ []))),
  length-append h.value (b'\r' ∷ b'\n' ∷ []),
)

module _ (c : Common) where
  abbrev pub coded : List ℕ → Scanned → Scanned
  coded x s =
      if c.eq (trim_http_whitespace x) coding_chunked
      then record s { has_chunked_encoding_header = true }
      else s

  pub codings_step :
      (x : List ℕ) (xs : List (List ℕ)) (s s' : Scanned)
      → scan_codings c (x ∷ xs) s ≡ ok s'
      → scan_codings c xs (coded x s) ≡ ok s'
  unfolding scan_codings
  codings_step x xs s s' q = ground (arith, q)

  codings_total :
      (xs : List (List ℕ)) (s s' : Scanned) → scan_codings c xs s ≡ ok s' → s'.total ≡ s.total
  unfolding scan_codings
  codings_total [] s s' q = ground (arith, q)
  codings_total (x ∷ xs) s s' q =
      codings_total xs (coded x s) s' (codings_step x xs s s' q)
      ∙ elim (Bool-cases (c.eq (trim_http_whitespace x) coding_chunked)) [
        | inl e ↦ ground (arith, e)
        | inr e ↦ ground (arith, e)
      ]

  value_cases :
      (name value : List ℕ) (s s' : Scanned)
      → scan_value c name value s ≡ ok s'
      → (s'.total ≡ s.total)
        ⊎ (scan_codings c
              (map (cursor_at value) (c.splits value b','))
              (record s { has_transfer_encoding_header = true })
            ≡ ok s')
  unfolding scan_value scan_content_length scan_transfer_encoding
  value_cases name value s s' q = ground (arith, q)

  value_total :
      (name value : List ℕ) (s s' : Scanned)
      → scan_value c name value s ≡ ok s'
      → s'.total ≡ s.total
  value_total name value s s' q = elim (value_cases name value s s' q) [
    | inl same ↦ same
    | inr codings ↦ codings_total (map (cursor_at value) (c.splits value b',')) _ s' codings
  ]

  -- An accepted header is valid, and its line is counted.
  header_accepted :
      (h : Header) (s s' : Scanned)
      → scan_header c h s ≡ ok s'
      → IsAcceptable h × (s'.total ≡ s.total + length (header_line h))
  unfolding scan_header
  header_accepted h s s' q =
      let (v, checked, q₁) = ok_parts (check_header h) _ q in
      let (s₁, valued, q₂) = ok_parts (scan_value c h.name v s) _ q₁ in
      let (n, added, q₃) = ok_parts (add_line h s₁.total) _ q₂ in
      (
        check_header-IsAcceptable h checked,
        ground (arith, q₃, add_line_total h s₁.total added, value_total h.name v s s₁ valued),
      )

  pub headers_accepted :
      (hs : List Header) (s s' : Scanned)
      → scan_headers c hs s ≡ ok s'
      → All IsAcceptable hs × (s'.total ≡ s.total + length (header_lines hs))
  unfolding scan_headers
  headers_accepted [] s s' q = (tt, ground (arith, q))
  headers_accepted (h ∷ hs) s s' q =
      let (s₁, first, others) = ok_parts (scan_header c h s) (scan_headers c hs) q in
      let (good, counted) = header_accepted h s s₁ first in
      let (goods, total) = headers_accepted hs s₁ s' others in
      (
        (good, goods),
        omega (arith, counted, total, length-append (header_line h) (header_lines hs)),
      )

  finish_total :
      (body ignored forbidden : Bool) (s s' : Scanned)
      → finish_scan body ignored forbidden s ≡ ok s'
      → s'.total ≡ s.total
  unfolding finish_scan
  finish_total body ignored forbidden s s' q = ground (arith, q)

  pub scan_accepted :
      (hs : List Header) (body ignored forbidden : Bool) (s : Scanned)
      → scan_outgoing_headers c hs body ignored forbidden ≡ ok s
      → All IsAcceptable hs × (s.total ≡ length (header_lines hs))
  unfolding scan_outgoing_headers
  scan_accepted hs body ignored forbidden s q =
      let (s₁, scanned, finished) = ok_parts (scan_headers c hs nothing_scanned) _ q in
      let (goods, total) = headers_accepted hs nothing_scanned s₁ scanned in
      (goods, omega (arith, total, finish_total body ignored forbidden s₁ s finished))

pub head_length_total :
    (first second third lines : ℕ) {n : ℕ}
    → head_length first second third lines ≡ ok n
    → n ≡ first + second + third + 4 + lines + 2
unfolding head_length
head_length_total first second third lines q = ground (arith, q)
