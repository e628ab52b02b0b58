-- ===== src/Http1/Encoder/Framing.antt =====
-- Which framing headers `s_scan_outgoing_headers` of source/h1_encoder.c accepts in one message.
use aws_c_http.Prelude.{
  ℕ, ◌≡◌, ◌≢◌, ◌⊎◌, sym, ap, ◌∙◌, inl, inr, Bool, true, false, Bool-cases, List, [], ◌∷◌, length,
  map, arith,
}
use aws_c_http.Strutil.Chars.{trim_http_whitespace}
use aws_c_http.Hpack.Table.Ring.{Header}
use aws_c_http.Http1.Messages.{ok}
use aws_c_http.Http1.Decoder.Types.{Common}
use aws_c_http.Http1.Decoder.Split.{cursor_at}
use aws_c_http.Http1.Decoder.Headers.{content_length_text, transfer_encoding_text, coding_chunked}
use aws_c_http.Http1.Encoder.Scan.{
  Scanned, nothing_scanned, connection_text, add_line, check_header, scan_codings,
  scan_content_length, scan_transfer_encoding, scan_value, scan_header, scan_headers, finish_scan,
  scan_outgoing_headers,
}
use aws_c_http.Http1.Encoder.Accepted.{ok_parts, coded, codings_step}

module _ (c : Common) where
  -- What aws-c-common documents of `aws_byte_cursor_eq_ignore_case`, as far as it is used here.
  abbrev pub KeepsLength : Type 0
  KeepsLength = (a b : List ℕ) → c.eq_ignore_case a b ≡ true → length a ≡ length b

  -- One of the headers has the name, whatever its case.
  abbrev pub HasNamed : List ℕ → List Header → Type 0
  HasNamed text [] = ◌≡◌ {A = ℕ} 0 1
  HasNamed text (h ∷ hs) = (c.eq_ignore_case text h.name ≡ true) ⊎ HasNamed text hs

  -- The scan has seen all that it had seen before.
  record Grows (s s' : Scanned) : Type 0 where
    lengths : s.has_content_length_header ≡ true → s'.has_content_length_header ≡ true
    codings : s.has_transfer_encoding_header ≡ true → s'.has_transfer_encoding_header ≡ true

  codings_flags :
      (xs : List (List ℕ)) (s s' : Scanned)
      → scan_codings c xs s ≡ ok s'
      → (s'.has_content_length_header ≡ s.has_content_length_header)
        × (s'.has_transfer_encoding_header ≡ s.has_transfer_encoding_header)
  unfolding scan_codings
  codings_flags [] s s' q = ground (arith, q)
  codings_flags (x ∷ xs) s s' q =
      let (a, b) = codings_flags xs (coded c x s) s' (codings_step c x xs s s' q) in
      elim (Bool-cases (c.eq (trim_http_whitespace x) coding_chunked)) [
        | inl e ↦ (a ∙ ground (arith, e), b ∙ ground (arith, e))
        | inr e ↦ (a ∙ ground (arith, e), b ∙ ground (arith, e))
      ]

  value_kinds :
      (name value : List ℕ) (s s' : Scanned)
      → scan_value c name value s ≡ ok s'
      → ((c.eq_ignore_case connection_text name ≡ true)
          × (s'.has_content_length_header ≡ s.has_content_length_header)
          × (s'.has_transfer_encoding_header ≡ s.has_transfer_encoding_header))
        ⊎ ((c.eq_ignore_case content_length_text name ≡ true)
            × (s'.has_content_length_header ≡ true)
            × (s'.has_transfer_encoding_header ≡ s.has_transfer_encoding_header))
        ⊎ ((c.eq_ignore_case transfer_encoding_text name ≡ true)
            × (scan_codings c
                  (map (cursor_at value) (c.splits value b','))
                  (record s { has_transfer_encoding_header = true })
                ≡ ok s'))
        ⊎ ((c.eq_ignore_case content_length_text name ≡ false)
            × (c.eq_ignore_case transfer_encoding_text name ≡ false)
            × (s ≡ s'))
  unfolding scan_value scan_content_length scan_transfer_encoding
  value_kinds name value s s' q = ground (arith, q)

  -- Names of different lengths are not both that of a header.
  apart :
      (a b name : List ℕ)
      → KeepsLength
      → c.eq_ignore_case a name ≡ true
      → length a ≢ length b
      → c.eq_ignore_case b name ≡ false
  apart a b name keeps q other = elim (Bool-cases (c.eq_ignore_case b name)) [
    | inl e ↦ absurd (other (keeps a name q ∙ sym (keeps b name e)))
    | inr e ↦ e
  ]

  value_flags :
      (name value : List ℕ) (s s' : Scanned)
      → KeepsLength
      → scan_value c name value s ≡ ok s'
      → Grows s s'
        × (c.eq_ignore_case content_length_text name ≡ true → s'.has_content_length_header ≡ true)
        × (c.eq_ignore_case transfer_encoding_text name ≡ true
            → s'.has_transfer_encoding_header ≡ true)
  value_flags name value s s' keeps q = elim (value_kinds name value s s' q) [
    | inl (e, same_length, same_codings) ↦
        let not_length = apart connection_text content_length_text name keeps e (omega arith) in
        let not_codings = apart connection_text transfer_encoding_text name keeps e (omega arith) in
        (
          record { lengths = λ z. same_length ∙ z; codings = λ z. same_codings ∙ z },
          λ z. cc,
          λ z. cc,
        )
    | inr (inl (e, set, same_codings)) ↦
        let not_codings =
          apart content_length_text transfer_encoding_text name keeps e (omega arith) in
        (record { lengths = λ z. set; codings = λ z. same_codings ∙ z }, λ z. set, λ z. cc)
    | inr (inr (inl (e, codings))) ↦
        let (same_length, set) =
          codings_flags (map (cursor_at value) (c.splits value b',')) _ s' codings in
        let not_length =
          apart transfer_encoding_text content_length_text name keeps e (omega arith) in
        (record { lengths = λ z. same_length ∙ z; codings = λ z. set }, λ z. cc, λ z. set)
    | inr (inr (inr (not_length, not_codings, same))) ↦ (
      record {
        lengths = λ z. ap (λ r. r.has_content_length_header) (sym same) ∙ z;
        codings = λ z. ap (λ r. r.has_transfer_encoding_header) (sym same) ∙ z;
      },
      λ z. cc,
      λ z. cc,
    )
  ]

  header_flags :
      (h : Header) (s s' : Scanned)
      → KeepsLength
      → scan_header c h s ≡ ok s'
      → Grows s s'
        × (c.eq_ignore_case content_length_text h.name ≡ true → s'.has_content_length_header ≡ true)
        × (c.eq_ignore_case transfer_encoding_text h.name ≡ true
            → s'.has_transfer_encoding_header ≡ true)
  unfolding scan_header
  header_flags h s s' keeps q =
      let (v, checked, q₁) = ok_parts (check_header h) _ q in
      let (s₁, valued, q₂) = ok_parts (scan_value c h.name v s) _ q₁ in
      let (n, added, q₃) = ok_parts (add_line h s₁.total) _ q₂ in
      let (grows, length_set, codings_set) = value_flags h.name v s s₁ keeps valued in
      let same_length : s'.has_content_length_header ≡ s₁.has_content_length_header =
        ground (arith, q₃) in
      let same_codings : s'.has_transfer_encoding_header ≡ s₁.has_transfer_encoding_header =
        ground (arith, q₃) in
      (
        record {
          lengths = λ z. same_length ∙ grows.lengths z;
          codings = λ z. same_codings ∙ grows.codings z;
        },
        λ z. same_length ∙ length_set z,
        λ z. same_codings ∙ codings_set z,
      )

  headers_flags :
      (hs : List Header) (s s' : Scanned)
      → KeepsLength
      → scan_headers c hs s ≡ ok s'
      → Grows s s'
        × (HasNamed content_length_text hs → s'.has_content_length_header ≡ true)
        × (HasNamed transfer_encoding_text hs → s'.has_transfer_encoding_header ≡ true)
  unfolding scan_headers
  headers_flags [] s s' keeps q = (
    record { lengths = λ z. ground (arith, q, z); codings = λ z. ground (arith, q, z) },
    λ z. absurd (omega (arith, z)),
    λ z. absurd (omega (arith, z)),
  )
  headers_flags (h ∷ hs) s s' keeps q =
      let (s₁, first, others) = ok_parts (scan_header c h s) (scan_headers c hs) q in
      let (grows, length_set, codings_set) = header_flags h s s₁ keeps first in
      let (grows', length_later, codings_later) = headers_flags hs s₁ s' keeps others in
      (
        record {
          lengths = λ z. grows'.lengths (grows.lengths z);
          codings = λ z. grows'.codings (grows.codings z);
        },
        λ z. elim z [ inl e ↦ grows'.lengths (length_set e) | inr l ↦ length_later l ],
        λ z. elim z [ inl e ↦ grows'.codings (codings_set e) | inr l ↦ codings_later l ],
      )

  finish_flags :
      (body ignored forbidden : Bool) (s s' : Scanned)
      → finish_scan body ignored forbidden s ≡ ok s'
      → s.has_transfer_encoding_header ≡ true
      → (s.has_content_length_header ≡ false)
        × (body ≡ false)
        × (forbidden ≡ false)
        × ((ignored ≡ true) ⊎ (s'.has_chunked_encoding_header ≡ true))
  unfolding finish_scan
  finish_flags body ignored forbidden s s' q z = ground (arith, q, z)

  -- In a message that the scan accepts, a header Transfer-Encoding, whatever the case of its name,
  -- excludes a header Content-Length, a body stream, and a status that forbids a body; the message is
  -- sent in chunks, unless its body is to be left out.
  pub scan-framing :
      (hs : List Header) (body ignored forbidden : Bool) (s : Scanned)
      → KeepsLength
      → scan_outgoing_headers c hs body ignored forbidden ≡ ok s
      → HasNamed transfer_encoding_text hs
      → ¬ HasNamed content_length_text hs
        × (body ≡ false)
        × (forbidden ≡ false)
        × ((ignored ≡ true) ⊎ (s.has_chunked_encoding_header ≡ true))
  unfolding scan_outgoing_headers
  scan-framing hs body ignored forbidden s keeps q named =
      let (s₁, scanned, finished) = ok_parts (scan_headers c hs nothing_scanned) _ q in
      let (grows, length_set, codings_set) = headers_flags hs nothing_scanned s₁ keeps scanned in
      let (no_length, no_body, allowed, chunked) =
        finish_flags body ignored forbidden s₁ s finished (codings_set named) in
      (λ w. absurd (ground (arith, length_set w, no_length)), no_body, allowed, chunked)
