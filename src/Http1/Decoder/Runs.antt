-- ===== src/Http1/Decoder/Runs.antt =====
-- The decoder on a request, with functions for what it calls.
use aws_c_http.Prelude.{
  ℕ, suc, ◌+◌, ◌-◌, ◌*◌, ◌^◌, ◌<◌, ◌≡◌, refl, inl, inr, Bool, true, false, ◌&&◌, some, List, [],
  ◌∷◌, ◌++◌, ltb, leb, ◌==◌, if◌then◌else◌, arith, Bool-cases,
}
use aws_c_http.Http1.Samples.{lower, same_bytes}
use aws_c_http.Http1.Decoder.Types.{
  Span, Vtable, Common, Decoder, Outcome, next, fail, and_then, protocol_error, decoder_new,
  set_line_state, header_line,
}
use aws_c_http.Http1.Decoder.Headers.{
  coding_gzip, content_length_header, transfer_encoding_header, add_codings,
}
use aws_c_http.Http1.Decoder.Lines.{version_1_1}
use aws_c_http.Http1.Decoder.Order.{zero_length-order}
use aws_c_http.Http1.Decoder.Accepted.{
  IsHeader, linestate_header-IsHeader, IsRequest, linestate_request-IsRequest,
}
use aws_c_http.Http1.Decoder.Types
use aws_c_http.Http1.Decoder.Process.{decode, Decoded}
use aws_c_http.Http1.Decoder.Invariant.{IsCommon}
use aws_c_http.Http1.Decoder.Loop.{IsDecoded, decode-IsDecoded, new-IsReady}

-- The spans between the separators.
longer : List Span → List Span
longer [] = []
longer (s ∷ ss) = record { offset = s.offset - 1; size = suc s.size } ∷ ss

spans_from : ℕ → List ℕ → ℕ → List Span
unfolding longer
spans_from split_on [] start = record { offset = start; size = 0 } ∷ []
spans_from split_on (c ∷ cs) start =
    let rest = spans_from split_on cs (suc start) in
    if c == split_on then record { offset = start; size = 0 } ∷ rest else longer rest

-- Digits in a base, of a 64-bit number.
digit : ℕ → ℕ
digit c =
    if leb b'0' c && leb c b'9'
    then c - b'0'
    else (if leb b'a' c && leb c b'f' then c - b'a' + 10 else 16)

parse_from : ℕ → ℕ → List ℕ → ℕ × Bool
unfolding digit
parse_from base acc [] = (acc, false)
parse_from base acc (c ∷ cs) =
    let value = acc * base + digit c in
    let rest = parse_from base value cs in
    if ltb (digit c) base && ltb value (2 ^ 64) then rest else (0, true)

parse : ℕ → List ℕ → ℕ × Bool
unfolding parse_from
parse base [] = (0, true)
parse base (c ∷ cs) = parse_from base 0 (c ∷ cs)

abbrev common : Common
common = record {
  splits = λ input split_on. spans_from split_on input 0;
  parse_u64 = parse 10;
  parse_u64_hex = parse 16;
  eq = same_bytes (λ c. c);
  eq_ignore_case = same_bytes lower;
}

parse_from_word : (base acc : ℕ) (s : List ℕ) → acc < 2 ^ 64 → (parse_from base acc s).0 < 2 ^ 64
unfolding parse_from
parse_from_word base acc [] h = h
parse_from_word base acc (c ∷ cs) h =
    elim (Bool-cases (ltb (digit c) base && ltb (acc * base + digit c) (2 ^ 64))) [
      | inl e ↦ rw e (parse_from_word base (acc * base + digit c) cs (ground arith))
      | inr e ↦ rw e (omega arith)
    ]

parse_word : (base : ℕ) (s : List ℕ) → (parse base s).0 < 2 ^ 64
unfolding parse
parse_word base [] = omega arith
parse_word base (c ∷ cs) = parse_from_word base 0 (c ∷ cs) (omega arith)

common-IsCommon : IsCommon common
common-IsCommon = record { parsed_word = parse_word 10; parsed_hex_word = parse_word 16 }

-- What the callbacks record: the bytes of the names, values and bodies, in order.
abbrev recording : Vtable (List ℕ)
recording = record {
  on_header = λ h u. (u ++ h.name_data ++ h.value_data, false);
  on_body = λ bytes fin u. (u ++ bytes, false);
  on_request = λ method uri u. (u ++ method ++ uri, false);
  on_response = λ code u. (u ++ (code ∷ []), false);
  on_done = λ u. (u ++ (0 ∷ []), false);
}

abbrev crlf : List ℕ
crlf = b'\r' ∷ b'\n' ∷ []

-- A request with a body of two bytes, and one byte behind it.
abbrev post : List ℕ
post =
    (b'P' ∷ b' ' ∷ b'/' ∷ b' ' ∷ b'H' ∷ b'T' ∷ b'T' ∷ b'P' ∷ b'/' ∷ b'1' ∷ b'.' ∷ b'1' ∷ [])
    ++ crlf
    ++ (b'c' ∷ b'o' ∷ b'n' ∷ b't' ∷ b'e' ∷ b'n' ∷ b't' ∷ b'-' ∷ b'l' ∷ b'e' ∷ b'n' ∷ b'g' ∷ b't'
        ∷ b'h' ∷ b':' ∷ b'2' ∷ [])
    ++ crlf
    ++ crlf
    ++ (7 ∷ 8 ∷ 9 ∷ [])

fresh : Decoder (List ℕ)
fresh = decoder_new true []

decode-IsDecoded_example :
    (r : Decoded (List ℕ)) × (decode common recording fresh post ≡ some r) × IsDecoded post r
unfolding fresh
decode-IsDecoded_example =
    decode-IsDecoded common recording fresh post common-IsCommon (new-IsReady true [])

abbrev at_headers : List ℕ → Decoder (List ℕ)
at_headers u = set_line_state (record (decoder_new true []) { user_data = u }) header_line

-- "a: b"
abbrev plain_header : List ℕ
plain_header = b'a' ∷ b':' ∷ b' ' ∷ b'b' ∷ []

linestate_header-IsHeader_example : IsHeader common recording plain_header [] (b'a' ∷ b'b' ∷ [])
unfolding aws_c_http.Http1.Decoder.Headers.linestate_header
    aws_c_http.Http1.Decoder.Split.split_first_n_times aws_c_http.Http1.Decoder.Split.split_impl
    spans_from aws_c_http.Strutil.Chars.is_http_token aws_c_http.Strutil.Chars.http_token_table
    aws_c_http.Strutil.Chars.is_http_field_value aws_c_http.Strutil.Chars.trim_http_whitespace
    aws_c_http.Strutil.Chars.trim aws_c_http.Strutil.Chars.http_whitespace_table
    aws_c_http.Strutil.Chars.http_field_content_table aws_c_http.Http1.Decoder.Headers.accept_header
    aws_c_http.Http1.Decoder.Headers.body_header aws_c_http.Http1.Decoder.Headers.str_to_header_name
    same_bytes lower Types.call set_line_state decoder_new
linestate_header-IsHeader_example =
    linestate_header-IsHeader common recording plain_header (at_headers [])
      (at_headers (b'a' ∷ b'b' ∷ [])) refl refl

linestate_request-IsRequest_example :
    IsRequest common recording (b'P' ∷ b' ' ∷ b'/' ∷ b' ' ∷ version_1_1) [] (b'P' ∷ b'/' ∷ [])
unfolding aws_c_http.Http1.Decoder.Lines.linestate_request
    aws_c_http.Http1.Decoder.Split.split_exactly_n_times aws_c_http.Http1.Decoder.Split.split_impl
    spans_from aws_c_http.Strutil.Chars.is_http_token aws_c_http.Strutil.Chars.http_token_table
    aws_c_http.Strutil.Chars.is_http_request_target same_bytes Types.call decoder_new
    Types.zero_decoder
linestate_request-IsRequest_example =
    linestate_request-IsRequest common recording (b'P' ∷ b' ' ∷ b'/' ∷ b' ' ∷ version_1_1)
      (decoder_new true []) (at_headers (b'P' ∷ b'/' ∷ [])) refl

zero_length-order_example :
    (and_then
        (content_length_header common (b'0' ∷ []) (at_headers []))
        (transfer_encoding_header common coding_gzip)
      ≡ next (record (at_headers []) { transfer_encoding = 2 }))
    × (and_then
          (transfer_encoding_header common coding_gzip (at_headers []))
          (content_length_header common (b'0' ∷ []))
        ≡ fail protocol_error (record (at_headers []) { transfer_encoding = 2 }))
unfolding set_line_state decoder_new parse transfer_encoding_header add_codings spans_from
    same_bytes aws_c_http.Strutil.Chars.trim_http_whitespace aws_c_http.Strutil.Chars.trim
    aws_c_http.Strutil.Chars.http_whitespace_table lower
zero_length-order_example =
    zero_length-order common (b'0' ∷ []) coding_gzip (at_headers [])
      (record (at_headers []) { transfer_encoding = 2 }) refl refl refl refl refl
