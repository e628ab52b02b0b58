-- ===== src/Http1/Decoder/Order.antt =====
-- The order of the two headers that frame a body, in source/h1_decoder.c.
use aws_c_http.Prelude.{ℕ, ◌≡◌, refl, ap, ◌∙◌, false, List, ◌==◌, arith}
use aws_c_http.Http1.Decoder.Types.{Common, Decoder, next, fail, protocol_error, and_then}
use aws_c_http.Http1.Decoder.Headers.{transfer_encoding_header, content_length_header}

module _ {U : Type 0} (c : Common) where
  zero_length :
      (value : List ℕ) (d : Decoder U)
      → d.transfer_encoding ≡ 0
      → d.content_length ≡ 0
      → c.parse_u64 value ≡ (0, false)
      → content_length_header c value d ≡ next d
  unfolding content_length_header
  zero_length value d plain empty parsed = ground arith

  refused :
      (value : List ℕ) (d : Decoder U)
      → (d.transfer_encoding == 0) ≡ false
      → content_length_header c value d ≡ fail protocol_error d
  unfolding content_length_header
  refused value d flags = rw (flags) refl

  -- A content length of zero in front of transfer codings is accepted and has no effect, while behind
  -- codings that set a flag it is refused.
  pub zero_length-order :
      (value codings : List ℕ) (d d' : Decoder U)
      → d.transfer_encoding ≡ 0
      → d.content_length ≡ 0
      → c.parse_u64 value ≡ (0, false)
      → transfer_encoding_header c codings d ≡ next d'
      → (d'.transfer_encoding == 0) ≡ false
      → (and_then (content_length_header c value d) (transfer_encoding_header c codings) ≡ next d')
        × (and_then (transfer_encoding_header c codings d) (content_length_header c value)
            ≡ fail protocol_error d')
  zero_length-order value codings d d' plain empty parsed coded flags = (
    ap (λ o. and_then o (transfer_encoding_header c codings))
          (zero_length value d plain empty parsed)
        ∙ coded,
    ap (λ o. and_then o (content_length_header c value)) coded ∙ refused value d' flags,
  )
