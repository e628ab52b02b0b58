-- ===== src/Http1/Encoder/HeadBytes.antt =====
-- What the buffers of Http1/Encoder/Head and Http1/Encoder/Chunks hold.
use aws_c_http.Prelude.{
  ℕ, ◌+◌, ◌≤◌, ◌≡◌, refl, sym, ap, ◌∙◌, true, List, [], ◌∷◌, ◌++◌, length, length-append, arith,
}
use mathlib.Core.List.{append_assoc, append-nil}
use aws_c_http.ByteBuf.{Write, IsWrite}
use aws_c_http.Hpack.Table.Ring.{Header}
use aws_c_http.Http1.Encoder.States.{crlf}
use aws_c_http.Http1.Encoder.Head.{Filling, put, put_all, write_header, write_headers, write_head}

abbrev pub join : List (List ℕ) → List ℕ
join [] = []
join (xs ∷ xss) = xs ++ join xss

abbrev pub filling : List ℕ → ℕ → Filling
filling xs capacity = (record { contents = xs; capacity = capacity }, true)

-- "{name}: {value}\r\n"
abbrev pub header_line : Header → List ℕ
header_line h = h.name ++ (b':' ∷ b' ' ∷ (h.value ++ crlf))

abbrev pub header_lines : List Header → List ℕ
header_lines [] = []
header_lines (h ∷ hs) = header_line h ++ header_lines hs

-- "{first} {second} {third}\r\n", the header lines, and an empty line.
abbrev pub head_bytes : List ℕ → List ℕ → List ℕ → List Header → List ℕ
head_bytes first second third headers =
    join (first ∷ (b' ' ∷ []) ∷ second ∷ (b' ' ∷ []) ∷ third ∷ crlf ∷ [])
    ++ (header_lines headers ++ crlf)

module _ (write : Write) (whole : IsWrite write) where
  pub put-filling :
      (xs ys : List ℕ) (capacity : ℕ)
      → length xs + length ys ≤ capacity
      → put write (filling xs capacity) ys ≡ filling (xs ++ ys) capacity
  unfolding put
  put-filling xs ys capacity fits =
      rw (whole.write_fits (record { contents = xs; capacity = capacity }) ys fits) refl

  pub put_all-filling :
      (xs : List ℕ) (xss : List (List ℕ)) (capacity : ℕ)
      → length xs + length (join xss) ≤ capacity
      → put_all write (filling xs capacity) xss ≡ filling (xs ++ join xss) capacity
  unfolding put_all
  put_all-filling xs [] capacity fits = ap (λ z. filling z capacity) (sym (append-nil xs))
  put_all-filling xs (ys ∷ yss) capacity fits =
      ap (λ b. put_all write b yss)
        (put-filling xs ys capacity (omega (arith, length-append ys (join yss), fits)))
      ∙ put_all-filling (xs ++ ys) yss capacity
          (omega (arith, length-append ys (join yss), length-append xs ys, fits))
      ∙ ap (λ z. filling z capacity) (append_assoc xs ys (join yss))

  write_header-filling :
      (xs : List ℕ) (h : Header) (capacity : ℕ)
      → length xs + length (header_line h) ≤ capacity
      → write_header write (filling xs capacity) h ≡ filling (xs ++ header_line h) capacity
  unfolding write_header
  write_header-filling xs h capacity fits =
      put_all-filling xs (h.name ∷ (b':' ∷ []) ∷ (b' ' ∷ []) ∷ h.value ∷ crlf ∷ []) capacity fits

  pub write_headers-filling :
      (xs : List ℕ) (hs : List Header) (capacity : ℕ)
      → length xs + length (header_lines hs) ≤ capacity
      → write_headers write (filling xs capacity) hs ≡ filling (xs ++ header_lines hs) capacity
  unfolding write_headers
  write_headers-filling xs [] capacity fits = ap (λ z. filling z capacity) (sym (append-nil xs))
  write_headers-filling xs (h ∷ hs) capacity fits =
      let size = length-append (header_line h) (header_lines hs) in
      ap (λ b. write_headers write b hs)
        (write_header-filling xs h capacity (omega (arith, size, fits)))
      ∙ write_headers-filling (xs ++ header_line h) hs capacity
          (omega (arith, size, length-append xs (header_line h), fits))
      ∙ ap (λ z. filling z capacity) (append_assoc xs (header_line h) (header_lines hs))

  pub write_head-filling :
      (first second third : List ℕ) (headers : List Header)
      → write_head write
          (filling [] (length (head_bytes first second third headers)))
          first
          second
          third
          headers
        ≡ filling
            (head_bytes first second third headers)
            (length (head_bytes first second third headers))
  unfolding write_head
  write_head-filling first second third headers =
      let line : List (List ℕ) = first ∷ (b' ' ∷ []) ∷ second ∷ (b' ' ∷ []) ∷ third ∷ crlf ∷ [] in
      let capacity : ℕ = length (head_bytes first second third headers) in
      let size : capacity ≡ length (join line) + (length (header_lines headers) + 2) =
        length-append (join line) (header_lines headers ++ crlf)
        ∙ ap (λ n. length (join line) + n) (length-append (header_lines headers) crlf) in
      ap (λ b. put write (write_headers write b headers) crlf)
        (put_all-filling [] line capacity (omega (arith, size)))
      ∙ ap (λ b. put write b crlf)
          (write_headers-filling (join line) headers capacity (omega (arith, size)))
      ∙ put-filling (join line ++ header_lines headers) crlf capacity
          (omega (arith, size, length-append (join line) (header_lines headers)))
      ∙ ap (λ z. filling z capacity) (append_assoc (join line) (header_lines headers) crlf)
