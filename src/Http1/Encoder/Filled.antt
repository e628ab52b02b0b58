-- ===== src/Http1/Encoder/Filled.antt =====
-- The parts of the initialisation of a request in source/h1_encoder.c, when they succeed.
use aws_c_http.Prelude.{
  ℕ, ◌+◌, ◌≤◌, ◌≡◌, refl, sym, ap, ◌∙◌, Bool, true, Option, none, some, List, [], ◌∷◌, ◌++◌, length,
  length-append, arith,
}
use aws_c_http.Prelude.Words.{u64_max}
use aws_c_http.ByteBuf.{Write, IsWrite}
use aws_c_http.Strutil.Chars.{is_http_token, is_http_request_target}
use aws_c_http.Hpack.Table.Ring.{Header}
use aws_c_http.Http1.Messages.{ok}
use aws_c_http.Http1.Encoder.States.{crlf}
use aws_c_http.Http1.Encoder.Head.{
  Filling, Allocate, valid_method, valid_path, fill_head, buf_init, write_head, head_length,
}
use aws_c_http.Http1.Encoder.HeadBytes.{header_lines, head_bytes, filling, join, write_head-filling}
use aws_c_http.Http1.Encoder.Accepted.{ok_parts, head_length_total}

pub method_valid :
    (o : Option (List ℕ)) (method : List ℕ)
    → valid_method o ≡ ok method
    → (o ≡ some method) × (is_http_token method ≡ true)
unfolding valid_method
method_valid none method q = absurd (ground (arith, q))
method_valid (some m) method q = ground (arith, q)

pub path_valid :
    (o : Option (List ℕ)) (uri : List ℕ)
    → valid_path o ≡ ok uri
    → (o ≡ some uri) × (is_http_request_target uri ≡ true)
unfolding valid_path
path_valid none uri q = absurd (ground (arith, q))
path_valid (some u) uri q = ground (arith, q)

pub ok_inj : {A : Type 0} {a b : A} → ok a ≡ ok b → a ≡ b
ok_inj q = cc

pub allocated :
    (allocate : Allocate) (capacity : ℕ) {b : Filling}
    → buf_init allocate capacity ≡ ok b
    → b ≡ filling [] capacity
unfolding buf_init
allocated allocate capacity q = ground (arith, q)

allotted_memory :
    (allocate : Allocate) (capacity : ℕ) {b : Filling}
    → buf_init allocate capacity ≡ ok b
    → allocate capacity ≡ true
unfolding buf_init
allotted_memory allocate capacity q = ground (arith, q)

pub length-head_bytes :
    (first second third : List ℕ) (headers : List Header)
    → length (head_bytes first second third headers)
      ≡ length first + length second + length third + 4 + length (header_lines headers) + 2
length-head_bytes first second third headers =
    let line : List ℕ = join (first ∷ (b' ' ∷ []) ∷ second ∷ (b' ' ∷ []) ∷ third ∷ crlf ∷ []) in
    omega (
      arith,
      length-append line (header_lines headers ++ crlf),
      length-append (header_lines headers) crlf,
      length-append first (b' ' ∷ (second ++ (b' ' ∷ (third ++ crlf)))),
      length-append second (b' ' ∷ (third ++ crlf)),
      length-append third crlf,
    )

module _ (write : Write) (whole : IsWrite write) (allocate : Allocate) where
  -- A head that is filled has been written whole, into an allocated buffer of the computed size, which is
  -- its length.
  pub head_filled :
      (first second third : List ℕ) (headers : List Header) (total : ℕ) (r : List ℕ × Bool)
      → total ≡ length (header_lines headers)
      → fill_head write allocate total first second third headers ≡ ok r
      → (r ≡ (head_bytes first second third headers, true))
        × (head_length (length first) (length second) (length third) total
            ≡ ok (length (head_bytes first second third headers)))
        × (allocate (length (head_bytes first second third headers)) ≡ true)
  unfolding fill_head
  head_filled first second third headers total r t q =
      let (n, sized, q₁) =
        ok_parts (head_length (length first) (length second) (length third) total) _ q in
      let (b, allotted, q₂) = ok_parts (buf_init allocate n) _ q₁ in
      let size : n ≡ length (head_bytes first second third headers) = omega (
        arith,
        head_length_total (length first) (length second) (length third) total sized,
        length-head_bytes first second third headers,
        t,
      ) in
      let written =
        ap (λ z. write_head write z first second third headers)
          (allocated allocate n allotted ∙ ap (filling []) size)
        ∙ write_head-filling write whole first second third headers in
      (
        sym (ok_inj q₂) ∙ ap (λ z. (z.0.contents, z.1)) written,
        sized ∙ ap ok size,
        ap allocate (sym size) ∙ allotted_memory allocate n allotted,
      )

pub valid_method_lem :
    (o : Option (List ℕ)) (method : List ℕ)
    → o ≡ some method
    → is_http_token method ≡ true
    → valid_method o ≡ ok method
unfolding valid_method
valid_method_lem o method q t = rw (q, t) refl

pub valid_path_lem :
    (o : Option (List ℕ)) (uri : List ℕ)
    → o ≡ some uri
    → is_http_request_target uri ≡ true
    → valid_path o ≡ ok uri
unfolding valid_path
valid_path_lem o uri q t = rw (q, t) refl

-- With the memory for it, a head whose length is a `size_t` is filled.
pub fill_head_lem :
    (write : Write) (whole : IsWrite write) (allocate : Allocate) (first second third : List ℕ)
    (headers : List Header) (total : ℕ)
    → total ≡ length (header_lines headers)
    → length (head_bytes first second third headers) ≤ u64_max
    → allocate (length (head_bytes first second third headers)) ≡ true
    → fill_head write allocate total first second third headers
      ≡ ok (head_bytes first second third headers, true)
unfolding fill_head head_length buf_init
fill_head_lem write whole allocate first second third headers total t small memory =
    let n : ℕ = length (head_bytes first second third headers) in
    let sized : head_length (length first) (length second) (length third) total ≡ ok n =
      ground (arith, t, small, length-head_bytes first second third headers) in
    rw (sized, memory)
      (ap (λ z. ok (z.0.contents, z.1)) (write_head-filling write whole first second third headers))
