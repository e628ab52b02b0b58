-- ===== src/Http1/Decoder/Accepted.antt =====
-- What the lines that source/h1_decoder.c accepts hand to the callbacks.
use aws_c_http.Prelude.{
  ℕ, ◌≡◌, refl, sym, ap, ◌∙◌, Bool, true, false, Option, none, some, List, [], ◌∷◌, ◌==◌, arith,
  length, get_or, map,
}
use aws_c_http.Strutil.Chars.{
  is_http_token, is_http_field_value, is_http_request_target, trim_http_whitespace,
}
use aws_c_http.Http1.Decoder.Types.{
  Span, HeaderName, content_length_name, transfer_encoding_name, other_name, DecodedHeader, Vtable,
  Common, Decoder, Outcome, next, fail, protocol_error, and_then, call, set_line_state, header_line,
}
use aws_c_http.Http1.Decoder.Split.{
  cursor_at, split_impl, split_first_n_times, split_exactly_n_times,
}
use aws_c_http.Http1.Decoder.Outcomes.{Leaves, if-Leaves, next-Leaves, fail-Leaves, and_then-Leaves}
use aws_c_http.Http1.Decoder.Headers.{
  str_to_header_name, add_coding, add_codings, coding_flag, transfer_encoding_header,
  content_length_header, body_header, accept_header, named_header, split_header, linestate_header,
}
use aws_c_http.Http1.Decoder.Lines.{version_1_1, accept_request, split_request, linestate_request}

module _ {U : Type 0} where
  and_then-next :
      (o : Outcome U) (f : Decoder U → Outcome U) {d : Decoder U}
      → and_then o f ≡ next d
      → (z : Decoder U) × (o ≡ next z) × (f z ≡ next d)
  and_then-next (next z) f e = (z, refl, e)
  and_then-next (fail b z) f e = absurd (ground (arith, e))

  call-next :
      (f : U → U × Bool) (d : Decoder U) {d' : Decoder U}
      → call f d ≡ next d'
      → ((f d.user_data).1 ≡ false) × (d' ≡ record d { user_data = (f d.user_data).0 })
  unfolding call
  call-next f d e = (ground arith, ground arith)

  -- A successful callback whose new user data are the decoder's.
  called :
      (f : U → U × Bool) (d : Decoder U) {d' : Decoder U}
      → call f d ≡ next d'
      → f d.user_data ≡ (d'.user_data, false)
  called f d e = let (ok, same) = call-next f d e in ground arith

  coded-user :
      (o : Option ℕ) (d : Decoder U) (rest : Decoder U → Outcome U)
      → ((z : Decoder U) → Leaves (λ d'. d'.user_data ≡ z.user_data) (rest z))
      → Leaves
          (λ d'. d'.user_data ≡ d.user_data)
          (elim o [
            | none ↦ fail protocol_error d
            | some coding ↦ and_then (add_coding coding d) rest
          ])
  unfolding add_coding
  coded-user none d rest more = fail-Leaves protocol_error d
  coded-user (some coding) d rest more =
      and_then-Leaves {P = λ z. z.user_data ≡ d.user_data} (record { left = λ d' e. ground arith })
        (λ z same. record { left = λ d' e. (more z).left d' e ∙ same })

  line_user :
      (z : Decoder U) {d' : Decoder U}
      → next (set_line_state z header_line) ≡ next d'
      → z.user_data ≡ d'.user_data
  unfolding set_line_state
  line_user z e = ground arith

module _ {U : Type 0} (c : Common) where
  add_codings-user :
      (splits : List (List ℕ)) (d : Decoder U)
      → Leaves (λ d'. d'.user_data ≡ d.user_data) (add_codings c splits d)
  unfolding add_codings
  add_codings-user [] d = next-Leaves d refl
  add_codings-user (split ∷ splits) d =
      coded-user (coding_flag c (trim_http_whitespace split)) d (add_codings c splits)
        (add_codings-user splits)

  -- The checks of a header leave the user data as they are.
  body_header-user :
      (name : HeaderName) (value : List ℕ) (d : Decoder U)
      → Leaves (λ d'. d'.user_data ≡ d.user_data) (body_header c name value d)
  unfolding body_header content_length_header transfer_encoding_header
  body_header-user other_name value d = next-Leaves d refl
  body_header-user content_length_name value d = record { left = λ d' e. ground arith }
  body_header-user transfer_encoding_name value d =
      let codings = add_codings-user (map (cursor_at value) (c.splits value b',')) d in
      search (if-Leaves, fail-Leaves)

-- The header that a line is decoded to.
abbrev pub decoded_header : Common → List ℕ → List ℕ → List ℕ → DecodedHeader
decoded_header c input name value = record {
  name = str_to_header_name c name;
  name_data = name;
  value_data = value;
  data_line = input;
}

-- What the header callback has been given: the name is a token and the value a field value.
pub record IsHeader {U : Type 0} (c : Common) (v : Vtable U) (input : List ℕ) (u u' : U)
    : Type 0 where
  pub name : List ℕ
  pub value : List ℕ
  pub token : is_http_token name ≡ true
  pub field_value : is_http_field_value value ≡ true
  pub given : v.on_header (decoded_header c input name value) u ≡ (u', false)

-- A request line has exactly three parts between its spaces, the third of which is `HTTP/1.1`; the
-- callback has been given the first, the method, which is a token, and the second, the target, which has
-- no space or control character.
pub record IsRequest {U : Type 0} (c : Common) (v : Vtable U) (input : List ℕ) (u u' : U)
    : Type 0 where
  pub first : Span
  pub second : Span
  pub third : Span
  pub spans : c.splits input b' ' ≡ first ∷ second ∷ third ∷ []
  pub token : is_http_token (cursor_at input first) ≡ true
  pub target : is_http_request_target (cursor_at input second) ≡ true
  pub supported : c.eq (cursor_at input third) version_1_1 ≡ true
  pub given : v.on_request (cursor_at input first) (cursor_at input second) u ≡ (u', false)

module _ {U : Type 0} (c : Common) (v : Vtable U) where
  accept_header-given :
      (input name value : List ℕ) (d : Decoder U) {d' : Decoder U}
      → accept_header c v input name value d ≡ next d'
      → v.on_header (decoded_header c input name value) d.user_data ≡ (d'.user_data, false)
  unfolding accept_header set_line_state
  accept_header-given input name value d {d'} e =
      let f : U → U × Bool = v.on_header (decoded_header c input name value) in
      let (z, checked, more) =
        and_then-next (body_header c (str_to_header_name c name) value d) _ e in
      let (z', header, set) = and_then-next (call f z) _ more in
      let same = (body_header-user c (str_to_header_name c name) value d).left z checked in
      let kept : z'.user_data ≡ d'.user_data = ground arith in
      ap f (sym same) ∙ called f z header ∙ ap (λ u. (u, false)) kept

  split_header-IsHeader :
      (input : List ℕ) (splits : Option (List (List ℕ))) (d : Decoder U) {d' : Decoder U}
      → split_header c v input splits d ≡ next d'
      → IsHeader c v input d.user_data d'.user_data
  unfolding split_header named_header
  split_header-IsHeader input none d e = absurd (ground (arith, e))
  split_header-IsHeader input (some splits) d {d'} e =
      let name : List ℕ = get_or splits 0 [] in
      let value : List ℕ = trim_http_whitespace (get_or splits 1 []) in
      let accepted : accept_header c v input name value d ≡ next d' = ground arith in
      record {
        name = name;
        value = value;
        token = ground arith;
        field_value = ground arith;
        given = accept_header-given input name value d accepted;
      }

  -- A header line that is accepted has given the callback a name that is a token and a value that is a
  -- field value, so that neither has a line break or a NUL.
  pub linestate_header-IsHeader :
      (input : List ℕ) (d d' : Decoder U)
      → (length input == 0) ≡ false
      → linestate_header c v input d ≡ next d'
      → IsHeader c v input d.user_data d'.user_data
  unfolding linestate_header
  linestate_header-IsHeader input d d' some_input e =
      let splits : Option (List (List ℕ)) = split_first_n_times c input b':' 2 in
      let accepted : split_header c v input splits d ≡ next d' = ground arith in
      split_header-IsHeader input splits d accepted

  split_request-IsRequest :
      (input : List ℕ) (spans : List Span) (d : Decoder U) {d' : Decoder U}
      → c.splits input b' ' ≡ spans
      → split_request c v (split_impl input spans 3 true) d ≡ next d'
      → IsRequest c v input d.user_data d'.user_data
  unfolding split_request accept_request split_impl
  split_request-IsRequest input [] d s e = absurd (ground (arith, e))
  split_request-IsRequest input (s₁ ∷ []) d s e = absurd (ground (arith, e))
  split_request-IsRequest input (s₁ ∷ (s₂ ∷ [])) d s e = absurd (ground (arith, e))
  split_request-IsRequest input (s₁ ∷ (s₂ ∷ (s₃ ∷ (s₄ ∷ ss)))) d s e = absurd (ground (arith, e))
  split_request-IsRequest input (s₁ ∷ (s₂ ∷ (s₃ ∷ []))) d {d'} s e =
      let method : List ℕ = cursor_at input s₁ in
      let uri : List ℕ = cursor_at input s₂ in
      let accepted : and_then (call (v.on_request method uri) d)
            (λ z. next (set_line_state z header_line))
          ≡ next d' =
        ground arith in
      let (z, request, set) = and_then-next (call (v.on_request method uri) d) _ accepted in
      record {
        first = s₁;
        second = s₂;
        third = s₃;
        spans = s;
        token = ground arith;
        target = ground arith;
        supported = ground arith;
        given =
            called (v.on_request method uri) d {d' = z} request
            ∙ ap (λ u. (u, false)) (line_user z set);
      }

  -- A request line that is accepted has exactly three parts between its spaces: a method that is a
  -- token, a target without a space or a control character, and a third part that `eq` takes for
  -- `HTTP/1.1`. The callback has been given the first two.
  pub linestate_request-IsRequest :
      (input : List ℕ) (d d' : Decoder U)
      → linestate_request c v input d ≡ next d'
      → IsRequest c v input d.user_data d'.user_data
  unfolding linestate_request split_exactly_n_times
  linestate_request-IsRequest input d d' e =
      split_request-IsRequest input (c.splits input b' ') d refl e
