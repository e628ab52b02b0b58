-- ===== src/Http1/Encoder/Request.antt =====
-- A request from `aws_h1_encoder_message_init_from_request` of source/h1_encoder.c on: what its head is,
-- and that a call with room sends all of it.
use aws_c_http.Prelude.{
  ℕ, ◌≤◌, ◌≡◌, sym, ap, ◌∙◌, Bool, true, false, none, some, List, [], ◌∷◌, ◌++◌, All, length,
}
use aws_c_http.Prelude.Words.{u64_max}
use aws_c_http.ByteBuf.{ByteBuf, Write, IsWrite, WriteToCapacity, IsWriteToCapacity}
use aws_c_http.Strutil.Chars.{is_http_token, is_http_request_target}
use aws_c_http.Hpack.Table.Ring.{Header}
use aws_c_http.Http1.Messages.{ok, Message}
use aws_c_http.Http1.Decoder.Types.{Common}
use aws_c_http.Http1.Decoder.Lines.{version_1_1}
use aws_c_http.Http1.Encoder.Types.{Chunk, EncoderMessage, Encoder, Streams}
use aws_c_http.Http1.Encoder.Wire.{Source, body_wire, HoldsBody, AreSendable}
use aws_c_http.Http1.Encoder.Scan.{Scanned, scan_outgoing_headers}
use aws_c_http.Http1.Encoder.Head.{
  Allocate, valid_method, valid_path, fill_head, head_length, message_of, is_some,
  message_init_from_request,
}
use aws_c_http.Http1.Encoder.HeadBytes.{head_bytes}
use aws_c_http.Http1.Encoder.Accepted.{ok_parts, IsAcceptable, scan_accepted}
use aws_c_http.Http1.Encoder.OneLine.{
  IsOneLine, token-IsOneLine, target-IsOneLine, trimmed-IsOneLine,
}
use aws_c_http.Http1.Encoder.Filled.{method_valid, path_valid, ok_inj, head_filled}

header_OneLine :
    (hs : List Header) → All IsAcceptable hs → All (λ h. IsOneLine h.name × IsOneLine h.value) hs
header_OneLine [] a = tt
header_OneLine (h ∷ hs) a =
    ((token-IsOneLine h.name a.0.0, trimmed-IsOneLine h.value a.0.1), header_OneLine hs a.1)

module _ {S : Type 0} (c : Common) (write : Write) (whole : IsWrite write)
    (allocate : Allocate) where
  -- An initialised request has a method that is a token and a valid target. Its head is the request
  -- line, a line for each header, and an empty line; the method, the target, and the names and values of
  -- the headers have no byte that ends a line. The assertions hold, and the size that is computed from
  -- the scanned headers, and for which memory is allocated, is the length of the head.
  pub init_from_request-OneLine :
      (request : Message S) (chunks : List (Chunk S)) (m : EncoderMessage S) (asserted : Bool)
      → message_init_from_request c write allocate request chunks ≡ ok (m, asserted)
      → (method uri : List ℕ) × (s : Scanned) × (request.method ≡ some method)
        × (request.path ≡ some uri)
        × (scan_outgoing_headers c request.headers (is_some request.body_stream) false false ≡ ok s)
        × (head_length (length method) (length uri) (length version_1_1) s.total
            ≡ ok (length m.outgoing_head_buf))
        × (allocate (length m.outgoing_head_buf) ≡ true)
        × (asserted ≡ true)
        × (m.outgoing_head_buf ≡ head_bytes method uri version_1_1 request.headers)
        × IsOneLine method
        × IsOneLine uri
        × All (λ h. IsOneLine h.name × IsOneLine h.value) request.headers
  unfolding message_init_from_request
  init_from_request-OneLine request chunks m asserted q =
      let (method, q₁, r₁) = ok_parts (valid_method request.method) _ q in
      let (uri, q₂, r₂) = ok_parts (valid_path request.path) _ r₁ in
      let (s, q₃, r₃) =
        ok_parts (scan_outgoing_headers c request.headers (is_some request.body_stream) false false)
          _ r₂ in
      let (head, q₄, r₄) =
        ok_parts (fill_head write allocate s.total method uri version_1_1 request.headers) _ r₃ in
      let (goods, total) =
        scan_accepted c request.headers (is_some request.body_stream) false false s q₃ in
      let (filled, sized, memory) =
        head_filled write whole allocate method uri version_1_1 request.headers s.total head total
          q₄ in
      let (method_set, method_token) = method_valid request.method method q₁ in
      let (path_set, target) = path_valid request.path uri q₂ in
      let same : m.outgoing_head_buf ≡ head_bytes method uri version_1_1 request.headers =
        ap (λ z. z.0.outgoing_head_buf) (sym (ok_inj r₄)) ∙ ap (λ z. z.0) filled in
      (
        method,
        uri,
        s,
        method_set,
        path_set,
        q₃,
        sized ∙ ap (λ h. ok (length h)) (sym same),
        ap (λ h. allocate (length h)) same ∙ memory,
        ap (λ z. z.1) (sym (ok_inj r₄)) ∙ ap (λ z. z.1) filled,
        same,
        token-IsOneLine method method_token,
        target-IsOneLine uri target,
        header_OneLine request.headers goods,
      )

module _ {S : Type 0} (c : Common) (write : Write) (whole : IsWrite write)
    (write_to_capacity : WriteToCapacity) (writes : IsWriteToCapacity write_to_capacity)
    (allocate : Allocate) (streams : Streams S) (source : Source streams) where
  -- The bytes of a request line, the headers, and what follows the head of the message that is made.
  abbrev pub request_wire : Message S → List (Chunk S) → Scanned → List ℕ → List ℕ → List ℕ
  request_wire request chunks s method uri =
      let head = head_bytes method uri version_1_1 request.headers in
      head ++ body_wire source request.body_stream (message_of request.body_stream chunks s head)

  -- What a request has to be for its initialisation to succeed, and its body and its chunks for being
  -- sent.
  pub record IsReady (request : Message S) (chunks : List (Chunk S)) (s : Scanned)
      (method uri : List ℕ) : Type 0 where
    pub method_set : request.method ≡ some method
    pub method_token : is_http_token method ≡ true
    pub path_set : request.path ≡ some uri
    pub target : is_http_request_target uri ≡ true
    pub scanned :
        scan_outgoing_headers c request.headers (is_some request.body_stream) false false ≡ ok s
    pub fits : length (head_bytes method uri version_1_1 request.headers) ≤ u64_max
    pub memory : allocate (length (head_bytes method uri version_1_1 request.headers)) ≡ true
    pub length_fits : s.content_length ≤ u64_max
    pub body_held : HoldsBody source request.body_stream s.content_length
    pub chunks_sendable : AreSendable source chunks none
