-- ===== src/Http1/Messages.antt =====
-- The HTTP/1.1 messages of source/request_response.c, and results with an error.
use aws_c_http.Prelude.{ℕ, Option, none, some, List}
use aws_c_http.Hpack.Table.Ring.{Header}

-- The errors that the preparation of a message raises.
pub data MessageError : Type 0 where
  invalid_header_name invalid_header_value invalid_header_field : MessageError
  invalid_body_stream missing_body_stream invalid_method invalid_path : MessageError
  invalid_status_code overflow_detected out_of_memory : MessageError

pub data Result (A : Type 0) : Type 0 where
  raised : MessageError → Result A
  ok : A → Result A

-- The early return on an error.
infixl 5 ◌>>=◌
abbrev pub ◌>>=◌ : {A B : Type 0} → Result A → (A → Result B) → Result B
raised x >>= continue = raised x
ok a >>= continue = continue a

-- The value of an optional one, or an error.
abbrev pub or_error : {A : Type 0} → MessageError → Option A → Result A
or_error e none = raised e
or_error e (some a) = ok a

-- `struct aws_http_message` for HTTP/1.1: `none` is the null pointer, and for `status` the unknown
-- status code. A request has no status, a response no method and no path.
pub record Message (S : Type 0) : Type 0 where
  pub headers : List Header
  pub body_stream : Option S
  pub method : Option (List ℕ)
  pub path : Option (List ℕ)
  pub status : Option ℕ
