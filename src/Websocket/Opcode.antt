-- ===== src/Websocket/Opcode.antt =====
-- `enum aws_websocket_opcode` of include/aws/http/websocket.h.
use aws_c_http.Prelude.{ℕ}

abbrev pub continuation : ℕ
continuation = 0x0

abbrev pub text : ℕ
text = 0x1

abbrev pub binary : ℕ
binary = 0x2

abbrev pub close : ℕ
close = 0x8

abbrev pub ping : ℕ
ping = 0x9

abbrev pub pong : ℕ
pong = 0xa
