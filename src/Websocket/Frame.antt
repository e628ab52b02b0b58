-- ===== src/Websocket/Frame.antt =====
-- What the WebSocket encoder and decoder share: include/aws/http/private/websocket_impl.h, the
-- opcodes of include/aws/http/websocket.h, and the masking loop that both run over a payload.
use Prim.Native.Nat.{bit_xor}
use aws_c_http.Prelude.{ℕ, ◌+◌, ◌%◌, Bool, false, not, List, [], ◌∷◌, get_or, if◌then◌else◌}
use aws_c_http.Prelude.Bits.{flag}

-- `struct aws_websocket_frame`; `rsv[3]` is three fields, and `masking_key[4]` a list of four bytes.
pub record Frame : Type 0 where
  pub fin : Bool
  pub rsv0 : Bool
  pub rsv1 : Bool
  pub rsv2 : Bool
  pub masked : Bool
  pub opcode : ℕ
  pub payload_length : ℕ
  pub masking_key : List ℕ

-- `AWS_ZERO_STRUCT(frame)`
abbrev pub zero_frame : Frame
zero_frame = record {
  fin = false;
  rsv0 = false;
  rsv1 = false;
  rsv2 = false;
  masked = false;
  opcode = 0;
  payload_length = 0;
  masking_key = 0 ∷ 0 ∷ 0 ∷ 0 ∷ [];
}

-- Payload lengths: 7 bits, or a marker and 2 or 8 bytes.
abbrev pub value_for_2byte : ℕ
value_for_2byte = 126

abbrev pub value_for_8byte : ℕ
value_for_8byte = 127

abbrev pub min_2byte : ℕ
min_2byte = value_for_2byte

abbrev pub max_2byte : ℕ
max_2byte = 0xffff

abbrev pub min_8byte : ℕ
min_8byte = 0x1_0000

abbrev pub max_8byte : ℕ
max_8byte = 0x7fff_ffff_ffff_ffff

unfoldable pub is_data_frame : ℕ → Bool
is_data_frame opcode = not (flag opcode 0x08)

-- `*current_byte++ ^= masking_key[mask_index++ % 4]` up to the end of the bytes. A wrap of the
-- 64-bit index would not show, since 4 divides 2 ^ 64.
unfoldable pub mask : List ℕ → ℕ → List ℕ → List ℕ
mask key index [] = []
mask key index (b ∷ bs) = bit_xor b (get_or key (index % 4) 0) ∷ mask key (index + 1) bs

-- The masking of a piece of the payload, from the `index`-th byte on, if the frame is masked.
abbrev pub unmask : Frame → ℕ → List ℕ → List ℕ
unmask f index bytes = if f.masked then mask f.masking_key index bytes else bytes
