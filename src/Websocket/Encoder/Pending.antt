-- ===== src/Websocket/Encoder/Pending.antt =====
-- The bytes that a frame takes on the wire (RFC 6455, section 5.2), and which of them an encoder has
-- still to write.
use aws_c_http.Prelude.{
  ℕ, ◌+◌, ◌≤◌, ◌<◌, ◌≡◌, true, false, List, [], ◌∷◌, ◌++◌, ltb, if◌then◌else◌, length, drop,
}
use aws_c_http.Websocket.Frame.{Frame, unmask, min_2byte, max_8byte}
use aws_c_http.Websocket.Encoder.Types.{
  ByteBuf, len, State, Encoder, PayloadFn, init, opcode_byte, length_byte, extended_length,
  masking_key_check, masking_key, payload_check, payload, done,
}
use aws_c_http.Websocket.Encoder.Steps.{pack_opcode_byte, pack_length_byte, network_bytes}

abbrev pub extension : Frame → List ℕ
extension f = if ltb f.payload_length min_2byte then [] else network_bytes f

abbrev pub key_bytes : Frame → List ℕ
key_bytes f = if f.masked then f.masking_key else []

-- What is to be written from each state on, with `k` bytes of the current part written and the
-- payload `r` not yet handed over.
abbrev pub pending : State → Frame → ℕ → List ℕ → List ℕ
pending init f k r =
    pack_opcode_byte f ∷ pack_length_byte f ∷ (extension f ++ (key_bytes f ++ unmask f 0 r))
pending opcode_byte f k r =
    pack_opcode_byte f ∷ pack_length_byte f ∷ (extension f ++ (key_bytes f ++ unmask f 0 r))
pending length_byte f k r = pack_length_byte f ∷ (extension f ++ (key_bytes f ++ unmask f 0 r))
pending extended_length f k r = drop k (network_bytes f) ++ (key_bytes f ++ unmask f 0 r)
pending masking_key_check f k r = key_bytes f ++ unmask f 0 r
pending masking_key f k r = drop k f.masking_key ++ unmask f 0 r
pending payload_check f k r = unmask f 0 r
pending payload f k r = unmask f k r
pending done f k r = []

-- A frame with its payload.
abbrev pub wire : Frame → List ℕ → List ℕ
wire f p = pending init f 0 p

-- What the caller of the encoder hands over: `remaining` is what is left of the payload, and each
-- call of the callback appends the next piece of it, within the capacity.
pub record Source {U : Type 0} (stream : PayloadFn U) : Type 0 where
  pub remaining : U → List ℕ
  pub piece : ByteBuf → U → List ℕ
  pub left : ByteBuf → U → U
  pub streams :
      (out : ByteBuf) (u : U)
      → stream out u ≡ (record out { contents = out.contents ++ piece out u }, left out u, false)
  pub splits : (out : ByteBuf) (u : U) → remaining u ≡ piece out u ++ remaining (left out u)
  pub within :
      (out : ByteBuf) (u : U)
      → len out ≤ out.capacity
      → len out + length (piece out u) ≤ out.capacity

-- A callback that hands over all that is left where there is room for it.
abbrev pub IsEager : {U : Type 0} {stream : PayloadFn U} → Source stream → Type 0
IsEager {U} source =
    (out : ByteBuf) (u : U)
    → len out + length (source.remaining u) ≤ out.capacity
    → source.piece out u ≡ source.remaining u

-- How far the current part is, and that what is left of the payload is what the frame announces.
abbrev pub InProgress : State → Frame → ℕ → List ℕ → Type 0
InProgress extended_length f k r =
    (f.payload_length ≡ length r) × (k < length (network_bytes f)) × (min_2byte ≤ f.payload_length)
InProgress masking_key f k r = (f.payload_length ≡ length r) × (k < 4) × (f.masked ≡ true)
InProgress payload f k r = (f.payload_length ≡ k + length r) × (k < f.payload_length)
InProgress done f k r = Unit {0}
InProgress s f k r = f.payload_length ≡ length r

pub record IsValid {U : Type 0} (remaining : U → List ℕ) (e : Encoder U) : Type 0 where
  pub in_progress : e.is_frame_in_progress ≡ true
  pub key : length e.frame.masking_key ≡ 4
  pub fits : e.frame.payload_length ≤ max_8byte
  pub progress : InProgress e.state e.frame e.state_bytes_processed (remaining e.user_data)
