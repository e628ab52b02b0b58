-- ===== src/Websocket.antt =====
-- WebSocket framing: source/websocket_encoder.c and source/websocket_decoder.c.
pub mod Opcode
pub mod Frame
pub mod Mask
pub mod Decoder
pub mod Encoder
pub mod HeaderBytes
mod Agreement
mod HeaderRoundTrip
mod HeaderStages
mod PayloadTaken
mod PayloadStages
mod FrameRoundTrip
mod RoundTrip
mod DecoderRuns
mod EncoderRuns
mod RoundTripRuns
