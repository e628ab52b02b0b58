-- ===== src/Http1.antt =====
-- HTTP/1: the decoder of source/h1_decoder.c and the encoder of source/h1_encoder.c.
pub mod Decoder
pub mod Encoder
pub mod Messages
pub mod StatusText
mod Samples
