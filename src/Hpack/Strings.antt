-- ===== src/Hpack/Strings.antt =====
-- The strings of source/hpack_encoder.c and source/hpack_decoder.c.
pub mod Codec
pub mod Reading
pub mod Writing
pub mod RoundTrip
mod Runs
