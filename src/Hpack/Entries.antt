-- ===== src/Hpack/Entries.antt =====
-- The entries of a header block: source/hpack_encoder.c and source/hpack_decoder.c.
pub mod Encode
pub mod Decode
pub mod Termination
pub mod SizeUpdates
pub mod Literal
pub mod RoundTrip
mod Runs
