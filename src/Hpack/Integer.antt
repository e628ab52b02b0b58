-- ===== src/Hpack/Integer.antt =====
-- The variable-length integers of RFC 7541, section 5.1.
pub mod Codec
pub mod Prefix
pub mod Octets
pub mod Loop
pub mod RoundTrip
pub mod Resume
mod Pieces
mod Runs
