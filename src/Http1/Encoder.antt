-- ===== src/Http1/Encoder.antt =====
-- source/h1_encoder.c: the data, the state functions, the loop over them, and the proofs.
pub mod Types
pub mod States
pub mod Process
pub mod Termination
pub mod Wire
pub mod Pieces
pub mod Conserve
pub mod Copies
pub mod Lines
pub mod Ends
pub mod Bodies
pub mod Through
pub mod Emission
pub mod Scan
pub mod Trailer
pub mod Head
pub mod Chunks
pub mod HeadBytes
pub mod Accepted
pub mod OneLine
pub mod Filled
pub mod Request
pub mod Framing
pub mod ChunkLines
pub mod ChunkRoundTrip
mod Samples
mod Runs
