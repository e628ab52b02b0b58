-- ===== src/Websocket/Decoder.antt =====
-- source/websocket_decoder.c: the data, the state functions, the loop over them, and the proofs.
pub mod Types
pub mod Steps
pub mod Process
pub mod Termination
pub mod Invariant
pub mod Moves
pub mod Stalls
pub mod Resume
pub mod Chunks
