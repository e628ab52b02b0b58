-- ===== src/Http1/Decoder.antt =====
-- The decoder of source/h1_decoder.c: its data, its line states, the body states and the loop.
pub mod Types
pub mod Split
pub mod Headers
pub mod Lines
pub mod Process
pub mod Outcomes
pub mod Invariant
pub mod LineInvariant
pub mod Rounds
pub mod Loop
pub mod Accepted
pub mod Order
mod Runs
