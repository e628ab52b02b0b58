-- ===== src/Hpack/Table.antt =====
-- The dynamic table of source/hpack.c.
pub mod Ring
pub mod Operations
pub mod Eviction
pub mod Insertion
pub mod Growth
mod Runs
