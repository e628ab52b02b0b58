-- ===== src/RandomAccessSet.antt =====
-- The set of source/random_access_set.c.
pub mod Operations
pub mod Invariant
pub mod Removal
mod Runs
