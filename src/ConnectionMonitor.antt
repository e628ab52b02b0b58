-- ===== src/ConnectionMonitor.antt =====
-- The throughput monitor of source/connection_monitor.c.
pub mod Statistics
pub mod Samples
mod Runs
