-- ===== src/Strutil.antt =====
-- Character tests and trimming of source/strutil.c.
pub mod Chars
pub mod Trim
pub mod Grammar
mod Runs
