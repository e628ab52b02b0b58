-- ===== src/Hpack.antt =====
-- HPACK: the integers, the strings and the header fields of source/hpack_encoder.c and
-- source/hpack_decoder.c, and the tables of source/hpack.c.
pub mod Integer
pub mod Table
pub mod Static
pub mod Strings
pub mod Entries
