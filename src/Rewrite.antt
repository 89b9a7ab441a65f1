-- ===== src/Rewrite.antt =====
-- The rewriting of tables for a channel: src/rewrite_pat.c and src/rewrite_pmt.c.
pub mod Finish
pub mod Closed
pub mod Sound
pub mod Delivered
pub mod Table
pub mod Changes
pub mod Pat
pub mod Pmt
pub mod Sdt
pub mod Eit
pub mod Bytes
