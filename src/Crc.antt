-- ===== src/Crc.antt =====
-- The CRC-32 of MPEG-2: `crc32_table` (src/crc32.c) and the loop over a section
-- (`ts_check_raw_crc32` in src/ts.c; `rewrite_pat.c` and the other rewriters run the same loop).
pub mod Table
pub mod Calc
pub mod TableLaws
pub mod Fold
pub mod Append
