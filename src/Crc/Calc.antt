-- ===== src/Crc/Calc.antt =====
-- The loop that the code runs over the bytes of a section, in src/ts.c (`ts_check_raw_crc32`).
use mu_mu_dvb.Prelude.{ℕ, zero, suc, ◌+◌, ◌*◌, ◌/◌, ◌^◌, List, u8, u32}
use mu_mu_dvb.Prelude.{bit_and, bit_xor, get_or}
use mu_mu_dvb.Crc.Table.{crc32_table}

-- A read of an `unsigned char` cell.
abbrev pub byte_at : List ℕ → ℕ → ℕ
byte_at buf i = u8 (get_or buf i 0)

-- `crc32 = (crc32 << 8) ^ crc32_table[((crc32 >> 24) ^ b) & 0xff]`
unfoldable pub crc32_step : ℕ → ℕ → ℕ
crc32_step crc b =
    bit_xor (u32 (crc * 2 ^ 8)) (get_or crc32_table (bit_and (bit_xor (crc / 2 ^ 24) b) 0xff) 0)

-- `for(i = 0; i < len; i++)`, with `left` rounds to go at index `i`.
unfoldable pub crc32_loop : List ℕ → ℕ → ℕ → ℕ → ℕ
crc32_loop buf zero i crc = crc
crc32_loop buf (suc left) i crc = crc32_loop buf left (i + 1) (crc32_step crc (byte_at buf i))

-- The checksum of the first `len` bytes, from the start value of the code.
unfoldable pub crc32_of : List ℕ → ℕ → ℕ
crc32_of buf len = crc32_loop buf len 0 0xffffffff
