-- ===== src/Rewrite/Finish.antt =====
-- How `pat_channel_rewrite` (src/rewrite_pat.c), `pmt_channel_rewrite` (src/rewrite_pmt.c) and
-- `sdt_channel_rewrite` (src/rewrite_sdt.c) end: the new section length, the checksum and the
-- stuffing. `buf_dest` is the list of the bytes that were written, so `buf_dest_pos` is its length;
-- `unsigned long` has 64 bits.
use mu_mu_dvb.Prelude.{get_or, replicate, set, ◌*◌, ◌++◌, ◌^◌, ◌/◌, ◌-◌, u64, bit_and, length}
use mu_mu_dvb.Prelude.{◌+◌, bit_or, bit_xor, ℕ, zero, suc, List, [], ◌∷◌}
use mu_mu_dvb.Channel.Buffer.{ts_packet_size}
use mu_mu_dvb.Crc.Table.{crc32_table}
use mu_mu_dvb.Crc.Calc.{byte_at}

abbrev pub ts_header_len : ℕ
ts_header_len = 5

-- The two bytes of the section length, with the upper half of the first one kept.
unfoldable pub write_section_length : List ℕ → ℕ → List ℕ
write_section_length buf_dest new_section_length =
    let high =
      bit_or (bit_and new_section_length 0x0f00 / 2 ^ 8) (bit_and 0xf0 (byte_at buf_dest 6)) in
    set (set buf_dest 6 high) 7 (bit_and new_section_length 0xff)

-- `crc32 = (crc32 << 8) ^ crc32_table[((crc32 >> 24) ^ b)&0xff]` on an `unsigned long`.
unfoldable pub crc32_step_long : ℕ → ℕ → ℕ
crc32_step_long crc b =
    bit_xor (u64 (crc * 2 ^ 8)) (get_or crc32_table (bit_and (bit_xor (crc / 2 ^ 24) b) 0xff) 0)

-- `for(i = 0; i < new_section_length-1; i++)`, with `left` rounds to go.
unfoldable pub crc32_loop_long : List ℕ → ℕ → ℕ → ℕ → ℕ
crc32_loop_long buf_dest zero i crc = crc
crc32_loop_long buf_dest (suc left) i crc =
    crc32_loop_long buf_dest left (i + 1)
      (crc32_step_long crc (byte_at buf_dest (i + ts_header_len)))

-- The four bytes of the checksum.
unfoldable pub crc32_tail : ℕ → List ℕ
crc32_tail crc =
    bit_and (crc / 2 ^ 24) 0xff
    ∷ bit_and (crc / 2 ^ 16) 0xff
    ∷ bit_and (crc / 2 ^ 8) 0xff
    ∷ bit_and crc 0xff
    ∷ []

-- The whole packet.
unfoldable pub finish : List ℕ → List ℕ
unfolding write_section_length crc32_loop_long crc32_tail
finish buf_dest =
    let new_section_length = length buf_dest - ts_header_len + 1 in
    let written = write_section_length buf_dest new_section_length in
    let crc = crc32_loop_long written (new_section_length - 1) 0 0xffffffff in
    let closed = written ++ crc32_tail crc in
    closed ++ replicate (ts_packet_size - length closed) 0xff
