-- ===== src/Rewrite/Sound.antt =====
-- The section of a rewritten packet is as long as it says and passes the check of src/ts.c, so that
-- `get_ts_packet` takes it.
use mu_mu_dvb.Prelude.{bit_and_f0, bit_and_ff, length-set, get_or-set_below, set, zero-bit_or}
use mu_mu_dvb.Prelude.{get_or-set, ◌==◌, bit_and_0f00, Bool-cases, get_or-drop, ◌^◌}
use mu_mu_dvb.Prelude.{get_or-append, ap₂, ◌/◌, bit_and, ◌∙◌, u8, bit_or, ap, ◌%◌, length-append}
use mu_mu_dvb.Prelude.{◌+◌, ◌≡◌, ◌<◌, ◌-◌, length, ◌≤◌, ℕ, List, refl, arith, inl, inr, true}
use mu_mu_dvb.Ts.Header.{hilo_lem, hilo, whole_length, section_length}
use mu_mu_dvb.Crc.Append.{crc32_of-append, be32}
use mu_mu_dvb.Rewrite.Closed.{length-body, body, written, section}
use mu_mu_dvb.Crc.Calc.{crc32_of, byte_at}
use mu_mu_dvb.Rewrite.Finish.{ts_header_len, write_section_length}
use mu_mu_dvb.Ts.Valid.{IsSound}
use mu_mu_dvb.Ts.Section.{ts_check_raw_crc32}

module _ (buf_dest : List ℕ) (large : 8 ≤ length buf_dest) (small : length buf_dest ≤ 184) where
  byte_at-section :
      (i : ℕ) → i < 3 → byte_at (section buf_dest) i ≡ byte_at (written buf_dest) (5 + i)
  byte_at-section i h = ap u8 (
      get_or-append (body buf_dest) (be32 (crc32_of (body buf_dest) (length (body buf_dest)))) i 0
        (omega (arith, length-body buf_dest))
      ∙ get_or-drop ts_header_len i (written buf_dest) 0)

  -- The section is shorter than 256 bytes, so the upper half of its length is zero.
  pub high_nibble : byte_at (written buf_dest) 6 % 16 ≡ 0
  unfolding write_section_length
  high_nibble =
      let n = length buf_dest - ts_header_len + 1 in
      let kept = bit_and 0xf0 (byte_at buf_dest 6) in
      let none_set : bit_or (bit_and n 0x0f00 / 2 ^ 8) kept ≡ kept =
        ap (λ (t : ℕ). bit_or (t / 2 ^ 8) kept) (bit_and_0f00 n (omega arith)) ∙ zero-bit_or kept in
      let cell : byte_at (written buf_dest) 6 ≡ u8 kept = ap u8 (
        get_or-set_below (set buf_dest 6 (bit_or (bit_and n 0x0f00 / 2 ^ 8) kept)) 6 7
          (bit_and n 0xff) 0 (omega arith)
        ∙ get_or-set buf_dest 6 (bit_or (bit_and n 0x0f00 / 2 ^ 8) kept) 0 (omega arith)
        ∙ none_set) in
      omega (arith, cell, bit_and_f0 (byte_at buf_dest 6))

  low_byte : byte_at (written buf_dest) 7 ≡ length buf_dest - ts_header_len + 1
  unfolding write_section_length
  low_byte =
      let n = length buf_dest - ts_header_len + 1 in
      let high = bit_or (bit_and n 0x0f00 / 2 ^ 8) (bit_and 0xf0 (byte_at buf_dest 6)) in
      let cell : byte_at (written buf_dest) 7 ≡ u8 (bit_and n 0xff) = ap u8 (
        get_or-set (set buf_dest 6 high) 7 (bit_and n 0xff) 0
          (omega (arith, length-set buf_dest 6 high))) in
      omega (arith, cell, bit_and_ff n)

  pub length-section : length (section buf_dest) ≡ length buf_dest - 1
  length-section = omega (
    arith,
    length-append (body buf_dest) (be32 (crc32_of (body buf_dest) (length (body buf_dest)))),
    length-body buf_dest,
  )

  whole_length-section : whole_length (section buf_dest) ≡ length buf_dest - 1
  unfolding section_length
  whole_length-section =
      let n = length buf_dest - ts_header_len + 1 in
      let hi : byte_at (section buf_dest) 1 % 16 ≡ 0 =
        ap (λ (t : ℕ). t % 16) (byte_at-section 1 (omega arith)) ∙ high_nibble in
      let lo : byte_at (section buf_dest) 2 ≡ n = byte_at-section 2 (omega arith) ∙ low_byte in
      omega (arith, ap₂ hilo hi lo, hilo_lem 0 n (omega arith))

  checked_section : ts_check_raw_crc32 (section buf_dest) ≡ true
  unfolding ts_check_raw_crc32
  checked_section =
      let zero_sum : crc32_of (section buf_dest) (whole_length (section buf_dest)) ≡ 0 =
        ap (crc32_of (section buf_dest)) {y = length (body buf_dest) + 4}
          (omega (arith, whole_length-section, length-body buf_dest))
        ∙ crc32_of-append (body buf_dest) in
      elim (Bool-cases (byte_at (section buf_dest) 0 == 0x72)) [
        | inl stuffing ↦ rw stuffing refl
        | inr table ↦ rw (table, zero_sum) refl
      ]

  -- A packet of 8 to 184 bytes, once it is finished, holds behind its header a section that is as long
  -- as its own length field says, fits the buffers of the reassembly, and passes its check.
  pub section-IsSound : IsSound (section buf_dest)
  section-IsSound = record {
    own_length = omega (arith, length-section, whole_length-section);
    small = omega (arith, length-section, small);
    checked = checked_section;
  }
