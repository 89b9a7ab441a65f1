-- ===== src/Rewrite/Changes.antt =====
-- What the changes of a header and of a table leave alone (src/rewrite_pat.c and its like).
use mu_mu_dvb.Prelude.{◌<◌, bit_or_40, get_or-set, get_or-set_other, get_or-set_below, ◌∙◌, ◌%◌}
use mu_mu_dvb.Prelude.{◌*◌, u8, ◌-◌, ap, ◌/◌, ◌+◌, bit_or, length-set, ◌≤◌, set, ◌≡◌, length, ℕ}
use mu_mu_dvb.Prelude.{List, arith}
use mu_mu_dvb.Rewrite.Finish.{ts_header_len}
use mu_mu_dvb.Rewrite.Delivered.{IsTable}
use mu_mu_dvb.Crc.Calc.{byte_at}
use mu_mu_dvb.Ts.Header.{payload_unit_start_indicator, adaptation_field_control}
use mu_mu_dvb.Rewrite.Table.{set_continuity_counter, set_start, set_applicable}

pub length-set_start : (buf : List ℕ) → length (set_start buf) ≡ length buf
unfolding set_start
length-set_start buf =
    length-set (set buf 1 (bit_or 0x40 (byte_at buf 1))) (ts_header_len - 1) 0
    ∙ length-set buf 1 (bit_or 0x40 (byte_at buf 1))

pub length-set_applicable : (buf : List ℕ) (o : ℕ) → length (set_applicable buf o) ≡ length buf
unfolding set_applicable
length-set_applicable buf o =
    let first = set buf (o + 5) (byte_at buf (o + 5) / 2 * 2 + 1) in
    length-set (set first (o + 6) 0) (o + 7) 0
    ∙ length-set first (o + 6) 0
    ∙ length-set buf (o + 5) (byte_at buf (o + 5) / 2 * 2 + 1)

pub length-set_continuity_counter :
    (buf : List ℕ) (n : ℕ) → length (set_continuity_counter buf n) ≡ length buf
unfolding set_continuity_counter
length-set_continuity_counter buf n = length-set buf 3 (byte_at buf 3 / 16 * 16 + n % 16)

-- A packet whose section was moved to its start is one with a table.
pub set_start-IsTable :
    (buf : List ℕ) → 5 ≤ length buf → adaptation_field_control buf ≡ 1 → IsTable (set_start buf)
unfolding set_start adaptation_field_control payload_unit_start_indicator
set_start-IsTable buf long payload =
    let flag = bit_or 0x40 (byte_at buf 1) in
    let one = set buf 1 flag in
    let control : byte_at (set_start buf) 3 ≡ byte_at buf 3 = ap u8 (
      get_or-set_below one 3 4 0 0 (omega arith) ∙ get_or-set_other buf 3 1 flag 0 (omega arith)) in
    let start : byte_at (set_start buf) 1 ≡ u8 flag =
      ap u8 (get_or-set_below one 1 4 0 0 (omega arith) ∙ get_or-set buf 1 flag 0 (omega arith)) in
    record {
      starts = omega (arith, start, bit_or_40 (byte_at buf 1));
      payload_only = ap (λ (b : ℕ). b / 16 % 4) control ∙ payload;
      no_pointer = ap u8 (get_or-set one 4 0 0 (omega (arith, length-set buf 1 flag)));
    }

-- The header of a packet stays.
pub byte_at-set_applicable :
    (buf : List ℕ) (o i : ℕ) → i < o + 5 → byte_at (set_applicable buf o) i ≡ byte_at buf i
unfolding set_applicable
byte_at-set_applicable buf o i h =
    let flag = byte_at buf (o + 5) / 2 * 2 + 1 in
    let first = set buf (o + 5) flag in
    ap u8 (
      get_or-set_below (set first (o + 6) 0) i (o + 7) 0 0 (omega arith)
      ∙ get_or-set_below first i (o + 6) 0 0 (omega arith)
      ∙ get_or-set_below buf i (o + 5) flag 0 h)
