-- ===== src/Examples/CrcRuns.antt =====
-- The checksum at small inputs.
use mu_mu_dvb.Prelude.{arith, true, ◌^◌, ◌*◌, ◌≡◌, refl}
use mu_mu_dvb.Crc.TableLaws.{table_at-shifts, shifts, table_at}
use mu_mu_dvb.Examples.Section.{pat_section, pat_body}
use mu_mu_dvb.Crc.Table.{crc32_table}
use mu_mu_dvb.Ts.Header.{hilo, section_length}
use mu_mu_dvb.Crc.Calc.{crc32_step, crc32_loop, crc32_of}
use mu_mu_dvb.Ts.Section.{ts_check_raw_crc32}

pat_checksum : crc32_of pat_body 12 ≡ 0xe8f95e7d
unfolding crc32_of crc32_loop crc32_step crc32_table
pat_checksum = refl

pat_passes : ts_check_raw_crc32 pat_section ≡ true
unfolding ts_check_raw_crc32 section_length hilo crc32_of crc32_loop crc32_step crc32_table
pat_passes = refl

table_at-shifts_example : table_at 1 ≡ shifts 8 (1 * 2 ^ 24)
table_at-shifts_example = table_at-shifts 1 (omega arith)
