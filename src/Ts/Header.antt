-- ===== src/Ts/Header.antt =====
-- The bit fields of `ts_header_t` and `tbl_h_t` (src/ts.h), read as the compiler lays them out on
-- either byte order, and `HILO`.
use mu_mu_dvb.Prelude.{ℕ, ◌+◌, ◌*◌, ◌/◌, ◌%◌, ◌^◌, ◌<◌, ◌≡◌, arith, List, bit_or, bit_or_beside}
use mu_mu_dvb.Crc.Calc.{byte_at}

-- `HILO(x)`: `x_hi << 8 | x_lo`
unfoldable pub hilo : ℕ → ℕ → ℕ
hilo hi lo = bit_or (hi * 2 ^ 8) lo

-- `HILO(header->pid)`: five bits, then eight.
unfoldable pub ts_pid : List ℕ → ℕ
ts_pid buf = hilo (byte_at buf 1 % 32) (byte_at buf 2)

-- `header->payload_unit_start_indicator`
unfoldable pub payload_unit_start_indicator : List ℕ → ℕ
payload_unit_start_indicator buf = byte_at buf 1 / 64 % 2

-- `header->adaptation_field_control`
unfoldable pub adaptation_field_control : List ℕ → ℕ
adaptation_field_control buf = byte_at buf 3 / 16 % 4

-- `header->continuity_counter`
unfoldable pub continuity_counter : List ℕ → ℕ
continuity_counter buf = byte_at buf 3 % 16

-- `HILO(tbl_struct->section_length)`: four bits, then eight.
unfoldable pub section_length : List ℕ → ℕ
section_length buf = hilo (byte_at buf 1 % 16) (byte_at buf 2)

-- The length of the whole section, `HILO(tbl_struct->section_length)+BYTES_BFR_SEC_LEN`.
abbrev pub whole_length : List ℕ → ℕ
whole_length buf = section_length buf + 3

pub hilo_lem : (hi lo : ℕ) → lo < 256 → hilo hi lo ≡ hi * 256 + lo
unfolding hilo
hilo_lem hi lo h = bit_or_beside 8 hi lo h

-- A section length has twelve bits.
pub section_length-lt : (buf : List ℕ) → section_length buf < 4096
unfolding section_length
section_length-lt buf = omega (arith, hilo_lem (byte_at buf 1 % 16) (byte_at buf 2))
