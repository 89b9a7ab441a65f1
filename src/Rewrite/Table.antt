-- ===== src/Rewrite/Table.antt =====
-- The fields that `pat_t`, `pmt_t` and `pat_prog_t`, `pmt_info_t` (src/ts.h) have in the tables that
-- are rewritten, and the changes that all rewriting makes: the table is applicable at once and is
-- the only section, and a section begins right behind the header of the packet.
use mu_mu_dvb.Prelude.{◌-◌, ◌*◌, bit_or, ◌/◌, ◌==◌, ◌%◌, ◌+◌, set, Bool, ℕ, List, Option, none}
use mu_mu_dvb.Prelude.{some, true, false}
use mu_mu_dvb.Rewrite.Finish.{ts_header_len}
use mu_mu_dvb.Ts.Header.{hilo}
use mu_mu_dvb.Crc.Calc.{byte_at}

-- `version_number` and `current_next_indicator` of the table at `o`.
abbrev pub version_number : List ℕ → ℕ → ℕ
version_number buf o = byte_at buf (o + 5) / 2 % 32

abbrev pub current_next_indicator : List ℕ → ℕ → ℕ
current_next_indicator buf o = byte_at buf (o + 5) % 2

-- `current_next_indicator=1`, `section_number=0`, `last_section_number=0`
unfoldable pub set_applicable : List ℕ → ℕ → List ℕ
set_applicable buf o =
    set (set (set buf (o + 5) (byte_at buf (o + 5) / 2 * 2 + 1)) (o + 6) 0) (o + 7) 0

-- `payload_unit_start_indicator=1`, and the pointer field is erased.
unfoldable pub set_start : List ℕ → List ℕ
set_start buf = set (set buf 1 (bit_or 0x40 (byte_at buf 1))) (ts_header_len - 1) 0

-- `set_continuity_counter` (src/rewrite.c)
unfoldable pub set_continuity_counter : List ℕ → ℕ → List ℕ
set_continuity_counter buf continuity_counter =
    set buf 3 (byte_at buf 3 / 16 * 16 + continuity_counter % 16)

-- `HILO` of two bytes, of which the first has 16, 13 or 12 bits with the second.
abbrev pub word16 : List ℕ → ℕ → ℕ
word16 buf o = hilo (byte_at buf o) (byte_at buf (o + 1))

abbrev pub word13 : List ℕ → ℕ → ℕ
word13 buf o = hilo (byte_at buf o % 32) (byte_at buf (o + 1))

abbrev pub word12 : List ℕ → ℕ → ℕ
word12 buf o = hilo (byte_at buf o % 16) (byte_at buf (o + 1))

-- A stored version, where `none` is -1, against another one.
abbrev pub same_version : Option ℕ → Option ℕ → Bool
same_version none none = true
same_version (some a) (some b) = a == b
same_version none (some b) = false
same_version (some a) none = false
