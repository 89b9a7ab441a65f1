-- ===== src/Rewrite/Eit/Carry.antt =====
-- A packet of an EIT section (src/rewrite_eit.c) as `get_ts_packet` (src/ts.c) takes it.
use mu_mu_dvb.Ts.Store.{pop-nil, Holds}
use mu_mu_dvb.Ts.Add.{add_ts_packet_data}
use mu_mu_dvb.Prelude.{◌++◌, ◌&&◌, ◌/◌, ◌%◌, ◌≡◌, ◌==◌, length, ◌+◌, ◌<◌, u8, Bool, ℕ, List, []}
use mu_mu_dvb.Prelude.{some, true, false, refl, arith}
use mu_mu_dvb.Rewrite.Eit.Send.{eit_header}
use mu_mu_dvb.Crc.Calc.{byte_at}
use mu_mu_dvb.Ts.Packet.{TsPacket, start_ts, no_start}
use mu_mu_dvb.Ts.Header.{adaptation_field_control, payload_unit_start_indicator}
use mu_mu_dvb.Ts.Header.{continuity_counter, ts_pid, hilo}
use mu_mu_dvb.Ts.Get.{get_ts_packet, payload_offset, take_payload, take_start, take_continuing}

-- Three bytes that are taken for the start of a PES packet.
abbrev pub is_start_code : List ℕ → ℕ → Bool
is_start_code s i = byte_at s i == 0 && (byte_at s (i + 1) == 0 && byte_at s (i + 2) == 1)

control_lem : (cc : ℕ) → u8 (0x10 + cc % 16) / 16 % 4 ≡ 1
control_lem cc = omega arith

counter_lem : (cc : ℕ) → cc < 16 → u8 (0x10 + cc % 16) % 16 ≡ cc
counter_lem cc h = omega arith

-- A packet with the bytes `c` that continues a section.
pub carry_next :
    (c : List ℕ) (cc : ℕ) (p : TsPacket)
    → length c ≡ 184
    → cc < 16
    → is_start_code c 0 ≡ false
    → Holds p []
    → (get_ts_packet (some (eit_header false cc ++ c)) p).0
      ≡ add_ts_packet_data c p (length c) no_start 18 cc
unfolding get_ts_packet take_payload payload_offset take_continuing adaptation_field_control
    payload_unit_start_indicator continuity_counter ts_pid hilo
carry_next c cc p size h plain holds =
    rw (pop-nil p holds, control_lem cc, plain, counter_lem cc h, size) refl

-- A packet with the bytes `c` in which a section starts.
pub carry_first :
    (c : List ℕ) (cc : ℕ) (p : TsPacket)
    → length c ≡ 183
    → cc < 16
    → (byte_at c 0 == 0) ≡ false
    → Holds p []
    → (get_ts_packet (some (eit_header true cc ++ c)) p).0
      ≡ add_ts_packet_data c p (length c) start_ts 18 cc
unfolding get_ts_packet take_payload payload_offset take_start adaptation_field_control
    payload_unit_start_indicator continuity_counter ts_pid hilo
carry_first c cc p size h plain holds =
    rw (pop-nil p holds, control_lem cc, plain, counter_lem cc h, size) refl
