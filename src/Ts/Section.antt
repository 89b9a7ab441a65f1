-- ===== src/Ts/Section.antt =====
-- When a partial section is complete, and whether it is sound (`ts_check_raw_crc32`,
-- `ts_check_crc32` and `ts_partial_full` of src/ts.c).
use mu_mu_dvb.Prelude.{ℕ, ◌==◌, leb, Bool, true, false, if◌then◌else◌, List}
use mu_mu_dvb.Crc.Calc.{byte_at, crc32_of}
use mu_mu_dvb.Ts.Packet.{TsPacket, Status}
use mu_mu_dvb.Ts.Header.{whole_length}

-- The stuffing table, 0x72, has no checksum.
unfoldable pub ts_check_raw_crc32 : List ℕ → Bool
ts_check_raw_crc32 buf =
    if byte_at buf 0 == 0x72 then true else crc32_of buf (whole_length buf) == 0

-- The new state, and whether the checksum is right.
unfoldable pub ts_check_crc32 : TsPacket → TsPacket × Bool
ts_check_crc32 pkt =
    if ts_check_raw_crc32 pkt.data_partial
    then (record pkt { status_partial = Status.valid }, true)
    else (record pkt { status_partial = Status.empty; len_partial = 0 }, false)

unfoldable pub ts_partial_full : TsPacket → TsPacket × Bool
ts_partial_full pkt =
    if leb pkt.expected_len_partial pkt.len_partial
    then (record pkt { len_partial = pkt.expected_len_partial }, true)
    else (pkt, false)
