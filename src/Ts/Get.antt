-- ===== src/Ts/Get.antt =====
-- `get_ts_packet` of src/ts.c: one section is handed out, and one packet is taken in.
use mu_mu_dvb.Prelude.{ℕ, ◌+◌, ◌-◌, ◌==◌, leb, ltb, Bool, ◌&&◌, not, if◌then◌else◌, Option, none}
use mu_mu_dvb.Prelude.{some, List, drop, bit_and}
use mu_mu_dvb.Crc.Calc.{byte_at}
use mu_mu_dvb.Ts.Packet.{TsPacket, no_start, start_ts, ts_packet_size}
use mu_mu_dvb.Ts.Header.{ts_pid, payload_unit_start_indicator, adaptation_field_control}
use mu_mu_dvb.Ts.Header.{continuity_counter}
use mu_mu_dvb.Ts.Full.{pop_full}
use mu_mu_dvb.Ts.Add.{add_ts_packet_data, dropped}

-- Where the payload begins, behind the adaptation field; `none` where the function returns because
-- there is no table data in the packet.
unfoldable pub payload_offset : List ℕ → Option ℕ
payload_offset buf =
    let control = adaptation_field_control buf in
    let after_field = 4 + byte_at buf 4 + 1 in
    if not (bit_and control 0x2 == 0)
    then if leb ts_packet_size after_field
      then none
      else if control == 2
      then none
      else some after_field
    else if not (bit_and control 0x1 == 0)
        && (byte_at buf 4 == 0 && (byte_at buf 5 == 0 && byte_at buf 6 == 1))
    then none
    else some 4

-- A packet in which a section begins; `offset` is that of the pointer field.
unfoldable pub take_start : List ℕ → TsPacket → ℕ → Bool → TsPacket × Bool
take_start buf pkt offset avail =
    let pid = ts_pid buf in
    let cc = continuity_counter buf in
    let pointer_field = byte_at buf offset in
    let begin = offset + 1 + pointer_field in
    if pointer_field == 0
    then (add_ts_packet_data (drop begin buf) pkt (ts_packet_size - begin) start_ts pid cc, avail)
    else if ltb ts_packet_size begin
    then (dropped pkt, ltb 0 pkt.full_number)
    else let ended = add_ts_packet_data (drop (offset + 1) buf) pkt pointer_field no_start pid cc in
      (add_ts_packet_data (drop begin buf) ended (ts_packet_size - begin) start_ts pid cc, avail)

-- A packet that only continues a section.
unfoldable pub take_continuing : List ℕ → TsPacket → ℕ → Bool → TsPacket × Bool
take_continuing buf pkt offset avail = (
  add_ts_packet_data (drop offset buf) pkt (ts_packet_size - offset) no_start (ts_pid buf)
      (continuity_counter buf),
  avail,
)

-- The packet behind `pop_full`, by where its payload begins.
unfoldable pub take_payload : List ℕ → TsPacket → Bool → Option ℕ → TsPacket × Bool
unfolding take_start take_continuing
take_payload buf pkt avail none = (pkt, ltb 0 pkt.full_number)
take_payload buf pkt avail (some offset) =
    if not (payload_unit_start_indicator buf == 0)
    then take_start buf pkt offset avail
    else take_continuing buf pkt offset avail

-- The new state and the result. `none` is the NULL buffer, with which only a section is handed out.
unfoldable pub get_ts_packet : Option (List ℕ) → TsPacket → TsPacket × Bool
unfolding take_payload pop_full payload_offset
get_ts_packet none pkt = pop_full pkt
get_ts_packet (some buf) pkt =
    let (p, avail) = pop_full pkt in take_payload buf p avail (payload_offset buf)
