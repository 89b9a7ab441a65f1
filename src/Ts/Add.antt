-- ===== src/Ts/Add.antt =====
-- `add_ts_packet_data` of src/ts.c: the bytes of one packet join the partial section.
use mu_mu_dvb.Prelude.{ℕ, zero, suc, ◌+◌, ◌-◌, ◌%◌, ◌==◌, leb, ltb, ◌&&◌, ◌||◌, not}
use mu_mu_dvb.Prelude.{if◌then◌else◌, List, take, drop, memcpy}
use mu_mu_dvb.Crc.Calc.{byte_at}
use mu_mu_dvb.Ts.Packet.{TsPacket, Status, StartFlag, is_partial_header, is_started}
use mu_mu_dvb.Ts.Packet.{is_start_section, is_no_start, start_section, max_ts_size}
use mu_mu_dvb.Ts.Header.{whole_length}
use mu_mu_dvb.Ts.Section.{ts_check_crc32, ts_partial_full}
use mu_mu_dvb.Ts.Full.{ts_move_part_to_full}

-- What the first half of the function comes to: an early return, or the values of `data_left` and
-- `copy_len` with which it goes on.
pub data Progress : Type 0 where
  returned : TsPacket → Progress
  going : TsPacket → ℕ → ℕ → Progress

-- The state in which the data that was gathered is given up.
abbrev pub dropped : TsPacket → TsPacket
dropped pkt = record pkt { status_partial = Status.empty }

-- The branch of START_TS and START_SECTION.
unfoldable pub begin_section : List ℕ → TsPacket → ℕ → StartFlag → ℕ → ℕ → Progress
begin_section buf pkt data_left flag pid cc =
    if is_start_section flag && (byte_at buf 0 == 0xff)
    then returned pkt
    else if ltb data_left 3
    then going
        (record pkt {
          cc = cc;
          pid = pid;
          status_partial = Status.partial_header;
          data_partial = memcpy pkt.data_partial 0 (take data_left buf);
          len_partial = data_left;
          expected_len_partial = 0;
        })
        0 0
    else let expected = whole_length buf in
      let copy_len = if ltb expected data_left then expected else data_left in
      going
        (record pkt {
          cc = cc;
          pid = pid;
          status_partial = Status.started;
          expected_len_partial = expected;
          len_partial = copy_len;
          data_partial = memcpy pkt.data_partial 0 (take copy_len buf);
        })
        (data_left - copy_len) copy_len

-- The header is made up to three bytes, so that the section's length can be read.
unfoldable pub complete_header : List ℕ → TsPacket → TsPacket
complete_header buf pkt =
    let bytes = memcpy pkt.data_partial pkt.len_partial (take (3 - pkt.len_partial) buf) in
    record pkt {
      data_partial = bytes;
      expected_len_partial = whole_length bytes;
      status_partial = Status.started;
    }

-- The size of the copy: up to the end of the section, and of the buffer.
unfoldable pub append_len : TsPacket → ℕ → ℕ
append_len pkt data_left =
    let copy_len =
      if ltb pkt.expected_len_partial (pkt.len_partial + data_left)
      then pkt.expected_len_partial - pkt.len_partial
      else data_left in
    if ltb max_ts_size (pkt.len_partial + copy_len) then max_ts_size - pkt.len_partial else copy_len

-- The bytes are appended to a section that was started; nothing is left of them.
unfoldable pub append_section : List ℕ → TsPacket → ℕ → ℕ → Progress
append_section buf pkt data_left cc =
    let copy_len = append_len pkt data_left in
    going
      (record pkt {
        data_partial = memcpy pkt.data_partial pkt.len_partial (take copy_len buf);
        len_partial = pkt.len_partial + copy_len;
        cc = cc;
      })
      0 copy_len

-- The branch of NO_START.
unfoldable pub continue_section : List ℕ → TsPacket → ℕ → ℕ → ℕ → Progress
continue_section buf pkt data_left pid cc =
    if not (is_started pkt.status_partial || is_partial_header pkt.status_partial)
    then returned (dropped pkt)
    else if pkt.cc == cc
    then returned pkt
    else if not ((pkt.cc + 1) % 16 == cc)
    then returned (dropped pkt)
    else if not (pkt.pid == pid)
    then returned (dropped pkt)
    else if is_partial_header pkt.status_partial
    then if leb 3 pkt.len_partial
      then returned (dropped pkt)
      else if ltb data_left (3 - pkt.len_partial)
      then returned (dropped pkt)
      else append_section buf (complete_header buf pkt) data_left cc
    else append_section buf pkt data_left cc

-- A full section is checked, and moved to the store if its checksum is right.
unfoldable pub complete_section : TsPacket → TsPacket
complete_section pkt =
    let (p, full) = ts_partial_full pkt in
    let (p', good) = ts_check_crc32 p in
    if full then if good then ts_move_part_to_full p' else p' else p

unfoldable pub first_half : List ℕ → TsPacket → ℕ → StartFlag → ℕ → ℕ → Progress
first_half buf pkt data_left flag pid cc =
    if is_no_start flag
    then continue_section buf pkt data_left pid cc
    else begin_section buf pkt data_left flag pid cc

-- The second half: a section may be full, and another may begin behind it. `again` stands for the
-- call of itself, with START_SECTION.
unfoldable pub second_half : (List ℕ → TsPacket → ℕ → TsPacket) → List ℕ → Progress → TsPacket
second_half again buf (returned p) = p
second_half again buf (going p left copy_len) =
    if is_partial_header p.status_partial
    then p
    else if left == 0
    then complete_section p
    else again (drop copy_len buf) (complete_section p) left

-- The function, with fuel for its calls of itself.
unfoldable pub add_fuel : ℕ → List ℕ → TsPacket → ℕ → StartFlag → ℕ → ℕ → TsPacket
unfolding second_half first_half
add_fuel zero buf pkt data_left flag pid cc = pkt
add_fuel (suc fuel) buf pkt data_left flag pid cc =
    second_half (λ b p left. add_fuel fuel b p left start_section pid cc) buf
      (first_half buf pkt data_left flag pid cc)

-- Each call of itself is on fewer bytes, so this fuel is enough.
unfoldable pub add_ts_packet_data : List ℕ → TsPacket → ℕ → StartFlag → ℕ → ℕ → TsPacket
unfolding add_fuel
add_ts_packet_data buf pkt data_left flag pid cc =
    add_fuel (suc data_left) buf pkt data_left flag pid cc
