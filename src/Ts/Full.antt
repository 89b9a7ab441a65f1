-- ===== src/Ts/Full.antt =====
-- The store of full sections: `ts_move_part_to_full`, and the head of `get_ts_packet`, which takes
-- one out (src/ts.c).
use mu_mu_dvb.Prelude.{ℕ, ◌+◌, ◌-◌, leb, ltb, Bool, true, false, if◌then◌else◌}
use mu_mu_dvb.Prelude.{get_or, set, take, drop, memcpy}
use mu_mu_dvb.Ts.Packet.{TsPacket, Status, max_full_packets, full_buffer_size}

-- The copy of the partial section behind the others.
unfoldable pub append_full : TsPacket → TsPacket
append_full pkt = record pkt {
  buffer_full = memcpy pkt.buffer_full pkt.full_buffer_len (take pkt.len_partial pkt.data_partial);
  full_buffer_len = pkt.full_buffer_len + pkt.len_partial;
  full_lengths = set pkt.full_lengths pkt.full_number pkt.len_partial;
  full_number = pkt.full_number + 1;
  len_partial = 0;
  status_partial = Status.empty;
}

unfoldable pub ts_move_part_to_full : TsPacket → TsPacket
unfolding append_full
ts_move_part_to_full pkt =
    if leb max_full_packets pkt.full_number
    then pkt
    else if leb full_buffer_size (pkt.full_buffer_len + pkt.len_partial)
    then record pkt {
      full_buffer_len = 0;
      full_number = 0;
      len_partial = 0;
      status_partial = Status.empty;
    }
    else append_full pkt

-- The rest of the store, once a section of `len` bytes is out: what stands behind it moves to the
-- front, if there is anything (the two `memmove` calls).
unfoldable pub shift_full : TsPacket → ℕ → TsPacket
shift_full pkt len =
    if ltb 0 pkt.full_number
    then record pkt {
      buffer_full = memcpy pkt.buffer_full 0 (take pkt.full_buffer_len (drop len pkt.buffer_full));
      full_lengths =
          memcpy pkt.full_lengths 0 (take (max_full_packets - 1) (drop 1 pkt.full_lengths));
    }
    else pkt

-- The first section of the store goes to `data_full`; the flag is `packet_avail`.
unfoldable pub pop_full : TsPacket → TsPacket × Bool
unfolding shift_full
pop_full pkt =
    let len = get_or pkt.full_lengths 0 0 in
    let taken : TsPacket = record pkt {
      len_full = len;
      data_full = memcpy pkt.data_full 0 (take len pkt.buffer_full);
      full_number = pkt.full_number - 1;
      full_buffer_len = pkt.full_buffer_len - len;
    } in
    if ltb 0 pkt.full_number then (shift_full taken len, true) else (pkt, false)
