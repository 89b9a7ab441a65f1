-- ===== src/Rewrite/Eit/Send.antt =====
-- `eit_rewrite_new_channel_packet` of src/rewrite_eit.c: the next section of the service of a channel
-- in packets.
use mu_mu_dvb.Prelude.{read_bytes, ltb, ◌++◌, not, leb, length, ◌%◌, ◌+◌, ◌-◌, ◌==◌}
use mu_mu_dvb.Prelude.{if◌then◌else◌, ℕ, zero, suc, List, [], ◌∷◌, none, some, Bool, Option}
use mu_mu_dvb.Prelude.{replicate}
use mu_mu_dvb.Ts.Header.{payload_unit_start_indicator}
use mu_mu_dvb.Rewrite.Eit.{is_eit_table, eit_find_by_tsid, eit_next_table_id, EitChannel}
use mu_mu_dvb.Rewrite.Eit.{EitPacket}
use mu_mu_dvb.Ts.Packet.{TsPacket, ts_packet_size}

-- The entry that was found for a table, or the rest of the search.
unfoldable pub take_table : Option EitPacket → ℕ → ℕ × Option EitPacket → ℕ × Option EitPacket
take_table none table_id other = other
take_table (some eit_pkt) table_id other =
    if eit_pkt.full_eit_ok then (table_id, some eit_pkt) else other

-- The search for a table that is stored, and where it ends; the 17 tables are tried in turn until
-- `section_start` comes again.
unfoldable pub find_table : ℕ → List EitPacket → ℕ → ℕ → ℕ → ℕ × Option EitPacket
unfolding take_table
find_table zero eit_packets service_id section_start table_id = (table_id, none)
find_table (suc fuel) eit_packets service_id section_start table_id =
    let next = eit_next_table_id table_id in
    let rest = find_table fuel eit_packets service_id section_start next in
    take_table (eit_find_by_tsid eit_packets service_id table_id) table_id
      (if next == section_start then (next, none) else rest)

-- The search for a section that is stored, with as many rounds as the table has sections.
unfoldable pub find_section : ℕ → EitPacket → ℕ → ℕ
find_section zero eit_pkt section = section
find_section (suc rounds) eit_pkt section =
    let rest = find_section rounds eit_pkt ((section + 1) % (eit_pkt.last_section_number + 1)) in
    if eit_pkt.sections_stored section then section else rest

-- The header of a packet: the first one has a pointer field, and its PID is 18.
abbrev pub eit_header : Bool → ℕ → List ℕ
eit_header first cc =
    if first
    then 0x47 ∷ 0x40 ∷ 18 ∷ (0x10 + cc % 16) ∷ 0x00 ∷ []
    else 0x47 ∷ 0x00 ∷ 18 ∷ (0x10 + cc % 16) ∷ []

-- `while(data_left_to_send>0)`, with the packets that go to `buffer_func` and the new counter.
unfoldable pub send_section : ℕ → List ℕ → ℕ → ℕ → ℕ → List (List ℕ) × ℕ
send_section zero data_full sent data_left_to_send eit_cc = ([], eit_cc)
send_section (suc fuel) data_full sent data_left_to_send eit_cc =
    let header = eit_header (sent == 0) eit_cc in
    let room = ts_packet_size - length header in
    let fits = leb room data_left_to_send in
    let n = if fits then room else data_left_to_send in
    let packet = header ++ (read_bytes n data_full sent ++ replicate (room - n) 0xff) in
    let (packets, cc) =
      send_section fuel data_full (sent + n) (data_left_to_send - n) ((eit_cc + 1) % 16) in
    if ltb 0 data_left_to_send then (packet ∷ packets, cc) else ([], eit_cc)

-- The section is sent, and the next one of the table, or the next table, is chosen.
unfoldable pub send_stored : EitPacket → ℕ → TsPacket → EitChannel → EitChannel × List (List ℕ)
unfolding send_section
send_stored eit_pkt section pkt_to_send channel =
    let (packets, cc) =
      send_section pkt_to_send.len_full pkt_to_send.data_full 0 pkt_to_send.len_full
        channel.eit_cc in
    let next = (section + 1) % (eit_pkt.last_section_number + 1) in
    (
      record channel {
        eit_cc = cc;
        eit_section_to_send = next;
        eit_table_id_to_send =
            if next == 0
            then eit_next_table_id channel.eit_table_id_to_send
            else channel.eit_table_id_to_send;
      },
      packets,
    )

-- A section that is marked as stored and is none is NULL, which the source would follow.
unfoldable pub send_entry :
    EitPacket → ℕ → Option TsPacket → EitChannel → EitChannel × List (List ℕ)
unfolding send_stored
send_entry eit_pkt section none channel = (channel, [])
send_entry eit_pkt section (some pkt_to_send) channel =
    send_stored eit_pkt section pkt_to_send channel

-- What is sent of a table that was found.
unfoldable pub send_table : EitPacket → EitChannel → EitChannel × List (List ℕ)
unfolding find_section send_entry
send_table eit_pkt channel =
    let sections = eit_pkt.last_section_number + 1 in
    let section = find_section sections eit_pkt (channel.eit_section_to_send % sections) in
    let chosen : EitChannel = record channel { eit_section_to_send = section } in
    let skipped : EitChannel = record chosen {
      eit_table_id_to_send = eit_next_table_id channel.eit_table_id_to_send;
    } in
    if not (eit_pkt.sections_stored section)
    then (skipped, [])
    else send_entry eit_pkt section (eit_pkt.full_eit_sections section) chosen

unfoldable pub send_found : Option EitPacket → EitChannel → EitChannel × List (List ℕ)
unfolding send_table
send_found none channel = (channel, [])
send_found (some eit_pkt) channel = send_table eit_pkt channel

-- The new channel, and the packets that go to `buffer_func`.
unfoldable pub eit_rewrite_new_channel_packet :
    List ℕ → List EitPacket → EitChannel → EitChannel × List (List ℕ)
unfolding find_table send_found
eit_rewrite_new_channel_packet ts_packet eit_packets channel =
    let asked = channel.eit_table_id_to_send in
    let section_start = if is_eit_table asked then asked else 0x4e in
    let (table_id, found) =
      find_table 17 eit_packets channel.service_id section_start section_start in
    if not channel.ready
    then (channel, [])
    else if payload_unit_start_indicator ts_packet == 0
    then (channel, [])
    else send_found found (record channel { eit_table_id_to_send = table_id })
