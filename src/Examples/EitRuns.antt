-- ===== src/Examples/EitRuns.antt =====
-- The rewriting of the EIT at small inputs.
use mu_mu_dvb.Rewrite.Eit.Turn.{find_section_lem}
use mu_mu_dvb.Prelude.{◌%◌, ◌*◌, ◌+◌, get_or-beyond, if◌then◌else◌, map, ◌==◌, replicate, ◌≤◌}
use mu_mu_dvb.Prelude.{◌≡◌, length, ◌++◌, ℕ, List, [], ◌∷◌, none, some, true, refl, arith}
use mu_mu_dvb.Rewrite.Eit.Chain.{store_eit_duplicates}
use mu_mu_dvb.Examples.TsRuns.{cleared-IsValid}
use mu_mu_dvb.Crc.Calc.{byte_at, crc32_step, crc32_loop, crc32_of}
use mu_mu_dvb.Rewrite.Table.{word16}
use mu_mu_dvb.Rewrite.Eit.Delivered.{send_section-received}
use mu_mu_dvb.Rewrite.Eit.Pieces.{HasNoCode}
use mu_mu_dvb.Rewrite.Eit.{cleared_eit, EitChannel, EitRewrite, store_eit, EitPacket}
use mu_mu_dvb.Rewrite.Eit.{store_section, eit_find_by_tsid, is_newer, eit_need_update}
use mu_mu_dvb.Rewrite.Eit.{eit_next_table_id}
use mu_mu_dvb.Ts.Packet.{cleared_packet, TsPacket}
use mu_mu_dvb.Ts.Run.{received}
use mu_mu_dvb.Rewrite.Eit.Send.{eit_rewrite_new_channel_packet, find_section, send_stored}
use mu_mu_dvb.Rewrite.Eit.Send.{take_table, send_table, find_table, send_found, send_entry}
use mu_mu_dvb.Rewrite.Eit.Send.{send_section}
use mu_mu_dvb.Crc.Table.{crc32_table}
use mu_mu_dvb.Ts.Header.{hilo, section_length, payload_unit_start_indicator}
use mu_mu_dvb.Ts.Section.{ts_check_raw_crc32}
use mu_mu_dvb.Ts.Valid.{IsSound}

-- An empty EIT section of service 7, the first of two.
abbrev eit_section : List ℕ
eit_section =
    0x4e ∷ 0xf0 ∷ 0x0f ∷ 0x00 ∷ 0x07 ∷ 0xc3 ∷ 0x00 ∷ 0x01 ∷ 0x00 ∷ 0x01 ∷ 0x00 ∷ 0x02 ∷ 0x00 ∷ 0x4e
    ∷ 0xbd ∷ 0xfc ∷ 0x8e ∷ 0xe0 ∷ []

eit-IsSound : IsSound eit_section
unfolding ts_check_raw_crc32 section_length hilo crc32_of crc32_loop crc32_step crc32_table
eit-IsSound = record { own_length = refl; small = omega arith; checked = refl }

short-HasNoCode : (s : List ℕ) → length s ≤ 183 → HasNoCode s
short-HasNoCode s h k =
    rw
      (
        get_or-beyond s (183 + 184 * k) 0 (omega arith),
        get_or-beyond s (183 + 184 * k + 1) 0 (omega arith),
        get_or-beyond s (183 + 184 * k + 2) 0 (omega arith),
      )
      refl

send_section-received_example :
    received
      (map some (send_section 18 (eit_section ++ replicate 4078 0) 0 18 15).0 ++ (none ∷ []))
      cleared_packet
    ≡ eit_section ∷ []
send_section-received_example =
    send_section-received eit_section (replicate 4078 0) 15 cleared_packet eit-IsSound refl
      (short-HasNoCode eit_section (omega arith)) (omega arith) cleared-IsValid

-- The section as it was read, and the entry that holds it.
abbrev full_eit_packet : TsPacket
full_eit_packet = record cleared_packet {
  data_full = eit_section ++ replicate 4078 0;
  len_full = 18;
}

abbrev stored_entry : EitPacket
stored_entry = record {
  service_id = 7;
  table_id = 0x4e;
  version = 1;
  last_section_number = 1;
  sections_stored = λ n. n == 0;
  full_eit_ok = true;
  full_eit_sections = λ n. if n == 0 then some full_eit_packet else none;
}

-- The same table in the version before.
abbrev old_entry : EitPacket
old_entry = record stored_entry { version = 0 }

abbrev eit_vars : EitRewrite
eit_vars = record {
  eit_needs_update = true;
  full_eit = full_eit_packet;
  eit_packets = old_entry ∷ [];
}

-- The section of the new version is still asked for once it was stored.
store_eit_duplicates_example :
    let (vars', stored) = store_eit (true, true) eit_vars in
    let eit = full_eit_packet.data_full in
    (stored ≡ true)
    × (vars'.eit_packets ≡ old_entry ∷ (store_section true full_eit_packet cleared_eit).0 ∷ [])
    × (eit_find_by_tsid vars'.eit_packets (word16 eit 3) (byte_at eit 0) ≡ some old_entry)
    × (eit_need_update vars'.eit_packets eit (some 0)
        ≡ eit_need_update eit_vars.eit_packets eit (some 0))
unfolding hilo
store_eit_duplicates_example = store_eit_duplicates eit_vars [] old_entry refl tt refl

abbrev eit_channel : EitChannel
eit_channel = record {
  service_id = 7;
  ready = true;
  eit_section_to_send = 1;
  eit_table_id_to_send = 0x50;
  eit_cc = 3;
}

abbrev eit_start : List ℕ
eit_start = (0x47 ∷ 0x40 ∷ 0x12 ∷ 0x10 ∷ 0x00 ∷ []) ++ replicate 183 0xff

-- The search goes over the schedule tables to the one that is stored, and over the section that is not.
eit_sent :
    (eit_rewrite_new_channel_packet eit_start (stored_entry ∷ []) eit_channel).0
    ≡ record eit_channel { eit_section_to_send = 1; eit_table_id_to_send = 0x4e; eit_cc = 4 }
unfolding eit_rewrite_new_channel_packet find_table take_table eit_find_by_tsid eit_next_table_id
    send_found send_table find_section send_entry send_stored send_section
    payload_unit_start_indicator
eit_sent = refl

update_needed : eit_need_update (old_entry ∷ []) full_eit_packet.data_full (some 0) ≡ true
unfolding eit_need_update eit_find_by_tsid is_newer hilo
update_needed = refl

find_section_lem_example :
    stored_entry.sections_stored (
      find_section
        (stored_entry.last_section_number + 1)
        stored_entry
        (1 % (stored_entry.last_section_number + 1)))
    ≡ true
find_section_lem_example = find_section_lem stored_entry 0 (omega arith) refl 1
