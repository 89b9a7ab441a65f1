-- ===== src/Examples/PatRuns.antt =====
-- `get_ts_begin` and the rewriting of the PAT at small inputs.
use mu_mu_dvb.Rewrite.Pat.Sent.{IsCurrent, channel_packet-IsRight, IsRight, IsGenerated}
use mu_mu_dvb.Crc.Table.{crc32_table}
use mu_mu_dvb.Rewrite.Pat.Kept.{pat_buf_dest_lem}
use mu_mu_dvb.Ts.Packet.{TsPacket, cleared_packet}
use mu_mu_dvb.Crc.Calc.{crc32_step, crc32_loop, crc32_of}
use mu_mu_dvb.Rewrite.Pat.Generated.{pat_channel_rewrite-received, pat_source}
use mu_mu_dvb.Rewrite.Pat.Programs.{wanted, max_programs}
use mu_mu_dvb.Prelude.{ℕ, List, ◌++◌, replicate, length-replicate, [], ◌∷◌, true, false, refl}
use mu_mu_dvb.Prelude.{none, some, arith, ◌≡◌, length, take}
use mu_mu_dvb.Rewrite.Pat.Next.{download_pat_overwrites}
use mu_mu_dvb.Rewrite.Pat.State.{IsRewriting}
use mu_mu_dvb.Rewrite.Delivered.{received-finish, IsTable}
use mu_mu_dvb.Rewrite.Table.{version_number}
use mu_mu_dvb.Rewrite.Finish.{finish, ts_header_len}
use mu_mu_dvb.Rewrite.Closed.{section}
use mu_mu_dvb.Rewrite.Pat.{pat_channel_rewrite, download_pat, pat_buf_dest}
use mu_mu_dvb.Rewrite.Pat.{pat_rewrite_new_channel_packet, PatRewrite, PatChannel}
use mu_mu_dvb.Ts.Valid.{IsValid, IsSound}
use mu_mu_dvb.Ts.Section.{ts_check_raw_crc32}
use mu_mu_dvb.Ts.Store.{concat}
use mu_mu_dvb.Ts.Run.{received}
use mu_mu_dvb.Examples.Section.{pat_body, pat_section, pat_packet}
use mu_mu_dvb.Examples.TsRuns.{cleared-IsValid, pat-IsSound}
use mu_mu_dvb.Ts.Header.{payload_unit_start_indicator, adaptation_field_control, section_length}
use mu_mu_dvb.Ts.Header.{hilo}
use mu_mu_dvb.Ts.Begin.{get_ts_begin, begin_of_payload, is_pes}

pat_begins : get_ts_begin pat_packet ≡ some 5
unfolding get_ts_begin begin_of_payload is_pes adaptation_field_control payload_unit_start_indicator
pat_begins = refl

-- What is written for the PAT before its section is closed.
abbrev pat_written : List ℕ
pat_written = (0x47 ∷ 0x40 ∷ 0x00 ∷ 0x10 ∷ 0x00 ∷ []) ++ pat_body

pat_written-IsTable : IsTable pat_written
unfolding payload_unit_start_indicator adaptation_field_control
pat_written-IsTable = record { starts = refl; payload_only = refl; no_pointer = refl }

received-finish_example :
    received (some (finish pat_written) ∷ none ∷ []) cleared_packet ≡ section pat_written ∷ []
received-finish_example =
    received-finish pat_written (omega arith) (omega arith) pat_written-IsTable cleared_packet
      cleared-IsValid

-- A channel with the programme, and the state in which the PAT was received.
abbrev one_channel : PatChannel
one_channel = record {
  service_id = 1;
  pids = 256 ∷ [];
  ready = true;
  generated_pat = [];
  generated_pat_version = none;
}

abbrev pat_bytes : List ℕ
pat_bytes = pat_section ++ replicate 4080 0

pat_bytes-size : length pat_bytes ≡ 4096
pat_bytes-size = omega (arith, length-replicate {A = ℕ} 4080 0)

abbrev read_packet : TsPacket
read_packet = record cleared_packet { data_full = pat_bytes; len_full = 16 }

read-IsValid : IsValid read_packet []
unfolding concat
read-IsValid = record {
  fits = omega (
    arith,
    pat_bytes-size,
    length-replicate {A = ℕ} 4096 0,
    length-replicate {A = ℕ} 8192 0,
    length-replicate {A = ℕ} 15 0,
  );
  holds = record { number = refl; lengths = refl; bytes = refl; size = refl };
  sound = tt;
  progress = tt;
}

abbrev read_vars : PatRewrite
read_vars = record {
  pat_version = some 0;
  pat_needs_update = false;
  full_pat_ok = true;
  full_pat = read_packet;
  pat_continuity_counter = 3;
}

read-IsRewriting : IsRewriting read_vars
read-IsRewriting = record { queue = []; valid = read-IsValid; known = λ ok. (0, refl) }

pat_buf_dest_example :
    pat_buf_dest one_channel pat_packet pat_bytes
    ≡ (take ts_header_len pat_packet ++ take 8 pat_bytes)
      ++ concat (take max_programs (wanted one_channel pat_bytes))
pat_buf_dest_example = pat_buf_dest_lem one_channel pat_packet pat_bytes refl pat_bytes-size

pat_payload : adaptation_field_control pat_packet ≡ 1
unfolding adaptation_field_control
pat_payload = refl

pat_channel_rewrite-received_example :
    received
      (some (pat_channel_rewrite read_vars one_channel pat_packet).1.0.generated_pat ∷ none ∷ [])
      cleared_packet
    ≡ section (pat_source read_vars one_channel pat_packet refl pat_bytes-size) ∷ []
pat_channel_rewrite-received_example =
    pat_channel_rewrite-received read_vars one_channel pat_packet refl pat_bytes-size cleared_packet
      pat_payload cleared-IsValid

one_channel-IsGenerated : IsGenerated one_channel
one_channel-IsGenerated = record { of_version = λ v e. absurd (ground (arith, e)) }

read-IsCurrent : IsCurrent read_vars
read-IsCurrent ok = refl

channel_packet-IsRight_example :
    let (vars', (channel', sent)) =
      pat_rewrite_new_channel_packet pat_packet read_vars one_channel in
    IsRight pat_packet read_vars one_channel vars' channel' sent
channel_packet-IsRight_example =
    channel_packet-IsRight pat_packet read_vars one_channel refl read-IsRewriting read-IsCurrent
      one_channel-IsGenerated

-- The same PAT, not applicable yet.
abbrev later_section : List ℕ
later_section =
    0x00 ∷ 0xb0 ∷ 0x0d ∷ 0x00 ∷ 0x01 ∷ 0xc0 ∷ 0x00 ∷ 0x00 ∷ 0x00 ∷ 0x01 ∷ 0xe1 ∷ 0x00 ∷ 0xa7 ∷ 0xae
    ∷ 0x36 ∷ 0x6c ∷ []

later-IsSound : IsSound later_section
unfolding ts_check_raw_crc32 section_length hilo crc32_of crc32_loop crc32_step crc32_table
later-IsSound = record { own_length = refl; small = omega arith; checked = refl }

abbrev two_waiting : TsPacket
two_waiting = record cleared_packet {
  full_number = 2;
  full_lengths = 16 ∷ 16 ∷ replicate 13 0;
  full_buffer_len = 32;
  buffer_full = pat_section ++ (later_section ++ replicate 8160 0);
}

two_waiting-IsValid : IsValid two_waiting (pat_section ∷ later_section ∷ [])
unfolding concat
two_waiting-IsValid = record {
  fits = omega (
    arith,
    length-replicate {A = ℕ} 4096 0,
    length-replicate {A = ℕ} 8160 0,
    length-replicate {A = ℕ} 13 0,
  );
  holds = record { number = refl; lengths = refl; bytes = refl; size = refl };
  sound = (pat-IsSound, (later-IsSound, tt));
  progress = tt;
}

abbrev waiting_vars : PatRewrite
waiting_vars = record read_vars { full_pat = two_waiting }

download_pat_overwrites_example :
    let vars' = download_pat 17 none waiting_vars in
    (vars'.full_pat_ok ≡ true)
    × (vars'.pat_version ≡ some (version_number pat_section 0))
    × (take vars'.full_pat.len_full vars'.full_pat.data_full ≡ later_section)
download_pat_overwrites_example =
    download_pat_overwrites 14 waiting_vars pat_section later_section two_waiting-IsValid
      (omega arith) (omega arith) refl refl
