-- ===== src/Examples/TsRuns.antt =====
-- `get_ts_packet` at small inputs.
use mu_mu_dvb.Ts.Valid.{IsSound, Keeps, IsValid}
use mu_mu_dvb.Prelude.{ℕ, ◌++◌, replicate, length-replicate, ◌∷◌, false, take, arith, []}
use mu_mu_dvb.Prelude.{◌≡◌, All, refl, none, some}
use mu_mu_dvb.Crc.Table.{crc32_table}
use mu_mu_dvb.Ts.Loop.{add_ts_packet_data-round, add_ts_packet_data-Keeps}
use mu_mu_dvb.Ts.Section.{ts_check_crc32, ts_partial_full, ts_check_raw_crc32}
use mu_mu_dvb.Ts.Add.{first_half, complete_section, second_half, begin_section}
use mu_mu_dvb.Ts.Add.{add_ts_packet_data}
use mu_mu_dvb.Crc.Calc.{crc32_step, crc32_loop, crc32_of}
use mu_mu_dvb.Ts.Packet.{start_section, start_ts, cleared_packet, TsPacket}
use mu_mu_dvb.Ts.Store.{concat, Holds, Fits}
use mu_mu_dvb.Ts.Run.{received-IsSound, get_ts_packet_loses, received}
use mu_mu_dvb.Ts.Header.{hilo, payload_unit_start_indicator, adaptation_field_control}
use mu_mu_dvb.Ts.Header.{section_length}
use mu_mu_dvb.Examples.Section.{pes_packet, pat_packet, pat_section}
use mu_mu_dvb.Ts.Full.{ts_move_part_to_full}
use mu_mu_dvb.Ts.Get.{get_ts_packet, payload_offset}

-- The section goes to the store with its packet, and is handed out by the next call.
pat_received : received (some pat_packet ∷ none ∷ none ∷ []) cleared_packet ≡ pat_section ∷ []
unfolding received get_ts_packet add_ts_packet_data adaptation_field_control
    payload_unit_start_indicator begin_section section_length hilo complete_section ts_partial_full
    ts_check_crc32 ts_check_raw_crc32 crc32_of crc32_loop crc32_step crc32_table
    ts_move_part_to_full
pat_received = refl

cleared-Fits : Fits cleared_packet
cleared-Fits = omega (
  arith,
  length-replicate {A = ℕ} 4096 0,
  length-replicate {A = ℕ} 8192 0,
  length-replicate {A = ℕ} 15 0,
)

pub cleared-IsValid : IsValid cleared_packet []
unfolding concat
cleared-IsValid = record {
  fits = cleared-Fits;
  holds = record { number = refl; lengths = refl; bytes = refl; size = refl };
  sound = tt;
  progress = tt;
}

pub pat-IsSound : IsSound pat_section
unfolding ts_check_raw_crc32 section_length hilo crc32_of crc32_loop crc32_step crc32_table
pat-IsSound = record { own_length = refl; small = omega arith; checked = refl }

-- A state in which the section waits.
abbrev pub waiting_packet : TsPacket
waiting_packet = record cleared_packet {
  full_number = 1;
  full_lengths = 16 ∷ replicate 14 0;
  full_buffer_len = 16;
  buffer_full = pat_section ++ replicate 8176 0;
}

waiting-Fits : Fits waiting_packet
waiting-Fits = omega (
  arith,
  length-replicate {A = ℕ} 4096 0,
  length-replicate {A = ℕ} 8176 0,
  length-replicate {A = ℕ} 14 0,
)

waiting-Holds : Holds waiting_packet (pat_section ∷ [])
unfolding concat
waiting-Holds = record { number = refl; lengths = refl; bytes = refl; size = refl }

waiting-IsValid : IsValid waiting_packet (pat_section ∷ [])
waiting-IsValid = record {
  fits = waiting-Fits;
  holds = waiting-Holds;
  sound = (pat-IsSound, tt);
  progress = tt;
}

received-IsSound_example :
    All IsSound (received (some pat_packet ∷ none ∷ none ∷ []) cleared_packet)
received-IsSound_example =
    received-IsSound (some pat_packet ∷ none ∷ none ∷ []) cleared_packet [] (refl, (tt, (tt, tt)))
      cleared-IsValid

pes_ignored : payload_offset pes_packet ≡ none
unfolding payload_offset adaptation_field_control
pes_ignored = refl

get_ts_packet_loses_example :
    let (p, avail) = get_ts_packet (some pes_packet) waiting_packet in
    (avail ≡ false) × (take p.len_full p.data_full ≡ pat_section) × Holds p []
get_ts_packet_loses_example =
    get_ts_packet_loses pes_packet waiting_packet pat_section waiting-IsValid pes_ignored

add_ts_packet_data-round_example :
    add_ts_packet_data pat_section cleared_packet 16 start_ts 0 0
    ≡ second_half
        (λ b p left. add_ts_packet_data b p left start_section 0 0)
        pat_section
        (first_half pat_section cleared_packet 16 start_ts 0 0)
add_ts_packet_data-round_example =
    add_ts_packet_data-round pat_section cleared_packet 16 start_ts 0 0

add_ts_packet_data-Keeps_example :
    Keeps [] (add_ts_packet_data pat_section cleared_packet 16 start_ts 0 0)
add_ts_packet_data-Keeps_example =
    add_ts_packet_data-Keeps pat_section cleared_packet 16 start_ts 0 0 [] cleared-IsValid
      (omega arith) (omega arith)
