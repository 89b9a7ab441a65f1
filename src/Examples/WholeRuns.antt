-- ===== src/Examples/WholeRuns.antt =====
-- Sections in several packets, and packets with several sections, at small inputs.
use mu_mu_dvb.Ts.Several.{add_several, push_all}
use mu_mu_dvb.Prelude.{refl, arith, length, replicate, ◌++◌, ℕ, List, [], ◌∷◌}
use mu_mu_dvb.Examples.TsRuns.{pat-IsSound, cleared-IsValid}
use mu_mu_dvb.Ts.Packet.{start_ts, cleared_packet}
use mu_mu_dvb.Ts.Whole.{assemble_lem}
use mu_mu_dvb.Ts.Add.{add_ts_packet_data}
use mu_mu_dvb.Ts.Store.{push, concat, Holds}
use mu_mu_dvb.Ts.Assemble.{assemble}
use mu_mu_dvb.Examples.Section.{pat_section}

abbrev first_piece : List ℕ
first_piece = 0x00 ∷ 0xb0 ∷ 0x0d ∷ 0x00 ∷ []

abbrev middle_piece : List ℕ
middle_piece = 0x01 ∷ 0xc1 ∷ 0x00 ∷ 0x00 ∷ 0x00 ∷ 0x01 ∷ []

abbrev last_piece : List ℕ
last_piece = 0xe1 ∷ 0x00 ∷ 0xe8 ∷ 0xf9 ∷ 0x5e ∷ 0x7d ∷ []

abbrev stuffing : List ℕ
stuffing = replicate 20 0xff

assemble_example :
    Holds
      (assemble cleared_packet 0 15 first_piece (middle_piece ∷ (last_piece ++ stuffing) ∷ []))
      (push [] pat_section)
unfolding concat
assemble_example =
    assemble_lem cleared_packet [] 0 15 pat_section first_piece (middle_piece ∷ []) last_piece
      stuffing cleared-IsValid pat-IsSound (omega arith) refl (omega arith) (omega arith)

add_several_example :
    let buf = pat_section ++ (concat (pat_section ∷ pat_section ∷ []) ++ stuffing) in
    Holds
      (add_ts_packet_data buf cleared_packet (length buf) start_ts 0 0)
      (push_all (push [] pat_section) (pat_section ∷ pat_section ∷ []))
add_several_example =
    add_several pat_section (pat_section ∷ pat_section ∷ []) stuffing cleared_packet [] 0 0
      cleared-IsValid pat-IsSound ((pat-IsSound, refl), ((pat-IsSound, refl), tt)) refl
