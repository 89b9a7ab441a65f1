-- ===== src/Examples/T2miRuns.antt =====
-- The T2-MI decapsulation at small inputs.
use mu_mu_dvb.T2mi.Gather.{process_all-Gathered, process_all, payloads, Gathered}
use mu_mu_dvb.T2mi.Unwrap.{copy_aligned_lem, written, with_sync}
use mu_mu_dvb.Prelude.{◌-◌, ◌+◌, ◌≡◌, length, ◌++◌, replicate, ℕ, List, [], ◌∷◌, true, refl}
use mu_mu_dvb.Prelude.{arith}
use mu_mu_dvb.T2mi.Bounds.{processt2-IsWithin, IsWithin}
use mu_mu_dvb.Examples.Section.{pat_packet}
use mu_mu_dvb.T2mi.{Output, T2mi, put, is_out_of_bounds, copy_frames, copy_part, copy_aligned}
use mu_mu_dvb.T2mi.{copy_synced, copy_max, align, copy_payload, end_t2packet, append_t2packet}
use mu_mu_dvb.T2mi.{take_t2_start, take_t2, processt2, payload_start_offset}

-- A T2-MI packet of PLP 0 with 200 bytes of user packets: one packet, and the start of another one.
abbrev t2_bytes : List ℕ
t2_bytes =
    (0x00 ∷ 0x00 ∷ 0x00 ∷ 0x00 ∷ 0x00 ∷ 0x00 ∷ 0x00 ∷ 0x00 ∷ 0x00 ∷ 0x00 ∷ 0x00 ∷ 0x00 ∷ 0x00 ∷ 0x06
      ∷ 0x40 ∷ 0x00 ∷ 0x00 ∷ 0x00 ∷ 0x00 ∷ [])
    ++ (replicate 187 0x01 ++ (replicate 13 0x02 ++ replicate 100 0x00))

abbrev t2_state : T2mi
t2_state = record { t2mi_active = true; t2mi_first = true; t2packetpos = 219; t2packet = t2_bytes }

abbrev t2_output : Output
t2_output = record {
  output_buf = replicate 1000 0;
  output_buf_offset = 188;
  output_buf_size = 1000;
  output_bytes = 0;
}

processt2-IsWithin_example : IsWithin t2_output (processt2 0 pat_packet 0 t2_state t2_output).1
processt2-IsWithin_example =
    processt2-IsWithin 0 pat_packet 0 t2_state t2_output refl (omega arith) (omega arith)

-- Both go to the output, each with its sync byte.
two_parts : (processt2 0 pat_packet 0 t2_state t2_output).1.output_bytes ≡ 202
unfolding processt2 take_t2 take_t2_start payload_start_offset end_t2packet append_t2packet
    copy_payload copy_synced align copy_aligned copy_frames copy_part copy_max put is_out_of_bounds
two_parts = refl

abbrev unwrapped : List ℕ
unwrapped = with_sync 352 t2_bytes (19 + 0) (219 - (19 + 0))

length-unwrapped : length unwrapped ≡ 202
length-unwrapped = refl

copy_aligned_lem_example : copy_aligned t2_bytes 219 0 0 t2_output ≡ written unwrapped t2_output
copy_aligned_lem_example =
    copy_aligned_lem t2_bytes 219 (omega arith) (omega arith) 0 t2_output (omega arith)
      (omega (arith, length-unwrapped)) (omega arith)

abbrev next_packet : List ℕ
next_packet = (0x47 ∷ 0x00 ∷ 0x00 ∷ 0x10 ∷ []) ++ replicate 184 0x05

process_all-Gathered_example :
    Gathered
      (payloads (next_packet ∷ next_packet ∷ []))
      t2_state
      (process_all 0 (next_packet ∷ next_packet ∷ []) (t2_state, t2_output)).0
process_all-Gathered_example =
    process_all-Gathered 0 (next_packet ∷ next_packet ∷ []) t2_state t2_output refl
      (refl, (refl, tt))
