-- ===== src/Examples/SdtRuns.antt =====
-- The rewriting of the SDT at small inputs.
use mu_mu_dvb.Rewrite.Sdt.Generated.{sdt_channel_rewrite-received, sdt_source, searched}
use mu_mu_dvb.Rewrite.Closed.{section}
use mu_mu_dvb.Ts.Run.{received}
use mu_mu_dvb.Rewrite.Sdt.Descriptors.{copy_descriptors_lem, kept, loop_bytes, Descriptor}
use mu_mu_dvb.Ts.Packet.{cleared_packet}
use mu_mu_dvb.Rewrite.Sdt.{sdt_channel_rewrite, sdt_applicable, SdtChannel, SdtRewrite}
use mu_mu_dvb.Rewrite.Sdt.{find_service, copy_descriptors, keep_service, service_header}
use mu_mu_dvb.Rewrite.Sdt.{sdt_rewrite_copy_descriptor, found, option_off}
use mu_mu_dvb.Rewrite.Sdt.Found.{find_service-IsService, IsService}
use mu_mu_dvb.Crc.Calc.{byte_at}
use mu_mu_dvb.Rewrite.Sdt.Endless.{copy_descriptors_endless}
use mu_mu_dvb.Prelude.{ℕ, List, ◌++◌, replicate, length-replicate, [], ◌∷◌, true, false, refl}
use mu_mu_dvb.Prelude.{none, some, arith, ◌≡◌, length}
use mu_mu_dvb.Examples.TsRuns.{cleared-IsValid}
use mu_mu_dvb.Examples.Section.{pat_packet}
use mu_mu_dvb.Ts.Header.{adaptation_field_control, hilo, section_length}
use mu_mu_dvb.Rewrite.Table.{set_applicable}

-- A service descriptor, and a private one.
abbrev service_descriptor : Descriptor
service_descriptor = record { descriptor_tag = 0x48; payload = 0x01 ∷ 0x00 ∷ 0x00 ∷ [] }

abbrev private_descriptor : Descriptor
private_descriptor = record { descriptor_tag = 0x5f; payload = 0x00 ∷ 0x00 ∷ [] }

abbrev two_descriptors : List Descriptor
two_descriptors = private_descriptor ∷ service_descriptor ∷ []

-- The SDT with one service that has them.
abbrev sdt_front : List ℕ
sdt_front =
    0x42 ∷ 0xf0 ∷ 0x1a ∷ 0x00 ∷ 0x01 ∷ 0xc1 ∷ 0x00 ∷ 0x00 ∷ 0x00 ∷ 0x01 ∷ 0xff ∷ 0x00 ∷ 0x07 ∷ 0xfc
    ∷ 0x80 ∷ 0x09 ∷ []

copy_descriptors_example :
    copy_descriptors 10 (sdt_front ++ (loop_bytes two_descriptors ++ replicate 4071 0)) 16 9 0 []
    ≡ some (loop_bytes (kept two_descriptors))
copy_descriptors_example =
    copy_descriptors_lem two_descriptors sdt_front (replicate 4071 0)
      ((omega arith, omega arith), ((omega arith, omega arith), tt))

copy_descriptors_endless_example :
    copy_descriptors 1000 (sdt_front ++ (0x5f ∷ 0xfe ∷ [])) 16 9 0 [] ≡ none
copy_descriptors_endless_example =
    copy_descriptors_endless 1000 (sdt_front ++ (0x5f ∷ 0xfe ∷ [])) 16 9 0 [] (omega arith) refl

abbrev sdt_bytes : List ℕ
sdt_bytes = sdt_front ++ (loop_bytes two_descriptors ++ replicate 4071 0)

abbrev sdt_vars : SdtRewrite
sdt_vars = record {
  sdt_version = some 0;
  sdt_needs_update = false;
  sdt_need_others = false;
  sdt_last_section_number = 0;
  sdt_section_numbers_seen = 1 ∷ replicate 255 0;
  full_sdt_ok = true;
  full_sdt = record cleared_packet { data_full = sdt_bytes };
  sdt_continuity_counter = 0;
  sdt_force_eit = option_off;
}

abbrev seven_channel : SdtChannel
seven_channel = record {
  service_id = 7;
  ready = true;
  generated_sdt = [];
  generated_sdt_version = none;
  sdt_rewrite_skip = false;
}

-- What is written of the service: one of the two descriptors, and both EIT flags.
abbrev seven_service : List ℕ
seven_service = 0x00 ∷ 0x07 ∷ 0xff ∷ 0x80 ∷ 0x05 ∷ loop_bytes (service_descriptor ∷ [])

seven_found :
    find_service 26 (sdt_applicable sdt_vars) 7 (set_applicable sdt_bytes 0) 26 11
    ≡ found seven_service
unfolding find_service copy_descriptors keep_service service_header sdt_rewrite_copy_descriptor hilo
    set_applicable
seven_found = refl

find_service-IsService_example : IsService option_off seven_service
find_service-IsService_example =
    find_service-IsService 26 (sdt_applicable sdt_vars) 7 (set_applicable sdt_bytes 0) 26 11
      seven_service seven_found

sdt_bytes-size : length sdt_vars.full_sdt.data_full ≡ 4096
sdt_bytes-size = omega (arith, length-replicate {A = ℕ} 4071 0)

sdt_table : byte_at (set_applicable sdt_bytes 0) 0 ≡ 0x42
unfolding set_applicable
sdt_table = refl

seven_searched :
    searched sdt_vars seven_channel pat_packet refl sdt_bytes-size ≡ found seven_service
unfolding section_length hilo set_applicable
seven_searched = seven_found

pat_payload : adaptation_field_control pat_packet ≡ 1
unfolding adaptation_field_control
pat_payload = refl

sdt_channel_rewrite-received_example :
    (vars' : SdtRewrite) × (channel' : SdtChannel) × (sdt_channel_rewrite sdt_vars seven_channel
        pat_packet
      ≡ some (vars', (channel', true)))
    × (channel'.generated_sdt_version ≡ some 0)
    × (received (some channel'.generated_sdt ∷ none ∷ []) cleared_packet
        ≡ section (sdt_source sdt_vars seven_channel pat_packet refl sdt_bytes-size seven_service)
          ∷ [])
sdt_channel_rewrite-received_example =
    sdt_channel_rewrite-received sdt_vars seven_channel pat_packet refl sdt_bytes-size seven_service
      cleared_packet refl sdt_table pat_payload seven_searched cleared-IsValid
