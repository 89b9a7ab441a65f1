-- ===== src/Ts/Output.antt =====
-- The section that was handed out is not touched while a packet is taken in (src/ts.c).
use mu_mu_dvb.Prelude.{◌-◌, ◌+◌, Option, drop, ◌∙◌, arith, List, ◌≡◌, ℕ, Bool, refl, zero, suc}
use mu_mu_dvb.Prelude.{some, none}
use mu_mu_dvb.Ts.Packet.{ts_packet_size, StartFlag, TsPacket, no_start, start_ts, start_section}
use mu_mu_dvb.Ts.Header.{continuity_counter, ts_pid}
use mu_mu_dvb.Crc.Calc.{byte_at}
use mu_mu_dvb.Ts.Get.{take_continuing, take_start, take_payload}
use mu_mu_dvb.Ts.Add.{second_half, add_ts_packet_data, complete_header, append_section}
use mu_mu_dvb.Ts.Add.{continue_section, Progress, begin_section, first_half, complete_section}
use mu_mu_dvb.Ts.Add.{add_fuel, returned, going}
use mu_mu_dvb.Ts.Full.{ts_move_part_to_full}
use mu_mu_dvb.Ts.Section.{ts_check_crc32, ts_partial_full}

-- The output of the second state is that of the first.
abbrev pub SameOutput : TsPacket → TsPacket → Type 0
SameOutput pkt p = (p.data_full ≡ pkt.data_full) × (p.len_full ≡ pkt.len_full)

abbrev state_of : Progress → TsPacket
state_of (returned p) = p
state_of (going p left k) = p

complete-output : (pkt : TsPacket) → SameOutput pkt (complete_section pkt)
unfolding complete_section ts_partial_full ts_check_crc32 ts_move_part_to_full
complete-output pkt = ground arith

begin-output :
    (buf : List ℕ) (pkt : TsPacket) (n : ℕ) (flag : StartFlag) (pid cc : ℕ)
    → SameOutput pkt (state_of (begin_section buf pkt n flag pid cc))
unfolding begin_section
begin-output buf pkt n flag pid cc' = ground arith

continue-output :
    (buf : List ℕ) (pkt : TsPacket) (n : ℕ) (pid cc : ℕ)
    → SameOutput pkt (state_of (continue_section buf pkt n pid cc))
unfolding continue_section append_section complete_header
continue-output buf pkt n pid cc' = ground arith

first_half-output :
    (buf : List ℕ) (pkt : TsPacket) (n : ℕ) (flag : StartFlag) (pid cc : ℕ)
    → SameOutput pkt (state_of (first_half buf pkt n flag pid cc))
unfolding first_half
first_half-output buf pkt n no_start pid cc' = continue-output buf pkt n pid cc'
first_half-output buf pkt n start_ts pid cc' = begin-output buf pkt n start_ts pid cc'
first_half-output buf pkt n start_section pid cc' = begin-output buf pkt n start_section pid cc'

SameOutput-trans : (a b c : TsPacket) → SameOutput a b → SameOutput b c → SameOutput a c
SameOutput-trans a b c h k = (k.0 ∙ h.0, k.1 ∙ h.1)

second_half-output :
    (again : List ℕ → TsPacket → ℕ → TsPacket) (buf : List ℕ)
    → ((b : List ℕ) (p : TsPacket) (left : ℕ) → SameOutput p (again b p left))
    → (r : Progress) → SameOutput (state_of r) (second_half again buf r)
unfolding second_half
second_half-output again buf h (returned p) = (refl, refl)
second_half-output again buf h (going p left k) =
    ground (arith, complete-output p, h (drop k buf) (complete_section p) left)

add_fuel-output :
    (fuel : ℕ) (buf : List ℕ) (pkt : TsPacket) (n : ℕ) (flag : StartFlag) (pid cc : ℕ)
    → SameOutput pkt (add_fuel fuel buf pkt n flag pid cc)
unfolding add_fuel
add_fuel-output zero buf pkt n flag pid cc' = (refl, refl)
add_fuel-output (suc fuel) buf pkt n flag pid cc' =
    let r = first_half buf pkt n flag pid cc' in
    let again =
      λ (b : List ℕ) (p : TsPacket) (left : ℕ). add_fuel fuel b p left start_section pid cc' in
    SameOutput-trans pkt (state_of r) (second_half again buf r)
      (first_half-output buf pkt n flag pid cc')
      (second_half-output again buf
        (λ b p left. add_fuel-output fuel b p left start_section pid cc') r)

add-output :
    (buf : List ℕ) (pkt : TsPacket) (n : ℕ) (flag : StartFlag) (pid cc : ℕ)
    → SameOutput pkt (add_ts_packet_data buf pkt n flag pid cc)
unfolding add_ts_packet_data
add-output buf pkt n flag pid cc' = add_fuel-output (suc n) buf pkt n flag pid cc'

pub take_payload-output :
    (buf : List ℕ) (pkt : TsPacket) (avail : Bool) (at : Option ℕ)
    → SameOutput pkt (take_payload buf pkt avail at).0
unfolding take_payload take_start take_continuing
take_payload-output buf pkt avail none = (refl, refl)
take_payload-output buf pkt avail (some offset) =
    let pointer = byte_at buf offset in
    let begin = offset + 1 + pointer in
    let p =
      add_ts_packet_data (drop (offset + 1) buf) pkt pointer no_start (ts_pid buf)
        (continuity_counter buf) in
    ground (
      arith,
      add-output (drop begin buf) pkt (ts_packet_size - begin) start_ts (ts_pid buf)
          (continuity_counter buf),
      add-output (drop (offset + 1) buf) pkt pointer no_start (ts_pid buf) (continuity_counter buf),
      add-output (drop begin buf) p (ts_packet_size - begin) start_ts (ts_pid buf)
          (continuity_counter buf),
      add-output (drop offset buf) pkt (ts_packet_size - offset) no_start (ts_pid buf)
          (continuity_counter buf),
    )
