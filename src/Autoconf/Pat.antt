-- ===== src/Autoconf/Pat.antt =====
-- src/autoconf_pat.c, and the loop of src/autoconf.c that calls it: the channels are taken from the PAT.
use mu_mu_dvb.Autoconf.Channel.{almost_ready, is_detected, is_user, is_ready, is_ready_existing}
use mu_mu_dvb.Autoconf.Channel.{pid_pmt, mumu_init_chan, alloc_packet, AutoChannel, ChanStatus}
use mu_mu_dvb.Autoconf.Channel.{ready, ready_existing, removed, not_ready, undef, detected}
use mu_mu_dvb.Prelude.{length, is_some, leb, ◌&&◌, map, set, not, ltb, ◌++◌, all_below, ◌||◌, ◌+◌}
use mu_mu_dvb.Prelude.{if◌then◌else◌, ◌==◌, ℕ, zero, suc, List, [], ◌∷◌, none, some, true, false}
use mu_mu_dvb.Prelude.{Bool, Option}
use mu_mu_dvb.Rewrite.Table.{current_next_indicator, version_number, same_version, word13, word16}
use mu_mu_dvb.Crc.Calc.{byte_at}
use mu_mu_dvb.Ts.Header.{section_length}
use mu_mu_dvb.Ts.Packet.{TsPacket}
use mu_mu_dvb.Ts.Get.{get_ts_packet}
use mu_mu_dvb.Ts.Begin.{get_ts_begin}
pub mod Places
pub mod Updated
pub mod Complete
pub mod Statuses
pub mod Whole
pub mod Services
pub mod Numbers

-- The fields of `auto_p_t` for the PAT, where `none` is -1; `channels` has the first
-- `number_of_channels` entries of `mumu_chan_p_t`, and `out_of_memory` is that the program was
-- interrupted with `ERROR_MEMORY`.
pub record AutoPat : Type 0 where
  pub pat_version : Option ℕ
  pub pat_sections_seen : ℕ → Bool
  pub pat_all_sections_seen : Bool
  pub pat_need_update : Bool
  pub sdt_version : Option ℕ
  pub transport_stream_id : Option ℕ
  pub autoconf_temp_pat : TsPacket
  pub channels : List AutoChannel
  pub out_of_memory : Bool

unfoldable pub note_begin : Option ℕ → List ℕ → AutoPat → AutoPat
note_begin none buf auto_p = auto_p
note_begin (some pat) buf auto_p =
    if not (same_version (some (version_number buf pat)) auto_p.pat_version)
    then (if current_next_indicator buf pat == 0
        then auto_p
        else record auto_p { pat_need_update = true })
    else if auto_p.pat_all_sections_seen && auto_p.pat_need_update
    then record auto_p { pat_need_update = false }
    else auto_p

unfoldable pub autoconf_pat_need_update : AutoPat → List ℕ → AutoPat
unfolding note_begin
autoconf_pat_need_update auto_p buf = note_begin (get_ts_begin buf) buf auto_p

-- The last place, from `i` on, where a test holds.
unfoldable pub last_place {ℓ} : {A : Type ℓ} → (A → Bool) → ℕ → Option ℕ → List A → Option ℕ
last_place own i place [] = place
last_place own i place (x ∷ xs) = last_place own (i + 1) (if own x then some i else place) xs

-- What `memset` makes of the channels when the program starts, with the service that was found.
abbrev pub new_channel : ℕ → AutoChannel
new_channel program_number = record {
  service_id = program_number;
  service_id_f = detected;
  channel_ready = almost_ready;
  pmt_pid = 0;
  pmt_pid_f = undef;
  pids = [];
  pmt_packet = none;
  pmt_version = some 0;
  num_packet = 0;
  has_traffic = false;
  num_scrambled_packets = 0;
  scrambled_channel = 0;
  generated_pat_version = some 0;
  generated_sdt_version = some 0;
}

-- A channel that is in the PAT stays, or comes back.
unfoldable pub keep_up : ChanStatus → Bool → AutoChannel → AutoChannel × Bool
keep_up ready_existing memory chan = (record chan { channel_ready = ready }, false)
keep_up removed memory chan = mumu_init_chan memory (record chan { channel_ready = not_ready })
keep_up _ memory chan = (chan, false)

unfoldable pub put_pid : Option ℕ → List (ℕ × ℕ) → ℕ × ℕ → List (ℕ × ℕ)
put_pid none pids entry = pids ++ (entry ∷ [])
put_pid (some i) pids entry = set pids i entry

-- The PID of the PMT, unless it comes from the user, and the version of the PMT.
unfoldable pub set_pmt_pid : Bool → ℕ → AutoChannel → AutoChannel × Bool
unfolding put_pid last_place alloc_packet
set_pmt_pid memory network_pid chan =
    let place = last_place (λ (p : ℕ × ℕ). p.0 == network_pid) 0 none chan.pids in
    let packet = alloc_packet memory chan.pmt_packet in
    let changed : AutoChannel = record chan {
      pmt_pid = network_pid;
      pids = put_pid place chan.pids (network_pid, pid_pmt);
      pmt_packet = packet;
    } in
    if is_user chan.pmt_pid_f
    then (record chan { pmt_version = none }, false)
    else if is_some packet
    then (record changed { pmt_version = none }, false)
    else (changed, true)

-- `memory` is what the two calls of `malloc` answer.
unfoldable pub update_found : Bool × Bool → ℕ → AutoChannel → AutoChannel × Bool
unfolding keep_up set_pmt_pid
update_found memory network_pid chan =
    let (kept, failed) = keep_up chan.channel_ready memory.0 chan in
    let (changed, failed') = set_pmt_pid memory.1 network_pid kept in (changed, failed || failed')

abbrev pub nth_channel : ℕ → List AutoChannel → AutoChannel
nth_channel i [] = new_channel 0
nth_channel zero (c ∷ cs) = c
nth_channel (suc i) (c ∷ cs) = nth_channel i cs

-- The channel at the place that was found, or a new one if there is room; `MAX_CHANNELS` is 128.
unfoldable pub update_place :
    Option ℕ → Bool × Bool → ℕ → ℕ → List AutoChannel → List AutoChannel × Bool
unfolding update_found mumu_init_chan
update_place (some i) memory program_number network_pid channels =
    let (chan, failed) = update_found memory network_pid (nth_channel i channels) in
    (set channels i chan, failed)
update_place none memory program_number network_pid channels =
    let (begun, failed) = mumu_init_chan memory.0 (new_channel program_number) in
    let (chan, failed') =
      update_found memory network_pid (record begun { channel_ready = not_ready }) in
    if leb 127 (length channels)
    then (channels, false)
    else (channels ++ (chan ∷ []), failed || failed')

-- The channels, and whether there was no memory. The result of the source is only logged.
unfoldable pub autoconf_pat_update_chan :
    Bool × Bool → ℕ → ℕ → List AutoChannel → List AutoChannel × Bool
unfolding update_place last_place
autoconf_pat_update_chan memory program_number network_pid channels =
    update_place (last_place (λ (c : AutoChannel). c.service_id == program_number) 0 none channels)
      memory program_number network_pid channels

-- A channel that was found and streams is marked when a new PAT comes.
unfoldable pub mark_existing : AutoChannel → AutoChannel
mark_existing chan =
    if is_ready chan.channel_ready && is_detected chan.service_id_f
    then record chan { channel_ready = ready_existing }
    else chan

-- Nothing of a new version was seen.
unfoldable pub note_version : List ℕ → AutoPat → AutoPat
unfolding mark_existing
note_version pat auto_p =
    if same_version (some (version_number pat 0)) auto_p.pat_version
    then auto_p
    else record auto_p {
      pat_all_sections_seen = false;
      sdt_version = none;
      pat_sections_seen = λ i. false;
      pat_version = some (version_number pat 0);
      channels = map mark_existing auto_p.channels;
    }

unfoldable pub visit_pat_program : Bool × Bool → List ℕ → ℕ → AutoPat → AutoPat
unfolding autoconf_pat_update_chan
visit_pat_program memory buf delta auto_p =
    let (channels, failed) =
      autoconf_pat_update_chan memory (word16 buf delta) (word13 buf (delta + 2)) auto_p.channels in
    if not (word16 buf delta == 0)
    then record auto_p { channels = channels; out_of_memory = auto_p.out_of_memory || failed }
    else auto_p

-- `while((delta+PAT_PROG_LEN)<(section_length))`
unfoldable pub read_programs : ℕ → (ℕ → Bool × Bool) → List ℕ → ℕ → ℕ → AutoPat → AutoPat
unfolding visit_pat_program
read_programs zero memory buf section_length delta auto_p = auto_p
read_programs (suc fuel) memory buf section_length delta auto_p =
    let rest =
      read_programs fuel memory buf section_length (delta + 4)
        (visit_pat_program (memory fuel) buf delta auto_p) in
    if ltb (delta + 4) section_length then rest else auto_p

-- Behind the last section a channel that is still marked is removed.
unfoldable pub clean_up : AutoChannel → AutoChannel
clean_up chan =
    if is_ready_existing chan.channel_ready
    then record chan { channel_ready = removed }
    else record chan { pmt_version = none }

unfoldable pub finish_pat : List ℕ → AutoPat → AutoPat
unfolding clean_up all_below
finish_pat pat auto_p =
    if all_below (byte_at pat 7 + 1) auto_p.pat_sections_seen
    then record auto_p {
      pat_all_sections_seen = true;
      pat_need_update = false;
      channels = map clean_up auto_p.channels;
      sdt_version = none;
    }
    else auto_p

-- The section is stored as seen.
unfoldable pub note_section : List ℕ → AutoPat → AutoPat
unfolding note_version
note_section pat auto_p =
    let noted = note_version pat auto_p in
    record noted {
      pat_sections_seen = λ i. if i == byte_at pat 6 then true else noted.pat_sections_seen i;
    }

-- The result of the source is always 0.
unfoldable pub autoconf_read_pat : (ℕ → Bool × Bool) → AutoPat → AutoPat
unfolding note_section read_programs finish_pat
autoconf_read_pat memory auto_p =
    let pat = auto_p.autoconf_temp_pat.data_full in
    let length_field = section_length pat in
    let noted = note_section pat auto_p in
    let stored : AutoPat = record noted { transport_stream_id = some (word16 pat 3) } in
    if same_version (some (version_number pat 0)) auto_p.pat_version
      && auto_p.pat_sections_seen (byte_at pat 6)
    then auto_p
    else if current_next_indicator pat 0 == 0
    then noted
    else finish_pat pat (read_programs length_field memory pat length_field 8 stored)

-- `while(auto_p->pat_need_update && get_ts_packet(ts_packet,auto_p->autoconf_temp_pat))`
unfoldable pub download_auto_pat : ℕ → (ℕ → ℕ → Bool × Bool) → Option (List ℕ) → AutoPat → AutoPat
unfolding autoconf_read_pat
download_auto_pat zero memory ts_packet auto_p = auto_p
download_auto_pat (suc fuel) memory ts_packet auto_p =
    let (full, avail) = get_ts_packet ts_packet auto_p.autoconf_temp_pat in
    let got : AutoPat = record auto_p { autoconf_temp_pat = full } in
    let rest = download_auto_pat fuel memory none (autoconf_read_pat (memory fuel) got) in
    if not auto_p.pat_need_update then auto_p else if avail then rest else got

-- What `autoconf_new_packet` does with a packet of PID 0 in full autoconfiguration.
unfoldable pub autoconf_pat_packet : (ℕ → ℕ → Bool × Bool) → List ℕ → AutoPat → AutoPat
unfolding autoconf_pat_need_update download_auto_pat
autoconf_pat_packet memory ts_packet auto_p =
    download_auto_pat 17 memory (some ts_packet) (autoconf_pat_need_update auto_p ts_packet)
