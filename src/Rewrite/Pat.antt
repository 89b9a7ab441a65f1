-- ===== src/Rewrite/Pat.antt =====
-- src/rewrite_pat.c: the PAT of a channel, with the programmes that the channel streams.
use mu_mu_dvb.Prelude.{drop, ◌++◌, length, ◌&&◌, ltb, not, take, ◌%◌, ◌||◌, ◌+◌, ◌==◌, Bool}
use mu_mu_dvb.Prelude.{Option, if◌then◌else◌, ℕ, zero, suc, List, [], ◌∷◌, none, some, true}
use mu_mu_dvb.Prelude.{false}
use mu_mu_dvb.Rewrite.Table.{word13, set_continuity_counter, same_version, set_applicable}
use mu_mu_dvb.Rewrite.Table.{current_next_indicator, word16, version_number, set_start}
use mu_mu_dvb.Rewrite.Finish.{finish, ts_header_len}
use mu_mu_dvb.Ts.Packet.{ts_packet_size, TsPacket}
use mu_mu_dvb.Ts.Get.{get_ts_packet}
use mu_mu_dvb.Ts.Begin.{get_ts_begin}
use mu_mu_dvb.Ts.Header.{section_length}
pub mod Programs
pub mod Kept
pub mod Generated
pub mod State
pub mod Made
pub mod Sent
pub mod Next

-- The fields of `rewrite_parameters_t` for the PAT; `none` is the version -1.
pub record PatRewrite : Type 0 where
  pub pat_version : Option ℕ
  pub pat_needs_update : Bool
  pub full_pat_ok : Bool
  pub full_pat : TsPacket
  pub pat_continuity_counter : ℕ

-- The fields of `mumudvb_channel_t` for it; `ready` is `channel_ready>=READY`.
pub record PatChannel : Type 0 where
  pub service_id : ℕ
  pub pids : List ℕ
  pub ready : Bool
  pub generated_pat : List ℕ
  pub generated_pat_version : Option ℕ

unfoldable pub pat_need_update : PatRewrite → List ℕ → Bool
pat_need_update rewrite_vars buf = elim (get_ts_begin buf) [
  | none ↦ false
  | some pat ↦
      if current_next_indicator buf pat == 0
      then false
      else not (same_version (some (version_number buf pat)) rewrite_vars.pat_version)
]

unfoldable pub update_pat_version : PatRewrite → PatRewrite
update_pat_version rewrite_vars = record rewrite_vars {
  pat_version = some (version_number rewrite_vars.full_pat.data_full 0);
}

-- The loop over the PIDs of the channel: the four bytes of a programme are copied for each PID that
-- is that of its PMT.
unfoldable pub copy_program : List ℕ → ℕ → List ℕ → List ℕ → List ℕ
copy_program [] network_pid prog buf_dest = buf_dest
copy_program (pid ∷ pids) network_pid prog buf_dest =
    let found = pid == network_pid in
    let too_big = ltb ts_packet_size (length buf_dest + 4 + 4 + 1) in
    let rest = copy_program pids network_pid prog (if found then buf_dest ++ prog else buf_dest) in
    if found && too_big then buf_dest else rest

-- The programme at `delta`.
unfoldable pub visit_program : PatChannel → List ℕ → ℕ → List ℕ → List ℕ
unfolding copy_program
visit_program channel data_full delta buf_dest =
    let program_number = word16 data_full delta in
    if not (program_number == 0)
      && (ltb (length buf_dest + 4 + 4) ts_packet_size
          && (channel.service_id == 0 || channel.service_id == program_number))
    then copy_program channel.pids (word13 data_full (delta + 2)) (take 4 (drop delta data_full))
        buf_dest
    else buf_dest

-- `while((delta+PAT_PROG_LEN)<(section_length))`
unfoldable pub copy_programs : ℕ → PatChannel → List ℕ → ℕ → ℕ → List ℕ → List ℕ
unfolding visit_program
copy_programs zero channel data_full section_length delta buf_dest = buf_dest
copy_programs (suc fuel) channel data_full section_length delta buf_dest =
    let rest =
      copy_programs fuel channel data_full section_length (delta + 4)
        (visit_program channel data_full delta buf_dest) in
    if ltb (delta + 4) section_length then rest else buf_dest

-- The bytes that are written before the section is closed. A section has at most 4095 bytes and a
-- programme has four, so the fuel is the section length.
unfoldable pub pat_buf_dest : PatChannel → List ℕ → List ℕ → List ℕ
unfolding copy_programs
pat_buf_dest channel buf data_full =
    let length_field = section_length data_full in
    copy_programs length_field channel data_full length_field 8
      (take ts_header_len buf ++ take 8 data_full)

-- The new state, the channel with its new packet, and the buffer, whose header was changed.
unfoldable pub pat_channel_rewrite :
    PatRewrite → PatChannel → List ℕ → PatRewrite × (PatChannel × List ℕ)
unfolding pat_buf_dest
pat_channel_rewrite rewrite_vars channel buf =
    let started = set_start buf in
    let full = rewrite_vars.full_pat in
    let applicable = set_applicable full.data_full 0 in
    (
      record rewrite_vars { full_pat = record full { data_full = applicable } },
      (
        record channel { generated_pat = finish (pat_buf_dest channel started applicable) },
        started,
      ),
    )

-- A PAT that was received whole is taken, unless it is not applicable yet.
unfoldable pub take_pat : PatRewrite → PatRewrite
unfolding update_pat_version
take_pat rewrite_vars =
    if current_next_indicator rewrite_vars.full_pat.data_full 0 == 0
    then rewrite_vars
    else record (update_pat_version rewrite_vars) { pat_needs_update = false; full_pat_ok = true }

-- `while(get_ts_packet(ts_packet,rewrite_vars->full_pat))`
unfoldable pub download_pat : ℕ → Option (List ℕ) → PatRewrite → PatRewrite
unfolding take_pat
download_pat zero ts_packet rewrite_vars = rewrite_vars
download_pat (suc fuel) ts_packet rewrite_vars =
    let (full, avail) = get_ts_packet ts_packet rewrite_vars.full_pat in
    let got = record rewrite_vars { full_pat = full } in
    let rest = download_pat fuel none (take_pat got) in if avail then rest else got

-- Fifteen sections wait at most, and one may come with the packet.
unfoldable pub pat_rewrite_new_global_packet : List ℕ → PatRewrite → PatRewrite
unfolding download_pat pat_need_update
pat_rewrite_new_global_packet ts_packet rewrite_vars =
    let needs = rewrite_vars.pat_needs_update || pat_need_update rewrite_vars ts_packet in
    let asked = record rewrite_vars { pat_needs_update = needs } in
    let got = if needs then download_pat 17 (some ts_packet) asked else asked in
    record got { pat_continuity_counter = (got.pat_continuity_counter + 1) % 16 }

-- The channel gets a new packet, unless it has one of the version of the full PAT.
unfoldable pub renew_channel : List ℕ → PatRewrite → PatChannel → PatRewrite × PatChannel
unfolding pat_channel_rewrite
renew_channel ts_packet rewrite_vars channel =
    let stale =
      not rewrite_vars.pat_needs_update
      && (channel.ready
          && not (same_version channel.generated_pat_version rewrite_vars.pat_version)) in
    let (vars', (rewritten, _)) = pat_channel_rewrite rewrite_vars channel ts_packet in
    if stale
    then (vars', record rewritten { generated_pat_version = rewrite_vars.pat_version })
    else (rewrite_vars, channel)

-- The packet to be sent, if it has the version of the full PAT.
unfoldable pub packet_to_send : PatRewrite → PatChannel → Option (List ℕ)
packet_to_send rewrite_vars channel =
    if same_version channel.generated_pat_version rewrite_vars.pat_version
    then some (set_continuity_counter channel.generated_pat rewrite_vars.pat_continuity_counter)
    else none

-- The new state, the channel, and the packet to be sent, where one is.
unfoldable pub pat_rewrite_new_channel_packet :
    List ℕ → PatRewrite → PatChannel → PatRewrite × (PatChannel × Option (List ℕ))
unfolding renew_channel packet_to_send
pat_rewrite_new_channel_packet ts_packet rewrite_vars channel =
    let (vars', channel') = renew_channel ts_packet rewrite_vars channel in
    if rewrite_vars.full_pat_ok
    then (vars', (channel', packet_to_send vars' channel'))
    else (rewrite_vars, (channel, none))
