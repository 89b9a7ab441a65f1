-- ===== src/Rewrite/Sdt/Packets.antt =====
-- What is done with a packet of the SDT: for all channels, and for one (src/rewrite_sdt.c).
use mu_mu_dvb.Prelude.{◌%◌, ◌+◌, ◌&&◌, ◌==◌, not, ◌||◌, if◌then◌else◌, ℕ, zero, suc, List, none}
use mu_mu_dvb.Prelude.{some, true, false, Option, Bool, replicate, set}
use mu_mu_dvb.Rewrite.Sdt.{SdtChannel, byte_at, SdtRewrite, sdt_channel_rewrite, sdt_need_update}
use mu_mu_dvb.Rewrite.Sdt.{update_sdt_version}
use mu_mu_dvb.Rewrite.Table.{current_next_indicator, same_version, set_continuity_counter}
use mu_mu_dvb.Ts.Get.{get_ts_packet}

-- An SDT that was received whole and is applicable is noted.
unfoldable pub note_sdt : SdtRewrite → SdtRewrite
unfolding update_sdt_version
note_sdt rewrite_vars =
    let sdt = rewrite_vars.full_sdt.data_full in
    let seen : SdtRewrite = record rewrite_vars {
      sdt_last_section_number = byte_at sdt 7;
      sdt_section_numbers_seen = set rewrite_vars.sdt_section_numbers_seen (byte_at sdt 6) 1;
    } in
    record (update_sdt_version seen) { sdt_needs_update = false; full_sdt_ok = true }

-- `while(get_ts_packet(ts_packet,rewrite_vars->full_sdt))`; the flag says that the function returns
-- from the loop.
unfoldable pub download_sdt : ℕ → Option (List ℕ) → SdtRewrite → SdtRewrite × Bool
unfolding note_sdt
download_sdt zero ts_packet rewrite_vars = (rewrite_vars, false)
download_sdt (suc fuel) ts_packet rewrite_vars =
    let (full, avail) = get_ts_packet ts_packet rewrite_vars.full_sdt in
    let got : SdtRewrite = record rewrite_vars { full_sdt = full } in
    let rest = download_sdt fuel none got in
    if not avail
    then (got, false)
    else if current_next_indicator full.data_full 0 == 0
    then rest
    else if not (byte_at full.data_full 0 == 0x42)
    then (record got { sdt_needs_update = true }, false)
    else if not got.sdt_need_others
    then (note_sdt got, true)
    else (record (note_sdt got) { sdt_need_others = false }, false)

-- Fifteen sections wait at most, and one may come with the packet.
unfoldable pub sdt_rewrite_new_global_packet : List ℕ → SdtRewrite → SdtRewrite × Bool
unfolding download_sdt sdt_need_update
sdt_rewrite_new_global_packet ts_packet rewrite_vars =
    let needs = rewrite_vars.sdt_needs_update || sdt_need_update rewrite_vars ts_packet in
    let cleared =
      if not rewrite_vars.sdt_needs_update && needs
      then replicate 256 0
      else rewrite_vars.sdt_section_numbers_seen in
    let asked : SdtRewrite = record rewrite_vars {
      sdt_needs_update = needs;
      sdt_section_numbers_seen = cleared;
    } in
    let (got, returned) =
      if needs || rewrite_vars.sdt_need_others
      then download_sdt 17 (some ts_packet) asked
      else (asked, false) in
    if returned
    then (got, true)
    else (record got { sdt_continuity_counter = (got.sdt_continuity_counter + 1) % 16 }, false)

-- The packet to be sent, if it has the version of the full SDT.
unfoldable pub sdt_to_send : SdtRewrite → SdtChannel → Option (List ℕ)
sdt_to_send rewrite_vars channel =
    if same_version channel.generated_sdt_version rewrite_vars.sdt_version
    then some (set_continuity_counter channel.generated_sdt rewrite_vars.sdt_continuity_counter)
    else none

-- The packet of a channel that was rewritten, where that worked.
unfoldable pub send_rewritten :
    Option (SdtRewrite × (SdtChannel × Bool)) → Option (SdtRewrite × (SdtChannel × Option (List ℕ)))
unfolding sdt_to_send
send_rewritten none = none
send_rewritten (some (rewrite_vars, (channel, true))) =
    some (rewrite_vars, (channel, sdt_to_send rewrite_vars channel))
send_rewritten (some (rewrite_vars, (channel, false))) = some (rewrite_vars, (channel, none))

-- The new state, the channel, and the packet to be sent, where one is; `none` is a loop without end.
unfoldable pub sdt_rewrite_new_channel_packet :
    List ℕ → SdtRewrite → SdtChannel → Option (SdtRewrite × (SdtChannel × Option (List ℕ)))
unfolding sdt_channel_rewrite send_rewritten
sdt_rewrite_new_channel_packet ts_packet rewrite_vars channel =
    let stale =
      not rewrite_vars.sdt_needs_update
      && (channel.ready
          && not (same_version channel.generated_sdt_version rewrite_vars.sdt_version)) in
    if not rewrite_vars.full_sdt_ok
    then some (rewrite_vars, (channel, none))
    else if stale
    then send_rewritten (sdt_channel_rewrite rewrite_vars channel ts_packet)
    else send_rewritten (some (rewrite_vars, (channel, true)))
