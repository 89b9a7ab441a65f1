-- ===== src/Examples/AutoconfRuns.antt =====
-- Autoconfiguration at small inputs.
use mu_mu_dvb.Autoconf.Pat.Complete.{is_complete}
use mu_mu_dvb.Autoconf.Pat.Statuses.{read_pat-status, is_listed, status_after, Has}
use mu_mu_dvb.Autoconf.Pat.Numbers.{pat_packet-IsExtension}
use mu_mu_dvb.Prelude.{replicate, ◌++◌, ◌≡◌, map, set, ℕ, List, [], ◌∷◌, none, true, false, Bool}
use mu_mu_dvb.Prelude.{refl, arith, all_below}
use mu_mu_dvb.Crc.Calc.{byte_at}
use mu_mu_dvb.Examples.Section.{pat_packet, pat_section}
use mu_mu_dvb.Autoconf.Pat.Whole.{read_pat_blocked}
use mu_mu_dvb.Autoconf.Pat.{autoconf_pat_packet, new_channel, AutoPat, note_version, note_section}
use mu_mu_dvb.Autoconf.Pat.{finish_pat, autoconf_read_pat, mark_existing, clean_up}
use mu_mu_dvb.Autoconf.Pat.{visit_pat_program, read_programs, autoconf_pat_update_chan}
use mu_mu_dvb.Autoconf.Pat.{update_place, last_place, update_found, keep_up, set_pmt_pid, put_pid}
use mu_mu_dvb.Autoconf.Pat.Services.{services, IsExtension}
use mu_mu_dvb.Ts.Packet.{cleared_packet}
use mu_mu_dvb.Autoconf.Channel.{AutoChannel, ready, removed, detected, alloc_packet}
use mu_mu_dvb.Ts.Header.{section_length, hilo}

abbrev memory_given : ℕ → Bool × Bool
memory_given round = (true, true)

abbrev streamed : ℕ → AutoChannel
streamed sid = record (new_channel sid) { channel_ready = ready }

-- Two services stream, of which the PAT lists one.
abbrev auto_state : AutoPat
auto_state = record {
  pat_version = none;
  pat_sections_seen = λ i. false;
  pat_all_sections_seen = false;
  pat_need_update = true;
  sdt_version = none;
  transport_stream_id = none;
  autoconf_temp_pat = record cleared_packet { data_full = pat_section ++ replicate 4080 0 };
  channels = streamed 1 ∷ streamed 2 ∷ [];
  out_of_memory = false;
}

read_pat-status_example :
    let pat = auto_state.autoconf_temp_pat.data_full in
    Has
      (status_after true
        (is_listed pat 1)
        (is_complete (byte_at pat 7) pat auto_state)
        detected
        ready)
      (streamed 1)
      1
      (autoconf_read_pat memory_given auto_state).channels
read_pat-status_example = read_pat-status memory_given auto_state 1 (streamed 1) refl refl refl

-- The statuses, computed by the code.
statuses :
    map (λ (c : AutoChannel). c.channel_ready) (autoconf_read_pat memory_given auto_state).channels
    ≡ ready ∷ removed ∷ []
unfolding autoconf_read_pat note_section note_version read_programs visit_pat_program finish_pat
    clean_up mark_existing autoconf_pat_update_chan update_place last_place update_found keep_up
    set_pmt_pid put_pid alloc_packet all_below section_length hilo
statuses = refl

-- The PAT that comes next: the same, with `current_next_indicator` 0.
abbrev next_pat : List ℕ
next_pat = set pat_section 5 0xc0

abbrev early_state : AutoPat
early_state = record auto_state {
  autoconf_temp_pat = record cleared_packet { data_full = next_pat ++ replicate 4080 0 };
}

read_pat_blocked_example :
    let p' = autoconf_read_pat memory_given early_state in
    let next : AutoPat = record p' { autoconf_temp_pat = auto_state.autoconf_temp_pat } in
    (p'.channels ≡ map mark_existing early_state.channels)
    × (p'.pat_all_sections_seen ≡ false)
    × (autoconf_read_pat memory_given next ≡ next)
read_pat_blocked_example =
    read_pat_blocked memory_given early_state refl refl memory_given auto_state.autoconf_temp_pat
      refl refl

pat_packet-IsExtension_example :
    IsExtension
      (services auto_state.channels)
      (services (autoconf_pat_packet (λ call. memory_given) pat_packet auto_state).channels)
pat_packet-IsExtension_example =
    pat_packet-IsExtension (λ call. memory_given) pat_packet auto_state ((refl, tt), (tt, tt))
      (omega arith)
