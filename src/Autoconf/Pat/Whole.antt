-- ===== src/Autoconf/Pat/Whole.antt =====
-- A PAT of one section in `autoconf_read_pat` (src/autoconf_pat.c), and one that is not applicable yet.
use mu_mu_dvb.Autoconf.Pat.Complete.{is_complete}
use mu_mu_dvb.Autoconf.Pat.Statuses.{read_pat-status, read_programs-seen, status_after, is_listed}
use mu_mu_dvb.Autoconf.Pat.Statuses.{is_seen, Has}
use mu_mu_dvb.Prelude.{all_below, ap₂, subst, ◌∙◌, ◌+◌, ap, if◌then◌else◌, ◌==◌, ◌≡◌, ℕ, some}
use mu_mu_dvb.Prelude.{true, false, Bool, refl, arith}
use mu_mu_dvb.Autoconf.Pat.{not, section_length, word16, mark_existing, map, byte_at, TsPacket}
use mu_mu_dvb.Autoconf.Pat.{current_next_indicator, version_number, same_version, AutoPat}
use mu_mu_dvb.Autoconf.Pat.{note_version, note_section, finish_pat, autoconf_read_pat}
use mu_mu_dvb.Autoconf.Pat.Places.{channel_of}
use mu_mu_dvb.Autoconf.Channel.{AutoChannel, ChanStatus, ready, removed, detected}

module _ (memory : ℕ → Bool × Bool) (p : AutoPat)
    (fresh : same_version (some (version_number p.autoconf_temp_pat.data_full 0)) p.pat_version
      ≡ false) where
  module _ (applicable : (current_next_indicator p.autoconf_temp_pat.data_full 0 == 0) ≡ false)
      (only : byte_at p.autoconf_temp_pat.data_full 6 ≡ 0)
      (last : byte_at p.autoconf_temp_pat.data_full 7 ≡ 0) where
    complete_lem :
        all_below
          (byte_at p.autoconf_temp_pat.data_full 7 + 1)
          (note_section p.autoconf_temp_pat.data_full p).pat_sections_seen
        ≡ true
    unfolding note_section all_below
    complete_lem = rw (last, only) refl

    read_lem :
        is_complete (byte_at p.autoconf_temp_pat.data_full 7) p.autoconf_temp_pat.data_full p ≡ true
    read_lem = rw (last, only) refl

    -- When an applicable PAT of one section comes in a new version, all sections were seen and no
    -- update is needed any more; and a service that was detected and `READY` still has a channel,
    -- which is `READY` if the PAT lists the service and `REMOVED` if it does not.
    pub whole_pat_lem :
        (sid : ℕ) (c : AutoChannel)
        → channel_of sid p.channels ≡ some c
        → c.service_id_f ≡ detected
        → c.channel_ready ≡ ready
        → let p' = autoconf_read_pat memory p in
          let pat = p.autoconf_temp_pat.data_full in
          (p'.pat_all_sections_seen ≡ true)
          × (p'.pat_need_update ≡ false)
          × Has (if is_listed pat sid then ready else removed) c sid p'.channels
    unfolding autoconf_read_pat finish_pat
    whole_pat_lem sid c found origin status =
        let pat = p.autoconf_temp_pat.data_full in
        let unseen : is_seen pat p ≡ false = rw fresh refl in
        let noted = note_section pat p in
        let stored : AutoPat = record noted { transport_stream_id = some (word16 pat 3) } in
        let len = section_length pat in
        let all =
          ap (all_below (byte_at pat 7 + 1)) (read_programs-seen len memory pat len 8 stored)
          ∙ complete_lem in
        (
          rw (unseen, applicable, all) refl,
          rw (unseen, applicable, all) refl,
          subst (λ (s : ChanStatus). Has s c sid (autoconf_read_pat memory p).channels)
              (ap₂
                  (λ (b b' : Bool).
                    status_after (not b) (is_listed pat sid) b' c.service_id_f c.channel_ready)
                  fresh read_lem
                ∙ ap₂ (status_after true (is_listed pat sid) true) origin status
                ∙ listed_lem (is_listed pat sid))
              (read_pat-status memory p sid c found unseen applicable),
        )
      where
        listed_lem :
            (b : Bool) → status_after true b true detected ready ≡ (if b then ready else removed)
        listed_lem true = refl
        listed_lem false = refl

  -- A section of a new version that is not applicable yet marks the channels, and a section of that
  -- version with its number, applicable or not, then changes nothing.
  pub read_pat_blocked :
      (current_next_indicator p.autoconf_temp_pat.data_full 0 == 0) ≡ true
      → (memory' : ℕ → Bool × Bool) (full : TsPacket)
      → version_number full.data_full 0 ≡ version_number p.autoconf_temp_pat.data_full 0
      → byte_at full.data_full 6 ≡ byte_at p.autoconf_temp_pat.data_full 6
      → let p' = autoconf_read_pat memory p in
        let next : AutoPat = record p' { autoconf_temp_pat = full } in
        (p'.channels ≡ map mark_existing p.channels)
        × (p'.pat_all_sections_seen ≡ false)
        × (autoconf_read_pat memory' next ≡ next)
  unfolding autoconf_read_pat note_section note_version
  read_pat_blocked early memory' full version number =
      let pat = p.autoconf_temp_pat.data_full in
      let unseen : is_seen pat p ≡ false = rw fresh refl in
      (
        rw (unseen, early, fresh) refl,
        rw (unseen, early, fresh) refl,
        rw
            (
              unseen,
              early,
              fresh,
              version,
              number,
              ==_refl (byte_at pat 6),
              ==_refl (version_number pat 0),
            )
            refl,
      )
    where
      ==_refl : (n : ℕ) → (n == n) ≡ true
      ==_refl n = ground arith
