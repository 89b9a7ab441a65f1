-- ===== src/Autoconf/Pat/Numbers.antt =====
-- The channels that the PAT gives (src/autoconf_pat.c) keep their places, and no service has two.
use mu_mu_dvb.Autoconf.Pat.Services.{services-middle, services-append, length-services}
use mu_mu_dvb.Autoconf.Pat.Services.{nowhere-IsAbsent, added, Extends-to, Extends-trans}
use mu_mu_dvb.Autoconf.Pat.Services.{extension_lem, IsExtension, services-map, same, Extends}
use mu_mu_dvb.Autoconf.Pat.Services.{services, IsDistinct}
use mu_mu_dvb.Prelude.{if◌then◌else◌, ◌∙◌, ◌&&◌, ◌+◌, sym, subst, ◌≤◌, ◌==◌, ap, Bool-cases, ◌≡◌}
use mu_mu_dvb.Prelude.{◌++◌, ℕ, zero, suc, List, [], ◌∷◌, none, some, true, false, Bool, Option}
use mu_mu_dvb.Prelude.{refl, arith, inl, inr}
use mu_mu_dvb.Autoconf.Pat.{not, current_next_indicator, leb, get_ts_begin, version_number}
use mu_mu_dvb.Autoconf.Pat.{byte_at, word13, ltb, word16, same_version, all_below, get_ts_packet}
use mu_mu_dvb.Autoconf.Pat.{length, section_length, AutoPat, mark_existing, clean_up}
use mu_mu_dvb.Autoconf.Pat.{visit_pat_program, read_programs, note_version, note_section}
use mu_mu_dvb.Autoconf.Pat.{finish_pat, autoconf_read_pat, update_place, autoconf_pat_update_chan}
use mu_mu_dvb.Autoconf.Pat.{update_found, new_channel, download_auto_pat, autoconf_pat_packet}
use mu_mu_dvb.Autoconf.Pat.{autoconf_pat_need_update, note_begin}
use mu_mu_dvb.Autoconf.Pat.Updated.{set_found, update_found-IsAs}
use mu_mu_dvb.Autoconf.Pat.Statuses.{clean_up-IsAs, mark-IsAs, is_seen}
use mu_mu_dvb.Autoconf.Pat.Places.{is_service, last_place_cases}
use mu_mu_dvb.Autoconf.Channel.{AutoChannel, mumu_init_chan, not_ready}

update_chan-Extends :
    (memory : Bool × Bool) (number network_pid : ℕ) (cs : List AutoChannel)
    → Extends (services cs) (services (autoconf_pat_update_chan memory number network_pid cs).0)
unfolding autoconf_pat_update_chan update_place mumu_init_chan
update_chan-Extends memory number network_pid cs =
    let changed = λ (c : AutoChannel). (update_found memory network_pid c).0 in
    elim (last_place_cases (is_service number) 0 none cs) [
      | inl nowhere ↦
          subst
            (λ (o : Option ℕ).
              Extends (services cs) (services (update_place o memory number network_pid cs).0))
            (sym nowhere.1)
            (elim (Bool-cases (leb 127 (length cs))) [
              | inl full ↦ rw full same
              | inr room ↦
                  let begun = (mumu_init_chan memory.0 (new_channel number)).0 in
                  let new : AutoChannel = record begun { channel_ready = not_ready } in
                  rw room (
                    Extends-to
                      (added number (nowhere-IsAbsent number cs nowhere.0)
                        (ground (arith, room, length-services cs)) same)
                      (services-append cs (changed new)
                        ∙ ap (λ (n : ℕ). services cs ++ (n ∷ []))
                            (update_found-IsAs memory network_pid new).same_service))
            ])
      | inr last ↦
          let l = last.1 in
          Extends-to same (
            ap (λ (o : Option ℕ). services (update_place o memory number network_pid cs).0)
              (last.2 ∙ ap some {x = 0 + last.0} {y = last.0} (omega arith))
            ∙ ap services (set_found cs last.0 (is_service number) l changed)
            ∙ services-middle l.before l.it (changed l.it) l.behind
                (update_found-IsAs memory network_pid l.it).same_service
            ∙ ap services (sym l.split))
    ]

visit-Extends :
    (memory : Bool × Bool) (bytes : List ℕ) (delta : ℕ) (p : AutoPat)
    → Extends (services p.channels) (services (visit_pat_program memory bytes delta p).channels)
unfolding visit_pat_program
visit-Extends memory bytes delta p = elim (Bool-cases (word16 bytes delta == 0)) [
  | inl network ↦ rw network same
  | inr program ↦
      rw program
        (update_chan-Extends memory (word16 bytes delta) (word13 bytes (delta + 2)) p.channels)
]

read_programs-Extends :
    (fuel : ℕ) (memory : ℕ → Bool × Bool) (bytes : List ℕ) (len delta : ℕ) (p : AutoPat)
    → Extends
        (services p.channels)
        (services (read_programs fuel memory bytes len delta p).channels)
unfolding read_programs
read_programs-Extends zero memory bytes len delta p = same
read_programs-Extends (suc fuel) memory bytes len delta p =
    elim (Bool-cases (ltb (delta + 4) len)) [
      | inl more ↦
          let next = visit_pat_program (memory fuel) bytes delta p in
          rw more (
            Extends-trans (visit-Extends (memory fuel) bytes delta p)
              (read_programs-Extends fuel memory bytes len (delta + 4) next))
      | inr done ↦ rw done same
    ]

note_section-services :
    (pat : List ℕ) (p : AutoPat) → services (note_section pat p).channels ≡ services p.channels
unfolding note_section note_version
note_section-services pat p =
    elim (Bool-cases (same_version (some (version_number pat 0)) p.pat_version)) [
      | inl known ↦ rw known refl
      | inr new ↦
          rw new (
            services-map mark_existing (λ (c : AutoChannel). (mark-IsAs c).same_service) p.channels)
    ]

finish_pat-services :
    (pat : List ℕ) (p : AutoPat) → services (finish_pat pat p).channels ≡ services p.channels
unfolding finish_pat
finish_pat-services pat p = elim (Bool-cases (all_below (byte_at pat 7 + 1) p.pat_sections_seen)) [
  | inl all ↦
      rw all
        (services-map clean_up (λ (c : AutoChannel). (clean_up-IsAs c).same_service) p.channels)
  | inr missing ↦ rw missing refl
]

read_pat-Extends :
    (memory : ℕ → Bool × Bool) (p : AutoPat)
    → Extends (services p.channels) (services (autoconf_read_pat memory p).channels)
unfolding autoconf_read_pat
read_pat-Extends memory p =
    let pat = p.autoconf_temp_pat.data_full in
    let len = section_length pat in
    let noted = note_section pat p in
    let stored : AutoPat = record noted { transport_stream_id = some (word16 pat 3) } in
    elim (Bool-cases (is_seen pat p)) [
      | inl seen ↦ rw seen same
      | inr unseen ↦ elim (Bool-cases (current_next_indicator pat 0 == 0)) [
        | inl early ↦ rw (unseen, early) (Extends-to same (note_section-services pat p))
        | inr applicable ↦
            rw (unseen, applicable)
              (Extends-to
                (subst
                  (λ (ids : List ℕ).
                    Extends ids (services (read_programs len memory pat len 8 stored).channels))
                  (note_section-services pat p) (read_programs-Extends len memory pat len 8 stored))
                (finish_pat-services pat (read_programs len memory pat len 8 stored)))
      ]
    ]

either-Extends :
    {ids : List ℕ} (x y : AutoPat) (b : Bool)
    → Extends ids (services x.channels)
    → Extends ids (services y.channels)
    → Extends ids (services (if b then x else y).channels)
either-Extends x y true hx hy = hx
either-Extends x y false hx hy = hy

download-Extends :
    (fuel : ℕ) (memory : ℕ → ℕ → Bool × Bool) (ts_packet : Option (List ℕ)) (p : AutoPat)
    → Extends (services p.channels) (services (download_auto_pat fuel memory ts_packet p).channels)
unfolding download_auto_pat
download-Extends zero memory ts_packet p = same
download-Extends (suc fuel) memory ts_packet p =
    let (full, avail) = get_ts_packet ts_packet p.autoconf_temp_pat in
    let got : AutoPat = record p { autoconf_temp_pat = full } in
    let rest = download_auto_pat fuel memory none (autoconf_read_pat (memory fuel) got) in
    either-Extends p (if avail then rest else got) (not p.pat_need_update) same (
      either-Extends rest got avail
        (Extends-trans (read_pat-Extends (memory fuel) got)
          (download-Extends fuel memory none (autoconf_read_pat (memory fuel) got)))
        same)

need_update-channels :
    (o : Option ℕ) (buf : List ℕ) (p : AutoPat) → (note_begin o buf p).channels ≡ p.channels
unfolding note_begin
need_update-channels none buf p = refl
need_update-channels (some pat) buf p =
    elim (Bool-cases (same_version (some (version_number buf pat)) p.pat_version)) [
      | inl known ↦ elim (Bool-cases (p.pat_all_sections_seen && p.pat_need_update)) [
        | inl wrong ↦ rw (known, wrong) refl
        | inr right ↦ rw (known, right) refl
      ]
      | inr new ↦ elim (Bool-cases (current_next_indicator buf pat == 0)) [
        | inl early ↦ rw (new, early) refl
        | inr applicable ↦ rw (new, applicable) refl
      ]
    ]

-- Whatever packet of the PAT comes in, and whatever `malloc` answers, the channels that are there keep
-- their places and services, new ones come behind them, no two of them have the same service if none had
-- before, and there are 127 at most if there were.
pub pat_packet-IsExtension :
    (memory : ℕ → ℕ → Bool × Bool) (ts_packet : List ℕ) (p : AutoPat)
    → IsDistinct (services p.channels)
    → length (services p.channels) ≤ 127
    → IsExtension (services p.channels) (services (autoconf_pat_packet memory ts_packet p).channels)
unfolding autoconf_pat_packet autoconf_pat_need_update
pat_packet-IsExtension memory ts_packet p distinct bounded =
    extension_lem
      (subst
        (λ (cs : List AutoChannel).
          Extends (services cs) (services (autoconf_pat_packet memory ts_packet p).channels))
        (need_update-channels (get_ts_begin ts_packet) ts_packet p)
        (download-Extends 17 memory (some ts_packet) (autoconf_pat_need_update p ts_packet)))
      distinct bounded
