-- ===== src/Autoconf/Pat/Statuses.antt =====
-- What becomes of a channel when `autoconf_read_pat` (src/autoconf_pat.c) reads a section.
use mu_mu_dvb.Autoconf.Pat.Complete.{all_below_complete, is_complete}
use mu_mu_dvb.Prelude.{all_below, ap₂, sym, subst, ap, ◌∙◌, ◌≤◌, ◌+◌, ◌/◌, ◌==◌, ◌||◌, ◌&&◌}
use mu_mu_dvb.Prelude.{Bool-cases, ◌-◌, ◌≡◌, if◌then◌else◌, ℕ, zero, suc, List, some, true, false}
use mu_mu_dvb.Prelude.{Bool, refl, arith, inl, inr}
use mu_mu_dvb.Autoconf.Pat.{byte_at, version_number, same_version, current_next_indicator}
use mu_mu_dvb.Autoconf.Pat.{autoconf_pat_update_chan, update_found, word13, ltb, map, word16}
use mu_mu_dvb.Autoconf.Pat.{section_length, not, AutoPat, mark_existing, clean_up}
use mu_mu_dvb.Autoconf.Pat.{visit_pat_program, read_programs, note_version, note_section}
use mu_mu_dvb.Autoconf.Pat.{finish_pat, autoconf_read_pat}
use mu_mu_dvb.Autoconf.Pat.Places.{then_map, channel_of-map, channel_of}
use mu_mu_dvb.Autoconf.Pat.Updated.{update_chan_other, update_chan_own, update_found-IsAs, still}
use mu_mu_dvb.Autoconf.Pat.Updated.{IsAs}
use mu_mu_dvb.Autoconf.Channel.{is_detected, is_ready_existing, is_ready, AutoChannel, ChanStatus}
use mu_mu_dvb.Autoconf.Channel.{ready, ready_existing, removed, not_ready, Origin, no_streaming}
use mu_mu_dvb.Autoconf.Channel.{almost_ready}

-- Is the service one of the programmes of the section?
abbrev pub is_listed_from : ℕ → List ℕ → ℕ → ℕ → Bool
is_listed_from zero bytes delta sid = false
is_listed_from (suc k) bytes delta sid =
    (not (word16 bytes delta == 0) && word16 bytes delta == sid)
    || is_listed_from k bytes (delta + 4) sid

-- Behind the eight bytes of its header a PAT has one programme in each four bytes, up to the
-- checksum.
abbrev pub is_listed : List ℕ → ℕ → Bool
is_listed bytes sid = is_listed_from ((section_length bytes - 9) / 4) bytes 8 sid

abbrev pub marked : Origin → ChanStatus → ChanStatus
marked origin s = if is_ready s && is_detected origin then ready_existing else s

abbrev pub gone : ChanStatus → ChanStatus
gone s = if is_ready_existing s then removed else s

-- The status of a channel after a section, by whether the version is new, the service is listed, and
-- all sections were seen.
abbrev pub status_after : Bool → Bool → Bool → Origin → ChanStatus → ChanStatus
status_after fresh listed complete origin s =
    let begun = if fresh then marked origin s else s in
    let visited = if listed then still begun else begun in
    if complete then gone visited else visited

-- The channel of a service is as another one, but for a status.
pub record Has (s : ChanStatus) (c : AutoChannel) (sid : ℕ) (cs : List AutoChannel) : Type 0 where
  pub it : AutoChannel
  pub found : channel_of sid cs ≡ some it
  pub is_as : IsAs s c it

Has-map :
    (f : AutoChannel → AutoChannel) (g : Origin → ChanStatus → ChanStatus)
    → ((d : AutoChannel) → IsAs (g d.service_id_f d.channel_ready) d (f d))
    → (s : ChanStatus) (c : AutoChannel) (sid : ℕ) (cs : List AutoChannel) → Has s c sid cs
    → Has (g c.service_id_f s) c sid (map f cs)
Has-map f g step s c sid cs h =
    let p = step h.it in
    record {
      it = f h.it;
      found =
          channel_of-map f (λ (d : AutoChannel). (step d).same_service) sid cs
          ∙ ap (then_map f) h.found;
      is_as = record {
        same_service = p.same_service ∙ h.is_as.same_service;
        same_origin = p.same_origin ∙ h.is_as.same_origin;
        status = p.status ∙ ap₂ g h.is_as.same_origin h.is_as.status;
      };
    }

pub mark-IsAs : (d : AutoChannel) → IsAs (marked d.service_id_f d.channel_ready) d (mark_existing d)
unfolding mark_existing
mark-IsAs d = elim (Bool-cases (is_ready d.channel_ready && is_detected d.service_id_f)) [
  | inl up ↦ rw up (record { same_service = refl; same_origin = refl; status = refl })
  | inr down ↦ rw down (record { same_service = refl; same_origin = refl; status = refl })
]

pub clean_up-IsAs : (d : AutoChannel) → IsAs (gone d.channel_ready) d (clean_up d)
unfolding clean_up
clean_up-IsAs d = elim (Bool-cases (is_ready_existing d.channel_ready)) [
  | inl up ↦ rw up (record { same_service = refl; same_origin = refl; status = refl })
  | inr down ↦ rw down (record { same_service = refl; same_origin = refl; status = refl })
]

still-still :
    (a b : Bool) (s : ChanStatus)
    → (if b then still (if a then still s else s) else (if a then still s else s))
      ≡ (if a || b then still s else s)
still-still true true removed = refl
still-still true true no_streaming = refl
still-still true true not_ready = refl
still-still true true almost_ready = refl
still-still true true ready = refl
still-still true true ready_existing = refl
still-still true false s = refl
still-still false b s = refl

visit-Has :
    (memory : Bool × Bool) (bytes : List ℕ) (delta : ℕ) (p : AutoPat) (s : ChanStatus)
    (c : AutoChannel) (sid : ℕ)
    → Has s c sid p.channels
    → Has
        (if not (word16 bytes delta == 0) && word16 bytes delta == sid then still s else s)
        c
        sid
        (visit_pat_program memory bytes delta p).channels
unfolding visit_pat_program
visit-Has memory bytes delta p s c sid h = elim (Bool-cases (word16 bytes delta == 0)) [
  | inl network ↦ rw network h
  | inr program ↦ elim (Bool-cases (word16 bytes delta == sid)) [
    | inl own ↦
        let number : word16 bytes delta ≡ sid = ground (arith, own) in
        let u = update_found-IsAs memory (word13 bytes (delta + 2)) h.it in
        rw (program, own)
          (record {
            it = (update_found memory (word13 bytes (delta + 2)) h.it).0;
            found =
                ap
                  (λ (n : ℕ).
                    channel_of n
                      (autoconf_pat_update_chan memory (word16 bytes delta)
                        (word13 bytes (delta + 2)) p.channels).0)
                  (sym number)
                ∙ update_chan_own memory (word16 bytes delta) (word13 bytes (delta + 2)) p.channels
                    h.it (ap (λ (n : ℕ). channel_of n p.channels) number ∙ h.found);
            is_as = record {
              same_service = u.same_service ∙ h.is_as.same_service;
              same_origin = u.same_origin ∙ h.is_as.same_origin;
              status = u.status ∙ ap still h.is_as.status;
            };
          })
    | inr other ↦
        rw (program, other)
          (record {
            it = h.it;
            found =
                update_chan_other memory (word16 bytes delta) (word13 bytes (delta + 2)) p.channels
                  sid other
                ∙ h.found;
            is_as = h.is_as;
          })
  ]
]

-- `k` programmes are left at `delta`.
read_programs-Has :
    (k fuel : ℕ) (memory : ℕ → Bool × Bool) (bytes : List ℕ) (len delta : ℕ) (p : AutoPat)
    (s : ChanStatus) (c : AutoChannel) (sid : ℕ)
    → k ≡ (len - (delta + 1)) / 4
    → k ≤ fuel
    → Has s c sid p.channels
    → Has
        (if is_listed_from k bytes delta sid then still s else s)
        c
        sid
        (read_programs fuel memory bytes len delta p).channels
unfolding read_programs
read_programs-Has zero zero memory bytes len delta p s c sid e enough h = h
read_programs-Has zero (suc fuel) memory bytes len delta p s c sid e enough h =
    let done : ltb (delta + 4) len ≡ false = ground (arith, e) in rw done h
read_programs-Has (suc k) zero memory bytes len delta p s c sid e enough h = absurd (omega arith)
read_programs-Has (suc k) (suc fuel) memory bytes len delta p s c sid e enough h =
    let more : ltb (delta + 4) len ≡ true = ground (arith, e) in
    let here = not (word16 bytes delta == 0) && word16 bytes delta == sid in
    let next = visit_pat_program (memory fuel) bytes delta p in
    rw more (
      subst
        (λ (s' : ChanStatus).
          Has s' c sid (read_programs fuel memory bytes len (delta + 4) next).channels)
        (still-still here (is_listed_from k bytes (delta + 4) sid) s)
        (read_programs-Has k fuel memory bytes len (delta + 4) next (if here then still s else s) c
          sid (omega (arith, e)) (omega arith) (visit-Has (memory fuel) bytes delta p s c sid h)))

-- What the loop does not change.
pub read_programs-seen :
    (fuel : ℕ) (memory : ℕ → Bool × Bool) (bytes : List ℕ) (len delta : ℕ) (p : AutoPat)
    → (read_programs fuel memory bytes len delta p).pat_sections_seen ≡ p.pat_sections_seen
unfolding read_programs visit_pat_program
read_programs-seen zero memory bytes len delta p = refl
read_programs-seen (suc fuel) memory bytes len delta p = elim (Bool-cases (ltb (delta + 4) len)) [
  | inl more ↦
      let next = visit_pat_program (memory fuel) bytes delta p in
      rw more (
        read_programs-seen fuel memory bytes len (delta + 4) next
        ∙ elim (Bool-cases (word16 bytes delta == 0)) [
          | inl network ↦ rw network refl
          | inr program ↦ rw program refl
        ])
  | inr done ↦ rw done refl
]

note_section-Has :
    (pat : List ℕ) (p : AutoPat) (c : AutoChannel) (sid : ℕ)
    → channel_of sid p.channels ≡ some c
    → Has
        (if not (same_version (some (version_number pat 0)) p.pat_version)
          then marked c.service_id_f c.channel_ready
          else c.channel_ready)
        c
        sid
        (note_section pat p).channels
unfolding note_section note_version
note_section-Has pat p c sid found =
    let h : Has c.channel_ready c sid p.channels = record {
      it = c;
      found = found;
      is_as = record { same_service = refl; same_origin = refl; status = refl };
    } in
    elim (Bool-cases (same_version (some (version_number pat 0)) p.pat_version)) [
      | inl same ↦ rw same h
      | inr new ↦ rw new (Has-map mark_existing marked mark-IsAs c.channel_ready c sid p.channels h)
    ]

finish_pat-Has :
    (pat : List ℕ) (p : AutoPat) (complete : Bool) (s : ChanStatus) (c : AutoChannel) (sid : ℕ)
    → all_below (byte_at pat 7 + 1) p.pat_sections_seen ≡ complete
    → Has s c sid p.channels
    → Has (if complete then gone s else s) c sid (finish_pat pat p).channels
unfolding finish_pat
finish_pat-Has pat p true s c sid all h =
    rw all (Has-map clean_up (λ origin s'. gone s') clean_up-IsAs s c sid p.channels h)
finish_pat-Has pat p false s c sid all h = rw all h

abbrev pub is_seen : List ℕ → AutoPat → Bool
is_seen pat p =
    same_version (some (version_number pat 0)) p.pat_version && p.pat_sections_seen (byte_at pat 6)

module _ (memory : ℕ → Bool × Bool) (p : AutoPat) (sid : ℕ) (c : AutoChannel)
    (found : channel_of sid p.channels ≡ some c)
    (unseen : is_seen p.autoconf_temp_pat.data_full p ≡ false)
    (applicable : (current_next_indicator p.autoconf_temp_pat.data_full 0 == 0) ≡ false) where
  -- A section that was not seen before and is applicable leaves each service its channel, with this
  -- status: in a new version a detected channel that was `READY` is marked; it is `READY` again, and
  -- one that was `REMOVED` is `NOT_READY`, if the section lists the service; and if with it all
  -- sections up to its last section number were seen in its version, a channel that is still marked is
  -- `REMOVED`. Any other status stays.
  pub read_pat-status :
      let pat = p.autoconf_temp_pat.data_full in
      Has
        (status_after
          (not (same_version (some (version_number pat 0)) p.pat_version))
          (is_listed pat sid)
          (is_complete (byte_at pat 7) pat p)
          c.service_id_f
          c.channel_ready)
        c
        sid
        (autoconf_read_pat memory p).channels
  unfolding autoconf_read_pat
  read_pat-status =
      let pat = p.autoconf_temp_pat.data_full in
      let len = section_length pat in
      let noted = note_section pat p in
      let stored : AutoPat = record noted { transport_stream_id = some (word16 pat 3) } in
      let fresh = not (same_version (some (version_number pat 0)) p.pat_version) in
      let s = if fresh then marked c.service_id_f c.channel_ready else c.channel_ready in
      rw (unseen, applicable)
        (finish_pat-Has pat (read_programs len memory pat len 8 stored)
          (is_complete (byte_at pat 7) pat p) (if is_listed pat sid then still s else s) c sid
          (ap (all_below (byte_at pat 7 + 1)) (read_programs-seen len memory pat len 8 stored)
            ∙ ap (λ (n : ℕ). all_below n noted.pat_sections_seen) {x = byte_at pat 7 + 1}
                {y = suc (byte_at pat 7)} (omega arith)
            ∙ all_below_complete (byte_at pat 7) pat p)
          (read_programs-Has ((len - 9) / 4) len memory pat len 8 stored s c sid
            (ap (λ (k : ℕ). k / 4) {x = len - 9} {y = len - (8 + 1)} (omega arith)) (omega arith)
            (note_section-Has pat p c sid found)))
