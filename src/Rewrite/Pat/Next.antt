-- ===== src/Rewrite/Pat/Next.antt =====
-- Two sections in the store of the PAT rewriting (src/rewrite_pat.c), of which the second one is not
-- applicable yet.
use mu_mu_dvb.Prelude.{◌/◌, ◌%◌, get_or, ◌∙◌, get_or-take, sym, u8, ap, take, length, ◌≤◌, ◌<◌}
use mu_mu_dvb.Prelude.{◌≡◌, ℕ, suc, List, [], ◌∷◌, refl, arith, true, false, some, none}
use mu_mu_dvb.Ts.Deliver.{pop-IsValid}
use mu_mu_dvb.Ts.Store.{pop-nil, pop-cons}
use mu_mu_dvb.Ts.Get.{get_ts_packet}
use mu_mu_dvb.Ts.Full.{pop_full}
use mu_mu_dvb.Crc.Calc.{byte_at}
use mu_mu_dvb.Rewrite.Pat.{version_number, current_next_indicator, update_pat_version}
use mu_mu_dvb.Rewrite.Pat.{get_ts_packet, PatRewrite, download_pat, take_pat}
use mu_mu_dvb.Ts.Valid.{IsValid}
use mu_mu_dvb.Ts.Packet.{TsPacket}

-- A round of the loop that takes a waiting section.
download_some :
    (n : ℕ) (vars : PatRewrite) (s : List ℕ) (q : List (List ℕ))
    → IsValid vars.full_pat (s ∷ q)
    → download_pat (suc n) none vars
      ≡ download_pat n none (take_pat (record vars { full_pat = (pop_full vars.full_pat).0 }))
unfolding download_pat get_ts_packet
download_some n vars s q v =
    let popped = pop-cons vars.full_pat s q v.fits v.holds v.sound.0.small in rw popped.0 refl

download_none :
    (n : ℕ) (vars : PatRewrite) → IsValid vars.full_pat [] → download_pat (suc n) none vars ≡ vars
unfolding download_pat get_ts_packet
download_none n vars v = rw (pop-nil vars.full_pat v.holds) refl

-- The table header of a section that was taken out stands in `data_full`.
byte_at-taken :
    (pkt : TsPacket) (s : List ℕ) (q : List (List ℕ)) (i : ℕ)
    → IsValid pkt (s ∷ q)
    → i < length s
    → byte_at (pop_full pkt).0.data_full i ≡ byte_at s i
byte_at-taken pkt s q i v h =
    let popped = pop-cons pkt s q v.fits v.holds v.sound.0.small in
    let p = (pop_full pkt).0 in
    ap u8 (
      sym (get_or-take p.len_full i p.data_full 0 (omega (arith, popped.1)))
      ∙ ap (λ (b : List ℕ). get_or b i 0) popped.2)

take_current :
    (vars : PatRewrite)
    → current_next_indicator vars.full_pat.data_full 0 ≡ 1
    → take_pat vars ≡ record vars {
      pat_version = some (version_number vars.full_pat.data_full 0);
      pat_needs_update = false;
      full_pat_ok = true;
    }
unfolding take_pat update_pat_version
take_current vars e = rw e refl

take_next :
    (vars : PatRewrite)
    → current_next_indicator vars.full_pat.data_full 0 ≡ 0
    → take_pat vars ≡ vars
unfolding take_pat
take_next vars e = rw e refl

module _ (n : ℕ) (vars : PatRewrite) (s later : List ℕ) (v : IsValid vars.full_pat (s ∷ later ∷ []))
    (long : 6 ≤ length s) (long_later : 6 ≤ length later) (current : current_next_indicator s 0 ≡ 1)
    (next : current_next_indicator later 0 ≡ 0) where
  abbrev first_taken : PatRewrite
  first_taken = record vars {
    full_pat = (pop_full vars.full_pat).0;
    pat_version = some (version_number (pop_full vars.full_pat).0.data_full 0);
    pat_needs_update = false;
    full_pat_ok = true;
  }

  -- If two sections wait, the first one applicable and the second one not yet, then the loop of
  -- `pat_rewrite_new_global_packet` says that there is a full PAT, and notes the version of the first
  -- one, while `data_full` holds the second one.
  pub download_pat_overwrites :
      let vars' = download_pat (suc (suc (suc n))) none vars in
      (vars'.full_pat_ok ≡ true)
      × (vars'.pat_version ≡ some (version_number s 0))
      × (take vars'.full_pat.len_full vars'.full_pat.data_full ≡ later)
  download_pat_overwrites =
      let p = (pop_full vars.full_pat).0 in
      let v' = pop-IsValid vars.full_pat s (later ∷ []) v in
      let last = (pop_full p).0 in
      let ended : PatRewrite = record first_taken { full_pat = last } in
      let popped = pop-cons p later [] v'.fits v'.holds v'.sound.0.small in
      let same_header : byte_at p.data_full 5 ≡ byte_at s 5 =
        byte_at-taken vars.full_pat s (later ∷ []) 5 v (omega arith) in
      let later_header : byte_at last.data_full 5 ≡ byte_at later 5 =
        byte_at-taken p later [] 5 v' (omega arith) in
      let first : take_pat (record vars { full_pat = p }) ≡ first_taken =
        take_current (record vars { full_pat = p }) (ap (λ (b : ℕ). b % 2) same_header ∙ current) in
      let second : take_pat ended ≡ ended =
        take_next ended (ap (λ (b : ℕ). b % 2) later_header ∙ next) in
      let whole : download_pat (suc (suc (suc n))) none vars ≡ ended =
        download_some (suc (suc n)) vars s (later ∷ []) v
        ∙ ap (download_pat (suc (suc n)) none) first
        ∙ download_some (suc n) first_taken later [] v'
        ∙ ap (download_pat (suc n) none) second
        ∙ download_none n ended (pop-IsValid p later [] v') in
      (
        ap (λ (r : PatRewrite). r.full_pat_ok) whole,
        ap (λ (r : PatRewrite). r.pat_version) whole
            ∙ ap (λ (b : ℕ). some (b / 2 % 32)) same_header,
        ap (λ (r : PatRewrite). take r.full_pat.len_full r.full_pat.data_full) whole ∙ popped.2,
      )
