-- ===== src/Rewrite/Pat/State.antt =====
-- The state of the PAT rewriting between two packets (src/rewrite_pat.c).
use mu_mu_dvb.Prelude.{Bool, if◌then◌else◌, ◌==◌, ◌||◌, ◌<◌, Bool-cases, ◌≡◌, length, Option, ℕ}
use mu_mu_dvb.Prelude.{zero, suc, List, [], ◌∷◌, refl, arith, inl, inr, true, false, some, none}
use mu_mu_dvb.Rewrite.Pat.{version_number, pat_need_update, current_next_indicator, get_ts_packet}
use mu_mu_dvb.Rewrite.Pat.{ts_packet_size, TsPacket, update_pat_version, take_pat}
use mu_mu_dvb.Rewrite.Pat.{pat_rewrite_new_global_packet, PatRewrite, download_pat}
use mu_mu_dvb.Ts.Deliver.{get_ts_packet-cons, get_ts_packet-nil, IsPacket}
use mu_mu_dvb.Ts.Valid.{IsValid}

-- The reassembly is in a valid state, and once there is a full PAT there is a version.
pub record IsRewriting (vars : PatRewrite) : Type 0 where
  pub queue : List (List ℕ)
  pub valid : IsValid vars.full_pat queue
  pub known : vars.full_pat_ok ≡ true → (v : ℕ) × (vars.pat_version ≡ some v)

get-IsValid :
    (b : Option (List ℕ)) (pkt : TsPacket) (q : List (List ℕ))
    → IsPacket b
    → IsValid pkt q
    → (q' : List (List ℕ)) × IsValid (get_ts_packet b pkt).0 q'
get-IsValid b pkt [] size v = let kept = (get_ts_packet-nil b pkt size v).3 in (kept.0, kept.2)
get-IsValid b pkt (s ∷ q) size v =
    let kept = (get_ts_packet-cons b pkt s q size v).3 in (kept.0, kept.2)

take_pat-IsRewriting : (vars : PatRewrite) → IsRewriting vars → IsRewriting (take_pat vars)
unfolding take_pat update_pat_version
take_pat-IsRewriting vars r =
    elim (Bool-cases (current_next_indicator vars.full_pat.data_full 0 == 0)) [
      | inl later ↦ rw later r
      | inr current ↦ rw current (record {
        queue = r.queue;
        valid = r.valid;
        known = λ _. (version_number vars.full_pat.data_full 0, refl);
      })
    ]

download_pat-IsRewriting :
    (fuel : ℕ) (b : Option (List ℕ)) (vars : PatRewrite)
    → IsPacket b
    → IsRewriting vars
    → IsRewriting (download_pat fuel b vars)
unfolding download_pat
download_pat-IsRewriting zero b vars size r = r
download_pat-IsRewriting (suc fuel) b vars size r =
    let next = get-IsValid b vars.full_pat r.queue size r.valid in
    let got : PatRewrite = record vars { full_pat = (get_ts_packet b vars.full_pat).0 } in
    let still : IsRewriting got = record { queue = next.0; valid = next.1; known = r.known } in
    elim (Bool-cases (get_ts_packet b vars.full_pat).1) [
      | inl told ↦
          rw told
            (download_pat-IsRewriting fuel none (take_pat got) tt (take_pat-IsRewriting got still))
      | inr untold ↦ rw untold still
    ]

either-IsRewriting :
    (b : Bool) (x y : PatRewrite) → IsRewriting x → IsRewriting y → IsRewriting (if b then x else y)
either-IsRewriting true x y hx hy = hx
either-IsRewriting false x y hx hy = hy

-- Whatever packet comes in, `pat_rewrite_new_global_packet` leaves the reassembly of the PAT in a
-- valid state, and a version beside each full PAT; and its continuity counter has four bits.
pub global_packet-IsRewriting :
    (ts_packet : List ℕ) (vars : PatRewrite)
    → length ts_packet ≡ ts_packet_size
    → IsRewriting vars
    → let vars' = pat_rewrite_new_global_packet ts_packet vars in
      IsRewriting vars' × (vars'.pat_continuity_counter < 16)
unfolding pat_rewrite_new_global_packet
global_packet-IsRewriting ts_packet vars size r =
    let needs = vars.pat_needs_update || pat_need_update vars ts_packet in
    let asked : PatRewrite = record vars { pat_needs_update = needs } in
    let same : IsRewriting asked = record { queue = r.queue; valid = r.valid; known = r.known } in
    let downloaded = download_pat-IsRewriting 17 (some ts_packet) asked size same in
    let got =
      either-IsRewriting needs (download_pat 17 (some ts_packet) asked) asked downloaded same in
    (record { queue = got.queue; valid = got.valid; known = got.known }, omega arith)
