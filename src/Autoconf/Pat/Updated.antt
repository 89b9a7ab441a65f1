-- ===== src/Autoconf/Pat/Updated.antt =====
-- What `autoconf_pat_update_chan` (src/autoconf_pat.c) changes.
use mu_mu_dvb.Prelude.{◌+◌, ◌==◌, ap, sym, ap₂, ◌++◌, Bool-cases, ◌≡◌, ◌∙◌, ℕ, List, [], ◌∷◌}
use mu_mu_dvb.Prelude.{none, some, false, Bool, Option, refl, arith, inl, inr}
use mu_mu_dvb.Autoconf.Pat.Places.{channel_of-other, is_service, channel_of-last}
use mu_mu_dvb.Autoconf.Pat.Places.{channel_of-append_other, channel_of-nowhere, last_place_cases}
use mu_mu_dvb.Autoconf.Pat.Places.{channel_of, set-middle, IsLast}
use mu_mu_dvb.Autoconf.Pat.{leb, length, is_some, nth_channel, set, keep_up, set_pmt_pid}
use mu_mu_dvb.Autoconf.Pat.{update_found, autoconf_pat_update_chan, update_place, new_channel}
use mu_mu_dvb.Autoconf.Channel.{alloc_packet, is_user, AutoChannel, ChanStatus, ready}
use mu_mu_dvb.Autoconf.Channel.{ready_existing, removed, not_ready, no_streaming, almost_ready}
use mu_mu_dvb.Autoconf.Channel.{mumu_init_chan}

-- The status of a channel whose service is in the PAT.
abbrev pub still : ChanStatus → ChanStatus
still ready_existing = ready
still removed = not_ready
still s = s

-- A channel of the same service and origin, with a status.
pub record IsAs (s : ChanStatus) (c c' : AutoChannel) : Type 0 where
  pub same_service : c'.service_id ≡ c.service_id
  pub same_origin : c'.service_id_f ≡ c.service_id_f
  pub status : c'.channel_ready ≡ s

keep_up-IsAs :
    (s : ChanStatus) (memory : Bool) (c : AutoChannel)
    → c.channel_ready ≡ s
    → IsAs (still s) c (keep_up s memory c).0
unfolding keep_up mumu_init_chan
keep_up-IsAs ready_existing memory c h = record {
  same_service = refl;
  same_origin = refl;
  status = refl;
}
keep_up-IsAs removed memory c h = record { same_service = refl; same_origin = refl; status = refl }
keep_up-IsAs no_streaming memory c h = record {
  same_service = refl;
  same_origin = refl;
  status = h;
}
keep_up-IsAs not_ready memory c h = record { same_service = refl; same_origin = refl; status = h }
keep_up-IsAs almost_ready memory c h = record {
  same_service = refl;
  same_origin = refl;
  status = h;
}
keep_up-IsAs ready memory c h = record { same_service = refl; same_origin = refl; status = h }

set_pmt_pid-IsAs :
    (memory : Bool) (network_pid : ℕ) (c : AutoChannel)
    → IsAs c.channel_ready c (set_pmt_pid memory network_pid c).0
unfolding set_pmt_pid
set_pmt_pid-IsAs memory network_pid c = elim (Bool-cases (is_user c.pmt_pid_f)) [
  | inl own ↦ rw own (record { same_service = refl; same_origin = refl; status = refl })
  | inr other ↦ elim (Bool-cases (is_some (alloc_packet memory c.pmt_packet))) [
    | inl room ↦
        rw (other, room) (record { same_service = refl; same_origin = refl; status = refl })
    | inr full ↦
        rw (other, full) (record { same_service = refl; same_origin = refl; status = refl })
  ]
]

pub update_found-IsAs :
    (memory : Bool × Bool) (network_pid : ℕ) (c : AutoChannel)
    → IsAs (still c.channel_ready) c (update_found memory network_pid c).0
unfolding update_found
update_found-IsAs memory network_pid c =
    let kept = (keep_up c.channel_ready memory.0 c).0 in
    let k = keep_up-IsAs c.channel_ready memory.0 c refl in
    let p = set_pmt_pid-IsAs memory.1 network_pid kept in
    record {
      same_service = p.same_service ∙ k.same_service;
      same_origin = p.same_origin ∙ k.same_origin;
      status = p.status ∙ k.status;
    }

pub set_found :
    (cs : List AutoChannel) (k : ℕ) (own : AutoChannel → Bool) (l : IsLast own cs k)
    (f : AutoChannel → AutoChannel)
    → set cs k (f (nth_channel k cs)) ≡ l.before ++ (f l.it ∷ l.behind)
set_found cs k own l f =
    let nth_here : (b : List AutoChannel) → nth_channel (length b) (b ++ (l.it ∷ l.behind)) ≡ l.it =
      nth_middle l.it l.behind in
    ap₂ (λ (xs : List AutoChannel) (i : ℕ). set xs i (f (nth_channel i xs))) l.split (sym l.at)
    ∙ ap (λ (c : AutoChannel). set (l.before ++ (l.it ∷ l.behind)) (length l.before) (f c))
        (nth_here l.before)
    ∙ set-middle l.before l.it (f l.it) l.behind
  where
    nth_middle :
        (c : AutoChannel) (behind b : List AutoChannel)
        → nth_channel (length b) (b ++ (c ∷ behind)) ≡ c
    nth_middle c behind [] = refl
    nth_middle c behind (x ∷ b) = nth_middle c behind b

some_channel_inj : {x y : AutoChannel} → some x ≡ some y → x ≡ y
some_channel_inj e = cc e

updated : Bool × Bool → ℕ → AutoChannel → AutoChannel
updated memory network_pid c = (update_found memory network_pid c).0

updated-service :
    (memory : Bool × Bool) (network_pid : ℕ) (c : AutoChannel)
    → (updated memory network_pid c).service_id ≡ c.service_id
unfolding updated
updated-service memory network_pid c = (update_found-IsAs memory network_pid c).same_service

-- The channel of the programme is the one that is changed.
pub update_chan_own :
    (memory : Bool × Bool) (number network_pid : ℕ) (cs : List AutoChannel) (c : AutoChannel)
    → channel_of number cs ≡ some c
    → channel_of number (autoconf_pat_update_chan memory number network_pid cs).0
      ≡ some (update_found memory network_pid c).0
unfolding autoconf_pat_update_chan update_place updated
update_chan_own memory number network_pid cs c found =
    elim (last_place_cases (λ (d : AutoChannel). d.service_id == number) 0 none cs) [
      | inl nowhere ↦ absurd (ground (arith, found, channel_of-nowhere number cs nowhere.0))
      | inr last ↦
          let l = last.1 in
          let it : l.it ≡ c = some_channel_inj (
            sym (channel_of-last number l.before l.it l.behind l.holds l.no_later)
            ∙ ap (channel_of number) (sym l.split)
            ∙ found) in
          ap (λ (o : Option ℕ). channel_of number (update_place o memory number network_pid cs).0)
            (last.2 ∙ ap some {x = 0 + last.0} {y = last.0} (omega arith))
          ∙ ap (channel_of number) (
              set_found cs last.0 (λ (d : AutoChannel). d.service_id == number) l
                (updated memory network_pid))
          ∙ channel_of-last number l.before (updated memory network_pid l.it) l.behind
              (ap (λ (n : ℕ). n == number) (updated-service memory network_pid l.it) ∙ l.holds)
              l.no_later
          ∙ ap (λ (d : AutoChannel). some (updated memory network_pid d)) it
    ]

-- Those of other services are not.
pub update_chan_other :
    (memory : Bool × Bool) (number network_pid : ℕ) (cs : List AutoChannel) (sid : ℕ)
    → (number == sid) ≡ false
    → channel_of sid (autoconf_pat_update_chan memory number network_pid cs).0 ≡ channel_of sid cs
unfolding autoconf_pat_update_chan update_place updated mumu_init_chan
update_chan_other memory number network_pid cs sid other =
    elim (last_place_cases (λ (d : AutoChannel). d.service_id == number) 0 none cs) [
      | inl nowhere ↦
          ap (λ (o : Option ℕ). channel_of sid (update_place o memory number network_pid cs).0)
            nowhere.1
          ∙ elim (Bool-cases (leb 127 (length cs))) [
            | inl full ↦ rw full refl
            | inr room ↦
                let begun = (mumu_init_chan memory.0 (new_channel number)).0 in
                let new = record begun { channel_ready = not_ready } in
                rw room (
                  channel_of-append_other sid cs (updated memory network_pid new)
                    (ap (λ (n : ℕ). n == sid) (updated-service memory network_pid new) ∙ other))
          ]
      | inr last ↦
          let l = last.1 in
          let own : l.it.service_id ≡ number = ground (arith, l.holds) in
          let not_own : is_service sid l.it ≡ false = ap (λ (n : ℕ). n == sid) own ∙ other in
          ap (λ (o : Option ℕ). channel_of sid (update_place o memory number network_pid cs).0)
            (last.2 ∙ ap some {x = 0 + last.0} {y = last.0} (omega arith))
          ∙ ap (channel_of sid) (
              set_found cs last.0 (λ (d : AutoChannel). d.service_id == number) l
                (updated memory network_pid))
          ∙ channel_of-other sid l.before (updated memory network_pid l.it) l.it l.behind
              (ap (λ (n : ℕ). n == sid) (updated-service memory network_pid l.it) ∙ not_own) not_own
          ∙ ap (channel_of sid) (sym l.split)
    ]
