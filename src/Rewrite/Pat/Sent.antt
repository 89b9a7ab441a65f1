-- ===== src/Rewrite/Pat/Sent.antt =====
-- What `pat_rewrite_new_channel_packet` (src/rewrite_pat.c) sends.
use mu_mu_dvb.Rewrite.Pat.Made.{packet_for, IsMade-same, version_number-set_applicable}
use mu_mu_dvb.Rewrite.Pat.Made.{rewritten-packet_for, IsMade}
use mu_mu_dvb.Prelude.{◌⊎◌, Bool, ◌&&◌, not, ◌∙◌, sym, ap, Bool-cases, if◌then◌else◌, ◌≡◌, length}
use mu_mu_dvb.Prelude.{Option, ℕ, List, refl, arith, inl, inr, true, false, some, none}
use mu_mu_dvb.Rewrite.Pat.{version_number, renew_channel, packet_to_send, set_applicable}
use mu_mu_dvb.Rewrite.Pat.{ts_packet_size, pat_channel_rewrite, pat_rewrite_new_channel_packet}
use mu_mu_dvb.Rewrite.Pat.{set_continuity_counter, same_version, PatChannel, PatRewrite}
use mu_mu_dvb.Rewrite.Pat.State.{IsRewriting}
use mu_mu_dvb.Rewrite.Changes.{length-set_applicable}
use mu_mu_dvb.Ts.Deliver.{InProgress-same}
use mu_mu_dvb.Ts.Packet.{max_ts_size}

-- The version of the full PAT is that of the table that is kept.
abbrev pub IsCurrent : PatRewrite → Type 0
IsCurrent vars =
    vars.full_pat_ok ≡ true → vars.pat_version ≡ some (version_number vars.full_pat.data_full 0)

-- The packet of a channel with a version was made for it out of a table of that version.
pub record IsGenerated (channel : PatChannel) : Type 0 where
  pub of_version :
      (v : ℕ) → channel.generated_pat_version ≡ some v → IsMade channel v channel.generated_pat

-- The channel `c'` has the packet of `c`, or a new one, made for it with the header of the packet that
-- came in and out of the table that is kept.
abbrev pub IsRenewed : List ℕ → PatRewrite → PatChannel → PatChannel → Type 0
IsRenewed ts_packet vars c c' =
    ((c'.generated_pat ≡ c.generated_pat) × (c'.generated_pat_version ≡ c.generated_pat_version))
    ⊎ (c'.generated_pat ≡ packet_for c ts_packet vars.full_pat.data_full)

-- A packet that is sent: that of the channel, made for it out of a table with the version of the state,
-- with the continuity counter set.
pub record IsSent (vars : PatRewrite) (channel : PatChannel) (p : List ℕ) : Type 0 where
  pub version : ℕ
  pub known : vars.pat_version ≡ some version
  pub of_version : IsMade channel version channel.generated_pat
  pub counted : p ≡ set_continuity_counter channel.generated_pat vars.pat_continuity_counter

-- What becomes of a state and a channel.
record Renewed (ts_packet : List ℕ) (vars : PatRewrite) (channel : PatChannel) (vars' : PatRewrite)
    (channel' : PatChannel) : Type 0 where
  rewriting : IsRewriting vars'
  current : IsCurrent vars'
  generated : IsGenerated channel'
  same_version : vars'.pat_version ≡ vars.pat_version
  same_service : channel'.service_id ≡ channel.service_id
  same_pids : channel'.pids ≡ channel.pids
  renewed : IsRenewed ts_packet vars channel channel'

-- A state, a channel and an output that are right.
pub record IsRight (ts_packet : List ℕ) (vars : PatRewrite) (channel : PatChannel)
    (vars' : PatRewrite) (channel' : PatChannel) (sent : Option (List ℕ)) : Type 0 where
  pub rewriting : IsRewriting vars'
  pub current : IsCurrent vars'
  pub generated : IsGenerated channel'
  pub same_version : vars'.pat_version ≡ vars.pat_version
  pub same_service : channel'.service_id ≡ channel.service_id
  pub same_pids : channel'.pids ≡ channel.pids
  pub renewed : IsRenewed ts_packet vars channel channel'
  pub output : (p : List ℕ) → sent ≡ some p → IsSent vars' channel' p
  pub sends :
      vars.full_pat_ok ≡ true
      → vars.pat_needs_update ≡ false
      → channel.ready ≡ true
      → (p : List ℕ) × (sent ≡ some p)

data_full-IsRewriting :
    (vars : PatRewrite) (bytes : List ℕ)
    → length bytes ≡ max_ts_size
    → IsRewriting vars
    → IsRewriting (record vars { full_pat = record vars.full_pat { data_full = bytes } })
data_full-IsRewriting vars bytes size r = record {
  queue = r.queue;
  valid = record {
    fits = omega (arith, r.valid.fits, size);
    holds = record {
      number = r.valid.holds.number;
      lengths = r.valid.holds.lengths;
      bytes = r.valid.holds.bytes;
      size = r.valid.holds.size;
    };
    sound = r.valid.sound;
    progress =
        InProgress-same vars.full_pat.status_partial vars.full_pat
          (record vars.full_pat { data_full = bytes }) refl refl refl r.valid.progress;
  };
  known = r.known;
}

some_inj : {x y : List ℕ} → some x ≡ some y → x ≡ y
some_inj e = ground (arith, e)

some_version_inj : {v w : ℕ} → some v ≡ some w → v ≡ w
some_version_inj e = cc e

same_known : (g : Option ℕ) (v : ℕ) → same_version g (some v) ≡ true → g ≡ some v
same_known none v e = absurd (ground (arith, e))
same_known (some w) v e = ap some (ground (arith, e))

-- A packet that is to be sent was made before.
packet_to_send-IsSent :
    (vars : PatRewrite) (channel : PatChannel) (p : List ℕ)
    → vars.full_pat_ok ≡ true
    → IsCurrent vars
    → IsGenerated channel
    → packet_to_send vars channel ≡ some p
    → IsSent vars channel p
unfolding packet_to_send
packet_to_send-IsSent vars channel p ok current g e =
    let version = version_number vars.full_pat.data_full 0 in
    elim (Bool-cases (same_version channel.generated_pat_version vars.pat_version)) [
      | inl same ↦ record {
        version = version;
        known = current ok;
        of_version = g.of_version version (
            same_known channel.generated_pat_version version
              (ap (same_version channel.generated_pat_version) (sym (current ok)) ∙ same));
        counted = sym (some_inj (rw same at e));
      }
      | inr other ↦ absurd (ground (arith, rw other at e))
    ]

rewritten-IsRewriting :
    (vars : PatRewrite) (channel : PatChannel) (buf : List ℕ)
    → IsRewriting vars
    → IsRewriting (pat_channel_rewrite vars channel buf).0
unfolding pat_channel_rewrite
rewritten-IsRewriting vars channel buf r =
    data_full-IsRewriting vars (set_applicable vars.full_pat.data_full 0)
      (length-set_applicable vars.full_pat.data_full 0 ∙ r.valid.fits.data_full_size) r

rewritten-IsCurrent :
    (vars : PatRewrite) (channel : PatChannel) (buf : List ℕ)
    → IsRewriting vars
    → IsCurrent vars
    → IsCurrent (pat_channel_rewrite vars channel buf).0
unfolding pat_channel_rewrite
rewritten-IsCurrent vars channel buf r current ok =
    current ok
    ∙ ap some (
        sym (
          version_number-set_applicable vars.full_pat.data_full
            (omega (arith, r.valid.fits.data_full_size))))

-- The channel gets a packet for the table that is kept.
rewritten-Renewed :
    (ts_packet : List ℕ) (vars : PatRewrite) (channel : PatChannel)
    → length ts_packet ≡ ts_packet_size
    → vars.full_pat_ok ≡ true
    → IsRewriting vars
    → IsCurrent vars
    → let (vars', (rewritten, _)) = pat_channel_rewrite vars channel ts_packet in
      Renewed ts_packet vars channel vars'
        (record rewritten { generated_pat_version = vars.pat_version })
unfolding pat_channel_rewrite
rewritten-Renewed ts_packet vars channel size ok r current =
    let rewritten = (pat_channel_rewrite vars channel ts_packet).1.0 in
    let channel' : PatChannel = record rewritten { generated_pat_version = vars.pat_version } in
    let made = rewritten-packet_for vars channel ts_packet size r.valid.fits.data_full_size in
    record {
      rewriting = rewritten-IsRewriting vars channel ts_packet r;
      current = rewritten-IsCurrent vars channel ts_packet r current;
      generated = record {
        of_version = λ v e.
            IsMade-same channel channel' v rewritten.generated_pat refl refl (record {
              buf = ts_packet;
              table = vars.full_pat.data_full;
              whole = size;
              size = r.valid.fits.data_full_size;
              version = some_version_inj (sym (current ok) ∙ e);
              made = made;
            });
      };
      same_version = refl;
      same_service = refl;
      same_pids = refl;
      renewed = inr made;
    }

either-Renewed :
    (ts_packet : List ℕ) (vars : PatRewrite) (channel : PatChannel) (b : Bool)
    (x y : PatRewrite × PatChannel)
    → Renewed ts_packet vars channel x.0 x.1
    → Renewed ts_packet vars channel y.0 y.1
    → let z = if b then x else y in Renewed ts_packet vars channel z.0 z.1
either-Renewed ts_packet vars channel true x y hx hy = hx
either-Renewed ts_packet vars channel false x y hx hy = hy

kept-Renewed :
    (ts_packet : List ℕ) (vars : PatRewrite) (channel : PatChannel)
    → IsRewriting vars
    → IsCurrent vars
    → IsGenerated channel
    → Renewed ts_packet vars channel vars channel
kept-Renewed ts_packet vars channel r current g = record {
  rewriting = r;
  current = current;
  generated = g;
  same_version = refl;
  same_service = refl;
  same_pids = refl;
  renewed = inl (refl, refl);
}

renew_channel_lem :
    (ts_packet : List ℕ) (vars : PatRewrite) (channel : PatChannel)
    → length ts_packet ≡ ts_packet_size
    → vars.full_pat_ok ≡ true
    → IsRewriting vars
    → IsCurrent vars
    → IsGenerated channel
    → let z = renew_channel ts_packet vars channel in Renewed ts_packet vars channel z.0 z.1
unfolding renew_channel
renew_channel_lem ts_packet vars channel size ok r current g =
    let (vars', (rewritten, _)) = pat_channel_rewrite vars channel ts_packet in
    either-Renewed ts_packet vars channel
      (not vars.pat_needs_update
        && (channel.ready && not (same_version channel.generated_pat_version vars.pat_version)))
      (vars', record rewritten { generated_pat_version = vars.pat_version }) (vars, channel)
      (rewritten-Renewed ts_packet vars channel size ok r current)
      (kept-Renewed ts_packet vars channel r current g)

either_ok :
    (b ok : Bool) (x y : PatRewrite × PatChannel)
    → x.0.full_pat_ok ≡ ok
    → y.0.full_pat_ok ≡ ok
    → (if b then x else y).0.full_pat_ok ≡ ok
either_ok true ok x y hx hy = hx
either_ok false ok x y hx hy = hy

renewed_ok :
    (ts_packet : List ℕ) (vars : PatRewrite) (channel : PatChannel)
    → (renew_channel ts_packet vars channel).0.full_pat_ok ≡ vars.full_pat_ok
unfolding renew_channel pat_channel_rewrite
renewed_ok ts_packet vars channel =
    let (vars', (rewritten, _)) = pat_channel_rewrite vars channel ts_packet in
    either_ok
      (not vars.pat_needs_update
        && (channel.ready && not (same_version channel.generated_pat_version vars.pat_version)))
      vars.full_pat_ok (vars', record rewritten { generated_pat_version = vars.pat_version })
      (vars, channel) refl refl

same_version_self : (g : Option ℕ) (v : ℕ) → g ≡ some v → same_version g g ≡ true
same_version_self none v e = absurd (ground (arith, e))
same_version_self (some w) v e = ground arith

abbrev HasVersion : PatRewrite × PatChannel → Type 0
HasVersion z = same_version z.1.generated_pat_version z.0.pat_version ≡ true

either-HasVersion :
    (b : Bool) (x y : PatRewrite × PatChannel)
    → HasVersion x
    → (b ≡ false → HasVersion y)
    → HasVersion (if b then x else y)
either-HasVersion true x y hx hy = hx
either-HasVersion false x y hx hy = hy refl

settled_version :
    (needs ready same : Bool)
    → needs ≡ false
    → ready ≡ true
    → not needs && (ready && not same) ≡ false
    → same ≡ true
settled_version needs ready same settled is_ready e = ground (arith, settled, is_ready, e)

-- Once it is renewed, a ready channel has a packet of the version of the state.
renewed_version :
    (ts_packet : List ℕ) (vars : PatRewrite) (channel : PatChannel) (v : ℕ)
    → vars.pat_version ≡ some v
    → vars.pat_needs_update ≡ false
    → channel.ready ≡ true
    → HasVersion (renew_channel ts_packet vars channel)
unfolding renew_channel pat_channel_rewrite
renewed_version ts_packet vars channel v e settled ready =
    let same = same_version channel.generated_pat_version vars.pat_version in
    let (vars', (rewritten, _)) = pat_channel_rewrite vars channel ts_packet in
    either-HasVersion (not vars.pat_needs_update && (channel.ready && not same))
      (vars', record rewritten { generated_pat_version = vars.pat_version }) (vars, channel)
      (same_version_self vars.pat_version v e)
      (settled_version vars.pat_needs_update channel.ready same settled ready)

packet_to_send-some :
    (vars : PatRewrite) (channel : PatChannel)
    → same_version channel.generated_pat_version vars.pat_version ≡ true
    → (p : List ℕ) × (packet_to_send vars channel ≡ some p)
unfolding packet_to_send
packet_to_send-some vars channel e =
    (set_continuity_counter channel.generated_pat vars.pat_continuity_counter, rw e refl)

either-IsRight :
    (ts_packet : List ℕ) (vars : PatRewrite) (channel : PatChannel) (b : Bool)
    (x y : PatRewrite × (PatChannel × Option (List ℕ)))
    → (b ≡ true → IsRight ts_packet vars channel x.0 x.1.0 x.1.1)
    → (b ≡ false → IsRight ts_packet vars channel y.0 y.1.0 y.1.1)
    → let z = if b then x else y in IsRight ts_packet vars channel z.0 z.1.0 z.1.1
either-IsRight ts_packet vars channel true x y hx hy = hx refl
either-IsRight ts_packet vars channel false x y hx hy = hy refl

right :
    (ts_packet : List ℕ) (vars : PatRewrite) (channel : PatChannel) (vars' : PatRewrite)
    (channel' : PatChannel) (sent : Option (List ℕ))
    → Renewed ts_packet vars channel vars' channel'
    → ((p : List ℕ) → sent ≡ some p → IsSent vars' channel' p)
    → (vars.full_pat_ok ≡ true
        → vars.pat_needs_update ≡ false
        → channel.ready ≡ true
        → (p : List ℕ) × (sent ≡ some p))
    → IsRight ts_packet vars channel vars' channel' sent
right ts_packet vars channel vars' channel' sent r output sends = record {
  rewriting = r.rewriting;
  current = r.current;
  generated = r.generated;
  same_version = r.same_version;
  same_service = r.same_service;
  same_pids = r.same_pids;
  renewed = r.renewed;
  output = output;
  sends = sends;
}

-- If the version of the state is that of the table that it keeps, and the channel has no packet with a
-- version or one that was made for it out of a table of that version, then, whatever packet comes in,
-- `pat_rewrite_new_channel_packet` keeps both so, with the version, the service and the PIDs; it leaves
-- the channel its packet, or gives it one with the header of the packet that came in, and the
-- programmes of the kept table that the channel wants; and if it sends a packet, it is that of the
-- channel, made for it out of a table with the version of the state, with the continuity counter of the
-- state. Where there is a full PAT that needs no update, and the channel is ready, it does send one.
pub channel_packet-IsRight :
    (ts_packet : List ℕ) (vars : PatRewrite) (channel : PatChannel)
    → length ts_packet ≡ ts_packet_size
    → IsRewriting vars
    → IsCurrent vars
    → IsGenerated channel
    → let (vars', (channel', sent)) = pat_rewrite_new_channel_packet ts_packet vars channel in
      IsRight ts_packet vars channel vars' channel' sent
unfolding pat_rewrite_new_channel_packet
channel_packet-IsRight ts_packet vars channel size r current g =
    let z = renew_channel ts_packet vars channel in
    either-IsRight ts_packet vars channel vars.full_pat_ok (z.0, (z.1, packet_to_send z.0 z.1))
      (vars, (channel, none))
      (λ ok.
        let n = renew_channel_lem ts_packet vars channel size ok r current g in
        right ts_packet vars channel z.0 z.1 (packet_to_send z.0 z.1) n
          (λ p e.
            packet_to_send-IsSent z.0 z.1 p (renewed_ok ts_packet vars channel ∙ ok) n.current
              n.generated e)
          (λ _ settled ready. packet_to_send-some z.0 z.1 (
            renewed_version ts_packet vars channel (version_number vars.full_pat.data_full 0)
              (current ok) settled ready)))
      (λ unknown.
        right ts_packet vars channel vars channel none
          (kept-Renewed ts_packet vars channel r current g) (λ p e. absurd (ground (arith, e)))
          (λ ok. absurd (ground (arith, ok, unknown))))
