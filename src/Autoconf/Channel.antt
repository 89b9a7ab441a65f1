-- ===== src/Autoconf/Channel.antt =====
-- A channel as autoconfiguration sees it (src/mumudvb.h), and `mumu_init_chan`
-- (src/mumudvb_channels.c).
use mu_mu_dvb.Prelude.{◌++◌, length, ltb, not, ◌&&◌, ◌||◌, is_some, if◌then◌else◌, ◌==◌, ℕ, List}
use mu_mu_dvb.Prelude.{[], ◌∷◌, none, some, true, false, Bool, Option}
use mu_mu_dvb.Ts.Packet.{TsPacket, cleared_packet}

-- `chan_status_t`
pub data ChanStatus : Type 0 where
  removed no_streaming not_ready almost_ready ready ready_existing : ChanStatus

-- Where a value comes from: `F_UNDEF`, `F_USER` and `F_DETECTED`.
pub data Origin : Type 0 where
  undef user detected : Origin

abbrev pub is_user : Origin → Bool
is_user user = true
is_user _ = false

abbrev pub is_detected : Origin → Bool
is_detected detected = true
is_detected _ = false

abbrev pub is_ready : ChanStatus → Bool
is_ready ready = true
is_ready _ = false

abbrev pub is_ready_existing : ChanStatus → Bool
is_ready_existing ready_existing = true
is_ready_existing _ = false

-- `PID_PMT`
abbrev pub pid_pmt : ℕ
pid_pmt = 1

-- The fields of `mumudvb_channel_t` that the reading of the PAT uses. `pids` has the first `num_pids`
-- entries of `pids` and `pids_type`; the language of a PID is not part of it. A version `none` is
-- -1, and a packet `none` is NULL.
pub record AutoChannel : Type 0 where
  pub service_id : ℕ
  pub service_id_f : Origin
  pub channel_ready : ChanStatus
  pub pmt_pid : ℕ
  pub pmt_pid_f : Origin
  pub pids : List (ℕ × ℕ)
  pub pmt_packet : Option TsPacket
  pub pmt_version : Option ℕ
  pub num_packet : ℕ
  pub has_traffic : Bool
  pub num_scrambled_packets : ℕ
  pub scrambled_channel : ℕ
  pub generated_pat_version : Option ℕ
  pub generated_sdt_version : Option ℕ

-- `malloc` of a packet where there is none, and its `memset`; `memory` is what `malloc` answers.
unfoldable pub alloc_packet : Bool → Option TsPacket → Option TsPacket
alloc_packet memory (some packet) = some packet
alloc_packet true none = some cleared_packet
alloc_packet false none = none

abbrev pub has_pid : ℕ → List (ℕ × ℕ) → Bool
has_pid pid [] = false
has_pid pid (p ∷ pids) = p.0 == pid || has_pid pid pids

-- The PID of the PMT goes to the list, if it comes from the user; `MAX_PIDS` is 128.
unfoldable pub add_user_pid : AutoChannel → List (ℕ × ℕ)
add_user_pid chan =
    if is_user chan.pmt_pid_f
      && (not (has_pid chan.pmt_pid chan.pids) && ltb (length chan.pids) 127)
    then chan.pids ++ ((chan.pmt_pid, pid_pmt) ∷ [])
    else chan.pids

-- The channel, and whether there was no memory, which interrupts the program.
unfoldable pub mumu_init_chan : Bool → AutoChannel → AutoChannel × Bool
unfolding alloc_packet add_user_pid
mumu_init_chan memory chan =
    let packet = alloc_packet memory chan.pmt_packet in
    (
      record chan {
        num_packet = 0;
        has_traffic = true;
        num_scrambled_packets = 0;
        scrambled_channel = 0;
        generated_pat_version = none;
        generated_sdt_version = none;
        pmt_packet = packet;
        pids = if is_some packet then add_user_pid chan else chan.pids;
      },
      not (is_some packet),
    )
