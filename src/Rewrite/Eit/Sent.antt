-- ===== src/Rewrite/Eit/Sent.antt =====
-- What `eit_rewrite_new_channel_packet` (src/rewrite_eit.c) sends.
use mu_mu_dvb.Prelude.{Option}
use mu_mu_dvb.Prelude.{◌⊎◌, ◌≡◌, ℕ, List, [], some, true}
use mu_mu_dvb.Rewrite.Eit.{eit_find_by_tsid, TsPacket}
use mu_mu_dvb.Rewrite.Eit.{EitChannel, EitPacket}
use mu_mu_dvb.Rewrite.Eit.Send.{send_section}

-- The section `n` of the table `table_id` of a service is stored in the chain.
pub record IsStored (eit_packets : List EitPacket) (service_id table_id n : ℕ) (full : TsPacket)
    : Type 0 where
  pub entry : EitPacket
  pub listed : eit_find_by_tsid eit_packets service_id table_id ≡ some entry
  pub complete : entry.full_eit_ok ≡ true
  pub stored : entry.sections_stored n ≡ true
  pub full_section : entry.full_eit_sections n ≡ some full

-- Nothing is sent, or the packets of one stored section of the service of the channel, and the counter
-- goes on behind them.
abbrev pub SendsStored : List EitPacket → EitChannel → EitChannel × List (List ℕ) → Type 0
SendsStored eit_packets channel (channel', packets) =
    ((packets ≡ []) × (channel'.eit_cc ≡ channel.eit_cc))
    ⊎ ((table_id : ℕ) × (n : ℕ) × (full : TsPacket) × IsStored eit_packets channel.service_id
          table_id n full
        × ((packets, channel'.eit_cc)
            ≡ send_section full.len_full full.data_full 0 full.len_full channel.eit_cc))

-- A search that ends with an entry found it for the table that it ends at.
abbrev IsListedSearch : List EitPacket → ℕ → ℕ × Option EitPacket → Type 0
IsListedSearch eit_packets service_id z =
    (e : EitPacket)
    → z.1 ≡ some e
    → (eit_find_by_tsid eit_packets service_id z.0 ≡ some e) × (e.full_eit_ok ≡ true)
