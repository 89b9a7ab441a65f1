-- ===== src/Ts/Run.antt =====
-- A caller that feeds packets to `get_ts_packet` (src/ts.c) and reads each section it is told of.
use mu_mu_dvb.Prelude.{arith, inr, inl, Bool-cases, false, ◌≡◌, take, if◌then◌else◌, [], All, ◌∷◌}
use mu_mu_dvb.Prelude.{ℕ, Option, List, some, none}
use mu_mu_dvb.Ts.Store.{pop-cons, Holds}
use mu_mu_dvb.Ts.Deliver.{get_ts_packet-cons, get_ts_packet-nil, IsPacket}
use mu_mu_dvb.Ts.Get.{payload_offset, take_payload, get_ts_packet}
use mu_mu_dvb.Ts.Valid.{IsSound, IsValid}
use mu_mu_dvb.Ts.Packet.{TsPacket}

-- The sections that the calls report, in order: after a call that returns 1, the first `len_full`
-- bytes of `data_full`.
unfoldable pub received : List (Option (List ℕ)) → TsPacket → List (List ℕ)
received [] pkt = []
received (buf ∷ bufs) pkt =
    let (p, avail) = get_ts_packet buf pkt in
    let rest = received bufs p in if avail then take p.len_full p.data_full ∷ rest else rest

-- Whatever packets come in, from a valid state on, every section that is reported is sound.
pub received-IsSound :
    (bufs : List (Option (List ℕ))) (pkt : TsPacket) (q : List (List ℕ))
    → All IsPacket bufs
    → IsValid pkt q
    → All IsSound (received bufs pkt)
unfolding received
received-IsSound [] pkt q sizes v = tt
received-IsSound (buf ∷ bufs) pkt [] sizes v =
    let step = get_ts_packet-nil buf pkt sizes.0 v in
    rw step.0 (received-IsSound bufs (get_ts_packet buf pkt).0 step.3.0 sizes.1 step.3.2)
received-IsSound (buf ∷ bufs) pkt (s ∷ q) sizes v =
    let step = get_ts_packet-cons buf pkt s q sizes.0 v in
    let rest = received-IsSound bufs (get_ts_packet buf pkt).0 step.3.0 sizes.1 step.3.2 in
    elim (Bool-cases (get_ts_packet buf pkt).1) [
      | inl told ↦ rw (told, step.1) (step.2, rest)
      | inr lost ↦ rw lost rest
    ]

-- If one section waits and a packet comes in that holds no table data (no payload, a wrong
-- adaptation field, or a PES packet), the section is taken out of the store and the call returns
-- 0, so that no call ever reports it.
pub get_ts_packet_loses :
    (buf : List ℕ) (pkt : TsPacket) (s : List ℕ)
    → IsValid pkt (s ∷ [])
    → payload_offset buf ≡ none
    → let (p, avail) = get_ts_packet (some buf) pkt in
      (avail ≡ false) × (take p.len_full p.data_full ≡ s) × Holds p []
unfolding get_ts_packet take_payload
get_ts_packet_loses buf pkt s v e =
    let popped = pop-cons pkt s [] v.fits v.holds v.sound.0.small in
    rw e (ground (arith, popped.3.number), popped.2, popped.3)
