-- ===== src/Rewrite/Eit.antt =====
-- src/rewrite_eit.c: the EIT sections of all services are stored, and those of the service of a
-- channel are sent to it one after the other.
use mu_mu_dvb.Prelude.{read_bytes, is_some, length, ◌&&◌, bit_and, ◌++◌, u8, ◌+◌, if◌then◌else◌}
use mu_mu_dvb.Prelude.{◌==◌, set, not, ◌||◌, ℕ, zero, suc, List, [], ◌∷◌, none, some, true, false}
use mu_mu_dvb.Prelude.{Bool, Option, replicate}
use mu_mu_dvb.Ts.Begin.{get_ts_begin}
use mu_mu_dvb.Ts.Get.{get_ts_packet}
use mu_mu_dvb.Rewrite.Table.{version_number, current_next_indicator, word16}
use mu_mu_dvb.Ts.Packet.{TsPacket, ts_packet_size}
use mu_mu_dvb.Crc.Calc.{byte_at}
pub mod Send
pub mod Chain
pub mod Sent
pub mod Turn
pub mod Carry
pub mod Calls
pub mod Pieces
pub mod Delivered

-- The fields of `eit_packet_t` that are used. The arrays have 256 entries, one for each section
-- number, and `none` is NULL.
pub record EitPacket : Type 0 where
  pub service_id : ℕ
  pub table_id : ℕ
  pub version : ℕ
  pub last_section_number : ℕ
  pub sections_stored : ℕ → Bool
  pub full_eit_ok : Bool
  pub full_eit_sections : ℕ → Option TsPacket

-- What `calloc` gives, and `memset` in `eit_free_packet_contents`, which keeps the link to the next one.
abbrev pub cleared_eit : EitPacket
cleared_eit = record {
  service_id = 0;
  table_id = 0;
  version = 0;
  last_section_number = 0;
  sections_stored = λ n. false;
  full_eit_ok = false;
  full_eit_sections = λ n. none;
}

-- The fields of `rewrite_parameters_t` for the EIT; the chain `eit_packets` is a list.
pub record EitRewrite : Type 0 where
  pub eit_needs_update : Bool
  pub full_eit : TsPacket
  pub eit_packets : List EitPacket

-- The fields of `mumudvb_channel_t` for it; `ready` is `channel_ready>=READY`.
pub record EitChannel : Type 0 where
  pub service_id : ℕ
  pub ready : Bool
  pub eit_section_to_send : ℕ
  pub eit_table_id_to_send : ℕ
  pub eit_cc : ℕ

unfoldable pub eit_next_table_id : ℕ → ℕ
eit_next_table_id table_id =
    if table_id == 0
    then 0x4e
    else if table_id == 0x4e
    then 0x50
    else if table_id == 0x5f
    then 0x4e
    else u8 (table_id + 1)

-- Is it present/following or schedule of the actual transport stream?
abbrev pub is_eit_table : ℕ → Bool
is_eit_table table_id = table_id == 0x4e || bit_and table_id 0xf0 == 0x50

abbrev pub is_eit : ℕ → ℕ → EitPacket → Bool
is_eit sid table_id eit = eit.service_id == sid && eit.table_id == table_id

-- The loop of `eit_new_packet` from the place `i` on, which stops at the last one of the chain without looking at it.
unfoldable pub find_before_last : ℕ → ℕ → ℕ → List EitPacket → Option ℕ
find_before_last i sid table_id [] = none
find_before_last i sid table_id (e ∷ []) = none
find_before_last i sid table_id (e ∷ e' ∷ es) =
    let rest = find_before_last (i + 1) sid table_id (e' ∷ es) in
    if is_eit sid table_id e then some i else rest

-- The place that was found, or that of a new entry; `memory` is what `calloc` answers.
unfoldable pub place_entry : Bool → List EitPacket → Option ℕ → List EitPacket × Option ℕ
place_entry memory eit_packets (some i) = (eit_packets, some i)
place_entry memory eit_packets none =
    if memory
    then (eit_packets ++ (cleared_eit ∷ []), some (length eit_packets))
    else (eit_packets, none)

-- The chain, and the place of the entry in it; `none` is NULL.
unfoldable pub eit_new_packet : Bool → List EitPacket → ℕ → ℕ → List EitPacket × Option ℕ
unfolding find_before_last place_entry
eit_new_packet memory eit_packets sid table_id =
    place_entry memory eit_packets (find_before_last 0 sid table_id eit_packets)

unfoldable pub eit_find_by_tsid : List EitPacket → ℕ → ℕ → Option EitPacket
eit_find_by_tsid [] service_id table_id = none
eit_find_by_tsid (e ∷ es) service_id table_id =
    let rest = eit_find_by_tsid es service_id table_id in
    if is_eit service_id table_id e then some e else rest

-- What the stored entry of a table says about the one at `eit`.
unfoldable pub is_newer : Option EitPacket → List ℕ → ℕ → Bool
is_newer none buf eit = true
is_newer (some eit_packet) buf eit =
    not (version_number buf eit == eit_packet.version)
    || not (eit_packet.sections_stored (byte_at buf (eit + 6)))

-- The offset is that of the table, 0 for a whole section and `get_ts_begin` for a raw packet.
unfoldable pub eit_need_update : List EitPacket → List ℕ → Option ℕ → Bool
unfolding eit_find_by_tsid is_newer
eit_need_update eit_packets buf none = false
eit_need_update eit_packets buf (some eit) =
    let stored = eit_find_by_tsid eit_packets (word16 buf (eit + 3)) (byte_at buf eit) in
    if not (is_eit_table (byte_at buf eit))
    then false
    else if current_next_indicator buf eit == 0
    then false
    else is_newer stored buf eit

-- The entry with the section, and whether it was stored; `memory` is what `calloc` answers.
unfoldable pub store_section : Bool → TsPacket → EitPacket → EitPacket × Bool
store_section memory full_eit eit_packet =
    let eit = full_eit.data_full in
    let n = byte_at eit 6 in
    let kept = if version_number eit 0 == eit_packet.version then eit_packet else cleared_eit in
    let noted : EitPacket = record kept {
      last_section_number = byte_at eit 7;
      version = version_number eit 0;
      service_id = word16 eit 3;
      table_id = byte_at eit 0;
      full_eit_ok = true;
    } in
    if not memory && not (is_some (kept.full_eit_sections n)) then (noted, false) else (
      record noted {
        full_eit_sections = λ k. if k == n then some full_eit else kept.full_eit_sections k;
        sections_stored = λ k. if k == n then true else kept.sections_stored k;
      },
      true,
    )

abbrev pub nth_eit : ℕ → List EitPacket → EitPacket
nth_eit i [] = cleared_eit
nth_eit zero (e ∷ es) = e
nth_eit (suc i) (e ∷ es) = nth_eit i es

-- The section goes to the entry at a place of the chain; the flag is off where the loop is left.
unfoldable pub store_at : Bool → EitRewrite → Option ℕ → EitRewrite × Bool
unfolding store_section
store_at memory rewrite_vars none = (rewrite_vars, false)
store_at memory rewrite_vars (some i) =
    let chain = rewrite_vars.eit_packets in
    let (entry, stored) = store_section memory rewrite_vars.full_eit (nth_eit i chain) in
    let changed : EitRewrite = record rewrite_vars { eit_packets = set chain i entry } in
    if stored then (record changed { eit_needs_update = false }, true) else (changed, false)

-- A section that was read whole goes to the entry of its table.
unfoldable pub store_eit : Bool × Bool → EitRewrite → EitRewrite × Bool
unfolding eit_new_packet store_at
store_eit memory rewrite_vars =
    let eit = rewrite_vars.full_eit.data_full in
    let (chain, place) =
      eit_new_packet memory.0 rewrite_vars.eit_packets (word16 eit 3) (byte_at eit 0) in
    store_at memory.1 (record rewrite_vars { eit_packets = chain }) place

-- `while(get_ts_packet(ts_packet,rewrite_vars->full_eit))`; `memory` says what the two calls of
-- `calloc` answer, by the rounds that are left.
unfoldable pub download_eit : ℕ → (ℕ → Bool × Bool) → Option (List ℕ) → EitRewrite → EitRewrite
unfolding store_eit eit_need_update
download_eit zero memory ts_packet rewrite_vars = rewrite_vars
download_eit (suc fuel) memory ts_packet rewrite_vars =
    let (full, avail) = get_ts_packet ts_packet rewrite_vars.full_eit in
    let got : EitRewrite = record rewrite_vars { full_eit = full } in
    let (stored, goes_on) = store_eit (memory fuel) got in
    let rest = download_eit fuel memory none stored in
    if not avail
    then got
    else if not (eit_need_update got.eit_packets full.data_full (some 0))
    then got
    else if goes_on
    then rest
    else stored

-- Fifteen sections wait at most, and one may come with the packet.
unfoldable pub eit_rewrite_new_global_packet : (ℕ → Bool × Bool) → List ℕ → EitRewrite → EitRewrite
unfolding download_eit
eit_rewrite_new_global_packet memory ts_packet rewrite_vars =
    let needs =
      rewrite_vars.eit_needs_update
      || eit_need_update rewrite_vars.eit_packets ts_packet (get_ts_begin ts_packet) in
    let asked : EitRewrite = record rewrite_vars { eit_needs_update = needs } in
    if needs then download_eit 17 memory (some ts_packet) asked else asked
