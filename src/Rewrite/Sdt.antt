-- ===== src/Rewrite/Sdt.antt =====
-- src/rewrite_sdt.c: the SDT of a channel, with the service that the channel streams. A byte behind
-- the end of an array, which the source may read, is 0 here.
use mu_mu_dvb.Prelude.{read_bytes, ◌^◌, ◌*◌, ◌/◌, ◌++◌, ◌%◌, u8, ltb, drop, take, not, ◌==◌}
use mu_mu_dvb.Prelude.{if◌then◌else◌, ◌+◌, bit_and, length, ◌&&◌, ◌||◌, ℕ, zero, suc, List, []}
use mu_mu_dvb.Prelude.{none, some, true, false, Bool, Option, replicate, set, get_or}
use mu_mu_dvb.Rewrite.Finish.{finish, ts_header_len}
use mu_mu_dvb.Rewrite.Table.{version_number, current_next_indicator, set_applicable, set_start}
use mu_mu_dvb.Rewrite.Table.{set_continuity_counter, word16, word12, same_version}
use mu_mu_dvb.Ts.Packet.{TsPacket, ts_packet_size}
use mu_mu_dvb.Ts.Get.{get_ts_packet}
use mu_mu_dvb.Ts.Begin.{get_ts_begin}
use mu_mu_dvb.Ts.Header.{section_length}
use mu_mu_dvb.Crc.Calc.{byte_at}
pub mod Packets
pub mod Found
pub mod Descriptors
pub mod Generated
pub mod Endless

-- `option_status_t` (src/mumudvb.h): 0, 1 and 2.
pub data OptionStatus : Type 0 where
  option_undefined option_off option_on : OptionStatus

-- An option as a condition, which holds if it is not 0.
abbrev pub is_nonzero : OptionStatus → Bool
is_nonzero option_undefined = false
is_nonzero option_off = true
is_nonzero option_on = true

-- The fields of `rewrite_parameters_t` for the SDT; `none` is the version -1.
pub record SdtRewrite : Type 0 where
  pub sdt_version : Option ℕ
  pub sdt_needs_update : Bool
  pub sdt_need_others : Bool
  pub sdt_last_section_number : ℕ
  pub sdt_section_numbers_seen : List ℕ
  pub full_sdt_ok : Bool
  pub full_sdt : TsPacket
  pub sdt_continuity_counter : ℕ
  pub sdt_force_eit : OptionStatus

-- The fields of `mumudvb_channel_t` for it; `ready` is `channel_ready>=READY`.
pub record SdtChannel : Type 0 where
  pub service_id : ℕ
  pub ready : Bool
  pub generated_sdt : List ℕ
  pub generated_sdt_version : Option ℕ
  pub sdt_rewrite_skip : Bool

abbrev pub sdt_len : ℕ
sdt_len = 11

abbrev pub sdt_descr_len : ℕ
sdt_descr_len = 5

-- Are all of the first `n` entries set?
unfoldable pub all_seen : ℕ → List ℕ → Bool
all_seen zero seen = true
all_seen (suc n) seen = let rest = all_seen n seen in rest && not (get_or seen n 0 == 0)

unfoldable pub sdt_rewrite_all_sections_seen : SdtRewrite → Bool
unfolding all_seen
sdt_rewrite_all_sections_seen rewrite_vars =
    all_seen (rewrite_vars.sdt_last_section_number + 1) rewrite_vars.sdt_section_numbers_seen

unfoldable pub sdt_need_update : SdtRewrite → List ℕ → Bool
sdt_need_update rewrite_vars buf = elim (get_ts_begin buf) [
  | none ↦ false
  | some sdt ↦
      not (same_version (some (version_number buf sdt)) rewrite_vars.sdt_version)
      && (byte_at buf sdt == 0x42 && not (current_next_indicator buf sdt == 0))
]

unfoldable pub update_sdt_version : SdtRewrite → SdtRewrite
update_sdt_version rewrite_vars = record rewrite_vars {
  sdt_version = some (version_number rewrite_vars.full_sdt.data_full 0);
}

unfoldable pub sdt_rewrite_copy_descriptor : ℕ → Bool
sdt_rewrite_copy_descriptor descriptor_tag =
    descriptor_tag == 0x47
    || (descriptor_tag == 0x48
        || (descriptor_tag == 0x50
            || (descriptor_tag == 0x51
                || (descriptor_tag == 0x53 || (descriptor_tag == 0x5d || descriptor_tag == 0x6e)))))

-- `while(pos<descriptors_length)`, from the descriptors at `start`; `none` is a loop that is still
-- running when the fuel is used up. `descriptor_len` is an `unsigned char`. The copies are not cut at
-- the 4096 bytes of `t_buffer`; so many are too big for a packet.
unfoldable pub copy_descriptors : ℕ → List ℕ → ℕ → ℕ → ℕ → List ℕ → Option (List ℕ)
copy_descriptors zero data_full start descriptors_length pos copied = none
copy_descriptors (suc fuel) data_full start descriptors_length pos copied =
    let descriptor_tag = byte_at data_full (start + pos) in
    let descriptor_len = u8 (byte_at data_full (start + pos + 1) + 2) in
    let copied' =
      if sdt_rewrite_copy_descriptor descriptor_tag
      then copied ++ read_bytes descriptor_len data_full (start + pos)
      else copied in
    let rest =
      copy_descriptors fuel data_full start descriptors_length (pos + descriptor_len) copied' in
    if ltb pos descriptors_length then rest else some copied

-- The header of a service, with the new length of its descriptors and, if asked, the EIT flags.
unfoldable pub service_header : OptionStatus → List ℕ → ℕ → List ℕ
service_header sdt_force_eit header loop_length =
    let low = set header 4 (bit_and loop_length 0x00ff) in
    let high = set low 3 (byte_at low 3 / 16 * 16 + bit_and loop_length 0xff00 / 2 ^ 8 % 16) in
    if is_nonzero sdt_force_eit then set high 2 (byte_at high 2 / 4 * 4 + 3) else high

-- How the search for the service of a channel ends: in a loop without end, with a length that does
-- not fit its field, without the service, or with the bytes that are written for it.
pub data Search : Type 0 where
  endless : Search
  broken : Search
  absent : Search
  found : List ℕ → Search

-- The service whose descriptors were copied, or the rest of the search where it is too big.
unfoldable pub keep_service : OptionStatus → List ℕ → Option (List ℕ) → Search → Search
unfolding service_header
keep_service sdt_force_eit header none rest = endless
keep_service sdt_force_eit header (some copied) rest =
    let loop_length = length copied in
    let new_header = service_header sdt_force_eit header loop_length in
    if ltb ts_packet_size (ts_header_len + sdt_len + sdt_descr_len + loop_length + 4 + 1)
    then rest
    else if not (word12 new_header 3 == loop_length)
    then broken
    else found (new_header ++ copied)

-- `while((buffer_pos+SDT_DESCR_LEN)<(section_length) && !found)`. Each round moves on by five bytes at
-- least, and each descriptor by one or never, so the section length is enough fuel for the one and
-- the length of the descriptors for the other.
unfoldable pub find_service : ℕ → SdtRewrite → ℕ → List ℕ → ℕ → ℕ → Search
unfolding copy_descriptors keep_service
find_service zero rewrite_vars service_id data_full section_length buffer_pos = absent
find_service (suc fuel) rewrite_vars service_id data_full section_length buffer_pos =
    let descriptors_length = word12 data_full (buffer_pos + 3) in
    let rest =
      find_service fuel rewrite_vars service_id data_full section_length
        (buffer_pos + sdt_descr_len + descriptors_length) in
    let copied =
      copy_descriptors (descriptors_length + 1) data_full (buffer_pos + sdt_descr_len)
        descriptors_length 0 [] in
    let header = read_bytes sdt_descr_len data_full buffer_pos in
    if not (ltb (buffer_pos + sdt_descr_len) section_length)
    then absent
    else if service_id == word16 data_full buffer_pos
    then keep_service rewrite_vars.sdt_force_eit header copied rest
    else rest

-- What is done with the result of the search; `none` is a loop without end. The flag is the result of
-- the function.
unfoldable pub answer_search :
    Search → List ℕ → SdtRewrite → SdtChannel → Option (SdtRewrite × (SdtChannel × Bool))
unfolding sdt_rewrite_all_sections_seen
answer_search endless head rewrite_vars channel = none
answer_search broken head rewrite_vars channel = some (rewrite_vars, (channel, false))
answer_search absent head rewrite_vars channel =
    if sdt_rewrite_all_sections_seen rewrite_vars
    then some (
      rewrite_vars,
      (
        record channel {
          sdt_rewrite_skip = true;
          generated_sdt_version = rewrite_vars.sdt_version;
        },
        true,
      ),
    )
    else some (record rewrite_vars { sdt_need_others = true }, (channel, false))
answer_search (found service) head rewrite_vars channel = some (
  rewrite_vars,
  (
    record channel {
      generated_sdt = finish (head ++ service);
      sdt_rewrite_skip = false;
      generated_sdt_version = rewrite_vars.sdt_version;
    },
    true,
  ),
)

-- The table that is searched, applicable at once.
abbrev pub sdt_applicable : SdtRewrite → SdtRewrite
sdt_applicable rewrite_vars = record rewrite_vars {
  full_sdt = record rewrite_vars.full_sdt {
    data_full = set_applicable rewrite_vars.full_sdt.data_full 0;
  };
}

-- The header of `buf`, which the source changes for the copy, is not part of the result.
unfoldable pub sdt_channel_rewrite :
    SdtRewrite → SdtChannel → List ℕ → Option (SdtRewrite × (SdtChannel × Bool))
unfolding find_service answer_search
sdt_channel_rewrite rewrite_vars channel buf =
    let changed = sdt_applicable rewrite_vars in
    let data_full = changed.full_sdt.data_full in
    let len = section_length data_full in
    let head = take ts_header_len (set_start buf) ++ take sdt_len data_full in
    if channel.service_id == 0
    then some (rewrite_vars, (record channel { sdt_rewrite_skip = true }, false))
    else if not (byte_at data_full 0 == 0x42)
    then some (record changed { sdt_needs_update = true }, (channel, false))
    else answer_search (find_service len changed channel.service_id data_full len sdt_len) head
        changed channel
