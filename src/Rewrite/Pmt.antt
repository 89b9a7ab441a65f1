-- ===== src/Rewrite/Pmt.antt =====
-- src/rewrite_pmt.c: the PMT of a channel, with the streams that the channel streams. A byte behind
-- the end of an array, which the source may write, is not written here.
use mu_mu_dvb.Prelude.{length, leb, ltb, not, drop, ◌*◌, ◌++◌, ◌&&◌, take, ◌/◌, memcpy, ◌-◌, ◌==◌}
use mu_mu_dvb.Prelude.{◌%◌, Bool, if◌then◌else◌, ◌+◌, ℕ, zero, suc, List, [], ◌∷◌, none, some}
use mu_mu_dvb.Prelude.{true, false}
use mu_mu_dvb.Rewrite.Finish.{finish, ts_header_len}
use mu_mu_dvb.Rewrite.Table.{version_number, set_continuity_counter, set_start, word13}
use mu_mu_dvb.Rewrite.Table.{set_applicable, word12}
use mu_mu_dvb.Crc.Calc.{byte_at}
use mu_mu_dvb.Channel.Buffer.{ts_packet_size}
pub mod Parts
pub mod Streams
pub mod Stale
pub mod Generated

-- The fields of `mumudvb_channel_t` for the PMT; `ready` is `channel_ready>=READY`.
pub record PmtChannel : Type 0 where
  pub pids : List ℕ
  pub ready : Bool
  pub generated_pmt : List ℕ
  pub pmt_part_num : ℕ
  pub pmt_part_count : ℕ
  pub original_pmt : List ℕ
  pub original_pmt_ready : Bool
  pub generated_pmt_version : ℕ
  pub pmt_continuity_counter : ℕ

-- The result of `pmt_need_update`: 0, 1 and 2.
pub data NeedUpdate : Type 0 where
  no_update update_now more_parts : NeedUpdate

-- `pmt_part_num`, the number of packets behind the first one.
unfoldable pub part_num : ℕ → ℕ
part_num pmt_length =
    if (pmt_length + ts_packet_size) % ts_packet_size == 0
    then pmt_length / ts_packet_size - 1
    else pmt_length / ts_packet_size

-- A packet with the start of a PMT.
unfoldable pub first_part : List ℕ → PmtChannel → PmtChannel × NeedUpdate
unfolding part_num
first_part ts_packet channel =
    let parts = part_num (word12 ts_packet 6 + 3) in
    let started : PmtChannel = record channel {
      pmt_part_num = parts;
      pmt_part_count = 0;
      original_pmt = memcpy channel.original_pmt 0 (take ts_packet_size ts_packet);
      original_pmt_ready = false;
    } in
    if parts == 0
    then (record started { original_pmt_ready = true }, update_now)
    else (started, more_parts)

-- Another packet; `beyond` are the four bytes behind it in memory, which the source copies too.
unfoldable pub next_part : List ℕ → List ℕ → PmtChannel → PmtChannel × NeedUpdate
next_part beyond ts_packet channel =
    let count = channel.pmt_part_count + 1 in
    let continued : PmtChannel = record channel {
      pmt_part_count = count;
      original_pmt =
          memcpy channel.original_pmt (ts_packet_size * count)
            (take ts_packet_size (drop 4 (ts_packet ++ beyond)));
    } in
    if count == channel.pmt_part_num
    then (record continued { original_pmt_ready = true }, update_now)
    else (continued, more_parts)

unfoldable pub pmt_need_update : List ℕ → List ℕ → PmtChannel → PmtChannel × NeedUpdate
unfolding first_part next_part
pmt_need_update beyond ts_packet channel =
    if byte_at ts_packet 5 == 0x02
    then if channel.original_pmt_ready
        && version_number ts_packet 5 == channel.generated_pmt_version
      then (channel, no_update)
      else first_part ts_packet channel
    else if not channel.original_pmt_ready && ltb 0 channel.pmt_part_num
    then next_part beyond ts_packet channel
    else (channel, no_update)

-- One copy of a stream for each PID of the channel that is its own.
unfoldable pub copy_stream : List ℕ → ℕ → List ℕ → List ℕ → List ℕ
copy_stream [] elem_pid stream buf_dest = buf_dest
copy_stream (pid ∷ pids) elem_pid stream buf_dest =
    copy_stream pids elem_pid stream (if elem_pid == pid then buf_dest ++ stream else buf_dest)

-- `for (i = 0; i < es_len; i += PMT_INFO_LEN + es_info_len)`; each stream has five bytes at least.
unfoldable pub copy_streams : ℕ → List ℕ → List ℕ → ℕ → ℕ → List ℕ → List ℕ
unfolding copy_stream
copy_streams zero pids pmt es_len i buf_dest = buf_dest
copy_streams (suc fuel) pids pmt es_len i buf_dest =
    let at = ts_header_len + 12 + i in
    let size = 5 + word12 pmt (at + 3) in
    let copied = copy_stream pids (word13 pmt (at + 1)) (take size (drop at pmt)) buf_dest in
    let rest = copy_streams fuel pids pmt es_len (i + size) copied in
    if not (ltb i es_len)
    then buf_dest
    else if leb (ts_packet_size - 4) (length buf_dest + size)
    then buf_dest
    else rest

-- The bytes that are written before the section is closed.
unfoldable pub pmt_buf_dest : List ℕ → List ℕ → List ℕ
unfolding copy_streams
pmt_buf_dest pids pmt =
    let es_len = word12 pmt 6 + 3 - 12 - 4 in
    copy_streams es_len pids pmt es_len 0 (take (ts_header_len + 12) pmt)

unfoldable pub pmt_channel_rewrite : PmtChannel → PmtChannel × Bool
unfolding pmt_buf_dest
pmt_channel_rewrite channel =
    let pmt = set_applicable (set_start channel.original_pmt) ts_header_len in
    if not (byte_at channel.original_pmt 5 == 0x02) then (channel, false) else (
      record channel {
        original_pmt = pmt;
        generated_pmt_version = version_number pmt ts_header_len;
        generated_pmt = finish (pmt_buf_dest channel.pids pmt);
      },
      true,
    )

unfoldable pub pmt_send_packet : PmtChannel → PmtChannel × List ℕ
pmt_send_packet channel =
    let count = (channel.pmt_continuity_counter + 1) % 16 in
    (
      record channel { pmt_continuity_counter = count },
      set_continuity_counter channel.generated_pmt count,
    )

-- What is done for each result of `pmt_need_update`. The packet to be sent is a buffer of the caller,
-- which keeps its bytes where none are written to it; the flag is the result of the function.
unfoldable pub answer_update : NeedUpdate → List ℕ → PmtChannel → PmtChannel × (List ℕ × Bool)
unfolding pmt_channel_rewrite pmt_send_packet
answer_update no_update pmt_ts_packet channel =
    let (sent, packet) = pmt_send_packet channel in (sent, (packet, true))
answer_update update_now pmt_ts_packet channel =
    let (rewritten, done) = pmt_channel_rewrite channel in
    let (sent, packet) = pmt_send_packet rewritten in
    if done
    then (rewritten, (pmt_ts_packet, true))
    else if rewritten.generated_pmt_version == 0
    then (rewritten, (pmt_ts_packet, false))
    else (sent, (packet, true))
answer_update more_parts pmt_ts_packet channel = (channel, (pmt_ts_packet, false))

unfoldable pub pmt_rewrite_new_channel_packet :
    List ℕ → List ℕ → List ℕ → PmtChannel → PmtChannel × (List ℕ × Bool)
unfolding answer_update pmt_need_update
pmt_rewrite_new_channel_packet beyond ts_packet pmt_ts_packet channel =
    let (asked, need) = pmt_need_update beyond ts_packet channel in
    if channel.ready
    then answer_update need pmt_ts_packet asked
    else (channel, (pmt_ts_packet, false))
