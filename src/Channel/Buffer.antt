-- ===== src/Channel/Buffer.antt =====
-- Filling the buffer of a channel with packets, and sending it (the end of `buffer_func`, and
-- `send_func`, of src/mumudvb_common.c). What goes out is recorded.
use mu_mu_dvb.Prelude.{◌++◌, ◌||◌, ◌+◌, ltb, ◌&&◌, memcpy, if◌then◌else◌, not, take, Option, Bool}
use mu_mu_dvb.Prelude.{ℕ, List, some, none}
use mu_mu_dvb.Channel.Rtp.{rtp_update_sequence_number, RtpChannel}

abbrev pub ts_packet_size : ℕ
ts_packet_size = 188

abbrev pub max_udp_size : ℕ
max_udp_size = 1350

abbrev pub rtp_header_len : ℕ
rtp_header_len = 12

-- The fields of `mumudvb_channel_t` that are read and written here; `multicast` says that one of
-- its two sockets is open.
pub record Channel : Type 0 where
  pub rtp : Bool
  pub header : RtpChannel
  pub buf : List ℕ
  pub nb_bytes : ℕ
  pub sent_data : ℕ
  pub multicast : Bool

-- What is sent at once: to the multicast sockets, and to the unicast clients.
pub record Sending : Type 0 where
  pub datagram : Option (List ℕ)
  pub unicast : List ℕ

-- `send_func`
unfoldable pub send_func : Channel → ℕ → Channel × Sending
send_func channel now_time =
    let bytes = take channel.nb_bytes channel.buf in
    let header =
      if channel.multicast && channel.rtp
      then rtp_update_sequence_number channel.header now_time
      else channel.header in
    let datagram =
      if channel.rtp then take rtp_header_len header.buf_with_rtp_header ++ bytes else bytes in
    (
      record channel {
        header = header;
        nb_bytes = 0;
        sent_data =
            channel.sent_data + channel.nb_bytes + 28 + (if channel.rtp then rtp_header_len else 0);
      },
      record { datagram = if channel.multicast then some datagram else none; unicast = bytes },
    )

-- The buffer has no room for another packet.
unfoldable pub is_full : Channel → Bool
is_full channel =
    (not channel.rtp && ltb max_udp_size (channel.nb_bytes + ts_packet_size))
    || (channel.rtp && ltb max_udp_size (channel.nb_bytes + rtp_header_len + ts_packet_size))

-- A packet is copied behind the others, unless it is scrambled and such are not sent.
unfoldable pub fill : Channel → List ℕ → Bool → Channel
fill channel ts_packet send_packet =
    if send_packet
    then record channel {
      buf = memcpy channel.buf channel.nb_bytes (take ts_packet_size ts_packet);
      nb_bytes = channel.nb_bytes + ts_packet_size;
    }
    else channel

-- The end of `buffer_func` for one packet; `none` where nothing is sent.
unfoldable pub buffer_packet : Channel → List ℕ → Bool → ℕ → Channel × Option Sending
unfolding send_func is_full fill
buffer_packet channel ts_packet send_packet now_time =
    let filled = fill channel ts_packet send_packet in
    let (emptied, sending) = send_func filled now_time in
    if is_full filled then (emptied, some sending) else (filled, none)
