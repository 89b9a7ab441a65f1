-- ===== src/Examples/ChannelRuns.antt =====
-- The buffer of a channel and its RTP header at small inputs.
use mu_mu_dvb.Channel.Multicast.{expected_datagrams, datagram_of, buffer_packets, Input}
use mu_mu_dvb.Prelude.{map, All, ◌++◌, ◌≡◌, length-replicate, replicate, List, refl, [], ◌∷◌}
use mu_mu_dvb.Prelude.{true, false, arith, ℕ}
use mu_mu_dvb.Channel.Sequence.{IsRtp}
use mu_mu_dvb.Channel.Datagrams.{buffer_packets_lem, IsSeven, accepted_all, waiting, sent_all}
use mu_mu_dvb.Channel.Datagrams.{IsOpen}
use mu_mu_dvb.Channel.Buffer.{Channel}
use mu_mu_dvb.Channel.Rtp.{RtpChannel, init_rtp_header}

abbrev zero_header : RtpChannel
zero_header = record { buf_with_rtp_header = replicate 12 0; rtp_packet_num = 65534 }

abbrev small_header : RtpChannel
small_header = init_rtp_header 1 2 3 4 zero_header

-- Six packets wait.
abbrev nearly_full : Channel
nearly_full = record {
  rtp = true;
  header = small_header;
  buf = replicate 1350 0;
  nb_bytes = 1128;
  sent_data = 0;
  multicast = true;
}

nearly_full-IsOpen : IsOpen nearly_full
nearly_full-IsOpen = record {
  size = length-replicate {A = ℕ} 1350 0;
  whole = refl;
  room = omega arith;
}

abbrev three_packets : List Input
three_packets =
    (replicate 188 1, (true, 7)) ∷ (replicate 188 2, (false, 8)) ∷ (replicate 188 3, (true, 9)) ∷ []

small_header-IsRtp : IsRtp small_header (1 ∷ 2 ∷ 3 ∷ 4 ∷ [])
unfolding init_rtp_header
small_header-IsRtp = record {
  number = 0;
  time = 0;
  header = refl;
  four = refl;
  small = omega arith;
}

small_header-number : small_header.rtp_packet_num ≡ 65534
unfolding init_rtp_header
small_header-number = refl

buffer_packets_example :
    let (c, sendings) = buffer_packets nearly_full three_packets in
    IsOpen c
    × (sent_all sendings ++ waiting c ≡ waiting nearly_full ++ accepted_all three_packets)
    × All IsSeven sendings
    × (map datagram_of sendings
        ≡ expected_datagrams true true 65534 (1 ∷ 2 ∷ 3 ∷ 4 ∷ []) three_packets sendings)
buffer_packets_example =
    buffer_packets_lem three_packets nearly_full 65534 (1 ∷ 2 ∷ 3 ∷ 4 ∷ []) nearly_full-IsOpen
      (
        length-replicate {A = ℕ} 188 1,
        (length-replicate {A = ℕ} 188 2, (length-replicate {A = ℕ} 188 3, tt)),
      )
      (small_header-IsRtp, small_header-number)
