-- ===== src/Channel/Rtp.antt =====
-- The RTP header of a channel (src/rtp.c). A `char` cell is a number, read modulo 2^8.
use mu_mu_dvb.Prelude.{◌^◌, ◌+◌, ◌/◌, u8, ◌%◌, ◌*◌, u32, memcpy, ℕ, List, [], ◌∷◌}

-- The fields of `mumudvb_channel_t` that the header needs.
pub record RtpChannel : Type 0 where
  pub buf_with_rtp_header : List ℕ
  pub rtp_packet_num : ℕ

-- Version 2, payload type 33, and the source from four calls of `rand`.
unfoldable pub init_rtp_header : ℕ → ℕ → ℕ → ℕ → RtpChannel → RtpChannel
init_rtp_header r8 r9 r10 r11 channel = record channel {
  buf_with_rtp_header =
      memcpy channel.buf_with_rtp_header 0
        (128 ∷ 33 ∷ 0 ∷ 0 ∷ 0 ∷ 0 ∷ 0 ∷ 0 ∷ r8 % 256 ∷ r9 % 256 ∷ r10 % 256 ∷ r11 % 256 ∷ []);
}

-- The 90 kHz clock, from microseconds.
unfoldable pub rtp_timestamp : ℕ → ℕ
rtp_timestamp time = u32 (u32 (90000 * (time / 1000000)) + 9 * (time % 1000000) / 100)

unfoldable pub rtp_update_sequence_number : RtpChannel → ℕ → RtpChannel
unfolding rtp_timestamp
rtp_update_sequence_number channel time =
    let n = channel.rtp_packet_num in
    let timestamp = rtp_timestamp time in
    record {
      buf_with_rtp_header = memcpy channel.buf_with_rtp_header 2 (
          u8 (n / 2 ^ 8)
          ∷ u8 n
          ∷ u8 (timestamp / 2 ^ 24)
          ∷ u8 (timestamp / 2 ^ 16)
          ∷ u8 (timestamp / 2 ^ 8)
          ∷ u8 timestamp
          ∷ []);
      rtp_packet_num = (n + 1) % 2 ^ 16;
    }
