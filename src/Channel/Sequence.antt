-- ===== src/Channel/Sequence.antt =====
-- The numbers and the clock in the RTP headers of a channel (src/rtp.c).
use mu_mu_dvb.Prelude.{ap, ◌∙◌, u8, ◌+◌, suc, ◌^◌, ◌++◌, ◌<◌, length, ◌*◌, ◌%◌, ◌≡◌, ◌/◌, u32}
use mu_mu_dvb.Prelude.{refl, ℕ, List, [], ◌∷◌, arith}
use mu_mu_dvb.Crc.Append.{be32}
use mu_mu_dvb.Channel.Rtp.{rtp_update_sequence_number, rtp_timestamp, RtpChannel}

-- 90 kHz are nine ticks in a hundred microseconds.
abbrev pub clock : ℕ → ℕ
clock time = u32 (9 * time / 100)

-- The header of RFC 1889 for a transport stream.
abbrev pub rtp_header : ℕ → ℕ → List ℕ → List ℕ
rtp_header number time source =
    128 ∷ 33 ∷ (number / 256) ∷ (number % 256) ∷ (be32 (clock time) ++ source)

-- A channel with such a header, whatever its number and time, and four bytes of source.
pub record IsRtp (c : RtpChannel) (source : List ℕ) : Type 0 where
  pub number : ℕ
  pub time : ℕ
  pub header : c.buf_with_rtp_header ≡ rtp_header number time source
  pub four : length source ≡ 4
  pub small : c.rtp_packet_num < 2 ^ 16

-- One header after the other.
abbrev pub updates : RtpChannel → List ℕ → RtpChannel
updates c [] = c
updates c (t ∷ ts) = updates (rtp_update_sequence_number c t) ts

rtp_timestamp_lem : (time : ℕ) → rtp_timestamp time ≡ clock time
unfolding rtp_timestamp
rtp_timestamp_lem time = omega arith

pub update_header :
    (c : RtpChannel) (source : List ℕ) (time : ℕ)
    → IsRtp c source
    → (rtp_update_sequence_number c time).buf_with_rtp_header
      ≡ rtp_header c.rtp_packet_num time source
unfolding rtp_update_sequence_number
update_header c [] time r = absurd (omega (arith, r.four))
update_header c (s ∷ source) time r =
    let n = c.rtp_packet_num in
    let ticks = clock time in
    let high : u8 (n / 2 ^ 8) ≡ n / 256 = omega (arith, r.small) in
    let top : u8 (ticks / 2 ^ 24) ≡ ticks / 2 ^ 24 = omega arith in
    rw (r.header, rtp_timestamp_lem time, high, top) refl

pub update-IsRtp :
    (c : RtpChannel) (source : List ℕ) (time : ℕ)
    → IsRtp c source
    → IsRtp (rtp_update_sequence_number c time) source
unfolding rtp_update_sequence_number
update-IsRtp c source time r = record {
  number = c.rtp_packet_num;
  time = time;
  header = update_header c source time r;
  four = r.four;
  small = next_small;
}
  where
    next_small : (rtp_update_sequence_number c time).rtp_packet_num < 2 ^ 16
    next_small = omega arith

-- From a channel with an RTP header, after any number of updates at any times, the next one makes
-- the header of RFC 1889 whose sequence number counts the updates modulo 2^16, whose clock is nine
-- ticks in a hundred microseconds, modulo 2^32, and whose source is as it was.
pub updates_lem :
    (ts : List ℕ) (c : RtpChannel) (source : List ℕ) (time : ℕ)
    → IsRtp c source
    → (rtp_update_sequence_number (updates c ts) time).buf_with_rtp_header
      ≡ rtp_header ((c.rtp_packet_num + length ts) % 2 ^ 16) time source
unfolding rtp_update_sequence_number
updates_lem [] c source time r =
    let same : (c.rtp_packet_num + 0) % 2 ^ 16 ≡ c.rtp_packet_num = omega (arith, r.small) in
    rw same (update_header c source time r)
updates_lem (t ∷ ts) c source time r =
    let next = rtp_update_sequence_number c t in
    let same : (next.rtp_packet_num + length ts) % 2 ^ 16
        ≡ (c.rtp_packet_num + suc (length ts)) % 2 ^ 16 =
      omega arith in
    updates_lem ts next source time (update-IsRtp c source t r)
    ∙ ap (λ (n : ℕ). rtp_header n time source) same
