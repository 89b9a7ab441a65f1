-- ===== src/Examples/PmtRuns.antt =====
-- The rewriting of the PMT at small inputs.
use mu_mu_dvb.Rewrite.Pmt.Parts.{Part, gather_lem, copied_parts, gather}
use mu_mu_dvb.Prelude.{drop, ◌+◌, ◌*◌, ℕ, List, ◌++◌, replicate, length-replicate, [], ◌∷◌, true}
use mu_mu_dvb.Prelude.{false, refl, none, some, arith, ◌≡◌, length, take}
use mu_mu_dvb.Ts.Service.{check_pmt_service_id}
use mu_mu_dvb.Rewrite.Pmt.Generated.{pmt_channel_rewrite-received, pmt_source}
use mu_mu_dvb.Rewrite.Closed.{section}
use mu_mu_dvb.Ts.Packet.{cleared_packet}
use mu_mu_dvb.Rewrite.Pmt.Stale.{pmt_packet_stale, gathered}
use mu_mu_dvb.Ts.Run.{received}
use mu_mu_dvb.Channel.Buffer.{ts_packet_size}
use mu_mu_dvb.Rewrite.Table.{word12}
use mu_mu_dvb.Rewrite.Pmt.Streams.{IsDistinct}
use mu_mu_dvb.Rewrite.Pmt.{pmt_rewrite_new_channel_packet, pmt_channel_rewrite, PmtChannel}
use mu_mu_dvb.Rewrite.Pmt.{part_num}
use mu_mu_dvb.Examples.TsRuns.{cleared-IsValid}
use mu_mu_dvb.Ts.Header.{adaptation_field_control, hilo}

-- A PMT with one stream, in one packet.
abbrev pmt_packet : List ℕ
pmt_packet =
    (0x47 ∷ 0x41 ∷ 0x00 ∷ 0x10 ∷ 0x00 ∷ 0x02 ∷ 0xb0 ∷ 0x12 ∷ 0x00 ∷ 0x01 ∷ 0xc1 ∷ 0x00 ∷ 0x00 ∷ 0xe1
      ∷ 0x01 ∷ 0xf0 ∷ 0x00 ∷ 0x1b ∷ 0xe1 ∷ 0x01 ∷ 0xf0 ∷ 0x00 ∷ [])
    ++ replicate 166 0xff

abbrev pmt_channel : PmtChannel
pmt_channel = record {
  pids = 256 ∷ 257 ∷ [];
  ready = true;
  generated_pmt = replicate 188 0;
  pmt_part_num = 0;
  pmt_part_count = 0;
  original_pmt = pmt_packet ++ replicate 1692 0;
  original_pmt_ready = false;
  generated_pmt_version = 0;
  pmt_continuity_counter = 0;
}

original-size : length pmt_channel.original_pmt ≡ 10 * ts_packet_size
original-size = omega (arith, length-replicate {A = ℕ} 1692 0)

pids-IsDistinct : IsDistinct pmt_channel.pids
pids-IsDistinct p = ground arith

pmt_payload : adaptation_field_control pmt_channel.original_pmt ≡ 1
unfolding adaptation_field_control
pmt_payload = refl

pmt_channel_rewrite-received_example :
    let (channel', done) = pmt_channel_rewrite pmt_channel in
    (done ≡ true)
    × (received (some channel'.generated_pmt ∷ none ∷ []) cleared_packet
        ≡ section (pmt_source pmt_channel original-size pids-IsDistinct) ∷ [])
pmt_channel_rewrite-received_example =
    pmt_channel_rewrite-received pmt_channel original-size pids-IsDistinct cleared_packet refl
      pmt_payload cleared-IsValid

one_part : part_num (word12 pmt_packet 6 + 3) ≡ 0
unfolding part_num hilo
one_part = refl

pmt_packet_stale_example :
    let (channel', (sent, result)) =
      pmt_rewrite_new_channel_packet (1 ∷ 2 ∷ 3 ∷ 4 ∷ []) pmt_packet (7 ∷ []) pmt_channel in
    (result ≡ true)
    × (sent ≡ 7 ∷ [])
    × (channel'
        ≡ (pmt_channel_rewrite (
            gathered
              (1 ∷ 2 ∷ 3 ∷ 4 ∷ [])
              pmt_packet
              (7 ∷ [])
              pmt_channel
              refl
              original-size
              refl
              refl
              refl
              one_part)).0)
pmt_packet_stale_example =
    pmt_packet_stale (1 ∷ 2 ∷ 3 ∷ 4 ∷ []) pmt_packet (7 ∷ []) pmt_channel refl original-size refl
      refl refl one_part

-- The packets of a PMT of 387 bytes, of which the third one stands behind the second in memory.
abbrev first_of_three : List ℕ
first_of_three = (0x47 ∷ 0x41 ∷ 0x00 ∷ 0x10 ∷ 0x00 ∷ 0x02 ∷ 0xb1 ∷ 0x80 ∷ []) ++ replicate 180 0x11

abbrev second_of_three : List ℕ
second_of_three = (0x47 ∷ 0x01 ∷ 0x00 ∷ 0x11 ∷ []) ++ replicate 184 0x22

abbrev third_header : List ℕ
third_header = 0x47 ∷ 0x01 ∷ 0x00 ∷ 0x12 ∷ []

abbrev third_of_three : List ℕ
third_of_three = third_header ++ replicate 184 0x33

abbrev other_packets : List Part
other_packets = (second_of_three, third_header) ∷ (third_of_three, 1 ∷ 2 ∷ 3 ∷ 4 ∷ []) ∷ []

three_parts : part_num (word12 first_of_three 6 + 3) ≡ 2
unfolding part_num hilo
three_parts = refl

gather_example :
    let c = gather ((first_of_three, 0x47 ∷ 0x01 ∷ 0x00 ∷ 0x11 ∷ []) ∷ other_packets) pmt_channel in
    (c.original_pmt_ready ≡ true)
    × (take (ts_packet_size * 3) c.original_pmt ≡ first_of_three ++ copied_parts other_packets)
gather_example =
    gather_lem pmt_channel first_of_three (0x47 ∷ 0x01 ∷ 0x00 ∷ 0x11 ∷ []) second_of_three
      third_header ((third_of_three, 1 ∷ 2 ∷ 3 ∷ 4 ∷ []) ∷ []) original-size refl refl refl
      three_parts (omega arith) ((refl, refl), refl) (((refl, refl), refl), tt)

-- The PMT is that of the programme 1.
own_service : check_pmt_service_id (drop 5 pmt_packet) 1 ≡ true
unfolding check_pmt_service_id hilo
own_service = refl

other_service : check_pmt_service_id (drop 5 pmt_packet) 2 ≡ false
unfolding check_pmt_service_id hilo
other_service = refl

any_service : check_pmt_service_id (drop 5 pmt_packet) 0 ≡ true
unfolding check_pmt_service_id hilo
any_service = refl
