-- ===== src/Rewrite/Pmt/Stale.antt =====
-- What `pmt_rewrite_new_channel_packet` (src/rewrite_pmt.c) sends for the packet that makes it rewrite.
use mu_mu_dvb.Rewrite.Pmt.{NeedUpdate, first_part, pmt_rewrite_new_channel_packet}
use mu_mu_dvb.Rewrite.Pmt.{pmt_need_update, word12, part_num, version_number, ts_packet_size}
use mu_mu_dvb.Rewrite.Pmt.{update_now, byte_at, pmt_channel_rewrite, PmtChannel, answer_update}
use mu_mu_dvb.Prelude.{take-memcpy, get_or-take, sym, u8, ◌∙◌, take_all, ap, take, memcpy, ◌+◌}
use mu_mu_dvb.Prelude.{◌==◌, ◌&&◌, ◌*◌, length, ◌≡◌, ℕ, List, refl, arith, true, false}

-- A PMT that is to be rewritten now.
answer_now :
    (pmt_ts_packet : List ℕ) (channel : PmtChannel)
    → byte_at channel.original_pmt 5 ≡ 0x02
    → let (channel', (sent, result)) = answer_update update_now pmt_ts_packet channel in
      (result ≡ true) × (sent ≡ pmt_ts_packet) × (channel' ≡ (pmt_channel_rewrite channel).0)
unfolding answer_update pmt_channel_rewrite
answer_now pmt_ts_packet channel table = rw table (refl, refl, refl)

answer_asked :
    (beyond p pmt_ts_packet : List ℕ) (channel asked : PmtChannel) (need : NeedUpdate)
    → channel.ready ≡ true
    → pmt_need_update beyond p channel ≡ (asked, need)
    → pmt_rewrite_new_channel_packet beyond p pmt_ts_packet channel
      ≡ answer_update need pmt_ts_packet asked
unfolding pmt_rewrite_new_channel_packet
answer_asked beyond p pmt_ts_packet channel asked need ready e = rw (e, ready) refl

module _ (beyond p pmt_ts_packet : List ℕ) (channel : PmtChannel) (ready : channel.ready ≡ true)
    (full : length channel.original_pmt ≡ 10 * ts_packet_size) (size : length p ≡ ts_packet_size)
    (table : byte_at p 5 ≡ 0x02)
    (stale : (channel.original_pmt_ready && version_number p 5 == channel.generated_pmt_version)
      ≡ false)
    (one : part_num (word12 p 6 + 3) ≡ 0) where
  -- The channel with the packet gathered.
  abbrev pub gathered : PmtChannel
  gathered = record channel {
    pmt_part_num = part_num (word12 p 6 + 3);
    pmt_part_count = 0;
    original_pmt = memcpy channel.original_pmt 0 (take ts_packet_size p);
    original_pmt_ready = true;
  }

  first_part_one : first_part p channel ≡ (gathered, update_now)
  unfolding first_part
  first_part_one =
      let none_left : (part_num (word12 p 6 + 3) == 0) ≡ true = ground (arith, one) in
      rw none_left refl

  gathered_now : pmt_need_update beyond p channel ≡ (gathered, update_now)
  unfolding pmt_need_update
  gathered_now = rw (table, stale) first_part_one

  gathered_table : byte_at gathered.original_pmt 5 ≡ 0x02
  gathered_table = first_byte
    where
      first_byte : byte_at (memcpy channel.original_pmt 0 (take ts_packet_size p)) 5 ≡ 0x02
      first_byte =
          ap (λ (b : List ℕ). byte_at (memcpy channel.original_pmt 0 b) 5)
            (take_all ts_packet_size p (omega (arith, size)))
          ∙ ap u8
              (sym (get_or-take ts_packet_size 5 (memcpy channel.original_pmt 0 p) 0 (omega arith)))
          ∙ ap (λ (b : List ℕ). byte_at b 5)
              (take-memcpy ts_packet_size channel.original_pmt 0 p (omega (arith, size))
                (omega (arith, full)))
          ∙ table

  -- Where a channel that is ready gets a PMT of one packet that it has to rewrite, the packet is
  -- rewritten and the function returns 1, but the buffer that the caller sends then is as it was
  -- before the call.
  pub pmt_packet_stale :
      let (channel', (sent, result)) =
        pmt_rewrite_new_channel_packet beyond p pmt_ts_packet channel in
      (result ≡ true) × (sent ≡ pmt_ts_packet) × (channel' ≡ (pmt_channel_rewrite gathered).0)
  pmt_packet_stale =
      rw (answer_asked beyond p pmt_ts_packet channel gathered update_now ready gathered_now)
        (answer_now pmt_ts_packet gathered gathered_table)
