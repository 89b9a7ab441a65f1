-- ===== src/Rewrite/Pmt/Generated.antt =====
-- The packet that `pmt_channel_rewrite` (src/rewrite_pmt.c) makes.
use mu_mu_dvb.Prelude.{◌%◌, ◌/◌, ◌-◌, get_or-take, ◌+◌, u8, ◌∙◌, length-append, ap, length-take}
use mu_mu_dvb.Prelude.{◌≤◌, ◌<◌, take, ◌*◌, ◌≡◌, length, ℕ, List, [], ◌∷◌, refl, arith, true}
use mu_mu_dvb.Prelude.{some, none}
use mu_mu_dvb.Rewrite.Delivered.{received-finish, IsTable}
use mu_mu_dvb.Rewrite.Changes.{byte_at-set_applicable, length-set_start, set_start-IsTable}
use mu_mu_dvb.Rewrite.Changes.{length-set_applicable}
use mu_mu_dvb.Rewrite.Pmt.Streams.{copy_streams-IsCopied, byte_at-Extends, IsCopied, IsDistinct}
use mu_mu_dvb.Rewrite.Closed.{section}
use mu_mu_dvb.Ts.Run.{received}
use mu_mu_dvb.Ts.Valid.{IsValid}
use mu_mu_dvb.Ts.Packet.{TsPacket}
use mu_mu_dvb.Rewrite.Pmt.{word12, byte_at, set_start, pmt_channel_rewrite, pmt_buf_dest}
use mu_mu_dvb.Rewrite.Pmt.{set_applicable, ts_packet_size, PmtChannel}
use mu_mu_dvb.Ts.Header.{payload_unit_start_indicator, adaptation_field_control}

module _ (channel : PmtChannel) (full : length channel.original_pmt ≡ 10 * ts_packet_size)
    (distinct : IsDistinct channel.pids) where
  -- The bytes from which the packet is finished.
  abbrev pub pmt_source : List ℕ
  pmt_source = pmt_buf_dest channel.pids (set_applicable (set_start channel.original_pmt) 5)

  abbrev pmt : List ℕ
  pmt = set_applicable (set_start channel.original_pmt) 5

  length-pmt : length pmt ≡ 10 * ts_packet_size
  length-pmt =
      length-set_applicable (set_start channel.original_pmt) 5
      ∙ length-set_start channel.original_pmt
      ∙ full

  length-head : length (take 17 pmt) ≡ 17
  length-head = omega (arith, length-take 17 pmt, length-pmt)

  pmt_source-IsCopied : IsCopied (take 17 pmt) pmt_source
  unfolding pmt_buf_dest
  pmt_source-IsCopied =
      let es_len = word12 pmt 6 + 3 - 12 - 4 in
      copy_streams-IsCopied channel.pids distinct es_len es_len 0 pmt (take 17 pmt)
        (omega (arith, length-head))

  length-pmt_source : (17 ≤ length pmt_source) × (length pmt_source ≤ 183)
  length-pmt_source = let c = pmt_source-IsCopied in (longer, c.fits)
    where
      longer : 17 ≤ length pmt_source
      longer = omega (
        arith,
        length-head,
        ap length pmt_source-IsCopied.extends.whole,
        length-append (take 17 pmt) pmt_source-IsCopied.extends.more,
      )

  byte_at-pmt_source :
      (i : ℕ) → i < 5 → byte_at pmt_source i ≡ byte_at (set_start channel.original_pmt) i
  byte_at-pmt_source i h =
      byte_at-Extends (take 17 pmt) pmt_source i pmt_source-IsCopied.extends
        (omega (arith, length-head))
      ∙ ap u8 (get_or-take 17 i pmt 0 (omega arith))
      ∙ byte_at-set_applicable (set_start channel.original_pmt) 5 i (omega arith)

  pmt_source-IsTable : adaptation_field_control channel.original_pmt ≡ 1 → IsTable pmt_source
  unfolding adaptation_field_control payload_unit_start_indicator
  pmt_source-IsTable payload =
      let started = set_start-IsTable channel.original_pmt (omega (arith, full)) payload in
      record {
        starts = ap (λ (b : ℕ). b / 64 % 2) (byte_at-pmt_source 1 (omega arith)) ∙ started.starts;
        payload_only =
            ap (λ (b : ℕ). b / 16 % 4) (byte_at-pmt_source 3 (omega arith)) ∙ started.payload_only;
        no_pointer = byte_at-pmt_source 4 (omega arith) ∙ started.no_pointer;
      }

  -- A PMT that was gathered whole, in packets with a payload and no adaptation field, is rewritten
  -- for a channel no PID of which is listed twice, and the result is read back: given to
  -- `get_ts_packet` in a valid state with no waiting section, it is reported by the next call as the
  -- section that was written.
  pub pmt_channel_rewrite-received :
      (pkt : TsPacket)
      → byte_at channel.original_pmt 5 ≡ 0x02
      → adaptation_field_control channel.original_pmt ≡ 1
      → IsValid pkt []
      → let (channel', done) = pmt_channel_rewrite channel in
        (done ≡ true)
        × (received (some channel'.generated_pmt ∷ none ∷ []) pkt ≡ section pmt_source ∷ [])
  unfolding pmt_channel_rewrite
  pmt_channel_rewrite-received pkt table payload v = rw table (
    refl,
    received-finish pmt_source (omega (arith, length-pmt_source)) (omega (arith, length-pmt_source))
        (pmt_source-IsTable payload) pkt v,
  )
