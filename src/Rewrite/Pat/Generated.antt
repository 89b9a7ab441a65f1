-- ===== src/Rewrite/Pat/Generated.antt =====
-- The packet that `pat_channel_rewrite` (src/rewrite_pat.c) makes.
use mu_mu_dvb.Rewrite.Pat.Programs.{max_programs, wanted}
use mu_mu_dvb.Prelude.{get_or-take, length-append, get_or-append, u8, ◌%◌, ◌/◌, length-take, ◌++◌}
use mu_mu_dvb.Prelude.{ap, ◌∙◌, take, ◌≤◌, ◌<◌, ◌≡◌, length, ℕ, List, [], ◌∷◌, arith, some, none}
use mu_mu_dvb.Ts.Store.{concat}
use mu_mu_dvb.Rewrite.Pat.Kept.{pat_buf_dest_lem, pat_buf_dest-size}
use mu_mu_dvb.Rewrite.Delivered.{received-finish, IsTable}
use mu_mu_dvb.Rewrite.Changes.{length-set_applicable, set_start-IsTable, length-set_start}
use mu_mu_dvb.Rewrite.Closed.{section}
use mu_mu_dvb.Ts.Run.{received}
use mu_mu_dvb.Rewrite.Pat.{ts_header_len, set_applicable, set_start, TsPacket}
use mu_mu_dvb.Rewrite.Pat.{pat_channel_rewrite, pat_buf_dest, ts_packet_size, PatChannel}
use mu_mu_dvb.Rewrite.Pat.{PatRewrite}
use mu_mu_dvb.Ts.Valid.{IsValid}
use mu_mu_dvb.Ts.Packet.{max_ts_size}
use mu_mu_dvb.Crc.Calc.{byte_at}
use mu_mu_dvb.Ts.Header.{payload_unit_start_indicator, adaptation_field_control}

-- The header of the packet stands at the start of what is written.
byte_at-pat_buf_dest :
    (channel : PatChannel) (buf data_full : List ℕ) (i : ℕ)
    → length buf ≡ ts_packet_size
    → length data_full ≡ max_ts_size
    → i < 5
    → byte_at (pat_buf_dest channel buf data_full) i ≡ byte_at buf i
byte_at-pat_buf_dest channel buf data_full i size full h =
    let front = take ts_header_len buf in
    let head = front ++ take 8 data_full in
    let n : length front ≡ 5 = omega (arith, length-take ts_header_len buf) in
    ap (λ (b : List ℕ). byte_at b i) (pat_buf_dest_lem channel buf data_full size full)
    ∙ ap u8 (
        get_or-append head (concat (take max_programs (wanted channel data_full))) i 0
          (omega (arith, length-append front (take 8 data_full), n))
        ∙ get_or-append front (take 8 data_full) i 0 (omega (arith, n))
        ∙ get_or-take ts_header_len i buf 0 h)

module _ (rewrite_vars : PatRewrite) (channel : PatChannel) (buf : List ℕ)
    (size : length buf ≡ ts_packet_size)
    (full : length rewrite_vars.full_pat.data_full ≡ max_ts_size) where
  -- The bytes from which the packet is finished.
  abbrev pub pat_source : List ℕ
  pat_source =
      pat_buf_dest channel (set_start buf) (set_applicable rewrite_vars.full_pat.data_full 0)

  pub pat_source-size : (13 ≤ length pat_source) × (length pat_source ≤ 181)
  pat_source-size =
      pat_buf_dest-size channel (set_start buf) (set_applicable rewrite_vars.full_pat.data_full 0)
        (length-set_start buf ∙ size)
        (length-set_applicable rewrite_vars.full_pat.data_full 0 ∙ full)

  byte_at-pat_source : (i : ℕ) → i < 5 → byte_at pat_source i ≡ byte_at (set_start buf) i
  byte_at-pat_source i h =
      byte_at-pat_buf_dest channel (set_start buf)
        (set_applicable rewrite_vars.full_pat.data_full 0) i (length-set_start buf ∙ size)
        (length-set_applicable rewrite_vars.full_pat.data_full 0 ∙ full) h

  pat_source-IsTable : adaptation_field_control buf ≡ 1 → IsTable pat_source
  unfolding adaptation_field_control payload_unit_start_indicator
  pat_source-IsTable payload =
      let started = set_start-IsTable buf (omega (arith, size)) payload in
      record {
        starts = ap (λ (b : ℕ). b / 64 % 2) (byte_at-pat_source 1 (omega arith)) ∙ started.starts;
        payload_only =
            ap (λ (b : ℕ). b / 16 % 4) (byte_at-pat_source 3 (omega arith)) ∙ started.payload_only;
        no_pointer = byte_at-pat_source 4 (omega arith) ∙ started.no_pointer;
      }

  -- The PAT that is made for a channel out of any full PAT and any packet with a payload and no
  -- adaptation field is read back: given to `get_ts_packet` in a valid state with no waiting section,
  -- it is reported by the next call as the section that was written.
  pub pat_channel_rewrite-received :
      (pkt : TsPacket)
      → adaptation_field_control buf ≡ 1
      → IsValid pkt []
      → received
          (some (pat_channel_rewrite rewrite_vars channel buf).1.0.generated_pat ∷ none ∷ [])
          pkt
        ≡ section pat_source ∷ []
  unfolding pat_channel_rewrite
  pat_channel_rewrite-received pkt payload v =
      received-finish pat_source (omega (arith, pat_source-size)) (omega (arith, pat_source-size))
        (pat_source-IsTable payload) pkt v
