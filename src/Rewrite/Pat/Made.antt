-- ===== src/Rewrite/Pat/Made.antt =====
-- For which table and channel a packet was made by `pat_channel_rewrite` (src/rewrite_pat.c).
use mu_mu_dvb.Prelude.{drop, ◌||◌, get_or-set, get_or-set_below, ◌&&◌, u8, ◌==◌, not, set, ◌*◌}
use mu_mu_dvb.Prelude.{if◌then◌else◌, ap₂, ◌<◌, ◌/◌, ◌-◌, sym, ap, ◌+◌, ◌++◌, ◌∙◌, take, ◌≡◌}
use mu_mu_dvb.Prelude.{length, ℕ, zero, suc, List, [], refl, arith}
use mu_mu_dvb.Rewrite.Pat.{word13, word16, section_length, PatRewrite, PatChannel}
use mu_mu_dvb.Rewrite.Pat.{pat_channel_rewrite, set_start, ts_header_len, finish, version_number}
use mu_mu_dvb.Rewrite.Pat.{ts_packet_size}
use mu_mu_dvb.Rewrite.Pat.Programs.{matching, wanted, wanted_from, max_programs}
use mu_mu_dvb.Crc.Calc.{byte_at}
use mu_mu_dvb.Rewrite.Table.{set_applicable}
use mu_mu_dvb.Rewrite.Changes.{length-set_applicable, length-set_start}
use mu_mu_dvb.Ts.Store.{concat}
use mu_mu_dvb.Ts.Packet.{max_ts_size}
use mu_mu_dvb.Rewrite.Pat.Kept.{pat_buf_dest_lem}

-- The packet with the header of `buf`, the header of a table, and the programmes of the table that the
-- channel wants; the section begins at once, and the table is applicable and the only section.
abbrev pub packet_for : PatChannel → List ℕ → List ℕ → List ℕ
packet_for channel buf table =
    let applicable = set_applicable table 0 in
    finish (
      (take ts_header_len (set_start buf) ++ take 8 applicable)
      ++ concat (take max_programs (wanted channel applicable)))

-- The packet was made for the channel out of a table with the version `v`.
pub record IsMade (channel : PatChannel) (v : ℕ) (p : List ℕ) : Type 0 where
  pub buf : List ℕ
  pub table : List ℕ
  pub whole : length buf ≡ ts_packet_size
  pub size : length table ≡ max_ts_size
  pub version : version_number table 0 ≡ v
  pub made : p ≡ packet_for channel buf table

wanted_from-same :
    (k : ℕ) (c c' : PatChannel) (bytes : List ℕ) (delta : ℕ)
    → c'.pids ≡ c.pids
    → c'.service_id ≡ c.service_id
    → wanted_from k c' bytes delta ≡ wanted_from k c bytes delta
wanted_from-same zero c c' bytes delta e f = refl
wanted_from-same (suc k) c c' bytes delta e f =
    let number = word16 bytes delta in
    ap₂ (λ (a b : List (List ℕ)). a ++ b)
      (ap₂
        (λ (pids : List ℕ) (service_id : ℕ).
          if not (number == 0) && (service_id == 0 || service_id == number)
          then matching pids (word13 bytes (delta + 2)) (take 4 (drop delta bytes))
          else [])
        e f)
      (wanted_from-same k c c' bytes (delta + 4) e f)

-- Only the service and the PIDs of the channel count.
pub IsMade-same :
    (c c' : PatChannel) (v : ℕ) (p : List ℕ)
    → c'.pids ≡ c.pids
    → c'.service_id ≡ c.service_id
    → IsMade c v p
    → IsMade c' v p
IsMade-same c c' v p e f m =
    let applicable = set_applicable m.table 0 in
    record {
      buf = m.buf;
      table = m.table;
      whole = m.whole;
      size = m.size;
      version = m.version;
      made =
          m.made
          ∙ ap
              (λ (w : List (List ℕ)). finish (
                (take ts_header_len (set_start m.buf) ++ take 8 applicable)
                ++ concat (take max_programs w)))
              (sym (wanted_from-same ((section_length applicable - 9) / 4) c c' applicable 8 e f));
    }

pub rewritten-packet_for :
    (vars : PatRewrite) (channel : PatChannel) (buf : List ℕ)
    → length buf ≡ ts_packet_size
    → length vars.full_pat.data_full ≡ max_ts_size
    → (pat_channel_rewrite vars channel buf).1.0.generated_pat
      ≡ packet_for channel buf vars.full_pat.data_full
unfolding pat_channel_rewrite
rewritten-packet_for vars channel buf size full = ap finish (
    pat_buf_dest_lem channel (set_start buf) (set_applicable vars.full_pat.data_full 0)
      (length-set_start buf ∙ size) (length-set_applicable vars.full_pat.data_full 0 ∙ full))

pub version_number-set_applicable :
    (table : List ℕ)
    → 5 < length table
    → version_number (set_applicable table 0) 0 ≡ version_number table 0
unfolding set_applicable
version_number-set_applicable table h =
    let flag = byte_at table (0 + 5) / 2 * 2 + 1 in
    let first = set table (0 + 5) flag in
    let kept : byte_at (set (set first (0 + 6) 0) (0 + 7) 0) (0 + 5) ≡ u8 flag = ap u8 (
      get_or-set_below (set first (0 + 6) 0) (0 + 5) (0 + 7) 0 0 (omega arith)
      ∙ get_or-set_below first (0 + 5) (0 + 6) 0 0 (omega arith)
      ∙ get_or-set table (0 + 5) flag 0 (omega (arith, h))) in
    omega (arith, kept)
