-- ===== src/Rewrite/Sdt/Generated.antt =====
-- The packet that `sdt_channel_rewrite` (src/rewrite_sdt.c) makes.
use mu_mu_dvb.Rewrite.Delivered.{received-finish, IsTable}
use mu_mu_dvb.Prelude.{get_or-take, ◌+◌, ◌∙◌, get_or-append, ◌%◌, u8, ◌/◌, ap, ◌==◌, take, ◌<◌}
use mu_mu_dvb.Prelude.{length-append, length-take, ◌++◌, ◌≡◌, length, ℕ, List, [], ◌∷◌, refl}
use mu_mu_dvb.Prelude.{arith, none, some, true, false}
use mu_mu_dvb.Rewrite.Sdt.Found.{find_service-IsService}
use mu_mu_dvb.Rewrite.Closed.{section}
use mu_mu_dvb.Ts.Run.{received}
use mu_mu_dvb.Rewrite.Changes.{length-set_start, set_start-IsTable, length-set_applicable}
use mu_mu_dvb.Ts.Valid.{IsValid}
use mu_mu_dvb.Ts.Packet.{max_ts_size}
use mu_mu_dvb.Rewrite.Sdt.{section_length, set_start, finish, find_service, ts_header_len}
use mu_mu_dvb.Rewrite.Sdt.{byte_at, answer_search, sdt_len, sdt_channel_rewrite, sdt_applicable}
use mu_mu_dvb.Rewrite.Sdt.{Search, TsPacket, ts_packet_size, SdtChannel, SdtRewrite, found}
use mu_mu_dvb.Ts.Header.{payload_unit_start_indicator, adaptation_field_control}

module _ (vars : SdtRewrite) (channel : SdtChannel) (buf : List ℕ)
    (size : length buf ≡ ts_packet_size) (full : length vars.full_sdt.data_full ≡ max_ts_size) where
  abbrev sdt : List ℕ
  sdt = (sdt_applicable vars).full_sdt.data_full

  abbrev front : List ℕ
  front = take ts_header_len (set_start buf)

  abbrev head : List ℕ
  head = front ++ take sdt_len sdt

  -- How the search for the service of the channel ends.
  abbrev pub searched : Search
  searched =
      find_service (section_length sdt) (sdt_applicable vars) channel.service_id sdt
        (section_length sdt) sdt_len

  length-front : length front ≡ 5
  length-front =
      omega (arith, length-take ts_header_len (set_start buf), length-set_start buf, size)

  length-head : length head ≡ 16
  length-head = omega (
    arith,
    length-append front (take sdt_len sdt),
    length-front,
    length-take sdt_len sdt,
    length-set_applicable vars.full_sdt.data_full 0,
    full,
  )

  -- The bytes from which the packet is finished.
  abbrev pub sdt_source : List ℕ → List ℕ
  sdt_source service = head ++ service

  byte_at-source :
      (service : List ℕ) (i : ℕ)
      → i < 5
      → byte_at (sdt_source service) i ≡ byte_at (set_start buf) i
  byte_at-source service i h = ap u8 (
      get_or-append head service i 0 (omega (arith, length-head))
      ∙ get_or-append front (take sdt_len sdt) i 0 (omega (arith, length-front))
      ∙ get_or-take ts_header_len i (set_start buf) 0 h)

  source-IsTable :
      (service : List ℕ) → adaptation_field_control buf ≡ 1 → IsTable (sdt_source service)
  unfolding adaptation_field_control payload_unit_start_indicator
  source-IsTable service payload =
      let started = set_start-IsTable buf (omega (arith, size)) payload in
      record {
        starts =
            ap (λ (b : ℕ). b / 64 % 2) (byte_at-source service 1 (omega arith)) ∙ started.starts;
        payload_only =
            ap (λ (b : ℕ). b / 16 % 4) (byte_at-source service 3 (omega arith))
            ∙ started.payload_only;
        no_pointer = byte_at-source service 4 (omega arith) ∙ started.no_pointer;
      }

  -- What the function does once the service is found.
  rewrite_found :
      (service : List ℕ)
      → (channel.service_id == 0) ≡ false
      → byte_at sdt 0 ≡ 0x42
      → searched ≡ found service
      → sdt_channel_rewrite vars channel buf
        ≡ some (
          sdt_applicable vars,
          (
            record channel {
              generated_sdt = finish (sdt_source service);
              sdt_rewrite_skip = false;
              generated_sdt_version = vars.sdt_version;
            },
            true,
          ),
        )
  unfolding sdt_channel_rewrite answer_search
  rewrite_found service own table e = rw (own, table, e) refl

  -- If the channel has a service ID, the table is an SDT and the search finds the service, then the
  -- rewriting works, the channel has the version of the SDT, and its packet is read back: for a
  -- packet with a payload and no adaptation field as the source of the header, given to
  -- `get_ts_packet` in a valid state with no waiting section, it is reported by the next call as the
  -- section that was written.
  pub sdt_channel_rewrite-received :
      (service : List ℕ) (pkt : TsPacket)
      → (channel.service_id == 0) ≡ false
      → byte_at sdt 0 ≡ 0x42
      → adaptation_field_control buf ≡ 1
      → searched ≡ found service
      → IsValid pkt []
      → (vars' : SdtRewrite) × (channel' : SdtChannel) × (sdt_channel_rewrite vars channel buf
          ≡ some (vars', (channel', true)))
        × (channel'.generated_sdt_version ≡ vars.sdt_version)
        × (received (some channel'.generated_sdt ∷ none ∷ []) pkt
            ≡ section (sdt_source service) ∷ [])
  sdt_channel_rewrite-received service pkt own table payload e v =
      let fits =
        find_service-IsService (section_length sdt) (sdt_applicable vars) channel.service_id sdt
          (section_length sdt) sdt_len service e in
      let n : length (sdt_source service) ≡ 16 + length service =
        length-append head service ∙ ap (λ (k : ℕ). k + length service) length-head in
      (
        sdt_applicable vars,
        record channel {
          generated_sdt = finish (sdt_source service);
          sdt_rewrite_skip = false;
          generated_sdt_version = vars.sdt_version;
        },
        rewrite_found service own table e,
        refl,
        received-finish (sdt_source service) (omega (arith, n)) (omega (arith, n, fits.small))
            (source-IsTable service payload) pkt v,
      )
