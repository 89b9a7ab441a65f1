-- ===== src/Rewrite/Sdt/Found.antt =====
-- The service that `sdt_channel_rewrite` (src/rewrite_sdt.c) finds and writes.
use mu_mu_dvb.Prelude.{length-read_bytes, read_bytes, subst, get_or-set, length-set, ap₂}
use mu_mu_dvb.Prelude.{get_or-append, ◌^◌, ◌*◌, ◌==◌, u8, length-append, ltb, ap, ◌/◌, ◌+◌, ◌∙◌}
use mu_mu_dvb.Prelude.{Bool-cases, bit_and, ◌%◌, ◌++◌, ◌≤◌, Option, set, length, ◌≡◌, ◌<◌, ℕ}
use mu_mu_dvb.Prelude.{zero, suc, List, [], arith, inl, inr, none, some, true}
use mu_mu_dvb.Rewrite.Sdt.{sdt_descr_len, copy_descriptors, sdt_len, ts_header_len, word16}
use mu_mu_dvb.Rewrite.Sdt.{ts_packet_size, word12, SdtRewrite, is_nonzero, Search, byte_at}
use mu_mu_dvb.Rewrite.Sdt.{keep_service, OptionStatus, service_header, find_service, found}
use mu_mu_dvb.Ts.Header.{hilo}

-- A service as it is written: it fits in a packet behind the headers and before the checksum, the
-- length of its descriptors stands in it, and it has both EIT flags where the option is not 0.
pub record IsService (sdt_force_eit : OptionStatus) (s : List ℕ) : Type 0 where
  pub large : 5 ≤ length s
  pub small : length s ≤ 167
  pub own_length : word12 s 3 + 5 ≡ length s
  pub eit_flags : is_nonzero sdt_force_eit ≡ true → byte_at s 2 % 4 ≡ 3

abbrev pub FindsService : OptionStatus → Search → Type 0
FindsService sdt_force_eit search = (s : List ℕ) → search ≡ found s → IsService sdt_force_eit s

length-service_header :
    (o : OptionStatus) (header : List ℕ) (n : ℕ)
    → length (service_header o header n) ≡ length header
unfolding service_header
length-service_header o header n =
    let low = set header 4 (bit_and n 0x00ff) in
    let high = set low 3 (byte_at low 3 / 16 * 16 + bit_and n 0xff00 / 2 ^ 8 % 16) in
    let size : length high ≡ length header =
      length-set low 3 (byte_at low 3 / 16 * 16 + bit_and n 0xff00 / 2 ^ 8 % 16)
      ∙ length-set header 4 (bit_and n 0x00ff) in
    elim (Bool-cases (is_nonzero o)) [
      | inl forced ↦ rw forced (length-set high 2 (byte_at high 2 / 4 * 4 + 3) ∙ size)
      | inr free ↦ rw free size
    ]

service_header-flags :
    (o : OptionStatus) (header : List ℕ) (n : ℕ)
    → length header ≡ 5
    → is_nonzero o ≡ true
    → byte_at (service_header o header n) 2 % 4 ≡ 3
unfolding service_header
service_header-flags o header n size forced =
    let low = set header 4 (bit_and n 0x00ff) in
    let high = set low 3 (byte_at low 3 / 16 * 16 + bit_and n 0xff00 / 2 ^ 8 % 16) in
    let long : length high ≡ 5 =
      length-set low 3 (byte_at low 3 / 16 * 16 + bit_and n 0xff00 / 2 ^ 8 % 16)
      ∙ length-set header 4 (bit_and n 0x00ff)
      ∙ size in
    let flags : byte_at (set high 2 (byte_at high 2 / 4 * 4 + 3)) 2
        ≡ u8 (byte_at high 2 / 4 * 4 + 3) =
      ap u8 (get_or-set high 2 (byte_at high 2 / 4 * 4 + 3) 0 (omega (arith, long))) in
    rw forced (omega (arith, flags))

-- The bytes of the header stay in front.
byte_at-front : (x y : List ℕ) (i : ℕ) → i < length x → byte_at (x ++ y) i ≡ byte_at x i
byte_at-front x y i h = ap u8 (get_or-append x y i 0 h)

found_inj : {x y : List ℕ} → found x ≡ found y → x ≡ y
found_inj e = ground (arith, e)

kept-IsService :
    (o : OptionStatus) (header copied : List ℕ)
    → length header ≡ 5
    → length copied ≤ 162
    → word12 (service_header o header (length copied)) 3 ≡ length copied
    → IsService o (service_header o header (length copied) ++ copied)
kept-IsService o header copied size small field =
    let h = service_header o header (length copied) in
    let n : length h ≡ 5 = length-service_header o header (length copied) ∙ size in
    record {
      large = omega (arith, length-append h copied, n);
      small = omega (arith, length-append h copied, n);
      own_length = omega (
        arith,
        ap₂ (λ (a b : ℕ). hilo (a % 16) b) (byte_at-front h copied 3 (omega (arith, n)))
            (byte_at-front h copied 4 (omega (arith, n))),
        field,
        length-append h copied,
        n,
      );
      eit_flags = λ forced.
          ap (λ (b : ℕ). b % 4) (byte_at-front h copied 2 (omega (arith, n)))
          ∙ service_header-flags o header (length copied) size forced;
    }

keep_service-FindsService :
    (o : OptionStatus) (header : List ℕ) (copied : Option (List ℕ)) (rest : Search)
    → length header ≡ 5
    → FindsService o rest
    → FindsService o (keep_service o header copied rest)
unfolding keep_service
keep_service-FindsService o header none rest size f s e = absurd (ground (arith, e))
keep_service-FindsService o header (some copied) rest size f s e =
    let n = length copied in
    elim (Bool-cases (ltb ts_packet_size (ts_header_len + sdt_len + sdt_descr_len + n + 4 + 1))) [
      | inl too_big ↦ f s (rw too_big at e)
      | inr fits ↦ elim (Bool-cases (word12 (service_header o header n) 3 == n)) [
        | inl right ↦
            subst (IsService o) (found_inj (rw (fits, right) at e))
              (kept-IsService o header copied size (ground (arith, fits)) (ground (arith, right)))
        | inr wrong ↦ absurd (ground (arith, rw (fits, wrong) at e))
      ]
    ]

-- Whatever the SDT holds, a service that is found for a channel is written so that it fits in a packet
-- behind the headers and before the checksum, has the length of its descriptors in its header, and has
-- both EIT flags set unless `sdt_force_eit` is undefined: also where the option is off.
pub find_service-IsService :
    (fuel : ℕ) (vars : SdtRewrite) (service_id : ℕ) (data_full : List ℕ) (len pos : ℕ) (s : List ℕ)
    → find_service fuel vars service_id data_full len pos ≡ found s
    → IsService vars.sdt_force_eit s
unfolding find_service
find_service-IsService zero vars service_id data_full len pos s e = absurd (ground (arith, e))
find_service-IsService (suc fuel) vars service_id data_full len pos s e =
    let size = word12 data_full (pos + 3) in
    let again = find_service-IsService fuel vars service_id data_full len (pos + 5 + size) in
    elim (Bool-cases (ltb (pos + 5) len)) [
      | inr past ↦ absurd (ground (arith, rw past at e))
      | inl within ↦ elim (Bool-cases (service_id == word16 data_full pos)) [
        | inr other ↦ again s (rw (within, other) at e)
        | inl own ↦
            keep_service-FindsService vars.sdt_force_eit (read_bytes 5 data_full pos)
              (copy_descriptors (size + 1) data_full (pos + 5) size 0 [])
              (find_service fuel vars service_id data_full len (pos + 5 + size))
              (length-read_bytes 5 data_full pos) again s (rw (within, own) at e)
      ]
    ]
