-- ===== src/Ts/FirstHalf.antt =====
-- The first half of `add_ts_packet_data` (src/ts.c): each of its branches leaves the state ready for
-- the second half, or valid where it returns.
use mu_mu_dvb.Prelude.{◌==◌, ◌&&◌, refl, sym, take-take, inr, length-take, inl, ◌∙◌, arith}
use mu_mu_dvb.Prelude.{length-memcpy, ltb→lt, ◌⊎◌, take-memcpy_inside, ltb, take, ◌+◌}
use mu_mu_dvb.Prelude.{if◌then◌else◌, ◌-◌, memcpy, false, ◌<◌, true, ◌≡◌, length, ◌≤◌, Bool, List}
use mu_mu_dvb.Prelude.{ℕ}
use mu_mu_dvb.Crc.Calc.{byte_at}
use mu_mu_dvb.Ts.Packet.{is_start_section, started, partial_header, StartFlag, ts_packet_size}
use mu_mu_dvb.Ts.Packet.{TsPacket}
use mu_mu_dvb.Ts.Store.{Holds-with_partial, Fits-with_partial, with_partial}
use mu_mu_dvb.Ts.Valid.{whole_length_head, IsValid}
use mu_mu_dvb.Ts.Keep.{IsReady}
use mu_mu_dvb.Ts.Add.{begin_section, going, returned, Progress}
use mu_mu_dvb.Ts.Header.{whole_length}

-- What the first half may come to, from a state that holds `q` and `data_left` bytes.
abbrev pub Good : List (List ℕ) → ℕ → Progress → Type 0
Good q data_left (returned p) = IsValid p q
Good q data_left (going p left copy_len) =
    IsReady p left q
    × (left + copy_len ≤ data_left)
    × (p.status_partial ≡ partial_header → left ≡ 0)
    × ((left ≡ 0) ⊎ (3 ≤ copy_len))

-- A branch of the code is a branch of the proof.
pub Good-if :
    (q : List (List ℕ)) (n : ℕ) (b : Bool) (x y : Progress)
    → (b ≡ true → Good q n x)
    → (b ≡ false → Good q n y)
    → Good q n (if b then x else y)
Good-if q n true x y hx hy = hx refl
Good-if q n false x y hx hy = hy refl

whole_length-memcpy :
    (n : ℕ) (dst buf : List ℕ)
    → 3 ≤ n
    → n ≤ length buf
    → n ≤ length dst
    → whole_length (memcpy dst 0 (take n buf)) ≡ whole_length buf
whole_length-memcpy n dst buf three hb hd = whole_length_head (memcpy dst 0 (take n buf)) buf (
    take-memcpy_inside 3 3 dst 0 (take n buf) (omega arith) (omega (arith, length-take n buf))
      (omega arith)
    ∙ take-take 3 n buf three)

module _ (buf : List ℕ) (pkt : TsPacket) (data_left : ℕ) (q : List (List ℕ)) (v : IsValid pkt q)
    (enough : data_left ≤ length buf) (short : data_left ≤ ts_packet_size) where
  -- The state after the header alone was started.
  begin_header-IsReady :
      (pid cc : ℕ)
      → data_left < 3
      → IsReady
          (with_partial pkt
            (memcpy pkt.data_partial 0 (take data_left buf))
            data_left
            0
            partial_header
            pid
            cc)
          0
          q
  begin_header-IsReady pid cc h = record {
    fits =
        Fits-with_partial pkt (memcpy pkt.data_partial 0 (take data_left buf)) data_left 0
          partial_header pid cc v.fits
          (length-memcpy pkt.data_partial 0 (take data_left buf) ∙ v.fits.data_partial_size)
          (omega arith);
    holds =
        Holds-with_partial pkt (memcpy pkt.data_partial 0 (take data_left buf)) data_left 0
          partial_header pid cc q v.holds;
    sound = v.sound;
    ready = h;
  }

  begin_started-IsReady :
      (n pid cc : ℕ)
      → 3 ≤ n
      → n ≤ data_left
      → n ≤ whole_length buf
      → (n < whole_length buf → data_left - n ≡ 0)
      → IsReady
          (with_partial pkt
            (memcpy pkt.data_partial 0 (take n buf))
            n
            (whole_length buf)
            started
            pid
            cc)
          (data_left - n)
          q
  begin_started-IsReady n pid cc three le fit rest =
      let bytes = memcpy pkt.data_partial 0 (take n buf) in
      record {
        fits =
            Fits-with_partial pkt bytes n (whole_length buf) started pid cc v.fits
              (length-memcpy pkt.data_partial 0 (take n buf) ∙ v.fits.data_partial_size)
              (omega arith);
        holds = Holds-with_partial pkt bytes n (whole_length buf) started pid cc q v.holds;
        sound = v.sound;
        ready = (
          three,
          fit,
          sym (
              whole_length-memcpy n pkt.data_partial buf three (omega arith)
                (omega (arith, v.fits))),
          rest,
        );
      }

  pub begin-Good :
      (flag : StartFlag) (pid cc : ℕ)
      → Good q data_left (begin_section buf pkt data_left flag pid cc)
  unfolding begin_section
  begin-Good flag pid cc' =
      let n = if ltb (whole_length buf) data_left then whole_length buf else data_left in
      let header =
        with_partial pkt (memcpy pkt.data_partial 0 (take data_left buf)) data_left 0 partial_header
          pid cc' in
      let begun =
        with_partial pkt (memcpy pkt.data_partial 0 (take n buf)) n (whole_length buf) started pid
          cc' in
      let later =
        Good-if q data_left (ltb data_left 3) (going header 0 0) (going begun (data_left - n) n)
          (λ h.
            (begin_header-IsReady pid cc' (ltb→lt data_left 3 h), omega arith, λ _. refl, inl refl))
          (λ h. (
            begin_started-IsReady n pid cc' (ground arith) (ground arith) (ground arith)
                (ground arith),
            ground arith,
            λ e. cc,
            inr (ground arith),
          )) in
      Good-if q data_left (is_start_section flag && (byte_at buf 0 == 0xff)) (returned pkt) _
        (λ _. v) (λ _. later)
