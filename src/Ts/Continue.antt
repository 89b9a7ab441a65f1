-- ===== src/Ts/Continue.antt =====
-- The continuing branch of `add_ts_packet_data` (src/ts.c) keeps the state ready.
use mu_mu_dvb.Ts.Packet.{empty, partial_header, started, valid, is_partial_header, is_started}
use mu_mu_dvb.Ts.Packet.{Status, max_ts_size, TsPacket}
use mu_mu_dvb.Ts.FirstHalf.{Good-if, Good}
use mu_mu_dvb.Prelude.{◌%◌, ◌==◌, leb, false, ltb, ◌||◌, if◌then◌else◌, take-memcpy, take-take}
use mu_mu_dvb.Prelude.{◌++◌, not, ap₂, inl, length-take, sym, take-memcpy_inside, ◌∙◌}
use mu_mu_dvb.Prelude.{length-memcpy, arith, subst, take-memcpy_before, ◌-◌, ◌+◌, ◌<◌, take}
use mu_mu_dvb.Prelude.{memcpy, ◌≡◌, length, ◌≤◌, All, ℕ, List, refl}
use mu_mu_dvb.Ts.Add.{returned, continue_section, append_len, complete_header, append_section}
use mu_mu_dvb.Ts.Add.{dropped}
use mu_mu_dvb.Ts.Store.{with_partial, Holds-with_partial, Fits-with_partial, Holds, Fits}
use mu_mu_dvb.Ts.Keep.{InReady}
use mu_mu_dvb.Ts.Valid.{InProgress, whole_length_head, IsSound, IsValid}
use mu_mu_dvb.Ts.Header.{whole_length}

module _ (buf : List ℕ) (data_left : ℕ) (q : List (List ℕ)) (all : All IsSound q)
    (enough : data_left ≤ length buf) where
  -- Bytes are appended to a section that was started and is not complete.
  append-Good :
      (p : TsPacket) (cc : ℕ)
      → Fits p
      → Holds p q
      → p.status_partial ≡ started
      → p.len_partial < p.expected_len_partial
      → 3 ≤ p.len_partial + append_len p data_left
      → whole_length (memcpy p.data_partial p.len_partial (take (append_len p data_left) buf))
        ≡ p.expected_len_partial
      → Good q data_left (append_section buf p data_left cc)
  unfolding append_section append_len
  append-Good p cc' f h st short three own =
      let n = append_len p data_left in
      let bytes = memcpy p.data_partial p.len_partial (take n buf) in
      (
        record {
          fits =
              Fits-with_partial p bytes (p.len_partial + n) p.expected_len_partial p.status_partial
                p.pid cc' f
                (length-memcpy p.data_partial p.len_partial (take n buf) ∙ f.data_partial_size)
                (ground arith);
          holds =
              Holds-with_partial p bytes (p.len_partial + n) p.expected_len_partial p.status_partial
                p.pid cc' q h;
          sound = all;
          ready =
              subst
                (λ s.
                  InReady s
                    (with_partial p bytes (p.len_partial + n) p.expected_len_partial
                      p.status_partial p.pid cc')
                    0)
                (sym st) (three, ground arith, sym own, λ _. refl);
        },
        ground arith,
        λ _. refl,
        inl refl,
      )

  -- The first three bytes are left alone behind them.
  append_started :
      (p : TsPacket) (n : ℕ)
      → 3 ≤ p.len_partial
      → whole_length (memcpy p.data_partial p.len_partial (take n buf))
        ≡ whole_length p.data_partial
  append_started p n h =
      whole_length_head (memcpy p.data_partial p.len_partial (take n buf)) p.data_partial
        (take-memcpy_before 3 p.data_partial p.len_partial (take n buf) h)

  -- The copy writes the bytes once more that made up the header.
  append_header :
      (p : TsPacket) (n : ℕ)
      → Fits p
      → p.len_partial < 3
      → 3 ≤ p.len_partial + n
      → n ≤ data_left
      → let d = (complete_header buf p).data_partial in
        whole_length (memcpy d p.len_partial (take n buf)) ≡ whole_length d
  unfolding complete_header
  append_header p n f h three le =
      let k = 3 - p.len_partial in
      let d = memcpy p.data_partial p.len_partial (take k buf) in
      let size : length d ≡ max_ts_size =
        length-memcpy p.data_partial p.len_partial (take k buf) ∙ f.data_partial_size in
      whole_length_head (memcpy d p.len_partial (take n buf)) d (
        take-memcpy_inside 3 k d p.len_partial (take n buf) (omega arith)
          (omega (arith, length-take n buf)) (omega arith)
        ∙ ap₂ ◌++◌
            (take-memcpy_before p.len_partial p.data_partial p.len_partial (take k buf)
              (omega arith))
            (take-take k n buf (omega arith))
        ∙ sym (
            take-memcpy 3 p.data_partial p.len_partial (take k buf)
              (omega (arith, length-take k buf)) (omega arith)))

  complete_header-Fits : (p : TsPacket) → Fits p → Fits (complete_header buf p)
  unfolding complete_header
  complete_header-Fits p f =
      let d = memcpy p.data_partial p.len_partial (take (3 - p.len_partial) buf) in
      Fits-with_partial p d p.len_partial (whole_length d) started p.pid p.cc f
        (length-memcpy p.data_partial p.len_partial (take (3 - p.len_partial) buf)
          ∙ f.data_partial_size)
        f.partial_in

  complete_header-Holds : (p : TsPacket) → Holds p q → Holds (complete_header buf p) q
  unfolding complete_header
  complete_header-Holds p h =
      let d = memcpy p.data_partial p.len_partial (take (3 - p.len_partial) buf) in
      Holds-with_partial p d p.len_partial (whole_length d) started p.pid p.cc q h

-- A status that is neither of the others but one of the two is STARTED.
status-started :
    (s : Status)
    → not (is_started s || is_partial_header s) ≡ false
    → is_partial_header s ≡ false
    → s ≡ started
status-started empty h e = absurd (cc)
status-started partial_header h e = absurd (cc)
status-started started h e = refl
status-started valid h e = absurd (cc)

module _ (buf : List ℕ) (pkt : TsPacket) (data_left : ℕ) (q : List (List ℕ)) (v : IsValid pkt q)
    (enough : data_left ≤ length buf) where
  dropped-IsValid : IsValid (dropped pkt) q
  dropped-IsValid = record {
    fits =
        Fits-with_partial pkt pkt.data_partial pkt.len_partial pkt.expected_len_partial empty
          pkt.pid pkt.cc v.fits v.fits.data_partial_size v.fits.partial_in;
    holds =
        Holds-with_partial pkt pkt.data_partial pkt.len_partial pkt.expected_len_partial empty
          pkt.pid pkt.cc q v.holds;
    sound = v.sound;
    progress = tt;
  }

  header_then_append :
      (cc : ℕ)
      → pkt.len_partial < 3
      → 3 - pkt.len_partial ≤ data_left
      → Good q data_left (append_section buf (complete_header buf pkt) data_left cc)
  unfolding complete_header append_len
  header_then_append cc' h le =
      append-Good buf data_left q v.sound enough (complete_header buf pkt) cc'
        (complete_header-Fits buf data_left q v.sound enough pkt v.fits)
        (complete_header-Holds buf data_left q v.sound enough pkt v.holds) refl (omega arith)
        (ground (arith, v.fits))
        (append_header buf data_left q v.sound enough pkt
          (append_len (complete_header buf pkt) data_left) v.fits h (ground (arith, v.fits))
          (ground arith))

  started_then_append :
      (cc : ℕ)
      → pkt.status_partial ≡ started
      → Good q data_left (append_section buf pkt data_left cc)
  started_then_append cc' st =
      let facts : InProgress started pkt = subst (λ s. InProgress s pkt) st v.progress in
      append-Good buf data_left q v.sound enough pkt cc' v.fits v.holds st facts.1
        (omega (arith, facts))
        (append_started buf data_left q v.sound enough pkt (append_len pkt data_left) facts.0
          ∙ sym facts.2)

  -- Whichever way the branch goes, the state is valid or ready.
  pub continue-Good : (pid cc : ℕ) → Good q data_left (continue_section buf pkt data_left pid cc)
  unfolding continue_section
  continue-Good pid cc' =
      let d = returned (dropped pkt) in
      let plain = append_section buf pkt data_left cc' in
      let whole = append_section buf (complete_header buf pkt) data_left cc' in
      let is_header = is_partial_header pkt.status_partial in
      let short = if ltb data_left (3 - pkt.len_partial) then d else whole in
      let header = if leb 3 pkt.len_partial then d else short in
      let other = if is_header then header else plain in
      let same_pid = if not (pkt.pid == pid) then d else other in
      let next_cc = if not ((pkt.cc + 1) % 16 == cc') then d else same_pid in
      let is_open = is_started pkt.status_partial || is_header in
      Good-if q data_left (not is_open) d _ (λ _. dropped-IsValid)
        (λ opened.
          Good-if q data_left (pkt.cc == cc') (returned pkt) next_cc (λ _. v)
            (λ _.
              Good-if q data_left (not ((pkt.cc + 1) % 16 == cc')) d same_pid (λ _. dropped-IsValid)
                (λ _.
                  Good-if q data_left (not (pkt.pid == pid)) d other (λ _. dropped-IsValid)
                    (λ _.
                      Good-if q data_left is_header header plain
                        (λ e.
                          Good-if q data_left (leb 3 pkt.len_partial) d short (λ _. dropped-IsValid)
                            (λ few.
                              Good-if q data_left (ltb data_left (3 - pkt.len_partial)) d whole
                                (λ _. dropped-IsValid)
                                (λ more. header_then_append cc' (ground arith) (ground arith))))
                        (λ e.
                          started_then_append cc' (status-started pkt.status_partial opened e))))))
