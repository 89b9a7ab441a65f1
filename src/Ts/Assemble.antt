-- ===== src/Ts/Assemble.antt =====
-- A section that arrives in pieces ends up in the store (`add_ts_packet_data` of src/ts.c): the
-- piece that starts it, pieces that continue it with the next continuity counters, and the piece
-- that ends it, behind which anything may stand.
use mu_mu_dvb.Prelude.{append_assoc, subst, true, sym, [], ◌∷◌, length-append, take_all, ap₂}
use mu_mu_dvb.Prelude.{length-memcpy, length-take, take-memcpy, ◌++◌, ap, ◌∙◌, ◌<◌, take, memcpy}
use mu_mu_dvb.Prelude.{◌≤◌, arith, ◌≢◌, length, ◌%◌, ◌≡◌, ◌+◌, List, ℕ, refl}
use mu_mu_dvb.Ts.Store.{move-push, take-length, concat, Holds-with_partial, Fits-with_partial}
use mu_mu_dvb.Ts.Store.{push, with_partial, partial, Holds, Fits}
use mu_mu_dvb.Ts.Keep.{checked_state, complete_good, complete_short}
use mu_mu_dvb.Ts.Full.{ts_move_part_to_full}
use mu_mu_dvb.Ts.Valid.{check-take, whole_length-take, IsSound}
use mu_mu_dvb.Ts.Section.{ts_check_raw_crc32}
use mu_mu_dvb.Ts.Header.{whole_length}
use mu_mu_dvb.Ts.Packet.{max_ts_size, TsPacket, started, valid, no_start, start_ts, start_section}
use mu_mu_dvb.Ts.Loop.{add_ts_packet_data-round}
use mu_mu_dvb.Ts.Add.{complete_section, going, add_ts_packet_data, append_len, append_section}
use mu_mu_dvb.Ts.Add.{first_half, continue_section, second_half}

-- The next continuity counter.
abbrev pub next_cc : ℕ → ℕ
next_cc cc = (cc + 1) % 16

-- Pieces of a section that was started, each in a packet of its own.
unfoldable pub feed : TsPacket → ℕ → ℕ → List (List ℕ) → TsPacket
feed pkt pid cc [] = pkt
feed pkt pid cc (c ∷ cs) =
    feed (add_ts_packet_data c pkt (length c) no_start pid (next_cc cc)) pid (next_cc cc) cs

-- The state holds `bytes`, the beginning of a section of `total` bytes, from the packets of `pid`
-- up to the counter `cc`.
pub record Gathers (p : TsPacket) (q : List (List ℕ)) (pid cc total : ℕ) (bytes : List ℕ)
    : Type 0 where
  pub fits : Fits p
  pub holds : Holds p q
  pub status : p.status_partial ≡ started
  pub same_pid : p.pid ≡ pid
  pub same_cc : p.cc ≡ cc
  pub gathered : partial p ≡ bytes
  pub len : p.len_partial ≡ length bytes
  pub expected : p.expected_len_partial ≡ total
  pub header : 3 ≤ length bytes
  pub short : length bytes < total
  pub small : total ≤ max_ts_size

-- The state with the piece appended.
abbrev appended : TsPacket → List ℕ → ℕ → TsPacket
appended p c cc =
    let n = append_len p (length c) in
    with_partial p (memcpy p.data_partial p.len_partial (take n c)) (p.len_partial + n)
      p.expected_len_partial p.status_partial p.pid cc

continue_open :
    (p : TsPacket) (c : List ℕ) (n pid cc : ℕ)
    → p.status_partial ≡ started
    → p.cc ≢ cc
    → next_cc p.cc ≡ cc
    → p.pid ≡ pid
    → continue_section c p n pid cc ≡ append_section c p n cc
unfolding continue_section
continue_open p c n pid cc' st ne next same_pid = ground arith

pub second_half_done :
    (again : List ℕ → TsPacket → ℕ → TsPacket) (c : List ℕ) (p : TsPacket) (k : ℕ)
    → p.status_partial ≡ started
    → second_half again c (going p 0 k) ≡ complete_section p
unfolding second_half
second_half_done again c p k st = ground arith

-- Such a packet appends its bytes, and then the section is looked at.
add_open :
    (p : TsPacket) (c : List ℕ) (pid cc : ℕ)
    → p.status_partial ≡ started
    → p.cc ≢ cc
    → next_cc p.cc ≡ cc
    → p.pid ≡ pid
    → add_ts_packet_data c p (length c) no_start pid cc ≡ complete_section (appended p c cc)
unfolding first_half append_section
add_open p c pid cc' st ne next same_pid =
    add_ts_packet_data-round c p (length c) no_start pid cc'
    ∙ ap (second_half (λ b p left. add_ts_packet_data b p left start_section pid cc') c)
        (continue_open p c (length c) pid cc' st ne next same_pid)
    ∙ second_half_done (λ b p left. add_ts_packet_data b p left start_section pid cc') c
        (appended p c cc') (append_len p (length c)) st

-- The bytes behind a piece that was appended.
appended-partial :
    (p : TsPacket) (c : List ℕ) (cc : ℕ)
    → Fits p
    → append_len p (length c) ≤ length c
    → p.len_partial + append_len p (length c) ≤ max_ts_size
    → partial (appended p c cc) ≡ partial p ++ take (append_len p (length c)) c
appended-partial p c cc' f le small =
    let n = append_len p (length c) in
    take-memcpy (p.len_partial + n) p.data_partial p.len_partial (take n c)
      (omega (arith, length-take n c)) (omega arith)

-- A piece that does not reach the end of the section is added to what was gathered.
pub feed_more :
    (p : TsPacket) (q : List (List ℕ)) (pid cc total : ℕ) (bytes c : List ℕ)
    → cc < 16
    → Gathers p q pid cc total bytes
    → length bytes + length c < total
    → Gathers
        (add_ts_packet_data c p (length c) no_start pid (next_cc cc))
        q
        pid
        (next_cc cc)
        total
        (bytes ++ c)
feed_more p q pid cc' total bytes c h g short =
    let n = append_len p (length c) in
    let whole : n ≡ length c = unfold append_len in ground (arith, g) in
    let d = memcpy p.data_partial p.len_partial (take n c) in
    let step =
      add_open p c pid (next_cc cc') g.status (omega (arith, g)) (ap next_cc g.same_cc) g.same_pid
      ∙ complete_short (appended p c (next_cc cc')) (omega (arith, g)) in
    rw step (record {
      fits =
          Fits-with_partial p d (p.len_partial + n) p.expected_len_partial p.status_partial p.pid
            (next_cc cc') g.fits
            (length-memcpy p.data_partial p.len_partial (take n c) ∙ g.fits.data_partial_size)
            (omega (arith, g));
      holds =
          Holds-with_partial p d (p.len_partial + n) p.expected_len_partial p.status_partial p.pid
            (next_cc cc') q g.holds;
      status = g.status;
      same_pid = g.same_pid;
      same_cc = refl;
      gathered =
          appended-partial p c (next_cc cc') g.fits (omega (arith, g)) (omega (arith, g))
          ∙ ap₂ ◌++◌ g.gathered (take_all n c (omega arith));
      len = omega (arith, g, length-append bytes c);
      expected = g.expected;
      header = omega (arith, g, length-append bytes c);
      short = omega (arith, length-append bytes c);
      small = g.small;
    })

-- A state that holds the whole of a sound section pushes it.
pub complete_sound :
    (p : TsPacket) (q : List (List ℕ)) (s : List ℕ)
    → Fits p
    → Holds p q
    → IsSound s
    → 3 ≤ length s
    → p.len_partial ≡ length s
    → p.expected_len_partial ≡ length s
    → partial p ≡ s
    → Holds (complete_section p) (push q s)
complete_sound p q s f h sound three len expected e =
    let bytes : take p.expected_len_partial p.data_partial ≡ s =
      ap (λ (n : ℕ). take n p.data_partial) (expected ∙ sym len) ∙ e in
    let own : p.len_partial ≡ whole_length p.data_partial =
      len
      ∙ sound.own_length
      ∙ ap whole_length (sym e)
      ∙ whole_length-take p.len_partial p.data_partial (omega arith) in
    let good : ts_check_raw_crc32 p.data_partial ≡ true =
      sym (check-take p.len_partial p.data_partial (omega arith) (omega arith) own)
      ∙ ap ts_check_raw_crc32 e
      ∙ sound.checked in
    let fits =
      Fits-with_partial p p.data_partial p.expected_len_partial p.expected_len_partial valid p.pid
        p.cc f f.data_partial_size (omega (arith, f)) in
    let holds =
      Holds-with_partial p p.data_partial p.expected_len_partial p.expected_len_partial valid p.pid
        p.cc q h in
    rw (complete_good p (omega arith) good) (
      subst (λ t. Holds (ts_move_part_to_full (checked_state p)) (push q t)) bytes
        (move-push (checked_state p) q fits holds))

-- The last piece, with anything behind it: the section goes to the store.
pub feed_last :
    (p : TsPacket) (q : List (List ℕ)) (pid cc : ℕ) (s bytes c pad : List ℕ)
    → cc < 16
    → IsSound s
    → Gathers p q pid cc (length s) bytes
    → s ≡ bytes ++ c
    → let p' = add_ts_packet_data (c ++ pad) p (length (c ++ pad)) no_start pid (next_cc cc) in
      Holds p' (push q s)
feed_last p q pid cc' s bytes c pad h sound g e =
    let n = append_len p (length (c ++ pad)) in
    let size : length s ≡ length bytes + length c = ap length e ∙ length-append bytes c in
    let whole : n ≡ length c =
      unfold append_len in ground (arith, g, size, length-append c pad, sound) in
    let d = memcpy p.data_partial p.len_partial (take n (c ++ pad)) in
    let done =
      appended-partial p (c ++ pad) (next_cc cc') g.fits (omega (arith, length-append c pad))
        (omega (arith, g, size))
      ∙ ap₂ ◌++◌ g.gathered (ap (λ (k : ℕ). take k (c ++ pad)) whole ∙ take-length c pad)
      ∙ sym e in
    rw
      (add_open p (c ++ pad) pid (next_cc cc') g.status (omega (arith, g)) (ap next_cc g.same_cc)
        g.same_pid)
      (complete_sound (appended p (c ++ pad) (next_cc cc')) q s
        (Fits-with_partial p d (p.len_partial + n) p.expected_len_partial p.status_partial p.pid
          (next_cc cc') g.fits
          (length-memcpy p.data_partial p.len_partial (take n (c ++ pad))
            ∙ g.fits.data_partial_size)
          (omega (arith, g, size)))
        (Holds-with_partial p d (p.len_partial + n) p.expected_len_partial p.status_partial p.pid
          (next_cc cc') q g.holds)
        sound (omega (arith, g)) (omega (arith, g, size)) g.expected done)

regroup : (a b c d : List ℕ) → a ++ ((b ++ c) ++ d) ≡ (a ++ b) ++ (c ++ d)
regroup a b c d = simp append_assoc

length_regroup :
    (a b c d : List ℕ)
    → length (a ++ ((b ++ c) ++ d)) ≡ length a + (length b + (length c + length d))
length_regroup a b c d =
    omega (arith, length-append a ((b ++ c) ++ d), length-append (b ++ c) d, length-append b c)

-- The packets that continue a section, up to its end.
pub feed-Gathers :
    (p : TsPacket) (q : List (List ℕ)) (pid cc : ℕ) (s bytes : List ℕ) (mid : List (List ℕ))
    (last pad : List ℕ)
    → cc < 16
    → IsSound s
    → Gathers p q pid cc (length s) bytes
    → 0 < length last
    → s ≡ bytes ++ (concat mid ++ last)
    → Holds (feed p pid cc (mid ++ ((last ++ pad) ∷ []))) (push q s)
unfolding feed concat
feed-Gathers p q pid cc' s bytes [] last pad h sound g some_last e =
    feed_last p q pid cc' s bytes last pad h sound g e
feed-Gathers p q pid cc' s bytes (c ∷ mid) last pad h sound g some_last e =
    let sizes : length s ≡ length bytes + (length c + (length (concat mid) + length last)) =
      ap length e ∙ length_regroup bytes c (concat mid) last in
    feed-Gathers (add_ts_packet_data c p (length c) no_start pid (next_cc cc')) q pid (next_cc cc')
      s (bytes ++ c) mid last pad (omega arith) sound
      (feed_more p q pid cc' (length s) bytes c h g (omega arith)) some_last
      (e ∙ regroup bytes c (concat mid) last)

-- A section that comes in pieces: `first` starts it.
unfoldable pub assemble : TsPacket → ℕ → ℕ → List ℕ → List (List ℕ) → TsPacket
unfolding feed
assemble pkt pid cc first pieces =
    feed (add_ts_packet_data first pkt (length first) start_ts pid cc) pid cc pieces
