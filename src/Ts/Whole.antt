-- ===== src/Ts/Whole.antt =====
-- Whole sections through `add_ts_packet_data` (src/ts.c): one over several packets, and several in
-- one packet.
use mu_mu_dvb.Prelude.{take_all, length-append, length-take, ◌+◌, length-memcpy, take-memcpy}
use mu_mu_dvb.Prelude.{ltb-le, arith, ◌<◌, ltb, if◌then◌else◌, ◌-◌, false, ap, ◌==◌, ◌∙◌, ◌&&◌}
use mu_mu_dvb.Prelude.{sym, ◌++◌, min, take, memcpy, ◌≡◌, length, ◌≤◌, ℕ, List, refl, [], ◌∷◌}
use mu_mu_dvb.Ts.Keep.{complete_short}
use mu_mu_dvb.Ts.Assemble.{second_half_done, feed-Gathers, Gathers, assemble}
use mu_mu_dvb.Ts.Add.{second_half, add_ts_packet_data, first_half, going, begin_section}
use mu_mu_dvb.Ts.Loop.{add_ts_packet_data-round}
use mu_mu_dvb.Ts.Store.{push, concat, Fits-with_partial, partial, Holds-with_partial, Holds, Fits}
use mu_mu_dvb.Ts.Store.{take-length, with_partial}
use mu_mu_dvb.Ts.Valid.{IsValid, IsSound, whole_length-take}
use mu_mu_dvb.Ts.Packet.{max_ts_size, is_start_section, StartFlag, TsPacket, started, start_ts}
use mu_mu_dvb.Ts.Packet.{start_section}
use mu_mu_dvb.Crc.Calc.{byte_at}
use mu_mu_dvb.Ts.Header.{whole_length}

-- The state once `n` bytes of a section were taken from its packet.
abbrev pub began : TsPacket → List ℕ → ℕ → ℕ → ℕ → TsPacket
began pkt buf n pid cc =
    with_partial pkt (memcpy pkt.data_partial 0 (take n buf)) n (whole_length buf) started pid cc

-- A section begins with what is no stuffing, in a packet that holds its header.
pub begin_open :
    (buf : List ℕ) (pkt : TsPacket) (n data_left : ℕ) (flag : StartFlag) (pid cc : ℕ)
    → 3 ≤ data_left
    → n ≡ min (whole_length buf) data_left
    → (is_start_section flag && (byte_at buf 0 == 0xff)) ≡ false
    → begin_section buf pkt data_left flag pid cc ≡ going (began pkt buf n pid cc) (data_left - n) n
unfolding begin_section
begin_open buf pkt n data_left flag pid cc' three e plain =
    let copy_len : n ≡ (if ltb (whole_length buf) data_left then whole_length buf else data_left) =
      ground (arith, e) in
    rw (plain, ltb-le data_left 3 three, copy_len)

pub whole_length-append :
    (s rest : List ℕ) → 3 ≤ length s → whole_length (s ++ rest) ≡ whole_length s
whole_length-append s rest three =
    sym (whole_length-take (length s) (s ++ rest) three) ∙ ap whole_length (take-length s rest)

-- What was copied so far.
pub began-partial :
    (pkt : TsPacket) (buf : List ℕ) (n pid cc : ℕ)
    → Fits pkt
    → n ≤ length buf
    → n ≤ max_ts_size
    → partial (began pkt buf n pid cc) ≡ take n buf
began-partial pkt buf n pid cc' f le small =
    take-memcpy n pkt.data_partial 0 (take n buf) (omega (arith, length-take n buf)) (omega arith)

pub began-Fits :
    (pkt : TsPacket) (buf : List ℕ) (n pid cc : ℕ)
    → Fits pkt
    → n ≤ max_ts_size
    → Fits (began pkt buf n pid cc)
began-Fits pkt buf n pid cc' f small =
    Fits-with_partial pkt (memcpy pkt.data_partial 0 (take n buf)) n (whole_length buf) started pid
      cc' f (length-memcpy pkt.data_partial 0 (take n buf) ∙ f.data_partial_size) small

pub began-Holds :
    (pkt : TsPacket) (buf : List ℕ) (n pid cc : ℕ) (q : List (List ℕ))
    → Holds pkt q
    → Holds (began pkt buf n pid cc) q
began-Holds pkt buf n pid cc' q h =
    Holds-with_partial pkt (memcpy pkt.data_partial 0 (take n buf)) n (whole_length buf) started pid
      cc' q h

pub three-length : (s : List ℕ) → IsSound s → 3 ≤ length s
three-length s sound = omega (arith, sound.own_length)

-- The packet in which a section of several packets begins.
pub start_first :
    (pkt : TsPacket) (q : List (List ℕ)) (pid cc : ℕ) (s first rest : List ℕ)
    → Fits pkt
    → Holds pkt q
    → IsSound s
    → s ≡ first ++ rest
    → 3 ≤ length first
    → 0 < length rest
    → Gathers
        (add_ts_packet_data first pkt (length first) start_ts pid cc)
        q
        pid
        cc
        (length s)
        first
unfolding first_half
start_first pkt q pid cc' s first rest f h sound e three more =
    let n = length first in
    let size : length s ≡ n + length rest = ap length e ∙ length-append first rest in
    let total : whole_length first ≡ length s =
      sym (whole_length-append first rest three) ∙ ap whole_length (sym e) ∙ sym sound.own_length in
    let p = began pkt first n pid cc' in
    let again =
      λ (b : List ℕ) (r : TsPacket) (left : ℕ). add_ts_packet_data b r left start_section pid cc' in
    let nothing : n - n ≡ 0 = omega arith in
    let step : add_ts_packet_data first pkt n start_ts pid cc' ≡ p =
      add_ts_packet_data-round first pkt n start_ts pid cc'
      ∙ ap (second_half again first)
          (begin_open first pkt n n start_ts pid cc' three (omega (arith, total, size)) refl)
      ∙ ap (λ (k : ℕ). second_half again first (going p k n)) nothing
      ∙ second_half_done again first p n refl
      ∙ complete_short p (omega (arith, total, size)) in
    rw step (record {
      fits = began-Fits pkt first n pid cc' f (omega (arith, sound, size));
      holds = began-Holds pkt first n pid cc' q h;
      status = refl;
      same_pid = refl;
      same_cc = refl;
      gathered =
          began-partial pkt first n pid cc' f (omega arith) (omega (arith, sound, size))
          ∙ take_all n first (omega arith);
      len = refl;
      expected = total;
      header = three;
      short = omega (arith, size);
      small = sound.small;
    })

-- A sound section that is cut into pieces, the first of at least three bytes and the last not
-- empty, is put together again: fed with the pieces under one PID and successive continuity
-- counters, with anything behind the last one, `add_ts_packet_data` pushes exactly that section.
pub assemble_lem :
    (pkt : TsPacket) (q : List (List ℕ)) (pid cc : ℕ) (s first : List ℕ) (mid : List (List ℕ))
    (last pad : List ℕ)
    → IsValid pkt q
    → IsSound s
    → cc < 16
    → s ≡ first ++ (concat mid ++ last)
    → 3 ≤ length first
    → 0 < length last
    → Holds (assemble pkt pid cc first (mid ++ ((last ++ pad) ∷ []))) (push q s)
unfolding assemble
assemble_lem pkt q pid cc' s first mid last pad v sound h e three some_last =
    feed-Gathers (add_ts_packet_data first pkt (length first) start_ts pid cc') q pid cc' s first
      mid last pad h sound
      (start_first pkt q pid cc' s first (concat mid ++ last) v.fits v.holds sound e three
        (omega (arith, length-append (concat mid) last)))
      some_last e
