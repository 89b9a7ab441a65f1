-- ===== src/Ts/Several.antt =====
-- Several sections in one packet (`add_ts_packet_data` of src/ts.c, its call of itself).
use mu_mu_dvb.Ts.Whole.{begin_open, began-partial, three-length, whole_length-append, began-Holds}
use mu_mu_dvb.Ts.Whole.{began-Fits, began}
use mu_mu_dvb.Ts.Loop.{add_ts_packet_data-round}
use mu_mu_dvb.Prelude.{append_assoc, ap, ◌+◌, All, inr, inl, ◌∙◌, length-append, ◌-◌, Bool-cases}
use mu_mu_dvb.Prelude.{sym, ◌&&◌, arith, true, false, ◌++◌, ◌==◌, length, if◌then◌else◌, u8, ◌≤◌}
use mu_mu_dvb.Prelude.{◌≡◌, ℕ, List, refl, [], ◌∷◌}
use mu_mu_dvb.Ts.Add.{begin_section, first_half, going, add_ts_packet_data, complete_section}
use mu_mu_dvb.Ts.Add.{second_half}
use mu_mu_dvb.Ts.Valid.{IsValid, IsSound}
use mu_mu_dvb.Ts.Packet.{is_no_start, is_start_section, StartFlag, TsPacket, empty, valid}
use mu_mu_dvb.Ts.Packet.{start_ts, start_section}
use mu_mu_dvb.Ts.Store.{concat, drop-length, take-length, Fits-with_partial, push, Holds, Fits}
use mu_mu_dvb.Ts.Keep.{complete_bad, move-Fits, complete_good, checked_state}
use mu_mu_dvb.Ts.Section.{ts_check_raw_crc32}
use mu_mu_dvb.Ts.Assemble.{complete_sound}
use mu_mu_dvb.Ts.Header.{whole_length}
use mu_mu_dvb.Crc.Calc.{byte_at}

-- A sound section that does not begin like stuffing.
abbrev pub IsPlain : List ℕ → Type 0
IsPlain s = IsSound s × ((byte_at s 0 == 0xff) ≡ false)

-- Nothing, or bytes that begin with 0xff.
abbrev pub IsStuffing : List ℕ → Type 0
IsStuffing [] = Unit
IsStuffing (b ∷ pad) = (u8 b == 0xff) ≡ true

-- The sections pushed in order.
abbrev pub push_all : List (List ℕ) → List (List ℕ) → List (List ℕ)
push_all q [] = q
push_all q (s ∷ ss) = push_all (push q s) ss

byte_at-append : (s rest : List ℕ) → 3 ≤ length s → byte_at (s ++ rest) 0 ≡ byte_at s 0
byte_at-append [] rest h = absurd (omega arith)
byte_at-append (b ∷ s) rest h = refl

complete-Fits :
    (p : TsPacket) → Fits p → p.len_partial ≡ p.expected_len_partial → Fits (complete_section p)
complete-Fits p f e =
    let fits : Fits (checked_state p) =
      Fits-with_partial p p.data_partial p.expected_len_partial p.expected_len_partial valid p.pid
        p.cc f f.data_partial_size (omega (arith, f)) in
    elim (Bool-cases (ts_check_raw_crc32 p.data_partial)) [
      | inl good ↦ rw (complete_good p e good) (move-Fits (checked_state p) fits)
      | inr bad ↦ rw (complete_bad p e bad) (
          Fits-with_partial p p.data_partial 0 p.expected_len_partial empty p.pid p.cc f
            f.data_partial_size (omega arith))
    ]

-- What the function does with the bytes behind a section.
abbrev finish : TsPacket → List ℕ → ℕ → ℕ → TsPacket
finish p rest pid cc =
    if length rest == 0 then p else add_ts_packet_data rest p (length rest) start_section pid cc

module _ (pkt : TsPacket) (q : List (List ℕ)) (pid cc : ℕ) (s rest : List ℕ) (f : Fits pkt)
    (h : Holds pkt q) (sound : IsSound s) where
  -- The state that holds the section.
  abbrev whole : TsPacket
  whole = began pkt (s ++ rest) (length s) pid cc

  whole-length : whole_length (s ++ rest) ≡ length s
  whole-length = whole_length-append s rest (three-length s sound) ∙ sym sound.own_length

  whole-Holds : Holds (complete_section whole) (push q s)
  whole-Holds =
      complete_sound whole q s (began-Fits pkt (s ++ rest) (length s) pid cc f sound.small)
        (began-Holds pkt (s ++ rest) (length s) pid cc q h) sound (three-length s sound) refl
        whole-length
        (began-partial pkt (s ++ rest) (length s) pid cc f (omega (arith, length-append s rest))
            sound.small
          ∙ take-length s rest)

  whole-Fits : Fits (complete_section whole)
  whole-Fits =
      complete-Fits whole (began-Fits pkt (s ++ rest) (length s) pid cc f sound.small)
        (sym whole-length)

  second_half-whole :
      (again : List ℕ → TsPacket → ℕ → TsPacket)
      → second_half again (s ++ rest) (going whole (length (s ++ rest) - length s) (length s)) ≡ (
          if length rest == 0
          then complete_section whole
          else again rest (complete_section whole) (length rest))
  unfolding second_half
  second_half-whole again =
      let left : length (s ++ rest) - length s ≡ length rest =
        omega (arith, length-append s rest) in
      rw (left, drop-length s rest) refl

  -- A piece that may begin a section goes to that branch.
  first_half-begin :
      (flag : StartFlag) (n : ℕ)
      → is_no_start flag ≡ false
      → first_half (s ++ rest) pkt n flag pid cc ≡ begin_section (s ++ rest) pkt n flag pid cc
  unfolding first_half
  first_half-begin flag n starts = rw starts

  -- The first section is pushed, and the rest begins a new one.
  add_whole :
      (flag : StartFlag)
      → is_no_start flag ≡ false
      → (is_start_section flag && (byte_at s 0 == 0xff)) ≡ false
      → add_ts_packet_data (s ++ rest) pkt (length (s ++ rest)) flag pid cc
        ≡ finish (complete_section whole) rest pid cc
  add_whole flag starts plain =
      let n = length (s ++ rest) in
      let sizes : n ≡ length s + length rest = length-append s rest in
      let same_start : (is_start_section flag && (byte_at (s ++ rest) 0 == 0xff)) ≡ false =
        ap (λ (b : ℕ). is_start_section flag && (b == 0xff))
          (byte_at-append s rest (three-length s sound))
        ∙ plain in
      let again = λ (b : List ℕ) (r : TsPacket) (left : ℕ).
        add_ts_packet_data b r left start_section pid cc in
      add_ts_packet_data-round (s ++ rest) pkt n flag pid cc
      ∙ ap (second_half again (s ++ rest)) (first_half-begin flag n starts)
      ∙ ap (second_half again (s ++ rest)) (
          begin_open (s ++ rest) pkt (length s) n flag pid cc
            (omega (arith, sizes, three-length s sound)) (omega (arith, sizes, whole-length))
            same_start)
      ∙ second_half-whole again

-- Stuffing begins no section.
finish-stuffing :
    (p : TsPacket) (pad : List ℕ) (pid cc : ℕ) → IsStuffing pad → finish p pad pid cc ≡ p
unfolding add_ts_packet_data first_half begin_section second_half
finish-stuffing p [] pid cc' stuff = refl
finish-stuffing p (b ∷ pad) pid cc' stuff =
    let more : (length (b ∷ pad) == 0) ≡ false = ground arith in rw (stuff, more)

plain-length : (s rest : List ℕ) → IsSound s → (length (s ++ rest) == 0) ≡ false
plain-length s rest sound = ground (arith, three-length s sound, length-append s rest)

-- The sections behind the first one.
finish-several :
    (ss : List (List ℕ)) (p : TsPacket) (q : List (List ℕ)) (pad : List ℕ) (pid cc : ℕ)
    → Fits p
    → Holds p q
    → All IsPlain ss
    → IsStuffing pad
    → Holds (finish p (concat ss ++ pad) pid cc) (push_all q ss)
unfolding concat
finish-several [] p q pad pid cc' f h plain stuff = rw (finish-stuffing p pad pid cc' stuff) h
finish-several (s ∷ ss) p q pad pid cc' f h plain stuff =
    let rest = concat ss ++ pad in
    rw
      (
        append_assoc s (concat ss) pad,
        plain-length s rest plain.0.0,
        add_whole p q pid cc' s rest f h plain.0.0 start_section refl plain.0.1,
      )
      (finish-several ss (complete_section (whole p q pid cc' s rest f h plain.0.0)) (push q s) pad
        pid cc' (whole-Fits p q pid cc' s rest f h plain.0.0)
        (whole-Holds p q pid cc' s rest f h plain.0.0) plain.1 stuff)

-- A packet that begins with a sound section, holds more of them behind it, none of which begins
-- with the byte 0xff, and then stuffing or nothing: all of them are pushed into the store, in order, and
-- nothing else; a section that is pushed is lost where fifteen wait, and the store is emptied where its
-- buffer of 8192 bytes has no room for the section.
pub add_several :
    (s : List ℕ) (ss : List (List ℕ)) (pad : List ℕ) (pkt : TsPacket) (q : List (List ℕ))
    (pid cc : ℕ)
    → IsValid pkt q
    → IsSound s
    → All IsPlain ss
    → IsStuffing pad
    → let buf = s ++ (concat ss ++ pad) in
      Holds (add_ts_packet_data buf pkt (length buf) start_ts pid cc) (push_all (push q s) ss)
add_several s ss pad pkt q pid cc' v sound plain stuff =
    let rest = concat ss ++ pad in
    rw (add_whole pkt q pid cc' s rest v.fits v.holds sound start_ts refl refl) (
      finish-several ss (complete_section (whole pkt q pid cc' s rest v.fits v.holds sound))
        (push q s) pad pid cc' (whole-Fits pkt q pid cc' s rest v.fits v.holds sound)
        (whole-Holds pkt q pid cc' s rest v.fits v.holds sound) plain stuff)
