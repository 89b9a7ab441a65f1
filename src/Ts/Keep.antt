-- ===== src/Ts/Keep.antt =====
-- `add_ts_packet_data` of src/ts.c keeps the state valid, and stores sound sections only.
use mu_mu_dvb.Prelude.{ltb→lt, subst, All, ℕ, ◌+◌, ◌≤◌, ◌<◌, ◌≡◌, ◌∙◌, refl, sym, arith, true}
use mu_mu_dvb.Prelude.{false, List, take, length-memcpy, length-set, leb, ltb, Bool-cases, inl}
use mu_mu_dvb.Prelude.{inr, ltb-false}
use mu_mu_dvb.Ts.Add.{complete_section}
use mu_mu_dvb.Ts.Store.{Fits-with_partial, Holds-with_partial, Holds, Fits, push, partial}
use mu_mu_dvb.Ts.Store.{move-push, length-partial}
use mu_mu_dvb.Ts.Packet.{TsPacket, Status, empty, partial_header, started, valid}
use mu_mu_dvb.Ts.Packet.{max_full_packets, full_buffer_size}
use mu_mu_dvb.Ts.Header.{whole_length}
use mu_mu_dvb.Ts.Section.{ts_check_raw_crc32, ts_check_crc32, ts_partial_full}
use mu_mu_dvb.Ts.Full.{ts_move_part_to_full}
use mu_mu_dvb.Ts.Valid.{IsSound, InProgress, same, pushed, Keeps, push-All, whole_length-take}
use mu_mu_dvb.Ts.Valid.{check-take}

-- The state in the middle of the function, with `left` bytes still to come: a section that was
-- started is at most complete, and complete if something follows it.
abbrev pub InReady : Status → TsPacket → ℕ → Type 0
InReady started p left =
    (3 ≤ p.len_partial)
    × (p.len_partial ≤ p.expected_len_partial)
    × (p.expected_len_partial ≡ whole_length p.data_partial)
    × (p.len_partial < p.expected_len_partial → left ≡ 0)
InReady partial_header p left = p.len_partial < 3
InReady _ p left = ⊥

pub record IsReady (p : TsPacket) (left : ℕ) (q : List (List ℕ)) : Type 0 where
  pub fits : Fits p
  pub holds : Holds p q
  pub sound : All IsSound q
  pub ready : InReady p.status_partial p left

-- `Fits` looks at nothing but the arrays and their counts.
pub move-Fits : (p : TsPacket) → Fits p → Fits (ts_move_part_to_full p)
unfolding ts_move_part_to_full
move-Fits p f = ground (
  arith,
  length-memcpy p.buffer_full p.full_buffer_len (take p.len_partial p.data_partial),
  length-set p.full_lengths p.full_number p.len_partial,
)

move-InProgress :
    (p : TsPacket)
    → p.status_partial ≡ valid
    → InProgress (ts_move_part_to_full p).status_partial (ts_move_part_to_full p)
unfolding ts_move_part_to_full
move-InProgress p e = elim (Bool-cases (leb max_full_packets p.full_number)) [
  | inl full ↦ rw (full, e) tt
  | inr room ↦ elim (Bool-cases (leb full_buffer_size (p.full_buffer_len + p.len_partial))) [
    | inl over ↦ rw (room, over) tt
    | inr space ↦ rw (room, space) tt
  ]
]

-- The section that a complete, checked state holds is sound.
partial-IsSound :
    (p : TsPacket)
    → Fits p
    → 3 ≤ p.len_partial
    → p.len_partial ≡ whole_length p.data_partial
    → ts_check_raw_crc32 p.data_partial ≡ true
    → IsSound (partial p)
partial-IsSound p f three e good = record {
  own_length = length-partial p f ∙ e ∙ sym (whole_length-take p.len_partial p.data_partial three);
  small = omega (arith, length-partial p f);
  checked = check-take p.len_partial p.data_partial three (omega arith) e ∙ good;
}

module _ (p : TsPacket) where
  -- The state once the section is complete and its checksum right.
  abbrev pub checked_state : TsPacket
  checked_state = record p { len_partial = p.expected_len_partial; status_partial = valid }

  pub complete_good :
      p.len_partial ≡ p.expected_len_partial
      → ts_check_raw_crc32 p.data_partial ≡ true
      → complete_section p ≡ ts_move_part_to_full checked_state
  unfolding complete_section ts_partial_full ts_check_crc32
  complete_good e good = ground arith

  pub complete_bad :
      p.len_partial ≡ p.expected_len_partial
      → ts_check_raw_crc32 p.data_partial ≡ false
      → complete_section p ≡ record p { len_partial = 0; status_partial = empty }
  unfolding complete_section ts_partial_full ts_check_crc32
  complete_bad e bad = ground arith

  pub complete_short : p.len_partial < p.expected_len_partial → complete_section p ≡ p
  unfolding complete_section ts_partial_full
  complete_short h = ground arith

module _ (p : TsPacket) (left : ℕ) (q : List (List ℕ)) (r : IsReady p left q)
    (st : p.status_partial ≡ started) where
  started_facts : InReady started p left
  started_facts = subst (λ s. InReady s p left) st r.ready

  checked-Fits : p.len_partial ≡ p.expected_len_partial → Fits (checked_state p)
  checked-Fits e =
      Fits-with_partial p p.data_partial p.expected_len_partial p.expected_len_partial valid p.pid
        p.cc r.fits r.fits.data_partial_size (omega (arith, r.fits))

  complete_full : p.len_partial ≡ p.expected_len_partial → Keeps q (complete_section p)
  complete_full e = elim (Bool-cases (ts_check_raw_crc32 p.data_partial)) [
    | inl good ↦
        let fits = checked-Fits e in
        let sound : IsSound (partial (checked_state p)) =
          partial-IsSound (checked_state p) fits (omega (arith, started_facts)) started_facts.2
            good in
        rw (complete_good p e good) (
          push q (partial (checked_state p)),
          pushed (partial (checked_state p)) sound same,
          record {
            fits = move-Fits (checked_state p) fits;
            holds = move-push (checked_state p) q fits (
                Holds-with_partial p p.data_partial p.expected_len_partial p.expected_len_partial
                  valid p.pid p.cc q r.holds);
            sound = push-All q (partial (checked_state p)) r.sound sound;
            progress = move-InProgress (checked_state p) refl;
          },
        )
    | inr bad ↦ rw (complete_bad p e bad) (
      q,
      same,
      record {
        fits =
            (Fits-with_partial p p.data_partial 0 p.expected_len_partial empty p.pid p.cc r.fits
              r.fits.data_partial_size (omega arith));
        holds =
            (Holds-with_partial p p.data_partial 0 p.expected_len_partial empty p.pid p.cc q
              r.holds);
        sound = r.sound;
        progress = tt;
      },
    )
  ]

  -- Whatever was gathered, the last step keeps the state.
  pub complete-Keeps : Keeps q (complete_section p)
  complete-Keeps = elim (Bool-cases (ltb p.len_partial p.expected_len_partial)) [
    | inl short ↦
        let h = ltb→lt p.len_partial p.expected_len_partial short in
        rw (complete_short p h) (
          q,
          same,
          record {
            fits = r.fits;
            holds = r.holds;
            sound = r.sound;
            progress = subst (λ s. InProgress s p) (sym st) (started_facts.0, h, started_facts.2);
          },
        )
    | inr done ↦
        complete_full
          (omega (arith, started_facts, ltb-false p.len_partial p.expected_len_partial done))
  ]
