-- ===== src/Ts/Loop.antt =====
-- `add_ts_packet_data` (src/ts.c) as a whole: it ends, and it keeps the state.
use mu_mu_dvb.Ts.Add.{second_half, complete_section, append_section, add_fuel, begin_section}
use mu_mu_dvb.Ts.Add.{Progress, first_half, continue_section, add_ts_packet_data, returned, going}
use mu_mu_dvb.Prelude.{zero, suc, length-drop, drop, ◌==◌, length, Bool-cases, true, false, ◌≤◌}
use mu_mu_dvb.Prelude.{inr, ◌⊎◌, inl, arith, ◌<◌, ◌≡◌, ℕ, List, refl}
use mu_mu_dvb.Ts.Valid.{Grows-trans, same, Keeps, InProgress, IsValid}
use mu_mu_dvb.Ts.Keep.{complete-Keeps, InReady}
use mu_mu_dvb.Ts.FirstHalf.{begin-Good, Good}
use mu_mu_dvb.Ts.Continue.{continue-Good}
use mu_mu_dvb.Ts.Packet.{ts_packet_size, is_partial_header, StartFlag, TsPacket, Status, empty}
use mu_mu_dvb.Ts.Packet.{partial_header, started, valid, no_start, start_ts, start_section}

first_half-Good :
    (buf : List ℕ) (pkt : TsPacket) (data_left : ℕ) (flag : StartFlag) (pid cc : ℕ)
    (q : List (List ℕ))
    → IsValid pkt q
    → data_left ≤ length buf
    → data_left ≤ ts_packet_size
    → Good q data_left (first_half buf pkt data_left flag pid cc)
unfolding first_half
first_half-Good buf pkt n no_start pid cc' q v enough short =
    continue-Good buf pkt n q v enough pid cc'
first_half-Good buf pkt n start_ts pid cc' q v enough short =
    begin-Good buf pkt n q v enough short start_ts pid cc'
first_half-Good buf pkt n start_section pid cc' q v enough short =
    begin-Good buf pkt n q v enough short start_section pid cc'

-- A state that is ready and no partial header was started.
ready-started :
    (s : Status) (p : TsPacket) (left : ℕ)
    → InReady s p left
    → is_partial_header s ≡ false
    → s ≡ started
ready-started empty p left r e = elim r [ ]
ready-started partial_header p left r e = absurd (cc)
ready-started started p left r e = refl
ready-started valid p left r e = elim r [ ]

ready-header :
    (s : Status) (p : TsPacket) (left : ℕ)
    → InReady s p left
    → is_partial_header s ≡ true
    → InProgress s p
ready-header empty p left r e = tt
ready-header partial_header p left r e = r
ready-header started p left r e = absurd (cc)
ready-header valid p left r e = tt

second_half-Keeps :
    (again : List ℕ → TsPacket → ℕ → TsPacket) (buf : List ℕ) (n : ℕ) (q : List (List ℕ))
    → n ≤ length buf
    → ((b : List ℕ) (p : TsPacket) (left : ℕ) (q' : List (List ℕ))
        → IsValid p q'
        → left ≤ length b
        → left ≤ n
        → Keeps q' (again b p left))
    → (r : Progress) → Good q n r
    → Keeps q (second_half again buf r)
unfolding second_half
second_half-Keeps again buf n q enough keep (returned p) good = (q, same, good)
second_half-Keeps again buf n q enough keep (going p left k) good =
    elim (Bool-cases (is_partial_header p.status_partial)) [
      | inl header ↦ rw header (
        q,
        same,
        record {
          fits = good.0.fits;
          holds = good.0.holds;
          sound = good.0.sound;
          progress = ready-header p.status_partial p left good.0.ready header;
        },
      )
      | inr body ↦
          let kept =
            complete-Keeps p left q good.0
              (ready-started p.status_partial p left good.0.ready body) in
          elim (Bool-cases (left == 0)) [
            | inl done ↦ rw (body, done) kept
            | inr more ↦
                let rest =
                  keep (drop k buf) (complete_section p) left kept.0 kept.2
                    (omega (arith, length-drop k buf)) (omega arith) in
                rw (body, more) (rest.0, Grows-trans kept.1 rest.1, rest.2)
          ]
    ]

add_fuel-Keeps :
    (fuel : ℕ) (buf : List ℕ) (pkt : TsPacket) (data_left : ℕ) (flag : StartFlag) (pid cc : ℕ)
    (q : List (List ℕ))
    → IsValid pkt q
    → data_left ≤ length buf
    → data_left ≤ ts_packet_size
    → Keeps q (add_fuel fuel buf pkt data_left flag pid cc)
unfolding add_fuel
add_fuel-Keeps zero buf pkt n flag pid cc' q v enough short = (q, same, v)
add_fuel-Keeps (suc fuel) buf pkt n flag pid cc' q v enough short =
    second_half-Keeps (λ b p left. add_fuel fuel b p left start_section pid cc') buf n q enough
      (λ b p left q' v' enough' le.
        add_fuel-Keeps fuel b p left start_section pid cc' q' v' enough' (omega arith))
      (first_half buf pkt n flag pid cc') (first_half-Good buf pkt n flag pid cc' q v enough short)

begin_less :
    (buf : List ℕ) (pkt : TsPacket) (n : ℕ) (flag : StartFlag) (pid cc left k : ℕ) (p : TsPacket)
    → begin_section buf pkt n flag pid cc ≡ going p left k
    → (left ≡ 0) ⊎ (left < n)
unfolding begin_section
begin_less buf pkt n flag pid cc' left k p e = ground arith

continue_less :
    (buf : List ℕ) (pkt : TsPacket) (n : ℕ) (pid cc left k : ℕ) (p : TsPacket)
    → continue_section buf pkt n pid cc ≡ going p left k
    → left ≡ 0
unfolding continue_section append_section
continue_less buf pkt n pid cc' left k p e = ground arith

first_half_less :
    (buf : List ℕ) (pkt : TsPacket) (n : ℕ) (flag : StartFlag) (pid cc left k : ℕ) (p : TsPacket)
    → first_half buf pkt n flag pid cc ≡ going p left k
    → (left ≡ 0) ⊎ (left < n)
unfolding first_half
first_half_less buf pkt n no_start pid cc' left k p e =
    inl (continue_less buf pkt n pid cc' left k p e)
first_half_less buf pkt n start_ts pid cc' left k p e =
    begin_less buf pkt n start_ts pid cc' left k p e
first_half_less buf pkt n start_section pid cc' left k p e =
    begin_less buf pkt n start_section pid cc' left k p e

-- The call of itself matters only at fewer bytes.
second_half_cong :
    (again again' : List ℕ → TsPacket → ℕ → TsPacket) (buf : List ℕ) (n : ℕ)
    → ((b : List ℕ) (p : TsPacket) (left : ℕ) → left < n → again b p left ≡ again' b p left)
    → (r : Progress) → ((p : TsPacket) (left k : ℕ) → r ≡ going p left k → (left ≡ 0) ⊎ (left < n))
    → second_half again buf r ≡ second_half again' buf r
unfolding second_half
second_half_cong again again' buf n agree (returned p) less = refl
second_half_cong again again' buf n agree (going p left k) less =
    elim (Bool-cases (is_partial_header p.status_partial)) [
      | inl header ↦ rw header
      | inr body ↦ elim (Bool-cases (left == 0)) [
        | inl done ↦ rw (body, done)
        | inr more ↦
            rw (body, more)
              (agree (drop k buf) (complete_section p) left (ground (arith, less p left k refl)))
      ]
    ]

-- Any two amounts of fuel above the number of bytes give the same result.
add_fuel_enough :
    (f g : ℕ) (buf : List ℕ) (pkt : TsPacket) (n : ℕ) (flag : StartFlag) (pid cc : ℕ)
    → n < f
    → n < g
    → add_fuel f buf pkt n flag pid cc ≡ add_fuel g buf pkt n flag pid cc
unfolding add_fuel
add_fuel_enough zero g buf pkt n flag pid cc' hf hg = absurd (omega arith)
add_fuel_enough (suc f) zero buf pkt n flag pid cc' hf hg = absurd (omega arith)
add_fuel_enough (suc f) (suc g) buf pkt n flag pid cc' hf hg =
    second_half_cong (λ b p left. add_fuel f b p left start_section pid cc')
      (λ b p left. add_fuel g b p left start_section pid cc') buf n
      (λ b p left less.
        add_fuel_enough f g b p left start_section pid cc' (omega arith) (omega arith))
      (first_half buf pkt n flag pid cc')
      (λ p left k e. first_half_less buf pkt n flag pid cc' left k p e)

add_fuel_round :
    (again : List ℕ → TsPacket → ℕ → TsPacket) (buf : List ℕ) (pkt : TsPacket) (n : ℕ)
    (flag : StartFlag) (pid cc : ℕ)
    → ((b : List ℕ) (p : TsPacket) (left : ℕ)
        → left < n
        → add_fuel n b p left start_section pid cc ≡ again b p left)
    → add_fuel (suc n) buf pkt n flag pid cc
      ≡ second_half again buf (first_half buf pkt n flag pid cc)
unfolding add_fuel
add_fuel_round again buf pkt n flag pid cc' agree =
    second_half_cong (λ b p left. add_fuel n b p left start_section pid cc') again buf n agree
      (first_half buf pkt n flag pid cc')
      (λ p left k e. first_half_less buf pkt n flag pid cc' left k p e)

-- `add_ts_packet_data` ends: it satisfies the recursive equation of the source, in which no fuel
-- stands, for every state, buffer and number of bytes.
pub add_ts_packet_data-round :
    (buf : List ℕ) (pkt : TsPacket) (data_left : ℕ) (flag : StartFlag) (pid cc : ℕ)
    → add_ts_packet_data buf pkt data_left flag pid cc
      ≡ second_half
          (λ b p left. add_ts_packet_data b p left start_section pid cc)
          buf
          (first_half buf pkt data_left flag pid cc)
unfolding add_ts_packet_data
add_ts_packet_data-round buf pkt n flag pid cc' =
    add_fuel_round (λ b p left. add_fuel (suc left) b p left start_section pid cc') buf pkt n flag
      pid cc'
      (λ b p left less.
        add_fuel_enough n (suc left) b p left start_section pid cc' less (omega arith))

-- `add_ts_packet_data` keeps the state valid, whatever bytes come in: it writes inside its arrays,
-- and what it does to the stored sections is to push sound ones.
pub add_ts_packet_data-Keeps :
    (buf : List ℕ) (pkt : TsPacket) (data_left : ℕ) (flag : StartFlag) (pid cc : ℕ)
    (q : List (List ℕ))
    → IsValid pkt q
    → data_left ≤ length buf
    → data_left ≤ ts_packet_size
    → Keeps q (add_ts_packet_data buf pkt data_left flag pid cc)
unfolding add_ts_packet_data
add_ts_packet_data-Keeps buf pkt data_left flag pid cc' q v enough short =
    add_fuel-Keeps (suc data_left) buf pkt data_left flag pid cc' q v enough short
