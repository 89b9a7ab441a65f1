-- ===== src/Ts/Valid.antt =====
-- What holds of the state of src/ts.c between two calls, and which sections may be stored.
use mu_mu_dvb.Prelude.{refl, append_assoc, subst, leb→le, ◌⊎◌, append-nil, ◌++◌, ℕ, ◌+◌, ◌≤◌, ◌<◌}
use mu_mu_dvb.Prelude.{◌≡◌, ◌∙◌, sym, ap, arith, true, List, [], ◌∷◌, length, take, get_or-take}
use mu_mu_dvb.Prelude.{take-take, length-take, All, All-append, leb, Bool-cases, inl, inr}
use mu_mu_dvb.Crc.Calc.{crc32_of}
use mu_mu_dvb.Crc.Fold.{crc32_bytes, crc32_of-bytes}
use mu_mu_dvb.Ts.Packet.{TsPacket, Status, empty, partial_header, started, valid, max_ts_size}
use mu_mu_dvb.Ts.Packet.{max_full_packets, full_buffer_size}
use mu_mu_dvb.Ts.Header.{section_length, whole_length}
use mu_mu_dvb.Ts.Section.{ts_check_raw_crc32}
use mu_mu_dvb.Ts.Store.{Holds, Fits, push, concat}

-- A section that is as long as it says, fits the buffers, and has the right checksum.
pub record IsSound (s : List ℕ) : Type 0 where
  pub own_length : length s ≡ whole_length s
  pub small : length s ≤ max_ts_size
  pub checked : ts_check_raw_crc32 s ≡ true

-- What the status says of the partial section.
abbrev pub InProgress : Status → TsPacket → Type 0
InProgress started pkt =
    (3 ≤ pkt.len_partial)
    × (pkt.len_partial < pkt.expected_len_partial)
    × (pkt.expected_len_partial ≡ whole_length pkt.data_partial)
InProgress partial_header pkt = pkt.len_partial < 3
InProgress empty pkt = Unit
InProgress valid pkt = Unit

pub record IsValid (pkt : TsPacket) (q : List (List ℕ)) : Type 0 where
  pub fits : Fits pkt
  pub holds : Holds pkt q
  pub sound : All IsSound q
  pub progress : InProgress pkt.status_partial pkt

-- `q'` is what becomes of `q` when sound sections are pushed, one after the other.
pub data Grows : List (List ℕ) → List (List ℕ) → Type 0 where
  same : {q : List (List ℕ)} → Grows q q
  pushed : {q q' : List (List ℕ)} (s : List ℕ) → IsSound s → Grows (push q s) q' → Grows q q'

pub Grows-trans : {p q r : List (List ℕ)} → Grows p q → Grows q r → Grows p r
Grows-trans same h = h
Grows-trans (pushed s sound g) h = pushed s sound (Grows-trans g h)

-- The sections of `q` come first and in their order in `q'`, or a sound section `s` came for which the
-- buffer had no room behind them and those that came before it.
abbrev pub InOrder : List (List ℕ) → List (List ℕ) → Type 0
InOrder q q' =
    ((new : List (List ℕ)) × (q' ≡ q ++ new))
    ⊎ ((new : List (List ℕ)) × (s : List ℕ) × IsSound s
        × (full_buffer_size ≤ length (concat (q ++ new)) + length s))

-- With fifteen waiting sections a new one is lost, and with no room for it all are.
push_cases :
    (q : List (List ℕ)) (s : List ℕ)
    → (push q s ≡ q)
      ⊎ ((full_buffer_size ≤ length (concat q) + length s) ⊎ (push q s ≡ q ++ (s ∷ [])))
unfolding push
push_cases q s = elim (Bool-cases (leb max_full_packets (length q))) [
  | inl full ↦ inl (rw full refl)
  | inr room ↦ elim (Bool-cases (leb full_buffer_size (length (concat q) + length s))) [
    | inl over ↦ inr (inl (leb→le _ _ over))
    | inr space ↦ inr (inr (rw (room, space) refl))
  ]
]

InOrder-behind : (q q' : List (List ℕ)) (s : List ℕ) → InOrder (q ++ (s ∷ [])) q' → InOrder q q'
InOrder-behind q q' s (inl h) = inl (s ∷ h.0, h.1 ∙ append_assoc q (s ∷ []) h.0)
InOrder-behind q q' s (inr h) = inr (
  s ∷ h.0,
  h.1,
  h.2,
  subst (λ (l : List (List ℕ)). full_buffer_size ≤ length (concat l) + length h.1)
      (append_assoc q (s ∷ []) h.0) h.3,
)

pub Grows-InOrder : {q q' : List (List ℕ)} → Grows q q' → InOrder q q'
Grows-InOrder {q = q} same = inl ([], sym (append-nil q))
Grows-InOrder {q = q} {q' = q'} (pushed s sound g) =
    let rest = Grows-InOrder g in
    elim (push_cases q s) [
      | inl lost ↦ subst (λ (l : List (List ℕ)). InOrder l q') lost rest
      | inr (inl over) ↦ inr (
        [],
        s,
        sound,
        subst (λ (l : List (List ℕ)). full_buffer_size ≤ length (concat l) + length s)
            (sym (append-nil q)) over,
      )
      | inr (inr stored) ↦
          InOrder-behind q q' s (subst (λ (l : List (List ℕ)). InOrder l q') stored rest)
    ]

-- The state holds what `q` became, and is valid.
abbrev pub Keeps : List (List ℕ) → TsPacket → Type 0
Keeps q p = (q' : List (List ℕ)) × Grows q q' × IsValid p q'

pub push-All : (q : List (List ℕ)) (s : List ℕ) → All IsSound q → IsSound s → All IsSound (push q s)
unfolding push
push-All q s hq hs = elim (Bool-cases (leb max_full_packets (length q))) [
  | inl full ↦ rw full hq
  | inr room ↦ elim (Bool-cases (leb full_buffer_size (length (concat q) + length s))) [
    | inl over ↦ rw (room, over) tt
    | inr space ↦ rw (room, space) (All-append IsSound q (s ∷ []) hq (hs, tt))
  ]
]

-- The length of a section stands in its first three bytes.
pub whole_length-take :
    (n : ℕ) (buf : List ℕ) → 3 ≤ n → whole_length (take n buf) ≡ whole_length buf
unfolding section_length
whole_length-take n buf h =
    rw (get_or-take n 1 buf 0 (omega arith), get_or-take n 2 buf 0 (omega arith))

pub whole_length_head : (a b : List ℕ) → take 3 a ≡ take 3 b → whole_length a ≡ whole_length b
whole_length_head a b e =
    sym (whole_length-take 3 a (omega arith))
    ∙ ap whole_length e
    ∙ whole_length-take 3 b (omega arith)

crc32_of-take : (n : ℕ) (buf : List ℕ) → n ≤ length buf → crc32_of (take n buf) n ≡ crc32_of buf n
crc32_of-take n buf h =
    crc32_of-bytes (take n buf) n (omega (arith, length-take n buf))
    ∙ ap (crc32_bytes 0xffffffff) (take-take n n buf (omega arith))
    ∙ sym (crc32_of-bytes buf n h)

-- The check of a section in a larger buffer reads the section alone.
pub check-take :
    (n : ℕ) (buf : List ℕ)
    → 3 ≤ n
    → n ≤ length buf
    → n ≡ whole_length buf
    → ts_check_raw_crc32 (take n buf) ≡ ts_check_raw_crc32 buf
unfolding ts_check_raw_crc32
check-take n buf h fits e =
    let sum : crc32_of (take n buf) (whole_length (take n buf)) ≡ crc32_of buf (whole_length buf) =
      ap (crc32_of (take n buf)) (whole_length-take n buf h ∙ sym e)
      ∙ crc32_of-take n buf fits
      ∙ ap (crc32_of buf) e in
    rw (get_or-take n 0 buf 0 (omega arith), sum)
