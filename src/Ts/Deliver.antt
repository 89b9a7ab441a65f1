-- ===== src/Ts/Deliver.antt =====
-- What `get_ts_packet` (src/ts.c) hands out, and what it keeps.
use mu_mu_dvb.Ts.Valid.{Grows-InOrder, InOrder, Grows, IsSound, Grows-trans, same, Keeps, IsValid}
use mu_mu_dvb.Ts.Valid.{InProgress}
use mu_mu_dvb.Ts.Store.{pop-nil, Holds-with_partial, Fits-with_partial, pop-cons, Fits}
use mu_mu_dvb.Prelude.{ap₂, false, [], ltb-false, not, ◌==◌, ap, ◌+◌, memcpy, ◌∙◌, take, sym}
use mu_mu_dvb.Prelude.{get_or, length-memcpy, Option, subst, length-drop, inr, drop, ◌≤◌, inl}
use mu_mu_dvb.Prelude.{arith, ltb, ◌-◌, ◌∷◌, Bool-cases, ◌<◌, Bool, length, ◌≡◌, List, ℕ, refl}
use mu_mu_dvb.Prelude.{some, none}
use mu_mu_dvb.Ts.Output.{take_payload-output, SameOutput}
use mu_mu_dvb.Ts.Get.{take_payload, get_ts_packet, payload_offset, take_start, take_continuing}
use mu_mu_dvb.Ts.Header.{payload_unit_start_indicator, whole_length, continuity_counter, ts_pid}
use mu_mu_dvb.Ts.Add.{add_ts_packet_data, dropped}
use mu_mu_dvb.Ts.Packet.{max_full_packets, Status, ts_packet_size, TsPacket, empty}
use mu_mu_dvb.Ts.Packet.{partial_header, started, valid, no_start, start_ts}
use mu_mu_dvb.Crc.Calc.{byte_at}
use mu_mu_dvb.Ts.Loop.{add_ts_packet_data-Keeps}
use mu_mu_dvb.Ts.Full.{shift_full, pop_full}

-- The progress of the partial section is told by its own fields.
pub InProgress-same :
    (st : Status) (p p' : TsPacket)
    → p'.len_partial ≡ p.len_partial
    → p'.expected_len_partial ≡ p.expected_len_partial
    → p'.data_partial ≡ p.data_partial
    → InProgress st p
    → InProgress st p'
InProgress-same empty p p' a b d h = tt
InProgress-same partial_header p p' a b d h = omega arith
InProgress-same started p p' a b d h =
    (omega (arith, h), omega (arith, h), b ∙ h.2 ∙ ap whole_length (sym d))
InProgress-same valid p p' a b d h = tt

shift-Fits : (p : TsPacket) (n : ℕ) → Fits p → Fits (shift_full p n)
unfolding shift_full
shift-Fits p n f = ground (
  arith,
  length-memcpy p.buffer_full 0 (take p.full_buffer_len (drop n p.buffer_full)),
  length-memcpy p.full_lengths 0 (take (max_full_packets - 1) (drop 1 p.full_lengths)),
)

pop-Fits : (pkt : TsPacket) → Fits pkt → Fits (pop_full pkt).0
unfolding pop_full
pop-Fits pkt f =
    let len = get_or pkt.full_lengths 0 0 in
    let taken : TsPacket = record pkt {
      len_full = len;
      data_full = memcpy pkt.data_full 0 (take len pkt.buffer_full);
      full_number = pkt.full_number - 1;
      full_buffer_len = pkt.full_buffer_len - len;
    } in
    let fits : Fits taken =
      omega (arith, f, length-memcpy pkt.data_full 0 (take len pkt.buffer_full)) in
    elim (Bool-cases (ltb 0 pkt.full_number)) [
      | inl more ↦ rw more (shift-Fits taken len fits)
      | inr none_left ↦ rw none_left f
    ]

-- The partial section is left alone when a full one is taken out.
pop_partial :
    (pkt : TsPacket)
    → let p = (pop_full pkt).0 in
      (p.status_partial ≡ pkt.status_partial)
      × (p.len_partial ≡ pkt.len_partial)
      × (p.expected_len_partial ≡ pkt.expected_len_partial)
      × (p.data_partial ≡ pkt.data_partial)
unfolding pop_full shift_full
pop_partial pkt = ground arith

pop-progress :
    (pkt : TsPacket)
    → InProgress pkt.status_partial pkt
    → InProgress (pop_full pkt).0.status_partial (pop_full pkt).0
pop-progress pkt h =
    let same_fields = pop_partial pkt in
    InProgress-same (pop_full pkt).0.status_partial pkt (pop_full pkt).0 same_fields.1 same_fields.2
      same_fields.3 (subst (λ s. InProgress s pkt) (sym same_fields.0) h)

pub pop-IsValid :
    (pkt : TsPacket) (s : List ℕ) (q : List (List ℕ))
    → IsValid pkt (s ∷ q)
    → IsValid (pop_full pkt).0 q
pop-IsValid pkt s q v = record {
  fits = pop-Fits pkt v.fits;
  holds = (pop-cons pkt s q v.fits v.holds v.sound.0.small).3;
  sound = v.sound.1;
  progress = pop-progress pkt v.progress;
}

payload_offset-lt :
    (buf : List ℕ) (offset : ℕ) → payload_offset buf ≡ some offset → offset < ts_packet_size
unfolding payload_offset
payload_offset-lt buf offset e = ground arith

drop_enough :
    (n : ℕ) (buf : List ℕ) → length buf ≡ ts_packet_size → ts_packet_size - n ≤ length (drop n buf)
drop_enough n buf e = omega (arith, length-drop n buf)

dropped-Keeps : (pkt : TsPacket) (q : List (List ℕ)) → IsValid pkt q → Keeps q (dropped pkt)
dropped-Keeps pkt q v = (
  q,
  same,
  record {
    fits =
        Fits-with_partial pkt pkt.data_partial pkt.len_partial pkt.expected_len_partial empty
          pkt.pid pkt.cc v.fits v.fits.data_partial_size v.fits.partial_in;
    holds =
        Holds-with_partial pkt pkt.data_partial pkt.len_partial pkt.expected_len_partial empty
          pkt.pid pkt.cc q v.holds;
    sound = v.sound;
    progress = tt;
  },
)

take_start-Keeps :
    (buf : List ℕ) (pkt : TsPacket) (offset : ℕ) (avail : Bool) (q : List (List ℕ))
    → IsValid pkt q
    → length buf ≡ ts_packet_size
    → Keeps q (take_start buf pkt offset avail).0
unfolding take_start
take_start-Keeps buf pkt offset avail q v size =
    let pid = ts_pid buf in
    let cc' = continuity_counter buf in
    let pointer = byte_at buf offset in
    let begin = offset + 1 + pointer in
    elim (Bool-cases (pointer == 0)) [
      | inl zero_pointer ↦ rw zero_pointer (
          add_ts_packet_data-Keeps (drop begin buf) pkt (ts_packet_size - begin) start_ts pid cc' q
            v (drop_enough begin buf size) (omega arith))
      | inr some_pointer ↦ elim (Bool-cases (ltb ts_packet_size begin)) [
        | inl too_big ↦ rw (some_pointer, too_big) (dropped-Keeps pkt q v)
        | inr fits ↦
            let ended =
              add_ts_packet_data-Keeps (drop (offset + 1) buf) pkt pointer no_start pid cc' q v
                (omega (arith, length-drop (offset + 1) buf, ltb-false ts_packet_size begin fits))
                (omega (arith, ltb-false ts_packet_size begin fits)) in
            let p = add_ts_packet_data (drop (offset + 1) buf) pkt pointer no_start pid cc' in
            let began =
              add_ts_packet_data-Keeps (drop begin buf) p (ts_packet_size - begin) start_ts pid cc'
                ended.0 ended.2 (drop_enough begin buf size) (omega arith) in
            rw (some_pointer, fits) (began.0, Grows-trans ended.1 began.1, began.2)
      ]
    ]

take_continuing-Keeps :
    (buf : List ℕ) (pkt : TsPacket) (offset : ℕ) (avail : Bool) (q : List (List ℕ))
    → IsValid pkt q
    → length buf ≡ ts_packet_size
    → Keeps q (take_continuing buf pkt offset avail).0
unfolding take_continuing
take_continuing-Keeps buf pkt offset avail q v size =
    add_ts_packet_data-Keeps (drop offset buf) pkt (ts_packet_size - offset) no_start (ts_pid buf)
      (continuity_counter buf) q v (drop_enough offset buf size) (omega arith)

-- What a packet does to the state once a section has been handed out.
abbrev pub IsPacket : Option (List ℕ) → Type 0
IsPacket none = Unit
IsPacket (some buf) = length buf ≡ ts_packet_size

take_payload-Keeps :
    (buf : List ℕ) (pkt : TsPacket) (avail : Bool) (at : Option ℕ) (q : List (List ℕ))
    → IsValid pkt q
    → length buf ≡ ts_packet_size
    → Keeps q (take_payload buf pkt avail at).0
unfolding take_payload
take_payload-Keeps buf pkt avail none q v size = (q, same, v)
take_payload-Keeps buf pkt avail (some offset) q v size =
    elim (Bool-cases (not (payload_unit_start_indicator buf == 0))) [
      | inl starts ↦ rw starts (take_start-Keeps buf pkt offset avail q v size)
      | inr goes_on ↦ rw goes_on (take_continuing-Keeps buf pkt offset avail q v size)
    ]

pub packet-Keeps :
    (buf : Option (List ℕ)) (pkt : TsPacket) (q : List (List ℕ))
    → IsPacket buf
    → IsValid (pop_full pkt).0 q
    → Keeps q (get_ts_packet buf pkt).0
unfolding get_ts_packet
packet-Keeps none pkt q size v = (q, same, v)
packet-Keeps (some buf) pkt q size v =
    take_payload-Keeps buf (pop_full pkt).0 (pop_full pkt).1 (payload_offset buf) q v size

packet-output :
    (buf : Option (List ℕ)) (pkt : TsPacket) → SameOutput (pop_full pkt).0 (get_ts_packet buf pkt).0
unfolding get_ts_packet
packet-output none pkt = (refl, refl)
packet-output (some buf) pkt =
    take_payload-output buf (pop_full pkt).0 (pop_full pkt).1 (payload_offset buf)

-- With nothing in the store, every branch returns 0.
packet_result :
    (buf : Option (List ℕ)) (pkt : TsPacket)
    → pkt.full_number ≡ 0
    → (get_ts_packet buf pkt).1 ≡ false
unfolding get_ts_packet take_payload take_start take_continuing pop_full
packet_result none pkt e = ground arith
packet_result (some buf) pkt e = ground arith

pub get_ts_packet-cons :
    (buf : Option (List ℕ)) (pkt : TsPacket) (s : List ℕ) (q : List (List ℕ))
    → IsPacket buf
    → IsValid pkt (s ∷ q)
    → let p = (get_ts_packet buf pkt).0 in
      (p.len_full ≡ length s)
      × (take p.len_full p.data_full ≡ s)
      × IsSound s
      × ((q' : List (List ℕ)) × Grows q q' × IsValid p q' × InOrder q q')
get_ts_packet-cons buf pkt s q size v =
    let popped = pop-cons pkt s q v.fits v.holds v.sound.0.small in
    let out = packet-output buf pkt in
    let kept = packet-Keeps buf pkt q size (pop-IsValid pkt s q v) in
    (
      out.1 ∙ popped.1,
      ap₂ take out.1 out.0 ∙ popped.2,
      v.sound.0,
      (kept.0, kept.1, kept.2, Grows-InOrder kept.1),
    )

-- From a valid state with no waiting section the function returns 0, leaves its output alone, and
-- stays valid, with sound sections pushed only.
pub get_ts_packet-nil :
    (buf : Option (List ℕ)) (pkt : TsPacket)
    → IsPacket buf
    → IsValid pkt []
    → let (p, avail) = get_ts_packet buf pkt in
      (avail ≡ false) × (p.data_full ≡ pkt.data_full) × (p.len_full ≡ pkt.len_full) × Keeps [] p
get_ts_packet-nil buf pkt size v =
    let none_left = pop-nil pkt v.holds in
    let out = packet-output buf pkt in
    let called-IsValid : IsValid (pop_full pkt).0 [] = rw none_left v in
    (
      packet_result buf pkt v.holds.number,
      out.0 ∙ ap (λ (r : TsPacket × Bool). r.0.data_full) none_left,
      out.1 ∙ ap (λ (r : TsPacket × Bool). r.0.len_full) none_left,
      packet-Keeps buf pkt [] size called-IsValid,
    )
