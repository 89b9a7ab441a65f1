-- ===== src/Ts/Store.antt =====
-- The store of full sections of src/ts.c is a queue of byte strings.
use mu_mu_dvb.Ts.Packet.{Status, TsPacket, max_full_packets, full_buffer_size, max_ts_size}
use native.Mathlib.Numerals.{add-one}
use mu_mu_dvb.Prelude.{ℕ, zero, suc, ◌+◌, ◌-◌, ◌≤◌, ◌<◌, ◌≡◌, refl, sym, ap, ap₂, ◌∙◌, arith}
use mu_mu_dvb.Prelude.{true, false, List, [], ◌∷◌, ◌++◌, map, append-nil, append_assoc, leb, ltb}
use mu_mu_dvb.Prelude.{if◌then◌else◌, inl, inr, Bool-cases, length, get_or, set, take, drop}
use mu_mu_dvb.Prelude.{memcpy, length-append, length-take, length-drop, take-take, take-memcpy}
use mu_mu_dvb.Prelude.{ltb-false}
use mu_mu_dvb.Ts.Full.{append_full, ts_move_part_to_full, shift_full, pop_full}

-- The bytes of a queue of sections, one after the other.
unfoldable pub concat : List (List ℕ) → List ℕ
concat [] = []
concat (s ∷ q) = s ++ concat q

-- The store holds the queue `q`: its lengths, then its bytes.
pub record Holds (pkt : TsPacket) (q : List (List ℕ)) : Type 0 where
  pub number : pkt.full_number ≡ length q
  pub lengths : take pkt.full_number pkt.full_lengths ≡ map length q
  pub bytes : take pkt.full_buffer_len pkt.buffer_full ≡ concat q
  pub size : pkt.full_buffer_len ≡ length (concat q)

-- The arrays have the sizes of their declarations, and nothing is past its end.
pub record Fits (pkt : TsPacket) : Type 0 where
  pub data_full_size : length pkt.data_full ≡ max_ts_size
  pub data_partial_size : length pkt.data_partial ≡ max_ts_size
  pub buffer_full_size : length pkt.buffer_full ≡ full_buffer_size
  pub full_lengths_size : length pkt.full_lengths ≡ max_full_packets
  pub number_in : pkt.full_number ≤ max_full_packets
  pub buffer_in : pkt.full_buffer_len < full_buffer_size
  pub partial_in : pkt.len_partial ≤ max_ts_size

-- A change to the partial section only.
abbrev pub with_partial : TsPacket → List ℕ → ℕ → ℕ → Status → ℕ → ℕ → TsPacket
with_partial pkt d len expected st pid cc = record pkt {
  data_partial = d;
  len_partial = len;
  expected_len_partial = expected;
  status_partial = st;
  pid = pid;
  cc = cc;
}

module _ (pkt : TsPacket) (d : List ℕ) (len expected : ℕ) (st : Status) (pid cc : ℕ) where
  pub Fits-with_partial :
      Fits pkt
      → length d ≡ max_ts_size
      → len ≤ max_ts_size
      → Fits (with_partial pkt d len expected st pid cc)
  Fits-with_partial f hd hl = omega arith

  pub Holds-with_partial :
      (q : List (List ℕ)) → Holds pkt q → Holds (with_partial pkt d len expected st pid cc) q
  Holds-with_partial q h = record {
    number = h.number;
    lengths = h.lengths;
    bytes = h.bytes;
    size = h.size;
  }

module _ {ℓ} {A : Type ℓ} where
  pub take-length : (xs ys : List A) → take (length xs) (xs ++ ys) ≡ xs
  take-length [] ys = refl
  take-length (x ∷ xs) ys = ap (λ t. x ∷ t) (take-length xs ys)

  pub drop-length : (xs ys : List A) → drop (length xs) (xs ++ ys) ≡ ys
  drop-length [] ys = refl
  drop-length (x ∷ xs) ys = drop-length xs ys

  take-drop : (m n k : ℕ) (xs : List A) → k ≡ n + m → take m (drop n xs) ≡ drop n (take k xs)
  take-drop m zero k xs e = ap (λ (t : ℕ). take t xs) (omega arith)
  take-drop m (suc n) zero xs e = absurd (omega arith)
  take-drop zero (suc n) (suc k) [] e = refl
  take-drop (suc m) (suc n) (suc k) [] e = refl
  take-drop m (suc n) (suc k) (x ∷ xs) e = take-drop m n k xs (omega arith)

  nil_of_length : (xs : List A) → length xs ≡ 0 → xs ≡ []
  nil_of_length [] e = refl
  nil_of_length (x ∷ xs) e = absurd (omega arith)

  take-suc-set :
      (n : ℕ) (xs : List A) (v : A)
      → n < length xs
      → take (suc n) (set xs n v) ≡ take n xs ++ (v ∷ [])
  take-suc-set n [] v h = absurd (omega arith)
  take-suc-set zero (x ∷ xs) v h = refl
  take-suc-set (suc n) (x ∷ xs) v h = ap (λ t. x ∷ t) (take-suc-set n xs v (omega arith))

  -- What a copy of the rest to the front leaves there.
  take-memcpy_front :
      (m n k : ℕ) (xs : List A)
      → k ≡ n + m
      → k ≤ length xs
      → take m (memcpy xs 0 (take m (drop n xs))) ≡ drop n (take k xs)
  take-memcpy_front m n k xs e h =
      let size : length (take m (drop n xs)) ≡ m =
        omega (arith, length-take m (drop n xs), length-drop n xs) in
      take-memcpy m xs 0 (take m (drop n xs)) (omega arith) (omega arith) ∙ take-drop m n k xs e

  take-memcpy_within :
      (n : ℕ) (dst src : List A)
      → n ≤ length src
      → n ≤ length dst
      → take n (memcpy dst 0 src) ≡ take n src
  take-memcpy_within zero dst src h k = refl
  take-memcpy_within (suc n) [] src h k = absurd (omega arith)
  take-memcpy_within (suc n) (x ∷ dst) [] h k = absurd (omega arith)
  take-memcpy_within (suc n) (x ∷ dst) (y ∷ src) h k =
      ap (λ t. y ∷ t) (take-memcpy_within n dst src (omega arith) (omega arith))

  head_of_take :
      (n : ℕ) (xs : List A) (y : A) (ys : List A) (d : A) → take n xs ≡ y ∷ ys → get_or xs 0 d ≡ y
  head_of_take zero xs y ys d e = absurd (cc)
  head_of_take (suc n) [] y ys d e = absurd (cc)
  head_of_take (suc n) (x ∷ xs) y ys d e = cc

  append_one : (q : List A) (x : A) → length (q ++ (x ∷ [])) ≡ length q + 1
  append_one q x = length-append q (x ∷ [])

-- A section goes to the end, unless fifteen wait already; if the bytes would not fit, the store is
-- given up.
unfoldable pub push : List (List ℕ) → List ℕ → List (List ℕ)
push q s =
    if leb max_full_packets (length q)
    then q
    else if leb full_buffer_size (length (concat q) + length s)
    then []
    else q ++ (s ∷ [])

concat-append : (q : List (List ℕ)) (s : List ℕ) → concat (q ++ (s ∷ [])) ≡ concat q ++ s
unfolding concat
concat-append [] s = append-nil s
concat-append (t ∷ q) s = ap (λ r. t ++ r) (concat-append q s) ∙ sym (append_assoc t (concat q) s)

map-length_append :
    (q : List (List ℕ)) (s : List ℕ) → map length (q ++ (s ∷ [])) ≡ map length q ++ (length s ∷ [])
map-length_append [] s = refl
map-length_append (t ∷ q) s = ap (λ r. length t ∷ r) (map-length_append q s)

-- The bytes of the partial section.
abbrev pub partial : TsPacket → List ℕ
partial pkt = take pkt.len_partial pkt.data_partial

pub length-partial : (pkt : TsPacket) → Fits pkt → length (partial pkt) ≡ pkt.len_partial
length-partial pkt f = omega (arith, length-take pkt.len_partial pkt.data_partial)

Holds-append :
    (pkt : TsPacket) (q : List (List ℕ))
    → Fits pkt
    → Holds pkt q
    → pkt.full_number < max_full_packets
    → pkt.full_buffer_len + pkt.len_partial < full_buffer_size
    → Holds (append_full pkt) (q ++ (partial pkt ∷ []))
unfolding append_full
Holds-append pkt q f h room space =
    let len = length-partial pkt f in
    record {
      number = omega (arith, h.number, append_one q (partial pkt));
      lengths = rw (
        add-one,
        take-suc-set pkt.full_number pkt.full_lengths pkt.len_partial (omega arith),
        h.lengths,
        map-length_append,
        len,
      );
      bytes = rw (
        take-memcpy (pkt.full_buffer_len + pkt.len_partial) pkt.buffer_full pkt.full_buffer_len
            (partial pkt) (omega arith) (omega arith),
        h.bytes,
        concat-append,
      );
      size = omega (
        arith,
        h.size,
        ap length (concat-append q (partial pkt)),
        length-append (concat q) (partial pkt),
      );
    }

-- `ts_move_part_to_full` is `push` of the partial section.
pub move-push :
    (pkt : TsPacket) (q : List (List ℕ))
    → Fits pkt
    → Holds pkt q
    → Holds (ts_move_part_to_full pkt) (push q (partial pkt))
unfolding push ts_move_part_to_full concat
move-push pkt q f h =
    let len = length-partial pkt f in
    elim (Bool-cases (leb max_full_packets pkt.full_number)) [
      | inl full ↦ rw (← h.number, full) h
      | inr room ↦
          elim (Bool-cases (leb full_buffer_size (pkt.full_buffer_len + pkt.len_partial))) [
            | inl over ↦
                rw (← h.number, ← h.size, len, room, over)
                  (record { number = refl; lengths = refl; bytes = refl; size = refl })
            | inr space ↦
                rw (← h.number, ← h.size, len, room, space)
                  (Holds-append pkt q f h (ground arith) (ground arith))
          ]
    ]

-- A store of which the first section was just taken out.
module _ (pkt : TsPacket) (s : List ℕ) (q : List (List ℕ)) (f : Fits pkt)
    (h : Holds pkt (s ∷ q)) where
  first_length : get_or pkt.full_lengths 0 0 ≡ length s
  first_length = head_of_take pkt.full_number pkt.full_lengths (length s) (map length q) 0 h.lengths

  whole_size : pkt.full_buffer_len ≡ length s + length (concat q)
  unfolding concat
  whole_size = h.size ∙ length-append s (concat q)

  first_bytes : take (length s) pkt.buffer_full ≡ s
  unfolding concat
  first_bytes =
      sym (take-take (length s) pkt.full_buffer_len pkt.buffer_full (omega (arith, whole_size)))
      ∙ ap (take (length s)) h.bytes
      ∙ take-length s (concat q)

  other_bytes : drop (length s) (take pkt.full_buffer_len pkt.buffer_full) ≡ concat q
  unfolding concat
  other_bytes = ap (drop (length s)) h.bytes ∙ drop-length s (concat q)

  other_lengths :
      take (length q) (take (max_full_packets - 1) (drop 1 pkt.full_lengths)) ≡ map length q
  other_lengths =
      take-take (length q) (max_full_packets - 1) (drop 1 pkt.full_lengths)
        (omega (arith, h.number))
      ∙ take-drop (length q) 1 pkt.full_number pkt.full_lengths (omega (arith, h.number))
      ∙ ap (drop 1) h.lengths

  data_full_bytes :
      length s ≤ max_ts_size
      → take (length s) (memcpy pkt.data_full 0 (take (length s) pkt.buffer_full)) ≡ s
  data_full_bytes small =
      rw first_bytes (take-memcpy (length s) pkt.data_full 0 s (omega arith) (omega arith))

  -- The section is in `data_full`.
  abbrev taken : TsPacket
  taken = record pkt {
    len_full = length s;
    data_full = memcpy pkt.data_full 0 (take (length s) pkt.buffer_full);
    full_number = length q;
    full_buffer_len = length (concat q);
  }

  -- Both `memmove` calls were made too.
  abbrev shifted : TsPacket
  shifted = record taken {
    buffer_full =
        memcpy pkt.buffer_full 0 (take (length (concat q)) (drop (length s) pkt.buffer_full));
    full_lengths =
        memcpy pkt.full_lengths 0 (take (max_full_packets - 1) (drop 1 pkt.full_lengths));
    full_number = length q;
    full_buffer_len = length (concat q);
  }

  Holds-shifted : Holds shifted q
  Holds-shifted = record {
    number = refl;
    lengths =
        take-memcpy_within (length q) pkt.full_lengths
          (take (max_full_packets - 1) (drop 1 pkt.full_lengths))
          (omega (
            arith,
            h.number,
            length-take (max_full_packets - 1) (drop 1 pkt.full_lengths),
            length-drop 1 pkt.full_lengths,
          ))
          (omega (arith, h.number))
        ∙ other_lengths;
    bytes =
        take-memcpy_front (length (concat q)) (length s) pkt.full_buffer_len pkt.buffer_full
          whole_size (omega arith)
        ∙ other_bytes;
    size = refl;
  }

  Holds-last : q ≡ [] → Holds taken q
  unfolding concat
  Holds-last e = rw e (record { number = refl; lengths = refl; bytes = refl; size = refl })

  pop_taken : pop_full pkt ≡ (shift_full taken (length s), true)
  unfolding pop_full
  pop_taken = ground (arith, h.number, whole_size, first_length)

  shift_taken :
      Holds (shift_full taken (length s)) q
      × ((shift_full taken (length s)).data_full ≡ taken.data_full)
      × ((shift_full taken (length s)).len_full ≡ length s)
  unfolding shift_full
  shift_taken = elim (Bool-cases (ltb 0 (length q))) [
    | inl more ↦ rw more (Holds-shifted, refl, refl)
    | inr last ↦
        rw last
          (Holds-last (nil_of_length q (omega (arith, ltb-false 0 (length q) last))), refl, refl)
  ]

-- Taking one out of a store that is not empty gives the oldest section, of at most 4096 bytes, with
-- its length, and leaves the others in order.
pub pop-cons :
    (pkt : TsPacket) (s : List ℕ) (q : List (List ℕ))
    → Fits pkt
    → Holds pkt (s ∷ q)
    → length s ≤ max_ts_size
    → let (p, avail) = pop_full pkt in
      (avail ≡ true) × (p.len_full ≡ length s) × (take p.len_full p.data_full ≡ s) × Holds p q
pop-cons pkt s q f h small =
    let parts = shift_taken pkt s q f h in
    rw (pop_taken pkt s q f h)
      (refl, parts.2, ap₂ take parts.2 parts.1 ∙ data_full_bytes pkt s q f h small, parts.0)

-- An empty store gives nothing, and is left alone.
pub pop-nil : (pkt : TsPacket) → Holds pkt [] → pop_full pkt ≡ (pkt, false)
unfolding pop_full
pop-nil pkt h = ground (arith, h.number)
