-- ===== src/Rewrite/Pmt/Parts.antt =====
-- How a PMT of several packets is gathered (`pmt_need_update` of src/rewrite_pmt.c).
use mu_mu_dvb.Rewrite.Pmt.{word12, part_num, version_number, first_part, NeedUpdate, byte_at}
use mu_mu_dvb.Rewrite.Pmt.{next_part, ts_packet_size, pmt_need_update, PmtChannel}
use mu_mu_dvb.Prelude.{◌&&◌, append_assoc, append-nil, Bool-cases, take-memcpy, sym, memcpy, ap₂}
use mu_mu_dvb.Prelude.{All, length-memcpy, length-drop, length-append, take_all, ◌∙◌, drop-append}
use mu_mu_dvb.Prelude.{◌==◌, ap, ◌≤◌, ltb, ◌+◌, take, ◌<◌, ◌*◌, ◌++◌, ◌≡◌, length, drop, ℕ, suc}
use mu_mu_dvb.Prelude.{List, [], ◌∷◌, refl, arith, inl, inr, true, false}

-- A packet, and the four bytes that stand behind it in memory: those of the next packet, or others.
abbrev pub Part : Type 0
Part = List ℕ × List ℕ

-- `pmt_need_update` for one packet after the other.
abbrev pub gather : List Part → PmtChannel → PmtChannel
gather [] channel = channel
gather ((p, beyond) ∷ ps) channel = gather ps (pmt_need_update beyond p channel).0

-- A packet that is taken for a continuation: a whole one, without the table id of a PMT where that
-- would stand.
abbrev pub IsContinuation : List ℕ → Type 0
IsContinuation p = (length p ≡ ts_packet_size) × ((byte_at p 5 == 0x02) ≡ false)

abbrev pub IsPart : Part → Type 0
IsPart (p, beyond) = IsContinuation p × (length beyond ≡ 4)

-- What is copied: all but the first four bytes of each packet, and the four bytes behind it.
abbrev pub copied_parts : List Part → List ℕ
copied_parts [] = []
copied_parts ((p, beyond) ∷ ps) = (drop 4 p ++ beyond) ++ copied_parts ps

-- Some parts were copied and some are missing.
record Gathering (channel : PmtChannel) (count missing : ℕ) (bytes : List ℕ) : Type 0 where
  size : length channel.original_pmt ≡ 10 * ts_packet_size
  at : channel.pmt_part_count ≡ count
  total : channel.pmt_part_num ≡ count + missing
  few : channel.pmt_part_num ≤ 9
  waiting : channel.original_pmt_ready ≡ false
  copied : take (ts_packet_size * (count + 1)) channel.original_pmt ≡ bytes

module _ (beyond : List ℕ) (four : length beyond ≡ 4) where
  part-size :
      (p : List ℕ)
      → length p ≡ ts_packet_size
      → take ts_packet_size (drop 4 (p ++ beyond)) ≡ drop 4 p ++ beyond
  part-size p size =
      ap (take ts_packet_size) (drop-append 4 p beyond (omega (arith, size)))
      ∙ take_all ts_packet_size (drop 4 p ++ beyond)
          (omega (arith, length-append (drop 4 p) beyond, length-drop 4 p, size, four))

  next_fields :
      (channel : PmtChannel) (p : List ℕ)
      → let c = (next_part beyond p channel).0 in
        let count = channel.pmt_part_count + 1 in
        (c.original_pmt
          ≡ memcpy channel.original_pmt
              (ts_packet_size * count)
              (take ts_packet_size (drop 4 (p ++ beyond))))
        × (c.pmt_part_count ≡ count)
        × (c.pmt_part_num ≡ channel.pmt_part_num)
        × (channel.original_pmt_ready ≡ false
            → c.original_pmt_ready ≡ (count == channel.pmt_part_num))
  unfolding next_part
  next_fields channel p = elim (Bool-cases (channel.pmt_part_count + 1 == channel.pmt_part_num)) [
    | inl last ↦ rw last (refl, refl, refl, λ _. refl)
    | inr more ↦ rw more (refl, refl, refl, λ waiting. waiting)
  ]

  -- A continuation is copied behind the parts before it.
  next_copied :
      (channel : PmtChannel) (count missing : ℕ) (bytes p : List ℕ)
      → Gathering channel count (suc missing) bytes
      → IsContinuation p
      → take (ts_packet_size * (count + 1 + 1)) (next_part beyond p channel).0.original_pmt
        ≡ bytes ++ (drop 4 p ++ beyond)
  next_copied channel count missing bytes p g continues =
      let part = drop 4 p ++ beyond in
      let n : length part ≡ ts_packet_size =
        omega (arith, length-append (drop 4 p) beyond, length-drop 4 p, continues.0, four) in
      let place : ts_packet_size * (channel.pmt_part_count + 1) ≡ ts_packet_size * (count + 1) =
        omega (arith, g.at) in
      ap (take (ts_packet_size * (count + 1 + 1))) (
        (next_fields channel p).0
        ∙ ap₂ (λ (k : ℕ) (src : List ℕ). memcpy channel.original_pmt k src) place
            (part-size p continues.0))
      ∙ take-memcpy (ts_packet_size * (count + 1 + 1)) channel.original_pmt
          (ts_packet_size * (count + 1)) part (omega (arith, n))
          (omega (arith, g.size, g.total, g.few))
      ∙ ap (λ (b : List ℕ). b ++ part) g.copied

  next_size :
      (channel : PmtChannel) (p : List ℕ)
      → length (next_part beyond p channel).0.original_pmt ≡ length channel.original_pmt
  next_size channel p =
      ap length (next_fields channel p).0
      ∙ length-memcpy channel.original_pmt (ts_packet_size * (channel.pmt_part_count + 1))
          (take ts_packet_size (drop 4 (p ++ beyond)))

  continue_gathering :
      (channel : PmtChannel) (p : List ℕ)
      → channel.original_pmt_ready ≡ false
      → 0 < channel.pmt_part_num
      → IsContinuation p
      → pmt_need_update beyond p channel ≡ next_part beyond p channel
  unfolding pmt_need_update
  continue_gathering channel p waiting some continues =
      let more : ltb 0 channel.pmt_part_num ≡ true = ground arith in
      rw (continues.1, waiting, more) refl

  first_Gathering :
      (channel : PmtChannel) (p : List ℕ) (missing : ℕ)
      → length channel.original_pmt ≡ 10 * ts_packet_size
      → length p ≡ ts_packet_size
      → part_num (word12 p 6 + 3) ≡ suc missing
      → missing < 9
      → Gathering (first_part p channel).0 0 (suc missing) p
  unfolding first_part
  first_Gathering channel p missing full size parts few =
      let some : (part_num (word12 p 6 + 3) == 0) ≡ false = ground (arith, parts) in
      rw some (record {
        size = length-memcpy channel.original_pmt 0 (take ts_packet_size p) ∙ full;
        at = refl;
        total = omega (arith, parts);
        few = omega (arith, parts);
        waiting = refl;
        copied = first_bytes;
      })
    where
      first_bytes :
          take (ts_packet_size * (0 + 1)) (memcpy channel.original_pmt 0 (take ts_packet_size p))
          ≡ p
      first_bytes =
          ap (λ (b : List ℕ). take ts_packet_size (memcpy channel.original_pmt 0 b))
            (take_all ts_packet_size p (omega (arith, size)))
          ∙ take-memcpy ts_packet_size channel.original_pmt 0 p (omega (arith, size))
              (omega (arith, full))

-- The first packet of a PMT that is to be gathered.
start_gathering :
    (beyond : List ℕ) (channel : PmtChannel) (p : List ℕ)
    → byte_at p 5 ≡ 0x02
    → (channel.original_pmt_ready && version_number p 5 == channel.generated_pmt_version) ≡ false
    → pmt_need_update beyond p channel ≡ first_part p channel
unfolding pmt_need_update
start_gathering beyond channel p table stale = rw (table, stale) refl

gather-next :
    (ps : List Part) (p beyond : List ℕ) (channel : PmtChannel)
    → channel.original_pmt_ready ≡ false
    → 0 < channel.pmt_part_num
    → IsPart (p, beyond)
    → gather ((p, beyond) ∷ ps) channel ≡ gather ps (next_part beyond p channel).0
gather-next ps p beyond channel waiting some continues =
    ap (λ (z : PmtChannel × NeedUpdate). gather ps z.0)
      (continue_gathering beyond continues.1 channel p waiting some continues.0)

gather_rest :
    (ps : List Part) (p beyond : List ℕ) (channel : PmtChannel) (count : ℕ) (bytes : List ℕ)
    → Gathering channel count (suc (length ps)) bytes
    → IsPart (p, beyond)
    → All IsPart ps
    → let c = gather ((p, beyond) ∷ ps) channel in
      (c.original_pmt_ready ≡ true)
      × (take (ts_packet_size * (count + 1 + suc (length ps))) c.original_pmt
          ≡ bytes ++ copied_parts ((p, beyond) ∷ ps))
gather_rest [] p beyond channel count bytes g own continues =
    let last : (channel.pmt_part_count + 1 == channel.pmt_part_num) ≡ true =
      ground (arith, g.at, g.total) in
    rw (gather-next [] p beyond channel g.waiting (omega (arith, g.total)) own) (
      (next_fields beyond own.1 channel p).3 g.waiting ∙ last,
      next_copied beyond own.1 channel count 0 bytes p g own.0
          ∙ ap (λ (b : List ℕ). bytes ++ b) (sym (append-nil (drop 4 p ++ beyond))),
    )
gather_rest ((p', beyond') ∷ ps) p beyond channel count bytes g own continues =
    let c = (next_part beyond p channel).0 in
    let fields = next_fields beyond own.1 channel p in
    let more : (channel.pmt_part_count + 1 == channel.pmt_part_num) ≡ false =
      ground (arith, g.at, g.total) in
    let g' : Gathering c (count + 1) (suc (length ps)) (bytes ++ (drop 4 p ++ beyond)) = record {
      size = next_size beyond own.1 channel p ∙ g.size;
      at = omega (arith, fields.1, g.at);
      total = omega (arith, fields.2, g.total);
      few = omega (arith, fields.2, g.few);
      waiting = fields.3 g.waiting ∙ more;
      copied = next_copied beyond own.1 channel count (suc (length ps)) bytes p g own.0;
    } in
    let rest =
      gather_rest ps p' beyond' c (count + 1) (bytes ++ (drop 4 p ++ beyond)) g' continues.0
        continues.1 in
    let total : ts_packet_size * (count + 1 + suc (suc (length ps)))
        ≡ ts_packet_size * (count + 1 + 1 + suc (length ps)) =
      omega arith in
    rw
      (
        gather-next ((p', beyond') ∷ ps) p beyond channel g.waiting (omega (arith, g.total)) own,
        total,
      )
      (rest.0, rest.1 ∙ append_assoc bytes (drop 4 p ++ beyond) (copied_parts ((p', beyond') ∷ ps)))

-- A PMT of two to ten packets, by the length in its header, that is to be gathered: once they are
-- in, it is taken for ready, and the buffer begins with the first packet, followed, for each other
-- one, by all but its first four bytes and the four bytes that stood behind that packet in memory,
-- whatever they are.
pub gather_lem :
    (channel : PmtChannel) (first beyond_first p beyond : List ℕ) (ps : List Part)
    → length channel.original_pmt ≡ 10 * ts_packet_size
    → length first ≡ ts_packet_size
    → byte_at first 5 ≡ 0x02
    → (channel.original_pmt_ready && version_number first 5 == channel.generated_pmt_version)
      ≡ false
    → part_num (word12 first 6 + 3) ≡ suc (length ps)
    → length ps < 9
    → IsPart (p, beyond)
    → All IsPart ps
    → let c = gather ((first, beyond_first) ∷ (p, beyond) ∷ ps) channel in
      (c.original_pmt_ready ≡ true)
      × (take (ts_packet_size * (1 + suc (length ps))) c.original_pmt
          ≡ first ++ copied_parts ((p, beyond) ∷ ps))
gather_lem channel first beyond_first p beyond ps full size table stale parts few own continues =
    let started = first_Gathering beyond own.1 channel first (length ps) full size parts few in
    let begun : gather ((first, beyond_first) ∷ (p, beyond) ∷ ps) channel
        ≡ gather ((p, beyond) ∷ ps) (first_part first channel).0 =
      ap (λ (z : PmtChannel × NeedUpdate). gather ((p, beyond) ∷ ps) z.0)
        (start_gathering beyond_first channel first table stale) in
    rw begun (gather_rest ps p beyond (first_part first channel).0 0 first started own continues)
