-- ===== src/Rewrite/Delivered.antt =====
-- A rewritten packet (src/rewrite_pat.c and its like) is read back by `get_ts_packet` (src/ts.c).
use mu_mu_dvb.Prelude.{length-drop, Bool, ◌==◌, sym, drop, ◌%◌, set, get_or-set_below}
use mu_mu_dvb.Prelude.{get_or-append, u8, ◌∙◌, ◌^◌, ◌/◌, bit_and, length-replicate, bit_or}
use mu_mu_dvb.Prelude.{length-append, ◌+◌, ◌<◌, ap, ◌++◌, ◌-◌, length-take, take, ◌≡◌, length}
use mu_mu_dvb.Prelude.{replicate, ◌≤◌, ℕ, zero, suc, List, [], ◌∷◌, refl, arith, false, some}
use mu_mu_dvb.Prelude.{none}
use mu_mu_dvb.Ts.Header.{continuity_counter, ts_pid, adaptation_field_control}
use mu_mu_dvb.Ts.Header.{payload_unit_start_indicator}
use mu_mu_dvb.Rewrite.Sound.{section-IsSound, high_nibble, length-section}
use mu_mu_dvb.Ts.Several.{add_several, IsStuffing}
use mu_mu_dvb.Ts.Packet.{full_buffer_size, start_ts, TsPacket}
use mu_mu_dvb.Ts.Store.{pop-cons, pop-nil, concat, push, Holds, drop-length}
use mu_mu_dvb.Ts.Deliver.{get_ts_packet-nil}
use mu_mu_dvb.Ts.Add.{add_ts_packet_data}
use mu_mu_dvb.Ts.Run.{received}
use mu_mu_dvb.Ts.Valid.{IsValid}
use mu_mu_dvb.Rewrite.Closed.{finish-written, body, length-written, finish_lem, written, section}
use mu_mu_dvb.Ts.Get.{take_start, take_payload, get_ts_packet, payload_offset}
use mu_mu_dvb.Crc.Calc.{crc32_of, byte_at}
use mu_mu_dvb.Crc.Append.{be32}
use mu_mu_dvb.Rewrite.Finish.{ts_header_len, write_section_length, finish}
use mu_mu_dvb.Channel.Buffer.{ts_packet_size}

-- What the header of a packet with a table says: a section starts in it, behind a pointer field of
-- zero, and there is a payload and no adaptation field.
pub record IsTable (buf : List ℕ) : Type 0 where
  pub starts : payload_unit_start_indicator buf ≡ 1
  pub payload_only : adaptation_field_control buf ≡ 1
  pub no_pointer : byte_at buf 4 ≡ 0

pub push_one : (s : List ℕ) → length s < full_buffer_size → push [] s ≡ s ∷ []
unfolding push concat
push_one s h = ground arith

pub IsStuffing-replicate : (n : ℕ) → IsStuffing (replicate n 0xff)
IsStuffing-replicate zero = tt
IsStuffing-replicate (suc n) = refl

module _ (buf_dest : List ℕ) (large : 8 ≤ length buf_dest) (small : length buf_dest ≤ 184)
    (table : IsTable buf_dest) where
  abbrev pad : List ℕ
  pad = replicate (ts_packet_size - (length buf_dest + 4)) 0xff

  abbrev head : List ℕ
  head = take ts_header_len (written buf_dest)

  length-head : length head ≡ 5
  length-head = omega (arith, length-take ts_header_len (written buf_dest), length-written buf_dest)

  finish-split : finish buf_dest ≡ head ++ (section buf_dest ++ pad)
  finish-split = finish_lem buf_dest

  byte_at-finish :
      (i : ℕ) → i < length buf_dest → byte_at (finish buf_dest) i ≡ byte_at (written buf_dest) i
  byte_at-finish i h =
      let crc = be32 (crc32_of (body buf_dest) (length (body buf_dest))) in
      ap (λ (b : List ℕ). byte_at b i) (finish-written buf_dest)
      ∙ ap u8 (
          get_or-append (written buf_dest ++ crc) pad i 0
            (omega (arith, length-append (written buf_dest) crc, length-written buf_dest))
          ∙ get_or-append (written buf_dest) crc i 0 (omega (arith, length-written buf_dest)))

  -- The header of the packet is that of the buffer.
  header-finish : (i : ℕ) → i < 5 → byte_at (finish buf_dest) i ≡ byte_at buf_dest i
  unfolding write_section_length
  header-finish i h =
      let n = length buf_dest - ts_header_len + 1 in
      let high = bit_or (bit_and n 0x0f00 / 2 ^ 8) (bit_and 0xf0 (byte_at buf_dest 6)) in
      byte_at-finish i (omega arith)
      ∙ ap u8 (
          get_or-set_below (set buf_dest 6 high) i 7 (bit_and n 0xff) 0 (omega arith)
          ∙ get_or-set_below buf_dest i 6 high 0 (omega arith))

  length-finish : length (finish buf_dest) ≡ ts_packet_size
  length-finish = omega (
    arith,
    ap length finish-split,
    length-append head (section buf_dest ++ pad),
    length-append (section buf_dest) pad,
    length-head,
    length-section buf_dest large small,
    length-replicate {A = ℕ} (ts_packet_size - (length buf_dest + 4)) 0xff,
  )

  payload_lem : payload_offset (finish buf_dest) ≡ some 4
  unfolding payload_offset adaptation_field_control
  payload_lem =
      let control : byte_at (finish buf_dest) 3 / 16 % 4 ≡ 1 =
        ap (λ (b : ℕ). b / 16 % 4) (header-finish 3 (omega arith)) ∙ table.payload_only in
      let no_pes : (byte_at (finish buf_dest) 6 == 1) ≡ false =
        ground (arith, byte_at-finish 6 (omega arith), high_nibble buf_dest large small) in
      rw (control, no_pes) (ground arith)

  start_lem : payload_unit_start_indicator (finish buf_dest) ≡ 1
  unfolding payload_unit_start_indicator
  start_lem = ap (λ (b : ℕ). b / 64 % 2) (header-finish 1 (omega arith)) ∙ table.starts

  pointer_lem : byte_at (finish buf_dest) 4 ≡ 0
  pointer_lem = header-finish 4 (omega arith) ∙ table.no_pointer

  behind_header : drop 5 (finish buf_dest) ≡ section buf_dest ++ pad
  behind_header =
      ap (drop 5) finish-split
      ∙ ap (λ (n : ℕ). drop n (head ++ (section buf_dest ++ pad))) (sym length-head)
      ∙ drop-length head (section buf_dest ++ pad)

  take_start_lem :
      (pkt : TsPacket) (avail : Bool)
      → (take_start (finish buf_dest) pkt 4 avail).0
        ≡ add_ts_packet_data
            (section buf_dest ++ pad)
            pkt
            (length (section buf_dest ++ pad))
            start_ts
            (ts_pid (finish buf_dest))
            (continuity_counter (finish buf_dest))
  unfolding take_start
  take_start_lem pkt avail =
      let size : 183 ≡ length (section buf_dest ++ pad) =
        omega (arith, ap length behind_header, length-drop 5 (finish buf_dest), length-finish) in
      rw (pointer_lem, behind_header, ← size) refl

  -- The section alone in the store.
  push-section : push [] (section buf_dest) ≡ section buf_dest ∷ []
  push-section = push_one (section buf_dest) (omega (arith, length-section buf_dest large small))

  -- One call puts the section into an empty store.
  get_finished :
      (pkt : TsPacket)
      → IsValid pkt []
      → Holds (get_ts_packet (some (finish buf_dest)) pkt).0 (section buf_dest ∷ [])
  unfolding get_ts_packet take_payload push concat
  get_finished pkt v =
      let starts : (payload_unit_start_indicator (finish buf_dest) == 0) ≡ false =
        ground (arith, start_lem) in
      rw (payload_lem, starts, pop-nil pkt v.holds, take_start_lem pkt false, ← push-section)
        (add_several (section buf_dest) [] pad pkt [] (ts_pid (finish buf_dest))
          (continuity_counter (finish buf_dest)) v (section-IsSound buf_dest large small) tt
          (IsStuffing-replicate (ts_packet_size - (length buf_dest + 4))))

  -- A finished packet of 8 to 184 bytes with the header of a table, given to `get_ts_packet` in any
  -- valid state with no waiting section, comes back out of the next call: what the two calls report
  -- is the section of the packet.
  pub received-finish :
      (pkt : TsPacket)
      → IsValid pkt []
      → received (some (finish buf_dest) ∷ none ∷ []) pkt ≡ section buf_dest ∷ []
  unfolding received get_ts_packet
  received-finish pkt v =
      let first = get_ts_packet-nil (some (finish buf_dest)) pkt length-finish v in
      let p = (get_ts_packet (some (finish buf_dest)) pkt).0 in
      let popped =
        pop-cons p (section buf_dest) [] first.3.2.fits (get_finished pkt v)
          (section-IsSound buf_dest large small).small in
      rw (first.0, popped.0, popped.2) refl
