-- ===== src/T2mi.antt =====
-- src/t2mi.c: transport stream packets are taken out of T2-MI packets, which come in other transport
-- stream packets.
use mu_mu_dvb.Prelude.{◌%◌, replicate, leb, ◌||◌, ◌&&◌, not, ◌^◌, length, ◌/◌, memcpy}
use mu_mu_dvb.Prelude.{if◌then◌else◌, ◌-◌, ◌*◌, ◌+◌, ◌==◌, read_bytes, ltb, ℕ, zero, suc, List}
use mu_mu_dvb.Prelude.{◌∷◌, none, some, true, false, Bool, Option, u32}
use mu_mu_dvb.Channel.Buffer.{ts_packet_size}
use mu_mu_dvb.Crc.Calc.{byte_at}
pub mod Bounds
pub mod Gather
pub mod Unwrap

-- The size of `t2packet`, `TS_PACKET_SIZE*349`.
abbrev pub t2packet_size : ℕ
t2packet_size = 65612

-- The static variables.
pub record T2mi : Type 0 where
  pub t2mi_active : Bool
  pub t2mi_first : Bool
  pub t2packetpos : ℕ
  pub t2packet : List ℕ

-- The output buffer, `output_buf_offset` and `output_buf_size`, and `output_bytes`, which is an
-- `unsigned int`.
pub record Output : Type 0 where
  pub output_buf : List ℕ
  pub output_buf_offset : ℕ
  pub output_buf_size : ℕ
  pub output_bytes : ℕ

-- Does the source refuse to write so many bytes? Its sums are modulo 2^32.
unfoldable pub is_out_of_bounds : Output → ℕ → Bool
is_out_of_bounds out n =
    ltb out.output_buf_size (u32 (out.output_buf_offset + out.output_bytes + n))

unfoldable pub put : List ℕ → Output → Output
put bytes out = record out {
  output_buf = memcpy out.output_buf (out.output_buf_offset + out.output_bytes) bytes;
  output_bytes = u32 (out.output_bytes + length bytes);
}

-- Where the payload begins behind the four bytes of the header, if there is one.
unfoldable pub payload_start_offset : List ℕ → ℕ → Option ℕ
payload_start_offset input_buf input_buf_offset =
    let adaptation_field_control = byte_at input_buf (input_buf_offset + 3) / 16 % 4 in
    let offset = byte_at input_buf (input_buf_offset + 4) + 1 in
    if adaptation_field_control == 3
    then (if ltb 183 offset then none else some offset)
    else if adaptation_field_control == 2
    then none
    else some 0

-- The user packets are longer than a frame.
unfoldable pub copy_max : List ℕ → ℕ → Output → Output
unfolding put is_out_of_bounds
copy_max t2packet upl out =
    let maxsync = upl - 19 in
    if is_out_of_bounds out maxsync
    then out
    else if ltb 19 upl
    then put (read_bytes maxsync t2packet 19) out
    else out

-- The end of the packet that the frame before began, and whether there was no room.
unfoldable pub copy_synced : Bool → List ℕ → ℕ → ℕ → Output → Output × Bool
unfolding put is_out_of_bounds
copy_synced t2mi_first t2packet syncd dnp out =
    let syncd_size = syncd - dnp in
    if not t2mi_first && ltb 0 syncd
    then (if ltb (t2packet_size - 19) syncd_size || is_out_of_bounds out syncd_size
        then (out, true)
        else (put (read_bytes syncd_size t2packet 19) out, false))
    else (out, false)

-- A part of a packet at the end of the output is dropped.
unfoldable pub align : Output → Output
align out = record out {
  output_bytes = u32 (
      out.output_bytes
      + (2 ^ 32 - u32 (out.output_buf_offset + out.output_bytes) % ts_packet_size));
}

-- `for(; t2_copy_pos < upl - 187; t2_copy_pos+=(187+dnp))`, where the difference is modulo 2^32; the
-- new position, and whether there was no room.
unfoldable pub copy_frames : ℕ → List ℕ → ℕ → ℕ → ℕ → Output → ℕ × (Output × Bool)
unfolding put is_out_of_bounds
copy_frames zero t2packet upl dnp t2_copy_pos out = (t2_copy_pos, (out, true))
copy_frames (suc fuel) t2packet upl dnp t2_copy_pos out =
    let frame = 0x47 ∷ read_bytes 187 t2packet t2_copy_pos in
    let rest = copy_frames fuel t2packet upl dnp (t2_copy_pos + (187 + dnp)) (put frame out) in
    if not (ltb t2_copy_pos (u32 (upl + (2 ^ 32 - 187))))
    then (t2_copy_pos, (out, false))
    else if ltb (t2packet_size - 187) t2_copy_pos || is_out_of_bounds out ts_packet_size
    then (t2_copy_pos, (out, true))
    else rest

-- The part of a packet that the frame ends with.
unfoldable pub copy_part : List ℕ → ℕ → ℕ → Output → Output
unfolding put is_out_of_bounds
copy_part t2packet upl t2_copy_pos out =
    let part_size = upl - t2_copy_pos in
    if not (ltb t2_copy_pos upl)
    then out
    else if ltb (t2packet_size - (part_size + 1)) t2_copy_pos
        || is_out_of_bounds out (part_size + 1)
    then out
    else put (0x47 ∷ read_bytes part_size t2packet t2_copy_pos) out

-- The packets behind the synchronisation distance. The loop ends after 351 rounds at most, since
-- the position grows by 187 in each.
unfoldable pub copy_aligned : List ℕ → ℕ → ℕ → ℕ → Output → Output
unfolding copy_frames copy_part
copy_aligned t2packet upl dnp syncd out =
    let (pos, (copied, stopped)) = copy_frames 352 t2packet upl dnp (19 + syncd) out in
    if stopped then copied else copy_part t2packet upl pos copied

-- The payload of the T2-MI packet goes to the output; the new `t2mi_first` with it.
unfoldable pub copy_payload : Bool → List ℕ → Output → Bool × Output
unfolding copy_max copy_synced align copy_aligned
copy_payload t2mi_first t2packet out =
    let syncd = (byte_at t2packet 16 * 256 + byte_at t2packet 17) / 8 in
    let upl = (byte_at t2packet 13 * 256 + byte_at t2packet 14) / 8 + 19 in
    let dnp = byte_at t2packet 9 / 4 % 2 in
    let (synced, stopped) = copy_synced t2mi_first t2packet syncd dnp out in
    if syncd == 0x1fff
    then (t2mi_first, copy_max t2packet upl out)
    else if stopped
    then (t2mi_first, synced)
    else (false, copy_aligned t2packet upl dnp syncd (align synced))

-- The end of a T2-MI packet: it goes to the output if it is of the wanted PLP. `t2packet` has signed
-- characters, so that one of 128 or more is equal to no `uint8_t`.
unfoldable pub end_t2packet : ℕ → T2mi → Output → T2mi × Output
unfolding copy_payload
end_t2packet plp_id t2mi out =
    let wanted = byte_at t2mi.t2packet 7 == plp_id && ltb (byte_at t2mi.t2packet 7) 128 in
    let (first, copied) = copy_payload t2mi.t2mi_first t2mi.t2packet out in
    (
      record t2mi {
        t2mi_active = false;
        t2mi_first = if wanted then first else t2mi.t2mi_first;
        t2packet = replicate t2packet_size 0;
      },
      if wanted then copied else out,
    )

-- A baseband frame begins at `offset` of the payload at `buf`, which has `len` bytes.
unfoldable pub begin_t2packet : List ℕ → ℕ → ℕ → ℕ → T2mi → T2mi
begin_t2packet input_buf buf len offset t2mi =
    if byte_at input_buf (buf + offset) == 0 && ltb offset len
    then record t2mi {
      t2packet = memcpy t2mi.t2packet 0 (read_bytes (len - offset) input_buf (buf + offset));
      t2packetpos = len - offset;
      t2mi_active = true;
    }
    else t2mi

unfoldable pub append_t2packet : List ℕ → T2mi → T2mi
append_t2packet bytes t2mi = record t2mi { t2packet = memcpy t2mi.t2packet t2mi.t2packetpos bytes }

-- A packet in which a T2-MI packet begins.
unfoldable pub take_t2_start : ℕ → List ℕ → ℕ → ℕ → T2mi → Output → T2mi × Output
unfolding end_t2packet begin_t2packet append_t2packet
take_t2_start plp_id input_buf buf len t2mi out =
    let offset = 1 + byte_at input_buf buf in
    let whole = append_t2packet (read_bytes (offset - 1) input_buf (buf + 1)) t2mi in
    let (ended, copied) = end_t2packet plp_id whole out in
    if not t2mi.t2mi_active
    then (begin_t2packet input_buf buf len offset t2mi, out)
    else if leb 184 offset
    then (t2mi, out)
    else (begin_t2packet input_buf buf len offset ended, copied)

-- One that goes on with it.
unfoldable pub take_t2_next : List ℕ → ℕ → ℕ → T2mi → T2mi
unfolding append_t2packet
take_t2_next input_buf buf len t2mi =
    let longer = append_t2packet (read_bytes len input_buf buf) t2mi in
    if t2mi.t2mi_active then record longer { t2packetpos = t2mi.t2packetpos + len } else t2mi

unfoldable pub take_t2 : Option ℕ → ℕ → List ℕ → ℕ → T2mi → Output → T2mi × Output
unfolding take_t2_start take_t2_next
take_t2 none plp_id input_buf input_buf_offset t2mi out = (t2mi, out)
take_t2 (some start) plp_id input_buf input_buf_offset t2mi out =
    let buf = input_buf_offset + 4 + start in
    let len = ts_packet_size - 4 - start in
    if byte_at input_buf (input_buf_offset + 1) / 64 % 2 == 1
    then take_t2_start plp_id input_buf buf len t2mi out
    else (take_t2_next input_buf buf len t2mi, out)

-- The result of the source is the `output_bytes` of the new output.
unfoldable pub processt2 : ℕ → List ℕ → ℕ → T2mi → Output → T2mi × Output
unfolding payload_start_offset take_t2
processt2 plp_id input_buf input_buf_offset t2mi out =
    take_t2 (payload_start_offset input_buf input_buf_offset) plp_id input_buf input_buf_offset t2mi
      (record out { output_bytes = 0 })
