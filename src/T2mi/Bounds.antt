-- ===== src/T2mi/Bounds.antt =====
-- How much `processt2` (src/t2mi.c) writes.
use mu_mu_dvb.Prelude.{leb, length-read_bytes, ◌/◌, ◌&&◌, ltb, not, ◌*◌, ◌==◌, ltb-false}
use mu_mu_dvb.Prelude.{if◌then◌else◌, ◌-◌, length, Bool-cases, read_bytes, ◌^◌, ◌≤◌, ◌<◌, ◌+◌}
use mu_mu_dvb.Prelude.{◌%◌, ◌≡◌, ℕ, zero, suc, List, ◌∷◌, none, some, true, false, Bool, Option}
use mu_mu_dvb.Prelude.{u32, refl, arith, inl, inr}
use mu_mu_dvb.T2mi.{begin_t2packet, take_t2_next, t2packet_size, append_t2packet, ts_packet_size}
use mu_mu_dvb.T2mi.{byte_at, payload_start_offset, Output, T2mi, put, is_out_of_bounds, copy_max}
use mu_mu_dvb.T2mi.{copy_synced, align, copy_frames, copy_part, copy_aligned, copy_payload}
use mu_mu_dvb.T2mi.{end_t2packet, take_t2_start, take_t2, processt2}

-- What was written since `before` ends inside the buffer.
pub record IsWithin (before out : Output) : Type 0 where
  pub same_offset : out.output_buf_offset ≡ before.output_buf_offset
  pub same_size : out.output_buf_size ≡ before.output_buf_size
  pub inside : before.output_buf_offset + out.output_bytes ≤ before.output_buf_size

module _ (before : Output) (aligned : before.output_buf_offset % 188 ≡ 0)
    (small : before.output_buf_size < 2 ^ 31) where
  put-IsWithin :
      (bytes : List ℕ) (n : ℕ) (out : Output)
      → length bytes ≤ n
      → n ≤ 10000
      → is_out_of_bounds out n ≡ false
      → IsWithin before out
      → IsWithin before (put bytes out)
  unfolding put is_out_of_bounds
  put-IsWithin bytes n out size few room w =
      let fits : u32 (out.output_buf_offset + out.output_bytes + n) ≤ out.output_buf_size =
        ltb-false _ _ room in
      record {
        same_offset = w.same_offset;
        same_size = w.same_size;
        inside = omega (arith, fits, w.same_offset, w.same_size, w.inside, size, few, small);
      }

  copy_max-IsWithin :
      (t2packet : List ℕ) (upl : ℕ) (out : Output)
      → upl ≤ 10000
      → IsWithin before out
      → IsWithin before (copy_max t2packet upl out)
  unfolding copy_max
  copy_max-IsWithin t2packet upl out few w = elim (Bool-cases (is_out_of_bounds out (upl - 19))) [
    | inl full ↦ rw full w
    | inr room ↦ elim (Bool-cases (ltb 19 upl)) [
      | inl some_left ↦
          rw (room, some_left)
            (put-IsWithin (read_bytes (upl - 19) t2packet 19) (upl - 19) out
              (omega (arith, length-read_bytes (upl - 19) t2packet 19)) (omega arith) room w)
      | inr none_left ↦ rw (room, none_left) w
    ]
  ]

  copy_synced-IsWithin :
      (t2mi_first : Bool) (t2packet : List ℕ) (syncd dnp : ℕ) (out : Output)
      → syncd ≤ 10000
      → IsWithin before out
      → IsWithin before (copy_synced t2mi_first t2packet syncd dnp out).0
  unfolding copy_synced
  copy_synced-IsWithin t2mi_first t2packet syncd dnp out few w =
      let n = syncd - dnp in
      elim (Bool-cases (not t2mi_first && ltb 0 syncd)) [
        | inr begins ↦ rw begins w
        | inl goes_on ↦ elim (Bool-cases (ltb (t2packet_size - 19) n)) [
          | inl long ↦ rw (goes_on, long) w
          | inr short ↦ elim (Bool-cases (is_out_of_bounds out n)) [
            | inl full ↦ rw (goes_on, short, full) w
            | inr room ↦
                rw (goes_on, short, room)
                  (put-IsWithin (read_bytes n t2packet 19) n out
                    (omega (arith, length-read_bytes n t2packet 19)) (omega arith) room w)
          ]
        ]
      ]

  align-IsWithin : (out : Output) → IsWithin before out → IsWithin before (align out)
  unfolding align
  align-IsWithin out w = record {
    same_offset = w.same_offset;
    same_size = w.same_size;
    inside = omega (arith, w.same_offset, w.same_size, w.inside, aligned, small);
  }

  copy_frames-IsWithin :
      (fuel : ℕ) (t2packet : List ℕ) (upl dnp pos : ℕ) (out : Output)
      → IsWithin before out
      → IsWithin before (copy_frames fuel t2packet upl dnp pos out).1.0
  unfolding copy_frames
  copy_frames-IsWithin zero t2packet upl dnp pos out w = w
  copy_frames-IsWithin (suc fuel) t2packet upl dnp pos out w =
      let frame = 0x47 ∷ read_bytes 187 t2packet pos in
      elim (Bool-cases (ltb pos (u32 (upl + (2 ^ 32 - 187))))) [
        | inr done ↦ rw done w
        | inl more ↦ elim (Bool-cases (ltb (t2packet_size - 187) pos)) [
          | inl behind ↦ rw (more, behind) w
          | inr before_end ↦ elim (Bool-cases (is_out_of_bounds out ts_packet_size)) [
            | inl full ↦ rw (more, before_end, full) w
            | inr room ↦
                rw (more, before_end, room)
                  (copy_frames-IsWithin fuel t2packet upl dnp (pos + (187 + dnp)) (put frame out) (
                    put-IsWithin frame ts_packet_size out
                      (omega (arith, length-read_bytes 187 t2packet pos)) (omega arith) room w))
          ]
        ]
      ]

  copy_part-IsWithin :
      (t2packet : List ℕ) (upl pos : ℕ) (out : Output)
      → upl ≤ 9000
      → IsWithin before out
      → IsWithin before (copy_part t2packet upl pos out)
  unfolding copy_part
  copy_part-IsWithin t2packet upl pos out few w =
      let n = upl - pos in
      elim (Bool-cases (ltb pos upl)) [
        | inr done ↦ rw done w
        | inl more ↦ elim (Bool-cases (ltb (t2packet_size - (n + 1)) pos)) [
          | inl behind ↦ rw (more, behind) w
          | inr before_end ↦ elim (Bool-cases (is_out_of_bounds out (n + 1))) [
            | inl full ↦ rw (more, before_end, full) w
            | inr room ↦
                rw (more, before_end, room)
                  (put-IsWithin (0x47 ∷ read_bytes n t2packet pos) (n + 1) out
                    (omega (arith, length-read_bytes n t2packet pos)) (omega arith) room w)
          ]
        ]
      ]

  either-IsWithin :
      (b : Bool) (x y : Output)
      → IsWithin before x
      → IsWithin before y
      → IsWithin before (if b then x else y)
  either-IsWithin true x y hx hy = hx
  either-IsWithin false x y hx hy = hy

  copy_aligned-IsWithin :
      (t2packet : List ℕ) (upl dnp syncd : ℕ) (out : Output)
      → upl ≤ 9000
      → IsWithin before out
      → IsWithin before (copy_aligned t2packet upl dnp syncd out)
  unfolding copy_aligned
  copy_aligned-IsWithin t2packet upl dnp syncd out few w =
      let frames = copy_frames 352 t2packet upl dnp (19 + syncd) out in
      let copied = copy_frames-IsWithin 352 t2packet upl dnp (19 + syncd) out w in
      either-IsWithin frames.1.1 frames.1.0 (copy_part t2packet upl frames.0 frames.1.0) copied
        (copy_part-IsWithin t2packet upl frames.0 frames.1.0 few copied)

  copy_payload-IsWithin :
      (t2mi_first : Bool) (t2packet : List ℕ) (out : Output)
      → IsWithin before out
      → IsWithin before (copy_payload t2mi_first t2packet out).1
  unfolding copy_payload
  copy_payload-IsWithin t2mi_first t2packet out w =
      let syncd = (byte_at t2packet 16 * 256 + byte_at t2packet 17) / 8 in
      let upl = (byte_at t2packet 13 * 256 + byte_at t2packet 14) / 8 + 19 in
      let dnp = byte_at t2packet 9 / 4 % 2 in
      let synced = copy_synced t2mi_first t2packet syncd dnp out in
      let s = copy_synced-IsWithin t2mi_first t2packet syncd dnp out (omega arith) w in
      elim (Bool-cases (syncd == 0x1fff)) [
        | inl longest ↦ rw longest (copy_max-IsWithin t2packet upl out (omega arith) w)
        | inr other ↦ elim (Bool-cases synced.1) [
          | inl stopped ↦ rw (other, stopped) s
          | inr goes_on ↦
              rw (other, goes_on)
                (copy_aligned-IsWithin t2packet upl dnp syncd (align synced.0) (omega arith)
                  (align-IsWithin synced.0 s))
        ]
      ]

  end_t2packet-IsWithin :
      (plp_id : ℕ) (t2mi : T2mi) (out : Output)
      → IsWithin before out
      → IsWithin before (end_t2packet plp_id t2mi out).1
  unfolding end_t2packet
  end_t2packet-IsWithin plp_id t2mi out w =
      either-IsWithin (byte_at t2mi.t2packet 7 == plp_id && ltb (byte_at t2mi.t2packet 7) 128)
        (copy_payload t2mi.t2mi_first t2mi.t2packet out).1 out
        (copy_payload-IsWithin t2mi.t2mi_first t2mi.t2packet out w) w

  either_state :
      (b : Bool) (x y : T2mi × Output)
      → IsWithin before x.1
      → IsWithin before y.1
      → IsWithin before (if b then x else y).1
  either_state true x y hx hy = hx
  either_state false x y hx hy = hy

  take_t2-IsWithin :
      (start : Option ℕ) (plp_id : ℕ) (input_buf : List ℕ) (input_buf_offset : ℕ) (t2mi : T2mi)
      (out : Output)
      → IsWithin before out
      → IsWithin before (take_t2 start plp_id input_buf input_buf_offset t2mi out).1
  unfolding take_t2 take_t2_start
  take_t2-IsWithin none plp_id input_buf input_buf_offset t2mi out w = w
  take_t2-IsWithin (some start) plp_id input_buf input_buf_offset t2mi out w =
      let buf = input_buf_offset + 4 + start in
      let len = ts_packet_size - 4 - start in
      let offset = 1 + byte_at input_buf buf in
      let whole = append_t2packet (read_bytes (offset - 1) input_buf (buf + 1)) t2mi in
      let ended = end_t2packet plp_id whole out in
      either_state (byte_at input_buf (input_buf_offset + 1) / 64 % 2 == 1)
        (take_t2_start plp_id input_buf buf len t2mi out) (take_t2_next input_buf buf len t2mi, out)
        (either_state (not t2mi.t2mi_active) (begin_t2packet input_buf buf len offset t2mi, out)
          (if leb 184 offset
            then (t2mi, out)
            else (begin_t2packet input_buf buf len offset ended.0, ended.1))
          w
          (either_state (leb 184 offset) (t2mi, out)
            (begin_t2packet input_buf buf len offset ended.0, ended.1) w
            (end_t2packet-IsWithin plp_id whole out w)))
        w

-- Whatever packet comes in and whatever was gathered, if the output begins at a multiple of 188 that is
-- not behind the end of the buffer, and the buffer has less than 2^31 bytes, `processt2` writes up to
-- a place that is not behind its end.
pub processt2-IsWithin :
    (plp_id : ℕ) (input_buf : List ℕ) (input_buf_offset : ℕ) (t2mi : T2mi) (out : Output)
    → out.output_buf_offset % 188 ≡ 0
    → out.output_buf_offset ≤ out.output_buf_size
    → out.output_buf_size < 2 ^ 31
    → IsWithin out (processt2 plp_id input_buf input_buf_offset t2mi out).1
unfolding processt2
processt2-IsWithin plp_id input_buf input_buf_offset t2mi out aligned begins small =
    take_t2-IsWithin out aligned small (payload_start_offset input_buf input_buf_offset) plp_id
      input_buf input_buf_offset t2mi (record out { output_bytes = 0 })
      (record { same_offset = refl; same_size = refl; inside = omega (arith, begins) })
