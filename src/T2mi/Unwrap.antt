-- ===== src/T2mi/Unwrap.antt =====
-- The packets that `processt2` (src/t2mi.c) takes out of a T2-MI packet.
use mu_mu_dvb.Prelude.{lt→ltb, leb→le, sym, subst, ltb, ◌∙◌, length-read_bytes, Bool-cases}
use mu_mu_dvb.Prelude.{length-append, ap, read_bytes, ltb-le, leb, ap₂, ◌*◌, ◌^◌, ◌++◌, length}
use mu_mu_dvb.Prelude.{◌-◌, ◌<◌, ◌+◌, memcpy, ◌≤◌, if◌then◌else◌, ◌≡◌, ℕ, zero, suc, List, []}
use mu_mu_dvb.Prelude.{◌∷◌, true, false, Bool, u32, arith, inl, inr}
use mu_mu_dvb.T2mi.{ts_packet_size, t2packet_size, Output, put, is_out_of_bounds, copy_frames}
use mu_mu_dvb.T2mi.{copy_part, copy_aligned}
use mu_mu_dvb.T2mi.Gather.{memcpy-behind}

-- `n` bytes from `pos` on, with a sync byte before each 187 of them and before what is left; `k`
-- packets at most.
abbrev pub with_sync : ℕ → List ℕ → ℕ → ℕ → List ℕ
with_sync zero bytes pos n = []
with_sync (suc k) bytes pos n =
    let rest = with_sync k bytes (pos + 187) (n - 187) in
    if leb n 187 then 0x47 ∷ read_bytes n bytes pos else (0x47 ∷ read_bytes 187 bytes pos) ++ rest

-- The bytes stand behind the output so far.
abbrev pub written : List ℕ → Output → Output
written bytes out = record out {
  output_buf = memcpy out.output_buf (out.output_buf_offset + out.output_bytes) bytes;
  output_bytes = out.output_bytes + length bytes;
}

put-written :
    (bytes : List ℕ) (out : Output)
    → out.output_bytes + length bytes < 2 ^ 32
    → put bytes out ≡ written bytes out
unfolding put
put-written bytes out small =
    let same : u32 (out.output_bytes + length bytes) ≡ out.output_bytes + length bytes =
      omega (arith, small) in
    ap
      (λ (n : ℕ). record out {
        output_buf = memcpy out.output_buf (out.output_buf_offset + out.output_bytes) bytes;
        output_bytes = n;
      })
      same

written-written : (a b : List ℕ) (out : Output) → written b (written a out) ≡ written (a ++ b) out
written-written a b out =
    let at = out.output_buf_offset + out.output_bytes in
    ap₂
      (λ (i n : ℕ). record out {
        output_buf = memcpy (memcpy out.output_buf at a) i b;
        output_bytes = n;
      })
      {x = out.output_buf_offset + (out.output_bytes + length a)} {y = at + length a} (omega arith)
      (omega (arith, length-append a b))
    ∙ ap
        (λ (l : List ℕ). record out {
          output_buf = l;
          output_bytes = out.output_bytes + length (a ++ b);
        })
        (memcpy-behind out.output_buf at a b)

is_inside :
    (out : Output) (n : ℕ)
    → out.output_buf_offset + out.output_bytes + n ≤ out.output_buf_size
    → out.output_buf_size < 2 ^ 31
    → is_out_of_bounds out n ≡ false
unfolding is_out_of_bounds
is_inside out n room small = ltb-le _ _ (omega (arith, room, small))

is_longer : (a b : ℕ) → leb a b ≡ false → b < a
is_longer a b h = ground (arith, h)

-- The loop, and the part behind it.
abbrev then_part : List ℕ → ℕ → ℕ × (Output × Bool) → Output
then_part t2packet upl z = if z.1.1 then z.1.0 else copy_part t2packet upl z.0 z.1.0

module _ (t2packet : List ℕ) (upl : ℕ) (long : 187 ≤ upl) (few : upl ≤ 8210) where
  part_lem :
      (pos : ℕ) (out : Output)
      → pos < upl
      → out.output_buf_offset + out.output_bytes + (upl - pos + 1) ≤ out.output_buf_size
      → out.output_buf_size < 2 ^ 31
      → copy_part t2packet upl pos out ≡ written (0x47 ∷ read_bytes (upl - pos) t2packet pos) out
  unfolding copy_part
  part_lem pos out more room small =
      let n = upl - pos in
      let size = length-read_bytes n t2packet pos in
      let goes_on : ltb pos upl ≡ true = ground arith in
      let inside : ltb (t2packet_size - (n + 1)) pos ≡ false = ltb-le _ _ (omega (arith, few)) in
      rw (goes_on, inside, is_inside out (n + 1) room small)
        (put-written (0x47 ∷ read_bytes n t2packet pos) out (omega (arith, size, room, small)))

  last_room : u32 (upl + (2 ^ 32 - 187)) ≡ upl - 187
  last_room = omega (arith, long, few)

  frames_lem :
      (fuel pos : ℕ) (out : Output)
      → pos < upl
      → upl ≤ pos + 187 * fuel
      → out.output_buf_offset + out.output_bytes + length (with_sync fuel t2packet pos (upl - pos))
        ≤ out.output_buf_size
      → out.output_buf_size < 2 ^ 31
      → then_part t2packet upl (copy_frames fuel t2packet upl 0 pos out)
        ≡ written (with_sync fuel t2packet pos (upl - pos)) out
  unfolding copy_frames
  frames_lem zero pos out more enough room small = absurd (omega arith)
  frames_lem (suc fuel) pos out more enough room small = elim (Bool-cases (leb (upl - pos) 187)) [
    | inl last ↦
        let size = length-read_bytes (upl - pos) t2packet pos in
        let short = leb→le _ _ last in
        let ends : ltb pos (upl - 187) ≡ false = ltb-le _ _ (omega (arith, short)) in
        let room' : out.output_buf_offset
              + out.output_bytes
              + length (0x47 ∷ read_bytes (upl - pos) t2packet pos)
            ≤ out.output_buf_size =
          subst
            (λ (b : Bool).
              out.output_buf_offset
                + out.output_bytes
                + length (
                    if b
                    then 0x47 ∷ read_bytes (upl - pos) t2packet pos
                    else (0x47 ∷ read_bytes 187 t2packet pos)
                      ++ with_sync fuel t2packet (pos + 187) (upl - pos - 187))
              ≤ out.output_buf_size)
            last room in
        rw (last_room, ends, last) (part_lem pos out more (omega (arith, room', size)) small)
    | inr further ↦
        let frame = 0x47 ∷ read_bytes 187 t2packet pos in
        let size = length-read_bytes 187 t2packet pos in
        let rest = with_sync fuel t2packet (pos + 187) (upl - pos - 187) in
        let left = is_longer _ _ further in
        let goes_on : ltb pos (upl - 187) ≡ true = lt→ltb _ _ (omega (arith, left, long)) in
        let inside : ltb (t2packet_size - 187) pos ≡ false = ltb-le _ _ (omega (arith, few)) in
        let room' : out.output_buf_offset + out.output_bytes + length (frame ++ rest)
            ≤ out.output_buf_size =
          subst
            (λ (b : Bool).
              out.output_buf_offset
                + out.output_bytes
                + length (if b then 0x47 ∷ read_bytes (upl - pos) t2packet pos else frame ++ rest)
              ≤ out.output_buf_size)
            further room in
        let next : ℕ = pos + (187 + 0) in
        let same_rest : upl - (pos + 187) ≡ upl - pos - 187 = omega arith in
        let free : is_out_of_bounds out ts_packet_size ≡ false =
          is_inside out ts_packet_size (omega (arith, room', length-append frame rest, size))
            small in
        rw (last_room, goes_on, inside, free, further)
          (ap₂
              (λ (i : ℕ) (o : Output). then_part t2packet upl (copy_frames fuel t2packet upl 0 i o))
              {x = next} {y = pos + 187} (omega arith)
              (put-written frame out (omega (arith, room', small, length-append frame rest)))
            ∙ frames_lem fuel (pos + 187) (written frame out) (omega (arith, left))
                (omega (arith, enough))
                (subst
                  (λ (m : ℕ).
                    out.output_buf_offset
                      + (out.output_bytes + length frame)
                      + length (with_sync fuel t2packet (pos + 187) m)
                    ≤ out.output_buf_size)
                  (sym same_rest) (omega (arith, room', length-append frame rest)))
                small
            ∙ ap (λ (m : ℕ). written (with_sync fuel t2packet (pos + 187) m) (written frame out))
                same_rest
            ∙ written-written frame rest out)
  ]

  -- With a data field of 168 bytes or more (`upl` is its size and 19, at most 8210), a synchronisation
  -- distance that ends inside it, and no deleted packets, where the output has room below 2^31, the
  -- bytes behind the synchronisation distance are written with a sync byte before each 187 of them,
  -- and before what is left of them, behind what was written before.
  pub copy_aligned_lem :
      (syncd : ℕ) (out : Output)
      → 19 + syncd < upl
      → out.output_buf_offset
          + out.output_bytes
          + length (with_sync 352 t2packet (19 + syncd) (upl - (19 + syncd)))
        ≤ out.output_buf_size
      → out.output_buf_size < 2 ^ 31
      → copy_aligned t2packet upl 0 syncd out
        ≡ written (with_sync 352 t2packet (19 + syncd) (upl - (19 + syncd))) out
  unfolding copy_aligned
  copy_aligned_lem syncd out more room small =
      frames_lem 352 (19 + syncd) out more (omega (arith, few)) room small
