-- ===== src/Rewrite/Eit/Delivered.antt =====
-- The packets of an EIT section (src/rewrite_eit.c) are put together again by `get_ts_packet`
-- (src/ts.c).
use mu_mu_dvb.Ts.Store.{concat, push, Holds}
use mu_mu_dvb.Rewrite.Delivered.{IsStuffing-replicate}
use mu_mu_dvb.Rewrite.Eit.Calls.{called-IsValid, received_step, received_end}
use mu_mu_dvb.Ts.Several.{add_several}
use mu_mu_dvb.Rewrite.Eit.Pieces.{send_whole, deliver_piece, send_last, deliver_last, HasNoCode}
use mu_mu_dvb.Ts.Whole.{start_first, three-length}
use mu_mu_dvb.Prelude.{append_assoc, ap₂, subst, length-drop, get_or, drop, length-take, take}
use mu_mu_dvb.Prelude.{sym, take-append-drop, get_or-append, u8, ◌∙◌, length-replicate}
use mu_mu_dvb.Prelude.{length-append, ap, leb, Bool-cases, ◌-◌, replicate, map, ◌*◌, ◌+◌, ◌++◌}
use mu_mu_dvb.Prelude.{◌<◌, ◌≡◌, ◌==◌, ◌≤◌, length, ℕ, zero, suc, List, [], ◌∷◌, none, some, true}
use mu_mu_dvb.Prelude.{false, refl, arith, inl, inr}
use mu_mu_dvb.Ts.Get.{get_ts_packet}
use mu_mu_dvb.Rewrite.Eit.Carry.{carry_first}
use mu_mu_dvb.Ts.Packet.{ts_packet_size, TsPacket}
use mu_mu_dvb.Rewrite.Eit.Send.{eit_header, send_section}
use mu_mu_dvb.Ts.Assemble.{next_cc, Gathers}
use mu_mu_dvb.Ts.Run.{received}
use mu_mu_dvb.Ts.Valid.{IsValid, IsSound}
use mu_mu_dvb.Crc.Calc.{byte_at}

-- The packets behind the first one.
deliver_rest :
    (fuel k : ℕ) (bytes r tail s : List ℕ) (prev : ℕ) (p : TsPacket)
    → length r ≤ fuel
    → 0 < length r
    → length bytes ≡ 183 + 184 * k
    → s ≡ bytes ++ r
    → IsSound s
    → HasNoCode s
    → prev < 16
    → IsValid p []
    → Gathers p [] 18 prev (length s) bytes
    → received
        (map some
            (send_section fuel (bytes ++ (r ++ tail)) (length bytes) (length r) (next_cc prev)).0
          ++ (none ∷ []))
        p
      ≡ s ∷ []
deliver_rest zero k bytes r tail s prev p enough nonempty at whole sound plain h v g =
    absurd (omega arith)
deliver_rest (suc fuel) k bytes r tail s prev p enough nonempty at whole sound plain h v g =
    elim (Bool-cases (leb (length r) 184)) [
      | inl last ↦
          deliver_last fuel k bytes r tail s prev p (ground (arith, last)) nonempty at whole sound
            plain h v g
      | inr more ↦
          let big : 184 < length r = ground (arith, more) in
          let x = take 184 r in
          let y = drop 184 r in
          let nx : length x ≡ 184 = omega (arith, length-take 184 r, big) in
          let ny : length y ≡ length r - 184 = length-drop 184 r in
          let cut : x ++ y ≡ r = take-append-drop 184 r in
          let next =
            deliver_piece fuel k bytes x y tail s prev p nx (omega (arith, ny, big)) at
              (whole ∙ ap (λ (b : List ℕ). bytes ++ b) (sym cut)) sound plain h v g in
          ap
            (λ (b : List ℕ).
              received
                (map some
                    (send_section (suc fuel) (bytes ++ (b ++ tail)) (length bytes) (length b)
                      (next_cc prev)).0
                  ++ (none ∷ []))
                p)
            (sym cut)
          ∙ next.3
          ∙ deliver_rest fuel (k + 1) (bytes ++ x) y tail s (next_cc prev) next.0
              (omega (arith, ny, enough)) (omega (arith, ny, big))
              (omega (arith, length-append bytes x, nx, at))
              (whole ∙ ap (λ (b : List ℕ). bytes ++ b) (sym cut) ∙ sym (append_assoc bytes x y))
              sound plain (omega arith) next.1 next.2
    ]

-- A section that fits in one packet.
deliver_short :
    (fuel : ℕ) (s tail : List ℕ) (cc : ℕ) (pkt : TsPacket)
    → length s ≤ 183
    → IsSound s
    → (byte_at s 0 == 0) ≡ false
    → cc < 16
    → IsValid pkt []
    → received (map some (send_section (suc fuel) (s ++ tail) 0 (length s) cc).0 ++ (none ∷ [])) pkt
      ≡ s ∷ []
unfolding concat
deliver_short fuel s tail cc' pkt small sound plain h v =
    let pad : List ℕ = replicate (183 - length s) 0xff in
    let three = three-length s sound in
    let size : length (s ++ pad) ≡ 183 =
      omega (arith, length-append s pad, length-replicate {A = ℕ} (183 - length s) 0xff, small) in
    let pk : List ℕ = eit_header true cc' ++ (s ++ pad) in
    let first : (byte_at (s ++ pad) 0 == 0) ≡ false =
      ap (λ (b : ℕ). u8 b == 0) (get_or-append s pad 0 0 (omega arith)) ∙ plain in
    ap (λ (ps : List (List ℕ)). received (map some ps ++ (none ∷ [])) pkt)
      (send_last fuel [] s tail cc' true refl small (omega arith))
    ∙ received_end pk pkt s (omega (arith, size)) v sound (
        subst (λ (p' : TsPacket). Holds p' (push [] s))
          (sym (carry_first (s ++ pad) cc' pkt size h first v.holds))
          (add_several s [] pad pkt [] 18 cc' v sound tt (IsStuffing-replicate (183 - length s))))

-- A section of several packets, of which `x` is the piece in the first one.
deliver_long :
    (fuel : ℕ) (x y tail s : List ℕ) (cc : ℕ) (pkt : TsPacket)
    → length y ≤ fuel
    → length x ≡ 183
    → 0 < length y
    → s ≡ x ++ y
    → IsSound s
    → (byte_at s 0 == 0) ≡ false
    → HasNoCode s
    → cc < 16
    → IsValid pkt []
    → received
        (map some (send_section (suc fuel) ((x ++ y) ++ tail) 0 (length (x ++ y)) cc).0
          ++ (none ∷ []))
        pkt
      ≡ s ∷ []
deliver_long fuel x y tail s cc' pkt enough nx nonempty whole sound first plain h v =
    let pk : List ℕ = eit_header true cc' ++ x in
    let size : length pk ≡ ts_packet_size = omega (arith, nx) in
    let real : (byte_at x 0 == 0) ≡ false =
      ap (λ (b : ℕ). u8 b == 0)
        (sym (get_or-append x y 0 0 (omega (arith, nx)))
          ∙ ap (λ (b : List ℕ). get_or b 0 0) (sym whole))
      ∙ first in
    let step = carry_first x cc' pkt nx h real v.holds in
    let p = (get_ts_packet (some pk) pkt).0 in
    let g : Gathers p [] 18 cc' (length s) x =
      subst (λ (q : TsPacket). Gathers q [] 18 cc' (length s) x) (sym step)
        (start_first pkt [] 18 cc' s x y v.fits v.holds sound whole (omega (arith, nx)) nonempty) in
    let rest = λ (n : ℕ). (send_section fuel (x ++ (y ++ tail)) n (length y) (next_cc cc')).0 in
    let packets : (send_section (suc fuel) ((x ++ y) ++ tail) 0 (length (x ++ y)) cc').0
        ≡ pk ∷ rest (length x) =
      ap₂ (λ (b : List ℕ) (n : ℕ). (send_section (suc fuel) b 0 n cc').0) (append_assoc x y tail)
        (length-append x y)
      ∙ send_whole fuel [] x (y ++ tail) (length y) cc' true refl nx (omega (arith, nx))
      ∙ ap (λ (n : ℕ). pk ∷ rest n) {x = 0 + length x} (omega arith) in
    ap (λ (ps : List (List ℕ)). received (map some ps ++ (none ∷ [])) pkt) packets
    ∙ received_step pk (map some (rest (length x)) ++ (none ∷ [])) pkt size v
    ∙ deliver_rest fuel 0 x y tail s cc' p enough nonempty (omega (arith, nx)) whole sound plain h
        (called-IsValid pk pkt [] size v tt g.holds) g

-- The packets that are sent for a stored section, given to `get_ts_packet` in a valid state with no
-- waiting section, come back as that section, for any counter of four bits: if the section is sound
-- and begins with a table id that is not 0, and no packet behind the first one begins with the three
-- bytes that start a PES packet.
pub send_section-received :
    (s tail : List ℕ) (cc : ℕ) (pkt : TsPacket)
    → IsSound s
    → (byte_at s 0 == 0) ≡ false
    → HasNoCode s
    → cc < 16
    → IsValid pkt []
    → received (map some (send_section (length s) (s ++ tail) 0 (length s) cc).0 ++ (none ∷ [])) pkt
      ≡ s ∷ []
send_section-received s tail cc' pkt sound first plain h v =
    let three = three-length s sound in
    let fuel = length s - 1 in
    let enough : length s ≡ suc fuel = omega arith in
    elim (Bool-cases (leb (length s) 183)) [
      | inl short ↦
          ap
            (λ (n : ℕ).
              received (map some (send_section n (s ++ tail) 0 (length s) cc').0 ++ (none ∷ []))
                pkt)
            enough
          ∙ deliver_short fuel s tail cc' pkt (ground (arith, short)) sound first h v
      | inr long ↦
          let big : 183 < length s = ground (arith, long) in
          let cut = take-append-drop 183 s in
          let nx = length-take 183 s in
          let ny = length-drop 183 s in
          ap₂
            (λ (n : ℕ) (b : List ℕ).
              received (map some (send_section n (b ++ tail) 0 (length b) cc').0 ++ (none ∷ []))
                pkt)
            enough (sym cut)
          ∙ deliver_long fuel (take 183 s) (drop 183 s) tail s cc' pkt (omega (arith, ny))
              (omega (arith, nx, big)) (omega (arith, ny, big)) (sym cut) sound first plain h v
    ]
