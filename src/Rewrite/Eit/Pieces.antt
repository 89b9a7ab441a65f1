-- ===== src/Rewrite/Eit/Pieces.antt =====
-- The packets of an EIT section (src/rewrite_eit.c) one after the other, as `get_ts_packet`
-- (src/ts.c) takes them.
use mu_mu_dvb.Rewrite.Eit.Calls.{received_step, called-IsValid, piece_code, received_end}
use mu_mu_dvb.Prelude.{append_assoc, subst, length-replicate, length-append, sym, map, ◌*◌}
use mu_mu_dvb.Prelude.{append-nil, ap, ◌∙◌, ap₂, ltb, leb, read_bytes, replicate, if◌then◌else◌}
use mu_mu_dvb.Prelude.{◌<◌, ◌≤◌, ◌%◌, ◌+◌, ◌++◌, ◌-◌, ◌==◌, length, ◌≡◌, Bool, ℕ, zero, suc, List}
use mu_mu_dvb.Prelude.{[], ◌∷◌, none, some, true, false, refl, arith}
use mu_mu_dvb.Ts.Assemble.{feed_more, feed_last, next_cc, Gathers}
use mu_mu_dvb.Ts.Get.{get_ts_packet}
use mu_mu_dvb.Rewrite.Eit.Carry.{carry_next, is_start_code}
use mu_mu_dvb.Ts.Store.{push, Holds}
use mu_mu_dvb.Ts.Run.{received}
use mu_mu_dvb.Ts.Valid.{IsValid, IsSound}
use mu_mu_dvb.Ts.Packet.{TsPacket}
use mu_mu_dvb.Rewrite.Bytes.{read-middle}
use mu_mu_dvb.Rewrite.Eit.Send.{eit_header, send_section}
use mu_mu_dvb.Channel.Buffer.{ts_packet_size}

-- The loop with no bytes left.
send_none : (fuel : ℕ) (bytes : List ℕ) (sent cc' : ℕ) → (send_section fuel bytes sent 0 cc').0 ≡ []
unfolding send_section
send_none zero bytes sent cc' = refl
send_none (suc fuel) bytes sent cc' = refl

abbrev room : Bool → ℕ
room first = if first then 183 else 184

-- A round that sends `n` bytes.
send_round :
    (fuel : ℕ) (bytes : List ℕ) (sent left cc' n : ℕ) (first : Bool)
    → 0 < left
    → (sent == 0) ≡ first
    → (if leb (room first) left then room first else left) ≡ n
    → (send_section (suc fuel) bytes sent left cc').0
      ≡ (eit_header first cc' ++ (read_bytes n bytes sent ++ replicate (room first - n) 0xff))
        ∷ (send_section fuel bytes (sent + n) (left - n) ((cc' + 1) % 16)).0
unfolding send_section
send_round fuel bytes sent left cc' n true more is_first e =
    let go_on : ltb 0 left ≡ true = ground arith in rw (is_first, go_on, e) refl
send_round fuel bytes sent left cc' n false more is_first e =
    let go_on : ltb 0 left ≡ true = ground arith in rw (is_first, go_on, e) refl

-- A round that fills a packet with the piece `x` of the bytes.
pub send_whole :
    (fuel : ℕ) (bytes x rest : List ℕ) (m cc : ℕ) (first : Bool)
    → (length bytes == 0) ≡ first
    → length x ≡ room first
    → 0 < length x
    → (send_section (suc fuel) (bytes ++ (x ++ rest)) (length bytes) (length x + m) cc).0
      ≡ (eit_header first cc ++ x)
        ∷ (send_section fuel (bytes ++ (x ++ rest)) (length bytes + length x) m ((cc + 1) % 16)).0
send_whole fuel bytes x rest m cc' first is_first size nonempty =
    let no_pad : room first - length x ≡ 0 = omega (arith, size) in
    let piece : read_bytes (length x) (bytes ++ (x ++ rest)) (length bytes)
          ++ replicate (room first - length x) 0xff
        ≡ x =
      ap₂ (λ (r : List ℕ) (n : ℕ). r ++ replicate n 0xff) (read-middle bytes x rest) no_pad
      ∙ append-nil x in
    let left : length x + m - length x ≡ m = omega arith in
    send_round fuel (bytes ++ (x ++ rest)) (length bytes) (length x + m) cc' (length x) first
      (omega arith) is_first (ground (arith, size))
    ∙ ap₂
        (λ (r : List ℕ) (n : ℕ).
          (eit_header first cc' ++ r)
          ∷ (send_section fuel (bytes ++ (x ++ rest)) (length bytes + length x) n
              ((cc' + 1) % 16)).0)
        piece left

-- The round that sends the last piece `x`, with stuffing behind it.
pub send_last :
    (fuel : ℕ) (bytes x tail : List ℕ) (cc' : ℕ) (first : Bool)
    → (length bytes == 0) ≡ first
    → length x ≤ room first
    → 0 < length x
    → (send_section (suc fuel) (bytes ++ (x ++ tail)) (length bytes) (length x) cc').0
      ≡ (eit_header first cc' ++ (x ++ replicate (room first - length x) 0xff)) ∷ []
send_last fuel bytes x tail cc' first is_first size nonempty =
    let left : length x - length x ≡ 0 = omega arith in
    send_round fuel (bytes ++ (x ++ tail)) (length bytes) (length x) cc' (length x) first
      (omega arith) is_first (ground (arith, size))
    ∙ ap₂
        (λ (r : List ℕ) (n : ℕ).
          (eit_header first cc' ++ (r ++ replicate (room first - length x) 0xff))
          ∷ (send_section fuel (bytes ++ (x ++ tail)) (length bytes + length x) n
              ((cc' + 1) % 16)).0)
        (read-middle bytes x tail) left
    ∙ ap
        (λ (ps : List (List ℕ)).
          (eit_header first cc' ++ (x ++ replicate (room first - length x) 0xff)) ∷ ps)
        (send_none fuel (bytes ++ (x ++ tail)) (length bytes + length x) ((cc' + 1) % 16))

-- Where the packets of a section of the bytes `s` begin, there is no start code.
abbrev pub HasNoCode : List ℕ → Type 0
HasNoCode s = (k : ℕ) → is_start_code s (183 + 184 * k) ≡ false

-- The packet with the last piece.
pub deliver_last :
    (fuel k : ℕ) (bytes r tail s : List ℕ) (prev : ℕ) (p : TsPacket)
    → length r ≤ 184
    → 0 < length r
    → length bytes ≡ 183 + 184 * k
    → s ≡ bytes ++ r
    → IsSound s
    → HasNoCode s
    → prev < 16
    → IsValid p []
    → Gathers p [] 18 prev (length s) bytes
    → received
        (map some
            (send_section
              (suc fuel)
              (bytes ++ (r ++ tail))
              (length bytes)
              (length r)
              (next_cc prev)).0
          ++ (none ∷ []))
        p
      ≡ s ∷ []
deliver_last fuel k bytes r tail s prev p small nonempty at whole sound plain h v g =
    let no_code : is_start_code (bytes ++ (r ++ [])) (183 + 184 * k) ≡ false =
      ap (λ (b : List ℕ). is_start_code b (183 + 184 * k))
        (ap (λ (b : List ℕ). bytes ++ b) (append-nil r) ∙ sym whole)
      ∙ plain k in
    let later : (length bytes == 0) ≡ false = ground (arith, at) in
    let pad : List ℕ = replicate (184 - length r) 0xff in
    let size : length (r ++ pad) ≡ 184 =
      omega (arith, length-append r pad, length-replicate {A = ℕ} (184 - length r) 0xff, small) in
    let pk : List ℕ = eit_header false (next_cc prev) ++ (r ++ pad) in
    ap (λ (ps : List (List ℕ)). received (map some ps ++ (none ∷ [])) p)
      (send_last fuel bytes r tail (next_cc prev) false later small nonempty)
    ∙ received_end pk p s (omega (arith, size)) v sound (
        subst (λ (p' : TsPacket). Holds p' (push [] s))
          (sym (
            carry_next (r ++ pad) (next_cc prev) p size (omega arith)
              (piece_code bytes r [] (184 - length r) (183 + 184 * k) at no_code (omega arith))
              v.holds))
          (feed_last p [] 18 prev s bytes r pad h sound g whole))

-- A packet that is filled with the piece `x`, and the state behind it.
pub deliver_piece :
    (fuel k : ℕ) (bytes x y tail s : List ℕ) (prev : ℕ) (p : TsPacket)
    → length x ≡ 184
    → 0 < length y
    → length bytes ≡ 183 + 184 * k
    → s ≡ bytes ++ (x ++ y)
    → IsSound s
    → HasNoCode s
    → prev < 16
    → IsValid p []
    → Gathers p [] 18 prev (length s) bytes
    → (p' : TsPacket) × IsValid p' []
      × Gathers p' [] 18 (next_cc prev) (length s) (bytes ++ x)
      × (received
            (map some
                (send_section
                  (suc fuel)
                  (bytes ++ ((x ++ y) ++ tail))
                  (length bytes)
                  (length (x ++ y))
                  (next_cc prev)).0
              ++ (none ∷ []))
            p
          ≡ received
              (map some
                  (send_section fuel
                    ((bytes ++ x) ++ (y ++ tail))
                    (length (bytes ++ x))
                    (length y)
                    (next_cc (next_cc prev))).0
                ++ (none ∷ []))
              p')
deliver_piece fuel k bytes x y tail s prev p nx nonempty at whole sound plain h v g =
    let no_code : is_start_code (bytes ++ (x ++ y)) (183 + 184 * k) ≡ false =
      ap (λ (b : List ℕ). is_start_code b (183 + 184 * k)) (sym whole) ∙ plain k in
    let later : (length bytes == 0) ≡ false = ground (arith, at) in
    let pk : List ℕ = eit_header false (next_cc prev) ++ x in
    let size : length pk ≡ ts_packet_size = omega (arith, nx) in
    let total : length s ≡ length bytes + (length x + length y) =
      ap length whole
      ∙ length-append bytes (x ++ y)
      ∙ ap (λ (n : ℕ). length bytes + n) (length-append x y) in
    let step =
      carry_next x (next_cc prev) p nx (omega arith)
        (ap (λ (b : List ℕ). is_start_code b 0) (sym (append-nil x))
          ∙ piece_code bytes x y 0 (183 + 184 * k) at no_code (omega (arith, nx)))
        v.holds in
    let p' = (get_ts_packet (some pk) p).0 in
    let g' : Gathers p' [] 18 (next_cc prev) (length s) (bytes ++ x) =
      subst (λ (q : TsPacket). Gathers q [] 18 (next_cc prev) (length s) (bytes ++ x)) (sym step)
        (feed_more p [] 18 prev (length s) bytes x h g (omega (arith, total))) in
    let text : bytes ++ ((x ++ y) ++ tail) ≡ bytes ++ (x ++ (y ++ tail)) =
      ap (λ (b : List ℕ). bytes ++ b) (append_assoc x y tail) in
    let moved : bytes ++ (x ++ (y ++ tail)) ≡ (bytes ++ x) ++ (y ++ tail) =
      sym (append_assoc bytes x (y ++ tail)) in
    let rest =
      λ (b : List ℕ) (n : ℕ). (send_section fuel b n (length y) (next_cc (next_cc prev))).0 in
    let packets : (send_section (suc fuel) (bytes ++ ((x ++ y) ++ tail)) (length bytes)
          (length (x ++ y)) (next_cc prev)).0
        ≡ pk ∷ rest ((bytes ++ x) ++ (y ++ tail)) (length (bytes ++ x)) =
      ap₂ (λ (b : List ℕ) (n : ℕ). (send_section (suc fuel) b (length bytes) n (next_cc prev)).0)
        text (length-append x y)
      ∙ send_whole fuel bytes x (y ++ tail) (length y) (next_cc prev) false later nx
          (omega (arith, nx))
      ∙ ap₂ (λ (b : List ℕ) (n : ℕ). pk ∷ rest b n) moved (sym (length-append bytes x)) in
    (
      p',
      called-IsValid pk p [] size v tt g'.holds,
      g',
      ap (λ (ps : List (List ℕ)). received (map some ps ++ (none ∷ [])) p) packets
          ∙ received_step pk
              (map some (rest ((bytes ++ x) ++ (y ++ tail)) (length (bytes ++ x))) ++ (none ∷ [])) p
              size v,
    )
