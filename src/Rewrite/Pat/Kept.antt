-- ===== src/Rewrite/Pat/Kept.antt =====
-- The loops of `pat_channel_rewrite` (src/rewrite_pat.c) keep exactly the first wanted programmes.
use mu_mu_dvb.Prelude.{sym, length-append, ◌/◌, ◌-◌, append_assoc, subst, ◌||◌, ltb, ◌==◌}
use mu_mu_dvb.Prelude.{Bool-cases, length-drop, ap, length-take, ◌∙◌, drop, take, min, ◌&&◌, ◌*◌}
use mu_mu_dvb.Prelude.{Bool, append-nil, ◌++◌, ◌≤◌, ◌+◌, ◌≡◌, length, ℕ, zero, suc, List, [], ◌∷◌}
use mu_mu_dvb.Prelude.{refl, arith, inl, inr, true, false}
use mu_mu_dvb.Ts.Header.{section_length-lt}
use mu_mu_dvb.Rewrite.Pat.{section_length, ts_header_len, pat_buf_dest, copy_programs}
use mu_mu_dvb.Rewrite.Pat.{ts_packet_size, word13, word16, PatChannel, copy_program}
use mu_mu_dvb.Rewrite.Pat.{visit_program}
use mu_mu_dvb.Rewrite.Pat.Programs.{wanted_from, wanted, Fills-more, matching-sizes, Fills-full}
use mu_mu_dvb.Rewrite.Pat.Programs.{length-Fills, max_programs, matching, wanted_at, Fills}
use mu_mu_dvb.Ts.Store.{concat}
use mu_mu_dvb.Ts.Packet.{max_ts_size}

module _ (head : List ℕ) (thirteen : length head ≡ 13) where
  copy_program-Fills :
      (pids : List ℕ) (network_pid : ℕ) (prog dest : List ℕ) (kept : List (List ℕ))
      → length prog ≡ 4
      → Fills head kept dest
      → Fills head
          (kept ++ matching pids network_pid prog)
          (copy_program pids network_pid prog dest)
  unfolding copy_program
  copy_program-Fills [] network_pid prog dest kept size f = rw (append-nil kept) f
  copy_program-Fills (pid ∷ pids) network_pid prog dest kept size f =
      let n : length dest ≡ 13 + 4 * min max_programs (length kept) =
        length-Fills head dest kept f
        ∙ ap (λ (k : ℕ). k + 4 * min max_programs (length kept)) thirteen in
      elim (Bool-cases (pid == network_pid)) [
        | inl found ↦ elim (Bool-cases (ltb ts_packet_size (length dest + 4 + 4 + 1))) [
          | inl full ↦
              rw (found, full)
                (Fills-full head dest kept (prog ∷ matching pids network_pid prog)
                  (ground (arith, n, full)) (size, matching-sizes pids network_pid prog size) f)
          | inr space ↦
              rw (found, space)
                (subst
                  (λ (q : List (List ℕ)).
                    Fills head q (copy_program pids network_pid prog (dest ++ prog)))
                  (append_assoc kept (prog ∷ []) (matching pids network_pid prog))
                  (copy_program-Fills pids network_pid prog (dest ++ prog) (kept ++ (prog ∷ []))
                    size (Fills-more head dest prog kept (ground (arith, n, space)) size f)))
        ]
        | inr other ↦ rw other (copy_program-Fills pids network_pid prog dest kept size f)
      ]

  visit_program-Fills :
      (channel : PatChannel) (bytes dest : List ℕ) (delta : ℕ) (kept : List (List ℕ))
      → delta + 4 ≤ length bytes
      → Fills head kept dest
      → Fills head (kept ++ wanted_at channel bytes delta) (visit_program channel bytes delta dest)
  unfolding visit_program
  visit_program-Fills channel bytes dest delta kept fits f =
      let number = word16 bytes delta in
      let prog = take 4 (drop delta bytes) in
      let size : length prog ≡ 4 =
        omega (arith, length-take 4 (drop delta bytes), length-drop delta bytes) in
      let n : length dest ≡ 13 + 4 * min max_programs (length kept) =
        length-Fills head dest kept f
        ∙ ap (λ (k : ℕ). k + 4 * min max_programs (length kept)) thirteen in
      let found = matching channel.pids (word13 bytes (delta + 2)) prog in
      elim (Bool-cases (number == 0)) [
        | inl network ↦ rw (network, append-nil kept) f
        | inr program ↦
            elim (Bool-cases (channel.service_id == 0 || channel.service_id == number)) [
              | inl served ↦ elim (Bool-cases (ltb (length dest + 4 + 4) ts_packet_size)) [
                | inl space ↦
                    rw (program, served, space)
                      (copy_program-Fills channel.pids (word13 bytes (delta + 2)) prog dest kept
                        size f)
                | inr full ↦
                    rw (program, served, full)
                      (Fills-full head dest kept found (ground (arith, n, full))
                        (matching-sizes channel.pids (word13 bytes (delta + 2)) prog size) f)
              ]
              | inr other ↦
                  rw
                    (
                      program,
                      other,
                      and_false (ltb (length dest + 4 + 4) ts_packet_size),
                      append-nil kept,
                    )
                    f
            ]
      ]
    where
      and_false : (b : Bool) → (b && false) ≡ false
      and_false true = refl
      and_false false = refl

  -- `k` programmes are left at `delta`.
  copy_programs-Fills :
      (k fuel : ℕ) (channel : PatChannel) (bytes dest : List ℕ) (len delta : ℕ)
      (kept : List (List ℕ))
      → k ≡ (len - (delta + 1)) / 4
      → k ≤ fuel
      → len ≤ length bytes
      → Fills head kept dest
      → Fills head
          (kept ++ wanted_from k channel bytes delta)
          (copy_programs fuel channel bytes len delta dest)
  unfolding copy_programs
  copy_programs-Fills zero zero channel bytes dest len delta kept e enough fits f =
      rw (append-nil kept) f
  copy_programs-Fills zero (suc fuel) channel bytes dest len delta kept e enough fits f =
      let done : ltb (delta + 4) len ≡ false = ground (arith, e) in rw (done, append-nil kept) f
  copy_programs-Fills (suc k) zero channel bytes dest len delta kept e enough fits f =
      absurd (omega arith)
  copy_programs-Fills (suc k) (suc fuel) channel bytes dest len delta kept e enough fits f =
      let more : ltb (delta + 4) len ≡ true = ground (arith, e) in
      let next = visit_program channel bytes delta dest in
      rw more (
        subst
          (λ (q : List (List ℕ)).
            Fills head q (copy_programs fuel channel bytes len (delta + 4) next))
          (append_assoc kept (wanted_at channel bytes delta)
            (wanted_from k channel bytes (delta + 4)))
          (copy_programs-Fills k fuel channel bytes next len (delta + 4)
            (kept ++ wanted_at channel bytes delta) (omega (arith, e)) (omega arith) fits
            (visit_program-Fills channel bytes dest delta kept (omega (arith, e)) f)))

pat_head : List ℕ → List ℕ → List ℕ
pat_head buf data_full = take ts_header_len buf ++ take 8 data_full

module _ (channel : PatChannel) (buf data_full : List ℕ) (size : length buf ≡ ts_packet_size)
    (full : length data_full ≡ max_ts_size) where
  length-pat_head : length (pat_head buf data_full) ≡ 13
  unfolding pat_head
  length-pat_head = omega (
    arith,
    length-append (take ts_header_len buf) (take 8 data_full),
    length-take ts_header_len buf,
    length-take 8 data_full,
  )

  pat_buf_dest-Fills :
      Fills (pat_head buf data_full) (wanted channel data_full) (pat_buf_dest channel buf data_full)
  unfolding pat_buf_dest pat_head concat
  pat_buf_dest-Fills =
      let len = section_length data_full in
      copy_programs-Fills (pat_head buf data_full) length-pat_head ((len - 9) / 4) len channel
        data_full (pat_head buf data_full) len 8 [] refl (omega arith)
        (omega (arith, section_length-lt data_full))
        (record { bytes = sym (append-nil (pat_head buf data_full)); sizes = tt })

  -- What is written before the section is closed: the header of the packet, the header of the PAT, and
  -- the programmes that the channel wants, up to 42 of them, in their order.
  pub pat_buf_dest_lem :
      pat_buf_dest channel buf data_full
      ≡ (take ts_header_len buf ++ take 8 data_full)
        ++ concat (take max_programs (wanted channel data_full))
  unfolding pat_head
  pat_buf_dest_lem = pat_buf_dest-Fills.bytes

  -- It leaves room for the checksum in the packet.
  pub pat_buf_dest-size :
      (13 ≤ length (pat_buf_dest channel buf data_full))
      × (length (pat_buf_dest channel buf data_full) ≤ 181)
  pat_buf_dest-size =
      let n =
        length-Fills (pat_head buf data_full) (pat_buf_dest channel buf data_full)
          (wanted channel data_full) pat_buf_dest-Fills in
      (omega (arith, n, length-pat_head), omega (arith, n, length-pat_head))
