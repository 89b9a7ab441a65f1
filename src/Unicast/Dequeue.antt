-- ===== src/Unicast/Dequeue.antt =====
-- Sending from the queue of a client (`unicast_data_send` of src/unicast_queue.c): packets go out
-- in their order, unless `send` takes a part of one.
use mu_mu_dvb.Unicast.Refine.{remove_data-Queues, requeue-Queues, total, add_data-Queues, Queues}
use mu_mu_dvb.Unicast.Queue.{remove_data, add_data, Queue, granted}
use mu_mu_dvb.Unicast.Rounds.{first_packet, sent_now, dequeued, send_more, dequeued-Queues}
use mu_mu_dvb.Unicast.Rounds.{send_last, send_short, after_failure, send_none}
use mu_mu_dvb.Prelude.{drop, ltb, ◌<◌, ◌+◌, subst, arith, take_all, ◌≤◌, append_assoc, ◌==◌, take}
use mu_mu_dvb.Prelude.{length, sym, Bool-cases, ◌∙◌, Option, ap, append-nil, ◌++◌, ℕ, ◌≡◌, List}
use mu_mu_dvb.Prelude.{refl, [], ◌∷◌, zero, suc, true, false, inl, inr}
use mu_mu_dvb.Unicast.Client.{queue_behind, serve_client, send_loop, failed, written, wrote}
use mu_mu_dvb.Unicast.Client.{is_short, requeue_unsent, bytes_out, note_error, keep_unsent, Sent}
use mu_mu_dvb.Unicast.Client.{Client, Answers, Settings}
use mu_mu_dvb.Unicast.Sending.{send_failed-queue}
use mu_mu_dvb.Unicast.Order.{Conserves, IsWhole}
use mu_mu_dvb.Ts.Store.{concat}

concat-append : (q : List (List ℕ)) (d : List ℕ) → concat (q ++ (d ∷ [])) ≡ concat q ++ d
unfolding concat
concat-append [] d = append-nil d
concat-append (c ∷ q) d =
    ap (λ (r : List ℕ). c ++ r) (concat-append q d) ∙ sym (append_assoc c (concat q) d)

module _ (settings : Settings) (answers : Answers) (granting : answers.memory ≡ granted)
    (allocating : answers.allocated ≡ true) (keeping : settings.flush_on_eagain ≡ false) where
  -- With no byte out the queue stays as it is.
  keep_all :
      (h : Queue) (d : List ℕ) (n : Option ℕ) (e : ℕ)
      → bytes_out n ≡ 0
      → keep_unsent settings answers h d true n e ≡ h
  unfolding keep_unsent requeue_unsent
  keep_all h d n e none_out = rw (keeping, none_out) refl

  -- An error sends no byte.
  error_out : (c : Client) (e : ℕ) → bytes_out (note_error c (failed e)).1 ≡ 0
  unfolding note_error
  error_out c e = elim (Bool-cases (e == c.last_write_error)) [
    | inl same ↦ rw same refl
    | inr new ↦ rw new refl
  ]

  short-Conserves :
      (i : ℕ) (c : Client) (d out : List ℕ) (q : List (List ℕ)) (a : Sent)
      → Queues c.queue (d ∷ q)
      → answers.send i d ≡ a
      → ((n : ℕ) → a ≡ wrote n → length d ≤ n)
      → is_short (written a) (length d) ≡ true
      → Conserves (after_failure settings answers i c d true out) (out ++ (d ++ concat q))
  unfolding concat
  short-Conserves i c d out q (wrote n) s e whole short =
      absurd (ground (arith, whole n refl, short))
  short-Conserves i c d out q (failed x) s e whole short = record {
    packets = d ∷ q;
    holds =
        rw
          (
            send_failed-queue settings answers granting allocating c d true (answers.send i d),
            e,
            keep_all c.queue d (note_error c (failed x)).1 x (error_out c x),
          )
          s;
    order = rw (e, append-nil out) refl;
  }

  -- A packet that went out whole.
  whole_out :
      (i : ℕ) (d : List ℕ) (a : Sent)
      → is_short (written a) (length d) ≡ false
      → take (bytes_out (written a)) d ≡ d
  whole_out i d (wrote n) whole = take_all n d (ground arith)
  whole_out i d (failed x) whole = absurd (ground (arith, whole))

  queued-Conserves :
      (left i : ℕ) (c : Client) (d out : List ℕ) (q : List (List ℕ))
      → IsWhole answers
      → Queues c.queue (d ∷ q)
      → Conserves (send_loop settings answers left i c d true out) (out ++ (d ++ concat q))
  unfolding concat
  queued-Conserves zero i c d out q all s =
      rw (send_none settings answers i c d true out)
        (record { packets = d ∷ q; holds = s; order = refl })
  queued-Conserves (suc left) i c d out [] all s =
      elim (Bool-cases (is_short (written (answers.send i d)) (length d))) [
        | inl short ↦
            rw (send_short settings answers left i c d true out short)
              (short-Conserves i c d out [] (answers.send i d) s refl (all i d) short)
        | inr whole ↦ rw (send_last settings answers left i c d out whole s) (record {
          packets = [];
          holds = dequeued-Queues c d [] s;
          order = rw (whole_out i d (answers.send i d) whole) (append_assoc out d []);
        })
      ]
  queued-Conserves (suc left) i c d out (e ∷ q) all s =
      elim (Bool-cases (is_short (written (answers.send i d)) (length d))) [
        | inl short ↦
            rw (send_short settings answers left i c d true out short)
              (short-Conserves i c d out (e ∷ q) (answers.send i d) s refl (all i d) short)
        | inr whole ↦ rw (send_more settings answers left i c d out whole e q s) (
            subst
              (λ bytes.
                Conserves
                  (send_loop settings answers left (i + 1) (dequeued c) e true
                    (sent_now settings answers left i c d out whole))
                  bytes)
              (ap (λ b. (out ++ b) ++ (e ++ concat q)) (whole_out i d (answers.send i d) whole)
                ∙ append_assoc out d (e ++ concat q))
              (queued-Conserves left (i + 1) (dequeued c) e
                (sent_now settings answers left i c d out whole) q all
                (dequeued-Queues c d (e ∷ q) s)))
      ]

  -- The client with the buffer behind its packets.
  abbrev behind : Client → List ℕ → Client
  behind c buffer = record c { queue = (add_data granted c.queue buffer).0 }

  behind-Queues :
      (c : Client) (d buffer : List ℕ) (q : List (List ℕ))
      → Queues c.queue (d ∷ q)
      → Queues (behind c buffer).queue (d ∷ (q ++ (buffer ∷ [])))
  behind-Queues c d buffer q s = (add_data-Queues c.queue (d ∷ q) buffer s).1

  serve_client-queued :
      (c : Client) (d buffer : List ℕ) (q : List (List ℕ))
      → Queues c.queue (d ∷ q)
      → total (d ∷ q) + length buffer < settings.queue_max_size
      → serve_client settings answers c buffer
        ≡ send_loop settings answers 3 0 (behind c buffer) d true []
  unfolding serve_client queue_behind
  serve_client-queued c d buffer q s fits =
      let waiting : (c.queue.packets_in_queue == 0) ≡ false = ground (arith, s.packets) in
      let room : ltb (c.queue.data_bytes_in_queue + length buffer) settings.queue_max_size ≡ true =
        ground (arith, s.size) in
      rw
        (
          waiting,
          room,
          granting,
          first_packet (behind c buffer).queue d (q ++ (buffer ∷ []))
              (behind-Queues c d buffer q s),
        )
        refl

  -- One buffer for a client whose queue holds packets, with flush_on_eagain off, room for the buffer
  -- and memory: if `send` takes each packet whole or not at all, then what is sent and then what is
  -- queued are the bytes of the queue and then the buffer.
  pub serve_client-continues :
      (c : Client) (d buffer : List ℕ) (q : List (List ℕ))
      → Queues c.queue (d ∷ q)
      → total (d ∷ q) + length buffer < settings.queue_max_size
      → IsWhole answers
      → Conserves (serve_client settings answers c buffer) (concat (d ∷ q) ++ buffer)
  unfolding concat
  serve_client-continues c d buffer q s fits all = rw (serve_client-queued c d buffer q s fits) (
      subst (λ bytes. Conserves (send_loop settings answers 3 0 (behind c buffer) d true []) bytes)
        (concat-append (d ∷ q) buffer)
        (queued-Conserves 3 0 (behind c buffer) d [] (q ++ (buffer ∷ [])) all
          (behind-Queues c d buffer q s)))

  -- The same client, with at least two packets, when `send` takes a part of the first one: what the
  -- first one has left takes the place of the second one, no byte of which is sent or queued.
  pub serve_client_loses :
      (c : Client) (d e buffer : List ℕ) (q : List (List ℕ)) (n : ℕ)
      → Queues c.queue (d ∷ e ∷ q)
      → total (d ∷ e ∷ q) + length buffer < settings.queue_max_size
      → answers.send 0 d ≡ wrote n
      → 0 < n
      → n < length d
      → let s = serve_client settings answers c buffer in
        (s.sent ≡ take n d) × Queues s.client.queue (drop n d ∷ (q ++ (buffer ∷ [])))
  unfolding keep_unsent requeue_unsent note_error
  serve_client_loses c d e buffer q n s fits partial some_byte part =
      let b : Client = behind c buffer in
      let queued : Queues b.queue (d ∷ e ∷ (q ++ (buffer ∷ []))) =
        behind-Queues c d buffer (e ∷ q) s in
      let short : is_short (written (answers.send 0 d)) (length d) ≡ true =
        rw partial (ground arith) in
      let some_out : ltb 0 n ≡ true = ground arith in
      rw
        (
          serve_client-queued c d buffer (e ∷ q) s fits,
          send_short settings answers 2 0 b d true [] short,
          send_failed-queue settings answers granting allocating b d true (answers.send 0 d),
          partial,
          keeping,
          some_out,
          allocating,
        )
        (
          refl,
          (requeue-Queues (remove_data b.queue).0 e (q ++ (buffer ∷ [])) (drop n d)
              (remove_data-Queues b.queue d (e ∷ (q ++ (buffer ∷ []))) queued).3).1,
        )
