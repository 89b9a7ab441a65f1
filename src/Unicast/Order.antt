-- ===== src/Unicast/Order.antt =====
-- The bytes of a client in their order (`unicast_data_send` of src/unicast_queue.c): what was sent,
-- and then what is queued.
use mu_mu_dvb.Unicast.Sending.{send_worked-queue, send_failed-queue}
use mu_mu_dvb.Unicast.Rounds.{send_whole, send_short, after_failure}
use mu_mu_dvb.Prelude.{◌∙◌, take_all, ap, take, Bool-cases, take-append-drop, append-nil}
use mu_mu_dvb.Prelude.{length-drop, arith, ◌+◌, ltb, drop, ◌<◌, ◌≤◌, ◌==◌, ◌++◌, length, List}
use mu_mu_dvb.Prelude.{◌≡◌, ℕ, refl, [], ◌∷◌, some, true, false, inl, inr}
use mu_mu_dvb.Unicast.Client.{is_short, serve_client, errno_after, note_error, written, bytes_out}
use mu_mu_dvb.Unicast.Client.{queue_unsent, keep_unsent, failed, wrote, Sent, Answers, Served}
use mu_mu_dvb.Unicast.Client.{Client, Settings}
use mu_mu_dvb.Unicast.Refine.{total, add_data-Queues, Queues}
use mu_mu_dvb.Unicast.Queue.{Queue, granted}
use mu_mu_dvb.Ts.Store.{concat}

-- What was sent and what the queue then holds are `bytes`.
pub record Conserves (s : Served) (bytes : List ℕ) : Type 0 where
  pub packets : List (List ℕ)
  pub holds : Queues s.client.queue packets
  pub order : s.sent ++ concat packets ≡ bytes

-- An error that was not noted before; `send` without an error is none.
abbrev pub IsNewError : Client → Sent → Type 0
IsNewError c (wrote n) = Unit
IsNewError c (failed e) = (e == c.last_write_error) ≡ false

-- `send` takes all of a buffer or nothing.
abbrev pub IsWhole : Answers → Type 0
IsWhole answers = (i : ℕ) (b : List ℕ) (n : ℕ) → answers.send i b ≡ wrote n → length b ≤ n

module _ (settings : Settings) (answers : Answers) (granting : answers.memory ≡ granted)
    (allocating : answers.allocated ≡ true) (keeping : settings.flush_on_eagain ≡ false) where
  -- What is not sent of the buffer is the only packet of the queue then.
  keep_rest :
      (c : Client) (h : Queue) (d : List ℕ) (n e : ℕ)
      → Queues h []
      → length d < settings.queue_max_size
      → Queues (keep_unsent settings answers h d false (some n) e) (drop n d ∷ [])
  unfolding keep_unsent queue_unsent total
  keep_rest c h d n e s fits =
      let room : ltb (h.data_bytes_in_queue + length (drop n d)) settings.queue_max_size ≡ true =
        ground (arith, s.size, length-drop n d) in
      rw (keeping, room, granting) (add_data-Queues h [] (drop n d) s).1

  -- The failure of the buffer itself, with the number of its bytes that went out.
  direct_failure :
      (c : Client) (d : List ℕ) (n : ℕ)
      → Queues c.queue []
      → length d < settings.queue_max_size
      → bytes_out (written (answers.send 0 d)) ≡ n
      → (note_error c (answers.send 0 d)).1 ≡ some n
      → Conserves (after_failure settings answers 0 c d false []) d
  unfolding concat
  direct_failure c d n s fits out noted = record {
    packets = drop n d ∷ [];
    holds =
        rw
          (
            send_failed-queue settings answers granting allocating c d false (answers.send 0 d),
            noted,
          )
          (keep_rest c c.queue d n (errno_after (answers.send 0 d) answers.errno) s fits);
    order = rw (out, append-nil (drop n d)) (take-append-drop n d);
  }

  direct_answer :
      (c : Client) (d : List ℕ) (a : Sent)
      → Queues c.queue []
      → length d < settings.queue_max_size
      → answers.send 0 d ≡ a
      → IsNewError c a
      → is_short (written (answers.send 0 d)) (length d) ≡ true
      → Conserves (after_failure settings answers 0 c d false []) d
  unfolding note_error
  direct_answer c d (wrote n) s fits e new short =
      direct_failure c d n s fits (ap (λ b. bytes_out (written b)) e)
        (ap (λ b. (note_error c b).1) e)
  direct_answer c d (failed x) s fits e new short =
      direct_failure c d 0 s fits (ap (λ b. bytes_out (written b)) e)
        (ap (λ b. (note_error c b).1) e ∙ noted)
    where
      noted : (note_error c (failed x)).1 ≡ some 0
      noted = rw new refl

  whole_answer :
      (c : Client) (d : List ℕ) (a : Sent)
      → Queues c.queue []
      → is_short (written a) (length d) ≡ false
      → take (bytes_out (written a)) d ≡ d
  whole_answer c d (wrote n) s whole = take_all n d (ground arith)
  whole_answer c d (failed x) s whole = absurd (ground (arith, whole))

  -- One buffer for a client with an empty queue, flush_on_eagain off, room for the buffer, memory,
  -- and no error of `send` that was the last one already: what is sent and then what is queued are
  -- the buffer, however much of it `send` takes.
  pub serve_client-starts :
      (c : Client) (buffer : List ℕ)
      → Queues c.queue []
      → length buffer < settings.queue_max_size
      → IsNewError c (answers.send 0 buffer)
      → Conserves (serve_client settings answers c buffer) buffer
  unfolding serve_client concat
  serve_client-starts c buffer s fits new =
      let empty : (c.queue.packets_in_queue == 0) ≡ true = ground (arith, s.packets) in
      elim (Bool-cases (is_short (written (answers.send 0 buffer)) (length buffer))) [
        | inl short ↦
            rw (empty, send_short settings answers 0 0 c buffer false [] short)
              (direct_answer c buffer (answers.send 0 buffer) s fits refl new short)
        | inr whole ↦
            rw (empty, send_whole settings answers 0 c buffer [] whole)
              (record {
                packets = [];
                holds = rw (send_worked-queue c) s;
                order =
                    append-nil (take (bytes_out (written (answers.send 0 buffer))) buffer)
                    ∙ whole_answer c buffer (answers.send 0 buffer) s whole;
              })
      ]
