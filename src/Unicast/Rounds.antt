-- ===== src/Unicast/Rounds.antt =====
-- The rounds of `while(packets_left>0)` in `unicast_data_send` (src/unicast_queue.c).
use mu_mu_dvb.Prelude.{inr, inl, ltb, Bool-cases, zero, Bool, arith, ◌==◌, ◌+◌, take, ◌++◌, ap}
use mu_mu_dvb.Prelude.{◌≡◌, length, ℕ, List, refl, [], ◌∷◌, suc, true, false}
use mu_mu_dvb.Unicast.Queue.{granted, add_data, get_data, remove_data, Queue}
use mu_mu_dvb.Unicast.Client.{queue_behind, send_failed, Served, bytes_out, send_loop, or_empty}
use mu_mu_dvb.Unicast.Client.{written, is_short, send_worked, Answers, Client, Settings}
use mu_mu_dvb.Unicast.Refine.{remove_data-Queues, Queues}
use mu_mu_dvb.Unicast.Sending.{send_worked-queue}

-- The client once the first packet of its queue was sent.
abbrev pub dequeued : Client → Client
dequeued c = record (send_worked c) { queue = (remove_data (send_worked c).queue).0 }

pub dequeued-Queues :
    (c : Client) (d : List ℕ) (q : List (List ℕ))
    → Queues c.queue (d ∷ q)
    → Queues (dequeued c).queue q
dequeued-Queues c d q s = rw (send_worked-queue c) (remove_data-Queues c.queue d q s).3

-- The first packet of a queue, as the loop takes it.
pub first_packet :
    (h : Queue) (d : List ℕ) (q : List (List ℕ)) → Queues h (d ∷ q) → or_empty (get_data h) ≡ d
first_packet h d q s = ap or_empty (remove_data-Queues h d q s).0

-- A queue with packets has packets once the buffer is behind them.
pub queue_behind-some :
    (settings : Settings) (answers : Answers) (h : Queue) (d : List ℕ)
    → answers.memory ≡ granted
    → (h.packets_in_queue == 0) ≡ false
    → ((queue_behind settings answers h d).packets_in_queue == 0) ≡ false
unfolding queue_behind add_data
queue_behind-some settings answers h d granting waiting =
    elim (Bool-cases (ltb (h.data_bytes_in_queue + length d) settings.queue_max_size)) [
      | inl fits ↦ rw (fits, granting) (ground arith)
      | inr full ↦ rw full waiting
    ]

-- The client, whether its connection is closed, and what was sent, once a call of `send` failed.
abbrev pub after_failure : Settings → Answers → ℕ → Client → List ℕ → Bool → List ℕ → Served
after_failure settings answers i c d from_queue out =
    let failure = send_failed settings answers c d from_queue (answers.send i d) in
    record {
      client = failure.0;
      closed = failure.1;
      sent = out ++ take (bytes_out (written (answers.send i d))) d;
    }

pub send_short :
    (settings : Settings) (answers : Answers) (left i : ℕ) (c : Client) (d : List ℕ)
    (from_queue : Bool) (out : List ℕ)
    → is_short (written (answers.send i d)) (length d) ≡ true
    → send_loop settings answers (suc left) i c d from_queue out
      ≡ after_failure settings answers i c d from_queue out
unfolding send_loop
send_short settings answers left i c d from_queue out short = rw short refl

pub send_none :
    (settings : Settings) (answers : Answers) (i : ℕ) (c : Client) (d : List ℕ) (from_queue : Bool)
    (out : List ℕ)
    → send_loop settings answers zero i c d from_queue out
      ≡ record { client = c; closed = false; sent = out }
unfolding send_loop
send_none settings answers i c d from_queue out = refl

pub send_whole :
    (settings : Settings) (answers : Answers) (i : ℕ) (c : Client) (d out : List ℕ)
    → is_short (written (answers.send i d)) (length d) ≡ false
    → send_loop settings answers 1 i c d false out ≡ record {
      client = send_worked c;
      closed = false;
      sent = out ++ take (bytes_out (written (answers.send i d))) d;
    }
unfolding send_loop
send_whole settings answers i c d out whole = rw whole refl

module _ (settings : Settings) (answers : Answers) (left i : ℕ) (c : Client) (d out : List ℕ)
    (whole : is_short (written (answers.send i d)) (length d) ≡ false) where
  -- What was sent after the round.
  abbrev pub sent_now : List ℕ
  sent_now = out ++ take (bytes_out (written (answers.send i d))) d

  pub send_last :
      Queues c.queue (d ∷ [])
      → send_loop settings answers (suc left) i c d true out
        ≡ record { client = dequeued c; closed = false; sent = sent_now }
  unfolding send_loop
  send_last s =
      let last : ((dequeued c).queue.packets_in_queue == 0) ≡ true =
        ground (arith, (dequeued-Queues c d [] s).packets) in
      rw (whole, last) refl

  pub send_more :
      (e : List ℕ) (q : List (List ℕ))
      → Queues c.queue (d ∷ e ∷ q)
      → send_loop settings answers (suc left) i c d true out
        ≡ send_loop settings answers left (i + 1) (dequeued c) e true sent_now
  unfolding send_loop
  send_more e q s =
      let rest : Queues (dequeued c).queue (e ∷ q) = dequeued-Queues c d (e ∷ q) s in
      let more : ((dequeued c).queue.packets_in_queue == 0) ≡ false =
        ground (arith, rest.packets) in
      rw (whole, more, first_packet (dequeued c).queue e q rest) refl
