-- ===== src/Unicast/Sending.antt =====
-- What serving a client does to its queue (`unicast_data_send` of src/unicast_queue.c).
use mu_mu_dvb.Prelude.{refl, ap, ◌∙◌, ◌==◌, false, ◌&&◌, some, none, length-drop, drop, Bool}
use mu_mu_dvb.Prelude.{Option, ltb, arith, Bool-cases, ◌++◌, ◌+◌, length, ◌≤◌, ◌≡◌, List, ℕ, []}
use mu_mu_dvb.Prelude.{◌∷◌, true, inl, inr}
use mu_mu_dvb.Unicast.Client.{failed, wrote, errno_after, Sent, Client, note_error, count_error}
use mu_mu_dvb.Unicast.Client.{send_worked, send_failed, unsent, requeue_unsent, keep_unsent}
use mu_mu_dvb.Unicast.Client.{queue_unsent, queue_behind, Answers, Settings}
use mu_mu_dvb.Unicast.Refine.{clear-Queues, total-append, requeue-Queues, add_data-Queues}
use mu_mu_dvb.Unicast.Refine.{requeue-empty, remove_data-Queues, Queues, total}
use mu_mu_dvb.Unicast.Queue.{add_data, remove_data, requeue, granted, Queue}

-- The queue holds packets, with both counts right, and no more than `max` bytes.
pub record IsWithin (max : ℕ) (h : Queue) : Type 0 where
  pub packets : List (List ℕ)
  pub holds : Queues h packets
  pub bound : total packets ≤ max

-- A packet that fits stays inside the bound.
added-IsWithin :
    (max : ℕ) (h : Queue) (d : List ℕ)
    → IsWithin max h
    → h.data_bytes_in_queue + length d ≤ max
    → IsWithin max (add_data granted h d).0
added-IsWithin max h d w fits = record {
  packets = w.packets ++ (d ∷ []);
  holds = (add_data-Queues h w.packets d w.holds).1;
  bound = omega (arith, total-append w.packets d, w.holds.size);
}

removed-IsWithin :
    (max : ℕ) (h : Queue) (d : List ℕ) (q : List (List ℕ))
    → Queues h (d ∷ q)
    → total q ≤ max
    → IsWithin max (remove_data h).0
removed-IsWithin max h d q s le = record {
  packets = q;
  holds = (remove_data-Queues h d q s).3;
  bound = le;
}

-- What the first packet has left takes the place of the second one.
requeued-IsWithin :
    (max : ℕ) (h : Queue) (d rest : List ℕ) (q : List (List ℕ))
    → Queues h (d ∷ q)
    → length d + total q ≤ max
    → length rest ≤ length d
    → IsWithin max (requeue true (remove_data h).0 rest).0
unfolding total
requeued-IsWithin max h d rest [] s le small =
    rw (requeue-empty (remove_data h).0 rest true (remove_data-Queues h d [] s).3)
      (removed-IsWithin max h d [] s (omega arith))
requeued-IsWithin max h d rest (e ∷ q) s le small = record {
  packets = rest ∷ q;
  holds = (requeue-Queues (remove_data h).0 e q rest (remove_data-Queues h d (e ∷ q) s).3).1;
  bound = omega arith;
}

pub note_error-queue : (c : Client) (a : Sent) → (note_error c a).0.queue ≡ c.queue
unfolding note_error
note_error-queue c (wrote n) = refl
note_error-queue c (failed e) = elim (Bool-cases (e == c.last_write_error)) [
  | inl same ↦ rw same refl
  | inr new ↦ rw new refl
]

pub send_worked-queue : (c : Client) → (send_worked c).queue ≡ c.queue
unfolding send_worked
send_worked-queue c = elim (Bool-cases c.consecutive_errors) [
  | inl again ↦ rw again refl
  | inr none_yet ↦ rw none_yet refl
]

module _ (settings : Settings) (answers : Answers) (granting : answers.memory ≡ granted)
    (allocating : answers.allocated ≡ true) where
  queue_unsent-IsWithin :
      (h : Queue) (rest : List ℕ)
      → IsWithin settings.queue_max_size h
      → IsWithin settings.queue_max_size (queue_unsent settings answers h rest)
  unfolding queue_unsent
  queue_unsent-IsWithin h rest w =
      elim (Bool-cases (ltb (h.data_bytes_in_queue + length rest) settings.queue_max_size)) [
        | inl fits ↦
            rw (fits, granting) (added-IsWithin settings.queue_max_size h rest w (ground arith))
        | inr full ↦ rw full w
      ]

  pub queue_behind-IsWithin :
      (h : Queue) (d : List ℕ)
      → IsWithin settings.queue_max_size h
      → IsWithin settings.queue_max_size (queue_behind settings answers h d)
  unfolding queue_behind
  queue_behind-IsWithin h d w =
      elim (Bool-cases (ltb (h.data_bytes_in_queue + length d) settings.queue_max_size)) [
        | inl fits ↦
            rw (fits, granting) (added-IsWithin settings.queue_max_size h d w (ground arith))
        | inr full ↦ rw full (record {
          packets = w.packets;
          holds = record { packets = w.holds.packets; chain = w.holds.chain; size = w.holds.size };
          bound = w.bound;
        })
      ]

  -- The packet that was being sent is the first of the queue.
  requeue_unsent-IsWithin :
      (h : Queue) (d : List ℕ) (q : List (List ℕ)) (n : Option ℕ)
      → Queues h (d ∷ q)
      → length d + total q ≤ settings.queue_max_size
      → IsWithin settings.queue_max_size
          (requeue_unsent settings answers h (unsent answers.before d n) n)
  unfolding requeue_unsent total
  requeue_unsent-IsWithin h d q none s le = record { packets = d ∷ q; holds = s; bound = le }
  requeue_unsent-IsWithin h d q (some n) s le = elim (Bool-cases (ltb 0 n)) [
    | inl out ↦
        rw (out, allocating)
          (requeued-IsWithin settings.queue_max_size h d (drop n d) q s le
            (omega (arith, length-drop n d)))
    | inr no_byte ↦ rw no_byte (record { packets = d ∷ q; holds = s; bound = le })
  ]

  -- The channel's own buffer.
  pub keep_unsent-IsWithin :
      (h : Queue) (d : List ℕ) (n : Option ℕ) (errno : ℕ)
      → IsWithin settings.queue_max_size h
      → IsWithin settings.queue_max_size (keep_unsent settings answers h d false n errno)
  unfolding keep_unsent
  keep_unsent-IsWithin h d n errno w =
      elim (Bool-cases (settings.flush_on_eagain && (errno == settings.eagain))) [
        | inl flush ↦ rw flush w
        | inr keep ↦ rw keep (queue_unsent-IsWithin h (unsent answers.before d n) w)
      ]

  -- The first packet of the queue.
  pub keep_queued-IsWithin :
      (h : Queue) (d : List ℕ) (q : List (List ℕ)) (n : Option ℕ) (errno : ℕ)
      → Queues h (d ∷ q)
      → length d + total q ≤ settings.queue_max_size
      → IsWithin settings.queue_max_size (keep_unsent settings answers h d true n errno)
  unfolding keep_unsent total
  keep_queued-IsWithin h d q n errno s le =
      elim (Bool-cases (settings.flush_on_eagain && (errno == settings.eagain))) [
        | inl flush ↦
            rw flush
              (record { packets = []; holds = clear-Queues h (d ∷ q) s; bound = omega arith })
        | inr keep ↦ rw keep (requeue_unsent-IsWithin h d q n s le)
      ]

  count_error-queue : (c : Client) → (count_error settings answers c).0.queue ≡ c.queue
  unfolding count_error
  count_error-queue c = elim (Bool-cases c.consecutive_errors) [
    | inl again ↦ rw again refl
    | inr first ↦ rw first refl
  ]

  pub send_failed-queue :
      (c : Client) (d : List ℕ) (from_queue : Bool) (a : Sent)
      → (send_failed settings answers c d from_queue a).0.queue
        ≡ keep_unsent settings answers c.queue d from_queue
            (note_error c a).1
            (errno_after a answers.errno)
  unfolding send_failed
  send_failed-queue c d from_queue a =
      count_error-queue (record (note_error c a).0 {
        queue =
            keep_unsent settings answers (note_error c a).0.queue d from_queue (note_error c a).1
              (errno_after a answers.errno);
      })
      ∙ ap
          (λ h.
            keep_unsent settings answers h d from_queue (note_error c a).1
              (errno_after a answers.errno))
          (note_error-queue c a)
