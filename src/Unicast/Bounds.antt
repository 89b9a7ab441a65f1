-- ===== src/Unicast/Bounds.antt =====
-- Serving a client keeps its queue inside the bound (`unicast_data_send` of src/unicast_queue.c).
use mu_mu_dvb.Unicast.Rounds.{queue_behind-some, send_whole, first_packet, send_short, send_none}
use mu_mu_dvb.Unicast.Rounds.{sent_now, dequeued, send_more, dequeued-Queues, send_last}
use mu_mu_dvb.Unicast.Client.{queue_behind, serve_client, errno_after, note_error, written}
use mu_mu_dvb.Unicast.Client.{is_short, Client, send_loop, or_empty, Answers, Settings}
use mu_mu_dvb.Unicast.Sending.{queue_behind-IsWithin, send_worked-queue, keep_unsent-IsWithin}
use mu_mu_dvb.Unicast.Sending.{keep_queued-IsWithin, send_failed-queue, IsWithin}
use mu_mu_dvb.Prelude.{◌==◌, arith, ◌≤◌, ◌+◌, Bool-cases, length, ◌≡◌, ℕ, List, [], ◌∷◌, zero}
use mu_mu_dvb.Prelude.{suc, true, false, inl, inr}
use mu_mu_dvb.Unicast.Refine.{total, Queues}
use mu_mu_dvb.Unicast.Queue.{get_data, granted}

module _ (settings : Settings) (answers : Answers) (granting : answers.memory ≡ granted)
    (allocating : answers.allocated ≡ true) where
  -- The buffer itself is sent.
  send_direct-IsWithin :
      (c : Client) (d : List ℕ)
      → IsWithin settings.queue_max_size c.queue
      → IsWithin settings.queue_max_size (send_loop settings answers 1 0 c d false []).client.queue
  send_direct-IsWithin c d w =
      let a = answers.send 0 d in
      elim (Bool-cases (is_short (written a) (length d))) [
        | inl short ↦
            rw
              (
                send_short settings answers 0 0 c d false [] short,
                send_failed-queue settings answers granting allocating c d false a,
              )
              (keep_unsent-IsWithin settings answers granting allocating c.queue d
                (note_error c a).1 (errno_after a answers.errno) w)
        | inr whole ↦ rw (send_whole settings answers 0 c d [] whole, send_worked-queue c) w
      ]

  send_short-IsWithin :
      (left i : ℕ) (c : Client) (d out : List ℕ) (q : List (List ℕ))
      → is_short (written (answers.send i d)) (length d) ≡ true
      → Queues c.queue (d ∷ q)
      → length d + total q ≤ settings.queue_max_size
      → IsWithin settings.queue_max_size
          (send_loop settings answers (suc left) i c d true out).client.queue
  send_short-IsWithin left i c d out q short s le =
      let a = answers.send i d in
      rw
        (
          send_short settings answers left i c d true out short,
          send_failed-queue settings answers granting allocating c d true a,
        )
        (keep_queued-IsWithin settings answers granting allocating c.queue d q (note_error c a).1
          (errno_after a answers.errno) s le)

  -- Packets of the queue are sent, the first of which is the buffer.
  send_queued-IsWithin :
      (left i : ℕ) (c : Client) (d out : List ℕ) (q : List (List ℕ))
      → Queues c.queue (d ∷ q)
      → length d + total q ≤ settings.queue_max_size
      → IsWithin settings.queue_max_size
          (send_loop settings answers left i c d true out).client.queue
  unfolding total
  send_queued-IsWithin zero i c d out q s le =
      rw (send_none settings answers i c d true out)
        (record { packets = d ∷ q; holds = s; bound = le })
  send_queued-IsWithin (suc left) i c d out [] s le =
      elim (Bool-cases (is_short (written (answers.send i d)) (length d))) [
        | inl short ↦ send_short-IsWithin left i c d out [] short s le
        | inr whole ↦
            rw (send_last settings answers left i c d out whole s)
              (record { packets = []; holds = dequeued-Queues c d [] s; bound = omega arith })
      ]
  send_queued-IsWithin (suc left) i c d out (e ∷ q) s le =
      elim (Bool-cases (is_short (written (answers.send i d)) (length d))) [
        | inl short ↦ send_short-IsWithin left i c d out (e ∷ q) short s le
        | inr whole ↦ rw (send_more settings answers left i c d out whole e q s) (
            send_queued-IsWithin left (i + 1) (dequeued c) e
              (sent_now settings answers left i c d out whole) q (dequeued-Queues c d (e ∷ q) s)
              (omega arith))
      ]

  -- From any queue that counts a packet.
  send_first-IsWithin :
      (c : Client) (q : List (List ℕ))
      → Queues c.queue q
      → total q ≤ settings.queue_max_size
      → (c.queue.packets_in_queue == 0) ≡ false
      → IsWithin settings.queue_max_size
          (send_loop settings answers 3 0 c (or_empty (get_data c.queue)) true []).client.queue
  unfolding total
  send_first-IsWithin c [] s le some_packet = absurd (ground (arith, s.packets, some_packet))
  send_first-IsWithin c (d ∷ q) s le some_packet =
      rw (first_packet c.queue d q s) (send_queued-IsWithin 3 0 c d [] q s le)

  -- One buffer sent to one client, whatever `send`, the clock and `errno` say: if the queue holds
  -- packets, with both counts right and no more bytes than `queue_max_size`, and there is memory,
  -- then it does so afterwards.
  pub serve_client-IsWithin :
      (c : Client) (buffer : List ℕ)
      → IsWithin settings.queue_max_size c.queue
      → IsWithin settings.queue_max_size (serve_client settings answers c buffer).client.queue
  unfolding serve_client
  serve_client-IsWithin c buffer w =
      let behind = queue_behind-IsWithin settings answers granting allocating c.queue buffer w in
      elim (Bool-cases (c.queue.packets_in_queue == 0)) [
        | inl empty ↦ rw empty (send_direct-IsWithin c buffer w)
        | inr waiting ↦ rw waiting (
            send_first-IsWithin (record c { queue = queue_behind settings answers c.queue buffer })
              behind.packets behind.holds behind.bound
              (queue_behind-some settings answers c.queue buffer granting waiting))
      ]
