-- ===== src/Unicast/Skip.antt =====
-- The clients of a channel in their order (`unicast_data_send` of src/unicast_queue.c).
use mu_mu_dvb.Unicast.Rounds.{send_short}
use mu_mu_dvb.Prelude.{length, Bool-cases, ◌==◌, ◌-◌, arith, ltb, ℕ, ◌<◌, ◌≡◌, List, refl, []}
use mu_mu_dvb.Prelude.{◌∷◌, true, false, inl, inr}
use mu_mu_dvb.Unicast.Client.{written, is_short, keep_unsent, failed, Client, serve_client}
use mu_mu_dvb.Unicast.Client.{note_error, send_failed, count_error, serve_clients, Answers}
use mu_mu_dvb.Unicast.Client.{Settings}
use mu_mu_dvb.Unicast.Refine.{Queues}
use mu_mu_dvb.Unicast.Queue.{Queue}

-- The errors of a client last for too long.
pub record IsExpired (settings : Settings) (answers : Answers) (c : Client) : Type 0 where
  pub again : c.consecutive_errors ≡ true
  pub limited : 0 < settings.consecutive_errors_timeout
  pub late : settings.consecutive_errors_timeout < answers.now - c.first_error_time

module _ (settings : Settings) (answers : Answers) where
  count_error-closes :
      (c : Client) → IsExpired settings answers c → (count_error settings answers c).1 ≡ true
  unfolding count_error
  count_error-closes c x =
      let limited : ltb 0 settings.consecutive_errors_timeout ≡ true = ground (arith, x.limited) in
      let late : ltb settings.consecutive_errors_timeout (answers.now - c.first_error_time) ≡ true =
        ground (arith, x.late) in
      rw (x.again, limited, late) refl

  -- A new error changes nothing of that.
  noted-IsExpired :
      (c : Client) (h : Queue) (e : ℕ)
      → IsExpired settings answers c
      → IsExpired settings answers (record (note_error c (failed e)).0 { queue = h })
  unfolding note_error
  noted-IsExpired c h e x = elim (Bool-cases (e == c.last_write_error)) [
    | inl same ↦ rw same (record { again = x.again; limited = x.limited; late = x.late })
    | inr new ↦ rw new (record { again = x.again; limited = x.limited; late = x.late })
  ]

  failed-closes :
      (c : Client) (d : List ℕ) (e : ℕ)
      → IsExpired settings answers c
      → (send_failed settings answers c d false (failed e)).1 ≡ true
  unfolding send_failed
  failed-closes c d e x =
      let noted = (note_error c (failed e)).0 in
      let h = keep_unsent settings answers noted.queue d false (note_error c (failed e)).1 e in
      count_error-closes (record noted { queue = h }) (noted-IsExpired c h e x)

  expired-closes :
      (c : Client) (buffer : List ℕ) (e : ℕ)
      → IsExpired settings answers c
      → Queues c.queue []
      → answers.send 0 buffer ≡ failed e
      → (serve_client settings answers c buffer).closed ≡ true
  unfolding serve_client
  expired-closes c buffer e x s fails =
      let empty : (c.queue.packets_in_queue == 0) ≡ true = ground (arith, s.packets) in
      let short : is_short (written (answers.send 0 buffer)) (length buffer) ≡ true =
        rw fails refl in
      rw (empty, send_short settings answers 0 0 c buffer false [] short, fails)
        (failed-closes c buffer e x)

  -- If the first client has an empty queue, its errors last longer than the timeout, and `send` fails
  -- again, then the second client is passed over: it is as it was, no byte of the buffer is sent to
  -- it or queued for it, and the sending goes on with the third one.
  pub serve_clients_skips :
      (c : Client) (buffer : List ℕ) (e : ℕ) (second : Client × Answers)
      (others : List (Client × Answers))
      → IsExpired settings answers c
      → Queues c.queue []
      → answers.send 0 buffer ≡ failed e
      → serve_clients settings buffer false ((c, answers) ∷ second ∷ others)
        ≡ serve_client settings answers c buffer
          ∷ record { client = second.0; closed = false; sent = [] }
          ∷ serve_clients settings buffer false others
  unfolding serve_clients
  serve_clients_skips c buffer e second others x s fails =
      rw (expired-closes c buffer e x s fails) refl
