-- ===== src/Examples/SendingRuns.antt =====
-- Sending to clients at small inputs.
use mu_mu_dvb.Unicast.Client.{written, bytes_out, failed, wrote, serve_client, serve_clients}
use mu_mu_dvb.Unicast.Client.{Settings, Client, Answers}
use mu_mu_dvb.Unicast.Dequeue.{serve_client-continues, serve_client_loses}
use mu_mu_dvb.Prelude.{ap, length, ◌<◌, ◌++◌, ◌+◌, arith, ◌≡◌, refl, [], ◌∷◌, true, false}
use mu_mu_dvb.Unicast.Queue.{granted, Queue}
use mu_mu_dvb.Unicast.Skip.{serve_clients_skips, IsExpired}
use mu_mu_dvb.Examples.UnicastRuns.{two_packets-Queues, two_packets}
use mu_mu_dvb.Ts.Store.{concat}
use mu_mu_dvb.Unicast.Bounds.{serve_client-IsWithin}
use mu_mu_dvb.Unicast.Order.{serve_client-starts, Conserves, IsWhole}
use mu_mu_dvb.Unicast.Refine.{Queues, total}
use mu_mu_dvb.Unicast.Sending.{IsWithin}

abbrev small_settings : Settings
small_settings = record {
  queue_max_size = 20;
  flush_on_eagain = false;
  consecutive_errors_timeout = 5;
  eagain = 11;
}

-- A client with two packets in its queue, one with none, and one whose errors began long ago.
abbrev waiting_client : Client
waiting_client = record {
  queue = two_packets;
  consecutive_errors = false;
  first_error_time = 0;
  last_write_error = 0;
}

abbrev empty_queue : Queue
empty_queue = record { packets_in_queue = 0; data_bytes_in_queue = 0; full = false; nodes = [] }

abbrev idle_client : Client
idle_client = record waiting_client { queue = empty_queue }

abbrev failing_client : Client
failing_client = record idle_client { consecutive_errors = true }

empty-Queues : Queues empty_queue []
unfolding total
empty-Queues = record { packets = refl; chain = refl; size = refl }

-- `send` takes everything, at most one byte, or fails.
abbrev takes_all : Answers
takes_all = record {
  send = λ i b. wrote (length b);
  now = 10;
  errno = 0;
  before = 0;
  memory = granted;
  allocated = true;
}

abbrev takes_one : Answers
takes_one = record takes_all { send = λ i b. wrote 1 }

abbrev takes_none : Answers
takes_none = record takes_all { send = λ i b. failed 32 }

takes_all-IsWhole : IsWhole takes_all
takes_all-IsWhole i b n e = omega (arith, wrote-le e)
  where
    wrote-le : wrote (length b) ≡ wrote n → length b ≡ n
    wrote-le h = ap (λ a. bytes_out (written a)) h

two_packets-IsWithin : IsWithin 20 two_packets
unfolding total
two_packets-IsWithin = record {
  packets = (1 ∷ 2 ∷ []) ∷ (3 ∷ 4 ∷ 5 ∷ []) ∷ [];
  holds = two_packets-Queues;
  bound = omega arith;
}

serve_client-IsWithin_example :
    IsWithin 20 (serve_client small_settings takes_one waiting_client (6 ∷ 7 ∷ [])).client.queue
serve_client-IsWithin_example =
    serve_client-IsWithin small_settings takes_one refl refl waiting_client (6 ∷ 7 ∷ [])
      two_packets-IsWithin

serve_client-starts_example :
    Conserves (serve_client small_settings takes_one idle_client (6 ∷ 7 ∷ [])) (6 ∷ 7 ∷ [])
serve_client-starts_example =
    serve_client-starts small_settings takes_one refl refl refl idle_client (6 ∷ 7 ∷ [])
      empty-Queues (omega arith) tt

two_fit : total ((1 ∷ 2 ∷ []) ∷ (3 ∷ 4 ∷ 5 ∷ []) ∷ []) + 2 < 20
unfolding total
two_fit = omega arith

serve_client-continues_example :
    Conserves
      (serve_client small_settings takes_all waiting_client (6 ∷ 7 ∷ []))
      (concat ((1 ∷ 2 ∷ []) ∷ (3 ∷ 4 ∷ 5 ∷ []) ∷ []) ++ (6 ∷ 7 ∷ []))
serve_client-continues_example =
    serve_client-continues small_settings takes_all refl refl refl waiting_client (1 ∷ 2 ∷ [])
      (6 ∷ 7 ∷ []) ((3 ∷ 4 ∷ 5 ∷ []) ∷ []) two_packets-Queues two_fit takes_all-IsWhole

serve_client_loses_example :
    let s = serve_client small_settings takes_one waiting_client (6 ∷ 7 ∷ []) in
    (s.sent ≡ 1 ∷ []) × Queues s.client.queue ((2 ∷ []) ∷ (6 ∷ 7 ∷ []) ∷ [])
serve_client_loses_example =
    serve_client_loses small_settings takes_one refl refl refl waiting_client (1 ∷ 2 ∷ [])
      (3 ∷ 4 ∷ 5 ∷ []) (6 ∷ 7 ∷ []) [] 1 two_packets-Queues two_fit refl (omega arith) (omega arith)

failing-IsExpired : IsExpired small_settings takes_none failing_client
failing-IsExpired = record { again = refl; limited = omega arith; late = omega arith }

serve_clients_skips_example :
    serve_clients small_settings
      (6 ∷ 7 ∷ [])
      false
      ((failing_client, takes_none) ∷ (idle_client, takes_all) ∷ (waiting_client, takes_all) ∷ [])
    ≡ serve_client small_settings takes_none failing_client (6 ∷ 7 ∷ [])
      ∷ record { client = idle_client; closed = false; sent = [] }
      ∷ serve_clients small_settings (6 ∷ 7 ∷ []) false ((waiting_client, takes_all) ∷ [])
serve_clients_skips_example =
    serve_clients_skips small_settings takes_none failing_client (6 ∷ 7 ∷ []) 32
      (idle_client, takes_all) ((waiting_client, takes_all) ∷ []) failing-IsExpired empty-Queues
      refl
