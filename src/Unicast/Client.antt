-- ===== src/Unicast/Client.antt =====
-- `unicast_data_send` of src/unicast_queue.c: a channel's buffer goes to its clients. What the
-- kernel and the allocator answer is given; what reaches each socket is recorded.
use mu_mu_dvb.Unicast.Queue.{remove_data, clear, requeue, get_data, add_data, Memory, Queue}
use mu_mu_dvb.Prelude.{length, ◌-◌, ◌+◌, ◌&&◌, ◌==◌, not, take, ◌++◌, ltb, if◌then◌else◌, drop, ℕ}
use mu_mu_dvb.Prelude.{Bool, List, Option, [], ◌∷◌, zero, suc, none, some, true, false}

-- The fields of `unicast_client_t` that the sending reads and writes.
pub record Client : Type 0 where
  pub queue : Queue
  pub consecutive_errors : Bool
  pub first_error_time : ℕ
  pub last_write_error : ℕ

-- The fields of `unicast_parameters_t` that it reads, and the number that EAGAIN stands for.
pub record Settings : Type 0 where
  pub queue_max_size : ℕ
  pub flush_on_eagain : Bool
  pub consecutive_errors_timeout : ℕ
  pub eagain : ℕ

-- The answer of `send`: a number of bytes, or -1 and `errno`.
pub data Sent : Type 0 where
  wrote : ℕ → Sent
  failed : ℕ → Sent

-- What the surroundings answer while one client is served: what `send` answers at each call and buffer, the
-- clock, `errno` as it was before, the byte that stands before the channel's buffer, and whether
-- there is memory to queue a packet and to requeue one.
pub record Answers : Type 0 where
  pub send : ℕ → List ℕ → Sent
  pub now : ℕ
  pub errno : ℕ
  pub before : ℕ
  pub memory : Memory
  pub allocated : Bool

-- What serving a client comes to: its new state, whether its connection was closed, and the bytes
-- that reached the socket.
pub record Served : Type 0 where
  pub client : Client
  pub closed : Bool
  pub sent : List ℕ

-- `written_len`, where `none` is -1, with the error that goes with it.
abbrev pub written : Sent → Option ℕ
written (wrote n) = some n
written (failed e) = none

abbrev pub errno_after : Sent → ℕ → ℕ
errno_after (wrote n) errno = errno
errno_after (failed e) errno = e

-- `written_len<buffer_len`
abbrev pub is_short : Option ℕ → ℕ → Bool
is_short none len = true
is_short (some n) len = ltb n len

-- `buffer+written_len`, with the bytes from there to the end of the buffer.
abbrev pub unsent : ℕ → List ℕ → Option ℕ → List ℕ
unsent before buffer none = before ∷ buffer
unsent before buffer (some n) = drop n buffer

-- `written_len > 0`, and the number of bytes that went out.
abbrev pub bytes_out : Option ℕ → ℕ
bytes_out none = 0
bytes_out (some n) = n

-- The bytes of a packet; a NULL, which only a failed `malloc` leaves in a queue, has none.
abbrev pub or_empty : Option (List ℕ) → List ℕ
or_empty none = []
or_empty (some d) = d

-- A new error is noted, and then `written_len` is 0.
unfoldable pub note_error : Client → Sent → Client × Option ℕ
note_error c (wrote n) = (c, some n)
note_error c (failed e) =
    if e == c.last_write_error then (c, none) else (record c { last_write_error = e }, some 0)

-- All the data was written.
unfoldable pub send_worked : Client → Client
send_worked c =
    if c.consecutive_errors
    then record c { consecutive_errors = false; last_write_error = 0 }
    else c

module _ (settings : Settings) (answers : Answers) where
  -- What the channel's buffer has left is queued, if it fits.
  unfoldable pub queue_unsent : Queue → List ℕ → Queue
  queue_unsent queue rest =
      if ltb (queue.data_bytes_in_queue + length rest) settings.queue_max_size
      then (add_data answers.memory queue rest).0
      else queue

  -- The first packet is removed, and what it has left is requeued, if some of it went out.
  unfoldable pub requeue_unsent : Queue → List ℕ → Option ℕ → Queue
  requeue_unsent queue rest n =
      if ltb 0 (bytes_out n)
      then (requeue answers.allocated (remove_data queue).0 rest).0
      else queue

  -- What could not be sent is queued, requeued or dropped.
  unfoldable pub keep_unsent : Queue → List ℕ → Bool → Option ℕ → ℕ → Queue
  unfolding queue_unsent requeue_unsent
  keep_unsent queue buffer from_queue n errno =
      let rest = unsent answers.before buffer n in
      if not (settings.flush_on_eagain && (errno == settings.eagain))
      then if not from_queue then queue_unsent queue rest else requeue_unsent queue rest n
      else if not from_queue
      then queue
      else clear queue

  -- The count of errors, and the end of a connection that failed for too long.
  unfoldable pub count_error : Client → Client × Bool
  count_error c =
      if not c.consecutive_errors
      then (record c { first_error_time = answers.now; consecutive_errors = true }, false)
      else (
        c,
        ltb 0 settings.consecutive_errors_timeout
            && ltb settings.consecutive_errors_timeout (answers.now - c.first_error_time),
      )

  -- Not all the data was written.
  unfoldable pub send_failed : Client → List ℕ → Bool → Sent → Client × Bool
  unfolding note_error keep_unsent count_error
  send_failed c buffer from_queue answer =
      let (noted, n) = note_error c answer in
      count_error (record noted {
        queue = keep_unsent noted.queue buffer from_queue n (errno_after answer answers.errno);
      })

  -- `while(packets_left>0)`, at the call number `i` of `send`, with the bytes that were sent so far.
  unfoldable pub send_loop : ℕ → ℕ → Client → List ℕ → Bool → List ℕ → Served
  unfolding send_failed send_worked
  send_loop zero i c buffer from_queue sent = record { client = c; closed = false; sent = sent }
  send_loop (suc left) i c buffer from_queue sent =
      let answer = answers.send i buffer in
      let out = sent ++ take (bytes_out (written answer)) buffer in
      let failure = send_failed c buffer from_queue answer in
      let rested = send_worked c in
      let queue = (remove_data rested.queue).0 in
      let next = or_empty (get_data queue) in
      let dequeued : Client = record rested { queue = queue } in
      let more = send_loop left (i + 1) dequeued next true out in
      if is_short (written answer) (length buffer)
      then record { client = failure.0; closed = failure.1; sent = out }
      else if not from_queue
      then record { client = rested; closed = false; sent = out }
      else if queue.packets_in_queue == 0
      then record { client = dequeued; closed = false; sent = out }
      else more

  -- The buffer goes behind the packets of the queue, if it fits.
  unfoldable pub queue_behind : Queue → List ℕ → Queue
  queue_behind queue buffer =
      if ltb (queue.data_bytes_in_queue + length buffer) settings.queue_max_size
      then (add_data answers.memory queue buffer).0
      else record queue { full = true }

  -- One round of `while(actual_client!=NULL)`: with packets in the queue the buffer is queued and up
  -- to three packets are sent; else the buffer itself is sent.
  unfoldable pub serve_client : Client → List ℕ → Served
  unfolding send_loop queue_behind
  serve_client c buffer =
      let queue = queue_behind c.queue buffer in
      if c.queue.packets_in_queue == 0
      then send_loop 1 0 c buffer false []
      else send_loop 3 0 (record c { queue = queue }) (or_empty (get_data queue)) true []

-- The clients of a channel in order, each with its answers. Once a connection is closed
-- `actual_client` is the next client, and then it is advanced again: the flag says that the next
-- client is passed over.
unfoldable pub serve_clients : Settings → List ℕ → Bool → List (Client × Answers) → List Served
serve_clients settings buffer skip [] = []
serve_clients settings buffer true ((c, answers) ∷ cs) =
    record { client = c; closed = false; sent = [] } ∷ serve_clients settings buffer false cs
serve_clients settings buffer false ((c, answers) ∷ cs) =
    let served = serve_client settings answers c buffer in
    served ∷ serve_clients settings buffer served.closed cs
