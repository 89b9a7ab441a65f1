-- ===== src/Unicast/Refine.antt =====
-- The queue of src/unicast_queue.c holds a list of packets, first in, first out.
use mu_mu_dvb.Prelude.{ltb, ◌≤◌, Bool, map-append, length-append, map, arith, ◌==◌, ◌+◌, ◌++◌}
use mu_mu_dvb.Prelude.{length, ◌≡◌, ℕ, List, refl, [], ◌∷◌, zero, suc, some, true, false}
use mu_mu_dvb.Unicast.Queue.{clear_loop, requeue, no_node, clear, Node, granted, get_data}
use mu_mu_dvb.Unicast.Queue.{remove_data, add_data, Queue, reached}

-- The bytes of all packets.
unfoldable pub total : List (List ℕ) → ℕ
total [] = 0
total (d ∷ q) = length d + total q

abbrev pub packet : List ℕ → Node
packet d = record { data_length = length d; bytes = some d }

-- The queue holds the packets `q`, and its two counts are right.
pub record Queues (h : Queue) (q : List (List ℕ)) : Type 0 where
  pub packets : h.packets_in_queue ≡ length q
  pub chain : h.nodes ≡ map packet q
  pub size : h.data_bytes_in_queue ≡ total q

pub total-append : (q : List (List ℕ)) (d : List ℕ) → total (q ++ (d ∷ [])) ≡ total q + length d
unfolding total
total-append [] d = omega arith
total-append (c ∷ q) d = omega (arith, total-append q d)

-- With its two counts right nothing is reached but the nodes.
pub reached_all : (h : Queue) (q : List (List ℕ)) → Queues h q → reached h ≡ map packet q
unfolding reached
reached_all h [] s = ground (arith, s.packets)
reached_all h (d ∷ q) s = ground (arith, s.packets, s.chain)

-- A packet that is added with memory for it goes to the end, and the result is 0.
pub add_data-Queues :
    (h : Queue) (q : List (List ℕ)) (d : List ℕ)
    → Queues h q
    → let (h', ok) = add_data granted h d in (ok ≡ true) × Queues h' (q ++ (d ∷ []))
unfolding add_data
add_data-Queues h q d s = (
  refl,
  record {
    packets = omega (arith, s.packets, length-append q (d ∷ []));
    chain = rw (reached_all h q s, map-append);
    size = omega (arith, s.size, total-append q d);
  },
)

-- The first packet is what the queue gives, and removing it leaves the others and takes the `full`
-- flag back; the empty queue gives NULL and refuses with -1.
pub remove_data-Queues :
    (h : Queue) (d : List ℕ) (q : List (List ℕ))
    → Queues h (d ∷ q)
    → let (h', ok) = remove_data h in
      (get_data h ≡ some d) × (ok ≡ true) × (h'.full ≡ false) × Queues h' q
unfolding remove_data get_data total
remove_data-Queues h d q s =
    let more : (h.packets_in_queue == 0) ≡ false = ground (arith, s.packets) in
    rw (more, s.chain)
      (
        refl,
        refl,
        refl,
        record { packets = omega (arith, s.packets); chain = refl; size = omega (arith, s.size) },
      )

-- With no memory for the node the packet is refused and the queue holds what it held.
pub add_data-refused :
    (h : Queue) (q : List (List ℕ)) (d : List ℕ)
    → Queues h q
    → let (h', ok) = add_data no_node h d in (ok ≡ false) × Queues h' q
unfolding add_data
add_data-refused h q d s =
    (refl, record { packets = s.packets; chain = reached_all h q s; size = s.size })

-- `unicast_queue_requeue` puts its bytes in the place of the first packet, with memory for them,
-- and refuses without, or with no packet in the queue.
pub requeue-Queues :
    (h : Queue) (c : List ℕ) (q : List (List ℕ)) (d : List ℕ)
    → Queues h (c ∷ q)
    → let (h', ok) = requeue true h d in (ok ≡ true) × Queues h' (d ∷ q)
unfolding requeue total
requeue-Queues h c q d s =
    let more : (h.packets_in_queue == 0) ≡ false = ground (arith, s.packets) in
    rw (more, s.chain)
      (refl, record { packets = s.packets; chain = refl; size = omega (arith, s.size) })

pub requeue-empty :
    (h : Queue) (d : List ℕ) (allocated : Bool) → Queues h [] → requeue allocated h d ≡ (h, false)
unfolding requeue
requeue-empty h d allocated s = ground (arith, s.packets)

clear_loop-Queues :
    (n : ℕ) (h : Queue) (q : List (List ℕ)) → Queues h q → length q ≤ n → Queues (clear_loop n h) []
unfolding clear_loop
clear_loop-Queues zero h [] s le = s
clear_loop-Queues zero h (d ∷ q) s le = absurd (omega arith)
clear_loop-Queues (suc n) h [] s le =
    let none_left : ltb 0 h.packets_in_queue ≡ false = ground (arith, s.packets) in rw none_left s
clear_loop-Queues (suc n) h (d ∷ q) s le =
    let more : ltb 0 h.packets_in_queue ≡ true = ground (arith, s.packets) in
    rw more (clear_loop-Queues n (remove_data h).0 q (remove_data-Queues h d q s).3 (omega arith))

-- `unicast_queue_clear` ends with the queue empty and both counts 0.
pub clear-Queues : (h : Queue) (q : List (List ℕ)) → Queues h q → Queues (clear h) []
unfolding clear
clear-Queues h q s = clear_loop-Queues h.packets_in_queue h q s (omega (arith, s.packets))
