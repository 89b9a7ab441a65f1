-- ===== src/Unicast/Broken.antt =====
-- What a failed `malloc` does to the queue of a client (`unicast_queue_add_data` of
-- src/unicast_queue.c).
use mu_mu_dvb.Prelude.{append_assoc, ◌∙◌, map, ◌++◌, ◌+◌, ap, ◌≡◌, ◌==◌, length, ℕ, zero, suc}
use mu_mu_dvb.Prelude.{List, [], ◌∷◌, none, some, true, false, refl, arith}
use mu_mu_dvb.Unicast.Queue.{other_nodes, first_length, add_data, remove_data, get_data, reached}
use mu_mu_dvb.Unicast.Queue.{no_data, granted, Queue, Node}
use mu_mu_dvb.Unicast.Refine.{Queues, packet}

-- `unicast_queue_remove_data`, so many times.
abbrev pub remove_times : ℕ → Queue → Queue
remove_times zero h = h
remove_times (suc n) h = remove_times n (remove_data h).0

-- A node with no data.
abbrev pub null_node : ℕ → Node
null_node n = record { data_length = n; bytes = none }

-- The queue `q`, then the node with no data and the packet `e`, one of which is not counted.
record IsBroken (q : List (List ℕ)) (n : ℕ) (e : List ℕ) (h : Queue) : Type 0 where
  packets : h.packets_in_queue ≡ length q + 1
  chain : h.nodes ≡ map packet q ++ (null_node n ∷ packet e ∷ [])

remove-IsBroken :
    (d : List ℕ) (q : List (List ℕ)) (n : ℕ) (e : List ℕ) (h : Queue)
    → IsBroken (d ∷ q) n e h
    → (get_data h ≡ some d) × IsBroken q n e (remove_data h).0
unfolding get_data remove_data
remove-IsBroken d q n e h b =
    let more : (h.packets_in_queue == 0) ≡ false = ground (arith, b.packets) in
    (
      rw (more, b.chain) refl,
      rw more (record { packets = omega (arith, b.packets); chain = ap other_nodes b.chain }),
    )

remove_times-IsBroken :
    (q : List (List ℕ)) (n : ℕ) (e : List ℕ) (h : Queue)
    → IsBroken q n e h
    → IsBroken [] n e (remove_times (length q) h)
remove_times-IsBroken [] n e h b = b
remove_times-IsBroken (d ∷ q) n e h b =
    remove_times-IsBroken q n e (remove_data h).0 (remove-IsBroken d q n e h b).1

broken_end :
    (n : ℕ) (e : List ℕ) (h : Queue)
    → IsBroken [] n e h
    → (h.packets_in_queue ≡ 1)
      × (get_data h ≡ none)
      × (first_length h.nodes ≡ n)
      × ((remove_data h).0.packets_in_queue ≡ 0)
      × (get_data (remove_data h).0 ≡ none)
unfolding get_data remove_data
broken_end n e h b =
    let one : h.packets_in_queue ≡ 1 = omega (arith, b.packets) in
    (one, rw (one, b.chain) refl, ap first_length b.chain, rw one refl, rw one refl)

added-IsBroken :
    (h : Queue) (c : List ℕ) (q : List (List ℕ)) (d e : List ℕ) (n : ℕ)
    → Queues h (c ∷ q)
    → let h' = (add_data (no_data n) h d).0 in IsBroken (c ∷ q) n e (add_data granted h' e).0
unfolding add_data reached
added-IsBroken h c q d e n s =
    let more : (h.packets_in_queue == 0) ≡ false = ground (arith, s.packets) in
    rw more (record {
      packets = omega (arith, s.packets);
      chain =
          ap (λ (ns : List Node). (ns ++ (null_node n ∷ [])) ++ (packet e ∷ [])) s.chain
          ∙ append_assoc (map packet (c ∷ q)) (null_node n ∷ []) (packet e ∷ []);
    })

-- A packet for whose data `malloc` has no memory, while others wait, is refused with -1; but once
-- those that waited are removed, after another packet was added with memory, the queue counts one
-- packet and gives NULL for it, with the length that its memory happened to hold; and when that one is
-- removed the queue counts none and gives NULL, and the packet that was added is never given.
pub add_data_broken :
    (h : Queue) (c : List ℕ) (q : List (List ℕ)) (d e : List ℕ) (n : ℕ)
    → Queues h (c ∷ q)
    → let (h', ok) = add_data (no_data n) h d in
      let (h'', ok') = add_data granted h' e in
      let broken = remove_times (length (c ∷ q)) h'' in
      (ok ≡ false)
      × (ok' ≡ true)
      × (broken.packets_in_queue ≡ 1)
      × (get_data broken ≡ none)
      × (first_length broken.nodes ≡ n)
      × ((remove_data broken).0.packets_in_queue ≡ 0)
      × (get_data (remove_data broken).0 ≡ none)
unfolding add_data
add_data_broken h c q d e n s =
    let h'' = (add_data granted (add_data (no_data n) h d).0 e).0 in
    let end =
      broken_end n e (remove_times (length (c ∷ q)) h'')
        (remove_times-IsBroken (c ∷ q) n e h'' (added-IsBroken h c q d e n s)) in
    (refl, refl, end.0, end.1, end.2, end.3, end.4)
