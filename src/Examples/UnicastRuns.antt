-- ===== src/Examples/UnicastRuns.antt =====
-- The queue of a client at small inputs.
use mu_mu_dvb.Unicast.Broken.{add_data_broken, remove_times}
use mu_mu_dvb.Unicast.Queue.{remove_data, first_length, get_data, granted, no_data, add_data}
use mu_mu_dvb.Unicast.Queue.{Queue}
use mu_mu_dvb.Unicast.Refine.{packet, total, Queues}
use mu_mu_dvb.Prelude.{refl, none, true, false, ◌≡◌, [], ◌∷◌}

abbrev pub two_packets : Queue
two_packets = record {
  packets_in_queue = 2;
  data_bytes_in_queue = 5;
  full = true;
  nodes = packet (1 ∷ 2 ∷ []) ∷ packet (3 ∷ 4 ∷ 5 ∷ []) ∷ [];
}

pub two_packets-Queues : Queues two_packets ((1 ∷ 2 ∷ []) ∷ (3 ∷ 4 ∷ 5 ∷ []) ∷ [])
unfolding total
two_packets-Queues = record { packets = refl; chain = refl; size = refl }

add_data_broken_example :
    let (h, ok) = add_data (no_data 7) two_packets (6 ∷ []) in
    let (h', ok') = add_data granted h (8 ∷ 9 ∷ []) in
    let broken = remove_times 2 h' in
    (ok ≡ false)
    × (ok' ≡ true)
    × (broken.packets_in_queue ≡ 1)
    × (get_data broken ≡ none)
    × (first_length broken.nodes ≡ 7)
    × ((remove_data broken).0.packets_in_queue ≡ 0)
    × (get_data (remove_data broken).0 ≡ none)
add_data_broken_example =
    add_data_broken two_packets (1 ∷ 2 ∷ []) ((3 ∷ 4 ∷ 5 ∷ []) ∷ []) (6 ∷ []) (8 ∷ 9 ∷ []) 7
      two_packets-Queues
