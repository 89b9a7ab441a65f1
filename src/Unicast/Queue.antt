-- ===== src/Unicast/Queue.antt =====
-- The queue of a client (`unicast_queue_add_data`, `unicast_queue_get_data`,
-- `unicast_queue_remove_data`, `unicast_queue_clear`, `unicast_queue_requeue` of
-- src/unicast_queue.c). The chain from `first` to `last` is a list of its nodes; each queue has its
-- own. A result of false is the -1 of the source.
use mu_mu_dvb.Prelude.{◌-◌, ltb, ◌==◌, ◌++◌, if◌then◌else◌, length, ◌+◌, Bool, ℕ, Option, List}
use mu_mu_dvb.Prelude.{[], ◌∷◌, zero, suc, none, some, true, false}

-- `unicast_queue_data_t`; `none` is a NULL `data`.
pub record Node : Type 0 where
  pub data_length : ℕ
  pub bytes : Option (List ℕ)

-- `unicast_queue_header_t`
pub record Queue : Type 0 where
  pub packets_in_queue : ℕ
  pub data_bytes_in_queue : ℕ
  pub full : Bool
  pub nodes : List Node

-- What `malloc` answers when a packet is added: both blocks, no node, or a node (with the number
-- that its `data_length` happens to hold) and no data.
pub data Memory : Type 0 where
  granted no_node : Memory
  no_data : ℕ → Memory

-- The nodes that are still reached: with no packet counted `first` is set anew.
unfoldable pub reached : Queue → List Node
reached h = if h.packets_in_queue == 0 then [] else h.nodes

unfoldable pub add_data : Memory → Queue → List ℕ → Queue × Bool
unfolding reached
add_data granted h d = (
  record h {
    packets_in_queue = h.packets_in_queue + 1;
    data_bytes_in_queue = h.data_bytes_in_queue + length d;
    nodes = reached h ++ (record { data_length = length d; bytes = some d } ∷ []);
  },
  true,
)
add_data no_node h d = (record h { nodes = reached h }, false)
add_data (no_data n) h d =
    (record h { nodes = reached h ++ (record { data_length = n; bytes = none } ∷ []) }, false)

abbrev pub first_bytes : List Node → Option (List ℕ)
first_bytes [] = none
first_bytes (n ∷ ns) = n.bytes

-- The first packet; `none` where the queue is empty, or the node holds NULL.
unfoldable pub get_data : Queue → Option (List ℕ)
get_data h = if h.packets_in_queue == 0 then none else first_bytes h.nodes

abbrev pub first_length : List Node → ℕ
first_length [] = 0
first_length (n ∷ ns) = n.data_length

abbrev pub other_nodes : List Node → List Node
other_nodes [] = []
other_nodes (n ∷ ns) = ns

unfoldable pub remove_data : Queue → Queue × Bool
remove_data h = if h.packets_in_queue == 0 then (h, false) else (
  record {
    packets_in_queue = h.packets_in_queue - 1;
    data_bytes_in_queue = h.data_bytes_in_queue - first_length h.nodes;
    full = false;
    nodes = other_nodes h.nodes;
  },
  true,
)

-- `while(header->packets_in_queue > 0)`; each round counts one packet less.
unfoldable pub clear_loop : ℕ → Queue → Queue
clear_loop zero h = h
clear_loop (suc n) h =
    let rest = clear_loop n (remove_data h).0 in if ltb 0 h.packets_in_queue then rest else h

unfoldable pub clear : Queue → Queue
unfolding clear_loop
clear h = clear_loop h.packets_in_queue h

abbrev pub replace_first : List Node → List ℕ → List Node
replace_first [] d = []
replace_first (n ∷ ns) d = record { data_length = length d; bytes = some d } ∷ ns

-- The bytes of the first node are replaced; the flag says whether `malloc` has a block.
unfoldable pub requeue : Bool → Queue → List ℕ → Queue × Bool
requeue allocated h d =
    if h.packets_in_queue == 0
    then (h, false)
    else if allocated
    then (
      record h {
        data_bytes_in_queue = h.data_bytes_in_queue - first_length h.nodes + length d;
        nodes = replace_first h.nodes d;
      },
      true,
    )
    else (h, false)
