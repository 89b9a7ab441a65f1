-- ===== src/Unicast/Clients.antt =====
-- src/unicast_clients.c: the list of all clients, and those of the channels. A client is a number,
-- its address, where 0 is NULL, and a channel is the number of it plus one. `close`, `free` and the
-- socket options are not modelled; the reply to a client is.
use mu_mu_dvb.Prelude.{not, ◌-◌, if◌then◌else◌, ◌+◌, ◌==◌, ℕ, zero, suc, List, [], ◌∷◌, none}
use mu_mu_dvb.Prelude.{some, true, false, Bool, Option}
use mu_mu_dvb.Unicast.Client.{Client}
pub mod Chain
pub mod Lists
pub mod Unlink
pub mod Delete
pub mod Append

-- The fields of `unicast_client_t`, of which `own` has those of the sending.
pub record ClientNode : Type 0 where
  pub socket : ℕ
  pub own : Client
  pub chan_ptr : ℕ
  pub asked_channel : Option ℕ
  pub next : ℕ
  pub prev : ℕ
  pub chan_next : ℕ
  pub chan_prev : ℕ

-- The fields of `unicast_parameters_t` and of the channels for the lists, with the memory of the
-- clients.
pub record Clients : Type 0 where
  pub node : ℕ → ClientNode
  pub clients : ℕ
  pub client_number : ℕ
  pub chan_clients : ℕ → ℕ
  pub num_clients : ℕ → ℕ

module _ {ℓ} {A : Type ℓ} where
  abbrev pub write_at : (ℕ → A) → ℕ → A → ℕ → A
  write_at f p v q = if q == p then v else f q

-- `while(client->next!=NULL) client=client->next;`, with the number of clients as fuel.
unfoldable pub last_client : ℕ → (ℕ → ℕ) → ℕ → ℕ
last_client zero next client = client
last_client (suc fuel) next client =
    let rest = last_client fuel next (next client) in if next client == 0 then client else rest

-- A client that was allocated and filled.
abbrev pub new_client : ℕ → ℕ → ClientNode
new_client socket prev_client = record {
  socket = socket;
  own = record {
    queue = record { packets_in_queue = 0; data_bytes_in_queue = 0; full = false; nodes = [] };
    consecutive_errors = false;
    first_error_time = 0;
    last_write_error = 0;
  };
  chan_ptr = 0;
  asked_channel = none;
  next = 0;
  prev = prev_client;
  chan_next = 0;
  chan_prev = 0;
}

-- The client that `calloc` gives is an argument, 0 where it fails.
unfoldable pub unicast_add_client : ℕ → ℕ → Clients → Clients × ℕ
unfolding last_client
unicast_add_client allocated socket unicast_vars =
    let node = unicast_vars.node in
    let last = last_client unicast_vars.client_number (λ q. (node q).next) unicast_vars.clients in
    let first_client = unicast_vars.clients == 0 in
    let linked =
      if first_client then node else write_at node last (record (node last) { next = allocated }) in
    let clients' = if first_client then allocated else unicast_vars.clients in
    let prev_client = if first_client then 0 else last in
    if allocated == 0 then (record unicast_vars { node = linked; clients = clients' }, 0) else (
      record unicast_vars {
        node = write_at linked allocated (new_client socket prev_client);
        clients = clients';
        client_number = unicast_vars.client_number + 1;
      },
      allocated,
    )

-- The client taken out of the list of all.
unfoldable pub unlink_client : ℕ → Clients → Clients
unlink_client client unicast_vars =
    let node = unicast_vars.node in
    let prev_client = (node client).prev in
    let next_client = (node client).next in
    let before =
      if prev_client == 0
      then node
      else write_at node prev_client (record (node prev_client) { next = next_client }) in
    let after =
      if next_client == 0
      then before
      else write_at before next_client (record (before next_client) { prev = prev_client }) in
    record unicast_vars {
      node = after;
      clients = if prev_client == 0 then next_client else unicast_vars.clients;
    }

-- The client taken out of the list of its channel.
unfoldable pub unlink_from_channel : ℕ → Clients → Clients
unlink_from_channel client unicast_vars =
    let node = unicast_vars.node in
    let channel = (node client).chan_ptr in
    let chan_prev = (node client).chan_prev in
    let chan_next = (node client).chan_next in
    let before =
      if chan_prev == 0
      then node
      else write_at node chan_prev (record (node chan_prev) { chan_next = chan_next }) in
    let after =
      if chan_next == 0
      then before
      else write_at before chan_next (record (before chan_next) { chan_prev = chan_prev }) in
    if channel == 0 then unicast_vars else record unicast_vars {
      node = after;
      chan_clients =
          if chan_prev == 0
          then write_at unicast_vars.chan_clients channel chan_next
          else unicast_vars.chan_clients;
      num_clients =
          write_at unicast_vars.num_clients channel (unicast_vars.num_clients channel - 1);
    }

unfoldable pub unicast_del_client : ℕ → Clients → Clients
unfolding unlink_client unlink_from_channel
unicast_del_client client unicast_vars =
    let unlinked = unlink_from_channel client (unlink_client client unicast_vars) in
    record unlinked { client_number = unlinked.client_number - 1 }

-- `written` says that the whole reply was written to the socket; the flag is the result 0.
unfoldable pub channel_add_unicast_client : Bool → ℕ → ℕ → Clients → Clients × Bool
unfolding last_client
channel_add_unicast_client written client channel unicast_vars =
    let cleared =
      write_at unicast_vars.node client (record (unicast_vars.node client) { chan_next = 0 }) in
    let first = unicast_vars.chan_clients channel in
    let last = last_client (unicast_vars.num_clients channel) (λ q. (cleared q).chan_next) first in
    let counted =
      write_at unicast_vars.num_clients channel (unicast_vars.num_clients channel + 1) in
    let linked = write_at cleared last (record (cleared last) { chan_next = client }) in
    if not written
    then (unicast_vars, false)
    else if first == 0
    then (
      record unicast_vars {
        node = write_at cleared client (record (cleared client) { chan_prev = 0 });
        chan_clients = write_at unicast_vars.chan_clients channel client;
        num_clients = counted;
      },
      true,
    )
    else (
      record unicast_vars {
        node = write_at linked client (record (linked client) { chan_prev = last });
        num_clients = counted;
      },
      true,
    )

-- All clients deleted, with the number of clients as fuel.
unfoldable pub free_clients : ℕ → ℕ → Clients → Clients
unfolding unicast_del_client
free_clients zero actual_client unicast_vars = unicast_vars
free_clients (suc fuel) actual_client unicast_vars =
    let next_client = (unicast_vars.node actual_client).next in
    let rest = free_clients fuel next_client (unicast_del_client actual_client unicast_vars) in
    if actual_client == 0 then unicast_vars else rest

unfoldable pub unicast_freeing : Clients → Clients
unfolding free_clients
unicast_freeing unicast_vars =
    free_clients unicast_vars.client_number unicast_vars.clients unicast_vars
