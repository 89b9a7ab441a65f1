-- ===== src/Examples/ClientRuns.antt =====
-- The lists of the clients at small inputs.
use mu_mu_dvb.Unicast.Clients.{new_client, unicast_freeing, unicast_del_client}
use mu_mu_dvb.Unicast.Clients.{unicast_add_client, Clients, ClientNode}
use mu_mu_dvb.Unicast.Clients.Delete.{unicast_del_client_lem}
use mu_mu_dvb.Unicast.Clients.Append.{unicast_add_client-IsListed, unicast_freeing-IsListed}
use mu_mu_dvb.Prelude.{◌==◌, ◌≡◌, if◌then◌else◌, ℕ, [], ◌∷◌, refl}
use mu_mu_dvb.Unicast.Clients.Lists.{IsListed, IsStreamed}

-- Three clients at 1, 2 and 4, of which the last two stream the channel 5.
abbrev three_nodes : ℕ → ClientNode
three_nodes q =
    if q == 1
    then record (new_client 10 0) { next = 2 }
    else if q == 2
    then record (new_client 11 1) { next = 4; chan_ptr = 5; chan_next = 4 }
    else record (new_client 12 2) { chan_ptr = 5; chan_prev = 2 }

abbrev three_clients : Clients
three_clients = record {
  node = three_nodes;
  clients = 1;
  client_number = 3;
  chan_clients = λ _. 2;
  num_clients = λ _. 2;
}

three-IsListed : IsListed three_clients (1 ∷ 2 ∷ 4 ∷ [])
three-IsListed = record {
  chain = (refl, refl, refl, (refl, refl, refl, (refl, refl, refl, refl)));
  distinct = ((refl, (refl, tt)), ((refl, tt), (tt, tt)));
  real = (refl, (refl, (refl, tt)));
  number = refl;
}

three-IsStreamed : IsStreamed three_clients 5 (2 ∷ 4 ∷ [])
three-IsStreamed = record {
  chain = (refl, refl, refl, (refl, refl, refl, refl));
  distinct = ((refl, tt), (tt, tt));
  real = (refl, (refl, tt));
  number = refl;
}

unicast_add_client_example :
    let (vars', client) = unicast_add_client 3 13 three_clients in
    (client ≡ 3) × IsListed vars' (1 ∷ 2 ∷ 4 ∷ 3 ∷ [])
unicast_add_client_example =
    unicast_add_client-IsListed 13 3 three_clients (1 ∷ 2 ∷ 4 ∷ []) refl (refl, (refl, (refl, tt)))
      three-IsListed

unicast_del_client_example :
    IsListed (unicast_del_client 2 three_clients) (1 ∷ 4 ∷ [])
    × IsStreamed (unicast_del_client 2 three_clients) 5 (4 ∷ [])
unicast_del_client_example =
    unicast_del_client_lem 2 three_clients (1 ∷ []) (4 ∷ []) 5 [] (4 ∷ []) refl refl three-IsListed
      three-IsStreamed

unicast_freeing_example : IsListed (unicast_freeing three_clients) []
unicast_freeing_example = unicast_freeing-IsListed three_clients (1 ∷ 2 ∷ 4 ∷ []) three-IsListed
