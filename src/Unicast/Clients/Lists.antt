-- ===== src/Unicast/Clients/Lists.antt =====
-- The list of all clients and the list of a channel (src/unicast_clients.c) as lists.
use mu_mu_dvb.Prelude.{sym, ap, length, ◌∙◌, Bool-cases, ◌≡◌, ◌==◌, ℕ, List, refl, arith, inl}
use mu_mu_dvb.Prelude.{inr, true, false}
use mu_mu_dvb.Unicast.Clients.Chain.{IsOutside, AllDifferent, IsChain}
use mu_mu_dvb.Unicast.Clients.{Clients, write_at, ClientNode}

-- The clients are chained in this order, and counted.
pub record IsListed (vars : Clients) (cs : List ℕ) : Type 0 where
  pub chain : IsChain (λ q. (vars.node q).next) (λ q. (vars.node q).prev) 0 vars.clients cs
  pub distinct : AllDifferent cs
  pub real : IsOutside 0 cs
  pub number : vars.client_number ≡ length cs

-- The same for the list of a channel.
pub record IsStreamed (vars : Clients) (channel : ℕ) (cs : List ℕ) : Type 0 where
  pub chain :
      IsChain
        (λ q. (vars.node q).chan_next)
        (λ q. (vars.node q).chan_prev)
        0
        (vars.chan_clients channel)
        cs
  pub distinct : AllDifferent cs
  pub real : IsOutside 0 cs
  pub number : vars.num_clients channel ≡ length cs

module _ {ℓ} {A : Type ℓ} where
  pub write_at-same : (f : ℕ → A) (k : ℕ) (v : A) → write_at f k v k ≡ v
  write_at-same f k v = let same : (k == k) ≡ true = ground arith in rw same refl

  pub write_at-other :
      (f : ℕ → A) (k : ℕ) (v : A) (q : ℕ) → (q == k) ≡ false → write_at f k v q ≡ f q
  write_at-other f k v q h = rw h refl

-- A field that a write at `k` leaves as it is there is so everywhere.
pub kept_field :
    {B : Type 0} (field : ClientNode → B) (f : ℕ → ClientNode) (k : ℕ) (v : ClientNode)
    → field v ≡ field (f k)
    → (q : ℕ) → field (write_at f k v q) ≡ field (f q)
kept_field field f k v e q = elim (Bool-cases (q == k)) [
  | inl same ↦ rw same (e ∙ ap (λ (j : ℕ). field (f j)) (sym (ground (arith, same))))
  | inr other ↦ rw other refl
]
