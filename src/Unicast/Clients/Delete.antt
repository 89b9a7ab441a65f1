-- ===== src/Unicast/Clients/Delete.antt =====
-- A client leaves its two lists (`unicast_del_client` of src/unicast_clients.c).
use mu_mu_dvb.Unicast.Clients.Lists.{write_at-same, IsListed, IsStreamed}
use mu_mu_dvb.Prelude.{ap, sym, if◌then◌else◌, Bool, length-append, subst, Bool-cases, ◌==◌, ◌∙◌}
use mu_mu_dvb.Prelude.{◌-◌, ◌++◌, ◌≡◌, length, ℕ, List, [], ◌∷◌, refl, arith, inl, inr, true}
use mu_mu_dvb.Prelude.{false}
use mu_mu_dvb.Unicast.Clients.{write_at, Clients, ClientNode, unlink_client, unlink_from_channel}
use mu_mu_dvb.Unicast.Clients.{unicast_del_client}
use mu_mu_dvb.Unicast.Clients.Unlink.{after-IsChain, head-delete, IsOutside-delete, before}
use mu_mu_dvb.Unicast.Clients.Unlink.{AllDifferent-delete, unless-field, after, Links}
use mu_mu_dvb.Unicast.Clients.Chain.{IsChain}

abbrev all_links : Links
all_links = record {
  nx = λ x. x.next;
  pv = λ x. x.prev;
  set_nx = λ v x. record x { next = v };
  set_pv = λ v x. record x { prev = v };
  nx-set_nx = λ v x. refl;
  pv-set_nx = λ v x. refl;
  pv-set_pv = λ v x. refl;
  nx-set_pv = λ v x. refl;
}

abbrev channel_links : Links
channel_links = record {
  nx = λ x. x.chan_next;
  pv = λ x. x.chan_prev;
  set_nx = λ v x. record x { chan_next = v };
  set_pv = λ v x. record x { chan_prev = v };
  nx-set_nx = λ v x. refl;
  pv-set_nx = λ v x. refl;
  pv-set_pv = λ v x. refl;
  nx-set_pv = λ v x. refl;
}

-- A field that neither link is.
after-field :
    (l : Links) (field : ClientNode → ℕ) (node : ℕ → ClientNode) (c : ℕ)
    → ((v : ℕ) (x : ClientNode) → field (l.set_nx v x) ≡ field x)
    → ((v : ℕ) (x : ClientNode) → field (l.set_pv v x) ≡ field x)
    → (q : ℕ) → field (after l node c q) ≡ field (node q)
after-field l field node c keeps_nx keeps_pv q =
    unless-field field (l.nx (node c) == 0) (before l node c) (l.nx (node c))
      (l.set_pv (l.pv (node c)) (before l node c (l.nx (node c))))
      (keeps_pv (l.pv (node c)) (before l node c (l.nx (node c)))) q
    ∙ unless-field field (l.pv (node c) == 0) node (l.pv (node c))
        (l.set_nx (l.nx (node c)) (node (l.pv (node c))))
        (keeps_nx (l.nx (node c)) (node (l.pv (node c)))) q

IsChain-same :
    (n p n' p' : ℕ → ℕ) (b x : ℕ) (cs : List ℕ)
    → ((q : ℕ) → n' q ≡ n q)
    → ((q : ℕ) → p' q ≡ p q)
    → IsChain n p b x cs
    → IsChain n' p' b x cs
IsChain-same n p n' p' b x [] hn hp h = h
IsChain-same n p n' p' b x (c ∷ cs) hn hp h = (
  h.0,
  h.1,
  hp c ∙ h.2,
  subst (λ (y : ℕ). IsChain n' p' c y cs) (sym (hn c))
      (IsChain-same n p n' p' c (n c) cs hn hp h.3),
)

length-delete : (c : ℕ) (xs bs : List ℕ) → length (xs ++ (c ∷ bs)) - 1 ≡ length (xs ++ bs)
length-delete c xs bs = omega (arith, length-append xs (c ∷ bs), length-append xs bs)

module _ (c : ℕ) (xs bs : List ℕ) where
  unlink_client-IsListed :
      (vars : Clients)
      → IsListed vars (xs ++ (c ∷ bs))
      → IsChain
          (λ q. ((unlink_client c vars).node q).next)
          (λ q. ((unlink_client c vars).node q).prev)
          0
          (unlink_client c vars).clients
          (xs ++ bs)
  unfolding unlink_client
  unlink_client-IsListed vars v =
      let node = vars.node in
      let n : ℕ → ℕ = λ q. (node q).next in
      let p : ℕ → ℕ = λ q. (node q).prev in
      subst
        (λ (x : ℕ).
          IsChain (λ q. (after all_links node c q).next) (λ q. (after all_links node c q).prev) 0 x
            (xs ++ bs))
        (head-delete n p vars.clients c xs bs v.real v.chain)
        (after-IsChain all_links node c vars.clients xs bs v.real v.distinct v.chain)

  -- The links of the other kind.
  unlink_client-IsStreamed :
      (vars : Clients) (channel : ℕ) (cs : List ℕ)
      → IsStreamed vars channel cs
      → IsStreamed (unlink_client c vars) channel cs
  unfolding unlink_client
  unlink_client-IsStreamed vars channel cs v = record {
    chain =
        IsChain-same (λ q. (vars.node q).chan_next) (λ q. (vars.node q).chan_prev)
          (λ q. (after all_links vars.node c q).chan_next)
          (λ q. (after all_links vars.node c q).chan_prev) 0 (vars.chan_clients channel) cs
          (after-field all_links (λ x. x.chan_next) vars.node c (λ v x. refl) (λ v x. refl))
          (after-field all_links (λ x. x.chan_prev) vars.node c (λ v x. refl) (λ v x. refl))
          v.chain;
    distinct = v.distinct;
    real = v.real;
    number = v.number;
  }

  unlink_client-number :
      (vars : Clients) → (unlink_client c vars).client_number ≡ vars.client_number
  unfolding unlink_client
  unlink_client-number vars = refl

  unlink_client-chan_ptr :
      (vars : Clients) → ((unlink_client c vars).node c).chan_ptr ≡ (vars.node c).chan_ptr
  unfolding unlink_client
  unlink_client-chan_ptr vars =
      after-field all_links (λ x. x.chan_ptr) vars.node c (λ v x. refl) (λ v x. refl) c

  -- The list of all is as it was.
  unlink_from_channel-IsChain :
      (vars : Clients) (cs : List ℕ)
      → IsChain (λ q. (vars.node q).next) (λ q. (vars.node q).prev) 0 vars.clients cs
      → let u = unlink_from_channel c vars in
        IsChain (λ q. (u.node q).next) (λ q. (u.node q).prev) 0 u.clients cs
        × (u.client_number ≡ vars.client_number)
  unfolding unlink_from_channel
  unlink_from_channel-IsChain vars cs h = elim (Bool-cases ((vars.node c).chan_ptr == 0)) [
    | inl no_channel ↦ rw no_channel (h, refl)
    | inr some_channel ↦ rw some_channel (
      IsChain-same (λ q. (vars.node q).next) (λ q. (vars.node q).prev)
          (λ q. (after channel_links vars.node c q).next)
          (λ q. (after channel_links vars.node c q).prev) 0 vars.clients cs
          (after-field channel_links (λ x. x.next) vars.node c (λ v x. refl) (λ v x. refl))
          (after-field channel_links (λ x. x.prev) vars.node c (λ v x. refl) (λ v x. refl)) h,
      refl,
    )
  ]

  unlink_from_channel-IsStreamed :
      (vars : Clients) (channel : ℕ)
      → (vars.node c).chan_ptr ≡ channel
      → (channel == 0) ≡ false
      → IsStreamed vars channel (xs ++ (c ∷ bs))
      → IsStreamed (unlink_from_channel c vars) channel (xs ++ bs)
  unfolding unlink_from_channel
  unlink_from_channel-IsStreamed vars channel own some_channel v =
      let node = vars.node in
      let n : ℕ → ℕ = λ q. (node q).chan_next in
      let p : ℕ → ℕ = λ q. (node q).chan_prev in
      let x = vars.chan_clients channel in
      let head = head-delete n p x c xs bs v.real v.chain in
      let rest = after-IsChain channel_links node c x xs bs v.real v.distinct v.chain in
      rw (own, some_channel)
        (record {
          chain =
              subst
                (λ (y : ℕ).
                  IsChain (λ q. (after channel_links node c q).chan_next)
                    (λ q. (after channel_links node c q).chan_prev) 0 y (xs ++ bs))
                (head ∙ new_head (p c == 0) (n c)) rest;
          distinct = AllDifferent-delete c xs bs v.distinct;
          real = IsOutside-delete 0 c xs bs v.real;
          number =
              write_at-same vars.num_clients channel (vars.num_clients channel - 1)
              ∙ ap (λ (k : ℕ). k - 1) v.number
              ∙ length-delete c xs bs;
        })
    where
      new_head :
          (z : Bool) (y : ℕ)
          → (if z then y else vars.chan_clients channel)
            ≡ (if z then write_at vars.chan_clients channel y else vars.chan_clients) channel
      new_head true y = sym (write_at-same vars.chan_clients channel y)
      new_head false y = refl

  pub unicast_del_client-IsListed :
      (vars : Clients)
      → IsListed vars (xs ++ (c ∷ bs))
      → IsListed (unicast_del_client c vars) (xs ++ bs)
  unfolding unicast_del_client
  unicast_del_client-IsListed vars v =
      let unlinked = unlink_client c vars in
      let u = unlink_from_channel-IsChain unlinked (xs ++ bs) (unlink_client-IsListed vars v) in
      record {
        chain = u.0;
        distinct = AllDifferent-delete c xs bs v.distinct;
        real = IsOutside-delete 0 c xs bs v.real;
        number =
            ap (λ (k : ℕ). k - 1) (u.1 ∙ unlink_client-number vars ∙ v.number)
            ∙ length-delete c xs bs;
      }

  unicast_del_client-IsStreamed :
      (vars : Clients) (channel : ℕ)
      → (vars.node c).chan_ptr ≡ channel
      → (channel == 0) ≡ false
      → IsStreamed vars channel (xs ++ (c ∷ bs))
      → IsStreamed (unicast_del_client c vars) channel (xs ++ bs)
  unfolding unicast_del_client
  unicast_del_client-IsStreamed vars channel own some_channel v =
      let u =
        unlink_from_channel-IsStreamed (unlink_client c vars) channel
          (unlink_client-chan_ptr vars ∙ own) some_channel
          (unlink_client-IsStreamed vars channel (xs ++ (c ∷ bs)) v) in
      record { chain = u.chain; distinct = u.distinct; real = u.real; number = u.number }

-- A client that stands in the list of all clients and in that of its channel leaves both when it is
-- deleted; in each the others stay in their order and are counted.
pub unicast_del_client_lem :
    (c : ℕ) (vars : Clients) (xs bs : List ℕ) (channel : ℕ) (ys ds : List ℕ)
    → (vars.node c).chan_ptr ≡ channel
    → (channel == 0) ≡ false
    → IsListed vars (xs ++ (c ∷ bs))
    → IsStreamed vars channel (ys ++ (c ∷ ds))
    → IsListed (unicast_del_client c vars) (xs ++ bs)
      × IsStreamed (unicast_del_client c vars) channel (ys ++ ds)
unicast_del_client_lem c vars xs bs channel ys ds own some_channel v w = (
  unicast_del_client-IsListed c xs bs vars v,
  unicast_del_client-IsStreamed c ys ds vars channel own some_channel w,
)
