-- ===== src/Unicast/Clients/Append.antt =====
-- A client comes into the list of all clients (`unicast_add_client` of src/unicast_clients.c), and
-- all leave it (`unicast_freeing`).
use mu_mu_dvb.Unicast.Clients.Lists.{kept_field, write_at-other, write_at-same, IsListed}
use mu_mu_dvb.Unicast.Clients.Chain.{IsChain-append, last-outside, chain-last, last_of, IsChain}
use mu_mu_dvb.Unicast.Clients.Chain.{differ_sym, AllDifferent, IsOutside}
use mu_mu_dvb.Unicast.Clients.{write_at, last_client, new_client, ClientNode, unicast_del_client}
use mu_mu_dvb.Unicast.Clients.{free_clients, Clients, unicast_add_client, unicast_freeing}
use mu_mu_dvb.Prelude.{ap₂, subst, length-append, sym, ◌∙◌, ap, ◌+◌, length, ◌≡◌, ◌++◌, ◌==◌, ℕ}
use mu_mu_dvb.Prelude.{List, [], ◌∷◌, refl, arith, true, false}
use mu_mu_dvb.Unicast.Clients.Delete.{unicast_del_client-IsListed}

IsOutside-append :
    (y : ℕ) (cs : List ℕ) (new : ℕ)
    → IsOutside y cs
    → (y == new) ≡ false
    → IsOutside y (cs ++ (new ∷ []))
IsOutside-append y [] new o h = (h, tt)
IsOutside-append y (c ∷ cs) new o h = (o.0, IsOutside-append y cs new o.1 h)

AllDifferent-append :
    (cs : List ℕ) (new : ℕ) → IsOutside new cs → AllDifferent cs → AllDifferent (cs ++ (new ∷ []))
AllDifferent-append [] new o d = (tt, tt)
AllDifferent-append (c ∷ cs) new o d =
    (IsOutside-append c cs new d.0 (differ_sym new c o.0), AllDifferent-append cs new o.1 d.1)

-- The client that the new one comes behind, and the memory then.
abbrev last_before : Clients → ℕ
last_before vars = last_client vars.client_number (λ q. (vars.node q).next) vars.clients

abbrev node_behind : ℕ → ℕ → Clients → ℕ → ClientNode
node_behind socket new vars =
    let last = last_before vars in
    write_at (write_at vars.node last (record (vars.node last) { next = new })) new
      (new_client socket last)

add_behind :
    (socket new : ℕ) (vars : Clients)
    → (new == 0) ≡ false
    → (vars.clients == 0) ≡ false
    → ((unicast_add_client new socket vars).0.node ≡ node_behind socket new vars)
      × ((unicast_add_client new socket vars).0.clients ≡ vars.clients)
unfolding unicast_add_client
add_behind socket new vars real more = rw (more, real) (refl, refl)

add_first :
    (socket new : ℕ) (vars : Clients)
    → (new == 0) ≡ false
    → (vars.clients == 0) ≡ true
    → ((unicast_add_client new socket vars).0.node ≡ write_at vars.node new (new_client socket 0))
      × ((unicast_add_client new socket vars).0.clients ≡ new)
unfolding unicast_add_client
add_first socket new vars real first = rw (first, real) (refl, refl)

abbrev IsChained : (ℕ → ClientNode) → ℕ → List ℕ → Type 0
IsChained node x cs = IsChain (λ q. (node q).next) (λ q. (node q).prev) 0 x cs

behind-IsChained :
    (socket new : ℕ) (vars : Clients) (c : ℕ) (cs : List ℕ)
    → (new == 0) ≡ false
    → IsOutside new (c ∷ cs)
    → IsListed vars (c ∷ cs)
    → IsChained (node_behind socket new vars) vars.clients ((c ∷ cs) ++ (new ∷ []))
behind-IsChained socket new vars c cs real o v =
    let node = vars.node in
    let n : ℕ → ℕ = λ q. (node q).next in
    let p : ℕ → ℕ = λ q. (node q).prev in
    let last = last_before vars in
    let is_last : last ≡ last_of c cs =
      chain-last n p vars.client_number 0 vars.clients c cs v.chain (omega (arith, v.number)) in
    let told : ClientNode = record (node last) { next = new } in
    let linked = write_at node last told in
    let made = new_client socket last in
    let apart : (last == new) ≡ false =
      ap (λ (k : ℕ). k == new) is_last
      ∙ differ_sym new (last_of c cs) (last-outside new c cs o.0 o.1) in
    IsChain-append n p (λ q. (write_at linked new made q).next)
      (λ q. (write_at linked new made q).prev) new real last 0 vars.clients (c ∷ cs)
      (λ q away far.
        ap (λ (x : ClientNode). x.next)
          (write_at-other linked new made q away ∙ write_at-other node last told q far))
      (λ q away.
        ap (λ (x : ClientNode). x.prev) (write_at-other linked new made q away)
        ∙ kept_field (λ x. x.prev) node last told refl q)
      (λ _.
        ap (λ (x : ClientNode). x.next)
          (write_at-other linked new made last apart ∙ write_at-same node last told))
      (ap (λ (x : ClientNode). x.next) (write_at-same linked new made))
      (ap (λ (x : ClientNode). x.prev) (write_at-same linked new made)) is_last v.real o v.distinct
      v.chain

-- The new state, with the other clients in front.
appended :
    (socket new : ℕ) (vars : Clients) (cs : List ℕ)
    → (new == 0) ≡ false
    → IsOutside new cs
    → IsListed vars cs
    → let vars' = (unicast_add_client new socket vars).0 in
      IsChained vars'.node vars'.clients (cs ++ (new ∷ []))
appended socket new vars [] real o v =
    let added = add_first socket new vars real (ground (arith, v.chain)) in
    (
      added.1,
      real,
      ap (λ (f : ℕ → ClientNode). (f new).prev) added.0
          ∙ ap (λ (x : ClientNode). x.prev) (write_at-same vars.node new (new_client socket 0)),
      ap (λ (f : ℕ → ClientNode). (f new).next) added.0
          ∙ ap (λ (x : ClientNode). x.next) (write_at-same vars.node new (new_client socket 0)),
    )
appended socket new vars (c ∷ cs) real o v =
    let added = add_behind socket new vars real (ap (λ (k : ℕ). k == 0) v.chain.0 ∙ v.chain.1) in
    subst
      (λ (f : ℕ → ClientNode).
        IsChained f (unicast_add_client new socket vars).0.clients ((c ∷ cs) ++ (new ∷ [])))
      (sym added.0)
      (subst (λ (x : ℕ). IsChained (node_behind socket new vars) x ((c ∷ cs) ++ (new ∷ [])))
        (sym added.1) (behind-IsChained socket new vars c cs real o v))

add_result :
    (socket new : ℕ) (vars : Clients)
    → (new == 0) ≡ false
    → ((unicast_add_client new socket vars).1 ≡ new)
      × ((unicast_add_client new socket vars).0.client_number ≡ vars.client_number + 1)
unfolding unicast_add_client
add_result socket new vars real = rw real (refl, refl)

-- With memory, at an address that no client of the list has, `unicast_add_client` returns the new
-- client, and puts it behind the clients of the list, which stay in their order and are counted.
pub unicast_add_client-IsListed :
    (socket new : ℕ) (vars : Clients) (cs : List ℕ)
    → (new == 0) ≡ false
    → IsOutside new cs
    → IsListed vars cs
    → let (vars', client) = unicast_add_client new socket vars in
      (client ≡ new) × IsListed vars' (cs ++ (new ∷ []))
unicast_add_client-IsListed socket new vars cs real o v =
    let result = add_result socket new vars real in
    (
      result.0,
      record {
        chain = appended socket new vars cs real o v;
        distinct = AllDifferent-append cs new o v.distinct;
        real = IsOutside-append 0 cs new v.real (differ_sym new 0 real);
        number =
            result.1 ∙ ap (λ (k : ℕ). k + 1) v.number ∙ omega (arith, length-append cs (new ∷ []));
      },
    )

free_all :
    (cs : List ℕ) (vars : Clients)
    → IsListed vars cs
    → IsListed (free_clients (length cs) vars.clients vars) []
unfolding free_clients
free_all [] vars v = v
free_all (c ∷ cs) vars v =
    let deleted = unicast_del_client c vars in
    let rest = unicast_del_client-IsListed c [] cs vars v in
    let more : (vars.clients == 0) ≡ false = ap (λ (k : ℕ). k == 0) v.chain.0 ∙ v.chain.1 in
    let same_next : (vars.node vars.clients).next ≡ deleted.clients =
      ap (λ (k : ℕ). (vars.node k).next) v.chain.0 ∙ next_head c cs vars v in
    rw more (
      subst
        (λ (z : ℕ × ℕ). IsListed (free_clients (length cs) z.1 (unicast_del_client z.0 vars)) [])
        (ap₂ (λ (a b : ℕ). (a, b)) (sym v.chain.0) (sym same_next)) (free_all cs deleted rest))
  where
    next_head :
        (c : ℕ) (cs : List ℕ) (vars : Clients)
        → IsListed vars (c ∷ cs)
        → (vars.node c).next ≡ (unicast_del_client c vars).clients
    next_head c cs vars v =
        let rest = unicast_del_client-IsListed c [] cs vars v in
        same_start cs (λ q. (vars.node q).next) (λ q. (vars.node q).prev)
          (λ q. ((unicast_del_client c vars).node q).next)
          (λ q. ((unicast_del_client c vars).node q).prev) c 0 (vars.node c).next
          (unicast_del_client c vars).clients v.chain.3 rest.chain
      where
        same_start :
            (ds : List ℕ) (n p n' p' : ℕ → ℕ) (b b' x y : ℕ)
            → IsChain n p b x ds
            → IsChain n' p' b' y ds
            → x ≡ y
        same_start [] n p n' p' b b' x y h k = h ∙ sym k
        same_start (d ∷ ds) n p n' p' b b' x y h k = h.0 ∙ sym k.0

-- `unicast_freeing`, with as many rounds as clients are counted, ends with no client in the list.
pub unicast_freeing-IsListed :
    (vars : Clients) (cs : List ℕ) → IsListed vars cs → IsListed (unicast_freeing vars) []
unfolding unicast_freeing
unicast_freeing-IsListed vars cs v =
    subst (λ (n : ℕ). IsListed (free_clients n vars.clients vars) []) (sym v.number)
      (free_all cs vars v)
