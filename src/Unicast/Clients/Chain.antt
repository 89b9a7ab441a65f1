-- ===== src/Unicast/Clients/Chain.antt =====
-- Doubly linked chains of clients, xs two functions from a client to the next and to the previous
-- one (src/unicast_clients.c); 0 is NULL.
use mu_mu_dvb.Prelude.{◌≤◌, sym, subst, ap, ◌∙◌, length, ◌==◌, ◌≡◌, ◌++◌, ℕ, zero, suc, List, []}
use mu_mu_dvb.Prelude.{◌∷◌, refl, arith, true, false}
use mu_mu_dvb.Unicast.Clients.{last_client}

-- From `x`, before which stands `before`, the chain goes through `cs` to NULL.
abbrev pub IsChain : (ℕ → ℕ) → (ℕ → ℕ) → ℕ → ℕ → List ℕ → Type 0
IsChain next prev before x [] = x ≡ 0
IsChain next prev before x (c ∷ cs) =
    (x ≡ c) × ((c == 0) ≡ false) × (prev c ≡ before) × IsChain next prev c (next c) cs

abbrev pub IsOutside : ℕ → List ℕ → Type 0
IsOutside x [] = Unit
IsOutside x (y ∷ ys) = ((x == y) ≡ false) × IsOutside x ys

abbrev pub AllDifferent : List ℕ → Type 0
AllDifferent [] = Unit
AllDifferent (x ∷ xs) = IsOutside x xs × AllDifferent xs

-- The first of a list, or what comes behind it, and the last of one.
abbrev pub start : List ℕ → ℕ → ℕ → ℕ
start [] x y = y
start (a ∷ xs) x y = x

abbrev pub last_of : ℕ → List ℕ → ℕ
last_of b [] = b
last_of b (c ∷ cs) = last_of c cs

pub differ_sym : (a b : ℕ) → (a == b) ≡ false → (b == a) ≡ false
differ_sym a b h = ground arith

pub IsOutside-left : (x : ℕ) (xs bs : List ℕ) → IsOutside x (xs ++ bs) → IsOutside x xs
IsOutside-left x [] bs o = tt
IsOutside-left x (a ∷ xs) bs o = (o.0, IsOutside-left x xs bs o.1)

pub last-outside :
    (a b : ℕ) (cs : List ℕ) → (a == b) ≡ false → IsOutside a cs → (a == last_of b cs) ≡ false
last-outside a b [] h o = h
last-outside a b (c ∷ cs) h o = last-outside a c cs o.0 o.1

-- The last client of a chain.
pub chain-last :
    (n p : ℕ → ℕ) (fuel b x c : ℕ) (cs : List ℕ)
    → IsChain n p b x (c ∷ cs)
    → length cs ≤ fuel
    → last_client fuel n x ≡ last_of c cs
unfolding last_client
chain-last n p zero b x c [] h enough = h.0
chain-last n p zero b x c (d ∷ ds) h enough = absurd (omega arith)
chain-last n p (suc fuel) b x c [] h enough =
    let ended : (n c == 0) ≡ true = ground (arith, h.3) in
    ap (last_client (suc fuel) n) h.0 ∙ rw ended refl
chain-last n p (suc fuel) b x c (d ∷ ds) h enough =
    let more : (n c == 0) ≡ false = ap (λ (k : ℕ). k == 0) h.3.0 ∙ h.3.1 in
    ap (last_client (suc fuel) n) h.0 ∙ rw more (chain-last n p fuel c (n c) d ds h.3 (omega arith))

-- A client before a chain, or outside it, is not the one before `c`.
pub prev-outside :
    (n p : ℕ → ℕ) (a b x c : ℕ) (xs bs : List ℕ)
    → (a == b) ≡ false
    → IsOutside a (xs ++ (c ∷ bs))
    → IsChain n p b x (xs ++ (c ∷ bs))
    → (a == p c) ≡ false
prev-outside n p a b x c [] bs away o h = ap (λ (k : ℕ). a == k) h.2 ∙ away
prev-outside n p a b x c (y ∷ xs) bs away o h = prev-outside n p a y (n y) c xs bs o.0 o.1 h.3

module _ (n p n' p' : ℕ → ℕ) where
  -- A chain stays where neither of two changed clients stands in it.
  IsChain-frame :
      (e f b x : ℕ) (cs : List ℕ)
      → ((q : ℕ) → (q == e) ≡ false → n' q ≡ n q)
      → ((q : ℕ) → (q == f) ≡ false → p' q ≡ p q)
      → IsOutside e cs
      → IsOutside f cs
      → IsChain n p b x cs
      → IsChain n' p' b x cs
  IsChain-frame e f b x [] hn hp oe of h = h
  IsChain-frame e f b x (c ∷ cs) hn hp oe of h = (
    h.0,
    h.1,
    hp c (differ_sym f c of.0) ∙ h.2,
    subst (λ (y : ℕ). IsChain n' p' c y cs) (sym (hn c (differ_sym e c oe.0)))
        (IsChain-frame e f c (n c) cs hn hp oe.1 of.1 h.3),
  )

  module _ (new : ℕ) (real : (new == 0) ≡ false) where
    -- A new client behind the last one.
    pub IsChain-append :
        (l b x : ℕ) (cs : List ℕ)
        → ((q : ℕ) → (q == new) ≡ false → (q == l) ≡ false → n' q ≡ n q)
        → ((q : ℕ) → (q == new) ≡ false → p' q ≡ p q)
        → ((l == b) ≡ false → n' l ≡ new)
        → n' new ≡ 0
        → p' new ≡ l
        → l ≡ last_of b cs
        → IsOutside b cs
        → IsOutside new cs
        → AllDifferent cs
        → IsChain n p b x cs
        → IsChain n' p' b (start cs x new) (cs ++ (new ∷ []))
    IsChain-append l b x [] hn hp at_last at_new before is_last ob o d h =
        (refl, real, before ∙ is_last, at_new)
    IsChain-append l b x (c ∷ cs) hn hp at_last at_new before is_last ob o d h =
        let rest =
          IsChain-append l c (n c) cs hn hp (λ _. at_l) at_new before is_last d.0 o.1 d.1 h.3 in
        (
          h.0,
          h.1,
          hp c (differ_sym new c o.0) ∙ h.2,
          subst (λ (y : ℕ). IsChain n' p' c y (cs ++ (new ∷ []))) (sym (next_lem cs refl)) rest,
        )
      where
        at_l : n' l ≡ new
        at_l = at_last (
            ap (λ (k : ℕ). k == b) is_last
            ∙ differ_sym b (last_of c cs) (last-outside b c cs ob.0 ob.1))

        next_lem : (ds : List ℕ) → cs ≡ ds → n' c ≡ start ds (n c) new
        next_lem [] e = ap n' {x = c} {y = l} (sym (is_last ∙ ap (last_of c) e)) ∙ at_l
        next_lem (y ∷ ys) e =
            let far : IsOutside c (y ∷ ys) = subst (IsOutside c) e d.0 in
            hn c (differ_sym new c o.0) (
              ap (λ (k : ℕ). c == k) (is_last ∙ ap (last_of c) e) ∙ last-outside c y ys far.0 far.1)

  module _ (c : ℕ) (bs : List ℕ) (hn : (q : ℕ) → (q == p c) ≡ false → n' q ≡ n q)
      (hn_at : (p c == 0) ≡ false → n' (p c) ≡ n c) (hp : (q : ℕ) → (q == n c) ≡ false → p' q ≡ p q)
      (hp_at : (n c == 0) ≡ false → p' (n c) ≡ p c) where
    -- The first client leaves.
    delete_first :
        (b x : ℕ)
        → IsOutside b bs
        → AllDifferent bs
        → IsChain n p b x (c ∷ bs)
        → IsChain n' p' b (n c) bs
    delete_first = helper bs
      where
        helper :
            (ds : List ℕ) (b x : ℕ)
            → IsOutside b ds
            → AllDifferent ds
            → IsChain n p b x (c ∷ ds)
            → IsChain n' p' b (n c) ds
        helper [] b x ob distinct h = h.3
        helper (d ∷ ds) b x ob distinct h =
            let to_d : n c ≡ d = h.3.0 in
            let own : p c ≡ b = h.2 in
            let far : (d == p c) ≡ false = ap (λ (k : ℕ). d == k) own ∙ differ_sym b d ob.0 in
            (
              to_d,
              h.3.1,
              ap p' (sym to_d) ∙ hp_at (ap (λ (k : ℕ). k == 0) to_d ∙ h.3.1) ∙ own,
              subst (λ (y : ℕ). IsChain n' p' d y ds) (sym (hn d far))
                  (IsChain-frame (p c) (n c) d (n d) ds hn hp
                    (subst (λ (k : ℕ). IsOutside k ds) (sym own) ob.1)
                    (subst (λ (k : ℕ). IsOutside k ds) (sym to_d) distinct.0) h.3.3),
            )

    -- A client outside the chain is not behind the one that leaves.
    next-outside :
        (a b x : ℕ) (xs : List ℕ)
        → (a == 0) ≡ false
        → IsOutside a (xs ++ (c ∷ bs))
        → IsChain n p b x (xs ++ (c ∷ bs))
        → (a == n c) ≡ false
    next-outside a b x [] real o h = helper bs o.1 h.3
      where
        helper : (ds : List ℕ) → IsOutside a ds → IsChain n p c (n c) ds → (a == n c) ≡ false
        helper [] od hd = ap (λ (k : ℕ). a == k) hd ∙ real
        helper (d ∷ ds) od hd = ap (λ (k : ℕ). a == k) hd.0 ∙ od.0
    next-outside a b x (y ∷ xs) real o h = next-outside a y (n y) xs real o.1 h.3

    -- A client leaves the chain.
    pub IsChain-delete :
        (b x : ℕ) (xs : List ℕ)
        → IsOutside b (xs ++ (c ∷ bs))
        → AllDifferent (xs ++ (c ∷ bs))
        → IsChain n p b x (xs ++ (c ∷ bs))
        → IsChain n' p' b (start xs x (n c)) (xs ++ bs)
    IsChain-delete b x [] ob distinct h = delete_first b x ob.1 distinct.1 h
    IsChain-delete b x (a ∷ xs) ob distinct h =
        let rest = IsChain-delete a (n a) xs distinct.0 distinct.1 h.3 in
        (
          h.0,
          h.1,
          hp a (next-outside a a (n a) xs h.1 distinct.0 h.3) ∙ h.2,
          subst (λ (y : ℕ). IsChain n' p' a y (xs ++ bs)) (sym (next_lem xs distinct.0 h.3)) rest,
        )
      where
        next_lem :
            (ys : List ℕ)
            → IsOutside a (ys ++ (c ∷ bs))
            → IsChain n p a (n a) (ys ++ (c ∷ bs))
            → n' a ≡ start ys (n a) (n c)
        next_lem [] o chain = ap n' (sym chain.2) ∙ hn_at (ap (λ (k : ℕ). k == 0) chain.2 ∙ h.1)
        next_lem (y ∷ ys) o chain = hn a (prev-outside n p a y (n y) c ys bs o.0 o.1 chain.3)
