-- ===== src/Unicast/Clients/Unlink.antt =====
-- The writes by which a client leaves either list (`unicast_del_client` of src/unicast_clients.c).
use mu_mu_dvb.Prelude.{ap, ◌∙◌, if◌then◌else◌, ◌≡◌, ◌++◌, ◌==◌, Bool, ℕ, List, [], ◌∷◌, refl}
use mu_mu_dvb.Prelude.{arith, true, false}
use mu_mu_dvb.Unicast.Clients.Lists.{kept_field, write_at-other, write_at-same}
use mu_mu_dvb.Unicast.Clients.{write_at, ClientNode}
use mu_mu_dvb.Unicast.Clients.Chain.{prev-outside, differ_sym, IsChain-delete, start, IsChain}
use mu_mu_dvb.Unicast.Clients.Chain.{IsOutside, AllDifferent}

-- A write that is made unless `z` holds.
abbrev pub write_unless : Bool → (ℕ → ClientNode) → ℕ → ClientNode → ℕ → ClientNode
write_unless z f k v = if z then f else write_at f k v

unless-other :
    (z : Bool) (f : ℕ → ClientNode) (k : ℕ) (v : ClientNode) (q : ℕ)
    → (q == k) ≡ false
    → write_unless z f k v q ≡ f q
unless-other true f k v q h = refl
unless-other false f k v q h = write_at-other f k v q h

pub unless-field :
    (field : ClientNode → ℕ) (z : Bool) (f : ℕ → ClientNode) (k : ℕ) (v : ClientNode)
    → field v ≡ field (f k)
    → (q : ℕ) → field (write_unless z f k v q) ≡ field (f q)
unless-field field true f k v e q = refl
unless-field field false f k v e q = kept_field field f k v e q

unless-at :
    (z : Bool) (f : ℕ → ClientNode) (k : ℕ) (v : ClientNode)
    → z ≡ false
    → write_unless z f k v k ≡ v
unless-at true f k v h = absurd (ground (arith, h))
unless-at false f k v h = write_at-same f k v

pub IsOutside-delete :
    (a c : ℕ) (xs bs : List ℕ) → IsOutside a (xs ++ (c ∷ bs)) → IsOutside a (xs ++ bs)
IsOutside-delete a c [] bs o = o.1
IsOutside-delete a c (x ∷ xs) bs o = (o.0, IsOutside-delete a c xs bs o.1)

pub AllDifferent-delete :
    (c : ℕ) (xs bs : List ℕ) → AllDifferent (xs ++ (c ∷ bs)) → AllDifferent (xs ++ bs)
AllDifferent-delete c [] bs d = d.1
AllDifferent-delete c (x ∷ xs) bs d =
    (IsOutside-delete x c xs bs d.0, AllDifferent-delete c xs bs d.1)

-- The two links of a list, each of which is set without a change of the other.
pub record Links : Type 0 where
  pub nx : ClientNode → ℕ
  pub pv : ClientNode → ℕ
  pub set_nx : ℕ → ClientNode → ClientNode
  pub set_pv : ℕ → ClientNode → ClientNode
  pub nx-set_nx : (v : ℕ) (x : ClientNode) → nx (set_nx v x) ≡ v
  pub pv-set_nx : (v : ℕ) (x : ClientNode) → pv (set_nx v x) ≡ pv x
  pub pv-set_pv : (v : ℕ) (x : ClientNode) → pv (set_pv v x) ≡ v
  pub nx-set_pv : (v : ℕ) (x : ClientNode) → nx (set_pv v x) ≡ nx x

module _ (l : Links) (node : ℕ → ClientNode) (c : ℕ) where
  abbrev pub before : ℕ → ClientNode
  before =
      write_unless (l.pv (node c) == 0) node (l.pv (node c))
        (l.set_nx (l.nx (node c)) (node (l.pv (node c))))

  -- The memory without the client in the list.
  abbrev pub after : ℕ → ClientNode
  after =
      write_unless (l.nx (node c) == 0) before (l.nx (node c))
        (l.set_pv (l.pv (node c)) (before (l.nx (node c))))

  nx-after : (q : ℕ) → l.nx (after q) ≡ l.nx (before q)
  nx-after q =
      unless-field l.nx (l.nx (node c) == 0) before (l.nx (node c))
        (l.set_pv (l.pv (node c)) (before (l.nx (node c))))
        (l.nx-set_pv (l.pv (node c)) (before (l.nx (node c)))) q

  pv-before : (q : ℕ) → l.pv (before q) ≡ l.pv (node q)
  pv-before q =
      unless-field l.pv (l.pv (node c) == 0) node (l.pv (node c))
        (l.set_nx (l.nx (node c)) (node (l.pv (node c))))
        (l.pv-set_nx (l.nx (node c)) (node (l.pv (node c)))) q

  pub after-IsChain :
      (x : ℕ) (xs bs : List ℕ)
      → IsOutside 0 (xs ++ (c ∷ bs))
      → AllDifferent (xs ++ (c ∷ bs))
      → IsChain (λ q. l.nx (node q)) (λ q. l.pv (node q)) 0 x (xs ++ (c ∷ bs))
      → IsChain
          (λ q. l.nx (after q))
          (λ q. l.pv (after q))
          0
          (start xs x (l.nx (node c)))
          (xs ++ bs)
  after-IsChain x xs bs real distinct h =
      IsChain-delete (λ q. l.nx (node q)) (λ q. l.pv (node q)) (λ q. l.nx (after q))
        (λ q. l.pv (after q)) c bs
        (λ q far.
          nx-after q
          ∙ ap l.nx (
              unless-other (l.pv (node c) == 0) node (l.pv (node c))
                (l.set_nx (l.nx (node c)) (node (l.pv (node c)))) q far))
        (λ some_prev.
          nx-after (l.pv (node c))
          ∙ ap l.nx (
              unless-at (l.pv (node c) == 0) node (l.pv (node c))
                (l.set_nx (l.nx (node c)) (node (l.pv (node c)))) some_prev)
          ∙ l.nx-set_nx (l.nx (node c)) (node (l.pv (node c))))
        (λ q far.
          ap l.pv (
            unless-other (l.nx (node c) == 0) before (l.nx (node c))
              (l.set_pv (l.pv (node c)) (before (l.nx (node c)))) q far)
          ∙ pv-before q)
        (λ some_next.
          ap l.pv (
            unless-at (l.nx (node c) == 0) before (l.nx (node c))
              (l.set_pv (l.pv (node c)) (before (l.nx (node c)))) some_next)
          ∙ l.pv-set_pv (l.pv (node c)) (before (l.nx (node c))))
        0 x xs real distinct h

-- The head of the list without the client.
pub head-delete :
    (n p : ℕ → ℕ) (x c : ℕ) (xs bs : List ℕ)
    → IsOutside 0 (xs ++ (c ∷ bs))
    → IsChain n p 0 x (xs ++ (c ∷ bs))
    → start xs x (n c) ≡ (if p c == 0 then n c else x)
head-delete n p x c [] bs real h =
    let first : (p c == 0) ≡ true = ground (arith, h.2) in rw first refl
head-delete n p x c (a ∷ xs) bs real h =
    let later : (p c == 0) ≡ false =
      differ_sym 0 (p c) (prev-outside n p 0 a (n a) c xs bs real.0 real.1 h.3) in
    rw later refl
