-- ===== src/Autoconf/Pat/Places.antt =====
-- The search for the last channel of a service (src/autoconf_pat.c).
use mu_mu_dvb.Prelude.{Bool-cases, ◌∙◌, ◌+◌, ap₂, ◌⊎◌, ◌++◌, ◌==◌, ◌≡◌, if◌then◌else◌, ℕ, List}
use mu_mu_dvb.Prelude.{[], ◌∷◌, none, some, true, false, Bool, Option, refl, arith, inl, inr, ap}
use mu_mu_dvb.Prelude.{map}
use mu_mu_dvb.Autoconf.Pat.{length, set, last_place}
use mu_mu_dvb.Autoconf.Channel.{AutoChannel}

module _ {ℓ} {A : Type ℓ} (own : A → Bool) where
  abbrev pub IsNowhere : List A → Type 0
  IsNowhere [] = Unit
  IsNowhere (x ∷ xs) = (own x ≡ false) × IsNowhere xs

  -- The element at `place` is the last one that the test holds for.
  pub record IsLast (xs : List A) (place : ℕ) : Type ℓ where
    pub before : List A
    pub it : A
    pub behind : List A
    pub split : xs ≡ before ++ (it ∷ behind)
    pub holds : own it ≡ true
    pub no_later : IsNowhere behind
    pub at : length before ≡ place

  pub last_place_cases :
      (i : ℕ) (place : Option ℕ) (xs : List A)
      → (IsNowhere xs × (last_place own i place xs ≡ place))
        ⊎ ((k : ℕ) × IsLast xs k × (last_place own i place xs ≡ some (i + k)))
  unfolding last_place
  last_place_cases i place [] = inl (tt, refl)
  last_place_cases i place (x ∷ xs) =
      elim (last_place_cases (i + 1) (if own x then some i else place) xs) [
        | inr later ↦
            let l = later.1 in
            inr (
              later.0 + 1,
              record {
                before = x ∷ l.before;
                it = l.it;
                behind = l.behind;
                split = ap (λ (ys : List A). x ∷ ys) l.split;
                holds = l.holds;
                no_later = l.no_later;
                at = omega (arith, l.at);
              },
              later.2 ∙ ap some (omega arith),
            )
        | inl none_later ↦ elim (Bool-cases (own x)) [
          | inl hit ↦ inr (
            0,
            record {
              before = [];
              it = x;
              behind = xs;
              split = refl;
              holds = hit;
              no_later = none_later.0;
              at = refl;
            },
            none_later.1
                ∙ ap (λ (b : Bool). if b then some i else place) hit
                ∙ ap some (omega arith),
          )
          | inr miss ↦ inl (
            (miss, none_later.0),
            none_later.1 ∙ ap (λ (b : Bool). if b then some i else place) miss,
          )
        ]
      ]

pub set-middle {ℓ} :
    {A : Type ℓ} (before : List A) (c c' : A) (behind : List A)
    → set (before ++ (c ∷ behind)) (length before) c' ≡ before ++ (c' ∷ behind)
set-middle [] c c' behind = refl
set-middle (x ∷ before) c c' behind = ap (λ l. x ∷ l) (set-middle before c c' behind)

abbrev pub is_service : ℕ → AutoChannel → Bool
is_service sid c = c.service_id == sid

abbrev later : Option AutoChannel → Option AutoChannel → Option AutoChannel
later none c = c
later (some c') c = some c'

-- The last channel of a service.
abbrev pub channel_of : ℕ → List AutoChannel → Option AutoChannel
channel_of sid [] = none
channel_of sid (c ∷ cs) = later (channel_of sid cs) (if c.service_id == sid then some c else none)

pub channel_of-nowhere :
    (sid : ℕ) (cs : List AutoChannel) → IsNowhere (is_service sid) cs → channel_of sid cs ≡ none
channel_of-nowhere sid [] h = refl
channel_of-nowhere sid (c ∷ cs) h = rw (channel_of-nowhere sid cs h.1, h.0) refl

pub channel_of-last :
    (sid : ℕ) (before : List AutoChannel) (c : AutoChannel) (behind : List AutoChannel)
    → is_service sid c ≡ true
    → IsNowhere (is_service sid) behind
    → channel_of sid (before ++ (c ∷ behind)) ≡ some c
channel_of-last sid [] c behind own h = rw (channel_of-nowhere sid behind h, own) refl
channel_of-last sid (b ∷ before) c behind own h =
    rw (channel_of-last sid before c behind own h) refl

pub channel_of-other :
    (sid : ℕ) (before : List AutoChannel) (c c' : AutoChannel) (behind : List AutoChannel)
    → is_service sid c ≡ false
    → is_service sid c' ≡ false
    → channel_of sid (before ++ (c ∷ behind)) ≡ channel_of sid (before ++ (c' ∷ behind))
channel_of-other sid [] c c' behind h h' = rw (h, h') refl
channel_of-other sid (b ∷ before) c c' behind h h' =
    ap (λ (o : Option AutoChannel). later o (if b.service_id == sid then some b else none))
      (channel_of-other sid before c c' behind h h')

pub channel_of-append_other :
    (sid : ℕ) (cs : List AutoChannel) (c : AutoChannel)
    → is_service sid c ≡ false
    → channel_of sid (cs ++ (c ∷ [])) ≡ channel_of sid cs
channel_of-append_other sid [] c h = rw h refl
channel_of-append_other sid (b ∷ cs) c h =
    ap (λ (o : Option AutoChannel). later o (if b.service_id == sid then some b else none))
      (channel_of-append_other sid cs c h)

abbrev pub then_map : (AutoChannel → AutoChannel) → Option AutoChannel → Option AutoChannel
then_map f none = none
then_map f (some c) = some (f c)

later-then_map :
    (f : AutoChannel → AutoChannel) (o : Option AutoChannel) (b : Bool) (c : AutoChannel)
    → later (then_map f o) (if b then some (f c) else none)
      ≡ then_map f (later o (if b then some c else none))
later-then_map f none true c = refl
later-then_map f none false c = refl
later-then_map f (some c') b c = refl

pub channel_of-map :
    (f : AutoChannel → AutoChannel)
    → ((c : AutoChannel) → (f c).service_id ≡ c.service_id)
    → (sid : ℕ) (cs : List AutoChannel) → channel_of sid (map f cs) ≡ then_map f (channel_of sid cs)
channel_of-map f same sid [] = refl
channel_of-map f same sid (c ∷ cs) =
    ap₂ (λ (o : Option AutoChannel) (n : ℕ). later o (if n == sid then some (f c) else none))
      (channel_of-map f same sid cs) (same c)
    ∙ later-then_map f (channel_of sid cs) (c.service_id == sid) c
