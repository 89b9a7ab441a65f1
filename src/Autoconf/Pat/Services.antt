-- ===== src/Autoconf/Pat/Services.antt =====
-- The services of the channels in their order (src/autoconf_pat.c).
use mu_mu_dvb.Prelude.{append_assoc, length-append, ◌∙◌, append-nil, ap₂, All-append, sym, ◌<◌}
use mu_mu_dvb.Prelude.{subst, ◌≤◌, ◌==◌, ap, All, ◌≡◌, ◌++◌, ℕ, suc, List, [], ◌∷◌, false, refl}
use mu_mu_dvb.Prelude.{arith}
use mu_mu_dvb.Autoconf.Pat.{map, length}
use mu_mu_dvb.Autoconf.Pat.Places.{is_service, IsNowhere}
use mu_mu_dvb.Autoconf.Channel.{AutoChannel}

abbrev pub services : List AutoChannel → List ℕ
services [] = []
services (c ∷ cs) = c.service_id ∷ services cs

abbrev pub IsAbsent : ℕ → List ℕ → Type 0
IsAbsent n ids = All (λ (i : ℕ). (i == n) ≡ false) ids

-- Services get channels behind those that are there, each one that has none, as long as there is room.
pub data Extends : List ℕ → List ℕ → Type 0 where
  same : {ids : List ℕ} → Extends ids ids
  added :
      {ids ids' : List ℕ} (n : ℕ)
      → IsAbsent n ids
      → length ids < 127
      → Extends (ids ++ (n ∷ [])) ids'
      → Extends ids ids'

pub Extends-trans : {a b d : List ℕ} → Extends a b → Extends b d → Extends a d
Extends-trans same h = h
Extends-trans (added n absent room g) h = added n absent room (Extends-trans g h)

abbrev pub IsDistinct : List ℕ → Type 0
IsDistinct [] = Unit
IsDistinct (i ∷ ids) = IsAbsent i ids × IsDistinct ids

IsDistinct-append :
    (ids : List ℕ) (n : ℕ) → IsDistinct ids → IsAbsent n ids → IsDistinct (ids ++ (n ∷ []))
IsDistinct-append [] n d a = (tt, tt)
IsDistinct-append (i ∷ ids) n d a =
    let other : (n == i) ≡ false = ground (arith, a.0) in
    (
      All-append (λ (j : ℕ). (j == i) ≡ false) ids (n ∷ []) d.0 (other, tt),
      IsDistinct-append ids n d.1 a.1,
    )

-- The services of the first channels are the same, no two channels have the same one, and there are
-- 127 at most.
pub record IsExtension (ids ids' : List ℕ) : Type 0 where
  pub new : List ℕ
  pub first : ids' ≡ ids ++ new
  pub distinct : IsDistinct ids'
  pub bounded : length ids' ≤ 127

pub extension_lem :
    {ids ids' : List ℕ}
    → Extends ids ids'
    → IsDistinct ids
    → length ids ≤ 127
    → IsExtension ids ids'
extension_lem {ids = ids} same d b = record {
  new = [];
  first = sym (append-nil ids);
  distinct = d;
  bounded = b;
}
extension_lem {ids = ids} (added n absent room g) d b =
    let h =
      extension_lem g (IsDistinct-append ids n d absent)
        (omega (arith, length-append ids (n ∷ []))) in
    record {
      new = n ∷ h.new;
      first = h.first ∙ append_assoc ids (n ∷ []) h.new;
      distinct = h.distinct;
      bounded = h.bounded;
    }

pub services-map :
    (f : AutoChannel → AutoChannel)
    → ((c : AutoChannel) → (f c).service_id ≡ c.service_id)
    → (cs : List AutoChannel) → services (map f cs) ≡ services cs
services-map f keeps [] = refl
services-map f keeps (c ∷ cs) =
    ap₂ (λ (n : ℕ) (ids : List ℕ). n ∷ ids) (keeps c) (services-map f keeps cs)

pub services-middle :
    (before : List AutoChannel) (c c' : AutoChannel) (behind : List AutoChannel)
    → c'.service_id ≡ c.service_id
    → services (before ++ (c' ∷ behind)) ≡ services (before ++ (c ∷ behind))
services-middle [] c c' behind e = ap (λ (n : ℕ). n ∷ services behind) e
services-middle (b ∷ before) c c' behind e =
    ap (λ (ids : List ℕ). b.service_id ∷ ids) (services-middle before c c' behind e)

pub services-append :
    (cs : List AutoChannel) (c : AutoChannel)
    → services (cs ++ (c ∷ [])) ≡ services cs ++ (c.service_id ∷ [])
services-append [] c = refl
services-append (b ∷ cs) c = ap (λ (ids : List ℕ). b.service_id ∷ ids) (services-append cs c)

pub length-services : (cs : List AutoChannel) → length (services cs) ≡ length cs
length-services [] = refl
length-services (c ∷ cs) = ap suc (length-services cs)

pub nowhere-IsAbsent :
    (n : ℕ) (cs : List AutoChannel) → IsNowhere (is_service n) cs → IsAbsent n (services cs)
nowhere-IsAbsent n [] h = tt
nowhere-IsAbsent n (c ∷ cs) h = (h.0, nowhere-IsAbsent n cs h.1)

pub Extends-to : {a b d : List ℕ} → Extends a b → d ≡ b → Extends a d
Extends-to {a = a} g e = subst (λ (ids : List ℕ). Extends a ids) (sym e) g
