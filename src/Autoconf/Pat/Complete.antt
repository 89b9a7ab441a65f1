-- ===== src/Autoconf/Pat/Complete.antt =====
-- When all sections of a PAT were read (src/autoconf_pat.c).
use mu_mu_dvb.Autoconf.Pat.{version_number, same_version, byte_at, AutoPat, note_section}
use mu_mu_dvb.Autoconf.Pat.{note_version}
use mu_mu_dvb.Prelude.{Bool-cases, ◌||◌, ap₂, ◌∙◌, if◌then◌else◌, ◌≡◌, ◌==◌, ◌&&◌, all_below, ℕ}
use mu_mu_dvb.Prelude.{zero, suc, Bool, true, false, refl, some, inl, inr, List}

-- Section `i` is the one at hand, or was seen before in the same version.
abbrev pub is_read : List ℕ → AutoPat → ℕ → Bool
is_read pat p i =
    i == byte_at pat 6
    || (same_version (some (version_number pat 0)) p.pat_version && p.pat_sections_seen i)

-- All sections up to the last one were read, the one at hand and those of the same version before it.
abbrev pub is_complete : ℕ → List ℕ → AutoPat → Bool
is_complete zero pat p = is_read pat p 0
is_complete (suc n) pat p = is_read pat p (suc n) && is_complete n pat p

note_section-seen :
    (pat : List ℕ) (p : AutoPat) (i : ℕ)
    → (note_section pat p).pat_sections_seen i ≡ is_read pat p i
unfolding note_section note_version
note_section-seen pat p i =
    elim (Bool-cases (same_version (some (version_number pat 0)) p.pat_version)) [
      | inl same ↦ rw same (if_true (i == byte_at pat 6) (p.pat_sections_seen i))
      | inr new ↦ rw new (if_true (i == byte_at pat 6) false)
    ]
  where
    if_true : (a b : Bool) → (if a then true else b) ≡ (a || b)
    if_true true b = refl
    if_true false b = refl

pub all_below_complete :
    (n : ℕ) (pat : List ℕ) (p : AutoPat)
    → all_below (suc n) (note_section pat p).pat_sections_seen ≡ is_complete n pat p
unfolding all_below
all_below_complete zero pat p =
    and_true ((note_section pat p).pat_sections_seen 0) ∙ note_section-seen pat p 0
  where
    and_true : (b : Bool) → (b && true) ≡ b
    and_true true = refl
    and_true false = refl
all_below_complete (suc n) pat p =
    ap₂ (λ (a b : Bool). a && b) (note_section-seen pat p (suc n)) (all_below_complete n pat p)
