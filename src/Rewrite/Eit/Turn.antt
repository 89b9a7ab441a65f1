-- ===== src/Rewrite/Eit/Turn.antt =====
-- The search for the next stored section of a table (src/rewrite_eit.c).
use mu_mu_dvb.Prelude.{◌-◌, ltb-false, ap, ltb→lt, leb→le, leb, ltb, ◌∙◌, Bool-cases, sym, ◌⊎◌}
use mu_mu_dvb.Prelude.{◌%◌, ◌<◌, ◌+◌, ◌≡◌, ◌≤◌, ℕ, zero, suc, true, false, refl, arith, inl, inr}
use native.Mathlib.Nat.{mod-lt, mod-eq_of_lt, mod_self}
use mu_mu_dvb.Rewrite.Eit.{EitPacket}
use mu_mu_dvb.Rewrite.Eit.Send.{find_section}

module _ (e : EitPacket) (k : ℕ) (listed : k ≤ e.last_section_number)
    (stored : e.sections_stored k ≡ true) where
  -- `k` is reached from `section` in `d` rounds.
  abbrev IsAhead : ℕ → ℕ → Type 0
  IsAhead section d = (k ≡ section + d) ⊎ (k + (e.last_section_number + 1) ≡ section + d)

  next_lem :
      (section d : ℕ)
      → section < e.last_section_number + 1
      → IsAhead section (suc d)
      → (next : ℕ) × ((section + 1) % (e.last_section_number + 1) ≡ next)
        × (next < e.last_section_number + 1)
        × IsAhead next d
  next_lem section d small ahead =
      elim (Bool-cases (ltb (section + 1) (e.last_section_number + 1))) [
        | inl more ↦
            let below = ltb→lt _ _ more in
            (
              section + 1,
              mod-eq_of_lt below,
              below,
              elim ahead [ inl h ↦ inl (omega (arith, h)) | inr h ↦ inr (omega (arith, h)) ],
            )
        | inr ended ↦
            let last = ltb-false _ _ ended in
            let at : section + 1 ≡ e.last_section_number + 1 = omega (arith, last, small) in
            (
              0,
              ap (λ (n : ℕ). n % (e.last_section_number + 1)) at
                  ∙ mod_self (e.last_section_number + 1),
              omega arith,
              elim ahead [
                | inl h ↦ absurd (omega (arith, h, at, listed))
                | inr h ↦ inl (omega (arith, h, at))
              ],
            )
      ]

  later_lem :
      (rounds section d : ℕ)
      → section < e.last_section_number + 1
      → IsAhead section d
      → d < suc rounds
      → e.sections_stored section ≡ false
      → ((s d' : ℕ)
          → s < e.last_section_number + 1
          → IsAhead s d'
          → d' < rounds
          → e.sections_stored (find_section rounds e s) ≡ true)
      → e.sections_stored (find_section rounds e ((section + 1) % (e.last_section_number + 1)))
        ≡ true
  later_lem rounds section zero small (inl h) few missing search =
      let own : k ≡ section = omega (arith, h) in
      absurd (ground (arith, sym stored ∙ ap e.sections_stored own ∙ missing))
  later_lem rounds section zero small (inr h) few missing search =
      absurd (omega (arith, h, small, listed))
  later_lem rounds section (suc d) small ahead few missing search =
      let n = next_lem section d small ahead in
      ap (λ (s : ℕ). e.sections_stored (find_section rounds e s)) n.1
      ∙ search n.0 d n.2 n.3 (omega (arith, few))

  search_lem :
      (rounds section d : ℕ)
      → section < e.last_section_number + 1
      → IsAhead section d
      → d < rounds
      → e.sections_stored (find_section rounds e section) ≡ true
  unfolding find_section
  search_lem zero section d small ahead few = absurd (omega arith)
  search_lem (suc rounds) section d small ahead few =
      elim (Bool-cases (e.sections_stored section)) [
        | inl here ↦ rw (here, here) refl
        | inr missing ↦ rw missing (
            later_lem rounds section d small ahead few missing
              (λ s d' lt a f. search_lem rounds s d' lt a f))
      ]

  -- If a section of a table, up to its last one, is stored, then the search for the one to be sent,
  -- wherever it begins, ends in a section that is stored within one round over the table.
  pub find_section_lem :
      (start : ℕ)
      → e.sections_stored
          (find_section (e.last_section_number + 1) e (start % (e.last_section_number + 1)))
        ≡ true
  find_section_lem start =
      let m = e.last_section_number + 1 in
      let begin = start % m in
      let below : begin < m = mod-lt start (omega arith) in
      elim (Bool-cases (leb begin k)) [
        | inl ahead ↦
            let le = leb→le _ _ ahead in
            search_lem m begin (k - begin) below (inl (omega (arith, le))) (omega (arith, listed))
        | inr behind ↦
            let gt : k < begin = ground (arith, behind) in
            search_lem m begin (k + m - begin) below (inr (omega (arith, below)))
              (omega (arith, gt, below))
      ]
