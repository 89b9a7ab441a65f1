-- ===== src/Rewrite/Eit/Chain.antt =====
-- Where the entry of a table stands in the chain (src/rewrite_eit.c).
use mu_mu_dvb.Prelude.{Option, append_assoc, Bool, ◌∙◌, ◌+◌, ap, ◌≡◌, length, set, ◌++◌, ℕ, List}
use mu_mu_dvb.Prelude.{[], ◌∷◌, none, some, true, false, refl}
use mu_mu_dvb.Rewrite.Eit.{place_entry, store_at, eit_need_update, byte_at, TsPacket, cleared_eit}
use mu_mu_dvb.Rewrite.Eit.{word16, store_section, store_eit, eit_new_packet, nth_eit, EitRewrite}
use mu_mu_dvb.Rewrite.Eit.{is_eit, eit_find_by_tsid, EitPacket, find_before_last}

-- No entry of the chain is that of the table.
abbrev pub IsUnlisted : ℕ → ℕ → List EitPacket → Type 0
IsUnlisted sid table_id [] = Unit
IsUnlisted sid table_id (e ∷ es) = (is_eit sid table_id e ≡ false) × IsUnlisted sid table_id es

missed_last :
    (i sid table_id : ℕ) (before : List EitPacket) (last : EitPacket)
    → IsUnlisted sid table_id before
    → find_before_last i sid table_id (before ++ (last ∷ [])) ≡ none
unfolding find_before_last
missed_last i sid table_id [] last u = refl
missed_last i sid table_id (e ∷ []) last u = rw u.0 refl
missed_last i sid table_id (e ∷ e' ∷ es) last u =
    rw u.0 (missed_last (i + 1) sid table_id (e' ∷ es) last u.1)

found_last :
    (sid table_id : ℕ) (before : List EitPacket) (last : EitPacket) (behind : List EitPacket)
    → IsUnlisted sid table_id before
    → is_eit sid table_id last ≡ true
    → eit_find_by_tsid (before ++ (last ∷ behind)) sid table_id ≡ some last
unfolding eit_find_by_tsid
found_last sid table_id [] last behind u own = rw own refl
found_last sid table_id (e ∷ es) last behind u own =
    rw u.0 (found_last sid table_id es last behind u.1 own)

set-last :
    (es : List EitPacket) (e e' : EitPacket) → set (es ++ (e ∷ [])) (length es) e' ≡ es ++ (e' ∷ [])
set-last [] e e' = refl
set-last (x ∷ es) e e' = ap (λ (l : List EitPacket). x ∷ l) (set-last es e e')

nth-last : (es : List EitPacket) (e : EitPacket) → nth_eit (length es) (es ++ (e ∷ [])) ≡ e
nth-last [] e = refl
nth-last (x ∷ es) e = nth-last es e

place_behind :
    (chain : List EitPacket)
    → place_entry true chain none ≡ (chain ++ (cleared_eit ∷ []), some (length chain))
unfolding place_entry
place_behind chain = refl

-- With an entry only at the end of the chain, a new one is put behind it.
new_behind :
    (sid table_id : ℕ) (before : List EitPacket) (last : EitPacket)
    → IsUnlisted sid table_id before
    → eit_new_packet true (before ++ (last ∷ [])) sid table_id
      ≡ ((before ++ (last ∷ [])) ++ (cleared_eit ∷ []), some (length (before ++ (last ∷ []))))
unfolding eit_new_packet
new_behind sid table_id before last u =
    ap (place_entry true (before ++ (last ∷ []))) (missed_last 0 sid table_id before last u)
    ∙ place_behind (before ++ (last ∷ []))

stored_section : (full : TsPacket) (e : EitPacket) → (store_section true full e).1 ≡ true
unfolding store_section
stored_section full e = refl

store_in_place :
    (vars : EitRewrite) (i : ℕ)
    → store_at true vars (some i) ≡ (
      record vars {
        eit_packets =
            set vars.eit_packets i
              (store_section true vars.full_eit (nth_eit i vars.eit_packets)).0;
        eit_needs_update = false;
      },
      true,
    )
unfolding store_at
store_in_place vars i = rw (stored_section vars.full_eit (nth_eit i vars.eit_packets)) refl

store_placed :
    (vars : EitRewrite) (chain : List EitPacket) (i : ℕ)
    → eit_new_packet true vars.eit_packets
        (word16 vars.full_eit.data_full 3)
        (byte_at vars.full_eit.data_full 0)
      ≡ (chain, some i)
    → store_eit (true, true) vars ≡ (
      record vars {
        eit_packets = set chain i (store_section true vars.full_eit (nth_eit i chain)).0;
        eit_needs_update = false;
      },
      true,
    )
unfolding store_eit
store_placed vars chain i e =
    ap (λ (z : List EitPacket × Option ℕ). store_at true (record vars { eit_packets = z.0 }) z.1) e
    ∙ store_in_place (record vars { eit_packets = chain }) i

module _ (vars : EitRewrite) (before : List EitPacket) (last : EitPacket)
    (chained : vars.eit_packets ≡ before ++ (last ∷ []))
    (other : IsUnlisted
      (word16 vars.full_eit.data_full 3)
      (byte_at vars.full_eit.data_full 0)
      before)
    (own : is_eit (word16 vars.full_eit.data_full 3) (byte_at vars.full_eit.data_full 0) last
      ≡ true) where
  -- With memory, where the entry of a table stands only at the end of the chain, a section of that
  -- table is stored in a second entry behind it, and the search goes on to find the first one: so
  -- whether the section that was just stored is needed is answered as before.
  pub store_eit_duplicates :
      let (vars', stored) = store_eit (true, true) vars in
      let eit = vars.full_eit.data_full in
      (stored ≡ true)
      × (vars'.eit_packets
          ≡ (before ++ (last ∷ [])) ++ ((store_section true vars.full_eit cleared_eit).0 ∷ []))
      × (eit_find_by_tsid vars'.eit_packets (word16 eit 3) (byte_at eit 0) ≡ some last)
      × (eit_need_update vars'.eit_packets eit (some 0)
          ≡ eit_need_update vars.eit_packets eit (some 0))
  unfolding eit_need_update
  store_eit_duplicates =
      let sid = word16 vars.full_eit.data_full 3 in
      let table_id = byte_at vars.full_eit.data_full 0 in
      let chain = before ++ (last ∷ []) in
      let new = (store_section true vars.full_eit cleared_eit).0 in
      let placed = store_placed vars (chain ++ (cleared_eit ∷ [])) (length chain) (
        ap (λ (c : List EitPacket). eit_new_packet true c sid table_id) chained
        ∙ new_behind sid table_id before last other) in
      let entries : (store_eit (true, true) vars).0.eit_packets ≡ chain ++ (new ∷ []) =
        ap (λ (r : EitRewrite × Bool). r.0.eit_packets) placed
        ∙ ap
            (λ (e : EitPacket).
              set (chain ++ (cleared_eit ∷ [])) (length chain)
                (store_section true vars.full_eit e).0)
            (nth-last chain cleared_eit)
        ∙ set-last chain cleared_eit new in
      let found : eit_find_by_tsid (chain ++ (new ∷ [])) sid table_id ≡ some last =
        ap (λ (c : List EitPacket). eit_find_by_tsid c sid table_id)
          (append_assoc before (last ∷ []) (new ∷ []))
        ∙ found_last sid table_id before last (new ∷ []) other own in
      let before_found : eit_find_by_tsid vars.eit_packets sid table_id ≡ some last =
        ap (λ (c : List EitPacket). eit_find_by_tsid c sid table_id) chained
        ∙ found_last sid table_id before last [] other own in
      (
        ap (λ (r : EitRewrite × Bool). r.1) placed,
        entries,
        ap (λ (c : List EitPacket). eit_find_by_tsid c sid table_id) entries ∙ found,
        rw
            (
              ap (λ (c : List EitPacket). eit_find_by_tsid c sid table_id) entries ∙ found,
              before_found,
            )
            refl,
      )
