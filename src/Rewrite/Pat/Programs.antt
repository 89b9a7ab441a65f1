-- ===== src/Rewrite/Pat/Programs.antt =====
-- Which programmes `pat_channel_rewrite` (src/rewrite_pat.c) keeps.
use mu_mu_dvb.Prelude.{drop, All-append, take_all, take-append, ◌||◌, sym, length-take, ◌/◌, ◌&&◌}
use mu_mu_dvb.Prelude.{append_assoc, not, ap, append-nil, min, ◌-◌, ◌∙◌, length-append, ◌*◌, ◌==◌}
use mu_mu_dvb.Prelude.{Bool-cases, ◌++◌, ◌<◌, ◌+◌, take, if◌then◌else◌, All, length, ◌≤◌, ◌≡◌, ℕ}
use mu_mu_dvb.Prelude.{zero, suc, List, [], ◌∷◌, refl, arith, inl, inr}
use mu_mu_dvb.Rewrite.Pat.{word13, word16, section_length, PatChannel}
use mu_mu_dvb.Ts.Store.{concat}

-- One copy of the programme for each PID that is that of its PMT.
abbrev pub matching : List ℕ → ℕ → List ℕ → List (List ℕ)
matching [] network_pid prog = []
matching (pid ∷ pids) network_pid prog =
    let rest = matching pids network_pid prog in if pid == network_pid then prog ∷ rest else rest

-- The programmes that a channel wants: no network programme, and only its own if it has a service.
abbrev pub wanted_at : PatChannel → List ℕ → ℕ → List (List ℕ)
wanted_at channel bytes delta =
    let program_number = word16 bytes delta in
    if not (program_number == 0)
      && (channel.service_id == 0 || channel.service_id == program_number)
    then matching channel.pids (word13 bytes (delta + 2)) (take 4 (drop delta bytes))
    else []

abbrev pub wanted_from : ℕ → PatChannel → List ℕ → ℕ → List (List ℕ)
wanted_from zero channel bytes delta = []
wanted_from (suc k) channel bytes delta =
    wanted_at channel bytes delta ++ wanted_from k channel bytes (delta + 4)

-- Behind the eight bytes of its header a PAT has one programme in each four bytes, up to the
-- checksum.
abbrev pub wanted : PatChannel → List ℕ → List (List ℕ)
wanted channel bytes = wanted_from ((section_length bytes - 9) / 4) channel bytes 8

-- The number of programmes for which a packet has room.
abbrev pub max_programs : ℕ
max_programs = 42

-- What was written are `head` and the first programmes of `kept`.
pub record Fills (head : List ℕ) (kept : List (List ℕ)) (dest : List ℕ) : Type 0 where
  pub bytes : dest ≡ head ++ concat (take max_programs kept)
  pub sizes : All (λ (e : List ℕ). length e ≡ 4) kept

take-sizes :
    (n : ℕ) (kept : List (List ℕ))
    → All (λ (e : List ℕ). length e ≡ 4) kept
    → All (λ (e : List ℕ). length e ≡ 4) (take n kept)
take-sizes zero kept s = tt
take-sizes (suc n) [] s = tt
take-sizes (suc n) (e ∷ kept) s = (s.0, take-sizes n kept s.1)

length-concat :
    (kept : List (List ℕ))
    → All (λ (e : List ℕ). length e ≡ 4) kept
    → length (concat kept) ≡ 4 * length kept
unfolding concat
length-concat [] s = refl
length-concat (e ∷ kept) s =
    omega (arith, length-append e (concat kept), length-concat kept s.1, s.0)

pub length-Fills :
    (head dest : List ℕ) (kept : List (List ℕ))
    → Fills head kept dest
    → length dest ≡ length head + 4 * min max_programs (length kept)
length-Fills head dest kept f = omega (
  arith,
  ap length f.bytes,
  length-append head (concat (take max_programs kept)),
  length-concat (take max_programs kept) (take-sizes max_programs kept f.sizes),
  length-take max_programs kept,
)

concat-append : (q : List (List ℕ)) (d : List ℕ) → concat (q ++ (d ∷ [])) ≡ concat q ++ d
unfolding concat
concat-append [] d = append-nil d
concat-append (c ∷ q) d =
    ap (λ (r : List ℕ). c ++ r) (concat-append q d) ∙ sym (append_assoc c (concat q) d)

-- With room a programme is appended; without, more of them change nothing.
pub Fills-more :
    (head dest e : List ℕ) (kept : List (List ℕ))
    → length kept < max_programs
    → length e ≡ 4
    → Fills head kept dest
    → Fills head (kept ++ (e ∷ [])) (dest ++ e)
Fills-more head dest e kept few size f = record {
  bytes =
      ap (λ (b : List ℕ). b ++ e) f.bytes
      ∙ append_assoc head (concat (take max_programs kept)) e
      ∙ ap (λ (q : List (List ℕ)). head ++ (concat q ++ e))
          (take_all max_programs kept (omega arith))
      ∙ ap (λ (b : List ℕ). head ++ b) (sym (concat-append kept e))
      ∙ ap (λ (q : List (List ℕ)). head ++ concat q)
          (sym (
            take_all max_programs (kept ++ (e ∷ [])) (omega (arith, length-append kept (e ∷ [])))));
  sizes = All-append (λ (e : List ℕ). length e ≡ 4) kept (e ∷ []) f.sizes (size, tt);
}

pub Fills-full :
    (head dest : List ℕ) (kept more : List (List ℕ))
    → max_programs ≤ length kept
    → All (λ (e : List ℕ). length e ≡ 4) more
    → Fills head kept dest
    → Fills head (kept ++ more) dest
Fills-full head dest kept more full sizes f = record {
  bytes =
      f.bytes
      ∙ ap (λ (q : List (List ℕ)). head ++ concat q)
          (sym (take-append max_programs kept more full));
  sizes = All-append (λ (e : List ℕ). length e ≡ 4) kept more f.sizes sizes;
}

pub matching-sizes :
    (pids : List ℕ) (network_pid : ℕ) (prog : List ℕ)
    → length prog ≡ 4
    → All (λ (e : List ℕ). length e ≡ 4) (matching pids network_pid prog)
matching-sizes [] network_pid prog size = tt
matching-sizes (pid ∷ pids) network_pid prog size = elim (Bool-cases (pid == network_pid)) [
  | inl found ↦ rw found (size, matching-sizes pids network_pid prog size)
  | inr other ↦ rw other (matching-sizes pids network_pid prog size)
]
