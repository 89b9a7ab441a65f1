-- ===== src/Crc/Append.antt =====
-- What the CRC of src/ts.c promises: a section closed by its own checksum passes, and one wrong
-- byte is noticed.
use mu_mu_dvb.Prelude.{ℕ, ◌+◌, ◌*◌, ◌/◌, ◌%◌, ◌^◌, ◌<◌, ◌≡◌, ◌≢◌, sym, ap, ◌∙◌, arith}
use mu_mu_dvb.Prelude.{List, [], ◌∷◌, ◌++◌, length, length-append, take_all}
use mu_mu_dvb.Prelude.{u8, u32, bit_xor, bit_and_ff, bit_xor_self, bit_xor-zero}
use mu_mu_dvb.Prelude.{bit_xor-lt, bit_xor_cancel, bit_xor_comm, bit_xor_low_byte}
use native.Mathlib.Nat.{le_refl}
use mu_mu_dvb.Crc.Table.{crc32_table}
use mu_mu_dvb.Crc.Calc.{crc32_step, crc32_of}
use mu_mu_dvb.Crc.TableLaws.{table_at, table_at_low_byte}
use mu_mu_dvb.Crc.Fold.{
  index, index-lt, crc32_bytes, crc32_bytes-append, crc32_bytes-lt, crc32_step-lt, crc32_of-bytes,
}

-- A checksum as it stands at the end of a section: most significant byte first.
abbrev pub be32 : ℕ → List ℕ
be32 crc = (crc / 2 ^ 24) ∷ (crc / 2 ^ 16 % 256) ∷ (crc / 2 ^ 8 % 256) ∷ (crc % 256) ∷ []

-- Fed with its own top byte, the register only shifts.
crc32_step_own : (crc b : ℕ) → b ≡ crc / 2 ^ 24 → crc32_step crc b ≡ u32 (crc * 2 ^ 8)
unfolding crc32_step crc32_table
crc32_step_own crc b e = rw (e, bit_xor_self (crc / 2 ^ 24)) (bit_xor-zero (u32 (crc * 2 ^ 8)))

crc32_bytes-be32 : (crc : ℕ) → crc < 2 ^ 32 → crc32_bytes crc (be32 crc) ≡ 0
unfolding crc32_bytes
crc32_bytes-be32 crc h =
    rw
      (
        crc32_step_own crc (u8 (crc / 2 ^ 24)) (omega arith),
        crc32_step_own (u32 (crc * 2 ^ 8)) (u8 (crc / 2 ^ 16 % 256)) (omega arith),
        crc32_step_own (u32 (u32 (crc * 2 ^ 8) * 2 ^ 8)) (u8 (crc / 2 ^ 8 % 256)) (omega arith),
        crc32_step_own (u32 (u32 (u32 (crc * 2 ^ 8) * 2 ^ 8) * 2 ^ 8)) (u8 (crc % 256))
            (omega arith),
      )
      (omega arith)

-- Appending the checksum of a body, most significant byte first, makes the checksum zero.
pub crc32_of-append :
    (body : List ℕ) → crc32_of (body ++ be32 (crc32_of body (length body))) (length body + 4) ≡ 0
crc32_of-append body =
    let crc = crc32_of body (length body) in
    let own : crc ≡ crc32_bytes 0xffffffff body =
      crc32_of-bytes body (length body) (le_refl _)
      ∙ ap (crc32_bytes 0xffffffff) (take_all (length body) body (le_refl _)) in
    let small : crc < 2 ^ 32 = rw own (crc32_bytes-lt 0xffffffff body (omega arith)) in
    let whole : length (body ++ be32 crc) ≡ length body + 4 = length-append body (be32 crc) in
    rw
      (
        crc32_of-bytes (body ++ be32 crc) (length body + 4) (omega arith),
        take_all (length body + 4) (body ++ be32 crc) (omega arith),
        crc32_bytes-append 0xffffffff body (be32 crc),
        ← own,
      )
      (crc32_bytes-be32 crc small)

-- Equal registers after a step had equal low parts and met equal table entries.
crc32_step_inj :
    (c d a b : ℕ)
    → crc32_step c a ≡ crc32_step d b
    → (u32 (c * 2 ^ 8) ≡ u32 (d * 2 ^ 8)) × (index c a ≡ index d b)
unfolding crc32_step
crc32_step_inj c d a b e = (
  bit_xor_cancel _ _ (table_at (index c a))
      (e ∙ ap (λ (t : ℕ). bit_xor (u32 (d * 2 ^ 8)) (table_at t)) (sym same)),
  same,
)
  where
    low :
        (c a : ℕ)
        → bit_xor (u32 (c * 2 ^ 8)) (table_at (index c a)) % 256 ≡ table_at (index c a) % 256
    low c a = bit_xor_low_byte (u32 (c * 2 ^ 8)) (table_at (index c a)) (omega arith)

    same : index c a ≡ index d b
    same =
        table_at_low_byte (index c a) (index d b) (index-lt c a) (index-lt d b)
          (sym (low c a) ∙ ap (λ (t : ℕ). t % 256) e ∙ low d b)

-- Two bytes that give one index against words with the same lower part are equal.
index_cancel :
    (c d a b : ℕ)
    → c < 2 ^ 32
    → d < 2 ^ 32
    → a < 256
    → b < 256
    → index c a ≡ index d b
    → bit_xor (c / 2 ^ 24) a ≡ bit_xor (d / 2 ^ 24) b
index_cancel c d a b hc hd ha hb e =
    let x = bit_xor (c / 2 ^ 24) a in
    let y = bit_xor (d / 2 ^ 24) b in
    let hx : x < 2 ^ 8 = bit_xor-lt 8 (c / 2 ^ 24) a (omega arith) ha in
    let hy : y < 2 ^ 8 = bit_xor-lt 8 (d / 2 ^ 24) b (omega arith) hb in
    omega (arith, e, bit_and_ff x, bit_and_ff y)

-- A step loses nothing of the register.
pub crc32_step_cancel :
    (c d b : ℕ) → c < 2 ^ 32 → d < 2 ^ 32 → b < 256 → crc32_step c b ≡ crc32_step d b → c ≡ d
crc32_step_cancel c d b hc hd hb e =
    let parts = crc32_step_inj c d b b e in
    let high : c / 2 ^ 24 ≡ d / 2 ^ 24 =
      bit_xor_cancel (c / 2 ^ 24) (d / 2 ^ 24) b (index_cancel c d b b hc hd hb hb parts.1) in
    omega (arith, high, parts.0)

-- A step tells any two bytes apart.
pub crc32_step_byte :
    (c a b : ℕ) → c < 2 ^ 32 → a < 256 → b < 256 → crc32_step c a ≡ crc32_step c b → a ≡ b
crc32_step_byte c a b hc ha hb e =
    let parts = crc32_step_inj c c a b e in
    bit_xor_cancel a b (c / 2 ^ 24) (
      bit_xor_comm a (c / 2 ^ 24)
      ∙ index_cancel c c a b hc hc ha hb parts.1
      ∙ bit_xor_comm (c / 2 ^ 24) b)

crc32_bytes_cancel :
    (c d : ℕ) (bs : List ℕ) → c < 2 ^ 32 → d < 2 ^ 32 → crc32_bytes c bs ≡ crc32_bytes d bs → c ≡ d
unfolding crc32_bytes
crc32_bytes_cancel c d [] hc hd e = e
crc32_bytes_cancel c d (b ∷ bs) hc hd e =
    let rest =
      crc32_bytes_cancel (crc32_step c (u8 b)) (crc32_step d (u8 b)) bs (crc32_step-lt c (u8 b))
        (crc32_step-lt d (u8 b)) e in
    crc32_step_cancel c d (u8 b) hc hd (omega arith) rest

-- Of two buffers that differ in exactly one byte, at most one has a zero checksum: an error
-- confined to one byte of a valid section is always noticed.
pub crc32_of_one_byte :
    (xs : List ℕ) (a b : ℕ) (ys : List ℕ)
    → u8 a ≢ u8 b
    → crc32_of (xs ++ (a ∷ ys)) (length (xs ++ (a ∷ ys))) ≡ 0
    → crc32_of (xs ++ (b ∷ ys)) (length (xs ++ (b ∷ ys))) ≢ 0
unfolding crc32_bytes
crc32_of_one_byte xs a b ys ne ha hb =
    let mid = crc32_bytes 0xffffffff xs in
    let at = λ (x : ℕ). as_fold (xs ++ (x ∷ ys)) ∙ crc32_bytes-append 0xffffffff xs (x ∷ ys) in
    let meet : crc32_bytes (crc32_step mid (u8 a)) ys ≡ crc32_bytes (crc32_step mid (u8 b)) ys =
      sym (at a) ∙ ha ∙ sym hb ∙ at b in
    let steps =
      crc32_bytes_cancel (crc32_step mid (u8 a)) (crc32_step mid (u8 b)) ys
        (crc32_step-lt mid (u8 a)) (crc32_step-lt mid (u8 b)) meet in
    ne (
      crc32_step_byte mid (u8 a) (u8 b) (crc32_bytes-lt 0xffffffff xs (omega arith)) (omega arith)
        (omega arith) steps)
  where
    as_fold : (l : List ℕ) → crc32_of l (length l) ≡ crc32_bytes 0xffffffff l
    as_fold l =
        crc32_of-bytes l (length l) (le_refl _)
        ∙ ap (crc32_bytes 0xffffffff) (take_all (length l) l (le_refl _))
