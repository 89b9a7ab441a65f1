-- ===== src/Crc/Fold.antt =====
-- The loop of src/ts.c as a fold over the bytes, and the bounds of its register.
use mu_mu_dvb.Prelude.{ℕ, zero, suc, ◌+◌, ◌*◌, ◌/◌, ◌^◌, ◌≤◌, ◌<◌, ◌≡◌, refl, ap, ◌∙◌, arith}
use mu_mu_dvb.Prelude.{List, [], ◌∷◌, ◌++◌, length, take, drop, drop_of_lt}
use mu_mu_dvb.Prelude.{u8, u32, bit_and, bit_xor, bit_and_ff, bit_xor-lt}
use mu_mu_dvb.Crc.Calc.{byte_at, crc32_step, crc32_loop, crc32_of}
use mu_mu_dvb.Crc.TableLaws.{table_at, table_at-lt}

-- The register after the bytes of a list.
unfoldable pub crc32_bytes : ℕ → List ℕ → ℕ
crc32_bytes crc [] = crc
crc32_bytes crc (b ∷ bs) = crc32_bytes (crc32_step crc (u8 b)) bs

pub crc32_bytes-append :
    (crc : ℕ) (xs ys : List ℕ) → crc32_bytes crc (xs ++ ys) ≡ crc32_bytes (crc32_bytes crc xs) ys
unfolding crc32_bytes
crc32_bytes-append crc [] ys = refl
crc32_bytes-append crc (x ∷ xs) ys = crc32_bytes-append (crc32_step crc (u8 x)) xs ys

crc32_loop-bytes :
    (buf : List ℕ) (left i crc : ℕ)
    → i + left ≤ length buf
    → crc32_loop buf left i crc ≡ crc32_bytes crc (take left (drop i buf))
unfolding crc32_loop crc32_bytes
crc32_loop-bytes buf zero i crc h = refl
crc32_loop-bytes buf (suc left) i crc h =
    let crc' = crc32_step crc (byte_at buf i) in
    rw (drop_of_lt i buf 0 (omega arith)) (
      crc32_loop-bytes buf left (i + 1) crc' (omega arith)
      ∙ ap (λ (k : ℕ). crc32_bytes crc' (take left (drop k buf))) {y = suc i} (omega arith))

-- Over a buffer that holds them all, the checksum is the fold over the first `len` bytes.
pub crc32_of-bytes :
    (buf : List ℕ) (len : ℕ)
    → len ≤ length buf
    → crc32_of buf len ≡ crc32_bytes 0xffffffff (take len buf)
unfolding crc32_of
crc32_of-bytes buf len h = crc32_loop-bytes buf len 0 0xffffffff (omega arith)

-- The index into the table.
abbrev pub index : ℕ → ℕ → ℕ
index crc b = bit_and (bit_xor (crc / 2 ^ 24) b) 0xff

pub index-lt : (crc b : ℕ) → index crc b < 256
index-lt crc b = rw bit_and_ff (omega arith)

-- The register stays a 32-bit word.
pub crc32_step-lt : (crc b : ℕ) → crc32_step crc b < 2 ^ 32
unfolding crc32_step
crc32_step-lt crc b =
    bit_xor-lt 32 (u32 (crc * 2 ^ 8)) (table_at (index crc b)) (omega arith)
      (table_at-lt (index crc b) (index-lt crc b))

pub crc32_bytes-lt : (crc : ℕ) (bs : List ℕ) → crc < 2 ^ 32 → crc32_bytes crc bs < 2 ^ 32
unfolding crc32_bytes
crc32_bytes-lt crc [] h = h
crc32_bytes-lt crc (b ∷ bs) h = crc32_bytes-lt (crc32_step crc (u8 b)) bs (crc32_step-lt crc (u8 b))
