-- ===== src/Crc/TableLaws.antt =====
-- `crc32_table` (src/crc32.c) against the polynomial that it is computed from.
use mu_mu_dvb.Prelude.{ℕ, zero, suc, ◌*◌, ◌%◌, ◌^◌, ◌<◌, ◌≡◌, refl, sym, ap, ◌∙◌, true}
use mu_mu_dvb.Prelude.{
  all_below, all_below_sound, ◌==◌, leb, ltb, ltb→lt, ==_iff, if◌then◌else◌, get_or, u32, bit_xor,
}
use mu_mu_dvb.Crc.Table.{crc32_table}

-- One shift of the register of a CRC with the generator 0x04c11db7, most significant bit first.
pub shift_register : ℕ → ℕ
shift_register r = if leb (2 ^ 31) r then bit_xor (u32 (r * 2)) 0x04c11db7 else u32 (r * 2)

abbrev pub shifts : ℕ → ℕ → ℕ
shifts zero r = r
shifts (suc n) r = shifts n (shift_register r)

abbrev pub table_at : ℕ → ℕ
table_at i = get_or crc32_table i 0

shifts_table : all_below 256 (λ i. table_at i == shifts 8 (i * 2 ^ 24)) ≡ true
unfolding all_below crc32_table shift_register
shifts_table = refl

-- Each entry of `crc32_table` is what eight shifts make of its index in the top byte.
pub table_at-shifts : (i : ℕ) → i < 256 → table_at i ≡ shifts 8 (i * 2 ^ 24)
table_at-shifts i h = (==_iff _ _).0 (all_below_sound 256 _ i shifts_table h)

bounds_table : all_below 256 (λ i. ltb (table_at i) (2 ^ 32)) ≡ true
unfolding all_below crc32_table
bounds_table = refl

pub table_at-lt : (i : ℕ) → i < 256 → table_at i < 2 ^ 32
table_at-lt i h = ltb→lt _ _ (all_below_sound 256 _ i bounds_table h)

-- The index of the entry that ends in a given byte.
index_of : ℕ → ℕ → ℕ
index_of zero b = 0
index_of (suc n) b = let rest = index_of n b in if table_at n % 256 == b then n else rest

index_table : all_below 256 (λ i. index_of 256 (table_at i % 256) == i) ≡ true
unfolding all_below crc32_table index_of
index_table = refl

-- The low bytes of the entries are all different.
pub table_at_low_byte : (i j : ℕ) → i < 256 → j < 256 → table_at i % 256 ≡ table_at j % 256 → i ≡ j
table_at_low_byte i j hi hj e = sym (found i hi) ∙ ap (index_of 256) e ∙ found j hj
  where
    found : (k : ℕ) → k < 256 → index_of 256 (table_at k % 256) ≡ k
    found k h = (==_iff _ _).0 (all_below_sound 256 _ k index_table h)
