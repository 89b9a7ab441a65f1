-- ===== src/Rewrite/Sdt/Endless.antt =====
-- A descriptor for which the loop of `sdt_channel_rewrite` (src/rewrite_sdt.c) does not end.
use mu_mu_dvb.Prelude.{read_bytes, ◌∙◌, ap, ◌++◌, if◌then◌else◌, ltb, u8, ◌≡◌, ◌+◌, ◌<◌, ℕ, zero}
use mu_mu_dvb.Prelude.{suc, List, refl, arith, none, true}
use mu_mu_dvb.Rewrite.Sdt.{byte_at, copy_descriptors, sdt_rewrite_copy_descriptor}

-- Where the loop comes to a descriptor whose length byte is 254, it never ends: its `unsigned char`
-- length is 0, and however many rounds are made, it is still running at that descriptor.
pub copy_descriptors_endless :
    (fuel : ℕ) (bytes : List ℕ) (start size pos : ℕ) (copied : List ℕ)
    → pos < size
    → byte_at bytes (start + pos + 1) ≡ 254
    → copy_descriptors fuel bytes start size pos copied ≡ none
unfolding copy_descriptors
copy_descriptors_endless zero bytes start size pos copied within wrong = refl
copy_descriptors_endless (suc fuel) bytes start size pos copied within wrong =
    let len : u8 (byte_at bytes (start + pos + 1) + 2) ≡ 0 = omega (arith, wrong) in
    let n = u8 (byte_at bytes (start + pos + 1) + 2) in
    let more : ltb pos size ≡ true = ground arith in
    let next =
      if sdt_rewrite_copy_descriptor (byte_at bytes (start + pos))
      then copied ++ read_bytes n bytes (start + pos)
      else copied in
    rw more (
      ap (λ (k : ℕ). copy_descriptors fuel bytes start size k next) {x = pos + n} {y = pos}
        (omega (arith, len))
      ∙ copy_descriptors_endless fuel bytes start size pos next within wrong)
