-- ===== src/Rewrite/Closed.antt =====
-- The end of a rewriting makes a sound section (src/rewrite_pat.c and its like).
use mu_mu_dvb.Prelude.{append_assoc, take-append-drop, length-append, length-drop, bit_xor-lt}
use mu_mu_dvb.Prelude.{bit_xor_beside, bit_xor, u64, bit_and, bit_and_ff, replicate, ◌%◌, take}
use mu_mu_dvb.Prelude.{bit_or, ◌*◌, ◌^◌, set, ◌/◌, ◌<◌, length-set, get_or-drop, sym, ◌∙◌, get_or}
use mu_mu_dvb.Prelude.{u8, ap, ◌-◌, ◌+◌, length, u32, ◌≡◌, drop, ◌++◌, ℕ, zero, suc, List, refl}
use mu_mu_dvb.Prelude.{arith}
use mu_mu_dvb.Crc.Fold.{index-lt, index}
use mu_mu_dvb.Crc.TableLaws.{table_at-lt, table_at}
use mu_mu_dvb.Channel.Buffer.{ts_packet_size}
use mu_mu_dvb.Rewrite.Finish.{finish, write_section_length, ts_header_len, crc32_step_long}
use mu_mu_dvb.Rewrite.Finish.{crc32_loop_long, crc32_tail}
use mu_mu_dvb.Crc.Calc.{byte_at, crc32_of, crc32_loop, crc32_step}
use mu_mu_dvb.Crc.Append.{be32}

-- The long register has the index of its lower half.
long_index : (crc b : ℕ) → b < 256 → index crc b ≡ index (u32 crc) b
long_index crc b h =
    let hi = crc / 2 ^ 24 / 2 ^ 8 in
    let lo = crc / 2 ^ 24 % 2 ^ 8 in
    let split : crc / 2 ^ 24 ≡ hi * 2 ^ 8 + lo = omega arith in
    let low : u32 crc / 2 ^ 24 ≡ lo = omega arith in
    bit_and_ff (bit_xor (crc / 2 ^ 24) b)
    ∙ ap (λ (t : ℕ). bit_xor t b % 256) split
    ∙ ap (λ (t : ℕ). t % 256) (bit_xor_beside 8 hi lo b (omega arith) h)
    ∙ wrap hi (bit_xor lo b)
    ∙ sym (bit_and_ff (bit_xor lo b))
    ∙ ap (λ (t : ℕ). bit_and (bit_xor t b) 0xff) (sym low)
  where
    wrap : (hi x : ℕ) → (hi * 2 ^ 8 + x) % 256 ≡ x % 256
    wrap hi x = omega arith

-- The lower half of the long register is the register of 32 bits.
crc32_step_long-low : (crc b : ℕ) → b < 256 → u32 (crc32_step_long crc b) ≡ crc32_step (u32 crc) b
unfolding crc32_step_long crc32_step
crc32_step_long-low crc b h =
    let t = table_at (index (u32 crc) b) in
    let hi = u64 (crc * 2 ^ 8) / 2 ^ 32 in
    let lo = u32 (u32 crc * 2 ^ 8) in
    let small : t < 2 ^ 32 = table_at-lt (index (u32 crc) b) (index-lt (u32 crc) b) in
    let split : u64 (crc * 2 ^ 8) ≡ hi * 2 ^ 32 + lo = omega arith in
    let word : bit_xor lo t < 2 ^ 32 = bit_xor-lt 32 lo t (omega arith) small in
    ap (λ (k : ℕ). u32 (bit_xor (u64 (crc * 2 ^ 8)) (table_at k))) (long_index crc b h)
    ∙ ap (λ (k : ℕ). u32 (bit_xor k t)) split
    ∙ ap u32 (bit_xor_beside 32 hi lo t (omega arith) small)
    ∙ wrap hi (bit_xor lo t) word
  where
    wrap : (hi x : ℕ) → x < 2 ^ 32 → u32 (hi * 2 ^ 32 + x) ≡ x
    wrap hi x h = omega arith

crc32_loop_long-low :
    (buf : List ℕ) (left i crc : ℕ)
    → u32 (crc32_loop_long buf left i crc) ≡ crc32_loop (drop ts_header_len buf) left i (u32 crc)
unfolding crc32_loop_long crc32_loop
crc32_loop_long-low buf zero i crc = refl
crc32_loop_long-low buf (suc left) i crc =
    let next = crc32_step_long crc (byte_at buf (i + ts_header_len)) in
    let same : byte_at buf (i + ts_header_len) ≡ byte_at (drop ts_header_len buf) i = ap u8 (
      ap (λ (k : ℕ). get_or buf k 0) {y = ts_header_len + i} (omega arith)
      ∙ sym (get_or-drop ts_header_len i buf 0)) in
    crc32_loop_long-low buf left (i + 1) next
    ∙ ap (crc32_loop (drop ts_header_len buf) left (i + 1)) (
        crc32_step_long-low crc (byte_at buf (i + ts_header_len)) (omega arith)
        ∙ ap (crc32_step (u32 crc)) same)

crc32_tail-be32 : (crc : ℕ) → crc32_tail crc ≡ be32 (u32 crc)
unfolding crc32_tail
crc32_tail-be32 crc =
    let top : crc / 2 ^ 24 % 256 ≡ u32 crc / 2 ^ 24 = omega arith in
    let second : crc / 2 ^ 16 % 256 ≡ u32 crc / 2 ^ 16 % 256 = omega arith in
    let third : crc / 2 ^ 8 % 256 ≡ u32 crc / 2 ^ 8 % 256 = omega arith in
    let last : crc % 256 ≡ u32 crc % 256 = omega arith in
    rw
      (
        bit_and_ff (crc / 2 ^ 24),
        bit_and_ff (crc / 2 ^ 16),
        bit_and_ff (crc / 2 ^ 8),
        bit_and_ff crc,
        top,
        second,
        third,
        last,
      )
      refl

-- The bytes of the section before its checksum, and with it.
abbrev pub written : List ℕ → List ℕ
written buf_dest = write_section_length buf_dest (length buf_dest - ts_header_len + 1)

abbrev pub body : List ℕ → List ℕ
body buf_dest = drop ts_header_len (written buf_dest)

abbrev pub section : List ℕ → List ℕ
section buf_dest = body buf_dest ++ be32 (crc32_of (body buf_dest) (length (body buf_dest)))

pub length-written : (buf_dest : List ℕ) → length (written buf_dest) ≡ length buf_dest
unfolding write_section_length
length-written buf_dest =
    length-set
      (set buf_dest 6 (
        bit_or (bit_and (length buf_dest - ts_header_len + 1) 0x0f00 / 2 ^ 8)
          (bit_and 0xf0 (byte_at buf_dest 6))))
      7 (bit_and (length buf_dest - ts_header_len + 1) 0xff)
    ∙ length-set buf_dest 6 (
        bit_or (bit_and (length buf_dest - ts_header_len + 1) 0x0f00 / 2 ^ 8)
          (bit_and 0xf0 (byte_at buf_dest 6)))

pub length-body : (buf_dest : List ℕ) → length (body buf_dest) ≡ length buf_dest - ts_header_len
length-body buf_dest =
    omega (arith, length-drop ts_header_len (written buf_dest), length-written buf_dest)

-- The checksum that is written is that of the section.
tail-body :
    (buf_dest : List ℕ)
    → crc32_tail
        (crc32_loop_long (written buf_dest) (length buf_dest - ts_header_len + 1 - 1) 0 0xffffffff)
      ≡ be32 (crc32_of (body buf_dest) (length (body buf_dest)))
unfolding crc32_of
tail-body buf_dest =
    let rounds : length buf_dest - ts_header_len + 1 - 1 ≡ length (body buf_dest) =
      omega (arith, length-body buf_dest) in
    ap (λ (n : ℕ). crc32_tail (crc32_loop_long (written buf_dest) n 0 0xffffffff)) rounds
    ∙ crc32_tail-be32 (crc32_loop_long (written buf_dest) (length (body buf_dest)) 0 0xffffffff)
    ∙ ap be32 (crc32_loop_long-low (written buf_dest) (length (body buf_dest)) 0 0xffffffff)

split_at : (n : ℕ) (w t r : List ℕ) → (w ++ t) ++ r ≡ take n w ++ ((drop n w ++ t) ++ r)
split_at n w t r =
    ap (λ (x : List ℕ). (x ++ t) ++ r) (sym (take-append-drop n w))
    ∙ ap (λ (x : List ℕ). x ++ r) (append_assoc (take n w) (drop n w) t)
    ∙ append_assoc (take n w) (drop n w ++ t) r

-- The packet: what was written, the checksum, and stuffing.
pub finish-written :
    (buf_dest : List ℕ)
    → finish buf_dest
      ≡ (written buf_dest ++ be32 (crc32_of (body buf_dest) (length (body buf_dest))))
        ++ replicate (ts_packet_size - (length buf_dest + 4)) 0xff
unfolding finish
finish-written buf_dest =
    let crc = be32 (crc32_of (body buf_dest) (length (body buf_dest))) in
    let size : length (written buf_dest ++ crc) ≡ length buf_dest + 4 =
      omega (arith, length-append (written buf_dest) crc, length-written buf_dest) in
    rw (tail-body buf_dest, size) refl

-- The same with the section in one piece.
pub finish_lem :
    (buf_dest : List ℕ)
    → finish buf_dest
      ≡ take ts_header_len (written buf_dest)
        ++ (section buf_dest ++ replicate (ts_packet_size - (length buf_dest + 4)) 0xff)
finish_lem buf_dest =
    finish-written buf_dest
    ∙ split_at ts_header_len (written buf_dest)
        (be32 (crc32_of (body buf_dest) (length (body buf_dest))))
        (replicate (ts_packet_size - (length buf_dest + 4)) 0xff)
