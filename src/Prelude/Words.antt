-- ===== src/Prelude/Words.antt =====
-- Machine words: casts, and the bit operations at variables.
use Prim.Native.Nat.{ℕ, zero, suc, ◌+◌, ◌*◌, ◌/◌, ◌%◌, ◌^◌, ◌≤◌, ◌<◌, min, max}
use Prim.Native.Nat.{bit_and, bit_or, bit_xor, digits, bitwise, differ}
use Prim.Native.Nat.{bit_and-bitwise, bit_or-bitwise, bit_xor-bitwise}
use mathlib.Core.Path.{◌≡◌, refl, ap}
use native.Mathlib.Nat.{pow-suc, le_refl}
use native.Mathlib.Omega.{arith}

abbrev pub u8 : ℕ → ℕ
u8 n = n % 256

abbrev pub u16 : ℕ → ℕ
u16 n = n % 2 ^ 16

abbrev pub u64 : ℕ → ℕ
u64 n = n % 2 ^ 64

abbrev pub u32 : ℕ → ℕ
u32 n = n % 2 ^ 32

module _ (z : ℕ → ℕ) (f : ℕ → ℕ → ℕ) where
  -- Any fuel that covers the first number gives the same digits.
  digits_enough : (n m a b : ℕ) → a ≤ n → a ≤ m → digits z f n a b ≡ digits z f m a b
  digits_enough zero zero a b hn hm = refl
  digits_enough zero (suc m) zero b hn hm = refl
  digits_enough zero (suc m) (suc a) b hn hm = absurd (omega arith)
  digits_enough (suc n) zero zero b hn hm = refl
  digits_enough (suc n) zero (suc a) b hn hm = absurd (omega arith)
  digits_enough (suc n) (suc m) zero b hn hm = refl
  digits_enough (suc n) (suc m) (suc a) b hn hm =
      let rest : digits z f n (suc a / 2) (b / 2) ≡ digits z f m (suc a / 2) (b / 2) =
        digits_enough n m (suc a / 2) (b / 2) (omega arith) (omega arith) in
      ap (λ (t : ℕ). t * 2 + f (suc a % 2) (b % 2)) rest

  bitwise_low :
      (a b : ℕ)
      → bitwise z f (suc a) b ≡ bitwise z f (suc a / 2) (b / 2) * 2 + f (suc a % 2) (b % 2)
  bitwise_low a b =
      ap (λ (t : ℕ). t * 2 + f (suc a % 2) (b % 2))
        (digits_enough a (suc a / 2) (suc a / 2) (b / 2) (omega arith) (le_refl _))

-- One equation for the lowest digit of each operation.
bit_or_low : (a b : ℕ) → bit_or a b ≡ bit_or (a / 2) (b / 2) * 2 + max (a % 2) (b % 2)
bit_or_low zero b = simp bit_or-bitwise (omega arith)
bit_or_low (suc a) b = simp bit_or-bitwise (bitwise_low (λ y. y) max a b)

zero-bit_xor : (b : ℕ) → bit_xor 0 b ≡ b
zero-bit_xor b = bit_xor-bitwise 0 b

zero-bit_and : (b : ℕ) → bit_and 0 b ≡ 0
zero-bit_and b = bit_and-bitwise 0 b

zero-differ : (b : ℕ) → b ≡ b / 2 * 2 + b % 2
zero-differ b = omega arith

bit_xor_low : (a b : ℕ) → bit_xor a b ≡ bit_xor (a / 2) (b / 2) * 2 + differ (a % 2) (b % 2)
bit_xor_low zero b = simp zero-bit_xor (zero-differ b)
bit_xor_low (suc a) b = simp bit_xor-bitwise (bitwise_low (λ y. y) differ a b)

bit_and_low : (a b : ℕ) → bit_and a b ≡ bit_and (a / 2) (b / 2) * 2 + min (a % 2) (b % 2)
bit_and_low zero b = omega (arith, zero-bit_and b, zero-bit_and (b / 2))
bit_and_low (suc a) b = simp bit_and-bitwise (bitwise_low (λ y. 0) min a b)

differ_self : (a : ℕ) → differ a a ≡ 0
differ_self zero = refl
differ_self (suc a) = differ_self a

differ-zero : (a : ℕ) → differ a 0 ≡ a
differ-zero zero = refl
differ-zero (suc a) = refl

differ-le : (a b : ℕ) → a ≤ 1 → b ≤ 1 → differ a b ≤ 1
differ-le zero b ha hb = hb
differ-le (suc a) zero ha hb = ha
differ-le (suc zero) (suc zero) ha hb = omega arith
differ-le (suc zero) (suc (suc b)) ha hb = absurd (omega arith)
differ-le (suc (suc a)) (suc b) ha hb = absurd (omega arith)

-- `x ^ x` is zero.
bit_xor_self_below : (n a : ℕ) → a ≤ n → bit_xor a a ≡ 0
bit_xor_self_below n zero h = zero-bit_xor 0
bit_xor_self_below zero (suc a) h = absurd (omega arith)
bit_xor_self_below (suc n) (suc a) h = omega (
  arith,
  bit_xor_low (suc a) (suc a),
  bit_xor_self_below n (suc a / 2) (omega arith),
  differ_self (suc a % 2),
)

pub bit_xor_self : (a : ℕ) → bit_xor a a ≡ 0
bit_xor_self a = bit_xor_self_below a a (le_refl a)

bit_xor-zero_below : (n a : ℕ) → a ≤ n → bit_xor a 0 ≡ a
bit_xor-zero_below n zero h = zero-bit_xor 0
bit_xor-zero_below zero (suc a) h = absurd (omega arith)
bit_xor-zero_below (suc n) (suc a) h = omega (
  arith,
  bit_xor_low (suc a) 0,
  bit_xor-zero_below n (suc a / 2) (omega arith),
  differ-zero (suc a % 2),
)

pub bit_xor-zero : (a : ℕ) → bit_xor a 0 ≡ a
bit_xor-zero a = bit_xor-zero_below a a (le_refl a)

-- The exclusive or of two `k`-bit words is a `k`-bit word.
pub bit_xor-lt : (k a b : ℕ) → a < 2 ^ k → b < 2 ^ k → bit_xor a b < 2 ^ k
bit_xor-lt zero zero b ha hb = rw zero-bit_xor hb
bit_xor-lt zero (suc a) b ha hb = absurd (omega arith)
bit_xor-lt (suc k) a b ha hb = omega (
  arith,
  bit_xor_low a b,
  pow-suc 2 k,
  differ-le (a % 2) (b % 2) (omega arith) (omega arith),
  bit_xor-lt k (a / 2) (b / 2) (omega (arith, pow-suc 2 k)) (omega (arith, pow-suc 2 k)),
)

pub zero-bit_or : (b : ℕ) → bit_or 0 b ≡ b
zero-bit_or b = bit_or-bitwise 0 b

bit_or-zero_below : (n a : ℕ) → a ≤ n → bit_or a 0 ≡ a
bit_or-zero_below n zero h = zero-bit_or 0
bit_or-zero_below zero (suc a) h = absurd (omega arith)
bit_or-zero_below (suc n) (suc a) h =
    omega (arith, bit_or_low (suc a) 0, bit_or-zero_below n (suc a / 2) (omega arith))

-- A field set beside a shifted one is a sum.
pub bit_or_beside : (k hi lo : ℕ) → lo < 2 ^ k → bit_or (hi * 2 ^ k) lo ≡ hi * 2 ^ k + lo
bit_or_beside zero hi lo h = ground (arith, bit_or-zero_below hi hi (le_refl hi))
bit_or_beside (suc k) hi lo h =
    let double : hi * 2 ^ suc k ≡ hi * 2 ^ k * 2 =
      omega (arith, ap (λ (t : ℕ). hi * t) (pow-suc 2 k)) in
    ground (
      arith,
      double,
      pow-suc 2 k,
      bit_or_low (hi * 2 ^ suc k) lo,
      bit_or_beside k hi (lo / 2) (omega (arith, pow-suc 2 k)),
    )

bit_and-zero_below : (n a : ℕ) → a ≤ n → bit_and a 0 ≡ 0
bit_and-zero_below n zero h = zero-bit_and 0
bit_and-zero_below zero (suc a) h = absurd (omega arith)
bit_and-zero_below (suc n) (suc a) h =
    omega (arith, bit_and_low (suc a) 0, bit_and-zero_below n (suc a / 2) (omega arith))

-- `x & 0x0f` is the low nibble.
pub bit_and_0f : (a : ℕ) → bit_and a 0x0f ≡ a % 16
bit_and_0f a = omega (
  arith,
  bit_and_low a 15,
  bit_and_low (a / 2) 7,
  bit_and_low (a / 2 / 2) 3,
  bit_and_low (a / 2 / 2 / 2) 1,
  bit_and-zero_below (a / 2 / 2 / 2 / 2) (a / 2 / 2 / 2 / 2) (le_refl _),
)

-- `x & 0xff` is the low byte.
pub bit_and_ff : (a : ℕ) → bit_and a 0xff ≡ a % 256
bit_and_ff a = omega (
  arith,
  bit_and_low a 255,
  bit_and_low (a / 2) 127,
  bit_and_low (a / 2 / 2) 63,
  bit_and_low (a / 2 / 2 / 2) 31,
  bit_and_0f (a / 2 / 2 / 2 / 2),
)

-- `differ` at two digits determines one from the other.
differ_cancel : (x y z : ℕ) → x ≤ 1 → y ≤ 1 → z ≤ 1 → differ x z ≡ differ y z → x ≡ y
differ_cancel zero zero z hx hy hz e = refl
differ_cancel zero (suc zero) zero hx hy hz e = e
differ_cancel zero (suc zero) (suc zero) hx hy hz e = omega arith
differ_cancel zero (suc zero) (suc (suc z)) hx hy hz e = absurd (omega arith)
differ_cancel zero (suc (suc y)) z hx hy hz e = absurd (omega arith)
differ_cancel (suc zero) zero zero hx hy hz e = e
differ_cancel (suc zero) zero (suc zero) hx hy hz e = omega arith
differ_cancel (suc zero) zero (suc (suc z)) hx hy hz e = absurd (omega arith)
differ_cancel (suc zero) (suc zero) z hx hy hz e = refl
differ_cancel (suc zero) (suc (suc y)) z hx hy hz e = absurd (omega arith)
differ_cancel (suc (suc x)) y z hx hy hz e = absurd (omega arith)

bit_xor_cancel_low :
    (a b c : ℕ)
    → bit_xor a c ≡ bit_xor b c
    → (bit_xor (a / 2) (c / 2) ≡ bit_xor (b / 2) (c / 2)) × (a % 2 ≡ b % 2)
bit_xor_cancel_low a b c e =
    let hx : differ (a % 2) (c % 2) ≤ 1 = differ-le (a % 2) (c % 2) (omega arith) (omega arith) in
    let hy : differ (b % 2) (c % 2) ≤ 1 = differ-le (b % 2) (c % 2) (omega arith) (omega arith) in
    let same : differ (a % 2) (c % 2) ≡ differ (b % 2) (c % 2) =
      omega (arith, bit_xor_low a c, bit_xor_low b c) in
    (
      omega (arith, bit_xor_low a c, bit_xor_low b c),
      differ_cancel (a % 2) (b % 2) (c % 2) (omega arith) (omega arith) (omega arith) same,
    )

bit_xor_cancel_below : (n a b c : ℕ) → a + b ≤ n → bit_xor a c ≡ bit_xor b c → a ≡ b
bit_xor_cancel_below zero a b c h e = omega arith
bit_xor_cancel_below (suc n) a b c h e =
    let low = bit_xor_cancel_low a b c e in
    let high : a / 2 ≡ b / 2 = bit_xor_cancel_below n (a / 2) (b / 2) (c / 2) (omega arith) low.0 in
    omega (arith, low.1, high)

-- `x ^ c` determines `x`.
pub bit_xor_cancel : (a b c : ℕ) → bit_xor a c ≡ bit_xor b c → a ≡ b
bit_xor_cancel a b c e = bit_xor_cancel_below (a + b) a b c (le_refl _) e

differ_comm : (x y : ℕ) → differ x y ≡ differ y x
differ_comm zero zero = refl
differ_comm zero (suc y) = refl
differ_comm (suc x) zero = refl
differ_comm (suc x) (suc y) = differ_comm x y

bit_xor_comm_below : (n a b : ℕ) → a ≤ n → bit_xor a b ≡ bit_xor b a
bit_xor_comm_below n zero b h = omega (arith, zero-bit_xor b, bit_xor-zero b)
bit_xor_comm_below zero (suc a) b h = absurd (omega arith)
bit_xor_comm_below (suc n) (suc a) b h = omega (
  arith,
  bit_xor_low (suc a) b,
  bit_xor_low b (suc a),
  bit_xor_comm_below n (suc a / 2) (b / 2) (omega arith),
  differ_comm (suc a % 2) (b % 2),
)

pub bit_xor_comm : (a b : ℕ) → bit_xor a b ≡ bit_xor b a
bit_xor_comm a b = bit_xor_comm_below a a b (le_refl a)

-- Where the first word ends in a zero bit, the last bit is the second word's.
bit_xor_even : (a b : ℕ) → a % 2 ≡ 0 → bit_xor a b ≡ bit_xor (a / 2) (b / 2) * 2 + b % 2
bit_xor_even a b h = rw (bit_xor_low a b, h)

-- Where the low byte of the first word is zero, the low byte is the second word's.
pub bit_xor_low_byte : (a b : ℕ) → a % 256 ≡ 0 → bit_xor a b % 256 ≡ b % 256
bit_xor_low_byte a b h = omega (
  arith,
  bit_xor_even a b,
  bit_xor_even (a / 2) (b / 2),
  bit_xor_even (a / 2 / 2) (b / 2 / 2),
  bit_xor_even (a / 2 / 2 / 2) (b / 2 / 2 / 2),
  bit_xor_even (a / 2 / 2 / 2 / 2) (b / 2 / 2 / 2 / 2),
  bit_xor_even (a / 2 / 2 / 2 / 2 / 2) (b / 2 / 2 / 2 / 2 / 2),
  bit_xor_even (a / 2 / 2 / 2 / 2 / 2 / 2) (b / 2 / 2 / 2 / 2 / 2 / 2),
  bit_xor_even (a / 2 / 2 / 2 / 2 / 2 / 2 / 2) (b / 2 / 2 / 2 / 2 / 2 / 2 / 2),
)

-- The exclusive or with a `k`-bit word changes the low `k` bits alone.
pub bit_xor_beside :
    (k hi lo b : ℕ)
    → lo < 2 ^ k
    → b < 2 ^ k
    → bit_xor (hi * 2 ^ k + lo) b ≡ hi * 2 ^ k + bit_xor lo b
bit_xor_beside zero hi lo b hl hb =
    let l0 : lo ≡ 0 = omega arith in
    let b0 : b ≡ 0 = omega arith in rw (l0, b0, bit_xor-zero (hi * 2 ^ 0 + 0), bit_xor-zero 0) refl
bit_xor_beside (suc k) hi lo b hl hb =
    let double : hi * 2 ^ suc k ≡ hi * 2 ^ k * 2 =
      omega (arith, ap (λ (t : ℕ). hi * t) (pow-suc 2 k)) in
    let half : (hi * 2 ^ suc k + lo) / 2 ≡ hi * 2 ^ k + lo / 2 = omega (arith, double) in
    let low : (hi * 2 ^ suc k + lo) % 2 ≡ lo % 2 = omega (arith, double) in
    omega (
      arith,
      double,
      pow-suc 2 k,
      bit_xor_low (hi * 2 ^ suc k + lo) b,
      ap (λ (t : ℕ). bit_xor t (b / 2)) half,
      ap (λ (t : ℕ). differ t (b % 2)) low,
      bit_xor_low lo b,
      bit_xor_beside k hi (lo / 2) (b / 2) (omega (arith, pow-suc 2 k))
          (omega (arith, pow-suc 2 k)),
    )

-- `x & 0xf0` has a low nibble of zero.
pub bit_and_f0 : (a : ℕ) → bit_and 0xf0 a % 16 ≡ 0
bit_and_f0 a = omega (
  arith,
  bit_and_low 240 a,
  bit_and_low 120 (a / 2),
  bit_and_low 60 (a / 2 / 2),
  bit_and_low 30 (a / 2 / 2 / 2),
)

-- `x & 0x0f00` is zero for one byte.
pub bit_and_0f00 : (a : ℕ) → a < 256 → bit_and a 0x0f00 ≡ 0
bit_and_0f00 a h = omega (
  arith,
  bit_and_low a 3840,
  bit_and_low (a / 2) 1920,
  bit_and_low (a / 2 / 2) 960,
  bit_and_low (a / 2 / 2 / 2) 480,
  bit_and_low (a / 2 / 2 / 2 / 2) 240,
  bit_and_low (a / 2 / 2 / 2 / 2 / 2) 120,
  bit_and_low (a / 2 / 2 / 2 / 2 / 2 / 2) 60,
  bit_and_low (a / 2 / 2 / 2 / 2 / 2 / 2 / 2) 30,
  ap (λ (t : ℕ). bit_and t 15) {x = a / 2 / 2 / 2 / 2 / 2 / 2 / 2 / 2} {y = 0} (omega arith),
  zero-bit_and 15,
)

-- `x | 0x40` has the bit 6.
pub bit_or_40 : (a : ℕ) → bit_or 0x40 a / 64 % 2 ≡ 1
bit_or_40 a = omega (
  arith,
  bit_or_low 64 a,
  bit_or_low 32 (a / 2),
  bit_or_low 16 (a / 2 / 2),
  bit_or_low 8 (a / 2 / 2 / 2),
  bit_or_low 4 (a / 2 / 2 / 2 / 2),
  bit_or_low 2 (a / 2 / 2 / 2 / 2 / 2),
  bit_or_low 1 (a / 2 / 2 / 2 / 2 / 2 / 2),
)
