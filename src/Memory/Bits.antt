-- ===== src/Memory/Bits.antt =====
-- The binary digits of words under `&`, `|` and `<<`.
use Prim.Native.Nat.{
  ℕ, zero, suc, ◌+◌, ◌-◌, ◌*◌, ◌/◌, ◌%◌, ◌^◌, ◌≤◌, ◌<◌, min, max, bit_and, bit_or, bitwise, digits,
  bit_and-bitwise, bit_or-bitwise,
}
use native.Mathlib.Decide.{ℕ_discrete}
use tp_so.Prelude.{◌≡◌, refl, ap, sym, subst, ◌∙◌, arith, ◌==◌, if◌then◌else◌}

-- Digit `j`.
pub bit : ℕ → ℕ → ℕ
bit a zero = a % 2
bit a (suc j) = bit (a / 2) j

-- An operation on two words, digit by digit: `f` on digits, `z` once the first word has run out.
module _ (z : ℕ → ℕ) (f : ℕ → ℕ → ℕ) where
  one_more : (n a b : ℕ) → a ≤ n → digits z f (suc n) a b ≡ digits z f n a b
  one_more zero zero b h = refl
  one_more (suc n) zero b h = refl
  one_more zero (suc a) b h = absurd (omega arith)
  one_more (suc n) (suc a) b h =
      ap (λ r. r * 2 + f (suc a % 2) (b % 2)) (one_more n (suc a / 2) (b / 2) (omega arith))

  enough : (n a b : ℕ) → a ≤ n → digits z f n a b ≡ bitwise z f a b
  enough zero zero b h = refl
  enough zero (suc a) b h = absurd (omega arith)
  enough (suc n) a b h = elim (ℕ_discrete (suc n) a) [
    | yes e ↦ subst (λ x. digits z f x a b ≡ bitwise z f a b) (sym e) refl
    | no e ↦ one_more n a b (omega arith) ∙ enough n a b (omega arith)
  ]

  module _ (ended : (b : ℕ) → z b ≡ z (b / 2) * 2 + f 0 (b % 2)) where
    low_digit : (a b : ℕ) → bitwise z f a b ≡ bitwise z f (a / 2) (b / 2) * 2 + f (a % 2) (b % 2)
    low_digit zero b = ended b
    low_digit (suc a) b =
        ap (λ r. r * 2 + f (suc a % 2) (b % 2)) (enough a (suc a / 2) (b / 2) (omega arith))

bit_and_step : (a b : ℕ) → bit_and a b ≡ bit_and (a / 2) (b / 2) * 2 + min (a % 2) (b % 2)
bit_and_step a b = omega (
  arith,
  bit_and-bitwise a b,
  bit_and-bitwise (a / 2) (b / 2),
  low_digit (λ c. 0) min (λ c. omega arith) a b,
)

bit_or_step : (a b : ℕ) → bit_or a b ≡ bit_or (a / 2) (b / 2) * 2 + max (a % 2) (b % 2)
bit_or_step a b = omega (
  arith,
  bit_or-bitwise a b,
  bit_or-bitwise (a / 2) (b / 2),
  low_digit (λ c. c) max (λ c. omega arith) a b,
)

pub bit-bit_and : (a b j : ℕ) → bit (bit_and a b) j ≡ min (bit a j) (bit b j)
unfolding bit
bit-bit_and a b zero = omega (arith, bit_and_step a b)
bit-bit_and a b (suc j) =
    let half : bit_and a b / 2 ≡ bit_and (a / 2) (b / 2) = omega (arith, bit_and_step a b) in
    rw half (bit-bit_and (a / 2) (b / 2) j)

pub bit-bit_or : (a b j : ℕ) → bit (bit_or a b) j ≡ max (bit a j) (bit b j)
unfolding bit
bit-bit_or a b zero = omega (arith, bit_or_step a b)
bit-bit_or a b (suc j) =
    let half : bit_or a b / 2 ≡ bit_or (a / 2) (b / 2) = omega (arith, bit_or_step a b) in
    rw half (bit-bit_or (a / 2) (b / 2) j)

no_digits : (n a : ℕ) → digits (λ c. 0) min n a 0 ≡ 0
no_digits zero a = refl
no_digits (suc n) zero = refl
no_digits (suc n) (suc a) = omega (arith, no_digits n (suc a / 2))

bit_and-zero : (a : ℕ) → bit_and a 0 ≡ 0
bit_and-zero a = bit_and-bitwise a 0 ∙ no_digits a a

double : (j : ℕ) → (2 ^ suc j / 2 ≡ 2 ^ j) × (2 ^ suc j % 2 ≡ 0) × (2 ^ suc j ≡ 2 ^ j * 2)
double j = (omega arith, omega arith, omega arith)

-- Masking with one digit finds it.
pub bit_and-pow : (a j : ℕ) → (bit_and a (2 ^ j) == 0) ≡ (bit a j == 0)
unfolding bit
bit_and-pow a zero =
    let one : bit_and a 1 ≡ a % 2 = omega (arith, bit_and_step a 1, bit_and-zero (a / 2)) in
    rw one refl
bit_and-pow a (suc j) =
    let half : (bit_and (a / 2) (2 ^ suc j / 2) == 0) ≡ (bit (a / 2) j == 0) =
      rw ((double j).0) (bit_and-pow (a / 2) j) in
    let even : bit_and a (2 ^ suc j) ≡ bit_and (a / 2) (2 ^ suc j / 2) * 2 =
      omega (arith, bit_and_step a (2 ^ suc j), double j) in
    rw even (times_two (bit_and (a / 2) (2 ^ suc j / 2)) ∙ half)
  where
    times_two : (x : ℕ) → (x * 2 == 0) ≡ (x == 0)
    times_two x = ground arith

pub zero-bit : (j : ℕ) → bit 0 j ≡ 0
unfolding bit
zero-bit zero = refl
zero-bit (suc j) = zero-bit j

pub bit-pow : (o j : ℕ) → bit (2 ^ o) j ≡ (if j == o then 1 else 0)
unfolding bit
bit-pow zero zero = refl
bit-pow zero (suc j) = ground (arith, zero-bit j)
bit-pow (suc o) zero = ground (arith, double o)
bit-pow (suc o) (suc j) = rw ((double o).0) (bit-pow o j ∙ ground arith)

-- The digits of the complement in `k` digits.
bit_complement : (k x j : ℕ) → x < 2 ^ k → j < k → bit (2 ^ k - 1 - x) j ≡ 1 - bit x j
unfolding bit
bit_complement zero x j h l = absurd (omega arith)
bit_complement (suc k) x zero h l = omega (arith, double k)
bit_complement (suc k) x (suc j) h l =
    let half : (2 ^ suc k - 1 - x) / 2 ≡ 2 ^ k - 1 - x / 2 = omega (arith, double k) in
    rw half (bit_complement k (x / 2) j (omega (arith, double k)) (omega arith))

pow_positive : (k : ℕ) → 0 < 2 ^ k
pow_positive zero = omega arith
pow_positive (suc k) = omega (arith, double k, pow_positive k)

pow_below : (o k : ℕ) → o < k → 2 ^ o < 2 ^ k
pow_below zero zero h = absurd (omega arith)
pow_below zero (suc k) h = omega (arith, double k, pow_positive k)
pow_below (suc o) zero h = absurd (omega arith)
pow_below (suc o) (suc k) h = omega (arith, double o, double k, pow_below o k (omega arith))

-- The complement of a mask of 32 digits.
pub bit-mask : (o j : ℕ) → o < 32 → j < 32 → bit (2 ^ 32 - 1 - 2 ^ o) j ≡ (if j == o then 0 else 1)
bit-mask o j h k =
    bit_complement 32 (2 ^ o) j (pow_below o 32 h) k ∙ ap (λ d. 1 - d) (bit-pow o j) ∙ ground arith

-- Keeping the low `k` digits of a number that has no others.
bit_and_ones : (k y : ℕ) → y < 2 ^ k → bit_and y (2 ^ k - 1) ≡ y
bit_and_ones zero y h = omega (arith, bit_and-zero y)
bit_and_ones (suc k) y h =
    let half : (2 ^ suc k - 1) / 2 ≡ 2 ^ k - 1 = omega (arith, double k) in
    let rest : bit_and (y / 2) ((2 ^ suc k - 1) / 2) ≡ y / 2 =
      rw half (bit_and_ones k (y / 2) (omega (arith, double k))) in
    omega (arith, bit_and_step y (2 ^ suc k - 1), rest, double k)

-- `x & ~15` in 64 bits.
pub bit_and_align : (x : ℕ) → x < 2 ^ 64 → bit_and x (2 ^ 64 - 16) ≡ x - x % 16
bit_and_align x h = omega (
  arith,
  bit_and_step x (2 ^ 64 - 16),
  bit_and_step (x / 2) (2 ^ 63 - 8),
  bit_and_step (x / 2 / 2) (2 ^ 62 - 4),
  bit_and_step (x / 2 / 2 / 2) (2 ^ 61 - 2),
  bit_and_ones 60 (x / 2 / 2 / 2 / 2) (omega arith),
)
