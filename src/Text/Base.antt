-- ===== src/Text/Base.antt =====
-- The digits that `uint_to_base` writes.
use mathlib.Core.List.{reverse, reverse-reverse}
use native.Mathlib.Nat.{pow-suc, mod-lt, mod-add-div, div-lt_iff_lt-mul, mul-le-mul_left}
use tp_so.Prelude.{
  ℕ, zero, suc, ◌+◌, ◌-◌, ◌*◌, ◌/◌, ◌%◌, ◌^◌, ◌≤◌, ◌<◌, ◌≡◌, refl, sym, ap, ap₂, ◌∙◌, List, [], ◌∷◌,
  ◌==◌, ◌||◌, ltb, arith, length, length-reverse, false, true, if_elim, if◌then◌else◌,
}
use tp_so.Text.{digit, base_digits, uint_to_base}

-- What a digit stands for.
unfoldable pub digit_value : ℕ → ℕ
digit_value c = if ltb b'9' c then c - b'A' + 10 else c - b'0'

-- The number that a text stands for, its last digit first.
unfoldable pub value : ℕ → List ℕ → ℕ
unfolding digit_value
value base [] = 0
value base (d ∷ ds) = digit_value d + base * value base ds

digit_value-digit : (d : ℕ) → d < 16 → digit_value (digit d) ≡ d
unfolding digit_value digit
digit_value-digit d h = ground arith

-- A division by at least 2 takes a bit off.
quotient-lt : (fuel base n : ℕ) → 2 ≤ base → n < 2 ^ suc fuel → n / base < 2 ^ fuel
quotient-lt fuel base n b h =
    (div-lt_iff_lt-mul (omega arith)).1
      (omega (arith, pow-suc 2 fuel, mul-le-mul_left (2 ^ fuel) b))

digit-lt : (base n : ℕ) → 2 ≤ base → base ≤ 16 → n % base < 16
digit-lt base n b c = let p : 0 < base = omega arith in omega (arith, mod-lt n p)

value-base_digits :
    (fuel base n : ℕ)
    → 2 ≤ base
    → base ≤ 16
    → n < 2 ^ fuel
    → value base (base_digits fuel base n) ≡ n
unfolding value base_digits
value-base_digits zero base n b c h = omega arith
value-base_digits (suc fuel) base n b c h =
    if_elim (λ (t : List ℕ). value base t ≡ n) (n == 0) (λ e. ground arith)
      (λ _.
        ap₂ (λ x y. x + base * y) (digit_value-digit (n % base) (digit-lt base n b c))
          (value-base_digits fuel base (n / base) b c (quotient-lt fuel base n b h))
        ∙ mod-add-div n base)

length-base_digits : (fuel base n : ℕ) → length (base_digits fuel base n) ≤ fuel
unfolding base_digits
length-base_digits zero base n = omega arith
length-base_digits (suc fuel) base n = ground (arith, length-base_digits fuel base (n / base))

pub base_digits-positive :
    (fuel base n : ℕ) → (n == 0) ≡ false → 0 < length (base_digits (suc fuel) base n)
unfolding base_digits
base_digits-positive fuel base n z = rw z (omega arith)

zero_text : (base n : ℕ) → (n == 0) ≡ true → value base (reverse (b'0' ∷ [])) ≡ n
unfolding value digit_value
zero_text base n z = ground arith

-- In every base from 2 to 16, the text of a 64-bit number stands for the number, the result is the number of its characters,
-- and there are between 1 and 64 of them, so that they fit in `temp`.
pub uint_to_base-value :
    (n base : ℕ)
    → 2 ≤ base
    → base ≤ 16
    → n < 2 ^ 64
    → let r = uint_to_base n base in
      (value base (reverse r.1) ≡ n) × (r.0 ≡ length r.1) × (0 < r.0) × (r.0 ≤ 64)
unfolding uint_to_base value
uint_to_base-value n base b c h =
    if_elim Goal (ltb base 2 || ltb 16 base) (λ z. absurd (ground arith))
      (λ _.
        if_elim Goal (n == 0) (λ z. zero_goal z)
          (λ z. (
            ap (value base) (reverse-reverse (base_digits 64 base n))
                ∙ value-base_digits 64 base n b c h,
            sym (length-reverse (base_digits 64 base n)),
            base_digits-positive 63 base n z,
            length-base_digits 64 base n,
          )))
  where
    Goal : ℕ × List ℕ → Type 0
    Goal r = (value base (reverse r.1) ≡ n) × (r.0 ≡ length r.1) × (0 < r.0) × (r.0 ≤ 64)

    zero_goal : (n == 0) ≡ true → Goal (1, b'0' ∷ [])
    zero_goal z = (zero_text base n z, refl, omega arith, omega arith)
