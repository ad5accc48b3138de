-- ===== src/Text/Decimal.antt =====
-- Decimal text: `uint_to_base` in base 10 against `string_to_int`, `is_numeric` and the kernel's
-- `uint64_to_dec_str`.
use mathlib.Core.List.{reverse, reverse-cons}
use native.Mathlib.Nat.{pow-suc}
use tp_so.Prelude.{
  ℕ, zero, suc, ◌+◌, ◌/◌, ◌%◌, ◌^◌, ◌<◌, ◌≡◌, refl, sym, ap, ap₂, Bool-cases, inl, inr, ◌∙◌, subst,
  some, true, List, [], ◌∷◌, ◌++◌, append_assoc, append-nil, length-reverse, false, ◌==◌, arith,
  length, pos, if_elim,
}
use tp_so.ProcessTable.{int_of_u64}
use tp_so.Process.{low_digits, uint64_to_dec_str}
use tp_so.Text.{
  is_digit, add_digit, digits_from, string_to_int, all_digits, is_numeric, digit, base_digits,
  uint_to_base,
}

digit-decimal : (d : ℕ) → d < 10 → digit d ≡ b'0' + d
unfolding digit
digit-decimal d h = ground arith

-- In base 10 the two loops find the same digits; 20 of them are enough.
base_digits-low_digits : (f g n : ℕ) → n < 2 ^ f → n < 10 ^ g → base_digits f 10 n ≡ low_digits g n
unfolding base_digits low_digits
base_digits-low_digits zero zero n h l = refl
base_digits-low_digits zero (suc g) n h l = ground arith
base_digits-low_digits (suc f) zero n h l = ground arith
base_digits-low_digits (suc f) (suc g) n h l = elim (Bool-cases (n == 0)) [
  | inl z ↦ rw (z, base_digits, low_digits) refl
  | inr z ↦
      rw (z, base_digits, low_digits)
        (ap₂ (λ c cs. c ∷ cs) (digit-decimal (n % 10) (omega arith))
          (base_digits-low_digits f g (n / 10) (omega (arith, pow-suc 2 f))
            (omega (arith, pow-suc 10 g))))
]

add_digit-next : (n : ℕ) → n < 2 ^ 31 → add_digit (n / 10) (b'0' + n % 10) ≡ n
unfolding add_digit
add_digit-next n h = omega arith

is_digit-decimal : (n : ℕ) → is_digit (b'0' + n % 10) ≡ true
is_digit-decimal n = ground arith

-- Reading one more digit.
one_more :
    (n : ℕ) (rest : List ℕ)
    → n < 2 ^ 31
    → digits_from (n / 10) ((b'0' + n % 10) ∷ rest) ≡ digits_from n rest
unfolding digits_from
one_more n rest h =
    rw (is_digit-decimal n, digits_from) (ap (λ m. digits_from m rest) (add_digit-next n h))

digits_from-low_digits :
    (fuel n : ℕ) (rest : List ℕ)
    → n < 10 ^ fuel
    → n < 2 ^ 31
    → digits_from 0 (reverse (low_digits fuel n) ++ rest) ≡ digits_from n rest
unfolding low_digits digits_from
digits_from-low_digits zero n rest l h = ap (λ m. digits_from m rest) (omega arith)
digits_from-low_digits (suc fuel) n rest l h =
    if_elim (λ (t : List ℕ). digits_from 0 (reverse t ++ rest) ≡ digits_from n rest) (n == 0)
      (λ z. ap (λ m. digits_from m rest) (ground arith))
      (λ _.
        let c = b'0' + n % 10 in
        let ds = low_digits fuel (n / 10) in
        ap (λ t. digits_from 0 (t ++ rest)) (reverse-cons c ds)
        ∙ ap (digits_from 0) (append_assoc (reverse ds) (c ∷ []) rest)
        ∙ digits_from-low_digits fuel (n / 10) (c ∷ rest) (omega (arith, pow-suc 10 fuel))
            (omega arith)
        ∙ one_more n rest h)

all_digits-append :
    (a b : List ℕ) → all_digits a ≡ true → all_digits b ≡ true → all_digits (a ++ b) ≡ true
all_digits-append [] b p q = q
all_digits-append (c ∷ a) b p q = ground (arith, all_digits-append a b)

all_digits-low_digits : (fuel n : ℕ) → all_digits (reverse (low_digits fuel n)) ≡ true
unfolding low_digits
all_digits-low_digits zero n = refl
all_digits-low_digits (suc fuel) n =
    if_elim (λ (t : List ℕ). all_digits (reverse t) ≡ true) (n == 0) (λ z. refl)
      (λ _.
        let c = b'0' + n % 10 in
        let ds = low_digits fuel (n / 10) in
        ap all_digits (reverse-cons c ds)
        ∙ all_digits-append (reverse ds) (c ∷ []) (all_digits-low_digits fuel (n / 10))
            (rw (is_digit-decimal n) refl))

-- In base 10 the shell's conversion and the kernel's write the same text for every 64-bit number.
uint_to_base-dec_str : (n : ℕ) → n < 2 ^ 64 → (uint_to_base n 10).1 ≡ uint64_to_dec_str n
unfolding uint_to_base uint64_to_dec_str
uint_to_base-dec_str n h =
    if_elim (λ (r : ℕ × List ℕ). r.1 ≡ uint64_to_dec_str n) (n == 0)
      (λ z.
        if_elim (λ (t : List ℕ). b'0' ∷ [] ≡ t) (n == 0) (λ _. refl) (λ f. absurd (ground arith)))
      (λ z.
        if_elim (λ (t : List ℕ). reverse (base_digits 64 10 n) ≡ t) (n == 0)
          (λ f. absurd (ground arith))
          (λ _. ap reverse (base_digits-low_digits 64 20 n h (omega arith))))

low_digits-positive :
    (fuel n : ℕ) → (n == 0) ≡ false → 0 < length (reverse (low_digits (suc fuel) n))
unfolding low_digits
low_digits-positive fuel n z =
    rw z (omega (arith, length-reverse ((b'0' + n % 10) ∷ low_digits fuel (n / 10))))

is_numeric-nonempty : (t : List ℕ) → 0 < length t → is_numeric (some t) ≡ all_digits t
unfolding is_numeric
is_numeric-nonempty [] h = absurd (omega arith)
is_numeric-nonempty (c ∷ t) h = refl

IsTextOf : ℕ → List ℕ → Type 0
IsTextOf n text = (is_numeric (some text) ≡ true) × (string_to_int text ≡ pos n)

int_of_u64-small : (n : ℕ) → n < 2 ^ 31 → int_of_u64 n ≡ pos n
unfolding int_of_u64
int_of_u64-small n h = ground arith

zero-IsTextOf : (n : ℕ) → (n == 0) ≡ true → IsTextOf n (b'0' ∷ [])
unfolding IsTextOf is_numeric string_to_int digits_from add_digit int_of_u64
zero-IsTextOf n z = (refl, ap pos (ground arith))

dec_str-IsTextOf : (n : ℕ) → n < 2 ^ 31 → IsTextOf n (uint64_to_dec_str n)
unfolding uint64_to_dec_str
dec_str-IsTextOf n h =
    if_elim (IsTextOf n) (n == 0) (λ z. zero-IsTextOf n z)
      (λ z.
        let ds = low_digits 20 n in
        unfold IsTextOf string_to_int in
        (
          is_numeric-nonempty (reverse ds) (low_digits-positive 19 n z)
              ∙ all_digits-low_digits 20 n,
          ap (λ t. int_of_u64 (digits_from 0 t)) (sym (append-nil (reverse ds)))
              ∙ ap int_of_u64 (digits_from-low_digits 20 n [] (omega arith) h)
              ∙ int_of_u64-small n h,
        ))

-- The decimal text of a number below 2 ^ 31 is numeric, and `string_to_int` gives the number back.
pub string_to_int-uint_to_base :
    (n : ℕ)
    → n < 2 ^ 31
    → let text = (uint_to_base n 10).1 in
      (is_numeric (some text) ≡ true) × (string_to_int text ≡ pos n)
unfolding IsTextOf
string_to_int-uint_to_base n h =
    subst (λ t. IsTextOf n t) (sym (uint_to_base-dec_str n (omega arith))) (dec_str-IsTextOf n h)
