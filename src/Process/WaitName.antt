-- ===== src/Process/WaitName.antt =====
-- The name of the semaphore on which a process is waited for.
use mathlib.Core.List.{reverse, reverse-reverse}
use native.Mathlib.Nat.{pow-suc}
use tp_so.Prelude.{
  ℕ, zero, suc, ◌+◌, ◌-◌, ◌*◌, ◌/◌, ◌^◌, ◌≤◌, ◌<◌, ◌≡◌, sym, ap, ◌∙◌, List, [], ◌∷◌, ◌++◌, ◌==◌,
  arith, length, length-reverse, Bool-cases, if_elim, inl, inr,
}
use tp_so.Machine.{max_sem_name}
use tp_so.Process.{low_digits, uint64_to_dec_str, wait_sem_name, wait_prefix}

-- The number that digits stand for, the last digit first.
value : List ℕ → ℕ
value [] = 0
value (d ∷ ds) = (d - b'0') + 10 * value ds

value-low_digits : (fuel n : ℕ) → n < 10 ^ fuel → value (low_digits fuel n) ≡ n
unfolding value low_digits
value-low_digits zero n h = omega arith
value-low_digits (suc fuel) n h = elim (Bool-cases (n == 0)) [
  | inl e ↦ ground arith
  | inr e ↦
      let small : n / 10 < 10 ^ fuel = omega (arith, pow-suc 10 fuel) in
      rw (e, low_digits) (omega (arith, value-low_digits fuel (n / 10) small))
]

length-low_digits : (fuel n : ℕ) → length (low_digits fuel n) ≤ fuel
unfolding low_digits
length-low_digits zero n = omega arith
length-low_digits (suc fuel) n = ground (arith, length-low_digits fuel (n / 10))

-- The number that the text stands for.
text_value : List ℕ → ℕ
text_value text = value (reverse text)

text_value-dec_str : (n : ℕ) → n < 2 ^ 64 → text_value (uint64_to_dec_str n) ≡ n
unfolding text_value uint64_to_dec_str value
text_value-dec_str n h =
    if_elim (λ (t : List ℕ). text_value t ≡ n) (n == 0) (λ e. ground arith)
      (λ _. ap value (reverse-reverse (low_digits 20 n)) ∙ value-low_digits 20 n (omega arith))

pub length-dec_str : (n : ℕ) → length (uint64_to_dec_str n) ≤ 20
unfolding uint64_to_dec_str
length-dec_str n =
    if_elim (λ (t : List ℕ). length t ≤ 20) (n == 0) (λ _. omega arith)
      (λ _. omega (arith, length-reverse (low_digits 20 n), length-low_digits 20 n))

-- Two processes never wait on the same name: the names of different 64-bit pids differ. Each has at
-- most 25 characters, so that `sem_open` stores it uncut.
pub wait_sem_name_unique :
    (p q : ℕ)
    → p < 2 ^ 64
    → q < 2 ^ 64
    → (length (wait_sem_name p) < max_sem_name) × (wait_sem_name p ≡ wait_sem_name q → p ≡ q)
unfolding wait_sem_name
wait_sem_name_unique p q hp hq = (
  omega (arith, length-dec_str p),
  λ e.
      sym (text_value-dec_str p hp)
      ∙ ap text_value (same_digits (uint64_to_dec_str p) (uint64_to_dec_str q) e)
      ∙ text_value-dec_str q hq,
)
  where
    same_digits : (a b : List ℕ) → wait_prefix ++ a ≡ wait_prefix ++ b → a ≡ b
    same_digits a b e = cc
