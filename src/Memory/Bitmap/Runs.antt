-- ===== src/Memory/Bitmap/Runs.antt =====
-- The bitmap as a set of blocks: what setting, clearing and searching a run of bits does to it.
use tp_so.Prelude.{
  ℕ, zero, suc, ◌+◌, ◌-◌, ◌/◌, ◌%◌, ◌^◌, ◌<◌, min, ◌≡◌, refl, sym, ◌∙◌, Option, none, some, Bool,
  true, false, not, ◌&&◌, ◌||◌, ltb, leb, ◌==◌, arith, update_elim, find_from-Found, Found, is_some,
  if◌then◌else◌, ap, subst,
}
use Prim.Native.Nat.{max}
use native.Mathlib.Decide.{ℕ_discrete}
use tp_so.Memory.Bits.{bit, bit_and-pow, bit-bit_and, bit-bit_or, bit-pow, bit-mask}
use tp_so.Memory.Bitmap.{bitmap_set, bitmap_clear, bitmap_test, is_free_run, set_range, clear_range}

-- A test reads one digit.
bitmap_test_lem : (w : ℕ → ℕ) (b : ℕ) → bitmap_test w b ≡ not (bit (w (b / 32)) (b % 32) == 0)
unfolding bitmap_test
bitmap_test_lem w b = ap not (bit_and-pow (w (b / 32)) (b % 32))

or_digit :
    (x b c : ℕ)
    → c / 32 ≡ b / 32
    → not (max x (if (c % 32) == (b % 32) then 1 else 0) == 0) ≡ ((c == b) || not (x == 0))
or_digit x b c e = ground arith

and_digit :
    (x b c : ℕ)
    → c / 32 ≡ b / 32
    → not (min x (if (c % 32) == (b % 32) then 0 else 1) == 0) ≡ (not (c == b) && not (x == 0))
and_digit x b c e = ground arith

pub bitmap_test-set :
    (w : ℕ → ℕ) (b c : ℕ) → bitmap_test (bitmap_set b w) c ≡ ((c == b) || bitmap_test w c)
unfolding bitmap_set
bitmap_test-set w b c =
    bitmap_test_lem (bitmap_set b w) c
    ∙ update_elim
        (λ x. not (bit x (c % 32) == 0) ≡ ((c == b) || not (bit (w (c / 32)) (c % 32) == 0))) w
        (b / 32) _ (c / 32)
        (λ e.
          rw (bit-bit_or (w (b / 32)) (2 ^ (b % 32)) (c % 32), bit-pow (b % 32) (c % 32), e)
            (or_digit (bit (w (b / 32)) (c % 32)) b c e))
        (λ n. ground arith)
    ∙ ap (λ x. (c == b) || x) (sym (bitmap_test_lem w c))

pub bitmap_test-clear :
    (w : ℕ → ℕ) (b c : ℕ) → bitmap_test (bitmap_clear b w) c ≡ (not (c == b) && bitmap_test w c)
unfolding bitmap_clear
bitmap_test-clear w b c =
    bitmap_test_lem (bitmap_clear b w) c
    ∙ update_elim
        (λ x. not (bit x (c % 32) == 0) ≡ (not (c == b) && not (bit (w (c / 32)) (c % 32) == 0))) w
        (b / 32) _ (c / 32)
        (λ e.
          rw
            (
              bit-bit_and (w (b / 32)) (2 ^ 32 - 1 - 2 ^ (b % 32)) (c % 32),
              bit-mask (b % 32) (c % 32) (omega arith) (omega arith),
              e,
            )
            (and_digit (bit (w (b / 32)) (c % 32)) b c e))
        (λ n. ground arith)
    ∙ ap (λ x. not (c == b) && x) (sym (bitmap_test_lem w c))

-- `n` blocks from `start` on.
abbrev pub in_run : ℕ → ℕ → ℕ → Bool
in_run start n c = leb start c && ltb c (start + n)

pub bitmap_test-set_range :
    (n start : ℕ) (w : ℕ → ℕ) (c : ℕ)
    → bitmap_test (set_range n start w) c ≡ (in_run start n c || bitmap_test w c)
unfolding set_range
bitmap_test-set_range zero start w c = ground arith
bitmap_test-set_range (suc n) start w c =
    bitmap_test-set (set_range n start w) (start + n) c
    ∙ ap (λ x. (c == (start + n)) || x) (bitmap_test-set_range n start w c)
    ∙ ground arith

pub bitmap_test-clear_range :
    (n start : ℕ) (w : ℕ → ℕ) (c : ℕ)
    → bitmap_test (clear_range n start w) c ≡ (not (in_run start n c) && bitmap_test w c)
unfolding clear_range
bitmap_test-clear_range zero start w c = ground arith
bitmap_test-clear_range (suc n) start w c =
    bitmap_test-clear (clear_range n start w) (start + n) c
    ∙ ap (λ x. not (c == (start + n)) && x) (bitmap_test-clear_range n start w c)
    ∙ ground arith

sound_at :
    (p : ℕ → Bool) (n i c : ℕ) (o : Option ℕ)
    → 0 < n
    → Found (n - 1) (i + 1) p o
    → (not (p i) && not (is_some o)) ≡ true
    → in_run i n c ≡ true
    → p c ≡ false
sound_at p n i c (some j) b f h k = ground arith
sound_at p n i c none b f h k = elim (ℕ_discrete i c) [
  | yes e ↦ subst (λ x. p x ≡ false) e (ground arith)
  | no e ↦ f c (ground arith) (ground arith)
]

pub is_free_run_sound :
    (w : ℕ → ℕ) (n i c : ℕ)
    → 0 < n
    → is_free_run w n i ≡ true
    → in_run i n c ≡ true
    → bitmap_test w c ≡ false
unfolding is_free_run
is_free_run_sound w n i c b h k =
    sound_at (bitmap_test w) n i c _ b (find_from-Found (n - 1) (i + 1) (bitmap_test w)) h k

complete_at :
    (p : ℕ → Bool) (n i : ℕ) (o : Option ℕ)
    → 0 < n
    → Found (n - 1) (i + 1) p o
    → ((c : ℕ) → in_run i n c ≡ true → p c ≡ false)
    → (not (p i) && not (is_some o)) ≡ true
complete_at p n i none b f h = rw (h i (ground arith)) refl
complete_at p n i (some j) b f h =
    let c : true ≡ false = sym (f.2) ∙ h j (ground (arith, f.0, f.1)) in cc

pub is_free_run_complete :
    (w : ℕ → ℕ) (n i : ℕ)
    → 0 < n
    → ((c : ℕ) → in_run i n c ≡ true → bitmap_test w c ≡ false)
    → is_free_run w n i ≡ true
unfolding is_free_run
is_free_run_complete w n i b h =
    complete_at (bitmap_test w) n i _ b (find_from-Found (n - 1) (i + 1) (bitmap_test w)) h
