-- ===== src/Video/Swaps.antt =====
-- The loop at the end of `uintToBase` in Kernel/drivers/video.c.
use tp_so.Prelude.{
  ℕ, zero, suc, ◌+◌, ◌-◌, ◌≤◌, ◌<◌, ◌≡◌, ◌≢◌, refl, sym, ap, ◌∙◌, ltb, arith, if_elim,
}
use native.Mathlib.Decide.{ℕ_discrete}
use tp_so.Video.Numbers.{swap, swap_loop}

-- The loop of swaps turns round what is between its ends, and leaves the rest.
pub record Mirrored (p1 p2 : ℕ) (buffer out : ℕ → ℕ) : Type 0 where
  pub inside : (i : ℕ) → p1 ≤ i → i ≤ p2 → out i ≡ buffer (p1 + p2 - i)
  pub before : (i : ℕ) → i < p1 → out i ≡ buffer i
  pub behind : (i : ℕ) → p2 < i → out i ≡ buffer i

swap_first : (p1 p2 : ℕ) (buffer : ℕ → ℕ) → p1 < p2 → swap p1 p2 buffer p1 ≡ buffer p2
swap_first p1 p2 buffer h = ground arith

swap_second : (p1 p2 : ℕ) (buffer : ℕ → ℕ) → swap p1 p2 buffer p2 ≡ buffer p1
swap_second p1 p2 buffer = ground arith

swap_other : (p1 p2 i : ℕ) (buffer : ℕ → ℕ) → i ≢ p1 → i ≢ p2 → swap p1 p2 buffer i ≡ buffer i
swap_other p1 p2 i buffer a b = ground (arith, a, b)

swapped_inside :
    (p1 p2 i : ℕ) (buffer out : ℕ → ℕ)
    → p1 < p2
    → Mirrored (suc p1) (p2 - 1) (swap p1 p2 buffer) out
    → p1 ≤ i
    → i ≤ p2
    → out i ≡ buffer (p1 + p2 - i)
swapped_inside p1 p2 i buffer out h m a b = elim (ℕ_discrete i p1) [
  | yes e ↦
      let q : p1 + p2 - i ≡ p2 = omega arith in
      ap out e ∙ m.before p1 (omega arith) ∙ swap_first p1 p2 buffer h ∙ ap buffer (sym q)
  | no ne ↦ elim (ℕ_discrete i p2) [
    | yes e ↦
        let q : p1 + p2 - i ≡ p1 = omega arith in
        ap out e ∙ m.behind p2 (omega arith) ∙ swap_second p1 p2 buffer ∙ ap buffer (sym q)
    | no nf ↦
        let q : suc p1 + (p2 - 1) - i ≡ p1 + p2 - i = omega arith in
        m.inside i (omega arith) (omega arith)
        ∙ ap (swap p1 p2 buffer) q
        ∙ swap_other p1 p2 (p1 + p2 - i) buffer (λ e. ne (omega arith)) (λ e. nf (omega arith))
  ]
]

pub swap_loop-Mirrored :
    (fuel p1 p2 : ℕ) (buffer : ℕ → ℕ)
    → p2 < p1 + fuel
    → Mirrored p1 p2 buffer (swap_loop fuel p1 p2 buffer)
unfolding swap_loop
swap_loop-Mirrored zero p1 p2 buffer h = record {
  inside = λ i a b. absurd (omega arith);
  before = λ i a. refl;
  behind = λ i a. refl;
}
swap_loop-Mirrored (suc fuel) p1 p2 buffer h =
    if_elim (Mirrored p1 p2 buffer) (ltb p1 p2)
      (λ e.
        let l : p1 < p2 = ground arith in
        let m = swap_loop-Mirrored fuel (suc p1) (p2 - 1) (swap p1 p2 buffer) (omega arith) in
        record {
          inside = λ i a b. swapped_inside p1 p2 i buffer _ l m a b;
          before = λ i a.
              m.before i (omega arith)
              ∙ swap_other p1 p2 i buffer (λ e. omega arith) (λ e. omega arith);
          behind = λ i a.
              m.behind i (omega arith)
              ∙ swap_other p1 p2 i buffer (λ e. omega arith) (λ e. omega arith);
        })
      (λ e. record {
        inside = λ i a b. ap buffer (ground arith);
        before = λ i a. refl;
        behind = λ i a. refl;
      })
