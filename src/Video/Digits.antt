-- ===== src/Video/Digits.antt =====
-- The two functions `uintToBase`, of Kernel/drivers/video.c and Userland/shell/utils/utils.c.
use mathlib.Core.List.{reverse, reverse-cons}
use tp_so.Prelude.{
  ℕ, zero, suc, ◌+◌, ◌-◌, ◌/◌, ◌%◌, ◌≤◌, ◌<◌, ◌≡◌, refl, sym, ap, ◌∙◌, true, false, ltb, ◌==◌, ◌||◌,
  List, [], ◌∷◌, ◌++◌, update, arith, length, if_elim,
}
use native.Mathlib.Nat.{zero-div, zero-mod}
use tp_so.Text.Base.{base_digits-positive}
use tp_so.Video.Swaps.{Mirrored, swap_loop-Mirrored}
use tp_so.Text.{digit, base_digits, uint_to_base}
use tp_so.Video.Numbers.{remainder_char, digit_loop, swap_loop, vd_uint_to_base, chars, text_of}

remainder_char-digit : (d : ℕ) → remainder_char d ≡ digit d
unfolding remainder_char digit
remainder_char-digit d = ground arith

-- A list stands in a buffer, from an offset on.
abbrev Holds : List ℕ → ℕ → (ℕ → ℕ) → Type 0
Holds [] at buffer = Unit
Holds (d ∷ ds) at buffer = (buffer at ≡ d) × Holds ds (suc at) buffer

-- A list stands in a buffer with its last entry first.
abbrev HoldsBack : List ℕ → (ℕ → ℕ) → Type 0
HoldsBack [] buffer = Unit
HoldsBack (d ∷ ds) buffer = (buffer (length ds) ≡ d) × HoldsBack ds buffer

chars-last :
    (n i : ℕ) (buffer : ℕ → ℕ) → chars (suc n) i buffer ≡ chars n i buffer ++ (buffer (n + i) ∷ [])
unfolding chars
chars-last zero i buffer = let q : i ≡ 0 + i = omega arith in ap (λ k. buffer k ∷ []) q
chars-last (suc n) i buffer =
    let q : n + suc i ≡ suc n + i = omega arith in
    ap (λ t. buffer i ∷ t)
      (chars-last n (suc i) buffer ∙ ap (λ k. chars n (suc i) buffer ++ (buffer k ∷ [])) q)

HoldsBack-chars :
    (ds : List ℕ) (buffer : ℕ → ℕ) → HoldsBack ds buffer → chars (length ds) 0 buffer ≡ reverse ds
unfolding chars
HoldsBack-chars [] buffer h = refl
HoldsBack-chars (d ∷ ds) buffer h =
    let q : length ds + 0 ≡ length ds = omega arith in
    chars-last (length ds) 0 buffer
    ∙ ap (λ k. chars (length ds) 0 buffer ++ (buffer k ∷ [])) q
    ∙ ap (λ x. chars (length ds) 0 buffer ++ (x ∷ [])) (h.0)
    ∙ ap (λ t. t ++ (d ∷ [])) (HoldsBack-chars ds buffer h.1)
    ∙ sym (reverse-cons d ds)

Holds-HoldsBack :
    (ds : List ℕ) (at last : ℕ) (buffer out : ℕ → ℕ)
    → at + length ds ≡ suc last
    → Mirrored 0 last buffer out
    → Holds ds at buffer
    → HoldsBack ds out
Holds-HoldsBack [] at last buffer out e m h = tt
Holds-HoldsBack (d ∷ ds) at last buffer out e m h =
    let q : 0 + last - length ds ≡ at = omega arith in
    (
      m.inside (length ds) (omega arith) (omega arith) ∙ ap buffer q ∙ h.0,
      Holds-HoldsBack ds (suc at) last buffer out (omega arith) m h.1,
    )

-- What the loop of `vd_uint_to_base` leaves, of digits written from `p` on.
record Written (p : ℕ) (ds : List ℕ) (buffer : ℕ → ℕ) (r : ℕ × (ℕ → ℕ)) : Type 0 where
  last : r.0 ≡ p + length ds
  held : Holds ds p r.1
  before : (i : ℕ) → i < p → r.1 i ≡ buffer i

update-same : (buffer : ℕ → ℕ) (p v : ℕ) → update buffer p v p ≡ v
update-same buffer p v = ground arith

update-before : (buffer : ℕ → ℕ) (p v i : ℕ) → i < p → update buffer p v i ≡ buffer i
update-before buffer p v i h = ground arith

base_digits-zero : (fuel base value : ℕ) → (value == 0) ≡ true → base_digits fuel base value ≡ []
unfolding base_digits
base_digits-zero zero base value z = refl
base_digits-zero (suc fuel) base value z = rw z

digit_loop-Written :
    (fuel base value p : ℕ) (buffer : ℕ → ℕ)
    → (value == 0) ≡ false
    → Written p (base_digits fuel base value) buffer (digit_loop fuel base value p buffer)
unfolding digit_loop base_digits
digit_loop-Written zero base value p buffer z = record {
  last = omega arith;
  held = tt;
  before = λ i a. refl;
}
digit_loop-Written (suc fuel) base value p buffer z =
    let w = update buffer p (remainder_char (value % base)) in
    let first : w p ≡ digit (value % base) =
      update-same buffer p _ ∙ remainder_char-digit (value % base) in
    rw z (
      if_elim (Written p (digit (value % base) ∷ base_digits fuel base (value / base)) buffer)
        (value / base == 0)
        (λ e. rw (base_digits-zero fuel base (value / base) e) (record {
          last = omega arith;
          held = (first, tt);
          before = λ i a. update-before buffer p _ i a;
        }))
        (λ e.
          let r = digit_loop-Written fuel base (value / base) (suc p) w e in
          record {
            last = omega (arith, r.last);
            held = (r.before p (omega arith) ∙ first, r.held);
            before = λ i a. r.before i (omega arith) ∙ update-before buffer p _ i a;
          }))

Holds-update :
    (ds : List ℕ) (at p v : ℕ) (buffer : ℕ → ℕ)
    → at + length ds ≤ p
    → Holds ds at buffer
    → Holds ds at (update buffer p v)
Holds-update [] at p v buffer l h = tt
Holds-update (d ∷ ds) at p v buffer l h = (
  update-before buffer p v at (omega arith) ∙ h.0,
  Holds-update ds (suc at) p v buffer (omega arith) h.1,
)

-- The same count and the same string, with the NUL behind it.
abbrev SameText : ℕ × (ℕ → ℕ) → ℕ × List ℕ → Type 0
SameText r q = (r.0 ≡ q.0) × (text_of r ≡ q.1) × (r.1 r.0 ≡ 0)

-- What the swaps make of digits written from the start.
turned :
    (ds : List ℕ) (buffer : ℕ → ℕ) (r : ℕ × (ℕ → ℕ))
    → 0 < length ds
    → Written 0 ds buffer r
    → SameText (r.0, swap_loop r.0 0 (r.0 - 1) (update r.1 r.0 0)) (length ds, reverse ds)
turned ds buffer r h w =
    let ended = update r.1 r.0 0 in
    let out = swap_loop r.0 0 (r.0 - 1) ended in
    let n : r.0 ≡ length ds = omega (arith, w.last) in
    let m = swap_loop-Mirrored r.0 0 (r.0 - 1) ended (omega arith) in
    let held = Holds-update ds 0 r.0 0 r.1 (omega arith) w.held in
    (
      n,
      ap (λ k. chars k 0 out) n
          ∙ HoldsBack-chars ds out (Holds-HoldsBack ds 0 (r.0 - 1) ended out (omega arith) m held),
      m.behind r.0 (omega arith) ∙ update-same r.1 r.0 0,
    )

zero-Written :
    (fuel base n : ℕ) (buffer : ℕ → ℕ)
    → (n == 0) ≡ true
    → Written 0 (b'0' ∷ []) buffer (digit_loop (suc fuel) base n 0 buffer)
unfolding digit_loop remainder_char
zero-Written fuel base n buffer z =
    let e : n ≡ 0 = ground arith in
    let q : n / base ≡ 0 = ap (λ k. k / base) e ∙ zero-div base in
    let m : n % base ≡ 0 = ap (λ k. k % base) e ∙ zero-mod base in
    rw (q, m) (record { last = refl; held = (refl, tt); before = λ i a. absurd (omega arith) })

-- In every base from 2 to 16 the two functions `uintToBase`, the kernel's and the programs', return the
-- same number of digits and write the same string; the kernel's one turns the digits round in the
-- buffer itself, and puts the NUL behind them.
pub vd_uint_to_base-uint_to_base :
    (n base : ℕ) (buffer : ℕ → ℕ)
    → 2 ≤ base
    → base ≤ 16
    → SameText (vd_uint_to_base n base buffer) (uint_to_base n base)
unfolding vd_uint_to_base uint_to_base
vd_uint_to_base-uint_to_base n base buffer b c =
    let r = digit_loop 64 base n 0 buffer in
    if_elim (SameText (vd_uint_to_base n base buffer)) (ltb base 2 || ltb 16 base)
      (λ z. absurd (ground arith))
      (λ _.
        if_elim (SameText (vd_uint_to_base n base buffer)) (n == 0)
          (λ z. turned (b'0' ∷ []) buffer r (omega arith) (zero-Written 63 base n buffer z))
          (λ z.
            turned (base_digits 64 base n) buffer r (base_digits-positive 63 base n z)
              (digit_loop-Written 64 base n 0 buffer z)))
