-- ===== src/Prelude/Arrays.antt =====
-- C arrays as functions on their indices, and the counted loops over them.
use Prim.Native.Nat.{ℕ, zero, suc, ◌+◌, ◌≤◌, ◌<◌}
use mathlib.Core.Path.{◌≡◌, refl, subst}
use mathlib.Core.Logic.{◌≢◌, ◌⊎◌, inl, inr}
use mathlib.Core.Bool.{Bool, true, false}
use mathlib.Core.Option.{Option, none, some}
use native.Mathlib.Omega.{arith}
use native.Mathlib.Decide.{ℕ_discrete}
use tp_so.Prelude.Tests.{ltb, ◌==◌, if◌then◌else◌, Bool-cases}

module _ {ℓ} {A : Type ℓ} where
  abbrev pub update : (ℕ → A) → ℕ → A → ℕ → A
  update f p v q = if q == p then v else f q

  -- A statement about one entry of an updated array.
  pub update_elim {κ} :
      (P : A → Type κ) (f : ℕ → A) (l : ℕ) (v : A) (j : ℕ)
      → (j ≡ l → P v)
      → (j ≢ l → P (f j))
      → P (update f l v j)
  update_elim P f l v j yes_case no_case = elim (Bool-cases (j == l)) [
    | inl e ↦ rw e (yes_case (ground arith))
    | inr e ↦ rw e (no_case (ground arith))
  ]

  -- for (i = 0; i < n; i++) a[i] = g a[i];
  unfoldable pub map_range : ℕ → (A → A) → (ℕ → A) → ℕ → A
  map_range zero g a = a
  map_range (suc n) g a = update (map_range n g a) n (g (a n))

  pub map_range_lem :
      (n : ℕ) (g : A → A) (a : ℕ → A) (i : ℕ)
      → map_range n g a i ≡ (if ltb i n then g (a i) else a i)
  unfolding map_range
  map_range_lem zero g a i = ground arith
  map_range_lem (suc n) g a i = elim (Bool-cases (i == n)) [
    | inl e ↦ ground arith
    | inr e ↦ ground (arith, map_range_lem n g a i)
  ]

-- for (j = i; j < i + n; j++) if (p(j)) return j;
unfoldable pub find_from : ℕ → ℕ → (ℕ → Bool) → Option ℕ
find_from zero i p = none
find_from (suc n) i p = let rest = find_from n (suc i) p in if p i then some i else rest

-- A search from `i` over `n` indices ends at the first that passes, or none does.
abbrev pub Found : ℕ → ℕ → (ℕ → Bool) → Option ℕ → Type 0
Found n i p none = (j : ℕ) → i ≤ j → j < i + n → p j ≡ false
Found n i p (some j) =
    (i ≤ j) × (j < i + n) × (p j ≡ true) × ((m : ℕ) → i ≤ m → m < j → p m ≡ false)

skip : (p : ℕ → Bool) (i m : ℕ) → p i ≡ false → i ≤ m → (suc i ≤ m → p m ≡ false) → p m ≡ false
skip p i m e h k = elim (ℕ_discrete i m) [
  | yes q ↦ subst (λ x. p x ≡ false) q e
  | no q ↦ k (omega arith)
]

Found-suc :
    (n i : ℕ) (p : ℕ → Bool)
    → p i ≡ false
    → (o : Option ℕ) → Found n (suc i) p o
    → Found (suc n) i p o
Found-suc n i p e none f = λ j h k. skip p i j e h (λ l. f j l (omega arith))
Found-suc n i p e (some j) f =
    (omega arith, omega arith, f.2, λ m h k. skip p i m e h (λ l. f.3 m l k))

pub find_from-Found : (n i : ℕ) (p : ℕ → Bool) → Found n i p (find_from n i p)
unfolding find_from
find_from-Found zero i p = λ j h k. absurd (omega arith)
find_from-Found (suc n) i p = elim (Bool-cases (p i)) [
  | inl e ↦ rw (e, find_from) (omega arith, omega arith, e, λ m h k. absurd (omega arith))
  | inr e ↦ rw (e, find_from) (Found-suc n i p e _ (find_from-Found n (suc i) p))
]

-- A search that starts at 0, split on its outcome.
pub find_from_cases :
    (n : ℕ) (p : ℕ → Bool)
    → ((find_from n 0 p ≡ none) × ((j : ℕ) → j < n → p j ≡ false))
      ⊎ ((j : ℕ) × (find_from n 0 p ≡ some j)
          × (j < n)
          × (p j ≡ true)
          × ((m : ℕ) → m < j → p m ≡ false))
find_from_cases n p = split (find_from n 0 p) refl (find_from-Found n 0 p)
  where
    split :
        (o : Option ℕ)
        → find_from n 0 p ≡ o
        → Found n 0 p o
        → ((find_from n 0 p ≡ none) × ((j : ℕ) → j < n → p j ≡ false))
          ⊎ ((j : ℕ) × (find_from n 0 p ≡ some j)
              × (j < n)
              × (p j ≡ true)
              × ((m : ℕ) → m < j → p m ≡ false))
    split none e f = inl (e, λ j h. f j (omega arith) (omega arith))
    split (some j) e f = inr (j, e, omega arith, f.2, λ m h. f.3 m (omega arith) h)

pub find_from-lt : (n : ℕ) (p : ℕ → Bool) (i : ℕ) → find_from n 0 p ≡ some i → i < n
find_from-lt n p i e = elim (find_from_cases n p) [
  | inl (n', _) ↦ cc
  | inr (j, f, h, _, _) ↦ ground arith
]
