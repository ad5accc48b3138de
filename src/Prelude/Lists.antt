-- ===== src/Prelude/Lists.antt =====
-- Lists over native numbers, and lists of distinct entries.
use Prim.Native.Nat.{ℕ, zero, suc, ◌+◌, ◌≤◌, ◌<◌}
use mathlib.Core.Path.{◌≡◌, refl, ap, subst}
use mathlib.Core.Logic.{◌≢◌, inl, inr}
use mathlib.Core.Bool.{Bool, true, false}
use mathlib.Core.List.{reverse, reverse-cons, List, [], ◌∷◌, ◌++◌}
use native.Mathlib.Omega.{arith}
use tp_so.Prelude.Tests.{◌==◌, if◌then◌else◌, Bool-cases}

module _ {ℓ} {A : Type ℓ} where
  abbrev pub length : List A → ℕ
  length [] = 0
  length (x ∷ xs) = suc (length xs)

  abbrev pub take : ℕ → List A → List A
  take zero xs = []
  take (suc n) [] = []
  take (suc n) (x ∷ xs) = x ∷ take n xs

  abbrev pub drop : ℕ → List A → List A
  drop zero xs = xs
  drop (suc n) [] = []
  drop (suc n) (x ∷ xs) = drop n xs

  abbrev pub All {κ} : (A → Type κ) → List A → Type κ
  All P [] = Unit
  All P (x ∷ xs) = P x × All P xs

  pub length-append : (xs ys : List A) → length (xs ++ ys) ≡ length xs + length ys
  length-append [] ys = omega arith
  length-append (x ∷ xs) ys = omega (arith, length-append xs ys)

  pub All-append {κ} : (P : A → Type κ) (xs ys : List A) → All P xs → All P ys → All P (xs ++ ys)
  All-append P [] ys h k = k
  All-append P (x ∷ xs) ys h k = (h.0, All-append P xs ys h.1 k)

  pub All-map {κ μ} :
      (P : A → Type κ) (Q : A → Type μ) (xs : List A) → ((x : A) → P x → Q x) → All P xs → All Q xs
  All-map P Q [] f h = tt
  All-map P Q (x ∷ xs) f h = (f x h.0, All-map P Q xs f h.1)

-- No entry is `p`.
abbrev pub Absent : ℕ → List ℕ → Type 0
Absent p = All (λ x. x ≢ p)

abbrev pub Distinct : List ℕ → Type 0
Distinct [] = Unit
Distinct (x ∷ xs) = Absent x xs × Distinct xs

-- The first `p` taken out.
abbrev pub erase : ℕ → List ℕ → List ℕ
erase p [] = []
erase p (x ∷ xs) = if x == p then xs else x ∷ erase p xs

abbrev pub member : ℕ → List ℕ → Bool
member p [] = false
member p (x ∷ xs) = if x == p then true else member p xs

pub Distinct-snoc : (xs : List ℕ) (p : ℕ) → Distinct xs → Absent p xs → Distinct (xs ++ (p ∷ []))
Distinct-snoc [] p d a = (tt, tt)
Distinct-snoc (x ∷ xs) p d a = (
  All-append (λ y. y ≢ x) xs (p ∷ []) d.0 ((λ e. a.0 (omega arith)), tt),
  Distinct-snoc xs p d.1 a.1,
)

pub All-erase {κ} : (P : ℕ → Type κ) (p : ℕ) (xs : List ℕ) → All P xs → All P (erase p xs)
All-erase P p [] h = tt
All-erase P p (x ∷ xs) h = ground (arith, All-erase P p xs h.1)

pub erase-Distinct : (p : ℕ) (xs : List ℕ) → Distinct xs → Distinct (erase p xs)
erase-Distinct p [] d = tt
erase-Distinct p (x ∷ xs) d =
    ground (arith, erase-Distinct p xs d.1, All-erase (λ y. y ≢ x) p xs d.0)

pub erase-Absent : (p : ℕ) (xs : List ℕ) → Distinct xs → Absent p (erase p xs)
erase-Absent p [] d = tt
erase-Absent p (x ∷ xs) d = elim (Bool-cases (x == p)) [
  | inl e ↦ rw e (let q : x ≡ p = ground arith in subst (λ z. Absent z xs) q d.0)
  | inr e ↦ rw e ((λ q. absurd (ground arith)), erase-Absent p xs d.1)
]

length-erase-le : (p : ℕ) (xs : List ℕ) → length xs ≤ suc (length (erase p xs))
length-erase-le p [] = omega arith
length-erase-le p (x ∷ xs) = ground (arith, length-erase-le p xs)

below_of_Absent :
    (n : ℕ) (xs : List ℕ) → All (λ x. x < suc n) xs → Absent n xs → All (λ x. x < n) xs
below_of_Absent n [] h a = tt
below_of_Absent n (x ∷ xs) h a = (let q : x ≢ n = a.0 in omega arith, below_of_Absent n xs h.1 a.1)

-- Distinct numbers below `n` are at most `n`.
pub length-Distinct : (n : ℕ) (xs : List ℕ) → Distinct xs → All (λ x. x < n) xs → length xs ≤ n
length-Distinct zero [] d h = omega arith
length-Distinct zero (x ∷ xs) d h = absurd (omega arith)
length-Distinct (suc n) xs d h = omega (
  arith,
  length-erase-le n xs,
  length-Distinct n (erase n xs) (erase-Distinct n xs d)
      (below_of_Absent n (erase n xs) (All-erase (λ x. x < suc n) n xs h) (erase-Absent n xs d)),
)

pub All-member {κ} : (P : ℕ → Type κ) (p : ℕ) (xs : List ℕ) → All P xs → member p xs ≡ true → P p
All-member P p [] h m = cc
All-member P p (x ∷ xs) h m = elim (Bool-cases (x == p)) [
  | inl e ↦ let q : x ≡ p = ground arith in subst P q h.0
  | inr e ↦ All-member P p xs h.1 (rw e at m)
]

pub take-length {ℓ} : {A : Type ℓ} (xs : List A) → take (length xs) xs ≡ xs
take-length [] = refl
take-length (x ∷ xs) = ap (λ r. x ∷ r) (take-length xs)

pub drop-length {ℓ} : {A : Type ℓ} (xs : List A) → drop (length xs) xs ≡ []
drop-length [] = refl
drop-length (x ∷ xs) = drop-length xs

pub length-reverse {ℓ} : {A : Type ℓ} (xs : List A) → length (reverse xs) ≡ length xs
length-reverse [] = refl
length-reverse (x ∷ xs) =
    omega
      (arith, ap length (reverse-cons x xs), length-append (reverse xs) (x ∷ []), length-reverse xs)
