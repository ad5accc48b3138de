-- ===== src/Scheduler/Chain.antt =====
-- The doubly linked list that runs through the process table, as a predicate: the entries `xs`,
-- in order, linked both ways, from the head `hd` on, the first of them pointing back to `pv`.
use tp_so.Prelude.{
  ℕ, zero, suc, ◌≤◌, ◌≡◌, refl, sym, ◌∙◌, ◌≢◌, Option, some, none, true, false, List, [], ◌∷◌, ◌++◌,
  arith, All, All-map, Absent, Distinct, member, length,
}
use tp_so.Machine.{Pcb}
use tp_so.Scheduler.{queue_tail, points_to}

abbrev pub Chain : (ℕ → Pcb) → Option ℕ → Option ℕ → List ℕ → Type 0
Chain t pv hd [] = hd ≡ none
Chain t pv hd (x ∷ xs) = (hd ≡ some x) × ((t x).prev ≡ pv) × Chain t (some x) (t x).next xs

abbrev pub SameLinks : (ℕ → Pcb) → (ℕ → Pcb) → ℕ → Type 0
SameLinks t u x = ((u x).next ≡ (t x).next) × ((u x).prev ≡ (t x).prev)

-- Only the links of its own entries matter to a chain.
pub Chain-frame :
    (t u : ℕ → Pcb) (pv hd : Option ℕ) (xs : List ℕ)
    → All (SameLinks t u) xs
    → Chain t pv hd xs
    → Chain u pv hd xs
Chain-frame t u pv hd [] s c = c
Chain-frame t u pv hd (x ∷ xs) s c =
    (c.0, s.0.1 ∙ c.1, rw (s.0.0) (Chain-frame t u (some x) (t x).next xs s.1 c.2))

abbrev pub last : ℕ → List ℕ → ℕ
last x [] = x
last x (y ∷ ys) = last y ys

pub last-ne : (v x : ℕ) (xs : List ℕ) → Absent v (x ∷ xs) → last x xs ≢ v
last-ne v x [] a = a.0
last-ne v x (y ∷ ys) a = last-ne v y ys a.1

pub All-last {κ} : (P : ℕ → Type κ) (x : ℕ) (xs : List ℕ) → All P (x ∷ xs) → P (last x xs)
All-last P x [] a = a.0
All-last P x (y ∷ ys) a = All-last P y ys a.1

-- With fuel for its length the walk ends at the last entry.
pub queue_tail-last :
    (fuel : ℕ) (t : ℕ → Pcb) (pv : Option ℕ) (x : ℕ) (xs : List ℕ)
    → Chain t pv (some x) (x ∷ xs)
    → length xs ≤ fuel
    → queue_tail fuel t x ≡ last x xs
unfolding queue_tail
queue_tail-last zero t pv x [] c h = refl
queue_tail-last zero t pv x (y ∷ ys) c h = absurd (omega arith)
queue_tail-last (suc fuel) t pv x [] c h = rw (c.2, queue_tail)
queue_tail-last (suc fuel) t pv x (y ∷ ys) c h =
    rw (c.2.0, queue_tail) (queue_tail-last fuel t (some x) y ys (refl, c.2.1, c.2.2) (omega arith))

-- A new last entry.
pub Chain-snoc :
    (t u : ℕ → Pcb) (pv hd : Option ℕ) (x : ℕ) (xs : List ℕ) (p : ℕ)
    → Distinct (x ∷ xs)
    → Absent p (x ∷ xs)
    → (u p).next ≡ none
    → (u p).prev ≡ some (last x xs)
    → (u (last x xs)).next ≡ some p
    → ((q : ℕ) → q ≢ p → (u q).prev ≡ (t q).prev)
    → ((q : ℕ) → q ≢ p → q ≢ last x xs → (u q).next ≡ (t q).next)
    → Chain t pv hd (x ∷ xs)
    → Chain u pv hd (x ∷ (xs ++ (p ∷ [])))
Chain-snoc t u pv hd x [] p d a n v l kp kn c = (c.0, kp x a.0 ∙ c.1, (l, v, n))
Chain-snoc t u pv hd x (y ∷ ys) p d a n v l kp kn c = (
  c.0,
  kp x a.0 ∙ c.1,
  rw (kn x a.0 (λ e. last-ne x y ys d.0 (sym e)))
      (Chain-snoc t u (some x) (t x).next y ys p d.1 a.1 n v l kp kn c.2),
)

-- The neighbours of an entry are entries, or what stands before the chain.
pub next-Absent :
    (t : ℕ → Pcb) (pv hd : Option ℕ) (xs : List ℕ) (p v : ℕ)
    → Chain t pv hd xs
    → member p xs ≡ true
    → Absent v xs
    → points_to (t p).next v ≡ false
next-Absent t pv hd [] p v c m a = cc
next-Absent t pv hd (x ∷ []) p v c m a = ground arith
next-Absent t pv hd (x ∷ y ∷ ys) p v c m a =
    ground (arith, next-Absent t (some x) (t x).next (y ∷ ys) p v c.2)

pub prev-Absent :
    (t : ℕ → Pcb) (pv hd : Option ℕ) (xs : List ℕ) (p v : ℕ)
    → Chain t pv hd xs
    → member p xs ≡ true
    → Absent v xs
    → points_to pv v ≡ false
    → points_to (t p).prev v ≡ false
prev-Absent t pv hd [] p v c m a b = cc
prev-Absent t pv hd (x ∷ xs) p v c m a b =
    ground (arith, prev-Absent t (some x) (t x).next xs p v c.2)

-- No entry of a chain is its own neighbour.
pub next_self :
    (t : ℕ → Pcb) (pv hd : Option ℕ) (xs : List ℕ) (p : ℕ)
    → Chain t pv hd xs
    → member p xs ≡ true
    → Distinct xs
    → points_to (t p).next p ≡ false
next_self t pv hd [] p c m d = cc
next_self t pv hd (x ∷ []) p c m d = ground arith
next_self t pv hd (x ∷ y ∷ ys) p c m d =
    ground (arith, next_self t (some x) (t x).next (y ∷ ys) p c.2)

pub prev_self :
    (t : ℕ → Pcb) (pv hd : Option ℕ) (xs : List ℕ) (p : ℕ)
    → Chain t pv hd xs
    → member p xs ≡ true
    → Distinct xs
    → All (λ z. points_to pv z ≡ false) xs
    → points_to (t p).prev p ≡ false
prev_self t pv hd [] p c m d a = cc
prev_self t pv hd (x ∷ xs) p c m d a = ground (
  arith,
  prev_self t (some x) (t x).next xs p c.2,
  All-map (λ z. z ≢ x) (λ z. points_to (some x) z ≡ false) xs (λ z h. ground arith) d.0,
)
