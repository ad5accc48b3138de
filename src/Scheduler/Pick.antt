-- ===== src/Scheduler/Pick.antt =====
-- `pick_next_process`, and the loop of `schedule` around it.
use native.Mathlib.Decide.{ℕ_discrete}
use tp_so.Prelude.{
  ℕ, zero, suc, ◌+◌, ◌≤◌, ◌<◌, ◌≡◌, refl, Option, some, none, List, [], ◌∷◌, subst, arith, inl, inr,
  Option-cases,
}
use tp_so.Machine.{Pcb, System, ready, state_of, priority_levels}
use tp_so.Scheduler.{pick_from, pick_next_process, next_runnable}
use tp_so.Scheduler.Chain.{Chain}
use tp_so.Scheduler.Queues.{Queues}

-- The first process of the first queue that is not empty, of the `n` levels from `l` on.
abbrev pub Picks : ℕ → ℕ → (ℕ → List ℕ) → Option ℕ → Type 0
Picks n l qs none = (j : ℕ) → l ≤ j → j < l + n → qs j ≡ []
Picks n l qs (some p) =
    (j : ℕ) × (rest : List ℕ) × (l ≤ j)
    × (j < l + n)
    × (qs j ≡ p ∷ rest)
    × ((m : ℕ) → l ≤ m → m < j → qs m ≡ [])

skip_empty : (qs : ℕ → List ℕ) (l m : ℕ) → qs l ≡ [] → l ≤ m → (suc l ≤ m → qs m ≡ []) → qs m ≡ []
skip_empty qs l m e h k = elim (ℕ_discrete l m) [
  | yes q ↦ subst (λ x. qs x ≡ []) q e
  | no q ↦ k (omega arith)
]

Picks-suc :
    (n l : ℕ) (qs : ℕ → List ℕ)
    → qs l ≡ []
    → (o : Option ℕ) → Picks n (suc l) qs o
    → Picks (suc n) l qs o
Picks-suc n l qs e none f = λ j h k. skip_empty qs l j e h (λ i. f j i (omega arith))
Picks-suc n l qs e (some p) f =
    (f.0, f.1, omega arith, omega arith, f.4, λ m h k. skip_empty qs l m e h (λ i. f.5 m i k))

Chain-nil : (t : ℕ → Pcb) (pv hd : Option ℕ) (xs : List ℕ) → Chain t pv hd xs → hd ≡ none → xs ≡ []
Chain-nil t pv hd [] c e = refl
Chain-nil t pv hd (x ∷ xs) c e = cc

Chain-cons :
    (t : ℕ → Pcb) (pv hd : Option ℕ) (xs : List ℕ) (p : ℕ)
    → Chain t pv hd xs
    → hd ≡ some p
    → (rest : List ℕ) × (xs ≡ p ∷ rest)
Chain-cons t pv hd [] p c e = cc
Chain-cons t pv hd (x ∷ xs) p c e = (xs, ground arith)

module _ {M : Type 0} where
  pick_from-Picks :
      (k : System M) (qs : ℕ → List ℕ)
      → Queues k qs
      → (n l : ℕ) → l + n ≤ priority_levels
      → Picks n l qs (pick_from n l k)
  unfolding pick_from
  pick_from-Picks k qs q zero l b = λ j h i. absurd (omega arith)
  pick_from-Picks k qs q (suc n) l b = elim (Option-cases (k.queues l)) [
    | inl e ↦
        rw (e, pick_from)
          (Picks-suc n l qs (Chain-nil k.procs none (k.queues l) (qs l) (q.chain l (omega arith)) e)
            _ (pick_from-Picks k qs q n (suc l) (omega arith)))
    | inr (p, e) ↦
        let r = Chain-cons k.procs none (k.queues l) (qs l) p (q.chain l (omega arith)) e in
        rw (e, pick_from) (l, r.0, omega arith, omega arith, r.1, λ m h i. absurd (omega arith))
  ]

  pub pick_next_process-Picks :
      (k : System M) (qs : ℕ → List ℕ)
      → Queues k qs
      → Picks priority_levels 0 qs (pick_next_process k)
  unfolding pick_next_process
  pick_next_process-Picks k qs q = pick_from-Picks k qs q priority_levels 0 (omega arith)

  -- What is picked is READY, so that the loop of `schedule` drops nothing.
  pub next_runnable-pick :
      (mm_free : ℕ → M → M) (k : System M) (qs : ℕ → List ℕ) (fuel : ℕ)
      → Queues k qs
      → next_runnable mm_free fuel k ≡ (pick_next_process k, k)
  unfolding next_runnable
  next_runnable-pick mm_free k qs zero q = refl
  next_runnable-pick mm_free k qs (suc fuel) q = elim (Option-cases (pick_next_process k)) [
    | inl e ↦ rw (e, next_runnable) refl
    | inr (p, e) ↦
        rw (e, next_runnable) (rw (is_ready p (rw e at (pick_next_process-Picks k qs q))) refl)
  ]
    where
      is_ready : (p : ℕ) → Picks priority_levels 0 qs (some p) → state_of k p ≡ ready
      is_ready p f = (rw (f.4) at (q.waits f.0 f.3)).0.1
