-- ===== src/Gate.antt =====
-- Kernel/sem/sem.c as the programs of Userland/shell/commands see it: `sem_wait` and `sem_post` on one
-- open semaphore, with a program's threads numbered by their pids.
--
-- `sem_wait` either goes through at once or puts the caller to sleep behind those that wait already;
-- `sem_post` lets the first of them through, or counts up.
pub mod Kernel
use tp_so.Prelude.{
  ℕ, ◌+◌, ◌-◌, ◌%◌, ◌^◌, ◌≡◌, refl, arith, Option, none, some, Bool, true, false, List, [], ◌∷◌,
  ◌++◌, length, ltb, if◌then◌else◌,
}
use tp_so.Machine.{max_blocked}

pub record Gate : Type 0 where
  pub value : ℕ
  pub waiting : List ℕ

abbrev pub open_gate : ℕ → Gate
open_gate value = record { value = value; waiting = [] }

-- Whether the caller goes through.
abbrev pub goes_through : Gate → Bool
goes_through g = ltb 0 g.value

unfoldable pub enlisted : ℕ → List ℕ → List ℕ
enlisted t ts = if ltb (length ts) max_blocked then ts ++ (t ∷ []) else ts

unfoldable pub gate_wait : ℕ → Gate → Gate
unfolding enlisted
gate_wait t g =
    if goes_through g
    then record g { value = g.value - 1 }
    else record g { waiting = enlisted t g.waiting }

-- Who is let through, and the semaphore then.
unfoldable pub first_waiting : Gate → Option ℕ
first_waiting g = elim g.waiting [ [] ↦ none | t ∷ ts ↦ some t ]

unfoldable pub gate_post : Gate → Gate
gate_post g = elim g.waiting [
  | [] ↦ record g { value = (g.value + 1) % 2 ^ 16 }
  | t ∷ ts ↦ record g { waiting = ts }
]

-- What the two calls do where the semaphore's value and the waiting processes are known.
pub goes_through-one : (g : Gate) → g.value ≡ 1 → goes_through g ≡ true
goes_through-one g e = ground arith

pub goes_through-zero : (g : Gate) → g.value ≡ 0 → goes_through g ≡ false
goes_through-zero g e = ground arith

pub gate_wait-one : (t : ℕ) (g : Gate) → g.value ≡ 1 → gate_wait t g ≡ record g { value = 0 }
unfolding gate_wait
gate_wait-one t g e = ground arith

pub gate_wait-zero :
    (t : ℕ) (g : Gate) → g.value ≡ 0 → gate_wait t g ≡ record g { waiting = enlisted t g.waiting }
unfolding gate_wait
gate_wait-zero t g e = rw (goes_through-zero g e)

pub gate_post-none :
    (g : Gate)
    → g.value ≡ 0
    → g.waiting ≡ []
    → (gate_post g ≡ record g { value = 1 }) × (first_waiting g ≡ none)
unfolding gate_post first_waiting
gate_post-none g e w = rw w ((ground arith), refl)

pub gate_post-some :
    (g : Gate) (t : ℕ) (ts : List ℕ)
    → g.waiting ≡ t ∷ ts
    → (gate_post g ≡ record g { waiting = ts }) × (first_waiting g ≡ some t)
unfolding gate_post first_waiting
gate_post-some g t ts w = rw w (refl, refl)
