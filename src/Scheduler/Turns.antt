-- ===== src/Scheduler/Turns.antt =====
-- What a call of `schedule` may come to.
use tp_so.Prelude.{
  ℕ, ◌<◌, ◌≡◌, ◌⊎◌, Option, some, none, List, [], ◌∷◌, ◌++◌, if◌then◌else◌, update, pos, index,
  on_some, ◌+◌,
}
use tp_so.Machine.{Pcb, System, running, eq_state, priority_levels, max_processes}
use tp_so.Scheduler.Queues.{Queues}

-- The running process is in the table and has one of the five priorities.
abbrev pub IsCurrent : Option ℕ → (ℕ → Pcb) → Type 0
IsCurrent none t = Unit {0}
IsCurrent (some c) t =
    (c < max_processes) × ((l : ℕ) × (l < priority_levels) × ((t c).priority ≡ pos l))

-- A running process is put at the end of the queue of its priority.
abbrev pub requeue : Option ℕ → (ℕ → Pcb) → (ℕ → List ℕ) → ℕ → List ℕ
requeue none t qs = qs
requeue (some c) t qs =
    if eq_state (t c).state running
    then on_some (index (t c).priority priority_levels) (λ l. update qs l (qs l ++ (c ∷ []))) qs
    else qs

module _ {M : Type 0} where
  -- A process of the first non-empty queue of `qs` runs, taken out of it, with a full quantum.
  pub record Runs (qs : ℕ → List ℕ) (p : ℕ) (ret : ℕ) (s : System M) : Type 0 where
    pub level : ℕ
    pub rest : List ℕ
    pub in_range : level < priority_levels
    pub first : qs level ≡ p ∷ rest
    pub higher_empty : (m : ℕ) → m < level → qs m ≡ []
    pub current : s.current ≡ some p
    pub now_running : (s.procs p).state ≡ running
    pub full : s.quantum ≡ 5
    pub stack : ret ≡ (s.procs p).rsp
    pub queues : Queues s (update qs level rest)

  -- Nothing is ready, and nothing is switched to: the same process stays the current one.
  pub record Stays (k : System M) (qs : ℕ → List ℕ) (ret : ℕ) (s : System M) : Type 0 where
    pub empty : (l : ℕ) → l < priority_levels → qs l ≡ []
    pub no_stack : ret ≡ 0
    pub current : s.current ≡ k.current
    pub quantum : s.quantum ≡ k.quantum
    pub queues : Queues s qs

  -- Process `c` is running and has some of its quantum left.
  pub record HasTime (k : System M) (c : ℕ) : Type 0 where
    pub current : k.current ≡ some c
    pub runs : (k.procs c).state ≡ running
    pub time : 0 < k.quantum

  -- It goes on, with one tick less of its quantum, and nobody moves.
  pub record GoesOn (k : System M) (qs : ℕ → List ℕ) (c ret : ℕ) (s : System M) : Type 0 where
    pub had_time : HasTime k c
    pub no_stack : ret ≡ 0
    pub current : s.current ≡ some c
    pub still_running : (s.procs c).state ≡ running
    pub quantum : s.quantum + 1 ≡ k.quantum
    pub queues : Queues s qs

  -- It has no time left, or there is none that runs. Whoever runs has gone behind the others of its
  -- priority, and then the first process of the first queue that is not empty is chosen.
  pub record Switches (k : System M) (qs : ℕ → List ℕ) (ret : ℕ) (s : System M) : Type 0 where
    pub no_time : (c : ℕ) → HasTime k c → ⊥
    pub next :
        Stays k (requeue k.current k.procs qs) ret s
        ⊎ ((p : ℕ) × Runs (requeue k.current k.procs qs) p ret s)

  abbrev pub Scheduled : System M → (ℕ → List ℕ) → ℕ × System M → Type 0
  Scheduled k qs (ret, s) = ((c : ℕ) × GoesOn k qs c ret s) ⊎ Switches k qs ret s

  abbrev pub Chosen : System M → (ℕ → List ℕ) → ℕ × System M → Type 0
  Chosen k qs (ret, s) = Stays k qs ret s ⊎ ((p : ℕ) × Runs qs p ret s)
