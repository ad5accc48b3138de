-- ===== src/Scheduler/Frame.antt =====
-- What waking a process does not touch: everything but the process table and the ready queues.
use tp_so.Prelude.{ℕ, ◌≡◌, refl, ◌∙◌, Option, Option-cases, inl, inr, Bool-cases}
use tp_so.Machine.{Pcb, System, blocked, killed, eq_state, state_of}
use tp_so.ProcessTable.{get_process_by_pid}
use tp_so.Scheduler.{enqueue, make_ready, link_last, link_after, wake, unblock_process}

module _ {M : Type 0} where
  pub record SameOutside (k s : System M) : Type 0 where
    pub next_pid : s.next_pid ≡ k.next_pid
    pub shell_pid : s.shell_pid ≡ k.shell_pid
    pub current : s.current ≡ k.current
    pub quantum : s.quantum ≡ k.quantum
    pub to_free : s.to_free ≡ k.to_free
    pub sems : s.sems ≡ k.sems
    pub registry_lock : s.registry_lock ≡ k.registry_lock
    pub pipes : s.pipes ≡ k.pipes
    pub mm : s.mm ≡ k.mm
    pub words : s.words ≡ k.words
    pub bytes : s.bytes ≡ k.bytes

  pub SameOutside-procs :
      (k : System M) (t : ℕ → Pcb) (qs : ℕ → Option ℕ)
      → SameOutside k (record k { procs = t; queues = qs })
  SameOutside-procs k t qs = record {
    next_pid = refl;
    shell_pid = refl;
    current = refl;
    quantum = refl;
    to_free = refl;
    sems = refl;
    registry_lock = refl;
    pipes = refl;
    mm = refl;
    words = refl;
    bytes = refl;
  }

  pub SameOutside-refl : (k : System M) → SameOutside k k
  SameOutside-refl k = SameOutside-procs k k.procs k.queues

  pub SameOutside-trans : {j k s : System M} → SameOutside j k → SameOutside k s → SameOutside j s
  SameOutside-trans a b = record {
    next_pid = b.next_pid ∙ a.next_pid;
    shell_pid = b.shell_pid ∙ a.shell_pid;
    current = b.current ∙ a.current;
    quantum = b.quantum ∙ a.quantum;
    to_free = b.to_free ∙ a.to_free;
    sems = b.sems ∙ a.sems;
    registry_lock = b.registry_lock ∙ a.registry_lock;
    pipes = b.pipes ∙ a.pipes;
    mm = b.mm ∙ a.mm;
    words = b.words ∙ a.words;
    bytes = b.bytes ∙ a.bytes;
  }

  link_last-SameOutside : (l p : ℕ) (k : System M) → SameOutside k (link_last l p k)
  unfolding link_last link_after
  link_last-SameOutside l p k = elim (Option-cases (k.queues l)) [
    | inl e ↦ rw (e, link_last) (SameOutside-procs k _ _)
    | inr (h, e) ↦ rw (e, link_last) (SameOutside-procs k _ _)
  ]

  make_ready-SameOutside : (p : ℕ) (k : System M) → SameOutside k (make_ready p k)
  unfolding make_ready
  make_ready-SameOutside p k = SameOutside-procs k _ _

  pub enqueue-SameOutside : (p : ℕ) (k : System M) → SameOutside k (enqueue p k)
  unfolding enqueue
  enqueue-SameOutside p k = elim (Bool-cases (eq_state (state_of k p) killed)) [
    | inl e ↦ rw e (SameOutside-refl k)
    | inr e ↦ rw e (
        SameOutside-trans (make_ready-SameOutside p k) (link_last-SameOutside _ p (make_ready p k)))
  ]

  pub unblock_process-SameOutside : (pid : ℕ) (k : System M) → SameOutside k (unblock_process pid k)
  unfolding unblock_process wake
  unblock_process-SameOutside pid k = elim (Option-cases (get_process_by_pid pid k)) [
    | inl e ↦ rw e (SameOutside-refl k)
    | inr (p, e) ↦ rw e (woken p)
  ]
    where
      woken : (p : ℕ) → SameOutside k (wake p k)
      woken p = elim (Bool-cases (eq_state (state_of k p) blocked)) [
        | inl e ↦ rw e (enqueue-SameOutside p k)
        | inr e ↦ rw e (SameOutside-refl k)
      ]
