-- ===== src/Sem/Handover.antt =====
-- `sem_post` against the processes that wait: who is woken, and what the sleeper's call returns.
use tp_so.Prelude.{
  ℕ, ◌<◌, ◌≡◌, refl, sym, ◌∙◌, ap, ◌≢◌, some, true, List, [], ◌∷◌, ◌++◌, arith, lt→ltb, ℤ, pos,
  update, subst,
}
use tp_so.Machine.{Sem, System, ready, blocked, killed, max_sems, max_processes, priority_levels}
use tp_so.ProcessTable.{get_process_by_pid, u64_of_int}
use tp_so.Scheduler.{unblock_process, wake, enqueue}
use tp_so.Scheduler.Queues.{Queues, Absent-of_state}
use tp_so.Scheduler.Enqueue.{enqueue-Queues, enqueue-state}
use tp_so.Scheduler.Frame.{enqueue-SameOutside}
use tp_so.Sem.{sem_post, sem_post_at, sem_release, locked}

module _ {M : Type 0} where
  -- A process that `get_process_by_pid` finds, BLOCKED, with one of the five priorities.
  pub record Sleeper (k : System M) (pid c l : ℕ) : Type 0 where
    pub found : get_process_by_pid pid k ≡ some c
    pub slot : c < max_processes
    pub sleeps : (k.procs c).state ≡ blocked
    pub in_range : l < priority_levels
    pub level : (k.procs c).priority ≡ pos l

  pub unblock-Sleeper :
      (k : System M) (pid c l : ℕ) → Sleeper k pid c l → unblock_process pid k ≡ enqueue c k
  unfolding unblock_process wake
  unblock-Sleeper k pid c l s = rw (s.found, s.sleeps)

  Queues-sems :
      (k : System M) (qs : ℕ → List ℕ) (t : ℕ → Sem)
      → Queues k qs
      → Queues (record k { sems = t }) qs
  Queues-sems k qs t q = record { chain = q.chain; distinct = q.distinct; waits = q.waits }

  Sleeper-sems :
      (k : System M) (t : ℕ → Sem) (pid c l : ℕ)
      → Sleeper k pid c l
      → Sleeper (record k { sems = t }) pid c l
  unfolding get_process_by_pid
  Sleeper-sems k t pid c l s = record {
    found = s.found;
    slot = s.slot;
    sleeps = s.sleeps;
    in_range = s.in_range;
    level = s.level;
  }

  -- The semaphore without the first of its processes.
  dropped : ℕ → List ℤ → System M → System M
  dropped i rest k = locked i (λ s. record s { blocked_pids = rest }) k

  sem_post-active :
      (k : System M) (i : ℕ)
      → i < max_sems
      → (k.sems i).active ≡ true
      → sem_post (pos i) k ≡ (pos 0, sem_release i (k.sems i).blocked_pids k)
  unfolding sem_post sem_post_at
  sem_post-active k i b a = rw (lt→ltb i max_sems b, a)

  sem_release-Sleeper :
      (k : System M) (i pid c l : ℕ) (rest : List ℤ)
      → Sleeper k pid c l
      → sem_release i (pos pid ∷ rest) k ≡ enqueue c (dropped i rest k)
  unfolding sem_release u64_of_int dropped
  sem_release-Sleeper k i pid c l rest s =
      unblock-Sleeper (dropped i rest k) pid c l (Sleeper-sems k _ pid c l s)

  sem_post_lem :
      (k : System M) (i pid c l : ℕ) (rest : List ℤ)
      → i < max_sems
      → (k.sems i).active ≡ true
      → (k.sems i).blocked_pids ≡ pos pid ∷ rest
      → Sleeper k pid c l
      → sem_post (pos i) k ≡ (pos 0, enqueue c (dropped i rest k))
  sem_post_lem k i pid c l rest b a e s =
      sem_post-active k i b a
      ∙ ap (λ pids. (pos 0, sem_release i pids k)) e
      ∙ ap (λ r. (pos 0, r)) (sem_release-Sleeper k i pid c l rest s)

  -- What a post that wakes the process in slot `c` leaves.
  pub record Woken (k : System M) (qs : ℕ → List ℕ) (i c l : ℕ) (rest : List ℤ) (r : ℤ × System M)
      : Type 0 where
    pub ok : r.0 ≡ pos 0
    pub queue : (r.1.sems i).blocked_pids ≡ rest
    pub value : (r.1.sems i).value ≡ (k.sems i).value
    pub state : (r.1.procs c).state ≡ ready
    pub queues : Queues r.1 (update qs l (qs l ++ (c ∷ [])))

  enqueue-Woken :
      (k : System M) (qs : ℕ → List ℕ) (i pid c l : ℕ) (rest : List ℤ)
      → Queues k qs
      → Sleeper k pid c l
      → Woken k qs i c l rest (pos 0, enqueue c (dropped i rest k))
  unfolding dropped
  enqueue-Woken k qs i pid c l rest q s =
      let sems : (enqueue c (dropped i rest k)).sems ≡ (dropped i rest k).sems =
        (enqueue-SameOutside c (dropped i rest k)).sems in
      let alive : (k.procs c).state ≢ killed =
        λ d. let x : blocked ≡ killed = sym s.sleeps ∙ d in cc in
      record {
        ok = refl;
        queue = ap (λ t. (t i).blocked_pids) sems ∙ ground arith;
        value = ap (λ t. (t i).value) sems ∙ ground arith;
        state = enqueue-state c c (dropped i rest k) alive ∙ ground arith;
        queues =
            enqueue-Queues (dropped i rest k) qs c l (Queues-sems k qs _ q) s.in_range s.slot alive
              s.level
              (Absent-of_state k qs c q (λ d. let x : blocked ≡ ready = sym s.sleeps ∙ d in cc));
      }

  -- Posting an active semaphore on which processes wait wakes the one that has waited longest: it
  -- leaves the semaphore's queue, becomes READY and goes to the end of the ready queue of its
  -- priority; the value stays as it was, and the call returns 0.
  pub sem_post-Woken :
      (k : System M) (qs : ℕ → List ℕ) (i pid c l : ℕ) (rest : List ℤ)
      → Queues k qs
      → i < max_sems
      → (k.sems i).active ≡ true
      → (k.sems i).blocked_pids ≡ pos pid ∷ rest
      → Sleeper k pid c l
      → Woken k qs i c l rest (sem_post (pos i) k)
  sem_post-Woken k qs i pid c l rest q b a e s =
      subst (Woken k qs i c l rest) (sym (sem_post_lem k i pid c l rest b a e s))
        (enqueue-Woken k qs i pid c l rest q s)
