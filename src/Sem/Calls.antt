-- ===== src/Sem/Calls.antt =====
-- The invariant of Sem.Validity under every call of sem.c, for every argument.
use tp_so.Prelude.{
  ℕ, ◌<◌, ◌^◌, Option, List, ℤ, All, arith, index, on_some_elim, index-lt, lt→ltb, map_range_lem,
}
use tp_so.Machine.{System, max_sems}
use tp_so.Sem.{Outcome, returns, sem_init, sem_open, sem_close, sem_wait, sem_post, sem_remove_pid}
use tp_so.Sem.Validity.{
  AllValid, Leaves, Keeps, sem_open-AllValid, sem_close-AllValid, sem_wait-AllValid,
  sem_post-AllValid, sem_remove_pid-AllValid,
}

-- A call of sem.c, with the events that happen while it sleeps.
pub data Call (M : Type 0) : Type 0 where
  opens : Option (List ℕ) → ℕ → Call M
  closes : ℤ → Call M
  waits : List (System M → System M) → ℤ → Call M
  posts : ℤ → Call M
  purges : ℤ → Call M
  inits : Call M

module _ {M : Type 0} where
  unfoldable pub run_call : Call M → System M → Outcome M
  run_call (opens name value) k = let r = sem_open name value k in returns r.0 r.1
  run_call (closes id) k = let r = sem_close id k in returns r.0 r.1
  run_call (waits es id) k = sem_wait es id k
  run_call (posts id) k = let r = sem_post id k in returns r.0 r.1
  run_call (purges pid) k = returns (ℤ.pos 0) (sem_remove_pid pid k)
  run_call inits k = returns (ℤ.pos 0) (sem_init k)

  -- The arguments' C types, and what is known of the events.
  abbrev pub IsCall : Call M → Type 0
  IsCall (opens name value) = value < 2 ^ 16
  IsCall (closes id) = Unit {0}
  IsCall (waits es id) = All Keeps es
  IsCall (posts id) = Unit {0}
  IsCall (purges pid) = Unit {0}
  IsCall inits = Unit {0}

  sem_init-AllValid : (k : System M) → AllValid (sem_init k).sems
  unfolding sem_init
  sem_init-AllValid k i b =
      rw (map_range_lem max_sems _ k.sems i, lt→ltb i max_sems b)
        (record {
          nobody_waits = λ a h. absurd (omega arith);
          unlocked = omega arith;
          value_fits = omega arith;
          users_fit = omega arith;
        })

  -- Every call of sem.c, with any arguments of its C types, from any state where the semaphores are valid, ends
  -- or sleeps in such a state: no process waits on an active semaphore with a positive value, every
  -- lock is released, and the counters fit in 16 bits. Only a wait that would sleep with no process
  -- running, which reads through NULL, is left out. What happens while a call of `sem_wait`
  -- sleeps is assumed to keep the semaphores valid.
  pub run_call-AllValid :
      (c : Call M) (k : System M)
      → IsCall c
      → AllValid k.sems
      → Leaves (λ s. AllValid s.sems) (run_call c k)
  unfolding run_call sem_close sem_wait sem_post
  run_call-AllValid (opens name value) k h v = sem_open-AllValid name value k h v
  run_call-AllValid (closes id) k h v =
      on_some_elim (λ (r : ℤ × System M). AllValid r.1.sems) (index id max_sems)
        (λ i e. sem_close-AllValid i k (index-lt id max_sems i e) v) (λ _. v)
  run_call-AllValid (waits es id) k h v =
      on_some_elim (Leaves (λ s. AllValid s.sems)) (index id max_sems)
        (λ i e. sem_wait-AllValid es i k (index-lt id max_sems i e) h v) (λ _. v)
  run_call-AllValid (posts id) k h v =
      on_some_elim (λ (r : ℤ × System M). AllValid r.1.sems) (index id max_sems)
        (λ i e. sem_post-AllValid i k (index-lt id max_sems i e) v) (λ _. v)
  run_call-AllValid (purges pid) k h v = sem_remove_pid-AllValid pid k v
  run_call-AllValid inits k h v = sem_init-AllValid k
