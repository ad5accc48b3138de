-- ===== src/Syscall/Semaphores.antt =====
-- Kernel/syscall/syscall.c and the invariant of Sem/Validity.antt: the handlers that need no heap. The
-- table is in Syscall/Sound.antt.
use tp_so.Prelude.{
  ℕ, zero, suc, ◌+◌, ◌%◌, ◌^◌, ◌≡◌, refl, Bool, true, false, List, [], ◌∷◌, ℤ, pos, negsuc, All,
  arith, if_elim, on_some_elim, index, ◌==◌, if◌then◌else◌,
}
use tp_so.Machine.{System, running, ready, eq_state, state_of}
use tp_so.ProcessTable.{get_process_by_pid, get_current_pid, int_of_u64}
use tp_so.Scheduler.{dequeue, yield_process, unblock_process}
use tp_so.Scheduler.Frame.{unblock_process-SameOutside}
use tp_so.Sem.{Outcome, returns, asleep, fault, sem_wait}
use tp_so.Sem.Validity.{AllValid, Leaves, Keeps}
use tp_so.Sem.Calls.{run_call, run_call-AllValid, opens, closes, waits, posts}
use tp_so.Pipe.{PipeOutcome, pipe_create, pipe_open, pipe_close, pipe_read}
use tp_so.Pipe.Semaphores.{
  LeavesPipe, pipe_create-sems, pipe_open-sems, pipe_close-sems, pipe_read-AllValid,
}
use tp_so.Process.{set_process_priority}
use tp_so.Process.Semaphores.{Sound-same, dequeue-sems, set_process_priority-sems}
use tp_so.Syscall.{
  Reply, done, waiting, crashed, with_result, string_at, poke, with_outcome, with_pipe_outcome,
  line_step, read_line, blocked_pid, block_slot, syscall_nice, syscall_block, syscall_unblock,
  syscall_yield, syscall_pipe_create, syscall_pipe_open, syscall_pipe_close, syscall_sem_open,
  syscall_sem_close, syscall_sem_wait, syscall_sem_post, syscall_set_fd, set_fd,
}

module _ {M : Type 0} where
  abbrev Sound : System M → Type 0
  Sound k = AllValid k.sems

  -- What holds of the semaphores where a system call is done or sleeps.
  abbrev pub EndsSound : Reply M → Type 0
  EndsSound (done registers k) = AllValid k.sems
  EndsSound (waiting k) = AllValid k.sems
  EndsSound crashed = Unit {0}

  -- A handler that keeps the semaphores valid, whatever the registers.
  abbrev pub IsSound : ((ℕ → ℕ) → System M → Reply M) → Type 0
  IsSound h = (registers : ℕ → ℕ) (k : System M) → AllValid k.sems → EndsSound (h registers k)

  pub with_outcome-Sound :
      (registers : ℕ → ℕ) (o : Outcome M) → Leaves Sound o → EndsSound (with_outcome registers o)
  unfolding with_outcome
  with_outcome-Sound registers (returns r k) v = v
  with_outcome-Sound registers (asleep k) v = v
  with_outcome-Sound registers fault v = tt

  pub with_pipe-Sound :
      (registers : ℕ → ℕ) (o : PipeOutcome M)
      → LeavesPipe o
      → EndsSound (with_pipe_outcome registers o)
  unfolding with_pipe_outcome
  with_pipe-Sound registers (PipeOutcome.returns r out k) v = v
  with_pipe-Sound registers (PipeOutcome.asleep k) v = v

  line_step-Sound :
      (next : System M → Reply M) (registers : ℕ → ℕ) (buf size : ℕ) (o : PipeOutcome M)
      → ((k : System M) → Sound k → EndsSound (next k))
      → LeavesPipe o
      → EndsSound (line_step next registers buf size o)
  unfolding line_step
  line_step-Sound next registers buf size (PipeOutcome.returns (negsuc n) out k) g v = v
  line_step-Sound next registers buf size (PipeOutcome.returns (pos n) [] k) g v = v
  line_step-Sound next registers buf size (PipeOutcome.returns (pos n) (c ∷ out) k) g v =
      newline (c == 10)
    where
      newline :
          (b : Bool)
          → EndsSound (elim b [
            | true ↦
                done (with_result registers (if size == 0 then 1 else size)) (poke (buf + size) 0 k)
            | false ↦ next (poke (buf + size) c k)
          ])
      newline true = v
      newline false = g (poke (buf + size) c k) v
  line_step-Sound next registers buf size (PipeOutcome.asleep k) g v = v

  pub read_line-Sound :
      (room : ℕ) (es : ℕ → List (System M → System M)) (registers : ℕ → ℕ) (buf : ℕ) (id : ℤ)
      (size : ℕ) (k : System M)
      → ((n : ℕ) → All Keeps (es n))
      → Sound k
      → EndsSound (read_line room es registers buf id size k)
  unfolding read_line
  read_line-Sound zero es registers buf id size k h v = v
  read_line-Sound (suc room) es registers buf id size k h v =
      line_step-Sound (read_line room es registers buf id (size + 1)) registers buf size
        (pipe_read (es size) id 1 k)
        (λ s w. read_line-Sound room es registers buf id (size + 1) s h w)
        (pipe_read-AllValid (es size) id 1 k (h size) v)

  block_slot-Sound : (p : ℕ) (k : System M) → Sound k → Sound (block_slot p k)
  unfolding block_slot yield_process
  block_slot-Sound p k v =
      if_elim Sound (eq_state (state_of k p) running) (λ _. v)
        (λ _.
          if_elim Sound (eq_state (state_of k p) ready)
            (λ _. Sound-same k (dequeue p k) (dequeue-sems p k) v) (λ _. v))

  pub syscall_block-IsSound : IsSound syscall_block
  unfolding syscall_block
  syscall_block-IsSound registers k v =
      on_some_elim Sound (get_process_by_pid (blocked_pid (registers 13) (get_current_pid k)) k)
        (λ p _. block_slot-Sound p k v) (λ _. v)

  set_fd-sems : (fd : ℕ) (z : ℤ) (c : ℕ) (k : System M) → (set_fd fd z c k).sems ≡ k.sems
  unfolding set_fd
  set_fd-sems zero z c k = refl
  set_fd-sems (suc n) z c k = refl

  pub syscall_set_fd-IsSound : IsSound syscall_set_fd
  unfolding syscall_set_fd
  syscall_set_fd-IsSound registers k v =
      on_some_elim (λ (r : ℤ × System M). Sound r.1) (index (int_of_u64 (registers 13)) 2)
        (λ fd _.
          on_some_elim (λ (r : ℤ × System M). Sound r.1) k.current
            (λ c _.
              Sound-same k (set_fd fd (int_of_u64 (registers 12)) c k)
                (set_fd-sems fd (int_of_u64 (registers 12)) c k) v)
            (λ _. v))
        (λ _. v)

  pub syscall_nice-IsSound : IsSound syscall_nice
  unfolding syscall_nice
  syscall_nice-IsSound registers k v =
      Sound-same k (set_process_priority (registers 13) (int_of_u64 (registers 12)) k).1
        (set_process_priority-sems (registers 13) (int_of_u64 (registers 12)) k) v

  pub syscall_unblock-IsSound : IsSound syscall_unblock
  unfolding syscall_unblock
  syscall_unblock-IsSound registers k v =
      Sound-same k (unblock_process (registers 13) k)
        (unblock_process-SameOutside (registers 13) k).sems v

  pub syscall_yield-IsSound : (e : System M → System M) → Keeps e → IsSound (syscall_yield e)
  unfolding syscall_yield yield_process
  syscall_yield-IsSound e h registers k v = h (record k { quantum = 0 }) v

  pub syscall_pipe_create-IsSound : IsSound syscall_pipe_create
  unfolding syscall_pipe_create
  syscall_pipe_create-IsSound registers k v = Sound-same k (pipe_create k).1 (pipe_create-sems k) v

  pub syscall_pipe_open-IsSound : IsSound syscall_pipe_open
  unfolding syscall_pipe_open
  syscall_pipe_open-IsSound registers k v =
      Sound-same k (pipe_open (string_at k (registers 13)) k).1
        (pipe_open-sems (string_at k (registers 13)) k) v

  pub syscall_pipe_close-IsSound : IsSound syscall_pipe_close
  unfolding syscall_pipe_close
  syscall_pipe_close-IsSound registers k v =
      Sound-same k (pipe_close (int_of_u64 (registers 13)) (int_of_u64 (registers 12)) k).1
        (pipe_close-sems (int_of_u64 (registers 13)) (int_of_u64 (registers 12)) k) v

  pub syscall_sem_open-IsSound : IsSound syscall_sem_open
  unfolding syscall_sem_open run_call
  syscall_sem_open-IsSound registers k v =
      run_call-AllValid (opens (string_at k (registers 13)) (registers 12 % 2 ^ 16)) k (omega arith)
        v

  pub syscall_sem_close-IsSound : IsSound syscall_sem_close
  unfolding syscall_sem_close run_call
  syscall_sem_close-IsSound registers k v =
      run_call-AllValid (closes (int_of_u64 (registers 13))) k tt v

  pub syscall_sem_post-IsSound : IsSound syscall_sem_post
  unfolding syscall_sem_post run_call
  syscall_sem_post-IsSound registers k v =
      run_call-AllValid (posts (int_of_u64 (registers 13))) k tt v

  pub syscall_sem_wait-IsSound :
      (es : List (System M → System M)) → All Keeps es → IsSound (syscall_sem_wait es)
  unfolding syscall_sem_wait run_call
  syscall_sem_wait-IsSound es h registers k v =
      with_outcome-Sound registers (sem_wait es (int_of_u64 (registers 13)) k)
        (run_call-AllValid (waits es (int_of_u64 (registers 13))) k h v)
