-- ===== src/Syscall.antt =====
-- Kernel/syscall/syscall.c: the dispatch on the call's number, and the handlers that work on the
-- kernel's own state. `registers` is the array that the interrupt entry saved: the arguments are in 13,
-- 12, 11, 8, 9 and 6, the result goes into 14.
--
-- The handlers of process creation, memory and the table itself are in Syscall/Table.antt.
-- Parameters there: `mm` and `trampoline` as in Process.antt; `layout` is what storing an array of
-- ProcessInfo does to memory, which the compiler's layout of the struct decides; `device n` is the
-- handler of number `n` where it drives the screen, the keyboard, the clock or the sound (of
-- syscall_read and syscall_write the branch that does). A call that may sleep takes the events that
-- happen meanwhile; `syscall_read` takes a list for each byte.
pub mod Table
pub mod Line
pub mod Console
pub mod Edited
pub mod Typed
pub mod Semaphores
pub mod Sound
use tp_so.Prelude.{
  ℕ, zero, suc, ◌+◌, ◌-◌, ◌*◌, ◌%◌, ◌^◌, ◌≡◌, Option, some, none, Bool, true, false, ◌&&◌, ◌||◌,
  not, ltb, leb, ◌==◌, List, [], ◌∷◌, ◌++◌, length, ℤ, pos, negsuc, minus_one, index, update,
  on_some, if◌then◌else◌,
}
use tp_so.Machine.{System, Pcb, running, ready, blocked, eq_state, state_of, on_proc}
use tp_so.ProcessTable.{get_process_by_pid, get_current_pid, int_of_u64, u64_of_int}
use tp_so.Scheduler.{dequeue, yield_process, unblock_process}
use tp_so.Sem.{Outcome, sem_open, sem_close, sem_wait, sem_post, sem_get_value}
use tp_so.Pipe.{PipeOutcome, pipe_create, pipe_open, pipe_close, pipe_read}
use tp_so.Process.{set_process_priority}

abbrev pub max_syscalls : ℕ
max_syscalls = 40

-- A call comes back with its registers, or sleeps, or reads through NULL.
pub data Reply (M : Type 0) : Type 0 where
  done : (ℕ → ℕ) → System M → Reply M
  waiting : System M → Reply M
  crashed : Reply M

-- `registers[14] = value;`
abbrev pub with_result : (ℕ → ℕ) → ℕ → ℕ → ℕ
with_result registers value = update registers 14 value

-- The characters from an address up to the terminator, of which there is one in 2 ^ 64 bytes.
unfoldable pub string_from : ℕ → (ℕ → ℕ) → ℕ → List ℕ
string_from zero m at = []
string_from (suc n) m at = elim (m at == 0) [ true ↦ [] | false ↦ m at ∷ string_from n m (at + 1) ]

-- Number 0 is the caller, if it has a positive pid.
unfoldable pub blocked_pid : ℕ → ℤ → ℕ
blocked_pid zero (pos cur) = cur
blocked_pid zero (negsuc n) = zero
blocked_pid (suc pid) cur = suc pid

module _ {M : Type 0} where
  -- A `char *` argument.
  unfoldable pub string_at : System M → ℕ → Option (List ℕ)
  unfolding string_from
  string_at k at = if at == 0 then none else some (string_from (2 ^ 64) k.bytes at)

  -- A `char **` argument of which `argc` entries are read.
  unfoldable pub strings_at : System M → ℕ → ℕ → List (Option (List ℕ))
  unfolding string_at
  strings_at k zero at = []
  strings_at k (suc argc) at = string_at k (k.words at) ∷ strings_at k argc (at + 8)

  unfoldable pub argv_at : System M → ℤ → ℕ → Option (List (Option (List ℕ)))
  unfolding strings_at
  argv_at k (pos argc) at = if at == 0 then none else some (strings_at k argc at)
  argv_at k (negsuc n) at = none

  -- `*at = value;`
  abbrev pub poke : ℕ → ℕ → System M → System M
  poke at value k = record k { bytes = update k.bytes at value }

  -- The result of a call that does not sleep.
  abbrev pub with_int : (ℕ → ℕ) → ℤ × System M → Reply M
  with_int registers r = done (with_result registers (u64_of_int r.0)) r.1

  unfoldable pub with_outcome : (ℕ → ℕ) → Outcome M → Reply M
  with_outcome registers (Outcome.returns r k) = done (with_result registers (u64_of_int r)) k
  with_outcome registers (Outcome.asleep k) = waiting k
  with_outcome registers Outcome.fault = crashed

  unfoldable pub with_pipe_outcome : (ℕ → ℕ) → PipeOutcome M → Reply M
  with_pipe_outcome registers (PipeOutcome.returns r out k) =
      done (with_result registers (u64_of_int r)) k
  with_pipe_outcome registers (PipeOutcome.asleep k) = waiting k

  -- What `syscall_read` does with one `pipe_read(pipe_id, &c, 1)`; `next` is the rest of its loop.
  unfoldable pub line_step : (System M → Reply M) → (ℕ → ℕ) → ℕ → ℕ → PipeOutcome M → Reply M
  line_step next registers buf size (PipeOutcome.returns (negsuc n) out k) =
      done (with_result registers 0) (poke buf 0 k)
  line_step next registers buf size (PipeOutcome.returns (pos n) [] k) =
      done (with_result registers size) (poke (buf + size) 0 k)
  line_step next registers buf size (PipeOutcome.returns (pos n) (c ∷ out) k) = elim (c == 10) [
    | true ↦ done (with_result registers (if size == 0 then 1 else size)) (poke (buf + size) 0 k)
    | false ↦ next (poke (buf + size) c k)
  ]
  line_step next registers buf size (PipeOutcome.asleep k) = waiting k

  -- `while (size < 255)`, where `room` is `255 - size`.
  unfoldable pub read_line :
      ℕ → (ℕ → List (System M → System M)) → (ℕ → ℕ) → ℕ → ℤ → ℕ → System M → Reply M
  unfolding line_step
  read_line zero es registers buf id size k =
      done (with_result registers size) (poke (buf + size) 0 k)
  read_line (suc room) es registers buf id size k =
      line_step (read_line room es registers buf id (size + 1)) registers buf size
        (pipe_read (es size) id 1 k)

  -- What the running process, if there is one, has redirected to a pipe.
  unfoldable pub redirected : (Pcb → ℤ) → System M → Option ℕ
  redirected fd k = on_some k.current (λ c. pipe_of (fd (k.procs c))) none
    where
      pipe_of : ℤ → Option ℕ
      pipe_of (pos i) = some i
      pipe_of (negsuc n) = none

  unfoldable pub syscall_getpid : (ℕ → ℕ) → System M → Reply M
  syscall_getpid registers k = with_int registers (get_current_pid k, k)

  unfoldable pub syscall_nice : (ℕ → ℕ) → System M → Reply M
  syscall_nice registers k =
      with_int registers (set_process_priority (registers 13) (int_of_u64 (registers 12)) k)

  unfoldable pub block_slot : ℕ → System M → System M
  block_slot p k =
      if eq_state (state_of k p) running
      then yield_process (on_proc p (λ x. record x { state = blocked }) k)
      else if eq_state (state_of k p) ready
      then on_proc p (λ x. record x { state = blocked }) (dequeue p k)
      else k

  unfoldable pub syscall_block : (ℕ → ℕ) → System M → Reply M
  unfolding block_slot blocked_pid
  syscall_block registers k = done (with_result registers 0) (
      on_some (get_process_by_pid (blocked_pid (registers 13) (get_current_pid k)) k)
        (λ p. block_slot p k) k)

  unfoldable pub syscall_unblock : (ℕ → ℕ) → System M → Reply M
  syscall_unblock registers k = done (with_result registers 0) (unblock_process (registers 13) k)

  -- The event is what happens up to the interrupt that ends the `hlt`.
  unfoldable pub syscall_yield : (System M → System M) → (ℕ → ℕ) → System M → Reply M
  syscall_yield e registers k = done (with_result registers 0) (e (yield_process k))

  unfoldable pub syscall_pipe_create : (ℕ → ℕ) → System M → Reply M
  syscall_pipe_create registers k = with_int registers (pipe_create k)

  unfoldable pub syscall_pipe_open : (ℕ → ℕ) → System M → Reply M
  unfolding string_at
  syscall_pipe_open registers k = with_int registers (pipe_open (string_at k (registers 13)) k)

  unfoldable pub syscall_pipe_close : (ℕ → ℕ) → System M → Reply M
  syscall_pipe_close registers k =
      with_int registers (pipe_close (int_of_u64 (registers 13)) (int_of_u64 (registers 12)) k)

  unfoldable pub syscall_sem_open : (ℕ → ℕ) → System M → Reply M
  unfolding string_at
  syscall_sem_open registers k =
      with_int registers (sem_open (string_at k (registers 13)) (registers 12 % 2 ^ 16) k)

  unfoldable pub syscall_sem_close : (ℕ → ℕ) → System M → Reply M
  syscall_sem_close registers k = with_int registers (sem_close (int_of_u64 (registers 13)) k)

  unfoldable pub syscall_sem_wait : List (System M → System M) → (ℕ → ℕ) → System M → Reply M
  unfolding with_outcome
  syscall_sem_wait es registers k =
      with_outcome registers (sem_wait es (int_of_u64 (registers 13)) k)

  unfoldable pub syscall_sem_post : (ℕ → ℕ) → System M → Reply M
  syscall_sem_post registers k = with_int registers (sem_post (int_of_u64 (registers 13)) k)

  unfoldable pub syscall_sem_value : (ℕ → ℕ) → System M → Reply M
  syscall_sem_value registers k =
      with_int registers (sem_get_value (int_of_u64 (registers 13)) k, k)

  -- `cur->fd[fd_index] = pipe_id;`
  unfoldable pub set_fd : ℕ → ℤ → ℕ → System M → System M
  set_fd zero pipe_id c k = on_proc c (λ x. record x { fd_in = pipe_id }) k
  set_fd (suc n) pipe_id c k = on_proc c (λ x. record x { fd_out = pipe_id }) k

  unfoldable pub syscall_set_fd : (ℕ → ℕ) → System M → Reply M
  unfolding set_fd
  syscall_set_fd registers k = with_int registers (
      on_some (index (int_of_u64 (registers 13)) 2)
        (λ fd.
          on_some k.current (λ c. (pos 0, set_fd fd (int_of_u64 (registers 12)) c k))
            (minus_one, k))
        (minus_one, k))
