-- ===== src/Userland/Calls.antt =====
-- What each call of Userland/shell/lib/syscall_call.c comes to in the kernel: the function of
-- process.c, scheduler.c, sem.c or pipe.c that it names, with the program's arguments.
use tp_so.Prelude.{
  ℕ, ◌%◌, ◌^◌, ◌<◌, ◌≡◌, refl, Bool-cases, inl, inr, List, [], ◌∷◌, ℤ, pos, negsuc, minus_one,
  unsigned, index, ◌==◌, on_some, length, arith, if◌then◌else◌,
}
use tp_so.Machine.{System}
use tp_so.Memory.{Manager}
use tp_so.ProcessTable.{
  ProcessInfo, int_of_u64, u64_of_int, get_current_pid, get_process_by_pid, get_process_list,
}
use tp_so.Scheduler.{yield_process, unblock_process}
use tp_so.Sem
use tp_so.Sem.{Outcome}
use tp_so.Pipe
use tp_so.Process
use tp_so.Syscall.{Reply, string_from, string_at, argv_at, with_outcome, block_slot, blocked_pid}
use tp_so.Syscall
use tp_so.Syscall.Table
use tp_so.Syscall.Table.{Meanwhile}
use tp_so.Userland.{Cpu, Answer, gives, sleeps, faults, UserCall, answer_of, invoke}
use tp_so.Userland

-- The values of a C int.
abbrev pub IsInt : ℤ → Type 0
IsInt (pos n) = n < 2 ^ 31
IsInt (negsuc n) = n < 2 ^ 31

pub int_of_u64-u64_of_int : (z : ℤ) → IsInt z → int_of_u64 (u64_of_int z) ≡ z
unfolding int_of_u64 u64_of_int
int_of_u64-u64_of_int (pos n) h = ground arith
int_of_u64-u64_of_int (negsuc n) h = ground arith

u64_of_int-unsigned16 : (z : ℤ) → IsInt z → u64_of_int z % 2 ^ 16 ≡ unsigned 16 z
unfolding u64_of_int unsigned
u64_of_int-unsigned16 (pos n) h = refl
u64_of_int-unsigned16 (negsuc n) h = omega arith

-- The C types of the arguments.
abbrev pub HasInts : UserCall → Type 0
HasInts (UserCall.create_process entry name priority foreground argc argv) =
    IsInt priority × IsInt foreground × IsInt argc
HasInts (UserCall.ps buf max_count) = IsInt max_count
HasInts (UserCall.nice pid new_priority) = IsInt new_priority
HasInts (UserCall.pipe_close pipe_id side) = IsInt pipe_id × IsInt side
HasInts (UserCall.set_fd fd_index pipe_id) = IsInt fd_index × IsInt pipe_id
HasInts (UserCall.sem_open name value) = IsInt value
HasInts (UserCall.sem_close sem_id) = IsInt sem_id
HasInts (UserCall.sem_wait sem_id) = IsInt sem_id
HasInts (UserCall.sem_post sem_id) = IsInt sem_id
HasInts (UserCall.sem_value sem_id) = IsInt sem_id
HasInts _ = Unit {0}

module _ {M : Type 0} where
  -- The answer of a function that returns an int.
  abbrev pub gives_int : ℤ × System M → Answer M
  gives_int r = gives (u64_of_int r.0) r.1

  unfoldable pub outcome_answer : Outcome M → Answer M
  outcome_answer (Outcome.returns r k) = gives (u64_of_int r) k
  outcome_answer (Outcome.asleep k) = sleeps k
  outcome_answer Outcome.fault = faults

  answer-outcome :
      (registers : ℕ → ℕ) (o : Outcome M) → answer_of (with_outcome registers o) ≡ outcome_answer o
  unfolding with_outcome outcome_answer
  answer-outcome registers (Outcome.returns r k) = refl
  answer-outcome registers (Outcome.asleep k) = refl
  answer-outcome registers Outcome.fault = refl

  module _ (mm : Manager M) (trampoline : ℕ) (layout : ℕ → List ProcessInfo → (ℕ → ℕ) → ℕ → ℕ)
      (w : Meanwhile M) where
    -- The kernel's functions, on the arguments as the program gives them.
    unfoldable pub meaning : UserCall → System M → Answer M
    meaning (UserCall.malloc size) k =
        gives (mm.alloc size k.mm).0 (record k { mm = (mm.alloc size k.mm).1 })
    meaning (UserCall.free ptr) k = gives 0 (record k { mm = mm.free ptr k.mm })
    meaning (UserCall.mem_state buf) k =
        let (total, used, free_mem) = mm.state k.mm in
        if buf == 0
        then gives (u64_of_int minus_one) k
        else gives 0
            (record k { words = Process.store 8 buf (total ∷ used ∷ free_mem ∷ []) k.words })
    meaning (UserCall.create_process entry name priority foreground argc argv) k = gives_int (
        Process.create_process mm trampoline entry (string_from (2 ^ 64) k.bytes name) priority
          foreground argc (argv_at k argc argv) k)
    meaning UserCall.exit_process k = gives 0 (yield_process (Process.exit_current_process mm k))
    meaning UserCall.getpid k = gives (u64_of_int (get_current_pid k)) k
    meaning (UserCall.ps buf max_count) k =
        let infos = get_process_list max_count k in
        if buf == 0
        then gives 0 k
        else gives (length infos) (record k { bytes = layout buf infos k.bytes })
    meaning (UserCall.kill_process pid) k = gives 0 (Process.kill_process mm pid k)
    meaning (UserCall.nice pid new_priority) k =
        gives_int (Process.set_process_priority pid new_priority k)
    meaning (UserCall.block pid) k = gives 0 (
        on_some (get_process_by_pid (blocked_pid pid (get_current_pid k)) k) (λ p. block_slot p k)
          k)
    meaning (UserCall.unblock pid) k = gives 0 (unblock_process pid k)
    meaning UserCall.yield k = gives 0 (w.halted (yield_process k))
    meaning UserCall.pipe_create k = gives_int (Pipe.pipe_create k)
    meaning (UserCall.pipe_open name) k = gives_int (Pipe.pipe_open (string_at k name) k)
    meaning (UserCall.pipe_close pipe_id side) k = gives_int (Pipe.pipe_close pipe_id side k)
    meaning (UserCall.set_fd fd_index pipe_id) k = gives_int (
        on_some (index fd_index 2)
          (λ fd. on_some k.current (λ c. (pos 0, Syscall.set_fd fd pipe_id c k)) (minus_one, k))
          (minus_one, k))
    meaning (UserCall.sem_open name value) k =
        gives_int (Sem.sem_open (string_at k name) (unsigned 16 value) k)
    meaning (UserCall.sem_close sem_id) k = gives_int (Sem.sem_close sem_id k)
    meaning (UserCall.sem_wait sem_id) k = outcome_answer (Sem.sem_wait w.events sem_id k)
    meaning (UserCall.sem_post sem_id) k = gives_int (Sem.sem_post sem_id k)
    meaning (UserCall.sem_value sem_id) k = gives_int (Sem.sem_get_value sem_id k, k)
    meaning (UserCall.waitpid pid) k = outcome_answer (Process.wait_child mm w.events pid k)

    module _ (device : ℕ → (ℕ → ℕ) → System M → Reply M) where
      -- Whatever the registers hold, a call of a wrapper of syscall_call.c with arguments of their C types is the
      -- kernel's function of that name on these arguments: the stub's number is the function's row
      -- in the kernel's table, the arguments arrive in order, ints with their signs, and the result
      -- comes back in rax, unless the call sleeps.
      pub invoke-meaning :
          (call : UserCall) (c : Cpu) (k : System M)
          → HasInts call
          → invoke mm trampoline layout device w call c k ≡ meaning call k
      unfolding invoke meaning Userland.stub_number Userland.stub_args Syscall.Table.syscall_handler
          Syscall.Table.syscall_mm_alloc Syscall.Table.syscall_mm_free
          Syscall.Table.syscall_mm_state Syscall.Table.syscall_create_process
          Syscall.Table.syscall_exit Syscall.syscall_getpid Syscall.Table.syscall_ps
          Syscall.Table.syscall_kill Syscall.syscall_nice Syscall.syscall_block
          Syscall.syscall_unblock Syscall.syscall_yield Syscall.syscall_pipe_create
          Syscall.syscall_pipe_open Syscall.syscall_pipe_close Syscall.syscall_set_fd
          Syscall.syscall_sem_open Syscall.syscall_sem_close Syscall.syscall_sem_wait
          Syscall.syscall_sem_post Syscall.syscall_sem_value Syscall.Table.syscall_waitpid
      invoke-meaning (UserCall.malloc size) c k h = refl
      invoke-meaning (UserCall.free ptr) c k h = refl
      invoke-meaning (UserCall.mem_state buf) c k h = elim (Bool-cases (buf == 0)) [
        | inl e ↦ rw e
        | inr e ↦ rw e
      ]
      invoke-meaning (UserCall.create_process entry name priority foreground argc argv) c k h = rw (
        int_of_u64-u64_of_int priority h.0,
        int_of_u64-u64_of_int foreground h.1,
        int_of_u64-u64_of_int argc h.2,
      )
      invoke-meaning UserCall.exit_process c k h = refl
      invoke-meaning UserCall.getpid c k h = refl
      invoke-meaning (UserCall.ps buf max_count) c k h =
          rw (int_of_u64-u64_of_int max_count h)
            (elim (Bool-cases (buf == 0)) [ inl e ↦ rw e | inr e ↦ rw e ])
      invoke-meaning (UserCall.kill_process pid) c k h = refl
      invoke-meaning (UserCall.nice pid new_priority) c k h =
          rw (int_of_u64-u64_of_int new_priority h)
      invoke-meaning (UserCall.block pid) c k h = refl
      invoke-meaning (UserCall.unblock pid) c k h = refl
      invoke-meaning UserCall.yield c k h = refl
      invoke-meaning UserCall.pipe_create c k h = refl
      invoke-meaning (UserCall.pipe_open name) c k h = refl
      invoke-meaning (UserCall.pipe_close pipe_id side) c k h =
          rw (int_of_u64-u64_of_int pipe_id h.0, int_of_u64-u64_of_int side h.1)
      invoke-meaning (UserCall.set_fd fd_index pipe_id) c k h =
          rw (int_of_u64-u64_of_int fd_index h.0, int_of_u64-u64_of_int pipe_id h.1)
      invoke-meaning (UserCall.sem_open name value) c k h = rw (u64_of_int-unsigned16 value h)
      invoke-meaning (UserCall.sem_close sem_id) c k h = rw (int_of_u64-u64_of_int sem_id h)
      invoke-meaning (UserCall.sem_wait sem_id) c k h = rw (
        answer-outcome _ (Sem.sem_wait w.events (int_of_u64 (u64_of_int sem_id)) k),
        int_of_u64-u64_of_int sem_id h,
      )
      invoke-meaning (UserCall.sem_post sem_id) c k h = rw (int_of_u64-u64_of_int sem_id h)
      invoke-meaning (UserCall.sem_value sem_id) c k h = rw (int_of_u64-u64_of_int sem_id h)
      invoke-meaning (UserCall.waitpid pid) c k h =
          answer-outcome _ (Process.wait_child mm w.events pid k)
