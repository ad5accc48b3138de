-- ===== src/Syscall/Table.antt =====
-- The table of handlers of syscall.c, with the handlers that need the memory manager.
use tp_so.Prelude.{
  ℕ, zero, suc, ◌-◌, ◌^◌, ltb, ◌==◌, List, [], ◌∷◌, length, pos, minus_one, on_some, if◌then◌else◌,
}
use tp_so.Machine.{System}
use tp_so.Memory.{Manager}
use tp_so.ProcessTable.{ProcessInfo, get_process_list, int_of_u64}
use tp_so.Scheduler.{yield_process}
use tp_so.Pipe.{pipe_write}
use tp_so.Process.{store, create_process, exit_current_process, kill_process, wait_child}
use tp_so.Syscall.{
  max_syscalls, Reply, done, with_result, string_from, string_at, argv_at, with_int, with_outcome,
  with_pipe_outcome, read_line, redirected, syscall_getpid, syscall_nice, syscall_block,
  syscall_unblock, syscall_yield, syscall_pipe_create, syscall_pipe_open, syscall_pipe_close,
  syscall_sem_open, syscall_sem_close, syscall_sem_wait, syscall_sem_post, syscall_sem_value,
  syscall_set_fd,
}

-- What the rest of the machine does during a call: between the interrupts while it sleeps, and, for
-- `syscall_read`, while it waits for each byte.
pub record Meanwhile (M : Type 0) : Type 0 where
  pub events : List (System M → System M)
  pub by_byte : ℕ → List (System M → System M)
  pub halted : System M → System M

module _ {M : Type 0} (mm : Manager M) (trampoline : ℕ)
    (layout : ℕ → List ProcessInfo → (ℕ → ℕ) → ℕ → ℕ)
    (device : ℕ → (ℕ → ℕ) → System M → Reply M) where
  unfoldable pub syscall_mm_alloc : (ℕ → ℕ) → System M → Reply M
  syscall_mm_alloc registers k =
      let a = mm.alloc (registers 13) k.mm in
      done (with_result registers a.0) (record k { mm = a.1 })

  unfoldable pub syscall_mm_free : (ℕ → ℕ) → System M → Reply M
  syscall_mm_free registers k =
      done (with_result registers 0) (record k { mm = mm.free (registers 13) k.mm })

  unfoldable pub syscall_mm_state : (ℕ → ℕ) → System M → Reply M
  syscall_mm_state registers k =
      let buf = registers 13 in
      let (total, used, free_mem) = mm.state k.mm in
      if buf == 0
      then with_int registers (minus_one, k)
      else done (with_result registers 0)
          (record k { words = store 8 buf (total ∷ used ∷ free_mem ∷ []) k.words })

  unfoldable pub syscall_create_process : (ℕ → ℕ) → System M → Reply M
  unfolding argv_at string_from
  syscall_create_process registers k =
      let name = string_from (2 ^ 64) k.bytes (registers 12) in
      let argc = int_of_u64 (registers 9) in
      with_int registers (
        create_process mm trampoline (registers 13) name (int_of_u64 (registers 11))
          (int_of_u64 (registers 8)) argc (argv_at k argc (registers 6)) k)

  unfoldable pub syscall_exit : (ℕ → ℕ) → System M → Reply M
  syscall_exit registers k =
      done (with_result registers 0) (yield_process (exit_current_process mm k))

  -- With a NULL buffer the list is empty.
  unfoldable pub syscall_ps : (ℕ → ℕ) → System M → Reply M
  syscall_ps registers k =
      let infos = get_process_list (int_of_u64 (registers 12)) k in
      if registers 13 == 0
      then done (with_result registers 0) k
      else done (with_result registers (length infos))
          (record k { bytes = layout (registers 13) infos k.bytes })

  unfoldable pub syscall_kill : (ℕ → ℕ) → System M → Reply M
  syscall_kill registers k = done (with_result registers 0) (kill_process mm (registers 13) k)

  unfoldable pub syscall_waitpid : List (System M → System M) → (ℕ → ℕ) → System M → Reply M
  unfolding with_outcome
  syscall_waitpid es registers k = with_outcome registers (wait_child mm es (registers 13) k)

  unfoldable pub syscall_read : (ℕ → List (System M → System M)) → (ℕ → ℕ) → System M → Reply M
  unfolding read_line redirected
  syscall_read es registers k =
      on_some (redirected (λ x. x.fd_in) k)
        (λ i. read_line 255 es registers (registers 13) (pos i) 0 k) (device 0 registers k)

  -- Writing to a pipe stops at a NULL string.
  unfoldable pub write_pipe : List (System M → System M) → (ℕ → ℕ) → ℕ → System M → Reply M
  unfolding with_pipe_outcome string_at
  write_pipe es registers i k =
      on_some (string_at k (registers 12))
        (λ str. with_pipe_outcome registers (pipe_write es (pos i) str k))
        (done (with_result registers 0) k)

  unfoldable pub syscall_write : List (System M → System M) → (ℕ → ℕ) → System M → Reply M
  unfolding write_pipe redirected
  syscall_write es registers k =
      on_some (redirected (λ x. x.fd_out) k) (λ i. write_pipe es registers i k)
        (device 1 registers k)

  -- Numbers 18 to 39 of the table.
  abbrev pub kernel_handlers : Meanwhile M → List ((ℕ → ℕ) → System M → Reply M)
  kernel_handlers w =
      syscall_mm_alloc
      ∷ syscall_mm_free
      ∷ syscall_mm_state
      ∷ syscall_create_process
      ∷ syscall_exit
      ∷ syscall_getpid
      ∷ syscall_ps
      ∷ syscall_kill
      ∷ syscall_nice
      ∷ syscall_block
      ∷ syscall_unblock
      ∷ syscall_yield w.halted
      ∷ syscall_pipe_create
      ∷ syscall_pipe_open
      ∷ syscall_pipe_close
      ∷ syscall_set_fd
      ∷ syscall_sem_open
      ∷ syscall_sem_close
      ∷ syscall_sem_wait w.events
      ∷ syscall_sem_post
      ∷ syscall_sem_value
      ∷ syscall_waitpid w.events
      ∷ []

  -- The handler in row `n` of a list, or the device's of that number.
  abbrev pub row : ℕ → List ((ℕ → ℕ) → System M → Reply M) → ℕ → (ℕ → ℕ) → System M → Reply M
  row rax [] n = device rax
  row rax (h ∷ hs) zero = h
  row rax (h ∷ hs) (suc n) = row rax hs n

  unfoldable pub handler : Meanwhile M → ℕ → (ℕ → ℕ) → System M → Reply M
  handler w rax =
      if rax == 0
      then syscall_read w.by_byte
      else if rax == 1
      then syscall_write w.events
      else if ltb rax 18
      then device rax
      else row rax (kernel_handlers w) (rax - 18)

  unfoldable pub syscall_handler : Meanwhile M → ℕ → (ℕ → ℕ) → System M → Reply M
  unfolding handler
  syscall_handler w rax registers k =
      if ltb rax max_syscalls
      then handler w rax registers k
      else done (with_result registers (2 ^ 64 - 1)) k
