-- ===== src/Syscall/Sound.antt =====
-- Kernel/syscall/syscall.c as a whole and the invariant of Sem/Validity.antt: the dispatch of every call
-- number, with any registers.
use tp_so.Prelude.{
  ◌≡◌, ◌≤◌, ◌<◌, ◌⊎◌, inl, inr, refl, some, false, ℤ, arith, length, ltb→lt, ℕ, zero, suc, ◌-◌, ◌^◌,
  List, [], ◌∷◌, pos, All, if_elim, on_some_elim, ltb, ◌==◌,
}
use tp_so.Machine.{System, Pcb}
use tp_so.Memory.{Manager}
use tp_so.ProcessTable.{ProcessInfo, int_of_u64}
use tp_so.Scheduler.{yield_process}
use tp_so.Sem.Validity.{AllValid, Keeps}
use tp_so.Pipe.{pipe_write}
use tp_so.Pipe.Semaphores.{pipe_write-AllValid}
use tp_so.Process.{wait_child}
use tp_so.Process.Semaphores.{
  create_process-AllValid, kill_process-AllValid, exit_current-AllValid, wait_child-AllValid,
}
use tp_so.Syscall.{
  Reply, string_at, string_from, argv_at, redirected, max_syscalls, syscall_getpid,
  syscall_sem_value,
}
use tp_so.Syscall.Table.{
  Meanwhile, syscall_mm_alloc, syscall_mm_free, syscall_mm_state, syscall_create_process,
  syscall_exit, syscall_ps, syscall_kill, syscall_waitpid, syscall_read, syscall_write, write_pipe,
  kernel_handlers, row, handler, syscall_handler,
}
use tp_so.Syscall.Semaphores.{
  EndsSound, IsSound, with_outcome-Sound, with_pipe-Sound, read_line-Sound, syscall_block-IsSound,
  syscall_set_fd-IsSound, syscall_nice-IsSound, syscall_unblock-IsSound, syscall_yield-IsSound,
  syscall_pipe_create-IsSound, syscall_pipe_open-IsSound, syscall_pipe_close-IsSound,
  syscall_sem_open-IsSound, syscall_sem_close-IsSound, syscall_sem_post-IsSound,
  syscall_sem_wait-IsSound,
}

-- Whatever happens meanwhile keeps the semaphores valid.
pub record KeepsSound {M : Type 0} (w : Meanwhile M) : Type 0 where
  pub events : All Keeps w.events
  pub by_byte : (n : ℕ) → All Keeps (w.by_byte n)
  pub halted : Keeps w.halted

-- The current process has this one of its two files in a pipe.
abbrev pub IsRedirected : {M : Type 0} → (Pcb → ℤ) → System M → Type 0
IsRedirected fd k = (c : ℕ) × ((i : ℕ) × ((k.current ≡ some c) × (fd (k.procs c) ≡ pos i)))

redirected-some :
    {M : Type 0} (fd : Pcb → ℤ) (k : System M) (r : IsRedirected fd k)
    → redirected fd k ≡ some r.1.0
unfolding redirected
redirected-some fd k (c, (i, (e, d))) = rw (e, d) refl

-- A call that works on processes, pipes, semaphores or memory, not on a device.
abbrev pub IsKernelCall : {M : Type 0} → ℕ → System M → Type 0
IsKernelCall rax k =
    (18 ≤ rax)
    ⊎ (((rax ≡ 0) × IsRedirected (λ x. x.fd_in) k) ⊎ ((rax ≡ 1) × IsRedirected (λ x. x.fd_out) k))

module _ {M : Type 0} (mm : Manager M) (trampoline : ℕ)
    (layout : ℕ → List ProcessInfo → (ℕ → ℕ) → ℕ → ℕ)
    (device : ℕ → (ℕ → ℕ) → System M → Reply M) where
  abbrev Params :
      {A : Type 0}
      → (Manager M
          → ℕ
          → (ℕ → List ProcessInfo → (ℕ → ℕ) → ℕ → ℕ)
          → (ℕ → (ℕ → ℕ) → System M → Reply M)
          → A)
      → A
  Params f = f mm trampoline layout device

  mm_state-IsSound : IsSound (Params syscall_mm_state)
  unfolding syscall_mm_state
  mm_state-IsSound registers k v = if_elim EndsSound (registers 13 == 0) (λ _. v) (λ _. v)

  mm_alloc-IsSound : IsSound (Params syscall_mm_alloc)
  unfolding syscall_mm_alloc
  mm_alloc-IsSound registers k v = v

  mm_free-IsSound : IsSound (Params syscall_mm_free)
  unfolding syscall_mm_free
  mm_free-IsSound registers k v = v

  getpid-IsSound : IsSound {M = M} syscall_getpid
  unfolding syscall_getpid
  getpid-IsSound registers k v = v

  sem_value-IsSound : IsSound {M = M} syscall_sem_value
  unfolding syscall_sem_value
  sem_value-IsSound registers k v = v

  create-IsSound : IsSound (Params syscall_create_process)
  unfolding syscall_create_process
  create-IsSound registers k v =
      let name = string_from (2 ^ 64) k.bytes (registers 12) in
      let argc = int_of_u64 (registers 9) in
      create_process-AllValid mm trampoline (registers 13) name (int_of_u64 (registers 11))
        (int_of_u64 (registers 8)) argc (argv_at k argc (registers 6)) k v

  exit-IsSound : IsSound (Params syscall_exit)
  unfolding syscall_exit yield_process
  exit-IsSound registers k v = exit_current-AllValid mm k v

  ps-IsSound : IsSound (Params syscall_ps)
  unfolding syscall_ps
  ps-IsSound registers k v = if_elim EndsSound (registers 13 == 0) (λ _. v) (λ _. v)

  kill-IsSound : IsSound (Params syscall_kill)
  unfolding syscall_kill
  kill-IsSound registers k v = kill_process-AllValid mm (registers 13) k v

  module _ (w : Meanwhile M) (h : KeepsSound w) where
    waitpid-IsSound : IsSound (Params syscall_waitpid w.events)
    unfolding syscall_waitpid
    waitpid-IsSound registers k v =
        with_outcome-Sound registers (wait_child mm w.events (registers 13) k)
          (wait_child-AllValid mm w.events (registers 13) k h.events v)

    read_redirected-Sound :
        (registers : ℕ → ℕ) (k : System M)
        → IsRedirected (λ x. x.fd_in) k
        → AllValid k.sems
        → EndsSound (Params syscall_read w.by_byte registers k)
    unfolding syscall_read
    read_redirected-Sound registers k r v =
        rw (redirected-some (λ x. x.fd_in) k r)
          (read_line-Sound 255 w.by_byte registers (registers 13) (pos r.1.0) 0 k h.by_byte v)

    write_pipe-Sound :
        (registers : ℕ → ℕ) (i : ℕ) (k : System M)
        → AllValid k.sems
        → EndsSound (Params write_pipe w.events registers i k)
    unfolding write_pipe
    write_pipe-Sound registers i k v =
        on_some_elim EndsSound (string_at k (registers 12))
          (λ str _.
            with_pipe-Sound registers (pipe_write w.events (pos i) str k)
              (pipe_write-AllValid w.events (pos i) str k h.events v))
          (λ _. v)

    write_redirected-Sound :
        (registers : ℕ → ℕ) (k : System M)
        → IsRedirected (λ x. x.fd_out) k
        → AllValid k.sems
        → EndsSound (Params syscall_write w.events registers k)
    unfolding syscall_write
    write_redirected-Sound registers k r v =
        rw (redirected-some (λ x. x.fd_out) k r) (write_pipe-Sound registers r.1.0 k v)

    rows-IsSound : All IsSound (Params kernel_handlers w)
    rows-IsSound = search (
      mm_alloc-IsSound,
      mm_free-IsSound,
      mm_state-IsSound,
      create-IsSound,
      exit-IsSound,
      getpid-IsSound,
      ps-IsSound,
      kill-IsSound,
      syscall_nice-IsSound,
      syscall_block-IsSound,
      syscall_unblock-IsSound,
      syscall_yield-IsSound w.halted h.halted,
      syscall_pipe_create-IsSound,
      syscall_pipe_open-IsSound,
      syscall_pipe_close-IsSound,
      syscall_set_fd-IsSound,
      syscall_sem_open-IsSound,
      syscall_sem_close-IsSound,
      syscall_sem_wait-IsSound w.events h.events,
      syscall_sem_post-IsSound,
      sem_value-IsSound,
      waitpid-IsSound,
    )

    row-IsSound :
        (rax : ℕ) (hs : List ((ℕ → ℕ) → System M → Reply M)) (n : ℕ)
        → n < length hs
        → All IsSound hs
        → IsSound (Params row rax hs n)
    row-IsSound rax [] n l a = absurd (omega arith)
    row-IsSound rax (f ∷ fs) zero l a = a.0
    row-IsSound rax (f ∷ fs) (suc n) l a = row-IsSound rax fs n (omega arith) a.1

    handler-Sound :
        (rax : ℕ) (registers : ℕ → ℕ) (k : System M)
        → rax < 40
        → IsKernelCall rax k
        → AllValid k.sems
        → EndsSound (Params handler w rax registers k)
    unfolding handler
    handler-Sound rax registers k l (inl b) v =
        let z : (rax == 0) ≡ false = ground arith in
        let o : (rax == 1) ≡ false = ground arith in
        let d : ltb rax 18 ≡ false = ground arith in
        rw (z, o, d)
          (row-IsSound rax (Params kernel_handlers w) (rax - 18) (omega arith) rows-IsSound
            registers k v)
    handler-Sound rax registers k l (inr (inl (e, r))) v =
        rw e (read_redirected-Sound registers k r v)
    handler-Sound rax registers k l (inr (inr (e, r))) v =
        rw e (write_redirected-Sound registers k r v)

    -- Every system call on the kernel's own state, from any state where the semaphores are valid and with
    -- any registers, ends or sleeps in such a state: no process waits on an active semaphore with a
    -- positive value, every lock is released, and the counters fit in 16 bits. These are the numbers from
    -- 18 on, numbers that are no call included, and reading and writing where the current process has its
    -- input or output in a pipe. What happens while a call sleeps is assumed to keep the semaphores valid; a
    -- wait with no process running, which reads through NULL, is left out.
    pub syscall_handler-AllValid :
        (rax : ℕ) (registers : ℕ → ℕ) (k : System M)
        → IsKernelCall rax k
        → AllValid k.sems
        → EndsSound (syscall_handler mm trampoline layout device w rax registers k)
    unfolding syscall_handler
    syscall_handler-AllValid rax registers k c v =
        if_elim EndsSound (ltb rax max_syscalls)
          (λ e. handler-Sound rax registers k (ltb→lt rax max_syscalls e) c v) (λ _. v)
