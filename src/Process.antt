-- ===== src/Process.antt =====
-- Kernel/process/process.c: creating, killing and waiting for processes. The lookups in the process
-- table are in ProcessTable.antt. `mm` is the memory manager, and `trampoline` the address of
-- `process_exit_trampoline`.
pub mod WaitName
pub mod Priority
pub mod Lifecycle
pub mod Semaphores
use mathlib.Core.List.{reverse}
use tp_so.Prelude.{
  ℕ, zero, suc, ◌+◌, ◌-◌, ◌*◌, ◌/◌, ◌%◌, ◌^◌, ◌≡◌, Option, some, none, Bool, true, false, ◌&&◌, not,
  ltb, ◌==◌, List, [], ◌∷◌, ◌++◌, take, length, ℤ, pos, negsuc, minus_one, eq_ℤ, index, update,
  on_some, is_some, if◌then◌else◌,
}
use tp_so.Machine.{
  Pcb, System, ready, killed, eq_state, state_of, on_proc, max_processes, priority_levels,
  max_process_name, stack_size,
}
use tp_so.Memory.{Manager}
use tp_so.ProcessTable.{get_free_pcb, get_process_by_pid, get_current_pid, int_of_u64, u64_of_int}
use tp_so.Scheduler.{enqueue, dequeue, free_pcb_resources, points_to}
use tp_so.Sem.{
  Outcome, returns, asleep, fault, sem_open, sem_post, sem_close, sem_wait, sem_remove_pid,
}

-- `while (n > 0) { tmp[i++] = '0' + n % 10; n /= 10; }` with fuel: the digits from the last one on.
unfoldable pub low_digits : ℕ → ℕ → List ℕ
low_digits zero n = []
low_digits (suc fuel) n =
    let rest = low_digits fuel (n / 10) in if n == 0 then [] else (b'0' + n % 10) ∷ rest

-- A 64-bit number has at most 20 digits.
unfoldable pub uint64_to_dec_str : ℕ → List ℕ
unfolding low_digits
uint64_to_dec_str n = if n == 0 then b'0' ∷ [] else reverse (low_digits 20 n)

abbrev pub wait_prefix : List ℕ
wait_prefix = b'w' ∷ b'a' ∷ b'i' ∷ b't' ∷ b'_' ∷ []

unfoldable pub wait_sem_name : ℕ → List ℕ
unfolding uint64_to_dec_str
wait_sem_name pid = wait_prefix ++ uint64_to_dec_str pid

-- `for (i; i < MAX_PROCESS_NAME - 1 && name[i]; i++) pcb->name[i] = name[i];`
unfoldable pub copy_name : List ℕ → List ℕ
copy_name name = take (max_process_name - 1) name

unfoldable pub checked_priority : ℤ → ℤ
checked_priority p = if is_some (index p priority_levels) then p else pos 2

-- The bytes of the strings of `argv` with their terminators; a NULL entry is an empty string.
abbrev pub c_string : Option (List ℕ) → List ℕ
c_string none = 0 ∷ []
c_string (some s) = s ++ (0 ∷ [])

unfoldable pub strings_size : List (Option (List ℕ)) → ℕ
strings_size [] = 0
strings_size (s ∷ ss) = length (c_string s) + strings_size ss

unfoldable pub align16 : ℕ → ℕ
align16 n = if n % 16 == 0 then n else n + (16 - n % 16)

-- The pointers, each to where its string starts, and NULL behind the last.
unfoldable pub argv_pointers : ℕ → List (Option (List ℕ)) → List ℕ
argv_pointers at [] = 0 ∷ []
argv_pointers at (s ∷ ss) = at ∷ argv_pointers (at + length (c_string s)) ss

unfoldable pub argv_bytes : List (Option (List ℕ)) → List ℕ
argv_bytes [] = []
argv_bytes (s ∷ ss) = c_string s ++ argv_bytes ss

-- Consecutive entries of memory, `step` bytes apart.
unfoldable pub store : ℕ → ℕ → List ℕ → (ℕ → ℕ) → ℕ → ℕ
store step at [] m = m
store step at (x ∷ xs) m = store step (at + step) xs (update m at x)

-- The 20 words of the first stack frame.
unfoldable pub first_frame : ℕ → ℕ → ℕ → ℕ → List ℕ
first_frame entry stack argc argv =
    0
    ∷ 0
    ∷ 0
    ∷ 0
    ∷ 0
    ∷ 0
    ∷ 0
    ∷ 0
    ∷ argv
    ∷ argc
    ∷ 0
    ∷ 0
    ∷ 0
    ∷ 0
    ∷ 0
    ∷ entry
    ∷ 0x08
    ∷ 0x202
    ∷ (stack + stack_size - 8)
    ∷ 0
    ∷ []

module _ {M : Type 0} (mm : Manager M) where
  -- The buffer and the string in it, or NULL.
  unfoldable pub build_wait_sem_name : ℕ → System M → Option (ℕ × List ℕ) × System M
  unfolding wait_sem_name
  build_wait_sem_name pid k =
      let a = mm.alloc (6 + length (uint64_to_dec_str pid)) k.mm in
      let k1 = record k { mm = a.1 } in
      if pid == 0
      then (none, k)
      else if a.0 == 0
      then (none, k1)
      else (some (a.0, wait_sem_name pid), k1)

  abbrev pub free_at : ℕ → System M → System M
  free_at p k = record k { mm = mm.free p k.mm }

  -- Post the semaphore `sem_open` returned, and give up the reference, if there is one.
  unfoldable pub post_and_close : ℤ → System M → System M
  post_and_close (pos i) k = (sem_close (pos i) (sem_post (pos i) k).1).1
  post_and_close (negsuc n) k = k

  unfoldable pub signal_exit_named : Option (ℕ × List ℕ) → System M → System M
  signal_exit_named none k = k
  signal_exit_named (some (p, name)) k =
      let r = sem_open (some name) 0 k in free_at p (post_and_close r.0 r.1)

  -- What `kill_process` and `exit_current_process` do first: wake who waits for the process.
  unfoldable pub signal_exit : ℕ → System M → System M
  unfolding signal_exit_named build_wait_sem_name
  signal_exit pid k = let r = build_wait_sem_name pid k in signal_exit_named r.0 r.1

  -- A PCB goes out of the table at once, unless it is the running process's.
  unfoldable pub kill_slot : ℕ → System M → System M
  kill_slot p k =
      if points_to k.current p
      then on_proc p (λ x. record x { state = killed }) k
      else let k1 = if eq_state (state_of k p) ready then dequeue p k else k in
        free_pcb_resources mm.free (some p) (on_proc p (λ x. record x { state = killed }) k1)

  unfoldable pub kill_process : ℕ → System M → System M
  unfolding kill_slot signal_exit
  kill_process pid k =
      on_some (get_process_by_pid pid k)
        (λ p.
          if eq_state (state_of k p) killed
          then k
          else if pid == k.shell_pid
          then k
          else kill_slot p (sem_remove_pid (int_of_u64 pid) (signal_exit pid k)))
        k

  unfoldable pub exit_current_process : System M → System M
  unfolding signal_exit
  exit_current_process k =
      on_some k.current
        (λ p. on_proc p (λ x. record x { state = killed }) (signal_exit (k.procs p).pid k)) k

  -- The processes that Ctrl+C kills, and how many.
  unfoldable pub kill_foreground_from : ℕ → ℕ → System M → ℕ × System M
  kill_foreground_from zero i k = (0, k)
  kill_foreground_from (suc n) i k =
      let x = k.procs i in
      let hit =
        not (eq_state x.state killed)
        && (not (x.pid == 0) && (eq_ℤ x.foreground (pos 1) && not (x.pid == k.shell_pid))) in
      let r = kill_foreground_from n (suc i) (if hit then kill_process x.pid k else k) in
      ((if hit then suc r.0 else r.0), r.1)

  unfoldable pub kill_foreground_process : System M → ℕ × System M
  kill_foreground_process k = kill_foreground_from max_processes 0 k

  -- What is left of `wait_child` once `sem_wait` returns.
  unfoldable pub close_twice : ℤ → Outcome M → Outcome M
  close_twice id (returns r k) = returns (pos 0) (sem_close id (sem_close id k).1).1
  close_twice id (asleep k) = asleep k
  close_twice id fault = fault

  unfoldable pub wait_on : List (System M → System M) → ℤ → System M → Outcome M
  wait_on es (pos i) k = close_twice (pos i) (sem_wait es (pos i) k)
  wait_on es (negsuc n) k = returns (pos 0) k

  unfoldable pub wait_named :
      List (System M → System M) → Option (ℕ × List ℕ) → System M → Outcome M
  wait_named es none k = returns (pos 0) k
  wait_named es (some (p, name)) k =
      let r = sem_open (some name) 0 k in wait_on es r.0 (free_at p r.1)

  unfoldable pub wait_child : List (System M → System M) → ℕ → System M → Outcome M
  unfolding wait_named build_wait_sem_name
  wait_child es pid k = let r = build_wait_sem_name pid k in wait_named es r.0 r.1

  module _ (trampoline : ℕ) where
    -- The arguments' block, its address for the PCB, and what registers 9 and 8 start with.
    unfoldable pub place_argv : ℕ → List (Option (List ℕ)) → System M → (ℕ × ℕ × ℕ) × System M
    place_argv argc argv k =
        let table = (argc + 1) * 8 in
        let a = mm.alloc (align16 (table + strings_size argv)) k.mm in
        let k1 = record k { mm = a.1 } in
        if a.0 == 0 then ((0, 0, 0), k1) else (
          (a.0, argc, a.0),
          record k1 {
            words = store 8 a.0 (argv_pointers (a.0 + table) argv) k1.words;
            bytes = store 1 (a.0 + table) (argv_bytes argv) k1.bytes;
          },
        )

    unfoldable pub place_args :
        ℤ → Option (List (Option (List ℕ))) → System M → (ℕ × ℕ × ℕ) × System M
    unfolding place_argv
    place_args (pos argc) (some argv) k =
        if ltb 0 argc then place_argv argc (take argc argv) k else ((0, 0, 0), k)
    place_args _ _ k = ((0, 0, 0), k)

    -- The new PCB, before its arguments and its stack pointer are set.
    unfoldable pub new_pcb : ℕ → ℕ → List ℕ → ℤ → ℤ → System M → Pcb → Pcb
    unfolding copy_name
    new_pcb pid stack name priority foreground k x = record x {
      pid = pid;
      name = copy_name name;
      state = ready;
      priority = priority;
      foreground = foreground;
      stack_base = stack;
      parent_pid = u64_of_int (get_current_pid k);
      next = none;
      prev = none;
      argv_data = 0;
      fd_in = minus_one;
      fd_out = minus_one;
      waiting_pipe = minus_one;
    }

    unfoldable pub wait_sem_named : Option (ℕ × List ℕ) → System M → System M
    wait_sem_named none k = k
    wait_sem_named (some (p, name)) k = free_at p (sem_open (some name) 0 k).1

    -- The semaphore on which `wait_child` will wait.
    unfoldable pub open_wait_sem : ℕ → System M → System M
    unfolding wait_sem_named build_wait_sem_name
    open_wait_sem pid k = let r = build_wait_sem_name pid k in wait_sem_named r.0 r.1

    -- The frame, the stack pointers, and what follows, with the arguments in place.
    unfoldable pub start_process : ℕ → ℕ → ℕ → ℕ → (ℕ × ℕ × ℕ) × System M → ℤ × System M
    unfolding first_frame open_wait_sem
    start_process p pid stack entry r =
        let args = r.0 in
        let k = r.1 in
        let top = stack + stack_size in
        let frame = top - 8 * 21 in
        let k1 = record k {
          words =
              store 8 frame (first_frame entry stack args.1 args.2)
                (update k.words (top - 8) trampoline);
        } in
        let k2 = on_proc p (λ x. record x { rsp = frame; rbp = top - 8; argv_data = args.0 }) k1 in
        (int_of_u64 pid, open_wait_sem pid (enqueue p k2))

    unfoldable pub create_in :
        ℕ → ℕ → List ℕ → ℤ → ℤ → ℤ → Option (List (Option (List ℕ))) → System M → ℤ × System M
    unfolding start_process place_args new_pcb
    create_in p entry name priority foreground argc argv k =
        let a = mm.alloc stack_size k.mm in
        let pid = k.next_pid in
        let k1 = record k { mm = a.1; next_pid = (pid + 1) % 2 ^ 64 } in
        let named = on_proc p (λ x. record x { pid = pid }) k1 in
        let k2 = on_proc p (new_pcb pid a.0 name priority foreground named) k1 in
        if a.0 == 0
        then (minus_one, record k { mm = a.1 })
        else start_process p pid a.0 entry (place_args argc argv k2)

    unfoldable pub create_process :
        ℕ → List ℕ → ℤ → ℤ → ℤ → Option (List (Option (List ℕ))) → System M → ℤ × System M
    unfolding create_in checked_priority
    create_process entry name priority foreground argc argv k =
        on_some (get_free_pcb k)
          (λ p. create_in p entry name (checked_priority priority) foreground argc argv k)
          (minus_one, k)

module _ {M : Type 0} where
  -- A READY process changes its queue with its priority.
  unfoldable pub change_priority : ℤ → ℕ → System M → System M
  change_priority priority p k =
      if eq_state (state_of k p) ready && not (eq_ℤ (k.procs p).priority priority)
      then enqueue p (on_proc p (λ x. record x { priority = priority }) (dequeue p k))
      else on_proc p (λ x. record x { priority = priority }) k

  unfoldable pub set_process_priority : ℕ → ℤ → System M → ℤ × System M
  set_process_priority pid priority k =
      on_some (index priority priority_levels)
        (λ _.
          on_some (get_process_by_pid pid k)
            (λ p.
              if eq_state (state_of k p) killed
              then (minus_one, k)
              else (pos 0, change_priority priority p k))
            (minus_one, k))
        (minus_one, k)

  unfoldable pub set_shell_pid : ℕ → System M → System M
  set_shell_pid pid k = record k { shell_pid = pid }
