-- ===== src/Process/Semaphores.antt =====
-- Kernel/process/process.c and the invariant of Sem/Validity.antt: what the functions that create, kill
-- and await processes do to the semaphores.
use tp_so.Prelude.{
  ℕ, ◌-◌, ◌+◌, ◌*◌, ◌%◌, ◌^◌, update, ◌≡◌, refl, sym, ◌∙◌, subst, Option, none, some, List, ℤ, pos,
  negsuc, length, take, arith, All, if_elim, on_some_elim, index, ltb, ◌==◌, ◌&&◌, not, eq_ℤ,
  if◌then◌else◌,
}
use tp_so.Machine.{System, eq_state, state_of, killed, ready, stack_size, on_proc, priority_levels}
use tp_so.Memory.{Manager}
use tp_so.ProcessTable.{get_process_by_pid, get_free_pcb, int_of_u64}
use tp_so.Scheduler.{
  enqueue, dequeue, unlink, unlink_head, unlink_next, unlink_prev, clear_links, free_pcb_resources,
  free_stack, free_argv, clear_pid, points_to,
}
use tp_so.Scheduler.Frame.{enqueue-SameOutside}
use tp_so.Sem.{
  Outcome, returns, asleep, fault, sem_open, sem_post, sem_close, sem_wait, sem_remove_pid,
}
use tp_so.Sem.Validity.{AllValid, Leaves, Keeps, sem_open-AllValid, sem_remove_pid-AllValid}
use tp_so.Sem.Calls.{run_call, run_call-AllValid, posts, closes, waits}
use tp_so.Process.{
  build_wait_sem_name, post_and_close, signal_exit_named, signal_exit, kill_slot, kill_process,
  exit_current_process, close_twice, wait_on, wait_named, wait_child, place_argv, place_args,
  new_pcb, wait_sem_named, open_wait_sem, start_process, create_in, create_process,
  checked_priority, change_priority, set_process_priority, free_at, store, first_frame,
  strings_size, align16, uint64_to_dec_str,
}

module _ {M : Type 0} where
  abbrev Sound : System M → Type 0
  Sound k = AllValid k.sems

  -- Where the semaphores are the same, so is what holds of them.
  pub Sound-same : (k s : System M) → s.sems ≡ k.sems → Sound k → Sound s
  Sound-same k s e v = subst AllValid (sym e) v

  abbrev SemsOf : System M → System M → Type 0
  SemsOf k s = s.sems ≡ k.sems

  unlink_head-sems : (l p : ℕ) (k : System M) → (unlink_head l p k).sems ≡ k.sems
  unfolding unlink_head
  unlink_head-sems l p k = if_elim (SemsOf k) (points_to (k.queues l) p) (λ _. refl) (λ _. refl)

  unlink_prev-sems : (p : ℕ) (k : System M) → (unlink_prev p k).sems ≡ k.sems
  unfolding unlink_prev
  unlink_prev-sems p k = on_some_elim (SemsOf k) (k.procs p).prev (λ _ _. refl) (λ _. refl)

  unlink_next-sems : (p : ℕ) (k : System M) → (unlink_next p k).sems ≡ k.sems
  unfolding unlink_next
  unlink_next-sems p k = on_some_elim (SemsOf k) (k.procs p).next (λ _ _. refl) (λ _. refl)

  unlink-sems : (l p : ℕ) (k : System M) → (unlink l p k).sems ≡ k.sems
  unfolding unlink clear_links
  unlink-sems l p k =
      unlink_next-sems p (unlink_prev p (unlink_head l p k))
      ∙ unlink_prev-sems p (unlink_head l p k)
      ∙ unlink_head-sems l p k

  pub dequeue-sems : (p : ℕ) (k : System M) → (dequeue p k).sems ≡ k.sems
  unfolding dequeue
  dequeue-sems p k =
      on_some_elim (SemsOf k) (index (k.procs p).priority priority_levels)
        (λ l _. unlink-sems l p k) (λ _. refl)

  pub change_priority-sems :
      (priority : ℤ) (p : ℕ) (k : System M) → (change_priority priority p k).sems ≡ k.sems
  unfolding change_priority
  change_priority-sems priority p k =
      let moved = on_proc p (λ x. record x { priority = priority }) (dequeue p k) in
      if_elim (SemsOf k) (eq_state (state_of k p) ready && not (eq_ℤ (k.procs p).priority priority))
        (λ _. (enqueue-SameOutside p moved).sems ∙ dequeue-sems p k) (λ _. refl)

  pub set_process_priority-sems :
      (pid : ℕ) (priority : ℤ) (k : System M)
      → (set_process_priority pid priority k).1.sems ≡ k.sems
  unfolding set_process_priority
  set_process_priority-sems pid priority k =
      on_some_elim (λ (r : ℤ × System M). SemsOf k r.1) (index priority priority_levels)
        (λ _ _.
          on_some_elim (λ (r : ℤ × System M). SemsOf k r.1) (get_process_by_pid pid k)
            (λ p _.
              if_elim (λ (r : ℤ × System M). SemsOf k r.1) (eq_state (state_of k p) killed)
                (λ _. refl) (λ _. change_priority-sems priority p k))
            (λ _. refl))
        (λ _. refl)

  module _ (free : ℕ → M → M) where
    free_stack-sems : (p : ℕ) (k : System M) → (free_stack free p k).sems ≡ k.sems
    unfolding free_stack
    free_stack-sems p k = if_elim (SemsOf k) ((k.procs p).stack_base == 0) (λ _. refl) (λ _. refl)

    free_argv-sems : (p : ℕ) (k : System M) → (free_argv free p k).sems ≡ k.sems
    unfolding free_argv
    free_argv-sems p k = if_elim (SemsOf k) ((k.procs p).argv_data == 0) (λ _. refl) (λ _. refl)

    free_pcb-sems : (p : ℕ) (k : System M) → (free_pcb_resources free (some p) k).sems ≡ k.sems
    unfolding free_pcb_resources clear_pid
    free_pcb-sems p k = free_argv-sems p (free_stack free p k) ∙ free_stack-sems p k

module _ {M : Type 0} (mm : Manager M) where
  build_wait-sems : (pid : ℕ) (k : System M) → (build_wait_sem_name mm pid k).1.sems ≡ k.sems
  unfolding build_wait_sem_name
  build_wait-sems pid k =
      let a = mm.alloc (6 + length (uint64_to_dec_str pid)) k.mm in
      if_elim (λ (r : Option (ℕ × List ℕ) × System M). r.1.sems ≡ k.sems) (pid == 0) (λ _. refl)
        (λ _.
          if_elim (λ (r : Option (ℕ × List ℕ) × System M). r.1.sems ≡ k.sems) (a.0 == 0) (λ _. refl)
            (λ _. refl))

  post_and_close-AllValid : (z : ℤ) (k : System M) → Sound k → Sound (post_and_close mm z k)
  unfolding post_and_close run_call
  post_and_close-AllValid (pos i) k v =
      run_call-AllValid (closes (pos i)) (sem_post (pos i) k).1 tt
        (run_call-AllValid (posts (pos i)) k tt v)
  post_and_close-AllValid (negsuc n) k v = v

  signal_named-AllValid :
      (o : Option (ℕ × List ℕ)) (k : System M) → Sound k → Sound (signal_exit_named mm o k)
  unfolding signal_exit_named
  signal_named-AllValid none k v = v
  signal_named-AllValid (some (p, name)) k v =
      post_and_close-AllValid (sem_open (some name) 0 k).0 (sem_open (some name) 0 k).1
        (sem_open-AllValid (some name) 0 k (omega arith) v)

  signal_exit-AllValid : (pid : ℕ) (k : System M) → Sound k → Sound (signal_exit mm pid k)
  unfolding signal_exit
  signal_exit-AllValid pid k v =
      let r = build_wait_sem_name mm pid k in
      signal_named-AllValid r.0 r.1 (Sound-same k r.1 (build_wait-sems pid k) v)

  kill_slot-AllValid : (p : ℕ) (k : System M) → Sound k → Sound (kill_slot mm p k)
  unfolding kill_slot
  kill_slot-AllValid p k v =
      let off = if eq_state (state_of k p) ready then dequeue p k else k in
      let unqueued : off.sems ≡ k.sems =
        if_elim (SemsOf k) (eq_state (state_of k p) ready) (λ _. dequeue-sems p k) (λ _. refl) in
      let dead = on_proc p (λ x. record x { state = killed }) off in
      if_elim Sound (points_to k.current p) (λ _. v)
        (λ _.
          Sound-same k (free_pcb_resources mm.free (some p) dead)
            (free_pcb-sems mm.free p dead ∙ unqueued) v)

  -- Killing a process, the guards of `kill_process` included, keeps the semaphores valid.
  pub kill_process-AllValid : (pid : ℕ) (k : System M) → Sound k → Sound (kill_process mm pid k)
  unfolding kill_process
  kill_process-AllValid pid k v =
      on_some_elim Sound (get_process_by_pid pid k)
        (λ p _.
          if_elim Sound (eq_state (state_of k p) killed) (λ _. v)
            (λ _.
              if_elim Sound (pid == k.shell_pid) (λ _. v)
                (λ _.
                  kill_slot-AllValid p (sem_remove_pid (int_of_u64 pid) (signal_exit mm pid k)) (
                    sem_remove_pid-AllValid (int_of_u64 pid) (signal_exit mm pid k)
                      (signal_exit-AllValid pid k v)))))
        (λ _. v)

  pub exit_current-AllValid : (k : System M) → Sound k → Sound (exit_current_process mm k)
  unfolding exit_current_process
  exit_current-AllValid k v =
      on_some_elim Sound k.current (λ p _. signal_exit-AllValid (k.procs p).pid k v) (λ _. v)

  module _ (trampoline : ℕ) where
    wait_sem_named-AllValid :
        (o : Option (ℕ × List ℕ)) (k : System M)
        → Sound k
        → Sound (wait_sem_named mm trampoline o k)
    unfolding wait_sem_named
    wait_sem_named-AllValid none k v = v
    wait_sem_named-AllValid (some (p, name)) k v = sem_open-AllValid (some name) 0 k (omega arith) v

    open_wait-AllValid :
        (pid : ℕ) (k : System M) → Sound k → Sound (open_wait_sem mm trampoline pid k)
    unfolding open_wait_sem
    open_wait-AllValid pid k v =
        let r = build_wait_sem_name mm pid k in
        wait_sem_named-AllValid r.0 r.1 (Sound-same k r.1 (build_wait-sems pid k) v)

    place_argv-sems :
        (argc : ℕ) (argv : List (Option (List ℕ))) (k : System M)
        → (place_argv mm trampoline argc argv k).1.sems ≡ k.sems
    unfolding place_argv
    place_argv-sems argc argv k =
        let a = mm.alloc (align16 ((argc + 1) * 8 + strings_size argv)) k.mm in
        if_elim (λ (r : (ℕ × ℕ × ℕ) × System M). r.1.sems ≡ k.sems) (a.0 == 0) (λ _. refl)
          (λ _. refl)

    place_args-sems :
        (argc : ℤ) (argv : Option (List (Option (List ℕ)))) (k : System M)
        → (place_args mm trampoline argc argv k).1.sems ≡ k.sems
    unfolding place_args
    place_args-sems (pos argc) (some argv) k =
        if_elim (λ (r : (ℕ × ℕ × ℕ) × System M). r.1.sems ≡ k.sems) (ltb 0 argc)
          (λ _. place_argv-sems argc (take argc argv) k) (λ _. refl)
    place_args-sems (pos argc) none k = refl
    place_args-sems (negsuc n) argv k = refl

    start_process-AllValid :
        (p pid stack entry : ℕ) (r : (ℕ × ℕ × ℕ) × System M)
        → Sound r.1
        → Sound (start_process mm trampoline p pid stack entry r).1
    unfolding start_process
    start_process-AllValid p pid stack entry r v =
        let args = r.0 in
        let k = r.1 in
        let top = stack + stack_size in
        let frame = top - 8 * 21 in
        let k1 = record k {
          words =
              store 8 frame (first_frame entry stack args.1 args.2)
                (update k.words (top - 8) trampoline);
        } in
        let k2 = on_proc p (λ x. record x { rsp = frame; rbp = top - 8; argv_data = args.0 }) k1 in
        open_wait-AllValid pid (enqueue p k2)
          (Sound-same k2 (enqueue p k2) (enqueue-SameOutside p k2).sems v)

    create_in-AllValid :
        (p entry : ℕ) (name : List ℕ) (priority foreground argc : ℤ)
        (argv : Option (List (Option (List ℕ)))) (k : System M)
        → Sound k
        → Sound (create_in mm trampoline p entry name priority foreground argc argv k).1
    unfolding create_in
    create_in-AllValid p entry name priority foreground argc argv k v =
        let a = mm.alloc stack_size k.mm in
        let pid = k.next_pid in
        let k1 = record k { mm = a.1; next_pid = (pid + 1) % 2 ^ 64 } in
        let named = on_proc p (λ x. record x { pid = pid }) k1 in
        let k2 = on_proc p (new_pcb mm trampoline pid a.0 name priority foreground named) k1 in
        let placed = place_args mm trampoline argc argv k2 in
        if_elim (λ (r : ℤ × System M). Sound r.1) (a.0 == 0) (λ _. v)
          (λ _.
            start_process-AllValid p pid a.0 entry placed
              (Sound-same k2 placed.1 (place_args-sems argc argv k2) v))

    pub create_process-AllValid :
        (entry : ℕ) (name : List ℕ) (priority foreground argc : ℤ)
        (argv : Option (List (Option (List ℕ)))) (k : System M)
        → Sound k
        → Sound (create_process mm trampoline entry name priority foreground argc argv k).1
    unfolding create_process
    create_process-AllValid entry name priority foreground argc argv k v =
        on_some_elim (λ (r : ℤ × System M). Sound r.1) (get_free_pcb k)
          (λ p _.
            create_in-AllValid p entry name (checked_priority priority) foreground argc argv k v)
          (λ _. v)

  close_twice-AllValid :
      (z : ℤ) (o : Outcome M) → Leaves (λ s. Sound s) o → Leaves (λ s. Sound s) (close_twice mm z o)
  unfolding close_twice run_call
  close_twice-AllValid z (returns r k) v =
      run_call-AllValid (closes z) (sem_close z k).1 tt (run_call-AllValid (closes z) k tt v)
  close_twice-AllValid z (asleep k) v = v
  close_twice-AllValid z fault v = tt

  wait_on-AllValid :
      (es : List (System M → System M)) (z : ℤ) (k : System M)
      → All Keeps es
      → Sound k
      → Leaves (λ s. Sound s) (wait_on mm es z k)
  unfolding wait_on run_call
  wait_on-AllValid es (pos i) k h v =
      close_twice-AllValid (pos i) (sem_wait es (pos i) k)
        (run_call-AllValid (waits es (pos i)) k h v)
  wait_on-AllValid es (negsuc n) k h v = v

  wait_named-AllValid :
      (es : List (System M → System M)) (o : Option (ℕ × List ℕ)) (k : System M)
      → All Keeps es
      → Sound k
      → Leaves (λ s. Sound s) (wait_named mm es o k)
  unfolding wait_named
  wait_named-AllValid es none k h v = v
  wait_named-AllValid es (some (p, name)) k h v =
      let r = sem_open (some name) 0 k in
      wait_on-AllValid es r.0 (free_at mm p r.1) h
        (sem_open-AllValid (some name) 0 k (omega arith) v)

  pub wait_child-AllValid :
      (es : List (System M → System M)) (pid : ℕ) (k : System M)
      → All Keeps es
      → Sound k
      → Leaves (λ s. Sound s) (wait_child mm es pid k)
  unfolding wait_child
  wait_child-AllValid es pid k h v =
      let r = build_wait_sem_name mm pid k in
      wait_named-AllValid es r.0 r.1 h (Sound-same k r.1 (build_wait-sems pid k) v)
