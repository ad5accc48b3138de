-- ===== src/Sem.antt =====
-- Kernel/sem/sem.c: named counting semaphores with a queue of waiting processes each.
--
-- `sem_lock` and `sem_unlock` are the two spinlock routines of Kernel/asm/libasm.asm. The lock is
-- free at every entry: the kernel runs them with interrupts disabled on one processor, and each
-- function releases what it takes.
pub mod Validity
pub mod Calls
pub mod Names
pub mod Handover
pub mod Purge
use tp_so.Prelude.{
  ℕ, zero, suc, ◌+◌, ◌-◌, ◌%◌, ◌^◌, Option, some, none, Bool, true, false, ◌&&◌, not, ltb, ◌==◌,
  List, [], ◌∷◌, ◌++◌, take, length, ℤ, pos, minus_one, eq_ℤ, index, map_range, find_from, on_some,
  if◌then◌else◌,
}
use tp_so.Machine.{
  blocked, eq_state, Sem, System, on_sem, state_of, max_sems, max_sem_name, max_blocked,
}
use tp_so.ProcessTable.{get_current_pid, u64_of_int}
use tp_so.Scheduler.{unblock_process, block_current_process, yield_process}

-- The loop over two strings up to the first difference, and the test that both have ended.
unfoldable pub sem_name_eq : List ℕ → List ℕ → Bool
sem_name_eq [] [] = true
sem_name_eq [] (b ∷ ys) = false
sem_name_eq (a ∷ xs) [] = false
sem_name_eq (a ∷ xs) (b ∷ ys) = a == b && sem_name_eq xs ys

unfoldable pub sem_name_copy : List ℕ → List ℕ
sem_name_copy src = take (max_sem_name - 1) src

-- `uint16_t` increment.
abbrev pub incr16 : ℕ → ℕ
incr16 x = (x + 1) % 2 ^ 16

-- What a call that may sleep comes to: it returns, or it sleeps when the listed events are used
-- up, or it reads through a NULL pointer.
pub data Outcome (M : Type 0) : Type 0 where
  returns : ℤ → System M → Outcome M
  asleep : System M → Outcome M
  fault : Outcome M

-- The compaction loop of `sem_remove_pid`: every entry that is `pid` goes.
unfoldable pub remove_pid : ℤ → List ℤ → List ℤ
remove_pid pid [] = []
remove_pid pid (x ∷ xs) = let rest = remove_pid pid xs in if eq_ℤ x pid then rest else x ∷ rest

abbrev pub is_named : List ℕ → Sem → Bool
is_named name s = s.active && sem_name_eq s.name name

-- `if (blocked_count < MAX_BLOCKED) blocked_pids[blocked_count++] = pid;`
unfoldable pub enlist : ℤ → Sem → Sem
enlist pid s = record s {
  blocked_pids =
      (if ltb (length s.blocked_pids) max_blocked
        then s.blocked_pids ++ (pid ∷ [])
        else s.blocked_pids);
}

unfoldable pub take_one : Sem → Sem
take_one s = record s { value = s.value - 1 }

-- `if (users > 0) users--;`
unfoldable pub leave : Sem → Sem
leave s = record s { users = (if ltb 0 s.users then s.users - 1 else s.users) }

unfoldable pub deactivate : Sem → Sem
deactivate s = record s { active = false; blocked_pids = []; name = [] }

abbrev pub sem_lock : Sem → Sem
sem_lock s = record s { lock = 1 }

abbrev pub sem_unlock : Sem → Sem
sem_unlock s = record s { lock = 0 }

-- One round of the outer loop.
unfoldable pub purge : ℤ → Sem → Sem
purge pid s =
    if s.active
    then sem_unlock (record (sem_lock s) { blocked_pids = remove_pid pid s.blocked_pids })
    else s

module _ {M : Type 0} where
  -- A change of one semaphore under its lock.
  abbrev pub locked : ℕ → (Sem → Sem) → System M → System M
  locked i f k = on_sem i (λ s. sem_unlock (f (sem_lock s))) k

  abbrev pub lock_registry : System M → System M
  lock_registry k = record k { registry_lock = 1 }

  abbrev pub unlock_registry : System M → System M
  unlock_registry k = record k { registry_lock = 0 }

  unfoldable pub sem_init : System M → System M
  sem_init k = record k {
    sems =
        map_range max_sems
          (λ s. record s {
            active = false;
            value = 0;
            lock = 0;
            users = 0;
            blocked_pids = [];
            name = [];
          })
          k.sems;
    registry_lock = 0;
  }

  unfoldable pub find_sem : List ℕ → System M → Option ℕ
  find_sem name k = find_from max_sems 0 (λ i. is_named name (k.sems i))

  unfoldable pub free_sem : System M → Option ℕ
  free_sem k = find_from max_sems 0 (λ i. not (k.sems i).active)

  unfoldable pub sem_create : List ℕ → ℕ → ℕ → System M → System M
  sem_create name value i k =
      on_sem i
        (λ s. record s {
          active = true;
          value = value;
          lock = 0;
          users = 1;
          blocked_pids = [];
          name = sem_name_copy name;
        })
        k

  unfoldable pub sem_reopen : ℕ → System M → System M
  sem_reopen i k = on_sem i (λ s. record s { users = incr16 s.users }) k

  unfoldable pub sem_open : Option (List ℕ) → ℕ → System M → ℤ × System M
  sem_open none value k = (minus_one, k)
  sem_open (some name) value k =
      let k1 = lock_registry k in
      on_some (find_sem name k1) (λ i. (pos i, unlock_registry (sem_reopen i k1)))
        (on_some (free_sem k1) (λ i. (pos i, unlock_registry (sem_create name value i k1)))
          (minus_one, unlock_registry k1))

  -- `for (i = 0; i < blocked_count; i++) unblock_process(blocked_pids[i]);`
  unfoldable pub unblock_all : List ℤ → System M → System M
  unblock_all [] k = k
  unblock_all (pid ∷ pids) k = unblock_all pids (unblock_process (u64_of_int pid) k)

  unfoldable pub sem_destroy : ℕ → System M → System M
  unfolding deactivate
  sem_destroy i k = on_sem i deactivate (unblock_all (k.sems i).blocked_pids k)

  unfoldable pub sem_close_at : ℕ → System M → ℤ × System M
  sem_close_at i k =
      let k1 = lock_registry k in
      let k2 = on_sem i leave k1 in
      if (k1.sems i).active
      then (pos 0, unlock_registry (if (k2.sems i).users == 0 then sem_destroy i k2 else k2))
      else (minus_one, unlock_registry k1)

  unfoldable pub sem_close : ℤ → System M → ℤ × System M
  unfolding sem_close_at
  sem_close sem_id k = on_some (index sem_id max_sems) (λ i. sem_close_at i k) (minus_one, k)

  -- The loop `while (cur->state == BLOCKED) { yield_process(); sti; hlt }`. Each event is what
  -- interrupts and other processes do to the state from one `hlt` to the next test.
  unfoldable pub sem_sleep : ℕ → List (System M → System M) → System M → Outcome M
  sem_sleep cur [] k =
      if eq_state (state_of k cur) blocked then asleep (yield_process k) else returns (pos 0) k
  sem_sleep cur (e ∷ es) k =
      let rest = sem_sleep cur es (e (yield_process k)) in
      if eq_state (state_of k cur) blocked then rest else returns (pos 0) k

  unfoldable pub sem_block : List (System M → System M) → Option ℕ → System M → Outcome M
  sem_block es none k = fault
  sem_block es (some cur) k = sem_sleep cur es (block_current_process k)

  unfoldable pub sem_wait_at : List (System M → System M) → ℕ → System M → Outcome M
  unfolding sem_block
  sem_wait_at es i k =
      if (k.sems i).active
      then (if ltb 0 (k.sems i).value
          then returns (pos 0) (locked i take_one k)
          else sem_block es k.current (locked i (enlist (get_current_pid k)) k))
      else returns minus_one k

  unfoldable pub sem_wait : List (System M → System M) → ℤ → System M → Outcome M
  unfolding sem_wait_at
  sem_wait es sem_id k =
      on_some (index sem_id max_sems) (λ i. sem_wait_at es i k) (returns minus_one k)

  -- The first process of the queue is taken out and woken, or the value goes up.
  unfoldable pub sem_release : ℕ → List ℤ → System M → System M
  sem_release i [] k = locked i (λ s. record s { value = incr16 s.value }) k
  sem_release i (pid ∷ pids) k =
      unblock_process (u64_of_int pid) (locked i (λ s. record s { blocked_pids = pids }) k)

  unfoldable pub sem_post_at : ℕ → System M → ℤ × System M
  sem_post_at i k =
      if (k.sems i).active then (pos 0, sem_release i (k.sems i).blocked_pids k) else (minus_one, k)

  unfoldable pub sem_post : ℤ → System M → ℤ × System M
  unfolding sem_post_at
  sem_post sem_id k = on_some (index sem_id max_sems) (λ i. sem_post_at i k) (minus_one, k)

  unfoldable pub sem_get_value : ℤ → System M → ℤ
  sem_get_value sem_id k =
      on_some (index sem_id max_sems)
        (λ i. if (k.sems i).active then pos (k.sems i).value else minus_one) minus_one

  unfoldable pub sem_remove_pid : ℤ → System M → System M
  unfolding purge
  sem_remove_pid pid k = record k { sems = map_range max_sems (purge pid) k.sems }
