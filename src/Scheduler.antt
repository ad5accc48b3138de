-- ===== src/Scheduler.antt =====
-- Kernel/scheduler/scheduler.c: the ready queues, one doubly linked list of process table entries
-- for each priority, and the choice of the next process. `mm_free` is the memory manager's.
pub mod Chain
pub mod Unlink
pub mod Same
pub mod Queues
pub mod Dequeue
pub mod Enqueue
pub mod Pick
pub mod Free
pub mod Turns
pub mod Switch
pub mod Frame
use tp_so.Prelude.{
  ℕ, zero, suc, ◌+◌, ◌-◌, ◌≡◌, Option, some, none, Bool, true, false, ◌&&◌, ◌||◌, ltb, ◌==◌, ℤ,
  index, update, map_range, on_some, is_some, if◌then◌else◌,
}
use tp_so.ProcessTable.{get_process_by_pid}
use tp_so.Machine.{
  ProcessState, ready, running, blocked, killed, eq_state, Pcb, System, on_proc, state_of,
  max_processes, priority_levels,
}

-- Tests on slot numbers that a pointer comparison makes.
abbrev pub points_to : Option ℕ → ℕ → Bool
points_to none p = false
points_to (some q) p = q == p

-- `while (tail->next) tail = tail->next;` with fuel. A queue without a cycle has at most
-- `max_processes` entries.
unfoldable pub queue_tail : ℕ → (ℕ → Pcb) → ℕ → ℕ
queue_tail zero t p = p
queue_tail (suc fuel) t p = elim (t p).next [ none ↦ p | some q ↦ queue_tail fuel t q ]

-- The queue that `add_to_ready_queue` puts a priority in.
unfoldable pub add_level : ℤ → ℕ
add_level prio = elim (index prio priority_levels) [ none ↦ 2 | some l ↦ l ]

-- `current_process && current_process->state == RUNNING && quantum > 0`
unfoldable pub has_quantum : Option ℕ → (ℕ → Pcb) → ℕ → Bool
has_quantum none t quantum = false
has_quantum (some p) t quantum = eq_state (t p).state running && ltb 0 quantum

module _ {M : Type 0} where
  unfoldable pub init_scheduler : System M → System M
  init_scheduler k = record k {
    queues = map_range priority_levels (λ _. none) k.queues;
    current = none;
    quantum = 0;
    to_free = none;
  }

  -- `tail->next = pcb; pcb->prev = tail;`
  unfoldable pub link_after : ℕ → ℕ → System M → System M
  link_after tail p k =
      on_proc p (λ x. record x { prev = some tail })
        (on_proc tail (λ x. record x { next = some p }) k)

  -- An empty queue gets a head, any other a new last entry.
  unfoldable pub link_last : ℕ → ℕ → System M → System M
  link_last l p k = elim (k.queues l) [
    | none ↦ record k { queues = update k.queues l (some p) }
    | some h ↦ link_after (queue_tail max_processes k.procs h) p k
  ]

  -- `pcb->state = READY; pcb->next = NULL; pcb->prev = NULL;`
  unfoldable pub make_ready : ℕ → System M → System M
  make_ready p k = on_proc p (λ x. record x { state = ready; next = none; prev = none }) k

  unfoldable pub enqueue : ℕ → System M → System M
  enqueue p k =
      if eq_state (state_of k p) killed
      then k
      else link_last (add_level (k.procs p).priority) p (make_ready p k)

  unfoldable pub add_to_ready_queue : Option ℕ → System M → System M
  add_to_ready_queue pcb k = on_some pcb (λ p. enqueue p k) k

  -- `if (pcb->prev) pcb->prev->next = pcb->next;`
  unfoldable pub unlink_prev : ℕ → System M → System M
  unlink_prev p k =
      on_some (k.procs p).prev (λ q. on_proc q (λ x. record x { next = (k.procs p).next }) k) k

  -- `if (pcb->next) pcb->next->prev = pcb->prev;`
  unfoldable pub unlink_next : ℕ → System M → System M
  unlink_next p k =
      on_some (k.procs p).next (λ q. on_proc q (λ x. record x { prev = (k.procs p).prev }) k) k

  -- `if (ready_queues[prio] == pcb) ready_queues[prio] = pcb->next;`
  unfoldable pub unlink_head : ℕ → ℕ → System M → System M
  unlink_head l p k =
      if points_to (k.queues l) p
      then record k { queues = update k.queues l (k.procs p).next }
      else k

  unfoldable pub clear_links : ℕ → System M → System M
  clear_links p k = on_proc p (λ x. record x { next = none; prev = none }) k

  unfoldable pub unlink : ℕ → ℕ → System M → System M
  unfolding clear_links
  unlink l p k = clear_links p (unlink_next p (unlink_prev p (unlink_head l p k)))

  unfoldable pub dequeue : ℕ → System M → System M
  unfolding unlink
  dequeue p k = on_some (index (k.procs p).priority priority_levels) (λ l. unlink l p k) k

  unfoldable pub remove_from_ready_queue : Option ℕ → System M → System M
  remove_from_ready_queue pcb k = on_some pcb (λ p. dequeue p k) k

  unfoldable pub pick_from : ℕ → ℕ → System M → Option ℕ
  pick_from zero l k = none
  pick_from (suc n) l k = elim (k.queues l) [ none ↦ pick_from n (suc l) k | some p ↦ some p ]

  unfoldable pub pick_next_process : System M → Option ℕ
  unfolding pick_from
  pick_next_process k = pick_from priority_levels 0 k

  unfoldable pub block_current_process : System M → System M
  block_current_process k =
      on_some k.current
        (λ p.
          if eq_state (state_of k p) running
          then on_proc p (λ x. record x { state = blocked }) k
          else k)
        k

  unfoldable pub yield_process : System M → System M
  yield_process k = record k { quantum = 0 }

  -- `if (pcb && pcb->state == BLOCKED) add_to_ready_queue(pcb);`
  unfoldable pub wake : ℕ → System M → System M
  wake p k = if eq_state (state_of k p) blocked then enqueue p k else k

  unfoldable pub unblock_process : ℕ → System M → System M
  unblock_process pid k = on_some (get_process_by_pid pid k) (λ p. wake p k) k

  -- `current_process->rsp = current_rsp;`
  unfoldable pub save_rsp : ℕ → ℕ → System M → System M
  save_rsp rsp p k = on_proc p (λ x. record x { rsp = rsp }) k

  -- What `schedule` does with the process that was running: save its stack pointer, and put it
  -- back in its queue, or leave it to be freed at the next call.
  unfoldable pub retire : ℕ → Option ℕ → System M → System M
  retire rsp none k = k
  retire rsp (some p) k =
      if eq_state (state_of k p) running
      then enqueue p (save_rsp rsp p k)
      else if eq_state (state_of k p) killed
      then record (save_rsp rsp p k) { to_free = some p }
      else save_rsp rsp p k

  unfoldable pub retire_current : ℕ → System M → System M
  unfolding retire
  retire_current rsp k = retire rsp k.current k

  -- `remove_from_ready_queue(next); next->state = RUNNING; ...`, with the value returned.
  unfoldable pub dispatch : Option ℕ → System M → ℕ × System M
  dispatch none k = (0, k)
  dispatch (some p) k =
      let k' = on_proc p (λ x. record x { state = running }) (dequeue p k) in
      ((k'.procs p).rsp, record k' { current = some p; quantum = 5 })

  -- The running process keeps the processor for the rest of its quantum.
  unfoldable pub keeps_running : System M → Bool
  unfolding has_quantum
  keeps_running k = has_quantum k.current k.procs k.quantum

  unfoldable pub clear_pid : ℕ → System M → System M
  clear_pid p k = on_proc p (λ x. record x { pid = 0 }) k

  module _ (mm_free : ℕ → M → M) where
    unfoldable pub free_stack : ℕ → System M → System M
    free_stack p k =
        if (k.procs p).stack_base == 0
        then k
        else on_proc p (λ x. record x { stack_base = 0 })
            (record k { mm = mm_free (k.procs p).stack_base k.mm })

    unfoldable pub free_argv : ℕ → System M → System M
    free_argv p k =
        if (k.procs p).argv_data == 0
        then k
        else on_proc p (λ x. record x { argv_data = 0 })
            (record k { mm = mm_free (k.procs p).argv_data k.mm })

    unfoldable pub free_pcb_resources : Option ℕ → System M → System M
    free_pcb_resources pcb k = on_some pcb (λ p. clear_pid p (free_argv p (free_stack p k))) k

    -- `if (to_free) { free_pcb_resources(to_free); to_free = NULL; }`
    unfoldable pub reap_left : Option ℕ → System M → System M
    reap_left none k = k
    reap_left (some p) k = record (free_pcb_resources (some p) k) { to_free = none }

    unfoldable pub reap : System M → System M
    unfolding reap_left
    reap k = reap_left k.to_free k

    -- `while (next && (next->state == KILLED || next->state == BLOCKED))` with fuel: each round
    -- takes one entry out of a queue.
    unfoldable pub next_runnable : ℕ → System M → Option ℕ × System M
    next_runnable zero k = (pick_next_process k, k)
    next_runnable (suc fuel) k = elim (pick_next_process k) [
      | none ↦ (none, k)
      | some p ↦ elim (state_of k p) [
        | killed ↦ next_runnable fuel (free_pcb_resources (some p) (dequeue p k))
        | blocked ↦ next_runnable fuel (dequeue p k)
        | _ ↦ (some p, k)
      ]
    ]

    unfoldable pub schedule : ℕ → System M → ℕ × System M
    schedule current_rsp k =
        let k1 = reap k in
        if keeps_running k1
        then (0, record k1 { quantum = k1.quantum - 1 })
        else let (next, k2) = next_runnable max_processes (retire_current current_rsp k1) in
          dispatch next k2
