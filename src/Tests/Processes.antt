-- ===== src/Tests/Processes.antt =====
-- The process theorems on the machine of Tests/Sample.antt.
use tp_so.Prelude.{
  ℕ, ◌<◌, ◌≡◌, refl, none, some, find_from, [], ◌∷◌, ◌++◌, pos, arith, update, erase, length,
}
use tp_so.Machine.{max_processes, System, max_sem_name}
use tp_so.Memory.{Manager}
use tp_so.Sem.{find_sem, free_sem, sem_name_eq}
use tp_so.Process.Lifecycle.{Opened, HasRoom, Reaped, open_wait_sem-Opened, wait_child-signal_exit}
use tp_so.ProcessTable.Listing.{Lists, get_process_list-IsAlive}
use tp_so.ProcessTable.{get_process_list, get_process_by_pid}
use tp_so.Scheduler.Queues.{Queues}
use tp_so.Process.{
  set_process_priority, wait_sem_name, uint64_to_dec_str, low_digits, open_wait_sem, signal_exit,
  wait_child,
}
use tp_so.Process.Priority.{set_process_priority-Queues}
use tp_so.Process.WaitName.{wait_sem_name_unique}
use tp_so.Tests.Sample.{machine, lists, machine-Queues}

third_found : get_process_by_pid 3 machine ≡ some 2
unfolding get_process_by_pid find_from
third_found = refl

set_process_priority-Queues_example :
    let r = set_process_priority 3 (pos 0) machine in
    let left = update lists 2 (erase 2 (lists 2)) in
    (r.0 ≡ pos 0)
    × ((r.1.procs 2).priority ≡ pos 0)
    × Queues r.1 (update left 0 (left 0 ++ (2 ∷ [])))
set_process_priority-Queues_example =
    set_process_priority-Queues machine lists 3 2 2 0 machine-Queues third_found (omega arith) refl
      (omega arith) (omega arith)

wait_sem_name_unique_example :
    (length (wait_sem_name 7) < max_sem_name)
    × (wait_sem_name 7 ≡ wait_sem_name 42 → ◌≡◌ {A = ℕ} 7 42)
wait_sem_name_unique_example = wait_sem_name_unique 7 42 (omega arith) (omega arith)

get_process_list-IsAlive_example :
    Lists machine.procs 0 max_processes 3 (get_process_list (pos 3) machine)
get_process_list-IsAlive_example = get_process_list-IsAlive 3 machine

-- A heap that always has a block.
heap : Manager (Unit {0})
heap = record { alloc = λ n m. (4096, m); free = λ p m. m; state = λ m. (0, 0, 0) }

no_such_name : find_sem (wait_sem_name 5) machine ≡ none
unfolding find_sem find_from sem_name_eq wait_sem_name uint64_to_dec_str low_digits
no_such_name = refl

next_slot : free_sem machine ≡ some 1
unfolding free_sem find_from
next_slot = refl

room : (pid : ℕ) → HasRoom heap pid tt
unfolding heap
room pid = omega arith

with_child : System (Unit {0})
with_child = open_wait_sem heap 0 5 machine

child-Opened : Opened (wait_sem_name 5) 1 0 1 with_child
unfolding with_child
child-Opened = open_wait_sem-Opened heap 0 5 1 machine (omega arith) (room 5) no_such_name next_slot

wait_child-signal_exit_example :
    Reaped heap 1 (wait_child heap [] 5 (signal_exit heap 5 with_child))
wait_child-signal_exit_example =
    wait_child-signal_exit heap [] 5 1 with_child (omega arith) child-Opened (room 5) (room 5)
