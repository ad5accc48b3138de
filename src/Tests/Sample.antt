-- ===== src/Tests/Sample.antt =====
-- A machine with four processes: the idle process in slot 0, READY at priority 4, two READY processes
-- of priority 2 in slots 1 and 2, and the running process in slot 3, also of priority 2. Semaphore 0
-- is open with value 0 and a fifth process, BLOCKED, waits on it. Pipe 0 is open and empty.
use tp_so.Prelude.{
  ℕ, zero, suc, ◌<◌, refl, Option, some, none, true, false, List, [], ◌∷◌, pos, minus_one, arith,
  All, Distinct,
}
use tp_so.Machine.{
  ProcessState, ready, running, blocked, killed, Pcb, Sem, Pipe, pipe_free, pipe_active, System,
  priority_levels,
}
use tp_so.Scheduler.Chain.{Chain}
use tp_so.Scheduler.Queues.{Waits, Queues}

abbrev pub process : ℕ → ProcessState → ℕ → Option ℕ → Option ℕ → Pcb
process pid state priority next prev = record {
  pid = pid;
  name = [];
  rsp = 1000;
  rbp = 0;
  state = state;
  priority = pos priority;
  foreground = pos 0;
  stack_base = 0;
  parent_pid = 0;
  argv_data = 0;
  next = next;
  prev = prev;
  fd_in = minus_one;
  fd_out = minus_one;
  waiting_pipe = minus_one;
}

abbrev pub table : ℕ → Pcb
table zero = process 1 ready 4 none none
table (suc zero) = process 2 ready 2 (some 2) none
table (suc (suc zero)) = process 3 ready 2 none (some 1)
table (suc (suc (suc zero))) = process 4 running 2 none none
table (suc (suc (suc (suc zero)))) = process 5 blocked 2 none none
table _ = process 0 killed 0 none none

abbrev pub heads : ℕ → Option ℕ
heads zero = none
heads (suc zero) = none
heads (suc (suc zero)) = some 1
heads (suc (suc (suc zero))) = none
heads (suc (suc (suc (suc zero)))) = some 0
heads _ = none

abbrev pub lists : ℕ → List ℕ
lists zero = []
lists (suc zero) = []
lists (suc (suc zero)) = 1 ∷ 2 ∷ []
lists (suc (suc (suc zero))) = []
lists (suc (suc (suc (suc zero)))) = 0 ∷ []
lists _ = []

abbrev pub closed_sem : Sem
closed_sem = record { name = []; value = 0; lock = 0; users = 0; blocked_pids = []; active = false }

abbrev pub semaphores : ℕ → Sem
semaphores zero = record {
  name = b'm' ∷ [];
  value = 0;
  lock = 0;
  users = 2;
  blocked_pids = pos 5 ∷ [];
  active = true;
}
semaphores _ = closed_sem

abbrev pub pipe_table : ℕ → Pipe
pipe_table zero = record {
  id = 0;
  name = [];
  state = pipe_active;
  buffer = λ _. 0;
  read_pos = 4095;
  write_pos = 4095;
  count = 0;
  write_open = 1;
  read_open = 1;
}
pipe_table _ = record {
  id = 0;
  name = [];
  state = pipe_free;
  buffer = λ _. 0;
  read_pos = 0;
  write_pos = 0;
  count = 0;
  write_open = 0;
  read_open = 0;
}

abbrev pub machine : System (Unit {0})
machine = record {
  procs = table;
  next_pid = 6;
  shell_pid = 1;
  queues = heads;
  current = some 3;
  quantum = 0;
  to_free = none;
  sems = semaphores;
  registry_lock = 0;
  pipes = pipe_table;
  mm = tt;
  words = λ _. 0;
  bytes = λ _. 0;
}

sample-Chain : (l : ℕ) → l < priority_levels → Chain machine.procs none (machine.queues l) (lists l)
sample-Chain zero h = refl
sample-Chain (suc zero) h = refl
sample-Chain (suc (suc zero)) h = (refl, refl, (refl, refl, refl))
sample-Chain (suc (suc (suc zero))) h = refl
sample-Chain (suc (suc (suc (suc zero)))) h = (refl, refl, refl)
sample-Chain (suc (suc (suc (suc (suc l))))) h = absurd (omega arith)

sample-Distinct : (l : ℕ) → l < priority_levels → Distinct (lists l)
sample-Distinct zero h = tt
sample-Distinct (suc zero) h = tt
sample-Distinct (suc (suc zero)) h = ((omega arith, tt), (tt, tt))
sample-Distinct (suc (suc (suc zero))) h = tt
sample-Distinct (suc (suc (suc (suc zero)))) h = (tt, tt)
sample-Distinct (suc (suc (suc (suc (suc l))))) h = absurd (omega arith)

sample-Waits : (l : ℕ) → l < priority_levels → All (Waits machine.procs l) (lists l)
sample-Waits zero h = tt
sample-Waits (suc zero) h = tt
sample-Waits (suc (suc zero)) h = ((omega arith, refl, refl), ((omega arith, refl, refl), tt))
sample-Waits (suc (suc (suc zero))) h = tt
sample-Waits (suc (suc (suc (suc zero)))) h = ((omega arith, refl, refl), tt)
sample-Waits (suc (suc (suc (suc (suc l))))) h = absurd (omega arith)

pub machine-Queues : Queues machine lists
machine-Queues = record { chain = sample-Chain; distinct = sample-Distinct; waits = sample-Waits }
