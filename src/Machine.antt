-- ===== src/Machine.antt =====
-- The kernel's data: the process table entry of Kernel/include/process.h, the semaphore of
-- Kernel/include/sem.h, the pipe of Kernel/include/pipe.h, and the static variables of
-- process.c, scheduler.c, sem.c and pipe.c together as one state, `System`.
--
-- An array is a function on its indices. A `PCB *` is the entry's index in `process_table`, or
-- none for NULL. A C string is the list of its bytes before the terminator. `mm` is the state of
-- whichever memory manager is linked in. `words` and `bytes` are the memory behind its pointers, by
-- address: what the code reads and writes as 64-bit words, and what as characters.
use tp_so.Prelude.{arith, refl, ℕ, ◌≡◌, Option, Bool, true, false, List, ℤ, update}

abbrev pub max_processes : ℕ
max_processes = 64

abbrev pub priority_levels : ℕ
priority_levels = 5

abbrev pub max_process_name : ℕ
max_process_name = 32

abbrev pub stack_size : ℕ
stack_size = 0x4000

abbrev pub max_sems : ℕ
max_sems = 32

abbrev pub max_sem_name : ℕ
max_sem_name = 32

abbrev pub max_blocked : ℕ
max_blocked = 64

abbrev pub max_pipes : ℕ
max_pipes = 16

abbrev pub pipe_buf_size : ℕ
pipe_buf_size = 4096

abbrev pub pipe_name_len : ℕ
pipe_name_len = 32

pub data ProcessState : Type 0 where
  ready running blocked zombie killed : ProcessState

abbrev pub eq_state : ProcessState → ProcessState → Bool
eq_state ready ready = true
eq_state running running = true
eq_state blocked blocked = true
eq_state zombie zombie = true
eq_state killed killed = true
eq_state _ _ = false

pub record Pcb : Type 0 where
  pub pid : ℕ
  pub name : List ℕ
  pub rsp : ℕ
  pub rbp : ℕ
  pub state : ProcessState
  pub priority : ℤ
  pub foreground : ℤ
  pub stack_base : ℕ
  pub parent_pid : ℕ
  pub argv_data : ℕ
  pub next : Option ℕ
  pub prev : Option ℕ
  pub fd_in : ℤ
  pub fd_out : ℤ
  pub waiting_pipe : ℤ

-- `blocked_pids` lists the first `blocked_count` entries of the array of that name.
pub record Sem : Type 0 where
  pub name : List ℕ
  pub value : ℕ
  pub lock : ℕ
  pub users : ℕ
  pub blocked_pids : List ℤ
  pub active : Bool

pub data PipeState : Type 0 where
  pipe_free pipe_active : PipeState

pub record Pipe : Type 0 where
  pub id : ℕ
  pub name : List ℕ
  pub state : PipeState
  pub buffer : ℕ → ℕ
  pub read_pos : ℕ
  pub write_pos : ℕ
  pub count : ℕ
  pub write_open : ℕ
  pub read_open : ℕ

pub record System (M : Type 0) : Type 0 where
  pub procs : ℕ → Pcb
  pub next_pid : ℕ
  pub shell_pid : ℕ
  pub queues : ℕ → Option ℕ
  pub current : Option ℕ
  pub quantum : ℕ
  pub to_free : Option ℕ
  pub sems : ℕ → Sem
  pub registry_lock : ℕ
  pub pipes : ℕ → Pipe
  pub mm : M
  pub words : ℕ → ℕ
  pub bytes : ℕ → ℕ

module _ {M : Type 0} where
  -- Write one entry of a table.
  abbrev pub on_proc : ℕ → (Pcb → Pcb) → System M → System M
  on_proc p f k = record k { procs = update k.procs p (f (k.procs p)) }

  abbrev pub on_sem : ℕ → (Sem → Sem) → System M → System M
  on_sem i f k = record k { sems = update k.sems i (f (k.sems i)) }

  abbrev pub on_pipe : ℕ → (Pipe → Pipe) → System M → System M
  on_pipe i f k = record k { pipes = update k.pipes i (f (k.pipes i)) }

  -- The state of the process in slot `p`.
  abbrev pub state_of : System M → ℕ → ProcessState
  state_of k p = (k.procs p).state

pub eq_state_sound : (a b : ProcessState) → eq_state a b ≡ true → a ≡ b
eq_state_sound ready b h = ground arith
eq_state_sound running b h = ground arith
eq_state_sound blocked b h = ground arith
eq_state_sound zombie b h = ground arith
eq_state_sound killed b h = ground arith

pub eq_state_refl : (a : ProcessState) → eq_state a a ≡ true
eq_state_refl ready = refl
eq_state_refl _ = refl
