-- ===== src/Userland.antt =====
-- Userland/shell/lib/syscall_call.c and syscall_asm_call.asm: how a program calls the kernel.
--
-- A wrapper of syscall_call.c passes its arguments on to a stub in the registers of the C calling
-- convention; the stub moves them to those that the kernel reads, and interrupt 0x80 saves all of them
-- (Kernel/asm/interrupts.asm, `pushState`). `UserCall` lists the wrappers whose work the kernel's own
-- state decides; pointers are addresses, and of `mem_state` it is the call,
-- with the address of its local array. The upper half of a register that holds an int is its sign.
pub mod Calls
use tp_so.Prelude.{ℕ, zero, suc, ◌-◌, List, [], ◌∷◌, ℤ}
use tp_so.Machine.{System}
use tp_so.Memory.{Manager}
use tp_so.ProcessTable.{ProcessInfo, u64_of_int}
use tp_so.Syscall.{Reply, done, waiting, crashed}
use tp_so.Syscall.Table.{Meanwhile, syscall_handler}

pub record Cpu : Type 0 where
  pub rax : ℕ
  pub rbx : ℕ
  pub rcx : ℕ
  pub rdx : ℕ
  pub rbp : ℕ
  pub rdi : ℕ
  pub rsi : ℕ
  pub r8 : ℕ
  pub r9 : ℕ
  pub r10 : ℕ
  pub r11 : ℕ
  pub r12 : ℕ
  pub r13 : ℕ
  pub r14 : ℕ
  pub r15 : ℕ
  pub rsp : ℕ

-- The arguments of a C call, as many as it has; the other registers hold what they held.
abbrev pub with_args : List ℕ → Cpu → Cpu
with_args [] c = c
with_args (a0 ∷ []) c = record c { rdi = a0 }
with_args (a0 ∷ a1 ∷ []) c = record c { rdi = a0; rsi = a1 }
with_args (a0 ∷ a1 ∷ a2 ∷ []) c = record c { rdi = a0; rsi = a1; rdx = a2 }
with_args (a0 ∷ a1 ∷ a2 ∷ a3 ∷ []) c = record c { rdi = a0; rsi = a1; rdx = a2; rcx = a3 }
with_args (a0 ∷ a1 ∷ a2 ∷ a3 ∷ a4 ∷ []) c = record c {
  rdi = a0;
  rsi = a1;
  rdx = a2;
  rcx = a3;
  r8 = a4;
}
with_args (a0 ∷ a1 ∷ a2 ∷ a3 ∷ a4 ∷ a5 ∷ more) c = record c {
  rdi = a0;
  rsi = a1;
  rdx = a2;
  rcx = a3;
  r8 = a4;
  r9 = a5;
}

-- The macros SYSCALL and SYSCALL6 up to the interrupt.
unfoldable pub syscall_stub : ℕ → Cpu → Cpu
syscall_stub number c = record c {
  rbp = c.rsp - 8;
  r10 = c.rcx;
  rbx = c.rdi;
  rcx = c.rsi;
  rsi = c.rcx;
  rdi = c.r8;
  rax = number;
}

-- The words on the stack, the last one pushed first. The interrupt frame above them is not read.
unfoldable pub push_state : Cpu → ℕ → ℕ
push_state c = entry (
    c.r15 ∷ c.r14 ∷ c.r13 ∷ c.r12 ∷ c.r11 ∷ c.r10 ∷ c.r9 ∷ c.r8 ∷ c.rsi ∷ c.rdi ∷ c.rbp ∷ c.rdx
    ∷ c.rcx ∷ c.rbx ∷ c.rax ∷ [])
  where
    entry : List ℕ → ℕ → ℕ
    entry [] i = 0
    entry (x ∷ xs) zero = x
    entry (x ∷ xs) (suc i) = entry xs i

-- The value that a call leaves in rax, or no answer yet, or a read through NULL.
pub data Answer (M : Type 0) : Type 0 where
  gives : ℕ → System M → Answer M
  sleeps : System M → Answer M
  faults : Answer M

abbrev pub answer_of : {M : Type 0} → Reply M → Answer M
answer_of (done registers k) = gives (registers 14) k
answer_of (waiting k) = sleeps k
answer_of crashed = faults

pub data UserCall : Type 0 where
  malloc : ℕ → UserCall
  free : ℕ → UserCall
  mem_state : ℕ → UserCall
  create_process : ℕ → ℕ → ℤ → ℤ → ℤ → ℕ → UserCall
  exit_process : UserCall
  getpid : UserCall
  ps : ℕ → ℤ → UserCall
  kill_process : ℕ → UserCall
  nice : ℕ → ℤ → UserCall
  block : ℕ → UserCall
  unblock : ℕ → UserCall
  yield : UserCall
  pipe_create : UserCall
  pipe_open : ℕ → UserCall
  pipe_close : ℤ → ℤ → UserCall
  set_fd : ℤ → ℤ → UserCall
  sem_open : ℕ → ℤ → UserCall
  sem_close : ℤ → UserCall
  sem_wait : ℤ → UserCall
  sem_post : ℤ → UserCall
  sem_value : ℤ → UserCall
  waitpid : ℕ → UserCall

-- The number of the stub that a wrapper calls, and the arguments that it passes.
unfoldable pub stub_number : UserCall → ℕ
stub_number (malloc size) = 18
stub_number (free ptr) = 19
stub_number (mem_state buf) = 20
stub_number (create_process entry name priority foreground argc argv) = 21
stub_number exit_process = 22
stub_number getpid = 23
stub_number (ps buf max_count) = 24
stub_number (kill_process pid) = 25
stub_number (nice pid new_priority) = 26
stub_number (block pid) = 27
stub_number (unblock pid) = 28
stub_number yield = 29
stub_number pipe_create = 30
stub_number (pipe_open name) = 31
stub_number (pipe_close pipe_id side) = 32
stub_number (set_fd fd_index pipe_id) = 33
stub_number (sem_open name value) = 34
stub_number (sem_close sem_id) = 35
stub_number (sem_wait sem_id) = 36
stub_number (sem_post sem_id) = 37
stub_number (sem_value sem_id) = 38
stub_number (waitpid pid) = 39

unfoldable pub stub_args : UserCall → List ℕ
stub_args (malloc size) = size ∷ []
stub_args (free ptr) = ptr ∷ []
stub_args (mem_state buf) = buf ∷ []
stub_args (create_process entry name priority foreground argc argv) =
    entry ∷ name ∷ u64_of_int priority ∷ u64_of_int foreground ∷ u64_of_int argc ∷ argv ∷ []
stub_args exit_process = []
stub_args getpid = []
stub_args (ps buf max_count) = buf ∷ u64_of_int max_count ∷ []
stub_args (kill_process pid) = pid ∷ []
stub_args (nice pid new_priority) = pid ∷ u64_of_int new_priority ∷ []
stub_args (block pid) = pid ∷ []
stub_args (unblock pid) = pid ∷ []
stub_args yield = []
stub_args pipe_create = []
stub_args (pipe_open name) = name ∷ []
stub_args (pipe_close pipe_id side) = u64_of_int pipe_id ∷ u64_of_int side ∷ []
stub_args (set_fd fd_index pipe_id) = u64_of_int fd_index ∷ u64_of_int pipe_id ∷ []
stub_args (sem_open name value) = name ∷ u64_of_int value ∷ []
stub_args (sem_close sem_id) = u64_of_int sem_id ∷ []
stub_args (sem_wait sem_id) = u64_of_int sem_id ∷ []
stub_args (sem_post sem_id) = u64_of_int sem_id ∷ []
stub_args (sem_value sem_id) = u64_of_int sem_id ∷ []
stub_args (waitpid pid) = pid ∷ []

module _ {M : Type 0} (mm : Manager M) (trampoline : ℕ)
    (layout : ℕ → List ProcessInfo → (ℕ → ℕ) → ℕ → ℕ)
    (device : ℕ → (ℕ → ℕ) → System M → Reply M) where
  -- `int 0x80`: the call's number is what was pushed of rax.
  unfoldable pub interrupt80 : Meanwhile M → Cpu → System M → Answer M
  unfolding push_state
  interrupt80 w c k =
      let registers = push_state c in
      answer_of (syscall_handler mm trampoline layout device w (registers 14) registers k)

  unfoldable pub invoke : Meanwhile M → UserCall → Cpu → System M → Answer M
  unfolding interrupt80 syscall_stub
  invoke w call c k =
      interrupt80 w (syscall_stub (stub_number call) (with_args (stub_args call) c)) k
