-- ===== src/Tests/Calls.antt =====
-- System calls as a whole on the machine of Tests/Sample.antt.
use tp_so.Prelude.{ℕ, inl, ◌≡◌, refl, List, [], ◌∷◌, pos, negsuc, arith}
use tp_so.Machine.{System}
use tp_so.Memory.{Manager}
use tp_so.ProcessTable.{ProcessInfo, get_current_pid, int_of_u64}
use tp_so.Syscall.{Reply, waiting}
use tp_so.Syscall.Table.{Meanwhile, syscall_handler}
use tp_so.Syscall.Semaphores.{EndsSound}
use tp_so.Syscall.Sound.{KeepsSound, syscall_handler-AllValid}
use tp_so.Userland.{Cpu, UserCall, invoke}
use tp_so.Userland.Calls.{meaning, invoke-meaning}
use tp_so.Gate.{Gate}
use tp_so.Gate.Kernel.{Posts, Waits, sem_calls-Gate}
use tp_so.Tests.Sample.{machine}
use tp_so.Tests.Semaphores.{machine-AllValid, post, post-Keeps}

heap : Manager (Unit {0})
heap = record { alloc = λ n m. (4096, m); free = λ p m. m; state = λ m. (0, 0, 0) }

layout : ℕ → List ProcessInfo → (ℕ → ℕ) → ℕ → ℕ
layout at infos m = m

device : ℕ → (ℕ → ℕ) → System (Unit {0}) → Reply (Unit {0})
device n registers k = waiting k

-- Somebody posts semaphore 0 while a call sleeps.
abbrev meanwhile : Meanwhile (Unit {0})
meanwhile = record { events = post ∷ []; by_byte = λ n. []; halted = post }

meanwhile-KeepsSound : KeepsSound meanwhile
meanwhile-KeepsSound = record { events = (post-Keeps, tt); by_byte = λ n. tt; halted = post-Keeps }

-- Number 36 is `sem_wait`, of semaphore 0, on which another process waits.
syscall_handler-AllValid_example :
    EndsSound (syscall_handler heap 0 layout device meanwhile 36 (λ i. 0) machine)
syscall_handler-AllValid_example =
    syscall_handler-AllValid heap 0 layout device meanwhile meanwhile-KeepsSound 36 (λ i. 0) machine
      (inl (omega arith)) machine-AllValid

abbrev cpu : Cpu
cpu = record {
  rax = 0;
  rbx = 11;
  rcx = 12;
  rdx = 13;
  rbp = 14;
  rdi = 15;
  rsi = 16;
  r8 = 17;
  r9 = 18;
  r10 = 0;
  r11 = 0;
  r12 = 0;
  r13 = 0;
  r14 = 0;
  r15 = 0;
  rsp = 9000;
}

-- A process with the negative priority that the kernel corrects, and no arguments.
abbrev start_program : UserCall
start_program = UserCall.create_process 7000 0 (negsuc 4) (pos 1) (pos 0) 0

invoke-meaning_example :
    invoke heap 0 layout device meanwhile start_program cpu machine
    ≡ meaning heap 0 layout meanwhile start_program machine
invoke-meaning_example =
    invoke-meaning heap 0 layout meanwhile device start_program cpu machine
      (omega arith, omega arith, omega arith)

-- The process with pid 5 waits on semaphore 0, and that with pid 4 runs.
abbrev fifth_waits : Gate
fifth_waits = record { value = 0; waiting = 5 ∷ [] }

fourth_runs : get_current_pid machine ≡ pos 4
unfolding get_current_pid int_of_u64
fourth_runs = refl

sem_calls-Gate_example :
    Posts 0 fifth_waits machine
    × ((es : List (System (Unit {0}) → System (Unit {0}))) → Waits es 4 0 fifth_waits machine)
sem_calls-Gate_example =
    sem_calls-Gate 0 4 fifth_waits machine (omega arith) fourth_runs
      (record { live = refl; value = refl; waiting = refl })
