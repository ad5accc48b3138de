-- ===== src/Tests/Terminal.antt =====
-- The theorems on the keyboard driver and on reading a line, on the machine of Tests/Sample.antt.
use tp_so.Prelude.{
  ℕ, ◌≢◌, ◌<◌, ◌≡◌, ◌==◌, if◌then◌else◌, refl, none, true, false, List, [], ◌∷◌, ◌++◌, pos, arith,
  update,
}
use tp_so.Machine.{System, Pipe}
use tp_so.Memory.{Manager}
use tp_so.Pipe.{copy_out, next_pos}
use tp_so.Pipe.Ring.{contents}
use tp_so.Keyboard.{KeyEvent, Keyboard, Terminal, keyboard_pressed}
use tp_so.Keyboard.Ring.{IsRing, events, newest, push_all, push_all-newest}
use tp_so.Keyboard.Safety.{presses, run_use, run_use-IsRing}
use tp_so.Keyboard.CtrlC.{repeats, repeats-keyboard_pressed}
use tp_so.ProcessTable.{ProcessInfo}
use tp_so.Syscall.{Reply, waiting}
use tp_so.Syscall.Table.{syscall_read}
use tp_so.Syscall.Line.{TookLine, syscall_read-TookLine}
use tp_so.Syscall.Console.{read_console}
use tp_so.Syscall.Edited.{IsKey, edit}
use tp_so.Syscall.Typed.{arrive, Entered, read_console-Entered}
use tp_so.Tests.Sample.{machine}

abbrev pub letter : ℕ → KeyEvent
letter key = record { scancode = 30; key = key; is_pressed = true }

-- One event, in the last entry of the array, with Ctrl down.
abbrev pub keys : Keyboard
keys = record {
  e0_prefix = false;
  regs_saved = false;
  saved_registers = none;
  buf = λ i. letter i;
  lastkey = 0;
  nextkey = 31;
  count = 1;
  caps_lock = false;
  shift_pressed = false;
  ctrl_pressed = true;
  ctrl_c_latch = false;
}

abbrev pub terminal : Terminal (Unit {0})
terminal = record { kernel = machine; keyboard = keys; screen = [] }

keys-IsRing : IsRing keys
keys-IsRing = record { next_in = omega arith; count_in = omega arith; last_at = omega arith }

push_all-newest_example :
    (events (push_all (letter 97 ∷ letter 98 ∷ []) keys)
      ≡ newest (events keys ++ (letter 97 ∷ letter 98 ∷ [])))
    × IsRing (push_all (letter 97 ∷ letter 98 ∷ []) keys)
push_all-newest_example = push_all-newest (letter 97 ∷ letter 98 ∷ []) keys keys-IsRing

heap : Manager (Unit {0})
heap = record { alloc = λ n m. (4096, m); free = λ p m. m; state = λ m. (0, 0, 0) }

run_use-IsRing_example : IsRing (run_use heap (presses 0x1E none) terminal).keyboard
run_use-IsRing_example = run_use-IsRing heap (presses 0x1E none) terminal keys-IsRing

repeats-keyboard_pressed_example :
    repeats heap 3 none (keyboard_pressed heap 0x2E none terminal)
    ≡ keyboard_pressed heap 0x2E none terminal
repeats-keyboard_pressed_example =
    repeats-keyboard_pressed heap 3 none terminal (record { ctrl = refl; plain = refl })

-- Pipe 0 holds "hi", a newline and "x", and the running process reads from it.
abbrev pub line_pipe : Pipe
line_pipe = record (machine.pipes 0) {
  buffer = λ i. if i == 4095 then 104 else if i == 0 then 105 else if i == 1 then 10 else 120;
  write_pos = 3;
  count = 4;
}

abbrev pub piped : System (Unit {0})
piped = record machine {
  pipes = update machine.pipes 0 line_pipe;
  procs = update machine.procs 3 (record (machine.procs 3) { fd_in = pos 0 });
}

held : contents (piped.pipes 0) ≡ (104 ∷ 105 ∷ []) ++ (10 ∷ 120 ∷ [])
unfolding contents copy_out next_pos
held = refl

-- No process is in the buffer, and no device answers.
layout : ℕ → List ProcessInfo → (ℕ → ℕ) → ℕ → ℕ
layout at infos m = m

device : ℕ → (ℕ → ℕ) → System (Unit {0}) → Reply (Unit {0})
device n registers k = waiting k

syscall_read-TookLine_example :
    TookLine
      (λ _. 5000)
      5000
      2
      0
      (104 ∷ 105 ∷ [])
      (120 ∷ [])
      piped
      (syscall_read heap 0 layout device (λ _. []) (λ _. 5000) piped)
syscall_read-TookLine_example =
    syscall_read-TookLine heap 0 layout device (λ _. []) (λ _. 5000) 3 0 (104 ∷ 105 ∷ []) (120 ∷ [])
      piped refl refl (omega arith) refl (omega arith)
      (record { read_in = omega arith; count_in = omega arith; write_at = omega arith }) held
      (omega arith, (omega arith, tt)) (omega arith)

is_key : (k : ℕ) → 4 < k → k ≢ 10 → IsKey k
is_key k h n = record {
  no_enter = n;
  no_end = λ e. omega arith;
  no_cancel = λ e. omega arith;
  some_key = λ e. omega arith;
}

-- "a", "b", a backspace and "c" are typed.
abbrev pub typed_keys : List ℕ
typed_keys = 97 ∷ 98 ∷ 8 ∷ 99 ∷ []

read_console-Entered_example :
    Entered 5000 (edit [] typed_keys) (read_console (arrive typed_keys) (λ _. 5000) terminal)
read_console-Entered_example =
    read_console-Entered typed_keys (λ _. 5000) terminal
      (
        is_key 97 (omega arith) (omega arith),
        (
          is_key 98 (omega arith) (omega arith),
          (is_key 8 (omega arith) (omega arith), (is_key 99 (omega arith) (omega arith), tt)),
        ),
      )
      (omega arith)
