-- ===== src/Lib.antt =====
-- The kernel of x64BareBones: its scheduler, processes, semaphores, pipes, heaps, system calls,
-- keyboard and screen, and of the programs above it the system call wrappers, the shell, the mvar
-- command and the game of Tron.
--
-- Parts and how they interact. `process_table` (process.c) holds 64 process control blocks. The
-- scheduler links the READY ones into five queues by priority, through `next` and `prev` in the
-- entries themselves. Semaphores and pipes put the running process to sleep by its `state`, and
-- wake it by `unblock_process`, which puts it back into its queue. Processes are created, killed and
-- waited for with a semaphore `wait_<pid>` each. All of these share one state, the record `System`
-- of Machine.antt: the static variables of the four files together.
-- A program enters the kernel by a system call: a wrapper and an assembly stub load the registers,
-- interrupt 0x80 saves them, and the handler finds its arguments in the saved ones. It may have its
-- standard input or output redirected to a pipe. The keyboard's interrupt fills a buffer of key events
-- of its own, and on Ctrl+C kills the processes in the foreground. The video driver has a cursor and two
-- pixel buffers of its own. The shell turns each line into processes, which find the command by its
-- name. The processes that mvar starts meet at three semaphores. The game of Tron runs in the shell and
-- shares no state with the kernel.
--
-- Files, with the code each is about (paths below x64BareBones/Kernel, or
-- below x64BareBones where they begin with Userland):
--   Machine.antt       include/process.h, include/sem.h, include/pipe.h: the data
--   ProcessTable.antt  process/process.c: lookups in the table, initialisation, the process list
--   Scheduler.antt     scheduler/scheduler.c, every function: `enqueue` is `add_to_ready_queue` and
--                      `dequeue` is `remove_from_ready_queue` of a pointer that is not NULL
--   Sem.antt           sem/sem.c, every function, and the spinlocks of asm/libasm.asm
--   Pipe.antt          pipes/pipe.c, every function
--   Process.antt       process/process.c: creation, kill, exit, wait_child, priorities
--   Memory.antt        include/memory_manager.h: what the code asks of the memory manager
--   Memory/Bitmap.antt memory/bitmap_mm.c, every function; Memory/Bits has the digits of words
--   Memory/Buddy.antt  memory/buddy_mm.c, every function
--   Keyboard.antt      drivers/keyboard_handler.c, all but waitForEnter
--   Syscall.antt       syscall/syscall.c: the handlers that need no heap
--   Syscall/Table.antt syscall/syscall.c: the others, and the dispatch on the number
--   Syscall/Console.antt  syscall/syscall.c: reading a line from the keyboard, on the state with the
--                      keyboard in it; in the table it is handler 0 of the parameter `device`
--   Video.antt         drivers/video.c: pixels, text, scrolling and the back buffer
--   Video/Numbers.antt  drivers/video.c: numbers as text, and syscall_resize of syscall/syscall.c
--   Gate.antt          sem/sem.c: a semaphore as the programs see it, a count and a queue
--   Userland.antt      Userland/shell/lib/syscall_call.c and syscall_asm_call.asm, and interrupt 0x80
--                      of asm/interrupts.asm: a call of the kernel by a program
--   Mvar.antt          Userland/shell/commands/mvar_cmds.c: the loops of the writers and readers
--   Shell.antt         Userland/shell/shell.c: a line and the processes that run it
--   Text.antt          Userland/shell/utils/utils.c: string_to_int, is_numeric and uintToBase
--   Command.antt       Userland/shell/lib/commandRead.c, and the table of lib/commands.c
--   Tron.antt          Userland/shell/tron2/map.c and include/types.h: the board
--   Tron/Moves.antt    Userland/shell/tron2/player.c and player_Intent.c: steps and keys
--   Tron/Ai.antt       Userland/shell/tron2/AI.c: the computer's player
--   Tron/Game.antt     Userland/shell/commands/tron_game.c: turns, rounds and matches
--   Prelude.antt       lists, options, integers and arrays that the parts share
--   Tests.antt         the theorems applied to a small machine
-- The files below a part's folder hold its proofs, named for what they prove: Scheduler/Queues says
-- what it is for the linked entries to hold five lists, Scheduler/Enqueue, Dequeue, Pick, Free and
-- Switch are about one operation each (Scheduler/Turns says what `schedule` may do), Sem/Validity and Sem/Calls about the semaphores' invariant,
-- Sem/Names about `sem_open`, Sem/Handover about `sem_post`, Sem/Purge about `sem_remove_pid`,
-- ProcessTable/Listing about `get_process_list`, Process/WaitName, Priority and Lifecycle about the
-- names of wait semaphores, `set_process_priority` and waiting for a child, Pipe/Ring about the
-- circular buffer, Pipe/Moved, Write, Read and Flow about whole calls, Memory/Bitmap/Runs about
-- runs of bits, Memory/Bitmap/Alloc and Init about the calls of that memory manager, and
-- Memory/Buddy/Levels, Search and Address about the search and the addresses of the other. Keyboard/Ring is
-- about the buffer as a queue, Keyboard/Safety and CtrlC about the interrupt, Syscall/Line about
-- reading a line from a pipe, Syscall/Edited and Typed about reading one that is typed, Text/Base
-- and Decimal about digits, Command/Lookup and Words about finding a command and splitting a line,
-- Tron/Cells, Step and Free about the board under a step, Tron/Chosen about the computer's choices,
-- and Tron/Ends and Decided about the end of a round and of a match. Process/Semaphores,
-- Pipe/Semaphores, Syscall/Semaphores and Syscall/Sound are about the semaphores under processes,
-- pipes and system calls. Gate/Kernel is about sem.c and Gate.antt, Userland/Calls about the way of a
-- call into the kernel, and Mvar/Inv, Moves, Waits, Steps and Handed about the letters of mvar.
-- Video/Pixels is about one pixel, Video/Frame, Bounds, Text and Calls about the bytes that drawing
-- leaves alone, Video/Cursor about the cursor, Video/Swaps and Digits about the two functions
-- `uintToBase`, and Shell/Lines, with Means and Chars, about the lines that a user writes.
--
-- Conventions. An array is a function on indices; in the kernel an index out of range never reaches
-- it, because each function tests its argument first, as the code does. The board of the game is as
-- large as the screen makes it, also where that is more than the 128 * 128 cells of the code's
-- buffer. A `PCB *` is the entry's index or none. An int is a ℤ over the native numbers, a uint16_t
-- wraps at 2 ^ 16 and a uint64_t at 2 ^ 64. A C string is the list of its characters, each a byte.
-- Loops over a table are recursion on its size. What the keyboard driver asks of the screen is a
-- list of calls. The font is a parameter of the video driver, whose cursor is an unsigned int that
-- wraps at 2 ^ 32. What the shell asks of the system is a parameter too, the record `Os`. The processes
-- of mvar are interleaved by an arbitrary list of who takes the next step, each step one call of a
-- semaphore with what the process does up to the next.
--
-- Fuel. The walk to the end of a ready queue and the loop in `schedule` that drops dead entries
-- have fuel 64, the size of the table: a queue holds distinct entries, so the walk ends before that
-- (Scheduler/Enqueue), and on well-formed queues the loop stops at its first round
-- (Scheduler/Pick). A 64-bit number has at most 20 decimal digits, the fuel of `low_digits`
-- (Process/WaitName), and at most 64 in base 2, the fuel of `base_digits` (Text/Base) and of
-- `digit_loop` (Video/Digits); turning the digits round takes fewer rounds than there are digits
-- (Video/Swaps). A string that a system call is given ends within 2 ^ 64 bytes. A binary search
-- among 33 commands has 6 rounds. The loops of the game run on the list of their turns; Tron/Ends
-- and Decided say how many are enough.
--
-- Interrupts and sleep. The kernel runs these functions with interrupts disabled on one processor,
-- so that each is one step. A call that sleeps (`sem_wait`, `pipe_read`, `pipe_write`, `wait_child`)
-- takes a list of events, arbitrary functions on the state, each what the rest of the machine does
-- from one `hlt` to the next test; when the list is used up the call is still asleep. `pipe_write`
-- enables interrupts between two bytes too; in the model an event happens only where it sleeps.
--
-- The memory manager. The process code takes it as a parameter, the record `Manager`, since the build
-- links either of two. Each is modelled on its own. The bitmap's 64-bit sums wrap, and its first-fit
-- index passes through an int, which is why its theorems are about less than 2 ^ 31 blocks. The loops
-- of the buddy manager halve or double a 64-bit number, and have fuel 64; its search goes down a
-- number of levels fixed at the start.
--
-- System calls. `device n` stands for handler `n` where it drives the screen, the keyboard, the clock or
-- the sound, and `layout` for how a list of processes lies in memory, which the compiler decides. The
-- address of `process_exit_trampoline` is a parameter too.
--
-- Not modelled: the drivers of clock and sound, the interrupt tables and the other assembly, which
-- touch hardware; drawing, menus and waiting in the game, which no later step reads; the commands of
-- the shell other than mvar, which print and make system calls; the tests and benchmarks; and the boot
-- loader with its tools, which are copies of other projects.
pub mod Prelude
pub mod Machine
pub mod ProcessTable
pub mod Scheduler
pub mod Sem
pub mod Memory
pub mod Process
pub mod Pipe
pub mod Keyboard
pub mod Syscall
pub mod Text
pub mod Tron
pub mod Userland
pub mod Gate
pub mod Mvar
pub mod Video
pub mod Shell
pub mod Command
mod Tests
