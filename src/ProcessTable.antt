-- ===== src/ProcessTable.antt =====
-- Kernel/process/process.c, the part that looks processes up in `process_table`.
pub mod Listing
use tp_so.Prelude.{
  ℕ, zero, suc, ◌-◌, ◌%◌, ◌^◌, Option, none, Bool, ◌&&◌, ltb, ◌==◌, List, [], ◌∷◌, ℤ, pos, negsuc,
  minus_one, map_range, find_from, on_some, if◌then◌else◌, not,
}
use tp_so.Machine.{ProcessState, killed, eq_state, Pcb, System, max_processes}

-- `(int)x` of a uint64_t, and `(uint64_t)i` of an int.
unfoldable pub int_of_u64 : ℕ → ℤ
int_of_u64 x = let w = x % 2 ^ 32 in if ltb w (2 ^ 31) then pos w else negsuc (2 ^ 32 - 1 - w)

unfoldable pub u64_of_int : ℤ → ℕ
u64_of_int (pos n) = n
u64_of_int (negsuc n) = 2 ^ 64 - 1 - n

abbrev pub is_free_slot : Pcb → Bool
is_free_slot x = eq_state x.state killed && x.pid == 0

pub record ProcessInfo : Type 0 where
  pub pid : ℕ
  pub name : List ℕ
  pub rsp : ℕ
  pub rbp : ℕ
  pub priority : ℤ
  pub state : ProcessState
  pub foreground : ℤ

abbrev pub info_of : Pcb → ProcessInfo
info_of x = record {
  pid = x.pid;
  name = x.name;
  rsp = x.rsp;
  rbp = x.rbp;
  priority = x.priority;
  state = x.state;
  foreground = x.foreground;
}

abbrev pub is_listed : Pcb → Bool
is_listed x = ltb 0 x.pid && not (eq_state x.state killed)

-- for (i; i < i + n && count < max_count; i++), `room` entries of the buffer being left.
unfoldable pub list_from : ℕ → ℕ → ℕ → (ℕ → Pcb) → List ProcessInfo
list_from zero i room t = []
list_from (suc n) i zero t = []
list_from (suc n) i (suc room) t =
    let rest = list_from n (suc i) (if is_listed (t i) then room else suc room) t in
    if is_listed (t i) then info_of (t i) ∷ rest else rest

module _ {M : Type 0} where
  unfoldable pub init_processes : System M → System M
  init_processes k = record k {
    procs =
        map_range max_processes
          (λ x. record x {
            state = killed;
            pid = 0;
            next = none;
            prev = none;
            stack_base = 0;
            argv_data = 0;
            fd_in = minus_one;
            fd_out = minus_one;
            waiting_pipe = minus_one;
          })
          k.procs;
  }

  unfoldable pub get_free_pcb : System M → Option ℕ
  get_free_pcb k = find_from max_processes 0 (λ i. is_free_slot (k.procs i))

  unfoldable pub get_process_by_pid : ℕ → System M → Option ℕ
  get_process_by_pid pid k = find_from max_processes 0 (λ i. (k.procs i).pid == pid)

  unfoldable pub get_current_pid : System M → ℤ
  get_current_pid k = on_some k.current (λ p. int_of_u64 (k.procs p).pid) minus_one

  -- The entries written to `buf`; their number is what the function returns.
  unfoldable pub get_process_list : ℤ → System M → List ProcessInfo
  get_process_list (pos room) k = list_from max_processes 0 room k.procs
  get_process_list (negsuc n) k = []
