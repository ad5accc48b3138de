-- ===== src/Pipe.antt =====
-- Kernel/pipes/pipe.c: anonymous and named pipes, byte rings of PIPE_BUF_SIZE that block when empty
-- or full. A blocked call sleeps through a list of events, each what interrupts and other processes
-- do to the state from one enabling of interrupts to the next test.
pub mod Ring
pub mod Moved
pub mod Write
pub mod Read
pub mod Flow
pub mod Semaphores
use tp_so.Prelude.{
  ℕ, zero, suc, ◌+◌, ◌-◌, ◌%◌, ◌^◌, ◌≡◌, Option, some, none, Bool, true, false, ◌&&◌, not, ltb,
  ◌==◌, List, [], ◌∷◌, ◌++◌, take, length, ℤ, pos, negsuc, minus_one, eq_ℤ, index, update,
  map_range, find_from, on_some, if◌then◌else◌,
}
use tp_so.Machine.{
  Pipe, PipeState, pipe_free, pipe_active, Pcb, System, blocked, eq_state, state_of, on_proc,
  on_pipe, max_pipes, max_processes, pipe_buf_size, pipe_name_len,
}
use tp_so.ProcessTable.{ProcessInfo, get_process_list, get_process_by_pid}
use tp_so.Scheduler.{unblock_process, block_current_process, yield_process}

abbrev pub is_active : Pipe → Bool
is_active p = elim p.state [ pipe_active ↦ true | pipe_free ↦ false ]

-- The comparison loop of `pipe_open`.
unfoldable pub pipe_name_eq : List ℕ → List ℕ → Bool
pipe_name_eq [] [] = true
pipe_name_eq [] (b ∷ ys) = false
pipe_name_eq (a ∷ xs) [] = false
pipe_name_eq (a ∷ xs) (b ∷ ys) = a == b && pipe_name_eq xs ys

unfoldable pub copy_pipe_name : List ℕ → List ℕ
copy_pipe_name name = take (pipe_name_len - 1) name

-- One byte out of the ring, and one into it.
unfoldable pub next_pos : ℕ → ℕ
next_pos i = (i + 1) % pipe_buf_size

-- `for (i = 0; i < to_read; i++) { buf[i] = p->buffer[p->read_pos]; p->read_pos = ...; }`
unfoldable pub copy_out : ℕ → (ℕ → ℕ) → ℕ → List ℕ
copy_out zero buffer at = []
copy_out (suc n) buffer at = buffer at ∷ copy_out n buffer (next_pos at)

unfoldable pub advance : ℕ → ℕ → ℕ
advance zero at = at
advance (suc n) at = advance n (next_pos at)

-- `(count < p->count) ? count : p->count`
unfoldable pub read_size : ℕ → Pipe → ℕ
read_size count p = if ltb count p.count then count else p.count

unfoldable pub take_bytes : ℕ → Pipe → Pipe
take_bytes n p = record p { read_pos = advance n p.read_pos; count = p.count - n }

unfoldable pub put_byte : ℕ → Pipe → Pipe
put_byte b p = record p {
  buffer = update p.buffer p.write_pos b;
  write_pos = next_pos p.write_pos;
  count = p.count + 1;
}

-- What a call that may sleep comes to, a read with the bytes that it put in the caller's buffer.
pub data PipeOutcome (M : Type 0) : Type 0 where
  returns : ℤ → List ℕ → System M → PipeOutcome M
  asleep : System M → PipeOutcome M

unfoldable pub clear_pipe : ℕ → Pipe → Pipe
clear_pipe i p = record p {
  state = pipe_free;
  id = i;
  read_pos = 0;
  write_pos = 0;
  count = 0;
  write_open = 0;
  read_open = 0;
  name = [];
}

unfoldable pub clear_pipes : ℕ → (ℕ → Pipe) → ℕ → Pipe
unfolding clear_pipe
clear_pipes zero t = t
clear_pipes (suc n) t = update (clear_pipes n t) n (clear_pipe n (t n))

unfoldable pub activate : Pipe → Pipe
activate p = record p {
  state = pipe_active;
  read_pos = 0;
  write_pos = 0;
  count = 0;
  write_open = 1;
  read_open = 1;
  name = [];
}

-- `pipe_open` of a pipe that is there already opens both of its ends once more.
unfoldable pub join_pipe : Pipe → Pipe
join_pipe p = record p { write_open = p.write_open + 1; read_open = p.read_open + 1 }

-- Closing an end that is open.
unfoldable pub close_side : ℤ → Pipe → Pipe
close_side side p =
    if eq_ℤ side (pos 1)
    then record p { write_open = p.write_open - 1 }
    else record p { read_open = p.read_open - 1 }

-- The number of ends left on the side that was closed.
unfoldable pub side_open : ℤ → Pipe → ℕ
side_open side p = if eq_ℤ side (pos 1) then p.write_open else p.read_open

unfoldable pub free_if_closed : Pipe → Pipe
free_if_closed p =
    if p.write_open == 0 && p.read_open == 0 then record p { state = pipe_free; name = [] } else p

module _ {M : Type 0} where
  unfoldable pub pipe_init : System M → System M
  unfolding clear_pipes
  pipe_init k = record k { pipes = clear_pipes max_pipes k.pipes }

  unfoldable pub free_pipe : System M → Option ℕ
  free_pipe k = find_from max_pipes 0 (λ i. not (is_active (k.pipes i)))

  unfoldable pub pipe_create : System M → ℤ × System M
  unfolding activate
  pipe_create k = on_some (free_pipe k) (λ i. (pos i, on_pipe i activate k)) (minus_one, k)

  unfoldable pub find_pipe : List ℕ → System M → Option ℕ
  find_pipe name k =
      find_from max_pipes 0 (λ i. is_active (k.pipes i) && pipe_name_eq (k.pipes i).name name)

  unfoldable pub name_pipe : List ℕ → ℤ × System M → ℤ × System M
  unfolding copy_pipe_name
  name_pipe name (pos i, k) = (pos i, on_pipe i (λ p. record p { name = copy_pipe_name name }) k)
  name_pipe name (negsuc n, k) = (minus_one, k)

  unfoldable pub pipe_open : Option (List ℕ) → System M → ℤ × System M
  unfolding name_pipe join_pipe
  pipe_open none k = (minus_one, k)
  pipe_open (some name) k =
      on_some (find_pipe name k) (λ i. (pos i, on_pipe i join_pipe k))
        (name_pipe name (pipe_create k))

  -- One process of the list: woken if it is BLOCKED on this pipe.
  unfoldable pub notify_one : ℤ → ℕ → System M → System M
  notify_one id pid k =
      on_some (get_process_by_pid pid k)
        (λ p.
          if eq_state (state_of k p) blocked && eq_ℤ (k.procs p).waiting_pipe id
          then unblock_process (k.procs p).pid
              (on_proc p (λ x. record x { waiting_pipe = minus_one }) k)
          else k)
        k

  unfoldable pub notify_all : ℤ → List ProcessInfo → System M → System M
  notify_all id [] k = k
  notify_all id (x ∷ xs) k = notify_all id xs (notify_one id x.pid k)

  unfoldable pub pipe_notify : ℤ → System M → System M
  unfolding notify_all notify_one
  pipe_notify id k = notify_all id (get_process_list (pos max_processes) k) k

  unfoldable pub pipe_close_at : ℕ → ℤ → System M → ℤ × System M
  unfolding close_side side_open free_if_closed
  pipe_close_at i side k =
      let k1 = on_pipe i (close_side side) k in
      let k2 = if side_open side (k1.pipes i) == 0 then pipe_notify (pos i) k1 else k1 in
      if is_active (k.pipes i) then (pos 0, on_pipe i free_if_closed k2) else (minus_one, k)

  unfoldable pub pipe_close : ℤ → ℤ → System M → ℤ × System M
  unfolding pipe_close_at
  pipe_close id side k = on_some (index id max_pipes) (λ i. pipe_close_at i side k) (minus_one, k)

  -- The running process, if there is one, goes to sleep on the pipe.
  unfoldable pub pipe_block : ℕ → System M → System M
  pipe_block i k = yield_process (
      on_some k.current
        (λ c. block_current_process (on_proc c (λ x. record x { waiting_pipe = pos i }) k)) k)

  unfoldable pub read_now : ℕ → ℕ → System M → PipeOutcome M
  unfolding take_bytes copy_out advance
  read_now i count k =
      let p = k.pipes i in
      let to_read = read_size count p in
      returns (pos to_read) (copy_out to_read p.buffer p.read_pos)
        (pipe_notify (pos i) (on_pipe i (take_bytes to_read) k))

  unfoldable pub read_loop : List (System M → System M) → ℕ → ℕ → System M → PipeOutcome M
  unfolding read_now
  read_loop [] i count k =
      if ltb 0 (k.pipes i).count
      then read_now i count k
      else if (k.pipes i).write_open == 0
      then returns (pos 0) [] k
      else asleep (pipe_block i k)
  read_loop (e ∷ es) i count k =
      let again = read_loop es i count (e (pipe_block i k)) in
      if ltb 0 (k.pipes i).count
      then read_now i count k
      else if (k.pipes i).write_open == 0
      then returns (pos 0) [] k
      else again

  unfoldable pub pipe_read : List (System M → System M) → ℤ → ℕ → System M → PipeOutcome M
  unfolding read_loop
  pipe_read es id count k =
      on_some (index id max_pipes)
        (λ i.
          if is_active (k.pipes i) && ltb 0 (k.pipes i).read_open
          then (if count == 0 then returns (pos 0) [] k else read_loop es i count k)
          else returns minus_one [] k)
        (returns minus_one [] k)

  -- `buf` from the byte that is written next on; `written` have been.
  unfoldable pub write_loop : List (System M → System M) → ℕ → List ℕ → ℕ → System M → PipeOutcome M
  unfolding put_byte
  write_loop es i [] written k = returns (pos written) [] (pipe_notify (pos i) k)
  write_loop [] i (b ∷ bs) written k =
      let rest = write_loop [] i bs (written + 1) (on_pipe i (put_byte b) k) in
      if (k.pipes i).read_open == 0
      then returns minus_one [] k
      else if ltb (k.pipes i).count pipe_buf_size
      then rest
      else asleep (pipe_block i k)
  write_loop (e ∷ es) i (b ∷ bs) written k =
      let rest = write_loop (e ∷ es) i bs (written + 1) (on_pipe i (put_byte b) k) in
      let again = write_loop es i (b ∷ bs) written (e (pipe_block i k)) in
      if (k.pipes i).read_open == 0
      then returns minus_one [] k
      else if ltb (k.pipes i).count pipe_buf_size
      then rest
      else again

  unfoldable pub pipe_write : List (System M → System M) → ℤ → List ℕ → System M → PipeOutcome M
  unfolding write_loop
  pipe_write es id buf k =
      on_some (index id max_pipes)
        (λ i.
          if is_active (k.pipes i)
          then (if length buf == 0 then returns (pos 0) [] k else write_loop es i buf 0 k)
          else returns minus_one [] k)
        (returns minus_one [] k)
