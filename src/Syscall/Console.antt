-- ===== src/Syscall/Console.antt =====
-- The branch of syscall_read in Kernel/syscall/syscall.c that reads a line from the keyboard.
-- Interrupts are enabled in its loop: each turn is followed by an event, what happens to the machine up
-- to the next one.
use tp_so.Prelude.{ℕ, ◌+◌, ◌-◌, not, ltb, ◌==◌, List, [], ◌∷◌, if◌then◌else◌}
use tp_so.Keyboard.{
  Terminal, print_char, back_space, on_keyboard, show, has_next_key, get_next_key,
  clear_keyboard_buffer,
}
use tp_so.Syscall.{poke}

-- The loop goes on with a size, or the call returns a value.
pub data Turn (M : Type 0) : Type 0 where
  goes_on : ℕ → Terminal M → Turn M
  enters : ℕ → Terminal M → Turn M

-- The call waits for more, or has returned a value.
pub data Console (M : Type 0) : Type 0 where
  typing : Terminal M → Console M
  entered : ℕ → Terminal M → Console M

module _ {M : Type 0} where
  -- `buf[at] = value;`
  abbrev pub put : ℕ → ℕ → Terminal M → Terminal M
  put at value s = record s { kernel = poke at value s.kernel }

  -- What a pressed key does; `buf[size]` is where the next character goes.
  unfoldable pub console_key : ℕ → ℕ → ℕ → Terminal M → Turn M
  console_key buf size key s =
      if key == 10
      then enters (if size == 0 then 1 else size) (put (buf + size) 0 (show (print_char 10) s))
      else if key == 8
      then (if ltb 0 size
          then goes_on (size - 1) (show back_space (put (buf + (size - 1)) 0 s))
          else goes_on size s)
      else if key == 4
      then enters 0 (put (buf + size) 0 s)
      else if key == 3
      then enters 0 (put buf 0 s)
      else if not (key == 0)
      then (if ltb (size + 1) 256
          then goes_on (size + 1) (show (print_char key) (put (buf + size) key s))
          else enters size (put (buf + size) 0 (show (print_char 10) s)))
      else goes_on size s

  unfoldable pub console_turn : ℕ → ℕ → Terminal M → Turn M
  unfolding console_key
  console_turn buf size s =
      let r = get_next_key s.keyboard in
      let t = record s { keyboard = r.1 } in
      if has_next_key s.keyboard
      then (if r.0.is_pressed then console_key buf size r.0.key t else goes_on size t)
      else goes_on size s

  -- What the loop does with the outcome of a turn.
  unfoldable pub after_turn : (ℕ → Terminal M → Console M) → Turn M → Console M
  after_turn next (goes_on size s) = next size s
  after_turn next (enters value s) = entered value s

  unfoldable pub console_loop : ℕ → List (Terminal M → Terminal M) → ℕ → Terminal M → Console M
  unfolding console_turn after_turn
  console_loop buf [] size s = after_turn (λ n t. typing t) (console_turn buf size s)
  console_loop buf (e ∷ es) size s =
      after_turn (λ n t. console_loop buf es n (e t)) (console_turn buf size s)

  unfoldable pub read_console : List (Terminal M → Terminal M) → (ℕ → ℕ) → Terminal M → Console M
  unfolding console_loop
  read_console es registers s =
      console_loop (registers 13) es 0 (on_keyboard clear_keyboard_buffer s)
