-- ===== src/Shell.antt =====
-- Userland/shell/shell.c: from a line that was typed to the processes that run it.
--
-- `Os S` is what the shell asks of the system: printing, a pipe, a process and waiting for one, each on
-- the state `S` of everything else, and reading a line; `waitpid` and `read` are what has become of that
-- state when they return. The
-- record `Shell` holds the static variables. The buffer of a line is the list of its characters.
pub mod Means
pub mod Chars
pub mod Lines
use tp_so.Prelude.{
  ℕ, zero, suc, ◌+◌, ◌-◌, Option, none, some, Bool, true, false, ◌&&◌, ◌||◌, not, ltb, ◌==◌, List,
  [], ◌∷◌, ◌++◌, take, drop, length, ℤ, pos, negsuc, minus_one, on_some, if◌then◌else◌,
}
use tp_so.Text.{uint_to_base}
use tp_so.ProcessTable.{u64_of_int}

pub record PipeProcCtx : Type 0 where
  pub cmd : List ℕ
  pub pipe_id : ℤ

pub record Shell : Type 0 where
  pub pipe_ctx_a : PipeProcCtx
  pub pipe_ctx_b : PipeProcCtx
  pub bg_cmd : List ℕ
  pub fg_cmd : List ℕ

-- The functions that the shell starts processes with.
pub data Entry : Type 0 where
  pipe_proc_a pipe_proc_b bg_proc_entry fg_proc_entry : Entry

-- What such a process does, in order.
pub data ProcStep : Type 0 where
  sets_fd : ℤ → ℤ → ProcStep
  dispatches : List ℕ → ProcStep
  closes_pipe : ℤ → ℤ → ProcStep
  exits : ProcStep

unfoldable pub proc_steps : Entry → Shell → List ProcStep
proc_steps pipe_proc_a sh =
    sets_fd (pos 1) sh.pipe_ctx_a.pipe_id
    ∷ dispatches sh.pipe_ctx_a.cmd
    ∷ closes_pipe sh.pipe_ctx_a.pipe_id (pos 1)
    ∷ exits
    ∷ []
proc_steps pipe_proc_b sh =
    sets_fd (pos 0) sh.pipe_ctx_b.pipe_id
    ∷ dispatches sh.pipe_ctx_b.cmd
    ∷ closes_pipe sh.pipe_ctx_b.pipe_id (pos 0)
    ∷ exits
    ∷ []
proc_steps bg_proc_entry sh = dispatches sh.bg_cmd ∷ exits ∷ []
proc_steps fg_proc_entry sh = dispatches sh.fg_cmd ∷ exits ∷ []

-- The lines that report an error.
pub data Message : Type 0 where
  malformed no_pipe no_process no_background : Message

pub record Os (S : Type 0) : Type 0 where
  pub println : Message → S → S
  pub write : List ℕ → S → S
  pub pipe_create : S → ℤ × S
  pub create_process : Entry → List ℕ → ℤ → ℤ → S → ℤ × S
  pub waitpid : ℕ → S → S
  pub read : S → ℕ × (List ℕ × S)

abbrev pub blank : ℕ → Bool
blank c = c == 32 || c == 9

unfoldable pub sh_strcpy : List ℕ → ℕ → List ℕ
sh_strcpy src max = take (max - 1) src

unfoldable pub sh_trim_left : List ℕ → List ℕ
sh_trim_left [] = []
sh_trim_left (c ∷ s) = if blank c then sh_trim_left s else c ∷ s

-- The characters up to the first blank, `room` at most.
unfoldable pub token_of : ℕ → List ℕ → List ℕ
token_of zero s = []
token_of (suc room) [] = []
token_of (suc room) (c ∷ s) = let rest = token_of room s in if blank c then [] else c ∷ rest

unfoldable pub sh_first_token : List ℕ → ℕ → List ℕ
unfolding token_of sh_trim_left
sh_first_token src max = token_of (max - 1) (sh_trim_left src)

-- A blank goes where nothing but blanks is behind it.
unfoldable pub sh_trim_right : List ℕ → List ℕ
sh_trim_right [] = []
sh_trim_right (c ∷ s) =
    let rest = sh_trim_right s in if length rest == 0 && blank c then [] else c ∷ rest

-- Whether the last character is `&`, and the line without it.
unfoldable pub ends_in_ampersand : List ℕ → Bool
ends_in_ampersand [] = false
ends_in_ampersand (c ∷ s) =
    let rest = ends_in_ampersand s in if length s == 0 then c == 38 else rest

unfoldable pub without_last : List ℕ → List ℕ
without_last [] = []
without_last (c ∷ s) = let rest = without_last s in if length s == 0 then [] else c ∷ rest

unfoldable pub find_bar : List ℕ → Option ℕ
find_bar [] = none
find_bar (c ∷ s) =
    let rest = on_some (find_bar s) (λ i. some (suc i)) none in if c == 124 then some 0 else rest

module _ {S : Type 0} (os : Os S) where
  -- `if (pid > 0) waitpid((uint64_t)pid);`
  unfoldable pub wait_if_started : ℤ → S → S
  wait_if_started (pos zero) s = s
  wait_if_started (pos (suc n)) s = os.waitpid (suc n) s
  wait_if_started (negsuc n) s = s

  -- Both sides of a pipe that has been created.
  unfoldable pub start_both : List ℕ → List ℕ → ℤ → Shell × S → Shell × S
  unfolding wait_if_started sh_first_token sh_strcpy
  start_both cmd1 cmd2 (pos id) (sh, s) =
      let sh1 = record sh {
        pipe_ctx_a = record { cmd = sh_strcpy cmd1 256; pipe_id = pos id };
        pipe_ctx_b = record { cmd = sh_strcpy cmd2 256; pipe_id = pos id };
      } in
      let a = os.create_process pipe_proc_a (sh_first_token cmd1 32) (pos 2) (pos 1) s in
      let b = os.create_process pipe_proc_b (sh_first_token cmd2 32) (pos 2) (pos 1) a.1 in
      (sh1, wait_if_started b.0 (wait_if_started a.0 b.1))
  start_both cmd1 cmd2 (negsuc n) (sh, s) = (sh, os.println no_pipe s)

  unfoldable pub run_pair : List ℕ → List ℕ → Shell × S → Shell × S
  unfolding start_both
  run_pair cmd1 cmd2 (sh, s) =
      if length cmd1 == 0 || length cmd2 == 0
      then (sh, os.println malformed s)
      else let p = os.pipe_create s in start_both cmd1 cmd2 p.0 (sh, p.1)

  unfoldable pub run_piped : List ℕ → ℕ → Shell × S → Shell × S
  unfolding run_pair sh_trim_left sh_trim_right
  run_piped buf pipe_pos st =
      run_pair (sh_trim_right (take pipe_pos buf)) (sh_trim_left (drop (suc pipe_pos) buf)) st

  unfoldable pub announce : ℤ → S → S
  announce (pos n) s =
      os.write (b']' ∷ 10 ∷ []) (os.write (uint_to_base n 10).1 (os.write (b'[' ∷ []) s))
  announce (negsuc n) s = os.println no_background s

  unfoldable pub run_background : List ℕ → Shell × S → Shell × S
  unfolding announce sh_first_token sh_strcpy
  run_background buf (sh, s) =
      let p = os.create_process bg_proc_entry (sh_first_token buf 32) (pos 2) (pos 0) s in
      (record sh { bg_cmd = sh_strcpy buf 256 }, announce p.0 p.1)

  unfoldable pub wait_foreground : ℤ → S → S
  wait_foreground (pos n) s = os.waitpid n s
  wait_foreground (negsuc n) s = os.println no_process s

  unfoldable pub run_foreground : List ℕ → Shell × S → Shell × S
  unfolding wait_foreground sh_first_token sh_strcpy
  run_foreground buf (sh, s) =
      let p = os.create_process fg_proc_entry (sh_first_token buf 32) (pos 2) (pos 1) s in
      (record sh { fg_cmd = sh_strcpy buf 256 }, wait_foreground p.0 p.1)

  -- A line that is not empty, without its `&`.
  unfoldable pub dispatch_rest : Bool → List ℕ → Shell × S → Shell × S
  unfolding run_piped run_background run_foreground find_bar
  dispatch_rest background buf st =
      on_some (find_bar buf) (λ pipe_pos. run_piped buf pipe_pos st)
        (if background then run_background buf st else run_foreground buf st)

  unfoldable pub shell_dispatch : List ℕ → Shell × S → Shell × S
  unfolding dispatch_rest ends_in_ampersand without_last sh_trim_right
  shell_dispatch buf st =
      let rest = sh_trim_right (without_last buf) in
      if length buf == 0
      then st
      else if ends_in_ampersand buf
      then (if length rest == 0 then st else dispatch_rest true rest st)
      else dispatch_rest false buf st

  -- What `main` does with the length and the buffer that `read` gives.
  unfoldable pub dispatch_read : ℕ × (List ℕ × S) → Shell → Shell × S
  unfolding shell_dispatch
  dispatch_read r sh = if r.0 == 0 then (sh, r.1.1) else shell_dispatch r.1.0 (sh, r.1.1)

  -- One round of `main`.
  unfoldable pub shell_round : Shell × S → Shell × S
  unfolding dispatch_read
  shell_round (sh, s) = dispatch_read (os.read (os.write (b'-' ∷ b' ' ∷ []) s)) sh
