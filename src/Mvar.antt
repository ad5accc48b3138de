-- ===== src/Mvar.antt =====
-- Userland/shell/commands/mvar_cmds.c: the processes of the command `mvar`, which hand values over in
-- one shared variable.
--
-- Each step of a process is one call or one access to the variable; a schedule is the list of the
-- processes that take a step, one after the other, in any order. A process that sleeps in `sem_wait`
-- takes no step. `written` and `shown` record what was stored and what was printed, first to last. The
-- busy waiting between two rounds is left out.
pub mod Inv
pub mod Moves
pub mod Waits
pub mod Steps
pub mod Handed
use tp_so.Prelude.{
  ℕ, ◌+◌, Option, none, some, Bool, true, false, not, List, [], ◌∷◌, ◌++◌, ℤ, eq_ℤ, update,
  find_from, on_some, if◌then◌else◌,
}
use tp_so.Text.{uint_to_base}
use tp_so.Gate.{Gate, open_gate, goes_through, gate_wait, gate_post, first_waiting}

-- Where a process is in the body of its loop: before its first wait, before or in the wait for the
-- mutex, with the mutex before the access, after it, behind `sem_post(sem_mutex)`.
pub data Loc : Type 0 where
  start lock access : Loc
  show : ℕ → Loc
  unlock pass : Loc

pub record Worker : Type 0 where
  pub at : Loc
  pub asleep : Bool

-- The letter that a writer writes, or the number that a reader prints behind what it read.
pub data Role : Type 0 where
  writer : ℕ → Role
  reader : ℕ → Role

pub record Mvar : Type 0 where
  pub workers : ℕ → Worker
  pub empty : Gate
  pub full : Gate
  pub mutex : Gate
  pub val : ℕ
  pub written : List ℕ
  pub shown : List (List ℕ)

abbrev pub resting : Worker
resting = record { at = start; asleep = false }

abbrev pub awake_at : Loc → Worker
awake_at l = record { at = l; asleep = false }

-- What the command sets up.
abbrev pub cmd_mvar : Mvar
cmd_mvar = record {
  workers = λ _. resting;
  empty = open_gate 1;
  full = open_gate 0;
  mutex = open_gate 1;
  val = 0;
  written = [];
  shown = [];
}

-- The letter, with the reader's number behind it.
unfoldable pub print_text : ℕ → ℕ → List ℕ
print_text c id = c ∷ (uint_to_base (id + 1) 10).1

unfoldable pub wake : Option ℕ → (ℕ → Worker) → ℕ → Worker
wake none ws = ws
wake (some u) ws = update ws u (record (ws u) { asleep = false })

-- Process `t` calls `sem_wait`, and goes on at `l` once it is through.
abbrev pub waits : Gate → Loc → ℕ → (ℕ → Worker) → ℕ → Worker
waits g l t ws = update ws t (record { at = l; asleep = not (goes_through g) })

-- Process `t` calls `sem_post`, and goes on at `l`.
abbrev pub posts : Gate → Loc → ℕ → (ℕ → Worker) → ℕ → Worker
posts g l t ws = update (wake (first_waiting g) ws) t (awake_at l)

unfoldable pub mvar_writer_entry : ℕ → ℕ → Loc → Mvar → Mvar
unfolding wake
mvar_writer_entry val t start m = record m {
  empty = gate_wait t m.empty;
  workers = waits m.empty lock t m.workers;
}
mvar_writer_entry val t lock m = record m {
  mutex = gate_wait t m.mutex;
  workers = waits m.mutex access t m.workers;
}
mvar_writer_entry val t access m = record m {
  val = val;
  written = m.written ++ (val ∷ []);
  workers = update m.workers t (awake_at unlock);
}
mvar_writer_entry val t (show c) m = m
mvar_writer_entry val t unlock m = record m {
  mutex = gate_post m.mutex;
  workers = posts m.mutex pass t m.workers;
}
mvar_writer_entry val t pass m = record m {
  full = gate_post m.full;
  workers = posts m.full start t m.workers;
}

unfoldable pub mvar_reader_entry : ℕ → ℕ → Loc → Mvar → Mvar
unfolding wake print_text
mvar_reader_entry id t start m = record m {
  full = gate_wait t m.full;
  workers = waits m.full lock t m.workers;
}
mvar_reader_entry id t lock m = record m {
  mutex = gate_wait t m.mutex;
  workers = waits m.mutex access t m.workers;
}
mvar_reader_entry id t access m = record m { workers = update m.workers t (awake_at (show m.val)) }
mvar_reader_entry id t (show c) m = record m {
  shown = m.shown ++ (print_text c id ∷ []);
  workers = update m.workers t (awake_at unlock);
}
mvar_reader_entry id t unlock m = record m {
  mutex = gate_post m.mutex;
  workers = posts m.mutex pass t m.workers;
}
mvar_reader_entry id t pass m = record m {
  empty = gate_post m.empty;
  workers = posts m.empty start t m.workers;
}

unfoldable pub act : Role → ℕ → Loc → Mvar → Mvar
unfolding mvar_writer_entry mvar_reader_entry
act (writer val) t l m = mvar_writer_entry val t l m
act (reader id) t l m = mvar_reader_entry id t l m

module _ (role : ℕ → Role) where
  unfoldable pub step : ℕ → Mvar → Mvar
  unfolding act
  step t m = if (m.workers t).asleep then m else act (role t) t (m.workers t).at m

  unfoldable pub run : List ℕ → Mvar → Mvar
  unfolding step
  run [] m = m
  run (t ∷ ts) m = run ts (step t m)
