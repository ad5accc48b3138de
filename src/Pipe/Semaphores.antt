-- ===== src/Pipe/Semaphores.antt =====
-- Kernel/pipes/pipe.c and the invariant of Sem/Validity.antt. A call of pipe.c that does not sleep
-- leaves the semaphores alone; while one sleeps they are what the events make of them.
use tp_so.Prelude.{
  ℕ, ◌+◌, ◌≡◌, refl, ◌∙◌, none, some, Option, List, [], ◌∷◌, ℤ, pos, negsuc, All, if_elim,
  on_some_elim, index, ltb, ◌==◌, length, ◌&&◌,
}
use tp_so.Machine.{System, max_pipes, pipe_buf_size, on_pipe, on_proc}
use tp_so.Scheduler.{block_current_process, yield_process}
use tp_so.Sem.Validity.{AllValid, Keeps, sems-block_current}
use tp_so.Process.Semaphores.{Sound-same}
use tp_so.Pipe.{
  PipeOutcome, returns, asleep, pipe_create, free_pipe, name_pipe, pipe_open, find_pipe,
  pipe_close_at, pipe_close, close_side, side_open, pipe_notify, is_active, pipe_block, read_size,
  take_bytes, read_now, read_loop, pipe_read, put_byte, write_loop, pipe_write,
}
use tp_so.Pipe.Moved.{pipe_notify-SameOutside}

module _ {M : Type 0} where
  -- The semaphores in the state that a call of pipe.c ends or sleeps in.
  abbrev pub LeavesPipe : PipeOutcome M → Type 0
  LeavesPipe (returns r out k) = AllValid k.sems
  LeavesPipe (asleep k) = AllValid k.sems

  abbrev SemsIn : System M → ℤ × System M → Type 0
  SemsIn k r = r.1.sems ≡ k.sems

  pub pipe_create-sems : (k : System M) → (pipe_create k).1.sems ≡ k.sems
  unfolding pipe_create
  pipe_create-sems k = on_some_elim (SemsIn k) (free_pipe k) (λ _ _. refl) (λ _. refl)

  name_pipe-sems : (name : List ℕ) (r : ℤ × System M) → (name_pipe name r).1.sems ≡ r.1.sems
  unfolding name_pipe
  name_pipe-sems name (pos i, k) = refl
  name_pipe-sems name (negsuc n, k) = refl

  pub pipe_open-sems : (name : Option (List ℕ)) (k : System M) → (pipe_open name k).1.sems ≡ k.sems
  unfolding pipe_open
  pipe_open-sems none k = refl
  pipe_open-sems (some name) k =
      on_some_elim (SemsIn k) (find_pipe name k) (λ _ _. refl)
        (λ _. name_pipe-sems name (pipe_create k) ∙ pipe_create-sems k)

  pipe_close_at-sems : (i : ℕ) (side : ℤ) (k : System M) → (pipe_close_at i side k).1.sems ≡ k.sems
  unfolding pipe_close_at
  pipe_close_at-sems i side k =
      let k1 = on_pipe i (close_side side) k in
      if_elim (SemsIn k) (is_active (k.pipes i))
        (λ _.
          if_elim (λ (s : System M). s.sems ≡ k.sems) (side_open side (k1.pipes i) == 0)
            (λ _. (pipe_notify-SameOutside (pos i) k1).sems) (λ _. refl))
        (λ _. refl)

  pub pipe_close-sems : (id side : ℤ) (k : System M) → (pipe_close id side k).1.sems ≡ k.sems
  unfolding pipe_close
  pipe_close-sems id side k =
      on_some_elim (SemsIn k) (index id max_pipes) (λ i _. pipe_close_at-sems i side k) (λ _. refl)

  pipe_block-AllValid : (i : ℕ) (k : System M) → AllValid k.sems → AllValid (pipe_block i k).sems
  unfolding pipe_block yield_process
  pipe_block-AllValid i k v =
      on_some_elim (λ (s : System M). AllValid s.sems) k.current
        (λ c _.
          let on_it = on_proc c (λ x. record x { waiting_pipe = pos i }) k in
          Sound-same on_it (block_current_process on_it) (sems-block_current on_it) v)
        (λ _. v)

  read_now-AllValid :
      (i count : ℕ) (k : System M) → AllValid k.sems → LeavesPipe (read_now i count k)
  unfolding read_now
  read_now-AllValid i count k v =
      let rest = on_pipe i (take_bytes (read_size count (k.pipes i))) k in
      Sound-same rest (pipe_notify (pos i) rest) (pipe_notify-SameOutside (pos i) rest).sems v

  read_loop-AllValid :
      (es : List (System M → System M)) (i count : ℕ) (k : System M)
      → All Keeps es
      → AllValid k.sems
      → LeavesPipe (read_loop es i count k)
  unfolding read_loop
  read_loop-AllValid [] i count k h v =
      if_elim LeavesPipe (ltb 0 (k.pipes i).count) (λ _. read_now-AllValid i count k v)
        (λ _.
          if_elim LeavesPipe ((k.pipes i).write_open == 0) (λ _. v)
            (λ _. pipe_block-AllValid i k v))
  read_loop-AllValid (e ∷ es) i count k h v =
      if_elim LeavesPipe (ltb 0 (k.pipes i).count) (λ _. read_now-AllValid i count k v)
        (λ _.
          if_elim LeavesPipe ((k.pipes i).write_open == 0) (λ _. v)
            (λ _.
              read_loop-AllValid es i count (e (pipe_block i k)) h.1
                (h.0 (pipe_block i k) (pipe_block-AllValid i k v))))

  pub pipe_read-AllValid :
      (es : List (System M → System M)) (id : ℤ) (count : ℕ) (k : System M)
      → All Keeps es
      → AllValid k.sems
      → LeavesPipe (pipe_read es id count k)
  unfolding pipe_read
  pipe_read-AllValid es id count k h v =
      on_some_elim LeavesPipe (index id max_pipes)
        (λ i _.
          if_elim LeavesPipe (is_active (k.pipes i) && ltb 0 (k.pipes i).read_open)
            (λ _.
              if_elim LeavesPipe (count == 0) (λ _. v) (λ _. read_loop-AllValid es i count k h v))
            (λ _. v))
        (λ _. v)

  write_loop-AllValid :
      (es : List (System M → System M)) (i : ℕ) (bs : List ℕ) (written : ℕ) (k : System M)
      → All Keeps es
      → AllValid k.sems
      → LeavesPipe (write_loop es i bs written k)
  unfolding write_loop
  write_loop-AllValid es i [] written k h v =
      Sound-same k (pipe_notify (pos i) k) (pipe_notify-SameOutside (pos i) k).sems v
  write_loop-AllValid [] i (b ∷ bs) written k h v =
      if_elim LeavesPipe ((k.pipes i).read_open == 0) (λ _. v)
        (λ _.
          if_elim LeavesPipe (ltb (k.pipes i).count pipe_buf_size)
            (λ _. write_loop-AllValid [] i bs (written + 1) (on_pipe i (put_byte b) k) h v)
            (λ _. pipe_block-AllValid i k v))
  write_loop-AllValid (e ∷ es) i (b ∷ bs) written k h v =
      if_elim LeavesPipe ((k.pipes i).read_open == 0) (λ _. v)
        (λ _.
          if_elim LeavesPipe (ltb (k.pipes i).count pipe_buf_size)
            (λ _. write_loop-AllValid (e ∷ es) i bs (written + 1) (on_pipe i (put_byte b) k) h v)
            (λ _.
              write_loop-AllValid es i (b ∷ bs) written (e (pipe_block i k)) h.1
                (h.0 (pipe_block i k) (pipe_block-AllValid i k v))))

  pub pipe_write-AllValid :
      (es : List (System M → System M)) (id : ℤ) (buf : List ℕ) (k : System M)
      → All Keeps es
      → AllValid k.sems
      → LeavesPipe (pipe_write es id buf k)
  unfolding pipe_write
  pipe_write-AllValid es id buf k h v =
      on_some_elim LeavesPipe (index id max_pipes)
        (λ i _.
          if_elim LeavesPipe (is_active (k.pipes i))
            (λ _.
              if_elim LeavesPipe (length buf == 0) (λ _. v)
                (λ _. write_loop-AllValid es i buf 0 k h v))
            (λ _. v))
        (λ _. v)
