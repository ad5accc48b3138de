-- ===== src/Tests/Pipes.antt =====
-- The pipe theorems on the machine of Tests/Sample.antt, whose empty pipe 0 has both positions on the
-- last byte of its buffer.
use tp_so.Prelude.{ℕ, ◌≡◌, refl, List, [], ◌∷◌, ◌++◌, pos, arith, take, drop, update}
use tp_so.Machine.{System, Pipe}
use tp_so.Pipe.{pipe_write, pipe_read, copy_out}
use tp_so.Pipe.Ring.{contents}
use tp_so.Pipe.Moved.{Moved}
use tp_so.Pipe.Write.{Room, pipe_write-Moved}
use tp_so.Pipe.Read.{pipe_read-Moved}
use tp_so.Pipe.Flow.{pipe_read-pipe_write}
use tp_so.Tests.Sample.{machine}

abbrev text : List ℕ
text = 104 ∷ 111 ∷ 108 ∷ 97 ∷ []

roomy : Room 0 4 machine
roomy = record {
  ring = record { read_in = omega arith; count_in = omega arith; write_at = omega arith };
  readers = omega arith;
  fits = omega arith;
}

pipe_write-Moved_example :
    Moved 0 4 [] (contents (machine.pipes 0) ++ text) machine (pipe_write [] (pos 0) text machine)
pipe_write-Moved_example = pipe_write-Moved [] 0 text machine (omega arith) refl (omega arith) roomy

moved :
    Moved 0 4 [] (contents (machine.pipes 0) ++ text) machine (pipe_write [] (pos 0) text machine)
moved = pipe_write-Moved [] 0 text machine (omega arith) refl (omega arith) roomy

empty : contents (machine.pipes 0) ≡ []
unfolding contents copy_out
empty = refl

pipe_read-pipe_write_example : Moved 0 4 text [] moved.state (pipe_read [] (pos 0) 10 moved.state)
pipe_read-pipe_write_example =
    pipe_read-pipe_write [] [] 0 10 text machine moved.state (omega arith) refl empty (omega arith)
      (omega arith) roomy moved.result

-- A machine whose pipe 0 holds three bytes, two of them behind the wrap.
abbrev full_pipe : Pipe
full_pipe = record (machine.pipes 0) { buffer = λ i. i; write_pos = 2; count = 3 }

abbrev loaded : System (Unit {0})
loaded = record machine { pipes = update machine.pipes 0 full_pipe }

pipe_read-Moved_example :
    Moved 0 2
      (take 2 (contents full_pipe))
      (drop 2 (contents full_pipe))
      loaded
      (pipe_read [] (pos 0) 2 loaded)
pipe_read-Moved_example =
    pipe_read-Moved [] 0 2 loaded (omega arith) refl (omega arith) (omega arith) (omega arith)
      (record { read_in = omega arith; count_in = omega arith; write_at = omega arith })
