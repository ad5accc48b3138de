-- ===== src/Pipe/Read.antt =====
-- `pipe_read` against the queue of bytes in the pipe.
use tp_so.Prelude.{
  ℕ, min, ◌<◌, ◌≡◌, sym, ap, ◌∙◌, true, List, [], ◌∷◌, ◌==◌, arith, ltb, lt→ltb, take, drop, pos,
  if_elim, ◌&&◌, subst,
}
use tp_so.Machine.{System, max_pipes, on_pipe}
use tp_so.Pipe.{
  PipeOutcome, returns, pipe_notify, read_now, read_loop, pipe_read, take_bytes, is_active,
  copy_out, read_size,
}
use tp_so.Pipe.Ring.{contents, IsRing, take_bytes-contents}
use tp_so.Scheduler.Frame.{SameOutside-refl}
use tp_so.Pipe.Moved.{SameEnds, take_bytes-SameEnds, Moved, finish}

module _ {M : Type 0} where
  after_take : ℕ → ℕ → System M → System M
  after_take i n k = on_pipe i (take_bytes n) k

  pipe-after_take : (i n : ℕ) (k : System M) → take_bytes n (k.pipes i) ≡ (after_take i n k).pipes i
  unfolding after_take
  pipe-after_take i n k = ground arith

  read_now-Moved :
      (i count : ℕ) (k : System M)
      → IsRing (k.pipes i)
      → let n = read_size count (k.pipes i) in
        Moved i n
          (take n (contents (k.pipes i)))
          (drop n (contents (k.pipes i)))
          k
          (read_now i count k)
  unfolding read_now after_take
  read_now-Moved i count k v =
      let n = read_size count (k.pipes i) in
      let t = take_bytes-contents n (k.pipes i) v (unfold read_size in ground arith) in
      subst
        (λ out. Moved i n out (drop n (contents (k.pipes i))) k (
          returns (pos n) (copy_out n (k.pipes i).buffer (k.pipes i).read_pos)
            (pipe_notify (pos i) (after_take i n k))))
        t.0
        (finish i n (copy_out n (k.pipes i).buffer (k.pipes i).read_pos)
          (drop n (contents (k.pipes i))) k (after_take i n k)
          (ap contents (sym (pipe-after_take i n k)) ∙ t.1)
          (subst IsRing (pipe-after_take i n k) t.2)
          (subst (SameEnds (k.pipes i)) (pipe-after_take i n k) (take_bytes-SameEnds n (k.pipes i)))
          (SameOutside-refl (after_take i n k)))

  read_loop-Moved :
      (es : List (System M → System M)) (i count : ℕ) (k : System M)
      → 0 < (k.pipes i).count
      → IsRing (k.pipes i)
      → let n = read_size count (k.pipes i) in
        Moved i n
          (take n (contents (k.pipes i)))
          (drop n (contents (k.pipes i)))
          k
          (read_loop es i count k)
  unfolding read_loop
  read_loop-Moved [] i count k p v =
      if_elim (Moved i _ _ _ k) (ltb 0 (k.pipes i).count) (λ _. read_now-Moved i count k v)
        (λ f. absurd (ground arith))
  read_loop-Moved (e ∷ es) i count k p v =
      if_elim (Moved i _ _ _ k) (ltb 0 (k.pipes i).count) (λ _. read_now-Moved i count k v)
        (λ f. absurd (ground arith))

  -- `pipe_read` of a positive number of bytes from an active pipe that is open for reading and holds
  -- bytes returns without sleeping as many of the oldest bytes as there are, up to that number, in
  -- order, and leaves the others.
  pub pipe_read-Moved :
      (es : List (System M → System M)) (i count : ℕ) (k : System M)
      → i < max_pipes
      → is_active (k.pipes i) ≡ true
      → 0 < (k.pipes i).read_open
      → 0 < count
      → 0 < (k.pipes i).count
      → IsRing (k.pipes i)
      → let n = min count (k.pipes i).count in
        Moved i n
          (take n (contents (k.pipes i)))
          (drop n (contents (k.pipes i)))
          k
          (pipe_read es (pos i) count k)
  unfolding pipe_read
  pipe_read-Moved es i count k h a o c p v =
      subst
        (λ n.
          Moved i n (take n (contents (k.pipes i))) (drop n (contents (k.pipes i))) k
            (pipe_read es (pos i) count k))
        size
        (rw (lt→ltb i max_pipes h) (
          if_elim Goal (is_active (k.pipes i) && ltb 0 (k.pipes i).read_open)
            (λ _.
              if_elim Goal (count == 0) (λ e. absurd (ground arith))
                (λ _. read_loop-Moved es i count k p v))
            (λ f. absurd (ground arith))))
    where
      size : read_size count (k.pipes i) ≡ min count (k.pipes i).count
      size = unfold read_size in ground arith

      Goal : PipeOutcome M → Type 0
      Goal =
          Moved i (read_size count (k.pipes i))
            (take (read_size count (k.pipes i)) (contents (k.pipes i)))
            (drop (read_size count (k.pipes i)) (contents (k.pipes i))) k
