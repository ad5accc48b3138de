-- ===== src/Pipe/Write.antt =====
-- `pipe_write` against the queue of bytes in the pipe.
use tp_so.Prelude.{
  ℕ, suc, ◌+◌, ◌≤◌, ◌<◌, ◌≡◌, sym, ap, ◌∙◌, true, false, List, [], ◌∷◌, ◌++◌, append_assoc,
  append-nil, ◌==◌, arith, ltb, lt→ltb, length, pos, if_elim, subst,
}
use tp_so.Machine.{System, pipe_buf_size, max_pipes, on_pipe}
use tp_so.Pipe.{PipeOutcome, returns, write_loop, pipe_write, put_byte, is_active}
use tp_so.Pipe.Ring.{contents, IsRing, put_byte-contents}
use tp_so.Scheduler.Frame.{SameOutside-refl}
use tp_so.Pipe.Moved.{SameEnds, SameEnds-refl, SameEnds-trans, put_byte-SameEnds, Moved, finish}

module _ {M : Type 0} where
  after_put : ℕ → ℕ → System M → System M
  after_put i b k = on_pipe i (put_byte b) k

  pipe-after_put : (i b : ℕ) (k : System M) → (after_put i b k).pipes i ≡ put_byte b (k.pipes i)
  unfolding after_put
  pipe-after_put i b k = ground arith

  -- A byte more in the pipe than the rest of the loop counts.
  Moved-put :
      (i b n m : ℕ) (out bs : List ℕ) (k : System M) (r : PipeOutcome M)
      → IsRing (k.pipes i)
      → (k.pipes i).count < pipe_buf_size
      → m ≡ n
      → Moved i m out (contents ((after_put i b k).pipes i) ++ bs) (after_put i b k) r
      → Moved i n out (contents (k.pipes i) ++ (b ∷ bs)) k r
  unfolding after_put
  Moved-put i b n m out bs k r v h e w = record {
    state = w.state;
    result = w.result ∙ ap (λ x. returns (pos x) out w.state) e;
    now =
        w.now
        ∙ ap (λ p. contents p ++ bs) (pipe-after_put i b k)
        ∙ ap (λ c. c ++ bs) (put_byte-contents b (k.pipes i) v h).0
        ∙ append_assoc (contents (k.pipes i)) (b ∷ []) bs;
    ring = w.ring;
    ends =
        SameEnds-trans
          (subst (SameEnds (k.pipes i)) (sym (pipe-after_put i b k))
            (put_byte-SameEnds b (k.pipes i)))
          w.ends;
    outside = w.outside;
  }

  -- What the write loop needs to run to its end without sleeping.
  pub record Room (i n : ℕ) (k : System M) : Type 0 where
    pub ring : IsRing (k.pipes i)
    pub readers : 0 < (k.pipes i).read_open
    pub fits : (k.pipes i).count + n ≤ pipe_buf_size

  Room-put : (i b n : ℕ) (k : System M) → Room i (suc n) k → Room i n (after_put i b k)
  Room-put i b n k r =
      let t =
        subst (λ p. IsRing p × (0 < p.read_open) × (p.count + n ≤ pipe_buf_size))
          (sym (pipe-after_put i b k))
          (
            (put_byte-contents b (k.pipes i) r.ring (omega arith)).1,
            rw ((put_byte-SameEnds b (k.pipes i)).read_open) r.readers,
            unfold put_byte in omega arith,
          ) in
      record { ring = t.0; readers = t.1; fits = t.2 }

  write_loop-Moved :
      (es : List (System M → System M)) (i : ℕ) (buf : List ℕ) (written : ℕ) (k : System M)
      → Room i (length buf) k
      → Moved i
          (written + length buf)
          []
          (contents (k.pipes i) ++ buf)
          k
          (write_loop es i buf written k)
  unfolding write_loop after_put
  write_loop-Moved es i [] written k r =
      subst (λ n. Moved i n [] (contents (k.pipes i) ++ []) k (write_loop es i [] written k))
        (omega arith)
        (finish i written [] (contents (k.pipes i) ++ []) k k
          (sym (append-nil (contents (k.pipes i)))) r.ring (SameEnds-refl (k.pipes i))
          (SameOutside-refl k))
  write_loop-Moved [] i (b ∷ bs) written k r =
      if_elim (Moved i (written + suc (length bs)) [] (contents (k.pipes i) ++ (b ∷ bs)) k)
        ((k.pipes i).read_open == 0) (λ e. absurd (ground (arith, r.readers)))
        (λ _.
          if_elim (Moved i (written + suc (length bs)) [] (contents (k.pipes i) ++ (b ∷ bs)) k)
            (ltb (k.pipes i).count pipe_buf_size)
            (λ _.
              Moved-put i b _ (written + 1 + length bs) [] bs k _ r.ring (omega (arith, r.fits))
                (omega arith)
                (write_loop-Moved [] i bs (written + 1) (after_put i b k)
                  (Room-put i b (length bs) k r)))
            (λ f. absurd (ground (arith, r.fits))))
  write_loop-Moved (e ∷ es) i (b ∷ bs) written k r =
      if_elim (Moved i (written + suc (length bs)) [] (contents (k.pipes i) ++ (b ∷ bs)) k)
        ((k.pipes i).read_open == 0) (λ e. absurd (ground (arith, r.readers)))
        (λ _.
          if_elim (Moved i (written + suc (length bs)) [] (contents (k.pipes i) ++ (b ∷ bs)) k)
            (ltb (k.pipes i).count pipe_buf_size)
            (λ _.
              Moved-put i b _ (written + 1 + length bs) [] bs k _ r.ring (omega (arith, r.fits))
                (omega arith)
                (write_loop-Moved (e ∷ es) i bs (written + 1) (after_put i b k)
                  (Room-put i b (length bs) k r)))
            (λ f. absurd (ground (arith, r.fits))))

  -- `pipe_write` to an active pipe that has a reader and room for all of a non-empty buffer returns
  -- the buffer's length without sleeping, and leaves the bytes behind those that were in the pipe.
  pub pipe_write-Moved :
      (es : List (System M → System M)) (i : ℕ) (buf : List ℕ) (k : System M)
      → i < max_pipes
      → is_active (k.pipes i) ≡ true
      → 0 < length buf
      → Room i (length buf) k
      → Moved i (length buf) [] (contents (k.pipes i) ++ buf) k (pipe_write es (pos i) buf k)
  unfolding pipe_write
  pipe_write-Moved es i buf k h a n r = rw (lt→ltb i max_pipes h) (
      if_elim Goal (is_active (k.pipes i))
        (λ _.
          if_elim Goal (length buf == 0) (λ e. absurd (ground arith))
            (λ _.
              subst (λ n. Moved i n [] (contents (k.pipes i) ++ buf) k (write_loop es i buf 0 k))
                (omega arith) (write_loop-Moved es i buf 0 k r)))
        (λ f. let c : true ≡ false = sym a ∙ f in cc))
    where
      Goal : PipeOutcome M → Type 0
      Goal = Moved i (length buf) [] (contents (k.pipes i) ++ buf) k
