-- ===== src/Pipe/Flow.antt =====
-- What is written to a pipe comes out of it again.
use tp_so.Prelude.{
  ℕ, min, ◌≤◌, ◌<◌, ◌≡◌, sym, ap, ◌∙◌, true, List, [], ◌++◌, arith, length, take, drop, take-length,
  drop-length, pos, subst,
}
use tp_so.Machine.{System, max_pipes}
use tp_so.Pipe.{returns, pipe_write, pipe_read, is_active}
use tp_so.Pipe.Ring.{contents, IsRing, length-contents}
use tp_so.Pipe.Moved.{SameEnds, Moved}
use tp_so.Pipe.Write.{Room, pipe_write-Moved}
use tp_so.Pipe.Read.{pipe_read-Moved}

module _ {M : Type 0} where
  -- What was written to an empty pipe is read back, byte for byte, and the pipe is empty again.
  pub pipe_read-pipe_write :
      (es fs : List (System M → System M)) (i count : ℕ) (buf : List ℕ) (k s : System M)
      → i < max_pipes
      → is_active (k.pipes i) ≡ true
      → contents (k.pipes i) ≡ []
      → 0 < length buf
      → length buf ≤ count
      → Room i (length buf) k
      → pipe_write es (pos i) buf k ≡ returns (pos (length buf)) [] s
      → Moved i (length buf) buf [] s (pipe_read fs (pos i) count s)
  pipe_read-pipe_write es fs i count buf k s h a z n l r e =
      subst (λ b. Moved i (length buf) buf b s (pipe_read fs (pos i) count s)) (drop-length buf)
        (subst
          (λ b. Moved i (length buf) b (drop (length buf) buf) s (pipe_read fs (pos i) count s))
          (take-length buf)
          (subst (λ m. Moved i m (take m buf) (drop m buf) s (pipe_read fs (pos i) count s))
            (omega (arith, counted))
            (subst
              (λ b.
                Moved i (min count (s.pipes i).count) (take (min count (s.pipes i).count) b)
                  (drop (min count (s.pipes i).count) b) s (pipe_read fs (pos i) count s))
              holds
              (pipe_read-Moved fs i count s h (ends.active ∙ a) (rw (ends.read_open) r.readers)
                (omega arith) (omega (arith, counted)) ring))))
    where
      w : Moved i (length buf) [] (contents (k.pipes i) ++ buf) k (pipe_write es (pos i) buf k)
      w = pipe_write-Moved es i buf k h a n r

      same : w.state ≡ s
      same = cc (w.result, e)

      holds : contents (s.pipes i) ≡ buf
      holds =
          subst (λ (t : System M). contents (t.pipes i) ≡ buf) same (w.now ∙ ap (λ c. c ++ buf) z)

      ring : IsRing (s.pipes i)
      ring = subst (λ (t : System M). IsRing (t.pipes i)) same w.ring

      ends : SameEnds (k.pipes i) (s.pipes i)
      ends = subst (λ (t : System M). SameEnds (k.pipes i) (t.pipes i)) same w.ends

      counted : (s.pipes i).count ≡ length buf
      counted = sym (length-contents (s.pipes i)) ∙ ap length holds
