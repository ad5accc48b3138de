-- ===== src/Syscall/Line.antt =====
-- What a process whose standard input is a pipe reads.
use tp_so.Prelude.{
  ℕ, zero, suc, min, All, take, drop, ◌+◌, ◌<◌, ◌≡◌, ◌≢◌, refl, sym, ap, ap₂, ◌∙◌, subst, true,
  List, [], ◌∷◌, ◌++◌, length, ◌==◌, ==_false, arith, pos, some, on_some, update, if◌then◌else◌,
}
use tp_so.Machine.{System, max_pipes}
use tp_so.Pipe.{pipe_read, is_active}
use tp_so.Pipe.Ring.{contents, IsRing, length-contents}
use tp_so.Pipe.Moved.{Moved}
use tp_so.Pipe.Read.{pipe_read-Moved}
use tp_so.Process.{store}
use tp_so.Memory.{Manager}
use tp_so.ProcessTable.{ProcessInfo}
use tp_so.Syscall.Table.{syscall_read}
use tp_so.Syscall.{redirected, Reply, done, with_result, poke, line_step, read_line}

-- An empty line counts as one character.
abbrev pub line_size : ℕ → ℕ
line_size n = if n == 0 then 1 else n

module _ {M : Type 0} where
  -- The call read `line`, which is now a string at `at`, and left `rest` in the pipe.
  pub record TookLine (registers : ℕ → ℕ) (at n i : ℕ) (line rest : List ℕ) (k : System M)
      (r : Reply M) : Type 0 where
    pub state : System M
    pub result : r ≡ done (with_result registers n) state
    pub now : contents (state.pipes i) ≡ rest
    pub memory : state.bytes ≡ store 1 at (line ++ (0 ∷ [])) k.bytes

  one_byte :
      (es : List (System M → System M)) (i c : ℕ) (rest : List ℕ) (k : System M)
      → i < max_pipes
      → is_active (k.pipes i) ≡ true
      → 0 < (k.pipes i).read_open
      → IsRing (k.pipes i)
      → contents (k.pipes i) ≡ c ∷ rest
      → Moved i 1 (c ∷ []) rest k (pipe_read es (pos i) 1 k)
  one_byte es i c rest k h a o v e =
      let there : 0 < (k.pipes i).count =
        omega (arith, sym (length-contents (k.pipes i)) ∙ ap length e) in
      let size : min 1 (k.pipes i).count ≡ 1 = omega arith in
      subst (λ b. Moved i 1 (take 1 b) (drop 1 b) k (pipe_read es (pos i) 1 k)) e
        (subst
          (λ n.
            Moved i n (take n (contents (k.pipes i))) (drop n (contents (k.pipes i))) k
              (pipe_read es (pos i) 1 k))
          size (pipe_read-Moved es i 1 k h a o (omega arith) there v))

  pub read_line-TookLine :
      (room : ℕ) (es : ℕ → List (System M → System M)) (registers : ℕ → ℕ) (buf i size : ℕ)
      (line rest : List ℕ) (k : System M)
      → i < max_pipes
      → is_active (k.pipes i) ≡ true
      → 0 < (k.pipes i).read_open
      → IsRing (k.pipes i)
      → contents (k.pipes i) ≡ line ++ (10 ∷ rest)
      → All (λ c. c ≢ 10) line
      → length line < room
      → TookLine registers
          (buf + size)
          (line_size (size + length line))
          i
          line
          rest
          k
          (read_line room es registers buf (pos i) size k)
  unfolding read_line line_step store
  read_line-TookLine zero es registers buf i size line rest k h a o v e nl l = absurd (omega arith)
  read_line-TookLine (suc room) es registers buf i size [] rest k h a o v e nl l =
      let m = one_byte (es size) i 10 rest k h a o v e in
      let z : size + 0 ≡ size = omega arith in
      rw (m.result, z)
        (record {
          state = poke (buf + size) 0 m.state;
          result = refl;
          now = m.now;
          memory = ap (λ b. update b (buf + size) 0) m.outside.bytes;
        })
  read_line-TookLine (suc room) es registers buf i size (c ∷ line) rest k h a o v e nl l =
      let m = one_byte (es size) i c (line ++ (10 ∷ rest)) k h a o v e in
      let s = poke (buf + size) c m.state in
      let t =
        read_line-TookLine room es registers buf i (size + 1) line rest s h (m.ends.active ∙ a)
          (rw (m.ends.read_open) o) m.ring m.now nl.1 (omega arith) in
      let n : size + suc (length line) ≡ size + 1 + length line = omega arith in
      let at : buf + size + 1 ≡ buf + (size + 1) = omega arith in
      rw (m.result, ==_false c 10 nl.0, line_step, n)
        (record {
          state = t.state;
          result = t.result;
          now = t.now;
          memory =
              t.memory
              ∙ ap₂ (λ b m. store 1 b (line ++ (0 ∷ [])) (update m (buf + size) c)) (sym at)
                  (m.outside.bytes);
        })

  redirected_lem :
      (c i : ℕ) (k : System M)
      → k.current ≡ some c
      → (k.procs c).fd_in ≡ pos i
      → redirected (λ x. x.fd_in) k ≡ some i
  unfolding redirected
  redirected_lem c i k cur fd = rw (cur, fd) refl

module _ {M : Type 0} (mm : Manager M) (trampoline : ℕ)
    (layout : ℕ → List ProcessInfo → (ℕ → ℕ) → ℕ → ℕ)
    (device : ℕ → (ℕ → ℕ) → System M → Reply M) where
  -- A read by a process whose standard input is an active pipe, open for reading, that holds a whole line of at most 254 characters
  -- returns without sleeping: the line without its newline is a string in the buffer, the result is its length, or 1 if it is empty, and the pipe holds what followed the newline.
  pub syscall_read-TookLine :
      (es : ℕ → List (System M → System M)) (registers : ℕ → ℕ) (c i : ℕ) (line rest : List ℕ)
      (k : System M)
      → k.current ≡ some c
      → (k.procs c).fd_in ≡ pos i
      → i < max_pipes
      → is_active (k.pipes i) ≡ true
      → 0 < (k.pipes i).read_open
      → IsRing (k.pipes i)
      → contents (k.pipes i) ≡ line ++ (10 ∷ rest)
      → All (λ x. x ≢ 10) line
      → length line < 255
      → TookLine registers
          (registers 13)
          (line_size (length line))
          i
          line
          rest
          k
          (syscall_read mm trampoline layout device es registers k)
  unfolding syscall_read
  syscall_read-TookLine es registers c i line rest k cur fd h a o v e nl l =
      let z : registers 13 + 0 ≡ registers 13 = omega arith in
      let n : 0 + length line ≡ length line = omega arith in
      let r = read_line 255 es registers (registers 13) (pos i) 0 k in
      let read =
        read_line-TookLine 255 es registers (registers 13) i 0 line rest k h a o v e nl l in
      let there : redirected (λ x. x.fd_in) k ≡ some i = redirected_lem c i k cur fd in
      subst
        (λ o. TookLine registers (registers 13) (line_size (length line)) i line rest k (
          on_some o (λ j. read_line 255 es registers (registers 13) (pos j) 0 k)
            (device 0 registers k)))
        (sym there)
        (subst (λ b. TookLine registers b (line_size (length line)) i line rest k r) z
          (subst (λ b. TookLine registers (registers 13 + 0) (line_size b) i line rest k r) n read))
