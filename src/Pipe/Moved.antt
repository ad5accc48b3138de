-- ===== src/Pipe/Moved.antt =====
-- What a call of pipe.c that does not sleep leaves in the pipe; waking the processes that wait on a
-- pipe changes no pipe.
use tp_so.Prelude.{
  ℕ, ◌≡◌, refl, sym, ap, ◌∙◌, List, [], ◌∷◌, ℤ, pos, on_some_elim, if_elim, ◌&&◌, eq_ℤ, subst,
}
use tp_so.Machine.{Pipe, System, eq_state, state_of, blocked, max_processes}
use tp_so.ProcessTable.{ProcessInfo, get_process_by_pid, get_process_list}
use tp_so.Scheduler.Frame.{
  SameOutside, SameOutside-refl, SameOutside-trans, SameOutside-procs, unblock_process-SameOutside,
}
use tp_so.Pipe.{
  PipeOutcome, returns, pipe_notify, notify_all, notify_one, put_byte, take_bytes, is_active,
}
use tp_so.Pipe.Ring.{contents, IsRing}

-- `q` is `p` with other bytes in it.
pub record SameEnds (p q : Pipe) : Type 0 where
  pub active : is_active q ≡ is_active p
  pub write_open : q.write_open ≡ p.write_open
  pub read_open : q.read_open ≡ p.read_open

pub SameEnds-refl : (p : Pipe) → SameEnds p p
SameEnds-refl p = record { active = refl; write_open = refl; read_open = refl }

pub put_byte-SameEnds : (b : ℕ) (p : Pipe) → SameEnds p (put_byte b p)
unfolding put_byte
put_byte-SameEnds b p = record { active = refl; write_open = refl; read_open = refl }

pub take_bytes-SameEnds : (n : ℕ) (p : Pipe) → SameEnds p (take_bytes n p)
unfolding take_bytes
take_bytes-SameEnds n p = record { active = refl; write_open = refl; read_open = refl }

pub SameEnds-trans : {p q r : Pipe} → SameEnds p q → SameEnds q r → SameEnds p r
SameEnds-trans a b = record {
  active = b.active ∙ a.active;
  write_open = b.write_open ∙ a.write_open;
  read_open = b.read_open ∙ a.read_open;
}

module _ {M : Type 0} where
  notify_one-SameOutside : (id : ℤ) (pid : ℕ) (k : System M) → SameOutside k (notify_one id pid k)
  unfolding notify_one
  notify_one-SameOutside id pid k =
      on_some_elim (SameOutside k) (get_process_by_pid pid k)
        (λ p _.
          if_elim (SameOutside k)
            (eq_state (state_of k p) blocked && eq_ℤ (k.procs p).waiting_pipe id)
            (λ _.
              SameOutside-trans (SameOutside-procs k _ k.queues)
                (unblock_process-SameOutside (k.procs p).pid _))
            (λ _. SameOutside-refl k))
        (λ _. SameOutside-refl k)

  notify_all-SameOutside :
      (id : ℤ) (xs : List ProcessInfo) (k : System M) → SameOutside k (notify_all id xs k)
  unfolding notify_all
  notify_all-SameOutside id [] k = SameOutside-refl k
  notify_all-SameOutside id (x ∷ xs) k =
      SameOutside-trans (notify_one-SameOutside id x.pid k)
        (notify_all-SameOutside id xs (notify_one id x.pid k))

  -- Waking the processes that wait on a pipe changes only the process table and the ready queues.
  pub pipe_notify-SameOutside : (id : ℤ) (k : System M) → SameOutside k (pipe_notify id k)
  unfolding pipe_notify
  pipe_notify-SameOutside id k =
      notify_all-SameOutside id (get_process_list (pos max_processes) k) k

  -- Only the pipes, the process table and the ready queues differ.
  abbrev pub SameBesides : System M → System M → Type 0
  SameBesides k s = SameOutside (record k { pipes = s.pipes }) s

  then_outside : (k s n : System M) → SameBesides k s → SameOutside s n → SameBesides k n
  then_outside k s n a b = record {
    next_pid = b.next_pid ∙ a.next_pid;
    shell_pid = b.shell_pid ∙ a.shell_pid;
    current = b.current ∙ a.current;
    quantum = b.quantum ∙ a.quantum;
    to_free = b.to_free ∙ a.to_free;
    sems = b.sems ∙ a.sems;
    registry_lock = b.registry_lock ∙ a.registry_lock;
    pipes = refl;
    mm = b.mm ∙ a.mm;
    words = b.words ∙ a.words;
    bytes = b.bytes ∙ a.bytes;
  }

  -- The call returned `n` without sleeping, and left the bytes `bytes` in pipe `i`; nothing else
  -- has changed but the process table and the ready queues, where others were woken.
  pub record Moved (i n : ℕ) (out bytes : List ℕ) (k : System M) (r : PipeOutcome M) : Type 0 where
    pub state : System M
    pub result : r ≡ returns (pos n) out state
    pub now : contents (state.pipes i) ≡ bytes
    pub ring : IsRing (state.pipes i)
    pub ends : SameEnds (k.pipes i) (state.pipes i)
    pub outside : SameBesides k state

  -- The notification at the end of a call, on a pipe that holds what it should.
  pub finish :
      (i n : ℕ) (out bytes : List ℕ) (k s : System M)
      → contents (s.pipes i) ≡ bytes
      → IsRing (s.pipes i)
      → SameEnds (k.pipes i) (s.pipes i)
      → SameBesides k s
      → Moved i n out bytes k (returns (pos n) out (pipe_notify (pos i) s))
  finish i n out bytes k s c v e o =
      let notified = pipe_notify-SameOutside (pos i) s in
      let same : s.pipes i ≡ (pipe_notify (pos i) s).pipes i = ap (λ t. t i) (sym notified.pipes) in
      record {
        state = pipe_notify (pos i) s;
        result = refl;
        now = subst (λ p. contents p ≡ bytes) same c;
        ring = subst IsRing same v;
        ends = subst (SameEnds (k.pipes i)) same e;
        outside = then_outside k s (pipe_notify (pos i) s) o notified;
      }
