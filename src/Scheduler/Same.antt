-- ===== src/Scheduler/Same.antt =====
-- What of a process the queue operations leave alone.
use tp_so.Prelude.{ℕ, ◌≡◌, index, Option-cases, inl, inr, arith}
use tp_so.Machine.{Pcb, System, priority_levels}
use tp_so.Scheduler.{dequeue, unlink, clear_links, unlink_prev, unlink_next, unlink_head}

-- All of an entry but its links.
pub record SameProcess (x y : Pcb) : Type 0 where
  pub pid : y.pid ≡ x.pid
  pub name : y.name ≡ x.name
  pub rsp : y.rsp ≡ x.rsp
  pub state : y.state ≡ x.state
  pub priority : y.priority ≡ x.priority
  pub foreground : y.foreground ≡ x.foreground
  pub stack_base : y.stack_base ≡ x.stack_base
  pub argv_data : y.argv_data ≡ x.argv_data
  pub waiting_pipe : y.waiting_pipe ≡ x.waiting_pipe

pub SameProcess-refl : (x : Pcb) → SameProcess x x
SameProcess-refl x = ground arith

pub SameProcess-trans : {x y z : Pcb} → SameProcess x y → SameProcess y z → SameProcess x z
SameProcess-trans s t = ground arith

module _ {M : Type 0} where
  unlink_prev-SameProcess :
      (k : System M) (p q : ℕ) → SameProcess (k.procs q) ((unlink_prev p k).procs q)
  unfolding unlink_prev
  unlink_prev-SameProcess k p q = ground arith

  unlink_next-SameProcess :
      (k : System M) (p q : ℕ) → SameProcess (k.procs q) ((unlink_next p k).procs q)
  unfolding unlink_next
  unlink_next-SameProcess k p q = ground arith

  unlink_head-procs : (l p : ℕ) (k : System M) → (unlink_head l p k).procs ≡ k.procs
  unfolding unlink_head
  unlink_head-procs l p k = ground arith

  clear_links-SameProcess :
      (k : System M) (p q : ℕ) → SameProcess (k.procs q) ((clear_links p k).procs q)
  unfolding clear_links
  clear_links-SameProcess k p q = ground arith

  unlink-SameProcess : (k : System M) (l p q : ℕ) → SameProcess (k.procs q) ((unlink l p k).procs q)
  unfolding unlink
  unlink-SameProcess k l p q =
      let k1 = unlink_head l p k in
      let k2 = unlink_prev p k1 in
      let start : SameProcess (k.procs q) (k1.procs q) =
        rw (unlink_head-procs l p k) (SameProcess-refl (k.procs q)) in
      SameProcess-trans start (
        SameProcess-trans (unlink_prev-SameProcess k1 p q) (
          SameProcess-trans (unlink_next-SameProcess k2 p q)
            (clear_links-SameProcess (unlink_next p k2) p q)))

  -- Unlinking a process changes no process but in its links.
  pub dequeue-SameProcess :
      (k : System M) (p q : ℕ) → SameProcess (k.procs q) ((dequeue p k).procs q)
  unfolding dequeue
  dequeue-SameProcess k p q = elim (Option-cases (index (k.procs p).priority priority_levels)) [
    | inl e ↦ rw (e, dequeue) (SameProcess-refl (k.procs q))
    | inr (l, e) ↦ rw (e, dequeue) (unlink-SameProcess k l p q)
  ]
