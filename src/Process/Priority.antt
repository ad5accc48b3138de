-- ===== src/Process/Priority.antt =====
-- `set_process_priority`.
use tp_so.Prelude.{
  ℕ, ◌<◌, ◌≡◌, refl, sym, ap, ◌∙◌, ◌≢◌, some, true, false, List, [], ◌∷◌, ◌++◌, arith, lt→ltb,
  All-map, All-member, Absent, erase, erase-Absent, member, update, update_elim, ℤ, pos, eq_ℤ,
  if_elim, subst, not, ◌&&◌,
}
use tp_so.Machine.{System, ready, killed, eq_state, state_of, on_proc, priority_levels}
use tp_so.ProcessTable.{get_process_by_pid}
use tp_so.Scheduler.{dequeue, enqueue}
use tp_so.Scheduler.Same.{dequeue-SameProcess}
use tp_so.Scheduler.Queues.{Waits, Queues, Kept, Queues-frame}
use tp_so.Scheduler.Dequeue.{dequeue-Queues, Absent-level}
use tp_so.Scheduler.Enqueue.{enqueue-Queues, enqueue-priority}
use tp_so.Process.{set_process_priority, change_priority}

module _ {M : Type 0} where
  with_priority : ℕ → ℕ → System M → System M
  with_priority m p k = on_proc p (λ x. record x { priority = pos m }) k

  module _ (k : System M) (qs : ℕ → List ℕ) (p l m : ℕ) (q : Queues k qs) (lt : l < priority_levels)
      (member_l : member p (qs l) ≡ true) (lt_m : m < priority_levels) (moves : m ≢ l) where
    at_l : Waits k.procs l p
    at_l = All-member (Waits k.procs l) p (qs l) (q.waits l lt) member_l

    left : ℕ → List ℕ
    left = update qs l (erase p (qs l))

    taken : System M
    taken = dequeue p k

    taken-Queues : Queues taken left
    unfolding taken left
    taken-Queues = dequeue-Queues k qs p l q lt at_l.2 member_l

    absent : (j : ℕ) → j < priority_levels → Absent p (left j)
    unfolding left
    absent j h =
        update_elim (Absent p) qs l (erase p (qs l)) j
          (λ _. erase-Absent p (qs l) (q.distinct l lt))
          (λ n. Absent-level k j l p (qs j) (λ x. n (sym x)) at_l (q.waits j h))

    set-Queues : Queues (with_priority m p taken) left
    unfolding with_priority
    set-Queues =
        Queues-frame taken (with_priority m p taken) left refl
          (λ j h.
            All-map (λ z. z ≢ p) (Kept taken.procs (with_priority m p taken).procs) (left j)
              (λ z n. ground arith) (absent j h))
          taken-Queues

    moved-Queues : Queues (enqueue p (with_priority m p taken)) (update left m (left m ++ (p ∷ [])))
    unfolding with_priority taken
    moved-Queues =
        enqueue-Queues (with_priority m p taken) left p m set-Queues lt_m at_l.0
          (λ d.
            let s : ready ≡ killed =
              sym (at_l.1) ∙ (sym ((dequeue-SameProcess k p p).state) ∙ (ground arith)) in
            cc)
          (ground arith) absent

  change_priority_lem :
      (k : System M) (p l m : ℕ)
      → Waits k.procs l p
      → m ≢ l
      → change_priority (pos m) p k ≡ enqueue p (with_priority m p (dequeue p k))
  unfolding change_priority with_priority
  change_priority_lem k p l m w n =
      if_elim (λ (s : System M). s ≡ enqueue p (with_priority m p (dequeue p k)))
        (eq_state (state_of k p) ready && not (eq_ℤ (k.procs p).priority (pos m))) (λ _. refl)
        (λ f. let t : true ≡ false = sym moved ∙ f in cc)
    where
      moved : (eq_state (state_of k p) ready && not (eq_ℤ (k.procs p).priority (pos m))) ≡ true
      moved = rw (w.1, w.2) (ground arith)

  set_process_priority_lem :
      (k : System M) (pid p l m : ℕ)
      → get_process_by_pid pid k ≡ some p
      → Waits k.procs l p
      → m < priority_levels
      → m ≢ l
      → set_process_priority pid (pos m) k ≡ (pos 0, enqueue p (with_priority m p (dequeue p k)))
  unfolding set_process_priority
  set_process_priority_lem k pid p l m e w h n =
      rw (lt→ltb m priority_levels h, e, w.1)
        (ap (λ s. (pos 0, s)) (change_priority_lem k p l m w n))

  -- Giving a READY process another priority takes it out of its queue, puts it at the end of the
  -- queue of the new priority, and returns 0; the queues stay well formed.
  pub set_process_priority-Queues :
      (k : System M) (qs : ℕ → List ℕ) (pid p l m : ℕ)
      → Queues k qs
      → get_process_by_pid pid k ≡ some p
      → l < priority_levels
      → member p (qs l) ≡ true
      → m < priority_levels
      → m ≢ l
      → let r = set_process_priority pid (pos m) k in
        let left = update qs l (erase p (qs l)) in
        (r.0 ≡ pos 0)
        × ((r.1.procs p).priority ≡ pos m)
        × Queues r.1 (update left m (left m ++ (p ∷ [])))
  unfolding with_priority left taken
  set_process_priority-Queues k qs pid p l m q e lt i h n =
      let eq =
        set_process_priority_lem k pid p l m e
          (All-member (Waits k.procs l) p (qs l) (q.waits l lt) i) h n in
      (
        ap (λ r. r.0) eq,
        ap (λ r. (r.1.procs p).priority) eq ∙ (enqueue-priority p p _ ∙ ground arith),
        subst
            (λ (r : ℤ × System M). Queues r.1 (
              update (update qs l (erase p (qs l))) m (update qs l (erase p (qs l)) m ++ (p ∷ []))))
            (sym eq) (moved-Queues k qs p l m q lt i h n),
      )
