-- ===== src/Scheduler/Queues.antt =====
-- What the ready queues hold: for each priority a list of process table entries.
use tp_so.Prelude.{
  ℕ, subst, ◌<◌, ◌≡◌, ◌∙◌, ◌≢◌, none, false, List, [], ◌∷◌, ◌==◌, if◌then◌else◌, arith, All,
  All-map, Absent, Distinct, pos,
}
use tp_so.Machine.{ready, Pcb, System, priority_levels, max_processes}
use tp_so.Scheduler.{points_to, dequeue, unlink_prev, unlink_next, unlink_head}
use tp_so.Scheduler.Chain.{Chain, SameLinks, Chain-frame}
use tp_so.Scheduler.Unlink.{Skips}

-- An entry that may stand in the queue of priority `l`.
abbrev pub Waits : (ℕ → Pcb) → ℕ → ℕ → Type 0
Waits t l x = (x < max_processes) × ((t x).state ≡ ready) × ((t x).priority ≡ pos l)

-- All that a queue depends on in an entry.
abbrev pub Kept : (ℕ → Pcb) → (ℕ → Pcb) → ℕ → Type 0
Kept t u z = SameLinks t u z × ((u z).state ≡ (t z).state) × ((u z).priority ≡ (t z).priority)

module _ {M : Type 0} where
  -- `ready_queues[l]` is the list `qs l`, linked both ways, of distinct entries that are READY and
  -- have the priority `l`.
  pub record Queues (k : System M) (qs : ℕ → List ℕ) : Type 0 where
    pub chain : (l : ℕ) → l < priority_levels → Chain k.procs none (k.queues l) (qs l)
    pub distinct : (l : ℕ) → l < priority_levels → Distinct (qs l)
    pub waits : (l : ℕ) → l < priority_levels → All (Waits k.procs l) (qs l)

  -- The pointer writes of `remove_from_ready_queue`.
  pub dequeue-Skips :
      (k : System M) (p l : ℕ)
      → (k.procs p).priority ≡ pos l
      → l < priority_levels
      → points_to (k.procs p).prev p ≡ false
      → points_to (k.procs p).next p ≡ false
      → (q : ℕ) → q ≢ p
      → Skips p k.procs (dequeue p k).procs q
  unfolding dequeue unlink_prev unlink_next unlink_head
  dequeue-Skips k p l e h a b q n = ground arith

  pub queues-dequeue :
      (k : System M) (p l : ℕ)
      → (k.procs p).priority ≡ pos l
      → l < priority_levels
      → (m : ℕ)
      → (dequeue p k).queues m ≡ (
          if m == l
          then (if points_to (k.queues l) p then (k.procs p).next else k.queues l)
          else k.queues m)
  unfolding dequeue unlink_prev unlink_next unlink_head
  queues-dequeue k p l e h m = ground arith

  -- A change elsewhere in the table leaves the queues as they were.
  pub Queues-frame :
      (k s : System M) (qs : ℕ → List ℕ)
      → s.queues ≡ k.queues
      → ((j : ℕ) → j < priority_levels → All (Kept k.procs s.procs) (qs j))
      → Queues k qs
      → Queues s qs
  Queues-frame k s qs e kept q = record {
    chain = λ j h. rw e (
        Chain-frame k.procs s.procs none (k.queues j) (qs j)
          (All-map (Kept k.procs s.procs) (SameLinks k.procs s.procs) (qs j) (λ z c. c.0)
            (kept j h))
          (q.chain j h));
    distinct = q.distinct;
    waits = λ j h. both j (qs j) (q.waits j h) (kept j h);
  }
    where
      both :
          (j : ℕ) (zs : List ℕ)
          → All (Waits k.procs j) zs
          → All (Kept k.procs s.procs) zs
          → All (Waits s.procs j) zs
      both j [] w c = tt
      both j (z ∷ zs) w c = ((w.0.0, c.0.1 ∙ w.0.1, c.0.2 ∙ w.0.2), both j zs w.1 c.1)

  -- The same, where READY processes are left alone.
  pub Queues-frame_ready :
      (k s : System M) (qs : ℕ → List ℕ)
      → s.queues ≡ k.queues
      → ((z : ℕ) → (k.procs z).state ≡ ready → Kept k.procs s.procs z)
      → Queues k qs
      → Queues s qs
  Queues-frame_ready k s qs e kept q =
      Queues-frame k s qs e
        (λ j h.
          All-map (Waits k.procs j) (Kept k.procs s.procs) (qs j) (λ z w. kept z w.1) (q.waits j h))
        q

  -- A process that is not READY stands in no queue.
  pub Absent-of_state :
      (k : System M) (qs : ℕ → List ℕ) (p : ℕ)
      → Queues k qs
      → (k.procs p).state ≢ ready
      → (j : ℕ) → j < priority_levels
      → Absent p (qs j)
  Absent-of_state k qs p q n j h =
      All-map (Waits k.procs j) (λ z. z ≢ p) (qs j)
        (λ z w e. n (subst (λ x. (k.procs x).state ≡ ready) e w.1)) (q.waits j h)
