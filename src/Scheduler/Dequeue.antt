-- ===== src/Scheduler/Dequeue.antt =====
-- `remove_from_ready_queue` on a table whose queues are well formed.
use tp_so.Prelude.{
  ℕ, ◌<◌, ◌≡◌, refl, ◌∙◌, ◌≢◌, none, true, false, List, [], ◌∷◌, subst, arith, All, All-map,
  All-erase, Absent, Distinct, erase, erase-Distinct, member, update, pos, ==_iff, ==_false,
  update_elim,
}
use tp_so.Machine.{System, priority_levels}
use tp_so.Scheduler.{points_to, dequeue}
use tp_so.Scheduler.Chain.{
  Chain, SameLinks, Chain-frame, next-Absent, prev-Absent, next_self, prev_self,
}
use tp_so.Scheduler.Unlink.{Skips, NotAt, SameLinks-All, Chain-erase}
use tp_so.Scheduler.Same.{dequeue-SameProcess}
use tp_so.Scheduler.Queues.{Waits, Queues, dequeue-Skips, queues-dequeue}

pub NotAt-none : (xs : List ℕ) → NotAt none xs
NotAt-none [] = tt
NotAt-none (x ∷ xs) = (refl, NotAt-none xs)

module _ {M : Type 0} where
  -- Entries that wait at another priority are not entries of the queue of `l`.
  pub Absent-level :
      (k : System M) (l m z : ℕ) (xs : List ℕ)
      → m ≢ l
      → Waits k.procs m z
      → All (Waits k.procs l) xs
      → Absent z xs
  Absent-level k l m z xs n w h =
      All-map (Waits k.procs l) (λ x. x ≢ z) xs
        (λ x v e. ground (arith, subst (Waits k.procs l) e v)) h

  module _ (k : System M) (qs : ℕ → List ℕ) (p l : ℕ) (q : Queues k qs) (lt : l < priority_levels)
      (at : (k.procs p).priority ≡ pos l) (m : member p (qs l) ≡ true) where
    skips : (z : ℕ) → z ≢ p → Skips p k.procs (dequeue p k).procs z
    skips =
        dequeue-Skips k p l at lt
          (prev_self k.procs none (k.queues l) (qs l) p (q.chain l lt) m (q.distinct l lt)
            (NotAt-none (qs l)))
          (next_self k.procs none (k.queues l) (qs l) p (q.chain l lt) m (q.distinct l lt))

    same_level :
        (j : ℕ) → j ≡ l → Chain (dequeue p k).procs none ((dequeue p k).queues j) (erase p (qs l))
    same_level j e =
        rw (queues-dequeue k p l at lt j, (==_iff j l).1 e)
          (Chain-erase p k.procs (dequeue p k).procs skips none (k.queues l) (qs l)
            (q.distinct l lt) m (NotAt-none (qs l)) (q.chain l lt))

    other_level :
        (j : ℕ)
        → j < priority_levels
        → j ≢ l
        → Chain (dequeue p k).procs none ((dequeue p k).queues j) (qs j)
    other_level j h n =
        rw (queues-dequeue k p l at lt j, ==_false j l n)
          (Chain-frame k.procs (dequeue p k).procs none (k.queues j) (qs j)
            (same (qs j) (q.waits j h)) (q.chain j h))
      where
        far : (z : ℕ) → Waits k.procs j z → Absent z (qs l)
        far z w = Absent-level k l j z (qs l) n w (q.waits l lt)

        same :
            (zs : List ℕ)
            → All (Waits k.procs j) zs
            → All (SameLinks k.procs (dequeue p k).procs) zs
        same zs w =
            SameLinks-All p k.procs (dequeue p k).procs skips zs
              (All-map _ (λ z. z ≢ p) zs (λ z v e. ground (arith, subst (Waits k.procs j) e v)) w)
              (All-map _ (λ z. points_to (k.procs p).prev z ≡ false) zs
                (λ z v.
                  prev-Absent k.procs none (k.queues l) (qs l) p z (q.chain l lt) m (far z v) refl)
                w)
              (All-map _ (λ z. points_to (k.procs p).next z ≡ false) zs
                (λ z v. next-Absent k.procs none (k.queues l) (qs l) p z (q.chain l lt) m (far z v))
                w)

    still-Waits :
        (j : ℕ) (zs : List ℕ) → All (Waits k.procs j) zs → All (Waits (dequeue p k).procs j) zs
    still-Waits j zs w =
        All-map _ (Waits (dequeue p k).procs j) zs
          (λ z v. let s = dequeue-SameProcess k p z in (v.0, s.state ∙ v.1, s.priority ∙ v.2)) w

    -- `remove_from_ready_queue` takes the process out of the queue of its priority, and leaves the
    -- other queues as they were.
    pub dequeue-Queues : Queues (dequeue p k) (update qs l (erase p (qs l)))
    dequeue-Queues = record {
      chain = λ j h.
          update_elim (Chain (dequeue p k).procs none ((dequeue p k).queues j)) qs l _ j
            (same_level j) (other_level j h);
      distinct = λ j h.
          update_elim Distinct qs l _ j (λ e. erase-Distinct p (qs l) (q.distinct l lt))
            (λ n. q.distinct j h);
      waits = λ j h.
          update_elim (All (Waits (dequeue p k).procs j)) qs l _ j
            (λ e. rw e (still-Waits l _ (All-erase (Waits k.procs l) p (qs l) (q.waits l lt))))
            (λ n. still-Waits j (qs j) (q.waits j h));
    }
