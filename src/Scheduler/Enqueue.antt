-- ===== src/Scheduler/Enqueue.antt =====
-- `add_to_ready_queue` on a table whose queues are well formed.
use tp_so.Prelude.{
  if_elim, ℕ, ◌≤◌, ◌<◌, ◌≡◌, refl, sym, ◌∙◌, ◌≢◌, Option, some, none, List, [], ◌∷◌, ◌++◌, subst,
  ◌==◌, if◌then◌else◌, arith, All, All-map, All-append, Absent, Distinct, Distinct-snoc, length,
  length-Distinct, update, pos, ==_false, update_elim, ap,
}
use tp_so.Machine.{
  Pcb, System, ready, killed, state_of, priority_levels, max_processes, eq_state, eq_state_sound,
}
use tp_so.Scheduler.{enqueue, make_ready, link_last, link_after, add_level, queue_tail}
use tp_so.Scheduler.Chain.{
  Chain, SameLinks, Chain-frame, Chain-snoc, queue_tail-last, last, last-ne, All-last,
}
use tp_so.Scheduler.Queues.{Waits, Queues}

Waits-ne : (t : ℕ → Pcb) (j l y z : ℕ) → j ≢ l → Waits t j y → Waits t l z → y ≢ z
Waits-ne t j l y z n u v e = ground (arith, subst (Waits t j) e u)

module _ {M : Type 0} where
  enqueue_lem :
      (k : System M) (p l : ℕ)
      → (k.procs p).state ≢ killed
      → (k.procs p).priority ≡ pos l
      → l < priority_levels
      → enqueue p k ≡ link_last l p (make_ready p k)
  unfolding enqueue add_level
  enqueue_lem k p l n e h = ground arith

  link_last-empty :
      (k : System M) (p l : ℕ)
      → k.queues l ≡ none
      → link_last l p k ≡ record k { queues = update k.queues l (some p) }
  unfolding link_last
  link_last-empty k p l e = rw (e, link_last)

  link_last-some :
      (k : System M) (p l h : ℕ)
      → k.queues l ≡ some h
      → link_last l p k ≡ link_after (queue_tail max_processes k.procs h) p k
  unfolding link_last
  link_last-some k p l h e = rw (e, link_last)

  link_after-queues : (k : System M) (tail p : ℕ) → (link_after tail p k).queues ≡ k.queues
  unfolding link_after
  link_after-queues k tail p = refl

  -- Chains of other queues are left alone.
  link_after-SameLinks :
      (k : System M) (tail p q : ℕ)
      → q ≢ p
      → q ≢ tail
      → SameLinks k.procs (link_after tail p k).procs q
  unfolding link_after
  link_after-SameLinks k tail p q a b = ground arith

  link_after-Chain :
      (k : System M) (hd : Option ℕ) (p x : ℕ) (xs : List ℕ)
      → Distinct (x ∷ xs)
      → Absent p (x ∷ xs)
      → (k.procs p).next ≡ none
      → Chain k.procs none hd (x ∷ xs)
      → Chain (link_after (last x xs) p k).procs none hd (x ∷ (xs ++ (p ∷ [])))
  unfolding link_after
  link_after-Chain k hd p x xs d a e c =
      let tail = last x xs in
      let ne : tail ≢ p = last-ne p x xs a in
      Chain-snoc k.procs (link_after tail p k).procs none hd x xs p d a (ground arith)
        (ground arith) (ground arith) (λ q n. ground arith) (λ q n m. ground arith) c

  -- `next` and `prev` are cleared, and the process is READY; the rest stays.
  make_ready-SameLinks :
      (k : System M) (p q : ℕ) → q ≢ p → SameLinks k.procs (make_ready p k).procs q
  unfolding make_ready
  make_ready-SameLinks k p q n = ground arith

  make_ready-Waits :
      (k : System M) (p l q : ℕ) → Waits k.procs l q → Waits (make_ready p k).procs l q
  unfolding make_ready
  make_ready-Waits k p l q w = ground arith

  make_ready_self :
      (k : System M) (p l : ℕ)
      → p < max_processes
      → (k.procs p).priority ≡ pos l
      → Waits (make_ready p k).procs l p
        × (((make_ready p k).procs p).next ≡ none)
        × (((make_ready p k).procs p).prev ≡ none)
        × ((make_ready p k).queues ≡ k.queues)
  unfolding make_ready
  make_ready_self k p l h e = (ground arith, ground arith, ground arith, refl)

  link_last-Waits :
      (k : System M) (l p j q : ℕ) → Waits k.procs j q → Waits (link_last l p k).procs j q
  unfolding link_last link_after
  link_last-Waits k l p j q w = ground arith

  -- The walk to the end of a well-formed queue has fuel enough.
  link_last_lem :
      (k : System M) (p l x : ℕ) (xs : List ℕ)
      → Distinct (x ∷ xs)
      → All (Waits k.procs l) (x ∷ xs)
      → Chain k.procs none (k.queues l) (x ∷ xs)
      → link_last l p k ≡ link_after (last x xs) p k
  link_last_lem k p l x xs d w c =
      link_last-some k p l x c.0
      ∙ ap (λ tail. link_after tail p k)
          (queue_tail-last max_processes k.procs none x xs (refl, c.1, c.2) (omega (arith, bound)))
    where
      bound : length (x ∷ xs) ≤ max_processes
      bound =
          length-Distinct max_processes (x ∷ xs) d
            (All-map (Waits k.procs l) (λ z. z < max_processes) (x ∷ xs) (λ z u. u.0) w)

  -- The new entry behind those of its queue.
  link_last-Chain :
      (k : System M) (p l : ℕ) (xs : List ℕ)
      → Distinct xs
      → Absent p xs
      → All (Waits k.procs l) xs
      → (k.procs p).next ≡ none
      → (k.procs p).prev ≡ none
      → Chain k.procs none (k.queues l) xs
      → let s = link_last l p k in Chain s.procs none (s.queues l) (xs ++ (p ∷ []))
  unfolding link_after
  link_last-Chain k p l [] d a w n v c = rw (link_last-empty k p l c) (ground arith, v, n)
  link_last-Chain k p l (x ∷ xs) d a w n v c =
      subst (λ (s : System M). Chain s.procs none (s.queues l) (x ∷ (xs ++ (p ∷ []))))
        (sym (link_last_lem k p l x xs d w c)) (link_after-Chain k (k.queues l) p x xs d a n c)

  -- The chains of the other queues.
  link_last-other :
      (k : System M) (p l j : ℕ) (xs zs : List ℕ)
      → j ≢ l
      → Chain k.procs none (k.queues l) xs
      → Distinct xs
      → All (Waits k.procs l) xs
      → All (Waits k.procs j) zs
      → Absent p zs
      → Chain k.procs none (k.queues j) zs
      → let s = link_last l p k in Chain s.procs none (s.queues j) zs
  unfolding link_after
  link_last-other k p l j [] zs n c d w v a e = rw (link_last-empty k p l c) (rw (==_false j l n) e)
  link_last-other k p l j (x ∷ xs) zs n c d w v a e =
      subst (λ (s : System M). Chain s.procs none (s.queues j) zs)
        (sym (link_last_lem k p l x xs d w c))
        (Chain-frame k.procs (link_after (last x xs) p k).procs none (k.queues j) zs (same zs v a)
          e)
    where
      tail_waits : Waits k.procs l (last x xs)
      tail_waits = All-last (Waits k.procs l) x xs w

      same :
          (ys : List ℕ)
          → All (Waits k.procs j) ys
          → Absent p ys
          → All (SameLinks k.procs (link_after (last x xs) p k).procs) ys
      same [] u b = tt
      same (y ∷ ys) u b = (
        link_after-SameLinks k (last x xs) p y b.0
            (Waits-ne k.procs j l y (last x xs) n u.0 tail_waits),
        same ys u.1 b.1,
      )

  module _ (k : System M) (qs : ℕ → List ℕ) (p l : ℕ) (q : Queues k qs) (lt : l < priority_levels)
      (slot : p < max_processes) (alive : (k.procs p).state ≢ killed)
      (at : (k.procs p).priority ≡ pos l)
      (out : (j : ℕ) → j < priority_levels → Absent p (qs j)) where
    made : System M
    made = make_ready p k

    made-Chain : (j : ℕ) → j < priority_levels → Chain made.procs none (made.queues j) (qs j)
    unfolding made
    made-Chain j h = rw ((make_ready_self k p l slot at).3) (
        Chain-frame k.procs (make_ready p k).procs none (k.queues j) (qs j)
          (All-map (λ z. z ≢ p) _ (qs j) (λ z n. make_ready-SameLinks k p z n) (out j h))
          (q.chain j h))

    made-Waits : (j : ℕ) → j < priority_levels → All (Waits made.procs j) (qs j)
    unfolding made
    made-Waits j h =
        All-map (Waits k.procs j) (Waits (make_ready p k).procs j) (qs j)
          (λ z w. make_ready-Waits k p j z w) (q.waits j h)

    enqueued : System M
    enqueued = link_last l p made

    enqueued-Waits :
        (j : ℕ) (zs : List ℕ) → All (Waits made.procs j) zs → All (Waits enqueued.procs j) zs
    unfolding enqueued
    enqueued-Waits j zs w =
        All-map (Waits made.procs j) (Waits enqueued.procs j) zs
          (λ z u. link_last-Waits made l p j z u) w

    enqueued-Queues : Queues enqueued (update qs l (qs l ++ (p ∷ [])))
    unfolding made enqueued
    enqueued-Queues =
        let self = make_ready_self k p l slot at in
        record {
          chain = λ j h.
              update_elim (Chain enqueued.procs none (enqueued.queues j)) qs l _ j
                (λ e.
                  subst (λ i. Chain enqueued.procs none (enqueued.queues i) (qs l ++ (p ∷ [])))
                    (sym e)
                    (link_last-Chain made p l (qs l) (q.distinct l lt) (out l lt) (made-Waits l lt)
                      self.1 self.2 (made-Chain l lt)))
                (λ n.
                  link_last-other made p l j (qs l) (qs j) n (made-Chain l lt) (q.distinct l lt)
                    (made-Waits l lt) (made-Waits j h) (out j h) (made-Chain j h));
          distinct = λ j h.
              update_elim Distinct qs l _ j
                (λ e. Distinct-snoc (qs l) p (q.distinct l lt) (out l lt)) (λ n. q.distinct j h);
          waits = λ j h.
              update_elim (All (Waits enqueued.procs j)) qs l _ j
                (λ e. rw e (
                  enqueued-Waits l _ (
                    All-append (Waits made.procs l) (qs l) (p ∷ []) (made-Waits l lt)
                      (self.0, tt))))
                (λ n. enqueued-Waits j (qs j) (made-Waits j h));
        }

    -- `add_to_ready_queue` puts the process at the end of the queue of its priority, and leaves
    -- the other queues as they were.
    pub enqueue-Queues : Queues (enqueue p k) (update qs l (qs l ++ (p ∷ [])))
    unfolding made enqueued
    enqueue-Queues = rw (enqueue_lem k p l alive at lt) enqueued-Queues

  link_last-state :
      (l p q : ℕ) (k : System M) → ((link_last l p k).procs q).state ≡ (k.procs q).state
  unfolding link_last link_after
  link_last-state l p q k = ground arith

  make_ready-state :
      (p q : ℕ) (k : System M)
      → ((make_ready p k).procs q).state ≡ (if q == p then ready else (k.procs q).state)
  unfolding make_ready
  make_ready-state p q k = ground arith

  -- What `add_to_ready_queue` does to the states.
  pub enqueue-state :
      (p q : ℕ) (k : System M)
      → (k.procs p).state ≢ killed
      → ((enqueue p k).procs q).state ≡ (if q == p then ready else (k.procs q).state)
  unfolding enqueue
  enqueue-state p q k n =
      if_elim (λ (s : System M). (s.procs q).state ≡ (if q == p then ready else (k.procs q).state))
        (eq_state (state_of k p) killed) (λ e. absurd (n (eq_state_sound _ _ e)))
        (λ _.
          link_last-state (add_level (k.procs p).priority) p q (make_ready p k)
          ∙ make_ready-state p q k)

  link_last-priority :
      (l p q : ℕ) (k : System M) → ((link_last l p k).procs q).priority ≡ (k.procs q).priority
  unfolding link_last link_after
  link_last-priority l p q k = ground arith

  make_ready-priority :
      (p q : ℕ) (k : System M) → ((make_ready p k).procs q).priority ≡ (k.procs q).priority
  unfolding make_ready
  make_ready-priority p q k = ground arith

  pub enqueue-priority :
      (p q : ℕ) (k : System M) → ((enqueue p k).procs q).priority ≡ (k.procs q).priority
  unfolding enqueue
  enqueue-priority p q k =
      if_elim (λ (s : System M). (s.procs q).priority ≡ (k.procs q).priority)
        (eq_state (state_of k p) killed) (λ _. refl)
        (λ _.
          link_last-priority (add_level (k.procs p).priority) p q (make_ready p k)
          ∙ make_ready-priority p q k)
