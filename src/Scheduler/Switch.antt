-- ===== src/Scheduler/Switch.antt =====
-- `schedule`: strict priority between the queues, round robin within each.
use tp_so.Prelude.{
  ℕ, ◌<◌, ◌≡◌, refl, sym, ◌∙◌, ◌≢◌, ◌⊎◌, Option, some, none, Bool, true, false, List, ◌∷◌, subst,
  if◌then◌else◌, arith, All-map, Absent, inl, inr, update, update_elim, lt→ltb, ltb→lt, and_true,
  ap, ◌-◌, ltb, Bool-cases, if_elim,
}
use tp_so.Machine.{
  Pcb, System, ProcessState, ready, running, killed, eq_state, eq_state_sound, state_of,
  priority_levels, max_processes,
}
use tp_so.Scheduler.{
  schedule, reap, retire_current, dispatch, dequeue, retire, save_rsp, has_quantum, keeps_running,
}
use tp_so.Scheduler.Queues.{Waits, Queues, Kept, Queues-frame, Queues-frame_ready, Absent-of_state}
use tp_so.Scheduler.Dequeue.{dequeue-Queues, Absent-level}
use tp_so.Scheduler.Enqueue.{enqueue-Queues}
use tp_so.Scheduler.Frame.{enqueue-SameOutside}
use tp_so.Scheduler.Free.{reap-Frees}
use tp_so.Scheduler.Pick.{Picks, pick_next_process-Picks, next_runnable-pick}
use tp_so.Scheduler.Turns.{IsCurrent, requeue, HasTime, GoesOn, Scheduled, Chosen}

state-cases : (s : ProcessState) → (s ≡ running) ⊎ (eq_state s running ≡ false)
state-cases running = inl refl
state-cases _ = inr refl

has_quantum-Kept :
    (o : Option ℕ) (t u : ℕ → Pcb) (quantum : ℕ)
    → ((z : ℕ) → Kept t u z)
    → has_quantum o u quantum ≡ has_quantum o t quantum
unfolding has_quantum
has_quantum-Kept none t u n kept = refl
has_quantum-Kept (some c) t u n kept = rw ((kept c).1)

requeue-Kept :
    (o : Option ℕ) (t u : ℕ → Pcb) (qs : ℕ → List ℕ)
    → ((z : ℕ) → Kept t u z)
    → requeue o u qs ≡ requeue o t qs
requeue-Kept none t u qs kept = refl
requeue-Kept (some c) t u qs kept = rw ((kept c).1, (kept c).2)

IsCurrent-Kept :
    (o : Option ℕ) (t u : ℕ → Pcb) → ((z : ℕ) → Kept t u z) → IsCurrent o t → IsCurrent o u
IsCurrent-Kept none t u kept ok = tt
IsCurrent-Kept (some c) t u kept ok = (ok.0, (ok.1.0, ok.1.1, (kept c).2 ∙ ok.1.2))

module _ {M : Type 0} where
  -- What is dispatched leaves its queue, and is then no longer READY.
  dispatch-Queues :
      (k : System M) (qs : ℕ → List ℕ) (p l : ℕ) (rest : List ℕ)
      → Queues k qs
      → l < priority_levels
      → qs l ≡ p ∷ rest
      → Queues (dispatch (some p) k).1 (update qs l rest)
  unfolding dispatch
  dispatch-Queues k qs p l rest q h e =
      Queues-frame (dequeue p k) (dispatch (some p) k).1 (update qs l rest) refl
        (λ j i.
          All-map (λ z. z ≢ p) (Kept (dequeue p k).procs (dispatch (some p) k).1.procs)
            (update qs l rest j) (λ z n. ground arith) (absent j i))
        (subst (λ xs. Queues (dequeue p k) (update qs l xs)) (rw e (ground arith))
          (dequeue-Queues k qs p l q h at_l.2 (rw e (ground arith))))
    where
      at_l : Waits k.procs l p
      at_l = (rw e at (q.waits l h)).0

      absent : (j : ℕ) → j < priority_levels → Absent p (update qs l rest j)
      absent j i =
          update_elim (Absent p) qs l rest j (λ _. (rw e at (q.distinct l h)).0)
            (λ n. Absent-level k j l p (qs j) (λ x. n (sym x)) at_l (q.waits j i))

  dispatch-Chosen :
      (b k : System M) (qs : ℕ → List ℕ) (o : Option ℕ)
      → k.current ≡ b.current
      → k.quantum ≡ b.quantum
      → Queues k qs
      → Picks priority_levels 0 qs o
      → Chosen b qs (dispatch o k)
  unfolding dispatch
  dispatch-Chosen b k qs none c d q f = inl (record {
    empty = λ l h. f l (omega arith) (omega arith);
    no_stack = refl;
    current = c;
    quantum = d;
    queues = q;
  })
  dispatch-Chosen b k qs (some p) c d q f = inr (
    p,
    record {
      level = f.0;
      rest = f.1;
      in_range = f.3;
      first = f.4;
      higher_empty = λ m h. f.5 m (omega arith) h;
      current = refl;
      now_running = ground arith;
      full = refl;
      stack = refl;
      queues = dispatch-Queues k qs p f.0 f.1 q f.3 f.4;
    },
  )

  save_rsp-Kept : (rsp p : ℕ) (k : System M) (z : ℕ) → Kept k.procs (save_rsp rsp p k).procs z
  unfolding save_rsp
  save_rsp-Kept rsp p k z = ground arith

  save_rsp-Queues :
      (rsp p : ℕ) (k : System M) (qs : ℕ → List ℕ) → Queues k qs → Queues (save_rsp rsp p k) qs
  unfolding save_rsp
  save_rsp-Queues rsp p k qs q = Queues-frame_ready k _ qs refl (λ z _. save_rsp-Kept rsp p k z) q

  -- What `retire` leaves in the queues.
  retire-Queues :
      (rsp : ℕ) (o : Option ℕ) (k : System M) (qs : ℕ → List ℕ)
      → Queues k qs
      → IsCurrent o k.procs
      → Queues (retire rsp o k) (requeue o k.procs qs)
  unfolding retire
  retire-Queues rsp none k qs q ok = q
  retire-Queues rsp (some c) k qs q ok = elim (state-cases (k.procs c).state) [
    | inl e ↦
        rw (e, ok.1.2, lt→ltb ok.1.0 priority_levels ok.1.1)
          (enqueue-Queues (save_rsp rsp c k) qs c ok.1.0 (save_rsp-Queues rsp c k qs q) ok.1.1 ok.0
            (λ d. let s : running ≡ killed = sym e ∙ (sym same.1 ∙ d) in cc) (same.2 ∙ ok.1.2)
            (Absent-of_state (save_rsp rsp c k) qs c (save_rsp-Queues rsp c k qs q)
              (λ d. let s : running ≡ ready = sym e ∙ (sym same.1 ∙ d) in cc)))
    | inr e ↦ rw e (left (eq_state (state_of k c) killed))
  ]
    where
      same : Kept k.procs (save_rsp rsp c k).procs c
      same = save_rsp-Kept rsp c k c

      left :
          (b : Bool)
          → Queues
              (if b then record (save_rsp rsp c k) { to_free = some c } else save_rsp rsp c k)
              qs
      left true =
          let q' = save_rsp-Queues rsp c k qs q in
          record { chain = q'.chain; distinct = q'.distinct; waits = q'.waits }
      left false = save_rsp-Queues rsp c k qs q

  retire-same :
      (rsp : ℕ) (o : Option ℕ) (k : System M)
      → ((retire rsp o k).current ≡ k.current) × ((retire rsp o k).quantum ≡ k.quantum)
  unfolding retire save_rsp
  retire-same rsp none k = (refl, refl)
  retire-same rsp (some c) k =
      let u = save_rsp rsp c k in
      let e = enqueue-SameOutside c u in
      if_elim Same (eq_state (state_of k c) running) (λ _. (e.current, e.quantum))
        (λ _. if_elim Same (eq_state (state_of k c) killed) (λ _. (refl, refl)) (λ _. (refl, refl)))
    where
      Same : System M → Type 0
      Same s = (s.current ≡ k.current) × (s.quantum ≡ k.quantum)

  has_quantum-HasTime :
      (o : Option ℕ) (k : System M)
      → k.current ≡ o
      → has_quantum o k.procs k.quantum ≡ true
      → (c : ℕ) × HasTime k c
  unfolding has_quantum
  has_quantum-HasTime none k e h = cc
  has_quantum-HasTime (some c) k e h =
      let both = and_true (eq_state (k.procs c).state running) (ltb 0 k.quantum) h in
      (
        c,
        record {
          current = e;
          runs = eq_state_sound (k.procs c).state running both.0;
          time = ltb→lt 0 k.quantum both.1;
        },
      )

  HasTime-has_quantum : (k : System M) (c : ℕ) → HasTime k c → keeps_running k ≡ true
  unfolding keeps_running has_quantum
  HasTime-has_quantum k c h = rw (h.current, h.runs, lt→ltb 0 k.quantum h.time) refl

  goes_on :
      (mm_free : ℕ → M → M) (k : System M) (qs : ℕ → List ℕ)
      → Queues k qs
      → keeps_running k ≡ true
      → let s = reap mm_free k in (c : ℕ) × GoesOn k qs c 0 (record s { quantum = s.quantum - 1 })
  unfolding keeps_running
  goes_on mm_free k qs q go =
      let s = reap mm_free k in
      let f = reap-Frees mm_free k in
      let (c, t) = has_quantum-HasTime k.current k refl go in
      (
        c,
        record {
          had_time = t;
          no_stack = refl;
          current = f.current ∙ t.current;
          still_running = (f.kept c).1 ∙ t.runs;
          quantum = omega (arith, f.quantum, t.time);
          queues =
              Queues-frame_ready k (record s { quantum = s.quantum - 1 }) qs f.queues
                (λ z _. f.kept z) q;
        },
      )

  -- A running process with quantum left goes on with one tick less, and 0 is returned. Otherwise
  -- `schedule` puts the running process, if it still runs, at the end of the queue of its priority, and
  -- then lets the first process of the first queue that is not empty run, with a quantum of 5, taken out
  -- of its queue; it returns that process's stack pointer. If all queues are empty it returns 0 and
  -- leaves the current process and the quantum. In each case the queues stay well formed.
  pub schedule-Scheduled :
      (mm_free : ℕ → M → M) (rsp : ℕ) (k : System M) (qs : ℕ → List ℕ)
      → Queues k qs
      → IsCurrent k.current k.procs
      → Scheduled k qs (schedule mm_free rsp k)
  unfolding schedule retire_current keeps_running
  schedule-Scheduled mm_free rsp k qs q ok =
      let s = reap mm_free k in
      let f = reap-Frees mm_free k in
      let same : has_quantum s.current s.procs s.quantum ≡ has_quantum k.current k.procs k.quantum =
        rw (f.current, f.quantum) (has_quantum-Kept k.current k.procs s.procs k.quantum f.kept) in
      let again : Queues (retire rsp s.current s) (requeue k.current k.procs qs) =
        subst (Queues (retire rsp s.current s))
          (ap (λ o. requeue o s.procs qs) f.current
            ∙ requeue-Kept k.current k.procs s.procs qs f.kept)
          (retire-Queues rsp s.current s qs (Queues-frame_ready k s qs f.queues (λ z _. f.kept z) q)
            (subst (λ o. IsCurrent o s.procs) (sym f.current)
              (IsCurrent-Kept k.current k.procs s.procs f.kept ok))) in
      let r = retire-same rsp s.current s in
      elim (Bool-cases (has_quantum k.current k.procs k.quantum)) [
        | inl go ↦ rw (same ∙ go) (inl (goes_on mm_free k qs q go))
        | inr stop ↦
            rw
              (
                same ∙ stop,
                next_runnable-pick mm_free (retire rsp s.current s) _ max_processes again,
              )
              (inr (record {
                no_time =
                    λ c h. let d : true ≡ false = sym (HasTime-has_quantum k c h) ∙ stop in cc;
                next =
                    dispatch-Chosen k (retire rsp s.current s) _ _ (r.0 ∙ f.current)
                      (r.1 ∙ f.quantum) again
                      (pick_next_process-Picks (retire rsp s.current s) _ again);
              }))
      ]
