-- ===== src/Scheduler/Free.antt =====
-- `free_pcb_resources`, and the deferred call of it in `schedule`: what they leave alone.
use tp_so.Prelude.{ℕ, ◌≡◌, refl, ◌∙◌, Option, some, none, arith}
use tp_so.Machine.{System}
use tp_so.Scheduler.{reap, reap_left, free_pcb_resources, free_argv, free_stack, clear_pid}
use tp_so.Scheduler.Queues.{Kept}

module _ {M : Type 0} where
  pub record Frees (k s : System M) : Type 0 where
    pub queues : s.queues ≡ k.queues
    pub current : s.current ≡ k.current
    pub quantum : s.quantum ≡ k.quantum
    pub kept : (z : ℕ) → Kept k.procs s.procs z

  Frees-refl : (k : System M) → Frees k k
  Frees-refl k = record {
    queues = refl;
    current = refl;
    quantum = refl;
    kept = λ z. ((refl, refl), refl, refl);
  }

  Frees-trans : {j k s : System M} → Frees j k → Frees k s → Frees j s
  Frees-trans a b = record {
    queues = b.queues ∙ a.queues;
    current = b.current ∙ a.current;
    quantum = b.quantum ∙ a.quantum;
    kept = λ z.
        let u = a.kept z in
        let v = b.kept z in ((v.0.0 ∙ u.0.0, v.0.1 ∙ u.0.1), v.1 ∙ u.1, v.2 ∙ u.2);
  }

  clear_pid-Frees : (p : ℕ) (k : System M) → Frees k (clear_pid p k)
  unfolding clear_pid
  clear_pid-Frees p k = record {
    queues = refl;
    current = refl;
    quantum = refl;
    kept = λ z. ground arith;
  }

  module _ (mm_free : ℕ → M → M) where
    free_stack-Frees : (p : ℕ) (k : System M) → Frees k (free_stack mm_free p k)
    unfolding free_stack
    free_stack-Frees p k = record {
      queues = ground arith;
      current = ground arith;
      quantum = ground arith;
      kept = λ z. ground arith;
    }

    free_argv-Frees : (p : ℕ) (k : System M) → Frees k (free_argv mm_free p k)
    unfolding free_argv
    free_argv-Frees p k = record {
      queues = ground arith;
      current = ground arith;
      quantum = ground arith;
      kept = λ z. ground arith;
    }

    pub free_pcb_resources-Frees :
        (o : Option ℕ) (k : System M) → Frees k (free_pcb_resources mm_free o k)
    unfolding free_pcb_resources
    free_pcb_resources-Frees none k = Frees-refl k
    free_pcb_resources-Frees (some p) k = Frees-trans (free_stack-Frees p k) (
        Frees-trans (free_argv-Frees p (free_stack mm_free p k))
          (clear_pid-Frees p (free_argv mm_free p (free_stack mm_free p k))))

    reap_left-Frees : (o : Option ℕ) (k : System M) → Frees k (reap_left mm_free o k)
    unfolding reap_left
    reap_left-Frees none k = Frees-refl k
    reap_left-Frees (some p) k =
        let f = free_pcb_resources-Frees (some p) k in
        record { queues = f.queues; current = f.current; quantum = f.quantum; kept = f.kept }

    -- Freeing the process that was left over touches no queue and no link.
    pub reap-Frees : (k : System M) → Frees k (reap mm_free k)
    unfolding reap
    reap-Frees k = reap_left-Frees k.to_free k
