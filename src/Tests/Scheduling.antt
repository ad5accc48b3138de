-- ===== src/Tests/Scheduling.antt =====
-- The scheduler's theorems on the machine of Tests/Sample.antt.
use tp_so.Prelude.{
  ℕ, zero, suc, ◌<◌, ◌≡◌, refl, some, [], ◌∷◌, ◌++◌, arith, update, erase, All, ◌≢◌,
}
use tp_so.Machine.{priority_levels}
use tp_so.Scheduler.{
  schedule, enqueue, dequeue, keeps_running, reap, dispatch, next_runnable, pick_next_process,
  retire_current, save_rsp, link_last, make_ready, add_level, link_after, queue_tail,
}
use tp_so.Scheduler.Queues.{Queues}
use tp_so.Scheduler.Enqueue.{enqueue-Queues}
use tp_so.Scheduler.Dequeue.{dequeue-Queues}
use tp_so.Scheduler.Turns.{Scheduled}
use tp_so.Scheduler.Switch.{schedule-Scheduled}
use tp_so.Tests.Sample.{machine, lists, machine-Queues}

schedule-Scheduled_example : Scheduled machine lists (schedule (λ p m. m) 7 machine)
schedule-Scheduled_example =
    schedule-Scheduled (λ p m. m) 7 machine lists machine-Queues
      (omega arith, (2, omega arith, refl))

-- The blocked process of slot 4 stands in no queue.
four_absent : (j : ℕ) → j < priority_levels → All (λ z. z ≢ 4) (lists j)
four_absent zero h = tt
four_absent (suc zero) h = tt
four_absent (suc (suc zero)) h = (omega arith, (omega arith, tt))
four_absent (suc (suc (suc zero))) h = tt
four_absent (suc (suc (suc (suc zero)))) h = (omega arith, tt)
four_absent (suc (suc (suc (suc (suc l))))) h = absurd (omega arith)

enqueue-Queues_example : Queues (enqueue 4 machine) (update lists 2 (lists 2 ++ (4 ∷ [])))
enqueue-Queues_example =
    enqueue-Queues machine lists 4 2 machine-Queues (omega arith) (omega arith) (λ e. cc) refl
      four_absent

dequeue-Queues_example : Queues (dequeue 2 machine) (update lists 2 (erase 2 (lists 2)))
dequeue-Queues_example = dequeue-Queues machine lists 2 2 machine-Queues (omega arith) refl refl

-- The first of the two processes of priority 2 runs, and the running one goes behind the second.
schedule_first : (schedule (λ p m. m) 7 machine).1.current ≡ some 1
unfolding schedule keeps_running reap dispatch next_runnable pick_next_process retire_current
    enqueue save_rsp link_last make_ready add_level link_after queue_tail
schedule_first = refl
