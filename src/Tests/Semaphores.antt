-- ===== src/Tests/Semaphores.antt =====
-- The semaphore theorems on the machine of Tests/Sample.antt.
use tp_so.Prelude.{
  true, All, ℕ, zero, suc, ◌≡◌, ◌≢◌, refl, some, List, [], ◌∷◌, pos, arith, find_from,
}
use tp_so.Machine.{System}
use tp_so.ProcessTable.{get_process_by_pid}
use tp_so.Sem.{sem_remove_pid, sem_open, sem_post, find_sem, free_sem, sem_name_eq}
use tp_so.Sem.Purge.{sem_remove_pid-Absent}
use tp_so.Sem.Validity.{AllValid, Keeps}
use tp_so.Sem.Calls.{run_call, run_call-AllValid, posts}
use tp_so.Sem.Handover.{Sleeper, Woken, sem_post-Woken}
use tp_so.Sem.Names.{ShortNames, sem_open_long}
use tp_so.Tests.Sample.{machine, lists, machine-Queues}

pub machine-AllValid : AllValid machine.sems
machine-AllValid zero h = record {
  nobody_waits = λ a p. absurd (omega arith);
  unlocked = refl;
  value_fits = omega arith;
  users_fit = omega arith;
}
machine-AllValid (suc i) h = record {
  nobody_waits = λ a p. refl;
  unlocked = refl;
  value_fits = omega arith;
  users_fit = omega arith;
}

-- A wait that sleeps through one event, which posts the semaphore.
unfoldable pub post : System (Unit {0}) → System (Unit {0})
post k = (sem_post (pos 0) k).1

pub post-Keeps : Keeps post
unfolding post run_call
post-Keeps k v = run_call-AllValid (posts (pos 0)) k tt v

fifth_sleeps : Sleeper machine 5 4 2
unfolding get_process_by_pid find_from
fifth_sleeps = record {
  found = refl;
  slot = omega arith;
  sleeps = refl;
  in_range = omega arith;
  level = refl;
}

sem_post-Woken_example : Woken machine lists 0 4 2 [] (sem_post (pos 0) machine)
sem_post-Woken_example =
    sem_post-Woken machine lists 0 5 4 2 [] machine-Queues (omega arith) refl refl fifth_sleeps

opened : (sem_open (some (b'm' ∷ b'x' ∷ [])) 3 machine).0 ≡ pos 1
unfolding sem_open find_sem free_sem sem_name_eq find_from
opened = refl

abbrev long_name : List ℕ
long_name =
    1 ∷ 2 ∷ 3 ∷ 4 ∷ 5 ∷ 6 ∷ 7 ∷ 8 ∷ 9 ∷ 10 ∷ 11 ∷ 12 ∷ 13 ∷ 14 ∷ 15 ∷ 16 ∷ 17 ∷ 18 ∷ 19 ∷ 20 ∷ 21
    ∷ 22 ∷ 23 ∷ 24 ∷ 25 ∷ 26 ∷ 27 ∷ 28 ∷ 29 ∷ 30 ∷ 31 ∷ 32 ∷ []

long_opened : (sem_open (some long_name) 3 machine).0 ≡ pos 1
unfolding sem_open find_sem free_sem sem_name_eq find_from
long_opened = refl

machine-ShortNames : ShortNames machine.sems
machine-ShortNames zero h = omega arith
machine-ShortNames (suc i) h = omega arith

sem_open_long_example :
    (sem_open (some long_name) 3 (sem_open (some long_name) 3 machine).1).0 ≢ pos 1
sem_open_long_example =
    sem_open_long long_name 3 3 1 machine (omega arith) machine-ShortNames long_opened

-- The fifth process waits on semaphore 0 before, and not after.
sem_remove_pid-Absent_example :
    let s = (sem_remove_pid (pos 5) machine).sems 0 in
    (s.active ≡ true → All (λ x. x ≢ pos 5) s.blocked_pids)
    × (All (λ x. x ≢ pos 5) (machine.sems 0).blocked_pids
        → s.blocked_pids ≡ (machine.sems 0).blocked_pids)
sem_remove_pid-Absent_example = sem_remove_pid-Absent (pos 5) machine 0 (omega arith)
