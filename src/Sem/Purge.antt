-- ===== src/Sem/Purge.antt =====
-- `sem_remove_pid`: a killed process waits on no semaphore.
use tp_so.Prelude.{
  ℕ, ◌<◌, ◌≡◌, ◌≢◌, refl, ap, sym, ◌∙◌, true, false, List, [], ◌∷◌, ℤ, pos, negsuc, arith, All,
  if_elim, eq_ℤ, map_range_lem, lt→ltb,
}
use tp_so.Machine.{Sem, System, max_sems}
use tp_so.Sem.{remove_pid, purge, sem_remove_pid}

eq_ℤ_refl : (x : ℤ) → eq_ℤ x x ≡ true
eq_ℤ_refl (pos n) = ground arith
eq_ℤ_refl (negsuc n) = ground arith

remove_pid-Absent : (pid : ℤ) (xs : List ℤ) → All (λ x. x ≢ pid) (remove_pid pid xs)
unfolding remove_pid
remove_pid-Absent pid [] = tt
remove_pid-Absent pid (x ∷ xs) =
    if_elim (All (λ y. y ≢ pid)) (eq_ℤ x pid) (λ _. remove_pid-Absent pid xs)
      (λ f. (
        λ e. let c : true ≡ false = sym (eq_ℤ_refl pid) ∙ (ap (λ y. eq_ℤ y pid) (sym e) ∙ f) in cc,
        remove_pid-Absent pid xs,
      ))

eq_ℤ_sound : (x y : ℤ) → eq_ℤ x y ≡ true → x ≡ y
eq_ℤ_sound (pos a) (pos b) h = ground arith
eq_ℤ_sound (pos a) (negsuc b) h = cc
eq_ℤ_sound (negsuc a) (pos b) h = cc
eq_ℤ_sound (negsuc a) (negsuc b) h = ground arith

remove_pid_unchanged : (pid : ℤ) (xs : List ℤ) → All (λ x. x ≢ pid) xs → remove_pid pid xs ≡ xs
unfolding remove_pid
remove_pid_unchanged pid [] h = refl
remove_pid_unchanged pid (x ∷ xs) h =
    if_elim (λ r. r ≡ x ∷ xs) (eq_ℤ x pid) (λ e. absurd (h.0 (eq_ℤ_sound x pid e)))
      (λ _. ap (λ r. x ∷ r) (remove_pid_unchanged pid xs h.1))

purge-Absent :
    (pid : ℤ) (s : Sem)
    → (purge pid s).active ≡ true
    → All (λ x. x ≢ pid) (purge pid s).blocked_pids
unfolding purge
purge-Absent pid s =
    if_elim (λ (q : Sem). q.active ≡ true → All (λ x. x ≢ pid) q.blocked_pids) s.active
      (λ _ _. remove_pid-Absent pid s.blocked_pids) (λ f a. let c : true ≡ false = sym a ∙ f in cc)

purge_unchanged :
    (pid : ℤ) (s : Sem)
    → All (λ x. x ≢ pid) s.blocked_pids
    → (purge pid s).blocked_pids ≡ s.blocked_pids
unfolding purge
purge_unchanged pid s h =
    if_elim (λ (q : Sem). q.blocked_pids ≡ s.blocked_pids) s.active
      (λ _. remove_pid_unchanged pid s.blocked_pids h) (λ _. refl)

module _ {M : Type 0} where
  -- After `sem_remove_pid` the process waits on no active semaphore, and the semaphores on which it did
  -- not wait have the queues that they had.
  pub sem_remove_pid-Absent :
      (pid : ℤ) (k : System M) (i : ℕ)
      → i < max_sems
      → let s = (sem_remove_pid pid k).sems i in
        (s.active ≡ true → All (λ x. x ≢ pid) s.blocked_pids)
        × (All (λ x. x ≢ pid) (k.sems i).blocked_pids → s.blocked_pids ≡ (k.sems i).blocked_pids)
  unfolding sem_remove_pid
  sem_remove_pid-Absent pid k i h =
      rw (map_range_lem max_sems (purge pid) k.sems i, lt→ltb i max_sems h)
        (purge-Absent pid (k.sems i), purge_unchanged pid (k.sems i))
