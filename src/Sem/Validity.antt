-- ===== src/Sem/Validity.antt =====
-- The invariant of the semaphores: nobody waits on one whose value is positive.
use tp_so.Prelude.{
  ℕ, ◌<◌, ◌^◌, ◌≡◌, refl, sym, ◌∙◌, Option, some, none, true, false, List, [], ◌∷◌, ◌==◌, arith,
  ltb, ℤ, update, map_range_lem, update_elim, lt→ltb, find_from-lt, All, if_elim, on_some_elim,
}
use tp_so.Machine.{Sem, System, max_sems, on_sem, state_of, eq_state, blocked, running}
use tp_so.ProcessTable.{u64_of_int, get_current_pid}
use tp_so.Scheduler.{unblock_process, block_current_process, yield_process}
use tp_so.Scheduler.Frame.{unblock_process-SameOutside}
use tp_so.Sem.{
  Outcome, returns, asleep, fault, sem_open, sem_reopen, sem_create, sem_close_at, sem_destroy,
  unblock_all, sem_wait_at, sem_block, sem_sleep, sem_post_at, sem_release, sem_remove_pid, purge,
  remove_pid, find_sem, free_sem, sem_lock, sem_unlock, locked, lock_registry, leave, deactivate,
  take_one, enlist,
}

-- An active semaphore with a positive value has no waiting process, its lock is free, and its two
-- counters fit in 16 bits.
pub record IsValid (s : Sem) : Type 0 where
  pub nobody_waits : s.active ≡ true → 0 < s.value → s.blocked_pids ≡ []
  pub unlocked : s.lock ≡ 0
  pub value_fits : s.value < 2 ^ 16
  pub users_fit : s.users < 2 ^ 16

abbrev pub AllValid : (ℕ → Sem) → Type 0
AllValid t = (i : ℕ) → i < max_sems → IsValid (t i)

update-AllValid : (t : ℕ → Sem) (i : ℕ) (s : Sem) → AllValid t → IsValid s → AllValid (update t i s)
update-AllValid t i s v h j b = update_elim IsValid t i s j (λ _. h) (λ _. v j b)

purge-IsValid : (pid : ℤ) (s : Sem) → IsValid s → IsValid (purge pid s)
unfolding purge remove_pid
purge-IsValid pid s v = record {
  nobody_waits = ground (arith, v.nobody_waits);
  unlocked = ground (arith, v.unlocked);
  value_fits = ground (arith, v.value_fits);
  users_fit = ground (arith, v.users_fit);
}

leave-IsValid : (s : Sem) → IsValid s → IsValid (leave s)
unfolding leave
leave-IsValid s v = record {
  nobody_waits = v.nobody_waits;
  unlocked = v.unlocked;
  value_fits = v.value_fits;
  users_fit = ground (arith, v.users_fit);
}

deactivate-IsValid : (s : Sem) → IsValid s → IsValid (deactivate s)
unfolding deactivate
deactivate-IsValid s v = record {
  nobody_waits = λ a h. refl;
  unlocked = v.unlocked;
  value_fits = v.value_fits;
  users_fit = v.users_fit;
}

take_one-IsValid : (s : Sem) → IsValid s → IsValid (sem_unlock (take_one (sem_lock s)))
unfolding take_one
take_one-IsValid s v = record {
  nobody_waits = λ a h. v.nobody_waits a (omega arith);
  unlocked = refl;
  value_fits = omega arith;
  users_fit = v.users_fit;
}

enlist-IsValid :
    (pid : ℤ) (s : Sem)
    → ltb 0 s.value ≡ false
    → IsValid s
    → IsValid (sem_unlock (enlist pid (sem_lock s)))
unfolding enlist
enlist-IsValid pid s z v = record {
  nobody_waits = λ a h. absurd (ground arith);
  unlocked = refl;
  value_fits = v.value_fits;
  users_fit = v.users_fit;
}

module _ {M : Type 0} where
  sems-unblock_all : (pids : List ℤ) (k : System M) → (unblock_all pids k).sems ≡ k.sems
  unfolding unblock_all
  sems-unblock_all [] k = refl
  sems-unblock_all (p ∷ ps) k =
      sems-unblock_all ps (unblock_process (u64_of_int p) k)
      ∙ (unblock_process-SameOutside (u64_of_int p) k).sems

  sem_destroy-AllValid :
      (i : ℕ) (k : System M) → i < max_sems → AllValid k.sems → AllValid (sem_destroy i k).sems
  unfolding sem_destroy
  sem_destroy-AllValid i k b v =
      rw (sems-unblock_all (k.sems i).blocked_pids k)
        (update-AllValid k.sems i _ v (deactivate-IsValid (k.sems i) (v i b)))

  pub sem_close-AllValid :
      (i : ℕ) (k : System M) → i < max_sems → AllValid k.sems → AllValid (sem_close_at i k).1.sems
  unfolding sem_close_at
  sem_close-AllValid i k b v =
      if_elim (λ (r : ℤ × System M). AllValid r.1.sems) (k.sems i).active
        (λ _.
          if_elim (λ (s : System M). AllValid s.sems)
            (((on_sem i leave (lock_registry k)).sems i).users == 0)
            (λ _. sem_destroy-AllValid i (on_sem i leave (lock_registry k)) b kept) (λ _. kept))
        (λ _. v)
    where
      kept : AllValid (on_sem i leave (lock_registry k)).sems
      kept = update-AllValid k.sems i _ v (leave-IsValid (k.sems i) (v i b))

  create-IsValid :
      (name : List ℕ) (value i : ℕ) (k : System M)
      → value < 2 ^ 16
      → AllValid k.sems
      → AllValid (sem_create name value i k).sems
  unfolding sem_create
  create-IsValid name value i k b v = update-AllValid k.sems i _ v (record {
    nobody_waits = λ a h. refl;
    unlocked = refl;
    value_fits = b;
    users_fit = omega arith;
  })

  reopen-IsValid :
      (i : ℕ) (k : System M) → i < max_sems → AllValid k.sems → AllValid (sem_reopen i k).sems
  unfolding sem_reopen
  reopen-IsValid i k b v = update-AllValid k.sems i _ v (record {
    nobody_waits = (v i b).nobody_waits;
    unlocked = (v i b).unlocked;
    value_fits = (v i b).value_fits;
    users_fit = omega arith;
  })

  find_sem-lt : (name : List ℕ) (k : System M) (i : ℕ) → find_sem name k ≡ some i → i < max_sems
  unfolding find_sem
  find_sem-lt name k i e = find_from-lt max_sems _ i e

  pub sem_open-AllValid :
      (name : Option (List ℕ)) (value : ℕ) (k : System M)
      → value < 2 ^ 16
      → AllValid k.sems
      → AllValid (sem_open name value k).1.sems
  unfolding sem_open
  sem_open-AllValid none value k b v = v
  sem_open-AllValid (some name) value k b v =
      on_some_elim (λ (r : ℤ × System M). AllValid r.1.sems) (find_sem name (lock_registry k))
        (λ i e. reopen-IsValid i (lock_registry k) (find_sem-lt name (lock_registry k) i e) v)
        (λ _.
          on_some_elim (λ (r : ℤ × System M). AllValid r.1.sems) (free_sem (lock_registry k))
            (λ i _. create-IsValid name value i (lock_registry k) b v) (λ _. v))

  release-AllValid :
      (i : ℕ) (pids : List ℤ) (k : System M)
      → i < max_sems
      → AllValid k.sems
      → (k.sems i).active ≡ true
      → (k.sems i).blocked_pids ≡ pids
      → AllValid (sem_release i pids k).sems
  unfolding sem_release
  release-AllValid i [] k b v a e = update-AllValid k.sems i _ v (record {
    nobody_waits = λ _ _. e;
    unlocked = refl;
    value_fits = omega arith;
    users_fit = (v i b).users_fit;
  })
  release-AllValid i (p ∷ ps) k b v a e = rw ((unblock_process-SameOutside (u64_of_int p) _).sems) (
      update-AllValid k.sems i _ v (record {
        nobody_waits = λ _ h. absurd (nonempty (sym e ∙ (v i b).nobody_waits a h));
        unlocked = refl;
        value_fits = (v i b).value_fits;
        users_fit = (v i b).users_fit;
      }))
    where
      nonempty : p ∷ ps ≡ [] → ⊥
      nonempty q = cc

  pub sem_post-AllValid :
      (i : ℕ) (k : System M) → i < max_sems → AllValid k.sems → AllValid (sem_post_at i k).1.sems
  unfolding sem_post_at
  sem_post-AllValid i k b v =
      if_elim (λ (r : ℤ × System M). AllValid r.1.sems) (k.sems i).active
        (λ e. release-AllValid i (k.sems i).blocked_pids k b v e refl) (λ _. v)

  pub sem_remove_pid-AllValid :
      (pid : ℤ) (k : System M) → AllValid k.sems → AllValid (sem_remove_pid pid k).sems
  unfolding sem_remove_pid
  sem_remove_pid-AllValid pid k v i b =
      rw (map_range_lem max_sems (purge pid) k.sems i, lt→ltb i max_sems b)
        (purge-IsValid pid (k.sems i) (v i b))

  -- What holds of the state that a call ends or sleeps in.
  abbrev pub Leaves : (System M → Type 0) → Outcome M → Type 0
  Leaves P (returns r s) = P s
  Leaves P (asleep s) = P s
  Leaves P fault = Unit {0}

  abbrev pub Keeps : (System M → System M) → Type 0
  Keeps e = (s : System M) → AllValid s.sems → AllValid (e s).sems

  sem_sleep-AllValid :
      (es : List (System M → System M)) (c : ℕ) (k : System M)
      → All Keeps es
      → AllValid k.sems
      → Leaves (λ s. AllValid s.sems) (sem_sleep c es k)
  unfolding sem_sleep
  sem_sleep-AllValid [] c k h v =
      if_elim (Leaves (λ s. AllValid s.sems)) (eq_state (state_of k c) blocked) (λ _. slept)
        (λ _. v)
    where
      slept : AllValid (yield_process k).sems
      slept = unfold yield_process in v
  sem_sleep-AllValid (e ∷ es) c k h v =
      if_elim (Leaves (λ s. AllValid s.sems)) (eq_state (state_of k c) blocked)
        (λ _. sem_sleep-AllValid es c (e (yield_process k)) h.1 (h.0 (yield_process k) slept))
        (λ _. v)
    where
      slept : AllValid (yield_process k).sems
      slept = unfold yield_process in v

  pub sems-block_current : (k : System M) → (block_current_process k).sems ≡ k.sems
  unfolding block_current_process
  sems-block_current k =
      on_some_elim (λ (s : System M). s.sems ≡ k.sems) k.current
        (λ p _.
          if_elim (λ (s : System M). s.sems ≡ k.sems) (eq_state (state_of k p) running) (λ _. refl)
            (λ _. refl))
        (λ _. refl)

  sem_block-AllValid :
      (es : List (System M → System M)) (o : Option ℕ) (k : System M)
      → All Keeps es
      → AllValid k.sems
      → Leaves (λ s. AllValid s.sems) (sem_block es o k)
  unfolding sem_block
  sem_block-AllValid es none k h v = tt
  sem_block-AllValid es (some c) k h v =
      sem_sleep-AllValid es c (block_current_process k) h (rw (sems-block_current k) v)

  pub sem_wait-AllValid :
      (es : List (System M → System M)) (i : ℕ) (k : System M)
      → i < max_sems
      → All Keeps es
      → AllValid k.sems
      → Leaves (λ s. AllValid s.sems) (sem_wait_at es i k)
  unfolding sem_wait_at
  sem_wait-AllValid es i k b h v =
      if_elim (Leaves (λ s. AllValid s.sems)) (k.sems i).active
        (λ _.
          if_elim (Leaves (λ s. AllValid s.sems)) (ltb 0 (k.sems i).value)
            (λ _. update-AllValid k.sems i _ v (take_one-IsValid (k.sems i) (v i b)))
            (λ z. sem_block-AllValid es k.current (locked i (enlist (get_current_pid k)) k) h (
              update-AllValid k.sems i _ v
                (enlist-IsValid (get_current_pid k) (k.sems i) z (v i b)))))
        (λ _. v)
