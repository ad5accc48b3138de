-- ===== src/Process/Lifecycle.antt =====
-- The semaphore on which a parent waits for its child: `create_process` opens it, `signal_exit` posts
-- it, and `wait_child` destroys it.
use tp_so.Prelude.{
  ℕ, suc, ◌+◌, ◌-◌, ◌<◌, ◌^◌, ◌≡◌, ◌≢◌, refl, ap, ◌∙◌, some, none, true, false, Option, List, [],
  update, length, arith, pos, lt→ltb, ℤ, ◌==◌, ltb, fun_ext, find_from, if_elim,
}
use tp_so.Machine.{max_sem_name, on_sem, Sem, System, max_sems}
use tp_so.Memory.{Manager}
use tp_so.Sem.{
  sem_create, free_sem, is_named, lock_registry, unlock_registry, locked, incr16, Outcome, returns,
  sem_open, sem_post, sem_close, sem_wait, find_sem, sem_reopen, sem_release, sem_close_at,
  sem_post_at, sem_wait_at, take_one, leave, sem_destroy, deactivate,
}
use tp_so.Sem.Names.{find_sem-open, free_sem-lt}
use tp_so.Process.WaitName.{length-dec_str}
use tp_so.Process.{
  open_wait_sem, wait_sem_named, uint64_to_dec_str, wait_sem_name, build_wait_sem_name, signal_exit,
  signal_exit_named, post_and_close, wait_child, wait_named, wait_on, close_twice,
}

leave_users : (s : Sem) (u : ℕ) → s.users ≡ suc u → (leave s).users ≡ u
unfolding leave
leave_users s u e = ground arith

module _ {M : Type 0} where
  -- `sem_open` of the name finds semaphore `i`, with this value and these many users, on which nobody waits.
  pub record Opened (name : List ℕ) (i value users : ℕ) (k : System M) : Type 0 where
    pub found : find_sem name k ≡ some i
    pub in_range : i < max_sems
    pub live : (k.sems i).active ≡ true
    pub worth : (k.sems i).value ≡ value
    pub used : (k.sems i).users ≡ users
    pub nobody : (k.sems i).blocked_pids ≡ []

  found_replaced :
      (name : List ℕ) (i : ℕ) (k t : System M) (s : Sem)
      → t.sems ≡ update k.sems i s
      → s.name ≡ (k.sems i).name
      → s.active ≡ (k.sems i).active
      → find_sem name t ≡ find_sem name k
  unfolding find_sem
  found_replaced name i k t s e n a = ap (find_from max_sems 0) (fun_ext λ q. rw e (named q))
    where
      named : (q : ℕ) → is_named name (update k.sems i s q) ≡ is_named name (k.sems q)
      named q = ground arith

  -- Another entry in its place with the same name.
  replaced :
      {name : List ℕ} {i v u w n : ℕ} {t : System M} (k : System M) (s : Sem)
      → Opened name i v u k
      → t.sems ≡ update k.sems i s
      → s.name ≡ (k.sems i).name
      → s.active ≡ (k.sems i).active
      → s.blocked_pids ≡ []
      → s.value ≡ w
      → s.users ≡ n
      → Opened name i w n t
  replaced {name = name} {i = i} {t = t} k s o e n a b w u = record {
    found = found_replaced name i k t s e n a ∙ o.found;
    in_range = o.in_range;
    live = rw e (ground (arith, o.live));
    worth = rw e (ground arith);
    used = rw e (ground arith);
    nobody = rw e (ground arith);
  }

  sem_open-Opened :
      (name : List ℕ) (i v u x : ℕ) (k : System M)
      → Opened name i v u k
      → u + 1 < 2 ^ 16
      → let r = sem_open (some name) x k in (r.0 ≡ pos i) × Opened name i v (u + 1) r.1
  unfolding sem_open sem_reopen find_sem
  sem_open-Opened name i v u x k o b =
      let s = record (k.sems i) { users = incr16 (k.sems i).users } in
      let fits : incr16 (k.sems i).users ≡ u + 1 = omega (arith, o.used) in
      rw (o.found) (refl, replaced k s o refl refl refl (o.nobody) (o.worth) fits)

  sem_post-Opened :
      (name : List ℕ) (i v u : ℕ) (k : System M)
      → Opened name i v u k
      → v + 1 < 2 ^ 16
      → Opened name i (v + 1) u (sem_post (pos i) k).1
  unfolding sem_post sem_post_at sem_release
  sem_post-Opened name i v u k o b =
      let s = record (k.sems i) { lock = 0; value = incr16 (k.sems i).value } in
      let fits : incr16 (k.sems i).value ≡ v + 1 = omega (arith, o.worth) in
      rw (lt→ltb i max_sems (o.in_range), o.live, o.nobody)
        (replaced k s o refl refl refl (o.nobody) fits (o.used))

  -- The entry and the number of users after one user has one_left.
  one_left : ℕ → System M → System M
  one_left i k = on_sem i leave (lock_registry k)

  users_left :
      (name : List ℕ) (i v u : ℕ) (k : System M)
      → Opened name i v (suc u) k
      → ((one_left i k).sems i).users ≡ u
  unfolding one_left leave
  users_left name i v u k o = ground (arith, o.used)

  sem_close-Opened :
      (name : List ℕ) (i v u : ℕ) (k : System M)
      → Opened name i v (suc (suc u)) k
      → Opened name i v (suc u) (sem_close (pos i) k).1
  unfolding sem_close sem_close_at one_left leave
  sem_close-Opened name i v u k o = rw (lt→ltb i max_sems (o.in_range)) (
      if_elim (λ (r : ℤ × System M). Opened name i v (suc u) r.1) (k.sems i).active
        (λ _.
          if_elim (λ (t : System M). Opened name i v (suc u) (unlock_registry t))
            (((one_left i k).sems i).users == 0)
            (λ z. absurd (ground (arith, users_left name i v (suc u) k o)))
            (λ _.
              replaced k (leave (k.sems i)) o refl refl refl (o.nobody) (o.worth)
                (leave_users (k.sems i) (suc u) (o.used))))
        (λ f. absurd (ground (arith, o.live))))

  sem_wait-Opened :
      (es : List (System M → System M)) (name : List ℕ) (i v u : ℕ) (k : System M)
      → Opened name i (suc v) u k
      → (s : System M) × (sem_wait es (pos i) k ≡ returns (pos 0) s) × Opened name i v u s
  unfolding sem_wait sem_wait_at take_one
  sem_wait-Opened es name i v u k o = rw (lt→ltb i max_sems (o.in_range)) (
      if_elim Goal (k.sems i).active
        (λ _.
          if_elim Goal (ltb 0 (k.sems i).value)
            (λ _. (
              locked i take_one k,
              refl,
              replaced k (record (k.sems i) { lock = 0; value = (k.sems i).value - 1 }) o refl refl
                  refl (o.nobody) (omega (arith, o.worth)) (o.used),
            ))
            (λ f. absurd (ground (arith, o.worth))))
        (λ f. absurd (ground (arith, o.live))))
    where
      Goal : Outcome M → Type 0
      Goal r = (s : System M) × (r ≡ returns (pos 0) s) × Opened name i v u s

  sem_destroy-gone : (i : ℕ) (k : System M) → ((sem_destroy i k).sems i).active ≡ false
  unfolding sem_destroy deactivate
  sem_destroy-gone i k = ground arith

  sem_close-last :
      (name : List ℕ) (i v : ℕ) (k : System M)
      → Opened name i v 1 k
      → ((sem_close (pos i) k).1.sems i).active ≡ false
  unfolding sem_close sem_close_at one_left leave
  sem_close-last name i v k o = rw (lt→ltb i max_sems (o.in_range)) (
      if_elim (λ (r : ℤ × System M). (r.1.sems i).active ≡ false) (k.sems i).active
        (λ _.
          if_elim (λ (t : System M). ((unlock_registry t).sems i).active ≡ false)
            (((one_left i k).sems i).users == 0) (λ _. sem_destroy-gone i (one_left i k))
            (λ f. absurd (ground (arith, users_left name i v 0 k o))))
        (λ f. absurd (ground (arith, o.live))))

  created :
      (name : List ℕ) (i : ℕ) (k : System M)
      → length name < max_sem_name
      → find_sem name k ≡ none
      → free_sem k ≡ some i
      → Opened name i 0 1 (sem_open (some name) 0 k).1
  unfolding sem_open sem_create find_sem free_sem
  created name i k b n f =
      let e : (sem_open (some name) 0 k).0 ≡ pos i = rw (n, f) refl in
      record {
        found = find_sem-open name 0 i k b e;
        in_range = free_sem-lt k i f;
        live = rw (n, f) (ground arith);
        worth = rw (n, f) (ground arith);
        used = rw (n, f) (ground arith);
        nobody = rw (n, f) (ground arith);
      }

short_name : (pid : ℕ) → length (wait_sem_name pid) < max_sem_name
unfolding wait_sem_name
short_name pid = omega (arith, length-dec_str pid)

module _ {M : Type 0} (mm : Manager M) where
  -- There is memory for the name of the semaphore of process `pid`.
  abbrev pub HasRoom : ℕ → M → Type 0
  HasRoom pid m = (mm.alloc (6 + length (uint64_to_dec_str pid)) m).0 ≢ 0

  -- What follows the allocation of the name.
  build_elim {ℓ} :
      (P : Option (ℕ × List ℕ) × System M → Type ℓ) (pid : ℕ) (k : System M)
      → pid ≢ 0
      → HasRoom pid k.mm
      → ((a : ℕ × M) → P (some (a.0, wait_sem_name pid), record k { mm = a.1 }))
      → P (build_wait_sem_name mm pid k)
  unfolding build_wait_sem_name
  build_elim P pid k p h f =
      if_elim P (pid == 0) (λ z. absurd (ground arith))
        (λ _.
          if_elim P ((mm.alloc (6 + length (uint64_to_dec_str pid)) k.mm).0 == 0)
            (λ z. absurd (ground arith))
            (λ _. f (mm.alloc (6 + length (uint64_to_dec_str pid)) k.mm)))

  with_mm :
      {name : List ℕ} {i v u : ℕ} (k : System M) (m : M)
      → Opened name i v u k
      → Opened name i v u (record k { mm = m })
  unfolding find_sem
  with_mm k m o = record {
    found = unfold find_sem in o.found;
    in_range = o.in_range;
    live = o.live;
    worth = o.worth;
    used = o.used;
    nobody = o.nobody;
  }

  post_and_close-Opened :
      (name : List ℕ) (i v : ℕ) (z : ℤ) (k : System M)
      → v + 1 < 2 ^ 16
      → z ≡ pos i
      → Opened name i v 2 k
      → Opened name i (v + 1) 1 (post_and_close mm z k)
  unfolding post_and_close
  post_and_close-Opened name i v z k b e o =
      rw e (sem_close-Opened name i (v + 1) 0 _ (sem_post-Opened name i v 2 k o b))

  -- The end of a process adds one to the value of its semaphore, and leaves the number of users as it was.
  pub signal_exit-Opened :
      (pid i v : ℕ) (k : System M)
      → pid ≢ 0
      → HasRoom pid k.mm
      → v + 1 < 2 ^ 16
      → Opened (wait_sem_name pid) i v 1 k
      → Opened (wait_sem_name pid) i (v + 1) 1 (signal_exit mm pid k)
  unfolding signal_exit signal_exit_named
  signal_exit-Opened pid i v k p h b o =
      build_elim
        (λ (r : Option (ℕ × List ℕ) × System M).
          Opened (wait_sem_name pid) i (v + 1) 1 (signal_exit_named mm r.0 r.1))
        pid k p h
        (λ a.
          let again =
            sem_open-Opened (wait_sem_name pid) i v 1 0 (record k { mm = a.1 }) (with_mm k (a.1) o)
              (omega arith) in
          with_mm _ _ (post_and_close-Opened (wait_sem_name pid) i v _ _ b (again.0) (again.1)))

  -- `wait_child` came back with 0 without sleeping, and semaphore `i` is free again.
  abbrev pub Reaped : ℕ → Outcome M → Type 0
  Reaped i r = (s : System M) × (r ≡ returns (pos 0) s) × ((s.sems i).active ≡ false)

  wait_on-Reaped :
      (es : List (System M → System M)) (name : List ℕ) (i v : ℕ) (z : ℤ) (k : System M)
      → z ≡ pos i
      → Opened name i (suc v) 2 k
      → Reaped i (wait_on mm es z k)
  unfolding wait_on close_twice
  wait_on-Reaped es name i v z k e o =
      let w = sem_wait-Opened es name i v 2 k o in
      rw (e, w.1)
        (
          (sem_close (pos i) (sem_close (pos i) w.0).1).1,
          refl,
          sem_close-last name i v _ (sem_close-Opened name i v 0 w.0 (w.2)),
        )

  pub wait_child-Reaped :
      (es : List (System M → System M)) (pid i v : ℕ) (k : System M)
      → pid ≢ 0
      → HasRoom pid k.mm
      → Opened (wait_sem_name pid) i (suc v) 1 k
      → Reaped i (wait_child mm es pid k)
  unfolding wait_child wait_named
  wait_child-Reaped es pid i v k p h o =
      build_elim (λ (r : Option (ℕ × List ℕ) × System M). Reaped i (wait_named mm es r.0 r.1)) pid k
        p h
        (λ a.
          let again =
            sem_open-Opened (wait_sem_name pid) i (suc v) 1 0 (record k { mm = a.1 })
              (with_mm k (a.1) o) (omega arith) in
          wait_on-Reaped es (wait_sem_name pid) i v _ _ (again.0) (with_mm _ _ (again.1)))

  -- A child that ended before its parent waits for it does not keep the parent waiting: where nobody else uses or waits on the semaphore of
  -- process `pid`, which is not 0, and there is memory for its name both times,
  -- `wait_child` after `signal_exit` returns 0 without sleeping, and the semaphore is free again.
  pub wait_child-signal_exit :
      (es : List (System M → System M)) (pid i : ℕ) (k : System M)
      → pid ≢ 0
      → Opened (wait_sem_name pid) i 0 1 k
      → HasRoom pid k.mm
      → HasRoom pid (signal_exit mm pid k).mm
      → Reaped i (wait_child mm es pid (signal_exit mm pid k))
  wait_child-signal_exit es pid i k p o h g =
      wait_child-Reaped es pid i 0 (signal_exit mm pid k) p g
        (signal_exit-Opened pid i 0 k p h (omega arith) o)

  -- `create_process` leaves the semaphore of a process whose pid is not 0 with value 0, one user and nobody waiting,
  -- in the first free slot, where there is memory for its name and no semaphore of that name yet.
  pub open_wait_sem-Opened :
      (trampoline pid i : ℕ) (k : System M)
      → pid ≢ 0
      → HasRoom pid k.mm
      → find_sem (wait_sem_name pid) k ≡ none
      → free_sem k ≡ some i
      → Opened (wait_sem_name pid) i 0 1 (open_wait_sem mm trampoline pid k)
  unfolding open_wait_sem wait_sem_named
  open_wait_sem-Opened trampoline pid i k p h n f =
      build_elim
        (λ (r : Option (ℕ × List ℕ) × System M).
          Opened (wait_sem_name pid) i 0 1 (wait_sem_named mm trampoline r.0 r.1))
        pid k p h
        (λ a. with_mm _ _ (
          created (wait_sem_name pid) i (record k { mm = a.1 }) (short_name pid)
            (unfold find_sem in n) (unfold free_sem in f)))
