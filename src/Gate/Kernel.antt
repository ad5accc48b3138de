-- ===== src/Gate/Kernel.antt =====
-- Kernel/sem/sem.c implements Gate.antt: `sem_wait` and `sem_post` of the kernel do to the entry of the
-- table what `gate_wait` and `gate_post` do to the semaphore as programs see it.
use mathlib.Core.List.{map}
use tp_so.Prelude.{
  ℕ, suc, ◌-◌, ◌<◌, ◌≡◌, refl, sym, ap, ap₂, ◌∙◌, ℤ, Bool, true, false, List, [], ◌∷◌, ◌++◌, pos,
  minus_one, length, ltb, update, on_some, lt→ltb, if◌then◌else◌, Bool-cases, inl, inr,
}
use tp_so.Machine.{Sem, System, max_sems, max_blocked}
use tp_so.ProcessTable.{get_current_pid, u64_of_int}
use tp_so.Scheduler.{unblock_process}
use tp_so.Sem.{
  returns, sem_wait, sem_wait_at, sem_block, sem_post, sem_post_at, sem_release, take_one, enlist,
  locked, incr16,
}
use tp_so.Gate.{Gate, goes_through, gate_wait, gate_post, first_waiting, enlisted}

-- The entry of an open semaphore, with the pids that wait on it.
pub record Shows (s : Sem) (g : Gate) : Type 0 where
  pub live : s.active ≡ true
  pub value : s.value ≡ g.value
  pub waiting : s.blocked_pids ≡ map pos g.waiting

length-pos : (ts : List ℕ) → length (map pos ts) ≡ length ts
length-pos [] = refl
length-pos (t ∷ ts) = ap suc (length-pos ts)

map-snoc : (ts : List ℕ) (t : ℕ) → map pos ts ++ (pos t ∷ []) ≡ map pos (ts ++ (t ∷ []))
map-snoc [] t = refl
map-snoc (x ∷ ts) t = ap (λ r. pos x ∷ r) (map-snoc ts t)

-- An entry with another value and queue, released: the name, the users and the rest are as in `s`.
abbrev pub entry : Sem → ℕ → List ℤ → Sem
entry s value pids = record s { lock = 0; value = value; blocked_pids = pids }

-- The entry, released, that shows `g`.
abbrev pub showing : Gate → Sem → Sem
showing g s = entry s g.value (map pos g.waiting)

enlisted-map :
    (t : ℕ) (ps : List ℤ) (ts : List ℕ)
    → ps ≡ map pos ts
    → (if ltb (length ps) max_blocked then ps ++ (pos t ∷ []) else ps) ≡ map pos (enlisted t ts)
unfolding enlisted
enlisted-map t ps ts h =
    rw (h, length-pos ts)
      (elim (Bool-cases (ltb (length ts) max_blocked)) [
        | inl e ↦ rw e (map-snoc ts t)
        | inr e ↦ rw e
      ])

if_true {ℓ} : {A : Type ℓ} {b : Bool} {x : A} (y : A) → b ≡ true → (if b then x else y) ≡ x
if_true y e = rw e

if_false {ℓ} : {A : Type ℓ} {b : Bool} (x : A) {y : A} → b ≡ false → (if b then x else y) ≡ y
if_false x e = rw e

module _ {M : Type 0} where
  -- The state with another entry for semaphore `i`.
  abbrev pub with_sem : ℕ → Sem → System M → System M
  with_sem i e k = record k { sems = update k.sems i e }

  -- The state where semaphore `i` shows `g`.
  abbrev pub now_shows : ℕ → Gate → System M → System M
  now_shows i g k = with_sem i (showing g (k.sems i)) k

  -- `sem_post` returns 0, leaves the semaphore as `gate_post` does, and wakes who goes through.
  abbrev pub Posts : ℕ → Gate → System M → Type 0
  Posts i g k =
      let s = now_shows i (gate_post g) k in
      sem_post (pos i) k ≡ (pos 0, on_some (first_waiting g) (λ t. unblock_process t s) s)

  -- `sem_wait` leaves the semaphore as `gate_wait` does, and returns 0 or puts the caller to sleep.
  abbrev pub Waits : List (System M → System M) → ℕ → ℕ → Gate → System M → Type 0
  Waits es t i g k =
      let s = now_shows i (gate_wait t g) k in
      sem_wait es (pos i) k
      ≡ (if goes_through g then returns (pos 0) s else sem_block es k.current s)

  released :
      (i : ℕ) (ts : List ℕ) (g : Gate) (k : System M)
      → g.waiting ≡ ts
      → Shows (k.sems i) g
      → let s = now_shows i (gate_post g) k in
        sem_release i (map pos ts) k ≡ on_some (first_waiting g) (λ t. unblock_process t s) s
  unfolding sem_release gate_post first_waiting u64_of_int
  released i [] g k w h = rw w (
      ap (λ e. with_sem i e k)
        (ap₂ (entry (k.sems i)) (ap incr16 h.value) (h.waiting ∙ ap (map pos) w)))
  released i (t ∷ ts) g k w h = rw w (
      ap (λ e. unblock_process t (with_sem i e k))
        (ap (λ v. entry (k.sems i) v (map pos ts)) h.value))

  waited :
      (es : List (System M → System M)) (i t : ℕ) (g : Gate) (k : System M)
      → i < max_sems
      → get_current_pid k ≡ pos t
      → Shows (k.sems i) g
      → Waits es t i g k
  unfolding sem_wait sem_wait_at gate_wait take_one enlist
  waited es i t g k b c h =
      let at_entry : sem_wait es (pos i) k ≡ sem_wait_at es i k = rw (lt→ltb i max_sems b) in
      let test : goes_through g ≡ ltb 0 (k.sems i).value = ap (ltb 0) (sym h.value) in
      elim (Bool-cases (goes_through g)) [
        | inl p ↦ rw p (
            at_entry
            ∙ if_true (returns minus_one k) h.live
            ∙ if_true (sem_block es k.current (locked i (enlist (get_current_pid k)) k))
                (sym test ∙ p)
            ∙ ap (λ e. returns (pos 0) (with_sem i e k))
                (ap₂ (entry (k.sems i)) (ap (λ n. n - 1) h.value) h.waiting))
        | inr p ↦ rw p (
            at_entry
            ∙ if_true (returns minus_one k) h.live
            ∙ if_false (returns (pos 0) (locked i take_one k)) (sym test ∙ p)
            ∙ ap (λ pid. sem_block es k.current (locked i (enlist pid) k)) c
            ∙ ap (λ e. sem_block es k.current (with_sem i e k))
                (ap₂ (entry (k.sems i)) h.value (enlisted-map t _ g.waiting h.waiting)))
      ]

  -- The kernel's `sem_post` and `sem_wait` on an open semaphore do what a program with the pids of its
  -- processes sees of them. A post returns 0 and wakes the process that goes through, if one waits; a wait
  -- returns 0 or puts the caller to sleep. Up to there nothing else has changed but the value and the
  -- queue of that semaphore, and its lock, which is released.
  pub sem_calls-Gate :
      (i t : ℕ) (g : Gate) (k : System M)
      → i < max_sems
      → get_current_pid k ≡ pos t
      → Shows (k.sems i) g
      → Posts i g k × ((es : List (System M → System M)) → Waits es t i g k)
  unfolding sem_post sem_post_at
  sem_calls-Gate i t g k b c h =
      let same = released i g.waiting g k refl h in
      let at_entry : sem_post (pos i) k ≡ (pos 0, sem_release i (k.sems i).blocked_pids k) =
        rw (lt→ltb i max_sems b, h.live) refl in
      (
        at_entry ∙ ap (λ ps. (pos 0, sem_release i ps k)) h.waiting ∙ ap (λ s. (pos 0, s)) same,
        λ es. waited es i t g k b c h,
      )
