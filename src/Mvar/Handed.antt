-- ===== src/Mvar/Handed.antt =====
-- What `mvar` promises: the values are handed over one by one, and one process at a time is at the
-- variable.
use tp_so.Prelude.{
  ℕ, ◌≤◌, ◌≡◌, refl, sym, ◌∙◌, subst, ◌⊎◌, inl, inr, List, [], ◌∷◌, ◌++◌, length, append-nil,
  Bool-cases, ◌==◌, arith,
}
use tp_so.Mvar.{
  Loc, start, lock, access, show, unlock, pass, Worker, Role, Mvar, resting, cmd_mvar, run,
}
use tp_so.Mvar.Inv.{
  Turn, can_write, writing, can_read, reading, sleeping, values, Inv, Writes, Reads,
}
use tp_so.Mvar.Steps.{run-Turns}

-- Between `sem_wait(sem_mutex)` and `sem_post(sem_mutex)`.
abbrev pub IsInside : Loc → Type 0
IsInside start = ⊥
IsInside lock = ⊥
IsInside access = Unit {0}
IsInside (show c) = Unit {0}
IsInside unlock = Unit {0}
IsInside pass = ⊥

-- Apart from at most one value that is left in the variable, what was printed is what was written, and no two
-- processes are at the variable together.
pub record HandedOver (m : Mvar) : Type 0 where
  pub left : List ℕ
  pub one_at_most : length left ≤ 1
  pub in_order : m.written ≡ values m.shown ++ left
  pub alone : (t u : ℕ) → IsInside (m.workers t).at → IsInside (m.workers u).at → t ≡ u

-- The process whose turn it is, if there is one.
abbrev At : Turn → ℕ → Type 0
At can_write t = ⊥
At (writing u) t = t ≡ u
At can_read t = ⊥
At (reading u) t = t ≡ u

module _ (role : ℕ → Role) where
  idle_outside : (w : Worker) → (w ≡ resting) ⊎ (w ≡ sleeping) → IsInside w.at → ⊥
  idle_outside w (inl e) i = subst (λ (x : Worker). IsInside x.at) e i
  idle_outside w (inr e) i = subst (λ (x : Worker). IsInside x.at) e i

  inside-At :
      (turn : Turn) (m : Mvar) (t : ℕ) → Inv role turn m → IsInside (m.workers t).at → At turn t
  inside-At can_write m t v i = idle_outside (m.workers t) (v.idle t tt) i
  inside-At can_read m t v i = idle_outside (m.workers t) (v.idle t tt) i
  inside-At (writing u) m t v i = elim (Bool-cases (t == u)) [
    | inl e ↦ ground arith
    | inr e ↦ absurd (idle_outside (m.workers t) (v.idle t (λ q. absurd (ground arith))) i)
  ]
  inside-At (reading u) m t v i = elim (Bool-cases (t == u)) [
    | inl e ↦ ground arith
    | inr e ↦ absurd (idle_outside (m.workers t) (v.idle t (λ q. absurd (ground arith))) i)
  ]

  both-At : (turn : Turn) (t u : ℕ) → At turn t → At turn u → t ≡ u
  both-At can_write t u a b = absurd a
  both-At (writing s) t u a b = a ∙ sym b
  both-At can_read t u a b = absurd a
  both-At (reading s) t u a b = a ∙ sym b

  -- What the variable holds that is not printed yet.
  abbrev Unprinted : Mvar → Type 0
  Unprinted m = (left : List ℕ) × (length left ≤ 1) × (m.written ≡ values m.shown ++ left)

  nothing_left : (m : Mvar) → m.written ≡ values m.shown → Unprinted m
  nothing_left m e = ([], omega arith, e ∙ sym (append-nil (values m.shown)))

  left_by_writer : (m : Mvar) (l : Loc) → Writes l m.mutex m.val m.written m.shown → Unprinted m
  left_by_writer m start q = absurd q
  left_by_writer m lock q = nothing_left m q.1
  left_by_writer m access q = nothing_left m q.1
  left_by_writer m (show c) q = absurd q
  left_by_writer m unlock q = (m.val ∷ [], omega arith, q.1)
  left_by_writer m pass q = (m.val ∷ [], omega arith, q.1)

  left_by_reader : (m : Mvar) (l : Loc) → Reads l m.mutex m.val m.written m.shown → Unprinted m
  left_by_reader m start q = absurd q
  left_by_reader m lock q = (m.val ∷ [], omega arith, q.1)
  left_by_reader m access q = (m.val ∷ [], omega arith, q.1)
  left_by_reader m (show c) q = (c ∷ [], omega arith, q.1)
  left_by_reader m unlock q = nothing_left m q.1
  left_by_reader m pass q = nothing_left m q.1

  what_is_left : (turn : Turn) (m : Mvar) → Inv role turn m → Unprinted m
  what_is_left can_write m v = nothing_left m v.phase.3
  what_is_left (writing u) m v = left_by_writer m (m.workers u).at v.phase.2.2
  what_is_left can_read m v = (m.val ∷ [], omega arith, v.phase.3)
  what_is_left (reading u) m v = left_by_reader m (m.workers u).at v.phase.2.2

  starts : Inv role can_write cmd_mvar
  starts = record {
    idle = λ t n. inl refl;
    writers = tt;
    readers = tt;
    writers_once = tt;
    readers_once = tt;
    phase = ((refl, refl), refl, (refl, refl), refl);
  }

  -- Whatever the roles of the processes that `mvar` starts, and whatever the order in which they take their
  -- steps: the letters printed so far are those written so far, in the same order, each once, but
  -- for at most one, the last, that is written and not yet printed; and never are two processes
  -- between `sem_wait` and `sem_post` of the mutex.
  pub run-HandedOver : (ts : List ℕ) → HandedOver (run role ts cmd_mvar)
  run-HandedOver ts =
      let (turn, v) = run-Turns role ts cmd_mvar (can_write, starts) in
      let m = run role ts cmd_mvar in
      let (left, one, order) = what_is_left turn m v in
      record {
        left = left;
        one_at_most = one;
        in_order = order;
        alone = λ t u a b. both-At turn t u (inside-At turn m t v a) (inside-At turn m u v b);
      }
