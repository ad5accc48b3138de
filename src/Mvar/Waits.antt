-- ===== src/Mvar/Waits.antt =====
-- The first wait of a process of `mvar`: it goes through, or falls asleep.
use tp_so.Prelude.{
  ℕ, ◌≡◌, refl, sym, ap, ◌⊎◌, inr, [], ◌∷◌, length, All, All-append, Distinct, Distinct-snoc,
  update, update_elim, arith, if_elim, ltb,
}
use tp_so.Machine.{max_blocked}
use tp_so.Gate.{enlisted}
use tp_so.Mvar.{lock, Worker, Role, Mvar, resting, awake_at}
use tp_so.Mvar.Inv.{
  Turn, can_write, writing, can_read, reading, sleeping, IsWriter, IsReader, NotAt, Phase, Inv,
  WriterAt, ReaderAt, changes, sleepers_kept, awake-Absent,
}
use tp_so.Mvar.Moves.{update_self, awake}

module _ (role : ℕ → Role) where
  -- A writer starts where nobody is at it and nothing is left to read.
  pub writer_starts :
      (u : ℕ) (m : Mvar)
      → IsWriter (role u)
      → m.workers u ≡ resting
      → Inv role can_write m
      → Inv role (writing u) (record m {
        workers = update m.workers u (awake_at lock);
        empty = record (m.empty) { value = 0 };
      })
  writer_starts u m i e v =
      changes role (writing u) u (awake_at lock) 0 m.full.value m.mutex m.val m.written m.shown v
        (awake (m.workers u) (ap (λ (w : Worker). w.asleep) e)) (λ n. absurd (n refl))
        (λ s d n. v.idle s tt)
        (
          refl,
          v.phase.1,
          rw (update_self m.workers u (awake_at lock)) (i, refl, (v.phase.2, v.phase.3)),
        )

  -- Where not, it falls asleep.
  pub writer_sleeps :
      (u : ℕ) (m : Mvar) (turn : Turn)
      → IsWriter (role u)
      → m.workers u ≡ resting
      → m.empty.value ≡ 0
      → NotAt turn u
      → Inv role turn m
      → Inv role turn (record m {
        workers = update m.workers u sleeping;
        empty = record (m.empty) { waiting = enlisted u m.empty.waiting };
      })
  unfolding enlisted
  writer_sleeps u m turn i e z n v =
      let up = awake (m.workers u) (ap (λ (w : Worker). w.asleep) e) in
      let ws = update m.workers u sleeping in
      let kept =
        sleepers_kept (λ t. IsWriter (role t)) m.workers u sleeping m.empty.waiting up v.writers in
      record {
        idle = λ s d.
            update_elim (λ x. (x ≡ resting) ⊎ (x ≡ sleeping)) m.workers u sleeping s (λ _. inr refl)
              (λ _. v.idle s d);
        writers =
            if_elim (All (λ t. IsWriter (role t) × (ws t ≡ sleeping)))
              (ltb (length m.empty.waiting) max_blocked)
              (λ _.
                All-append (λ t. IsWriter (role t) × (ws t ≡ sleeping)) m.empty.waiting (u ∷ [])
                  kept ((i, update_self m.workers u sleeping), tt))
              (λ _. kept);
        readers =
            sleepers_kept (λ t. IsReader (role t)) m.workers u sleeping m.full.waiting up v.readers;
        writers_once =
            if_elim Distinct (ltb (length m.empty.waiting) max_blocked)
              (λ _.
                Distinct-snoc m.empty.waiting u v.writers_once
                  (awake-Absent (λ t. IsWriter (role t)) m.workers u m.empty.waiting up v.writers))
              (λ _. v.writers_once);
        readers_once = v.readers_once;
        phase = still turn n v.phase;
      }
    where
      still :
          (turn : Turn)
          → NotAt turn u
          → Phase role turn m
          → Phase role turn (record m {
            workers = update m.workers u sleeping;
            empty = record (m.empty) { waiting = enlisted u m.empty.waiting };
          })
      still can_write n p = absurd (omega arith)
      still (writing s) n p = (
        p.0,
        p.1,
        update_elim (λ w. WriterAt role s w m) m.workers u sleeping s (λ q. absurd (n (sym q)))
            (λ _. p.2),
      )
      still can_read n p = p
      still (reading s) n p = (
        p.0,
        p.1,
        update_elim (λ w. ReaderAt role s w m) m.workers u sleeping s (λ q. absurd (n (sym q)))
            (λ _. p.2),
      )

  -- A reader starts where nobody is at it and there is a value to read.
  pub reader_starts :
      (u : ℕ) (m : Mvar)
      → IsReader (role u)
      → m.workers u ≡ resting
      → Inv role can_read m
      → Inv role (reading u) (record m {
        workers = update m.workers u (awake_at lock);
        full = record (m.full) { value = 0 };
      })
  reader_starts u m i e v =
      changes role (reading u) u (awake_at lock) m.empty.value 0 m.mutex m.val m.written m.shown v
        (awake (m.workers u) (ap (λ (w : Worker). w.asleep) e)) (λ n. absurd (n refl))
        (λ s d n. v.idle s tt)
        (
          v.phase.0,
          refl,
          rw (update_self m.workers u (awake_at lock)) (i, refl, (v.phase.2, v.phase.3)),
        )

  -- Where not, it falls asleep.
  pub reader_sleeps :
      (u : ℕ) (m : Mvar) (turn : Turn)
      → IsReader (role u)
      → m.workers u ≡ resting
      → m.full.value ≡ 0
      → NotAt turn u
      → Inv role turn m
      → Inv role turn (record m {
        workers = update m.workers u sleeping;
        full = record (m.full) { waiting = enlisted u m.full.waiting };
      })
  unfolding enlisted
  reader_sleeps u m turn i e z n v =
      let up = awake (m.workers u) (ap (λ (w : Worker). w.asleep) e) in
      let ws = update m.workers u sleeping in
      let kept =
        sleepers_kept (λ t. IsReader (role t)) m.workers u sleeping m.full.waiting up v.readers in
      record {
        idle = λ s d.
            update_elim (λ x. (x ≡ resting) ⊎ (x ≡ sleeping)) m.workers u sleeping s (λ _. inr refl)
              (λ _. v.idle s d);
        readers =
            if_elim (All (λ t. IsReader (role t) × (ws t ≡ sleeping)))
              (ltb (length m.full.waiting) max_blocked)
              (λ _.
                All-append (λ t. IsReader (role t) × (ws t ≡ sleeping)) m.full.waiting (u ∷ []) kept
                  ((i, update_self m.workers u sleeping), tt))
              (λ _. kept);
        writers =
            sleepers_kept (λ t. IsWriter (role t)) m.workers u sleeping m.empty.waiting up
              v.writers;
        readers_once =
            if_elim Distinct (ltb (length m.full.waiting) max_blocked)
              (λ _.
                Distinct-snoc m.full.waiting u v.readers_once
                  (awake-Absent (λ t. IsReader (role t)) m.workers u m.full.waiting up v.readers))
              (λ _. v.readers_once);
        writers_once = v.writers_once;
        phase = still turn n v.phase;
      }
    where
      still :
          (turn : Turn)
          → NotAt turn u
          → Phase role turn m
          → Phase role turn (record m {
            workers = update m.workers u sleeping;
            full = record (m.full) { waiting = enlisted u m.full.waiting };
          })
      still can_read n p = absurd (omega arith)
      still (reading s) n p = (
        p.0,
        p.1,
        update_elim (λ w. ReaderAt role s w m) m.workers u sleeping s (λ q. absurd (n (sym q)))
            (λ _. p.2),
      )
      still can_write n p = p
      still (writing s) n p = (
        p.0,
        p.1,
        update_elim (λ w. WriterAt role s w m) m.workers u sleeping s (λ q. absurd (n (sym q)))
            (λ _. p.2),
      )
